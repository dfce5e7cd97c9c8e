-- ===== src/Strategy/Parse/Names.antt =====
-- Names without spaces and separators, and the texts that are built of them.
use kube_smart_scheduler.Prelude.{
  ℕ, ◌≡◌, ◌≢◌, refl, false, ◌||◌, [], ◌∷◌, ◌++◌, arith, ◌==◌, All, All-append, All-map,
}
use kube_smart_scheduler.Prelude.Int.{ℤ}
use kube_smart_scheduler.GoText.{Text, codes, trim_space, is_space, is_empty}
use kube_smart_scheduler.GoText.Number.{itoa, All-itoa, IsDigit}
use kube_smart_scheduler.GoText.Split.{Lacks, NoSpace, trim_space-id}

-- A character that stands in names: no space, and none of the separators , ; : =
abbrev pub IsPlain : ℕ → Type 0
IsPlain c = (is_space c || c == b',' || c == b';' || c == b':' || c == b'=') ≡ false

-- A character that may stand inside one parameter.
abbrev pub IsInner : ℕ → Type 0
IsInner c = (is_space c || c == b',' || c == b';') ≡ false

abbrev pub IsName : Text → Type 0
IsName s = (s ≢ []) × All IsPlain s

IsInner-of_plain : (c : ℕ) → IsPlain c → IsInner c
IsInner-of_plain c h = ground arith

pub All-IsInner_of_plain : (s : Text) → All IsPlain s → All IsInner s
All-IsInner_of_plain s = All-map s IsInner-of_plain

pub NoSpace-of_inner : (s : Text) → All IsInner s → NoSpace s
NoSpace-of_inner s = All-map s (λ c h. ground arith)

pub trim_inner : (s : Text) → All IsInner s → trim_space s ≡ s
trim_inner s h = trim_space-id s (NoSpace-of_inner s h)

pub trim_plain : (s : Text) → All IsPlain s → trim_space s ≡ s
trim_plain s h = trim_inner s (All-IsInner_of_plain s h)

pub Lacks-comma : (s : Text) → All IsInner s → Lacks b',' s
Lacks-comma s = All-map s (λ c h. ground arith)

pub Lacks-semicolon : (s : Text) → All IsInner s → Lacks b';' s
Lacks-semicolon s = All-map s (λ c h. ground arith)

pub Lacks-colon : (s : Text) → All IsPlain s → Lacks b':' s
Lacks-colon s = All-map s (λ c h. ground arith)

pub Lacks-equals : (s : Text) → All IsPlain s → Lacks b'=' s
Lacks-equals s = All-map s (λ c h. ground arith)

IsInner-digit : (c : ℕ) → IsDigit c → IsInner c
unfolding is_space
IsInner-digit c h = ground arith

pub IsInner-itoa : (z : ℤ) → All IsInner (itoa z)
unfolding is_space
IsInner-itoa z = All-itoa z refl IsInner-digit

pub IsInner-weight : (z : ℤ) → All IsInner (codes "weight=" ++ itoa z)
unfolding is_space
IsInner-weight z = All-append IsInner (codes "weight=") (itoa z) (ground arith) (IsInner-itoa z)

-- A pair of names, as nodeSelector lists it.
abbrev pub IsNamePair : Text × Text → Type 0
IsNamePair (k, v) = IsName k × IsName v

pub IsInner-pair : (k v : Text) → All IsPlain k → All IsPlain v → All IsInner (k ++ b':' ∷ v)
unfolding is_space
IsInner-pair k v hk hv =
    All-append IsInner k (b':' ∷ v) (All-IsInner_of_plain k hk) (refl, All-IsInner_of_plain v hv)

pub Lacks-equals-pair : (k v : Text) → All IsPlain k → All IsPlain v → Lacks b'=' (k ++ b':' ∷ v)
Lacks-equals-pair k v hk hv =
    All-append (λ d. (d == b'=') ≡ false) k (b':' ∷ v) (Lacks-equals k hk) (refl, Lacks-equals v hv)

pub is_empty-name : (s : Text) → s ≢ [] → is_empty s ≡ false
unfolding is_empty
is_empty-name [] h = absurd (h refl)
is_empty-name (c ∷ s) h = refl

pub is_empty-pair : (k v : Text) → is_empty (k ++ b':' ∷ v) ≡ false
unfolding is_empty
is_empty-pair [] v = refl
is_empty-pair (c ∷ k) v = refl

pub IsInner-base : (z : ℤ) → All IsInner (codes "base=" ++ itoa z)
unfolding is_space
IsInner-base z = All-append IsInner (codes "base=") (itoa z) (ground arith) (IsInner-itoa z)
