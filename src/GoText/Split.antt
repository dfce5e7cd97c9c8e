-- ===== src/GoText/Split.antt =====
-- Texts that hold no separator and no space: what Split, TrimSpace and HasPrefix do to them.
use kube_smart_scheduler.Prelude.{
  ℕ, ◌≡◌, refl, ◌∙◌, ap, true, false, List, [], ◌∷◌, ◌++◌, arith, ◌==◌, All, append-nil,
}
use kube_smart_scheduler.GoText.{
  Text, has_prefix, is_space, trim_left, trim_right, trim_space, split,
}

-- The text has no c in it.
abbrev pub Lacks : ℕ → Text → Type 0
Lacks c = All (λ d. (d == c) ≡ false)

abbrev pub NoSpace : Text → Type 0
NoSpace = All (λ d. is_space d ≡ false)

-- Every part behind a separator.
abbrev pub separated : ℕ → List Text → Text
separated sep [] = []
separated sep (p ∷ ps) = (sep ∷ p) ++ separated sep ps

pub split_whole : (sep : ℕ) (p : Text) → Lacks sep p → split sep p ≡ p ∷ []
unfolding split
split_whole sep [] h = refl
split_whole sep (c ∷ p) h = ground (arith, split_whole sep p h.1)

pub split_at_sep :
    (sep : ℕ) (p rest : Text) → Lacks sep p → split sep (p ++ sep ∷ rest) ≡ p ∷ split sep rest
unfolding split
split_at_sep sep [] rest h = ground arith
split_at_sep sep (c ∷ p) rest h = ground (arith, split_at_sep sep p rest h.1)

-- Splitting a text whose parts hold no separator gives the parts back.
pub split-separated :
    (sep : ℕ) (p : Text) (ps : List Text)
    → Lacks sep p
    → All (Lacks sep) ps
    → split sep (p ++ separated sep ps) ≡ p ∷ ps
split-separated sep p [] h _ = ap (split sep) (append-nil p) ∙ split_whole sep p h
split-separated sep p (q ∷ ps) h (hq, hs) =
    split_at_sep sep p (q ++ separated sep ps) h ∙ ap (λ r. p ∷ r) (split-separated sep q ps hq hs)

trim_right-id : (s : Text) → NoSpace s → trim_right s ≡ s
unfolding trim_right
trim_right-id [] h = refl
trim_right-id (c ∷ s) h = ground (arith, trim_right-id s h.1)

-- Trimming changes nothing where no space stands.
pub trim_space-id : (s : Text) → NoSpace s → trim_space s ≡ s
unfolding trim_space trim_left
trim_space-id [] h = refl
trim_space-id (c ∷ s) h = ground (arith, trim_right-id (c ∷ s) h)

-- A prefix with a character that the text lacks is none of its prefixes.
pub has_prefix-Lacks :
    (c : ℕ) (s before after : Text) → Lacks c s → has_prefix s (before ++ c ∷ after) ≡ false
unfolding has_prefix
has_prefix-Lacks c [] [] after h = refl
has_prefix-Lacks c (d ∷ s) [] after h = ground arith
has_prefix-Lacks c [] (b ∷ before) after h = refl
has_prefix-Lacks c (d ∷ s) (b ∷ before) after h =
    ground (arith, has_prefix-Lacks c s before after h.1)

pub has_prefix-append : (p s : Text) → has_prefix (p ++ s) p ≡ true
unfolding has_prefix
has_prefix-append [] [] = refl
has_prefix-append [] (c ∷ s) = refl
has_prefix-append (c ∷ p) s = ground (arith, has_prefix-append p s)
