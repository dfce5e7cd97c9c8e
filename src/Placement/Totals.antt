-- ===== src/Placement/Totals.antt =====
-- The number of pods that ApplyPlacementStrategy adds up from the counts.
use mathlib.Core.List.{Permᴰ}
use kube_smart_scheduler.Prelude.{
  ℕ, suc, ◌+◌, ◌<◌, length, arith, ◌≡◌, refl, sym, ap, ◌∙◌, inl, inr, Bool-cases, true, false, List,
  [], ◌∷◌,
}
use kube_smart_scheduler.Prelude.Int.{ℤ, pos}
use kube_smart_scheduler.Prelude.Int64.{half_word, add64, add64_comm, add64_assoc}
use kube_smart_scheduler.GoText.{Text, text_eq}
use kube_smart_scheduler.GoMap.{Map, insert, get_or, lookup, Order, IsOrder, range}
use kube_smart_scheduler.Placement.{total_pods}
use kube_smart_scheduler.Counting.{count_up}

add64-swap : (a b c : ℤ) → add64 (add64 a b) c ≡ add64 (add64 a c) b
add64-swap a b c = add64_assoc a b c ∙ ap (add64 a) (add64_comm b c) ∙ sym (add64_assoc a c b)

pub total_pods-add64 : (m : Map ℤ) (t x : ℤ) → total_pods m (add64 t x) ≡ add64 (total_pods m t) x
unfolding total_pods
total_pods-add64 [] t x = refl
total_pods-add64 ((k, c) ∷ m) t x =
    ap (total_pods m) (add64-swap t x c) ∙ total_pods-add64 m (add64 t c) x

-- The total does not depend on the order of the visit.
pub total_pods-perm : {m n : Map ℤ} (t : ℤ) → Permᴰ m n → total_pods m t ≡ total_pods n t
unfolding total_pods
total_pods-perm t Permᴰ.nil = refl
total_pods-perm t (Permᴰ.cons {l₁ = l} e p) =
    ap (λ x. total_pods l (add64 t x.1)) e ∙ total_pods-perm _ p
total_pods-perm t (Permᴰ.swap {a' = a'} {b' = b'} {l = l} e f) =
    rw (e, f) (ap (total_pods l) (add64-swap t b'.1 a'.1))
total_pods-perm t (Permᴰ.trans p q) = total_pods-perm t p ∙ total_pods-perm t q

pub total_pods-range :
    (oc : Order ℤ) (m : Map ℤ) (t : ℤ) → IsOrder oc → total_pods (range oc m) t ≡ total_pods m t
total_pods-range oc m t h = total_pods-perm t (h [] m)

count_up-nil : (k : Text) → count_up k [] ≡ (k, pos 1) ∷ []
unfolding count_up insert get_or lookup add64
count_up-nil k = refl

count_up-head :
    (k j : Text) (w : ℤ) (m : Map ℤ)
    → text_eq j k ≡ true
    → count_up k ((j, w) ∷ m) ≡ (k, add64 w (pos 1)) ∷ m
unfolding count_up insert get_or lookup
count_up-head k j w m e = ground arith

count_up-tail :
    (k j : Text) (w : ℤ) (m : Map ℤ)
    → text_eq j k ≡ false
    → count_up k ((j, w) ∷ m) ≡ (j, w) ∷ count_up k m
unfolding count_up insert get_or lookup
count_up-tail k j w m e = ground arith

-- Counting one pod for a key, old or new, adds one to the total.
pub total_pods-count_up :
    (k : Text) (m : Map ℤ) (t : ℤ) → total_pods (count_up k m) t ≡ add64 (total_pods m t) (pos 1)
unfolding total_pods
total_pods-count_up k [] t = rw (count_up-nil k) refl
total_pods-count_up k ((j, w) ∷ m) t = elim (Bool-cases (text_eq j k)) [
  | inl same ↦
      rw (count_up-head k j w m same)
        (ap (total_pods m) (sym (add64_assoc t w (pos 1))) ∙ total_pods-add64 m (add64 t w) (pos 1))
  | inr differ ↦ rw (count_up-tail k j w m differ) (total_pods-count_up k m (add64 t w))
]

-- One pod counted for each key.
abbrev pub count_all : List Text → Map ℤ → Map ℤ
count_all [] counts = counts
count_all (key ∷ keys) counts = count_up key (count_all keys counts)

add64-pos : (n : ℕ) → suc n < half_word → add64 (pos n) (pos 1) ≡ pos (suc n)
unfolding add64
add64-pos n h = ground arith

pub total_pods-count_all :
    (keys : List Text) (counts : Map ℤ) (n : ℕ)
    → total_pods counts (pos 0) ≡ pos n
    → n + length keys < half_word
    → total_pods (count_all keys counts) (pos 0) ≡ pos (n + length keys)
total_pods-count_all [] counts n e h = e ∙ ap pos (omega arith)
total_pods-count_all (key ∷ keys) counts n e h =
    let before = total_pods-count_all keys counts n e (omega arith) in
    total_pods-count_up key (count_all keys counts) (pos 0)
    ∙ ap (λ t. add64 t (pos 1)) before
    ∙ add64-pos (n + length keys) (omega arith)
    ∙ ap pos (omega arith)
