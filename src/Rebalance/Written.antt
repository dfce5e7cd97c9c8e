-- ===== src/Rebalance/Written.antt =====
-- The total of counts after an entry is written, and the orders of the numbers in them.
use kube_smart_scheduler.Prelude.{
  ℕ, suc, ◌+◌, ◌-◌, ◌≤◌, ◌<◌, ◌≡◌, refl, sym, ap, ◌∙◌, ◌⊎◌, inl, inr, Bool-cases, true, false, List,
  [], ◌∷◌, arith, All,
}
use kube_smart_scheduler.Prelude.Int.{ℤ, pos, ltb_ℤ}
use kube_smart_scheduler.Prelude.Int64.{add64, sub64, add64_assoc, half_word, bits, signed}
use kube_smart_scheduler.GoText.{Text, text_eq}
use kube_smart_scheduler.GoMap.{Map, insert, get_or, Order, ◌▹◌}
use kube_smart_scheduler.GoMap.Laws.{get_or-nil, get_or-head, get_or-tail}
use kube_smart_scheduler.Strategy.{PlacementRule}
use kube_smart_scheduler.Placement.{total_pods}
use kube_smart_scheduler.Placement.Totals.{total_pods-add64}
use kube_smart_scheduler.Rebalance.{leb_ℤ, rule_to_string, initial_counts}

insert-nil : (k : Text) (v : ℤ) → insert k v [] ≡ (k, v) ∷ []
unfolding insert
insert-nil k v = refl

insert-head :
    (k j : Text) (v w : ℤ) (m : Map ℤ) → text_eq j k ≡ true → insert k v ((j, w) ∷ m) ≡ (k, v) ∷ m
unfolding insert
insert-head k j v w m e = rw e refl

insert-tail :
    (k j : Text) (v w : ℤ) (m : Map ℤ)
    → text_eq j k ≡ false
    → insert k v ((j, w) ∷ m) ≡ (j, w) ∷ insert k v m
unfolding insert
insert-tail k j v w m e = rw e refl

pub add64-pos : (a b : ℕ) → a + b < half_word → add64 (pos a) (pos b) ≡ pos (a + b)
unfolding add64 bits signed
add64-pos a b h = ground arith

add64-zero : (c : ℕ) → c < half_word → add64 (pos 0) (pos c) ≡ pos c
add64-zero c h = add64-pos 0 c (omega arith) ∙ ap pos (omega arith)

pub sub64-pos : (a b : ℕ) → b ≤ a → a < half_word → sub64 (pos a) (pos b) ≡ pos (a - b)
unfolding sub64 bits signed
sub64-pos a b le h = ground arith

pub leb_ℤ-le : (a b : ℕ) → a ≤ b → leb_ℤ (pos a) (pos b) ≡ true
leb_ℤ-le a b h = ground arith

pub leb_ℤ-lt : (a b : ℕ) → b < a → leb_ℤ (pos a) (pos b) ≡ false
leb_ℤ-lt a b h = ground arith

pub ltb_ℤ-zero : (a : ℕ) → 0 < a → ltb_ℤ (pos 0) (pos a) ≡ true
ltb_ℤ-zero a h = ground arith

pub le_or_lt : (a b : ℕ) → (a ≤ b) ⊎ (b < a)
le_or_lt a b = ground arith

-- Writing a sum adds to the total what was added to the entry.
total_pods-insert :
    (k : Text) (c : ℕ) (m : Map ℤ) (t : ℤ)
    → c < half_word
    → total_pods (insert k (add64 (get_or k m (pos 0)) (pos c)) m) t
      ≡ add64 (total_pods m t) (pos c)
unfolding total_pods
total_pods-insert k c [] t h =
    rw (get_or-nil {V = ℤ} k (pos 0), insert-nil k (add64 (pos 0) (pos c)))
      (ap (add64 t) (add64-zero c h))
total_pods-insert k c ((j, w) ∷ m) t h = elim (Bool-cases (text_eq j k)) [
  | inl same ↦
      rw (get_or-head k j w (pos 0) m same, insert-head k j (add64 w (pos c)) w m same)
        (ap (total_pods m) (sym (add64_assoc t w (pos c))) ∙ total_pods-add64 m (add64 t w) (pos c))
  | inr differ ↦
      rw
        (
          get_or-tail k j w (pos 0) m differ,
          insert-tail k j (add64 (get_or k m (pos 0)) (pos c)) w m differ,
        )
        (total_pods-insert k c m (add64 t w) h)
]

-- The same, where the total is a number.
pub total_pods-insert_pos :
    (k : Text) (c n : ℕ) (m : Map ℤ)
    → total_pods m (pos 0) ≡ pos n
    → n + c < half_word
    → total_pods (insert k (add64 (get_or k m (pos 0)) (pos c)) m) (pos 0) ≡ pos (n + c)
total_pods-insert_pos k c n m e h =
    total_pods-insert k c m (pos 0) (omega arith) ∙ ap (λ t. add64 t (pos c)) e ∙ add64-pos n c h

abbrev pub AllZero : Map ℤ → Type 0
AllZero = All (λ entry. entry.1 ≡ pos 0)

pub AllZero-insert : (k : Text) (m : Map ℤ) → AllZero m → AllZero (insert k (pos 0) m)
unfolding insert
AllZero-insert k [] h = (refl, tt)
AllZero-insert k ((j, w) ∷ m) (here, there) = elim (Bool-cases (text_eq j k)) [
  | inl same ↦ rw same (refl, there)
  | inr differ ↦ rw differ (here, AllZero-insert k m there)
]

pub AllZero-initial_counts :
    (o : Order Text) (i : ℕ) (rules : List PlacementRule) (m : Map ℤ)
    → AllZero m
    → AllZero (initial_counts o i rules m)
unfolding initial_counts
AllZero-initial_counts o i [] m h = h
AllZero-initial_counts o i (rule ∷ rules) m h =
    AllZero-initial_counts o (suc i) rules (insert (rule_to_string (o ▹ i) rule) (pos 0) m)
      (AllZero-insert (rule_to_string (o ▹ i) rule) m h)

pub total_pods-AllZero : (m : Map ℤ) → AllZero m → total_pods m (pos 0) ≡ pos 0
unfolding total_pods
total_pods-AllZero [] h = refl
total_pods-AllZero ((j, w) ∷ m) (here, there) =
    ap (λ c. total_pods m (add64 (pos 0) c)) here
    ∙ ap (total_pods m) (add64-pos 0 0 (omega arith))
    ∙ total_pods-AllZero m there

get_or-AllZero : (k : Text) (m : Map ℤ) → AllZero m → get_or k m (pos 0) ≡ pos 0
get_or-AllZero k [] h = get_or-nil {V = ℤ} k (pos 0)
get_or-AllZero k ((j, w) ∷ m) (here, there) = elim (Bool-cases (text_eq j k)) [
  | inl same ↦ get_or-head k j w (pos 0) m same ∙ here
  | inr differ ↦ get_or-tail k j w (pos 0) m differ ∙ get_or-AllZero k m there
]

-- The one entry that is written makes the total.
pub total_pods-first :
    (k : Text) (c : ℕ) (m : Map ℤ)
    → AllZero m
    → c < half_word
    → total_pods (insert k (pos c) m) (pos 0) ≡ pos c
total_pods-first k c m zeros h =
    ap (λ v. total_pods (insert k v m) (pos 0))
      (sym (ap (λ v. add64 v (pos c)) (get_or-AllZero k m zeros) ∙ add64-zero c h))
    ∙ total_pods-insert_pos k c 0 m (total_pods-AllZero m zeros) (omega arith)
    ∙ ap pos (omega arith)
