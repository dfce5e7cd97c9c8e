-- ===== src/Counting/Within.antt =====
-- The pods that are counted, in number.
use kube_smart_scheduler.Prelude.{
  ℕ, suc, ◌+◌, ◌≤◌, ◌<◌, ◌≡◌, refl, ap, ◌∙◌, ◌⊎◌, inl, inr, Bool-cases, ◌||◌, List, [], ◌∷◌, length,
  arith, if◌then◌else◌,
}
use kube_smart_scheduler.Prelude.Int.{ℤ, pos}
use kube_smart_scheduler.Prelude.Int64.{add64, half_word}
use kube_smart_scheduler.GoText.{Text, text_eq}
use kube_smart_scheduler.GoMap.{Map, Order, ◌▹◌}
use kube_smart_scheduler.Strategy.{PlacementRule, node_selector_to_string, rule_to_string}
use kube_smart_scheduler.Kube.{Pod}
use kube_smart_scheduler.Placement.{total_pods}
use kube_smart_scheduler.Placement.Totals.{total_pods-count_up}
use kube_smart_scheduler.Rebalance.Written.{add64-pos, AllZero, AllZero-insert, total_pods-AllZero}
use kube_smart_scheduler.Counting.{
  is_node_selector_subset, count_up, initial_counts, is_counted, count_by_rule, count_pods,
  counts_of,
}

-- The pods that run or are pending, and are not being deleted.
abbrev pub counted : List Pod → ℕ
counted [] = 0
counted (pod ∷ pods) = let rest = counted pods in if is_counted pod then suc rest else rest

-- A pod is counted once, or not at all.
abbrev pub IsOneMore : Map ℤ → Map ℤ → Type 0
IsOneMore counts after = (after ≡ counts) ⊎ ((key : Text) × (after ≡ count_up key counts))

count_by_rule-IsOneMore :
    (o : Order Text) (j : ℕ) (pod_key : Text) (pod_selector : Map Text) (rules : List PlacementRule)
    (counts : Map ℤ)
    → IsOneMore counts (count_by_rule o j pod_key pod_selector rules counts)
unfolding count_by_rule
count_by_rule-IsOneMore o j pod_key pod_selector [] counts = inl refl
count_by_rule-IsOneMore o j pod_key pod_selector (rule ∷ rules) counts =
    let rest = count_by_rule-IsOneMore o (suc j) pod_key pod_selector rules counts in
    elim (Bool-cases (
      text_eq pod_key (rule_to_string (o ▹ j) rule)
      || is_node_selector_subset rule.node_selector pod_selector)) [
        | inl first ↦ rw first (inr (rule_to_string (o ▹ j) rule, refl))
        | inr later ↦ rw later rest
      ]

-- The total is a number up to a bound.
abbrev pub IsAtMost : ℕ → Map ℤ → Type 0
IsAtMost bound counts = (n : ℕ) × (total_pods counts (pos 0) ≡ pos n) × (n ≤ bound)

IsAtMost-equal : (a b : ℕ) (counts : Map ℤ) → a ≡ b → IsAtMost a counts → IsAtMost b counts
IsAtMost-equal a b counts e (n, total, le) = (n, total, omega arith)

IsAtMost-more :
    (bound : ℕ) (counts after : Map ℤ)
    → suc bound < half_word
    → IsOneMore counts after
    → IsAtMost bound counts
    → IsAtMost (suc bound) after
IsAtMost-more bound counts after fits (inl same) (n, total, le) =
    (n, ap (λ c. total_pods c (pos 0)) same ∙ total, omega arith)
IsAtMost-more bound counts after fits (inr (key, more)) (n, total, le) = (
  n + 1,
  ap (λ c. total_pods c (pos 0)) more
      ∙ total_pods-count_up key counts (pos 0)
      ∙ ap (λ t. add64 t (pos 1)) total
      ∙ add64-pos n 1 (omega arith),
  omega arith,
)

count_pods-IsAtMost :
    (o : Order Text) (i : ℕ) (pods : List Pod) (rules : List PlacementRule) (bound : ℕ)
    (counts : Map ℤ)
    → bound + length pods < half_word
    → IsAtMost bound counts
    → IsAtMost (bound + counted pods) (count_pods o i pods rules counts)
unfolding count_pods
count_pods-IsAtMost o i [] rules bound counts fits (n, total, le) = (n, total, omega arith)
count_pods-IsAtMost o i (pod ∷ pods) rules bound counts fits h =
    elim (Bool-cases (is_counted pod)) [
      | inl here ↦ rw here (
          IsAtMost-equal (suc bound + counted pods) (bound + suc (counted pods)) _ (omega arith) (
            count_pods-IsAtMost o (suc i) pods rules (suc bound) _ (omega arith) (
              IsAtMost-more bound counts _ (omega arith)
                (count_by_rule-IsOneMore (o ▹ i ▹ 1) 0
                  (node_selector_to_string (o ▹ i ▹ 0) pod.node_selector) pod.node_selector rules
                  counts)
                h)))
      | inr passed ↦
          rw passed (count_pods-IsAtMost o (suc i) pods rules bound counts (omega arith) h)
    ]

AllZero-initial_counts :
    (o : Order Text) (i : ℕ) (rules : List PlacementRule) (m : Map ℤ)
    → AllZero m
    → AllZero (initial_counts o i rules m)
unfolding initial_counts
AllZero-initial_counts o i [] m h = h
AllZero-initial_counts o i (rule ∷ rules) m h =
    AllZero-initial_counts o (suc i) rules _ (AllZero-insert (rule_to_string (o ▹ i) rule) m h)

-- The counts of listed pods add up to no more than the pods that run or are pending and are not being
-- deleted, if the list is shorter than the largest int: no pod is counted twice, though it may match
-- several rules.
pub counts_of-IsAtMost :
    (o : Order Text) (pods : List Pod) (rules : List PlacementRule)
    → length pods < half_word
    → IsAtMost (counted pods) (counts_of o pods rules)
unfolding counts_of
counts_of-IsAtMost o pods rules fits =
    IsAtMost-equal (0 + counted pods) (counted pods) _ (omega arith) (
      count_pods-IsAtMost (o ▹ 1) 0 pods rules 0 _ (omega arith)
        (0, total_pods-AllZero _ (AllZero-initial_counts (o ▹ 0) 0 rules [] tt), omega arith))
