-- ===== src/Rebalance/Distribution.antt =====
-- How many pods calculateExpectedDistribution hands out.
use native.Mathlib.Nat.{
  le_of_mul-le-mul_right, lt_of_mul-lt-mul_right, div-mul-le_self, lt-div-mul-add,
}
use kube_smart_scheduler.Prelude.{
  ℕ, suc, ◌+◌, ◌-◌, ◌*◌, ◌/◌, ◌^◌, ◌≤◌, ◌<◌, ◌≡◌, refl, ap, ◌∙◌, inl, inr, List, [], ◌∷◌, length,
  arith, All,
}
use kube_smart_scheduler.Prelude.Int.{ℤ, pos, pos_part}
use kube_smart_scheduler.Prelude.Int64.{add64, half_word}
use kube_smart_scheduler.GoText.{Text}
use kube_smart_scheduler.GoMap.{Map, insert, get_or, Order, ◌▹◌}
use kube_smart_scheduler.Strategy.{PlacementRule, PlacementStrategy}
use kube_smart_scheduler.Float.{FloatOps, FloatLaws}
use kube_smart_scheduler.Placement.{total_pods, total_weight}
use kube_smart_scheduler.Rebalance.{
  rule_to_string, initial_counts, set_first, distribute, weighted_count,
  calculate_expected_distribution,
}
use kube_smart_scheduler.Rebalance.Written.{
  add64-pos, sub64-pos, leb_ℤ-le, leb_ℤ-lt, ltb_ℤ-zero, le_or_lt, total_pods-insert_pos,
  AllZero-initial_counts, total_pods-first,
}

-- The share of a rule, rounded down, and the sums of the shares and of the weights.
abbrev weight_of : PlacementRule → ℕ
weight_of rule = pos_part rule.weight

abbrev pub shares : ℕ → ℕ → List PlacementRule → ℕ
shares remaining totalw [] = 0
shares remaining totalw (rule ∷ rules) =
    remaining * weight_of rule / totalw + shares remaining totalw rules

abbrev pub weights : List PlacementRule → ℕ
weights [] = 0
weights (rule ∷ rules) = weight_of rule + weights rules

-- The weight is not negative, and it, the pods to share out and their product are numbers that a
-- float holds.
abbrev pub IsShareable : ℕ → PlacementRule → Type 0
IsShareable remaining rule =
    (rule.weight ≡ pos (weight_of rule))
    × (remaining < 2 ^ 53)
    × (weight_of rule < 2 ^ 53)
    × (remaining * weight_of rule < 2 ^ 53)

total_weight-weights :
    (remaining : ℕ) (rules : List PlacementRule) (t : ℕ)
    → All (IsShareable remaining) rules
    → t + weights rules < half_word
    → total_weight rules (pos t) ≡ pos (t + weights rules)
unfolding total_weight
total_weight-weights remaining [] t _ h = ap pos (omega arith)
total_weight-weights remaining (rule ∷ rules) t ((natural, _, _, _), shareable) h =
    ap (λ w. total_weight rules (add64 (pos t) w)) natural
    ∙ ap (total_weight rules) (add64-pos t (weight_of rule) (omega arith))
    ∙ total_weight-weights remaining rules (t + weight_of rule) shareable (omega arith)
    ∙ ap pos (omega arith)

-- What all shares hand out is at most what there is, and short of it by less than one per rule.
shares-le :
    (remaining totalw : ℕ) (rules : List PlacementRule)
    → 0 < totalw
    → shares remaining totalw rules * totalw ≤ remaining * weights rules
shares-le remaining totalw [] h = omega arith
shares-le remaining totalw (rule ∷ rules) h =
    omega (
      arith,
      div-mul-le_self (remaining * weight_of rule) totalw,
      shares-le remaining totalw rules h,
    )

shares-lt :
    (remaining totalw : ℕ) (rules : List PlacementRule)
    → 0 < totalw
    → remaining * weights rules + length rules
      ≤ (shares remaining totalw rules + length rules) * totalw
shares-lt remaining totalw [] h = omega arith
shares-lt remaining totalw (rule ∷ rules) h = omega (
  arith,
  lt-div-mul-add {a = remaining * weight_of rule} {b = totalw} h,
  shares-lt remaining totalw rules h,
)

module _ {F : Type 0} (fl : FloatOps F) (laws : FloatLaws fl) where
  weighted_count_pos :
      (remaining totalw : ℕ) (rule : PlacementRule)
      → IsShareable remaining rule
      → 0 < totalw
      → totalw < 2 ^ 53
      → weighted_count fl (pos remaining) rule.weight (pos totalw)
        ≡ pos (remaining * weight_of rule / totalw)
  unfolding weighted_count
  weighted_count_pos remaining totalw rule (natural, few, light, small) some in_range =
      ap
        (λ w.
          fl.to_int
            (fl.div (fl.mul (fl.of_int (pos remaining)) (fl.of_int w)) (fl.of_int (pos totalw))))
        natural
      ∙ laws.to_int-quotient remaining (weight_of rule) totalw few light small some in_range

  total_pods-distribute :
      (o : Order Text) (i remaining totalw n : ℕ) (rules : List PlacementRule) (m : Map ℤ)
      → All (IsShareable remaining) rules
      → 0 < totalw
      → totalw < 2 ^ 53
      → total_pods m (pos 0) ≡ pos n
      → n + shares remaining totalw rules < half_word
      → total_pods (distribute fl o i (pos remaining) (pos totalw) rules m) (pos 0)
        ≡ pos (n + shares remaining totalw rules)
  unfolding distribute
  total_pods-distribute o i remaining totalw n [] m _ some in_range e h = e ∙ ap pos (omega arith)
  total_pods-distribute o i remaining totalw n (rule ∷ rules) m (share, rest) some in_range e h =
      let key = rule_to_string (o ▹ i) rule in
      let count = remaining * weight_of rule / totalw in
      let written = insert key (add64 (get_or key m (pos 0)) (pos count)) m in
      rw (weighted_count_pos remaining totalw rule share some in_range) (
        total_pods-distribute o (suc i) remaining totalw (n + count) rules written rest some
          in_range (total_pods-insert_pos key count n m e (omega arith)) (omega arith)
        ∙ ap pos (omega arith))

  -- The bound on what is handed out for a total of n pods.
  abbrev pub HandsOut : ℕ → ℕ → Map ℤ → Type 0
  HandsOut n slack expected =
      (m : ℕ) × (total_pods expected (pos 0) ≡ pos m) × (m ≤ n) × (n < m + slack)

  all_on_first :
      (o : Order Text) (strategy : PlacementStrategy) (first : PlacementRule)
      (rest : List PlacementRule) (base n : ℕ)
      → strategy.rules ≡ first ∷ rest
      → strategy.base ≡ pos base
      → n ≤ base
      → calculate_expected_distribution fl o strategy (pos n)
        ≡ insert (rule_to_string (o ▹ 1) first) (pos n) (initial_counts (o ▹ 0) 0 (first ∷ rest) [])
  unfolding calculate_expected_distribution set_first
  all_on_first o strategy first rest base n e at_base le = rw (e, at_base, leb_ℤ-le n base le) refl

  shared_out :
      (o : Order Text) (strategy : PlacementStrategy) (first : PlacementRule)
      (rest : List PlacementRule) (base n totalw : ℕ)
      → strategy.rules ≡ first ∷ rest
      → strategy.base ≡ pos base
      → base < n
      → n < half_word
      → total_weight (first ∷ rest) (pos 0) ≡ pos totalw
      → 0 < totalw
      → calculate_expected_distribution fl o strategy (pos n)
        ≡ distribute fl (o ▹ 2) 0 (pos (n - base)) (pos totalw) (first ∷ rest) (
            insert
              (rule_to_string (o ▹ 1) first)
              (pos base)
              (initial_counts (o ▹ 0) 0 (first ∷ rest) []))
  unfolding calculate_expected_distribution set_first
  shared_out o strategy first rest base n totalw e at_base lt fits weighs some =
      rw
        (
          e,
          at_base,
          leb_ℤ-lt n base lt,
          weighs,
          ltb_ℤ-zero totalw some,
          sub64-pos n base (omega arith) fits,
        )
        refl

  -- With a base and weights that are not negative, not all zero, and small enough for the products to
  -- be exact as floats, the expected counts add up to at most the total, and short of it by less than
  -- the number of rules.
  pub calculate_expected_distribution-HandsOut :
      (o : Order Text) (strategy : PlacementStrategy) (first : PlacementRule)
      (rest : List PlacementRule) (base n : ℕ)
      → strategy.rules ≡ first ∷ rest
      → strategy.base ≡ pos base
      → n < half_word
      → 0 < weights (first ∷ rest)
      → weights (first ∷ rest) < 2 ^ 53
      → All (IsShareable (n - base)) (first ∷ rest)
      → HandsOut n (length (first ∷ rest)) (calculate_expected_distribution fl o strategy (pos n))
  calculate_expected_distribution-HandsOut o strategy first rest base n e at_base fits some in_range
        shareable =
      let zeros = AllZero-initial_counts (o ▹ 0) 0 (first ∷ rest) [] tt in
      let start = initial_counts (o ▹ 0) 0 (first ∷ rest) [] in
      let key = rule_to_string (o ▹ 1) first in
      elim (le_or_lt n base) [
        | inl le ↦
            rw (all_on_first o strategy first rest base n e at_base le)
              (n, total_pods-first key n start zeros fits, omega arith, omega arith)
        | inr lt ↦
            let totalw = weights (first ∷ rest) in
            let shared = shares (n - base) totalw (first ∷ rest) in
            let weighs =
              total_weight-weights (n - base) (first ∷ rest) 0 shareable (omega arith)
              ∙ ap pos (omega arith) in
            let most =
              le_of_mul-le-mul_right {m = shared} {n = n - base} {k = totalw}
                (shares-le (n - base) totalw (first ∷ rest) some) some in
            let least =
              lt_of_mul-lt-mul_right totalw {m = n - base} {n = shared + length (first ∷ rest)}
                (omega (arith, shares-lt (n - base) totalw (first ∷ rest) some)) in
            let base_fits : base < half_word = omega arith in
            let sum_fits : base + shared < half_word = omega (arith, most) in
            let sum =
              total_pods-distribute (o ▹ 2) 0 (n - base) totalw base (first ∷ rest)
                (insert key (pos base) start) shareable some in_range
                (total_pods-first key base start zeros base_fits) sum_fits in
            rw (shared_out o strategy first rest base n totalw e at_base lt fits weighs some)
              (base + shared, sum, omega (arith, most), omega (arith, least))
      ]
