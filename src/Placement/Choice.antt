-- ===== src/Placement/Choice.antt =====
-- Which rule ApplyPlacementStrategy takes, over all its branches.
use kube_smart_scheduler.Prelude.{
  ℕ, ◌≡◌, ◌↔◌, ◌+◌, ◌<◌, length, ltb, refl, sym, ◌∙◌, ◌⊎◌, inl, inr, Bool, true, false, some, List,
  [], ◌∷◌, arith, Bool-cases, if◌then◌else◌,
}
use kube_smart_scheduler.Prelude.Int.{ℤ, pos, negsuc, ltb_ℤ}
use kube_smart_scheduler.Prelude.Int64.{sub64, half_word}
use kube_smart_scheduler.Prelude.Result.{Result, ok, err}
use kube_smart_scheduler.GoText.{Text}
use kube_smart_scheduler.GoMap.{Map, Order, IsOrder, range}
use kube_smart_scheduler.Strategy.{PlacementRule, PlacementStrategy}
use kube_smart_scheduler.Placement.Totals.{count_all, total_pods-range, total_pods-count_all}
use kube_smart_scheduler.Float.{FloatOps, FloatLaws}
use kube_smart_scheduler.Placement.{
  PlacementError, invalid_strategy, total_weight_is_zero, total_weight, total_pods, is_zero,
  best_rule, weighted_rule, choose_rule,
}
use kube_smart_scheduler.Placement.Best.{AllExact, IsChoice, best_rule-IsChoice}

ltb_ℤ-pos : (a b : ℕ) → ltb_ℤ (pos a) (pos b) ≡ ltb a b
ltb_ℤ-pos a b = ground arith

ok-is-not-err :
    {m : Result PlacementError PlacementRule} {r : PlacementRule} {e : PlacementError}
    → m ≡ ok r
    → m ≡ err e
    → ⊥
ok-is-not-err h k = cc

cons-is-not-nil :
    {l rest : List PlacementRule} {first : PlacementRule} → l ≡ first ∷ rest → l ≡ [] → ⊥
cons-is-not-nil h k = cc

true-is-not-false : {b : Bool} → b ≡ true → b ≡ false → ⊥
true-is-not-false h k = cc

-- The pods beyond the base, as applyWeightedRule counts them.
abbrev pub beyond_base : PlacementStrategy → ℤ → ℤ
beyond_base strategy total =
    if ltb_ℤ (sub64 total strategy.base) (pos 0) then pos 0 else sub64 total strategy.base

module _ {F : Type 0} (fl : FloatOps F) (o : Order Text) (oc : Order ℤ) where
  -- Without rules, or above the base without weights, there is an error, and only then.
  abbrev pub Fails : PlacementStrategy → Map ℤ → Type 0
  Fails strategy counts =
      (strategy.rules ≡ [])
      ⊎ (ltb_ℤ (total_pods (range oc counts) (pos 0)) strategy.base ≡ false)
        × (is_zero (total_weight strategy.rules (pos 0)) ≡ true)

  pub choose_below_base :
      (strategy : PlacementStrategy) (counts : Map ℤ) (first : PlacementRule)
      (rest : List PlacementRule)
      → strategy.rules ≡ first ∷ rest
      → ltb_ℤ (total_pods (range oc counts) (pos 0)) strategy.base ≡ true
      → choose_rule fl o oc (some strategy) counts ≡ ok first
  unfolding choose_rule
  choose_below_base strategy counts first rest e below = rw (e, below) refl

  pub choose_without_rules :
      (strategy : PlacementStrategy) (counts : Map ℤ)
      → strategy.rules ≡ []
      → choose_rule fl o oc (some strategy) counts ≡ err invalid_strategy
  unfolding choose_rule
  choose_without_rules strategy counts e = rw e refl

  pub choose_above_base :
      (strategy : PlacementStrategy) (counts : Map ℤ) (first : PlacementRule)
      (rest : List PlacementRule)
      → strategy.rules ≡ first ∷ rest
      → ltb_ℤ (total_pods (range oc counts) (pos 0)) strategy.base ≡ false
      → choose_rule fl o oc (some strategy) counts ≡ (
          if is_zero (total_weight (first ∷ rest) (pos 0))
          then err total_weight_is_zero
          else ok (
              best_rule fl o
                (total_weight (first ∷ rest) (pos 0))
                (beyond_base strategy (total_pods (range oc counts) (pos 0)))
                counts
                0
                (first ∷ rest)
                first
                (fl.of_int (negsuc 0))))
  unfolding choose_rule
  choose_above_base strategy counts first rest e above = rw (e, above) refl

  choose_rule_lem :
      (strategy : PlacementStrategy) (counts : Map ℤ) (first : PlacementRule)
      (rest : List PlacementRule)
      → strategy.rules ≡ first ∷ rest
      → choose_rule fl o oc (some strategy) counts ≡ (
          if ltb_ℤ (total_pods (range oc counts) (pos 0)) strategy.base
          then ok first
          else weighted_rule fl o strategy counts (total_pods (range oc counts) (pos 0)))
  unfolding choose_rule
  choose_rule_lem strategy counts first rest e = rw e refl

  -- If the base is not negative, the counts add up to n, one pod has been counted since for each of
  -- the keys, and the sum is a value of an `int`, then the first rule is chosen as long as n and the
  -- number of keys are below the base, and the weighted choice is made from there on, whatever the
  -- keys are and in whatever order the counts are visited.
  pub choose_rule-count_all :
      IsOrder oc
      → (strategy : PlacementStrategy) (first : PlacementRule) (rest : List PlacementRule)
        (base n : ℕ) (counts : Map ℤ) (keys : List Text)
      → strategy.rules ≡ first ∷ rest
      → strategy.base ≡ pos base
      → total_pods counts (pos 0) ≡ pos n
      → n + length keys < half_word
      → choose_rule fl o oc (some strategy) (count_all keys counts) ≡ (
          if ltb (n + length keys) base
          then ok first
          else weighted_rule fl o strategy (count_all keys counts) (pos (n + length keys)))
  choose_rule-count_all orders strategy first rest base n counts keys e at_base sum fits =
      let total =
        total_pods-range oc (count_all keys counts) (pos 0) orders
        ∙ total_pods-count_all keys counts n sum fits in
      choose_rule_lem strategy (count_all keys counts) first rest e
      ∙ rw (total, at_base, ltb_ℤ-pos (n + length keys) base) refl

  -- Above the base, with a total weight that is not zero, and if each rule is behind by a number that
  -- a float holds, a rule is chosen. It is behind by more than each rule before it and by as much at
  -- least as each rule after it, or it is the first rule and no rule is behind by more than -1.
  pub choose_rule-IsChoice :
      (laws : FloatLaws fl) (strategy : PlacementStrategy) (first : PlacementRule)
      (rest : List PlacementRule) (counts : Map ℤ)
      → strategy.rules ≡ first ∷ rest
      → ltb_ℤ (total_pods (range oc counts) (pos 0)) strategy.base ≡ false
      → is_zero (total_weight (first ∷ rest) (pos 0)) ≡ false
      → AllExact fl laws o
          (total_weight (first ∷ rest) (pos 0))
          (beyond_base strategy (total_pods (range oc counts) (pos 0)))
          counts
          0
          (first ∷ rest)
      → (r : PlacementRule) × (choose_rule fl o oc (some strategy) counts ≡ ok r)
        × IsChoice fl laws o
            (total_weight (first ∷ rest) (pos 0))
            (beyond_base strategy (total_pods (range oc counts) (pos 0)))
            counts
            first
            (negsuc 0)
            0
            (first ∷ rest)
            r
  choose_rule-IsChoice laws strategy first rest counts e above weighted exact = (
    best_rule fl o _ _ counts 0 (first ∷ rest) first (fl.of_int (negsuc 0)),
    rw (choose_above_base strategy counts first rest e above, weighted) refl,
    best_rule-IsChoice fl laws o _ _ counts 0 (first ∷ rest) first (negsuc 0) (omega arith) exact,
  )

  choose_succeeds :
      (strategy : PlacementStrategy) (counts : Map ℤ) (first : PlacementRule)
      (rest : List PlacementRule)
      → strategy.rules ≡ first ∷ rest
      → ltb_ℤ (total_pods (range oc counts) (pos 0)) strategy.base ≡ false
      → is_zero (total_weight strategy.rules (pos 0)) ≡ false
      → (r : PlacementRule) × (choose_rule fl o oc (some strategy) counts ≡ ok r)
  choose_succeeds strategy counts first rest e above weighted =
      let totalw = total_weight (first ∷ rest) (pos 0) in
      let beyond = beyond_base strategy (total_pods (range oc counts) (pos 0)) in
      (
        best_rule fl o totalw beyond counts 0 (first ∷ rest) first (fl.of_int (negsuc 0)),
        choose_above_base strategy counts first rest e above ∙ rw (sym e, weighted) refl,
      )

  Fails-by_rules :
      (strategy : PlacementStrategy) (counts : Map ℤ) (rules : List PlacementRule)
      → strategy.rules ≡ rules
      → ((e : PlacementError) × (choose_rule fl o oc (some strategy) counts ≡ err e))
        ↔ Fails strategy counts
  Fails-by_rules strategy counts [] e =
      (λ _. inl e, λ _. (invalid_strategy, choose_without_rules strategy counts e))
  Fails-by_rules strategy counts (first ∷ rest) e =
      elim (Bool-cases (ltb_ℤ (total_pods (range oc counts) (pos 0)) strategy.base)) [
        | inl below ↦
            let chosen = choose_below_base strategy counts first rest e below in
            (
              λ (x, failed). absurd (ok-is-not-err chosen failed),
              λ f. elim f [
                | inl none_left ↦ absurd (cons-is-not-nil e none_left)
                | inr (above, _) ↦ absurd (true-is-not-false below above)
              ],
            )
        | inr above ↦ elim (Bool-cases (is_zero (total_weight strategy.rules (pos 0)))) [
          | inl unweighted ↦ (
            λ _. inr (above, unweighted),
            λ _. (
              total_weight_is_zero,
              choose_above_base strategy counts first rest e above ∙ rw (sym e, unweighted) refl,
            ),
          )
          | inr weighted ↦
              let (r, chosen) = choose_succeeds strategy counts first rest e above weighted in
              (
                λ (x, failed). absurd (ok-is-not-err chosen failed),
                λ f. elim f [
                  | inl none_left ↦ absurd (cons-is-not-nil e none_left)
                  | inr (_, unweighted) ↦ absurd (true-is-not-false unweighted weighted)
                ],
              )
        ]
      ]

  -- An error is returned exactly if there are no rules, or if the base is reached and the weights add
  -- up to zero.
  pub choose_rule-Fails_iff :
      (strategy : PlacementStrategy) (counts : Map ℤ)
      → ((e : PlacementError) × (choose_rule fl o oc (some strategy) counts ≡ err e))
        ↔ Fails strategy counts
  choose_rule-Fails_iff strategy counts = Fails-by_rules strategy counts strategy.rules refl
