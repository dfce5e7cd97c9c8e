-- ===== src/Placement/Applied.antt =====
-- ApplyPlacementStrategy applies a rule of the strategy.
use mathlib.Core.List.{Memᴰ}
use mathlib.Core.Path.{subst}
use kube_smart_scheduler.Prelude.{
  ℕ, suc, ◌≡◌, refl, sym, ◌∙◌, inl, inr, Bool-cases, some, List, [], ◌∷◌, All, All-Mem,
}
use kube_smart_scheduler.Prelude.Int.{ℤ, pos, negsuc, ltb_ℤ}
use kube_smart_scheduler.Prelude.Result.{Result, ok, err, >>=-eq-ok, >>=-eq-err, ok-injective}
use kube_smart_scheduler.GoText.{Text}
use kube_smart_scheduler.GoMap.{Map, Order, ◌▹◌, range}
use kube_smart_scheduler.Strategy.{PlacementRule, PlacementStrategy}
use kube_smart_scheduler.Kube.{Pod}
use kube_smart_scheduler.Float.{FloatOps}
use kube_smart_scheduler.Placement.{
  PlacementError, total_weight, total_pods, is_zero, shortfall, best_rule, choose_rule, apply_rule,
  apply_placement_strategy,
}
use kube_smart_scheduler.Placement.Choice.{
  beyond_base, choose_without_rules, choose_below_base, choose_above_base,
}

err-is-not-ok :
    {m : Result PlacementError PlacementRule} {r : PlacementRule} {e : PlacementError}
    → m ≡ err e
    → m ≡ ok r
    → ⊥
err-is-not-ok h k = cc

module _ {F : Type 0} (fl : FloatOps F) where
  best_rule-keeps {ℓ} :
      (P : PlacementRule → Type ℓ) (o : Order Text) (totalw beyond : ℤ) (counts : Map ℤ) (i : ℕ)
      (rules : List PlacementRule) (best : PlacementRule) (d : F)
      → All P rules
      → P best
      → P (best_rule fl o totalw beyond counts i rules best d)
  unfolding best_rule
  best_rule-keeps P o totalw beyond counts i [] best d _ p = p
  best_rule-keeps P o totalw beyond counts i (rule ∷ rules) best d (here, there) p =
      elim (Bool-cases (fl.less d (fl.of_int (shortfall fl (o ▹ i) totalw beyond counts rule)))) [
        | inl better ↦
            rw better (best_rule-keeps P o totalw beyond counts (suc i) rules rule _ there here)
        | inr worse ↦
            rw worse (best_rule-keeps P o totalw beyond counts (suc i) rules best d there p)
      ]

  chosen_of :
      (o : Order Text) (oc : Order ℤ) (strategy : PlacementStrategy) (counts : Map ℤ)
      (rules : List PlacementRule) (r : PlacementRule)
      → strategy.rules ≡ rules
      → choose_rule fl o oc (some strategy) counts ≡ ok r
      → Memᴰ r rules
  chosen_of o oc strategy counts [] r e chosen =
      absurd (err-is-not-ok (choose_without_rules fl o oc strategy counts e) chosen)
  chosen_of o oc strategy counts (first ∷ rest) r e chosen =
      let total = total_pods (range oc counts) (pos 0) in
      let totalw = total_weight (first ∷ rest) (pos 0) in
      let best =
        best_rule fl o totalw (beyond_base strategy total) counts 0 (first ∷ rest) first
          (fl.of_int (negsuc 0)) in
      elim (Bool-cases (ltb_ℤ total strategy.base)) [
        | inl below ↦ Memᴰ.head (
            ok-injective
              (sym chosen ∙ choose_below_base fl o oc strategy counts first rest e below))
        | inr above ↦
            let at = choose_above_base fl o oc strategy counts first rest e above in
            elim (Bool-cases (is_zero totalw)) [
              | inl unweighted ↦ absurd (err-is-not-ok (rw unweighted at at) chosen)
              | inr weighted ↦
                  subst (λ x. Memᴰ x (first ∷ rest))
                    (ok-injective (sym (rw weighted at at) ∙ chosen))
                    (best_rule-keeps (λ x. Memᴰ x (first ∷ rest)) o totalw
                      (beyond_base strategy total) counts 0 (first ∷ rest) first
                      (fl.of_int (negsuc 0)) (All-Mem (first ∷ rest)) (Memᴰ.head refl))
            ]
      ]

  -- A pod that ApplyPlacementStrategy returns is the pod given, with one rule of the strategy applied.
  pub apply_placement_strategy-Mem :
      (o : Order Text) (oc : Order ℤ) (pod placed : Pod) (strategy : PlacementStrategy)
      (counts : Map ℤ)
      → apply_placement_strategy fl o oc pod (some strategy) counts ≡ ok placed
      → (r : PlacementRule) × Memᴰ r strategy.rules × (placed ≡ apply_rule (o ▹ 1) r pod)
  unfolding apply_placement_strategy
  apply_placement_strategy-Mem o oc pod placed strategy counts e =
      let (r, chosen, same) =
        >>=-eq-ok (choose_rule fl (o ▹ 0) oc (some strategy) counts)
          (λ rule. ok (apply_rule (o ▹ 1) rule pod)) e in
      (
        r,
        chosen_of (o ▹ 0) oc strategy counts strategy.rules r refl chosen,
        sym (ok-injective same),
      )

  -- ApplyPlacementStrategy fails only if no rule can be chosen.
  pub apply_placement_strategy-err :
      (o : Order Text) (oc : Order ℤ) (pod : Pod) (strategy : PlacementStrategy) (counts : Map ℤ)
      {e : PlacementError}
      → apply_placement_strategy fl o oc pod (some strategy) counts ≡ err e
      → choose_rule fl (o ▹ 0) oc (some strategy) counts ≡ err e
  unfolding apply_placement_strategy
  apply_placement_strategy-err o oc pod strategy counts h =
      >>=-eq-err (choose_rule fl (o ▹ 0) oc (some strategy) counts)
        (λ rule. ok (apply_rule (o ▹ 1) rule pod)) (λ rule. (apply_rule (o ▹ 1) rule pod, refl)) h
