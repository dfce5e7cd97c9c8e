-- ===== src/Placement.antt =====
-- ApplyPlacementStrategy and the functions below it (webhook/placement_strategy.go). A function
-- that changes the pod returns the changed pod. float64 is a parameter, and so is the order in which
-- each loop over a map visits it.
pub mod Best
pub mod Choice
pub mod Totals
pub mod Applied
pub mod Selector
use kube_smart_scheduler.Prelude.{
  ℕ, zero, suc, Bool, true, false, ◌&&◌, Option, none, some, List, [], ◌∷◌, ◌++◌, length, ◌==◌, ltb,
  if◌then◌else◌,
}
use kube_smart_scheduler.Prelude.Int.{ℤ, pos, negsuc, ltb_ℤ}
use kube_smart_scheduler.Prelude.Int64.{add64, sub64}
use kube_smart_scheduler.Prelude.Result.{Result, ok, err, ◌>>=◌}
use kube_smart_scheduler.GoText.{Text, codes, text_eq}
use kube_smart_scheduler.GoMap.{Map, insert, get_or, Order, ◌▹◌, range}
use kube_smart_scheduler.Strategy.{AffinityRule, PlacementRule, PlacementStrategy, rule_to_string}
use kube_smart_scheduler.Kube.{PodAffinityTerm, WeightedPodAffinityTerm, PodAffinity, Affinity, Pod}
use kube_smart_scheduler.Float.{FloatOps}

pub data PlacementError : Type 0 where
  invalid_strategy no_rules_available total_weight_is_zero : PlacementError

abbrev no_pod_affinity : PodAffinity
no_pod_affinity = record { required = []; preferred = [] }

abbrev pub no_affinity : Affinity
no_affinity = record { pod_affinity = none; pod_anti_affinity = none }

abbrev pub or_new {ℓ} : {A : Type ℓ} → A → Option A → A
or_new new none = new
or_new new (some a) = a

affinity_term : AffinityRule → PodAffinityTerm
affinity_term rule = record { match_labels = rule.label_selector; topology_key = rule.topology_key }

-- Append the term to the required or to the preferred ones, with the default weight 100.
add_term : AffinityRule → PodAffinity → PodAffinity
unfolding affinity_term
add_term rule p =
    if rule.required_during_scheduling
    then record p { required = p.required ++ affinity_term rule ∷ [] }
    else record p {
      preferred =
          p.preferred ++ record { weight = pos 100; pod_affinity_term = affinity_term rule } ∷ [];
    }

-- The caller has seen to it that the pod has an affinity, so the argument is what it points at.
unfoldable pub apply_affinity_rule : AffinityRule → Affinity → Affinity
unfolding add_term
apply_affinity_rule rule a =
    if text_eq rule.kind (codes "affinity")
    then record a { pod_affinity = some (add_term rule (or_new no_pod_affinity a.pod_affinity)) }
    else if text_eq rule.kind (codes "anti-affinity")
    then record a {
      pod_anti_affinity = some (add_term rule (or_new no_pod_affinity a.pod_anti_affinity));
    }
    else a

pub apply_affinity_rules : List AffinityRule → Affinity → Affinity
unfolding apply_affinity_rule
apply_affinity_rules [] a = a
apply_affinity_rules (rule ∷ rules) a = apply_affinity_rules rules (apply_affinity_rule rule a)

-- pod.Spec.NodeSelector[key] = value, for the entries in the order visited
pub merge : Map Text → Map Text → Map Text
merge [] node_selector = node_selector
merge ((key, value) ∷ entries) node_selector = merge entries (insert key value node_selector)

unfoldable pub apply_rule : Order Text → PlacementRule → Pod → Pod
unfolding merge apply_affinity_rules
apply_rule o rule pod =
    let selected = record pod {
      node_selector =
          if ltb 0 (length rule.node_selector)
          then merge (range o rule.node_selector) pod.node_selector
          else pod.node_selector;
    } in
    if ltb 0 (length rule.affinity)
    then record selected {
      affinity = some (apply_affinity_rules rule.affinity (or_new no_affinity selected.affinity));
    }
    else selected

unfoldable pub total_weight : List PlacementRule → ℤ → ℤ
total_weight [] total = total
total_weight (rule ∷ rules) total = total_weight rules (add64 total rule.weight)

-- totalPods, over the counts in the order visited
unfoldable pub total_pods : Map ℤ → ℤ → ℤ
total_pods [] total = total
total_pods ((key, count) ∷ counts) total = total_pods counts (add64 total count)

-- With no rule the strategy is invalid; below the base the first rule is taken.
abbrev first_or_weighted :
    List PlacementRule
    → Bool
    → Result PlacementError PlacementRule
    → Result PlacementError PlacementRule
first_or_weighted [] below weighted = err invalid_strategy
first_or_weighted (first ∷ rest) below weighted = if below then ok first else weighted

abbrev pub is_zero : ℤ → Bool
is_zero (pos n) = n == 0
is_zero (negsuc n) = false

module _ {F : Type 0} (fl : FloatOps F) where
  -- How many pods the rule is behind, as an `int`.
  unfoldable pub shortfall : Order Text → ℤ → ℤ → Map ℤ → PlacementRule → ℤ
  shortfall o totalw beyond counts rule =
      let ratio = fl.div (fl.of_int rule.weight) (fl.of_int totalw) in
      sub64 (fl.to_int (fl.mul ratio (fl.of_int beyond)))
        (get_or (rule_to_string o rule) counts (pos 0))

  -- The loop over the rules, at index i; the deficits are compared as floats.
  pub best_rule :
      Order Text → ℤ → ℤ → Map ℤ → ℕ → List PlacementRule → PlacementRule → F → PlacementRule
  best_rule o totalw beyond counts i [] best best_deficit = best
  best_rule o totalw beyond counts i (rule ∷ rules) best best_deficit =
      let deficit = fl.of_int (shortfall (o ▹ i) totalw beyond counts rule) in
      let better = fl.less best_deficit deficit in
      best_rule o totalw beyond counts (suc i) rules (if better then rule else best)
        (if better then deficit else best_deficit)

  weighted_of :
      Order Text → ℤ → ℤ → Map ℤ → List PlacementRule → Result PlacementError PlacementRule
  unfolding best_rule shortfall total_weight
  weighted_of o base total counts [] = err no_rules_available
  weighted_of o base total counts (first ∷ rest) =
      let totalw = total_weight (first ∷ rest) (pos 0) in
      let beyond = sub64 total base in
      let beyond_base = if ltb_ℤ beyond (pos 0) then pos 0 else beyond in
      if is_zero totalw
      then err total_weight_is_zero
      else ok (best_rule o totalw beyond_base counts 0 (first ∷ rest) first (fl.of_int (negsuc 0)))

  -- The rule that applyWeightedRule applies.
  unfoldable pub weighted_rule :
      Order Text → PlacementStrategy → Map ℤ → ℤ → Result PlacementError PlacementRule
  unfolding weighted_of
  weighted_rule o strategy counts total = weighted_of o strategy.base total counts strategy.rules

  -- The rule that ApplyPlacementStrategy applies, or the error that it returns; `none` is nil.
  unfoldable pub choose_rule :
      Order Text → Order ℤ → Option PlacementStrategy → Map ℤ → Result PlacementError PlacementRule
  unfolding weighted_rule total_pods
  choose_rule o oc none counts = err invalid_strategy
  choose_rule o oc (some strategy) counts =
      let total = total_pods (range oc counts) (pos 0) in
      first_or_weighted strategy.rules (ltb_ℤ total strategy.base)
        (weighted_rule o strategy counts total)

  unfoldable pub apply_placement_strategy :
      Order Text → Order ℤ → Pod → Option PlacementStrategy → Map ℤ → Result PlacementError Pod
  unfolding choose_rule apply_rule
  apply_placement_strategy o oc pod strategy counts = do
    rule ← choose_rule (o ▹ 0) oc strategy counts
    ok (apply_rule (o ▹ 1) rule pod)
