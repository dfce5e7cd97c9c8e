-- ===== src/Rebalance.antt =====
-- Drift and rebalancing (controllers/rebalance_controller.go): the computations, behind the calls
-- that list pods.
pub mod Select
pub mod Reconcile
pub mod Bounds
pub mod Written
pub mod Distribution
pub mod Events
pub mod Requeues
pub mod Deletes
use kube_smart_scheduler.Prelude.{
  ℕ, zero, suc, Bool, true, false, ◌&&◌, ◌||◌, not, Option, none, some, List, [], ◌∷◌, ◌++◌, map,
  length, take, ◌==◌, if◌then◌else◌,
}
use kube_smart_scheduler.Prelude.Int.{ℤ, pos, pos_part, ltb_ℤ}
use kube_smart_scheduler.Prelude.Int64.{add64, sub64}
use kube_smart_scheduler.GoText.{Text, codes, text_eq, join}
use kube_smart_scheduler.GoMap.{Map, lookup, insert, get_or, Order, ◌▹◌, range}
use kube_smart_scheduler.Strategy.{PlacementRule, PlacementStrategy, key_value}
use kube_smart_scheduler.Kube.{Pod, Deployment, is_running, is_nil}
use kube_smart_scheduler.Float.{FloatOps}
use kube_smart_scheduler.Placement.{total_weight}
use kube_smart_scheduler.Counting.{count_up, is_counted}

-- nodeSelector2String of this package: fmt.Sprintf("%v", parts), that is [k=v k=v].
unfoldable pub node_selector_to_string : Order Text → Map Text → Text
node_selector_to_string o node_selector =
    if length node_selector == 0
    then []
    else codes "[" ++ (join (codes " ") (map key_value (range o node_selector)) ++ codes "]")

unfoldable pub rule_to_string : Order Text → PlacementRule → Text
rule_to_string o rule = node_selector_to_string o rule.node_selector

unfoldable pub initial_counts : Order Text → ℕ → List PlacementRule → Map ℤ → Map ℤ
initial_counts o i [] counts = counts
initial_counts o i (rule ∷ rules) counts =
    initial_counts o (suc i) rules (insert (rule_to_string (o ▹ i) rule) (pos 0) counts)

-- A pod is counted for the first rule whose key is its own.
count_by_key : Order Text → ℕ → Text → List PlacementRule → Map ℤ → Map ℤ
unfolding count_up
count_by_key o j pod_key [] counts = counts
count_by_key o j pod_key (rule ∷ rules) counts =
    let rule_key = rule_to_string (o ▹ j) rule in
    let rest = count_by_key o (suc j) pod_key rules counts in
    if text_eq pod_key rule_key then count_up rule_key counts else rest

count_pods : Order Text → ℕ → List Pod → List PlacementRule → Map ℤ → Map ℤ
unfolding count_by_key is_counted
count_pods o n [] rules counts = counts
count_pods o n (pod ∷ pods) rules counts =
    let pod_key = node_selector_to_string (o ▹ n ▹ 0) pod.node_selector in
    count_pods o (suc n) pods rules
      (if is_counted pod then count_by_key (o ▹ n ▹ 1) 0 pod_key rules counts else counts)

-- getActualPodCounts, for the pods that the API lists
unfoldable pub actual_counts_of : Order Text → List Pod → List PlacementRule → Map ℤ
unfolding initial_counts count_pods
actual_counts_of o pods rules = count_pods (o ▹ 1) 0 pods rules (initial_counts (o ▹ 0) 0 rules [])

abbrev pub leb_ℤ : ℤ → ℤ → Bool
leb_ℤ a b = not (ltb_ℤ b a)

-- The assignment to the count of the first rule, where there is one.
unfoldable pub set_first : Order Text → ℤ → List PlacementRule → Map ℤ → Map ℤ
set_first o count [] expected = expected
set_first o count (first ∷ rest) expected = insert (rule_to_string o first) count expected

module _ {F : Type 0} (fl : FloatOps F) where
  -- int(float64(remaining) * float64(weight) / float64(totalWeight))
  pub weighted_count : ℤ → ℤ → ℤ → ℤ
  weighted_count remaining weight totalw =
      fl.to_int (fl.div (fl.mul (fl.of_int remaining) (fl.of_int weight)) (fl.of_int totalw))

  pub distribute : Order Text → ℕ → ℤ → ℤ → List PlacementRule → Map ℤ → Map ℤ
  unfolding weighted_count
  distribute o i remaining totalw [] expected = expected
  distribute o i remaining totalw (rule ∷ rules) expected =
      let key = rule_to_string (o ▹ i) rule in
      distribute o (suc i) remaining totalw rules (
        insert key
          (add64 (get_or key expected (pos 0)) (weighted_count remaining rule.weight totalw))
          expected)

  unfoldable pub calculate_expected_distribution : Order Text → PlacementStrategy → ℤ → Map ℤ
  unfolding initial_counts set_first distribute total_weight
  calculate_expected_distribution o strategy total =
      let expected = initial_counts (o ▹ 0) 0 strategy.rules [] in
      let totalw = total_weight strategy.rules (pos 0) in
      let based = set_first (o ▹ 1) strategy.base strategy.rules expected in
      if leb_ℤ total strategy.base
      then set_first (o ▹ 1) total strategy.rules expected
      else if ltb_ℤ (pos 0) totalw
      then distribute (o ▹ 2) 0 (sub64 total strategy.base) totalw strategy.rules based
      else based

  -- abs of an `int`
  abbrev pub abs : ℤ → ℤ
  abs x = if ltb_ℤ x (pos 0) then sub64 (pos 0) x else x

  -- The two sums of the loop over the expected counts: the drift and the expected pods.
  unfoldable pub drift_totals : Map ℤ → Map ℤ → ℤ × ℤ → ℤ × ℤ
  drift_totals [] actual totals = totals
  drift_totals ((key, expected) ∷ entries) actual (drift, total) =
      drift_totals entries actual
        (add64 drift (abs (sub64 expected (get_or key actual (pos 0)))), add64 total expected)

  unfoldable pub drift_percentage : ℤ × ℤ → F
  drift_percentage (drift, total) =
      if ltb_ℤ (pos 0) total
      then fl.mul (fl.div (fl.of_int drift) (fl.of_int total)) (fl.of_int (pos 100))
      else fl.of_int (pos 0)
