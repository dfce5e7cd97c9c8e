-- ===== src/Counting.antt =====
-- How pods are counted by rule: getCurrentPodCounts of webhook/state_manager.go, and
-- getBasicPodCounts and isNodeSelectorSubset of webhook/mutate_pod.go, behind the call that lists
-- the pods.
pub mod Subset
pub mod Within
use kube_smart_scheduler.Prelude.{
  ℕ, suc, Bool, true, false, ◌&&◌, ◌||◌, Option, none, some, List, [], ◌∷◌, length, ◌==◌,
  if◌then◌else◌,
}
use kube_smart_scheduler.Prelude.Int.{ℤ, pos}
use kube_smart_scheduler.Prelude.Int64.{add64}
use kube_smart_scheduler.GoText.{Text, text_eq}
use kube_smart_scheduler.GoMap.{Map, lookup, insert, get_or, Order, ◌▹◌}
use kube_smart_scheduler.Strategy.{PlacementRule, node_selector_to_string, rule_to_string}
use kube_smart_scheduler.Kube.{Pod, is_running, is_pending, is_nil}

abbrev pub has_value : Text → Option Text → Bool
has_value value none = false
has_value value (some pod_value) = text_eq pod_value value

-- The loop over the rule's entries; no order changes its result.
unfoldable pub entries_hold : Map Text → Map Text → Bool
entries_hold [] pod_selector = true
entries_hold ((key, value) ∷ entries) pod_selector =
    has_value value (lookup key pod_selector) && entries_hold entries pod_selector

unfoldable pub is_node_selector_subset : Map Text → Map Text → Bool
unfolding entries_hold
is_node_selector_subset rule_selector pod_selector =
    if length rule_selector == 0
    then true
    else if length pod_selector == 0
    then false
    else entries_hold rule_selector pod_selector

-- counts[key]++
unfoldable pub count_up : Text → Map ℤ → Map ℤ
count_up key counts = insert key (add64 (get_or key counts (pos 0)) (pos 1)) counts

-- Every rule starts at zero; the i-th key is built with the i-th order.
unfoldable pub initial_counts : Order Text → ℕ → List PlacementRule → Map ℤ → Map ℤ
initial_counts o i [] counts = counts
initial_counts o i (rule ∷ rules) counts =
    initial_counts o (suc i) rules (insert (rule_to_string (o ▹ i) rule) (pos 0) counts)

-- A pod counts if it is not being deleted, and runs or is pending.
unfoldable pub is_counted : Pod → Bool
is_counted pod = is_nil pod.deletion_timestamp && (is_running pod.phase || is_pending pod.phase)

-- The first rule that matches gets the pod.
unfoldable pub count_by_rule : Order Text → ℕ → Text → Map Text → List PlacementRule → Map ℤ → Map ℤ
unfolding is_node_selector_subset count_up
count_by_rule o j pod_key pod_selector [] counts = counts
count_by_rule o j pod_key pod_selector (rule ∷ rules) counts =
    let rule_key = rule_to_string (o ▹ j) rule in
    let rest = count_by_rule o (suc j) pod_key pod_selector rules counts in
    if text_eq pod_key rule_key || is_node_selector_subset rule.node_selector pod_selector
    then count_up rule_key counts
    else rest

unfoldable pub count_pods : Order Text → ℕ → List Pod → List PlacementRule → Map ℤ → Map ℤ
unfolding count_by_rule is_counted
count_pods o n [] rules counts = counts
count_pods o n (pod ∷ pods) rules counts =
    let pod_key = node_selector_to_string (o ▹ n ▹ 0) pod.node_selector in
    count_pods o (suc n) pods rules (
      if is_counted pod
      then count_by_rule (o ▹ n ▹ 1) 0 pod_key pod.node_selector rules counts
      else counts)

-- The counts for the pods that the API lists.
unfoldable pub counts_of : Order Text → List Pod → List PlacementRule → Map ℤ
unfolding initial_counts count_pods
counts_of o pods rules = count_pods (o ▹ 1) 0 pods rules (initial_counts (o ▹ 0) 0 rules [])
