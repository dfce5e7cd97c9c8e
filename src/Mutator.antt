-- ===== src/Mutator.antt =====
-- The admission webhook (webhook/mutate_pod.go). Logging is left out. The decoder has done its work:
-- a request holds the pod, or none if it could not be decoded. json.Marshal of a pod is a parameter.
pub mod Handle
pub mod Merged
pub mod Placed
pub mod Answers
pub mod Uncounted
use kube_smart_scheduler.Prelude.{
  ℕ, zero, suc, Bool, true, false, ◌||◌, ◌&&◌, not, Option, none, some, List, [], ◌∷◌, length, ◌==◌,
  if◌then◌else◌,
}
use kube_smart_scheduler.Prelude.Int.{ℤ}
use kube_smart_scheduler.Prelude.Result.{Result, ok, err}
use kube_smart_scheduler.GoText.{Text, codes, text_eq, is_empty}
use kube_smart_scheduler.GoMap.{Map, lookup, insert, get_or, contains, Order, ◌▹◌, range}
use kube_smart_scheduler.Strategy.{
  PlacementRule, PlacementStrategy, node_selector_to_string, rule_to_string,
}
use kube_smart_scheduler.Strategy.Parse.{ParseError, parse_placement_strategy}
use kube_smart_scheduler.Kube.{Pod, Deployment}
use kube_smart_scheduler.Client.{ApiError, Act, ◌>>=◌, ◌>>◌, pure, Client}
use kube_smart_scheduler.Float.{FloatOps}
use kube_smart_scheduler.Placement.{PlacementError, apply_placement_strategy}
use kube_smart_scheduler.Counting.{is_node_selector_subset, counts_of}
use kube_smart_scheduler.Parents.{find_parent_deployment}
use kube_smart_scheduler.State.{PlacementState, StateError, Codec}
use kube_smart_scheduler.State.Load.{get_placement_state}
use kube_smart_scheduler.State.Increment.{increment_pod_count}

-- Why default scheduling is used.
pub data Fallback : Type 0 where
  invalid_placement_strategy : ParseError → Fallback
  apply_failed apply_failed_in_fallback : PlacementError → Fallback
  pod_counts_failed : ApiError → Fallback
  marshal_pod_failed marshal_original_failed : Fallback

-- admission.Errored, admission.Allowed with a message or none, and admission.PatchResponseFromRaw
-- of the marshalled pods.
pub data Response : Type 0 where
  bad_request : Response
  allowed : Option Fallback → Response
  patched : Text → Text → Response

abbrev pub is_nil_map : Map Text → Bool
is_nil_map [] = true
is_nil_map (e ∷ m) = false

-- The entries of the modified pod's selector that the original does not have. An original that is
-- nil keeps them all, and one that is empty stands for nil, which a decoded pod without a selector has.
unfoldable pub applied_entries : Map Text → Map Text → Map Text
applied_entries original [] = []
applied_entries original ((key, value) ∷ entries) =
    let rest = applied_entries original entries in
    if not (is_nil_map original) && text_eq (get_or key original []) value
    then rest
    else (key, value) ∷ rest

unfoldable pub match_rules : Order Text → ℕ → Map Text → List PlacementRule → Text
match_rules o i applied [] = node_selector_to_string (o ▹ i) applied
match_rules o i applied (rule ∷ rules) =
    let rest = match_rules o (suc i) applied rules in
    if is_node_selector_subset rule.node_selector applied then rule_to_string (o ▹ i) rule else rest

unfoldable pub get_applied_rule_key : Order Text → Pod → Pod → PlacementStrategy → Text
unfolding applied_entries match_rules
get_applied_rule_key o original modified strategy =
    match_rules o 0 (applied_entries original.node_selector modified.node_selector) strategy.rules

-- The annotations that mark a pod as processed.
unfoldable pub mark : Text → Text → Pod → Pod
mark schedule_strategy rule_key pod = record pod {
  annotations = insert (codes "smart-scheduler.io/placement-rule") rule_key (
      insert (codes "smart-scheduler.io/strategy-applied") schedule_strategy
        (insert (codes "smart-scheduler.io/processed") (codes "true") pod.annotations));
}

unfoldable pub mark_fallback : Pod → Pod
mark_fallback pod = record pod {
  annotations =
      insert (codes "smart-scheduler.io/fallback-mode") (codes "true")
        (insert (codes "smart-scheduler.io/processed") (codes "true") pod.annotations);
}

-- The patch from the original pod to the modified one, if both can be marshalled.
unfoldable pub patch_of : Option Text → Option Text → Response
patch_of none original = allowed (some marshal_pod_failed)
patch_of (some modified) none = allowed (some marshal_original_failed)
patch_of (some modified) (some original) = patched original modified
