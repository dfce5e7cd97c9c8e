-- ===== src/Mutator/Handle.antt =====
-- PodMutator.Handle, applyStrategyWithFallback and getBasicPodCounts (webhook/mutate_pod.go).
use kube_smart_scheduler.Prelude.{Option, none, some, List, ◌∷◌, length, ◌==◌, if◌then◌else◌}
use kube_smart_scheduler.Prelude.Int.{ℤ}
use kube_smart_scheduler.Prelude.Result.{Result, ok, err}
use kube_smart_scheduler.GoText.{Text, codes, is_empty}
use kube_smart_scheduler.GoMap.{lookup, contains, Order, ◌▹◌}
use kube_smart_scheduler.Strategy.{PlacementStrategy}
use kube_smart_scheduler.Strategy.Parse.{ParseError, parse_placement_strategy}
use kube_smart_scheduler.Kube.{Pod, Deployment}
use kube_smart_scheduler.Client.{ApiError, Act, ◌>>=◌, ◌>>◌, pure, Client}
use kube_smart_scheduler.Float.{FloatOps}
use kube_smart_scheduler.Placement.{PlacementError, apply_placement_strategy}
use kube_smart_scheduler.Counting.{counts_of}
use kube_smart_scheduler.Parents.{find_parent_deployment}
use kube_smart_scheduler.State.{PlacementState, StateError, Codec}
use kube_smart_scheduler.State.Load.{get_placement_state}
use kube_smart_scheduler.State.Increment.{increment_pod_count}
use kube_smart_scheduler.Mutator.{
  invalid_placement_strategy, apply_failed, apply_failed_in_fallback, pod_counts_failed, Response,
  bad_request, allowed, get_applied_rule_key, mark, mark_fallback, patch_of,
}

module _ {W F : Type 0} (client : Client W) (codec : Codec) (fl : FloatOps F)
    (marshal_pod : Pod → Option Text) where
  open client use {list_pods}

  unfoldable pub fallback_response : Pod → Result PlacementError Pod → Response
  fallback_response pod (err e) = allowed (some (apply_failed_in_fallback e))
  fallback_response pod (ok modified) =
      patch_of (marshal_pod (mark_fallback modified)) (marshal_pod pod)

  unfoldable pub with_basic_counts :
      Order Text → Order ℤ → Pod → PlacementStrategy → Result ApiError (List Pod) → Response
  unfolding fallback_response
  with_basic_counts o oc pod strategy (err e) = allowed (some (pod_counts_failed e))
  with_basic_counts o oc pod strategy (ok pods) = fallback_response pod (
      apply_placement_strategy fl (o ▹ 1) oc pod (some strategy)
        (counts_of (o ▹ 0) pods strategy.rules))

  -- The state manager failed: the counts are taken from the pods.
  unfoldable pub apply_strategy_with_fallback :
      Order Text → Order ℤ → Pod → Deployment → PlacementStrategy → Act W Response
  unfolding with_basic_counts
  apply_strategy_with_fallback o oc pod deployment strategy = do
    listed ← list_pods deployment.namespace deployment.match_labels
    pure (with_basic_counts o oc pod strategy listed)

  -- Count the pod, if a rule was found; a failure to count is only logged.
  unfoldable pub count_pod : Order Text → Order ℤ → Deployment → Text → Act W (Unit {0})
  count_pod o oc deployment rule_key =
      let counted = increment_pod_count client codec o oc deployment rule_key >> pure tt in
      if is_empty rule_key then pure tt else counted

  -- The strategy has been applied to the pod, or has not.
  unfoldable pub after_placement :
      Order Text
      → Order ℤ
      → Text
      → Pod
      → Deployment
      → PlacementStrategy
      → Result PlacementError Pod
      → Act W Response
  unfolding count_pod
  after_placement o oc schedule_strategy pod deployment strategy (err e) =
      pure (allowed (some (apply_failed e)))
  after_placement o oc schedule_strategy pod deployment strategy (ok placed) =
      let modified =
        mark schedule_strategy (get_applied_rule_key (o ▹ 0) pod placed strategy) placed in
      count_pod (o ▹ 2) oc deployment (get_applied_rule_key (o ▹ 1) pod modified strategy)
      >> pure (patch_of (marshal_pod modified) (marshal_pod pod))

  unfoldable pub with_state :
      Order Text
      → Order ℤ
      → Text
      → Pod
      → Deployment
      → PlacementStrategy
      → Result StateError PlacementState
      → Act W Response
  unfolding after_placement apply_strategy_with_fallback
  with_state o oc schedule_strategy pod deployment strategy (err e) =
      apply_strategy_with_fallback (o ▹ 0) oc pod deployment strategy
  with_state o oc schedule_strategy pod deployment strategy (ok state) =
      after_placement (o ▹ 2) (λ path. oc (1 ∷ path)) schedule_strategy pod deployment strategy
        (apply_placement_strategy fl (o ▹ 1) (λ path. oc (0 ∷ path)) pod (some strategy)
          state.pod_counts)

  unfoldable pub with_strategy :
      Order Text
      → Order ℤ
      → Text
      → Pod
      → Deployment
      → Result ParseError PlacementStrategy
      → Act W Response
  unfolding with_state
  with_strategy o oc schedule_strategy pod deployment (err e) =
      pure (allowed (some (invalid_placement_strategy e)))
  with_strategy o oc schedule_strategy pod deployment (ok strategy) = do
    state ← get_placement_state client codec (o ▹ 0) (λ path. oc (0 ∷ path)) deployment strategy
    with_state (o ▹ 1) (λ path. oc (1 ∷ path)) schedule_strategy pod deployment strategy state

  -- A deployment without annotations has none for the strategy either.
  unfoldable pub with_annotation :
      Order Text → Order ℤ → Pod → Deployment → Option Text → Act W Response
  unfolding with_strategy
  with_annotation o oc pod deployment none = pure (allowed none)
  with_annotation o oc pod deployment (some schedule_strategy) =
      with_strategy o oc schedule_strategy pod deployment
        (parse_placement_strategy schedule_strategy)

  unfoldable pub with_parent : Order Text → Order ℤ → Pod → Option Deployment → Act W Response
  unfolding with_annotation
  with_parent o oc pod none = pure (allowed none)
  with_parent o oc pod (some deployment) =
      with_annotation o oc pod deployment
        (lookup (codes "smart-scheduler.io/schedule-strategy") deployment.annotations)

  -- The branch for an error of findParentDeployment is left out: it returns none.
  unfoldable pub handle : Order Text → Order ℤ → Option Pod → Act W Response
  unfolding with_parent find_parent_deployment
  handle o oc none = pure bad_request
  handle o oc (some pod) =
      let looked_up = find_parent_deployment client pod >>= with_parent o oc pod in
      if contains (codes "smart-scheduler.io/processed") pod.annotations
      then pure (allowed none)
      else if length pod.owner_references == 0
      then pure (allowed none)
      else looked_up
