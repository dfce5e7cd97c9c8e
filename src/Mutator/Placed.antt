-- ===== src/Mutator/Placed.antt =====
-- What PodMutator.Handle answers once the strategy is known (webhook/mutate_pod.go).
use mathlib.Core.List.{Memᴰ}
use kube_smart_scheduler.Prelude.{
  ◌≡◌, refl, ap, ◌||◌, ◌∙◌, Bool, true, false, Option, none, some, List, ◌∷◌,
}
use kube_smart_scheduler.Prelude.Int.{ℤ}
use kube_smart_scheduler.Prelude.Result.{Result, ok, err}
use kube_smart_scheduler.GoText.{Text, codes, text_eq, text_eq_refl}
use kube_smart_scheduler.GoMap.{Map, contains, insert, Order, IsOrder, IsOrder-at, ◌▹◌}
use kube_smart_scheduler.Strategy.Parse.Accepted.{HasMaps}
use kube_smart_scheduler.GoMap.Laws.{contains-insert}
use kube_smart_scheduler.Strategy.{PlacementRule, PlacementStrategy}
use kube_smart_scheduler.Kube.{Pod, Affinity, Deployment}
use kube_smart_scheduler.Client.{ApiError, Client, pure}
use kube_smart_scheduler.Client.Always.{Always, Always-bind}
use kube_smart_scheduler.Float.{FloatOps}
use kube_smart_scheduler.Placement.{
  PlacementError, choose_rule, apply_rule, apply_placement_strategy,
}
use kube_smart_scheduler.Placement.Applied.{
  apply_placement_strategy-Mem, apply_placement_strategy-err,
}
use kube_smart_scheduler.State.{PlacementState, StateError, Codec}
use kube_smart_scheduler.State.Load.{get_placement_state}
use kube_smart_scheduler.Mutator.{
  Fallback, invalid_placement_strategy, apply_failed, apply_failed_in_fallback, pod_counts_failed,
  marshal_pod_failed, marshal_original_failed, Response, bad_request, allowed, patched, mark,
  mark_fallback, patch_of, get_applied_rule_key,
}
use kube_smart_scheduler.Mutator.Handle.{
  fallback_response, with_basic_counts, apply_strategy_with_fallback, after_placement, with_state,
  with_strategy,
}
use kube_smart_scheduler.Mutator.Merged.{is_processed, IsPlacedBy, apply_rule-IsPlacedBy}

abbrev selector_of : Pod → Map Text
selector_of pod = pod.node_selector

abbrev affinity_of : Pod → Option Affinity
affinity_of pod = pod.affinity

abbrev processed : Text
processed = codes "smart-scheduler.io/processed"

or_true : (b : Bool) → (b || true) ≡ true
or_true true = refl
or_true false = refl

-- A further annotation keeps those that are there.
still_contains :
    (k j v : Text) (m : Map Text) → contains j m ≡ true → contains j (insert k v m) ≡ true
still_contains k j v m h = contains-insert k j v m ∙ rw h (or_true (text_eq k j))

now_contains : (k v : Text) (m : Map Text) → contains k (insert k v m) ≡ true
now_contains k v m = contains-insert k k v m ∙ rw (text_eq_refl k) refl

mark-processed :
    (schedule_strategy rule_key : Text) (pod : Pod)
    → is_processed (mark schedule_strategy rule_key pod) ≡ true
unfolding mark
mark-processed schedule_strategy rule_key pod =
    still_contains _ processed _ _ (still_contains _ processed _ _ (now_contains processed _ _))

mark_fallback-processed : (pod : Pod) → is_processed (mark_fallback pod) ≡ true
unfolding mark_fallback
mark_fallback-processed pod = still_contains _ processed _ _ (now_contains processed _ _)

-- How the webhook answers for a pod, by why it is let in unpatched and by what the patched pod is: a
-- patch leads from the pod given to the one placed.
abbrev pub Answers :
    (Pod → Option Text) → (Option Fallback → Type 0) → (Pod → Type 0) → Pod → Response → Type 0
Answers marshal_pod Excuse Placed pod bad_request = ⊥
Answers marshal_pod Excuse Placed pod (allowed message) = Excuse message
Answers marshal_pod Excuse Placed pod (patched original changed) =
    (modified : Pod) × (marshal_pod pod ≡ some original)
    × (marshal_pod modified ≡ some changed)
    × Placed modified

pub Answers-weaken :
    (marshal_pod : Pod → Option Text) (Excuse Because : Option Fallback → Type 0)
    (Placed Put : Pod → Type 0) (pod : Pod) (response : Response)
    → ((message : Option Fallback) → Excuse message → Because message)
    → ((modified : Pod) → Placed modified → Put modified)
    → Answers marshal_pod Excuse Placed pod response
    → Answers marshal_pod Because Put pod response
Answers-weaken marshal_pod Excuse Because Placed Put pod bad_request f g h = h
Answers-weaken marshal_pod Excuse Because Placed Put pod (allowed message) f g h = f message h
Answers-weaken marshal_pod Excuse Because Placed Put pod (patched original changed) f g h =
    let (modified, from, to, placed) = h in (modified, from, to, g modified placed)

module _ {F : Type 0} (fl : FloatOps F) where
  -- The strategy has no rule for some counts.
  abbrev pub CannotPlace : PlacementStrategy → PlacementError → Type 0
  CannotPlace strategy e =
      (o : Order Text) × (oc : Order ℤ) × (counts : Map ℤ) × (choose_rule fl o oc (some strategy)
          counts
        ≡ err e)

  -- Why a pod is let in unpatched, once its strategy is known: no rule can be chosen, or the pods
  -- could not be listed, or a pod could not be marshalled.
  abbrev pub IsExcused : PlacementStrategy → Option Fallback → Type 0
  IsExcused strategy none = ⊥
  IsExcused strategy (some (invalid_placement_strategy e)) = ⊥
  IsExcused strategy (some (apply_failed e)) = CannotPlace strategy e
  IsExcused strategy (some (apply_failed_in_fallback e)) = CannotPlace strategy e
  IsExcused strategy (some (pod_counts_failed e)) = Unit
  IsExcused strategy (some marshal_pod_failed) = Unit
  IsExcused strategy (some marshal_original_failed) = Unit

module _ {W F : Type 0} (client : Client W) (codec : Codec) (fl : FloatOps F)
    (marshal_pod : Pod → Option Text) where
  abbrev pub AnswersBy : PlacementStrategy → Pod → Response → Type 0
  AnswersBy strategy pod = Answers marshal_pod (IsExcused fl strategy) (IsPlacedBy strategy pod) pod

  patch_of-AnswersBy :
      (strategy : PlacementStrategy) (pod modified : Pod) (changed original : Option Text)
      → marshal_pod modified ≡ changed
      → marshal_pod pod ≡ original
      → IsPlacedBy strategy pod modified
      → AnswersBy strategy pod (patch_of changed original)
  unfolding patch_of
  patch_of-AnswersBy strategy pod modified none original m p placed = tt
  patch_of-AnswersBy strategy pod modified (some changed) none m p placed = tt
  patch_of-AnswersBy strategy pod modified (some changed) (some original) m p placed =
      (modified, p, m, placed)

  abbrev WasApplied : Pod → PlacementStrategy → Result PlacementError Pod → Type 0
  WasApplied pod strategy (err e) = CannotPlace fl strategy e
  WasApplied pod strategy (ok placed) =
      (r : PlacementRule) × Memᴰ r strategy.rules
      × (o : Order Text) × IsOrder o
      × (placed ≡ apply_rule o r pod)

  WasApplied-result :
      (o : Order Text) (oc : Order ℤ) (pod : Pod) (strategy : PlacementStrategy) (counts : Map ℤ)
      (result : Result PlacementError Pod)
      → IsOrder o
      → apply_placement_strategy fl o oc pod (some strategy) counts ≡ result
      → WasApplied pod strategy result
  WasApplied-result o oc pod strategy counts (err e) order same =
      (o ▹ 0, oc, counts, apply_placement_strategy-err fl o oc pod strategy counts same)
  WasApplied-result o oc pod strategy counts (ok placed) order same =
      let (r, member, at) = apply_placement_strategy-Mem fl o oc pod placed strategy counts same in
      (r, member, o ▹ 1, IsOrder-at o 1 order, at)

  module _ (pod : Pod) (strategy : PlacementStrategy) (maps : HasMaps strategy) where
    fallback_response-AnswersBy :
        (result : Result PlacementError Pod)
        → WasApplied pod strategy result
        → AnswersBy strategy pod (fallback_response client codec fl marshal_pod pod result)
    unfolding fallback_response mark_fallback
    fallback_response-AnswersBy (err e) failed = failed
    fallback_response-AnswersBy (ok placed) (r, member, o, order, at) =
        patch_of-AnswersBy strategy pod (mark_fallback placed) _ _ refl refl (
          apply_rule-IsPlacedBy o r strategy pod (mark_fallback placed) order maps member
            (ap selector_of at) (ap affinity_of at) (mark_fallback-processed placed))

    apply_strategy_with_fallback-AnswersBy :
        (o : Order Text) (oc : Order ℤ) (deployment : Deployment)
        → IsOrder o
        → Always
            (AnswersBy strategy pod)
            (apply_strategy_with_fallback client codec fl marshal_pod o oc pod deployment strategy)
    unfolding apply_strategy_with_fallback
    apply_strategy_with_fallback-AnswersBy o oc deployment order =
        Always-bind (AnswersBy strategy pod)
          (client.list_pods deployment.namespace deployment.match_labels)
          (λ listed. pure (with_basic_counts client codec fl marshal_pod o oc pod strategy listed))
          (λ listed w. counted o oc order listed)
      where
        counted :
            (o : Order Text) (oc : Order ℤ)
            → IsOrder o
            → (listed : Result ApiError (List Pod))
            → AnswersBy strategy pod
                (with_basic_counts client codec fl marshal_pod o oc pod strategy listed)
        counted o oc order (err e) = tt
        counted o oc order (ok pods) =
            fallback_response-AnswersBy _
              (WasApplied-result (o ▹ 1) oc pod strategy _ _ (IsOrder-at o 1 order) refl)

    after_placement-AnswersBy :
        (o : Order Text) (oc : Order ℤ) (annotation : Text) (deployment : Deployment)
        (result : Result PlacementError Pod)
        → WasApplied pod strategy result
        → Always (AnswersBy strategy pod) (
            after_placement client codec fl marshal_pod o oc annotation pod deployment strategy
              result)
    unfolding after_placement mark
    after_placement-AnswersBy o oc annotation deployment (err e) failed w = failed
    after_placement-AnswersBy o oc annotation deployment (ok placed) (r, member, p, order, at) w =
        let key = get_applied_rule_key (o ▹ 0) pod placed strategy in
        patch_of-AnswersBy strategy pod (mark annotation key placed) _ _ refl refl (
          apply_rule-IsPlacedBy p r strategy pod (mark annotation key placed) order maps member
            (ap selector_of at) (ap affinity_of at) (mark-processed annotation key placed))

    with_state-AnswersBy :
        (o : Order Text) (oc : Order ℤ) (annotation : Text) (deployment : Deployment)
        (state : Result StateError PlacementState)
        → IsOrder o
        → Always
            (AnswersBy strategy pod)
            (with_state client codec fl marshal_pod o oc annotation pod deployment strategy state)
    unfolding with_state
    with_state-AnswersBy o oc annotation deployment (err e) order =
        apply_strategy_with_fallback-AnswersBy (o ▹ 0) oc deployment (IsOrder-at o 0 order)
    with_state-AnswersBy o oc annotation deployment (ok state) order =
        after_placement-AnswersBy (o ▹ 2) _ annotation deployment _
          (WasApplied-result (o ▹ 1) _ pod strategy state.pod_counts _ (IsOrder-at o 1 order) refl)

    -- Once its strategy is known, a pod is placed by one of the strategy's rules, or there is an
    -- excuse.
    pub with_strategy-AnswersBy :
        (o : Order Text) (oc : Order ℤ) (annotation : Text) (deployment : Deployment)
        → IsOrder o
        → Always
            (AnswersBy strategy pod)
            (with_strategy client codec fl marshal_pod o oc annotation pod deployment (ok strategy))
    unfolding with_strategy
    with_strategy-AnswersBy o oc annotation deployment order =
        Always-bind (AnswersBy strategy pod)
          (get_placement_state client codec (o ▹ 0) (λ path. oc (0 ∷ path)) deployment strategy)
          (with_state client codec fl marshal_pod (o ▹ 1) (λ path. oc (1 ∷ path)) annotation pod
            deployment strategy)
          (λ state.
            with_state-AnswersBy (o ▹ 1) (λ path. oc (1 ∷ path)) annotation deployment state
              (IsOrder-at o 1 order))
