-- ===== src/Rebalance/Events.antt =====
-- The event filters of RebalanceController (SetupWithManager in controllers/rebalance_controller.go).
-- Logging is left out, and so are generic events, which no watch of objects has. How
-- controller-runtime combines filters is a parameter.
use kube_smart_scheduler.Prelude.{
  Bool, true, false, not, ◌||◌, ◌&&◌, ◌≡◌, refl, inl, inr, Bool-cases, List, [], ◌∷◌, All,
  if◌then◌else◌,
}
use kube_smart_scheduler.GoText.{text_eq, is_empty, codes}
use kube_smart_scheduler.GoMap.{get_or}
use kube_smart_scheduler.Events.{
  deployment_object, pod_object, Event, create_event, update_event, delete_event, strategy_of,
  differ_ℤ,
}
use kube_smart_scheduler.Kube.{
  PodPhase, pending, running, succeeded, failed, unknown, Pod, Deployment, is_nil,
}

unfoldable pub has_strategy : Deployment → Bool
unfolding is_empty
has_strategy deployment = not (is_empty (strategy_of deployment))

unfoldable pub status_changed : Deployment → Deployment → Bool
status_changed old_dep new_dep =
    differ_ℤ old_dep.ready_replicas new_dep.ready_replicas
    || differ_ℤ old_dep.available_replicas new_dep.available_replicas

unfoldable pub should_reconcile_deployment : Deployment → Deployment → Bool
unfolding has_strategy status_changed
should_reconcile_deployment old_dep new_dep =
    has_strategy new_dep
    && (not (text_eq (strategy_of old_dep) (strategy_of new_dep))
        || differ_ℤ old_dep.generation new_dep.generation
        || status_changed old_dep new_dep)

-- Objects that are no deployments are turned away.
unfoldable pub deployment_predicates : Event → Bool
unfolding has_strategy should_reconcile_deployment
deployment_predicates (create_event (deployment_object deployment)) = has_strategy deployment
deployment_predicates (create_event _) = false
deployment_predicates (update_event (deployment_object old_dep) (deployment_object new_dep)) =
    should_reconcile_deployment old_dep new_dep
deployment_predicates (update_event _ _) = false
deployment_predicates (delete_event (deployment_object deployment)) = has_strategy deployment
deployment_predicates (delete_event _) = false

unfoldable pub has_smart_scheduler_annotation : Pod → Bool
unfolding is_empty
has_smart_scheduler_annotation pod =
    not (is_empty (get_or (codes "smart-scheduler.io/processed") pod.annotations []))
    || not (is_empty (get_or (codes "smart-scheduler.io/strategy-applied") pod.annotations []))

abbrev pub phase_eq : PodPhase → PodPhase → Bool
phase_eq pending pending = true
phase_eq running running = true
phase_eq succeeded succeeded = true
phase_eq failed failed = true
phase_eq unknown unknown = true
phase_eq _ _ = false

unfoldable pub should_reconcile_pod : Pod → Pod → Bool
unfolding has_smart_scheduler_annotation
should_reconcile_pod old_pod new_pod =
    if not (has_smart_scheduler_annotation new_pod)
    then false
    else (not (phase_eq old_pod.phase new_pod.phase)
        || (not (is_nil new_pod.deletion_timestamp) && is_nil old_pod.deletion_timestamp))

unfoldable pub pod_predicates : Event → Bool
unfolding has_smart_scheduler_annotation should_reconcile_pod
pod_predicates (create_event (pod_object pod)) = has_smart_scheduler_annotation pod
pod_predicates (create_event _) = false
pod_predicates (update_event (pod_object old_pod) (pod_object new_pod)) =
    should_reconcile_pod old_pod new_pod
pod_predicates (update_event _ _) = false
pod_predicates (delete_event (pod_object pod)) = has_smart_scheduler_annotation pod
pod_predicates (delete_event _) = false

-- What a builder of controller-runtime does with the filters given by WithEventFilter and those of
-- one watch.
abbrev pub Filter : Type 0
Filter = Event → Bool

-- WithEventFilter filters the events of every watch.
abbrev pub IsGlobal : (List Filter → List Filter → Event → Bool) → Type 0
IsGlobal admits =
    (globals own : List Filter) (e : Event)
    → admits globals own e ≡ true
    → All (λ f. f e ≡ true) globals

-- The controller's two watches: For deployments, and of pods.
module _ (admits : List Filter → List Filter → Event → Bool) where
  abbrev pub watch_deployments : Event → Bool
  watch_deployments = admits (deployment_predicates ∷ []) []

  abbrev pub watch_pods : Event → Bool
  watch_pods = admits (deployment_predicates ∷ []) (pod_predicates ∷ [])

-- The events that a watch of pods has.
pub data IsPodEvent : Event → Type 0 where
  pod_created : (pod : Pod) → IsPodEvent (create_event (pod_object pod))
  pod_updated :
      (old_pod new_pod : Pod) → IsPodEvent (update_event (pod_object old_pod) (pod_object new_pod))
  pod_deleted : (pod : Pod) → IsPodEvent (delete_event (pod_object pod))

turned_away : (e : Event) → IsPodEvent e → deployment_predicates e ≡ false
unfolding deployment_predicates
turned_away _ (pod_created pod) = refl
turned_away _ (pod_updated old_pod new_pod) = refl
turned_away _ (pod_deleted pod) = refl

-- If the filters given by WithEventFilter hold for every watch, then no event of a pod passes the
-- filters of the watch of pods.
pub watch_pods-never :
    (admits : List Filter → List Filter → Event → Bool) (e : Event)
    → IsGlobal admits
    → IsPodEvent e
    → watch_pods admits e ≡ false
watch_pods-never admits e is_global is_pod = elim (Bool-cases (watch_pods admits e)) [
  | inl admitted ↦ let passed = is_global _ _ e admitted in let refused = turned_away e is_pod in cc
  | inr refused ↦ refused
]
