-- ===== src/Tests/ControllerExamples.antt =====
-- The theorems on events, requeues and counts at the concrete values.
use kube_smart_scheduler.Prelude.{
  ◌≡◌, ◌↔◌, refl, Bool, true, false, ◌&&◌, some, none, List, [], ◌∷◌, All, arith,
}
use kube_smart_scheduler.GoText.{codes, text_eq}
use kube_smart_scheduler.GoMap.{lookup, in_order}
use kube_smart_scheduler.Counting.{is_node_selector_subset, counts_of}
use kube_smart_scheduler.Counting.Subset.{IsIncluded, is_node_selector_subset-IsIncluded}
use kube_smart_scheduler.Counting.Within.{IsAtMost, counted, counts_of-IsAtMost}
use kube_smart_scheduler.Events.{Event, update_event, pod_object}
use kube_smart_scheduler.Rebalance.Reconcile.{reconcile}
use kube_smart_scheduler.Rebalance.Requeues.{IsScheduled, reconcile-IsScheduled}
use kube_smart_scheduler.Rebalance.Events.{
  Filter, IsGlobal, pod_updated, watch_pods, watch_pods-never,
}
use kube_smart_scheduler.Scheduler
use kube_smart_scheduler.Scheduler.{IsExcused, event_filter, reconcile-IsExcused}
use kube_smart_scheduler.Tests.Rationals.{rationals}
use kube_smart_scheduler.Tests.Values.{
  cluster, plain_codec, web_deployment, web_annotation, ondemand, spot, new_pod, spot_pod,
}

counts_of-IsAtMost_example :
    IsAtMost
      (counted (spot_pod ∷ new_pod ∷ []))
      (counts_of in_order (spot_pod ∷ new_pod ∷ []) (ondemand ∷ spot ∷ []))
counts_of-IsAtMost_example =
    counts_of-IsAtMost in_order (spot_pod ∷ new_pod ∷ []) (ondemand ∷ spot ∷ []) (omega arith)

is_node_selector_subset-IsIncluded_example :
    (is_node_selector_subset spot.node_selector spot_pod.node_selector ≡ true)
    ↔ IsIncluded spot.node_selector spot_pod.node_selector
is_node_selector_subset-IsIncluded_example =
    is_node_selector_subset-IsIncluded spot.node_selector spot_pod.node_selector (tt, tt)

annotated :
    lookup (codes "smart-scheduler.io/schedule-strategy") web_deployment.annotations
    ≡ some web_annotation
unfolding lookup text_eq
annotated = refl

reconcile-IsScheduled_example :
    IsScheduled
      (reconcile cluster plain_codec rationals
        (λ drift. [])
        in_order
        in_order
        (codes "default")
        (codes "web")
        0).0
reconcile-IsScheduled_example =
    reconcile-IsScheduled cluster plain_codec rationals (λ drift. []) in_order in_order
      (codes "default") (codes "web") web_annotation web_deployment 0 refl annotated

abbrev all_pass : List Filter → Event → Bool
all_pass [] e = true
all_pass (filter ∷ filters) e = filter e && all_pass filters e

abbrev both_pass : List Filter → List Filter → Event → Bool
both_pass globals own e = all_pass globals e && all_pass own e

both_left : (a b : Bool) → (a && b) ≡ true → a ≡ true
both_left a b = ground arith

both_right : (a b : Bool) → (a && b) ≡ true → b ≡ true
both_right a b = ground arith

all_pass-All :
    (filters : List Filter) (e : Event) → all_pass filters e ≡ true → All (λ f. f e ≡ true) filters
all_pass-All [] e h = tt
all_pass-All (filter ∷ filters) e h = (
  both_left (filter e) (all_pass filters e) h,
  all_pass-All filters e (both_right (filter e) (all_pass filters e) h),
)

both_pass-IsGlobal : IsGlobal both_pass
both_pass-IsGlobal globals own e h =
    all_pass-All globals e (both_left (all_pass globals e) (all_pass own e) h)

watch_pods-never_example :
    watch_pods both_pass (update_event (pod_object new_pod) (pod_object spot_pod)) ≡ false
watch_pods-never_example =
    watch_pods-never both_pass (update_event (pod_object new_pod) (pod_object spot_pod))
      both_pass-IsGlobal (pod_updated new_pod spot_pod)

reconcile-IsExcused_example :
    ((Scheduler.reconcile cluster (codes "default") (codes "web") 0).1
      ≡ (cluster.get_deployment (codes "default") (codes "web") 0).1)
    × ((Scheduler.reconcile cluster (codes "default") (codes "web") 0).0.requeue_after ≡ 0)
    × ((Scheduler.reconcile cluster (codes "default") (codes "web") 0).0.error ≡ none
        ↔ IsExcused (cluster.get_deployment (codes "default") (codes "web") 0).0)
reconcile-IsExcused_example = reconcile-IsExcused cluster (codes "default") (codes "web") 0
