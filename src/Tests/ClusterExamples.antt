-- ===== src/Tests/ClusterExamples.antt =====
-- The theorems on the webhook and the rebalancing at the concrete values.
use mathlib.Core.List.{Memᴰ}
use kube_smart_scheduler.Prelude.{arith, ◌≡◌, refl, true, some, [], ◌∷◌, All, if◌then◌else◌}
use kube_smart_scheduler.Prelude.Int.{pos}
use kube_smart_scheduler.Prelude.Int64.{add64, bits, signed}
use kube_smart_scheduler.Prelude.Result.{ok}
use kube_smart_scheduler.GoText.{codes, text_eq}
use kube_smart_scheduler.GoMap.{get_or, in_order}
use kube_smart_scheduler.Placement.{total_pods}
use kube_smart_scheduler.State.{PlacementState}
use kube_smart_scheduler.State.Load.{get_placement_state}
use kube_smart_scheduler.State.Increment.{increment}
use kube_smart_scheduler.State.Totals.{
  IsTotalled, IsCurrent, increment-IsTotalled, get_placement_state-IsCurrent,
}
use kube_smart_scheduler.Mutator.Handle.{after_placement}
use kube_smart_scheduler.Mutator.Uncounted.{after_placement-uncounted}
use kube_smart_scheduler.Strategy.{PlacementStrategy}
use kube_smart_scheduler.Rebalance.Select.{DriftReport, is_candidate, select_pods_for_rebalancing}
use kube_smart_scheduler.Rebalance.{calculate_expected_distribution}
use kube_smart_scheduler.Rebalance.Distribution.{HandsOut, calculate_expected_distribution-HandsOut}
use kube_smart_scheduler.Rebalance.Bounds.{select-All}
use kube_smart_scheduler.Tests.Rationals.{Rational, rationals, rationals-FloatLaws}
use kube_smart_scheduler.Tests.Values.{
  web_strategy, ondemand, spot, web_counts, new_pod, spot_pod, web_deployment, cluster, plain_codec,
  pod_text, in_order-IsOrder,
}

abbrev web_state : PlacementState
web_state = record {
  deployment_name = codes "web";
  deployment_namespace = codes "default";
  strategy = some web_strategy;
  pod_counts = web_counts 2 1;
  last_updated = 0;
  total_pods = pos 3;
}

web_state-IsTotalled : IsTotalled web_state
unfolding total_pods add64 bits signed
web_state-IsTotalled = refl

increment-IsTotalled_example :
    IsTotalled (increment (codes "node=spot") web_state)
    × (get_or (codes "node=spot") (increment (codes "node=spot") web_state).pod_counts (pos 0) ≡ (
        if text_eq (codes "node=spot") (codes "node=spot")
        then add64 (get_or (codes "node=spot") (web_counts 2 1) (pos 0)) (pos 1)
        else get_or (codes "node=spot") (web_counts 2 1) (pos 0)))
increment-IsTotalled_example =
    increment-IsTotalled (codes "node=spot") (codes "node=spot") web_state web_state-IsTotalled

get_placement_state-IsCurrent_example :
    IsCurrent cluster plain_codec web_strategy
      (get_placement_state cluster plain_codec in_order in_order web_deployment web_strategy 0).0
get_placement_state-IsCurrent_example =
    get_placement_state-IsCurrent cluster plain_codec in_order in_order in_order-IsOrder
      web_deployment web_strategy 0

abbrev web_drift : DriftReport Rational
web_drift = record {
  deployment_name = codes "web";
  deployment_namespace = codes "default";
  expected_counts = [];
  actual_counts = (codes "[node=spot]", pos 1) ∷ [];
  drift_percentage = (pos 100, 1);
  requires_rebalance = true;
  timestamp = 0;
}

select-All_example :
    All
      (λ pod. Memᴰ pod (spot_pod ∷ new_pod ∷ []) × (is_candidate pod ≡ true))
      (select_pods_for_rebalancing in_order in_order (spot_pod ∷ new_pod ∷ []) web_drift)
select-All_example = select-All in_order in_order (spot_pod ∷ new_pod ∷ []) web_drift

calculate_expected_distribution-HandsOut_example :
    HandsOut rationals rationals-FloatLaws 7 2
      (calculate_expected_distribution rationals in_order web_strategy (pos 7))
calculate_expected_distribution-HandsOut_example =
    calculate_expected_distribution-HandsOut rationals rationals-FloatLaws in_order web_strategy
      ondemand (spot ∷ []) 1 7 refl refl (omega arith) (omega arith) (omega arith)
      (
        (refl, omega arith, omega arith, omega arith),
        ((refl, omega arith, omega arith, omega arith), tt),
      )

abbrev anywhere : PlacementStrategy
anywhere = record { base = pos 0; rules = record ondemand { node_selector = [] } ∷ spot ∷ [] }

after_placement-uncounted_example :
    (after_placement cluster plain_codec rationals pod_text in_order in_order [] new_pod
      web_deployment anywhere
      (ok spot_pod)
      0).1
    ≡ 0
after_placement-uncounted_example =
    after_placement-uncounted cluster plain_codec rationals pod_text in_order in_order [] new_pod
      web_deployment anywhere (ok spot_pod) (record ondemand { node_selector = [] }) (spot ∷ []) 0
      refl refl
