-- ===== src/Rebalance/Select.antt =====
-- DriftReport and selectPodsForRebalancing (controllers/rebalance_controller.go).
use kube_smart_scheduler.Prelude.{ℕ, suc, Bool, List, [], ◌∷◌, ◌++◌, take, ◌&&◌, if◌then◌else◌}
use kube_smart_scheduler.Prelude.Int.{ℤ, pos, pos_part, ltb_ℤ}
use kube_smart_scheduler.Prelude.Int64.{sub64}
use kube_smart_scheduler.GoText.{Text}
use kube_smart_scheduler.GoMap.{Map, insert, get_or, Order, ◌▹◌, range}
use kube_smart_scheduler.Kube.{Pod, is_running, is_nil}
use kube_smart_scheduler.Rebalance.{node_selector_to_string}

pub record DriftReport (F : Type 0) : Type 0 where
  pub deployment_name : Text
  pub deployment_namespace : Text
  pub expected_counts : Map ℤ
  pub actual_counts : Map ℤ
  pub drift_percentage : F
  pub requires_rebalance : Bool
  pub timestamp : ℕ

-- A pod may be deleted if it runs and is not being deleted.
abbrev pub is_candidate : Pod → Bool
is_candidate pod = is_nil pod.deletion_timestamp && is_running pod.phase

unfoldable pub group_pods : Order Text → ℕ → List Pod → Map (List Pod) → Map (List Pod)
group_pods o n [] groups = groups
group_pods o n (pod ∷ pods) groups =
    let key = node_selector_to_string (o ▹ n) pod.node_selector in
    group_pods o (suc n) pods
      (if is_candidate pod then insert key (get_or key groups [] ++ pod ∷ []) groups else groups)

-- The loop over the actual counts, in the order visited: as many pods as a rule has too many.
unfoldable pub excess_pods : Map (List Pod) → Map ℤ → Map ℤ → List Pod
excess_pods groups expected [] = []
excess_pods groups expected ((key, actual) ∷ entries) =
    let wanted = get_or key expected (pos 0) in
    let rest = excess_pods groups expected entries in
    if ltb_ℤ wanted actual
    then take (pos_part (sub64 actual wanted)) (get_or key groups []) ++ rest
    else rest

unfoldable pub select_pods_for_rebalancing :
    {F : Type 0} → Order Text → Order ℤ → List Pod → DriftReport F → List Pod
unfolding group_pods excess_pods
select_pods_for_rebalancing o oc pods drift =
    excess_pods (group_pods o 0 pods []) drift.expected_counts (range oc drift.actual_counts)
