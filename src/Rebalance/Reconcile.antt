-- ===== src/Rebalance/Reconcile.antt =====
-- RebalanceController.Reconcile and what it calls (controllers/rebalance_controller.go). Logging is
-- left out. The message of the event holds the drift with one decimal, which is a parameter.
use kube_smart_scheduler.Prelude.{
  ℕ, suc, ◌*◌, ◌/◌, Option, none, some, List, [], ◌∷◌, ltb, leb, if◌then◌else◌,
}
use kube_smart_scheduler.Prelude.Int.{ℤ, pos}
use kube_smart_scheduler.Prelude.Result.{Result, ok, err}
use kube_smart_scheduler.GoText.{Text, codes}
use kube_smart_scheduler.GoMap.{lookup, Order, ◌▹◌, range}
use kube_smart_scheduler.Strategy.{PlacementStrategy}
use kube_smart_scheduler.Strategy.Parse.{ParseError, parse_placement_strategy}
use kube_smart_scheduler.Kube.{Pod, Deployment, is_nil}
use kube_smart_scheduler.Client.{ApiError, not_found, Act, ◌>>=◌, ◌>>◌, pure, Client}
use kube_smart_scheduler.Float.{FloatOps}
use kube_smart_scheduler.State.{PlacementState, StateError, Codec, second}
use kube_smart_scheduler.State.Load.{get_placement_state}
use kube_smart_scheduler.State.Increment.{cleanup_stale_states}
use kube_smart_scheduler.Controller.{ReconcileResult, minute, requeue, failed}
use kube_smart_scheduler.Rebalance.{
  actual_counts_of, calculate_expected_distribution, drift_totals, drift_percentage,
}
use kube_smart_scheduler.Rebalance.Select.{DriftReport, select_pods_for_rebalancing}

module _ {W F : Type 0} (client : Client W) (codec : Codec) (fl : FloatOps F)
    (message_of : F → Text) where
  open client use {now, get_deployment, list_pods, delete_pod, create_event}

  unfoldable pub report_of :
      Order Text
      → Order ℤ
      → Deployment
      → PlacementStrategy
      → PlacementState
      → List Pod
      → Act W (DriftReport F)
  report_of o oc deployment strategy state pods =
      let actual = actual_counts_of (o ▹ 0) pods strategy.rules in
      let expected = calculate_expected_distribution fl (o ▹ 1) strategy state.total_pods in
      let percentage =
        drift_percentage fl (drift_totals fl (range oc expected) actual (pos 0, pos 0)) in
      do
        time ← now
        pure (record {
          deployment_name = deployment.name;
          deployment_namespace = deployment.namespace;
          expected_counts = expected;
          actual_counts = actual;
          drift_percentage = percentage;
          requires_rebalance = fl.less (fl.of_int (pos 20)) percentage;
          timestamp = time;
        })

  unfoldable pub listed_report :
      Order Text
      → Order ℤ
      → Deployment
      → PlacementStrategy
      → PlacementState
      → Result ApiError (List Pod)
      → Act W (Result ApiError (DriftReport F))
  unfolding report_of
  listed_report o oc deployment strategy state (err e) = pure (err e)
  listed_report o oc deployment strategy state (ok pods) = do
    report ← report_of o oc deployment strategy state pods
    pure (ok report)

  unfoldable pub calculate_drift :
      Order Text
      → Order ℤ
      → Deployment
      → PlacementStrategy
      → PlacementState
      → Act W (Result ApiError (DriftReport F))
  unfolding listed_report
  calculate_drift o oc deployment strategy state = do
    listed ← list_pods deployment.namespace deployment.match_labels
    listed_report o oc deployment strategy state listed

  -- A failure to create the event is only logged.
  unfoldable pub create_rebalance_event : Deployment → F → Act W (Unit {0})
  create_rebalance_event deployment drift = do
    time ← now
    created ← create_event (record {
      name_seconds = time / second;
      namespace = deployment.namespace;
      deployment_name = deployment.name;
      reason = codes "PodDeleted";
      message = message_of drift;
    })
    pure tt

  abbrev pub max_deletions : ℕ
  max_deletions = 1

  unfoldable pub after_delete :
      (ℕ → Act W ℕ) → Deployment → F → ℕ → Result ApiError (Unit {0}) → Act W ℕ
  unfolding create_rebalance_event
  after_delete rest deployment drift deleted (err e) = rest deleted
  after_delete rest deployment drift deleted (ok done) =
      create_rebalance_event deployment drift >> rest (suc deleted)

  -- The loop over the pods to delete; the result is how many were deleted.
  unfoldable pub delete_pods : Deployment → F → List Pod → ℕ → Act W ℕ
  unfolding after_delete
  delete_pods deployment drift [] deleted = pure deleted
  delete_pods deployment drift (pod ∷ pods) deleted =
      let rest = delete_pods deployment drift pods in
      let attempted = delete_pod pod >>= after_delete rest deployment drift deleted in
      if leb max_deletions deleted
      then pure deleted
      else if is_nil pod.deletion_timestamp
      then attempted
      else rest deleted

  unfoldable pub listed_rebalancing :
      Order Text
      → Order ℤ
      → Deployment
      → DriftReport F
      → Result ApiError (List Pod)
      → Act W (ReconcileResult ApiError)
  unfolding delete_pods
  listed_rebalancing o oc deployment drift (err e) = pure (failed e)
  listed_rebalancing o oc deployment drift (ok pods) = do
    deleted ←
        delete_pods deployment drift.drift_percentage (select_pods_for_rebalancing o oc pods drift)
          0
    pure (requeue (if ltb 0 deleted then 2 * minute else 5 * minute))

  unfoldable pub perform_rebalancing :
      Order Text → Order ℤ → Deployment → DriftReport F → Act W (ReconcileResult ApiError)
  unfolding listed_rebalancing
  perform_rebalancing o oc deployment drift = do
    listed ← list_pods deployment.namespace deployment.match_labels
    listed_rebalancing o oc deployment drift listed

  unfoldable pub with_report :
      Order Text
      → Order ℤ
      → Deployment
      → Result ApiError (DriftReport F)
      → Act W (ReconcileResult ApiError)
  unfolding perform_rebalancing
  with_report o oc deployment (err e) = pure (requeue (2 * minute))
  with_report o oc deployment (ok drift) =
      if drift.requires_rebalance
      then perform_rebalancing o oc deployment drift
      else pure (requeue (10 * minute))

  unfoldable pub with_state :
      Order Text
      → Order ℤ
      → Deployment
      → PlacementStrategy
      → Result StateError PlacementState
      → Act W (ReconcileResult ApiError)
  unfolding with_report calculate_drift
  with_state o oc deployment strategy (err e) = pure (requeue (2 * minute))
  with_state o oc deployment strategy (ok state) = do
    report ← calculate_drift (o ▹ 0) (λ path. oc (0 ∷ path)) deployment strategy state
    with_report (o ▹ 1) (λ path. oc (1 ∷ path)) deployment report

  unfoldable pub with_strategy :
      Order Text
      → Order ℤ
      → Deployment
      → Result ParseError PlacementStrategy
      → Act W (ReconcileResult ApiError)
  unfolding with_state
  with_strategy o oc deployment (err e) = pure (requeue (5 * minute))
  with_strategy o oc deployment (ok strategy) = do
    state ← get_placement_state client codec (o ▹ 0) (λ path. oc (0 ∷ path)) deployment strategy
    with_state (o ▹ 1) (λ path. oc (1 ∷ path)) deployment strategy state

  unfoldable pub with_annotation :
      Order Text → Order ℤ → Deployment → Option Text → Act W (ReconcileResult ApiError)
  unfolding with_strategy
  with_annotation o oc deployment none = pure (requeue 0)
  with_annotation o oc deployment (some schedule_strategy) =
      with_strategy o oc deployment (parse_placement_strategy schedule_strategy)

  -- A failure to clean up is only logged.
  unfoldable pub handle_deployment_deletion : Text → Act W (ReconcileResult ApiError)
  handle_deployment_deletion namespace =
      cleanup_stale_states client codec namespace >> pure (requeue 0)

  unfoldable pub with_deployment :
      Order Text → Order ℤ → Text → Result ApiError Deployment → Act W (ReconcileResult ApiError)
  unfolding with_annotation handle_deployment_deletion
  with_deployment o oc namespace (err not_found) = handle_deployment_deletion namespace
  with_deployment o oc namespace (err e) = pure (failed e)
  with_deployment o oc namespace (ok deployment) =
      with_annotation o oc deployment
        (lookup (codes "smart-scheduler.io/schedule-strategy") deployment.annotations)

  unfoldable pub reconcile : Order Text → Order ℤ → Text → Text → Act W (ReconcileResult ApiError)
  unfolding with_deployment
  reconcile o oc namespace name = do
    found ← get_deployment namespace name
    with_deployment o oc namespace found
