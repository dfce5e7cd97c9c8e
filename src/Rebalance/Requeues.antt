-- ===== src/Rebalance/Requeues.antt =====
-- What Reconcile of the rebalance controller answers for a deployment with a strategy.
use kube_smart_scheduler.Prelude.{
  ℕ, ◌*◌, ◌≤◌, ◌≡◌, ◌≢◌, ◌⊎◌, inl, inr, none, some, List, ◌∷◌, ltb, arith, if◌then◌else◌,
}
use kube_smart_scheduler.Prelude.Int.{ℤ}
use kube_smart_scheduler.Prelude.Result.{Result, ok, err}
use kube_smart_scheduler.GoText.{Text, codes}
use kube_smart_scheduler.GoMap.{lookup, Order, ◌▹◌}
use kube_smart_scheduler.Strategy.{PlacementStrategy}
use kube_smart_scheduler.Strategy.Parse.{ParseError, parse_placement_strategy}
use kube_smart_scheduler.Kube.{Pod, Deployment}
use kube_smart_scheduler.Client.{ApiError, Client}
use kube_smart_scheduler.Client.Always.{Always, Always-bind, Always-if}
use kube_smart_scheduler.Float.{FloatOps}
use kube_smart_scheduler.State.{PlacementState, StateError, Codec}
use kube_smart_scheduler.State.Load.{get_placement_state}
use kube_smart_scheduler.Controller.{ReconcileResult, minute, requeue}
use kube_smart_scheduler.Rebalance.Select.{DriftReport}
use kube_smart_scheduler.Rebalance.Reconcile.{
  reconcile, with_deployment, with_annotation, with_strategy, with_state, with_report,
  listed_rebalancing, perform_rebalancing, calculate_drift,
}

-- The request fails, or comes back within two to ten minutes.
abbrev pub IsScheduled : ReconcileResult ApiError → Type 0
IsScheduled result =
    (result.error ≢ none)
    ⊎ ((2 * minute ≤ result.requeue_after) × (result.requeue_after ≤ 10 * minute))

module _ {W F : Type 0} (client : Client W) (codec : Codec) (fl : FloatOps F)
    (message_of : F → Text) where
  IsScheduled-after :
      (deleted : ℕ) → IsScheduled (requeue (if ltb 0 deleted then 2 * minute else 5 * minute))
  IsScheduled-after deleted = ground arith

  IsScheduled-listed :
      (o : Order Text) (oc : Order ℤ) (deployment : Deployment) (drift : DriftReport F)
      (listed : Result ApiError (List Pod))
      → Always IsScheduled
          (listed_rebalancing client codec fl message_of o oc deployment drift listed)
  unfolding listed_rebalancing
  IsScheduled-listed o oc deployment drift (err e) = λ w. inl (λ none_failed. cc)
  IsScheduled-listed o oc deployment drift (ok pods) = λ w. IsScheduled-after _

  IsScheduled-report :
      (o : Order Text) (oc : Order ℤ) (deployment : Deployment)
      (report : Result ApiError (DriftReport F))
      → Always IsScheduled (with_report client codec fl message_of o oc deployment report)
  unfolding with_report perform_rebalancing
  IsScheduled-report o oc deployment (err e) = λ w. inr (omega arith, omega arith)
  IsScheduled-report o oc deployment (ok drift) =
      Always-if IsScheduled drift.requires_rebalance _ _
        (Always-bind IsScheduled (client.list_pods deployment.namespace deployment.match_labels)
          (listed_rebalancing client codec fl message_of o oc deployment drift)
          (IsScheduled-listed o oc deployment drift))
        (λ w. inr (omega arith, omega arith))

  IsScheduled-state :
      (o : Order Text) (oc : Order ℤ) (deployment : Deployment) (strategy : PlacementStrategy)
      (stored : Result StateError PlacementState)
      → Always IsScheduled (with_state client codec fl message_of o oc deployment strategy stored)
  unfolding with_state
  IsScheduled-state o oc deployment strategy (err e) = λ w. inr (omega arith, omega arith)
  IsScheduled-state o oc deployment strategy (ok state) =
      Always-bind IsScheduled
        (calculate_drift client codec fl message_of (o ▹ 0) (λ path. oc (0 ∷ path)) deployment
          strategy state)
        (with_report client codec fl message_of (o ▹ 1) (λ path. oc (1 ∷ path)) deployment)
        (IsScheduled-report (o ▹ 1) (λ path. oc (1 ∷ path)) deployment)

  IsScheduled-strategy :
      (o : Order Text) (oc : Order ℤ) (deployment : Deployment)
      (parsed : Result ParseError PlacementStrategy)
      → Always IsScheduled (with_strategy client codec fl message_of o oc deployment parsed)
  unfolding with_strategy
  IsScheduled-strategy o oc deployment (err e) = λ w. inr (omega arith, omega arith)
  IsScheduled-strategy o oc deployment (ok strategy) =
      Always-bind IsScheduled
        (get_placement_state client codec (o ▹ 0) (λ path. oc (0 ∷ path)) deployment strategy)
        (with_state client codec fl message_of (o ▹ 1) (λ path. oc (1 ∷ path)) deployment strategy)
        (IsScheduled-state (o ▹ 1) (λ path. oc (1 ∷ path)) deployment strategy)

  -- If the deployment is found and has a strategy, whatever that strategy is and whatever the API
  -- server answers after that, then the request either fails or is asked for again in no less than
  -- two and no more than ten minutes.
  pub reconcile-IsScheduled :
      (o : Order Text) (oc : Order ℤ) (namespace name schedule_strategy : Text)
      (deployment : Deployment) (w : W)
      → (client.get_deployment namespace name w).0 ≡ ok deployment
      → lookup (codes "smart-scheduler.io/schedule-strategy") deployment.annotations
        ≡ some schedule_strategy
      → IsScheduled (reconcile client codec fl message_of o oc namespace name w).0
  unfolding reconcile with_deployment with_annotation
  reconcile-IsScheduled o oc namespace name schedule_strategy deployment w found annotated =
      rw (found, annotated)
        (IsScheduled-strategy o oc deployment (parse_placement_strategy schedule_strategy)
          (client.get_deployment namespace name w).1)
