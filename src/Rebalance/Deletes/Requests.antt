-- ===== src/Rebalance/Deletes/Requests.antt =====
-- What a request of the rebalance controller deletes (Reconcile in
-- controllers/rebalance_controller.go).
use kube_smart_scheduler.Prelude.{◌*◌, ◌++◌, refl, ap, Option, none, some, List, ◌∷◌}
use kube_smart_scheduler.Prelude.Int.{ℤ}
use kube_smart_scheduler.Prelude.Result.{Result, ok, err}
use kube_smart_scheduler.GoText.{Text, codes}
use kube_smart_scheduler.GoMap.{lookup, Order, ◌▹◌}
use kube_smart_scheduler.Strategy.{PlacementStrategy}
use kube_smart_scheduler.Strategy.Parse.{ParseError, parse_placement_strategy}
use kube_smart_scheduler.Kube.{Pod, Deployment}
use kube_smart_scheduler.Client.{ApiError, not_found, conflict, other, Client}
use kube_smart_scheduler.Client.Watched.{deletions, watched, IsSilent, Listens, pods_of}
use kube_smart_scheduler.Float.{FloatOps}
use kube_smart_scheduler.State.{PlacementState, StateError, Codec}
use kube_smart_scheduler.State.Load.{get_placement_state}
use kube_smart_scheduler.State.Silent.{get_placement_state-Listens, cleanup_stale_states-IsSilent}
use kube_smart_scheduler.Controller.{minute, requeue, failed}
use kube_smart_scheduler.Rebalance.Reconcile.{
  report_of, listed_report, calculate_drift, with_report, with_state, with_strategy,
  with_annotation, handle_deployment_deletion, with_deployment, reconcile,
}
use kube_smart_scheduler.Rebalance.Deletes.{
  Deletes, silent-Deletes, pure-Deletes, listen-Deletes, with_report-Deletes,
}

module _ {W F : Type 0} (client : Client W) (codec : Codec) (fl : FloatOps F)
    (message_of : F → Text) where
  listed_report-IsSilent :
      (o : Order Text) (oc : Order ℤ) (deployment : Deployment) (strategy : PlacementStrategy)
      (state : PlacementState) (listed : Result ApiError (List Pod))
      → IsSilent (listed_report client codec fl message_of o oc deployment strategy state listed) (
          listed_report
            (watched deletions client)
            codec
            fl
            message_of
            o
            oc
            deployment
            strategy
            state
            listed)
  unfolding listed_report report_of
  listed_report-IsSilent o oc deployment strategy state (err e) w before = refl
  listed_report-IsSilent o oc deployment strategy state (ok pods) w before = refl

  calculate_drift-Listens :
      (o : Order Text) (oc : Order ℤ) (deployment : Deployment) (strategy : PlacementStrategy)
      (state : PlacementState)
      → Listens deletions
          (calculate_drift client codec fl message_of o oc deployment strategy state)
          (calculate_drift
            (watched deletions client)
            codec
            fl
            message_of
            o
            oc
            deployment
            strategy
            state)
  unfolding calculate_drift
  calculate_drift-Listens o oc deployment strategy state w before =
      let listed = client.list_pods deployment.namespace deployment.match_labels w in
      (
        some listed.0,
        listed_report-IsSilent o oc deployment strategy state listed.0 listed.1
            (before.0 ++ pods_of listed.0, before.1),
      )

  with_state-Deletes :
      (o : Order Text) (oc : Order ℤ) (deployment : Deployment) (strategy : PlacementStrategy)
      (state : Result StateError PlacementState)
      → Deletes
          (with_state client codec fl message_of o oc deployment strategy state)
          (with_state (watched deletions client) codec fl message_of o oc deployment strategy state)
  unfolding with_state
  with_state-Deletes o oc deployment strategy (err e) = pure-Deletes (requeue (2 * minute))
  with_state-Deletes o oc deployment strategy (ok state) =
      let first : Order ℤ = λ path. oc (0 ∷ path) in
      let second : Order ℤ = λ path. oc (1 ∷ path) in
      listen-Deletes
        (calculate_drift client codec fl message_of (o ▹ 0) first deployment strategy state)
        (calculate_drift (watched deletions client) codec fl message_of (o ▹ 0) first deployment
          strategy state)
        (with_report client codec fl message_of (o ▹ 1) second deployment)
        (with_report (watched deletions client) codec fl message_of (o ▹ 1) second deployment)
        (calculate_drift-Listens (o ▹ 0) first deployment strategy state)
        (with_report-Deletes client codec fl message_of (o ▹ 1) second deployment)

  with_strategy-Deletes :
      (o : Order Text) (oc : Order ℤ) (deployment : Deployment)
      (strategy : Result ParseError PlacementStrategy)
      → Deletes
          (with_strategy client codec fl message_of o oc deployment strategy)
          (with_strategy (watched deletions client) codec fl message_of o oc deployment strategy)
  unfolding with_strategy
  with_strategy-Deletes o oc deployment (err e) = pure-Deletes (requeue (5 * minute))
  with_strategy-Deletes o oc deployment (ok strategy) =
      let first : Order ℤ = λ path. oc (0 ∷ path) in
      let second : Order ℤ = λ path. oc (1 ∷ path) in
      listen-Deletes (get_placement_state client codec (o ▹ 0) first deployment strategy)
        (get_placement_state (watched deletions client) codec (o ▹ 0) first deployment strategy)
        (with_state client codec fl message_of (o ▹ 1) second deployment strategy)
        (with_state (watched deletions client) codec fl message_of (o ▹ 1) second deployment
          strategy)
        (get_placement_state-Listens deletions client codec (o ▹ 0) first deployment strategy)
        (with_state-Deletes (o ▹ 1) second deployment strategy)

  with_annotation-Deletes :
      (o : Order Text) (oc : Order ℤ) (deployment : Deployment) (annotation : Option Text)
      → Deletes (with_annotation client codec fl message_of o oc deployment annotation) (
          with_annotation (watched deletions client) codec fl message_of o oc deployment annotation)
  unfolding with_annotation
  with_annotation-Deletes o oc deployment none = pure-Deletes (requeue 0)
  with_annotation-Deletes o oc deployment (some annotation) =
      with_strategy-Deletes o oc deployment (parse_placement_strategy annotation)

  with_deployment-Deletes :
      (o : Order Text) (oc : Order ℤ) (namespace : Text) (found : Result ApiError Deployment)
      → Deletes
          (with_deployment client codec fl message_of o oc namespace found)
          (with_deployment (watched deletions client) codec fl message_of o oc namespace found)
  unfolding with_deployment handle_deployment_deletion
  with_deployment-Deletes o oc namespace (err not_found) =
      silent-Deletes (handle_deployment_deletion client codec fl message_of namespace)
        (handle_deployment_deletion (watched deletions client) codec fl message_of namespace)
        (λ w before.
          ap (λ done. (requeue 0, done.1))
            (cleanup_stale_states-IsSilent deletions client codec namespace w before))
  with_deployment-Deletes o oc namespace (err conflict) = pure-Deletes (failed conflict)
  with_deployment-Deletes o oc namespace (err other) = pure-Deletes (failed other)
  with_deployment-Deletes o oc namespace (ok deployment) =
      with_annotation-Deletes o oc deployment
        (lookup (codes "smart-scheduler.io/schedule-strategy") deployment.annotations)

  -- A request of the rebalance controller deletes at most one pod, whatever the API server answers,
  -- and only one that the server listed in the same request, and that runs there and is not being
  -- deleted: under a client that remembers the pods of the lists and those whose deletion was accepted,
  -- it answers and changes the world as it does without.
  pub reconcile-Deletes :
      (o : Order Text) (oc : Order ℤ) (namespace name : Text)
      → Deletes
          (reconcile client codec fl message_of o oc namespace name)
          (reconcile (watched deletions client) codec fl message_of o oc namespace name)
  unfolding reconcile
  reconcile-Deletes o oc namespace name w before =
      let found = client.get_deployment namespace name w in
      with_deployment-Deletes o oc namespace found.0 found.1 before
