-- ===== src/Policy/Reconcile.antt =====
-- PodPlacementPolicyController.Reconcile and findMatchingDeployments
-- (controllers/podplacementpolicy_controller.go). Logging is left out.
use kube_smart_scheduler.Prelude.{
  ℕ, suc, ◌*◌, Option, none, some, List, [], ◌∷◌, ◌++◌, if◌then◌else◌,
}
use kube_smart_scheduler.Prelude.Result.{Result, ok, err}
use kube_smart_scheduler.GoText.{Text}
use kube_smart_scheduler.GoMap.{Order, ◌▹◌}
use kube_smart_scheduler.Api.{DeploymentReference, PodPlacementPolicy}
use kube_smart_scheduler.Kube.{Deployment}
use kube_smart_scheduler.Client.{ApiError, not_found, Act, ◌>>=◌, pure, Client}
use kube_smart_scheduler.Float.{FloatOps}
use kube_smart_scheduler.State.{Codec, wrap_err}
use kube_smart_scheduler.Controller.{ReconcileResult, minute, failed}
use kube_smart_scheduler.Policy.Resources.{
  Selectors, PolicyClient, PolicyError, api_failed, invalid_label_selector, list_deployments_failed,
}
use kube_smart_scheduler.Policy.Apply.{ApplyError, apply_policy_to_deployment}
use kube_smart_scheduler.Policy.Status.{report_status}
use kube_smart_scheduler.Policy.Cleanup.{handle_policy_deletion}

module _ {W F S L : Type 0} (client : Client W) (policies : PolicyClient W F S L)
    (selectors : Selectors S L) (codec : Codec) (fl : FloatOps F) where
  open policies use {get_policy, list_deployments_matching}
  open selectors use {as_selector}

  unfoldable pub list_selected : Text → Option L → Act W (Result PolicyError (List Deployment))
  list_selected namespace none = pure (err invalid_label_selector)
  list_selected namespace (some selector) = do
    listed ← list_deployments_matching namespace selector
    pure (wrap_err list_deployments_failed listed)

  unfoldable pub list_for : Text → Option S → Act W (Result PolicyError (List Deployment))
  unfolding list_selected
  list_for namespace none = pure (ok [])
  list_for namespace (some selector) = list_selected namespace (as_selector selector)

  unfoldable pub find_matching_deployments :
      PodPlacementPolicy F S → Act W (Result PolicyError (List Deployment))
  unfolding list_for
  find_matching_deployments policy = list_for policy.namespace policy.spec.selector

  -- A failure is only logged, and the deployment is passed over.
  unfoldable pub add_reference :
      List (DeploymentReference F)
      → Result ApplyError (Option (DeploymentReference F))
      → List (DeploymentReference F)
  add_reference refs (err e) = refs
  add_reference refs (ok none) = refs
  add_reference refs (ok (some ref)) = refs ++ ref ∷ []

  unfoldable pub apply_to_all :
      Order Text
      → ℕ
      → PodPlacementPolicy F S
      → List Deployment
      → List (DeploymentReference F)
      → Act W (List (DeploymentReference F))
  unfolding add_reference
  apply_to_all o i policy [] refs = pure refs
  apply_to_all o i policy (deployment ∷ rest) refs = do
    applied ← apply_policy_to_deployment client codec fl (o ▹ i) policy deployment
    apply_to_all o (suc i) policy rest (add_reference refs applied)

  unfoldable pub apply_to_matching :
      Order Text
      → PodPlacementPolicy F S
      → Result PolicyError (List Deployment)
      → Act W (ReconcileResult PolicyError)
  unfolding apply_to_all
  apply_to_matching o policy (err e) = pure (record { requeue_after = 2 * minute; error = some e })
  apply_to_matching o policy (ok deployments) = do
    refs ← apply_to_all o 0 policy deployments []
    report_status client policies fl policy refs

  unfoldable pub apply_if_enabled :
      Order Text → PodPlacementPolicy F S → Act W (ReconcileResult PolicyError)
  unfolding apply_to_matching find_matching_deployments
  apply_if_enabled o policy =
      let applied = find_matching_deployments policy >>= apply_to_matching o policy in
      let skipped = report_status client policies fl policy [] in
      if policy.spec.enabled then applied else skipped

  unfoldable pub with_policy :
      Order Text
      → Text
      → Text
      → Result ApiError (PodPlacementPolicy F S)
      → Act W (ReconcileResult PolicyError)
  unfolding apply_if_enabled
  with_policy o namespace name (err not_found) =
      handle_policy_deletion client policies namespace name
  with_policy o namespace name (err e) = pure (failed (api_failed e))
  with_policy o namespace name (ok policy) = apply_if_enabled o policy

  unfoldable pub reconcile : Order Text → Text → Text → Act W (ReconcileResult PolicyError)
  unfolding with_policy
  reconcile o namespace name = do
    found ← get_policy namespace name
    with_policy o namespace name found
