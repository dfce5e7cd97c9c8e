-- ===== src/Policy/Requeues.antt =====
-- What Reconcile of the policy controller answers.
use kube_smart_scheduler.Prelude.{ℕ, ◌*◌, ◌≡◌, ◌≢◌, refl, ◌⊎◌, inl, inr, none, List, []}
use kube_smart_scheduler.Prelude.Result.{Result, ok, err}
use kube_smart_scheduler.GoText.{Text}
use kube_smart_scheduler.GoMap.{Order}
use kube_smart_scheduler.Api.{DeploymentReference, PodPlacementPolicy}
use kube_smart_scheduler.Kube.{Deployment}
use kube_smart_scheduler.Client.{ApiError, not_found, conflict, other, Client}
use kube_smart_scheduler.Client.Always.{Always, Always-bind, Always-if}
use kube_smart_scheduler.Float.{FloatOps}
use kube_smart_scheduler.State.{Codec}
use kube_smart_scheduler.Controller.{ReconcileResult, minute}
use kube_smart_scheduler.Policy.Resources.{Selectors, PolicyClient, PolicyError}
use kube_smart_scheduler.Policy.Status.{report_status, after_status}
use kube_smart_scheduler.Policy.Cleanup.{handle_policy_deletion, clean_listed_deployments}
use kube_smart_scheduler.Policy.Reconcile.{
  find_matching_deployments, apply_to_all, apply_to_matching, apply_if_enabled, with_policy,
  reconcile,
}

-- The request fails, or comes back after the delay.
abbrev pub IsAskedIn : ℕ → ReconcileResult PolicyError → Type 0
IsAskedIn delay result = (result.error ≢ none) ⊎ (result.requeue_after ≡ delay)

-- How long the controller waits with a policy that it found, and with one that is gone.
abbrev pub delay_for : {F S : Type 0} → Result ApiError (PodPlacementPolicy F S) → ℕ
delay_for (ok policy) = 10 * minute
delay_for (err e) = 0

module _ {W F S L : Type 0} (client : Client W) (policies : PolicyClient W F S L)
    (selectors : Selectors S L) (codec : Codec) (fl : FloatOps F) where
  IsAskedIn-status :
      (updated : Result ApiError (Unit {0})) → IsAskedIn (10 * minute) (after_status updated)
  unfolding after_status
  IsAskedIn-status (err e) = inl (λ none_failed. cc)
  IsAskedIn-status (ok done) = inr refl

  IsAskedIn-report :
      (policy : PodPlacementPolicy F S) (refs : List (DeploymentReference F))
      → Always (IsAskedIn (10 * minute)) (report_status client policies fl policy refs)
  unfolding report_status
  IsAskedIn-report policy refs = λ w. IsAskedIn-status _

  IsAskedIn-matching :
      (o : Order Text) (policy : PodPlacementPolicy F S)
      (listed : Result PolicyError (List Deployment))
      → Always
          (IsAskedIn (10 * minute))
          (apply_to_matching client policies selectors codec fl o policy listed)
  unfolding apply_to_matching
  IsAskedIn-matching o policy (err e) = λ w. inl (λ none_failed. cc)
  IsAskedIn-matching o policy (ok deployments) =
      Always-bind (IsAskedIn (10 * minute))
        (apply_to_all client policies selectors codec fl o 0 policy deployments [])
        (report_status client policies fl policy) (IsAskedIn-report policy)

  IsAskedIn-enabled :
      (o : Order Text) (policy : PodPlacementPolicy F S)
      → Always
          (IsAskedIn (10 * minute))
          (apply_if_enabled client policies selectors codec fl o policy)
  unfolding apply_if_enabled
  IsAskedIn-enabled o policy =
      Always-if (IsAskedIn (10 * minute)) policy.spec.enabled _ _
        (Always-bind (IsAskedIn (10 * minute))
          (find_matching_deployments client policies selectors codec fl policy)
          (apply_to_matching client policies selectors codec fl o policy)
          (IsAskedIn-matching o policy))
        (IsAskedIn-report policy [])

  IsAskedIn-cleaned :
      (name : Text) (listed : Result ApiError (List Deployment))
      → Always (IsAskedIn 0) (clean_listed_deployments client policies name listed)
  unfolding clean_listed_deployments
  IsAskedIn-cleaned name (err e) = λ w. inl (λ none_failed. cc)
  IsAskedIn-cleaned name (ok deployments) = λ w. inr refl

  IsAskedIn-deleted :
      (namespace name : Text)
      → Always (IsAskedIn 0) (handle_policy_deletion client policies namespace name)
  unfolding handle_policy_deletion
  IsAskedIn-deleted namespace name =
      Always-bind (IsAskedIn 0) (policies.list_deployments namespace)
        (clean_listed_deployments client policies name) (IsAskedIn-cleaned name)

  IsAskedIn-policy :
      (o : Order Text) (namespace name : Text) (found : Result ApiError (PodPlacementPolicy F S))
      → Always
          (IsAskedIn (delay_for found))
          (with_policy client policies selectors codec fl o namespace name found)
  unfolding with_policy
  IsAskedIn-policy o namespace name (ok policy) = IsAskedIn-enabled o policy
  IsAskedIn-policy o namespace name (err not_found) = IsAskedIn-deleted namespace name
  IsAskedIn-policy o namespace name (err conflict) = λ w. inl (λ none_failed. cc)
  IsAskedIn-policy o namespace name (err other) = λ w. inl (λ none_failed. cc)

  -- Whatever the API server answers, the request for a policy that is found fails or is asked for
  -- again after ten minutes, and the one for a policy that is gone fails or is not asked for again.
  pub reconcile-IsAskedIn :
      (o : Order Text) (namespace name : Text) (w : W)
      → IsAskedIn
          (delay_for (policies.get_policy namespace name w).0)
          (reconcile client policies selectors codec fl o namespace name w).0
  unfolding reconcile
  reconcile-IsAskedIn o namespace name w =
      IsAskedIn-policy o namespace name (policies.get_policy namespace name w).0
        (policies.get_policy namespace name w).1
