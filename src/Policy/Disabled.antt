-- ===== src/Policy/Disabled.antt =====
-- What Reconcile of the policy controller does with a policy that is disabled.
use kube_smart_scheduler.Prelude.{◌≡◌, refl, sym, ◌∙◌, false, []}
use kube_smart_scheduler.Prelude.Result.{Result, ok}
use kube_smart_scheduler.GoText.{Text}
use kube_smart_scheduler.GoMap.{Order}
use kube_smart_scheduler.Api.{PodPlacementPolicy}
use kube_smart_scheduler.Kube.{Deployment}
use kube_smart_scheduler.Client.{ApiError, Act, Client}
use kube_smart_scheduler.Float.{FloatOps}
use kube_smart_scheduler.State.{Codec}
use kube_smart_scheduler.Policy.Resources.{Selectors, PolicyClient}
use kube_smart_scheduler.Policy.Status.{report_status}
use kube_smart_scheduler.Policy.Reconcile.{apply_if_enabled, with_policy, reconcile}

module _ {W F S L : Type 0} (client : Client W) (policies : PolicyClient W F S L)
    (selectors : Selectors S L) (codec : Codec) (fl : FloatOps F) where
  reconcile-disabled :
      (o : Order Text) (namespace name : Text) (policy : PodPlacementPolicy F S) (w : W)
      → (policies.get_policy namespace name w).0 ≡ ok policy
      → policy.spec.enabled ≡ false
      → reconcile client policies selectors codec fl o namespace name w
        ≡ report_status client policies fl policy [] (policies.get_policy namespace name w).1
  unfolding reconcile with_policy apply_if_enabled
  reconcile-disabled o namespace name policy w found disabled = rw (found, disabled) refl

module _ {W F S L : Type 0} (client : Client W) (policies : PolicyClient W F S L)
    (selectors : Selectors S L) (codec : Codec) (fl : FloatOps F)
    (update : Deployment → Act W (Result ApiError (Unit {0}))) where
  -- A request for a disabled policy updates no deployment: it answers, and changes the world, in the
  -- same way whatever updating a deployment does. So the annotations that the policy has written while
  -- it was enabled stay.
  pub reconcile-disabled_same :
      (o : Order Text) (namespace name : Text) (policy : PodPlacementPolicy F S) (w : W)
      → (policies.get_policy namespace name w).0 ≡ ok policy
      → policy.spec.enabled ≡ false
      → reconcile client policies selectors codec fl o namespace name w
        ≡ reconcile
            (record client { update_deployment = update })
            policies
            selectors
            codec
            fl
            o
            namespace
            name
            w
  unfolding report_status
  reconcile-disabled_same o namespace name policy w found disabled =
      reconcile-disabled client policies selectors codec fl o namespace name policy w found disabled
      ∙ sym (
          reconcile-disabled (record client { update_deployment = update }) policies selectors codec
            fl o namespace name policy w found disabled)
