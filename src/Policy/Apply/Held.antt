-- ===== src/Policy/Apply/Held.antt =====
-- The deployment that the API server holds after applyPolicyToDeployment
-- (controllers/podplacementpolicy_controller.go).
use kube_smart_scheduler.Prelude.{◌≡◌, refl, ◌∙◌, ◌⊎◌, inl, inr, Bool-cases, Option, none, some}
use kube_smart_scheduler.Prelude.Result.{Result, ok, err}
use kube_smart_scheduler.GoText.{Text}
use kube_smart_scheduler.GoMap.{Map, Order}
use kube_smart_scheduler.Api.{DeploymentReference, PodPlacementPolicy}
use kube_smart_scheduler.Kube.{Deployment}
use kube_smart_scheduler.Client.{ApiError, Client}
use kube_smart_scheduler.Float.{FloatOps}
use kube_smart_scheduler.State.{Codec}
use kube_smart_scheduler.Policy.Convert.{convert_strategy_to_annotation}
use kube_smart_scheduler.Policy.Apply.{
  ApplyError, annotate, calculate_deployment_drift, refer_to, after_update, write_annotations,
  has_higher_priority_policy, apply_policy_to_deployment,
}

-- The API server holds deployments by namespace and name: it answers with what it holds, an accepted
-- update is held from then on, an update changes nothing but the deployment that it names, and neither
-- the clock nor a list of pods changes what is held.
pub record HoldsDeployments {W : Type 0} (client : Client W) : Type 0 where
  pub held : W → Text → Text → Option Deployment
  pub get_held :
      (namespace name : Text) (deployment : Deployment) (w : W)
      → held w namespace name ≡ some deployment
      → client.get_deployment namespace name w ≡ (ok deployment, w)
  pub held-update :
      (deployment : Deployment) (w : W)
      → (client.update_deployment deployment w).0 ≡ ok tt
      → held (client.update_deployment deployment w).1 deployment.namespace deployment.name
        ≡ some deployment
  pub held-update_or :
      (deployment : Deployment) (namespace name : Text) (w : W)
      → (held (client.update_deployment deployment w).1 namespace name ≡ held w namespace name)
        ⊎ (deployment.namespace ≡ namespace)
          × (deployment.name ≡ name)
          × (held (client.update_deployment deployment w).1 namespace name ≡ some deployment)
  pub held-now :
      (namespace name : Text) (w : W) → held (client.now w).1 namespace name ≡ held w namespace name
  pub held-list_pods :
      (pods_in : Text) (labels : Map Text) (namespace name : Text) (w : W)
      → held (client.list_pods pods_in labels w).1 namespace name ≡ held w namespace name

pub nothing_applied :
    {F : Type 0} {reference : DeploymentReference F}
    → ◌≡◌ {A = Result ApplyError (Option (DeploymentReference F))} (ok none) (ok (some reference))
    → ⊥
nothing_applied e = cc

module _ {W F : Type 0} (client : Client W) (codec : Codec) (fl : FloatOps F)
    (server : HoldsDeployments client) where
  open server use {held, held-update, held-update_or, held-now, held-list_pods}

  pub held-refer_to :
      (deployment : Deployment) (namespace name : Text) (w : W)
      → held (refer_to client codec fl deployment w).1 namespace name ≡ held w namespace name
  unfolding refer_to calculate_deployment_drift
  held-refer_to deployment namespace name w =
      held-now namespace name (client.list_pods deployment.namespace deployment.match_labels w).1
      ∙ held-list_pods deployment.namespace deployment.match_labels namespace name w

  after_update-held :
      (deployment : Deployment) (updated : Result ApiError (Unit {0})) (w : W)
      {reference : DeploymentReference F}
      → (after_update client codec fl deployment updated w).0 ≡ ok (some reference)
      → (updated ≡ ok tt → held w deployment.namespace deployment.name ≡ some deployment)
      → held
          (after_update client codec fl deployment updated w).1
          deployment.namespace
          deployment.name
        ≡ some deployment
  unfolding after_update
  after_update-held deployment (err e) w applied accepted = cc
  after_update-held deployment (ok done) w applied accepted =
      held-refer_to deployment deployment.namespace deployment.name w ∙ accepted refl

  module _ {S : Type 0} (policy : PodPlacementPolicy F S) (deployment : Deployment) where
    -- The deployment that is held with the annotations of the policy.
    abbrev pub HoldsAnnotated : Text → W → Type 0
    HoldsAnnotated annotation w =
        (time : Text) × (held w deployment.namespace deployment.name
          ≡ some (annotate policy annotation time deployment))

    write_annotations-HoldsAnnotated :
        (annotation : Text) (w : W) {reference : DeploymentReference F}
        → (write_annotations client codec fl policy deployment (ok annotation) w).0
          ≡ ok (some reference)
        → HoldsAnnotated annotation
            (write_annotations client codec fl policy deployment (ok annotation) w).1
    unfolding write_annotations annotate
    write_annotations-HoldsAnnotated annotation w applied =
        let time = codec.format_time (client.now w).0 in
        let annotated = annotate policy annotation time deployment in
        let answer = client.update_deployment annotated (client.now w).1 in
        (
          time,
          after_update-held annotated answer.0 answer.1 applied
              (held-update annotated (client.now w).1),
        )

    -- A policy that reports a deployment as matched has annotated the deployment that is held.
    pub apply_policy_to_deployment-HoldsAnnotated :
        (o : Order Text) (annotation : Text) (w : W) {reference : DeploymentReference F}
        → convert_strategy_to_annotation o policy.spec.strategy ≡ ok annotation
        → (apply_policy_to_deployment client codec fl o policy deployment w).0 ≡ ok (some reference)
        → HoldsAnnotated annotation
            (apply_policy_to_deployment client codec fl o policy deployment w).1
    unfolding apply_policy_to_deployment
    apply_policy_to_deployment-HoldsAnnotated o annotation w converted applied =
        elim (Bool-cases (has_higher_priority_policy deployment policy)) [
          | inl outranked ↦ absurd (nothing_applied (rw outranked at applied))
          | inr free ↦
              rw (free, converted)
                (write_annotations-HoldsAnnotated annotation w (rw (free, converted) at applied))
        ]
