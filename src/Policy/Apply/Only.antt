-- ===== src/Policy/Apply/Only.antt =====
-- What applyPolicyToDeployment (controllers/podplacementpolicy_controller.go) changes, and what it
-- returns.
use kube_smart_scheduler.Prelude.{◌≡◌, refl, ap, ◌∙◌, ◌⊎◌, inl, inr, Bool-cases, Option, some}
use kube_smart_scheduler.Prelude.Result.{Result, ok, err}
use kube_smart_scheduler.GoText.{Text}
use kube_smart_scheduler.GoMap.{Order}
use kube_smart_scheduler.Api.{DeploymentReference, PodPlacementPolicy}
use kube_smart_scheduler.Kube.{Deployment}
use kube_smart_scheduler.Client.{ApiError, Client}
use kube_smart_scheduler.Float.{FloatOps}
use kube_smart_scheduler.State.{Codec}
use kube_smart_scheduler.Policy.Convert.{ConvertError, convert_strategy_to_annotation}
use kube_smart_scheduler.Policy.Apply.{
  ApplyError, annotate, refer_to, after_update, write_annotations, has_higher_priority_policy,
  apply_policy_to_deployment,
}
use kube_smart_scheduler.Policy.Apply.Held.{HoldsDeployments, nothing_applied, held-refer_to}

abbrev reference_or :
    {F : Type 0}
    → DeploymentReference F
    → Result ApplyError (Option (DeploymentReference F))
    → DeploymentReference F
reference_or other (ok (some reference)) = reference
reference_or other _ = other

module _ {W F : Type 0} (client : Client W) (codec : Codec) (fl : FloatOps F)
    (server : HoldsDeployments client) where
  open server use {held, held-update_or, held-now}

  after_update-kept :
      (annotated : Deployment) (updated : Result ApiError (Unit {0})) (namespace name : Text)
      (w : W)
      → held (after_update client codec fl annotated updated w).1 namespace name
        ≡ held w namespace name
  unfolding after_update
  after_update-kept annotated (err e) namespace name w = refl
  after_update-kept annotated (ok done) namespace name w =
      held-refer_to client codec fl server annotated namespace name w

  module _ {S : Type 0} (policy : PodPlacementPolicy F S) (deployment : Deployment) where
    -- The deployment of this name is held as before, or is the one given with the annotations of the
    -- policy.
    abbrev pub IsKeptOrAnnotated : Order Text → Text → Text → W → W → Type 0
    IsKeptOrAnnotated o namespace name w w' =
        (held w' namespace name ≡ held w namespace name)
        ⊎ (annotation : Text) × (time : Text) × (convert_strategy_to_annotation o
              policy.spec.strategy
            ≡ ok annotation)
          × (deployment.namespace ≡ namespace)
          × (deployment.name ≡ name)
          × (held w' namespace name ≡ some (annotate policy annotation time deployment))

    write_annotations-IsKeptOrAnnotated :
        (o : Order Text) (converted : Result ConvertError Text) (namespace name : Text) (w : W)
        → convert_strategy_to_annotation o policy.spec.strategy ≡ converted
        → IsKeptOrAnnotated o namespace name w
            (write_annotations client codec fl policy deployment converted w).1
    unfolding write_annotations annotate
    write_annotations-IsKeptOrAnnotated o (err e) namespace name w converted = inl refl
    write_annotations-IsKeptOrAnnotated o (ok annotation) namespace name w converted =
        let w1 = (client.now w).1 in
        let time = codec.format_time (client.now w).0 in
        let annotated = annotate policy annotation time deployment in
        let answer = client.update_deployment annotated w1 in
        let kept = after_update-kept annotated answer.0 namespace name answer.1 in
        elim (held-update_or annotated namespace name w1) [
          | inl same ↦ inl (kept ∙ same ∙ held-now namespace name w)
          | inr (spaced, named, there) ↦
              inr (annotation, time, converted, spaced, named, kept ∙ there)
        ]

    -- Applying a policy changes no deployment but the one given, and that only to what it annotates.
    pub apply_policy_to_deployment-IsKeptOrAnnotated :
        (o : Order Text) (namespace name : Text) (w : W)
        → IsKeptOrAnnotated o namespace name w
            (apply_policy_to_deployment client codec fl o policy deployment w).1
    unfolding apply_policy_to_deployment
    apply_policy_to_deployment-IsKeptOrAnnotated o namespace name w =
        elim (Bool-cases (has_higher_priority_policy deployment policy)) [
          | inl outranked ↦ inl (rw outranked refl)
          | inr free ↦ rw free (
              write_annotations-IsKeptOrAnnotated o
                (convert_strategy_to_annotation o policy.spec.strategy) namespace name w refl)
        ]

    after_update-names :
        (annotated : Deployment) (updated : Result ApiError (Unit {0})) (w : W)
        {reference : DeploymentReference F}
        → (after_update client codec fl annotated updated w).0 ≡ ok (some reference)
        → (annotated.namespace ≡ reference.namespace) × (annotated.name ≡ reference.name)
    unfolding after_update refer_to
    after_update-names annotated (err e) w applied = cc
    after_update-names annotated (ok done) w {reference} applied = (
      ap (λ r. (reference_or reference r).namespace) applied,
      ap (λ r. (reference_or reference r).name) applied,
    )

    write_annotations-names :
        (converted : Result ConvertError Text) (w : W) {reference : DeploymentReference F}
        → (write_annotations client codec fl policy deployment converted w).0 ≡ ok (some reference)
        → (deployment.namespace ≡ reference.namespace) × (deployment.name ≡ reference.name)
    unfolding write_annotations annotate
    write_annotations-names (err e) w applied = cc
    write_annotations-names (ok annotation) w applied =
        let annotated =
          annotate policy annotation (codec.format_time (client.now w).0) deployment in
        let answer = client.update_deployment annotated (client.now w).1 in
        after_update-names annotated answer.0 answer.1 applied

    -- A reference names the deployment that the policy was applied to, under an annotation.
    pub apply_policy_to_deployment-names :
        (o : Order Text) (w : W) {reference : DeploymentReference F}
        → (apply_policy_to_deployment client codec fl o policy deployment w).0 ≡ ok (some reference)
        → (deployment.namespace ≡ reference.namespace) × (deployment.name ≡ reference.name)
    unfolding apply_policy_to_deployment
    apply_policy_to_deployment-names o w applied =
        elim (Bool-cases (has_higher_priority_policy deployment policy)) [
          | inl outranked ↦ absurd (nothing_applied (rw outranked at applied))
          | inr free ↦
              write_annotations-names (convert_strategy_to_annotation o policy.spec.strategy) w
                (rw free at applied)
        ]

    write_annotations-converted :
        (converted : Result ConvertError Text) (w : W) {reference : DeploymentReference F}
        → (write_annotations client codec fl policy deployment converted w).0 ≡ ok (some reference)
        → (annotation : Text) × (converted ≡ ok annotation)
    unfolding write_annotations
    write_annotations-converted (err e) w applied = cc
    write_annotations-converted (ok annotation) w applied = (annotation, refl)

    -- The strategy of a policy that was applied has an annotation.
    pub apply_policy_to_deployment-converted :
        (o : Order Text) (w : W) {reference : DeploymentReference F}
        → (apply_policy_to_deployment client codec fl o policy deployment w).0 ≡ ok (some reference)
        → (annotation : Text) × (convert_strategy_to_annotation o policy.spec.strategy
            ≡ ok annotation)
    unfolding apply_policy_to_deployment
    apply_policy_to_deployment-converted o w applied =
        elim (Bool-cases (has_higher_priority_policy deployment policy)) [
          | inl outranked ↦ absurd (nothing_applied (rw outranked at applied))
          | inr free ↦
              write_annotations-converted (convert_strategy_to_annotation o policy.spec.strategy) w
                (rw free at applied)
        ]
