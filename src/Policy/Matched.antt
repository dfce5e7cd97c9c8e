-- ===== src/Policy/Matched.antt =====
-- What the API server holds for the deployments that a policy reports as matched, after the loop of
-- Reconcile over them (controllers/podplacementpolicy_controller.go).
use mathlib.Core.List.{Memᴰ}
use kube_smart_scheduler.Prelude.{
  ℕ, suc, ◌≡◌, refl, sym, ap, ◌∙◌, inl, inr, Option, none, some, List, [], ◌∷◌, All, All-Mem,
  All-map, All-append,
}
use kube_smart_scheduler.Prelude.Result.{Result, ok, err}
use kube_smart_scheduler.GoText.{Text}
use kube_smart_scheduler.GoMap.{Order, ◌▹◌}
use kube_smart_scheduler.Api.{DeploymentReference, PodPlacementPolicy}
use kube_smart_scheduler.Kube.{Deployment}
use kube_smart_scheduler.Client.{Client}
use kube_smart_scheduler.Float.{FloatOps}
use kube_smart_scheduler.State.{Codec}
use kube_smart_scheduler.Policy.Resources.{Selectors, PolicyClient}
use kube_smart_scheduler.Policy.Convert.{convert_strategy_to_annotation}
use kube_smart_scheduler.Policy.Apply.{ApplyError, annotate, apply_policy_to_deployment}
use kube_smart_scheduler.Policy.Apply.Held.{
  HoldsDeployments, apply_policy_to_deployment-HoldsAnnotated,
}
use kube_smart_scheduler.Policy.Apply.Only.{
  apply_policy_to_deployment-IsKeptOrAnnotated, apply_policy_to_deployment-names,
  apply_policy_to_deployment-converted,
}
use kube_smart_scheduler.Policy.Reconcile.{add_reference, apply_to_all}

module _ {W F S L : Type 0} (client : Client W) (policies : PolicyClient W F S L)
    (selectors : Selectors S L) (codec : Codec) (fl : FloatOps F) (server : HoldsDeployments client)
    (o : Order Text) (policy : PodPlacementPolicy F S) (deployments : List Deployment) where
  -- The deployment that the reference names is held as one of the list with the annotations of the
  -- policy, its strategy as it is written in one of the rounds.
  abbrev pub IsHeldFor : DeploymentReference F → W → Type 0
  IsHeldFor reference w =
      (deployment : Deployment) × Memᴰ deployment deployments
      × (i : ℕ) × (annotation : Text) × (time : Text) × (convert_strategy_to_annotation (o ▹ i)
            policy.spec.strategy
          ≡ ok annotation)
      × (server.held w reference.namespace reference.name
          ≡ some (annotate policy annotation time deployment))

  IsHeldFor-kept :
      (i : ℕ) (deployment : Deployment) (w : W) (reference : DeploymentReference F)
      → Memᴰ deployment deployments
      → IsHeldFor reference w
      → IsHeldFor reference
          (apply_policy_to_deployment client codec fl (o ▹ i) policy deployment w).1
  IsHeldFor-kept i deployment w reference listed
        (other, member, j, annotation, time, written, held) =
      elim (apply_policy_to_deployment-IsKeptOrAnnotated client codec fl server policy deployment
        (o ▹ i) reference.namespace reference.name w) [
          | inl same ↦ (other, member, j, annotation, time, written, same ∙ held)
          | inr (now_annotation, now, now_written, spaced, named, there) ↦
              (deployment, listed, i, now_annotation, now, now_written, there)
        ]

  IsHeldFor-applied :
      (i : ℕ) (deployment : Deployment) (w : W) (reference : DeploymentReference F)
      → Memᴰ deployment deployments
      → (apply_policy_to_deployment client codec fl (o ▹ i) policy deployment w).0
        ≡ ok (some reference)
      → IsHeldFor reference
          (apply_policy_to_deployment client codec fl (o ▹ i) policy deployment w).1
  IsHeldFor-applied i deployment w reference listed applied =
      let w' = (apply_policy_to_deployment client codec fl (o ▹ i) policy deployment w).1 in
      let (annotation, written) =
        apply_policy_to_deployment-converted client codec fl server policy deployment (o ▹ i) w
          applied in
      let (time, held) =
        apply_policy_to_deployment-HoldsAnnotated client codec fl server policy deployment (o ▹ i)
          annotation w written applied in
      let (spaced, named) =
        apply_policy_to_deployment-names client codec fl server policy deployment (o ▹ i) w
          applied in
      (
        deployment,
        listed,
        i,
        annotation,
        time,
        written,
        ap (λ namespace. server.held w' namespace reference.name) (sym spaced)
            ∙ ap (λ name. server.held w' deployment.namespace name) (sym named)
            ∙ held,
      )

  add_reference-All :
      (P : DeploymentReference F → Type 0) (references : List (DeploymentReference F))
      (applied : Result ApplyError (Option (DeploymentReference F)))
      → All P references
      → ((reference : DeploymentReference F) → applied ≡ ok (some reference) → P reference)
      → All P (add_reference client policies selectors codec fl references applied)
  unfolding add_reference
  add_reference-All P references (err e) held new = held
  add_reference-All P references (ok none) held new = held
  add_reference-All P references (ok (some reference)) held new =
      All-append P references (reference ∷ []) held (new reference refl, tt)

  apply_to_all-step :
      (i : ℕ) (rest : List Deployment) (references : List (DeploymentReference F)) (w : W)
      → All (λ deployment. Memᴰ deployment deployments) rest
      → All (λ reference. IsHeldFor reference w) references
      → let done = apply_to_all client policies selectors codec fl o i policy rest references w in
        All (λ reference. IsHeldFor reference done.1) done.0
  unfolding apply_to_all
  apply_to_all-step i [] references w listed held = held
  apply_to_all-step i (deployment ∷ rest) references w (here, there) held =
      let answer = apply_policy_to_deployment client codec fl (o ▹ i) policy deployment w in
      apply_to_all-step (suc i) rest
        (add_reference client policies selectors codec fl references answer.0) answer.1 there
        (add_reference-All (λ reference. IsHeldFor reference answer.1) references answer.0
          (All-map references (λ reference h. IsHeldFor-kept i deployment w reference here h) held)
          (λ reference applied. IsHeldFor-applied i deployment w reference here applied))

  -- If the API server holds what it accepts and an update changes only the deployment that it names,
  -- then each deployment that is reported as matched is held, when all of them are done, as one of the
  -- list with the policy's annotations, whatever failed for the others.
  pub apply_to_all-IsHeldFor :
      (w : W)
      → let done = apply_to_all client policies selectors codec fl o 0 policy deployments [] w in
        All (λ reference. IsHeldFor reference done.1) done.0
  apply_to_all-IsHeldFor w = apply_to_all-step 0 deployments [] w (All-Mem deployments) tt
