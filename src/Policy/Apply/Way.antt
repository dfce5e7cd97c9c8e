-- ===== src/Policy/Apply/Way.antt =====
-- When applyPolicyToDeployment (controllers/podplacementpolicy_controller.go) gives way to another
-- policy.
use kube_smart_scheduler.Prelude.{
  ◌≡◌, ◌≢◌, ◌↔◌, refl, ap, ◌∙◌, inl, inr, true, false, Bool-cases, none, some, List, [], ◌∷◌,
}
use kube_smart_scheduler.Prelude.Int.{ℤ, ltb_ℤ}
use kube_smart_scheduler.Prelude.Result.{Result, ok, err}
use kube_smart_scheduler.GoText.{Text}
use kube_smart_scheduler.GoText.Number.{itoa}
use kube_smart_scheduler.GoText.Scan.{IsInt32, sscan_int32-itoa}
use kube_smart_scheduler.GoMap.{Order, lookup}
use kube_smart_scheduler.Api.{DeploymentReference, PlacementRuleSpec, PodPlacementPolicy}
use kube_smart_scheduler.Kube.{Deployment}
use kube_smart_scheduler.Client.{ApiError, Client}
use kube_smart_scheduler.Float.{FloatOps}
use kube_smart_scheduler.State.{Codec}
use kube_smart_scheduler.Policy.Convert.{
  ConvertError, convert_rules, convert_strategy_to_annotation,
}
use kube_smart_scheduler.Policy.Apply.{
  priority_key, priority_or_zero, outranks, has_higher_priority_policy, annotate, after_update,
  write_annotations, apply_policy_to_deployment,
}

module _ {F S : Type 0} where
  abbrev pub priority_of : PodPlacementPolicy F S → ℤ
  priority_of policy = policy.spec.priority

  pub has_higher-itoa :
      (policy next : PodPlacementPolicy F S) (deployment : Deployment)
      → IsInt32 (priority_of policy)
      → lookup priority_key deployment.annotations ≡ some (itoa (priority_of policy))
      → has_higher_priority_policy deployment next ≡ ltb_ℤ (priority_of next) (priority_of policy)
  unfolding has_higher_priority_policy
  has_higher-itoa policy next deployment fits ranked =
      ap (λ o. outranks o (priority_of next)) ranked
      ∙ ap (λ o. ltb_ℤ (priority_of next) (priority_or_zero o))
          (sscan_int32-itoa (priority_of policy) fits)

  pub has_higher-free :
      (policy : PodPlacementPolicy F S) (deployment : Deployment)
      → lookup priority_key deployment.annotations ≡ none
      → has_higher_priority_policy deployment policy ≡ false
  unfolding has_higher_priority_policy
  has_higher-free policy deployment free = ap (λ o. outranks o (priority_of policy)) free

  -- The priority is a value of an `int32`, and the strategy has a rule.
  abbrev pub IsProper : PodPlacementPolicy F S → Type 0
  IsProper policy = IsInt32 (priority_of policy) × (policy.spec.strategy.rules ≢ [])

pub converts :
    (o : Order Text) (base : ℤ) (rules : List PlacementRuleSpec)
    → rules ≢ []
    → (annotation : Text) × (convert_rules o base rules ≡ ok annotation)
unfolding convert_rules
converts o base [] ne = absurd (ne refl)
converts o base (rule ∷ rules) ne = (_, refl)

module _ {W F : Type 0} (client : Client W) (codec : Codec) (fl : FloatOps F) where
  pub after_update-applied :
      (deployment : Deployment) (updated : Result ApiError (Unit {0})) (w : W)
      → updated ≡ ok tt
      → (reference : DeploymentReference F) × ((after_update client codec fl deployment updated w).0
          ≡ ok (some reference))
  unfolding after_update
  after_update-applied deployment (err e) w accepted = cc
  after_update-applied deployment (ok done) w accepted = (_, refl)

  after_update-some :
      (deployment : Deployment) (updated : Result ApiError (Unit {0})) (w : W)
      → (after_update client codec fl deployment updated w).0 ≡ ok none
      → ⊥
  unfolding after_update
  after_update-some deployment (err e) w h = cc
  after_update-some deployment (ok done) w h = cc

  module _ {S : Type 0} where
    write_annotations-some :
        (policy : PodPlacementPolicy F S) (deployment : Deployment)
        (converted : Result ConvertError Text) (w : W)
        → (write_annotations client codec fl policy deployment converted w).0 ≡ ok none
        → ⊥
    unfolding write_annotations
    write_annotations-some policy deployment (err e) w h = cc
    write_annotations-some policy deployment (ok annotation) w h =
        let annotated =
          annotate policy annotation (codec.format_time (client.now w).0) deployment in
        let answer = client.update_deployment annotated (client.now w).1 in
        after_update-some annotated answer.0 answer.1 h

    -- applyPolicyToDeployment gives way to the policy that has the deployment, whose priority, a value
    -- of an `int32`, stands in the annotations, exactly if that priority is the higher one: to a policy
    -- of equal priority it does not.
    pub apply_policy_to_deployment-gives_way_iff :
        (o : Order Text) (owner policy : PodPlacementPolicy F S) (deployment : Deployment) (w : W)
        → IsInt32 owner.spec.priority
        → lookup priority_key deployment.annotations ≡ some (itoa owner.spec.priority)
        → ((apply_policy_to_deployment client codec fl o policy deployment w).0 ≡ ok none)
          ↔ (ltb_ℤ policy.spec.priority owner.spec.priority ≡ true)
    unfolding apply_policy_to_deployment
    apply_policy_to_deployment-gives_way_iff o owner policy deployment w fits ranked =
        let ranks = has_higher-itoa owner policy deployment fits ranked in
        elim (Bool-cases (ltb_ℤ policy.spec.priority owner.spec.priority)) [
          | inl lower ↦ (λ given. lower, λ h. rw (ranks, lower) refl)
          | inr higher ↦ (
            λ given. absurd (
                write_annotations-some policy deployment
                  (convert_strategy_to_annotation o policy.spec.strategy) w
                  (rw (ranks, higher) at given)),
            λ h. cc,
          )
        ]
