-- ===== src/Policy/Enforced.antt =====
-- From a policy to a pod: the loop of Reconcile (controllers/podplacementpolicy_controller.go), whose
-- annotations PodMutator.Handle (webhook/mutate_pod.go) reads.
use kube_smart_scheduler.Prelude.{◌≡◌, false, Option, none, some, List}
use kube_smart_scheduler.Prelude.Int.{ℤ, pos}
use kube_smart_scheduler.GoText.{Text}
use kube_smart_scheduler.GoMap.{Order}
use kube_smart_scheduler.Api.{PlacementStrategySpec, PodPlacementPolicy}
use kube_smart_scheduler.Kube.{Pod}
use kube_smart_scheduler.Client.{Client}
use kube_smart_scheduler.Float.{FloatOps}
use kube_smart_scheduler.Placement.{is_zero, total_weight}
use kube_smart_scheduler.State.{Codec}
use kube_smart_scheduler.Mutator.{
  Fallback, invalid_placement_strategy, apply_failed, apply_failed_in_fallback, pod_counts_failed,
  marshal_pod_failed, marshal_original_failed,
}
use kube_smart_scheduler.Mutator.Handle.{handle}
use kube_smart_scheduler.Mutator.Merged.{IsPlacedBy}
use kube_smart_scheduler.Mutator.Placed.{Answers}
use kube_smart_scheduler.Policy.RoundTrip.{IsPlainSpec}
use kube_smart_scheduler.Policy.RoundTrip.Whole.{carried_rules, carried_strategy}
use kube_smart_scheduler.Policy.Apply.Held.{HoldsDeployments}

-- The pods could not be listed, or a pod could not be marshalled.
abbrev pub IsUnable : Option Fallback → Type 0
IsUnable none = ⊥
IsUnable (some (invalid_placement_strategy e)) = ⊥
IsUnable (some (apply_failed e)) = ⊥
IsUnable (some (apply_failed_in_fallback e)) = ⊥
IsUnable (some (pod_counts_failed e)) = Unit
IsUnable (some marshal_pod_failed) = Unit
IsUnable (some marshal_original_failed) = Unit

-- The weights of the rules do not add up to zero.
abbrev pub IsWeighted : {F : Type 0} → PlacementStrategySpec F → Type 0
IsWeighted s = is_zero (total_weight (carried_rules s.rules) (pos 0)) ≡ false

module _ {W F : Type 0} (client : Client W) (codec : Codec) (fl : FloatOps F)
    (marshal_pod : Pod → Option Text) where
  module _ {S : Type 0} (server : HoldsDeployments client) (policy : PodPlacementPolicy F S)
      (plain : IsPlainSpec policy.spec.strategy) (weighted : IsWeighted policy.spec.strategy) where
    abbrev EnforcedIn : Pod → Order Text → Order ℤ → W → Type 0
    EnforcedIn pod p oc w =
        Answers marshal_pod IsUnable (IsPlacedBy (carried_strategy policy.spec.strategy) pod) pod
          (handle client codec fl marshal_pod p oc (some pod) w).0
