-- ===== src/Policy/Apply.antt =====
-- applyPolicyToDeployment, hasHigherPriorityPolicy and calculateDeploymentDrift
-- (controllers/podplacementpolicy_controller.go). Logging is left out; time.Format is a parameter.
pub mod Priority
pub mod Way
pub mod Highest
pub mod Held
pub mod Only
use kube_smart_scheduler.Prelude.{
  Bool, true, false, Option, none, some, List, [], ◌∷◌, if◌then◌else◌,
}
use kube_smart_scheduler.Prelude.Int.{ℤ, pos, ltb_ℤ}
use kube_smart_scheduler.Prelude.Result.{Result, ok, err}
use kube_smart_scheduler.GoText.{Text, codes}
use kube_smart_scheduler.GoText.Number.{itoa}
use kube_smart_scheduler.GoText.Scan.{sscan_int32}
use kube_smart_scheduler.GoMap.{lookup, insert, Order}
use kube_smart_scheduler.Api.{DeploymentReference, PodPlacementPolicy}
use kube_smart_scheduler.Kube.{Pod, Deployment}
use kube_smart_scheduler.Client.{ApiError, Act, ◌>>=◌, pure, Client}
use kube_smart_scheduler.Float.{FloatOps}
use kube_smart_scheduler.State.{Codec}
use kube_smart_scheduler.Policy.Convert.{ConvertError, convert_strategy_to_annotation}

abbrev pub strategy_key : Text
strategy_key = codes "smart-scheduler.io/schedule-strategy"

abbrev pub name_key : Text
name_key = codes "smart-scheduler.io/policy-name"

abbrev pub priority_key : Text
priority_key = codes "smart-scheduler.io/policy-priority"

abbrev pub applied_key : Text
applied_key = codes "smart-scheduler.io/policy-applied"

-- A text that is no number counts as priority 0.
abbrev pub priority_or_zero : Option ℤ → ℤ
priority_or_zero none = pos 0
priority_or_zero (some priority) = priority

abbrev pub outranks : Option Text → ℤ → Bool
outranks none priority = false
outranks (some priority_str) priority = ltb_ℤ priority (priority_or_zero (sscan_int32 priority_str))

-- Errors by the messages that wrap them.
pub data ApplyError : Type 0 where
  convert_failed : ConvertError → ApplyError
  update_deployment_failed : ApiError → ApplyError

module _ {F S : Type 0} where
  unfoldable pub has_higher_priority_policy : Deployment → PodPlacementPolicy F S → Bool
  has_higher_priority_policy deployment policy =
      outranks (lookup priority_key deployment.annotations) policy.spec.priority

  -- The annotations that applying a policy writes.
  unfoldable pub annotate : PodPlacementPolicy F S → Text → Text → Deployment → Deployment
  annotate policy strategy_annotation time deployment = record deployment {
    annotations = insert applied_key time (
        insert priority_key (itoa policy.spec.priority) (
          insert name_key policy.name
            (insert strategy_key strategy_annotation deployment.annotations)));
  }

module _ {W F : Type 0} (client : Client W) (codec : Codec) (fl : FloatOps F) where
  open client use {now, update_deployment, list_pods}

  -- The pods are listed and counted, and the drift is 0 whatever their number is.
  unfoldable pub drift_of : Result ApiError (List Pod) → Result ApiError F
  drift_of (err e) = err e
  drift_of (ok pods) = ok (fl.of_int (pos 0))

  unfoldable pub calculate_deployment_drift : Deployment → Act W (Result ApiError F)
  unfolding drift_of
  calculate_deployment_drift deployment = do
    listed ← list_pods deployment.namespace deployment.match_labels
    pure (drift_of listed)

  pub drift_or_zero : Result ApiError F → F
  drift_or_zero (err e) = fl.of_int (pos 0)
  drift_or_zero (ok drift) = drift

  pub refer_to : Deployment → Act W (DeploymentReference F)
  unfolding calculate_deployment_drift drift_or_zero
  refer_to deployment = do
    drift ← calculate_deployment_drift deployment
    time ← now
    pure (record {
      name = deployment.name;
      namespace = deployment.namespace;
      current_drift = drift_or_zero drift;
      last_applied = some time;
    })

  pub after_update :
      Deployment
      → Result ApiError (Unit {0})
      → Act W (Result ApplyError (Option (DeploymentReference F)))
  unfolding refer_to
  after_update deployment (err e) = pure (err (update_deployment_failed e))
  after_update deployment (ok done) = do reference ← refer_to deployment; pure (ok (some reference))

  module _ {S : Type 0} where
    pub write_annotations :
        PodPlacementPolicy F S
        → Deployment
        → Result ConvertError Text
        → Act W (Result ApplyError (Option (DeploymentReference F)))
    unfolding after_update annotate
    write_annotations policy deployment (err e) = pure (err (convert_failed e))
    write_annotations policy deployment (ok strategy_annotation) = do
      time ← now
      let annotated = annotate policy strategy_annotation (codec.format_time time) deployment
      updated ← update_deployment annotated
      after_update annotated updated

    -- `none` is nil: another policy has the deployment.
    unfoldable pub apply_policy_to_deployment :
        Order Text
        → PodPlacementPolicy F S
        → Deployment
        → Act W (Result ApplyError (Option (DeploymentReference F)))
    unfolding write_annotations has_higher_priority_policy
    apply_policy_to_deployment o policy deployment =
        let written =
          write_annotations policy deployment
            (convert_strategy_to_annotation o policy.spec.strategy) in
        if has_higher_priority_policy deployment policy then pure (ok none) else written
