-- ===== src/Policy/Status.antt =====
-- updatePolicyStatus (controllers/podplacementpolicy_controller.go).
use kube_smart_scheduler.Prelude.{
  refl, ℕ, ◌*◌, ◌<◌, ◌+◌, ◌≡◌, ap, ◌∙◌, arith, some, List, [], ◌∷◌, ◌++◌, length, ltb,
  if◌then◌else◌,
}
use kube_smart_scheduler.Prelude.Int.{ℤ, pos}
use kube_smart_scheduler.Prelude.Int32.{add32, add32-pos, half_word32}
use kube_smart_scheduler.Prelude.Result.{Result, ok, err}
use kube_smart_scheduler.GoText.{codes}
use kube_smart_scheduler.GoText.Number.{itoa}
use kube_smart_scheduler.Api.{
  PodPlacementPolicyStatus, PolicyStatistics, Condition, DeploymentReference, PodPlacementPolicy,
}
use kube_smart_scheduler.Client.{ApiError, Act, ◌>>=◌, pure, Client}
use kube_smart_scheduler.Float.{FloatOps}
use kube_smart_scheduler.Controller.{ReconcileResult, minute, requeue}
use kube_smart_scheduler.Policy.Resources.{PolicyClient, PolicyError, api_failed}

-- The loop counts one for each reference.
pub count_references {ℓ} : {A : Type ℓ} → List A → ℤ → ℤ
count_references [] total = total
count_references (ref ∷ refs) total = count_references refs (add32 total (pos 1))

module _ {F : Type 0} (fl : FloatOps F) where
  total_drift : List (DeploymentReference F) → F → F
  total_drift [] total = total
  total_drift (ref ∷ refs) total = total_drift refs (fl.add total ref.current_drift)

  average_of : List (DeploymentReference F) → F
  unfolding total_drift
  average_of refs =
      if ltb 0 (length refs)
      then fl.div (total_drift refs (fl.of_int (pos 0))) (fl.of_int (pos (length refs)))
      else fl.of_int (pos 0)

  ready_condition : List (DeploymentReference F) → ℕ → Condition
  ready_condition refs time = record {
    kind = codes "Ready";
    status = codes "True";
    reason = codes "PolicyApplied";
    message = codes "Policy applied to " ++ (itoa (pos (length refs)) ++ codes " deployments");
    last_transition_time = time;
  }

  unfoldable pub with_status :
      {S : Type 0}
      → PodPlacementPolicy F S
      → List (DeploymentReference F)
      → ℕ
      → PodPlacementPolicy F S
  unfolding count_references average_of ready_condition
  with_status policy refs time = record policy {
    status = record policy.status {
      conditions = ready_condition refs time ∷ [];
      matched_deployments = refs;
      statistics = some (record {
        total_pods_managed = count_references refs (pos 0);
        average_drift = average_of refs;
        rebalance_count = pos 0;
        last_updated = some time;
      });
      observed_generation = policy.generation;
    };
  }

unfoldable pub after_status : Result ApiError (Unit {0}) → ReconcileResult PolicyError
after_status (err e) = record { requeue_after = minute; error = some (api_failed e) }
after_status (ok done) = requeue (10 * minute)

module _ {W F S L : Type 0} (client : Client W) (policies : PolicyClient W F S L)
    (fl : FloatOps F) where
  open client use {now}
  open policies use {update_policy_status}

  unfoldable pub report_status :
      PodPlacementPolicy F S → List (DeploymentReference F) → Act W (ReconcileResult PolicyError)
  unfolding with_status after_status
  report_status policy refs = do
    time ← now
    updated ← update_policy_status (with_status fl policy refs time)
    pure (after_status updated)

count_references-length {ℓ} :
    {A : Type ℓ} (refs : List A) (n : ℕ)
    → n + length refs < half_word32
    → count_references refs (pos n) ≡ pos (n + length refs)
unfolding count_references
count_references-length [] n h = ap pos (omega arith)
count_references-length (ref ∷ refs) n h =
    ap (count_references refs) (add32-pos n 1 (omega arith))
    ∙ count_references-length refs (n + 1) (omega arith)
    ∙ ap pos (omega arith)

module _ {F : Type 0} where
  -- The statistics show as many pods as there are deployments.
  abbrev pub CountsDeployments : PodPlacementPolicyStatus F → Type 0
  CountsDeployments status =
      (statistics : PolicyStatistics F) × (status.statistics ≡ some statistics)
      × (statistics.total_pods_managed ≡ pos (length status.matched_deployments))

module _ {F : Type 0} (fl : FloatOps F) where
  -- The number of pods managed, in a status written for fewer than 2^31 deployments, is the number of
  -- the deployments, however many pods they have; and the policy's specification is left as it was.
  pub with_status-CountsDeployments :
      {S : Type 0} (policy : PodPlacementPolicy F S) (refs : List (DeploymentReference F))
      (time : ℕ)
      → length refs < half_word32
      → CountsDeployments (with_status fl policy refs time).status
        × ((with_status fl policy refs time).spec ≡ policy.spec)
  unfolding with_status
  with_status-CountsDeployments policy refs time fits =
      ((_, refl, count_references-length refs 0 (omega arith) ∙ ap pos (omega arith)), refl)
