-- ===== src/Scheduler.antt =====
-- SchedulerController.Reconcile and the filter of its events (controllers/scheduler_controller.go).
-- Logging is left out, and with it the time the reconciliation takes.
use kube_smart_scheduler.Prelude.{
  ℕ, Bool, true, false, ◌&&◌, ◌≡◌, ◌↔◌, refl, ap, arith, Option, none, some, not, ◌||◌, ◌==◌,
}
use kube_smart_scheduler.Prelude.Result.{Result, ok, err}
use kube_smart_scheduler.GoText.{Text, text_eq}
use kube_smart_scheduler.GoMap.{lookup}
use kube_smart_scheduler.Kube.{Deployment}
use kube_smart_scheduler.Events.{
  deployment_object, Event, create_event, update_event, delete_event, strategy_key, strategy_of,
  differ_ℤ,
}
use kube_smart_scheduler.Rebalance.Events.{
  deployment_predicates, should_reconcile_deployment, status_changed,
}
use kube_smart_scheduler.Client.{ApiError, not_found, conflict, other, Act, ◌>>=◌, pure, Client}
use kube_smart_scheduler.Controller.{ReconcileResult, requeue}

-- client.IgnoreNotFound
abbrev pub ignore_not_found : ApiError → Option ApiError
ignore_not_found not_found = none
ignore_not_found e = some e

-- The strategy is found, and nothing is done with it.
unfoldable with_strategy : Option Text → ReconcileResult ApiError
with_strategy none = requeue 0
with_strategy (some schedule_strategy) = requeue 0

unfoldable with_deployment : Result ApiError Deployment → ReconcileResult ApiError
unfolding with_strategy
with_deployment (err e) = record { requeue_after = 0; error = ignore_not_found e }
with_deployment (ok deployment) = with_strategy (lookup strategy_key deployment.annotations)

module _ {W : Type 0} (client : Client W) where
  unfoldable pub reconcile : Text → Text → Act W (ReconcileResult ApiError)
  unfolding with_deployment
  reconcile namespace name = do
    found ← client.get_deployment namespace name
    pure (with_deployment found)

-- The request needs no answer: there is a deployment, or it is gone.
abbrev pub IsExcused : Result ApiError Deployment → Type 0
IsExcused (ok deployment) = Unit
IsExcused (err not_found) = Unit
IsExcused (err _) = ⊥

answer :
    (found : Result ApiError Deployment)
    → ((with_deployment found).requeue_after ≡ 0)
      × ((with_deployment found).error ≡ none ↔ IsExcused found)
unfolding with_deployment with_strategy
answer (ok deployment) =
    elim (lookup strategy_key deployment.annotations)
      as (λ o. ((with_strategy o).requeue_after ≡ 0) × ((with_strategy o).error ≡ none ↔ Unit)) [
        | none ↦ (refl, ((λ e. tt), λ t. refl))
        | some s ↦ (refl, ((λ e. tt), λ t. refl))
      ]
answer (err not_found) = (refl, ((λ e. tt), λ t. refl))
answer (err conflict) = (refl, ((λ e. cc), λ t. elim t [ ]))
answer (err other) = (refl, ((λ e. cc), λ t. elim t [ ]))

module _ {W : Type 0} (client : Client W) where
  -- The scheduler controller asks for no requeue and changes nothing, and it fails exactly if its
  -- lookup of the deployment fails for another reason than that there is none.
  pub reconcile-IsExcused :
      (namespace name : Text) (w : W)
      → ((reconcile client namespace name w).1 ≡ (client.get_deployment namespace name w).1)
        × ((reconcile client namespace name w).0.requeue_after ≡ 0)
        × ((reconcile client namespace name w).0.error ≡ none
            ↔ IsExcused (client.get_deployment namespace name w).0)
  unfolding reconcile
  reconcile-IsExcused namespace name w =
      let (at_once, says) = answer (client.get_deployment namespace name w).0 in
      (refl, at_once, says)

-- Two pointers are the same if both are nil, or if their addresses are.
abbrev pub pointer_eq : Option ℕ → Option ℕ → Bool
pointer_eq none none = true
pointer_eq (some a) (some b) = a == b
pointer_eq _ _ = false

unfoldable pub should_reconcile : Deployment → Deployment → Bool
should_reconcile old_dep new_dep =
    not (text_eq (strategy_of old_dep) (strategy_of new_dep))
    || differ_ℤ old_dep.generation new_dep.generation
    || not (pointer_eq old_dep.replicas new_dep.replicas)

-- `none` is the panic of a type assertion.
unfoldable pub event_filter : Event → Option Bool
unfolding should_reconcile
event_filter (create_event object) = some true
event_filter (update_event (deployment_object old_dep) (deployment_object new_dep)) =
    some (should_reconcile old_dep new_dep)
event_filter (update_event _ _) = none
event_filter (delete_event object) = some true

passes_on : (h s g t r : Bool) → (h && (s || g || t)) ≡ true → t ≡ false → (s || g || r) ≡ true
passes_on h s g t r = ground arith

-- An update that passes the rebalance controller's filter passes this one, unless the status is what
-- changed.
event_filter-wider :
    (old_dep new_dep : Deployment)
    → deployment_predicates (update_event (deployment_object old_dep) (deployment_object new_dep))
      ≡ true
    → status_changed old_dep new_dep ≡ false
    → event_filter (update_event (deployment_object old_dep) (deployment_object new_dep))
      ≡ some true
unfolding event_filter should_reconcile deployment_predicates should_reconcile_deployment
event_filter-wider old_dep new_dep passes same = ap some (
    passes_on _ (not (text_eq (strategy_of old_dep) (strategy_of new_dep)))
      (differ_ℤ old_dep.generation new_dep.generation) _
      (not (pointer_eq old_dep.replicas new_dep.replicas)) passes same)
