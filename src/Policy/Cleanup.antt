-- ===== src/Policy/Cleanup.antt =====
-- handlePolicyDeletion (controllers/podplacementpolicy_controller.go).
pub mod Undo
use kube_smart_scheduler.Prelude.{Bool, false, Option, none, some, List, [], ◌∷◌, if◌then◌else◌}
use kube_smart_scheduler.Prelude.Result.{Result, ok, err}
use kube_smart_scheduler.GoText.{Text, text_eq}
use kube_smart_scheduler.GoMap.{lookup, delete}
use kube_smart_scheduler.Kube.{Deployment}
use kube_smart_scheduler.Client.{ApiError, Act, ◌>>=◌, ◌>>◌, pure, Client}
use kube_smart_scheduler.Controller.{ReconcileResult, requeue, failed}
use kube_smart_scheduler.Policy.Resources.{PolicyClient, PolicyError, api_failed}
use kube_smart_scheduler.Policy.Apply.{strategy_key, name_key, priority_key, applied_key}

abbrev is_named : Option Text → Text → Bool
is_named none name = false
is_named (some policy_name) name = text_eq policy_name name

unfoldable pub has_policy : Text → Deployment → Bool
has_policy name deployment = is_named (lookup name_key deployment.annotations) name

unfoldable pub remove_annotations : Deployment → Deployment
remove_annotations deployment = record deployment {
  annotations =
      delete applied_key
        (delete priority_key (delete name_key (delete strategy_key deployment.annotations)));
}

module _ {W F S L : Type 0} (client : Client W) (policies : PolicyClient W F S L) where
  open client use {update_deployment}
  open policies use {list_deployments}

  -- A failure to update is only logged.
  clean_deployments : Text → List Deployment → Act W (Unit {0})
  unfolding has_policy remove_annotations
  clean_deployments name [] = pure tt
  clean_deployments name (deployment ∷ rest) =
      let others = clean_deployments name rest in
      if has_policy name deployment
      then (update_deployment (remove_annotations deployment) >> others)
      else others

  unfoldable pub clean_listed_deployments :
      Text → Result ApiError (List Deployment) → Act W (ReconcileResult PolicyError)
  unfolding clean_deployments
  clean_listed_deployments name (err e) = pure (failed (api_failed e))
  clean_listed_deployments name (ok deployments) =
      clean_deployments name deployments >> pure (requeue 0)

  unfoldable pub handle_policy_deletion : Text → Text → Act W (ReconcileResult PolicyError)
  unfolding clean_listed_deployments
  handle_policy_deletion namespace name = do
    listed ← list_deployments namespace
    clean_listed_deployments name listed
