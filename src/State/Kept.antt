-- ===== src/State/Kept.antt =====
-- What CleanupStaleStates (webhook/state_manager.go) leaves in place.
use kube_smart_scheduler.Prelude.{◌≡◌, ◌≢◌, refl, ap, ◌∙◌, Option, none, some, List, [], ◌∷◌}
use kube_smart_scheduler.Prelude.Result.{Result, ok, err}
use kube_smart_scheduler.GoText.{Text, codes}
use kube_smart_scheduler.GoMap.{lookup}
use kube_smart_scheduler.Kube.{Deployment}
use kube_smart_scheduler.Client.{ApiError, not_found, conflict, other, ConfigMap, Act, Client}
use kube_smart_scheduler.State.{Codec}
use kube_smart_scheduler.State.Increment.{
  delete_if_gone, clean_one, clean_all, clean_listed, cleanup_stale_states,
}

module _ {W : Type 0} (client : Client W) (codec : Codec)
    (delete : ConfigMap → Act W (Result ApiError (Unit {0}))) where
  -- The client whose deletions do something else.
  abbrev pub with_delete : Client W
  with_delete = record client { delete_config_map = delete }

  -- No deployment is ever missing.
  abbrev pub HasDeployments : Type 0
  HasDeployments =
      (namespace name : Text) (w : W) → (client.get_deployment namespace name w).0 ≢ err not_found

  delete_if_gone_same :
      (config_map : ConfigMap) (found : Result ApiError Deployment) (w : W)
      → found ≢ err not_found
      → delete_if_gone client codec config_map found w
        ≡ delete_if_gone with_delete codec config_map found w
  unfolding delete_if_gone
  delete_if_gone_same config_map (ok deployment) w h = refl
  delete_if_gone_same config_map (err not_found) w h = absurd (h refl)
  delete_if_gone_same config_map (err conflict) w h = refl
  delete_if_gone_same config_map (err other) w h = refl

  clean_one_same :
      (namespace : Text) (config_map : ConfigMap) (name : Option Text) (w : W)
      → HasDeployments
      → clean_one client codec namespace config_map name w
        ≡ clean_one with_delete codec namespace config_map name w
  unfolding clean_one
  clean_one_same namespace config_map none w has = refl
  clean_one_same namespace config_map (some name) w has =
      delete_if_gone_same config_map (client.get_deployment namespace name w).0
        (client.get_deployment namespace name w).1 (has namespace name w)

  clean_all_same :
      (namespace : Text) (config_maps : List ConfigMap) (w : W)
      → HasDeployments
      → clean_all client codec namespace config_maps w
        ≡ clean_all with_delete codec namespace config_maps w
  unfolding clean_all
  clean_all_same namespace [] w has = refl
  clean_all_same namespace (config_map ∷ rest) w has =
      let name = lookup (codes "smart-scheduler.io/deployment") config_map.labels in
      ap (λ done. clean_all client codec namespace rest done.1)
        (clean_one_same namespace config_map name w has)
      ∙ clean_all_same namespace rest (clean_one with_delete codec namespace config_map name w).1
          has

  clean_listed_same :
      (namespace : Text) (listed : Result ApiError (List ConfigMap)) (w : W)
      → HasDeployments
      → clean_listed client codec namespace listed w
        ≡ clean_listed with_delete codec namespace listed w
  unfolding clean_listed
  clean_listed_same namespace (err e) w has = refl
  clean_listed_same namespace (ok config_maps) w has =
      ap (λ done. (ok tt, done.1)) (clean_all_same namespace config_maps w has)

  -- If no lookup of a deployment answers that it is missing, then the clean-up deletes no state: it
  -- answers, and changes the world, in the same way whatever deleting does.
  pub cleanup_stale_states_same :
      (namespace : Text) (w : W)
      → HasDeployments
      → cleanup_stale_states client codec namespace w
        ≡ cleanup_stale_states with_delete codec namespace w
  unfolding cleanup_stale_states
  cleanup_stale_states_same namespace w has = clean_listed_same namespace _ _ has
