-- ===== src/State/Stored.antt =====
-- What UpdatePlacementState (webhook/state_manager.go) leaves in the ConfigMap.
use kube_smart_scheduler.Prelude.{◌≡◌, refl, Option, none, some}
use kube_smart_scheduler.Prelude.Result.{Result, ok, err}
use kube_smart_scheduler.GoText.{Text}
use kube_smart_scheduler.Client.{ApiError, not_found, conflict, other, ConfigMap, Client}
use kube_smart_scheduler.State.{
  PlacementState, create_failed, update_failed, Codec, config_map_name, wrap_err-ok,
}
use kube_smart_scheduler.State.Load.{config_map_of, create_or_update, save, update_placement_state}

module _ {W : Type 0} (client : Client W) where
  -- The server has a ConfigMap of this name with these contents.
  abbrev pub IsStored : ConfigMap → W → Type 0
  IsStored config_map w =
      (found : ConfigMap) × ((client.get_config_map config_map.namespace config_map.name w).0
        ≡ ok found)
      × (found.contents ≡ config_map.contents)

  -- A request to create or to update that succeeds leaves the object stored.
  abbrev pub IsStore : Type 0
  IsStore =
      ((config_map : ConfigMap) (w : W)
        → (client.create_config_map config_map w).0 ≡ ok tt
        → IsStored config_map (client.create_config_map config_map w).1)
      × ((config_map : ConfigMap) (w : W)
          → (client.update_config_map config_map w).0 ≡ ok tt
          → IsStored config_map (client.update_config_map config_map w).1)

module _ {W : Type 0} (client : Client W) (codec : Codec) where
  create_or_update-IsStored :
      (config_map : ConfigMap) (existing : Result ApiError ConfigMap) (w : W)
      → IsStore client
      → (create_or_update client codec config_map existing w).0 ≡ ok tt
      → IsStored client config_map (create_or_update client codec config_map existing w).1
  unfolding create_or_update
  create_or_update-IsStored config_map (err not_found) w store succeeds =
      store.0 config_map w
        (wrap_err-ok create_failed (client.create_config_map config_map w).0 succeeds)
  create_or_update-IsStored config_map (err conflict) w store succeeds = cc
  create_or_update-IsStored config_map (err other) w store succeeds = cc
  create_or_update-IsStored config_map (ok existing) w store succeeds =
      let locked = record config_map { resource_version = existing.resource_version } in
      store.1 locked w (wrap_err-ok update_failed (client.update_config_map locked w).0 succeeds)

  -- The server has the state's text.
  abbrev pub IsWritten : PlacementState → W → Type 0
  IsWritten state w =
      (state_data : Text) × (codec.marshal state ≡ some state_data)
      × IsStored client (config_map_of client codec state state_data) w

  save-IsWritten :
      (state : PlacementState) (text : Option Text) (w : W)
      → IsStore client
      → codec.marshal state ≡ text
      → (save client codec state text w).0 ≡ ok tt
      → IsWritten state (save client codec state text w).1
  unfolding save
  save-IsWritten state none w store marshalled succeeds = cc
  save-IsWritten state (some state_data) w store marshalled succeeds =
      let name = config_map_name state.deployment_name in
      (
        state_data,
        marshalled,
        create_or_update-IsStored (config_map_of client codec state state_data)
            (client.get_config_map state.deployment_namespace name w).0
            (client.get_config_map state.deployment_namespace name w).1 store succeeds,
      )

  pub update_placement_state-IsWritten :
      (state : PlacementState) (w : W)
      → IsStore client
      → (update_placement_state client codec state w).0.0 ≡ ok tt
      → IsWritten
          (update_placement_state client codec state w).0.1
          (update_placement_state client codec state w).1
  unfolding update_placement_state
  update_placement_state-IsWritten state w store succeeds =
      let stamped = record state { last_updated = (client.now w).0 } in
      save-IsWritten stamped (codec.marshal stamped) (client.now w).1 store refl succeeds
