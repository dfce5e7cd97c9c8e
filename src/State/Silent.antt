-- ===== src/State/Silent.antt =====
-- What the state manager does without sleeping and without deleting a pod, and where it lists pods,
-- which it does at most once (webhook/state_manager.go).
use kube_smart_scheduler.Prelude.{
  refl, ap, ◌∙◌, Bool, true, false, Option, none, some, List, [], ◌∷◌,
}
use kube_smart_scheduler.Prelude.Int.{ℤ, pos}
use kube_smart_scheduler.Prelude.Result.{Result, ok, err}
use kube_smart_scheduler.GoText.{Text, codes}
use kube_smart_scheduler.GoMap.{Map, Order, lookup, range}
use kube_smart_scheduler.Strategy.{PlacementStrategy}
use kube_smart_scheduler.Strategy.Parse.{ParseError}
use kube_smart_scheduler.Kube.{Deployment}
use kube_smart_scheduler.Client.{ApiError, not_found, conflict, other, ConfigMap, Client}
use kube_smart_scheduler.Client.Watched.{Watch, watched, IsSilent, Listens, after_list}
use kube_smart_scheduler.Placement.{total_pods}
use kube_smart_scheduler.State.{PlacementState, StateError, Codec, config_map_name}
use kube_smart_scheduler.State.Load.{
  get_current_pod_counts, create_or_update, save, update_placement_state, initial_or,
  create_initial_state, refresh_with, counts_if_stale, refresh, from_state, from_text,
  from_config_map, get_placement_state,
}
use kube_smart_scheduler.State.Increment.{
  after_update, increment, write_back, increment_round, delete_if_gone, clean_one, clean_all,
  clean_listed, cleanup_stale_states,
}

module _ {W T : Type 0} (watch : Watch T) (client : Client W) (codec : Codec) where
  create_or_update-IsSilent :
      (config_map : ConfigMap) (existing : Result ApiError ConfigMap)
      → IsSilent
          (create_or_update client codec config_map existing)
          (create_or_update (watched watch client) codec config_map existing)
  unfolding create_or_update
  create_or_update-IsSilent config_map (err not_found) w t = refl
  create_or_update-IsSilent config_map (err conflict) w t = refl
  create_or_update-IsSilent config_map (err other) w t = refl
  create_or_update-IsSilent config_map (ok existing) w t = refl

  save-IsSilent :
      (state : PlacementState) (marshalled : Option Text)
      → IsSilent
          (save client codec state marshalled)
          (save (watched watch client) codec state marshalled)
  unfolding save
  save-IsSilent state none w t = refl
  save-IsSilent state (some state_data) w t =
      let found =
        client.get_config_map state.deployment_namespace (config_map_name state.deployment_name)
          w in
      create_or_update-IsSilent _ found.0 found.1 t

  update_placement_state-IsSilent :
      (state : PlacementState)
      → IsSilent
          (update_placement_state client codec state)
          (update_placement_state (watched watch client) codec state)
  unfolding update_placement_state
  update_placement_state-IsSilent state w t =
      let stamped = record state { last_updated = (client.now w).0 } in
      ap (λ done. ((done.0, stamped), done.1))
        (save-IsSilent stamped (codec.marshal stamped) (client.now w).1 t)

  initial_or-IsSilent :
      (oc : Order ℤ) (deployment : Deployment) (strategy : PlacementStrategy)
      (counts : Result StateError (Map ℤ))
      → IsSilent
          (initial_or client codec oc deployment strategy counts)
          (initial_or (watched watch client) codec oc deployment strategy counts)
  unfolding initial_or
  initial_or-IsSilent oc deployment strategy (err e) w t = refl
  initial_or-IsSilent oc deployment strategy (ok counts) w t =
      let state : PlacementState = record {
        deployment_name = deployment.name;
        deployment_namespace = deployment.namespace;
        strategy = some strategy;
        pod_counts = counts;
        last_updated = (client.now w).0;
        total_pods = total_pods (range oc counts) (pos 0);
      } in
      ap (λ done. (ok done.0.1, done.1)) (update_placement_state-IsSilent state (client.now w).1 t)

  create_initial_state-Listens :
      (o : Order Text) (oc : Order ℤ) (deployment : Deployment) (strategy : PlacementStrategy)
      → Listens watch
          (create_initial_state client codec o oc deployment strategy)
          (create_initial_state (watched watch client) codec o oc deployment strategy)
  unfolding create_initial_state get_current_pod_counts
  create_initial_state-Listens o oc deployment strategy w t =
      let counts = get_current_pod_counts client codec o deployment strategy w in
      let answer = (client.list_pods deployment.namespace deployment.match_labels w).0 in
      (
        some answer,
        initial_or-IsSilent oc deployment strategy counts.0 counts.1 (watch.on_list answer t),
      )

  refresh_with-IsSilent :
      (oc : Order ℤ) (state : PlacementState) (counts : Result StateError (Map ℤ))
      → IsSilent
          (refresh_with client codec oc state counts)
          (refresh_with (watched watch client) codec oc state counts)
  unfolding refresh_with
  refresh_with-IsSilent oc state (err e) w t = refl
  refresh_with-IsSilent oc state (ok counts) w t = refl

  counts_if_stale-Listens :
      (o : Order Text) (oc : Order ℤ) (deployment : Deployment) (strategy : PlacementStrategy)
      (state : PlacementState) (stale : Bool)
      → Listens watch
          (counts_if_stale client codec o oc deployment strategy state stale)
          (counts_if_stale (watched watch client) codec o oc deployment strategy state stale)
  unfolding counts_if_stale get_current_pod_counts
  counts_if_stale-Listens o oc deployment strategy state true w t =
      let counts = get_current_pod_counts client codec o deployment strategy w in
      let answer = (client.list_pods deployment.namespace deployment.match_labels w).0 in
      (some answer, refresh_with-IsSilent oc state counts.0 counts.1 (watch.on_list answer t))
  counts_if_stale-Listens o oc deployment strategy state false w t = (none, refl)

  from_state-Listens :
      (o : Order Text) (oc : Order ℤ) (deployment : Deployment) (strategy : PlacementStrategy)
      (stored : Option PlacementState)
      → Listens watch
          (from_state client codec o oc deployment strategy stored)
          (from_state (watched watch client) codec o oc deployment strategy stored)
  unfolding from_state refresh
  from_state-Listens o oc deployment strategy none w t =
      create_initial_state-Listens o oc deployment strategy w t
  from_state-Listens o oc deployment strategy (some state) w t =
      let (heard, same) = counts_if_stale-Listens o oc deployment strategy _ _ (client.now w).1 t in
      (heard, ap (λ done. (ok done.0, done.1)) same)

  from_text-Listens :
      (o : Order Text) (oc : Order ℤ) (deployment : Deployment) (strategy : PlacementStrategy)
      (text : Option Text)
      → Listens watch
          (from_text client codec o oc deployment strategy text)
          (from_text (watched watch client) codec o oc deployment strategy text)
  unfolding from_text
  from_text-Listens o oc deployment strategy none w t =
      create_initial_state-Listens o oc deployment strategy w t
  from_text-Listens o oc deployment strategy (some state_data) w t =
      from_state-Listens o oc deployment strategy (codec.unmarshal state_data) w t

  from_config_map-Listens :
      (o : Order Text) (oc : Order ℤ) (deployment : Deployment) (strategy : PlacementStrategy)
      (found : Result ApiError ConfigMap)
      → Listens watch
          (from_config_map client codec o oc deployment strategy found)
          (from_config_map (watched watch client) codec o oc deployment strategy found)
  unfolding from_config_map
  from_config_map-Listens o oc deployment strategy (err not_found) w t =
      create_initial_state-Listens o oc deployment strategy w t
  from_config_map-Listens o oc deployment strategy (err conflict) w t = (none, refl)
  from_config_map-Listens o oc deployment strategy (err other) w t = (none, refl)
  from_config_map-Listens o oc deployment strategy (ok config_map) w t =
      from_text-Listens o oc deployment strategy
        (lookup (codes "placement-state") config_map.contents) w t

  pub get_placement_state-Listens :
      (o : Order Text) (oc : Order ℤ) (deployment : Deployment) (strategy : PlacementStrategy)
      → Listens watch
          (get_placement_state client codec o oc deployment strategy)
          (get_placement_state (watched watch client) codec o oc deployment strategy)
  unfolding get_placement_state
  get_placement_state-Listens o oc deployment strategy w t =
      let found = client.get_config_map deployment.namespace (config_map_name deployment.name) w in
      from_config_map-Listens o oc deployment strategy found.0 found.1 t

  write_back-IsSilent :
      (rule_key : Text) (state : Result StateError PlacementState)
      → IsSilent
          (write_back client codec rule_key state)
          (write_back (watched watch client) codec rule_key state)
  unfolding write_back
  write_back-IsSilent rule_key (err e) w t = refl
  write_back-IsSilent rule_key (ok state) w t =
      ap (λ done. (after_update done.0.0, done.1))
        (update_placement_state-IsSilent (increment rule_key state) w t)

  -- A round of IncrementPodCount does not sleep, and lists pods at most once.
  pub increment_round-Listens :
      (o : Order Text) (oc : Order ℤ) (deployment : Deployment) (rule_key : Text)
      (strategy : Result ParseError PlacementStrategy)
      → Listens watch
          (increment_round client codec o oc deployment rule_key strategy)
          (increment_round (watched watch client) codec o oc deployment rule_key strategy)
  unfolding increment_round
  increment_round-Listens o oc deployment rule_key (err e) w t = (none, refl)
  increment_round-Listens o oc deployment rule_key (ok strategy) w t =
      let got = get_placement_state client codec o oc deployment strategy w in
      let (heard, same) = get_placement_state-Listens o oc deployment strategy w t in
      (
        heard,
        ap (λ done. write_back (watched watch client) codec rule_key done.0 done.1) same
            ∙ write_back-IsSilent rule_key got.0 got.1 (after_list watch heard t),
      )

  delete_if_gone-IsSilent :
      (config_map : ConfigMap) (found : Result ApiError Deployment)
      → IsSilent
          (delete_if_gone client codec config_map found)
          (delete_if_gone (watched watch client) codec config_map found)
  unfolding delete_if_gone
  delete_if_gone-IsSilent config_map (err not_found) w t = refl
  delete_if_gone-IsSilent config_map (err conflict) w t = refl
  delete_if_gone-IsSilent config_map (err other) w t = refl
  delete_if_gone-IsSilent config_map (ok deployment) w t = refl

  clean_one-IsSilent :
      (namespace : Text) (config_map : ConfigMap) (name : Option Text)
      → IsSilent
          (clean_one client codec namespace config_map name)
          (clean_one (watched watch client) codec namespace config_map name)
  unfolding clean_one
  clean_one-IsSilent namespace config_map none w t = refl
  clean_one-IsSilent namespace config_map (some name) w t =
      let found = client.get_deployment namespace name w in
      delete_if_gone-IsSilent config_map found.0 found.1 t

  clean_all-IsSilent :
      (namespace : Text) (config_maps : List ConfigMap)
      → IsSilent
          (clean_all client codec namespace config_maps)
          (clean_all (watched watch client) codec namespace config_maps)
  unfolding clean_all
  clean_all-IsSilent namespace [] w t = refl
  clean_all-IsSilent namespace (config_map ∷ rest) w t =
      let name = lookup (codes "smart-scheduler.io/deployment") config_map.labels in
      let cleaned = clean_one client codec namespace config_map name w in
      ap (λ done. clean_all (watched watch client) codec namespace rest done.1)
        (clean_one-IsSilent namespace config_map name w t)
      ∙ clean_all-IsSilent namespace rest cleaned.1 t

  clean_listed-IsSilent :
      (namespace : Text) (listed : Result ApiError (List ConfigMap))
      → IsSilent
          (clean_listed client codec namespace listed)
          (clean_listed (watched watch client) codec namespace listed)
  unfolding clean_listed
  clean_listed-IsSilent namespace (err e) w t = refl
  clean_listed-IsSilent namespace (ok config_maps) w t =
      ap (λ done. (ok tt, done.1)) (clean_all-IsSilent namespace config_maps w t)

  pub cleanup_stale_states-IsSilent :
      (namespace : Text)
      → IsSilent
          (cleanup_stale_states client codec namespace)
          (cleanup_stale_states (watched watch client) codec namespace)
  unfolding cleanup_stale_states
  cleanup_stale_states-IsSilent namespace w t =
      let labels =
        (codes "app.kubernetes.io/name", codes "smart-scheduler")
        ∷ (codes "app.kubernetes.io/component", codes "placement-state")
        ∷ [] in
      let listed = client.list_config_maps namespace labels w in
      clean_listed-IsSilent namespace listed.0 listed.1 t
