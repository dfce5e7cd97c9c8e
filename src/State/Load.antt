-- ===== src/State/Load.antt =====
-- getCurrentPodCounts, UpdatePlacementState, createInitialState and GetPlacementState
-- (webhook/state_manager.go).
use kube_smart_scheduler.Prelude.{
  ◌+◌, ◌*◌, Bool, true, false, Option, none, some, List, [], ◌∷◌, ltb,
}
use kube_smart_scheduler.Prelude.Int.{ℤ, pos}
use kube_smart_scheduler.Prelude.Result.{Result, ok, err}
use kube_smart_scheduler.GoText.{Text, codes}
use kube_smart_scheduler.GoMap.{Map, lookup, Order, range}
use kube_smart_scheduler.Strategy.{PlacementStrategy}
use kube_smart_scheduler.Kube.{Pod, Deployment}
use kube_smart_scheduler.Client.{ApiError, not_found, ConfigMap, Act, ◌>>=◌, pure, Client}
use kube_smart_scheduler.Placement.{total_pods}
use kube_smart_scheduler.Counting.{counts_of}
use kube_smart_scheduler.State.{
  PlacementState, StateError, list_pods_failed, initial_counts_failed, get_failed, marshal_failed,
  create_failed, get_existing_failed, update_failed, Codec, second, config_map_name, wrap_err,
}

module _ {W : Type 0} (client : Client W) (codec : Codec) where
  open client use {
    now, sleep, get_config_map, create_config_map, update_config_map, delete_config_map,
    list_config_maps, get_deployment, list_pods,
  }

  unfoldable pub counts_or :
      Order Text → PlacementStrategy → Result ApiError (List Pod) → Result StateError (Map ℤ)
  counts_or o strategy (ok pods) = ok (counts_of o pods strategy.rules)
  counts_or o strategy (err e) = err (list_pods_failed e)

  unfoldable pub get_current_pod_counts :
      Order Text → Deployment → PlacementStrategy → Act W (Result StateError (Map ℤ))
  unfolding counts_or
  get_current_pod_counts o deployment strategy = do
    listed ← list_pods deployment.namespace deployment.match_labels
    pure (counts_or o strategy listed)

  abbrev pub config_map_of : PlacementState → Text → ConfigMap
  config_map_of state state_data = record {
    name = config_map_name state.deployment_name;
    namespace = state.deployment_namespace;
    labels =
        (codes "app.kubernetes.io/name", codes "smart-scheduler")
        ∷ (codes "app.kubernetes.io/component", codes "placement-state")
        ∷ (codes "smart-scheduler.io/deployment", state.deployment_name)
        ∷ [];
    contents =
        (codes "placement-state", state_data)
        ∷ (codes "last-updated", codec.format_time state.last_updated)
        ∷ [];
    resource_version = [];
  }

  -- Create the ConfigMap, or update the one that is there at the version just read.
  unfoldable pub create_or_update :
      ConfigMap → Result ApiError ConfigMap → Act W (Result StateError (Unit {0}))
  create_or_update config_map (err not_found) = do
    created ← create_config_map config_map
    pure (wrap_err create_failed created)
  create_or_update config_map (err e) = pure (err (get_existing_failed e))
  create_or_update config_map (ok existing) = do
    updated ← update_config_map (record config_map { resource_version = existing.resource_version })
    pure (wrap_err update_failed updated)

  unfoldable pub save : PlacementState → Option Text → Act W (Result StateError (Unit {0}))
  unfolding create_or_update
  save state none = pure (err marshal_failed)
  save state (some state_data) = do
    existing ← get_config_map state.deployment_namespace (config_map_name state.deployment_name)
    create_or_update (config_map_of state state_data) existing

  -- The state comes back with its new timestamp, which the code writes through the pointer.
  unfoldable pub update_placement_state :
      PlacementState → Act W (Result StateError (Unit {0}) × PlacementState)
  unfolding save
  update_placement_state state = do
    time ← now
    let stamped = record state { last_updated = time }
    saved ← save stamped (codec.marshal stamped)
    pure (saved, stamped)

  unfoldable pub initial_or :
      Order ℤ
      → Deployment
      → PlacementStrategy
      → Result StateError (Map ℤ)
      → Act W (Result StateError PlacementState)
  unfolding update_placement_state
  initial_or oc deployment strategy (err e) = pure (err (initial_counts_failed e))
  initial_or oc deployment strategy (ok counts) = do
    time ← now
    saved ← update_placement_state (record {
      deployment_name = deployment.name;
      deployment_namespace = deployment.namespace;
      strategy = some strategy;
      pod_counts = counts;
      last_updated = time;
      total_pods = total_pods (range oc counts) (pos 0);
    })
    pure (ok saved.1)

  -- A failure to save is only logged.
  unfoldable pub create_initial_state :
      Order Text
      → Order ℤ
      → Deployment
      → PlacementStrategy
      → Act W (Result StateError PlacementState)
  unfolding initial_or get_current_pod_counts
  create_initial_state o oc deployment strategy = do
    counts ← get_current_pod_counts o deployment strategy
    initial_or oc deployment strategy counts

  unfoldable pub refresh_with :
      Order ℤ → PlacementState → Result StateError (Map ℤ) → Act W PlacementState
  refresh_with oc state (err e) = pure state
  refresh_with oc state (ok counts) = do
    time ← now
    pure (record state {
      pod_counts = counts;
      total_pods = total_pods (range oc counts) (pos 0);
      last_updated = time;
    })

  unfoldable pub counts_if_stale :
      Order Text
      → Order ℤ
      → Deployment
      → PlacementStrategy
      → PlacementState
      → Bool
      → Act W PlacementState
  unfolding refresh_with get_current_pod_counts
  counts_if_stale o oc deployment strategy state true = do
    counts ← get_current_pod_counts o deployment strategy
    refresh_with oc state counts
  counts_if_stale o oc deployment strategy state false = pure state

  -- Counts older than thirty seconds are counted anew.
  unfoldable pub refresh :
      Order Text → Order ℤ → Deployment → PlacementStrategy → PlacementState → Act W PlacementState
  unfolding counts_if_stale
  refresh o oc deployment strategy state = do
    time ← now
    counts_if_stale o oc deployment strategy state (ltb (state.last_updated + 30 * second) time)

  unfoldable pub from_state :
      Order Text
      → Order ℤ
      → Deployment
      → PlacementStrategy
      → Option PlacementState
      → Act W (Result StateError PlacementState)
  unfolding create_initial_state refresh
  from_state o oc deployment strategy none = create_initial_state o oc deployment strategy
  from_state o oc deployment strategy (some state) = do
    current ← refresh o oc deployment strategy (record state { strategy = some strategy })
    pure (ok current)

  -- Without a stored state that can be read, the state is built anew.
  unfoldable pub from_text :
      Order Text
      → Order ℤ
      → Deployment
      → PlacementStrategy
      → Option Text
      → Act W (Result StateError PlacementState)
  unfolding from_state
  from_text o oc deployment strategy none = create_initial_state o oc deployment strategy
  from_text o oc deployment strategy (some state_data) =
      from_state o oc deployment strategy (codec.unmarshal state_data)

  unfoldable pub from_config_map :
      Order Text
      → Order ℤ
      → Deployment
      → PlacementStrategy
      → Result ApiError ConfigMap
      → Act W (Result StateError PlacementState)
  unfolding from_text
  from_config_map o oc deployment strategy (err not_found) =
      create_initial_state o oc deployment strategy
  from_config_map o oc deployment strategy (err e) = pure (err (get_failed e))
  from_config_map o oc deployment strategy (ok config_map) =
      from_text o oc deployment strategy (lookup (codes "placement-state") config_map.contents)

  unfoldable pub get_placement_state :
      Order Text
      → Order ℤ
      → Deployment
      → PlacementStrategy
      → Act W (Result StateError PlacementState)
  unfolding from_config_map
  get_placement_state o oc deployment strategy = do
    found ← get_config_map deployment.namespace (config_map_name deployment.name)
    from_config_map o oc deployment strategy found
