-- ===== src/State/Increment.antt =====
-- IncrementPodCount and CleanupStaleStates (webhook/state_manager.go).
use kube_smart_scheduler.Prelude.{
  ℕ, zero, suc, ◌+◌, ◌*◌, Option, none, some, List, [], ◌∷◌, if◌then◌else◌,
}
use kube_smart_scheduler.Prelude.Int.{ℤ, pos}
use kube_smart_scheduler.Prelude.Int64.{add64}
use kube_smart_scheduler.Prelude.Result.{Result, ok, err}
use kube_smart_scheduler.GoText.{Text, codes}
use kube_smart_scheduler.GoMap.{lookup, get_or, Order, ◌▹◌}
use kube_smart_scheduler.Strategy.{PlacementStrategy}
use kube_smart_scheduler.Strategy.Parse.{ParseError, parse_placement_strategy}
use kube_smart_scheduler.Kube.{Deployment}
use kube_smart_scheduler.Client.{ApiError, not_found, ConfigMap, Act, ◌>>=◌, ◌>>◌, pure, Client}
use kube_smart_scheduler.Counting.{count_up}
use kube_smart_scheduler.State.{
  PlacementState, StateError, parse_failed, get_state_failed, list_config_maps_failed,
  retries_exhausted, is_conflict, Codec, millisecond,
}
use kube_smart_scheduler.State.Load.{get_placement_state, update_placement_state}

-- What one round of the loop of IncrementPodCount does: return, or go on to the next round.
pub data Round : Type 0 where
  returns : Result StateError (Unit {0}) → Round
  retries : StateError → Round

abbrev pub max_retries : ℕ
max_retries = 3

abbrev pub after_update : Result StateError (Unit {0}) → Round
after_update (ok done) = returns (ok tt)
after_update (err e) = if is_conflict e then retries e else returns (err e)

-- state.PodCounts[ruleKey]++; state.TotalPods++
unfoldable pub increment : Text → PlacementState → PlacementState
unfolding count_up
increment rule_key state = record state {
  pod_counts = count_up rule_key state.pod_counts;
  total_pods = add64 state.total_pods (pos 1);
}

module _ {W : Type 0} (client : Client W) (codec : Codec) where
  open client use {sleep, delete_config_map, list_config_maps, get_deployment}

  unfoldable pub write_back : Text → Result StateError PlacementState → Act W Round
  unfolding update_placement_state increment
  write_back rule_key (err e) = pure (returns (err (get_state_failed e)))
  write_back rule_key (ok state) = do
    updated ← update_placement_state client codec (increment rule_key state)
    pure (after_update updated.0)

  -- One round, for a deployment whose annotation is given.
  unfoldable pub increment_round :
      Order Text → Order ℤ → Deployment → Text → Result ParseError PlacementStrategy → Act W Round
  unfolding write_back get_placement_state
  increment_round o oc deployment rule_key (err e) = pure (returns (err (parse_failed e)))
  increment_round o oc deployment rule_key (ok strategy) = do
    state ← get_placement_state client codec o oc deployment strategy
    write_back rule_key state

  unfoldable pub next_round :
      Act W (Result StateError (Unit {0})) → ℕ → Round → Act W (Result StateError (Unit {0}))
  next_round again i (returns result) = pure result
  next_round again i (retries e) = sleep (100 * millisecond * (i + 1)) >> again

  -- The rounds that are left, from the i-th on.
  unfoldable pub increment_from :
      Order Text → Order ℤ → Deployment → Text → ℕ → ℕ → Act W (Result StateError (Unit {0}))
  unfolding next_round
  increment_from o oc deployment rule_key zero i = pure (err (retries_exhausted max_retries))
  increment_from o oc deployment rule_key (suc left) i =
      increment_round (o ▹ i) (λ path. oc (i ∷ path)) deployment rule_key
        (parse_placement_strategy
          (get_or (codes "smart-scheduler.io/schedule-strategy") deployment.annotations []))
      >>= next_round (increment_from o oc deployment rule_key left (suc i)) i

  unfoldable pub increment_pod_count :
      Order Text → Order ℤ → Deployment → Text → Act W (Result StateError (Unit {0}))
  unfolding increment_from
  increment_pod_count o oc deployment rule_key =
      increment_from o oc deployment rule_key max_retries 0

  -- A failed deletion is only logged.
  unfoldable pub delete_if_gone : ConfigMap → Result ApiError Deployment → Act W (Unit {0})
  delete_if_gone config_map (err not_found) = delete_config_map config_map >> pure tt
  delete_if_gone config_map _ = pure tt

  unfoldable pub clean_one : Text → ConfigMap → Option Text → Act W (Unit {0})
  unfolding delete_if_gone
  clean_one namespace config_map none = pure tt
  clean_one namespace config_map (some deployment_name) = do
    found ← get_deployment namespace deployment_name
    delete_if_gone config_map found

  unfoldable pub clean_all : Text → List ConfigMap → Act W (Unit {0})
  unfolding clean_one
  clean_all namespace [] = pure tt
  clean_all namespace (config_map ∷ rest) =
      clean_one namespace config_map
        (lookup (codes "smart-scheduler.io/deployment") config_map.labels)
      >> clean_all namespace rest

  unfoldable pub clean_listed :
      Text → Result ApiError (List ConfigMap) → Act W (Result StateError (Unit {0}))
  unfolding clean_all
  clean_listed namespace (err e) = pure (err (list_config_maps_failed e))
  clean_listed namespace (ok config_maps) = clean_all namespace config_maps >> pure (ok tt)

  unfoldable pub cleanup_stale_states : Text → Act W (Result StateError (Unit {0}))
  unfolding clean_listed
  cleanup_stale_states namespace = do
    listed ← list_config_maps namespace (
        (codes "app.kubernetes.io/name", codes "smart-scheduler")
        ∷ (codes "app.kubernetes.io/component", codes "placement-state")
        ∷ [])
    clean_listed namespace listed
