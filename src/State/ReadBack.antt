-- ===== src/State/ReadBack.antt =====
-- What GetPlacementState (webhook/state_manager.go) reads of a state that was stored.
use kube_smart_scheduler.Prelude.{ℕ, ◌+◌, ◌*◌, ◌≤◌, ◌≡◌, refl, ap, ◌∙◌, false, some, ltb, arith}
use kube_smart_scheduler.Prelude.Int.{ℤ, pos}
use kube_smart_scheduler.Prelude.Int64.{add64}
use kube_smart_scheduler.Prelude.Result.{Result, ok}
use kube_smart_scheduler.GoText.{Text, codes, text_eq}
use kube_smart_scheduler.GoMap.{Map, lookup, Order}
use kube_smart_scheduler.Strategy.{PlacementStrategy}
use kube_smart_scheduler.Kube.{Deployment}
use kube_smart_scheduler.Counting.{count_up}
use kube_smart_scheduler.Client.{Client}
use kube_smart_scheduler.State.{PlacementState, StateError, Codec, second, config_map_name}
use kube_smart_scheduler.State.Load.{
  config_map_of, update_placement_state, counts_if_stale, refresh, from_state, from_text,
  from_config_map, get_placement_state,
}
use kube_smart_scheduler.State.Increment.{increment}
use kube_smart_scheduler.State.Stored.{IsStore, IsWritten, update_placement_state-IsWritten}

not_stale : (limit time : ℕ) → time ≤ limit → ltb limit time ≡ false
not_stale limit time h = ground arith

module _ {W : Type 0} (client : Client W) (codec : Codec) where
  -- What is marshalled is unmarshalled as it was.
  abbrev pub IsCodec : Type 0
  IsCodec =
      (state : PlacementState) (state_data : Text)
      → codec.marshal state ≡ some state_data
      → codec.unmarshal state_data ≡ some state

  lookup-contents :
      (state : PlacementState) (state_data : Text) (contents : Map Text)
      → contents ≡ (config_map_of client codec state state_data).contents
      → lookup (codes "placement-state") contents ≡ some state_data
  unfolding lookup text_eq
  lookup-contents state state_data contents e = ap (lookup (codes "placement-state")) e

  module _ (o : Order Text) (oc : Order ℤ) (deployment : Deployment)
      (strategy : PlacementStrategy) where
    -- The deployment is the one of the state.
    abbrev pub IsStateOf : PlacementState → Type 0
    IsStateOf state =
        (deployment.name ≡ state.deployment_name)
        × (deployment.namespace ≡ state.deployment_namespace)

    -- When GetPlacementState looks at the clock in a world with a stored state.
    abbrev pub read_time : W → ℕ
    read_time w =
        (client.now
          (client.get_config_map deployment.namespace (config_map_name deployment.name) w).1).0

    stamped_names :
        (state : PlacementState) (w : W)
        → IsStateOf state
        → IsStateOf (update_placement_state client codec state w).0.1
    unfolding update_placement_state
    stamped_names state w h = h

    from_state-fresh :
        (state : PlacementState) (w : W)
        → (client.now w).0 ≤ state.last_updated + 30 * second
        → (from_state client codec o oc deployment strategy (some state) w).0
          ≡ ok (record state { strategy = some strategy })
    unfolding from_state refresh counts_if_stale
    from_state-fresh state w fresh =
        ap
          (λ stale.
            ok
              (counts_if_stale client codec o oc deployment strategy
                (record state { strategy = some strategy }) stale (client.now w).1).0)
          (not_stale (state.last_updated + 30 * second) (client.now w).0 fresh)

    get_placement_state-IsWritten :
        (state : PlacementState) (w : W)
        → IsCodec
        → IsStateOf state
        → IsWritten client codec state w
        → read_time w ≤ state.last_updated + 30 * second
        → (get_placement_state client codec o oc deployment strategy w).0
          ≡ ok (record state { strategy = some strategy })
    unfolding get_placement_state from_config_map from_text
    get_placement_state-IsWritten state w codes_back (named, spaced)
          (state_data, marshalled, (found, read, same)) fresh =
        rw
          (
            ap (λ n. (client.get_config_map deployment.namespace (config_map_name n) w).0) named
                ∙ ap (λ n. (client.get_config_map n (config_map_name state.deployment_name) w).0)
                    spaced
                ∙ read,
            lookup-contents state state_data found.contents same,
            codes_back state state_data marshalled,
          )
          (from_state-fresh state
            (client.get_config_map deployment.namespace (config_map_name deployment.name) w).1
            fresh)

    -- If requests that succeed leave the ConfigMap stored, and marshalled states are unmarshalled as
    -- they were, then GetPlacementState returns, up to thirty seconds after a state was stored without
    -- an error, that state with its new timestamp, under the strategy at hand.
    pub get-update_placement_state :
        (state : PlacementState) (w : W)
        → IsStore client
        → IsCodec
        → IsStateOf state
        → (update_placement_state client codec state w).0.0 ≡ ok tt
        → read_time (update_placement_state client codec state w).1
          ≤ (update_placement_state client codec state w).0.1.last_updated + 30 * second
        → (get_placement_state client codec o oc deployment strategy
            (update_placement_state client codec state w).1).0
          ≡ ok (record (update_placement_state client codec state w).0.1 {
            strategy = some strategy;
          })
    get-update_placement_state state w store codes_back same_name succeeds fresh =
        get_placement_state-IsWritten (update_placement_state client codec state w).0.1
          (update_placement_state client codec state w).1 codes_back
          (stamped_names state w same_name)
          (update_placement_state-IsWritten client codec state w store succeeds) fresh

    -- The end of a round of IncrementPodCount.
    abbrev pub write_counted :
        Text → PlacementState → W → (Result StateError (Unit {0}) × PlacementState) × W
    write_counted rule_key state = update_placement_state client codec (increment rule_key state)

    counted_state :
        (rule_key : Text) (state : PlacementState) (w : W)
        → ((write_counted rule_key state w).0.1.total_pods ≡ add64 state.total_pods (pos 1))
          × ((write_counted rule_key state w).0.1.pod_counts ≡ count_up rule_key state.pod_counts)
    unfolding update_placement_state increment
    counted_state rule_key state w = (refl, refl)

    counted_names :
        (rule_key : Text) (state : PlacementState)
        → IsStateOf state
        → IsStateOf (increment rule_key state)
    unfolding increment
    counted_names rule_key state h = h

    -- If requests that succeed leave the ConfigMap stored, and marshalled states are unmarshalled as
    -- they were, then two increments that start from the same state and are written one after the
    -- other, both without an error, leave the second one alone, as read up to thirty seconds later: the
    -- total is up by one, and the first increment is lost.
    pub write_counted_loses :
        (state : PlacementState) (first_key last_key : Text) (w : W)
        → IsStore client
        → IsCodec
        → IsStateOf state
        → (write_counted first_key state w).0.0 ≡ ok tt
        → (write_counted last_key state (write_counted first_key state w).1).0.0 ≡ ok tt
        → read_time (write_counted last_key state (write_counted first_key state w).1).1
          ≤ (write_counted last_key state (write_counted first_key state w).1).0.1.last_updated
            + 30 * second
        → (final : PlacementState) × ((get_placement_state client codec o oc deployment strategy
              (write_counted last_key state (write_counted first_key state w).1).1).0
            ≡ ok final)
          × (final.total_pods ≡ add64 state.total_pods (pos 1))
          × (final.pod_counts ≡ count_up last_key state.pod_counts)
    write_counted_loses state first_key last_key w store codes_back same_name _ succeeds fresh =
        let w' = (write_counted first_key state w).1 in
        let (total, counts) = counted_state last_key state w' in
        (
          record (write_counted last_key state w').0.1 { strategy = some strategy },
          get-update_placement_state (increment last_key state) w' store codes_back
              (counted_names last_key state same_name) succeeds fresh,
          total,
          counts,
        )
