-- ===== src/State/Totals.antt =====
-- The counts of a deployment and their total, in the states that the state manager hands out.
use kube_smart_scheduler.Prelude.{
  ◌≡◌, refl, sym, ap, ◌∙◌, ◌⊎◌, inl, inr, Bool, true, false, Option, none, some, if◌then◌else◌,
}
use kube_smart_scheduler.Prelude.Int.{ℤ, pos}
use kube_smart_scheduler.Prelude.Int64.{add64}
use kube_smart_scheduler.Prelude.Result.{Result, ok, err}
use kube_smart_scheduler.GoText.{Text, codes, text_eq}
use kube_smart_scheduler.GoMap.{Map, get_or, lookup, Order, IsOrder}
use kube_smart_scheduler.GoMap.Laws.{get_or-insert}
use kube_smart_scheduler.Strategy.{PlacementStrategy}
use kube_smart_scheduler.Kube.{Deployment}
use kube_smart_scheduler.Client.{ApiError, not_found, conflict, other, ConfigMap, Client}
use kube_smart_scheduler.Client.Always.{Always, Always-bind}
use kube_smart_scheduler.Placement.{total_pods}
use kube_smart_scheduler.Placement.Totals.{total_pods-count_up, total_pods-range}
use kube_smart_scheduler.Counting.{count_up}
use kube_smart_scheduler.State.{PlacementState, StateError, Codec, config_map_name}
use kube_smart_scheduler.State.Load.{
  get_current_pod_counts, initial_or, create_initial_state, refresh_with, counts_if_stale, refresh,
  from_state, from_text, from_config_map, get_placement_state, update_placement_state,
}
use kube_smart_scheduler.State.Increment.{increment}

-- The total is the sum of the counts.
abbrev pub IsTotalled : PlacementState → Type 0
IsTotalled state = state.total_pods ≡ total_pods state.pod_counts (pos 0)

-- Counting a pod keeps the total the sum of the counts; the count of the pod's key goes up by one and
-- the counts of the other keys stay.
pub increment-IsTotalled :
    (rule_key key : Text) (state : PlacementState)
    → IsTotalled state
    → IsTotalled (increment rule_key state)
      × (get_or key (increment rule_key state).pod_counts (pos 0) ≡ (
          if text_eq rule_key key
          then add64 (get_or rule_key state.pod_counts (pos 0)) (pos 1)
          else get_or key state.pod_counts (pos 0)))
unfolding increment count_up
increment-IsTotalled rule_key key state h = (
  ap (λ t. add64 t (pos 1)) h ∙ sym (total_pods-count_up rule_key state.pod_counts (pos 0)),
  get_or-insert rule_key key _ (pos 0) state.pod_counts,
)

module _ {W : Type 0} (client : Client W) (codec : Codec) where
  -- The state is one that could be read, under the strategy at hand.
  abbrev pub IsStored : PlacementStrategy → PlacementState → Type 0
  IsStored strategy state =
      (state_data : Text) × (stored : PlacementState) × (codec.unmarshal state_data ≡ some stored)
      × (state ≡ record stored { strategy = some strategy })

  abbrev pub IsCurrent : PlacementStrategy → Result StateError PlacementState → Type 0
  IsCurrent strategy (err e) = Unit
  IsCurrent strategy (ok state) =
      (state.strategy ≡ some strategy) × (IsTotalled state ⊎ IsStored strategy state)

  module _ (o : Order Text) (oc : Order ℤ) (orders : IsOrder oc) (deployment : Deployment)
      (strategy : PlacementStrategy) where
    initial_or-IsCurrent :
        (counts : Result StateError (Map ℤ))
        → Always (IsCurrent strategy) (initial_or client codec oc deployment strategy counts)
    unfolding initial_or update_placement_state
    initial_or-IsCurrent (err e) w = tt
    initial_or-IsCurrent (ok counts) w = (refl, inl (total_pods-range oc counts (pos 0) orders))

    create_initial_state-IsCurrent :
        Always (IsCurrent strategy) (create_initial_state client codec o oc deployment strategy)
    unfolding create_initial_state
    create_initial_state-IsCurrent =
        Always-bind (IsCurrent strategy) (get_current_pod_counts client codec o deployment strategy)
          (initial_or client codec oc deployment strategy) initial_or-IsCurrent

    refresh_with-IsCurrent :
        (state : PlacementState) (counts : Result StateError (Map ℤ))
        → IsCurrent strategy (ok state)
        → Always (λ s. IsCurrent strategy (ok s)) (refresh_with client codec oc state counts)
    unfolding refresh_with
    refresh_with-IsCurrent state (err e) h w = h
    refresh_with-IsCurrent state (ok counts) h w =
        (h.0, inl (total_pods-range oc counts (pos 0) orders))

    counts_if_stale-IsCurrent :
        (state : PlacementState) (stale : Bool)
        → IsCurrent strategy (ok state)
        → Always
            (λ s. IsCurrent strategy (ok s))
            (counts_if_stale client codec o oc deployment strategy state stale)
    unfolding counts_if_stale
    counts_if_stale-IsCurrent state true h w = refresh_with-IsCurrent state _ h _
    counts_if_stale-IsCurrent state false h w = h

    from_state-IsCurrent :
        (state_data : Text) (stored : Option PlacementState)
        → codec.unmarshal state_data ≡ stored
        → Always (IsCurrent strategy) (from_state client codec o oc deployment strategy stored)
    unfolding from_state refresh
    from_state-IsCurrent state_data none e w = create_initial_state-IsCurrent w
    from_state-IsCurrent state_data (some stored) e w =
        counts_if_stale-IsCurrent (record stored { strategy = some strategy }) _
          (refl, inr (state_data, stored, e, refl)) _

    from_config_map-IsCurrent :
        (found : Result ApiError ConfigMap)
        → Always (IsCurrent strategy) (from_config_map client codec o oc deployment strategy found)
    unfolding from_config_map from_text
    from_config_map-IsCurrent (err not_found) = create_initial_state-IsCurrent
    from_config_map-IsCurrent (err conflict) = λ w. tt
    from_config_map-IsCurrent (err other) = λ w. tt
    from_config_map-IsCurrent (ok config_map) =
        at (lookup (codes "placement-state") config_map.contents)
      where
        at :
            (contents : Option Text)
            → Always (IsCurrent strategy) (from_text client codec o oc deployment strategy contents)
        at none = create_initial_state-IsCurrent
        at (some state_data) = from_state-IsCurrent state_data _ refl

    -- A state that GetPlacementState returns has the strategy at hand, and its total is the sum of its
    -- counts, whatever the API server answers and in whatever order the counts are visited; or the
    -- state is, but for the strategy, one that unmarshalling a text gives.
    pub get_placement_state-IsCurrent :
        (w : W) → IsCurrent strategy (get_placement_state client codec o oc deployment strategy w).0
    unfolding get_placement_state
    get_placement_state-IsCurrent =
        Always-bind (IsCurrent strategy)
          (client.get_config_map deployment.namespace (config_map_name deployment.name))
          (from_config_map client codec o oc deployment strategy) from_config_map-IsCurrent
