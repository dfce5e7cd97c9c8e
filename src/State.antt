-- ===== src/State.antt =====
-- The state manager (webhook/state_manager.go): the counts of a deployment, kept in a ConfigMap.
-- Logging is left out. encoding/json and time.Format are parameters.
pub mod Load
pub mod Increment
pub mod Totals
pub mod Stored
pub mod ReadBack
pub mod Kept
pub mod Silent
pub mod Waits
use kube_smart_scheduler.Prelude.{
  ℕ, zero, suc, ◌+◌, ◌*◌, ◌≡◌, ap, Bool, true, false, Option, none, some, List, [], ◌∷◌, ◌++◌, ltb,
  if◌then◌else◌,
}
use kube_smart_scheduler.Prelude.Int.{ℤ, pos}
use kube_smart_scheduler.Prelude.Int64.{add64}
use kube_smart_scheduler.Prelude.Result.{Result, ok, err, ok-injective}
use kube_smart_scheduler.GoText.{Text, codes}
use kube_smart_scheduler.GoMap.{Map, lookup, get_or, Order, ◌▹◌, range}
use kube_smart_scheduler.Strategy.{PlacementRule, PlacementStrategy}
use kube_smart_scheduler.Strategy.Parse.{ParseError, parse_placement_strategy}
use kube_smart_scheduler.Kube.{Pod, Deployment}
use kube_smart_scheduler.Client.{
  ApiError, not_found, conflict, other, ConfigMap, Act, ◌>>=◌, ◌>>◌, pure, Client,
}
use kube_smart_scheduler.Placement.{total_pods}
use kube_smart_scheduler.Counting.{counts_of, count_up}

pub record PlacementState : Type 0 where
  pub deployment_name : Text
  pub deployment_namespace : Text
  pub strategy : Option PlacementStrategy
  pub pod_counts : Map ℤ
  pub last_updated : ℕ  -- in nanoseconds
  pub total_pods : ℤ

-- Errors by the messages that wrap them.
pub data StateError : Type 0 where
  list_pods_failed : ApiError → StateError
  initial_counts_failed : StateError → StateError
  get_failed : ApiError → StateError
  marshal_failed : StateError
  create_failed get_existing_failed update_failed : ApiError → StateError
  parse_failed : ParseError → StateError
  get_state_failed : StateError → StateError
  list_config_maps_failed : ApiError → StateError
  retries_exhausted : ℕ → StateError

abbrev is_conflict_reason : ApiError → Bool
is_conflict_reason conflict = true
is_conflict_reason _ = false

-- apierrors.IsConflict, which looks through the wrapping
unfoldable pub is_conflict : StateError → Bool
is_conflict (list_pods_failed e) = is_conflict_reason e
is_conflict (initial_counts_failed e) = is_conflict e
is_conflict (get_failed e) = is_conflict_reason e
is_conflict (create_failed e) = is_conflict_reason e
is_conflict (get_existing_failed e) = is_conflict_reason e
is_conflict (update_failed e) = is_conflict_reason e
is_conflict (get_state_failed e) = is_conflict e
is_conflict (list_config_maps_failed e) = is_conflict_reason e
is_conflict _ = false

-- json.Marshal and json.Unmarshal at PlacementState, and time.Format at RFC3339
pub record Codec : Type 0 where
  pub marshal : PlacementState → Option Text
  pub unmarshal : Text → Option PlacementState
  pub format_time : ℕ → Text

abbrev pub second : ℕ
second = 1_000_000_000

abbrev pub millisecond : ℕ
millisecond = 1_000_000

abbrev pub config_map_name : Text → Text
config_map_name deployment_name = codes "smart-scheduler-" ++ deployment_name

abbrev pub wrap_err {ℓ κ ι} :
    {D : Type ℓ} {E : Type κ} {A : Type ι} → (D → E) → Result D A → Result E A
wrap_err f (ok a) = ok a
wrap_err f (err e) = err (f e)

pub wrap_err-ok {ℓ κ ι} :
    {D : Type ℓ} {E : Type κ} {A : Type ι} (f : D → E) (r : Result D A) {a : A}
    → wrap_err f r ≡ ok a
    → r ≡ ok a
wrap_err-ok f (ok b) e = ap ok (ok-injective e)
wrap_err-ok f (err d) e = cc
