-- ===== src/Tests/StoreExamples.antt =====
-- The theorems on the stored state, over a server that holds one ConfigMap.
use kube_smart_scheduler.Prelude.{
  ℕ, ◌+◌, ◌*◌, ◌≤◌, ◌≡◌, refl, sym, ap, ◌∙◌, Option, none, some, [], ◌∷◌, ◌++◌, length, take, arith,
}
use kube_smart_scheduler.Prelude.Int.{ℤ, pos}
use kube_smart_scheduler.Prelude.Int64.{add64, bits, signed}
use kube_smart_scheduler.Prelude.Result.{Result, ok, err}
use kube_smart_scheduler.GoText.{Text, codes, drop, text_eq}
use kube_smart_scheduler.GoMap.{Map, insert, get_or, lookup, in_order}
use kube_smart_scheduler.Strategy.{PlacementStrategy}
use kube_smart_scheduler.Client.{ApiError, ConfigMap, not_found, other, Act, Client}
use kube_smart_scheduler.Counting.{count_up}
use kube_smart_scheduler.State.{PlacementState, StateError, Codec, second}
use kube_smart_scheduler.State.Load.{
  get_placement_state, update_placement_state, save, create_or_update,
}
use kube_smart_scheduler.State.Increment.{increment, cleanup_stale_states}
use kube_smart_scheduler.State.Kept.{with_delete, cleanup_stale_states_same}
use kube_smart_scheduler.State.Stored.{IsStore}
use kube_smart_scheduler.State.ReadBack.{
  IsCodec, read_time, write_counted, get-update_placement_state, write_counted_loses,
}
use kube_smart_scheduler.Tests.Values.{cluster, plain_codec, web_strategy, web_deployment}

-- The world is the ConfigMap.
abbrev store : Client (Option ConfigMap)
store = record {
  now = λ w. (1_000, w);
  sleep = λ duration w. (tt, w);
  get_config_map =
      λ namespace name w. (elim w [ none ↦ err not_found | some config_map ↦ ok config_map ], w);
  create_config_map = λ config_map w. (ok tt, some config_map);
  update_config_map = λ config_map w. (ok tt, some config_map);
  delete_config_map = λ config_map w. (ok tt, none);
  list_config_maps = λ namespace labels w. (ok [], w);
  get_deployment = λ namespace name w. (ok web_deployment, w);
  update_deployment = λ deployment w. (ok tt, w);
  get_replica_set = λ namespace name w. (err not_found, w);
  list_pods = λ namespace labels w. (ok [], w);
  delete_pod = λ pod w. (ok tt, w);
  create_event = λ event w. (ok tt, w);
}

store-IsStore : IsStore store
store-IsStore =
    ((λ config_map w done. (config_map, refl, refl)), λ config_map w done. (config_map, refl, refl))

-- States without a strategy, with one count, for the rule without a selector.
abbrev encode : Text → Text → Option PlacementStrategy → Map ℤ → ℕ → ℤ → Option Text
encode name namespace none (([], pos n) ∷ []) time (pos total) =
    some (n ∷ total ∷ time ∷ length namespace ∷ (namespace ++ name))
encode name namespace _ _ time _ = none

abbrev stored : ℕ → ℕ → ℕ → Text → Text → PlacementState
stored n total time name namespace = record {
  deployment_name = name;
  deployment_namespace = namespace;
  strategy = none;
  pod_counts = ([], pos n) ∷ [];
  last_updated = time;
  total_pods = pos total;
}

abbrev decode : Text → Option PlacementState
decode (n ∷ total ∷ time ∷ size ∷ names) =
    some (stored n total time (drop size names) (take size names))
decode _ = none

abbrev small_codec : Codec
small_codec = record {
  marshal = λ s.
      encode s.deployment_name s.deployment_namespace s.strategy s.pod_counts s.last_updated
        s.total_pods;
  unmarshal = decode;
  format_time = λ time. [];
}

take-length : (xs ys : Text) → take (length xs) (xs ++ ys) ≡ xs
take-length [] ys = refl
take-length (x ∷ xs) ys = ap (λ r. x ∷ r) (take-length xs ys)

drop-length : (xs ys : Text) → drop (length xs) (xs ++ ys) ≡ ys
unfolding drop
drop-length [] ys = refl
drop-length (x ∷ xs) ys = drop-length xs ys

abbrev decode_some : Option Text → Option PlacementState
decode_some none = none
decode_some (some text) = decode text

decode-encode :
    (name namespace : Text) (strategy : Option PlacementStrategy) (counts : Map ℤ) (time : ℕ)
    (total : ℤ) (text : Text)
    → encode name namespace strategy counts time total ≡ some text
    → decode text
      ≡ some (record {
        deployment_name = name;
        deployment_namespace = namespace;
        strategy = strategy;
        pod_counts = counts;
        last_updated = time;
        total_pods = total;
      })
decode-encode name namespace none (([], pos n) ∷ []) time (pos total) text e =
    sym (ap decode_some e)
    ∙ ap (λ s. some (stored n total time s (take (length namespace) (namespace ++ name))))
        (drop-length namespace name)
    ∙ ap (λ s. some (stored n total time name s)) (take-length namespace name)
decode-encode name namespace _ _ time _ text e = cc

small_codec-IsCodec : IsCodec store small_codec
small_codec-IsCodec state text e =
    decode-encode state.deployment_name state.deployment_namespace state.strategy state.pod_counts
      state.last_updated state.total_pods text e

abbrev empty_state : PlacementState
empty_state = stored 0 0 0 (codes "web") (codes "default")

abbrev count_one :
    Option ConfigMap → (Result StateError (Unit {0}) × PlacementState) × Option ConfigMap
count_one =
    write_counted store small_codec in_order in_order web_deployment web_strategy [] empty_state

first_write : (count_one none).0.0 ≡ ok tt
unfolding update_placement_state save create_or_update increment count_up insert get_or lookup
    text_eq add64 bits signed
first_write = refl

last_write : (count_one (count_one none).1).0.0 ≡ ok tt
unfolding update_placement_state save create_or_update increment count_up insert get_or lookup
    text_eq add64 bits signed
last_write = refl

read_in_time :
    read_time store small_codec in_order in_order web_deployment web_strategy
      (count_one (count_one none).1).1
    ≤ (count_one (count_one none).1).0.1.last_updated + 30 * second
unfolding update_placement_state save create_or_update increment count_up insert get_or lookup
    text_eq add64 bits signed
read_in_time = omega arith

write_counted_loses_example :
    (final : PlacementState) × ((get_placement_state store small_codec in_order in_order
        web_deployment web_strategy
        (count_one (count_one none).1).1).0
      ≡ ok final)
    × (final.total_pods ≡ add64 empty_state.total_pods (pos 1))
    × (final.pod_counts ≡ count_up [] empty_state.pod_counts)
write_counted_loses_example =
    write_counted_loses store small_codec in_order in_order web_deployment web_strategy empty_state
      [] [] none store-IsStore small_codec-IsCodec (refl, refl) first_write last_write read_in_time

write_empty : (update_placement_state store small_codec empty_state none).0.0 ≡ ok tt
unfolding update_placement_state save create_or_update increment count_up insert get_or lookup
    text_eq add64 bits signed
write_empty = refl

read_empty_in_time :
    read_time store small_codec in_order in_order web_deployment web_strategy
      (update_placement_state store small_codec empty_state none).1
    ≤ (update_placement_state store small_codec empty_state none).0.1.last_updated + 30 * second
unfolding update_placement_state save create_or_update increment count_up insert get_or lookup
    text_eq add64 bits signed
read_empty_in_time = omega arith

get-update_placement_state_example :
    (get_placement_state store small_codec in_order in_order web_deployment web_strategy
      (update_placement_state store small_codec empty_state none).1).0
    ≡ ok (record (update_placement_state store small_codec empty_state none).0.1 {
      strategy = some web_strategy;
    })
get-update_placement_state_example =
    get-update_placement_state store small_codec in_order in_order web_deployment web_strategy
      empty_state none store-IsStore small_codec-IsCodec (refl, refl) write_empty read_empty_in_time

abbrev web_config_map : ConfigMap
web_config_map = record {
  name = codes "smart-scheduler-web";
  namespace = codes "default";
  labels = (codes "smart-scheduler.io/deployment", codes "web") ∷ [];
  contents = [];
  resource_version = [];
}

abbrev holding : Client ℕ
holding = record cluster { list_config_maps = λ namespace labels w. (ok (web_config_map ∷ []), w) }

abbrev count_deletion : ConfigMap → Act ℕ (Result ApiError (Unit {0}))
count_deletion config_map w = (err other, w + 100)

cleanup_stale_states_same_example :
    cleanup_stale_states holding plain_codec (codes "default") 0
    ≡ cleanup_stale_states
        (with_delete holding plain_codec count_deletion)
        plain_codec
        (codes "default")
        0
cleanup_stale_states_same_example =
    cleanup_stale_states_same holding plain_codec count_deletion (codes "default") 0
      (λ namespace name w e. cc)
