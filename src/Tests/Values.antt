-- ===== src/Tests/Values.antt =====
-- A deployment of a web server with two rules, a cluster that holds two of its pods, and the policy
-- that asks for the same strategy.
use mathlib.Core.List.Permᴰ
use kube_smart_scheduler.Prelude.{ℕ, suc, ◌++◌, true, Option, none, some, [], ◌∷◌}
use kube_smart_scheduler.Prelude.Int.{ℤ, pos}
use kube_smart_scheduler.Prelude.Result.{ok, err}
use kube_smart_scheduler.GoText.{Text, codes}
use kube_smart_scheduler.GoMap.{Map, IsOrder, in_order}
use kube_smart_scheduler.Strategy.{PlacementRule, PlacementStrategy}
use kube_smart_scheduler.Api.{PlacementStrategySpec}
use kube_smart_scheduler.Kube.{Pod, PodPhase, Deployment}
use kube_smart_scheduler.Client.{not_found, Client}
use kube_smart_scheduler.State.{Codec}

abbrev pub web_annotation : Text
web_annotation = codes "base=1,weight=1,nodeSelector=node:ondemand;weight=2,nodeSelector=node:spot"

abbrev pub rule_on : Text → ℕ → PlacementRule
rule_on value weight = record {
  weight = pos weight;
  node_selector = (codes "node", value) ∷ [];
  affinity = [];
}

abbrev pub ondemand : PlacementRule
ondemand = rule_on (codes "ondemand") 1

abbrev pub spot : PlacementRule
spot = rule_on (codes "spot") 2

abbrev pub web_strategy : PlacementStrategy
web_strategy = record { base = pos 1; rules = ondemand ∷ spot ∷ [] }

abbrev pub web_spec : PlacementStrategySpec ℕ
web_spec = record {
  base = pos 1;
  rules =
      record {
        weight = pos 1;
        node_selector = (codes "node", codes "ondemand") ∷ [];
        affinity =
            record {
              kind = codes "anti-affinity";
              label_selector = (codes "app", codes "web") ∷ [];
              topology_key = codes "zone";
              required_during_scheduling = true;
              weight = pos 0;
            }
            ∷ [];
        name = [];
        description = [];
      }
      ∷ [];
  rebalance_policy = none;
}

abbrev pub two_labels_spec : PlacementStrategySpec ℕ
two_labels_spec = record {
  base = pos 0;
  rules =
      record {
        weight = pos 1;
        node_selector = (codes "node", codes "spot") ∷ (codes "arch", codes "arm") ∷ [];
        affinity = [];
        name = [];
        description = [];
      }
      ∷ [];
  rebalance_policy = none;
}

abbrev pub web_counts : ℕ → ℕ → Map ℤ
web_counts on_demand on_spot =
    (codes "node=ondemand", pos on_demand) ∷ (codes "node=spot", pos on_spot) ∷ []

abbrev pub pod_on : Map Text → PodPhase → Pod
pod_on node_selector phase = record {
  name = codes "web-1";
  namespace = codes "default";
  annotations = [];
  owner_references = record { kind = codes "ReplicaSet"; name = codes "web-rs" } ∷ [];
  node_selector = node_selector;
  affinity = none;
  phase = phase;
  deletion_timestamp = none;
}

abbrev pub new_pod : Pod
new_pod = pod_on [] PodPhase.pending

abbrev pub spot_pod : Pod
spot_pod = pod_on ((codes "node", codes "spot") ∷ []) PodPhase.running

abbrev pub processed_pod : Pod
processed_pod = record new_pod {
  annotations = (codes "smart-scheduler.io/processed", codes "true") ∷ [];
}

abbrev pub web_deployment : Deployment
web_deployment = record {
  name = codes "web";
  namespace = codes "default";
  annotations = (codes "smart-scheduler.io/schedule-strategy", web_annotation) ∷ [];
  labels = [];
  match_labels = (codes "app", codes "web") ∷ [];
  replicas = none;
  generation = pos 1;
  ready_replicas = pos 0;
  available_replicas = pos 0;
}

-- An API server that holds the deployment and a spot pod, accepts every write and forgets it.
abbrev pub cluster : Client ℕ
cluster = record {
  now = λ w. (1_000, w);
  sleep = λ duration w. (tt, w);
  get_config_map = λ namespace name w. (err not_found, w);
  create_config_map = λ config_map w. (ok tt, suc w);
  update_config_map = λ config_map w. (ok tt, suc w);
  delete_config_map = λ config_map w. (ok tt, suc w);
  list_config_maps = λ namespace labels w. (ok [], w);
  get_deployment = λ namespace name w. (ok web_deployment, w);
  update_deployment = λ deployment w. (ok tt, suc w);
  get_replica_set = λ namespace name w. (
    ok (record {
      owner_references = record { kind = codes "Deployment"; name = codes "web" } ∷ [];
    }),
    w,
  );
  list_pods = λ namespace labels w. (ok (spot_pod ∷ []), w);
  delete_pod = λ pod w. (ok tt, suc w);
  create_event = λ event w. (ok tt, suc w);
}

abbrev pub plain_codec : Codec
plain_codec = record {
  marshal = λ state. some [];
  unmarshal = λ text. none;
  format_time = λ time. [];
}

abbrev pub values : Map Text → Text
values [] = []
values ((key, value) ∷ entries) = value ++ values entries

-- The text of a pod: its selector's values.
abbrev pub pod_text : Pod → Option Text
pod_text pod = some (values pod.node_selector)

pub in_order-IsOrder : {V : Type 0} → IsOrder (in_order {V = V})
in_order-IsOrder path m = Permᴰ.refl m
