-- ===== src/Strategy.antt =====
-- The types of webhook/placement_strategy.go, and its key functions.
pub mod Parse
use kube_smart_scheduler.Prelude.{Bool, List, [], ◌∷◌, map, ◌++◌, length, ◌==◌, if◌then◌else◌}
use kube_smart_scheduler.Prelude.Int.{ℤ}
use kube_smart_scheduler.GoText.{Text, codes, join}
use kube_smart_scheduler.GoMap.{Map, Order, range}

pub record AffinityRule : Type 0 where
  pub kind : Text  -- the field Type, "affinity" or "anti-affinity"
  pub label_selector : Map Text
  pub topology_key : Text
  pub required_during_scheduling : Bool

pub record PlacementRule : Type 0 where
  pub weight : ℤ
  pub node_selector : Map Text
  pub affinity : List AffinityRule

pub record PlacementStrategy : Type 0 where
  pub base : ℤ
  pub rules : List PlacementRule

-- fmt.Sprintf("%s=%s", key, value)
abbrev pub key_value : Text × Text → Text
key_value (key, value) = key ++ b'=' ∷ value

-- The entries are visited in the order of this call, and not sorted.
unfoldable pub node_selector_to_string : Order Text → Map Text → Text
node_selector_to_string o node_selector =
    if length node_selector == 0
    then []
    else join (codes ",") (map key_value (range o node_selector))

unfoldable pub rule_to_string : Order Text → PlacementRule → Text
rule_to_string o rule = node_selector_to_string o rule.node_selector
