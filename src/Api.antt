-- ===== src/Api.antt =====
-- The schema of PodPlacementPolicy (api/v1/podplacementpolicy_types.go). `F` is the type
-- of float64, `S` the library's type of label selectors, and a duration is its nanoseconds.
pub mod Memory
pub mod Stored
pub mod DeepCopy
pub mod Addresses
pub mod Apart
use kube_smart_scheduler.Prelude.{ℕ, Bool, Option, List}
use kube_smart_scheduler.Prelude.Int.{ℤ}
use kube_smart_scheduler.GoText.{Text}
use kube_smart_scheduler.GoMap.{Map}

pub record AffinityRuleSpec : Type 0 where
  pub kind : Text  -- the field Type
  pub label_selector : Map Text
  pub topology_key : Text
  pub required_during_scheduling : Bool
  pub weight : ℤ

pub record PlacementRuleSpec : Type 0 where
  pub weight : ℤ
  pub node_selector : Map Text
  pub affinity : List AffinityRuleSpec
  pub name : Text
  pub description : Text

pub record TimeWindowSpec : Type 0 where
  pub start_time : Text
  pub end_time : Text
  pub days : List Text
  pub timezone : Text

pub record RebalancePolicySpec (F : Type 0) : Type 0 where
  pub enabled : Bool
  pub drift_threshold : F
  pub check_interval : ℕ
  pub max_pods_per_rebalance : ℤ
  pub rebalance_window : Option TimeWindowSpec

pub record PlacementStrategySpec (F : Type 0) : Type 0 where
  pub base : ℤ
  pub rules : List PlacementRuleSpec
  pub rebalance_policy : Option (RebalancePolicySpec F)

pub record PodPlacementPolicySpec (F S : Type 0) : Type 0 where
  pub selector : Option S
  pub strategy : PlacementStrategySpec F
  pub enabled : Bool
  pub priority : ℤ

-- Conditions, of which each has the fields that the code sets: metav1.Condition.
pub record Condition : Type 0 where
  pub kind : Text  -- the field Type
  pub status : Text
  pub reason : Text
  pub message : Text
  pub last_transition_time : ℕ

pub record DeploymentReference (F : Type 0) : Type 0 where
  pub name : Text
  pub namespace : Text
  pub current_drift : F
  pub last_applied : Option ℕ

pub record PolicyStatistics (F : Type 0) : Type 0 where
  pub total_pods_managed : ℤ
  pub average_drift : F
  pub rebalance_count : ℤ
  pub last_updated : Option ℕ

pub record PodPlacementPolicyStatus (F : Type 0) : Type 0 where
  pub conditions : List Condition
  pub matched_deployments : List (DeploymentReference F)
  pub statistics : Option (PolicyStatistics F)
  pub last_rebalance : Option ℕ
  pub observed_generation : ℤ

-- The object's name, namespace and generation stand for its metadata.
pub record PodPlacementPolicy (F S : Type 0) : Type 0 where
  pub name : Text
  pub namespace : Text
  pub generation : ℤ
  pub spec : PodPlacementPolicySpec F S
  pub status : PodPlacementPolicyStatus F
