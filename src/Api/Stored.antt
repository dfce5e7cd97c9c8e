-- ===== src/Api/Stored.antt =====
-- The objects of api/v1/podplacementpolicy_types.go as they lie in memory, with the addresses of their
-- pointers, slices and maps. `F` is float64; `S`, `C`, `M` and `L` are LabelSelector, Condition,
-- ObjectMeta and ListMeta of metav1, and a metav1.Time is its nanoseconds.
use kube_smart_scheduler.Prelude.{ℕ, Bool, Option, List}
use kube_smart_scheduler.Prelude.Int.{ℤ}
use kube_smart_scheduler.GoText.{Text}
use kube_smart_scheduler.GoMap.{Map}
use kube_smart_scheduler.Api.Memory.{Ref}

pub record StoredAffinityRule : Type 0 where
  pub kind : Text  -- the field Type
  pub label_selector : Option (Ref (Map Text))
  pub topology_key : Text
  pub required_during_scheduling : Bool
  pub weight : ℤ

pub record StoredPlacementRule : Type 0 where
  pub weight : ℤ
  pub node_selector : Option (Ref (Map Text))
  pub affinity : Option (Ref (List StoredAffinityRule))
  pub name : Text
  pub description : Text

pub record StoredTimeWindow : Type 0 where
  pub start_time : Text
  pub end_time : Text
  pub days : Option (Ref (List Text))
  pub timezone : Text

pub record StoredRebalancePolicy (F : Type 0) : Type 0 where
  pub enabled : Bool
  pub drift_threshold : F
  pub check_interval : ℕ
  pub max_pods_per_rebalance : ℤ
  pub rebalance_window : Option (Ref StoredTimeWindow)

pub record StoredStrategy (F : Type 0) : Type 0 where
  pub base : ℤ
  pub rules : Option (Ref (List StoredPlacementRule))
  pub rebalance_policy : Option (Ref (StoredRebalancePolicy F))

pub record StoredSpec (F S : Type 0) : Type 0 where
  pub selector : Option (Ref S)
  pub strategy : StoredStrategy F
  pub enabled : Bool
  pub priority : ℤ

pub record StoredReference (F : Type 0) : Type 0 where
  pub name : Text
  pub namespace : Text
  pub current_drift : F
  pub last_applied : Option (Ref ℕ)

pub record StoredStatistics (F : Type 0) : Type 0 where
  pub total_pods_managed : ℤ
  pub average_drift : F
  pub rebalance_count : ℤ
  pub last_updated : Option (Ref ℕ)

pub record StoredStatus (F C : Type 0) : Type 0 where
  pub conditions : Option (Ref (List C))
  pub matched_deployments : Option (Ref (List (StoredReference F)))
  pub statistics : Option (Ref (StoredStatistics F))
  pub last_rebalance : Option (Ref ℕ)
  pub observed_generation : ℤ

-- metav1.TypeMeta
pub record TypeMeta : Type 0 where
  pub kind : Text
  pub api_version : Text

pub record StoredPolicy (F S C M : Type 0) : Type 0 where
  pub type_meta : TypeMeta
  pub object_meta : M
  pub spec : StoredSpec F S
  pub status : StoredStatus F C

pub record StoredPolicyList (F S C M L : Type 0) : Type 0 where
  pub type_meta : TypeMeta
  pub list_meta : L
  pub items : Option (Ref (List (StoredPolicy F S C M)))
