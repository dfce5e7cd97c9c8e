-- ===== src/Kube.antt =====
-- The fields of Kubernetes objects that the program reads or writes. A nil map reads as the empty
-- one; the tests for a nil map in the program guard a write, or stand before a lookup that fails on
-- the empty map alike.
use kube_smart_scheduler.Prelude.{ℕ, Bool, Option, none, some, false, true, List}
use kube_smart_scheduler.Prelude.Int.{ℤ}
use kube_smart_scheduler.GoText.{Text}
use kube_smart_scheduler.GoMap.{Map}

pub record OwnerReference : Type 0 where
  pub kind : Text
  pub name : Text

-- corev1.PodAffinityTerm, its label selector given by MatchLabels
pub record PodAffinityTerm : Type 0 where
  pub match_labels : Map Text
  pub topology_key : Text

pub record WeightedPodAffinityTerm : Type 0 where
  pub weight : ℤ
  pub pod_affinity_term : PodAffinityTerm

-- corev1.PodAffinity, and corev1.PodAntiAffinity with the same fields
pub record PodAffinity : Type 0 where
  pub required : List PodAffinityTerm
  pub preferred : List WeightedPodAffinityTerm

-- corev1.Affinity; its NodeAffinity is not touched
pub record Affinity : Type 0 where
  pub pod_affinity : Option PodAffinity
  pub pod_anti_affinity : Option PodAffinity

pub data PodPhase : Type 0 where
  pending running succeeded failed unknown : PodPhase

pub record Pod : Type 0 where
  pub name : Text
  pub namespace : Text
  pub annotations : Map Text
  pub owner_references : List OwnerReference
  pub node_selector : Map Text  -- Spec.NodeSelector
  pub affinity : Option Affinity  -- Spec.Affinity
  pub phase : PodPhase  -- Status.Phase
  pub deletion_timestamp : Option ℕ

pub record ReplicaSet : Type 0 where
  pub owner_references : List OwnerReference

pub record Deployment : Type 0 where
  pub name : Text
  pub namespace : Text
  pub annotations : Map Text
  pub labels : Map Text
  pub match_labels : Map Text  -- Spec.Selector.MatchLabels
  pub replicas : Option ℕ  -- the pointer Spec.Replicas: the address of the number, or nil
  pub generation : ℤ
  pub ready_replicas : ℤ  -- Status
  pub available_replicas : ℤ

abbrev pub is_running : PodPhase → Bool
is_running PodPhase.running = true
is_running _ = false

abbrev pub is_pending : PodPhase → Bool
is_pending PodPhase.pending = true
is_pending _ = false

abbrev pub is_nil {ℓ} : {A : Type ℓ} → Option A → Bool
is_nil none = true
is_nil (some a) = false
