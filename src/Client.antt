-- ===== src/Client.antt =====
-- What the program asks of the Kubernetes API and of the clock. The API server is not part of the
-- program: it is a parameter, over a type `W` of worlds, and so is the clock. An action reads and
-- changes the world.
pub mod Always
pub mod Watched
use kube_smart_scheduler.Prelude.{ℕ, Bool, true, false, List}
use kube_smart_scheduler.Prelude.Result.{Result}
use kube_smart_scheduler.GoText.{Text}
use kube_smart_scheduler.GoMap.{Map}
use kube_smart_scheduler.Kube.{Pod, ReplicaSet, Deployment}

-- By the reason that apierrors.IsNotFound and apierrors.IsConflict look for.
pub data ApiError : Type 0 where
  not_found conflict other : ApiError

pub record ConfigMap : Type 0 where
  pub name : Text
  pub namespace : Text
  pub labels : Map Text
  pub contents : Map Text  -- the field Data
  pub resource_version : Text

-- The event that createRebalanceEvent creates, without the fields that are constants.
pub record RebalanceEvent : Type 0 where
  pub name_seconds : ℕ  -- time.Now().Unix(), in the name
  pub namespace : Text
  pub deployment_name : Text
  pub reason : Text
  pub message : Text

abbrev pub Act {ℓ κ} : Type ℓ → Type κ → Type (ℓ ⊔ κ)
Act W A = W → A × W

infixl 5 ◌>>=◌ ◌>>◌
abbrev pub ◌>>=◌ {ℓ κ ι} :
    {W : Type ℓ} {A : Type κ} {B : Type ι} → Act W A → (A → Act W B) → Act W B
◌>>=◌ m f w = let (a, w') = m w in f a w'

abbrev pub ◌>>◌ {ℓ κ ι} : {W : Type ℓ} {A : Type κ} {B : Type ι} → Act W A → Act W B → Act W B
m >> k = m >>= λ _. k

abbrev pub pure {ℓ κ} : {W : Type ℓ} {A : Type κ} → A → Act W A
pure a w = (a, w)

-- Objects are named by a namespace and a name; a list is asked for by a namespace and labels.
pub record Client (W : Type 0) : Type 0 where
  pub now : Act W ℕ  -- in nanoseconds
  pub sleep : ℕ → Act W (Unit {0})
  pub get_config_map : Text → Text → Act W (Result ApiError ConfigMap)
  pub create_config_map : ConfigMap → Act W (Result ApiError (Unit {0}))
  pub update_config_map : ConfigMap → Act W (Result ApiError (Unit {0}))
  pub delete_config_map : ConfigMap → Act W (Result ApiError (Unit {0}))
  pub list_config_maps : Text → Map Text → Act W (Result ApiError (List ConfigMap))
  pub get_deployment : Text → Text → Act W (Result ApiError Deployment)
  pub update_deployment : Deployment → Act W (Result ApiError (Unit {0}))
  pub get_replica_set : Text → Text → Act W (Result ApiError ReplicaSet)
  pub list_pods : Text → Map Text → Act W (Result ApiError (List Pod))
  pub delete_pod : Pod → Act W (Result ApiError (Unit {0}))
  pub create_event : RebalanceEvent → Act W (Result ApiError (Unit {0}))
