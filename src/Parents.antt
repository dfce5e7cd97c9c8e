-- ===== src/Parents.antt =====
-- From a pod to its deployment, by owner references: findParentDeployment of webhook/mutate_pod.go
-- and mapPodToDeployment of controllers/rebalance_controller.go.
pub mod Owned
use kube_smart_scheduler.Prelude.{Option, none, some, List, [], ◌∷◌, if◌then◌else◌}
use kube_smart_scheduler.Prelude.Result.{Result, ok, err}
use kube_smart_scheduler.GoText.{Text, codes, text_eq}
use kube_smart_scheduler.Kube.{OwnerReference, Pod, ReplicaSet, Deployment}
use kube_smart_scheduler.Client.{ApiError, Act, ◌>>=◌, pure, Client}

module _ {W : Type 0} (client : Client W) where
  open client use {get_deployment, get_replica_set}

  pub found_or : Act W (Option Deployment) → Result ApiError Deployment → Act W (Option Deployment)
  found_or rest (ok deployment) = pure (some deployment)
  found_or rest (err e) = rest

  -- The loop over the owners of a ReplicaSet.
  pub find_deployment :
      Text → List OwnerReference → Act W (Option Deployment) → Act W (Option Deployment)
  unfolding found_or
  find_deployment namespace [] rest = rest
  find_deployment namespace (owner ∷ owners) rest =
      let others = find_deployment namespace owners rest in
      if text_eq owner.kind (codes "Deployment")
      then (get_deployment namespace owner.name >>= found_or others)
      else others

  pub in_replica_set :
      Text → Act W (Option Deployment) → Result ApiError ReplicaSet → Act W (Option Deployment)
  unfolding find_deployment
  in_replica_set namespace rest (err e) = rest
  in_replica_set namespace rest (ok rs) = find_deployment namespace rs.owner_references rest

  pub find_parent : Text → List OwnerReference → Act W (Option Deployment)
  unfolding in_replica_set
  find_parent namespace [] = pure none
  find_parent namespace (owner ∷ owners) =
      let others = find_parent namespace owners in
      if text_eq owner.kind (codes "ReplicaSet")
      then (get_replica_set namespace owner.name >>= in_replica_set namespace others)
      else others

  -- findParentDeployment: a failed request is passed over, and no error is ever returned.
  unfoldable pub find_parent_deployment : Pod → Act W (Option Deployment)
  unfolding find_parent
  find_parent_deployment pod = find_parent pod.namespace pod.owner_references

  -- The first owner that is a deployment, by name.
  deployment_owner : List OwnerReference → Option Text
  deployment_owner [] = none
  deployment_owner (owner ∷ owners) =
      if text_eq owner.kind (codes "Deployment") then some owner.name else deployment_owner owners

  request_or : Text → Act W (List (Text × Text)) → Option Text → Act W (List (Text × Text))
  request_or namespace rest none = rest
  request_or namespace rest (some name) = pure ((namespace, name) ∷ [])

  owner_of_replica_set : Result ApiError ReplicaSet → Option Text
  unfolding deployment_owner
  owner_of_replica_set (err e) = none
  owner_of_replica_set (ok rs) = deployment_owner rs.owner_references

  map_owners : Text → List OwnerReference → Act W (List (Text × Text))
  unfolding owner_of_replica_set request_or
  map_owners namespace [] = pure []
  map_owners namespace (owner ∷ owners) =
      let others = map_owners namespace owners in
      if text_eq owner.kind (codes "ReplicaSet")
      then (get_replica_set namespace owner.name >>= λ found.
          request_or namespace others (owner_of_replica_set found))
      else others

  -- mapPodToDeployment: the namespaces and names of the requests.
  unfoldable pub map_pod_to_deployment : Pod → Act W (List (Text × Text))
  unfolding map_owners
  map_pod_to_deployment pod = map_owners pod.namespace pod.owner_references
