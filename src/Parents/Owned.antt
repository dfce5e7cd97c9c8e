-- ===== src/Parents/Owned.antt =====
-- A pod that is owned by a ReplicaSet of a deployment (findParentDeployment of webhook/mutate_pod.go).
use kube_smart_scheduler.Prelude.{◌≡◌, ap, ◌∙◌, some, List, ◌∷◌}
use kube_smart_scheduler.Prelude.Result.{ok}
use kube_smart_scheduler.GoText.{Text, codes, text_eq}
use kube_smart_scheduler.Kube.{OwnerReference, Pod, Deployment}
use kube_smart_scheduler.Client.{Client}
use kube_smart_scheduler.Parents.{
  found_or, find_deployment, in_replica_set, find_parent, find_parent_deployment,
}

abbrev pub owner_of : Text → Text → OwnerReference
owner_of kind name = record { kind = kind; name = name }

module _ {W : Type 0} (client : Client W) where
  -- The first owner of the pod is the ReplicaSet, and the first owner of that is the deployment.
  pub record IsOwned (pod : Pod) (deployment_name : Text) (w : W) : Type 0 where
    pub rs_name : Text
    pub rs_others : List OwnerReference
    pub pod_others : List OwnerReference
    pub owners : pod.owner_references ≡ owner_of (codes "ReplicaSet") rs_name ∷ pod_others
    pub answered : client.get_replica_set pod.namespace rs_name w ≡ (
      ok (record { owner_references = owner_of (codes "Deployment") deployment_name ∷ rs_others }),
      w,
    )

  pub find_parent_deployment-IsOwned :
      (pod : Pod) (deployment : Deployment) (name : Text) (w : W)
      → IsOwned pod name w
      → client.get_deployment pod.namespace name w ≡ (ok deployment, w)
      → find_parent_deployment client pod w ≡ (some deployment, w)
  unfolding find_parent_deployment find_parent find_deployment in_replica_set found_or text_eq
  find_parent_deployment-IsOwned pod deployment name w owned found =
      let after = find_parent client pod.namespace owned.pod_others in
      ap (λ owners. find_parent client pod.namespace owners w) owned.owners
      ∙ ap (λ a. in_replica_set client pod.namespace after a.0 a.1) owned.answered
      ∙ ap
          (λ a.
            found_or client (find_deployment client pod.namespace owned.rs_others after) a.0 a.1)
          found
