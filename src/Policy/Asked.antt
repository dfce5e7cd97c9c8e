-- ===== src/Policy/Asked.antt =====
-- Which policies an event of a deployment asks for (mapDeploymentToPolicy and findMatchingDeployments
-- in controllers/podplacementpolicy_controller.go).
use mathlib.Core.Path.{subst}
use mathlib.Core.List.{Memᴰ}
use kube_smart_scheduler.Prelude.{
  ◌≡◌, ◌↔◌, refl, sym, ap, ◌∙◌, inl, inr, Bool-cases, true, false, Option, none, some, List, [],
  ◌∷◌, All, All-map,
}
use kube_smart_scheduler.Prelude.Result.{ok, ok-injective}
use kube_smart_scheduler.GoText.{Text}
use kube_smart_scheduler.GoMap.{Map}
use kube_smart_scheduler.Api.{PodPlacementPolicy}
use kube_smart_scheduler.Kube.{Deployment}
use kube_smart_scheduler.Client.{Client}
use kube_smart_scheduler.Float.{FloatOps}
use kube_smart_scheduler.State.{Codec, wrap_err-ok}
use kube_smart_scheduler.Policy.Resources.{Selectors, PolicyClient, list_deployments_failed}
use kube_smart_scheduler.Policy.Apply.{annotate}
use kube_smart_scheduler.Policy.Requests.{
  selects, matched, requests_of, requests_or_none, map_deployment_to_policy,
}
use kube_smart_scheduler.Policy.Reconcile.{list_selected, list_for, find_matching_deployments}

module _ {F S : Type 0} where
  abbrev pub request_for : PodPlacementPolicy F S → Text × Text
  request_for policy = (policy.namespace, policy.name)

module _ {S L : Type 0} (selectors : Selectors S L) where
  selects-true :
      (selector : Option S) (labels : Map Text)
      → selects selectors selector labels ≡ true
      → (s : S) × (l : L) × (selector ≡ some s)
        × (selectors.as_selector s ≡ some l)
        × (selectors.matches l labels ≡ true)
  unfolding selects
  selects-true none labels h = cc
  selects-true (some s) labels h = converts (selectors.as_selector s) refl h
    where
      converts :
          (converted : Option L)
          → selectors.as_selector s ≡ converted
          → matched selectors converted labels ≡ true
          → (r : S) × (l : L) × (◌≡◌ {A = Option S} (some s) (some r))
            × (selectors.as_selector r ≡ some l)
            × (selectors.matches l labels ≡ true)
      converts none e h = cc
      converts (some l) e h = (s, l, refl, e, h)

module _ {F S L : Type 0} (selectors : Selectors S L) where
  -- A policy of the list whose selector selects the labels.
  abbrev IsListed : Map Text → List (PodPlacementPolicy F S) → Text × Text → Type 0
  IsListed labels policies request =
      (policy : PodPlacementPolicy F S) × Memᴰ policy policies
      × (selects selectors policy.spec.selector labels ≡ true)
      × (request ≡ request_for policy)

  requests_of_skip :
      (labels : Map Text) (policy : PodPlacementPolicy F S)
      (policies : List (PodPlacementPolicy F S))
      → selects selectors policy.spec.selector labels ≡ false
      → requests_of selectors labels (policy ∷ policies) ≡ requests_of selectors labels policies
  unfolding requests_of
  requests_of_skip labels policy policies e = rw e refl

  requests_of_take :
      (labels : Map Text) (policy : PodPlacementPolicy F S)
      (policies : List (PodPlacementPolicy F S))
      → selects selectors policy.spec.selector labels ≡ true
      → requests_of selectors labels (policy ∷ policies)
        ≡ request_for policy ∷ requests_of selectors labels policies
  unfolding requests_of
  requests_of_take labels policy policies e = rw e refl

  IsListed-later :
      (labels : Map Text) (policy : PodPlacementPolicy F S)
      (policies : List (PodPlacementPolicy F S)) (request : Text × Text)
      → IsListed labels policies request
      → IsListed labels (policy ∷ policies) request
  IsListed-later labels policy policies request (found, member, selected, named) =
      (found, Memᴰ.tail member, selected, named)

  IsListed-at :
      (labels : Map Text) (policy : PodPlacementPolicy F S)
      (policies : List (PodPlacementPolicy F S)) (request : Text × Text) (rest : List (Text × Text))
      → selects selectors policy.spec.selector labels ≡ true
      → (Memᴰ request rest → IsListed labels policies request)
      → Memᴰ request (request_for policy ∷ rest)
      → IsListed labels (policy ∷ policies) request
  IsListed-at labels policy policies request rest selected ih (Memᴰ.head e) =
      (policy, Memᴰ.head refl, selected, e)
  IsListed-at labels policy policies request rest selected ih (Memᴰ.tail m) =
      IsListed-later labels policy policies request (ih m)

  not-IsListed :
      (labels : Map Text) (request : Text × Text)
      → Memᴰ request (requests_of selectors {F = F} labels [])
      → IsListed labels [] request
  unfolding requests_of
  not-IsListed labels request member = elim member [ ]

  requests_of_sound :
      (labels : Map Text) (policies : List (PodPlacementPolicy F S)) (request : Text × Text)
      → Memᴰ request (requests_of selectors labels policies)
      → IsListed labels policies request
  requests_of_sound labels [] request member = not-IsListed labels request member
  requests_of_sound labels (policy ∷ policies) request member =
      elim (Bool-cases (selects selectors policy.spec.selector labels)) [
        | inl selected ↦
            IsListed-at labels policy policies request _ selected
              (requests_of_sound labels policies request)
              (subst (Memᴰ request) (requests_of_take labels policy policies selected) member)
        | inr skipped ↦ IsListed-later labels policy policies request (
            requests_of_sound labels policies request
              (subst (Memᴰ request) (requests_of_skip labels policy policies skipped) member))
      ]

  requests_of_complete :
      (labels : Map Text) (policies : List (PodPlacementPolicy F S))
      (policy : PodPlacementPolicy F S)
      → Memᴰ policy policies
      → selects selectors policy.spec.selector labels ≡ true
      → Memᴰ (request_for policy) (requests_of selectors labels policies)
  requests_of_complete labels [] policy member selected = elim member [ ]
  requests_of_complete labels (other ∷ policies) policy (Memᴰ.head e) selected =
      subst (Memᴰ (request_for policy))
        (sym (
          requests_of_take labels other policies
            (ap (λ p. selects selectors p.spec.selector labels) (sym e) ∙ selected)))
        (Memᴰ.head (ap request_for e))
  requests_of_complete labels (other ∷ policies) policy (Memᴰ.tail m) selected =
      let rest = requests_of_complete labels policies policy m selected in
      elim (Bool-cases (selects selectors other.spec.selector labels)) [
        | inl selects_other ↦
            subst (Memᴰ (request_for policy))
              (sym (requests_of_take labels other policies selects_other)) (Memᴰ.tail rest)
        | inr skips_other ↦
            subst (Memᴰ (request_for policy))
              (sym (requests_of_skip labels other policies skips_other)) rest
      ]

  requests_of-IsListed :
      (labels : Map Text) (policies : List (PodPlacementPolicy F S)) (request : Text × Text)
      → Memᴰ request (requests_of selectors labels policies) ↔ IsListed labels policies request
  requests_of-IsListed labels policies request = (
    requests_of_sound labels policies request,
    λ (policy, member, selected, named).
        subst (λ r. Memᴰ r (requests_of selectors labels policies)) (sym named)
          (requests_of_complete labels policies policy member selected),
  )

  -- The policy has a selector, which is a valid one, and which the labels of the deployment match.
  abbrev pub Watches : PodPlacementPolicy F S → Deployment → Type 0
  Watches policy deployment =
      (selector : S) × (label_selector : L) × (policy.spec.selector ≡ some selector)
      × (selectors.as_selector selector ≡ some label_selector)
      × (selectors.matches label_selector deployment.labels ≡ true)

  Watches-selects :
      (policy : PodPlacementPolicy F S) (deployment : Deployment)
      → Watches policy deployment
      → selects selectors policy.spec.selector deployment.labels ≡ true
  unfolding selects
  Watches-selects policy deployment (selector, label_selector, given, valid, fits) =
      rw (given, valid, fits) refl

  -- A policy of the list that watches the deployment, by its namespace and its name.
  abbrev pub IsAsked : Deployment → List (PodPlacementPolicy F S) → Text × Text → Type 0
  IsAsked deployment policies request =
      (policy : PodPlacementPolicy F S) × Memᴰ policy policies
      × Watches policy deployment
      × (request ≡ (policy.namespace, policy.name))

  -- If the policies of a deployment's namespace can be listed, then an event of the deployment asks
  -- for those of them that have a valid selector that the deployment's labels match, and for no others.
  pub map_deployment_to_policy-IsAsked :
      {W : Type 0} (policies : PolicyClient W F S L) (deployment : Deployment)
      (listed : List (PodPlacementPolicy F S)) (request : Text × Text) (w : W)
      → (policies.list_policies deployment.namespace w).0 ≡ ok listed
      → Memᴰ request (map_deployment_to_policy selectors policies deployment w).0
        ↔ IsAsked deployment listed request
  unfolding map_deployment_to_policy requests_or_none
  map_deployment_to_policy-IsAsked policies deployment listed request w answered = rw answered (
    λ member.
        let (policy, there, selected, named) =
          requests_of_sound deployment.labels listed request member in
        (
          policy,
          there,
          selects-true selectors policy.spec.selector deployment.labels selected,
          named,
        ),
    λ (policy, there, watches, named).
        (requests_of-IsListed deployment.labels listed request).1
          (policy, there, Watches-selects policy deployment watches, named),
  )

module _ {W F S L : Type 0} (client : Client W) (policies : PolicyClient W F S L)
    (selectors : Selectors S L) (codec : Codec) (fl : FloatOps F) where
  -- A list that is asked for with a selector holds deployments that it matches.
  abbrev pub IsFiltered : Type 0
  IsFiltered =
      (namespace : Text) (selector : L) (w : W) (deployments : List Deployment)
      → (policies.list_deployments_matching namespace selector w).0 ≡ ok deployments
      → All (λ deployment. selectors.matches selector deployment.labels ≡ true) deployments

  list_selected-All :
      (namespace : Text) (selector : Option L) (w : W) (deployments : List Deployment)
      → IsFiltered
      → (list_selected client policies selectors codec fl namespace selector w).0 ≡ ok deployments
      → All (λ deployment. matched selectors selector deployment.labels ≡ true) deployments
  unfolding list_selected
  list_selected-All namespace none w deployments filtered listed = cc
  list_selected-All namespace (some selector) w deployments filtered listed =
      filtered namespace selector w deployments (
        wrap_err-ok list_deployments_failed
          (policies.list_deployments_matching namespace selector w).0 listed)

  list_for-All :
      (namespace : Text) (selector : Option S) (w : W) (deployments : List Deployment)
      → IsFiltered
      → (list_for client policies selectors codec fl namespace selector w).0 ≡ ok deployments
      → All (λ deployment. selects selectors selector deployment.labels ≡ true) deployments
  unfolding list_for selects
  list_for-All namespace none w deployments filtered listed = subst (All _) (ok-injective listed) tt
  list_for-All namespace (some selector) w deployments filtered listed =
      list_selected-All namespace (selectors.as_selector selector) w deployments filtered listed

  -- If the API server's lists hold only what the selector matches, then the update of every
  -- deployment that a policy finds, with the annotations that the policy writes, asks for that same
  -- policy again.
  pub find_matching_asks_again :
      (policy : PodPlacementPolicy F S) (others : List (PodPlacementPolicy F S))
      (strategy_annotation time : Text) (w : W) (deployments : List Deployment)
      → IsFiltered
      → Memᴰ policy others
      → (find_matching_deployments client policies selectors codec fl policy w).0 ≡ ok deployments
      → All
          (λ deployment. Memᴰ (request_for policy) (
            requests_of selectors
              (annotate policy strategy_annotation time deployment).labels
              others))
          deployments
  unfolding find_matching_deployments annotate
  find_matching_asks_again policy others strategy_annotation time w deployments filtered member
        found =
      All-map deployments
        (λ deployment selected.
          requests_of_complete selectors deployment.labels others policy member selected)
        (list_for-All policy.namespace policy.spec.selector w deployments filtered found)
