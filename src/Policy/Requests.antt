-- ===== src/Policy/Requests.antt =====
-- mapDeploymentToPolicy (controllers/podplacementpolicy_controller.go).
use kube_smart_scheduler.Prelude.{Bool, false, Option, none, some, List, [], ◌∷◌, if◌then◌else◌}
use kube_smart_scheduler.Prelude.Result.{Result, ok, err}
use kube_smart_scheduler.GoText.{Text}
use kube_smart_scheduler.GoMap.{Map}
use kube_smart_scheduler.Api.{PodPlacementPolicy}
use kube_smart_scheduler.Kube.{Deployment}
use kube_smart_scheduler.Client.{ApiError, Act, ◌>>=◌, pure}
use kube_smart_scheduler.Policy.Resources.{Selectors, PolicyClient}

module _ {S L : Type 0} (selectors : Selectors S L) where
  open selectors use {as_selector, matches}

  -- A selector that is nil or invalid matches nothing.
  abbrev pub converted : Option S → Option L
  converted none = none
  converted (some selector) = as_selector selector

  abbrev pub matched : Option L → Map Text → Bool
  matched none labels = false
  matched (some selector) labels = matches selector labels

  unfoldable pub selects : Option S → Map Text → Bool
  selects selector labels = matched (converted selector) labels

  module _ {F : Type 0} where
    unfoldable pub requests_of : Map Text → List (PodPlacementPolicy F S) → List (Text × Text)
    unfolding selects
    requests_of labels [] = []
    requests_of labels (policy ∷ policies) =
        let rest = requests_of labels policies in
        if selects policy.spec.selector labels then (policy.namespace, policy.name) ∷ rest else rest

    unfoldable pub requests_or_none :
        Map Text → Result ApiError (List (PodPlacementPolicy F S)) → List (Text × Text)
    unfolding requests_of
    requests_or_none labels (err e) = []
    requests_or_none labels (ok policies) = requests_of labels policies

    -- The namespaces and names of the requests.
    unfoldable pub map_deployment_to_policy :
        {W : Type 0} → PolicyClient W F S L → Deployment → Act W (List (Text × Text))
    unfolding requests_or_none
    map_deployment_to_policy policies deployment = do
      listed ← policies.list_policies deployment.namespace
      pure (requests_or_none deployment.labels listed)
