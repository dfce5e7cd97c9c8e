-- ===== src/Tests/ComposedExamples.antt =====
-- The way of a strategy from a policy to a pod, over a server that holds one deployment.
use kube_smart_scheduler.Prelude.{
  ◌≡◌, refl, ap, ◌⊎◌, inl, inr, Bool-cases, if◌then◌else◌, Option, none, some, List, [], ◌∷◌, All,
  arith,
}
use kube_smart_scheduler.Prelude.Int.{pos}
use kube_smart_scheduler.Prelude.Result.{Result, ok, err}
use kube_smart_scheduler.GoText.{Text, codes, text_eq, text_eq_refl, text_eq_iff}
use kube_smart_scheduler.GoMap.{Map, lookup, in_order}
use kube_smart_scheduler.Api.{DeploymentReference, PodPlacementPolicy}
use kube_smart_scheduler.Kube.{Deployment}
use kube_smart_scheduler.Client.{ApiError, Client, not_found}
use kube_smart_scheduler.Parents.Owned.{owner_of}
use kube_smart_scheduler.Policy.Convert.{convert_strategy_to_annotation, convert_rules}
use kube_smart_scheduler.Policy.Apply.{
  annotate, calculate_deployment_drift, drift_of, apply_policy_to_deployment,
  has_higher_priority_policy, priority_key,
}
use kube_smart_scheduler.Policy.Apply.Highest.{Turns, IsHighest, Turns-IsHighest}
use kube_smart_scheduler.Policy.Apply.Held.{HoldsDeployments}
use kube_smart_scheduler.Policy.Resources.{PolicyClient}
use kube_smart_scheduler.Policy.Reconcile.{apply_to_all}
use kube_smart_scheduler.Policy.Matched.{IsHeldFor, apply_to_all-IsHeldFor}
use kube_smart_scheduler.Tests.Rationals.{Rational, rationals}
use kube_smart_scheduler.Tests.Values.{plain_codec, in_order-IsOrder}
use kube_smart_scheduler.Tests.PolicyValues.{labelled, web_policy, policy_of, label_selectors}

-- The world is what is held by namespace and name.
abbrev Shelf : Type 0
Shelf = Text → Text → Option Deployment

abbrev answer_for : Option Deployment → Result ApiError Deployment
answer_for none = err not_found
answer_for (some deployment) = ok deployment

abbrev put : Deployment → Shelf → Shelf
put deployment w namespace name =
    if text_eq deployment.namespace namespace
    then if text_eq deployment.name name then some deployment else w namespace name
    else w namespace name

abbrev keeper : Client Shelf
keeper = record {
  now = λ w. (1_000, w);
  sleep = λ duration w. (tt, w);
  get_config_map = λ namespace name w. (err not_found, w);
  create_config_map = λ config_map w. (ok tt, w);
  update_config_map = λ config_map w. (ok tt, w);
  delete_config_map = λ config_map w. (ok tt, w);
  list_config_maps = λ namespace labels w. (ok [], w);
  get_deployment = λ namespace name w. (answer_for (w namespace name), w);
  update_deployment = λ deployment w. (ok tt, put deployment w);
  get_replica_set = λ namespace name w.
      (ok (record { owner_references = owner_of (codes "Deployment") (codes "web") ∷ [] }), w);
  list_pods = λ namespace labels w. (ok [], w);
  delete_pod = λ pod w. (ok tt, w);
  create_event = λ event w. (ok tt, w);
}

put_self :
    (deployment : Deployment) (w : Shelf)
    → put deployment w deployment.namespace deployment.name ≡ some deployment
put_self deployment w = rw (text_eq_refl deployment.namespace, text_eq_refl deployment.name) refl

put_or :
    (deployment : Deployment) (namespace name : Text) (w : Shelf)
    → (put deployment w namespace name ≡ w namespace name)
      ⊎ (deployment.namespace ≡ namespace)
        × (deployment.name ≡ name)
        × (put deployment w namespace name ≡ some deployment)
put_or deployment namespace name w = elim (Bool-cases (text_eq deployment.namespace namespace)) [
  | inr apart ↦ inl (rw apart refl)
  | inl spaced ↦ elim (Bool-cases (text_eq deployment.name name)) [
    | inr other ↦ inl (rw (spaced, other) refl)
    | inl named ↦ inr (
      (text_eq_iff deployment.namespace namespace).0 spaced,
      (text_eq_iff deployment.name name).0 named,
      rw (spaced, named) refl,
    )
  ]
]

keeper-HoldsDeployments : HoldsDeployments keeper
keeper-HoldsDeployments = record {
  held = λ w namespace name. w namespace name;
  get_held = λ namespace name deployment w e. ap (λ o. (answer_for o, w)) e;
  held-update = λ deployment w accepted. put_self deployment w;
  held-update_or = put_or;
  held-now = λ namespace name w. refl;
  held-list_pods = λ pods_in labels namespace name w. refl;
}

abbrev web_shelf : Shelf
web_shelf = put labelled (λ namespace name. none)

abbrev policy_shelf : PolicyClient Shelf Rational (Map Text) (Map Text)
policy_shelf = record {
  get_policy = λ namespace name w. (ok web_policy, w);
  list_policies = λ namespace w. (ok (web_policy ∷ []), w);
  update_policy_status = λ policy w. (ok tt, w);
  list_deployments = λ namespace w. (ok (labelled ∷ []), w);
  list_deployments_matching = λ namespace selector w. (ok (labelled ∷ []), w);
}

abbrev web_reference : DeploymentReference Rational
web_reference = record {
  name = codes "web";
  namespace = codes "default";
  current_drift = rationals.of_int (pos 0);
  last_applied = some 1_000;
}

abbrev applied_to_all : List (DeploymentReference Rational) × Shelf
applied_to_all =
    apply_to_all keeper policy_shelf label_selectors plain_codec rationals in_order 0 web_policy
      (labelled ∷ []) [] web_shelf

apply_to_all-IsHeldFor_example :
    All
      (λ reference.
        IsHeldFor keeper policy_shelf label_selectors plain_codec rationals keeper-HoldsDeployments
          in_order web_policy
          (labelled ∷ [])
          reference
          applied_to_all.1)
      applied_to_all.0
apply_to_all-IsHeldFor_example =
    apply_to_all-IsHeldFor keeper policy_shelf label_selectors plain_codec rationals
      keeper-HoldsDeployments in_order web_policy (labelled ∷ []) web_shelf

abbrev low_policy : PodPlacementPolicy Rational (Map Text)
low_policy = policy_of (codes "low") 3

abbrev found : Option Deployment → Deployment
found none = labelled
found (some deployment) = deployment

-- The world after the policy is applied to the deployment web.
abbrev next : PodPlacementPolicy Rational (Map Text) → Shelf → Shelf
next policy w =
    (apply_policy_to_deployment keeper plain_codec rationals in_order policy
      (found (w (codes "default") (codes "web"))) w).1

-- The policy of lower priority comes first.
abbrev last_shelf : Shelf
last_shelf = next web_policy (next low_policy web_shelf)

both_applied :
    Turns keeper plain_codec rationals
      (codes "default")
      (codes "web")
      (low_policy ∷ web_policy ∷ [])
      web_shelf
      last_shelf
unfolding apply_policy_to_deployment has_higher_priority_policy lookup
    convert_strategy_to_annotation convert_rules annotate calculate_deployment_drift drift_of
    text_eq
both_applied =
    Turns.turn in_order in_order-IsOrder refl (Turns.turn in_order in_order-IsOrder refl Turns.done)

no_priority : lookup priority_key labelled.annotations ≡ none
unfolding lookup
no_priority = refl

web_held : keeper-HoldsDeployments.held web_shelf (codes "default") (codes "web") ≡ some labelled
unfolding keeper-HoldsDeployments
web_held = put_self labelled (λ namespace name. none)

Turns-IsHighest_example :
    IsHighest keeper plain_codec rationals keeper-HoldsDeployments
      (codes "default")
      (codes "web")
      (low_policy ∷ web_policy ∷ [])
      last_shelf
Turns-IsHighest_example =
    Turns-IsHighest keeper plain_codec rationals keeper-HoldsDeployments (codes "default")
      (codes "web") (λ d w. refl) low_policy (web_policy ∷ []) labelled web_shelf last_shelf
      ((omega arith, λ e. cc), ((omega arith, λ e. cc), tt)) (web_held, refl, refl) no_priority
      both_applied
