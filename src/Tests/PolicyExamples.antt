-- ===== src/Tests/PolicyExamples.antt =====
-- The theorems on the policy controller at the concrete values.
use mathlib.Core.List.{Memᴰ}
use mathlib.Core.Path.{subst}
use kube_smart_scheduler.Prelude.{
  some, ℕ, ◌≡◌, ◌↔◌, refl, inl, inr, Bool-cases, true, false, none, [], ◌∷◌, All, arith,
  if◌then◌else◌,
}
use kube_smart_scheduler.Prelude.Int.{pos, ltb_ℤ}
use kube_smart_scheduler.Prelude.Result.{Result, ok, err, ok-injective}
use kube_smart_scheduler.GoText.{Text, codes, text_eq}
use kube_smart_scheduler.GoMap.{Map, lookup, in_order}
use kube_smart_scheduler.Kube.{Deployment}
use kube_smart_scheduler.Counting.{is_node_selector_subset, entries_hold}
use kube_smart_scheduler.Policy.Apply.{annotate, apply_policy_to_deployment}
use kube_smart_scheduler.Policy.Apply.Way.{apply_policy_to_deployment-gives_way_iff}
use kube_smart_scheduler.Policy.Apply.Priority.{lookup-annotate_priority}
use kube_smart_scheduler.Policy.Resources.{PolicyClient}
use kube_smart_scheduler.Policy.Disabled.{reconcile-disabled_same}
use kube_smart_scheduler.Client.{ApiError, conflict, Act}
use kube_smart_scheduler.Policy.Cleanup.{has_policy, remove_annotations}
use kube_smart_scheduler.Policy.Cleanup.Undo.{is_policy_key, remove_annotations-annotate}
use kube_smart_scheduler.Api.{DeploymentReference}
use kube_smart_scheduler.Policy.Status.{
  with_status, CountsDeployments, with_status-CountsDeployments,
}
use kube_smart_scheduler.Policy.Requests.{requests_of, map_deployment_to_policy}
use kube_smart_scheduler.Policy.Reconcile.{
  find_matching_deployments, list_for, list_selected, reconcile,
}
use kube_smart_scheduler.Policy.Requeues.{IsAskedIn, delay_for, reconcile-IsAskedIn}
use kube_smart_scheduler.Policy.Asked.{
  request_for, IsAsked, IsFiltered, map_deployment_to_policy-IsAsked, find_matching_asks_again,
}
use kube_smart_scheduler.Tests.Rationals.{Rational, rationals}
use kube_smart_scheduler.Tests.Values.{cluster, plain_codec}
use kube_smart_scheduler.Tests.PolicyValues.{
  Policy, app_web, labelled, web_policy, policy_of, label_selectors, policy_cluster,
}

-- The policy has the deployment, and one of equal priority comes.
abbrev held : Deployment
held = annotate web_policy (codes "base=1") (codes "now") labelled

abbrev rival_policy : Policy
rival_policy = policy_of (codes "rival") 7

apply_policy_to_deployment-gives_way_iff_example :
    ((apply_policy_to_deployment cluster plain_codec rationals in_order rival_policy held 0).0
      ≡ ok none)
    ↔ (ltb_ℤ (pos 7) (pos 7) ≡ true)
apply_policy_to_deployment-gives_way_iff_example =
    apply_policy_to_deployment-gives_way_iff cluster plain_codec rationals in_order web_policy
      rival_policy held 0 (omega arith)
      (lookup-annotate_priority web_policy (codes "base=1") (codes "now") labelled)

remove_annotations-annotate_example :
    (has_policy (codes "web") (annotate web_policy (codes "base=1") (codes "now") labelled) ≡ true)
    × (lookup
          (codes "team")
          (remove_annotations
            (annotate web_policy (codes "base=1") (codes "now") labelled)).annotations
        ≡ (if is_policy_key (codes "team")
            then none
            else lookup (codes "team") labelled.annotations))
remove_annotations-annotate_example =
    remove_annotations-annotate web_policy (codes "base=1") (codes "now") (codes "team") labelled tt

abbrev web_reference : DeploymentReference Rational
web_reference = record {
  name = codes "web";
  namespace = codes "default";
  current_drift = (pos 0, 1);
  last_applied = some 1_000;
}

with_status-CountsDeployments_example :
    CountsDeployments (with_status rationals web_policy (web_reference ∷ []) 1_000).status
    × ((with_status rationals web_policy (web_reference ∷ []) 1_000).spec ≡ web_policy.spec)
with_status-CountsDeployments_example =
    with_status-CountsDeployments rationals web_policy (web_reference ∷ []) 1_000 (omega arith)

map_deployment_to_policy-IsAsked_example :
    Memᴰ
      (request_for web_policy)
      (map_deployment_to_policy label_selectors policy_cluster labelled 0).0
    ↔ IsAsked label_selectors labelled (web_policy ∷ []) (request_for web_policy)
map_deployment_to_policy-IsAsked_example =
    map_deployment_to_policy-IsAsked label_selectors policy_cluster labelled (web_policy ∷ [])
      (request_for web_policy) 0 refl

cluster-IsFiltered : IsFiltered cluster policy_cluster label_selectors plain_codec rationals
cluster-IsFiltered namespace selector w deployments listed =
    elim (Bool-cases (is_node_selector_subset selector app_web)) [
      | inl matching ↦
          subst (All (λ deployment. is_node_selector_subset selector deployment.labels ≡ true))
            (ok-injective (rw matching at listed)) (matching, tt)
      | inr differing ↦
          subst (All (λ deployment. is_node_selector_subset selector deployment.labels ≡ true))
            (ok-injective (rw differing at listed)) tt
    ]

finds_labelled :
    (find_matching_deployments cluster policy_cluster label_selectors plain_codec rationals
      web_policy 0).0
    ≡ ok (labelled ∷ [])
unfolding find_matching_deployments list_for list_selected is_node_selector_subset entries_hold
    lookup text_eq
finds_labelled = refl

find_matching_asks_again_example :
    All
      (λ deployment. Memᴰ (request_for web_policy) (
        requests_of label_selectors
          (annotate web_policy (codes "base=1") (codes "now") deployment).labels
          (web_policy ∷ [])))
      (labelled ∷ [])
find_matching_asks_again_example =
    find_matching_asks_again cluster policy_cluster label_selectors plain_codec rationals web_policy
      (web_policy ∷ []) (codes "base=1") (codes "now") 0 (labelled ∷ []) cluster-IsFiltered
      (Memᴰ.head refl) finds_labelled

reconcile-IsAskedIn_example :
    IsAskedIn
      (delay_for {F = Rational} {S = Map Text} (ok web_policy))
      (reconcile cluster policy_cluster label_selectors plain_codec rationals in_order
        (codes "default")
        (codes "web")
        0).0
reconcile-IsAskedIn_example =
    reconcile-IsAskedIn cluster policy_cluster label_selectors plain_codec rationals in_order
      (codes "default") (codes "web") 0

abbrev disabled_policy : Policy
disabled_policy = record web_policy { spec = record web_policy.spec { enabled = false } }

abbrev disabled_cluster : PolicyClient ℕ Rational (Map Text) (Map Text)
disabled_cluster = record policy_cluster {
  get_policy = λ namespace name w. (ok disabled_policy, w);
}

abbrev refuse : Deployment → Act ℕ (Result ApiError (Unit {0}))
refuse deployment w = (err conflict, w)

reconcile-disabled_same_example :
    reconcile cluster disabled_cluster label_selectors plain_codec rationals in_order
      (codes "default")
      (codes "web")
      0
    ≡ reconcile
        (record cluster { update_deployment = refuse })
        disabled_cluster
        label_selectors
        plain_codec
        rationals
        in_order
        (codes "default")
        (codes "web")
        0
reconcile-disabled_same_example =
    reconcile-disabled_same cluster disabled_cluster label_selectors plain_codec rationals refuse
      in_order (codes "default") (codes "web") disabled_policy 0 refl refl
