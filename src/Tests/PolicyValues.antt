-- ===== src/Tests/PolicyValues.antt =====
-- A policy for deployments labelled app=web, and an API server that holds it and one such deployment.
use kube_smart_scheduler.Prelude.{ℕ, suc, true, some, none, [], ◌∷◌, if◌then◌else◌}
use kube_smart_scheduler.Prelude.Int.{pos}
use kube_smart_scheduler.Prelude.Result.{ok}
use kube_smart_scheduler.GoText.{Text, codes}
use kube_smart_scheduler.GoMap.{Map}
use kube_smart_scheduler.Api.{PodPlacementPolicy}
use kube_smart_scheduler.Kube.{Deployment}
use kube_smart_scheduler.Counting.{is_node_selector_subset}
use kube_smart_scheduler.Policy.Resources.{Selectors, PolicyClient}
use kube_smart_scheduler.Tests.Rationals.{Rational}
use kube_smart_scheduler.Tests.Values.{web_spec, web_deployment}

abbrev pub Policy : Type 0
Policy = PodPlacementPolicy Rational (Map Text)

abbrev pub app_web : Map Text
app_web = (codes "app", codes "web") ∷ []

abbrev pub labelled : Deployment
labelled = record web_deployment { labels = app_web; annotations = [] }

abbrev pub policy_of : Text → ℕ → Policy
policy_of policy_name priority = record {
  name = policy_name;
  namespace = codes "default";
  generation = pos 1;
  spec = record {
    selector = some app_web;
    strategy = record { base = pos 1; rules = web_spec.rules; rebalance_policy = none };
    enabled = true;
    priority = pos priority;
  };
  status = record {
    conditions = [];
    matched_deployments = [];
    statistics = none;
    last_rebalance = none;
    observed_generation = pos 0;
  };
}

abbrev pub web_policy : Policy
web_policy = policy_of (codes "web") 7

-- Selectors are labels that must all be there.
abbrev pub label_selectors : Selectors (Map Text) (Map Text)
label_selectors = record { as_selector = some; matches = is_node_selector_subset }

abbrev pub policy_cluster : PolicyClient ℕ Rational (Map Text) (Map Text)
policy_cluster = record {
  get_policy = λ namespace name w. (ok web_policy, w);
  list_policies = λ namespace w. (ok (web_policy ∷ []), w);
  update_policy_status = λ policy w. (ok tt, suc w);
  list_deployments = λ namespace w. (ok (labelled ∷ []), w);
  list_deployments_matching = λ namespace selector w.
      (ok (if is_node_selector_subset selector labelled.labels then labelled ∷ [] else []), w);
}
