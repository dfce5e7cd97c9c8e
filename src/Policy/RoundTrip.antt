-- ===== src/Policy/RoundTrip.antt =====
-- What of a strategy its annotation keeps: of every node selector and of every label selector the
-- entry that the runtime visits first. The modules below prove that the parser reads just this.
pub mod Rule
pub mod Annotation
pub mod Whole
pub mod Lost
use kube_smart_scheduler.Prelude.{ℕ, suc, ◌≢◌, List, [], ◌∷◌, All, take}
use kube_smart_scheduler.Prelude.Int64.{IsInt64}
use kube_smart_scheduler.GoText.{Text}
use kube_smart_scheduler.GoMap.{Map, Order, ◌▹◌, range}
use kube_smart_scheduler.Api.{AffinityRuleSpec, PlacementRuleSpec, PlacementStrategySpec}
use kube_smart_scheduler.Strategy.{AffinityRule, PlacementRule, PlacementStrategy}
use kube_smart_scheduler.Strategy.Parse.Names.{IsName, IsNamePair}
use kube_smart_scheduler.Strategy.Parse.AffinityParams.{IsAffinityKind}

abbrev pub kept_affinity : Order Text → AffinityRuleSpec → AffinityRule
kept_affinity o a = record {
  kind = a.kind;
  label_selector = take 1 (range o a.label_selector);
  topology_key = a.topology_key;
  required_during_scheduling = a.required_during_scheduling;
}

abbrev pub kept_affinities : Order Text → ℕ → List AffinityRuleSpec → List AffinityRule
kept_affinities o i [] = []
kept_affinities o i (a ∷ rest) = kept_affinity (o ▹ i) a ∷ kept_affinities o (suc i) rest

abbrev pub kept_rule : Order Text → PlacementRuleSpec → PlacementRule
kept_rule o rule = record {
  weight = rule.weight;
  node_selector = take 1 (range (o ▹ 0) rule.node_selector);
  affinity = kept_affinities (o ▹ 1) 0 rule.affinity;
}

abbrev pub kept_rules : Order Text → ℕ → List PlacementRuleSpec → List PlacementRule
kept_rules o i [] = []
kept_rules o i (rule ∷ rules) = kept_rule (o ▹ i) rule ∷ kept_rules o (suc i) rules

abbrev pub kept_strategy : {F : Type 0} → Order Text → PlacementStrategySpec F → PlacementStrategy
kept_strategy o s = record { base = s.base; rules = kept_rules o 0 s.rules }

-- A strategy whose keys, values and topology keys hold no space and no separator, as those of
-- Kubernetes do.
abbrev pub IsPlainAffinity : AffinityRuleSpec → Type 0
IsPlainAffinity a =
    IsAffinityKind a.kind
    × (a.label_selector ≢ [])
    × All IsNamePair a.label_selector
    × IsName a.topology_key

abbrev pub IsPlainRule : PlacementRuleSpec → Type 0
IsPlainRule rule =
    IsInt64 rule.weight × All IsNamePair rule.node_selector × All IsPlainAffinity rule.affinity

abbrev pub IsPlainSpec : {F : Type 0} → PlacementStrategySpec F → Type 0
IsPlainSpec s = IsInt64 s.base × (s.rules ≢ []) × All IsPlainRule s.rules
