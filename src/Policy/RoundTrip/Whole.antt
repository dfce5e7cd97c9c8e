-- ===== src/Policy/RoundTrip/Whole.antt =====
-- What the annotation carries of a strategy (controllers/podplacementpolicy_controller.go), and what
-- it loses.
use kube_smart_scheduler.Prelude.{
  ℕ, suc, ◌≤◌, ◌≡◌, refl, ◌∙◌, ap, List, [], ◌∷◌, arith, All, length, take,
}
use kube_smart_scheduler.Prelude.Result.{ok}
use kube_smart_scheduler.GoText.{Text}
use kube_smart_scheduler.GoMap.{Map, Order, IsOrder, ◌▹◌, range}
use kube_smart_scheduler.GoMap.Laws.{order_one}
use kube_smart_scheduler.Api.{AffinityRuleSpec, PlacementRuleSpec, PlacementStrategySpec}
use kube_smart_scheduler.Strategy.{AffinityRule, PlacementRule, PlacementStrategy}
use kube_smart_scheduler.Strategy.Parse.{parse_placement_strategy}
use kube_smart_scheduler.Policy.Convert.{convert_strategy_to_annotation}
use kube_smart_scheduler.Policy.RoundTrip.{kept_affinities, kept_rules, kept_strategy, IsPlainSpec}
use kube_smart_scheduler.Policy.RoundTrip.Annotation.{parse-convert}

-- What the custom resource asks for, as far as the webhook's types have a place for it: the base, and
-- the weight, the node selector and the affinity terms of each rule. The weights of affinity terms
-- and the rebalance policy have none.
abbrev pub carried_affinity : AffinityRuleSpec → AffinityRule
carried_affinity a = record {
  kind = a.kind;
  label_selector = a.label_selector;
  topology_key = a.topology_key;
  required_during_scheduling = a.required_during_scheduling;
}

abbrev pub carried_affinities : List AffinityRuleSpec → List AffinityRule
carried_affinities [] = []
carried_affinities (a ∷ rest) = carried_affinity a ∷ carried_affinities rest

abbrev pub carried_rules : List PlacementRuleSpec → List PlacementRule
carried_rules [] = []
carried_rules (rule ∷ rules) =
    record {
      weight = rule.weight;
      node_selector = rule.node_selector;
      affinity = carried_affinities rule.affinity;
    }
    ∷ carried_rules rules

abbrev pub carried_strategy : {F : Type 0} → PlacementStrategySpec F → PlacementStrategy
carried_strategy s = record { base = s.base; rules = carried_rules s.rules }

-- No selector of the rule holds two entries.
abbrev pub IsSingle : PlacementRuleSpec → Type 0
IsSingle rule =
    (length rule.node_selector ≤ 1) × All (λ a. length a.label_selector ≤ 1) rule.affinity

take_one : (o : Order Text) (m : Map Text) → IsOrder o → length m ≤ 1 → take 1 (range o m) ≡ m
take_one o m h single = rw (order_one o [] m h single) (take_all m single)
  where
    take_all : (m : Map Text) → length m ≤ 1 → take 1 m ≡ m
    take_all [] k = refl
    take_all (e ∷ []) k = refl
    take_all (e ∷ f ∷ m) k = absurd (omega arith)

kept_affinities-carried :
    (o : Order Text) (i : ℕ) (rules : List AffinityRuleSpec)
    → IsOrder o
    → All (λ a. length a.label_selector ≤ 1) rules
    → kept_affinities o i rules ≡ carried_affinities rules
kept_affinities-carried o i [] h _ = refl
kept_affinities-carried o i (a ∷ rest) h (single, singles) = rw (
  take_one (o ▹ i) a.label_selector (λ path m. h (i ∷ path) m) single,
  kept_affinities-carried o (suc i) rest h singles,
)

kept_rules-carried :
    (o : Order Text) (i : ℕ) (rules : List PlacementRuleSpec)
    → IsOrder o
    → All IsSingle rules
    → kept_rules o i rules ≡ carried_rules rules
kept_rules-carried o i [] h _ = refl
kept_rules-carried o i (rule ∷ rules) h ((single, affinities), singles) = rw (
  take_one (o ▹ i ▹ 0) rule.node_selector (λ path m. h (i ∷ 0 ∷ path) m) single,
  kept_affinities-carried (o ▹ i ▹ 1) 0 rule.affinity (λ path m. h (i ∷ 1 ∷ path) m) affinities,
  kept_rules-carried o (suc i) rules h singles,
)

-- If no node selector and no label selector of a plain strategy holds two entries, then the
-- annotation is written, and ParsePlacementStrategy reads it back as the strategy's base and its
-- rules, in their order, each with its weight, its node selector and its affinity terms without their
-- own weights, whatever the order of the loops over maps. The rebalance policy is not part of it.
pub parse-convert_whole :
    {F : Type 0} (o : Order Text) (s : PlacementStrategySpec F)
    → IsOrder o
    → IsPlainSpec s
    → All IsSingle s.rules
    → (annotation : Text) × (convert_strategy_to_annotation o s ≡ ok annotation)
      × (parse_placement_strategy annotation ≡ ok (carried_strategy s))
parse-convert_whole o s h plain singles =
    let (annotation, written, read) = parse-convert o s h plain in
    (
      annotation,
      written,
      read
          ∙ ap (λ rules. ok (record { base = s.base; rules = rules }))
              (kept_rules-carried o 0 s.rules h singles),
    )

abbrev pub AtMostOne : PlacementRule → Type 0
AtMostOne rule = length rule.node_selector ≤ 1

kept_rules-AtMostOne :
    (o : Order Text) (i : ℕ) (rules : List PlacementRuleSpec) → All AtMostOne (kept_rules o i rules)
kept_rules-AtMostOne o i [] = tt
kept_rules-AtMostOne o i (rule ∷ rules) =
    (take_le (range (o ▹ i ▹ 0) rule.node_selector), kept_rules-AtMostOne o (suc i) rules)
  where
    take_le : (m : Map Text) → length (take 1 m) ≤ 1
    take_le [] = omega arith
    take_le (e ∷ m) = omega arith

-- However many entries the node selectors of a plain strategy hold, every rule that
-- ParsePlacementStrategy reads from its annotation has at most one: the others are lost, with no
-- error.
pub convert_drops_selectors :
    {F : Type 0} (o : Order Text) (s : PlacementStrategySpec F)
    → IsOrder o
    → IsPlainSpec s
    → (annotation : Text) × (strategy : PlacementStrategy) × (convert_strategy_to_annotation o s
        ≡ ok annotation)
      × (parse_placement_strategy annotation ≡ ok strategy)
      × All AtMostOne strategy.rules
convert_drops_selectors o s h plain =
    let (annotation, written, read) = parse-convert o s h plain in
    (annotation, kept_strategy o s, written, read, kept_rules-AtMostOne o 0 s.rules)
