-- ===== src/Policy/RoundTrip/Lost.antt =====
-- What convertStrategyToAnnotation (controllers/podplacementpolicy_controller.go) does not write.
use kube_smart_scheduler.Prelude.{ℕ, suc, ◌≡◌, refl, sym, ap, ◌∙◌, List, [], ◌∷◌}
use kube_smart_scheduler.Prelude.Int.{ℤ, pos}
use kube_smart_scheduler.GoMap.{Order, ◌▹◌}
use kube_smart_scheduler.GoText.{Text}
use kube_smart_scheduler.Api.{AffinityRuleSpec, PlacementRuleSpec, PlacementStrategySpec}
use kube_smart_scheduler.Strategy.{AffinityRule, PlacementRule, PlacementStrategy}
use kube_smart_scheduler.Policy.Convert.{
  affinity_part, affinity_parts, rule_tail, rule_part, first_part, more_parts, convert_rules,
  convert_strategy_to_annotation,
}
use kube_smart_scheduler.Policy.RoundTrip.Whole.{
  carried_affinities, carried_rules, carried_strategy,
}

-- Rules of the custom resource that carry given ones, and nothing else.
abbrev plain_affinities : List AffinityRule → List AffinityRuleSpec
plain_affinities [] = []
plain_affinities (a ∷ rest) =
    record {
      kind = a.kind;
      label_selector = a.label_selector;
      topology_key = a.topology_key;
      required_during_scheduling = a.required_during_scheduling;
      weight = pos 0;
    }
    ∷ plain_affinities rest

abbrev plain_rule : PlacementRule → PlacementRuleSpec
plain_rule rule = record {
  weight = rule.weight;
  node_selector = rule.node_selector;
  affinity = plain_affinities rule.affinity;
  name = [];
  description = [];
}

abbrev plain_rules : List PlacementRule → List PlacementRuleSpec
plain_rules [] = []
plain_rules (rule ∷ rules) = plain_rule rule ∷ plain_rules rules

abbrev carried_rule : PlacementRuleSpec → PlacementRule
carried_rule rule = record {
  weight = rule.weight;
  node_selector = rule.node_selector;
  affinity = carried_affinities rule.affinity;
}

affinity_parts-carried :
    (o : Order Text) (i : ℕ) (rules : List AffinityRuleSpec)
    → affinity_parts o i rules ≡ affinity_parts o i (plain_affinities (carried_affinities rules))
unfolding affinity_parts affinity_part
affinity_parts-carried o i [] = refl
affinity_parts-carried o i (a ∷ rest) = rw (affinity_parts-carried o (suc i) rest) refl

rule_tail-carried :
    (o : Order Text) (rule : PlacementRuleSpec)
    → rule_tail o rule ≡ rule_tail o (plain_rule (carried_rule rule))
unfolding rule_tail
rule_tail-carried o rule = rw (affinity_parts-carried (o ▹ 1) 0 rule.affinity) refl

more_parts-carried :
    (o : Order Text) (i : ℕ) (rules : List PlacementRuleSpec)
    → more_parts o i rules ≡ more_parts o i (plain_rules (carried_rules rules))
unfolding more_parts rule_part
more_parts-carried o i [] = refl
more_parts-carried o i (rule ∷ rules) =
    rw (rule_tail-carried (o ▹ i) rule, more_parts-carried o (suc i) rules) refl

convert_rules-carried :
    (o : Order Text) (base : ℤ) (rules : List PlacementRuleSpec)
    → convert_rules o base rules ≡ convert_rules o base (plain_rules (carried_rules rules))
unfolding convert_rules first_part
convert_rules-carried o base [] = refl
convert_rules-carried o base (rule ∷ rules) =
    rw (rule_tail-carried (o ▹ 0) rule, more_parts-carried o 1 rules) refl

-- Two strategies with the same base and, in the same order, rules of the same weights, node selectors
-- and affinity terms but for the weights of these terms, are written as the same annotation, or fail
-- with the same error, under the same order of the loops over maps: the weights of the affinity terms
-- and the rebalance policy are lost, as are the names and descriptions of the rules.
pub convert_ignores :
    {F : Type 0} (o : Order Text) (s t : PlacementStrategySpec F)
    → carried_strategy s ≡ carried_strategy t
    → convert_strategy_to_annotation o s ≡ convert_strategy_to_annotation o t
unfolding convert_strategy_to_annotation
convert_ignores o s t same =
    convert_rules-carried o s.base s.rules
    ∙ ap (λ (carried : PlacementStrategy). convert_rules o carried.base (plain_rules carried.rules))
        same
    ∙ sym (convert_rules-carried o t.base t.rules)
