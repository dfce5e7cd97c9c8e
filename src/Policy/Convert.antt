-- ===== src/Policy/Convert.antt =====
-- convertStrategyToAnnotation (controllers/podplacementpolicy_controller.go): a strategy of the
-- custom resource, written as an annotation. Each loop over a map has an order of its own.
use kube_smart_scheduler.Prelude.{ℕ, suc, List, [], ◌∷◌, ◌++◌, length, ◌==◌, if◌then◌else◌}
use kube_smart_scheduler.Prelude.Int.{ℤ}
use kube_smart_scheduler.Prelude.Result.{Result, ok, err}
use kube_smart_scheduler.GoText.{Text, codes}
use kube_smart_scheduler.GoText.Number.{itoa}
use kube_smart_scheduler.GoMap.{Map, Order, ◌▹◌, range}
use kube_smart_scheduler.Api.{AffinityRuleSpec, PlacementRuleSpec, PlacementStrategySpec}

pub data ConvertError : Type 0 where
  needs_a_rule : ConvertError

-- fmt.Sprintf("%s:%s", key, value)
abbrev pub colon_pair : Text × Text → Text
colon_pair (key, value) = key ++ b':' ∷ value

-- The pairs, a comma between them: the loop that builds nodeSelectorPart.
unfoldable pub selector_text : Map Text → Text
selector_text [] = []
selector_text (e ∷ []) = colon_pair e
selector_text (e ∷ f ∷ es) = colon_pair e ++ b',' ∷ selector_text (f ∷ es)

unfoldable pub selector_part : Order Text → Map Text → Text
unfolding selector_text
selector_part o node_selector =
    if length node_selector == 0
    then []
    else codes ",nodeSelector=" ++ selector_text (range o node_selector)

-- The loop over the labels stops after its first round.
unfoldable pub first_label : Map Text → Text
first_label [] = []
first_label (e ∷ es) = colon_pair e

unfoldable pub affinity_part : Order Text → AffinityRuleSpec → Text
unfolding first_label
affinity_part o a =
    a.kind
    ++ (b'=' ∷ first_label (range o a.label_selector)
        ++ (b':' ∷ a.topology_key
            ++ (if a.required_during_scheduling then codes ":required" else codes ":preferred")))

unfoldable pub affinity_parts : Order Text → ℕ → List AffinityRuleSpec → Text
unfolding affinity_part
affinity_parts o i [] = []
affinity_parts o i (a ∷ rest) = (b',' ∷ affinity_part (o ▹ i) a) ++ affinity_parts o (suc i) rest

-- What follows the weight of a rule.
unfoldable pub rule_tail : Order Text → PlacementRuleSpec → Text
unfolding selector_part affinity_parts
rule_tail o rule =
    selector_part (o ▹ 0) rule.node_selector ++ affinity_parts (o ▹ 1) 0 rule.affinity

unfoldable pub first_part : Order Text → ℤ → PlacementRuleSpec → Text
unfolding rule_tail
first_part o base rule =
    codes "base=" ++ (itoa base ++ (codes ",weight=" ++ (itoa rule.weight ++ rule_tail o rule)))

unfoldable pub rule_part : Order Text → PlacementRuleSpec → Text
unfolding rule_tail
rule_part o rule = codes "weight=" ++ (itoa rule.weight ++ rule_tail o rule)

-- The parts behind the first, each behind a semicolon.
unfoldable pub more_parts : Order Text → ℕ → List PlacementRuleSpec → Text
unfolding rule_part
more_parts o i [] = []
more_parts o i (rule ∷ rules) = (b';' ∷ rule_part (o ▹ i) rule) ++ more_parts o (suc i) rules

unfoldable pub convert_rules : Order Text → ℤ → List PlacementRuleSpec → Result ConvertError Text
unfolding first_part more_parts
convert_rules o base [] = err needs_a_rule
convert_rules o base (rule ∷ rules) = ok (first_part (o ▹ 0) base rule ++ more_parts o 1 rules)

unfoldable pub convert_strategy_to_annotation :
    {F : Type 0} → Order Text → PlacementStrategySpec F → Result ConvertError Text
unfolding convert_rules
convert_strategy_to_annotation o strategy = convert_rules o strategy.base strategy.rules
