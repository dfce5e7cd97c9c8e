-- ===== src/Tests/Examples.antt =====
-- The theorems at the concrete values.
use kube_smart_scheduler.Prelude.{
  ℕ, ltb, ◌+◌, ◌≡◌, ◌≢◌, ◌↔◌, refl, inr, Bool, true, false, none, Option, not, ◌||◌, ◌&&◌, ◌==◌,
  some, [], ◌∷◌, All, arith, if◌then◌else◌,
}
use kube_smart_scheduler.Prelude.Int.{ℤ, pos, negsuc, ltb_ℤ}
use kube_smart_scheduler.Prelude.Int64.{add64, sub64, bits, signed}
use kube_smart_scheduler.Prelude.Result.{ok, err}
use kube_smart_scheduler.GoText.{Text, codes, is_space, text_eq, join}
use kube_smart_scheduler.GoMap.{get_or, lookup, in_order, range}
use kube_smart_scheduler.Strategy.{
  PlacementRule, PlacementStrategy, rule_to_string, node_selector_to_string,
}
use kube_smart_scheduler.Strategy.Parse.{parse_placement_strategy}
use kube_smart_scheduler.Strategy.Parse.Names.{IsPlain, IsName}
use kube_smart_scheduler.Strategy.Parse.Valid.{IsValidStrategy}
use kube_smart_scheduler.Strategy.Parse.Accepted.{parse-IsValidStrategy}
use kube_smart_scheduler.Policy.Convert.{convert_strategy_to_annotation}
use kube_smart_scheduler.Policy.RoundTrip.{IsPlainSpec, kept_strategy}
use kube_smart_scheduler.Policy.RoundTrip.Annotation.{parse-convert}
use kube_smart_scheduler.Policy.RoundTrip.Whole.{
  parse-convert_whole, carried_strategy, convert_drops_selectors, AtMostOne,
}
use kube_smart_scheduler.Policy.RoundTrip.Lost.{convert_ignores}
use kube_smart_scheduler.Api.{PlacementStrategySpec, RebalancePolicySpec}
use kube_smart_scheduler.Placement.{
  PlacementError, total_pods, total_weight, is_zero, choose_rule, weighted_rule, shortfall,
}
use kube_smart_scheduler.Placement.Selector.{or_else, lookup-apply_rule}
use kube_smart_scheduler.GoMap.{lookup}
use kube_smart_scheduler.Placement.{apply_rule}
use kube_smart_scheduler.Placement.Best.{AllExact, IsChoice}
use kube_smart_scheduler.Placement.Choice.{
  beyond_base, choose_rule-count_all, choose_rule-IsChoice, choose_rule-Fails_iff, Fails,
}
use kube_smart_scheduler.Placement.Totals.{count_all}
use kube_smart_scheduler.Tests.Rationals.{rationals, rationals-FloatLaws}
use kube_smart_scheduler.Tests.Runs.{web_annotation_parses}
use kube_smart_scheduler.Tests.Values.{
  new_pod, web_annotation, web_strategy, web_spec, two_labels_spec, ondemand, spot, web_counts,
  in_order-IsOrder,
}

abbrev is_plain : ℕ → Bool
is_plain c = not (is_space c || c == b',' || c == b';' || c == b':' || c == b'=')

abbrev all_plain : Text → Bool
all_plain [] = true
all_plain (c ∷ s) = is_plain c && all_plain s

all_plain-All : (s : Text) → all_plain s ≡ true → All IsPlain s
all_plain-All [] h = tt
all_plain-All (c ∷ s) h = (ground arith, all_plain-All s (ground arith))

name : (c : ℕ) (s : Text) → all_plain (c ∷ s) ≡ true → IsName (c ∷ s)
name c s h = (λ e. cc, all_plain-All (c ∷ s) h)

pub web_spec-IsPlainSpec : IsPlainSpec web_spec
unfolding is_space
web_spec-IsPlainSpec = (
  (ground arith, ground arith),
  λ e. cc,
  (
    (
      (ground arith, ground arith),
      ((name _ _ refl, name _ _ refl), tt),
      ((inr refl, (λ e. cc), ((name _ _ refl, name _ _ refl), tt), name _ _ refl), tt),
    ),
    tt,
  ),
)

two_labels_spec-IsPlainSpec : IsPlainSpec two_labels_spec
unfolding is_space
two_labels_spec-IsPlainSpec = (
  (ground arith, ground arith),
  λ e. cc,
  (
    (
      (ground arith, ground arith),
      ((name _ _ refl, name _ _ refl), ((name _ _ refl, name _ _ refl), tt)),
      tt,
    ),
    tt,
  ),
)

parse-IsValidStrategy_example : IsValidStrategy web_strategy × (web_strategy.rules ≢ [])
parse-IsValidStrategy_example =
    parse-IsValidStrategy web_annotation web_strategy web_annotation_parses

parse-convert_example :
    (annotation : Text) × (convert_strategy_to_annotation in_order two_labels_spec ≡ ok annotation)
    × (parse_placement_strategy annotation ≡ ok (kept_strategy in_order two_labels_spec))
parse-convert_example =
    parse-convert in_order two_labels_spec in_order-IsOrder two_labels_spec-IsPlainSpec

parse-convert_whole_example :
    (annotation : Text) × (convert_strategy_to_annotation in_order web_spec ≡ ok annotation)
    × (parse_placement_strategy annotation ≡ ok (carried_strategy web_spec))
parse-convert_whole_example =
    parse-convert_whole in_order web_spec in_order-IsOrder web_spec-IsPlainSpec
      ((omega arith, (omega arith, tt)), tt)

convert_drops_selectors_example :
    (annotation : Text) × (strategy : PlacementStrategy) × (convert_strategy_to_annotation in_order
        two_labels_spec
      ≡ ok annotation)
    × (parse_placement_strategy annotation ≡ ok strategy)
    × All AtMostOne strategy.rules
convert_drops_selectors_example =
    convert_drops_selectors in_order two_labels_spec in_order-IsOrder two_labels_spec-IsPlainSpec

no_pods : total_pods (web_counts 0 0) (pos 0) ≡ pos 0
unfolding total_pods add64 bits signed
no_pods = refl

choose_rule-count_all_example :
    choose_rule rationals in_order in_order
      (some web_strategy)
      (count_all (codes "node=ondemand" ∷ []) (web_counts 0 0))
    ≡ (if ltb (0 + 1) 1
        then ok ondemand
        else weighted_rule rationals in_order web_strategy
            (count_all (codes "node=ondemand" ∷ []) (web_counts 0 0))
            (pos (0 + 1)))
choose_rule-count_all_example =
    choose_rule-count_all rationals in_order in_order in_order-IsOrder web_strategy ondemand
      (spot ∷ []) 1 0 (web_counts 0 0) (codes "node=ondemand" ∷ []) refl refl no_pods (omega arith)

above_base : ltb_ℤ (total_pods (range in_order (web_counts 2 1)) (pos 0)) web_strategy.base ≡ false
unfolding total_pods add64 bits signed
above_base = refl

weighted : is_zero (total_weight (ondemand ∷ spot ∷ []) (pos 0)) ≡ false
unfolding total_weight add64 bits signed
weighted = refl

abbrev web_totalw : ℤ
web_totalw = total_weight (ondemand ∷ spot ∷ []) (pos 0)

abbrev web_beyond : ℤ
web_beyond = beyond_base web_strategy (total_pods (range in_order (web_counts 2 1)) (pos 0))

all_exact :
    AllExact rationals rationals-FloatLaws in_order web_totalw web_beyond
      (web_counts 2 1)
      0
      (ondemand ∷ spot ∷ [])
unfolding total_weight total_pods shortfall add64 sub64 bits signed rule_to_string
    node_selector_to_string join get_or lookup text_eq
all_exact = ((omega arith, omega arith), ((omega arith, omega arith), tt))

choose_rule-IsChoice_example :
    (r : PlacementRule) × (choose_rule rationals in_order in_order
        (some web_strategy)
        (web_counts 2 1)
      ≡ ok r)
    × IsChoice rationals rationals-FloatLaws in_order web_totalw web_beyond
        (web_counts 2 1)
        ondemand
        (negsuc 0)
        0
        (ondemand ∷ spot ∷ [])
        r
choose_rule-IsChoice_example =
    choose_rule-IsChoice rationals in_order in_order rationals-FloatLaws web_strategy ondemand
      (spot ∷ []) (web_counts 2 1) refl above_base weighted all_exact

choose_rule-Fails_iff_example :
    ((e : PlacementError) × (choose_rule rationals in_order in_order
          (some web_strategy)
          (web_counts 2 1)
        ≡ err e))
    ↔ Fails rationals in_order in_order web_strategy (web_counts 2 1)
choose_rule-Fails_iff_example =
    choose_rule-Fails_iff rationals in_order in_order web_strategy (web_counts 2 1)

lookup-apply_rule_example :
    lookup (codes "node") (apply_rule in_order spot new_pod).node_selector
    ≡ or_else
        (lookup (codes "node") spot.node_selector)
        (lookup (codes "node") new_pod.node_selector)
lookup-apply_rule_example =
    lookup-apply_rule in_order spot new_pod (codes "node") in_order-IsOrder (tt, tt)

-- One rule with a preferred term of this weight.
abbrev soft_spec : ℤ → Option (RebalancePolicySpec ℕ) → PlacementStrategySpec ℕ
soft_spec weight rebalance_policy = record {
  base = pos 1;
  rules =
      record {
        weight = pos 1;
        node_selector = (codes "node", codes "spot") ∷ [];
        affinity =
            record {
              kind = codes "anti-affinity";
              label_selector = (codes "app", codes "web") ∷ [];
              topology_key = codes "zone";
              required_during_scheduling = false;
              weight = weight;
            }
            ∷ [];
        name = [];
        description = [];
      }
      ∷ [];
  rebalance_policy = rebalance_policy;
}

abbrev half_hourly : RebalancePolicySpec ℕ
half_hourly = record {
  enabled = true;
  drift_threshold = 20;
  check_interval = 1_800;
  max_pods_per_rebalance = pos 2;
  rebalance_window = none;
}

convert_ignores_example :
    convert_strategy_to_annotation in_order (soft_spec (pos 80) (some half_hourly))
    ≡ convert_strategy_to_annotation in_order (soft_spec (pos 5) none)
convert_ignores_example =
    convert_ignores in_order (soft_spec (pos 80) (some half_hourly)) (soft_spec (pos 5) none) refl
