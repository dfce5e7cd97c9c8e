-- ===== src/Tests/Runs.antt =====
-- What the definitions compute on those values.
use kube_smart_scheduler.Prelude.{◌≡◌, refl, some, []}
use kube_smart_scheduler.Prelude.Result.{ok}
use kube_smart_scheduler.GoText.{codes}
use kube_smart_scheduler.GoMap.{in_order}
use kube_smart_scheduler.Strategy.Parse.{parse_placement_strategy}
use kube_smart_scheduler.Placement.{choose_rule}
use kube_smart_scheduler.Mutator.{patched}
use kube_smart_scheduler.Mutator.Handle.{handle}
use kube_smart_scheduler.Prelude.Int64.{add64, sub64, bits, signed}
use kube_smart_scheduler.GoText.{
  is_empty, split, trim_space, has_prefix, trim_prefix, text_eq, join, trim_left, trim_right,
  is_space,
}
use kube_smart_scheduler.GoText.Number.{atoi}
use kube_smart_scheduler.GoMap.{insert, lookup, get_or, contains}
use kube_smart_scheduler.Strategy.{rule_to_string, node_selector_to_string}
use kube_smart_scheduler.Strategy.Parse.{
  parse_first_rule, parse_rule, parse_node_selector, parse_affinity_rule,
}
use kube_smart_scheduler.Placement.{
  total_pods, total_weight, weighted_rule, apply_rule, apply_placement_strategy,
}
use kube_smart_scheduler.Counting.{
  counts_of, initial_counts, count_pods, count_by_rule, count_up, is_counted,
  is_node_selector_subset,
}
use kube_smart_scheduler.Parents.{find_parent_deployment}
use kube_smart_scheduler.State.Load.{
  get_placement_state, from_config_map, from_text, create_initial_state, get_current_pod_counts,
  counts_or, initial_or, update_placement_state,
}
use kube_smart_scheduler.State.Increment.{increment_pod_count, increment_from, next_round}
use kube_smart_scheduler.Mutator.{mark, patch_of, get_applied_rule_key}
use kube_smart_scheduler.Mutator.Handle.{
  with_parent, with_annotation, with_strategy, with_state, after_placement, count_pod,
}
use kube_smart_scheduler.Tests.Values.{
  web_annotation, web_strategy, ondemand, spot, web_counts, new_pod, cluster, plain_codec, pod_text,
}
use kube_smart_scheduler.Tests.Rationals.{rationals}

pub web_annotation_parses : parse_placement_strategy web_annotation ≡ ok web_strategy
unfolding parse_placement_strategy parse_first_rule parse_rule parse_node_selector
    parse_affinity_rule is_empty split trim_space trim_left trim_right is_space has_prefix atoi
    trim_prefix insert text_eq
web_annotation_parses = refl

base_goes_ondemand :
    choose_rule rationals in_order in_order (some web_strategy) (web_counts 0 0) ≡ ok ondemand
unfolding choose_rule add64 sub64 get_or text_eq rule_to_string node_selector_to_string join
    total_pods total_weight weighted_rule lookup bits signed
base_goes_ondemand = refl

rest_goes_to_spot :
    choose_rule rationals in_order in_order (some web_strategy) (web_counts 2 1) ≡ ok spot
unfolding choose_rule add64 sub64 get_or text_eq rule_to_string node_selector_to_string join
    total_pods total_weight weighted_rule lookup bits signed
rest_goes_to_spot = refl

web_pod_is_placed :
    (handle cluster plain_codec rationals pod_text in_order in_order (some new_pod) 0).0
    ≡ patched [] (codes "ondemand")
unfolding handle contains text_eq is_empty find_parent_deployment with_parent with_annotation
    with_strategy with_state after_placement count_pod increment_pod_count increment_from next_round
    get_placement_state from_config_map from_text create_initial_state get_current_pod_counts
    counts_or initial_or update_placement_state apply_placement_strategy apply_rule mark patch_of
    get_applied_rule_key counts_of initial_counts count_pods count_by_rule count_up is_counted
    is_node_selector_subset insert choose_rule add64 sub64 get_or rule_to_string
    node_selector_to_string join total_pods total_weight weighted_rule lookup bits signed
    parse_placement_strategy parse_first_rule parse_rule parse_node_selector parse_affinity_rule
    split trim_space trim_left trim_right is_space has_prefix atoi trim_prefix
web_pod_is_placed = refl
