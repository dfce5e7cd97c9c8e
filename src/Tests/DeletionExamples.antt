-- ===== src/Tests/DeletionExamples.antt =====
-- What the rebalance controller deletes in the cluster, whose only pod is where none should be yet.
use kube_smart_scheduler.Prelude.{◌≡◌, refl, [], ◌∷◌}
use kube_smart_scheduler.GoText.{
  codes, text_eq, is_empty, split, trim_space, has_prefix, trim_prefix, trim_left, trim_right,
  is_space, join,
}
use kube_smart_scheduler.GoText.Number.{atoi}
use kube_smart_scheduler.GoMap.{in_order, get_or, lookup, insert}
use kube_smart_scheduler.Prelude.Int64.{add64, sub64, bits, signed}
use kube_smart_scheduler.Client.Watched.{deletions, watched}
use kube_smart_scheduler.Strategy.Parse.{
  parse_placement_strategy, parse_first_rule, parse_rule, parse_node_selector, parse_affinity_rule,
}
use kube_smart_scheduler.Placement.{total_pods, total_weight}
use kube_smart_scheduler.Counting.{
  counts_of, initial_counts, count_pods, count_by_rule, count_up, is_counted,
  is_node_selector_subset, entries_hold,
}
use kube_smart_scheduler.State.Load.{
  get_placement_state, from_config_map, create_initial_state, get_current_pod_counts, counts_or,
  initial_or, update_placement_state, save, create_or_update,
}
use kube_smart_scheduler.Rebalance.{
  actual_counts_of, calculate_expected_distribution, drift_totals, drift_percentage,
}
use kube_smart_scheduler.Rebalance.Select.{group_pods, excess_pods, select_pods_for_rebalancing}
use kube_smart_scheduler.Rebalance.Reconcile.{
  report_of, listed_report, calculate_drift, create_rebalance_event, after_delete, delete_pods,
  listed_rebalancing, perform_rebalancing, with_report, with_state, with_strategy, with_annotation,
  with_deployment, reconcile,
}
use kube_smart_scheduler.Rebalance.Deletes.{Deletes}
use kube_smart_scheduler.Rebalance.Deletes.Requests.{reconcile-Deletes}
use kube_smart_scheduler.Tests.Rationals.{rationals}
use kube_smart_scheduler.Tests.Values.{cluster, plain_codec, spot_pod}

reconcile-Deletes_example :
    Deletes
      (reconcile cluster plain_codec rationals
        (λ drift. [])
        in_order
        in_order
        (codes "default")
        (codes "web"))
      (reconcile
        (watched deletions cluster)
        plain_codec
        rationals
        (λ drift. [])
        in_order
        in_order
        (codes "default")
        (codes "web"))
reconcile-Deletes_example =
    reconcile-Deletes cluster plain_codec rationals (λ drift. []) in_order in_order
      (codes "default") (codes "web")

-- The pod goes by the second rule, and the first one comes first.
deletes_the_spot_pod :
    (reconcile
      (watched deletions cluster)
      plain_codec
      rationals
      (λ drift. [])
      in_order
      in_order
      (codes "default")
      (codes "web")
      (0, ([], []))).1.1.1
    ≡ spot_pod ∷ []
unfolding reconcile with_deployment with_annotation with_strategy with_state with_report
    perform_rebalancing listed_rebalancing delete_pods after_delete create_rebalance_event
    calculate_drift listed_report report_of select_pods_for_rebalancing group_pods excess_pods
    actual_counts_of calculate_expected_distribution drift_totals drift_percentage
    get_placement_state from_config_map create_initial_state get_current_pod_counts counts_or
    initial_or update_placement_state save create_or_update parse_placement_strategy
    parse_first_rule parse_rule parse_node_selector parse_affinity_rule is_empty split trim_space
    trim_left trim_right is_space has_prefix atoi trim_prefix insert text_eq get_or lookup join
    counts_of initial_counts count_pods count_by_rule count_up is_counted is_node_selector_subset
    entries_hold total_pods total_weight add64 sub64 bits signed
    kube_smart_scheduler.Strategy.node_selector_to_string
    kube_smart_scheduler.Strategy.rule_to_string kube_smart_scheduler.Rebalance.rule_to_string
    kube_smart_scheduler.Rebalance.node_selector_to_string
deletes_the_spot_pod = refl
