-- ===== src/Tests/TimedExamples.antt =====
-- How long the state manager sleeps, over a server on which every write conflicts.
use kube_smart_scheduler.Prelude.{ℕ, suc, ◌*◌, ◌≡◌, refl}
use kube_smart_scheduler.Prelude.Result.{err}
use kube_smart_scheduler.GoText.{
  codes, text_eq, is_empty, split, trim_space, has_prefix, trim_prefix, trim_left, trim_right,
  is_space,
}
use kube_smart_scheduler.GoText.Number.{atoi}
use kube_smart_scheduler.GoMap.{in_order, get_or, lookup, insert}
use kube_smart_scheduler.Client.{conflict, Client}
use kube_smart_scheduler.Client.Watched.{sleeps, watched}
use kube_smart_scheduler.Strategy.Parse.{
  parse_placement_strategy, parse_first_rule, parse_rule, parse_node_selector, parse_affinity_rule,
}
use kube_smart_scheduler.State.{is_conflict, millisecond}
use kube_smart_scheduler.State.Load.{
  get_placement_state, from_config_map, create_initial_state, get_current_pod_counts, counts_or,
  initial_or, update_placement_state, save, create_or_update,
}
use kube_smart_scheduler.State.Increment.{
  increment_pod_count, increment_from, increment_round, write_back, next_round,
}
use kube_smart_scheduler.State.Waits.{SleepsAtMost, increment_pod_count-SleepsAtMost}
use kube_smart_scheduler.Tests.Values.{cluster, plain_codec, web_deployment}

-- Every attempt to write conflicts.
abbrev contended : Client ℕ
contended = record cluster { create_config_map = λ config_map w. (err conflict, suc w) }

increment_pod_count-SleepsAtMost_example :
    SleepsAtMost
      (600 * millisecond)
      (increment_pod_count contended plain_codec in_order in_order web_deployment
        (codes "node=spot"))
      (increment_pod_count
        (watched sleeps contended)
        plain_codec
        in_order
        in_order
        web_deployment
        (codes "node=spot"))
increment_pod_count-SleepsAtMost_example =
    increment_pod_count-SleepsAtMost contended plain_codec web_deployment (codes "node=spot")
      in_order in_order

-- The bound is reached.
sleeps_for_600_milliseconds :
    (increment_pod_count
      (watched sleeps contended)
      plain_codec
      in_order
      in_order
      web_deployment
      (codes "node=spot")
      (0, 0)).1.1
    ≡ 600 * millisecond
unfolding increment_pod_count increment_from increment_round write_back next_round
    get_placement_state from_config_map create_initial_state get_current_pod_counts counts_or
    initial_or update_placement_state save create_or_update parse_placement_strategy is_conflict
    parse_first_rule parse_rule parse_node_selector parse_affinity_rule is_empty split trim_space
    trim_left trim_right is_space has_prefix atoi trim_prefix insert text_eq get_or lookup
sleeps_for_600_milliseconds = refl
