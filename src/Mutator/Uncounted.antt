-- ===== src/Mutator/Uncounted.antt =====
-- Pods that the webhook places and does not count (webhook/mutate_pod.go).
use kube_smart_scheduler.Prelude.{ℕ, ◌≡◌, refl, ap, ◌∙◌, Option, List, [], ◌∷◌, true}
use kube_smart_scheduler.Prelude.Int.{ℤ}
use kube_smart_scheduler.Prelude.Result.{Result, ok, err}
use kube_smart_scheduler.GoText.{Text, is_empty}
use kube_smart_scheduler.GoMap.{Map, Order, ◌▹◌}
use kube_smart_scheduler.Strategy.{
  PlacementRule, PlacementStrategy, node_selector_to_string, rule_to_string,
}
use kube_smart_scheduler.Kube.{Pod, Deployment}
use kube_smart_scheduler.Client.{Client}
use kube_smart_scheduler.Placement.{PlacementError}
use kube_smart_scheduler.Counting.{is_node_selector_subset}
use kube_smart_scheduler.Float.{FloatOps}
use kube_smart_scheduler.State.{Codec}
use kube_smart_scheduler.Mutator.{applied_entries, match_rules, get_applied_rule_key, mark}
use kube_smart_scheduler.Mutator.Handle.{count_pod, after_placement}

key_without_selector :
    (o : Order Text) (rule : PlacementRule) → rule.node_selector ≡ [] → rule_to_string o rule ≡ []
unfolding rule_to_string node_selector_to_string
key_without_selector o rule e = ap (node_selector_to_string o) e

subset_without_selector :
    (rule : PlacementRule) (selector : Map Text)
    → rule.node_selector ≡ []
    → is_node_selector_subset rule.node_selector selector ≡ true
unfolding is_node_selector_subset
subset_without_selector rule selector e = ap (λ m. is_node_selector_subset m selector) e

match_rules-first :
    (o : Order Text) (i : ℕ) (applied : Map Text) (rule : PlacementRule) (rest : List PlacementRule)
    → rule.node_selector ≡ []
    → match_rules o i applied (rule ∷ rest) ≡ []
unfolding match_rules
match_rules-first o i applied rule rest e =
    rw (subset_without_selector rule applied e) (key_without_selector (o ▹ i) rule e)

-- If the first rule has no selector, then every pod's key is the empty one, by whichever rule the pod
-- was placed.
get_applied_rule_key-first :
    (o : Order Text) (original modified : Pod) (strategy : PlacementStrategy) (rule : PlacementRule)
    (rest : List PlacementRule)
    → strategy.rules ≡ rule ∷ rest
    → rule.node_selector ≡ []
    → get_applied_rule_key o original modified strategy ≡ []
unfolding get_applied_rule_key
get_applied_rule_key-first o original modified strategy rule rest e empty =
    ap (match_rules o 0 (applied_entries original.node_selector modified.node_selector)) e
    ∙ match_rules-first o 0 (applied_entries original.node_selector modified.node_selector) rule
        rest empty

module _ {W F : Type 0} (client : Client W) (codec : Codec) (fl : FloatOps F)
    (marshal_pod : Pod → Option Text) where
  count_pod-empty :
      (o : Order Text) (oc : Order ℤ) (deployment : Deployment) (rule_key : Text) (w : W)
      → rule_key ≡ []
      → count_pod client codec fl marshal_pod o oc deployment rule_key w ≡ (tt, w)
  unfolding count_pod is_empty
  count_pod-empty o oc deployment rule_key w e =
      ap (λ k. count_pod client codec fl marshal_pod o oc deployment k w) e

  -- If the first rule of a strategy has no node selector, then no pod is counted, whichever rule it was
  -- placed by: what follows the placement changes nothing in the world.
  pub after_placement-uncounted :
      (o : Order Text) (oc : Order ℤ) (schedule_strategy : Text) (pod : Pod)
      (deployment : Deployment) (strategy : PlacementStrategy) (placed : Result PlacementError Pod)
      (rule : PlacementRule) (rest : List PlacementRule) (w : W)
      → strategy.rules ≡ rule ∷ rest
      → rule.node_selector ≡ []
      → (after_placement client codec fl marshal_pod o oc schedule_strategy pod deployment strategy
          placed w).1
        ≡ w
  unfolding after_placement
  after_placement-uncounted o oc schedule_strategy pod deployment strategy (err e) rule rest w rules
        empty =
      refl
  after_placement-uncounted o oc schedule_strategy pod deployment strategy (ok placed) rule rest w
        rules empty =
      let marked =
        mark schedule_strategy (get_applied_rule_key (o ▹ 0) pod placed strategy) placed in
      ap (λ done. done.1)
        (count_pod-empty (o ▹ 2) oc deployment (get_applied_rule_key (o ▹ 1) pod marked strategy) w
          (get_applied_rule_key-first (o ▹ 1) pod marked strategy rule rest rules empty))
