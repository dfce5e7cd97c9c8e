-- ===== src/Mutator/Merged.antt =====
-- What a rule makes of a pod, stated apart from the code that does it (webhook/mutate_pod.go,
-- webhook/placement_strategy.go).
use mathlib.Core.List.{Memᴰ}
use kube_smart_scheduler.Prelude.{
  ◌≡◌, refl, ap, ◌∙◌, Bool, Bool-cases, inl, inr, ltb, length, if◌then◌else◌, All-at, true, Option,
  some,
}
use kube_smart_scheduler.GoText.{Text, codes}
use kube_smart_scheduler.GoMap.{Map, lookup, contains, Order, IsOrder}
use kube_smart_scheduler.GoMap.Unique.{IsMap}
use kube_smart_scheduler.Placement.Selector.{or_else, lookup-apply_rule}
use kube_smart_scheduler.Strategy.Parse.Accepted.{HasMaps}
use kube_smart_scheduler.Strategy.{PlacementRule, PlacementStrategy}
use kube_smart_scheduler.Kube.{Pod, Affinity}
use kube_smart_scheduler.Placement.{or_new, no_affinity, apply_affinity_rules, apply_rule}

abbrev pub is_processed : Pod → Bool
is_processed pod = contains (codes "smart-scheduler.io/processed") pod.annotations

-- The affinity that a rule gives a pod: its terms after those that the pod has, if it has terms.
abbrev pub affinity_by : PlacementRule → Pod → Option Affinity
affinity_by r pod =
    if ltb 0 (length r.affinity)
    then some (apply_affinity_rules r.affinity (or_new no_affinity pod.affinity))
    else pod.affinity

-- The selector has the rule's value for each key of the rule, and that of the pod for the others.
abbrev pub IsMergedBy : PlacementRule → Pod → Map Text → Type 0
IsMergedBy r pod selector =
    (key : Text)
    → lookup key selector ≡ or_else (lookup key r.node_selector) (lookup key pod.node_selector)

-- The pod is marked as processed, and has the selector and the affinity that a rule of the strategy
-- gives the pod that came.
abbrev pub IsPlacedBy : PlacementStrategy → Pod → Pod → Type 0
IsPlacedBy strategy pod modified =
    (r : PlacementRule) × Memᴰ r strategy.rules
    × IsMergedBy r pod modified.node_selector
    × (modified.affinity ≡ affinity_by r pod)
    × (is_processed modified ≡ true)

apply_rule-affinity :
    (o : Order Text) (r : PlacementRule) (pod : Pod)
    → (apply_rule o r pod).affinity ≡ affinity_by r pod
unfolding apply_rule
apply_rule-affinity o r pod = elim (Bool-cases (ltb 0 (length r.affinity))) [
  | inl some_rules ↦ rw some_rules refl
  | inr no_rules ↦ rw no_rules refl
]

-- A rule of a strategy, which has maps for selectors, places a pod.
pub apply_rule-IsPlacedBy :
    (o : Order Text) (r : PlacementRule) (strategy : PlacementStrategy) (pod modified : Pod)
    → IsOrder o
    → HasMaps strategy
    → Memᴰ r strategy.rules
    → modified.node_selector ≡ (apply_rule o r pod).node_selector
    → modified.affinity ≡ (apply_rule o r pod).affinity
    → is_processed modified ≡ true
    → IsPlacedBy strategy pod modified
apply_rule-IsPlacedBy o r strategy pod modified order maps member selected aimed processed = (
  r,
  member,
  λ key.
      ap (lookup key) selected
      ∙ lookup-apply_rule o r pod key order
          (All-at (λ rule. IsMap rule.node_selector) strategy.rules r maps member),
  aimed ∙ apply_rule-affinity o r pod,
  processed,
)
