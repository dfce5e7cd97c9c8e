-- ===== src/Api/Addresses.antt =====
-- The addresses in an object of api/v1/podplacementpolicy_types.go, field by field, whatever the
-- methods DeepCopyInto do.
use kube_smart_scheduler.Prelude.{ℕ, ◌≡◌, refl, ap, ◌∙◌, Option, none, some, List, [], ◌∷◌, ◌++◌}
use kube_smart_scheduler.GoText.{Text}
use kube_smart_scheduler.GoMap.{Map}
use kube_smart_scheduler.Api.Memory.{Ref, Copier, plain, pointer, elements, slice}
use kube_smart_scheduler.Api.Stored.{
  StoredAffinityRule, StoredPlacementRule, StoredTimeWindow, StoredRebalancePolicy, StoredStrategy,
  StoredSpec, StoredReference, StoredStatistics, StoredStatus, StoredPolicy,
}
use kube_smart_scheduler.Api.DeepCopy.{
  text_map, affinity_rule, placement_rule, time_window, rebalance_policy, strategy, Metav1, spec,
  reference, statistics, status, policy,
}

module _ {X : Type 0} (inner : X → List ℕ) where
  abbrev pub addresses_in : List X → List ℕ
  addresses_in [] = []
  addresses_in (x ∷ xs) = inner x ++ addresses_in xs

  -- Of a pointer, a slice or a map: its own, and those of what is stored there.
  abbrev pub addresses_at : Option (Ref X) → List ℕ
  addresses_at none = []
  addresses_at (some ref) = ref.address ∷ inner ref.value

abbrev no_addresses : {X : Type 0} → X → List ℕ
no_addresses x = []

abbrev map_addresses : Option (Ref (Map Text)) → List ℕ
map_addresses = addresses_at no_addresses

abbrev affinity_rule_addresses : StoredAffinityRule → List ℕ
affinity_rule_addresses r = map_addresses r.label_selector

abbrev placement_rule_addresses : StoredPlacementRule → List ℕ
placement_rule_addresses r =
    map_addresses r.node_selector ++ addresses_at (addresses_in affinity_rule_addresses) r.affinity

abbrev time_window_addresses : StoredTimeWindow → List ℕ
time_window_addresses w = addresses_at no_addresses w.days

module _ {F : Type 0} where
  abbrev rebalance_policy_addresses : StoredRebalancePolicy F → List ℕ
  rebalance_policy_addresses p = addresses_at time_window_addresses p.rebalance_window

  abbrev strategy_addresses : StoredStrategy F → List ℕ
  strategy_addresses s =
      addresses_at (addresses_in placement_rule_addresses) s.rules
      ++ addresses_at rebalance_policy_addresses s.rebalance_policy

-- In what metav1 has for its own types.
module _ {F S C M L : Type 0} (metav1 : Metav1 S C M L) where
  abbrev spec_addresses : StoredSpec F S → List ℕ
  spec_addresses s =
      addresses_at metav1.selector.addresses s.selector ++ strategy_addresses s.strategy

  abbrev reference_addresses : StoredReference F → List ℕ
  reference_addresses r = metav1.time.addresses r.last_applied

  abbrev statistics_addresses : StoredStatistics F → List ℕ
  statistics_addresses s = metav1.time.addresses s.last_updated

  abbrev status_addresses : StoredStatus F C → List ℕ
  status_addresses s =
      addresses_at (addresses_in metav1.condition.addresses) s.conditions
      ++ (addresses_at (addresses_in reference_addresses) s.matched_deployments
          ++ (addresses_at statistics_addresses s.statistics
              ++ metav1.time.addresses s.last_rebalance))

  abbrev pub policy_addresses : StoredPolicy F S C M → List ℕ
  policy_addresses p =
      metav1.object_meta.addresses p.object_meta
      ++ (spec_addresses p.spec ++ status_addresses p.status)

-- What a copier of the code goes through is all that there is.
abbrev GoesThrough : {X : Type 0} → Copier X → (X → List ℕ) → Type 0
GoesThrough {X} c inner = (x : X) → c.addresses x ≡ inner x

append_both : {xs xs' ys ys' : List ℕ} → xs ≡ xs' → ys ≡ ys' → xs ++ ys ≡ xs' ++ ys'
append_both {xs' = xs'} {ys = ys} e f = ap (λ v. v ++ ys) e ∙ ap (λ v. xs' ++ v) f

module _ {X : Type 0} (c : Copier X) (inner : X → List ℕ) (h : GoesThrough c inner) where
  pub pointer-GoesThrough : GoesThrough (pointer c) (addresses_at inner)
  pointer-GoesThrough none = refl
  pointer-GoesThrough (some ref) = ap (λ v. ref.address ∷ v) (h ref.value)

  elements-GoesThrough : GoesThrough (elements c) (addresses_in inner)
  elements-GoesThrough [] = refl
  elements-GoesThrough (x ∷ xs) = append_both (h x) (elements-GoesThrough xs)

slice-GoesThrough :
    {X : Type 0} (c : Copier X) (inner : X → List ℕ)
    → GoesThrough c inner
    → GoesThrough (slice c) (addresses_at (addresses_in inner))
slice-GoesThrough c inner h =
    pointer-GoesThrough (elements c) (addresses_in inner) (elements-GoesThrough c inner h)

text_map-GoesThrough : GoesThrough text_map map_addresses
text_map-GoesThrough none = refl
text_map-GoesThrough (some ref) = refl

affinity_rule-GoesThrough : GoesThrough affinity_rule affinity_rule_addresses
affinity_rule-GoesThrough r = text_map-GoesThrough r.label_selector

placement_rule-GoesThrough : GoesThrough placement_rule placement_rule_addresses
placement_rule-GoesThrough r =
    append_both (text_map-GoesThrough r.node_selector)
      (slice-GoesThrough affinity_rule affinity_rule_addresses affinity_rule-GoesThrough r.affinity)

time_window-GoesThrough : GoesThrough time_window time_window_addresses
time_window-GoesThrough w = days_only w.days
  where
    no_texts : (days : List Text) → (elements {X = Text} plain).addresses days ≡ []
    no_texts [] = refl
    no_texts (day ∷ days) = no_texts days

    days_only :
        (days : Option (Ref (List Text)))
        → (slice {X = Text} plain).addresses days ≡ addresses_at no_addresses days
    days_only none = refl
    days_only (some ref) = ap (λ v. ref.address ∷ v) (no_texts ref.value)

module _ {F : Type 0} where
  rebalance_policy-GoesThrough :
      GoesThrough (rebalance_policy {F = F}) (rebalance_policy_addresses {F = F})
  rebalance_policy-GoesThrough p =
      pointer-GoesThrough time_window time_window_addresses time_window-GoesThrough
        p.rebalance_window

  strategy-GoesThrough : GoesThrough (strategy {F = F}) (strategy_addresses {F = F})
  strategy-GoesThrough s =
      append_both
        (slice-GoesThrough placement_rule placement_rule_addresses placement_rule-GoesThrough
          s.rules)
        (pointer-GoesThrough rebalance_policy rebalance_policy_addresses
          rebalance_policy-GoesThrough s.rebalance_policy)

module _ {F S C M L : Type 0} (metav1 : Metav1 S C M L) where
  spec-GoesThrough : GoesThrough (spec {F = F} metav1) (spec_addresses metav1)
  spec-GoesThrough s =
      append_both
        (pointer-GoesThrough metav1.selector metav1.selector.addresses (λ x. refl) s.selector)
        (strategy-GoesThrough s.strategy)

  status-GoesThrough : GoesThrough (status {F = F} metav1) (status_addresses metav1)
  status-GoesThrough s =
      append_both
        (slice-GoesThrough metav1.condition metav1.condition.addresses (λ x. refl) s.conditions)
        (append_both
          (slice-GoesThrough (reference metav1) (reference_addresses metav1) (λ x. refl)
            s.matched_deployments)
          (append_both
            (pointer-GoesThrough (statistics metav1) (statistics_addresses metav1) (λ x. refl)
              s.statistics)
            refl))

  pub policy-GoesThrough : GoesThrough (policy {F = F} metav1) (policy_addresses metav1)
  policy-GoesThrough p =
      append_both refl (append_both (spec-GoesThrough p.spec) (status-GoesThrough p.status))
