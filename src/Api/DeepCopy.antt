-- ===== src/Api/DeepCopy.antt =====
-- The methods DeepCopyInto, DeepCopy and DeepCopyObject (api/v1/podplacementpolicy_types.go). Each
-- copier names the parts that are copied after the assignment of the whole, in the order of the code.
-- Those of metav1 are parameters.
use kube_smart_scheduler.Prelude.{ℕ, Option, none, some, List}
use kube_smart_scheduler.GoText.{Text}
use kube_smart_scheduler.GoMap.{Map}
use kube_smart_scheduler.Client.{Act, ◌>>=◌, pure}
use kube_smart_scheduler.Api.Memory.{Ref, Copier, plain, both, Part, part, pointer, slice}
use kube_smart_scheduler.Api.Stored.{
  StoredAffinityRule, StoredPlacementRule, StoredTimeWindow, StoredRebalancePolicy, StoredStrategy,
  StoredSpec, StoredReference, StoredStatistics, StoredStatus, StoredPolicy, StoredPolicyList,
}

-- A map is made, and its entries are assigned to it.
abbrev pub text_map : Copier (Option (Ref (Map Text)))
text_map = pointer plain

abbrev pub affinity_rule_part : Part StoredAffinityRule (Option (Ref (Map Text)))
affinity_rule_part = record {
  get = λ r. r.label_selector;
  put = λ labels r. record r { label_selector = labels };
}

abbrev pub affinity_rule : Copier StoredAffinityRule
affinity_rule = part affinity_rule_part text_map

abbrev pub placement_rule_parts :
    Part StoredPlacementRule (Option (Ref (Map Text)) × Option (Ref (List StoredAffinityRule)))
placement_rule_parts = record {
  get = λ r. (r.node_selector, r.affinity);
  put = λ p r. record r { node_selector = p.0; affinity = p.1 };
}

abbrev pub placement_rule : Copier StoredPlacementRule
placement_rule = part placement_rule_parts (both text_map (slice affinity_rule))

abbrev pub time_window_part : Part StoredTimeWindow (Option (Ref (List Text)))
time_window_part = record { get = λ w. w.days; put = λ days w. record w { days = days } }

-- copy(*out, *in)
abbrev pub time_window : Copier StoredTimeWindow
time_window = part time_window_part (slice plain)

abbrev pub rebalance_policy_part :
    {F : Type 0} → Part (StoredRebalancePolicy F) (Option (Ref StoredTimeWindow))
rebalance_policy_part = record {
  get = λ p. p.rebalance_window;
  put = λ window p. record p { rebalance_window = window };
}

abbrev pub rebalance_policy : {F : Type 0} → Copier (StoredRebalancePolicy F)
rebalance_policy = part rebalance_policy_part (pointer time_window)

abbrev pub strategy_parts :
    {F : Type 0}
    → Part
        (StoredStrategy F)
        (Option (Ref (List StoredPlacementRule)) × Option (Ref (StoredRebalancePolicy F)))
strategy_parts = record {
  get = λ s. (s.rules, s.rebalance_policy);
  put = λ p s. record s { rules = p.0; rebalance_policy = p.1 };
}

abbrev pub strategy : {F : Type 0} → Copier (StoredStrategy F)
strategy = part strategy_parts (both (slice placement_rule) (pointer rebalance_policy))

-- What metav1 has for the types of its own that the code copies. The method DeepCopy of *Time is only
-- called where the pointer is not nil.
pub record Metav1 (S C M L : Type 0) : Type 0 where
  pub selector : Copier S
  pub condition : Copier C
  pub object_meta : Copier M
  pub list_meta : Copier L
  pub time : Copier (Option (Ref ℕ))

abbrev pub spec_parts : {F S : Type 0} → Part (StoredSpec F S) (Option (Ref S) × StoredStrategy F)
spec_parts = record {
  get = λ s. (s.selector, s.strategy);
  put = λ p s. record s { selector = p.0; strategy = p.1 };
}

abbrev pub reference_part : {F : Type 0} → Part (StoredReference F) (Option (Ref ℕ))
reference_part = record {
  get = λ r. r.last_applied;
  put = λ time r. record r { last_applied = time };
}

abbrev pub statistics_part : {F : Type 0} → Part (StoredStatistics F) (Option (Ref ℕ))
statistics_part = record {
  get = λ s. s.last_updated;
  put = λ time s. record s { last_updated = time };
}

abbrev pub status_parts :
    {F C : Type 0}
    → Part (StoredStatus F C) (
        Option (Ref (List C))
        × (Option (Ref (List (StoredReference F)))
            × (Option (Ref (StoredStatistics F)) × Option (Ref ℕ))))
status_parts = record {
  get = λ s. (s.conditions, (s.matched_deployments, (s.statistics, s.last_rebalance)));
  put = λ p s. record s {
    conditions = p.0;
    matched_deployments = p.1.0;
    statistics = p.1.1.0;
    last_rebalance = p.1.1.1;
  };
}

abbrev pub policy_parts :
    {F S C M : Type 0} → Part (StoredPolicy F S C M) (M × (StoredSpec F S × StoredStatus F C))
policy_parts = record {
  get = λ p. (p.object_meta, (p.spec, p.status));
  put = λ q p. record p { object_meta = q.0; spec = q.1.0; status = q.1.1 };
}

abbrev pub policy_list_parts :
    {F S C M L : Type 0}
    → Part (StoredPolicyList F S C M L) (L × Option (Ref (List (StoredPolicy F S C M))))
policy_list_parts = record {
  get = λ l. (l.list_meta, l.items);
  put = λ p l. record l { list_meta = p.0; items = p.1 };
}

module _ {F S C M L : Type 0} (metav1 : Metav1 S C M L) where
  abbrev pub spec : Copier (StoredSpec F S)
  spec = part spec_parts (both (pointer metav1.selector) strategy)

  abbrev pub reference : Copier (StoredReference F)
  reference = part reference_part metav1.time

  abbrev pub statistics : Copier (StoredStatistics F)
  statistics = part statistics_part metav1.time

  abbrev pub status : Copier (StoredStatus F C)
  status = part status_parts (
      both (slice metav1.condition)
        (both (slice reference) (both (pointer statistics) metav1.time)))

  abbrev pub policy : Copier (StoredPolicy F S C M)
  policy = part policy_parts (both metav1.object_meta (both spec status))

  abbrev pub policy_list : Copier (StoredPolicyList F S C M L)
  policy_list = part policy_list_parts (both metav1.list_meta (slice policy))

-- The method DeepCopy: nil for nil, and else a new object, into which the old one is copied.
abbrev pub deep_copy : {X : Type 0} → Copier X → Option (Ref X) → Act ℕ (Option (Ref X))
deep_copy c = (pointer c).copy

-- An object is nil or a pointer that is not nil.
abbrev pub object_of : {X : Type 0} → Option (Ref X) → Option (Ref X)
object_of (some c) = some c
object_of none = none

abbrev pub deep_copy_affinity_rule :
    Option (Ref StoredAffinityRule) → Act ℕ (Option (Ref StoredAffinityRule))
deep_copy_affinity_rule = deep_copy affinity_rule

abbrev pub deep_copy_placement_rule :
    Option (Ref StoredPlacementRule) → Act ℕ (Option (Ref StoredPlacementRule))
deep_copy_placement_rule = deep_copy placement_rule

abbrev pub deep_copy_time_window :
    Option (Ref StoredTimeWindow) → Act ℕ (Option (Ref StoredTimeWindow))
deep_copy_time_window = deep_copy time_window

module _ {F : Type 0} where
  abbrev pub deep_copy_rebalance_policy :
      Option (Ref (StoredRebalancePolicy F)) → Act ℕ (Option (Ref (StoredRebalancePolicy F)))
  deep_copy_rebalance_policy = deep_copy rebalance_policy

  abbrev pub deep_copy_strategy :
      Option (Ref (StoredStrategy F)) → Act ℕ (Option (Ref (StoredStrategy F)))
  deep_copy_strategy = deep_copy strategy

module _ {F S C M L : Type 0} (metav1 : Metav1 S C M L) where
  abbrev pub deep_copy_spec : Option (Ref (StoredSpec F S)) → Act ℕ (Option (Ref (StoredSpec F S)))
  deep_copy_spec = deep_copy (spec metav1)

  abbrev pub deep_copy_reference :
      Option (Ref (StoredReference F)) → Act ℕ (Option (Ref (StoredReference F)))
  deep_copy_reference = deep_copy (reference metav1)

  abbrev pub deep_copy_statistics :
      Option (Ref (StoredStatistics F)) → Act ℕ (Option (Ref (StoredStatistics F)))
  deep_copy_statistics = deep_copy (statistics metav1)

  abbrev pub deep_copy_status :
      Option (Ref (StoredStatus F C)) → Act ℕ (Option (Ref (StoredStatus F C)))
  deep_copy_status = deep_copy (status metav1)

  abbrev pub deep_copy_policy :
      Option (Ref (StoredPolicy F S C M)) → Act ℕ (Option (Ref (StoredPolicy F S C M)))
  deep_copy_policy = deep_copy (policy metav1)

  abbrev pub deep_copy_policy_list :
      Option (Ref (StoredPolicyList F S C M L)) → Act ℕ (Option (Ref (StoredPolicyList F S C M L)))
  deep_copy_policy_list = deep_copy (policy_list metav1)

  -- DeepCopyObject of each of the two kinds of objects.
  abbrev pub policy_object :
      Option (Ref (StoredPolicy F S C M)) → Act ℕ (Option (Ref (StoredPolicy F S C M)))
  policy_object original = deep_copy_policy original >>= (λ copied. pure (object_of copied))

  abbrev pub policy_list_object :
      Option (Ref (StoredPolicyList F S C M L)) → Act ℕ (Option (Ref (StoredPolicyList F S C M L)))
  policy_list_object original =
      deep_copy_policy_list original >>= (λ copied. pure (object_of copied))
