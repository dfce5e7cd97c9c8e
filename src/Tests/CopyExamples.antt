-- ===== src/Tests/CopyExamples.antt =====
-- The theorems on DeepCopy at a policy in memory.
use kube_smart_scheduler.Prelude.{
  ℕ, ◌<◌, ◌≡◌, refl, Bool, ◌&&◌, ltb, ltb→lt, true, Option, none, some, List, [], ◌∷◌, All, arith,
}
use kube_smart_scheduler.Prelude.Int.{pos}
use kube_smart_scheduler.GoText.{Text, codes}
use kube_smart_scheduler.GoMap.{Map}
use kube_smart_scheduler.Api.Memory.{Ref, plain, pointer, plain-IsDeep, pointer-IsDeep}
use kube_smart_scheduler.Api.Stored.{StoredPlacementRule, StoredPolicy}
use kube_smart_scheduler.Api.DeepCopy.{Metav1, text_map, policy, policy_object}
use kube_smart_scheduler.Api.Apart.{
  IsDeepLibrary, IsApart, addresses_of_policy, policy_object-IsApart,
}

-- Selectors and metadata are maps of labels, conditions are texts.
abbrev labels_library : Metav1 (Option (Ref (Map Text))) Text (Option (Ref (Map Text))) Text
labels_library = record {
  selector = text_map;
  condition = plain;
  object_meta = text_map;
  list_meta = plain;
  time = pointer plain;
}

labels_library-IsDeepLibrary : IsDeepLibrary labels_library
labels_library-IsDeepLibrary = (
  pointer-IsDeep plain plain-IsDeep,
  plain-IsDeep,
  pointer-IsDeep plain plain-IsDeep,
  plain-IsDeep,
  pointer-IsDeep plain plain-IsDeep,
)

abbrev StoredWebPolicy : Type 0
StoredWebPolicy = StoredPolicy ℕ (Option (Ref (Map Text))) Text (Option (Ref (Map Text)))

abbrev at : {X : Type 0} → ℕ → X → Option (Ref X)
at address value = some (record { address = address; value = value })

-- The rule's selector and the policy's labels are one map.
abbrev shared_labels : Option (Ref (Map Text))
shared_labels = at 1 ((codes "app", codes "web") ∷ [])

abbrev stored_rule : StoredPlacementRule
stored_rule = record {
  weight = pos 1;
  node_selector = shared_labels;
  affinity = none;
  name = [];
  description = [];
}

abbrev stored_policy : StoredWebPolicy
stored_policy = record {
  type_meta = record { kind = codes "PodPlacementPolicy"; api_version = codes "v1" };
  object_meta = shared_labels;
  spec = record {
    selector = at 2 shared_labels;
    strategy = record { base = pos 1; rules = at 3 (stored_rule ∷ []); rebalance_policy = none };
    enabled = true;
    priority = pos 7;
  };
  status = record {
    conditions = none;
    matched_deployments = none;
    statistics = none;
    last_rebalance = at 4 1_000;
    observed_generation = pos 1;
  };
}

abbrev below : ℕ → List ℕ → Bool
below bound [] = true
below bound (a ∷ addresses) = ltb a bound && below bound addresses

both_left : (a b : Bool) → (a && b) ≡ true → (a ≡ true) × (b ≡ true)
both_left a b = ground arith

below-All :
    (bound : ℕ) (addresses : List ℕ) → below bound addresses ≡ true → All (λ a. a < bound) addresses
below-All bound [] h = tt
below-All bound (a ∷ addresses) h =
    let (here, there) = both_left (ltb a bound) (below bound addresses) h in
    (ltb→lt a bound here, below-All bound addresses there)

policy_object-IsApart_example :
    IsApart
      (pointer (policy labels_library))
      (addresses_of_policy labels_library)
      (at 6 stored_policy)
      (policy_object labels_library (at 6 stored_policy) 9).0
policy_object-IsApart_example =
    policy_object-IsApart labels_library (at 6 stored_policy) 9 labels_library-IsDeepLibrary
      (below-All 9 (addresses_of_policy {F = ℕ} labels_library (at 6 stored_policy)) refl)
