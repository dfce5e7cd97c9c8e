-- ===== src/Api/Apart.antt =====
-- A copy and what it was copied from share nothing.
use kube_smart_scheduler.Prelude.{
  ℕ, suc, ◌≤◌, ◌<◌, ◌≡◌, ◌≢◌, refl, Option, none, some, List, [], ◌∷◌, All, All-map, arith,
}
use kube_smart_scheduler.Api.Memory.{
  Ref, Copier, IsDeep, Ascends, plain, both, pointer, plain-IsDeep, both-IsDeep, part-IsDeep,
  pointer-IsDeep, slice, slice-IsDeep,
}
use mathlib.Core.Path.{subst}
use kube_smart_scheduler.Api.Addresses.{
  addresses_at, policy_addresses, pointer-GoesThrough, policy-GoesThrough,
}
use kube_smart_scheduler.Api.Stored.{StoredPolicy}
use kube_smart_scheduler.Api.DeepCopy.{
  text_map, affinity_rule, placement_rule, time_window, rebalance_policy, strategy, Metav1,
  affinity_rule_part, placement_rule_parts, time_window_part, rebalance_policy_part, strategy_parts,
  spec_parts, reference_part, statistics_part, status_parts, policy_parts, spec, reference,
  statistics, status, policy, policy_object,
}

text_map-IsDeep : IsDeep text_map
text_map-IsDeep = pointer-IsDeep plain plain-IsDeep

affinity_rule-IsDeep : IsDeep affinity_rule
affinity_rule-IsDeep =
    part-IsDeep text_map text_map-IsDeep affinity_rule_part ((λ x r. refl), λ x y r. refl)

placement_rule-IsDeep : IsDeep placement_rule
placement_rule-IsDeep =
    part-IsDeep (both text_map (slice affinity_rule))
      (both-IsDeep text_map text_map-IsDeep (slice affinity_rule)
        (slice-IsDeep affinity_rule affinity_rule-IsDeep))
      placement_rule_parts ((λ x r. refl), λ x y r. refl)

time_window-IsDeep : IsDeep time_window
time_window-IsDeep =
    part-IsDeep (slice plain) (slice-IsDeep plain plain-IsDeep) time_window_part
      ((λ x r. refl), λ x y r. refl)

rebalance_policy-IsDeep : {F : Type 0} → IsDeep (rebalance_policy {F = F})
rebalance_policy-IsDeep =
    part-IsDeep (pointer time_window) (pointer-IsDeep time_window time_window-IsDeep)
      rebalance_policy_part ((λ x r. refl), λ x y r. refl)

strategy-IsDeep : {F : Type 0} → IsDeep (strategy {F = F})
strategy-IsDeep =
    part-IsDeep (both (slice placement_rule) (pointer rebalance_policy))
      (both-IsDeep (slice placement_rule) (slice-IsDeep placement_rule placement_rule-IsDeep)
        (pointer rebalance_policy) (pointer-IsDeep rebalance_policy rebalance_policy-IsDeep))
      strategy_parts ((λ x r. refl), λ x y r. refl)

module _ {S C M L : Type 0} (metav1 : Metav1 S C M L) where
  -- The copies that metav1 makes are deep.
  abbrev pub IsDeepLibrary : Type 0
  IsDeepLibrary =
      IsDeep metav1.selector
      × IsDeep metav1.condition
      × IsDeep metav1.object_meta
      × IsDeep metav1.list_meta
      × IsDeep metav1.time

  spec-IsDeep : {F : Type 0} → IsDeepLibrary → IsDeep (spec {F = F} metav1)
  spec-IsDeep (of_selector, _, _, _, _) =
      part-IsDeep (both (pointer metav1.selector) strategy)
        (both-IsDeep (pointer metav1.selector) (pointer-IsDeep metav1.selector of_selector) strategy
          strategy-IsDeep)
        spec_parts ((λ x r. refl), λ x y r. refl)

  reference-IsDeep : {F : Type 0} → IsDeepLibrary → IsDeep (reference {F = F} metav1)
  reference-IsDeep (_, _, _, _, of_time) =
      part-IsDeep metav1.time of_time reference_part ((λ x r. refl), λ x y r. refl)

  statistics-IsDeep : {F : Type 0} → IsDeepLibrary → IsDeep (statistics {F = F} metav1)
  statistics-IsDeep (_, _, _, _, of_time) =
      part-IsDeep metav1.time of_time statistics_part ((λ x r. refl), λ x y r. refl)

  status-IsDeep : {F : Type 0} → IsDeepLibrary → IsDeep (status {F = F} metav1)
  status-IsDeep library =
      let (_, of_condition, _, _, of_time) = library in
      part-IsDeep
        (both (slice metav1.condition)
          (both (slice (reference metav1)) (both (pointer (statistics metav1)) metav1.time)))
        (both-IsDeep (slice metav1.condition) (slice-IsDeep metav1.condition of_condition)
          (both (slice (reference metav1)) (both (pointer (statistics metav1)) metav1.time))
          (both-IsDeep (slice (reference metav1))
            (slice-IsDeep (reference metav1) (reference-IsDeep library))
            (both (pointer (statistics metav1)) metav1.time)
            (both-IsDeep (pointer (statistics metav1))
              (pointer-IsDeep (statistics metav1) (statistics-IsDeep library)) metav1.time
              of_time)))
        status_parts ((λ x r. refl), λ x y r. refl)

  policy-IsDeep : {F : Type 0} → IsDeepLibrary → IsDeep (policy {F = F} metav1)
  policy-IsDeep library =
      let (_, _, of_meta, _, _) = library in
      part-IsDeep (both metav1.object_meta (both (spec metav1) (status metav1)))
        (both-IsDeep metav1.object_meta of_meta (both (spec metav1) (status metav1))
          (both-IsDeep (spec metav1) (spec-IsDeep library) (status metav1) (status-IsDeep library)))
        policy_parts ((λ x r. refl), λ x y r. refl)

-- No address stands in both lists.
abbrev pub SharesNothing : List ℕ → List ℕ → Type 0
SharesNothing xs ys = All (λ a. All (λ b. a ≢ b) ys) xs

-- No address stands twice.
abbrev pub IsUnshared : List ℕ → Type 0
IsUnshared [] = Unit
IsUnshared (a ∷ addresses) = All (λ b. a ≢ b) addresses × IsUnshared addresses

Ascends-All : (low high : ℕ) (xs : List ℕ) → Ascends low xs high → All (λ a. low ≤ a) xs
Ascends-All low high [] h = tt
Ascends-All low high (a ∷ xs) (here, there) =
    (here, All-map xs (λ b le. omega arith) (Ascends-All (suc a) high xs there))

Ascends-IsUnshared : (low high : ℕ) (xs : List ℕ) → Ascends low xs high → IsUnshared xs
Ascends-IsUnshared low high [] h = tt
Ascends-IsUnshared low high (a ∷ xs) (here, there) = (
  All-map xs (λ b le e. omega (arith, le, e)) (Ascends-All (suc a) high xs there),
  Ascends-IsUnshared (suc a) high xs there,
)

-- The copy has the contents of the original and no address of it, and no address twice.
abbrev pub IsApart : {X : Type 0} → Copier X → (X → List ℕ) → X → X → Type 0
IsApart c addresses_of original copied =
    (c.forget copied ≡ c.forget original)
    × SharesNothing (addresses_of copied) (addresses_of original)
    × IsUnshared (addresses_of copied)

copy-IsApart :
    {X : Type 0} (c : Copier X) (addresses_of : X → List ℕ) (original : X) (free : ℕ)
    → IsDeep c
    → ((x : X) → c.addresses x ≡ addresses_of x)
    → All (λ a. a < free) (addresses_of original)
    → IsApart c addresses_of original (c.copy original free).0
copy-IsApart c addresses_of original free deep all_there used =
    let (up, same) = deep original free in
    let copied = (c.copy original free).0 in
    let high = (c.copy original free).1 in
    let ups = subst (λ xs. Ascends free xs high) (all_there copied) up in
    (
      same,
      All-map (addresses_of copied)
          (λ a le. All-map (addresses_of original) (λ b lt e. omega (arith, le, lt, e)) used)
          (Ascends-All free high (addresses_of copied) ups),
      Ascends-IsUnshared free high (addresses_of copied) ups,
    )

module _ {F S C M L : Type 0} (metav1 : Metav1 S C M L) where
  -- The addresses in a policy that is pointed at, and that of the policy.
  abbrev pub addresses_of_policy : Option (Ref (StoredPolicy F S C M)) → List ℕ
  addresses_of_policy = addresses_at (policy_addresses metav1)

  -- If the copies that metav1 makes are deep, then DeepCopyObject of a policy gives an object that has
  -- the policy's contents, nil for nil, and shares no pointer, slice or map with it, and within which
  -- nothing is shared, whatever the policy shared within itself. The addresses compared are those in
  -- every field of the policy, and the policy lies below the memory that is free.
  pub policy_object-IsApart :
      (original : Option (Ref (StoredPolicy F S C M))) (free : ℕ)
      → IsDeepLibrary metav1
      → All (λ a. a < free) (addresses_of_policy original)
      → IsApart
          (pointer (policy metav1))
          addresses_of_policy
          original
          (policy_object metav1 original free).0
  policy_object-IsApart none free library used = (refl, tt, tt)
  policy_object-IsApart (some ref) free library used =
      copy-IsApart (pointer (policy metav1)) addresses_of_policy (some ref) free
        (pointer-IsDeep (policy metav1) (policy-IsDeep metav1 library))
        (pointer-GoesThrough (policy metav1) (policy_addresses metav1) (policy-GoesThrough metav1))
        used
