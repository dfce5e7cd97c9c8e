-- ===== src/Placement/Selector.antt =====
-- What applying a rule does to a pod, whatever the order in which the rule's entries are visited.
use mathlib.Core.List.{Permᴰ}
use mathlib.Core.Path.{subst}
use kube_smart_scheduler.Prelude.{
  ℕ, suc, ◌≡◌, refl, sym, ap, ◌∙◌, inl, inr, Bool-cases, true, false, Option, none, some, [], ◌∷◌,
  arith, if◌then◌else◌, length, ltb,
}
use kube_smart_scheduler.GoText.{Text, text_eq, text_eq_iff}
use kube_smart_scheduler.GoMap.{Map, lookup, insert, Order, IsOrder, range}
use kube_smart_scheduler.GoMap.Laws.{lookup-insert, All-perm}
use kube_smart_scheduler.GoMap.Unique.{LacksKey, IsMap, lookup-LacksKey, lookup-cons, lookup-nil}
use kube_smart_scheduler.Strategy.{PlacementRule}
use kube_smart_scheduler.Kube.{Pod}
use kube_smart_scheduler.Placement.{merge, apply_rule}

-- The entry of the first map, or else that of the second.
abbrev pub or_else : Option Text → Option Text → Option Text
or_else none other = other
or_else (some value) other = some value

text_eq_sym : (a b : Text) → text_eq a b ≡ text_eq b a
text_eq_sym a b = ground (arith, text_eq_iff a b, text_eq_iff b a)

-- Merging writes the entries over the map, the last one visited for a key last.
lookup-merge :
    (key : Text) (entries m : Map Text)
    → IsMap entries
    → lookup key (merge entries m) ≡ or_else (lookup key entries) (lookup key m)
unfolding merge
lookup-merge key [] m h = rw (lookup-nil {V = Text} key) refl
lookup-merge key ((j, value) ∷ entries) m (lacks, rest) =
    lookup-merge key entries (insert j value m) rest ∙ elim (Bool-cases (text_eq j key)) [
      | inl same ↦
          let lacks_key = subst (λ k. LacksKey k entries) ((text_eq_iff j key).0 same) lacks in
          rw
            (
              lookup-insert j key value m,
              lookup-cons key j value entries,
              same,
              lookup-LacksKey key entries lacks_key,
            )
            refl
      | inr differ ↦ rw (lookup-insert j key value m, lookup-cons key j value entries, differ) refl
    ]

lookup-swap :
    (key a v b w : Text) (m : Map Text)
    → text_eq b a ≡ false
    → lookup key ((a, v) ∷ (b, w) ∷ m) ≡ lookup key ((b, w) ∷ (a, v) ∷ m)
unfolding lookup
lookup-swap key a v b w m differ =
    ground (arith, text_eq_iff a key, text_eq_iff b key, text_eq_iff b a)

-- Another order of a map is a map that reads the same.
abbrev Same : Map Text → Map Text → Type 0
Same m n = IsMap m × ((key : Text) → lookup key m ≡ lookup key n)

LacksKey-perm : {m n : Map Text} (key : Text) → Permᴰ m n → LacksKey key n → LacksKey key m
LacksKey-perm key p h = All-perm (λ entry. text_eq entry.0 key ≡ false) p h

perm-Same : {m n : Map Text} → Permᴰ m n → IsMap n → Same m n
perm-Same Permᴰ.nil h = (tt, λ key. refl)
perm-Same (Permᴰ.cons {a = a} {b = b} {l₁ = l} {l₂ = k} e p) (lacks, rest) =
    let (is_map, same) = perm-Same p rest in
    (
      (subst (λ x. LacksKey x l) (sym (ap (λ x. x.0) e)) (LacksKey-perm b.0 p lacks), is_map),
      λ key.
          rw e (lookup-cons key b.0 b.1 l ∙ rw (same key) refl ∙ sym (lookup-cons key b.0 b.1 k)),
    )
perm-Same (Permᴰ.swap {a = a} {b = b} {a' = a'} {b' = b'} {l = l} e f)
      ((differ, lacks_a), (lacks_b, rest)) =
    subst (λ x. Same (x ∷ b ∷ l) (a' ∷ b' ∷ l)) (sym e)
      (subst (λ x. Same (b' ∷ x ∷ l) (a' ∷ b' ∷ l)) (sym f)
        (
          ((text_eq_sym a'.0 b'.0 ∙ differ, lacks_b), (lacks_a, rest)),
          λ key. lookup-swap key b'.0 b'.1 a'.0 a'.1 l (text_eq_sym a'.0 b'.0 ∙ differ),
        ))
perm-Same (Permᴰ.trans p q) h =
    let (middle, from_middle) = perm-Same q h in
    let (is_map, to_middle) = perm-Same p middle in (is_map, λ key. to_middle key ∙ from_middle key)

apply_rule-selector :
    (o : Order Text) (rule : PlacementRule) (pod : Pod)
    → (apply_rule o rule pod).node_selector ≡ (
        if ltb 0 (length rule.node_selector)
        then merge (range o rule.node_selector) pod.node_selector
        else pod.node_selector)
unfolding apply_rule
apply_rule-selector o rule pod = elim (Bool-cases (ltb 0 (length rule.affinity))) [
  | inl some_rules ↦ rw some_rules refl
  | inr no_rules ↦ rw no_rules refl
]

zero_ltb-suc : (n : ℕ) → ltb 0 (suc n) ≡ true
zero_ltb-suc n = ground arith

selected :
    (key : Text) (visited entries m : Map Text)
    → Permᴰ visited entries
    → IsMap entries
    → lookup key (if ltb 0 (length entries) then merge visited m else m)
      ≡ or_else (lookup key entries) (lookup key m)
selected key visited [] m p h = rw (lookup-nil {V = Text} key) refl
selected key visited (e ∷ entries) m p h =
    let (is_map, same) = perm-Same p h in
    rw (zero_ltb-suc (length entries)) (lookup-merge key visited m is_map ∙ rw (same key) refl)

-- If the selector of a rule holds each key once, then in whatever order its entries are visited, the
-- pod's selector holds afterwards the rule's value for each key of the rule, and the pod's own value
-- for each other key.
pub lookup-apply_rule :
    (o : Order Text) (rule : PlacementRule) (pod : Pod) (key : Text)
    → IsOrder o
    → IsMap rule.node_selector
    → lookup key (apply_rule o rule pod).node_selector
      ≡ or_else (lookup key rule.node_selector) (lookup key pod.node_selector)
lookup-apply_rule o rule pod key orders is_map =
    ap (lookup key) (apply_rule-selector o rule pod)
    ∙ selected key (range o rule.node_selector) rule.node_selector pod.node_selector
        (orders [] rule.node_selector) is_map
