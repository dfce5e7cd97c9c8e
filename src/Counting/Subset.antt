-- ===== src/Counting/Subset.antt =====
-- isNodeSelectorSubset (webhook/mutate_pod.go) as inclusion of maps.
use kube_smart_scheduler.Prelude.{
  ◌≡◌, ◌↔◌, refl, sym, ap, ◌∙◌, inl, inr, Bool, Bool-cases, true, false, ◌&&◌, Option, none, some,
  [], ◌∷◌, arith,
}
use kube_smart_scheduler.GoText.{Text, text_eq, text_eq_iff, text_eq_refl}
use kube_smart_scheduler.GoMap.{Map, lookup}
use kube_smart_scheduler.GoMap.Unique.{LacksKey, IsMap, lookup-nil, lookup-cons, lookup-LacksKey}
use kube_smart_scheduler.Counting.{has_value, entries_hold, is_node_selector_subset}

-- The pod's selector has every entry of the rule's.
abbrev pub IsIncluded : Map Text → Map Text → Type 0
IsIncluded rule_selector pod_selector =
    (key value : Text)
    → lookup key rule_selector ≡ some value
    → lookup key pod_selector ≡ some value

has_value-some : (value : Text) (o : Option Text) → has_value value o ≡ true → o ≡ some value
has_value-some value none h = cc
has_value-some value (some other) h = ap some ((text_eq_iff other value).0 h)

has_value_self : (value : Text) (o : Option Text) → o ≡ some value → has_value value o ≡ true
has_value_self value o e = ap (has_value value) e ∙ text_eq_refl value

none-is-not-some : (a : Text) → ◌≡◌ {A = Option Text} none (some a) → ⊥
none-is-not-some a e = cc

split_and : (a b : Bool) → (a && b) ≡ true → (a ≡ true) × (b ≡ true)
split_and a b = ground arith

lookup-first :
    (key value : Text) (entries : Map Text) → lookup key ((key, value) ∷ entries) ≡ some value
lookup-first key value entries = rw (lookup-cons key key value entries, text_eq_refl key) refl

lookup-later :
    (key first value : Text) (entries : Map Text)
    → text_eq first key ≡ false
    → lookup key ((first, value) ∷ entries) ≡ lookup key entries
lookup-later key first value entries e = rw (lookup-cons key first value entries, e) refl

entries_hold-IsIncluded :
    (entries pod_selector : Map Text)
    → entries_hold entries pod_selector ≡ true
    → IsIncluded entries pod_selector
unfolding entries_hold
entries_hold-IsIncluded [] pod_selector h key value found =
    let missing = lookup-nil {V = Text} key in cc
entries_hold-IsIncluded ((first, w) ∷ entries) pod_selector h key value found =
    let (here, there) =
      split_and (has_value w (lookup first pod_selector)) (entries_hold entries pod_selector) h in
    elim (Bool-cases (text_eq first key)) [
      | inl same ↦
          let at_key = (text_eq_iff first key).0 same in
          ap (λ k. lookup k pod_selector) (sym at_key)
          ∙ has_value-some w (lookup first pod_selector) here
          ∙ sym (lookup-first first w entries)
          ∙ ap (λ k. lookup k ((first, w) ∷ entries)) at_key
          ∙ found
      | inr differ ↦
          entries_hold-IsIncluded entries pod_selector there key value
            (sym (lookup-later key first w entries differ) ∙ found)
    ]

IsIncluded-rest :
    (first w : Text) (entries pod_selector : Map Text)
    → LacksKey first entries
    → IsIncluded ((first, w) ∷ entries) pod_selector
    → IsIncluded entries pod_selector
IsIncluded-rest first w entries pod_selector lacks included key value found =
    elim (Bool-cases (text_eq first key)) [
      | inl same ↦
          let missing = lookup-LacksKey first entries lacks in
          let at_key = (text_eq_iff first key).0 same in
          absurd (none-is-not-some value (sym missing ∙ ap (λ k. lookup k entries) at_key ∙ found))
      | inr differ ↦ included key value (lookup-later key first w entries differ ∙ found)
    ]

IsIncluded-entries_hold :
    (entries pod_selector : Map Text)
    → IsMap entries
    → IsIncluded entries pod_selector
    → entries_hold entries pod_selector ≡ true
unfolding entries_hold
IsIncluded-entries_hold [] pod_selector h included = refl
IsIncluded-entries_hold ((first, w) ∷ entries) pod_selector (lacks, rest) included =
    rw
      (
        has_value_self w (lookup first pod_selector)
            (included first w (lookup-first first w entries)),
        IsIncluded-entries_hold entries pod_selector rest
            (IsIncluded-rest first w entries pod_selector lacks included),
      )
      refl

is_node_selector_subset-loop :
    (rule_selector pod_selector : Map Text)
    → is_node_selector_subset rule_selector pod_selector ≡ entries_hold rule_selector pod_selector
unfolding is_node_selector_subset entries_hold lookup
is_node_selector_subset-loop [] pod_selector = refl
is_node_selector_subset-loop (entry ∷ entries) [] = ground arith
is_node_selector_subset-loop (entry ∷ entries) (other ∷ pod_selector) = ground arith

-- A rule whose selector holds each key once matches a pod exactly if the pod's selector has every
-- entry of the rule's, with the same value.
pub is_node_selector_subset-IsIncluded :
    (rule_selector pod_selector : Map Text)
    → IsMap rule_selector
    → (is_node_selector_subset rule_selector pod_selector ≡ true)
      ↔ IsIncluded rule_selector pod_selector
is_node_selector_subset-IsIncluded rule_selector pod_selector unique = (
  λ h.
      entries_hold-IsIncluded rule_selector pod_selector
        (sym (is_node_selector_subset-loop rule_selector pod_selector) ∙ h),
  λ included.
      is_node_selector_subset-loop rule_selector pod_selector
      ∙ IsIncluded-entries_hold rule_selector pod_selector unique included,
)
