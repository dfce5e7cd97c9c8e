-- ===== src/Strategy/Parse/Valid.antt =====
-- Every strategy that ParsePlacementStrategy accepts is well formed.
use mathlib.Core.Path.{subst}
use kube_smart_scheduler.Prelude.{
  ◌≡◌, inl, inr, refl, Bool, true, false, ◌||◌, Option, some, none, List, [], ◌∷◌, ◌++◌, arith,
  length, ◌==◌, if◌then◌else◌, All, All-append,
}
use kube_smart_scheduler.Prelude.Int.{ℤ}
use kube_smart_scheduler.Prelude.Int64.{IsInt64}
use kube_smart_scheduler.Prelude.Result.{
  Result, ok, err, ◌>>=◌, fold_m, >>=-eq-ok, fold_m-keeps, ok-injective,
}
use kube_smart_scheduler.GoText.{Text, codes, split, trim_space, is_empty, has_prefix, trim_prefix}
use kube_smart_scheduler.GoText.Number.{atoi}
use kube_smart_scheduler.GoMap.{Map, insert}
use kube_smart_scheduler.GoMap.Unique.{IsMap, IsMap-insert}
use kube_smart_scheduler.Strategy.{AffinityRule, PlacementRule, PlacementStrategy}
use kube_smart_scheduler.Strategy.Parse.{
  ParamError, or_fail, parse_pair, selector_of_parts, parse_node_selector, affinity_of_parts,
  parse_affinity_rule, apply_param, invalid_weight, selector_has_no_pairs, affinity_unknown_type,
}
use kube_smart_scheduler.Strategy.Parse.AffinityParams.{IsAffinityKind}

-- Both texts of an entry say something.
abbrev pub IsFullEntry : Text × Text → Type 0
IsFullEntry (k, v) = (is_empty k ≡ false) × (is_empty v ≡ false)

-- A selector whose entries say something, each key once.
abbrev pub IsFullMap : Map Text → Type 0
IsFullMap m = All IsFullEntry m × IsMap m

abbrev pub IsValidAffinity : AffinityRule → Type 0
IsValidAffinity a =
    IsAffinityKind a.kind
    × (length a.label_selector ≡ 1)
    × All IsFullEntry a.label_selector
    × (is_empty a.topology_key ≡ false)

abbrev pub IsValidRule : PlacementRule → Type 0
IsValidRule rule =
    IsInt64 rule.weight × IsFullMap rule.node_selector × All IsValidAffinity rule.affinity

abbrev pub IsValidStrategy : PlacementStrategy → Type 0
IsValidStrategy s = IsInt64 s.base × All IsValidRule s.rules

All-insert :
    (k v : Text) (m : Map Text)
    → IsFullEntry (k, v)
    → All IsFullEntry m
    → All IsFullEntry (insert k v m)
unfolding insert
All-insert k v [] h _ = (h, tt)
All-insert k v ((j, w) ∷ m) h (e, es) = ground (arith, All-insert k v m h es)

IsFullMap-insert :
    (k v : Text) (m : Map Text) → IsFullEntry (k, v) → IsFullMap m → IsFullMap (insert k v m)
IsFullMap-insert k v m full (entries, once) =
    (All-insert k v m full entries, IsMap-insert k v m once)

selector_of_parts-keeps :
    (pair : Text) (parts : List Text) (m t : Map Text)
    → IsFullMap m
    → selector_of_parts pair parts m ≡ ok t
    → IsFullMap t
unfolding selector_of_parts
selector_of_parts-keeps pair [] m t h e = cc
selector_of_parts-keeps pair (k ∷ []) m t h e = cc
selector_of_parts-keeps pair (k ∷ v ∷ []) m t h e =
    ground (arith, IsFullMap-insert (trim_space k) (trim_space v) m)
selector_of_parts-keeps pair (k ∷ v ∷ w ∷ rest) m t h e = cc

parse_pair_lem :
    (raw : Text) (m : Map Text)
    → parse_pair raw m ≡ (
        if is_empty (trim_space raw)
        then ok m
        else selector_of_parts (trim_space raw) (split b':' (trim_space raw)) m)
unfolding parse_pair
parse_pair_lem raw m = refl

parse_pair-keeps :
    (raw : Text) (m t : Map Text) → IsFullMap m → parse_pair raw m ≡ ok t → IsFullMap t
parse_pair-keeps raw m t h e =
    let pair = trim_space raw in
    ground (arith, parse_pair_lem raw m, selector_of_parts-keeps pair (split b':' pair) m t h)

parse_node_selector_lem :
    (s : Text) (m : Map Text)
    → parse_node_selector s m ≡ (
        fold_m parse_pair (split b',' s) m >>= λ filled.
        if length filled == 0 then err selector_has_no_pairs else ok filled)
unfolding parse_node_selector
parse_node_selector_lem s m = refl

parse_node_selector-keeps :
    (s : Text) (m t : Map Text) → IsFullMap m → parse_node_selector s m ≡ ok t → IsFullMap t
parse_node_selector-keeps s m t h e =
    let (filled, looped, checked) =
      >>=-eq-ok (fold_m parse_pair (split b',' s) m) _ (rw (parse_node_selector_lem s m) at e) in
    ground (
      arith,
      fold_m-keeps IsFullMap parse_pair (λ x u v. parse_pair-keeps x u v) (split b',' s) m filled h
          looped,
    )

affinity_of_parts-valid :
    (kind rule_str : Text) (parts : List Text) (a : AffinityRule)
    → IsAffinityKind kind
    → affinity_of_parts kind rule_str parts ≡ ok a
    → IsValidAffinity a
unfolding affinity_of_parts
affinity_of_parts-valid kind s [] a k e = cc
affinity_of_parts-valid kind s (p ∷ []) a k e = cc
affinity_of_parts-valid kind s (p ∷ q ∷ []) a k e = cc
affinity_of_parts-valid kind s (p ∷ q ∷ r ∷ []) a k e = cc
affinity_of_parts-valid kind s (p ∷ q ∷ r ∷ t ∷ []) a k e = ground arith
affinity_of_parts-valid kind s (p ∷ q ∷ r ∷ t ∷ u ∷ rest) a k e = cc

abbrev affinity_of_prefix : Bool → Bool → Text → Text → Result ParamError AffinityRule
affinity_of_prefix plain anti s t =
    if plain
    then affinity_of_parts (codes "affinity") s (split b':' s)
    else if anti
    then affinity_of_parts (codes "anti-affinity") t (split b':' t)
    else err affinity_unknown_type

parse_affinity_rule_lem :
    (param : Text)
    → parse_affinity_rule param
      ≡ affinity_of_prefix
          (has_prefix param (codes "affinity="))
          (has_prefix param (codes "anti-affinity="))
          (trim_prefix param (codes "affinity="))
          (trim_prefix param (codes "anti-affinity="))
unfolding parse_affinity_rule
parse_affinity_rule_lem param = refl

affinity_cases :
    (plain anti : Bool) (s t : Text) (a : AffinityRule)
    → affinity_of_prefix plain anti s t ≡ ok a
    → IsValidAffinity a
affinity_cases true anti s t a e =
    affinity_of_parts-valid (codes "affinity") s (split b':' s) a (inl refl) e
affinity_cases false true s t a e =
    affinity_of_parts-valid (codes "anti-affinity") t (split b':' t) a (inr refl) e
affinity_cases false false s t a e = cc

parse_affinity_rule-valid :
    (param : Text) (a : AffinityRule) → parse_affinity_rule param ≡ ok a → IsValidAffinity a
parse_affinity_rule-valid param a e =
    let plain = trim_prefix param (codes "affinity=") in
    let anti = trim_prefix param (codes "anti-affinity=") in
    affinity_cases (has_prefix param (codes "affinity="))
      (has_prefix param (codes "anti-affinity=")) plain anti a
      (rw (parse_affinity_rule_lem param) at e)

pub atoi-IsInt64 : (s : Text) (z : ℤ) → atoi s ≡ some z → IsInt64 z
unfolding atoi
atoi-IsInt64 [] z e = cc
atoi-IsInt64 (c ∷ s) z e = ground arith

-- The three branches of a parameter, by the prefixes that it has.
abbrev pub change_rule : Bool → Bool → Bool → Text → PlacementRule → Result ParamError PlacementRule
change_rule is_weight is_selector is_affinity param rule =
    if is_weight
    then (do
      weight ←
          or_fail (atoi (trim_prefix param (codes "weight=")))
            (invalid_weight (trim_prefix param (codes "weight=")))
      ok (record rule { weight = weight }))
    else if is_selector
    then (do
      filled ← parse_node_selector (trim_prefix param (codes "nodeSelector=")) rule.node_selector
      ok (record rule { node_selector = filled }))
    else if is_affinity
    then (do a ← parse_affinity_rule param; ok (record rule { affinity = rule.affinity ++ a ∷ [] }))
    else ok rule

pub apply_param_lem :
    (param : Text) (rule : PlacementRule)
    → apply_param param rule
      ≡ change_rule
          (has_prefix param (codes "weight="))
          (has_prefix param (codes "nodeSelector="))
          (has_prefix param (codes "affinity=") || has_prefix param (codes "anti-affinity="))
          param
          rule
unfolding apply_param
apply_param_lem param rule = refl

pub change_rule-keeps :
    (w s a : Bool) (param : Text) (rule t : PlacementRule)
    → IsValidRule rule
    → change_rule w s a param rule ≡ ok t
    → IsValidRule t
change_rule-keeps true s a param rule t h e =
    weight_read (atoi (trim_prefix param (codes "weight="))) (atoi-IsInt64 _) e
  where
    weight_read :
        (z : Option ℤ)
        → ((n : ℤ) → z ≡ some n → IsInt64 n)
        → (or_fail z (invalid_weight (trim_prefix param (codes "weight="))) >>= λ weight.
            ok (record rule { weight = weight }))
          ≡ ok t
        → IsValidRule t
    weight_read none fits read = cc
    weight_read (some n) fits read = subst IsValidRule (ok-injective read) (fits n refl, h.1, h.2)
change_rule-keeps false true a param rule t h e =
    let value = trim_prefix param (codes "nodeSelector=") in
    let (filled, parsed, same) = >>=-eq-ok (parse_node_selector value rule.node_selector) _ e in
    subst IsValidRule (ok-injective same)
      (h.0, parse_node_selector-keeps value rule.node_selector filled h.1 parsed, h.2)
change_rule-keeps false false true param rule t h e =
    let (a, parsed, same) = >>=-eq-ok (parse_affinity_rule param) _ e in
    subst IsValidRule (ok-injective same) (
      h.0,
      h.1,
      All-append IsValidAffinity rule.affinity (a ∷ []) h.2
          (parse_affinity_rule-valid param a parsed, tt),
    )
change_rule-keeps false false false param rule t h e = subst IsValidRule (ok-injective e) h
