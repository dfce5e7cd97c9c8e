-- ===== src/Strategy/Parse.antt =====
-- ParsePlacementStrategy and the functions below it (webhook/placement_strategy.go). An error keeps
-- what its message shows.
pub mod Names
pub mod Params
pub mod AffinityParams
pub mod Valid
pub mod Accepted
use kube_smart_scheduler.Prelude.{
  ℕ, suc, Bool, true, false, ◌||◌, Option, none, some, List, [], ◌∷◌, ◌++◌, length, ◌==◌,
  if◌then◌else◌,
}
use kube_smart_scheduler.Prelude.Int.{ℤ, pos}
use kube_smart_scheduler.Prelude.Result.{Result, ok, err, map_err, fold_m, ◌>>=◌}
use kube_smart_scheduler.GoText.{
  Text, codes, text_eq, is_empty, has_prefix, trim_prefix, trim_space, split,
}
use kube_smart_scheduler.GoText.Number.{atoi}
use kube_smart_scheduler.GoMap.{Map, insert}
use kube_smart_scheduler.Strategy.{AffinityRule, PlacementRule, PlacementStrategy}

pub data ParamError : Type 0 where
  invalid_base invalid_weight : Text → ParamError
  selector_format selector_empty_part : Text → ParamError
  selector_has_no_pairs : ParamError
  affinity_unknown_type : ParamError
  affinity_format affinity_empty_part affinity_scheduling : Text → ParamError

pub data ParseError : Type 0 where
  empty_annotation : ParseError
  first_rule_failed : ParamError → ParseError
  rule_failed : ℕ → ParamError → ParseError
  no_rules_found : ParseError

abbrev pub or_fail {ℓ κ} : {E : Type ℓ} {A : Type κ} → Option A → E → Result E A
or_fail none e = err e
or_fail (some a) e = ok a

scheduling_of : Text → Result ParamError Bool
scheduling_of scheduling =
    if text_eq scheduling (codes "required")
    then ok true
    else if text_eq scheduling (codes "preferred")
    then ok false
    else err (affinity_scheduling scheduling)

affinity_of_parts : Text → Text → List Text → Result ParamError AffinityRule
unfolding scheduling_of
affinity_of_parts kind rule_str (p ∷ q ∷ r ∷ s ∷ []) =
    let label_key = trim_space p in
    let label_value = trim_space q in
    let topology_key = trim_space r in
    if is_empty label_key || is_empty label_value || is_empty topology_key
    then err (affinity_empty_part rule_str)
    else do
      required ← scheduling_of (trim_space s)
      ok (record {
        kind = kind;
        label_selector = (label_key, label_value) ∷ [];
        topology_key = topology_key;
        required_during_scheduling = required;
      })
affinity_of_parts kind rule_str parts = err (affinity_format rule_str)

unfoldable pub parse_affinity_rule : Text → Result ParamError AffinityRule
unfolding affinity_of_parts
parse_affinity_rule param =
    if has_prefix param (codes "affinity=")
    then (let rule_str = trim_prefix param (codes "affinity=") in
        affinity_of_parts (codes "affinity") rule_str (split b':' rule_str))
    else if has_prefix param (codes "anti-affinity=")
    then (let rule_str = trim_prefix param (codes "anti-affinity=") in
        affinity_of_parts (codes "anti-affinity") rule_str (split b':' rule_str))
    else err affinity_unknown_type

selector_of_parts : Text → List Text → Map Text → Result ParamError (Map Text)
selector_of_parts pair (k ∷ v ∷ []) node_selector =
    let key = trim_space k in
    let value = trim_space v in
    if is_empty key || is_empty value
    then err (selector_empty_part pair)
    else ok (insert key value node_selector)
selector_of_parts pair parts node_selector = err (selector_format pair)

parse_pair : Text → Map Text → Result ParamError (Map Text)
unfolding selector_of_parts
parse_pair raw node_selector =
    let pair = trim_space raw in
    if is_empty pair
    then ok node_selector
    else selector_of_parts pair (split b':' pair) node_selector

-- The map that the caller passes is filled.
unfoldable pub parse_node_selector : Text → Map Text → Result ParamError (Map Text)
unfolding parse_pair
parse_node_selector node_selector_str node_selector = do
  filled ← fold_m parse_pair (split b',' node_selector_str) node_selector
  if length filled == 0 then err selector_has_no_pairs else ok filled

-- The branches that parseFirstRule and parseRule share, on a trimmed parameter.
pub apply_param : Text → PlacementRule → Result ParamError PlacementRule
unfolding parse_node_selector parse_affinity_rule
apply_param param rule =
    if has_prefix param (codes "weight=")
    then (do
      let weight_str = trim_prefix param (codes "weight=")
      weight ← or_fail (atoi weight_str) (invalid_weight weight_str)
      ok (record rule { weight = weight }))
    else if has_prefix param (codes "nodeSelector=")
    then (do
      filled ← parse_node_selector (trim_prefix param (codes "nodeSelector=")) rule.node_selector
      ok (record rule { node_selector = filled }))
    else if has_prefix param (codes "affinity=") || has_prefix param (codes "anti-affinity=")
    then (do
      affinity_rule ← parse_affinity_rule param
      ok (record rule { affinity = rule.affinity ++ affinity_rule ∷ [] }))
    else ok rule

pub rule_param : Text → PlacementRule → Result ParamError PlacementRule
unfolding apply_param
rule_param raw rule =
    let param = trim_space raw in if is_empty param then ok rule else apply_param param rule

-- The state is the base and the rule so far.
pub first_param : Text → ℤ × PlacementRule → Result ParamError (ℤ × PlacementRule)
unfolding apply_param
first_param raw (base, rule) =
    let param = trim_space raw in
    if is_empty param
    then ok (base, rule)
    else if has_prefix param (codes "base=")
    then (do
      let base_str = trim_prefix param (codes "base=")
      parsed ← or_fail (atoi base_str) (invalid_base base_str)
      ok (parsed, rule))
    else do changed ← apply_param param rule; ok (base, changed)

abbrev pub new_rule : PlacementRule
new_rule = record { weight = pos 0; node_selector = []; affinity = [] }

unfoldable pub parse_first_rule : Text → PlacementStrategy → Result ParamError PlacementStrategy
unfolding first_param
parse_first_rule part strategy = do
  read ← fold_m first_param (split b',' part) (strategy.base, new_rule)
  ok (record { base = read.0; rules = strategy.rules ++ read.1 ∷ [] })

unfoldable pub parse_rule : Text → Result ParamError PlacementRule
unfolding rule_param
parse_rule part = fold_m rule_param (split b',' part) new_rule

-- One round of the loop of ParsePlacementStrategy, at index i.
pub parse_part : ℕ → Text → PlacementStrategy → Result ParseError PlacementStrategy
unfolding parse_first_rule parse_rule
parse_part i raw strategy =
    let part = trim_space raw in
    if is_empty part
    then ok strategy
    else if i == 0
    then map_err first_rule_failed (parse_first_rule part strategy)
    else do
      rule ← map_err (rule_failed i) (parse_rule part)
      ok (record strategy { rules = strategy.rules ++ rule ∷ [] })

pub parse_parts : ℕ → List Text → PlacementStrategy → Result ParseError PlacementStrategy
unfolding parse_part
parse_parts i [] strategy = ok strategy
parse_parts i (part ∷ parts) strategy = parse_part i part strategy >>= parse_parts (suc i) parts

abbrev pub new_strategy : PlacementStrategy
new_strategy = record { base = pos 0; rules = [] }

unfoldable pub parse_placement_strategy : Text → Result ParseError PlacementStrategy
unfolding parse_parts
parse_placement_strategy annotation = if is_empty annotation then err empty_annotation else do
  strategy ← parse_parts 0 (split b';' annotation) new_strategy
  if length strategy.rules == 0 then err no_rules_found else ok strategy
