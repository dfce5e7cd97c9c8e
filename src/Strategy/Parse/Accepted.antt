-- ===== src/Strategy/Parse/Accepted.antt =====
-- The loops of the parser keep strategies well formed.
use mathlib.Core.Path.{subst}
use kube_smart_scheduler.Prelude.{
  ℕ, suc, ◌≡◌, ◌≢◌, refl, ap, ◌∙◌, Bool, true, false, Option, some, none, List, [], ◌∷◌, ◌++◌,
  arith, length, ◌==◌, if◌then◌else◌, All, All-map, All-append,
}
use kube_smart_scheduler.Prelude.Int.{ℤ}
use kube_smart_scheduler.Prelude.Int64.{IsInt64}
use kube_smart_scheduler.Prelude.Result.{
  Result, ok, err, ◌>>=◌, fold_m, >>=-eq-ok, fold_m-keeps, ok-injective, map_err,
}
use kube_smart_scheduler.GoText.{Text, codes, split, trim_space, is_empty, has_prefix, trim_prefix}
use kube_smart_scheduler.GoText.Number.{atoi}
use kube_smart_scheduler.GoMap.Unique.{IsMap}
use kube_smart_scheduler.Strategy.{PlacementRule, PlacementStrategy}
use kube_smart_scheduler.Strategy.Parse.{
  ParamError, ParseError, or_fail, apply_param, rule_param, first_param, parse_rule,
  parse_first_rule, parse_part, parse_parts, parse_placement_strategy, new_rule, new_strategy,
  invalid_base, first_rule_failed, rule_failed, no_rules_found, empty_annotation,
}
use kube_smart_scheduler.Strategy.Parse.Params.{parse_parts-nil, parse_parts-cons}
use kube_smart_scheduler.Strategy.Parse.Valid.{
  IsValidRule, IsValidStrategy, atoi-IsInt64, apply_param_lem, change_rule-keeps,
}

apply_param-keeps :
    (param : Text) (rule t : PlacementRule)
    → IsValidRule rule
    → apply_param param rule ≡ ok t
    → IsValidRule t
apply_param-keeps param rule t h e =
    change_rule-keeps _ _ _ param rule t h (rw (apply_param_lem param rule) at e)

rule_param_lem :
    (raw : Text) (rule : PlacementRule)
    → rule_param raw rule
      ≡ (if is_empty (trim_space raw) then ok rule else apply_param (trim_space raw) rule)
unfolding rule_param
rule_param_lem raw rule = refl

rule_param-keeps :
    (raw : Text) (rule t : PlacementRule)
    → IsValidRule rule
    → rule_param raw rule ≡ ok t
    → IsValidRule t
rule_param-keeps raw rule t h e =
    keeps (is_empty (trim_space raw)) (rw (rule_param_lem raw rule) at e)
  where
    keeps :
        (b : Bool)
        → (if b then ok rule else apply_param (trim_space raw) rule) ≡ ok t
        → IsValidRule t
    keeps true same = subst IsValidRule (ok-injective same) h
    keeps false changed = apply_param-keeps (trim_space raw) rule t h changed

abbrev IsValidFirst : ℤ × PlacementRule → Type 0
IsValidFirst (base, rule) = IsInt64 base × IsValidRule rule

abbrev change_first : Bool → Bool → Text → ℤ → PlacementRule → Result ParamError (ℤ × PlacementRule)
change_first empty is_base param base rule =
    if empty
    then ok (base, rule)
    else if is_base
    then (do
      parsed ←
          or_fail (atoi (trim_prefix param (codes "base=")))
            (invalid_base (trim_prefix param (codes "base=")))
      ok (parsed, rule))
    else do changed ← apply_param param rule; ok (base, changed)

first_param_lem :
    (raw : Text) (base : ℤ) (rule : PlacementRule)
    → first_param raw (base, rule)
      ≡ change_first
          (is_empty (trim_space raw))
          (has_prefix (trim_space raw) (codes "base="))
          (trim_space raw)
          base
          rule
unfolding first_param
first_param_lem raw base rule = refl

change_first-keeps :
    (empty is_base : Bool) (param : Text) (base : ℤ) (rule : PlacementRule) (t : ℤ × PlacementRule)
    → IsValidFirst (base, rule)
    → change_first empty is_base param base rule ≡ ok t
    → IsValidFirst t
change_first-keeps true is_base param base rule t h e = subst IsValidFirst (ok-injective e) h
change_first-keeps false true param base rule t h e =
    base_read (atoi (trim_prefix param (codes "base="))) (atoi-IsInt64 _) e
  where
    base_read :
        (z : Option ℤ)
        → ((n : ℤ) → z ≡ some n → IsInt64 n)
        → (or_fail z (invalid_base (trim_prefix param (codes "base="))) >>= λ n. ok (n, rule))
          ≡ ok t
        → IsValidFirst t
    base_read none fits read = cc
    base_read (some n) fits read = subst IsValidFirst (ok-injective read) (fits n refl, h.1)
change_first-keeps false false param base rule t h e =
    let (changed, applied, same) = >>=-eq-ok (apply_param param rule) _ e in
    subst IsValidFirst (ok-injective same) (h.0, apply_param-keeps param rule changed h.1 applied)

first_param-keeps :
    (raw : Text) (s t : ℤ × PlacementRule)
    → IsValidFirst s
    → first_param raw s ≡ ok t
    → IsValidFirst t
first_param-keeps raw (base, rule) t h e =
    change_first-keeps _ _ (trim_space raw) base rule t h (rw (first_param_lem raw base rule) at e)

new_rule-IsValidRule : IsValidRule new_rule
new_rule-IsValidRule = (omega arith, (tt, tt), tt)

parse_rule-IsValidRule :
    (part : Text) (rule : PlacementRule) → parse_rule part ≡ ok rule → IsValidRule rule
unfolding parse_rule
parse_rule-IsValidRule part rule e =
    fold_m-keeps IsValidRule rule_param rule_param-keeps (split b',' part) new_rule rule
      new_rule-IsValidRule e

parse_first_rule-keeps :
    (part : Text) (s t : PlacementStrategy)
    → IsValidStrategy s
    → parse_first_rule part s ≡ ok t
    → IsValidStrategy t
unfolding parse_first_rule
parse_first_rule-keeps part s t h e =
    let (read, looped, same) =
      >>=-eq-ok (fold_m first_param (split b',' part) (s.base, new_rule)) _ e in
    let valid =
      fold_m-keeps IsValidFirst first_param first_param-keeps (split b',' part) (s.base, new_rule)
        read (h.0, new_rule-IsValidRule) looped in
    subst IsValidStrategy (ok-injective same)
      (valid.0, All-append IsValidRule s.rules (read.1 ∷ []) h.1 (valid.1, tt))

abbrev change_strategy :
    Bool → Bool → ℕ → Text → PlacementStrategy → Result ParseError PlacementStrategy
change_strategy empty is_first i part s =
    if empty
    then ok s
    else if is_first
    then map_err first_rule_failed (parse_first_rule part s)
    else do
      rule ← map_err (rule_failed i) (parse_rule part)
      ok (record s { rules = s.rules ++ rule ∷ [] })

parse_part_lem :
    (i : ℕ) (raw : Text) (s : PlacementStrategy)
    → parse_part i raw s ≡ change_strategy (is_empty (trim_space raw)) (i == 0) i (trim_space raw) s
unfolding parse_part
parse_part_lem i raw s = refl

map_err-eq-ok {ℓ κ ι} :
    {D : Type ℓ} {E : Type κ} {A : Type ι} (f : D → E) (m : Result D A) {a : A}
    → map_err f m ≡ ok a
    → m ≡ ok a
map_err-eq-ok f (ok b) e = cc (ok-injective e)
map_err-eq-ok f (err d) e = cc

change_strategy-keeps :
    (empty is_first : Bool) (i : ℕ) (part : Text) (s t : PlacementStrategy)
    → IsValidStrategy s
    → change_strategy empty is_first i part s ≡ ok t
    → IsValidStrategy t
change_strategy-keeps true is_first i part s t h e = subst IsValidStrategy (ok-injective e) h
change_strategy-keeps false true i part s t h e =
    parse_first_rule-keeps part s t h (map_err-eq-ok first_rule_failed (parse_first_rule part s) e)
change_strategy-keeps false false i part s t h e =
    let (rule, parsed, same) = >>=-eq-ok (map_err (rule_failed i) (parse_rule part)) _ e in
    let valid =
      parse_rule-IsValidRule part rule (map_err-eq-ok (rule_failed i) (parse_rule part) parsed) in
    subst IsValidStrategy (ok-injective same)
      (h.0, All-append IsValidRule s.rules (rule ∷ []) h.1 (valid, tt))

parse_parts-keeps :
    (i : ℕ) (parts : List Text) (s t : PlacementStrategy)
    → IsValidStrategy s
    → parse_parts i parts s ≡ ok t
    → IsValidStrategy t
parse_parts-keeps i [] s t h e =
    subst IsValidStrategy (ok-injective (rw (parse_parts-nil i s) at e)) h
parse_parts-keeps i (part ∷ parts) s t h e =
    let (u, first, rest) =
      >>=-eq-ok (parse_part i part s) (parse_parts (suc i) parts)
        (rw (parse_parts-cons i part parts s) at e) in
    parse_parts-keeps (suc i) parts u t
      (change_strategy-keeps _ _ i (trim_space part) s u h (rw (parse_part_lem i part s) at first))
      rest

abbrev rules_of : PlacementStrategy → List PlacementRule
rules_of s = s.rules

suc_not_zero : (n : ℕ) → (suc n == 0) ≡ false
suc_not_zero n = ground arith

-- A strategy is accepted if it has rules.
accept-ok :
    (rules : List PlacementRule) (s t : PlacementStrategy)
    → ◌≡◌ {A = Result ParseError PlacementStrategy}
        (if length rules == 0 then err no_rules_found else ok s)
        (ok t)
    → (s ≡ t) × (rules ≢ [])
accept-ok [] s t e = cc
accept-ok (rule ∷ rules) s t e =
    (ok-injective (rw (suc_not_zero (length rules)) at e), λ none_left. cc)

nonempty-ok :
    (empty : Bool) (m : Result ParseError PlacementStrategy) (t : PlacementStrategy)
    → ◌≡◌ {A = Result ParseError PlacementStrategy}
        (if empty then err empty_annotation else m)
        (ok t)
    → m ≡ ok t
nonempty-ok true m t e = cc
nonempty-ok false m t e = e

parse_placement_strategy_lem :
    (annotation : Text) (s : PlacementStrategy)
    → parse_placement_strategy annotation ≡ ok s
    → (parse_parts 0 (split b';' annotation) new_strategy ≡ ok s) × (s.rules ≢ [])
unfolding parse_placement_strategy
parse_placement_strategy_lem annotation s e =
    let looped = nonempty-ok (is_empty annotation) _ s e in
    let (t, parsed, accepted) =
      >>=-eq-ok (parse_parts 0 (split b';' annotation) new_strategy)
        (λ t. if length t.rules == 0 then err no_rules_found else ok t) looped in
    let (same, some_rule) = accept-ok t.rules t s accepted in
    (parsed ∙ ap ok same, λ none_left. some_rule (ap rules_of same ∙ none_left))

-- Whatever the annotation, a strategy that ParsePlacementStrategy returns has a rule, its base and
-- its weights are values of an int, a node selector holds each key once and no empty key or value, and
-- each of its affinity rules is of one of the two types, has one label with key and value, and a
-- topology key.
pub parse-IsValidStrategy :
    (annotation : Text) (s : PlacementStrategy)
    → parse_placement_strategy annotation ≡ ok s
    → IsValidStrategy s × (s.rules ≢ [])
parse-IsValidStrategy annotation s e =
    let (looped, some_rule) = parse_placement_strategy_lem annotation s e in
    (parse_parts-keeps 0 (split b';' annotation) new_strategy s (omega arith, tt) looped, some_rule)

-- Each selector of the strategy's rules holds each key once.
abbrev pub HasMaps : PlacementStrategy → Type 0
HasMaps strategy = All (λ rule. IsMap rule.node_selector) strategy.rules

pub parse-HasMaps :
    (annotation : Text) (strategy : PlacementStrategy)
    → parse_placement_strategy annotation ≡ ok strategy
    → HasMaps strategy
parse-HasMaps annotation strategy parsed =
    All-map strategy.rules (λ rule valid. valid.1.1)
      (parse-IsValidStrategy annotation strategy parsed).0.1
