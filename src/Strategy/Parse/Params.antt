-- ===== src/Strategy/Parse/Params.antt =====
-- What parseRule and parseFirstRule make of weights, bases and node selectors of plain names.
use kube_smart_scheduler.Prelude.{
  ℕ, suc, ◌≡◌, refl, false, List, [], ◌∷◌, ◌++◌, arith, All, All-append,
}
use kube_smart_scheduler.Prelude.Int.{ℤ}
use kube_smart_scheduler.Prelude.Int64.{IsInt64}
use kube_smart_scheduler.Prelude.Result.{Result, ok, err, fold_m, ◌>>=◌}
use kube_smart_scheduler.GoText.{
  Text, codes, split, trim_space, is_space, is_empty, has_prefix, trim_prefix,
}
use kube_smart_scheduler.GoText.Number.{itoa, atoi-itoa}
use kube_smart_scheduler.GoText.Split.{split_whole, split_at_sep, has_prefix-Lacks}
use kube_smart_scheduler.GoMap.{insert}
use kube_smart_scheduler.Strategy.{PlacementRule, PlacementStrategy}
use kube_smart_scheduler.Strategy.Parse.{
  ParamError, rule_param, first_param, parse_part, parse_parts, parse_rule, parse_first_rule,
  parse_placement_strategy, new_strategy, parse_pair, parse_node_selector,
}
use kube_smart_scheduler.Strategy.Parse.Names.{
  IsPlain, IsInner, trim_inner, trim_plain, Lacks-comma, Lacks-colon, IsInner-weight, IsNamePair,
  IsInner-pair, Lacks-equals-pair, is_empty-name, is_empty-pair, IsInner-base,
}

pub rule_param-weight :
    (w : ℤ) (rule : PlacementRule)
    → IsInt64 w
    → rule_param (codes "weight=" ++ itoa w) rule ≡ ok (record rule { weight = w })
unfolding rule_param is_empty has_prefix trim_prefix
rule_param-weight w rule h =
    ground (arith, trim_inner (codes "weight=" ++ itoa w) (IsInner-weight w), atoi-itoa w h)

-- Only a parameter with an equality sign changes the rule.
pub rule_param-pair :
    (k v : Text) (rule : PlacementRule)
    → All IsPlain k
    → All IsPlain v
    → rule_param (k ++ b':' ∷ v) rule ≡ ok rule
unfolding rule_param
rule_param-pair k v rule hk hv =
    let s = k ++ b':' ∷ v in
    let bare = Lacks-equals-pair k v hk hv in
    ground (
      arith,
      trim_inner s (IsInner-pair k v hk hv),
      has_prefix-Lacks b'=' s (codes "weight") [] bare,
      has_prefix-Lacks b'=' s (codes "nodeSelector") [] bare,
      has_prefix-Lacks b'=' s (codes "affinity") [] bare,
      has_prefix-Lacks b'=' s (codes "anti-affinity") [] bare,
    )

pub IsInner-selector :
    (k v : Text)
    → All IsPlain k
    → All IsPlain v
    → All IsInner (codes "nodeSelector=" ++ (k ++ b':' ∷ v))
unfolding is_space
IsInner-selector k v hk hv =
    All-append IsInner (codes "nodeSelector=") (k ++ b':' ∷ v) (ground arith)
      (IsInner-pair k v hk hv)

parse_pair-name :
    (k v : Text) → IsNamePair (k, v) → parse_pair (k ++ b':' ∷ v) [] ≡ ok ((k, v) ∷ [])
unfolding parse_pair insert
parse_pair-name k v ((nk, hk), (nv, hv)) = ground (
  arith,
  trim_inner (k ++ b':' ∷ v) (IsInner-pair k v hk hv),
  is_empty-pair k v,
  split_at_sep b':' k v (Lacks-colon k hk),
  split_whole b':' v (Lacks-colon v hv),
  trim_plain k hk,
  trim_plain v hv,
  is_empty-name k nk,
  is_empty-name v nv,
)

parse_node_selector-name :
    (k v : Text) → IsNamePair (k, v) → parse_node_selector (k ++ b':' ∷ v) [] ≡ ok ((k, v) ∷ [])
unfolding parse_node_selector
parse_node_selector-name k v h =
    let inner = IsInner-pair k v h.0.1 h.1.1 in
    ground (arith, split_whole b',' (k ++ b':' ∷ v) (Lacks-comma _ inner), parse_pair-name k v h)

pub rule_param-selector :
    (k v : Text) (rule : PlacementRule)
    → IsNamePair (k, v)
    → rule.node_selector ≡ []
    → rule_param (codes "nodeSelector=" ++ (k ++ b':' ∷ v)) rule
      ≡ ok (record rule { node_selector = (k, v) ∷ [] })
unfolding rule_param is_empty has_prefix trim_prefix
rule_param-selector k v rule h e = ground (
  arith,
  trim_inner (codes "nodeSelector=" ++ (k ++ b':' ∷ v)) (IsInner-selector k v h.0.1 h.1.1),
  parse_node_selector-name k v h,
)

-- parseFirstRule treats every parameter but base= as parseRule does.
pub first_param-rule_param :
    (raw : Text) (base : ℤ) (rule : PlacementRule)
    → has_prefix (trim_space raw) (codes "base=") ≡ false
    → first_param raw (base, rule) ≡ (rule_param raw rule >>= λ changed. ok (base, changed))
unfolding first_param rule_param
first_param-rule_param raw base rule h = ground arith

pub first_param-base :
    (b base : ℤ) (rule : PlacementRule)
    → IsInt64 b
    → first_param (codes "base=" ++ itoa b) (base, rule) ≡ ok (b, rule)
unfolding first_param is_empty has_prefix trim_prefix
first_param-base b base rule h =
    ground (arith, trim_inner (codes "base=" ++ itoa b) (IsInner-base b), atoi-itoa b h)

-- The round of the loop over the parts that meets a rule.
pub parse_part-more :
    (i : ℕ) (part : Text) (strategy : PlacementStrategy) (rule : PlacementRule)
    → trim_space part ≡ part
    → is_empty part ≡ false
    → parse_rule part ≡ ok rule
    → parse_part (suc i) part strategy
      ≡ ok (record strategy { rules = strategy.rules ++ rule ∷ [] })
unfolding parse_part
parse_part-more i part strategy rule same full read = ground arith

pub parse_part-first :
    (part : Text) (strategy parsed : PlacementStrategy)
    → trim_space part ≡ part
    → is_empty part ≡ false
    → parse_first_rule part strategy ≡ ok parsed
    → parse_part 0 part strategy ≡ ok parsed
unfolding parse_part
parse_part-first part strategy parsed same full read = ground arith

pub parse_parts-nil :
    (i : ℕ) (strategy : PlacementStrategy) → parse_parts i [] strategy ≡ ok strategy
unfolding parse_parts
parse_parts-nil i strategy = refl

pub parse_parts-cons :
    (i : ℕ) (part : Text) (parts : List Text) (strategy : PlacementStrategy)
    → parse_parts i (part ∷ parts) strategy
      ≡ (parse_part i part strategy >>= parse_parts (suc i) parts)
unfolding parse_parts
parse_parts-cons i part parts strategy = refl

-- A text of parts that yield a rule is a strategy.
pub parse_placement_strategy-parts :
    (annotation : Text) (base : ℤ) (rule : PlacementRule) (rules : List PlacementRule)
    → is_empty annotation ≡ false
    → parse_parts 0 (split b';' annotation) new_strategy
      ≡ ok (record { base = base; rules = rule ∷ rules })
    → parse_placement_strategy annotation ≡ ok (record { base = base; rules = rule ∷ rules })
unfolding parse_placement_strategy
parse_placement_strategy-parts annotation base rule rules full read = ground arith

-- Behind the base, the first rule is read as any other.
pub fold-first_param :
    (params : List Text) (base : ℤ) (rule : PlacementRule)
    → All (λ raw. has_prefix (trim_space raw) (codes "base=") ≡ false) params
    → fold_m first_param params (base, rule)
      ≡ (fold_m rule_param params rule >>= λ changed. ok (base, changed))
fold-first_param [] base rule h = refl
fold-first_param (raw ∷ params) base rule (h, hs) =
    rw (first_param-rule_param raw base rule h)
      (bind_rest (rule_param raw rule) (λ changed. fold-first_param params base changed hs))
  where
    bind_rest :
        (r : Result ParamError PlacementRule)
        → ((changed : PlacementRule)
            → fold_m first_param params (base, changed)
              ≡ (fold_m rule_param params changed >>= λ c. ok (base, c)))
        → (r >>= (λ changed. ok (base, changed)) >>= fold_m first_param params)
          ≡ (r >>= fold_m rule_param params >>= λ changed. ok (base, changed))
    bind_rest (ok changed) ih = ih changed
    bind_rest (err e) ih = refl
