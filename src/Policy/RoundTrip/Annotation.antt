-- ===== src/Policy/RoundTrip/Annotation.antt =====
-- The whole annotation: its parts, and what ParsePlacementStrategy reads from them.
use kube_smart_scheduler.Prelude.{
  ℕ, suc, ◌≡◌, ◌≢◌, refl, ◌∙◌, ap, sym, false, ◌||◌, List, [], ◌∷◌, ◌++◌, arith, ◌==◌, All,
  All-append, All-map, append_assoc, append-nil,
}
use kube_smart_scheduler.Prelude.Int.{ℤ, pos}
use kube_smart_scheduler.Prelude.Int64.{IsInt64}
use kube_smart_scheduler.Prelude.Result.{Result, ok, fold_m}
use kube_smart_scheduler.GoText.{Text, codes, split, has_prefix, trim_space, is_space, is_empty}
use kube_smart_scheduler.GoText.Number.{itoa}
use kube_smart_scheduler.GoText.Split.{Lacks, NoSpace, separated, split-separated, trim_space-id}
use kube_smart_scheduler.GoMap.{Order, IsOrder, ◌▹◌}
use kube_smart_scheduler.Api.{PlacementRuleSpec, PlacementStrategySpec}
use kube_smart_scheduler.Strategy.{PlacementStrategy}
use kube_smart_scheduler.Strategy.Parse.{
  rule_param, parse_rule, parse_first_rule, parse_part, parse_parts, new_rule, new_strategy,
  parse_placement_strategy,
}
use kube_smart_scheduler.Strategy.Parse.Names.{
  IsInner, IsInner-weight, IsInner-base, Lacks-comma, trim_inner,
}
use kube_smart_scheduler.Strategy.Parse.Params.{
  parse_part-more, parse_part-first, parse_parts-nil, parse_parts-cons,
  parse_placement_strategy-parts, rule_param-weight, first_param-base, fold-first_param,
}
use kube_smart_scheduler.Policy.Convert.{
  ConvertError, first_part, rule_part, more_parts, convert_rules, convert_strategy_to_annotation,
}
use kube_smart_scheduler.Policy.RoundTrip.{
  kept_rule, kept_rules, kept_strategy, IsPlainRule, IsPlainSpec,
}
use kube_smart_scheduler.Policy.RoundTrip.Rule.{
  rule_params, IsParam, rule_tail-separated, IsParam-rule_params, fold-rule_params,
}

-- A character of a part of an annotation.
abbrev IsPartChar : ℕ → Type 0
IsPartChar c = (is_space c || c == b';') ≡ false

part_of_inner : (s : Text) → All IsInner s → All IsPartChar s
part_of_inner s = All-map s (λ c h. ground arith)

NoSpace-of_part : (s : Text) → All IsPartChar s → NoSpace s
NoSpace-of_part s = All-map s (λ c h. ground arith)

Lacks-semicolon : (s : Text) → All IsPartChar s → Lacks b';' s
Lacks-semicolon s = All-map s (λ c h. ground arith)

part_of_params : (ps : List Text) → All (All IsInner) ps → All IsPartChar (separated b',' ps)
unfolding is_space
part_of_params [] h = tt
part_of_params (p ∷ ps) (h, hs) =
    (refl, All-append IsPartChar p (separated b',' ps) (part_of_inner p h) (part_of_params ps hs))

abbrev weight_param : PlacementRuleSpec → Text
weight_param rule = codes "weight=" ++ itoa rule.weight

module _ (o : Order Text) (rule : PlacementRuleSpec) (h : IsOrder o) (p : IsPlainRule rule) where
  IsParam-params : All IsParam (weight_param rule ∷ rule_params o rule)
  unfolding has_prefix
  IsParam-params = ((IsInner-weight rule.weight, refl), IsParam-rule_params o rule h p)

  IsInner-params : All (All IsInner) (weight_param rule ∷ rule_params o rule)
  IsInner-params = All-map (weight_param rule ∷ rule_params o rule) (λ s k. k.0) IsParam-params

  NoBase-params :
      All
        (λ raw. has_prefix (trim_space raw) (codes "base=") ≡ false)
        (weight_param rule ∷ rule_params o rule)
  NoBase-params =
      All-map (weight_param rule ∷ rule_params o rule) (λ s k. rw (trim_inner s k.0) k.1)
        IsParam-params

  rule_part-separated : rule_part o rule ≡ weight_param rule ++ separated b',' (rule_params o rule)
  unfolding rule_part
  rule_part-separated = rw (rule_tail-separated o rule h)

  fold-params :
      fold_m rule_param (weight_param rule ∷ rule_params o rule) new_rule ≡ ok (kept_rule o rule)
  fold-params = rw (rule_param-weight rule.weight new_rule p.0) (fold-rule_params o rule h p)

  -- A rule behind the first is read as the rule that is kept.
  parse_rule-rule_part : parse_rule (rule_part o rule) ≡ ok (kept_rule o rule)
  unfolding parse_rule
  parse_rule-rule_part =
      rw
        (
          rule_part-separated,
          split-separated b',' (weight_param rule) (rule_params o rule)
              (Lacks-comma (weight_param rule) (IsInner-weight rule.weight))
              (All-map (rule_params o rule) Lacks-comma IsInner-params.1),
        )
        fold-params

  IsPart-rule_part : All IsPartChar (rule_part o rule)
  IsPart-rule_part = rw rule_part-separated (
      All-append IsPartChar (weight_param rule) (separated b',' (rule_params o rule))
        (part_of_inner (weight_param rule) (IsInner-weight rule.weight))
        (part_of_params (rule_params o rule) IsInner-params.1))

  parse_part-rule_part :
      (i : ℕ) (s : PlacementStrategy)
      → parse_part (suc i) (rule_part o rule) s
        ≡ ok (record s { rules = s.rules ++ kept_rule o rule ∷ [] })
  unfolding rule_part is_empty
  parse_part-rule_part i s =
      parse_part-more i (rule_part o rule) s (kept_rule o rule)
        (trim_space-id (rule_part o rule) (NoSpace-of_part (rule_part o rule) IsPart-rule_part))
        refl parse_rule-rule_part

module _ (o : Order Text) (h : IsOrder o) where
  rule_parts : ℕ → List PlacementRuleSpec → List Text
  rule_parts i [] = []
  rule_parts i (rule ∷ rules) = rule_part (o ▹ i) rule ∷ rule_parts (suc i) rules

  more_parts-separated :
      (i : ℕ) (rules : List PlacementRuleSpec)
      → more_parts o i rules ≡ separated b';' (rule_parts i rules)
  unfolding more_parts rule_parts
  more_parts-separated i [] = refl
  more_parts-separated i (rule ∷ rules) =
      ap (λ t. (b';' ∷ rule_part (o ▹ i) rule) ++ t) (more_parts-separated (suc i) rules)

  Lacks-rule_parts :
      (i : ℕ) (rules : List PlacementRuleSpec)
      → All IsPlainRule rules
      → All (Lacks b';') (rule_parts i rules)
  unfolding rule_parts
  Lacks-rule_parts i [] _ = tt
  Lacks-rule_parts i (rule ∷ rules) (p, ps) = (
    Lacks-semicolon (rule_part (o ▹ i) rule)
        (IsPart-rule_part (o ▹ i) rule (λ path m. h (i ∷ path) m) p),
    Lacks-rule_parts (suc i) rules ps,
  )

  -- The rules behind the first are added in order.
  parse_parts-rule_parts :
      (i : ℕ) (rules : List PlacementRuleSpec) (s : PlacementStrategy)
      → All IsPlainRule rules
      → parse_parts (suc i) (rule_parts (suc i) rules) s
        ≡ ok (record s { rules = s.rules ++ kept_rules o (suc i) rules })
  unfolding rule_parts
  parse_parts-rule_parts i [] s _ =
      parse_parts-nil (suc i) s ∙ ap (λ xs. ok (record s { rules = xs })) (sym (append-nil s.rules))
  parse_parts-rule_parts i (rule ∷ rules) s (p, ps) =
      let kept = kept_rule (o ▹ suc i) rule in
      let added : PlacementStrategy = record s { rules = s.rules ++ kept ∷ [] } in
      rw
        (
          parse_parts-cons (suc i) (rule_part (o ▹ suc i) rule) (rule_parts (suc (suc i)) rules) s,
          parse_part-rule_part (o ▹ suc i) rule (λ path m. h (suc i ∷ path) m) p i s,
        )
        (parse_parts-rule_parts (suc i) rules added ps
          ∙ ap (λ xs. ok (record s { rules = xs }))
              (append_assoc s.rules (kept ∷ []) (kept_rules o (suc (suc i)) rules)))

module _ (o : Order Text) (base : ℤ) (rule : PlacementRuleSpec) (h : IsOrder o)
    (fits : IsInt64 base) (p : IsPlainRule rule) where
  abbrev base_param : Text
  base_param = codes "base=" ++ itoa base

  abbrev more_params : List Text
  more_params = weight_param rule ∷ rule_params o rule

  first_part-separated : first_part o base rule ≡ base_param ++ separated b',' more_params
  unfolding first_part
  first_part-separated = rw (rule_tail-separated o rule h) (simp append_assoc)

  IsPart-first_part : All IsPartChar (first_part o base rule)
  IsPart-first_part = rw first_part-separated (
      All-append IsPartChar base_param (separated b',' more_params)
        (part_of_inner base_param (IsInner-base base))
        (part_of_params more_params (IsInner-params o rule h p)))

  parse_first_rule-first_part :
      parse_first_rule (first_part o base rule) new_strategy
      ≡ ok (record { base = base; rules = kept_rule o rule ∷ [] })
  unfolding parse_first_rule
  parse_first_rule-first_part = rw (
    first_part-separated,
    split-separated b',' base_param more_params (Lacks-comma base_param (IsInner-base base))
        (All-map more_params Lacks-comma (IsInner-params o rule h p)),
    first_param-base base (pos 0) new_rule fits,
    fold-first_param more_params base new_rule (NoBase-params o rule h p),
    fold-params o rule h p,
  )

abbrev Reads : Result ConvertError Text → PlacementStrategy → Type 0
Reads written strategy =
    (annotation : Text) × (written ≡ ok annotation)
    × (parse_placement_strategy annotation ≡ ok strategy)

module _ (o : Order Text) (base : ℤ) (rule : PlacementRuleSpec) (rules : List PlacementRuleSpec)
    (h : IsOrder o) (fits : IsInt64 base) (p : IsPlainRule rule) (ps : All IsPlainRule rules) where
  abbrev first : Text
  first = first_part (o ▹ 0) base rule

  abbrev first_order : IsOrder (o ▹ 0)
  first_order path m = h (0 ∷ path) m

  split-annotation : split b';' (first ++ more_parts o 1 rules) ≡ first ∷ rule_parts o h 1 rules
  split-annotation = rw (more_parts-separated o h 1 rules) (
      split-separated b';' first (rule_parts o h 1 rules)
        (Lacks-semicolon first (IsPart-first_part (o ▹ 0) base rule first_order fits p))
        (Lacks-rule_parts o h 1 rules ps))

  parse_part-first_part :
      parse_part 0 first new_strategy
      ≡ ok (record { base = base; rules = kept_rule (o ▹ 0) rule ∷ [] })
  unfolding first_part is_empty
  parse_part-first_part =
      parse_part-first first new_strategy
        (record { base = base; rules = kept_rule (o ▹ 0) rule ∷ [] })
        (trim_space-id first
          (NoSpace-of_part first (IsPart-first_part (o ▹ 0) base rule first_order fits p)))
        refl (parse_first_rule-first_part (o ▹ 0) base rule first_order fits p)

  parse_parts-annotation :
      parse_parts 0 (split b';' (first ++ more_parts o 1 rules)) new_strategy
      ≡ ok (record { base = base; rules = kept_rules o 0 (rule ∷ rules) })
  parse_parts-annotation =
      let read : PlacementStrategy = record { base = base; rules = kept_rule (o ▹ 0) rule ∷ [] } in
      rw
        (
          split-annotation,
          parse_parts-cons 0 first (rule_parts o h 1 rules) new_strategy,
          parse_part-first_part,
        )
        (parse_parts-rule_parts o h 0 rules read ps)

  Reads-rules :
      Reads
        (convert_rules o base (rule ∷ rules))
        (record { base = base; rules = kept_rules o 0 (rule ∷ rules) })
  unfolding convert_rules is_empty
  Reads-rules = (
    first ++ more_parts o 1 rules,
    refl,
    parse_placement_strategy-parts (first ++ more_parts o 1 rules) base (kept_rule (o ▹ 0) rule)
        (kept_rules o 1 rules) refl parse_parts-annotation,
  )

Reads-some :
    (o : Order Text) (base : ℤ) (rules : List PlacementRuleSpec)
    → IsOrder o
    → IsInt64 base
    → rules ≢ []
    → All IsPlainRule rules
    → Reads (convert_rules o base rules) (record { base = base; rules = kept_rules o 0 rules })
Reads-some o base [] h fits some_rule _ = absurd (some_rule refl)
Reads-some o base (rule ∷ rules) h fits _ (p, ps) = Reads-rules o base rule rules h fits p ps

-- Whatever the order of the loops over maps, the annotation that is written for a plain strategy
-- is read as the strategy that keeps of each selector the entry visited first.
pub parse-convert :
    {F : Type 0} (o : Order Text) (s : PlacementStrategySpec F)
    → IsOrder o
    → IsPlainSpec s
    → (annotation : Text) × (convert_strategy_to_annotation o s ≡ ok annotation)
      × (parse_placement_strategy annotation ≡ ok (kept_strategy o s))
unfolding convert_strategy_to_annotation
parse-convert o s h (fits, some_rule, plain) = Reads-some o s.base s.rules h fits some_rule plain
