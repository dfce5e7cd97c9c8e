-- ===== src/Policy/RoundTrip/Rule.antt =====
-- One rule: its parameters, and what parseRule reads from them.
use kube_smart_scheduler.Prelude.{
  ℕ, suc, ◌≡◌, inl, inr, refl, ◌∙◌, ap, sym, Bool, false, List, [], ◌∷◌, ◌++◌, arith, ◌==◌, map,
  if◌then◌else◌, All, All-append, append_assoc, append-nil, length, take,
}
use kube_smart_scheduler.Prelude.Int.{ℤ}
use kube_smart_scheduler.Prelude.Result.{ok, fold_m, fold_m-append}
use kube_smart_scheduler.GoText.{Text, codes, has_prefix}
use kube_smart_scheduler.GoText.Split.{separated, has_prefix-Lacks}
use kube_smart_scheduler.GoMap.{Map, Order, IsOrder, ◌▹◌, range}
use kube_smart_scheduler.GoMap.Laws.{All-perm, length-perm}
use kube_smart_scheduler.Api.{AffinityRuleSpec, PlacementRuleSpec}
use kube_smart_scheduler.Strategy.{PlacementRule}
use kube_smart_scheduler.Strategy.Parse.{rule_param, new_rule}
use kube_smart_scheduler.Strategy.Parse.Names.{IsInner, IsNamePair, IsInner-pair, Lacks-equals-pair}
use kube_smart_scheduler.Strategy.Parse.Params.{
  rule_param-pair, rule_param-selector, IsInner-selector,
}
use kube_smart_scheduler.Strategy.Parse.AffinityParams.{
  IsAffinityKind, affinity_param, affinity_text, rule_param-affinity, IsInner-affinity_param,
}
use kube_smart_scheduler.Policy.Convert.{
  colon_pair, selector_text, selector_part, first_label, affinity_part, affinity_parts, rule_tail,
}
use kube_smart_scheduler.Policy.RoundTrip.{
  kept_affinity, kept_affinities, kept_rule, IsPlainAffinity, IsPlainRule,
}

nil_of_length {ℓ} : {A : Type ℓ} (xs : List A) → length xs ≡ 0 → xs ≡ []
nil_of_length [] h = refl
nil_of_length (x ∷ xs) h = absurd (omega arith)

-- The parameters of a node selector, in the order visited.
abbrev pub selector_params : Map Text → List Text
selector_params [] = []
selector_params (e ∷ es) = (codes "nodeSelector=" ++ colon_pair e) ∷ map colon_pair es

selector_text-separated :
    (e : Text × Text) (es : Map Text)
    → selector_text (e ∷ es) ≡ colon_pair e ++ separated b',' (map colon_pair es)
unfolding selector_text
selector_text-separated e [] = sym (append-nil (colon_pair e))
selector_text-separated e (f ∷ es) = rw (selector_text-separated f es)

selector_part-separated :
    (o : Order Text) (m : Map Text)
    → IsOrder o
    → selector_part o m ≡ separated b',' (selector_params (range o m))
unfolding selector_part
selector_part-separated o m h = visit (range o m) (length-perm (h [] m))
  where
    visit :
        (es : Map Text)
        → length es ≡ length m
        → (if length m == 0 then [] else codes ",nodeSelector=" ++ selector_text es)
          ≡ separated b',' (selector_params es)
    visit [] e = ground arith
    visit (x ∷ es) e = ground (arith, selector_text-separated x es)

fold-pairs :
    (es : Map Text) (rule : PlacementRule)
    → All IsNamePair es
    → fold_m rule_param (map colon_pair es) rule ≡ ok rule
fold-pairs [] rule h = refl
fold-pairs (e ∷ es) rule (h, hs) =
    rw (rule_param-pair e.0 e.1 rule h.0.1 h.1.1) (fold-pairs es rule hs)

fold-selector_params :
    (es : Map Text) (w : ℤ)
    → All IsNamePair es
    → fold_m rule_param
        (selector_params es)
        (record { weight = w; node_selector = []; affinity = [] })
      ≡ ok (record { weight = w; node_selector = take 1 es; affinity = [] })
fold-selector_params [] w h = refl
fold-selector_params (e ∷ es) w (h, hs) =
    let bare : PlacementRule = record { weight = w; node_selector = []; affinity = [] } in
    let read : PlacementRule = record { weight = w; node_selector = e ∷ []; affinity = [] } in
    rw (rule_param-selector e.0 e.1 bare h refl) (fold-pairs es read hs)

-- A parameter that sets no base.
abbrev pub IsParam : Text → Type 0
IsParam param = All IsInner param × (has_prefix param (codes "base=") ≡ false)

IsParam-pairs : (es : Map Text) → All IsNamePair es → All IsParam (map colon_pair es)
IsParam-pairs [] h = tt
IsParam-pairs (e ∷ es) (h, hs) = (
  (
    IsInner-pair e.0 e.1 h.0.1 h.1.1,
    has_prefix-Lacks b'=' (colon_pair e) (codes "base") [] (Lacks-equals-pair e.0 e.1 h.0.1 h.1.1),
  ),
  IsParam-pairs es hs,
)

IsParam-selector_params : (es : Map Text) → All IsNamePair es → All IsParam (selector_params es)
unfolding has_prefix
IsParam-selector_params [] h = tt
IsParam-selector_params (e ∷ es) (h, hs) =
    ((IsInner-selector e.0 e.1 h.0.1 h.1.1, refl), IsParam-pairs es hs)

pub affinity_params : Order Text → ℕ → List AffinityRuleSpec → List Text
affinity_params o i [] = []
affinity_params o i (a ∷ rest) = affinity_part (o ▹ i) a ∷ affinity_params o (suc i) rest

affinity_parts-separated :
    (o : Order Text) (i : ℕ) (rules : List AffinityRuleSpec)
    → affinity_parts o i rules ≡ separated b',' (affinity_params o i rules)
unfolding affinity_parts affinity_params
affinity_parts-separated o i [] = refl
affinity_parts-separated o i (a ∷ rest) = rw (affinity_parts-separated o (suc i) rest)

-- Of a plain affinity rule the first label that is visited is written.
affinity_part-param :
    (o : Order Text) (a : AffinityRuleSpec)
    → IsOrder o
    → IsPlainAffinity a
    → (e : Text × Text) × IsNamePair e
      × (take 1 (range o a.label_selector) ≡ e ∷ [])
      × (affinity_part o a
          ≡ affinity_param a.kind e.0 e.1 a.topology_key a.required_during_scheduling)
unfolding affinity_part affinity_param affinity_text
affinity_part-param o a h (kind, some_label, labels, topology) =
    visit (range o a.label_selector) (length-perm (h [] a.label_selector))
      (All-perm IsNamePair (h [] a.label_selector) labels)
  where
    visit :
        (es : Map Text)
        → length es ≡ length a.label_selector
        → All IsNamePair es
        → (e : Text × Text) × IsNamePair e
          × (take 1 es ≡ e ∷ [])
          × (a.kind
                ++ (b'=' ∷ first_label es
                    ++ (b':' ∷ a.topology_key
                        ++ (if a.required_during_scheduling
                            then codes ":required"
                            else codes ":preferred")))
              ≡ a.kind
                ++ b'='
                  ∷ (e.0
                      ++ b':'
                        ∷ (e.1
                            ++ b':'
                              ∷ (a.topology_key
                                  ++ (if a.required_during_scheduling
                                      then codes ":required"
                                      else codes ":preferred")))))
    visit [] e k = absurd (some_label (nil_of_length a.label_selector (sym e)))
    visit (x ∷ es) e (k, ks) = (x, k, refl, simp append_assoc)

-- One affinity parameter is read as the rule that keeps its first label.
rule_param-affinity_part :
    (o : Order Text) (a : AffinityRuleSpec) (rule : PlacementRule)
    → IsOrder o
    → IsPlainAffinity a
    → rule_param (affinity_part o a) rule
      ≡ ok (record rule { affinity = rule.affinity ++ kept_affinity o a ∷ [] })
rule_param-affinity_part o a rule h p =
    let (e, names, first, text) = affinity_part-param o a h p in
    rw (text, first)
      (rule_param-affinity e.0 e.1 a.topology_key a.required_during_scheduling names.0 names.1 p.3
        a.kind rule p.0)

fold-affinity_params :
    (o : Order Text) (i : ℕ) (rules : List AffinityRuleSpec) (rule : PlacementRule)
    → IsOrder o
    → All IsPlainAffinity rules
    → fold_m rule_param (affinity_params o i rules) rule
      ≡ ok (record rule { affinity = rule.affinity ++ kept_affinities o i rules })
unfolding affinity_params
fold-affinity_params o i [] rule h _ = rw append-nil
fold-affinity_params o i (a ∷ rest) rule h (p, ps) =
    let kept = kept_affinity (o ▹ i) a in
    let read : PlacementRule = record rule { affinity = rule.affinity ++ kept ∷ [] } in
    rw (rule_param-affinity_part (o ▹ i) a rule (λ path m. h (i ∷ path) m) p) (
      fold-affinity_params o (suc i) rest read h ps
      ∙ ap (λ xs. ok (record rule { affinity = xs }))
          (append_assoc rule.affinity (kept ∷ []) (kept_affinities o (suc i) rest)))

has_prefix-affinity_param :
    (kind k v topology : Text) (required : Bool)
    → IsAffinityKind kind
    → has_prefix (affinity_param kind k v topology required) (codes "base=") ≡ false
unfolding affinity_param has_prefix
has_prefix-affinity_param kind k v topology required known = elim known [
  | inl e ↦ rw e
  | inr e ↦ rw e
]

IsParam-affinity_params :
    (o : Order Text) (i : ℕ) (rules : List AffinityRuleSpec)
    → IsOrder o
    → All IsPlainAffinity rules
    → All IsParam (affinity_params o i rules)
unfolding affinity_params
IsParam-affinity_params o i [] h _ = tt
IsParam-affinity_params o i (a ∷ rest) h (p, ps) =
    let (e, names, first, text) = affinity_part-param (o ▹ i) a (λ path m. h (i ∷ path) m) p in
    let required = a.required_during_scheduling in
    (
      rw text (
        IsInner-affinity_param e.0 e.1 a.topology_key required names.0 names.1 p.3 a.kind p.0,
        has_prefix-affinity_param a.kind e.0 e.1 a.topology_key required p.0,
      ),
      IsParam-affinity_params o (suc i) rest h ps,
    )

-- All parameters behind the weight.
pub rule_params : Order Text → PlacementRuleSpec → List Text
rule_params o rule =
    selector_params (range (o ▹ 0) rule.node_selector) ++ affinity_params (o ▹ 1) 0 rule.affinity

separated-append :
    (sep : ℕ) (ps qs : List Text) → separated sep (ps ++ qs) ≡ separated sep ps ++ separated sep qs
separated-append sep [] qs = refl
separated-append sep (p ∷ ps) qs =
    ap (λ t. (sep ∷ p) ++ t) (separated-append sep ps qs)
    ∙ sym (append_assoc (sep ∷ p) (separated sep ps) (separated sep qs))

module _ (o : Order Text) (rule : PlacementRuleSpec) (h : IsOrder o) where
  pub rule_tail-separated : rule_tail o rule ≡ separated b',' (rule_params o rule)
  unfolding rule_tail rule_params
  rule_tail-separated =
      rw
        (
          selector_part-separated (o ▹ 0) rule.node_selector (λ path m. h (0 ∷ path) m),
          affinity_parts-separated (o ▹ 1) 0 rule.affinity,
        )
        (sym (
          separated-append b',' (selector_params (range (o ▹ 0) rule.node_selector))
            (affinity_params (o ▹ 1) 0 rule.affinity)))

  pub IsParam-rule_params : IsPlainRule rule → All IsParam (rule_params o rule)
  unfolding rule_params
  IsParam-rule_params (_, pairs, affinities) =
      All-append IsParam (selector_params (range (o ▹ 0) rule.node_selector)) _
        (IsParam-selector_params (range (o ▹ 0) rule.node_selector)
          (All-perm IsNamePair (h (0 ∷ []) rule.node_selector) pairs))
        (IsParam-affinity_params (o ▹ 1) 0 rule.affinity (λ path m. h (1 ∷ path) m) affinities)

  -- Behind the weight, the parameters of a rule are read as the rule that is kept.
  pub fold-rule_params :
      IsPlainRule rule
      → fold_m rule_param (rule_params o rule) (record new_rule { weight = rule.weight })
        ≡ ok (kept_rule o rule)
  unfolding rule_params
  fold-rule_params (_, pairs, affinities) =
      let visited = range (o ▹ 0) rule.node_selector in
      let read : PlacementRule = record {
        weight = rule.weight;
        node_selector = take 1 visited;
        affinity = [];
      } in
      rw
        (
          fold_m-append rule_param (selector_params visited)
              (affinity_params (o ▹ 1) 0 rule.affinity),
          fold-selector_params visited rule.weight
              (All-perm IsNamePair (h (0 ∷ []) rule.node_selector) pairs),
        )
        (fold-affinity_params (o ▹ 1) 0 rule.affinity read (λ path m. h (1 ∷ path) m) affinities)
