-- ===== src/Strategy/Parse/AffinityParams.antt =====
-- What parseRule makes of an affinity parameter of plain names.
use kube_smart_scheduler.Prelude.{
  ◌≡◌, ◌⊎◌, inl, inr, refl, Bool, true, false, ◌||◌, [], ◌∷◌, ◌++◌, arith, if◌then◌else◌, All,
  All-append,
}
use kube_smart_scheduler.Prelude.Result.{ok}
use kube_smart_scheduler.GoText.{
  Text, codes, split, trim_space, is_space, is_empty, has_prefix, trim_prefix, text_eq,
}
use kube_smart_scheduler.GoText.Split.{split_whole, split_at_sep}
use kube_smart_scheduler.Strategy.{AffinityRule, PlacementRule}
use kube_smart_scheduler.Strategy.Parse.{rule_param, parse_affinity_rule, affinity_of_parts}
use kube_smart_scheduler.Strategy.Parse.Names.{
  IsPlain, IsInner, IsName, All-IsInner_of_plain, trim_inner, trim_plain, Lacks-colon,
  is_empty-name,
}

-- The text of an affinity rule behind its type.
unfoldable pub affinity_text : Text → Text → Text → Bool → Text
affinity_text k v topology required =
    k
    ++ b':'
      ∷ (v ++ b':' ∷ (topology ++ (if required then codes ":required" else codes ":preferred")))

abbrev pub IsAffinityKind : Text → Type 0
IsAffinityKind kind = (kind ≡ codes "affinity") ⊎ (kind ≡ codes "anti-affinity")

abbrev affinity_of : Text → Text → Text → Text → Bool → AffinityRule
affinity_of kind k v topology required = record {
  kind = kind;
  label_selector = (k, v) ∷ [];
  topology_key = topology;
  required_during_scheduling = required;
}

scheduling_text : Bool → Text
scheduling_text required = if required then codes "required" else codes "preferred"

split-affinity_text :
    (k v topology : Text) (required : Bool)
    → All IsPlain k
    → All IsPlain v
    → All IsPlain topology
    → split b':' (affinity_text k v topology required)
      ≡ k ∷ v ∷ topology ∷ scheduling_text required ∷ []
unfolding affinity_text scheduling_text
split-affinity_text k v topology true hk hv ht = cc (
  split_at_sep b':' k (v ++ b':' ∷ (topology ++ codes ":required")) (Lacks-colon k hk),
  split_at_sep b':' v (topology ++ codes ":required") (Lacks-colon v hv),
  split_at_sep b':' topology (codes "required") (Lacks-colon topology ht),
  split_whole b':' (codes "required") (ground arith),
)
split-affinity_text k v topology false hk hv ht = cc (
  split_at_sep b':' k (v ++ b':' ∷ (topology ++ codes ":preferred")) (Lacks-colon k hk),
  split_at_sep b':' v (topology ++ codes ":preferred") (Lacks-colon v hv),
  split_at_sep b':' topology (codes "preferred") (Lacks-colon topology ht),
  split_whole b':' (codes "preferred") (ground arith),
)

affinity_of_parts-names :
    (kind rule_str k v topology : Text) (required : Bool)
    → IsName k
    → IsName v
    → IsName topology
    → affinity_of_parts kind rule_str (k ∷ v ∷ topology ∷ scheduling_text required ∷ [])
      ≡ ok (affinity_of kind k v topology required)
unfolding affinity_of_parts scheduling_text trim_space text_eq
affinity_of_parts-names kind rule_str k v topology true (nk, hk) (nv, hv) (nt, ht) = ground (
  arith,
  trim_plain k hk,
  trim_plain v hv,
  trim_plain topology ht,
  is_empty-name k nk,
  is_empty-name v nv,
  is_empty-name topology nt,
)
affinity_of_parts-names kind rule_str k v topology false (nk, hk) (nv, hv) (nt, ht) = ground (
  arith,
  trim_plain k hk,
  trim_plain v hv,
  trim_plain topology ht,
  is_empty-name k nk,
  is_empty-name v nv,
  is_empty-name topology nt,
)

rule_param_by_affinity :
    (param : Text) (rule : PlacementRule) (a : AffinityRule)
    → trim_space param ≡ param
    → is_empty param ≡ false
    → has_prefix param (codes "weight=") ≡ false
    → has_prefix param (codes "nodeSelector=") ≡ false
    → (has_prefix param (codes "affinity=") || has_prefix param (codes "anti-affinity=")) ≡ true
    → parse_affinity_rule param ≡ ok a
    → rule_param param rule ≡ ok (record rule { affinity = rule.affinity ++ a ∷ [] })
unfolding rule_param
rule_param_by_affinity param rule a same full no_weight no_selector prefixed read = ground arith

IsInner-scheduling :
    (required : Bool) → All IsInner (if required then codes ":required" else codes ":preferred")
unfolding is_space
IsInner-scheduling true = ground arith
IsInner-scheduling false = ground arith

unfoldable pub affinity_param : Text → Text → Text → Text → Bool → Text
affinity_param kind k v topology required = kind ++ b'=' ∷ affinity_text k v topology required

module _ (k v topology : Text) (required : Bool) (hk : IsName k) (hv : IsName v)
    (ht : IsName topology) where
  IsInner-affinity_text : All IsInner (affinity_text k v topology required)
  unfolding is_space affinity_text
  IsInner-affinity_text = All-append IsInner k _ (All-IsInner_of_plain k hk.1) (
    refl,
    All-append IsInner v _ (All-IsInner_of_plain v hv.1) (
      refl,
      All-append IsInner topology _ (All-IsInner_of_plain topology ht.1)
          (IsInner-scheduling required),
    ),
  )

  parse_affinity_rule-names :
      (kind : Text)
      → IsAffinityKind kind
      → parse_affinity_rule (affinity_param kind k v topology required)
        ≡ ok (affinity_of kind k v topology required)
  unfolding parse_affinity_rule has_prefix trim_prefix affinity_param
  parse_affinity_rule-names kind known =
      let parts = split-affinity_text k v topology required hk.1 hv.1 ht.1 in
      elim known [
        | inl e ↦ rw e (
            ground (
              arith,
              parts,
              affinity_of_parts-names (codes "affinity") (affinity_text k v topology required) k v
                  topology required hk hv ht,
            ))
        | inr e ↦ rw e (
            ground (
              arith,
              parts,
              affinity_of_parts-names (codes "anti-affinity") (affinity_text k v topology required)
                  k v topology required hk hv ht,
            ))
      ]

  pub IsInner-affinity_param :
      (kind : Text) → IsAffinityKind kind → All IsInner (affinity_param kind k v topology required)
  unfolding affinity_param is_space
  IsInner-affinity_param kind known =
      All-append IsInner kind _
        (elim known [ inl e ↦ rw e (ground arith) | inr e ↦ rw e (ground arith) ])
        (refl, IsInner-affinity_text)

  -- An affinity parameter adds its rule behind those read so far.
  pub rule_param-affinity :
      (kind : Text) (rule : PlacementRule)
      → IsAffinityKind kind
      → rule_param (affinity_param kind k v topology required) rule
        ≡ ok (record rule {
          affinity = rule.affinity ++ affinity_of kind k v topology required ∷ [];
        })
  unfolding affinity_param has_prefix is_empty
  rule_param-affinity kind rule known =
      let param = affinity_param kind k v topology required in
      let same = trim_inner param (IsInner-affinity_param kind known) in
      let read = parse_affinity_rule-names kind known in
      rule_param_by_affinity param rule (affinity_of kind k v topology required) same
        (elim known [ inl e ↦ rw e | inr e ↦ rw e ]) (elim known [ inl e ↦ rw e | inr e ↦ rw e ])
        (elim known [ inl e ↦ rw e | inr e ↦ rw e ]) (elim known [ inl e ↦ rw e | inr e ↦ rw e ])
        read
