-- ===== src/Placement/Best.antt =====
-- The weighted choice is the first of the rules that are furthest behind.
use kube_smart_scheduler.Prelude.{
  ℕ, suc, ◌+◌, ◌<◌, ◌≡◌, refl, ap, length, ltb→lt, not_ltb→le, ◌⊎◌, inl, inr, List, [], ◌∷◌, ◌++◌,
  arith, Bool-cases,
}
use kube_smart_scheduler.Prelude.Int.{ℤ, pos_part, neg_part, ◌≤ℤ◌, ltb_ℤ}
use kube_smart_scheduler.GoText.{Text}
use kube_smart_scheduler.GoMap.{Map, Order, ◌▹◌}
use kube_smart_scheduler.Strategy.{PlacementRule}
use kube_smart_scheduler.Float.{FloatOps, FloatLaws, IsExact}
use kube_smart_scheduler.Placement.{shortfall, best_rule}

infix 50 ◌<ℤ◌
abbrev pub ◌<ℤ◌ : ℤ → ℤ → Type 0
a <ℤ b = pos_part a + neg_part b < pos_part b + neg_part a

module _ {F : Type 0} (fl : FloatOps F) (laws : FloatLaws fl) (o : Order Text) (totalw beyond : ℤ)
    (counts : Map ℤ) where
  -- How far the i-th rule is behind.
  abbrev pub behind : ℕ → PlacementRule → ℤ
  behind i rule = shortfall fl (o ▹ i) totalw beyond counts rule

  -- Every rule from the i-th on is behind by a number that a float holds.
  abbrev pub AllExact : ℕ → List PlacementRule → Type 0
  AllExact i [] = Unit
  AllExact i (rule ∷ rules) = IsExact (behind i rule) × AllExact (suc i) rules

  abbrev pub AllBelow : ℤ → ℕ → List PlacementRule → Type 0
  AllBelow d i [] = Unit
  AllBelow d i (rule ∷ rules) = (behind i rule <ℤ d) × AllBelow d (suc i) rules

  abbrev pub AllAtMost : ℤ → ℕ → List PlacementRule → Type 0
  AllAtMost d i [] = Unit
  AllAtMost d i (rule ∷ rules) = (behind i rule ≤ℤ d) × AllAtMost d (suc i) rules

  -- `r` is the j-th rule: behind by more than `d`, by more than each rule before it, and by as much
  -- at least as each rule after it.
  abbrev pub IsFirstMaximum : ℤ → ℕ → List PlacementRule → PlacementRule → Type 0
  IsFirstMaximum d i rules r =
      (j : ℕ) × (before : List PlacementRule) × (after : List PlacementRule) × (rules
        ≡ before ++ r ∷ after)
      × (d <ℤ behind j r)
      × AllBelow (behind j r) i before
      × AllAtMost (behind j r) (suc j) after
      × (j ≡ i + length before)

  abbrev pub IsChoice : PlacementRule → ℤ → ℕ → List PlacementRule → PlacementRule → Type 0
  IsChoice best d i rules r = (AllAtMost d i rules × (r ≡ best)) ⊎ IsFirstMaximum d i rules r

  keep_best :
      (best rule r : PlacementRule) (d : ℤ) (i : ℕ) (rules : List PlacementRule)
      → behind i rule ≤ℤ d
      → IsChoice best d (suc i) rules r
      → IsChoice best d i (rule ∷ rules) r
  keep_best best rule r d i rules le (inl (rest, e)) = inl ((le, rest), e)
  keep_best best rule r d i rules le (inr (j, before, after, split, more, below, most, at)) = inr (
    j,
    rule ∷ before,
    after,
    ap (λ t. rule ∷ t) split,
    more,
    (omega arith, below),
    most,
    omega arith,
  )

  take_better :
      (best rule r : PlacementRule) (d : ℤ) (i : ℕ) (rules : List PlacementRule)
      → d <ℤ behind i rule
      → IsChoice rule (behind i rule) (suc i) rules r
      → IsChoice best d i (rule ∷ rules) r
  take_better best rule r d i rules lt (inl (rest, e)) =
      rw e (inr (i, [], rules, refl, lt, tt, rest, omega arith))
  take_better best rule r d i rules lt (inr (j, before, after, split, more, below, most, at)) =
      inr (
        j,
        rule ∷ before,
        after,
        ap (λ t. rule ∷ t) split,
        omega arith,
        (more, below),
        most,
        omega arith,
      )

  pub best_rule-IsChoice :
      (i : ℕ) (rules : List PlacementRule) (best : PlacementRule) (d : ℤ)
      → IsExact d
      → AllExact i rules
      → IsChoice best d i rules (best_rule fl o totalw beyond counts i rules best (fl.of_int d))
  unfolding best_rule
  best_rule-IsChoice i [] best d _ _ = inl (tt, refl)
  best_rule-IsChoice i (rule ∷ rules) best d fits (exact, exacts) =
      let same = laws.less-of_int d (behind i rule) fits exact in
      elim (Bool-cases (ltb_ℤ d (behind i rule))) [
        | inl more ↦
            rw (same, more)
              (take_better best rule _ d i rules (ltb→lt _ _ more)
                (best_rule-IsChoice (suc i) rules rule (behind i rule) exact exacts))
        | inr less ↦
            rw (same, less)
              (keep_best best rule _ d i rules (not_ltb→le _ _ less)
                (best_rule-IsChoice (suc i) rules best d fits exacts))
      ]
