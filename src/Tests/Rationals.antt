-- ===== src/Tests/Rationals.antt =====
-- Exact fractions as the floats: the laws of FloatLaws can hold.
use kube_smart_scheduler.Prelude.{ℕ, suc, ◌+◌, ◌*◌, ◌/◌, ◌≡◌, refl, ap, ◌∙◌, arith}
use kube_smart_scheduler.Prelude.Int.{ℤ, pos, negsuc, pos_part, neg_part, sub_ℕ, ltb_ℤ}
use kube_smart_scheduler.Float.{FloatOps, FloatLaws}

-- Numerator and denominator, which is positive but for a division by zero.
abbrev pub Rational : Type 0
Rational = ℤ × ℕ

abbrev times : ℤ → ℕ → ℤ
times (pos a) b = pos (a * b)
times (negsuc a) b = sub_ℕ 0 (suc a * b)

abbrev opposite : ℤ → ℤ
opposite (pos a) = sub_ℕ 0 a
opposite (negsuc a) = pos (suc a)

abbrev product : ℤ → ℤ → ℤ
product a (pos b) = times a b
product a (negsuc b) = opposite (times a (suc b))

abbrev sum : ℤ → ℤ → ℤ
sum a b = sub_ℕ (pos_part a + pos_part b) (neg_part a + neg_part b)

abbrev over : ℤ → ℕ → ℤ → Rational
over a b (pos c) = (a, b * c)
over a b (negsuc c) = (opposite a, b * suc c)

abbrev truncated : ℤ → ℕ → ℤ
truncated (pos a) b = pos (a / b)
truncated (negsuc a) b = sub_ℕ 0 (suc a / b)

abbrev pub rationals : FloatOps Rational
rationals = record {
  of_int = λ n. (n, 1);
  to_int = λ x. truncated x.0 x.1;
  mul = λ x y. (product x.0 y.0, x.1 * y.1);
  div = λ x y. over (times x.0 y.1) x.1 y.0;
  add = λ x y. (sum (times x.0 y.1) (times y.0 x.1), x.1 * y.1);
  less = λ x y. ltb_ℤ (times x.0 y.1) (times y.0 x.1);
}

times_one : (a : ℤ) → times a 1 ≡ a
times_one (pos a) = ap pos (omega arith)
times_one (negsuc a) = ground arith

one_quotient : (a b c : ℕ) → a * b * 1 / (1 * 1 * c) ≡ a * b / c
one_quotient a b c = ap (λ n. n / (1 * 1 * c)) (omega arith) ∙ ap (λ n. a * b / n) (omega arith)

pub rationals-FloatLaws : FloatLaws rationals
rationals-FloatLaws = record {
  less-of_int = λ a b ha hb. rw (times_one a, times_one b) refl;
  to_int-quotient = λ a b c few light small nonzero in_range. ap pos (one_quotient a b c);
}
