-- ===== src/Float.antt =====
-- The operations of float64 that the program uses, and the facts of IEEE 754 that the proofs rest
-- on. Floats are not built in the model: `F` is any type with these operations.
use kube_smart_scheduler.Prelude.{ℕ, ◌*◌, ◌/◌, ◌^◌, ◌≤◌, ◌<◌, ◌≡◌, Bool}
use kube_smart_scheduler.Prelude.Int.{ℤ, pos, pos_part, neg_part, ltb_ℤ}

pub record FloatOps (F : Type 0) : Type 0 where
  pub of_int : ℤ → F  -- float64(n); a constant such as -1.0 is the conversion of an integer
  pub to_int : F → ℤ  -- int(x), towards zero
  pub mul : F → F → F
  pub div : F → F → F
  pub add : F → F → F
  pub less : F → F → Bool

-- Integers up to 2^53 in size have a float of their own.
abbrev pub IsExact : ℤ → Type 0
IsExact a = (pos_part a ≤ 2 ^ 53) × (neg_part a ≤ 2 ^ 53)

pub record FloatLaws {F : Type 0} (fl : FloatOps F) : Type 0 where
  -- The conversion of such integers keeps their order.
  pub less-of_int :
      (a b : ℤ) → IsExact a → IsExact b → fl.less (fl.of_int a) (fl.of_int b) ≡ ltb_ℤ a b
  -- A product below 2^53 is exact, and rounding its quotient reaches no integer that the quotient
  -- does not: at distance 1/c below an integer lies a float.
  pub to_int-quotient :
      (a b c : ℕ)
      → a < 2 ^ 53
      → b < 2 ^ 53
      → a * b < 2 ^ 53
      → 0 < c
      → c < 2 ^ 53
      → fl.to_int (fl.div (fl.mul (fl.of_int (pos a)) (fl.of_int (pos b))) (fl.of_int (pos c)))
        ≡ pos (a * b / c)
