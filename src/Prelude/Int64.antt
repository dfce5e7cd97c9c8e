-- ===== src/Prelude/Int64.antt =====
-- Go's `int` on a 64-bit platform: an integer whose sums and differences wrap around.
use Prim.Native.Nat.{ℕ, ◌+◌, ◌-◌, ◌%◌, ◌^◌, ◌≤◌, ◌<◌}
use mathlib.Core.Path.{◌≡◌, refl, sym, ap, ◌∙◌}
use native.Mathlib.Omega.{arith}
use kube_smart_scheduler.Prelude.Tests.{ltb, if◌then◌else◌}
use kube_smart_scheduler.Prelude.Int.{ℤ, pos, negsuc, pos_part, neg_part, ◌+ℤ◌, ◌-ℤ◌}

abbrev pub word : ℕ
word = 2 ^ 64

abbrev pub half_word : ℕ
half_word = 2 ^ 63

-- The two's complement pattern of an integer, and the integer of a pattern.
unfoldable pub bits : ℤ → ℕ
bits (pos n) = n % word
bits (negsuc n) = word - 1 - n % word

unfoldable pub signed : ℕ → ℤ
signed b = if ltb b half_word then pos b else negsuc (word - 1 - b)

-- The values that an `int` holds.
abbrev pub IsInt64 : ℤ → Type 0
IsInt64 a = (pos_part a < half_word) × (neg_part a ≤ half_word)

unfoldable pub add64 : ℤ → ℤ → ℤ
unfolding bits signed
add64 a b = signed ((bits a + bits b) % word)

unfoldable pub sub64 : ℤ → ℤ → ℤ
unfolding bits signed
sub64 a b = signed ((bits a + word - bits b) % word)

pub bits-lt-word : (a : ℤ) → bits a < word
unfolding bits
bits-lt-word (pos n) = omega arith
bits-lt-word (negsuc n) = omega arith

pub bits-signed : (b : ℕ) → b < word → bits (signed b) ≡ b
unfolding bits signed
bits-signed b h = ground arith

pub signed-bits : (a : ℤ) → IsInt64 a → signed (bits a) ≡ a
unfolding bits signed
signed-bits (pos n) h = ground arith
signed-bits (negsuc n) h = ground arith

pub signed-IsInt64 : (b : ℕ) → b < word → IsInt64 (signed b)
unfolding signed
signed-IsInt64 b h = ground arith

-- A sum that fits is the true sum.
pub add64-eq-+ℤ : (a b : ℤ) → IsInt64 a → IsInt64 b → IsInt64 (a +ℤ b) → add64 a b ≡ a +ℤ b
unfolding add64 ◌+ℤ◌
add64-eq-+ℤ a b ha hb h = ground arith

pub sub64-eq--ℤ : (a b : ℤ) → IsInt64 a → IsInt64 b → IsInt64 (a -ℤ b) → sub64 a b ≡ a -ℤ b
unfolding sub64 ◌-ℤ◌
sub64-eq--ℤ a b ha hb h = ground arith

pub bits-add64 : (a b : ℤ) → bits (add64 a b) ≡ (bits a + bits b) % word
unfolding add64
bits-add64 a b = bits-signed ((bits a + bits b) % word) (omega arith)

add64_lem : (a b : ℤ) → add64 a b ≡ signed ((bits a + bits b) % word)
unfolding add64
add64_lem a b = refl

pub eq_of_bits : (a b : ℤ) → IsInt64 a → IsInt64 b → bits a ≡ bits b → a ≡ b
eq_of_bits a b ha hb h = sym (signed-bits a ha) ∙ ap signed h ∙ signed-bits b hb

pub add64_comm : (a b : ℤ) → add64 a b ≡ add64 b a
unfolding add64
add64_comm a b = ap (λ n. signed (n % word)) (omega arith)

pub add64_assoc : (a b c : ℤ) → add64 (add64 a b) c ≡ add64 a (add64 b c)
add64_assoc a b c =
    rw (add64_lem (add64 a b) c, add64_lem a (add64 b c), bits-add64, bits-add64)
      (ap signed (omega arith))
