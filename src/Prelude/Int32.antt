-- ===== src/Prelude/Int32.antt =====
-- Go's `int32`, whose sums wrap around.
use Prim.Native.Nat.{ℕ, ◌+◌, ◌-◌, ◌%◌, ◌^◌, ◌<◌}
use mathlib.Core.Path.{◌≡◌}
use native.Mathlib.Omega.{arith}
use kube_smart_scheduler.Prelude.Tests.{ltb, if◌then◌else◌}
use kube_smart_scheduler.Prelude.Int.{ℤ, pos, negsuc}

abbrev pub half_word32 : ℕ
half_word32 = 2 ^ 31

bits32 : ℤ → ℕ
bits32 (pos n) = n % 2 ^ 32
bits32 (negsuc n) = 2 ^ 32 - 1 - n % 2 ^ 32

signed32 : ℕ → ℤ
signed32 b = if ltb b half_word32 then pos b else negsuc (2 ^ 32 - 1 - b)

unfoldable pub add32 : ℤ → ℤ → ℤ
unfolding bits32 signed32
add32 a b = signed32 ((bits32 a + bits32 b) % 2 ^ 32)

-- A sum that fits is the true sum.
pub add32-pos : (a b : ℕ) → a + b < half_word32 → add32 (pos a) (pos b) ≡ pos (a + b)
unfolding add32
add32-pos a b h = ground arith
