-- ===== src/GoText/Scan.antt =====
-- fmt.Sscanf with the format %d, into an `int32`.
use kube_smart_scheduler.Prelude.{
  ℕ, zero, suc, ◌+◌, ◌-◌, ◌*◌, ◌≤◌, ◌<◌, ◌^◌, ◌≡◌, refl, ◌≢◌, Option, none, some, [], ◌∷◌, arith,
  ltb, ◌==◌, if◌then◌else◌, All,
}
use kube_smart_scheduler.Prelude.Int.{ℤ, pos, negsuc, pos_part, neg_part}
use kube_smart_scheduler.GoText.{Text, is_space}
use kube_smart_scheduler.GoText.Number.{
  is_digit, scan, print_ℕ, itoa, scan-print_ℕ, print_ℕ-ne-nil, IsDigit, IsDigit-print_ℕ,
}

-- The values that an `int32` holds.
abbrev pub IsInt32 : ℤ → Type 0
IsInt32 z = (pos_part z < 2 ^ 31) × (neg_part z ≤ 2 ^ 31)

abbrev in_int32 : ℤ → Option ℤ
in_int32 (pos n) = if ltb n (2 ^ 31) then some (pos n) else none
in_int32 (negsuc n) = if ltb n (2 ^ 31) then some (negsuc n) else none

-- The digits that stand first; what follows them is left unread.
scan_digits : Text → ℕ → ℕ
scan_digits [] n = n
scan_digits (c ∷ s) n =
    let rest = scan_digits s (n * 10 + (c - b'0')) in if is_digit c then rest else n

unsigned : Text → Option ℕ
unfolding scan_digits
unsigned [] = none
unsigned (c ∷ s) = if is_digit c then some (scan_digits (c ∷ s) 0) else none

abbrev as_positive : Option ℕ → Option ℤ
as_positive none = none
as_positive (some n) = in_int32 (pos n)

abbrev as_negative : Option ℕ → Option ℤ
as_negative none = none
as_negative (some zero) = some (pos 0)
as_negative (some (suc n)) = in_int32 (negsuc n)

token : Text → Option ℤ
unfolding unsigned
token [] = none
token (c ∷ s) =
    if c == b'-'
    then as_negative (unsigned s)
    else if c == b'+'
    then as_positive (unsigned s)
    else as_positive (unsigned (c ∷ s))

-- Spaces before the number are passed over, a line feed is an error. `none` is an error.
unfoldable pub sscan_int32 : Text → Option ℤ
unfolding token
sscan_int32 [] = none
sscan_int32 (c ∷ s) =
    let rest = sscan_int32 s in if c == 10 then none else if is_space c then rest else token (c ∷ s)

scan_digits-scan : (s : Text) (n m : ℕ) → scan s n ≡ some m → scan_digits s n ≡ m
unfolding scan scan_digits
scan_digits-scan [] n m e = cc
scan_digits-scan (c ∷ s) n m e = ground (arith, scan_digits-scan s (n * 10 + (c - b'0')) m)

unsigned_of_digits :
    (s : Text) (n : ℕ) → s ≢ [] → All IsDigit s → scan s 0 ≡ some n → unsigned s ≡ some n
unfolding unsigned
unsigned_of_digits [] n some_digit h e = absurd (some_digit refl)
unsigned_of_digits (c ∷ s) n some_digit (digit, h) e =
    ground (arith, scan_digits-scan (c ∷ s) 0 n e)

unsigned-print_ℕ : (n : ℕ) → unsigned (print_ℕ n) ≡ some n
unsigned-print_ℕ n =
    unsigned_of_digits (print_ℕ n) n (print_ℕ-ne-nil n) (IsDigit-print_ℕ n) (scan-print_ℕ n)

sscan_of_digits : (s : Text) → s ≢ [] → All IsDigit s → sscan_int32 s ≡ as_positive (unsigned s)
unfolding sscan_int32 is_space
sscan_of_digits [] some_digit h = absurd (some_digit refl)
sscan_of_digits (c ∷ s) some_digit (digit, h) = ground arith

-- What %d prints for an `int32`, Sscanf reads back.
pub sscan_int32-itoa : (z : ℤ) → IsInt32 z → sscan_int32 (itoa z) ≡ some z
unfolding itoa
sscan_int32-itoa (pos n) h =
    ground (
      arith,
      sscan_of_digits (print_ℕ n) (print_ℕ-ne-nil n) (IsDigit-print_ℕ n),
      unsigned-print_ℕ n,
    )
sscan_int32-itoa (negsuc n) h =
    unfold sscan_int32 is_space in ground (arith, unsigned-print_ℕ (suc n))
