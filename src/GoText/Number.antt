-- ===== src/GoText/Number.antt =====
-- strconv.Atoi and the verb %d of fmt, for a 64-bit `int`.
use kube_smart_scheduler.Prelude.{
  ℕ, zero, suc, ◌+◌, ◌-◌, ◌*◌, ◌/◌, ◌%◌, ◌≤◌, ◌≡◌, refl, ◌≢◌, Bool, ◌&&◌, Option, none, some, [],
  ◌∷◌, arith, ltb, leb, ◌==◌, if◌then◌else◌, All, All-map, ap, ◌∙◌,
}
use kube_smart_scheduler.Prelude.Int.{ℤ, pos, negsuc}
use kube_smart_scheduler.Prelude.Int64.{half_word, IsInt64}
use kube_smart_scheduler.GoText.{Text}

abbrev pub is_digit : ℕ → Bool
is_digit c = leb b'0' c && leb c b'9'

unfoldable pub scan : Text → ℕ → Option ℕ
scan [] n = some n
scan (c ∷ s) n = if is_digit c then scan s (n * 10 + (c - b'0')) else none

-- one digit or more
pub magnitude : Text → Option ℕ
unfolding scan
magnitude [] = none
magnitude (c ∷ s) = scan (c ∷ s) 0

abbrev positive : Option ℕ → Option ℤ
positive none = none
positive (some n) = if ltb n half_word then some (pos n) else none

abbrev negate : ℕ → ℤ
negate zero = pos 0
negate (suc n) = negsuc n

abbrev negative : Option ℕ → Option ℤ
negative none = none
negative (some n) = if leb n half_word then some (negate n) else none

-- A sign or none, then digits; `none` is a syntax or range error.
unfoldable pub atoi : Text → Option ℤ
unfolding magnitude
atoi [] = none
atoi (c ∷ s) =
    if c == b'-'
    then negative (magnitude s)
    else if c == b'+'
    then positive (magnitude s)
    else positive (magnitude (c ∷ s))

emit : ℕ → ℕ → Text → Text
emit zero n out = out
emit (suc fuel) n out =
    let rest = emit fuel (n / 10) ((b'0' + n % 10) ∷ out) in if n == 0 then out else rest

unfoldable pub print_ℕ : ℕ → Text
unfolding emit
print_ℕ zero = b'0' ∷ []
print_ℕ (suc n) = emit n (suc n / 10) ((b'0' + suc n % 10) ∷ [])

-- fmt.Sprintf("%d", n)
unfoldable pub itoa : ℤ → Text
unfolding print_ℕ
itoa (pos n) = print_ℕ n
itoa (negsuc n) = b'-' ∷ print_ℕ (suc n)

abbrev pub IsDigit : ℕ → Type 0
IsDigit c = (b'0' ≤ c) × (c ≤ b'9')

-- The fuel n is enough for n, as each round divides by ten.
scan-emit : (fuel n : ℕ) (out : Text) → n ≤ fuel → scan (emit fuel n out) 0 ≡ scan out n
unfolding scan emit
scan-emit zero n out h = ap (λ k. scan out k) (omega arith)
scan-emit (suc fuel) n out h = ground (arith, scan-emit fuel (n / 10) ((b'0' + n % 10) ∷ out))

IsDigit-emit : (fuel n : ℕ) (out : Text) → All IsDigit out → All IsDigit (emit fuel n out)
unfolding emit
IsDigit-emit zero n out h = h
IsDigit-emit (suc fuel) n out h = ground (arith, IsDigit-emit fuel (n / 10) ((b'0' + n % 10) ∷ out))

emit-ne-nil : (fuel n : ℕ) (out : Text) → out ≢ [] → emit fuel n out ≢ []
unfolding emit
emit-ne-nil zero n out h = h
emit-ne-nil (suc fuel) n out h =
    ground (arith, emit-ne-nil fuel (n / 10) ((b'0' + n % 10) ∷ out) (cc))

pub IsDigit-print_ℕ : (n : ℕ) → All IsDigit (print_ℕ n)
unfolding print_ℕ
IsDigit-print_ℕ zero = omega arith
IsDigit-print_ℕ (suc n) = IsDigit-emit n (suc n / 10) ((b'0' + suc n % 10) ∷ []) (omega arith)

pub print_ℕ-ne-nil : (n : ℕ) → print_ℕ n ≢ []
unfolding print_ℕ
print_ℕ-ne-nil zero = cc
print_ℕ-ne-nil (suc n) = emit-ne-nil n (suc n / 10) ((b'0' + suc n % 10) ∷ []) (cc)

magnitude-scan : (s : Text) → s ≢ [] → magnitude s ≡ scan s 0
unfolding magnitude
magnitude-scan [] h = absurd (h refl)
magnitude-scan (c ∷ s) h = refl

pub scan-print_ℕ : (n : ℕ) → scan (print_ℕ n) 0 ≡ some n
unfolding print_ℕ scan
scan-print_ℕ zero = refl
scan-print_ℕ (suc n) = ground (arith, scan-emit n (suc n / 10) ((b'0' + suc n % 10) ∷ []))

magnitude-print_ℕ : (n : ℕ) → magnitude (print_ℕ n) ≡ some n
magnitude-print_ℕ n = magnitude-scan (print_ℕ n) (print_ℕ-ne-nil n) ∙ scan-print_ℕ n

-- A text that begins with a digit has no sign.
atoi_unsigned : (s : Text) → All IsDigit s → atoi s ≡ positive (magnitude s)
unfolding atoi
atoi_unsigned [] h = refl
atoi_unsigned (c ∷ s) h = ground arith

-- What %d prints for an `int`, Atoi reads back.
pub atoi-itoa : (z : ℤ) → IsInt64 z → atoi (itoa z) ≡ some z
unfolding itoa
atoi-itoa (pos n) h =
    ground (arith, atoi_unsigned (print_ℕ n) (IsDigit-print_ℕ n), magnitude-print_ℕ n)
atoi-itoa (negsuc n) h = unfold atoi in ground (arith, magnitude-print_ℕ (suc n))

-- A printed number holds digits and a sign at most.
pub All-itoa : {P : ℕ → Type 0} (z : ℤ) → P b'-' → ((c : ℕ) → IsDigit c → P c) → All P (itoa z)
unfolding itoa
All-itoa (pos n) minus digit = All-map (print_ℕ n) digit (IsDigit-print_ℕ n)
All-itoa (negsuc n) minus digit = (minus, All-map (print_ℕ (suc n)) digit (IsDigit-print_ℕ (suc n)))
