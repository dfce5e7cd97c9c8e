-- ===== src/Prelude/Result.antt =====
-- A value or an error, with `do`, and a loop that stops at the first error.
use mathlib.Core.Path.{◌≡◌, refl, ap, subst}
use mathlib.Core.List.{List, [], ◌∷◌, ◌++◌}

pub data Result {ℓ κ} (Failure : Type ℓ) (Value : Type κ) : Type (ℓ ⊔ κ) where
  ok : Value → Result Failure Value
  err : Failure → Result Failure Value

infixl 5 ◌>>=◌
abbrev pub ◌>>=◌ {ℓ κ ι} :
    {E : Type ℓ} {A : Type κ} {B : Type ι} → Result E A → (A → Result E B) → Result E B
ok value >>= next = next value
err failure >>= next = err failure

abbrev pub map_err {ℓ κ ι} :
    {D : Type ℓ} {E : Type κ} {A : Type ι} → (D → E) → Result D A → Result E A
map_err f (ok a) = ok a
map_err f (err e) = err (f e)

module _ {ℓ} {X S E : Type ℓ} where
  abbrev pub fold_m : (X → S → Result E S) → List X → S → Result E S
  fold_m f [] s = ok s
  fold_m f (x ∷ xs) s = f x s >>= fold_m f xs

  pub fold_m-append :
      (f : X → S → Result E S) (xs ys : List X) (s : S)
      → fold_m f (xs ++ ys) s ≡ (fold_m f xs s >>= fold_m f ys)
  fold_m-append f [] ys s = refl
  fold_m-append f (x ∷ xs) ys s = bind_rest (f x s) (fold_m-append f xs ys)
    where
      bind_rest :
          (r : Result E S)
          → ((t : S) → fold_m f (xs ++ ys) t ≡ (fold_m f xs t >>= fold_m f ys))
          → (r >>= fold_m f (xs ++ ys)) ≡ (r >>= fold_m f xs >>= fold_m f ys)
      bind_rest (ok t) ih = ih t
      bind_rest (err e) ih = refl

-- A bind that succeeds has run both its parts.
pub >>=-eq-ok {ι ℓ κ} :
    {C : Type ι} {E : Type ℓ} {B : Type κ} (first : Result E C) (next : C → Result E B) {end : B}
    → (first >>= next) ≡ ok end
    → (middle : C) × (first ≡ ok middle) × (next middle ≡ ok end)
>>=-eq-ok (ok middle) next succeeds = (middle, refl, succeeds)
>>=-eq-ok (err e) next succeeds = cc

abbrev ok_or {ℓ κ} : {E : Type ℓ} {A : Type κ} → A → Result E A → A
ok_or d (ok a) = a
ok_or d (err e) = d

pub ok-injective {ℓ κ} :
    {E : Type ℓ} {A : Type κ} {a b : A} → ◌≡◌ {A = Result E A} (ok a) (ok b) → a ≡ b
ok-injective {a} e = ap (ok_or a) e

-- What every round keeps holds when the loop has ended without an error.
pub fold_m-keeps {ℓ κ} :
    {X S E : Type ℓ} (P : S → Type κ) (f : X → S → Result E S)
    → ((x : X) (s t : S) → P s → f x s ≡ ok t → P t)
    → (xs : List X) (s t : S) → P s
    → fold_m f xs s ≡ ok t
    → P t
fold_m-keeps P f keep [] s t p h = subst P (ok-injective h) p
fold_m-keeps P f keep (x ∷ xs) s t p h =
    let (u, first, rest) = >>=-eq-ok (f x s) (fold_m f xs) h in
    fold_m-keeps P f keep xs u t (keep x s u p first) rest

abbrev fails_with {ℓ κ} : {E : Type ℓ} {A : Type κ} → E → Result E A → E
fails_with d (ok a) = d
fails_with d (err e) = e

-- If the second part never fails, a failure is the first part's.
pub >>=-eq-err {ι ℓ κ} :
    {C : Type ι} {E : Type ℓ} {B : Type κ} (first : Result E C) (next : C → Result E B) {e : E}
    → ((middle : C) → (end : B) × (next middle ≡ ok end))
    → (first >>= next) ≡ err e
    → first ≡ err e
>>=-eq-err (err f) next succeeds fails = ap err (ap (fails_with f) fails)
>>=-eq-err (ok middle) next succeeds fails = let (end, ends) = succeeds middle in cc
