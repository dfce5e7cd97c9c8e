-- ===== src/Prelude/Lists.antt =====
-- Lists measured by native numbers, and predicates on lists by recursion.
use Prim.Native.Nat.{ℕ, zero, suc, ◌+◌}
use mathlib.Core.Path.{◌≡◌, refl, sym, subst}
use mathlib.Core.List.{List, [], ◌∷◌, ◌++◌, Memᴰ}
use native.Mathlib.Omega.{arith}

module _ {ℓ} {A : Type ℓ} where
  abbrev pub length : List A → ℕ
  length [] = 0
  length (x ∷ xs) = suc (length xs)

  abbrev pub take : ℕ → List A → List A
  take zero xs = []
  take (suc n) [] = []
  take (suc n) (x ∷ xs) = x ∷ take n xs

  abbrev pub All {κ} : (A → Type κ) → List A → Type κ
  All P [] = Unit
  All P (x ∷ xs) = P x × All P xs

  pub length-append : (xs ys : List A) → length (xs ++ ys) ≡ length xs + length ys
  length-append [] ys = omega arith
  length-append (x ∷ xs) ys = omega (arith, length-append xs ys)

  pub All-append {κ} : (P : A → Type κ) (xs ys : List A) → All P xs → All P ys → All P (xs ++ ys)
  All-append P [] ys _ h = h
  All-append P (x ∷ xs) ys (p, ps) h = (p, All-append P xs ys ps h)

  pub All-map {κ ι} :
      {P : A → Type κ} {Q : A → Type ι} (xs : List A) → ((x : A) → P x → Q x) → All P xs → All Q xs
  All-map [] f _ = tt
  All-map (x ∷ xs) f (p, ps) = (f x p, All-map xs f ps)

  -- The members of a list are its members.
  pub All-Mem : (xs : List A) → All (λ x. Memᴰ x xs) xs
  All-Mem [] = tt
  All-Mem (x ∷ xs) = (Memᴰ.head refl, All-map xs (λ y m. Memᴰ.tail m) (All-Mem xs))

  -- What holds of all members holds of one.
  pub All-at {κ} : (P : A → Type κ) (xs : List A) (x : A) → All P xs → Memᴰ x xs → P x
  All-at P [] x _ member = elim member [ ]
  All-at P (y ∷ ys) x (p, ps) (Memᴰ.head e) = subst P (sym e) p
  All-at P (y ∷ ys) x (p, ps) (Memᴰ.tail m) = All-at P ys x ps m
