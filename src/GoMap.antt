-- ===== src/GoMap.antt =====
-- Go maps from strings: an association list that holds each key once. A nil map reads as the empty
-- one. The order in which `range` visits a map is chosen by the runtime anew at each loop: an
-- `Order` answers, for the path of the call in the run, with the entries in the order visited.
pub mod Laws
pub mod Unique
use kube_smart_scheduler.Prelude.{
  ℕ, Bool, true, false, Option, none, some, List, [], ◌∷◌, if◌then◌else◌,
}
use mathlib.Core.List.{Permᴰ}
use kube_smart_scheduler.GoText.{Text, text_eq}

abbrev pub Map {ℓ} : Type ℓ → Type ℓ
Map V = List (Text × V)

module _ {ℓ} {V : Type ℓ} where
  unfoldable pub lookup : Text → Map V → Option V
  lookup key [] = none
  lookup key ((other, value) ∷ entries) =
      if text_eq other key then some value else lookup key entries

  -- m[key] = value
  unfoldable pub insert : Text → V → Map V → Map V
  insert key value [] = (key, value) ∷ []
  insert key value ((other, old) ∷ entries) =
      if text_eq other key then (key, value) ∷ entries else (other, old) ∷ insert key value entries

  -- delete(m, k)
  unfoldable pub delete : Text → Map V → Map V
  delete k [] = []
  delete k ((j, w) ∷ m) = if text_eq j k then m else (j, w) ∷ delete k m

  -- m[k], with the zero value of a missing key
  unfoldable pub get_or : Text → Map V → V → V
  unfolding lookup
  get_or k m zero_value = elim (lookup k m) [ none ↦ zero_value | some v ↦ v ]

  -- _, exists := m[k]
  unfoldable pub contains : Text → Map V → Bool
  unfolding lookup
  contains k m = elim (lookup k m) [ none ↦ false | some v ↦ true ]

abbrev pub Order : Type 0 → Type 0
Order V = List ℕ → Map V → Map V

-- The orders of the calls below the n-th one.
infixl 80 ◌▹◌
abbrev pub ◌▹◌ : {V : Type 0} → Order V → ℕ → Order V
(o ▹ n) path = o (n ∷ path)

-- What a loop at this call visits.
abbrev pub range : {V : Type 0} → Order V → Map V → Map V
range o m = o [] m

-- The runtime visits every entry once.
abbrev pub IsOrder : {V : Type 0} → Order V → Type 0
IsOrder {V} o = (path : List ℕ) (m : Map V) → Permᴰ (o path m) m

-- The order in which the entries are written down.
abbrev pub in_order : {V : Type 0} → Order V
in_order path m = m

-- The calls below a call are answered as all are.
pub IsOrder-at : {V : Type 0} (o : Order V) (n : ℕ) → IsOrder o → IsOrder (o ▹ n)
IsOrder-at o n h path = h (n ∷ path)
