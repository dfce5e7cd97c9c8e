-- ===== src/GoMap/Laws.antt =====
-- Lookup after each update of a Go map, and the loops that no order can change.
use mathlib.Core.List.{Permᴰ}
use mathlib.Core.Path.{subst}
use kube_smart_scheduler.Prelude.{
  true, false, ◌||◌, ℕ, suc, ◌≤◌, ◌≡◌, refl, sym, ap, ◌∙◌, All, some, List, [], ◌∷◌, arith,
  if◌then◌else◌, length,
}
use kube_smart_scheduler.GoText.{Text, text_eq, text_eq_iff, text_eq_refl}
use kube_smart_scheduler.GoMap.{Map, lookup, insert, get_or, contains, Order, IsOrder}

module _ {ℓ} {V : Type ℓ} where
  -- The key just written reads as what was written, the others read as before.
  pub lookup-insert :
      (key other : Text) (value : V) (entries : Map V)
      → lookup other (insert key value entries)
        ≡ (if text_eq key other then some value else lookup other entries)
  unfolding insert lookup
  lookup-insert key other value [] = refl
  lookup-insert key other value ((first, w) ∷ entries) =
      let rest = lookup-insert key other value entries in
      ground (arith, rest, text_eq_iff first key, text_eq_iff first other, text_eq_iff key other)

  pub get_or-insert_self : (k : Text) (v d : V) (m : Map V) → get_or k (insert k v m) d ≡ v
  unfolding get_or
  get_or-insert_self k v d m = ground (arith, lookup-insert k k v m, text_eq_refl k)

  pub get_or-insert :
      (k j : Text) (v d : V) (m : Map V)
      → get_or j (insert k v m) d ≡ (if text_eq k j then v else get_or j m d)
  unfolding get_or
  get_or-insert k j v d m = ground (arith, lookup-insert k j v m)

  pub contains-insert :
      (k j : Text) (v : V) (m : Map V) → contains j (insert k v m) ≡ (text_eq k j || contains j m)
  unfolding contains
  contains-insert k j v m = ground (arith, lookup-insert k j v m)

  pub get_or-nil : (k : Text) (d : V) → get_or k [] d ≡ d
  unfolding get_or lookup
  get_or-nil k d = refl

  pub get_or-head :
      (k j : Text) (w d : V) (m : Map V) → text_eq j k ≡ true → get_or k ((j, w) ∷ m) d ≡ w
  unfolding get_or lookup
  get_or-head k j w d m e = ground arith

  pub get_or-tail :
      (k j : Text) (w d : V) (m : Map V)
      → text_eq j k ≡ false
      → get_or k ((j, w) ∷ m) d ≡ get_or k m d
  unfolding get_or lookup
  get_or-tail k j w d m e = ground arith

-- A list of at most one entry has one order.
perm_one {ℓ} : {A : Type ℓ} {xs ys : List A} → Permᴰ xs ys → length ys ≤ 1 → xs ≡ ys
perm_one Permᴰ.nil h = refl
perm_one (Permᴰ.cons e p) h = cc (e, perm_one p (omega arith))
perm_one (Permᴰ.swap e f) h = absurd (omega arith)
perm_one (Permᴰ.trans p q) h = let same = perm_one q h in perm_one p (rw same h) ∙ same

-- A property of all entries holds in every order.
pub All-perm {ℓ κ} :
    {A : Type ℓ} (P : A → Type κ) {xs ys : List A} → Permᴰ xs ys → All P ys → All P xs
All-perm P Permᴰ.nil h = tt
All-perm P (Permᴰ.cons e p) (hy, hs) = (subst P (sym e) hy, All-perm P p hs)
All-perm P (Permᴰ.swap e f) (ha, (hb, hs)) = (subst P (sym e) hb, (subst P (sym f) ha, hs))
All-perm P (Permᴰ.trans p q) h = All-perm P p (All-perm P q h)

-- The runtime visits as many entries as there are.
pub length-perm {ℓ} : {A : Type ℓ} {xs ys : List A} → Permᴰ xs ys → length xs ≡ length ys
length-perm Permᴰ.nil = refl
length-perm (Permᴰ.cons e p) = ap suc (length-perm p)
length-perm (Permᴰ.swap e f) = refl
length-perm (Permᴰ.trans p q) = length-perm p ∙ length-perm q

pub order_one :
    {V : Type 0} (o : Order V) (path : List ℕ) (m : Map V) → IsOrder o → length m ≤ 1 → o path m ≡ m
order_one o path m h le = perm_one (h path m) le
