-- ===== src/Api/Memory.antt =====
-- Copies in memory. A pointer, a slice or a map is its address with what is stored there, and memory
-- is the next free address. A copier is a method DeepCopyInto.
use kube_smart_scheduler.Prelude.{
  ℕ, suc, ◌≤◌, ◌≡◌, refl, ap, ◌∙◌, Option, none, some, List, [], ◌∷◌, ◌++◌, arith,
}
use kube_smart_scheduler.Client.{Act, ◌>>=◌, pure}

pub record Ref (A : Type 0) : Type 0 where
  pub address : ℕ
  pub value : A

-- What new and make give.
unfoldable pub new : Act ℕ ℕ
new free = (free, suc free)

-- The copy of a value, the value without its addresses, and the addresses in it, in the order in which
-- a copy gets them.
pub record Copier (X : Type 0) : Type 0 where
  pub copy : X → Act ℕ X
  pub forget : X → X
  pub addresses : X → List ℕ

-- An assignment, which is all that a value without pointers needs.
abbrev pub plain : {X : Type 0} → Copier X
plain = record { copy = pure; forget = λ x. x; addresses = λ x. [] }

abbrev pub both : {X Y : Type 0} → Copier X → Copier Y → Copier (X × Y)
both c d = record {
  copy = λ p. c.copy p.0 >>= (λ x. d.copy p.1 >>= (λ y. pure (x, y)));
  forget = λ p. (c.forget p.0, d.forget p.1);
  addresses = λ p. c.addresses p.0 ++ d.addresses p.1;
}

-- Some fields of a record.
pub record Part (R X : Type 0) : Type 0 where
  pub get : R → X
  pub put : X → R → R

-- All of a record is assigned, and then a part of it is copied.
abbrev pub part : {R X : Type 0} → Part R X → Copier X → Copier R
part p c = record {
  copy = λ r. c.copy (p.get r) >>= (λ x. pure (p.put x r));
  forget = λ r. p.put (c.forget (p.get r)) r;
  addresses = λ r. c.addresses (p.get r);
}

module _ {X : Type 0} (c : Copier X) where
  abbrev pub copy_elements : List X → Act ℕ (List X)
  copy_elements [] = pure []
  copy_elements (x ∷ xs) = c.copy x >>= (λ y. copy_elements xs >>= (λ ys. pure (y ∷ ys)))

  abbrev pub forget_elements : List X → List X
  forget_elements [] = []
  forget_elements (x ∷ xs) = c.forget x ∷ forget_elements xs

  abbrev pub element_addresses : List X → List ℕ
  element_addresses [] = []
  element_addresses (x ∷ xs) = c.addresses x ++ element_addresses xs

  abbrev pub elements : Copier (List X)
  elements = record {
    copy = copy_elements;
    forget = forget_elements;
    addresses = element_addresses;
  }

  -- nil stays nil; for anything else there is a new place, into which the value is copied.
  abbrev pub copy_pointer : Option (Ref X) → Act ℕ (Option (Ref X))
  copy_pointer none = pure none
  copy_pointer (some ref) = new >>= (λ address.
      c.copy ref.value >>= (λ value. pure (some (record { address = address; value = value }))))

  abbrev pub forget_pointer : Option (Ref X) → Option (Ref X)
  forget_pointer none = none
  forget_pointer (some ref) = some (record { address = 0; value = c.forget ref.value })

  abbrev pub pointer_addresses : Option (Ref X) → List ℕ
  pointer_addresses none = []
  pointer_addresses (some ref) = ref.address ∷ c.addresses ref.value

  abbrev pub pointer : Copier (Option (Ref X))
  pointer = record { copy = copy_pointer; forget = forget_pointer; addresses = pointer_addresses }

-- A slice is nil or the place of its elements.
abbrev pub slice : {X : Type 0} → Copier X → Copier (Option (Ref (List X)))
slice c = pointer (elements c)

-- Addresses that go up, from one bound to another: each stands once.
abbrev pub Ascends : ℕ → List ℕ → ℕ → Type 0
Ascends low [] high = low ≤ high
Ascends low (a ∷ addresses) high = (low ≤ a) × Ascends (suc a) addresses high

-- A copy has what was copied, at addresses that were free, each used once.
abbrev pub IsDeep : {X : Type 0} → Copier X → Type 0
IsDeep {X} c =
    (x : X) (free : ℕ)
    → Ascends free (c.addresses (c.copy x free).0) (c.copy x free).1
      × (c.forget (c.copy x free).0 ≡ c.forget x)

-- The fields read as they were put, and putting them again forgets what was put.
abbrev pub IsPart : {R X : Type 0} → Part R X → Type 0
IsPart {R} {X} p =
    ((x : X) (r : R) → p.get (p.put x r) ≡ x)
    × ((x y : X) (r : R) → p.put y (p.put x r) ≡ p.put y r)

Ascends-below :
    (low low' high : ℕ) (xs : List ℕ) → low' ≤ low → Ascends low xs high → Ascends low' xs high
Ascends-below low low' high [] le h = omega arith
Ascends-below low low' high (a ∷ xs) le (here, there) = (omega arith, there)

Ascends-append :
    (low middle high : ℕ) (xs ys : List ℕ)
    → Ascends low xs middle
    → Ascends middle ys high
    → Ascends low (xs ++ ys) high
Ascends-append low middle high [] ys h k = Ascends-below middle low high ys h k
Ascends-append low middle high (a ∷ xs) ys (here, there) k =
    (here, Ascends-append (suc a) middle high xs ys there k)

pub plain-IsDeep : {X : Type 0} → IsDeep (plain {X = X})
plain-IsDeep x free = (omega arith, refl)

module _ {X : Type 0} (c : Copier X) (deep : IsDeep c) where
  pub both-IsDeep : {Y : Type 0} (d : Copier Y) → IsDeep d → IsDeep (both c d)
  both-IsDeep d deep_d (x, y) free =
      let (up_x, same_x) = deep x free in
      let (up_y, same_y) = deep_d y (c.copy x free).1 in
      (
        Ascends-append free (c.copy x free).1 (d.copy y (c.copy x free).1).1 _ _ up_x up_y,
        ap (λ v. (v, d.forget (d.copy y (c.copy x free).1).0)) same_x
            ∙ ap (λ v. (c.forget x, v)) same_y,
      )

  pub part-IsDeep : {R : Type 0} (p : Part R X) → IsPart p → IsDeep (part p c)
  part-IsDeep p (got, put_twice) r free =
      let (up, same) = deep (p.get r) free in
      let x = (c.copy (p.get r) free).0 in
      (rw (got x r) up, rw (got x r) (put_twice x (c.forget x) r ∙ ap (λ v. p.put v r) same))

  elements-IsDeep : IsDeep (elements c)
  elements-IsDeep [] free = (omega arith, refl)
  elements-IsDeep (x ∷ xs) free =
      let (up_x, same_x) = deep x free in
      let (up_xs, same_xs) = elements-IsDeep xs (c.copy x free).1 in
      (
        Ascends-append free (c.copy x free).1 (copy_elements c xs (c.copy x free).1).1 _ _ up_x
            up_xs,
        ap (λ v. v ∷ forget_elements c (copy_elements c xs (c.copy x free).1).0) same_x
            ∙ ap (λ v. c.forget x ∷ v) same_xs,
      )

  pub pointer-IsDeep : IsDeep (pointer c)
  unfolding new
  pointer-IsDeep none free = (omega arith, refl)
  pointer-IsDeep (some ref) free =
      let (up, same) = deep ref.value (suc free) in
      ((omega arith, up), ap (λ v. some (record { address = 0; value = v })) same)

pub slice-IsDeep : {X : Type 0} (c : Copier X) → IsDeep c → IsDeep (slice c)
slice-IsDeep c deep = pointer-IsDeep (elements c) (elements-IsDeep c deep)
