-- ===== src/GoMap/Unique.antt =====
-- Maps that hold each key once, as every Go map does.
use mathlib.Core.Path.{subst}
use kube_smart_scheduler.Prelude.{
  ◌≡◌, refl, ◌∙◌, inl, inr, Bool-cases, true, false, none, some, [], ◌∷◌, All, arith, if◌then◌else◌,
}
use kube_smart_scheduler.GoText.{Text, text_eq, text_eq_iff}
use kube_smart_scheduler.GoMap.{Map, lookup, insert, delete}

module _ {ℓ} {V : Type ℓ} where
  abbrev pub LacksKey : Text → Map V → Type 0
  LacksKey key = All (λ entry. text_eq entry.0 key ≡ false)

  abbrev pub IsMap : Map V → Type 0
  IsMap [] = Unit
  IsMap ((key, value) ∷ entries) = LacksKey key entries × IsMap entries

  pub lookup-nil : (key : Text) → lookup {V = V} key [] ≡ none
  unfolding lookup
  lookup-nil key = refl

  pub lookup-cons :
      (key j : Text) (value : V) (m : Map V)
      → lookup key ((j, value) ∷ m) ≡ (if text_eq j key then some value else lookup key m)
  unfolding lookup
  lookup-cons key j value m = refl

  pub lookup-LacksKey : (key : Text) (m : Map V) → LacksKey key m → lookup key m ≡ none
  lookup-LacksKey key [] h = lookup-nil key
  lookup-LacksKey key ((j, v) ∷ m) (here, there) =
      rw (lookup-cons key j v m, here) (lookup-LacksKey key m there)

  LacksKey-insert :
      (key j : Text) (v : V) (m : Map V)
      → text_eq j key ≡ false
      → LacksKey key m
      → LacksKey key (insert j v m)
  unfolding insert
  LacksKey-insert key j v [] differ h = (differ, tt)
  LacksKey-insert key j v ((i, w) ∷ m) differ (here, there) = elim (Bool-cases (text_eq i j)) [
    | inl same ↦ rw same (differ, there)
    | inr other ↦ rw other (here, LacksKey-insert key j v m differ there)
  ]

  pub IsMap-insert : (j : Text) (v : V) (m : Map V) → IsMap m → IsMap (insert j v m)
  unfolding insert
  IsMap-insert j v [] h = (tt, tt)
  IsMap-insert j v ((i, w) ∷ m) (lacks, rest) = elim (Bool-cases (text_eq i j)) [
    | inl same ↦ rw same (subst (λ k. LacksKey k m) ((text_eq_iff i j).0 same) lacks, rest)
    | inr other ↦ rw other (
      LacksKey-insert i j v m (ground (arith, text_eq_iff i j, text_eq_iff j i)) lacks,
      IsMap-insert j v m rest,
    )
  ]

  LacksKey-delete : (key j : Text) (m : Map V) → LacksKey key m → LacksKey key (delete j m)
  unfolding delete
  LacksKey-delete key j [] h = tt
  LacksKey-delete key j ((i, w) ∷ m) (here, there) = elim (Bool-cases (text_eq i j)) [
    | inl same ↦ rw same there
    | inr other ↦ rw other (here, LacksKey-delete key j m there)
  ]

  pub IsMap-delete : (j : Text) (m : Map V) → IsMap m → IsMap (delete j m)
  unfolding delete
  IsMap-delete j [] h = tt
  IsMap-delete j ((i, w) ∷ m) (lacks, rest) = elim (Bool-cases (text_eq i j)) [
    | inl same ↦ rw same rest
    | inr other ↦ rw other (LacksKey-delete i j m lacks, IsMap-delete j m rest)
  ]

  delete-head : (j i : Text) (w : V) (m : Map V) → text_eq i j ≡ true → delete j ((i, w) ∷ m) ≡ m
  unfolding delete
  delete-head j i w m e = rw e refl

  delete-tail :
      (j i : Text) (w : V) (m : Map V)
      → text_eq i j ≡ false
      → delete j ((i, w) ∷ m) ≡ (i, w) ∷ delete j m
  unfolding delete
  delete-tail j i w m e = rw e refl

  -- A key that is deleted is gone, the others read as before.
  pub lookup-delete :
      (j key : Text) (m : Map V)
      → IsMap m
      → lookup key (delete j m) ≡ (if text_eq j key then none else lookup key m)
  unfolding delete
  lookup-delete j key [] h = ground (arith, lookup-nil key)
  lookup-delete j key ((i, w) ∷ m) (lacks, rest) = elim (Bool-cases (text_eq i j)) [
    | inl same ↦
        rw (delete-head j i w m same, lookup-cons key i w m, (text_eq_iff i j).0 same)
          (elim (Bool-cases (text_eq j key)) [
            | inl at_key ↦ rw at_key (
                lookup-LacksKey key m (
                  subst (λ k. LacksKey k m)
                    ((text_eq_iff i j).0 same ∙ (text_eq_iff j key).0 at_key) lacks))
            | inr elsewhere ↦ rw elsewhere refl
          ])
    | inr other ↦
        rw (delete-tail j i w m other, lookup-cons key i w m, lookup-cons key i w (delete j m))
          (ground (
            arith,
            lookup-delete j key m rest,
            text_eq_iff i j,
            text_eq_iff i key,
            text_eq_iff j key,
          ))
  ]
