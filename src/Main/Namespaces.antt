-- ===== src/Main/Namespaces.antt =====
-- Which namespaces are watched.
use mathlib.Core.List.{Memᴰ}
use kube_smart_scheduler.Prelude.{
  ℕ, ◌≡◌, ◌≢◌, ◌↔◌, ◌⊎◌, append-nil, All-map, refl, sym, ap, ◌∙◌, inl, inr, Bool-cases, false,
  Option, none, some, List, [], ◌∷◌, ◌++◌, map, All, if◌then◌else◌,
}
use kube_smart_scheduler.GoText.{
  Text, text_eq, text_eq_iff, text_eq_refl, is_empty, trim_space, join,
}
use kube_smart_scheduler.GoText.Split.{Lacks, NoSpace, separated, split-separated, trim_space-id}
use kube_smart_scheduler.GoMap.{Map, lookup, insert}
use kube_smart_scheduler.GoMap.Laws.{lookup-insert}
use kube_smart_scheduler.GoMap.Unique.{lookup-nil}
use kube_smart_scheduler.Main.{parse_watch_namespaces, add_namespaces, default_namespaces}

-- A name without commas and spaces.
abbrev pub IsNamespace : Text → Type 0
IsNamespace ns = Lacks b',' ns × NoSpace ns

join-separated : (c : ℕ) (p : Text) (ps : List Text) → join (c ∷ []) (p ∷ ps) ≡ p ++ separated c ps
unfolding join
join-separated c p [] = sym (append-nil p)
join-separated c p (q ∷ ps) = ap (λ r. p ++ c ∷ r) (join-separated c q ps)

not_empty : (p rest : Text) → p ≢ [] → is_empty (p ++ rest) ≡ false
unfolding is_empty
not_empty [] rest ne = absurd (ne refl)
not_empty (c ∷ p) rest ne = refl

trim-All : (names : List Text) → All IsNamespace names → map trim_space names ≡ names
trim-All [] h = refl
trim-All (name ∷ names) ((_, plain), rest) =
    ap (λ n. n ∷ map trim_space names) (trim_space-id name plain)
    ∙ ap (λ ns. name ∷ ns) (trim-All names rest)

Lacks-All : (names : List Text) → All IsNamespace names → All (Lacks b',') names
Lacks-All names h = All-map names (λ name plain. plain.0) h

parse_watch_namespaces-join :
    (name : Text) (names : List Text)
    → name ≢ []
    → All IsNamespace (name ∷ names)
    → parse_watch_namespaces (join (b',' ∷ []) (name ∷ names)) ≡ name ∷ names
unfolding parse_watch_namespaces
parse_watch_namespaces-join name names ne (plain, rest) =
    rw
      (
        join-separated b',' name names,
        not_empty name (separated b',' names) ne,
        split-separated b',' name names plain.0 (Lacks-All names rest),
      )
      (trim-All (name ∷ names) (plain, rest))

lookup-insert_self : (ns : Text) (m : Map (Unit {0})) → lookup ns (insert ns tt m) ≡ some tt
lookup-insert_self ns m =
    lookup-insert ns ns tt m ∙ ap (λ b. if b then some tt else lookup ns m) (text_eq_refl ns)

lookup-insert_other :
    (first ns : Text) (m : Map (Unit {0}))
    → text_eq first ns ≡ false
    → lookup ns (insert first tt m) ≡ lookup ns m
lookup-insert_other first ns m e =
    lookup-insert first ns tt m ∙ ap (λ b. if b then some tt else lookup ns m) e

add_namespaces_sound :
    (ns : Text) (names : List Text) (m : Map (Unit {0}))
    → lookup ns (add_namespaces names m) ≡ some tt
    → Memᴰ ns names ⊎ (lookup ns m ≡ some tt)
unfolding add_namespaces
add_namespaces_sound ns [] m h = inr h
add_namespaces_sound ns (first ∷ names) m h =
    elim (add_namespaces_sound ns names (insert first tt m) h) [
      | inl later ↦ inl (Memᴰ.tail later)
      | inr written ↦ elim (Bool-cases (text_eq first ns)) [
        | inl same ↦ inl (Memᴰ.head (sym ((text_eq_iff first ns).0 same)))
        | inr differ ↦ inr (sym (lookup-insert_other first ns m differ) ∙ written)
      ]
    ]

add_namespaces_keeps :
    (ns : Text) (names : List Text) (m : Map (Unit {0}))
    → lookup ns m ≡ some tt
    → lookup ns (add_namespaces names m) ≡ some tt
unfolding add_namespaces
add_namespaces_keeps ns [] m h = h
add_namespaces_keeps ns (first ∷ names) m h =
    add_namespaces_keeps ns names (insert first tt m) (elim (Bool-cases (text_eq first ns)) [
      | inl same ↦ lookup-insert first ns tt m ∙ ap (λ b. if b then some tt else lookup ns m) same
      | inr differ ↦ lookup-insert_other first ns m differ ∙ h
    ])

add_namespaces_complete :
    (ns : Text) (names : List Text) (m : Map (Unit {0}))
    → Memᴰ ns names
    → lookup ns (add_namespaces names m) ≡ some tt
unfolding add_namespaces
add_namespaces_complete ns [] m member = elim member [ ]
add_namespaces_complete ns (first ∷ names) m (Memᴰ.head e) =
    add_namespaces_keeps ns names (insert first tt m)
      (ap (λ n. lookup n (insert first tt m)) e ∙ lookup-insert_self first m)
add_namespaces_complete ns (first ∷ names) m (Memᴰ.tail later) =
    add_namespaces_complete ns names (insert first tt m) later

none_here : ◌≡◌ {A = Option (Unit {0})} none (some tt) → ⊥
none_here e = cc

default_namespaces-add : (names : List Text) → default_namespaces names ≡ add_namespaces names []
unfolding default_namespaces add_namespaces insert
default_namespaces-add [] = refl
default_namespaces-add (ns ∷ []) = refl
default_namespaces-add (ns ∷ other ∷ names) = refl

-- If names without commas and spaces, the first of them not empty, are given with commas between
-- them, then the cache is limited to exactly these names; one of them that is empty, as behind a comma
-- at the end, is a key as well.
pub default_namespaces-Mem :
    (name : Text) (names : List Text) (ns : Text)
    → name ≢ []
    → All IsNamespace (name ∷ names)
    → (lookup ns (default_namespaces (parse_watch_namespaces (join (b',' ∷ []) (name ∷ names))))
        ≡ some tt)
      ↔ Memᴰ ns (name ∷ names)
default_namespaces-Mem name names ns ne plain =
    rw (parse_watch_namespaces-join name names ne plain, default_namespaces-add (name ∷ names))
      (
        λ found. elim (add_namespaces_sound ns (name ∷ names) [] found) [
          | inl member ↦ member
          | inr nothing ↦
              let missing = lookup-nil {V = Unit {0}} ns in
              absurd (none_here (sym missing ∙ nothing))
        ],
        add_namespaces_complete ns (name ∷ names) [],
      )
