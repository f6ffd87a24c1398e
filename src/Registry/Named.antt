-- ===== src/Registry/Named.antt =====
-- Tables that hold each live object under its own name, and no name twice (src/core.h).
use child.Prelude.{
  ℕ, ◌≡◌, ◌⊎◌, refl, sym, ap, ◌∙◌, inl, inr, true, false, none, some, [], ◌∷◌, ◌++◌, ◌==◌,
  Bool-cases, ==_iff, arith,
}
use child.Strings.{Str, strcasecmp}
use child.Strings.Case.{strcasecmp_refl, strcasecmp_symm}
use child.Core.{name_key}
use child.Hashmap.Lookup.{lookup, lookup_congr}
use child.Registry.{Heap, Names, put, erase_name}
use child.Registry.Reads.{AllLiveNames}

lookup-erase_name :
    (k n : Str) (names : Names) → lookup k names ≡ none → lookup k (erase_name n names) ≡ none
lookup-erase_name k n [] h = refl
lookup-erase_name k n ((l, a) ∷ names) h = ground (arith, lookup-erase_name k n names)

some_ne_none : (a : ℕ) → some a ≡ none → ⊥
some_ne_none a h = grind arith

none_ne_some : {A : Type 0} (y : A) → none ≡ some y → ⊥
none_ne_some y h = grind arith

pub lookup_append :
    (l k : Str) (a : ℕ) (names : Names)
    → lookup l names ≡ none
    → strcasecmp k l ≡ false
    → lookup l (names ++ (k, a) ∷ []) ≡ none
lookup_append l k a [] h miss = rw miss refl
lookup_append l k a ((j, b) ∷ names) h miss = ground (arith, lookup_append l k a names)

pub lookup-append_new :
    (k : Str) (a : ℕ) (names : Names)
    → lookup k names ≡ none
    → lookup k (names ++ (k, a) ∷ []) ≡ some a
lookup-append_new k a [] h = rw (strcasecmp_refl k) refl
lookup-append_new k a ((j, b) ∷ names) h = ground (arith, lookup-append_new k a names)

one_object :
    {A : Type 0} (heap : Heap A) (o a : ℕ) (x y : A)
    → heap o ≡ some x
    → heap a ≡ some y
    → (o == a) ≡ true
    → x ≡ y
one_object heap o a x y at e here =
    let both : some x ≡ some y = sym at ∙ ap heap ((==_iff o a).0 here) ∙ e in grind arith

module _ {A : Type 0} (name_of : A → Str) where
  abbrev pub AllNamed : Heap A → Names → Type 0
  AllNamed heap [] = Unit {0}
  AllNamed heap ((k, a) ∷ names) =
      ((x : A) × (heap a ≡ some x) × (name_of x ≡ k))
      × (lookup k names ≡ none)
      × AllNamed heap names

  pub AllNamed-AllLiveNames :
      (heap : Heap A) (names : Names) → AllNamed heap names → AllLiveNames heap names
  AllNamed-AllLiveNames heap [] all = tt
  AllNamed-AllLiveNames heap ((k, a) ∷ names) ((x, e, _), _, all) =
      ((x, e), AllNamed-AllLiveNames heap names all)

  -- A write that keeps the name keeps the table.
  pub AllNamed-put :
      (heap : Heap A) (o : ℕ) (x x' : A) (names : Names)
      → heap o ≡ some x
      → name_of x' ≡ name_of x
      → AllNamed heap names
      → AllNamed (put heap o (some x')) names
  AllNamed-put heap o x x' [] at same all = tt
  AllNamed-put heap o x x' ((k, a) ∷ names) at same ((y, e, n), new, all) = (
    elim (Bool-cases (o == a)) [
      | inl here ↦ (x', rw here refl, same ∙ ap name_of (one_object heap o a x y at e here) ∙ n)
      | inr other ↦ (y, rw other e, n)
    ],
    new,
    AllNamed-put heap o x x' names at same all,
  )

  not_here :
      (heap : Heap A) (o a : ℕ) (x y : A) (k : Str)
      → heap o ≡ some x
      → heap a ≡ some y
      → name_of y ≡ k
      → strcasecmp k (name_of x) ≡ false
      → (o == a) ≡ false
  not_here heap o a x y k at e n other = elim (Bool-cases (o == a)) [
    | inl here ↦
        let found : strcasecmp k (name_of x) ≡ true =
          rw (one_object heap o a x y at e here, n) (strcasecmp_refl k) in
        cc
    | inr elsewhere ↦ elsewhere
  ]

  -- An object that no name of the table leads to may be freed.
  AllNamed-free :
      (heap : Heap A) (o : ℕ) (x : A) (names : Names)
      → heap o ≡ some x
      → lookup (name_of x) names ≡ none
      → AllNamed heap names
      → AllNamed (put heap o none) names
  AllNamed-free heap o x [] at new all = tt
  AllNamed-free heap o x ((k, a) ∷ names) at new ((y, e, n), fresh, all) =
      elim (Bool-cases (strcasecmp k (name_of x))) [
        | inl hit ↦ absurd (some_ne_none a (sym (rw hit refl) ∙ new))
        | inr miss ↦ (
          (y, rw (not_here heap o a x y k at e n miss) e, n),
          fresh,
          AllNamed-free heap o x names at (rw miss at new) all,
        )
      ]

  -- An object is freed and its name erased.
  pub AllNamed-erase :
      (heap : Heap A) (o : ℕ) (x : A) (names : Names)
      → heap o ≡ some x
      → AllNamed heap names
      → AllNamed (put heap o none) (erase_name (name_of x) names)
  AllNamed-erase heap o x [] at all = tt
  AllNamed-erase heap o x ((k, a) ∷ names) at ((y, e, n), fresh, all) =
      elim (Bool-cases (strcasecmp k (name_of x))) [
        | inl hit ↦ rw hit (
            AllNamed-free heap o x names at (sym (lookup_congr (name_of x) k names hit) ∙ fresh)
              all)
        | inr miss ↦ rw miss (
          (y, rw (not_here heap o a x y k at e n miss) e, n),
          lookup-erase_name k (name_of x) names fresh,
          AllNamed-erase heap o x names at all,
        )
      ]

  -- A name that is not there may be added with a live object of this name.
  pub AllNamed-append :
      (heap : Heap A) (k : Str) (a : ℕ) (x : A) (names : Names)
      → heap a ≡ some x
      → name_of x ≡ k
      → lookup k names ≡ none
      → AllNamed heap names
      → AllNamed heap (names ++ (k, a) ∷ [])
  AllNamed-append heap k a x [] at same new all = ((x, at, same), refl, tt)
  AllNamed-append heap k a x ((l, b) ∷ names) at same new ((y, e, n), fresh, all) =
      elim (Bool-cases (strcasecmp l k)) [
        | inl hit ↦ absurd (some_ne_none b (sym (rw hit refl) ∙ new))
        | inr miss ↦ (
          (y, e, n),
          lookup_append l k a names fresh (strcasecmp_symm k l ∙ miss),
          AllNamed-append heap k a x names at same (rw miss at new) all,
        )
      ]

  -- A free address may be written: no name of the table leads there.
  pub AllNamed-write :
      (heap : Heap A) (o : ℕ) (x : A) (names : Names)
      → AllNamed (put heap o none) names
      → AllNamed (put heap o (some x)) names
  AllNamed-write heap o x [] all = tt
  AllNamed-write heap o x ((k, a) ∷ names) ((y, e, n), fresh, all) =
      ((y, written (Bool-cases (o == a)), n), fresh, AllNamed-write heap o x names all)
    where
      written : ((o == a) ≡ true) ⊎ ((o == a) ≡ false) → put heap o (some x) a ≡ some y
      written (inl here) = absurd (none_ne_some y (sym (rw here refl) ∙ e))
      written (inr other) = rw other (sym (rw other refl) ∙ e)
