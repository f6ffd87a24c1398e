-- ===== src/Channels/Balance.antt =====
-- The two lists that an access entry or a member (src/channel.h) stands on, counted: it stands once on
-- the list of each of its two owners, and on no other list.
use child.Prelude.{
  ℕ, ◌+◌, ◌-◌, ◌<◌, ◌≡◌, refl, sym, ◌∙◌, inl, inr, true, false, Option, none, some, List, [], ◌∷◌,
  ◌++◌, ◌==◌, if◌then◌else◌, arith, Bool-cases, ==_iff, ◌⊎◌,
}
use child.Registry.{Heap, put, remove}
use child.Registry.Reads.{IsLive, AllLive}

-- How often an address stands on a list.
abbrev pub count : ℕ → List ℕ → ℕ
count a [] = 0
count a (b ∷ as') = (if a == b then 1 else 0) + count a as'

pub count-remove :
    (a b : ℕ) (as' : List ℕ)
    → count b (remove a as') ≡ (if a == b then count b as' - 1 else count b as')
count-remove a b [] = ground arith
count-remove a b (c ∷ as') = ground (arith, count-remove a b as')

pub count-append :
    (a b : ℕ) (as' : List ℕ) → count a (as' ++ b ∷ []) ≡ count a as' + (if a == b then 1 else 0)
count-append a b [] = omega arith
count-append a b (c ∷ as') = omega (arith, count-append a b as')

-- 1 for the owner of an entry on one side.
abbrev pub owned : {E : Type 0} → (E → ℕ) → Option E → ℕ → ℕ
owned side none u = 0
owned side (some c) u = if side c == u then 1 else 0

pub some_injective : {A : Type 0} {x y : A} → some x ≡ some y → x ≡ y
some_injective = grind arith

-- The owner of an entry has it on its list after a write to the heap, and others are as before.
pub put_cases :
    {A : Type 0} (heap : Heap A) (o u : ℕ) (x y : A)
    → put heap o (some x) u ≡ some y
    → ((o ≡ u) × (x ≡ y)) ⊎ (((o == u) ≡ false) × (heap u ≡ some y))
put_cases heap o u x y h = elim (Bool-cases (o == u)) [
  | inl same ↦ inl ((==_iff o u).0 same, some_injective (written same))
  | inr other ↦ inr (other, unwritten other)
]
  where
    written : (o == u) ≡ true → some x ≡ some y
    written e = sym (rw e refl) ∙ h

    unwritten : (o == u) ≡ false → heap u ≡ some y
    unwritten e = sym (rw e refl) ∙ h

pub put-IsLive :
    {A : Type 0} (heap : Heap A) (o u : ℕ) (x : A) → IsLive heap u → IsLive (put heap o (some x)) u
put-IsLive heap o u x (y, e) = elim (Bool-cases (o == u)) [
  | inl same ↦ (x, rw same refl)
  | inr other ↦ (y, rw other e)
]

-- An entry that is read after a write is the one written or was there before.
pub freed_before :
    {A : Type 0} (entries : Heap A) (a b : ℕ) (c : A)
    → put entries a none b ≡ some c
    → entries b ≡ some c
freed_before entries a b c h = elim (Bool-cases (a == b)) [
  | inl same ↦ absurd (gone same)
  | inr other ↦ sym (rw other refl) ∙ h
]
  where
    gone : (a == b) ≡ true → ⊥
    gone e = grind arith

-- An entry on a list belongs to the owner of the list.
pub owned_entry :
    {E : Type 0} (side : E → ℕ) (o : Option E) (u : ℕ)
    → 0 < owned side o u
    → (c : E) × (o ≡ some c) × (side c ≡ u)
owned_entry side none u h = elim h [ ]
owned_entry side (some c) u h = (c, refl, ground arith)

module _ {A E : Type 0} (list : A → List ℕ) (side : E → ℕ) where
  abbrev pub Balanced : Heap A → Heap E → Type 0
  Balanced heap entries =
      (u : ℕ) (x : A) → heap u ≡ some x → (a : ℕ) → count a (list x) ≡ owned side (entries a) u

  pub remove-Balanced :
      (heap : Heap A) (entries : Heap E) (a : ℕ) (c : E) (x x' : A)
      → Balanced heap entries
      → entries a ≡ some c
      → heap (side c) ≡ some x
      → list x' ≡ remove a (list x)
      → Balanced (put heap (side c) (some x')) (put entries a none)
  remove-Balanced heap entries a c x x' balanced at owner shorter u y h b =
      elim (put_cases heap (side c) u x' y h) [
        | inl (here, e) ↦
            rw (← here, ← e, shorter, count-remove a b (list x)) (on_owner (Bool-cases (a == b)))
        | inr (other, e) ↦ balanced u y e b ∙ elsewhere other (Bool-cases (a == b))
      ]
    where
      one : count a (list x) ≡ 1
      one = balanced (side c) x owner a ∙ rw at (ground arith)

      on_owner :
          ((a == b) ≡ true) ⊎ ((a == b) ≡ false)
          → (if a == b then count b (list x) - 1 else count b (list x))
            ≡ owned side (put entries a none b) (side c)
      on_owner (inl e) = rw e (rw (← (==_iff a b).0 e) (omega (arith, one)))
      on_owner (inr e) = rw e (balanced (side c) x owner b)

      elsewhere :
          (side c == u) ≡ false
          → ((a == b) ≡ true) ⊎ ((a == b) ≡ false)
          → owned side (entries b) u ≡ owned side (put entries a none b) u
      elsewhere other (inl e) = rw (e, ← (==_iff a b).0 e, at, other) refl
      elsewhere other (inr e) = rw e refl

  pub append-Balanced :
      (heap : Heap A) (entries : Heap E) (a : ℕ) (c : E) (x x' : A)
      → Balanced heap entries
      → entries a ≡ none
      → heap (side c) ≡ some x
      → list x' ≡ list x ++ a ∷ []
      → Balanced (put heap (side c) (some x')) (put entries a (some c))
  append-Balanced heap entries a c x x' balanced fresh owner longer u y h b =
      elim (put_cases heap (side c) u x' y h) [
        | inl (here, e) ↦
            rw (← here, ← e, longer, count-append b a (list x)) (on_owner (Bool-cases (a == b)))
        | inr (other, e) ↦ balanced u y e b ∙ elsewhere other (Bool-cases (a == b))
      ]
    where
      none_yet : count a (list x) ≡ 0
      none_yet = balanced (side c) x owner a ∙ rw fresh refl

      on_owner :
          ((a == b) ≡ true) ⊎ ((a == b) ≡ false)
          → count b (list x) + (if b == a then 1 else 0)
            ≡ owned side (put entries a (some c) b) (side c)
      on_owner (inl e) = rw e (rw (← (==_iff a b).0 e) (ground (arith, none_yet)))
      on_owner (inr e) = rw e (ground (arith, balanced (side c) x owner b))

      elsewhere :
          (side c == u) ≡ false
          → ((a == b) ≡ true) ⊎ ((a == b) ≡ false)
          → owned side (entries b) u ≡ owned side (put entries a (some c) b) u
      elsewhere other (inl e) = rw (e, ← (==_iff a b).0 e, fresh, other) refl
      elsewhere other (inr e) = rw e refl

  -- The entries of a balanced list are live.
  pub Balanced-AllLive :
      (heap : Heap A) (entries : Heap E) (u : ℕ) (x : A)
      → Balanced heap entries
      → heap u ≡ some x
      → AllLive entries (list x)
  Balanced-AllLive heap entries u x balanced at = all (list x) (λ a h.
      let (c, e, _) = owned_entry side (entries a) u (omega (arith, h, balanced u x at a)) in
      (c, e))
    where
      all : (as' : List ℕ) → ((a : ℕ) → 0 < count a as' → IsLive entries a) → AllLive entries as'
      all [] each = tt
      all (a ∷ as') each = (each a (ground arith), all as' (λ b h. each b (omega (arith, h))))
