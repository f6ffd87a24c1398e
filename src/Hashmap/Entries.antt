-- ===== src/Hashmap/Entries.antt =====
-- struct hashmap_entry and the two walks over a list of entries (src/hashmap.c, src/llist.h).
use child.Prelude.{
  ℕ, ◌+◌, ◌≡◌, refl, ◌≢◌, true, false, Option, none, some, List, [], ◌∷◌, ◌++◌, ◌==◌, if◌then◌else◌,
  arith, length,
}
use child.Hashmap.Descriptor.{Key, compare_congr}

pub record Entry {ℓ} (K V : Type ℓ) : Type ℓ where
  pub addr : ℕ
  pub key : K
  pub value : V

module _ {ℓ} {K V : Type ℓ} where
  -- LLIST_REMOVE of the node at an address.
  unfoldable pub unlink : ℕ → List (Entry K V) → List (Entry K V)
  unlink a [] = []
  unlink a (e ∷ es) = if e.addr == a then es else e ∷ unlink a es

  -- The entry at an address.
  unfoldable pub entry_at : ℕ → List (Entry K V) → Option (Entry K V)
  entry_at a [] = none
  entry_at a (e ∷ es) = if e.addr == a then some e else entry_at a es

  pub length-unlink :
      (a : ℕ) (es : List (Entry K V)) (e : Entry K V)
      → entry_at a es ≡ some e
      → length (unlink a es) + 1 ≡ length es
  unfolding unlink entry_at
  length-unlink a [] e h = cc
  length-unlink a (x ∷ es) e h = ground (arith, length-unlink a es e)

  pub entry_at-unlink :
      (a b : ℕ) (es : List (Entry K V)) → entry_at b es ≡ none → entry_at b (unlink a es) ≡ none
  unfolding unlink entry_at
  entry_at-unlink a b [] h = refl
  entry_at-unlink a b (x ∷ es) h = ground (arith, entry_at-unlink a b es)

  entry_at-append :
      (b : ℕ) (es : List (Entry K V)) (e : Entry K V)
      → entry_at b es ≡ none
      → e.addr ≢ b
      → entry_at b (es ++ e ∷ []) ≡ none
  unfolding entry_at
  entry_at-append b [] e h d = ground arith
  entry_at-append b (x ∷ es) e h d = ground (arith, entry_at-append b es e)

module _ {ℓ} {K V : Type ℓ} ⦃key : Key K⦄ where
  -- The search loop of hashmap_insert and hashmap_find.
  unfoldable pub find_in : K → List (Entry K V) → Option (Entry K V)
  find_in k [] = none
  find_in k (e ∷ es) = if key.compare e.key k then some e else find_in k es

  -- No two entries have equal keys or one address.
  abbrev pub Distinct : List (Entry K V) → Type ℓ
  Distinct [] = Unit
  Distinct (e ∷ es) = (find_in e.key es ≡ none) × (entry_at e.addr es ≡ none) × Distinct es

  pub find_in_congr :
      (k q : K) (es : List (Entry K V)) → key.compare k q ≡ true → find_in k es ≡ find_in q es
  unfolding find_in
  find_in_congr k q [] h = refl
  find_in_congr k q (e ∷ es) h = ground (
    arith,
    find_in_congr k q es,
    compare_congr k q e.key,
    key.compare_symm e.key k,
    key.compare_symm e.key q,
  )

  pub find_in-compare :
      (k : K) (es : List (Entry K V)) (e : Entry K V)
      → find_in k es ≡ some e
      → key.compare e.key k ≡ true
  unfolding find_in
  find_in-compare k [] e h = cc
  find_in-compare k (x ∷ es) e h = ground (arith, find_in-compare k es e)

  pub find_in-append :
      (k : K) (es : List (Entry K V)) (e : Entry K V)
      → find_in k es ≡ none
      → find_in k (es ++ e ∷ []) ≡ (if key.compare e.key k then some e else none)
  unfolding find_in
  find_in-append k [] e h = refl
  find_in-append k (x ∷ es) e h = ground (arith, find_in-append k es e)

  pub find_in-append_found :
      (k : K) (es : List (Entry K V)) (e f : Entry K V)
      → find_in k es ≡ some f
      → find_in k (es ++ e ∷ []) ≡ some f
  unfolding find_in
  find_in-append_found k [] e f h = cc
  find_in-append_found k (x ∷ es) e f h = ground (arith, find_in-append_found k es e f)

  -- What the search finds is the entry at its address.
  pub find_in-entry_at :
      (k : K) (es : List (Entry K V)) (e : Entry K V)
      → Distinct es
      → find_in k es ≡ some e
      → entry_at e.addr es ≡ some e
  unfolding find_in entry_at
  find_in-entry_at k [] e d h = cc
  find_in-entry_at k (x ∷ es) e d h = ground (arith, find_in-entry_at k es e d.2)

  find_in-unlink-none :
      (a : ℕ) (q : K) (es : List (Entry K V)) → find_in q es ≡ none → find_in q (unlink a es) ≡ none
  unfolding find_in unlink
  find_in-unlink-none a q [] h = refl
  find_in-unlink-none a q (x ∷ es) h = ground (arith, find_in-unlink-none a q es)

  -- An entry of the list has a key other than one that the search misses.
  entry_at-compare :
      (a : ℕ) (k : K) (es : List (Entry K V)) (e : Entry K V)
      → entry_at a es ≡ some e
      → find_in k es ≡ none
      → key.compare e.key k ≡ false
  unfolding find_in entry_at
  entry_at-compare a k [] e g h = cc
  entry_at-compare a k (x ∷ es) e g h = ground (arith, entry_at-compare a k es e)

  pub find_in-unlink :
      (a : ℕ) (q : K) (es : List (Entry K V)) (e : Entry K V)
      → Distinct es
      → entry_at a es ≡ some e
      → find_in q (unlink a es) ≡ (if key.compare e.key q then none else find_in q es)
  unfolding find_in unlink entry_at
  find_in-unlink a q [] e d h = cc
  find_in-unlink a q (x ∷ es) e d h = ground (
    arith,
    find_in-unlink a q es e d.2,
    entry_at-compare a x.key es e,
    find_in_congr x.key q es,
    compare_congr x.key q e.key,
    key.compare_symm e.key x.key,
    key.compare_symm e.key q,
  )

  pub unlink-Distinct : (a : ℕ) (es : List (Entry K V)) → Distinct es → Distinct (unlink a es)
  unfolding unlink
  unlink-Distinct a [] d = tt
  unlink-Distinct a (x ∷ es) d =
      ground (
        arith,
        unlink-Distinct a es d.2,
        find_in-unlink-none a x.key es,
        entry_at-unlink a x.addr es,
      )

  pub append-Distinct :
      (es : List (Entry K V)) (e : Entry K V)
      → Distinct es
      → find_in e.key es ≡ none
      → entry_at e.addr es ≡ none
      → Distinct (es ++ e ∷ [])
  unfolding find_in entry_at
  append-Distinct [] e d h g = (refl, refl, tt)
  append-Distinct (x ∷ es) e d h g = (
    ground (arith, find_in-append x.key es e, key.compare_symm e.key x.key),
    entry_at-append x.addr es e d.1 (ground arith),
    append-Distinct es e d.2 (ground arith) (ground arith),
  )
