-- ===== src/Hashmap/Lookup.antt =====
-- hashmap_find (src/hashmap.c) as the lookup in a dictionary, after an insertion too.
use child.Prelude.{
  ℕ, ◌≡◌, refl, sym, ◌∙◌, inl, inr, true, false, not, Bool, ◌&&◌, Option, none, some, List, [], ◌∷◌,
  ◌++◌, map, if◌then◌else◌, arith, Option-cases,
}
use mathlib.Core.Option
use child.Hashmap.Descriptor.{Key, compare_congr}
use child.Hashmap.Entries.{Entry, find_in}
use child.Hashmap.Placement.{IsValid}
use child.Hashmap.Preserve.{find-find_in}
use child.Hashmap.{Hashmap, Insertion, insert, find}
use child.Hashmap.Dictionary.{pair, entries, is_some, value_of, IsFresh, insert-Inserts}

module _ {K V : Type 0} ⦃key : Key K⦄ where
  -- The value that a list of pairs gives to a key.
  abbrev pub lookup : K → List (K × V) → Option V
  lookup k [] = none
  lookup k (e ∷ es) = if key.compare e.0 k then some e.1 else lookup k es

  value_in :
      (k : K) (es : List (Entry K V))
      → Option.map (λ e. e.value) (find_in k es) ≡ lookup k (map pair es)
  unfolding find_in
  value_in k [] = refl
  value_in k (e ∷ es) = ground (arith, value_in k es)

  -- hashmap_find refines the lookup in the contents of a valid table.
  pub find-lookup : (m : Hashmap K V) (k : K) → IsValid m → value_of m k ≡ lookup k (entries m)
  find-lookup m k v = rw (find-find_in m k v) (value_in k m.keys)

  lookup-append :
      (q k : K) (x : V) (d : List (K × V))
      → lookup q (d ++ (k, x) ∷ [])
        ≡ (elim (lookup q d) [ some y ↦ some y | none ↦ if key.compare k q then some x else none ])
  lookup-append q k x [] = refl
  lookup-append q k x (e ∷ d) = ground (arith, lookup-append q k x d)

  pub lookup_congr : (q k : K) (d : List (K × V)) → key.compare k q ≡ true → lookup k d ≡ lookup q d
  lookup_congr q k [] h = refl
  lookup_congr q k (e ∷ d) h = ground (
    arith,
    lookup_congr q k d h,
    compare_congr k q e.0,
    key.compare_symm e.0 k,
    key.compare_symm e.0 q,
  )

  lookup-insert :
      (q k : K) (x : V) (d : List (K × V))
      → lookup k d ≡ none
      → lookup q (d ++ (k, x) ∷ []) ≡ (if key.compare k q then some x else lookup q d)
  lookup-insert q k x d h = rw (lookup-append q k x d) (ground (arith, lookup_congr q k d))

  inserted_absent :
      (m : Hashmap K V) (k : K) (r : Insertion K V) (grant : Bool)
      → IsValid m
      → r.0 ≡ (not (is_some (find m k)) && grant)
      → r.0 ≡ true
      → lookup k (entries m) ≡ none
  inserted_absent m k r grant v result done = elim (Option-cases (find m k)) [
    | inl e ↦ sym (find-lookup m k v) ∙ rw e
    | inr (he, e) ↦ absurd (no_entry (sym done ∙ result ∙ rw e))
  ]
    where
      no_entry : true ≡ false → ⊥
      no_entry h = cc

  -- After a successful insertion every lookup of an equal key finds the new value, and every other
  -- lookup finds what it found before.
  pub find-insert :
      (m : Hashmap K V) (grants_map : Bool) (at : Option ℕ) (k q : K) (x : V)
      → IsValid m
      → IsFresh at m
      → (insert m grants_map at k x).0 ≡ true
      → value_of (insert m grants_map at k x).2 q
        ≡ (if key.compare k q then some x else value_of m q)
  find-insert m grants_map at k q x v fresh done =
      let t = insert-Inserts m grants_map at k x v fresh in
      let absent : lookup k (entries m) ≡ none =
        inserted_absent m k (insert m grants_map at k x) _ v t.result done in
      find-lookup _ q t.valid
      ∙ rw (t.contents, done, find-lookup m q v) (lookup-insert q k x (entries m) absent)
