-- ===== src/Hashmap/Erase.antt =====
-- hashmap_erase and hashmap_flush (src/hashmap.c) as the deletion in a dictionary.
use child.Prelude.{
  ◌+◌, ◌≡◌, refl, sym, ap, ◌∙◌, inl, inr, true, false, Bool, none, some, List, [], ◌∷◌, map,
  if◌then◌else◌, arith, Option-cases,
}
use child.Hashmap.Descriptor.{Key, compare_congr}
use child.Hashmap.Entries.{
  Entry, Distinct, find_in, find_in-entry_at, unlink, find_in-unlink, find_in-compare,
  find_in_congr,
}
use child.Hashmap.Placement.{IsValid}
use child.Hashmap.Preserve.{find-find_in, remove_entry-IsValid, flush_loop-IsValid}
use child.Hashmap.{Hashmap, find, remove_entry, erase, flush}
use child.Hashmap.Dictionary.{pair, entries, is_some, value_of}

module _ {K V : Type 0} ⦃key : Key K⦄ where
  -- The dictionary's own deletion.
  abbrev pub delete : K → List (K × V) → List (K × V)
  delete k [] = []
  delete k (e ∷ es) = if key.compare e.0 k then es else e ∷ delete k es

  -- An erasure: whether the key was there, and the contents without its pair.
  pub record Erases (m : Hashmap K V) (k : K) (r : Bool × Hashmap K V) : Type 0 where
    pub valid : IsValid r.1
    pub result : r.0 ≡ is_some (find m k)
    pub contents : entries r.1 ≡ delete k (entries m)

  delete-unlink :
      (k : K) (es : List (Entry K V)) (e : Entry K V)
      → Distinct es
      → find_in k es ≡ some e
      → map pair (unlink e.addr es) ≡ delete k (map pair es)
  unfolding find_in unlink
  delete-unlink k [] e d h = refl
  delete-unlink k (x ∷ es) e d h =
      ground (arith, delete-unlink k es e d.2, find_in-entry_at k es e d.2)

  delete-absent :
      (k : K) (es : List (Entry K V)) → find_in k es ≡ none → delete k (map pair es) ≡ map pair es
  unfolding find_in
  delete-absent k [] h = refl
  delete-absent k (x ∷ es) h = ground (arith, delete-absent k es)

  erase_present :
      (m : Hashmap K V) (k : K) (he : Entry K V)
      → find m k ≡ some he
      → erase m k ≡ (true, remove_entry m he)
  unfolding erase
  erase_present m k he e = rw (e, erase)

  erase_missing : (m : Hashmap K V) (k : K) → find m k ≡ none → erase m k ≡ (false, m)
  unfolding erase
  erase_missing m k e = rw (e, erase)

  remove_entry-keys :
      (m : Hashmap K V) (he : Entry K V) → (remove_entry m he).keys ≡ unlink he.addr m.keys
  unfolding remove_entry
  remove_entry-keys m he = refl

  -- hashmap_erase returns true exactly if the key is present; the table stays valid, and its contents
  -- are those of before without the pair of that key. The table is valid.
  pub erase-Erases : (m : Hashmap K V) (k : K) → IsValid m → Erases m k (erase m k)
  erase-Erases m k v = elim (Option-cases (find m k)) [
    | inl e ↦
        let absent = sym (find-find_in m k v) ∙ e in
        rw (erase_missing m k e)
          (record { valid = v; result = rw e; contents = sym (delete-absent k m.keys absent) })
    | inr (he, e) ↦
        let present = sym (find-find_in m k v) ∙ e in
        let at = find_in-entry_at k m.keys he v.distinct present in
        rw (erase_present m k he e) (record {
          valid = remove_entry-IsValid m he v at;
          result = rw e;
          contents = rw (remove_entry-keys m he) (delete-unlink k m.keys he v.distinct present);
        })
  ]

  -- After an erasure no lookup of an equal key finds anything, and every other lookup finds what it
  -- found before. The table is valid.
  pub find-erase :
      (m : Hashmap K V) (k q : K)
      → IsValid m
      → value_of (erase m k).1 q ≡ (if key.compare k q then none else value_of m q)
  find-erase m k q v = elim (Option-cases (find m k)) [
    | inl e ↦
        rw (erase_missing m k e, find-find_in m q v)
          (ground (arith, find-find_in m k v, find_in_congr k q m.keys))
    | inr (he, e) ↦
        let present = sym (find-find_in m k v) ∙ e in
        let at = find_in-entry_at k m.keys he v.distinct present in
        rw
          (
            erase_present m k he e,
            find-find_in _ q (remove_entry-IsValid m he v at),
            remove_entry-keys m he,
            find-find_in m q v,
            find_in-unlink he.addr q m.keys he v.distinct at,
          )
          (ground (arith, find_in-compare k m.keys he present, compare_congr he.key k q))
  ]

  -- hashmap_flush empties a valid table, in no more rounds than it has entries, and leaves it valid.
  pub flush-IsValid : (m : Hashmap K V) → IsValid m → IsValid (flush m) × (entries (flush m) ≡ [])
  unfolding flush
  flush-IsValid m v =
      let (valid, keys) = flush_loop-IsValid (m.size + 1) m v (omega (arith, v.counted)) in
      (valid, ap (map pair) keys)
