-- ===== src/Hashmap/Placement.antt =====
-- The invariant of a table, and the array of buckets that hashmap_resize builds.
use child.Prelude.{
  ℕ, ◌≡◌, refl, sym, ap, ◌∙◌, List, [], ◌∷◌, ◌++◌, arith, ◌<◌, get_or, set, length, get_or-set,
  length-set, length-replicate, get_or-replicate, append_assoc, append-nil,
}
use child.Hashmap.Descriptor.{Key}
use child.Hashmap.Entries.{Entry, Distinct}
use child.Hashmap.Chain.{chain, bucket_index-lt}
use child.Hashmap.{Hashmap, bucket_index, rehash, new_map}

module _ {ℓ} {K V : Type ℓ} ⦃key : Key K⦄ where
  -- An array of `n` buckets that holds exactly the given entries, each in its bucket and in order.
  pub record Placed (n : ℕ) (es : List (Entry K V)) (map : List (List (Entry K V))) : Type ℓ where
    pub width : length map ≡ n
    pub chains : (i : ℕ) → i < n → get_or map i [] ≡ chain n i es

  pub record IsValid (m : Hashmap K V) : Type ℓ where
    pub counted : m.size ≡ length m.keys
    pub nonempty : 0 < m.bucket_count
    pub distinct : Distinct m.keys
    pub placed : Placed m.bucket_count m.keys m.map

  rehash-length :
      (n : ℕ) (es : List (Entry K V)) (new : List (List (Entry K V)))
      → length (rehash n es new) ≡ length new
  unfolding rehash
  rehash-length n [] new = refl
  rehash-length n (e ∷ es) new =
      rehash-length n es
        (set new (bucket_index n e.key) (get_or new (bucket_index n e.key) [] ++ e ∷ []))
      ∙ length-set new (bucket_index n e.key) _

  rehash-chain :
      (n i : ℕ) (es : List (Entry K V)) (new : List (List (Entry K V)))
      → 0 < n
      → length new ≡ n
      → get_or (rehash n es new) i [] ≡ get_or new i [] ++ chain n i es
  unfolding rehash chain
  rehash-chain n i [] new p w = sym (append-nil _)
  rehash-chain n i (e ∷ es) new p w =
      let idx = bucket_index n e.key in
      let inside : idx < length new = omega (arith, bucket_index-lt n e.key p) in
      rehash-chain n i es (set new idx (get_or new idx [] ++ e ∷ [])) p (length-set new idx _ ∙ w)
      ∙ rw (get_or-set new idx i (get_or new idx [] ++ e ∷ []) [] inside)
          (ground (arith, append_assoc (get_or new i []) (e ∷ []) (chain n i es)))

  -- What hashmap_resize builds from the list of all entries.
  pub rehash-Placed :
      (n : ℕ) (es : List (Entry K V)) → 0 < n → Placed n es (rehash n es (new_map n))
  unfolding new_map
  rehash-Placed n es p = record {
    width = rehash-length n es (new_map n) ∙ length-replicate n [];
    chains = λ i h.
        rehash-chain n i es (new_map n) p (length-replicate n [])
        ∙ ap (λ l. l ++ chain n i es) (get_or-replicate n i []);
  }
