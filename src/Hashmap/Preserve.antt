-- ===== src/Hashmap/Preserve.antt =====
-- Every operation of the table keeps its invariant.
use child.Prelude.{
  ℕ, zero, suc, ◌+◌, ◌≡◌, refl, ap, ◌∙◌, inl, inr, true, false, none, some, List, [], ◌∷◌, ◌++◌,
  ◌==◌, if◌then◌else◌, arith, ◌<◌, get_or, set, length, get_or-set, length-set, length-replicate,
  replicate, get_or-replicate, length-append, List-cases,
}
use child.Hashmap.Descriptor.{Key}
use child.Hashmap.Entries.{
  Entry, find_in, entry_at, unlink, length-unlink, unlink-Distinct, append-Distinct,
}
use child.Hashmap.Chain.{
  chain, bucket_index-lt, chain-append, find_in-chain, chain-unlink, chain-unlink_ne,
}
use child.Hashmap.Placement.{Placed, IsValid, rehash-Placed}
use child.Hashmap.{
  Hashmap, default_bucket_count, new, new_map, rehash, bucket_index, bucket, resize, append_entry,
  find, remove_entry, flush_loop, append_entry,
}

module _ {K V : Type 0} ⦃key : Key K⦄ where
  pub new-IsValid :
      (initial : ℕ)
      → (m : Hashmap K V) × (new true true true initial ≡ some m) × IsValid m × (m.keys ≡ [])
  unfolding new new_map chain
  new-IsValid initial =
      let n = if initial == 0 then default_bucket_count else initial in
      let empty : Placed {K = K} {V = V} n [] (replicate n []) = record {
        width = length-replicate n [];
        chains = λ i h. get_or-replicate n i [];
      } in
      (
        record { size = 0; bucket_count = n; map = replicate n []; keys = [] },
        refl,
        record { counted = refl; nonempty = ground arith; distinct = tt; placed = empty },
        refl,
      )

  -- The search of one bucket sees every entry of the table.
  pub find-find_in : (m : Hashmap K V) (k : K) → IsValid m → find m k ≡ find_in k m.keys
  unfolding find bucket
  find-find_in m k v =
      rw (v.placed.chains (bucket_index m.bucket_count k) (bucket_index-lt _ k v.nonempty))
        (find_in-chain m.bucket_count k m.keys)

  pub resize-IsValid :
      (m : Hashmap K V) (n : ℕ)
      → IsValid m
      → 0 < n
      → (m' : Hashmap K V) × (resize m true n ≡ some m') × IsValid m' × (m'.keys ≡ m.keys)
  unfolding resize
  resize-IsValid m n v p = (
    record m { bucket_count = n; map = rehash n m.keys (new_map n) },
    refl,
    record {
      counted = v.counted;
      nonempty = p;
      distinct = v.distinct;
      placed = rehash-Placed n m.keys p;
    },
    refl,
  )

  pub resize_refused : (m : Hashmap K V) (n : ℕ) → resize m false n ≡ none
  unfolding resize
  resize_refused m n = refl

  append_entry-Placed :
      (n : ℕ) (es : List (Entry K V)) (map : List (List (Entry K V))) (e : Entry K V)
      → 0 < n
      → Placed n es map
      → let i = bucket_index n e.key in
        Placed n (es ++ e ∷ []) (set map i (get_or map i [] ++ e ∷ []))
  append_entry-Placed n es map e p pl = record {
    width = length-set map _ _ ∙ pl.width;
    chains = λ j h.
        rw
          (
            get_or-set map (bucket_index n e.key) j _ []
                (omega (arith, pl.width, bucket_index-lt n e.key p)),
            chain-append n j es e,
          )
          (ground (arith, pl.chains j h));
  }

  remove_entry-Placed :
      (n : ℕ) (es : List (Entry K V)) (map : List (List (Entry K V))) (e : Entry K V)
      → 0 < n
      → entry_at e.addr es ≡ some e
      → Placed n es map
      → let i = bucket_index n e.key in
        Placed n (unlink e.addr es) (set map i (unlink e.addr (get_or map i [])))
  remove_entry-Placed n es map e p at pl = record {
    width = length-set map _ _ ∙ pl.width;
    chains = λ j h.
        rw
          (get_or-set map (bucket_index n e.key) j _ []
            (omega (arith, pl.width, bucket_index-lt n e.key p)))
          (ground
            (arith, pl.chains j h, chain-unlink n e.addr es e, chain-unlink_ne n j e.addr es e));
  }

  pub remove_entry-IsValid :
      (m : Hashmap K V) (e : Entry K V)
      → IsValid m
      → entry_at e.addr m.keys ≡ some e
      → IsValid (remove_entry m e)
  unfolding remove_entry bucket
  remove_entry-IsValid m e v at = record {
    counted = omega (arith, v.counted, length-unlink e.addr m.keys e at);
    nonempty = v.nonempty;
    distinct = unlink-Distinct e.addr m.keys v.distinct;
    placed = remove_entry-Placed m.bucket_count m.keys m.map e v.nonempty at v.placed;
  }

  -- The entry that hashmap_insert links into its bucket and into `keys`.
  abbrev pub new_entry : ℕ → K → V → Entry K V
  new_entry a k x = record { addr = a; key = key.create_key k; value = x }

  pub append_entry-IsValid :
      (m : Hashmap K V) (a : ℕ) (k : K) (x : V)
      → IsValid m
      → find_in k m.keys ≡ none
      → entry_at a m.keys ≡ none
      → (m' : Hashmap K V) × (append_entry m (some a) k x ≡ (true, some (new_entry a k x), m'))
        × IsValid m'
        × (m'.keys ≡ m.keys ++ new_entry a k x ∷ [])
  unfolding append_entry bucket
  append_entry-IsValid m a k x v absent fresh =
      let e = new_entry a k x in
      let same : bucket_index m.bucket_count (key.create_key k) ≡ bucket_index m.bucket_count k =
        ap (bucket_index m.bucket_count) (key.create_key_lem k) in
      (
        record m {
          size = m.size + 1;
          map =
              set m.map (bucket_index m.bucket_count k)
                (get_or m.map (bucket_index m.bucket_count k) [] ++ e ∷ []);
          keys = m.keys ++ e ∷ [];
        },
        refl,
        record {
          counted = omega (arith, v.counted, length-append m.keys (e ∷ []));
          nonempty = v.nonempty;
          distinct = append-Distinct m.keys e v.distinct (rw key.create_key_lem absent) fresh;
          placed =
              rw same at (append_entry-Placed m.bucket_count m.keys m.map e v.nonempty v.placed);
        },
        refl,
      )

  pub flush_loop-IsValid :
      (fuel : ℕ) (m : Hashmap K V)
      → IsValid m
      → length m.keys < fuel
      → IsValid (flush_loop fuel m) × ((flush_loop fuel m).keys ≡ [])
  unfolding flush_loop remove_entry entry_at
  flush_loop-IsValid zero m v h = absurd (omega arith)
  flush_loop-IsValid (suc fuel) m v h = elim (List-cases m.keys) [
    | inl e ↦ rw (e, flush_loop) (v, e)
    | inr (he, hes, e) ↦
        let at : entry_at he.addr m.keys ≡ some he = rw e (ground arith) in
        rw (e, flush_loop)
          (flush_loop-IsValid fuel (remove_entry m he) (remove_entry-IsValid m he v at)
            (omega (arith, length-unlink he.addr m.keys he at)))
  ]
