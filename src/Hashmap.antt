-- ===== src/Hashmap.antt =====
-- hashmap.c and hashmap.h (src/hashmap.c, src/hashmap.h): a chained table whose entries also
-- stand, in insertion order, in the list `keys`. An intrusive node is on the one list of its
-- bucket and on `keys`; it is known by the address of its entry. An allocation that `malloc`
-- refuses is an argument. Bucket counts stay far below the range of size_t.
pub mod Descriptor
pub mod Entries
pub mod Chain
pub mod Placement
pub mod Preserve
pub mod Dictionary
pub mod Lookup
pub mod Erase
use child.Prelude.{
  ℕ, zero, suc, ◌+◌, ◌-◌, ◌*◌, ◌/◌, ◌%◌, ◌^◌, bit_and, Bool, true, false, Option, none, some, List,
  [], ◌∷◌, ◌++◌, ltb, ◌==◌, if◌then◌else◌, get_or, set, replicate,
}
use Descriptor.{Key}
use Entries.{Entry, find_in, unlink}

pub record Hashmap {ℓ} (K V : Type ℓ) : Type ℓ where
  pub size : ℕ
  pub bucket_count : ℕ
  pub map : List (List (Entry K V))
  pub keys : List (Entry K V)

abbrev pub default_bucket_count : ℕ
default_bucket_count = 16

-- The array and its LLIST_INIT loop.
unfoldable pub new_map {ℓ} : {K V : Type ℓ} → ℕ → List (List (Entry K V))
new_map n = replicate n []

-- `desc->initial_bucket_count ?: HASHMAP_DEFAULT_BUCKET_COUNT`, with the four early returns: a
-- descriptor that lacks a function, and the two allocations.
unfoldable pub new {ℓ} : {K V : Type ℓ} → Bool → Bool → Bool → ℕ → Option (Hashmap K V)
unfolding new_map
new complete grants_table grants_map initial =
    let n = if initial == 0 then default_bucket_count else initial in
    if complete
    then (if grants_table
        then (if grants_map
            then some (record { size = 0; bucket_count = n; map = new_map n; keys = [] })
            else none)
        else none)
    else none

-- `bucket_count - 1` on a size_t.
unfoldable pub mask : ℕ → ℕ
mask n = if n == 0 then 2 ^ 64 - 1 else n - 1

unfoldable pub bucket_index {ℓ} : {K : Type ℓ} ⦃key : Key K⦄ → ℕ → K → ℕ
unfolding mask
bucket_index ⦃key⦄ n k = bit_and (key.hash k) (mask n)

-- The result, the entry that `*entry` is set to, and the table.
abbrev pub Insertion {ℓ} : Type ℓ → Type ℓ → Type ℓ
Insertion K V = Bool × Option (Entry K V) × Hashmap K V

module _ {ℓ} {K V : Type ℓ} ⦃key : Key K⦄ where
  unfoldable pub bucket : Hashmap K V → K → ℕ
  bucket m k = bucket_index m.bucket_count k

  unfoldable pub must_grow : Hashmap K V → Bool
  must_grow m = ltb (m.bucket_count / 4 * 3) m.size

  -- The loop of hashmap_resize over `keys`: each node moves to the tail of its new bucket.
  unfoldable pub rehash : ℕ → List (Entry K V) → List (List (Entry K V)) → List (List (Entry K V))
  rehash n [] new = new
  rehash n (he ∷ hes) new =
      let idx = bucket_index n he.key in rehash n hes (set new idx (get_or new idx [] ++ he ∷ []))

  -- `none` is the return value -1, which leaves the table as it was.
  unfoldable pub resize : Hashmap K V → Bool → ℕ → Option (Hashmap K V)
  unfolding new_map
  resize m grants_map n =
      if grants_map
      then some (record m { bucket_count = n; map = rehash n m.keys (new_map n) })
      else none

  -- The end of hashmap_insert, from the allocation of the entry on.
  unfoldable pub append_entry : Hashmap K V → Option ℕ → K → V → Insertion K V
  append_entry m none k v = (false, none, m)
  append_entry m (some addr) k v =
      let idx = bucket m k in
      let he : Entry K V = record { addr = addr; key = key.create_key k; value = v } in
      (
        true,
        some he,
        record m {
          size = m.size + 1;
          map = set m.map idx (get_or m.map idx [] ++ he ∷ []);
          keys = m.keys ++ he ∷ [];
        },
      )

  -- hashmap_insert after the search of the bucket has found no equal key. `malloc` answers whether
  -- it grants a grown array, and with the address of the new entry.
  unfoldable pub insert_absent : Hashmap K V → Bool → Option ℕ → K → V → Insertion K V
  insert_absent m grants_map at k v =
      if must_grow m
      then elim (resize m grants_map (m.bucket_count * 2)) [
        | none ↦ (false, none, m)
        | some grown ↦ append_entry grown at k v
      ]
      else append_entry m at k v

  unfoldable pub insert : Hashmap K V → Bool → Option ℕ → K → V → Insertion K V
  insert m grants_map at k v = elim (find_in k (get_or m.map (bucket m k) [])) [
    | some he ↦ (false, some he, m)
    | none ↦ insert_absent m grants_map at k v
  ]

  -- `none` is the return value false; otherwise the entry that `*entry` is set to.
  unfoldable pub find : Hashmap K V → K → Option (Entry K V)
  find m k = find_in k (get_or m.map (bucket m k) [])

  unfoldable pub remove_entry : Hashmap K V → Entry K V → Hashmap K V
  remove_entry m he =
      let idx = bucket m he.key in
      record m {
        size = m.size - 1;
        map = set m.map idx (unlink he.addr (get_or m.map idx []));
        keys = unlink he.addr m.keys;
      }

  unfoldable pub erase : Hashmap K V → K → Bool × Hashmap K V
  erase m k = elim (find m k) [ none ↦ (false, m) | some he ↦ (true, remove_entry m he) ]

  -- The while loop of hashmap_flush, with fuel; hashmap_free runs it too.
  unfoldable pub flush_loop : ℕ → Hashmap K V → Hashmap K V
  flush_loop zero m = m
  flush_loop (suc fuel) m = elim m.keys [ [] ↦ m | he ∷ _ ↦ flush_loop fuel (remove_entry m he) ]

  unfoldable pub flush : Hashmap K V → Hashmap K V
  flush m = flush_loop (m.size + 1) m
