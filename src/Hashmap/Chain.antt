-- ===== src/Hashmap/Chain.antt =====
-- The entries of `keys` that belong to one bucket, and how the walks over entries act on them.
use child.Prelude.{
  ℕ, ◌-◌, ◌<◌, ◌≡◌, refl, ◌≢◌, true, some, List, [], ◌∷◌, ◌++◌, ◌==◌, if◌then◌else◌, arith,
}
use child.Prelude.Bits.{bit_and-le_right}
use child.Hashmap.Descriptor.{Key}
use child.Hashmap.Entries.{Entry, find_in, unlink, entry_at}
use child.Hashmap.{bucket_index}

module _ {ℓ} {K : Type ℓ} ⦃key : Key K⦄ where
  -- Every key has a bucket of the table.
  pub bucket_index-lt : (n : ℕ) (k : K) → 0 < n → bucket_index n k < n
  unfolding bucket_index
  bucket_index-lt n k h = ground (arith, bit_and-le_right (key.hash k) (n - 1))

  pub bucket_index_congr :
      (n : ℕ) (k q : K) → key.compare k q ≡ true → bucket_index n k ≡ bucket_index n q
  unfolding bucket_index
  bucket_index_congr n k q h = ground (arith, key.hash-compare k q h)

module _ {ℓ} {K V : Type ℓ} ⦃key : Key K⦄ where
  -- The entries of bucket `i` among `n`, in the order of the list.
  unfoldable pub chain : ℕ → ℕ → List (Entry K V) → List (Entry K V)
  chain n i [] = []
  chain n i (e ∷ es) = if bucket_index n e.key == i then e ∷ chain n i es else chain n i es

  pub chain-append :
      (n i : ℕ) (es : List (Entry K V)) (e : Entry K V)
      → chain n i (es ++ e ∷ [])
        ≡ (if bucket_index n e.key == i then chain n i es ++ e ∷ [] else chain n i es)
  unfolding chain
  chain-append n i [] e = ground arith
  chain-append n i (x ∷ es) e = ground (arith, chain-append n i es e)

  -- A key is found in its own bucket as in the whole list.
  pub find_in-chain :
      (n : ℕ) (k : K) (es : List (Entry K V))
      → find_in k (chain n (bucket_index n k) es) ≡ find_in k es
  unfolding chain find_in
  find_in-chain n k [] = refl
  find_in-chain n k (e ∷ es) = ground (arith, find_in-chain n k es, bucket_index_congr n e.key k)

  pub chain-unlink :
      (n a : ℕ) (es : List (Entry K V)) (e : Entry K V)
      → entry_at a es ≡ some e
      → chain n (bucket_index n e.key) (unlink a es) ≡ unlink a (chain n (bucket_index n e.key) es)
  unfolding chain unlink entry_at
  chain-unlink n a [] e h = refl
  chain-unlink n a (x ∷ es) e h = ground (arith, chain-unlink n a es e)

  pub chain-unlink_ne :
      (n i a : ℕ) (es : List (Entry K V)) (e : Entry K V)
      → entry_at a es ≡ some e
      → bucket_index n e.key ≢ i
      → chain n i (unlink a es) ≡ chain n i es
  unfolding chain unlink entry_at
  chain-unlink_ne n i a [] e h d = refl
  chain-unlink_ne n i a (x ∷ es) e h d = ground (arith, chain-unlink_ne n i a es e)
