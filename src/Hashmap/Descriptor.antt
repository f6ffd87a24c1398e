-- ===== src/Hashmap/Descriptor.antt =====
-- The functions of struct hashmap_descriptor (src/hashmap.h), with what a table asks of them.
use child.Prelude.{ℕ, ◌≡◌, Bool, true, arith}

-- `compare` tells whether the C function returns 0.
pub record Key {ℓ} (K : Type ℓ) : Type ℓ where
  pub hash : K → ℕ
  pub compare : K → K → Bool
  pub create_key : K → K
  pub compare_refl : (a : K) → compare a a ≡ true
  pub compare_symm : (a b : K) → compare a b ≡ compare b a
  pub compare_trans : (a b c : K) → compare a b ≡ true → compare b c ≡ true → compare a c ≡ true
  pub hash-compare : (a b : K) → compare a b ≡ true → hash a ≡ hash b
  pub create_key_lem : (a : K) → create_key a ≡ a

module _ {ℓ} {K : Type ℓ} ⦃key : Key K⦄ where
  pub compare_congr : (a b c : K) → key.compare a b ≡ true → key.compare a c ≡ key.compare b c
  compare_congr a b c e =
      ground (arith, key.compare_symm a b, key.compare_trans a b c, key.compare_trans b a c)
