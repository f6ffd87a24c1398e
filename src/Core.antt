-- ===== src/Core.antt =====
-- The registries of core.c (src/core.c): hash maps whose keys are names, up to case; and the hash
-- and comparison functions of hashmap.h (src/hashmap.h). An unsigned int has 32 bits.
use child.Prelude.{
  ℕ, ◌+◌, ◌*◌, ◌%◌, ◌^◌, ◌<◌, ◌≡◌, refl, ap, true, Option, none, some, [], ◌∷◌, map, arith, ltb,
  length, if◌then◌else◌, bit_xor, ◌/◌,
}
use child.Strings.{Str, tolower, strcasecmp}
use child.Strings.Case.{strcasecmp_iff, strcasecmp_refl, strcasecmp_symm, strcasecmp_trans}
use child.Hashmap.Descriptor.{Key}

-- The loop of hash_str: `hash = ((hash << 5) + hash) + c`.
unfoldable pub hash_bytes : ℕ → Str → ℕ
hash_bytes hash [] = hash
hash_bytes hash (c ∷ s) = hash_bytes ((hash * 2 ^ 5 + hash + c) % 2 ^ 32) s

unfoldable pub hash_str : Str → ℕ
unfolding hash_bytes
hash_str = hash_bytes 5381

abbrev pub hash_buf_len : ℕ
hash_buf_len = 1024

-- `none` is the abort on a key that does not fit the buffer.
unfoldable pub hash_str_nocase : Str → Option ℕ
unfolding hash_str
hash_str_nocase key =
    if ltb (length key) hash_buf_len then some (hash_str (map tolower key)) else none

-- hash_int, on the low 32 bits of the key.
unfoldable pub hash_int : ℕ → ℕ
hash_int key =
    let a = (key % 2 ^ 32 + 1) % 2 ^ 32 in
    let b = bit_xor a (a / 2 ^ 17) * 0xed5ad4bb % 2 ^ 32 in
    let c = bit_xor b (b / 2 ^ 11) * 0xac4c1b51 % 2 ^ 32 in
    let d = bit_xor c (c / 2 ^ 15) * 0x31848bab % 2 ^ 32 in bit_xor d (d / 2 ^ 14)

hash_bytes-lt : (h : ℕ) (s : Str) → h < 2 ^ 32 → hash_bytes h s < 2 ^ 32
unfolding hash_bytes
hash_bytes-lt h [] b = b
hash_bytes-lt h (c ∷ s) b = hash_bytes-lt ((h * 2 ^ 5 + h + c) % 2 ^ 32) s (omega arith)

pub length-strcasecmp : (s t : Str) → strcasecmp s t ≡ true → length s ≡ length t
unfolding strcasecmp
length-strcasecmp [] [] h = refl
length-strcasecmp [] (b ∷ t) h = ground arith
length-strcasecmp (a ∷ s) [] h = ground arith
length-strcasecmp (a ∷ s) (b ∷ t) h = ground (arith, length-strcasecmp s t)

-- Names that strcasecmp does not tell apart have one hash, or abort alike.
pub hash_str_nocase-strcasecmp :
    (s t : Str) → strcasecmp s t ≡ true → hash_str_nocase s ≡ hash_str_nocase t
unfolding hash_str_nocase
hash_str_nocase-strcasecmp s t h = rw (length-strcasecmp s t h, (strcasecmp_iff s t).0 h)

-- What a lookup or an insertion under a name does first: the hash of the name, which may abort.
unfoldable pub unless_aborted {ℓ} : {A : Type ℓ} → Str → Option A → Option A
unless_aborted name act = elim (hash_str_nocase name) [ none ↦ none | some hash ↦ act ]

pub unless_aborted-fits {ℓ} :
    {A : Type ℓ} (name : Str) (act : Option A)
    → length name < hash_buf_len
    → unless_aborted name act ≡ act
unfolding unless_aborted hash_str_nocase
unless_aborted-fits name act fits =
    let short : ltb (length name) hash_buf_len ≡ true = ground (arith, fits) in
    ap (λ h. elim h [ none ↦ none | some hash ↦ act ])
      (ap (λ b. if b then some (hash_str (map tolower name)) else none) short)

-- The hash of a key that does not abort. A caller whose key may be too long asks `unless_aborted` first.
unfoldable pub name_hash : Str → ℕ
name_hash s = elim (hash_str_nocase s) [ some h ↦ h | none ↦ 0 ]

pub name_hash-strcasecmp : (s t : Str) → strcasecmp s t ≡ true → name_hash s ≡ name_hash t
unfolding name_hash
name_hash-strcasecmp s t h = rw (hash_str_nocase-strcasecmp s t h, name_hash)

-- The hash is an unsigned int.
pub name_hash-lt : (s : Str) → name_hash s < 2 ^ 32
unfolding name_hash hash_str_nocase hash_str
name_hash-lt s = ground (arith, hash_bytes-lt 5381 (map tolower s))

-- The descriptor of init_core; create_key_str copies the bytes.
instance abbrev pub name_key : Key Str
name_key = record {
  hash = name_hash;
  compare = strcasecmp;
  create_key = λ s. s;
  compare_refl = strcasecmp_refl;
  compare_symm = strcasecmp_symm;
  compare_trans = strcasecmp_trans;
  hash-compare = name_hash-strcasecmp;
  create_key_lem = λ s. refl;
}
