-- ===== src/Tests/Tables.antt =====
-- The theorems on src/hashmap.c at a table of names.
use child.Prelude.{ℕ, ◌≡◌, refl, true, some, [], ◌∷◌, arith}
use child.Strings.{Str, tolower}
use child.Core.{name_key, hash_str_nocase, hash_str, hash_bytes, name_hash}
use child.Hashmap.{
  Hashmap, new_map, insert, erase, flush, must_grow, insert_absent, append_entry, bucket,
  bucket_index, mask, rehash,
}
use child.Hashmap.Entries.{find_in, entry_at}
use child.Hashmap.Placement.{IsValid, rehash-Placed}
use child.Hashmap.Dictionary.{entries, value_of, granted, IsFresh, Inserts, insert-Inserts}
use child.Hashmap.Lookup.{lookup, find-lookup}
use child.Hashmap.Erase.{Erases, erase-Erases, flush-IsValid}

abbrev alice : Str
alice = b'a' ∷ b'l' ∷ b'i' ∷ b'c' ∷ b'e' ∷ []

abbrev upper_alice : Str
upper_alice = b'A' ∷ b'L' ∷ b'I' ∷ b'C' ∷ b'E' ∷ []

abbrev no_names : Hashmap Str ℕ
no_names = record { size = 0; bucket_count = 16; map = new_map 16; keys = [] }

no_names-IsValid : IsValid no_names
unfolding new_map rehash
no_names-IsValid = record {
  counted = refl;
  nonempty = omega arith;
  distinct = tt;
  placed = rehash-Placed 16 [] (omega arith);
}

fresh : IsFresh (some 7) no_names
unfolding entry_at
fresh a h = refl

abbrev names : Hashmap Str ℕ
names = (insert no_names true (some 7) alice 5).2

insert-Inserts_example :
    Inserts no_names
      (granted no_names true (some 7))
      alice
      5
      (insert no_names true (some 7) alice 5)
insert-Inserts_example = insert-Inserts no_names true (some 7) alice 5 no_names-IsValid fresh

names-IsValid : IsValid names
names-IsValid = (insert-Inserts no_names true (some 7) alice 5 no_names-IsValid fresh).valid

find-lookup_example : value_of names upper_alice ≡ lookup upper_alice (entries names)
find-lookup_example = find-lookup names upper_alice names-IsValid

erase-Erases_example : Erases names upper_alice (erase names upper_alice)
erase-Erases_example = erase-Erases names upper_alice names-IsValid

flush-IsValid_example : IsValid (flush names) × (entries (flush names) ≡ [])
flush-IsValid_example = flush-IsValid names names-IsValid

inserted : (insert no_names true (some 7) alice 5).0 ≡ true
unfolding insert find_in must_grow insert_absent append_entry new_map bucket bucket_index mask
    hash_str_nocase hash_str hash_bytes name_hash tolower
inserted = refl
