-- ===== src/Hashmap/Dictionary.antt =====
-- What the clients of the table rely on: it is a dictionary in insertion order.
use child.Prelude.{
  ℕ, ◌*◌, ◌≡◌, refl, sym, ap, ◌∙◌, inl, inr, true, false, not, Bool, ◌&&◌, ◌||◌, Option, none, some,
  List, [], ◌∷◌, ◌++◌, map, if◌then◌else◌, arith, Option-cases, Bool-cases,
}
use mathlib.Core.List.{map-append}
use mathlib.Core.Option
use child.Hashmap.Descriptor.{Key}
use child.Hashmap.Entries.{Entry, find_in, entry_at, find_in-append}
use child.Hashmap.Placement.{IsValid}
use child.Hashmap.Preserve.{find-find_in, append_entry-IsValid, resize-IsValid, resize_refused}
use child.Hashmap.{Hashmap, Insertion, must_grow, resize, append_entry, insert_absent, insert, find}

abbrev pub pair : {K V : Type 0} → Entry K V → K × V
pair e = (e.key, e.value)

-- The contents of a table, in insertion order.
abbrev pub entries : {K V : Type 0} → Hashmap K V → List (K × V)
entries m = map pair m.keys

abbrev pub is_some : {A : Type 0} → Option A → Bool
is_some none = false
is_some (some _) = true

module _ {K V : Type 0} ⦃key : Key K⦄ where
  -- The value that a lookup reads.
  abbrev pub value_of : Hashmap K V → K → Option V
  value_of m k = Option.map (λ (e : Entry K V). e.value) (find m k)

  -- Whether `malloc` grants what an insertion asks for.
  abbrev pub granted : Hashmap K V → Bool → Option ℕ → Bool
  granted m grants_map at = (not (must_grow m) || grants_map) && is_some at

  -- The address of a new entry is not in use.
  abbrev pub IsFresh : Option ℕ → Hashmap K V → Type 0
  IsFresh at m = (a : ℕ) → at ≡ some a → entry_at a m.keys ≡ none

  -- An insertion that is granted or not: what it returns, what it leaves, and what its out
  -- parameter points to.
  pub record Inserts (m : Hashmap K V) (grant : Bool) (k : K) (x : V) (r : Insertion K V)
      : Type 0 where
    pub valid : IsValid r.2
    pub result : r.0 ≡ (not (is_some (find m k)) && grant)
    pub contents : entries r.2 ≡ (if r.0 then entries m ++ (k, x) ∷ [] else entries m)
    pub entry : r.1 ≡ find r.2 k

  find_same :
      (m₀ m : Hashmap K V) (k : K)
      → IsValid m₀
      → IsValid m
      → m.keys ≡ m₀.keys
      → find m k ≡ find m₀ k
  find_same m₀ m k v₀ v same = find-find_in m k v ∙ ap (find_in k) same ∙ sym (find-find_in m₀ k v₀)

  -- A table may grow before its insertion is refused or done.
  append_entry-Inserts :
      (m₀ m : Hashmap K V) (at : Option ℕ) (k : K) (x : V)
      → IsValid m₀
      → IsValid m
      → m.keys ≡ m₀.keys
      → find m₀ k ≡ none
      → IsFresh at m₀
      → Inserts m₀ (is_some at) k x (append_entry m at k x)
  unfolding append_entry
  append_entry-Inserts m₀ m none k x v₀ v same absent₀ fresh = record {
    valid = v;
    result = rw absent₀;
    contents = ap (map pair) same;
    entry = sym (find_same m₀ m k v₀ v same ∙ absent₀);
  }
  append_entry-Inserts m₀ m (some a) k x v₀ v same absent₀ fresh =
      let missing = sym (find-find_in m k v) ∙ find_same m₀ m k v₀ v same ∙ absent₀ in
      let (m', run, valid, keys) =
        append_entry-IsValid m a k x v missing (rw same (fresh a refl)) in
      rw run (record {
        valid = valid;
        result = rw absent₀;
        contents = rw (keys, same, map-append, key.create_key_lem);
        entry = sym (
            find-find_in m' k valid
            ∙ rw keys
                (find_in-append k m.keys _ missing ∙ rw (key.create_key_lem, key.compare_refl)));
      })

  insert_absent-Inserts :
      (m : Hashmap K V) (grants_map : Bool) (at : Option ℕ) (k : K) (x : V)
      → IsValid m
      → find m k ≡ none
      → IsFresh at m
      → Inserts m (granted m grants_map at) k x (insert_absent m grants_map at k x)
  unfolding insert_absent
  insert_absent-Inserts m grants_map at k x v absent fresh = elim (Bool-cases (must_grow m)) [
    | inl full ↦ rw full (grow grants_map)
    | inr small ↦ rw small (append_entry-Inserts m m at k x v v refl absent fresh)
  ]
    where
      grow :
          (g : Bool)
          → Inserts m (g && is_some at) k x (elim (resize m g (m.bucket_count * 2)) [
            | none ↦ (false, none, m)
            | some grown ↦ append_entry grown at k x
          ])
      grow true =
          let (m', run, valid, keys) =
            resize-IsValid m (m.bucket_count * 2) v (omega (arith, v.nonempty)) in
          rw run (append_entry-Inserts m m' at k x v valid keys absent fresh)
      grow false =
          rw (resize_refused m (m.bucket_count * 2))
            (record { valid = v; result = rw absent; contents = refl; entry = sym absent })

  insert_present :
      (m : Hashmap K V) (grants_map : Bool) (at : Option ℕ) (k : K) (x : V) (he : Entry K V)
      → find m k ≡ some he
      → insert m grants_map at k x ≡ (false, some he, m)
  unfolding insert find
  insert_present m grants_map at k x he e = rw (e, insert)

  insert_missing :
      (m : Hashmap K V) (grants_map : Bool) (at : Option ℕ) (k : K) (x : V)
      → find m k ≡ none
      → insert m grants_map at k x ≡ insert_absent m grants_map at k x
  unfolding insert find
  insert_missing m grants_map at k x e = rw (e, insert)

  -- hashmap_insert on every branch: the table stays valid, the call returns true exactly if the key
  -- was absent and the memory was granted, the contents grow at the end by the pair or stay as they
  -- are, and the out parameter is the entry that a lookup of the key then finds. The table is valid
  -- and the address that `malloc` returns is not in use.
  pub insert-Inserts :
      (m : Hashmap K V) (grants_map : Bool) (at : Option ℕ) (k : K) (x : V)
      → IsValid m
      → IsFresh at m
      → Inserts m (granted m grants_map at) k x (insert m grants_map at k x)
  insert-Inserts m grants_map at k x v fresh = elim (Option-cases (find m k)) [
    | inl e ↦
        rw (insert_missing m grants_map at k x e)
          (insert_absent-Inserts m grants_map at k x v e fresh)
    | inr (he, e) ↦
        rw (insert_present m grants_map at k x he e)
          (record { valid = v; result = rw e; contents = refl; entry = sym e })
  ]
