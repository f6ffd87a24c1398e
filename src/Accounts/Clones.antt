-- ===== src/Accounts/Clones.antt =====
-- The count of clones of a host (src/nick.c), as new_nick and delete_nick change it.
use child.Prelude.{
  ℕ, ◌+◌, ◌-◌, ◌<◌, ◌≤◌, ◌≡◌, refl, sym, ap, ◌∙◌, inl, inr, true, false, none, some, [], ◌∷◌, ◌++◌,
  ◌==◌, arith, Bool-cases, Option-cases, length, ==_iff,
}
use child.Prelude.Maybe.{◌>>=◌, >>=-eq-some}
use child.Strings.{Str, strcasecmp}
use child.Strings.Case.{strcasecmp_refl}
use child.Strings.Copy.{strncpy-fits}
use child.Core.{name_key}
use child.Hashmap.Lookup.{lookup}
use child.Hashmap.Erase.{delete}
use child.Hashmap.Dictionary.{is_some}
use child.Registry.{Registry, Names, Clone, put, find_clone, find_in_names, howmanyclones}
use child.Registry.Named.{lookup-append_new}
use child.Channels.Balance.{some_injective}
use child.Accounts.Nicks.{count_clone, uncount_clone}

delete-append :
    (k : Str) (a : ℕ) (names : Names)
    → lookup k names ≡ none
    → delete k (names ++ (k, a) ∷ []) ≡ names
delete-append k a [] h = rw (strcasecmp_refl k) refl
delete-append k a ((q, b) ∷ names) h = elim (Bool-cases (strcasecmp q k)) [
  | inl hit ↦ absurd (found (sym (rw hit refl) ∙ h))
  | inr miss ↦ rw miss (ap (λ l. (q, b) ∷ l) (delete-append k a names (sym (rw miss refl) ∙ h)))
]
  where
    found : some b ≡ none → ⊥
    found e = grind arith

-- What the two changes of a count do to the number of clones of a host.
abbrev pub CountsUp : (Registry → ℕ) → Registry → Str → ℕ → Type 0
CountsUp malloc r reshost k =
    (up : Registry) × (down : Registry) × (count_clone malloc r reshost
        (find_clone r (some reshost))
      ≡ some up)
    × (howmanyclones up reshost ≡ some (k + 1))
    × (uncount_clone up (find_clone up (some reshost)) ≡ some down)
    × (howmanyclones down reshost ≡ some k)

counts_new :
    (malloc : Registry → ℕ) (r : Registry) (reshost : Str)
    → length reshost ≤ 60
    → lookup reshost r.clones ≡ none
    → CountsUp malloc r reshost 0
unfolding count_clone uncount_clone howmanyclones find_clone find_in_names
counts_new malloc r reshost fits missing =
    let a = malloc r in
    let own : (a == a) ≡ true = (==_iff a a).1 refl in
    let c : Clone = record { host = reshost; count = 1 } in
    let up : Registry = record r {
      clones = r.clones ++ (reshost, a) ∷ [];
      clone_at = put r.clone_at a (some c);
    } in
    (
      up,
      record up { clones = r.clones; clone_at = put up.clone_at a none },
      rw (missing, strncpy-fits 60 reshost fits, missing) refl,
      rw (lookup-append_new reshost a r.clones missing, howmanyclones, own) refl,
      rw
          (
            lookup-append_new reshost a r.clones missing,
            own,
            delete-append reshost a r.clones missing,
          )
          refl,
      rw (missing, howmanyclones) refl,
    )

counts_more :
    (malloc : Registry → ℕ) (r : Registry) (reshost : Str) (a k : ℕ) (c : Clone)
    → lookup reshost r.clones ≡ some a
    → r.clone_at a ≡ some c
    → c.count ≡ k
    → 0 < k
    → CountsUp malloc r reshost k
unfolding count_clone uncount_clone howmanyclones find_clone find_in_names
counts_more malloc r reshost a k c found at counted positive =
    let own : (a == a) ≡ true = (==_iff a a).1 refl in
    let more : Clone = record c { count = c.count + 1 } in
    let less : Clone = record c { count = c.count + 1 - 1 } in
    let up : Registry = record r { clone_at = put r.clone_at a (some more) } in
    let still : (c.count + 1 - 1 == 0) ≡ false = ground arith in
    let back : c.count + 1 - 1 ≡ k = omega (arith, counted) in
    (
      up,
      record up { clone_at = put up.clone_at a (some less) },
      rw (found, at) refl,
      rw (found, howmanyclones, own, counted) refl,
      rw (found, own, still) refl,
      rw (found, howmanyclones, own, back) refl,
    )

-- A new nick of a host counts one clone more, and its deletion gives the number of before. A host
-- name fits its array, and no clone that stands in the table counts 0.
pub count_clone-uncount_clone :
    (malloc : Registry → ℕ) (r : Registry) (reshost : Str) (k : ℕ)
    → length reshost ≤ 60
    → howmanyclones r reshost ≡ some k
    → (is_some (find_clone r (some reshost)) ≡ true → 0 < k)
    → CountsUp malloc r reshost k
unfolding howmanyclones find_clone find_in_names
count_clone-uncount_clone malloc r reshost k fits counted positive =
    elim (Option-cases (lookup reshost r.clones)) [
      | inl missing ↦
          let empty : howmanyclones r reshost ≡ some 0 = rw (missing, howmanyclones) refl in
          let is_zero : k ≡ 0 = some_injective (sym counted ∙ empty) in
          rw is_zero (counts_new malloc r reshost fits missing)
      | inr (a, found) ↦
          let opened : howmanyclones r reshost ≡ (r.clone_at a >>= λ clone. some clone.count) =
            rw (found, howmanyclones) refl in
          let (c, at, count) =
            >>=-eq-some (r.clone_at a) (λ clone. some clone.count) (sym opened ∙ counted) in
          counts_more malloc r reshost a k c found at (some_injective count)
            (positive (rw found refl))
    ]
