-- ===== src/Protocol/Renamed.antt =====
-- What m_nick (src/parseline.c) does to the table of nicks.
use child.Prelude.{
  ℕ, arith, ◌≡◌, ◌≤◌, ◌<◌, refl, inl, inr, true, false, none, some, [], ◌∷◌, ◌++◌, length, ==_iff,
  if◌then◌else◌, Bool-cases,
}
use child.Strings.{Str, strncpy, strcasecmp}
use child.Strings.Copy.{strncpy-fits, strncpy-le}
use child.Core.{name_key, hash_buf_len, unless_aborted-fits}
use child.Hashmap.Dictionary.{is_some}
use child.Prelude.Maybe.{◌>>=◌}
use child.Hashmap.Lookup.{lookup}
use child.Registry.{Registry, Nick, put, erase_name}
use child.Registry.Named.{
  AllNamed, AllNamed-erase, AllNamed-write, AllNamed-append, lookup_append, lookup-append_new,
}
use child.Channels.{nicklen}
use child.Channels.Joined.{nick_name}
use child.Accounts.Nicks.{delete_nick}
use child.Protocol.Renames.{insert_name, rename}

-- A call that gives a nick a new name in the table.
pub record Renamed (r r' : Registry) (nptr : ℕ) (oldnick newnick : Str) : Type 0 where
  pub named : AllNamed nick_name r'.nick_at r'.nicks
  pub found : lookup newnick r'.nicks ≡ some nptr
  pub table : r'.nicks ≡ erase_name oldnick r.nicks ++ (newnick, nptr) ∷ []

-- The step on the table, for a name that the hash has room for and that is free.
inserted :
    (r : Registry) (nptr : ℕ) (nick : Nick) (newnick : Str)
    → length newnick < hash_buf_len
    → lookup newnick (erase_name nick.name r.nicks) ≡ none
    → (do
      nicks ← insert_name newnick nptr (erase_name nick.name r.nicks)
      some (record r {
        nicks = nicks;
        nick_at = put r.nick_at nptr (some (record nick { name = strncpy nicklen newnick }));
      }))
      ≡ some (record r {
        nicks = erase_name nick.name r.nicks ++ (newnick, nptr) ∷ [];
        nick_at = put r.nick_at nptr (some (record nick { name = strncpy nicklen newnick }));
      })
unfolding insert_name
inserted r nptr nick newnick fits free =
    rw
      (unless_aborted-fits newnick
        (some (
          if is_some (lookup newnick (erase_name nick.name r.nicks))
          then erase_name nick.name r.nicks
          else erase_name nick.name r.nicks ++ (newnick, nptr) ∷ []))
        fits)
      (rw free refl)

-- The step of m_nick on the table moves a nick to its new name: the table still holds each nick under
-- its own name, and the new name leads to the nick. The new name fits its array, and no other nick of
-- the table has it.
pub rename-Renamed :
    (r : Registry) (nptr : ℕ) (nick : Nick) (newnick : Str)
    → AllNamed nick_name r.nick_at r.nicks
    → r.nick_at nptr ≡ some nick
    → length newnick ≤ nicklen
    → lookup newnick (erase_name nick.name r.nicks) ≡ none
    → (r' : Registry) × (rename r nptr nick.name newnick ≡ some r')
      × Renamed r r' nptr nick.name newnick
unfolding rename insert_name
rename-Renamed r nptr nick newnick named at fits free =
    let short = strncpy-fits nicklen newnick fits in
    let next : Nick = record nick { name = strncpy nicklen newnick } in
    let rest = erase_name nick.name r.nicks in
    let heap = put r.nick_at nptr (some next) in
    let r' : Registry = record r { nicks = rest ++ (newnick, nptr) ∷ []; nick_at = heap } in
    (
      r',
      rw at (inserted r nptr nick newnick (omega (arith, fits)) free),
      record {
        named =
            AllNamed-append nick_name heap newnick nptr next rest
              (rw ((==_iff nptr nptr).1 refl) refl) short free
              (AllNamed-write nick_name r.nick_at nptr next rest
                (AllNamed-erase nick_name r.nick_at nptr nick r.nicks at named));
        found = lookup-append_new newnick nptr rest free;
        table = refl;
      },
    )

length-strcasecmp : (s t : Str) → strcasecmp s t ≡ true → length s ≡ length t
unfolding strcasecmp
length-strcasecmp [] [] h = refl
length-strcasecmp [] (b ∷ t) h = cc
length-strcasecmp (a ∷ s) [] h = cc
length-strcasecmp (a ∷ s) (b ∷ t) h = ground (arith, length-strcasecmp s t)

differs : (s t : Str) → length t < length s → strcasecmp s t ≡ false
differs s t h = elim (Bool-cases (strcasecmp s t)) [
  | inl e ↦ (let same = length-strcasecmp s t e in absurd (omega arith))
  | inr e ↦ e
]

-- A new name of 36 to 1023 bytes is the key of the table as it came, but cut in the nick. Then
-- delete_nick does not find the nick again and leaves it, if no other nick of the table has the new
-- name or the name as cut.
pub rename-delete_nick :
    (r : Registry) (nptr : ℕ) (nick : Nick) (newnick : Str)
    → r.nick_at nptr ≡ some nick
    → nicklen < length newnick
    → length newnick < hash_buf_len
    → lookup newnick (erase_name nick.name r.nicks) ≡ none
    → lookup (strncpy nicklen newnick) (erase_name nick.name r.nicks) ≡ none
    → (r' : Registry) × (rename r nptr nick.name newnick ≡ some r')
      × (delete_nick r' nptr ≡ some r')
unfolding rename insert_name delete_nick
rename-delete_nick r nptr nick newnick at long fits free cut =
    let next : Nick = record nick { name = strncpy nicklen newnick } in
    let rest = erase_name nick.name r.nicks in
    let r' : Registry = record r {
      nicks = rest ++ (newnick, nptr) ∷ [];
      nick_at = put r.nick_at nptr (some next);
    } in
    let lost : lookup (strncpy nicklen newnick) r'.nicks ≡ none =
      lookup_append (strncpy nicklen newnick) newnick nptr rest cut
        (differs newnick (strncpy nicklen newnick) (omega (arith, strncpy-le nicklen newnick))) in
    (r', rw at (inserted r nptr nick newnick fits free), rw ((==_iff nptr nptr).1 refl, lost) refl)
