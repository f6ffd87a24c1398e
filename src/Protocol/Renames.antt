-- ===== src/Protocol/Renames.antt =====
-- m_nick (src/parseline.c): a nick takes another name.
use child.Prelude.{ℕ, Bool, true, false, Option, none, some, [], ◌∷◌, ◌++◌, if◌then◌else◌}
use child.Prelude.Maybe.{◌>>=◌}
use child.Strings.{Str, strncpy, str_eq, separate_word?}
use child.Core.{name_key, unless_aborted}
use child.Hashmap.Lookup.{lookup}
use child.Hashmap.Dictionary.{is_some}
use child.Uflags.{has}
use child.Registry.{
  Registry, Names, put, send, notice_other_nick, notice_identify, find_nick, find_user, find_link2,
  is_authed, erase_name, uopt_protect,
}
use child.Channels.{nicklen}
use child.Accounts.{delete_guest, add_guest, user_login, user_logout}
use child.Protocol.{Hooks, run_hooks, after_colon}
use child.Protocol.Identity.{if_found}

abbrev pub hook_nickchange : ℕ
hook_nickchange = 0x2

-- HASHMAP_INSERT, which refuses a name that is there and aborts on one that its hash has no room for.
unfoldable pub insert_name : Str → ℕ → Names → Option Names
unfolding unless_aborted
insert_name name a names =
    unless_aborted name
      (some (if is_some (lookup name names) then names else names ++ (name, a) ∷ []))

-- The nick stands under its new name in the table.
unfoldable pub rename : Registry → ℕ → Str → Str → Option Registry
unfolding insert_name
rename r nptr oldnick newnick = do
  nick ← r.nick_at nptr
  nicks ← insert_name newnick nptr (erase_name oldnick r.nicks)
  some (record r {
    nicks = nicks;
    nick_at = put r.nick_at nptr (some (record nick { name = strncpy nicklen newnick }));
  })

-- IsAuthed
unfoldable pub is_authed? : Registry → Option ℕ → Option Bool
unfolding is_authed
is_authed? r none = some false
is_authed? r (some uptr) = is_authed r uptr

-- Whether two names are linked, one way or the other.
unfoldable pub are_linked : Registry → Str → Str → Option Bool
unfolding find_link2
are_linked r oldnick newnick = do
  forth ← find_link2 r oldnick newnick
  let back : Option Bool = (do l ← find_link2 r newnick oldnick; some (is_some l))
  if is_some forth then some true else back

unfoldable pub swap_account : Registry → ℕ → Option ℕ → ℕ → Option Registry
unfolding user_logout user_login
swap_account r nptr none uptr2 = none
swap_account r nptr (some uptr) uptr2 = do out ← user_logout r nptr uptr; user_login out nptr uptr2

-- A registered nick that is taken by another: a notice, and a guest if the account is protected.
unfoldable pub guard_account : (Registry → ℕ) → Registry → ℕ → Str → Bool → ℕ → Option Registry
unfolding add_guest
guard_account malloc r nptr newnick authed uptr2 = do
  nick ← r.nick_at nptr
  user ← r.user_at uptr2
  let told : Registry =
      send (if authed then notice_other_nick nick.name else notice_identify nick.name) r
  let guarded : Registry = (add_guest malloc told newnick user.timeout r.now).1
  some (if has user.options uopt_protect then guarded else told)

-- m_nick for the account of the new name.
unfoldable pub meet_account :
    (Registry → ℕ) → Registry → ℕ → Option ℕ → Str → Str → Option ℕ → Option Registry
unfolding is_authed? are_linked swap_account guard_account
meet_account malloc r nptr uptr oldnick newnick none = some r
meet_account malloc r nptr uptr oldnick newnick (some uptr2) = do
  authed ← is_authed? r uptr
  let linked_too : Option Bool = are_linked r oldnick newnick
  linked ← if authed then linked_too else some false
  let swapped : Option Registry = swap_account r nptr uptr uptr2
  let guarded : Option Registry = guard_account malloc r nptr newnick authed uptr2
  if linked then swapped else guarded

unfoldable pub rename_nick : (Registry → ℕ) → Hooks → Registry → Str → ℕ → Option Registry
unfolding rename delete_guest meet_account run_hooks
rename_nick malloc hooks r newnick nptr = do
  nick ← r.nick_at nptr
  let oldnick = strncpy nicklen nick.name
  renamed ← rename (delete_guest r oldnick) nptr oldnick newnick
  let uptr2 = find_user renamed (some newnick)
  let changed : Option Registry = (do
    met ← meet_account malloc renamed nptr (find_user renamed (some oldnick)) oldnick newnick uptr2
    ran ←
        run_hooks hooks hook_nickchange
          (record { nptr = some nptr; uptr = uptr2; chptr = none; parv = some oldnick ∷ [] }) met
    some ran.1)
  if str_eq (some newnick) (some oldnick) then some renamed else changed

-- m_nick for the new name, which may be NULL.
unfoldable pub rename_to : (Registry → ℕ) → Hooks → Registry → Option Str → ℕ → Option Registry
unfolding rename_nick
rename_to malloc hooks r none nptr = none
rename_to malloc hooks r (some newnick) nptr = rename_nick malloc hooks r newnick nptr

unfoldable pub m_nick : (Registry → ℕ) → Hooks → Registry → Str → Option Str → Option Registry
unfolding find_nick if_found rename_to after_colon
m_nick malloc hooks r sender tail =
    let (newnick, _) = separate_word? tail in
    find_nick r (after_colon sender) >>= if_found r (rename_to malloc hooks r newnick)
