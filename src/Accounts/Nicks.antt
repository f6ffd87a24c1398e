-- ===== src/Accounts/Nicks.antt =====
-- The nicks on the network: new_nick, delete_nick and clear_nicks with the count of clones of a host
-- (src/nick.c), DeleteWildNick and userquit (src/user.c).
use child.Prelude.{ℕ, false, Option, none, some, [], ◌∷◌, ◌++◌, ◌==◌, ◌+◌, ◌-◌, if◌then◌else◌}
use child.Prelude.Maybe.{◌>>=◌}
use child.Strings.{Str, strncpy}
use child.Core.{name_key}
use child.Hashmap.Lookup.{lookup}
use child.Hashmap.Dictionary.{is_some}
use child.Registry.{Registry, Names, Nick, put, remove, erase_name, find_nick, find_clone}
use child.Channels.{nicklen}
use child.Channels.Members.{delete_user_from_wchans}
use child.Accounts.{hostlen, delete_guest, user_logout}

abbrev pub uidlen : ℕ
uidlen = 9

-- The count of a host's clones goes up, from 0 for a host that has none.
unfoldable pub count_clone : (Registry → ℕ) → Registry → Str → Option ℕ → Option Registry
count_clone malloc r reshost (some a) = do
  clone ← r.clone_at a
  some (record r { clone_at = put r.clone_at a (some (record clone { count = clone.count + 1 })) })
count_clone malloc r reshost none =
    let a = malloc r in
    let key = strncpy hostlen reshost in
    let fresh : Registry = record r {
      clones = r.clones ++ (key, a) ∷ [];
      clone_at = put r.clone_at a (some (record { host = key; count = 1 }));
    } in
    some (if is_some (find_clone r (some key)) then r else fresh)

unfoldable pub insert_nick :
    (Registry → ℕ) → Registry → Nick → Str → Option ℕ → Option (Option ℕ × Registry)
unfolding count_clone
insert_nick malloc r nick reshost (some duplicate) = some (none, r)
insert_nick malloc r nick reshost none = do
  let a = malloc r
  let inserted : Registry = record r {
    nicks = r.nicks ++ (nick.name, a) ∷ [];
    nick_at = put r.nick_at a (some nick);
  }
  counted ← count_clone malloc inserted reshost (find_clone inserted (some reshost))
  some (some a, counted)

unfoldable pub new_nick :
    (Registry → ℕ) → Registry → Str → Str → Str → Str → Str → ℕ → Str → Option (Option ℕ × Registry)
unfolding insert_nick
new_nick malloc r nick ident host uid hiddenhost umodes reshost =
    let created : Nick = record {
      name = strncpy nicklen nick;
      ident = strncpy nicklen ident;
      host = strncpy hostlen host;
      uid = strncpy uidlen uid;
      svid = [];
      hiddenhost = strncpy hostlen hiddenhost;
      reshost = strncpy hostlen reshost;
      umodes = umodes;
      msgtime = 0;
      msgnb = 0;
      ignored = false;
      ignoretime = 0;
      loginattempts = 0;
      lasttry = 0;
      account = none;
      wchans = [];
      server = none;
    } in
    insert_nick malloc r created reshost (lookup created.name r.nicks)

-- The count goes down, and a clone that counts 0 is erased and freed.
unfoldable pub uncount_clone : Registry → Option ℕ → Option Registry
uncount_clone r none = some r
uncount_clone r (some a) = do
  clone ← r.clone_at a
  some (
      if clone.count - 1 == 0
      then record r { clones = erase_name clone.host r.clones; clone_at = put r.clone_at a none }
      else record r {
        clone_at = put r.clone_at a (some (record clone { count = clone.count - 1 }));
      })

-- LLIST_REMOVE of the node on the list of its server.
unfoldable pub off_server : Registry → ℕ → Option ℕ → Option Registry
off_server r nptr none = some r
off_server r nptr (some s) = do
  server ← r.server_at s
  some (record r {
    server_at = put r.server_at s (some (record server { nicks = remove nptr server.nicks }));
  })

-- delete_nick, and DeleteWildNick of user.c, which does the same.
unfoldable pub delete_nick : Registry → ℕ → Option Registry
unfolding uncount_clone off_server
delete_nick r nptr = do
  nick ← r.nick_at nptr
  let freed : Option Registry = (do
    counted ←
        uncount_clone (record r { nicks = erase_name nick.name r.nicks })
          (find_clone r (some nick.reshost))
    off ← off_server counted nptr nick.server
    some (record off { nick_at = put off.nick_at nptr none }))
  if is_some (lookup nick.name r.nicks) then freed else some r

unfoldable pub clear_nicks_in : Registry → Names → Option Registry
unfolding delete_nick
clear_nicks_in r [] = some r
clear_nicks_in r ((_, a) ∷ names) = do cleared ← delete_nick r a; clear_nicks_in cleared names

unfoldable pub clear_nicks : Registry → Option Registry
unfolding clear_nicks_in
clear_nicks r = clear_nicks_in r r.nicks

unfoldable pub logout_account : Registry → ℕ → Option ℕ → Option Registry
logout_account r nptr none = some r
logout_account r nptr (some uptr) = user_logout r nptr uptr

unfoldable pub quit_found : (Registry → ℕ) → Registry → Option ℕ → Option Registry
unfolding logout_account delete_nick
quit_found malloc r none = some r
quit_found malloc r (some nptr) = do
  nick ← r.nick_at nptr
  out ← logout_account r nptr nick.account
  left ← delete_user_from_wchans malloc (delete_guest out nick.name) nptr
  delete_nick left nptr

unfoldable pub userquit : (Registry → ℕ) → Registry → Str → Option Registry
unfolding quit_found
userquit malloc r nick = find_nick r nick >>= quit_found malloc r
