-- ===== src/Accounts.antt =====
-- The accounts, guests and links: AddUser, AddGuest, AddLink, DeleteGuest, DeleteLink, DeleteLinks,
-- DeleteAccount, user_login, user_logout and userdrop (src/user.c).
pub mod Nicks
pub mod Clones
pub mod Network
pub mod Quit
pub mod Sync
pub mod Resync
pub mod Passwords
pub mod Verify
use child.Prelude.{
  ℕ, zero, suc, Bool, true, false, not, Option, none, some, List, [], ◌∷◌, ◌++◌, ◌==◌, ◌||◌,
  if◌then◌else◌, bit_or,
}
use child.Prelude.Int.{ℤ}
use child.Prelude.Maybe.{◌>>=◌}
use child.Strings.{Str, strncpy, str_eq}
use child.Uflags.{has, chlev_owner, uflag_chanowner}
use child.Registry.{
  Registry, Names, User, Nick, Chan, Link, Message, svslogin, svslogout, set_registered, chghost,
  notice_identified, notice_vhost, notice_cloak, send, put, erase_name, find_user, find_guest,
  find_link, has_umode, umode_registered, uopt_hidemail, uopt_protect, uopt_cloaked,
}
use child.Access.{get_coowner}
use child.Channels.{
  nicklen, add_user_to_channel, delete_user_from_channel, delete_user_from_channels, chandrop,
}

abbrev pub hostlen : ℕ
hostlen = 60

abbrev pub svidlen : ℕ
svidlen = 35

abbrev pub timeout_dflt : ℕ
timeout_dflt = 60

unfoldable pub insert_user : (Registry → ℕ) → Registry → Str → ℤ → Option ℕ → Option ℕ × Registry
insert_user malloc r nick level (some duplicate) = (none, r)
insert_user malloc r nick level none =
    let new_user = malloc r in
    let key = strncpy nicklen nick in
    let user : User = record {
      nick = key;
      authed = false;
      level = level;
      md5_pass = [];
      pwhash = [];
      email = [];
      options = uopt_hidemail;
      lastseen = 0;
      timeout = timeout_dflt;
      vhost = [];
      regtime = 0;
      cflags = [];
      authed_nick = none;
    } in
    (
      some new_user,
      record r {
        users = r.users ++ (key, new_user) ∷ [];
        user_at = put r.user_at new_user (some user);
      },
    )

unfoldable pub add_user : (Registry → ℕ) → Registry → Str → ℤ → Option ℕ × Registry
unfolding insert_user
add_user malloc r nick level =
    insert_user malloc r nick level (find_user r (some (strncpy nicklen nick)))

unfoldable pub insert_guest :
    (Registry → ℕ) → Registry → Str → ℕ → ℕ → Option ℕ → Option ℕ × Registry
insert_guest malloc r nick timeout nickconn (some duplicate) = (none, r)
insert_guest malloc r nick timeout nickconn none =
    let new_guest = malloc r in
    let key = strncpy nicklen nick in
    (
      some new_guest,
      record r {
        guests = r.guests ++ (key, new_guest) ∷ [];
        guest_at =
            put r.guest_at new_guest
              (some (record { nick = key; nickconn = nickconn; timeout = timeout }));
      },
    )

unfoldable pub add_guest : (Registry → ℕ) → Registry → Str → ℕ → ℕ → Option ℕ × Registry
unfolding insert_guest
add_guest malloc r nick timeout nickconn =
    insert_guest malloc r nick timeout nickconn (find_guest r (some (strncpy nicklen nick)))

unfoldable pub insert_link : (Registry → ℕ) → Registry → Str → Str → Option ℕ → Option ℕ × Registry
insert_link malloc r master slave (some duplicate) = (none, r)
insert_link malloc r master slave none =
    let new_link = malloc r in
    let key = strncpy nicklen slave in
    (
      some new_link,
      record r {
        links = r.links ++ (key, new_link) ∷ [];
        link_at =
            put r.link_at new_link (some (record { master = strncpy nicklen master; slave = key }));
      },
    )

unfoldable pub add_link : (Registry → ℕ) → Registry → Str → Str → Option ℕ × Registry
unfolding insert_link
add_link malloc r master slave =
    insert_link malloc r master slave (find_link r (some (strncpy nicklen slave)))

unfoldable pub free_guest : Registry → Str → Option ℕ → Registry
free_guest r nick none = r
free_guest r nick (some a) = record r {
  guests = erase_name nick r.guests;
  guest_at = put r.guest_at a none;
}

unfoldable pub delete_guest : Registry → Str → Registry
unfolding free_guest
delete_guest r nick = free_guest r nick (find_guest r (some nick))

unfoldable pub free_link : Registry → Str → Option ℕ → Registry
free_link r slave none = r
free_link r slave (some a) = record r {
  links = erase_name slave r.links;
  link_at = put r.link_at a none;
}

unfoldable pub delete_link : Registry → Str → Registry
unfolding free_link
delete_link r slave = free_link r slave (find_link r (some slave))

-- The loop of DeleteLinks over the table.
unfoldable pub delete_links_in : Registry → Str → Names → Option Registry
unfolding delete_link
delete_links_in r nick [] = some r
delete_links_in r nick ((_, a) ∷ names) = do
  tmp ← r.link_at a
  let linked = str_eq (some tmp.master) (some nick) || str_eq (some tmp.slave) (some nick)
  let unlinked : Registry = (if linked then delete_link r tmp.slave else r)
  delete_links_in unlinked nick names

unfoldable pub delete_links : Registry → Str → Option Registry
unfolding delete_links_in
delete_links r nick = delete_links_in r nick r.links

-- user_logout of a user that is not NULL.
unfoldable pub user_logout : Registry → ℕ → ℕ → Option Registry
user_logout r nptr uptr = do
  user ← r.user_at uptr
  nick ← r.nick_at nptr
  registered ← has_umode r (some nptr) umode_registered
  let out : Registry = send (svslogout nick.uid) (record r {
    user_at =
        put r.user_at uptr
          (some (record user { authed = false; authed_nick = none; lastseen = r.now }));
    nick_at = put r.nick_at nptr (some (record nick { account = none; svid = b'0' ∷ [] }));
  })
  some (if registered then send (set_registered nick.uid false) out else out)

-- user_login from the vhost on, for the hidden host of the nick.
unfoldable pub show_host : Registry → ℕ → Nick → User → Registry
show_host r nptr nick user = elim user.vhost [
  | _ ∷ _ ↦
      send (notice_vhost nick.name user.vhost) (record (send (chghost nick.name user.vhost) r) {
        nick_at =
            put r.nick_at nptr (some (record nick { hiddenhost = strncpy hostlen user.vhost }));
      })
  | [] ↦
      let host = user.nick ++ r.config.usercloak in
      if has user.options uopt_cloaked
      then send (notice_cloak nick.name host) (record (send (chghost nick.name host) r) {
        nick_at = put r.nick_at nptr (some (record nick { hiddenhost = strncpy hostlen host }));
      })
      else r
]

-- The steps of user_login on the nick: its account, its svid and the umode +r.
unfoldable pub login_nick : ℕ → User → Nick → Nick
login_nick uptr user nick =
    let svid : Str =
      (if str_eq (some nick.svid) (some user.nick) then nick.svid else strncpy svidlen user.nick) in
    let umodes : ℕ =
      (if str_eq (some nick.name) (some user.nick)
        then bit_or nick.umodes umode_registered
        else nick.umodes) in
    record nick {
      loginattempts = 0;
      lasttry = 0;
      account = some uptr;
      svid = svid;
      umodes = umodes;
    }

unfoldable pub user_login : Registry → ℕ → ℕ → Option Registry
unfolding login_nick delete_guest show_host
user_login r nptr uptr = do
  user ← r.user_at uptr
  nick ← r.nick_at nptr
  let known = login_nick uptr user nick
  let authed : User = record user { authed = true; authed_nick = some nptr; lastseen = r.now }
  let entered : Registry = record r {
    user_at = put r.user_at uptr (some authed);
    nick_at = put r.nick_at nptr (some known);
  }
  let named : Registry =
      (if str_eq (some nick.svid) (some user.nick)
        then entered
        else send (svslogin nick.name known.svid) entered)
  let own : Bool = str_eq (some nick.name) (some user.nick)
  let told : Registry = (if own then send (set_registered nick.name true) named else named)
  let guarded : Registry =
      (if own
        then (if has user.options uopt_protect then delete_guest told nick.name else told)
        else told)
  some (show_host (send (notice_identified nick.name known.svid) guarded) nptr known user)

unfoldable pub logout_first : Registry → ℕ → Option ℕ → Option Registry
unfolding user_logout
logout_first r uptr none = some r
logout_first r uptr (some nptr) = user_logout r nptr uptr

unfoldable pub delete_account : Registry → ℕ → Option Registry
unfolding logout_first delete_guest
delete_account r uptr = do
  user ← r.user_at uptr
  out ← logout_first r uptr user.authed_nick
  let erased : Registry =
      delete_guest (record out { users = erase_name user.nick out.users }) user.nick
  some (record erased { user_at = put erased.user_at uptr none })

-- What userdrop does with one channel of the user: the co-owner inherits it, or it is dropped.
unfoldable pub inherit : (Registry → ℕ) → Registry → ℕ → Option ℕ → Option Registry
inherit malloc r chptr none = chandrop r chptr
inherit malloc r chptr (some heir) = do
  cleared ← delete_user_from_channel r heir chptr
  entered ← add_user_to_channel malloc cleared heir chptr chlev_owner uflag_chanowner
  user ← entered.1.user_at heir
  chan ← entered.1.chan_at chptr
  some (record entered.1 {
    chan_at =
        put entered.1.chan_at chptr (some (record chan { owner = strncpy nicklen user.nick }));
  })

-- The loop of userdrop over the channels.
unfoldable pub drop_owned : (Registry → ℕ) → Registry → Str → Names → Option Registry
unfolding inherit
drop_owned malloc r nick [] = some r
drop_owned malloc r nick ((_, chptr) ∷ names) = do
  chan ← r.chan_at chptr
  let owned : Option Registry = get_coowner r chptr >>= inherit malloc r chptr
  dropped ← if str_eq (some chan.owner) (some nick) then owned else some r
  drop_owned malloc dropped nick names

unfoldable pub userdrop : (Registry → ℕ) → Registry → ℕ → Option Registry
unfolding drop_owned delete_links delete_account
userdrop malloc r uptr = do
  user ← r.user_at uptr
  dropped ← drop_owned malloc r user.nick r.chans
  unlinked ← delete_links dropped user.nick
  cleared ← delete_user_from_channels unlinked uptr
  delete_account cleared uptr
