-- ===== src/Registry.antt =====
-- The registries of struct core (src/core.h) and the objects that they hold: struct user, link_,
-- guest and clone (src/user.h), nick (src/nick.c), server (src/server.h), chan, wchan, member_, cflag, limit_ and timeban
-- (src/channel.h), and the searches of src/user.c, src/nick.c and src/channel.c.
--
-- An object stands at an address; a freed address holds none, and to read through it is a fault,
-- `none`. A hash map is the list of its pairs of key and address, which Hashmap.Lookup shows to be
-- what the table does. An intrusive list is the list of its nodes' addresses. A char array holds the
-- bytes before its NUL.
pub mod Reads
pub mod Named
use mathlib.Core.List.{filter}
use child.Prelude.{
  ℕ, zero, suc, Bool, true, false, ◌&&◌, ◌||◌, not, Option, none, some, List, [], ◌∷◌, ◌==◌,
  if◌then◌else◌, ◌≡◌, ◌++◌,
}
use child.Prelude.Int.{ℤ}
use child.Prelude.Maybe.{◌>>=◌}
use child.Strings.{Str, str_eq}
use child.Core.{name_key}
use child.Hashmap.Lookup.{lookup}
use child.Hashmap.Erase.{delete}
use child.Uflags.{ChanLevels, has}
use child.Notices.{Notice}

pub record User : Type 0 where
  pub nick : Str
  pub authed : Bool
  pub level : ℤ
  pub md5_pass : Str
  pub pwhash : Str
  pub email : Str
  pub options : ℕ
  pub lastseen : ℕ
  pub timeout : ℕ
  pub vhost : Str
  pub regtime : ℕ
  pub cflags : List ℕ
  pub authed_nick : Option ℕ

pub record Nick : Type 0 where
  pub name : Str
  pub ident : Str
  pub host : Str
  pub uid : Str
  pub svid : Str
  pub hiddenhost : Str
  pub reshost : Str
  pub umodes : ℕ
  pub msgtime : ℕ
  pub msgnb : ℕ
  pub ignored : Bool
  pub ignoretime : ℕ
  pub loginattempts : ℕ
  pub lasttry : ℕ
  pub account : Option ℕ
  pub wchans : List ℕ
  pub server : Option ℕ

pub record Chan : Type 0 where
  pub channelname : Str
  pub owner : Str
  pub options : ℕ
  pub entrymsg : Str
  pub mlock : Str
  pub topic : Str
  pub autolimit : ℤ
  pub lastseen : ℕ
  pub regtime : ℕ
  pub active_autolimit : Option ℕ
  pub cflags : List ℕ
  pub chanbot : Option ℕ
  pub timebans : List ℕ

pub record Wchan : Type 0 where
  pub chname : Str
  pub topic : Str
  pub members : List ℕ

pub record Member : Type 0 where
  pub wchan : ℕ
  pub nick : ℕ
  pub flags : ℕ

pub record Cflag : Type 0 where
  pub chan : ℕ
  pub user : ℕ
  pub flags : ℤ
  pub automode : ℕ
  pub suspended : Bool
  pub uflags : ℕ

pub record Limit : Type 0 where
  pub chan : ℕ
  pub time : ℕ

pub record Timeban : Type 0 where
  pub chan : ℕ
  pub mask : Str
  pub reason : Str
  pub duration : ℤ
  pub setat : ℕ

pub record Link : Type 0 where
  pub master : Str
  pub slave : Str

pub record Guest : Type 0 where
  pub nick : Str
  pub nickconn : ℕ
  pub timeout : ℕ

pub record Clone : Type 0 where
  pub host : Str
  pub count : ℕ

-- `leafs` and `nicks` hold the servers and nicks behind this one; the server that a node of these
-- lists stands on the list of is kept with it, as the pointers of the node lead there.
pub record Server : Type 0 where
  pub name : Str
  pub sid : Str
  pub nicks : List ℕ
  pub leafs : List ℕ
  pub hub : Option ℕ

-- The fields of struct config that these parts read.
pub record Config : Type 0 where
  pub nick : Str
  pub name : Str
  pub maxclones : ℤ
  pub chanperuser : ℤ
  pub level_owner : ℤ
  pub maxmsgtime : ℤ
  pub maxmsgnb : ℤ
  pub ignoretime : ℤ
  pub maxloginatt : ℤ
  pub emailreg : Bool
  pub levels : ChanLevels
  pub level_oper : ℤ
  pub limittime : ℕ
  pub usercloak : Str

-- What these parts say to the uplink and to users, one constructor for each format string.
pub data Message : Type 0 where
  part : Str → Str → Message
  kick : Str → Str → Str → Str → Message
  set_status : Str → Str → Bool → Str → Str → Message
  set_limit : Str → Str → ℤ → Message
  unban : Str → Str → Str → Message
  ban : Str → Str → Str → Message
  svslogin : Str → Str → Message
  svslogout : Str → Message
  set_registered : Str → Bool → Message
  chghost : Str → Str → Message
  notice_identified : Str → Str → Message
  notice_vhost : Str → Str → Message
  notice_cloak : Str → Str → Message
  notice_other_nick : Str → Message
  notice_identify : Str → Message
  globops_oper : Str → Message
  pong : Str → Message
  topic : Str → Str → Str → Message
  mode_lock : Str → Str → Str → Message
  join : Str → Str → Message
  bot_status : Str → Str → Message
  restore_bot : Str → Str → ℕ → Str → Message
  notice : Str → Str → Notice → Message
  kill : Str → Str → Str → Str → Message
  invite : Str → Str → Str → Message
  clear_modes : Str → Message
  clear_lists : Str → Message
  clear_bans : Str → Message
  service_topic : Str → Str → Str → ℕ → Str → Message
  quit_channel : Str → Str → Message
  globops : Notice → Message
  mail : Str → Str → Message

abbrev pub Names : Type 0
Names = List (Str × ℕ)

abbrev pub Heap : Type 0 → Type 0
Heap A = ℕ → Option A

pub record Registry : Type 0 where
  pub config : Config
  pub now : ℕ
  pub eos : Bool
  pub users : Names
  pub nicks : Names
  pub clones : Names
  pub links : Names
  pub guests : Names
  pub chans : Names
  pub wchans : Names
  pub limits : List ℕ
  pub timebans : List ℕ
  pub servers : List ℕ
  pub user_at : Heap User
  pub nick_at : Heap Nick
  pub clone_at : Heap Clone
  pub link_at : Heap Link
  pub guest_at : Heap Guest
  pub chan_at : Heap Chan
  pub wchan_at : Heap Wchan
  pub member_at : Heap Member
  pub cflag_at : Heap Cflag
  pub limit_at : Heap Limit
  pub timeban_at : Heap Timeban
  pub server_at : Heap Server
  pub bot_nick : ℕ → Option Str
  pub remote_server : Str
  pub remote_sid : Str
  pub uid : Str
  pub sent : List Message

abbrev pub umode_registered : ℕ
umode_registered = 0x8

abbrev pub umode_nokick : ℕ
umode_nokick = 0x80

abbrev pub umode_superadmin : ℕ
umode_superadmin = 0x200

abbrev pub uopt_protect : ℕ
uopt_protect = 0x1

abbrev pub uopt_hidemail : ℕ
uopt_hidemail = 0x40

abbrev pub uopt_cloaked : ℕ
uopt_cloaked = 0x80

abbrev pub copt_nojoin : ℕ
copt_nojoin = 0x2

abbrev pub copt_secure : ℕ
copt_secure = 0x80

abbrev pub copt_suspended : ℕ
copt_suspended = 0x100

abbrev pub copt_enftopic : ℕ
copt_enftopic = 0x2000

abbrev pub copt_axxflags : ℕ
copt_axxflags = 0x4000

abbrev pub copt_noauto : ℕ
copt_noauto = 0x4

-- `sent` holds the newest message first.
abbrev pub send : Message → Registry → Registry
send message r = record r { sent = message ∷ r.sent }

-- A write to the heap; `none` frees the address.
abbrev pub put : {A : Type 0} → Heap A → ℕ → Option A → Heap A
put heap a v = λ b. if a == b then v else heap b

-- LLIST_REMOVE of a node.
abbrev pub remove : ℕ → List ℕ → List ℕ
remove a [] = []
remove a (b ∷ as') = if a == b then as' else b ∷ remove a as'

-- HASHMAP_ERASE of a name.
abbrev pub erase_name : Str → Names → Names
erase_name name names = delete name names

-- A search by name: NULL for the name gives NULL.
unfoldable pub find_in_names : Names → Option Str → Option ℕ
find_in_names names none = none
find_in_names names (some name) = lookup name names

unfoldable pub find_user : Registry → Option Str → Option ℕ
unfolding find_in_names
find_user r name = find_in_names r.users name

unfoldable pub find_guest : Registry → Option Str → Option ℕ
unfolding find_in_names
find_guest r name = find_in_names r.guests name

unfoldable pub find_link : Registry → Option Str → Option ℕ
unfolding find_in_names
find_link r slave = find_in_names r.links slave

unfoldable pub find_clone : Registry → Option Str → Option ℕ
unfolding find_in_names
find_clone r host = find_in_names r.clones host

unfoldable pub find_channel : Registry → Option Str → Option ℕ
unfolding find_in_names
find_channel r name = find_in_names r.chans name

unfoldable pub find_wchan : Registry → Option Str → Option ℕ
unfolding find_in_names
find_wchan r name = find_in_names r.wchans name

-- The loop of find_nick over the table, with the two Strcmp.
unfoldable pub find_nick_in : Heap Nick → Str → Names → Option (Option ℕ)
find_nick_in heap name_or_uid [] = some none
find_nick_in heap name_or_uid ((_, a) ∷ names) =
    let later = find_nick_in heap name_or_uid names in
    do
      tmp ← heap a
      if str_eq (some tmp.name) (some name_or_uid) || str_eq (some tmp.uid) (some name_or_uid)
          then some (some a)
          else later

unfoldable pub find_nick : Registry → Str → Option (Option ℕ)
unfolding find_nick_in
find_nick r name_or_uid = find_nick_in r.nick_at name_or_uid r.nicks

-- The loop of find_link2.
unfoldable pub find_link2_in : Heap Link → Str → Str → Names → Option (Option ℕ)
find_link2_in heap master slave [] = some none
find_link2_in heap master slave ((_, a) ∷ names) =
    let later = find_link2_in heap master slave names in
    do
      tmp ← heap a
      if str_eq (some tmp.master) (some master) && str_eq (some tmp.slave) (some slave)
          then some (some a)
          else later

unfoldable pub find_link2 : Registry → Str → Str → Option (Option ℕ)
unfolding find_link2_in
find_link2 r master slave = find_link2_in r.link_at master slave r.links

-- find_account: `nptr->account ?: find_user(nptr->name)`.
unfoldable pub find_account : Registry → ℕ → Option (Option ℕ)
unfolding find_user
find_account r nptr = do
  nick ← r.nick_at nptr
  elim nick.account [ some u ↦ some (some u) | none ↦ some (find_user r (some nick.name)) ]

-- The loop of find_cflag over `uptr->cflags`.
unfoldable pub find_cflag_in : Heap Cflag → ℕ → List ℕ → Option (Option ℕ)
find_cflag_in heap chptr [] = some none
find_cflag_in heap chptr (a ∷ as') =
    let later = find_cflag_in heap chptr as' in
    do cflag ← heap a; if cflag.chan == chptr then some (some a) else later

unfoldable pub find_cflag : Registry → ℕ → ℕ → Option (Option ℕ)
unfolding find_cflag_in
find_cflag r chptr uptr = do user ← r.user_at uptr; find_cflag_in r.cflag_at chptr user.cflags

-- The loop of find_member over `wchan->members`.
unfoldable pub find_member_in : Heap Member → ℕ → List ℕ → Option (Option ℕ)
find_member_in heap nptr [] = some none
find_member_in heap nptr (a ∷ as') =
    let later = find_member_in heap nptr as' in
    do tmp ← heap a; if tmp.nick == nptr then some (some a) else later

unfoldable pub find_member : Registry → ℕ → ℕ → Option (Option ℕ)
unfolding find_member_in
find_member r wchan nptr = do w ← r.wchan_at wchan; find_member_in r.member_at nptr w.members

-- The loop of find_timeban over `chptr->timebans`.
unfoldable pub find_timeban_in : Heap Timeban → Str → List ℕ → Option (Option ℕ)
find_timeban_in heap mask [] = some none
find_timeban_in heap mask (a ∷ as') =
    let later = find_timeban_in heap mask as' in
    do tmp ← heap a; if str_eq (some tmp.mask) (some mask) then some (some a) else later

unfoldable pub find_timeban : Registry → ℕ → Str → Option (Option ℕ)
unfolding find_timeban_in
find_timeban r chptr mask = do c ← r.chan_at chptr; find_timeban_in r.timeban_at mask c.timebans

-- The user that a link leads to; NULL for no link.
unfoldable pub link_master : Registry → Option ℕ → Option (Option ℕ)
unfolding find_user
link_master r none = some none
link_master r (some l) = do link ← r.link_at l; some (find_user r (some link.master))

unfoldable pub get_link_master : Registry → ℕ → Option (Option ℕ)
unfolding find_link link_master
get_link_master r uptr = do user ← r.user_at uptr; link_master r (find_link r (some user.nick))

-- HasUmode, false for NULL.
unfoldable pub has_umode : Registry → Option ℕ → ℕ → Option Bool
has_umode r none umode = some false
has_umode r (some nptr) umode = do nick ← r.nick_at nptr; some (has nick.umodes umode)

-- IsAuthed of a pointer that is not NULL.
unfoldable pub is_authed : Registry → ℕ → Option Bool
is_authed r uptr = do user ← r.user_at uptr; some user.authed

unfoldable pub is_super_admin : Registry → ℕ → Option Bool
unfolding find_nick has_umode
is_super_admin r uptr = do
  user ← r.user_at uptr
  found ← find_nick r user.nick
  if not user.authed then some false else has_umode r found umode_superadmin

-- howmanyclones
unfoldable pub howmanyclones : Registry → Str → Option ℕ
unfolding find_clone
howmanyclones r host = elim (find_clone r (some host)) [
  | none ↦ some 0
  | some a ↦ do clone ← r.clone_at a; some clone.count
]
