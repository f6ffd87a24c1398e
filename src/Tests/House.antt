-- ===== src/Tests/House.antt =====
-- A registry with a channel and two accounts, the second linked to the first.
use child.Prelude.{
  ℕ, zero, suc, refl, true, false, none, some, List, [], ◌∷◌, arith, Bool-cases, inl, inr, ◌==◌,
  if◌then◌else◌,
}
use child.Prelude.Int.{pos, negsuc}
use child.Strings.{Str, strcasecmp, tolower}
use child.Uflags.{ChanLevels, flags, uflag_op, uflag_acl, uflag_protect, uflag_voice}
use child.Registry.{
  Registry, User, Chan, Cflag, Heap, copt_axxflags, get_link_master, find_link, find_in_names,
  link_master, find_user,
}
use child.Registry.Reads.{IsSound, AllLive}
use child.Access.Follow.{Ranked}

abbrev pub user : Str → List ℕ → User
user nick cflags = record {
  nick = nick;
  authed = true;
  level = pos 0;
  md5_pass = [];
  pwhash = [];
  email = [];
  options = 0;
  lastseen = 0;
  timeout = 60;
  vhost = [];
  regtime = 0;
  cflags = cflags;
  authed_nick = none;
}

abbrev pub first : Str
first = b'a' ∷ []

abbrev pub second : Str
second = b'b' ∷ []

abbrev pub chan : Chan
chan = record {
  channelname = b'c' ∷ [];
  owner = b'z' ∷ [];
  options = copt_axxflags;
  entrymsg = [];
  mlock = [];
  topic = [];
  autolimit = pos 0;
  lastseen = 0;
  regtime = 0;
  active_autolimit = none;
  cflags = 10 ∷ 11 ∷ [];
  chanbot = none;
  timebans = [];
}

abbrev pub admin : Cflag
admin = record {
  chan = 3;
  user = 1;
  flags = pos 10;
  automode = 1;
  suspended = false;
  uflags = flags (uflag_op ∷ uflag_acl ∷ uflag_protect ∷ []);
}

abbrev pub voice : Cflag
voice = record {
  chan = 3;
  user = 2;
  flags = pos 3;
  automode = 1;
  suspended = false;
  uflags = uflag_voice;
}

abbrev user_at : Heap User
user_at zero = none
user_at (suc zero) = some (user first (10 ∷ []))
user_at (suc (suc zero)) = some (user second (11 ∷ []))
user_at (suc (suc (suc a))) = none

abbrev pub levels : ChanLevels
levels = record {
  chlev_sadmin = pos 15;
  chlev_admin = pos 10;
  chlev_op = pos 5;
  chlev_halfop = pos 4;
  chlev_voice = pos 3;
  chlev_nostatus = negsuc 0;
  chlev_akick = negsuc 1;
  chlev_akb = negsuc 2;
  chlev_invite = pos 1;
}

abbrev pub house : Registry
house = record {
  config = record {
    nick = b's' ∷ [];
    name = [];
    maxclones = pos 3;
    chanperuser = pos 2;
    level_owner = pos 1000;
    maxmsgtime = pos 10;
    maxmsgnb = pos 4;
    ignoretime = pos 60;
    maxloginatt = pos 3;
    emailreg = false;
    levels = levels;
    level_oper = pos 50;
    limittime = 10;
    usercloak = [];
  };
  now = 100;
  eos = true;
  users = (first, 1) ∷ (second, 2) ∷ [];
  nicks = [];
  clones = [];
  links = (second, 4) ∷ [];
  guests = [];
  chans = (chan.channelname, 3) ∷ [];
  wchans = [];
  limits = [];
  timebans = [];
  servers = [];
  user_at = user_at;
  nick_at = λ a. none;
  clone_at = λ a. none;
  link_at = λ a. some (record { master = first; slave = second });
  guest_at = λ a. none;
  chan_at = λ a. some chan;
  wchan_at = λ a. none;
  member_at = λ a. none;
  cflag_at = λ a. if a == 10 then some admin else some voice;
  limit_at = λ a. none;
  timeban_at = λ a. none;
  server_at = λ a. none;
  bot_nick = λ a. none;
  remote_server = [];
  remote_sid = [];
  uid = [];
  sent = [];
}

entries_live : (as' : List ℕ) → AllLive house.cflag_at as'
entries_live [] = tt
entries_live (a ∷ as') = (
  elim (Bool-cases (a == 10)) [ inl e ↦ (admin, rw e refl) | inr e ↦ (voice, rw e refl) ],
  entries_live as',
)

pub house-IsSound : IsSound house
house-IsSound = record {
  users = ((user first (10 ∷ []), refl), ((user second (11 ∷ []), refl), tt));
  nicks = tt;
  links = ((record { master = first; slave = second }, refl), tt);
  cflags = λ a u h. entries_live u.cflags;
}

-- The link leads from the second user, 2, to the first, 1.
pub house-Ranked : Ranked house (λ u. u)
unfolding get_link_master find_link find_in_names link_master find_user strcasecmp tolower
house-Ranked zero m h = cc
house-Ranked (suc zero) m h = cc
house-Ranked (suc (suc zero)) m h = grind arith
house-Ranked (suc (suc (suc a))) m h = cc
