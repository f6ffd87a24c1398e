-- ===== src/Channels/Members.antt =====
-- The members of the channels of the network: CreateWchan, DeleteWchan, AddUserToWchan, DeleteMember,
-- DeleteUserFromWchan, DeleteUserFromWchans, clear_wchans, KickUser and SetStatus (src/channel.c).
use child.Prelude.{
  ℕ, Bool, true, false, Option, none, some, List, [], ◌∷◌, ◌++◌, ◌-◌, if◌then◌else◌, bit_and,
  bit_or,
}
use child.Prelude.Int.{pos, lt_ℤ}
use child.Prelude.Maybe.{◌>>=◌}
use child.Strings.{Str, space, strncpy}
use child.Uflags.{has}
use child.Registry.{
  Registry, Names, Nick, Wchan, kick, set_status, send, put, remove, erase_name, find_channel,
  find_wchan, find_nick, find_member, has_umode, umode_nokick,
}
use child.Channels.{chanlen}
use child.Channels.Limits.{add_limit}

unfoldable pub insert_wchan : (Registry → ℕ) → Registry → Str → Option ℕ → Option ℕ × Registry
insert_wchan malloc r name (some duplicate) = (none, r)
insert_wchan malloc r name none =
    let new_chan = malloc r in
    let key = strncpy chanlen name in
    let w : Wchan = record { chname = key; topic = []; members = [] } in
    (
      some new_chan,
      record r {
        wchans = r.wchans ++ (key, new_chan) ∷ [];
        wchan_at = put r.wchan_at new_chan (some w);
      },
    )

unfoldable pub create_wchan : (Registry → ℕ) → Registry → Str → Option ℕ × Registry
unfolding insert_wchan
create_wchan malloc r name = insert_wchan malloc r name (find_wchan r (some (strncpy chanlen name)))

unfoldable pub delete_wchan : Registry → ℕ → Option Registry
delete_wchan r wchan = do
  w ← r.wchan_at wchan
  some (record r { wchans = erase_name w.chname r.wchans; wchan_at = put r.wchan_at wchan none })

-- `if (chptr && chptr->autolimit > 0) AddLimit(chptr);`
unfoldable pub refresh_limit : (Registry → ℕ) → Registry → Option ℕ → Option Registry
refresh_limit malloc r none = some r
refresh_limit malloc r (some chptr) = do
  chan ← r.chan_at chptr
  if lt_ℤ (pos 0) chan.autolimit then add_limit malloc r chptr else some r

unfoldable pub add_user_to_wchan : (Registry → ℕ) → Registry → ℕ → ℕ → Option (ℕ × Registry)
unfolding refresh_limit
add_user_to_wchan malloc r nptr wchan = do
  nick ← r.nick_at nptr
  w ← r.wchan_at wchan
  let a = malloc r
  let added : Registry = record r {
    member_at = put r.member_at a (some (record { wchan = wchan; nick = nptr; flags = 0 }));
    nick_at = put r.nick_at nptr (some (record nick { wchans = nick.wchans ++ a ∷ [] }));
    wchan_at = put r.wchan_at wchan (some (record w { members = w.members ++ a ∷ [] }));
  }
  limited ← refresh_limit malloc added (find_channel added (some w.chname))
  some (a, limited)

unfoldable pub delete_member : Registry → ℕ → Option Registry
delete_member r a = do
  m ← r.member_at a
  nick ← r.nick_at m.nick
  w ← r.wchan_at m.wchan
  some (record r {
    nick_at = put r.nick_at m.nick (some (record nick { wchans = remove a nick.wchans }));
    wchan_at = put r.wchan_at m.wchan (some (record w { members = remove a w.members }));
    member_at = put r.member_at a none;
  })

-- DeleteUserFromWchan once the member is gone, by the members that are left.
unfoldable pub after_leave : (Registry → ℕ) → Registry → ℕ → Str → List ℕ → Option Registry
unfolding delete_wchan refresh_limit
after_leave malloc r wchan chname [] = delete_wchan r wchan
after_leave malloc r wchan chname (m ∷ members) =
    refresh_limit malloc r (find_channel r (some chname))

unfoldable pub leave : (Registry → ℕ) → Registry → ℕ → Option ℕ → Option Registry
unfolding delete_member after_leave
leave malloc r wchan none = some r
leave malloc r wchan (some a) = do
  left ← delete_member r a
  w ← left.wchan_at wchan
  after_leave malloc left wchan w.chname w.members

unfoldable pub delete_user_from_wchan : (Registry → ℕ) → Registry → ℕ → ℕ → Option Registry
unfolding leave
delete_user_from_wchan malloc r nptr wchan = find_member r wchan nptr >>= leave malloc r wchan

-- The loop of DeleteUserFromWchans over the memberships of the nick.
unfoldable pub delete_user_from_wchans_in : (Registry → ℕ) → Registry → ℕ → List ℕ → Option Registry
unfolding delete_user_from_wchan
delete_user_from_wchans_in malloc r nptr [] = some r
delete_user_from_wchans_in malloc r nptr (a ∷ as') = do
  m ← r.member_at a
  left ← delete_user_from_wchan malloc r nptr m.wchan
  delete_user_from_wchans_in malloc left nptr as'

unfoldable pub delete_user_from_wchans : (Registry → ℕ) → Registry → ℕ → Option Registry
unfolding delete_user_from_wchans_in
delete_user_from_wchans malloc r nptr = do
  nick ← r.nick_at nptr
  delete_user_from_wchans_in malloc r nptr nick.wchans

unfoldable pub delete_members : Registry → List ℕ → Option Registry
unfolding delete_member
delete_members r [] = some r
delete_members r (a ∷ as') = do deleted ← delete_member r a; delete_members deleted as'

unfoldable pub clear_wchans_in : Registry → Names → Option Registry
unfolding delete_members delete_wchan
clear_wchans_in r [] = some r
clear_wchans_in r ((_, wchan) ∷ names) = do
  w ← r.wchan_at wchan
  emptied ← delete_members r w.members
  cleared ← delete_wchan emptied wchan
  clear_wchans_in cleared names

unfoldable pub clear_wchans : Registry → Option Registry
unfolding clear_wchans_in
clear_wchans r = clear_wchans_in r r.wchans

-- The end of KickUser.
unfoldable pub leave_kicked : (Registry → ℕ) → Registry → ℕ → Option ℕ → Option Registry
unfolding delete_user_from_wchan
leave_kicked malloc r nptr none = some r
leave_kicked malloc r nptr (some wchan) = delete_user_from_wchan malloc r nptr wchan

unfoldable pub kick_found :
    (Registry → ℕ) → Registry → Str → Str → Str → Str → Option ℕ → Option Registry
unfolding leave_kicked
kick_found malloc r who nick chan reason none = some r
kick_found malloc r who nick chan reason (some nptr) = do
  nokick ← has_umode r (some nptr) umode_nokick
  if nokick
      then some r
      else leave_kicked malloc (send (kick who chan nick reason) r) nptr (find_wchan r (some chan))

unfoldable pub kick_user : (Registry → ℕ) → Registry → Str → Str → Str → Str → Option Registry
unfolding kick_found
kick_user malloc r who nick chan reason =
    find_nick r nick >>= kick_found malloc r who nick chan reason

abbrev pub chfl_op : ℕ
chfl_op = 0x1

abbrev pub chfl_halfop : ℕ
chfl_halfop = 0x2

abbrev pub chfl_voice : ℕ
chfl_voice = 0x4

abbrev pub chfl_protect : ℕ
chfl_protect = 0x8

abbrev pub chfl_owner : ℕ
chfl_owner = 0x10

-- One strcat of SetStatus.
abbrev mode_letter : ℕ → ℕ → ℕ → Str
mode_letter flag chfl letter = if has flag chfl then letter ∷ [] else []

-- The letters that SetStatus writes into `modes`; their number is `args`.
unfoldable pub status_modes : ℕ → Str
status_modes flag =
    mode_letter flag chfl_owner b'q'
    ++ mode_letter flag chfl_protect b'a'
    ++ mode_letter flag chfl_op b'o'
    ++ mode_letter flag chfl_halfop b'h'
    ++ mode_letter flag chfl_voice b'v'

-- The loop that fills `targ`, once for each letter.
unfoldable pub status_targets : Str → Str → Str
status_targets name [] = []
status_targets name (mode ∷ modes) = name ++ space ∷ status_targets name modes

-- SetChanFlag and ClearChanFlag.
unfoldable pub change_flags : Bool → ℕ → ℕ → ℕ
change_flags true flags flag = bit_or flags flag
change_flags false flags flag = flags - bit_and flags flag

unfoldable pub set_member_status :
    Registry → Nick → Str → ℕ → Bool → Str → Option ℕ → Option Registry
unfolding status_modes status_targets change_flags
set_member_status r nick chan flag what who none = some r
set_member_status r nick chan flag what who (some a) = do
  m ← r.member_at a
  let modes = status_modes flag
  let told = send (set_status who chan what modes (status_targets nick.name modes)) r
  some (record told {
    member_at = put told.member_at a (some (record m { flags = change_flags what m.flags flag }));
  })

unfoldable pub set_status_on : Registry → ℕ → Str → ℕ → Bool → Str → Option ℕ → Option Registry
unfolding set_member_status
set_status_on r nptr chan flag what who none = some r
set_status_on r nptr chan flag what who (some wchan) = do
  nick ← r.nick_at nptr
  found ← find_member r wchan nptr
  set_member_status r nick chan flag what who found

-- SetStatus of a nick that is not NULL.
unfoldable pub change_status : Registry → ℕ → Str → ℕ → Bool → Str → Option Registry
unfolding set_status_on
change_status r nptr chan flag what who =
    set_status_on r nptr chan flag what who (find_wchan r (some chan))
