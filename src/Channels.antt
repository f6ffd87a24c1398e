-- ===== src/Channels.antt =====
-- The access lists and the channels: AddUserToChannel, DeleteCflag, DeleteUserFromChannel,
-- DeleteUsersFromChannel, DeleteUserFromChannels, CreateChannel, DeleteChannel, chandrop and
-- channel_botname (src/channel.c), PartChannel (src/channel.h). `malloc` gives the address of a new
-- object: the code does not test for NULL.
pub mod Members
pub mod Limits
pub mod Timebans
pub mod Balance
pub mod Linked
pub mod Drop
pub mod Parted
pub mod Emptied
pub mod Stale
pub mod Joined
pub mod Leave
pub mod Enter
use child.Prelude.{
  ℕ, zero, suc, Bool, true, false, not, Option, none, some, List, [], ◌∷◌, ◌++◌, ◌==◌, ◌+◌,
  if◌then◌else◌,
}
use child.Prelude.Int.{ℤ, pos}
use child.Prelude.Maybe.{◌>>=◌}
use child.Strings.{Str, strncpy}
use child.Uflags.{flags, uflag_chanowner, chlev_owner, get_uflags_from_level}
use child.Registry.{
  Registry, User, Chan, Cflag, Message, part, send, put, remove, erase_name, find_user,
  find_channel, find_cflag, copt_axxflags, copt_secure,
}

abbrev pub nicklen : ℕ
nicklen = 35

abbrev pub chanlen : ℕ
chanlen = 35

abbrev pub cflag_auto_on : ℕ
cflag_auto_on = 1

-- The nick of the bot that serves the channel.
unfoldable pub channel_botname : Registry → Chan → Option Str
channel_botname r chan = elim chan.chanbot [ none ↦ some r.config.nick | some b ↦ r.bot_nick b ]

-- `malloc` of an entry, and its insertion at the tail of both lists.
unfoldable pub add_user_to_channel :
    (Registry → ℕ) → Registry → ℕ → ℕ → ℤ → ℕ → Option (ℕ × Registry)
add_user_to_channel malloc r uptr chptr level uflags = do
  user ← r.user_at uptr
  chan ← r.chan_at chptr
  let new_cflag = malloc r
  let rights : ℕ = (if uflags == 0 then get_uflags_from_level r.config.levels level else uflags)
  some (
    new_cflag,
    record r {
      cflag_at = put r.cflag_at new_cflag (
          some (record {
            chan = chptr;
            user = uptr;
            flags = level;
            automode = cflag_auto_on;
            suspended = false;
            uflags = rights;
          }));
      user_at = put r.user_at uptr (some (record user { cflags = user.cflags ++ new_cflag ∷ [] }));
      chan_at = put r.chan_at chptr (some (record chan { cflags = chan.cflags ++ new_cflag ∷ [] }));
    },
  )

-- The entry leaves the lists of its channel and its user, and is freed.
unfoldable pub delete_cflag : Registry → ℕ → Option Registry
delete_cflag r a = do
  cflag ← r.cflag_at a
  chan ← r.chan_at cflag.chan
  user ← r.user_at cflag.user
  some (record r {
    chan_at = put r.chan_at cflag.chan (some (record chan { cflags = remove a chan.cflags }));
    user_at = put r.user_at cflag.user (some (record user { cflags = remove a user.cflags }));
    cflag_at = put r.cflag_at a none;
  })

-- The loop of DeleteUsersFromChannel and DeleteUserFromChannels over a list of entries.
unfoldable pub delete_cflags : Registry → List ℕ → Option Registry
unfolding delete_cflag
delete_cflags r [] = some r
delete_cflags r (a ∷ as') = do deleted ← delete_cflag r a; delete_cflags deleted as'

unfoldable pub delete_users_from_channel : Registry → ℕ → Option Registry
unfolding delete_cflags
delete_users_from_channel r chptr = do chan ← r.chan_at chptr; delete_cflags r chan.cflags

unfoldable pub delete_user_from_channels : Registry → ℕ → Option Registry
unfolding delete_cflags
delete_user_from_channels r uptr = do user ← r.user_at uptr; delete_cflags r user.cflags

unfoldable pub delete_found_cflag : Registry → Option ℕ → Option Registry
unfolding delete_cflag
delete_found_cflag r none = some r
delete_found_cflag r (some a) = delete_cflag r a

unfoldable pub delete_user_from_channel : Registry → ℕ → ℕ → Option Registry
unfolding delete_found_cflag
delete_user_from_channel r uptr chptr = find_cflag r chptr uptr >>= delete_found_cflag r

-- PartChannel after the end of the burst; before it nothing is sent.
unfoldable pub part_if : Bool → Registry → Chan → Option Registry
unfolding channel_botname
part_if false r chan = some r
part_if true r chan = do bot ← channel_botname r chan; some (send (part bot chan.channelname) r)

-- `if (get_core()->eos) PartChannel(chan);`
unfoldable pub part_channel : Registry → ℕ → Option Registry
unfolding part_if
part_channel r chptr = do chan ← r.chan_at chptr; part_if r.eos r chan

unfoldable pub delete_channel : Registry → ℕ → Option Registry
unfolding part_channel
delete_channel r chptr = do
  chan ← r.chan_at chptr
  parted ← part_channel (record r { chans = erase_name chan.channelname r.chans }) chptr
  some (record parted { chan_at = put parted.chan_at chptr none })

unfoldable pub chandrop : Registry → ℕ → Option Registry
unfolding part_channel delete_users_from_channel delete_channel
chandrop r chptr = do
  parted ← part_channel r chptr
  emptied ← delete_users_from_channel parted chptr
  delete_channel emptied chptr

-- The end of CreateChannel: the channel and its owner are looked up, and the owner is entered.
unfoldable pub enter_owner :
    (Registry → ℕ) → Registry → ℕ → Option ℕ → Option ℕ → Option (Option ℕ × Registry)
unfolding add_user_to_channel
enter_owner malloc r new_chan none owner = some (none, r)
enter_owner malloc r new_chan (some chan) none = some (none, r)
enter_owner malloc r new_chan (some chan) (some uptr) = do
  added ← add_user_to_channel malloc r uptr chan chlev_owner uflag_chanowner
  some (some new_chan, added.1)

-- CreateChannel behind the test for an entry of the same name.
unfoldable pub insert_channel :
    (Registry → ℕ) → Registry → Str → Str → ℕ → Option ℕ → Option (Option ℕ × Registry)
unfolding enter_owner
insert_channel malloc r name owner lastseen (some duplicate) = some (none, r)
insert_channel malloc r name owner lastseen none =
    let new_chan = malloc r in
    let key = strncpy chanlen name in
    let chan : Chan = record {
      channelname = key;
      owner = strncpy nicklen owner;
      options = flags (copt_axxflags ∷ copt_secure ∷ []);
      entrymsg = [];
      mlock = [];
      topic = [];
      autolimit = pos 0;
      lastseen = if lastseen == 0 then r.now else lastseen;
      regtime = 0;
      active_autolimit = none;
      cflags = [];
      chanbot = none;
      timebans = [];
    } in
    let inserted = record r {
      chans = r.chans ++ (key, new_chan) ∷ [];
      chan_at = put r.chan_at new_chan (some chan);
    } in
    enter_owner malloc inserted new_chan (find_channel inserted (some name))
      (find_user inserted (some owner))

unfoldable pub create_channel :
    (Registry → ℕ) → Registry → Str → Str → ℕ → Option (Option ℕ × Registry)
unfolding insert_channel
create_channel malloc r name owner lastseen =
    insert_channel malloc r name owner lastseen (find_channel r (some (strncpy chanlen name)))
