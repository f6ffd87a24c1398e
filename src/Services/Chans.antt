-- ===== src/Services/Chans.antt =====
-- Commands on a whole channel (src/modules/m_chan.c): chan_register, chan_drop, chan_entrymsg,
-- chan_clearchan, chan_clearmodes, chan_unbanall, chan_clearbans and chan_topic.
use child.Prelude.{ℕ, Bool, true, false, not, ◌==◌, Option, none, some, [], ◌∷◌, if◌then◌else◌}
use child.Prelude.Int.{pos, le_ℤ, lt_ℤ}
use child.Prelude.Maybe.{◌>>=◌}
use child.Strings.{Str, separate_word?}
use child.Uflags.{has}
use child.Notices.{
  access_denied, syntax_chan_register, syntax_chan_drop, chan_registered_already, too_many_channels,
  chan_empty, must_be_operator, chan_registered, chan_used_drop, chan_dropped,
}
use child.Registry.{Registry, globops, send, put, find_wchan, find_member}
use child.Access.{is_founder}
use child.Channels.{chandrop, create_channel}
use child.Channels.Members.{chfl_op}
use child.Accounts.Sync.{chansreg}
use child.Protocol.Rooms.{join_channel}
use child.Services.{notice_to_user}
use child.Services.Rights.{on_channel}
use child.Services.Status.{ChanCommand}
use child.Services.Options.{is_services_oper}

-- `!member || !HasOp(member)`
unfoldable pub lacks_op : Registry → Option ℕ → Option Bool
lacks_op r none = some true
lacks_op r (some a) = do member ← r.member_at a; some (not (has member.flags chfl_op))

-- chan_register from the call of CreateChannel on, which may return NULL.
unfoldable pub register_channel : (Registry → ℕ) → Registry → ℕ → Option ℕ → Str → Option Registry
unfolding notice_to_user join_channel
register_channel malloc r nptr uptr name = do
  u ← uptr
  user ← r.user_at u
  created ← create_channel malloc r name user.nick 0
  nchptr ← created.0
  chan ← created.1.chan_at nchptr
  let dated : Registry = record created.1 {
    chan_at = put created.1.chan_at nchptr (some (record chan { regtime = created.1.now }));
  }
  joined ← join_channel dated r.config.nick name
  notice_to_user joined nptr chan_registered

-- chan_register for the channel of the network, which must have the caller as an operator.
unfoldable pub register_in :
    (Registry → ℕ) → Registry → ℕ → Option ℕ → Str → Option ℕ → Option Registry
unfolding lacks_op register_channel notice_to_user
register_in malloc r nptr uptr name none = notice_to_user r nptr chan_empty
register_in malloc r nptr uptr name (some wchan) = do
  member ← find_member r wchan nptr
  lacks ← lacks_op r member
  let refused : Option Registry = notice_to_user r nptr must_be_operator
  let registered : Option Registry = register_channel malloc r nptr uptr name
  if lacks then refused else registered

-- The bound on the channels of one owner, which operators of the services do not have.
unfoldable pub too_many : Registry → ℕ → Option ℕ → Option Bool
too_many r nptr uptr = do
  nick ← r.nick_at nptr
  owned ← chansreg r nick.name
  let by_level : Option Bool = (do
    u ← uptr
    user ← r.user_at u
    some (lt_ℤ user.level r.config.level_oper))
  if le_ℤ r.config.chanperuser (pos owned) then by_level else some false

-- chan_register for a name that begins with `#`.
unfoldable pub register_named :
    (Registry → ℕ) → Registry → ℕ → Option ℕ → Option ℕ → Str → Option Registry
unfolding too_many register_in notice_to_user
register_named malloc r nptr uptr (some chptr) name = notice_to_user r nptr chan_registered_already
register_named malloc r nptr uptr none name = do
  many ← too_many r nptr uptr
  let refused : Option Registry = notice_to_user r nptr (too_many_channels r.config.chanperuser)
  let registered : Option Registry = register_in malloc r nptr uptr name (find_wchan r (some name))
  if many then refused else registered

unfoldable pub chan_register : (Registry → ℕ) → ChanCommand
unfolding register_named notice_to_user
chan_register malloc r fuel nptr uptr chptr all =
    let misused : Option Registry = notice_to_user r nptr syntax_chan_register in
    elim ((separate_word? all).0) [
      | none ↦ misused
      | some [] ↦ misused
      | some (c ∷ name) ↦
          let registered : Option Registry = register_named malloc r nptr uptr chptr (c ∷ name) in
          if c == b'#' then registered else misused
    ]

-- `IsFounder(uptr,chptr)`, or else `uptr->level >= level_oper && IsOper(nptr)`; and which of the two.
unfoldable pub may_drop : Registry → ℕ → ℕ → Option ℕ → ℕ → Option (Bool × Bool)
unfolding is_services_oper
may_drop r fuel nptr uptr chptr = do
  founder ← is_founder r fuel uptr (some chptr)
  let by_oper : Option (Bool × Bool) = (do oper ← is_services_oper r nptr uptr; some (oper, oper))
  if founder then some (true, false) else by_oper

unfoldable pub chan_drop : ChanCommand
unfolding may_drop on_channel notice_to_user
chan_drop r fuel nptr uptr chptr all =
    let (arg3, _) = separate_word? all in
    on_channel syntax_chan_drop r nptr chptr arg3 (λ name c. do
      nick ← r.nick_at nptr
      may ← may_drop r fuel nptr uptr c
      let told : Registry = (if may.1 then send (globops (chan_used_drop nick.name name)) r else r)
      let dropped : Option Registry = (do
        out ← chandrop told c
        notice_to_user out nptr chan_dropped)
      let refused : Option Registry = notice_to_user r nptr access_denied
      if may.0 then dropped else refused)
