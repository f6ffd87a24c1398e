-- ===== src/Access/Rights.antt =====
-- ChannelCanProtect, Op, Halfop, Voice, Invite, Set, Topic and ACL (src/channel.c).
use child.Prelude.{ℕ, Bool, true, false, ◌||◌, Option, none, some, if◌then◌else◌}
use child.Prelude.Int.{ℤ, le_ℤ}
use child.Prelude.Maybe.{◌>>=◌}
use child.Uflags.{
  has, ChanLevels, uflag_op, uflag_voice, uflag_acl, uflag_invite, uflag_topic, uflag_halfop,
  uflag_set, uflag_protect,
}
use child.Registry.{Registry, Cflag, copt_axxflags}
use child.Access.{follow, super_admin_early, is_founder}

-- The end of most ChannelCan functions: a suspended entry, the flags of a channel that goes by flags
-- (or the founder's right), and the level otherwise.
unfoldable pub entry_right :
    Registry → ℕ → (ℕ → Bool) → (ChanLevels → ℤ) → ℕ → ℕ → ℕ → Cflag → Option Bool
entry_right r fuel by_flags threshold chptr uptr _ cflag =
    let founder = is_founder r fuel (some uptr) (some chptr) in
    let by_channel : Option Bool = (do
      chan ← r.chan_at chptr
      if has chan.options copt_axxflags
          then (if by_flags cflag.uflags then some true else founder)
          else some (le_ℤ (threshold r.config.levels) cflag.flags)) in
    if cflag.suspended then some false else by_channel

-- The common text of ChannelCanProtect, Op, Halfop, Voice, Invite, Set, Topic and ACL, which differ
-- in the flags and in the level that they ask for.
unfoldable pub channel_can :
    (ℕ → Bool) → (ChanLevels → ℤ) → Registry → ℕ → Option ℕ → Option ℕ → Option Bool
unfolding follow entry_right
channel_can by_flags threshold r fuel uptr none = some false
channel_can by_flags threshold r fuel uptr (some chptr) =
    follow r fuel false (super_admin_early r) (entry_right r fuel by_flags threshold chptr) chptr
      uptr

unfoldable pub channel_can_protect : Registry → ℕ → Option ℕ → Option ℕ → Option Bool
unfolding channel_can
channel_can_protect = channel_can (λ u. has u uflag_protect) (λ l. l.chlev_admin)

unfoldable pub channel_can_op : Registry → ℕ → Option ℕ → Option ℕ → Option Bool
unfolding channel_can
channel_can_op = channel_can (λ u. has u uflag_op) (λ l. l.chlev_op)

unfoldable pub channel_can_halfop : Registry → ℕ → Option ℕ → Option ℕ → Option Bool
unfolding channel_can
channel_can_halfop = channel_can (λ u. has u uflag_halfop || has u uflag_op) (λ l. l.chlev_halfop)

unfoldable pub channel_can_voice : Registry → ℕ → Option ℕ → Option ℕ → Option Bool
unfolding channel_can
channel_can_voice =
    channel_can (λ u. has u uflag_voice || (has u uflag_halfop || has u uflag_op))
      (λ l. l.chlev_voice)

unfoldable pub channel_can_invite : Registry → ℕ → Option ℕ → Option ℕ → Option Bool
unfolding channel_can
channel_can_invite = channel_can (λ u. has u uflag_invite) (λ l. l.chlev_invite)

unfoldable pub channel_can_set : Registry → ℕ → Option ℕ → Option ℕ → Option Bool
unfolding channel_can
channel_can_set = channel_can (λ u. has u uflag_set) (λ l. l.chlev_sadmin)

unfoldable pub channel_can_topic : Registry → ℕ → Option ℕ → Option ℕ → Option Bool
unfolding channel_can
channel_can_topic = channel_can (λ u. has u uflag_topic) (λ l. l.chlev_op)

unfoldable pub channel_can_acl : Registry → ℕ → Option ℕ → Option ℕ → Option Bool
unfolding channel_can
channel_can_acl = channel_can (λ u. has u uflag_acl) (λ l. l.chlev_admin)
