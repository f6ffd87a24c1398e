-- ===== src/Accounts/Resync.antt =====
-- acl_resync (src/channel.c): the members of a channel get what their access gives them.
use child.Prelude.{
  ℕ, zero, suc, false, not, ◌||◌, ◌==◌, Option, none, some, List, [], ◌∷◌, length, if◌then◌else◌,
}
use child.Prelude.Maybe.{◌>>=◌}
use child.Uflags.{has}
use child.Registry.{Registry, find_wchan, find_account, find_cflag, copt_noauto}
use child.Channels.{channel_botname}
use child.Channels.Members.{change_status}
use child.Accounts.Sync.{sync_cflag}

-- The member behind another one on the list.
unfoldable pub next_member : ℕ → List ℕ → Option ℕ
next_member m [] = none
next_member m (a ∷ []) = none
next_member m (a ∷ b ∷ as') = if a == m then some b else next_member m (b ∷ as')

-- A member without access loses the status that it has.
unfoldable pub drop_status : Registry → ℕ → ℕ → Option Registry
drop_status r chptr m = do
  chan ← r.chan_at chptr
  member ← r.member_at m
  bot ← channel_botname r chan
  change_status r member.nick chan.channelname member.flags false bot

-- The body of the loop.
unfoldable pub resync_member : (Registry → ℕ) → Registry → ℕ → ℕ → Option Registry
unfolding drop_status
resync_member malloc r chptr m = do
  member ← r.member_at m
  account ← find_account r member.nick
  elim account [
    | none ↦ some r
    | some uptr ↦ do
      user ← r.user_at uptr
      found ← find_cflag r chptr uptr
      elim found [
        | none ↦ drop_status r chptr m
        | some a ↦ do
          cflag ← r.cflag_at a
          let dropped : Option Registry = drop_status r chptr m
          let synced : Option Registry = sync_cflag malloc r a
          if not user.authed || cflag.suspended then dropped else synced
      ]
  ]

-- The loop from a member on. The next member is read through the one that the body may have kicked. The
-- fuel is the number of members, of which the body adds none.
unfoldable pub resync_from : (Registry → ℕ) → ℕ → Registry → ℕ → ℕ → Option ℕ → Option Registry
unfolding resync_member next_member
resync_from malloc fuel r chptr wchan none = some r
resync_from malloc zero r chptr wchan (some m) = none
resync_from malloc (suc fuel) r chptr wchan (some m) = do
  resynced ← resync_member malloc r chptr m
  still ← resynced.member_at m
  w ← resynced.wchan_at wchan
  resync_from malloc fuel resynced chptr wchan (next_member m w.members)

unfoldable pub acl_resync : (Registry → ℕ) → Registry → ℕ → Option Registry
unfolding resync_from
acl_resync malloc r chptr = do
  chan ← r.chan_at chptr
  let resynced : Option Registry = elim (find_wchan r (some chan.channelname)) [
    | none ↦ some r
    | some wchan ↦ do
      w ← r.wchan_at wchan
      resync_from malloc (length w.members) r chptr wchan
          (elim w.members [ [] ↦ none | m ∷ ms ↦ some m ])
  ]
  if has chan.options copt_noauto then some r else resynced
