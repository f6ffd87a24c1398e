-- ===== src/Channels/Linked.antt =====
-- The access lists of a registry stay linked: AddUserToChannel, DeleteCflag, DeleteUsersFromChannel
-- and chandrop (src/channel.c).
use child.Prelude.{
  ℕ, ◌≡◌, refl, inl, inr, false, none, some, List, [], ◌∷◌, ◌++◌, ◌==◌, if◌then◌else◌, arith,
}
use child.Prelude.Int.{ℤ}
use child.Registry.{Registry, User, Chan, Cflag, put, remove}
use child.Registry.Reads.{IsLive}
use child.Channels.{add_user_to_channel, delete_cflag, cflag_auto_on}
use child.Uflags.{get_uflags_from_level}
use child.Channels.Balance.{
  Balanced, remove-Balanced, append-Balanced, put_cases, put-IsLive, freed_before,
}

abbrev pub user_of : Cflag → ℕ
user_of c = c.user

abbrev pub chan_of : Cflag → ℕ
chan_of c = c.chan

abbrev pub user_cflags : User → List ℕ
user_cflags user = user.cflags

abbrev pub chan_cflags : Chan → List ℕ
chan_cflags chan = chan.cflags

-- Every live entry stands once on the list of its live user and of its live channel, and the lists of
-- live users and channels hold nothing else.
pub record IsLinked (r : Registry) : Type 0 where
  pub users : Balanced user_cflags user_of r.user_at r.cflag_at
  pub chans : Balanced chan_cflags chan_of r.chan_at r.cflag_at
  pub has_user : (a : ℕ) (c : Cflag) → r.cflag_at a ≡ some c → IsLive r.user_at c.user
  pub has_chan : (a : ℕ) (c : Cflag) → r.cflag_at a ≡ some c → IsLive r.chan_at c.chan

-- What DeleteCflag leaves.
abbrev pub unlinked : Registry → ℕ → Cflag → Chan → User → Registry
unlinked r a c chan user = record r {
  chan_at = put r.chan_at c.chan (some (record chan { cflags = remove a chan.cflags }));
  user_at = put r.user_at c.user (some (record user { cflags = remove a user.cflags }));
  cflag_at = put r.cflag_at a none;
}

pub unlinked-IsLinked :
    (r : Registry) (a : ℕ) (c : Cflag) (chan : Chan) (user : User)
    → IsLinked r
    → r.cflag_at a ≡ some c
    → r.chan_at c.chan ≡ some chan
    → r.user_at c.user ≡ some user
    → IsLinked (unlinked r a c chan user)
unlinked-IsLinked r a c chan user linked at ce ue = record {
  users =
      remove-Balanced user_cflags user_of r.user_at r.cflag_at a c user
        (record user { cflags = remove a user.cflags }) linked.users at ue refl;
  chans =
      remove-Balanced chan_cflags chan_of r.chan_at r.cflag_at a c chan
        (record chan { cflags = remove a chan.cflags }) linked.chans at ce refl;
  has_user = λ b d h.
      put-IsLive r.user_at c.user d.user _ (linked.has_user b d (freed_before r.cflag_at a b d h));
  has_chan = λ b d h.
      put-IsLive r.chan_at c.chan d.chan _ (linked.has_chan b d (freed_before r.cflag_at a b d h));
}

pub delete_cflag-unlinked :
    (r : Registry) (a : ℕ) (c : Cflag) (chan : Chan) (user : User)
    → r.cflag_at a ≡ some c
    → r.chan_at c.chan ≡ some chan
    → r.user_at c.user ≡ some user
    → delete_cflag r a ≡ some (unlinked r a c chan user)
unfolding delete_cflag
delete_cflag-unlinked r a c chan user at ce ue = rw (at, ce, ue) refl

-- DeleteCflag of a live entry of a linked registry ends, frees the entry and leaves the registry
-- linked.
pub delete_cflag-IsLinked :
    (r : Registry) (a : ℕ) (c : Cflag)
    → IsLinked r
    → r.cflag_at a ≡ some c
    → (r' : Registry) × (delete_cflag r a ≡ some r') × IsLinked r' × (r'.cflag_at a ≡ none)
delete_cflag-IsLinked r a c linked at =
    let (user, ue) = linked.has_user a c at in
    let (chan, ce) = linked.has_chan a c at in
    (
      unlinked r a c chan user,
      delete_cflag-unlinked r a c chan user at ce ue,
      unlinked-IsLinked r a c chan user linked at ce ue,
      ground arith,
    )

-- What AddUserToChannel leaves.
abbrev pub entered : Registry → ℕ → Cflag → Chan → User → Registry
entered r a c chan user = record r {
  cflag_at = put r.cflag_at a (some c);
  user_at = put r.user_at c.user (some (record user { cflags = user.cflags ++ a ∷ [] }));
  chan_at = put r.chan_at c.chan (some (record chan { cflags = chan.cflags ++ a ∷ [] }));
}

pub entered-IsLinked :
    (r : Registry) (a : ℕ) (c : Cflag) (chan : Chan) (user : User)
    → IsLinked r
    → r.cflag_at a ≡ none
    → r.chan_at c.chan ≡ some chan
    → r.user_at c.user ≡ some user
    → IsLinked (entered r a c chan user)
entered-IsLinked r a c chan user linked fresh ce ue = record {
  users =
      append-Balanced user_cflags user_of r.user_at r.cflag_at a c user
        (record user { cflags = user.cflags ++ a ∷ [] }) linked.users fresh ue refl;
  chans =
      append-Balanced chan_cflags chan_of r.chan_at r.cflag_at a c chan
        (record chan { cflags = chan.cflags ++ a ∷ [] }) linked.chans fresh ce refl;
  has_user = λ b d h. put-IsLive r.user_at c.user d.user _ (elim (put_cases r.cflag_at a b c d h) [
    | inl (_, same) ↦ (user, rw (← same) ue)
    | inr (_, before) ↦ linked.has_user b d before
  ]);
  has_chan = λ b d h. put-IsLive r.chan_at c.chan d.chan _ (elim (put_cases r.cflag_at a b c d h) [
    | inl (_, same) ↦ (chan, rw (← same) ce)
    | inr (_, before) ↦ linked.has_chan b d before
  ]);
}

-- AddUserToChannel of a live user and a live channel of a linked registry ends, returns the new entry
-- and leaves the registry linked. The address that `malloc` returns holds no entry.
pub add_user_to_channel-IsLinked :
    (malloc : Registry → ℕ) (r : Registry) (uptr chptr : ℕ) (level : ℤ) (uflags : ℕ)
    → IsLinked r
    → r.cflag_at (malloc r) ≡ none
    → IsLive r.user_at uptr
    → IsLive r.chan_at chptr
    → (r' : Registry) × (add_user_to_channel malloc r uptr chptr level uflags ≡ some (malloc r, r'))
      × IsLinked r'
      × IsLive r'.cflag_at (malloc r)
unfolding add_user_to_channel
add_user_to_channel-IsLinked malloc r uptr chptr level uflags linked fresh (user, ue) (chan, ce) =
    let c : Cflag = record {
      chan = chptr;
      user = uptr;
      flags = level;
      automode = cflag_auto_on;
      suspended = false;
      uflags = if uflags == 0 then get_uflags_from_level r.config.levels level else uflags;
    } in
    (
      entered r (malloc r) c chan user,
      rw (ue, ce) refl,
      entered-IsLinked r (malloc r) c chan user linked fresh ce ue,
      (c, ground arith),
    )
