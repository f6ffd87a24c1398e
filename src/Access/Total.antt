-- ===== src/Access/Total.antt =====
-- Every access check of a sound registry ends with an answer, if the links form no cycle.
use child.Prelude.{ℕ, ◌<◌, refl, Bool, true, false, Option, none, some}
use child.Prelude.Int.{ℤ, pos}
use child.Prelude.Maybe.{◌>>=◌}
use child.Strings.{Str}
use child.Uflags.{ChanLevels, has}
use child.Registry.{
  Registry, Cflag, copt_axxflags, umode_superadmin, is_authed, is_super_admin, find_nick, has_umode,
  find_cflag,
}
use child.Registry.Reads.{
  IsLive, Found, IsSound, find_cflag-Found, find_nick-Found, has_umode-total, is_super_admin-total,
}
use child.Access.{founder_entry, is_founder, super_admin_early, get_flag, get_flag_early}
use child.Access.Rights.{
  entry_right, channel_can, channel_can_protect, channel_can_op, channel_can_halfop,
  channel_can_voice, channel_can_invite, channel_can_set, channel_can_topic, channel_can_acl,
}
use child.Access.Acl.{
  read_acl_early, channel_can_read_acl, write_acl_entries, channel_can_write_acl, override_early,
  override_entries, channel_can_override, modify_entry, can_modify_uflag,
}
use child.Access.Follow.{Ranked, Ends, Ends-bind, Ends-if, follow-Ends}

module _ (r : Registry) (sound : IsSound r) (rank : ℕ → ℕ) (ranked : Ranked r rank) (c : ℕ)
    (channel : IsLive r.chan_at c) where
  super_admin_early-Ends : (u : ℕ) → IsLive r.user_at u → Ends (super_admin_early r u)
  super_admin_early-Ends u live =
      Ends-bind (is_super_admin r u) _ (is_super_admin-total r sound u live) (λ b _. (_, refl))

  chan-Ends : Ends (r.chan_at c)
  chan-Ends = channel

  has_umode-Ends : (name : Str) (umode : ℕ) → Ends (find_nick r name >>= (λ o. has_umode r o umode))
  has_umode-Ends name umode =
      let (o, searched, found) = find_nick-Found r sound name in
      rw searched (has_umode-total r sound o umode found)

  founder_entry-Ends :
      (u a : ℕ) (cflag : Cflag) → IsLive r.user_at u → Ends (founder_entry r c u a cflag)
  unfolding founder_entry
  founder_entry-Ends u a cflag (user, e) =
      let (o, searched, found) = find_nick-Found r sound user.nick in
      let (b, held) = has_umode-total r sound o umode_superadmin found in
      rw (e, searched, held) (Ends-bind (r.chan_at c) _ channel (λ chan _. (_, refl)))

  pub is_founder-Ends :
      (fuel u : ℕ) → IsLive r.user_at u → rank u < fuel → Ends (is_founder r fuel (some u) (some c))
  unfolding is_founder
  is_founder-Ends fuel u live h =
      follow-Ends r sound rank ranked fuel fuel false _ (founder_entry r c) c (λ v _. (none, refl))
        (λ v a cflag l _. founder_entry-Ends v a cflag l) u live h h

  entry_right-Ends :
      (fuel : ℕ) (by_flags : ℕ → Bool) (threshold : ChanLevels → ℤ) (u a : ℕ) (cflag : Cflag)
      → IsLive r.user_at u
      → rank u < fuel
      → Ends (entry_right r fuel by_flags threshold c u a cflag)
  unfolding entry_right
  entry_right-Ends fuel by_flags threshold u a cflag live h =
      Ends-if cflag.suspended (false, refl)
        (Ends-bind (r.chan_at c) _ channel (λ chan _.
          Ends-if (has chan.options copt_axxflags)
            (Ends-if (by_flags cflag.uflags) (true, refl) (is_founder-Ends fuel u live h))
            (_, refl)))

  channel_can-Ends :
      (by_flags : ℕ → Bool) (threshold : ChanLevels → ℤ) (fuel u : ℕ)
      → IsLive r.user_at u
      → rank u < fuel
      → Ends (channel_can by_flags threshold r fuel (some u) (some c))
  unfolding channel_can
  channel_can-Ends by_flags threshold fuel u live h =
      follow-Ends r sound rank ranked fuel fuel false (super_admin_early r)
        (entry_right r fuel by_flags threshold c) c super_admin_early-Ends
        (λ v a cflag l low. entry_right-Ends fuel by_flags threshold v a cflag l low) u live h h

  read_acl_early-Ends : (u : ℕ) → IsLive r.user_at u → Ends (read_acl_early r u)
  unfolding read_acl_early
  read_acl_early-Ends u live =
      Ends-bind (is_super_admin r u) _ (is_super_admin-total r sound u live)
        (λ b _. Ends-bind (r.user_at u) _ live (λ user _. (_, refl)))

  read_acl-Ends :
      (fuel u : ℕ)
      → IsLive r.user_at u
      → rank u < fuel
      → Ends (channel_can_read_acl r fuel (some u) (some c))
  unfolding channel_can_read_acl
  read_acl-Ends fuel u live h =
      follow-Ends r sound rank ranked fuel fuel false (read_acl_early r) _ c read_acl_early-Ends
        (λ v a cflag l low.
          Ends-if cflag.suspended (false, refl)
            (Ends-if _ (true, refl) (is_founder-Ends fuel v l low)))
        u live h h

  -- The search for the target's entry, and what is done with it.
  target-Ends :
      (target : ℕ) (k : Option ℕ → Option Bool)
      → IsLive r.user_at target
      → Ends (k none)
      → ((a : ℕ) → IsLive r.cflag_at a → Ends (k (some a)))
      → Ends (find_cflag r c target >>= k)
  target-Ends target k live missing present =
      let (o, searched, found) = find_cflag-Found r sound c target live in
      rw searched (by_entry o found)
    where
      by_entry : (o : Option ℕ) → Found r.cflag_at o → Ends (k o)
      by_entry none found = missing
      by_entry (some a) found = present a found

  write_acl_entries-Ends :
      (target a : ℕ) (cflag : Cflag)
      → IsLive r.user_at target
      → Ends (write_acl_entries r target c a cflag)
  unfolding write_acl_entries
  write_acl_entries-Ends target a cflag live =
      Ends-if _ (false, refl)
        (target-Ends target _ live (true, refl)
          (λ b there. Ends-bind (r.cflag_at b) _ there (λ cflag2 _. (_, refl))))

  write_acl-Ends :
      (fuel u target : ℕ)
      → IsLive r.user_at u
      → IsLive r.user_at target
      → rank u < fuel
      → Ends (channel_can_write_acl r fuel (some u) (some target) (some c))
  unfolding channel_can_write_acl
  write_acl-Ends fuel u target live other h =
      follow-Ends r sound rank ranked fuel fuel false (super_admin_early r) _ c
        super_admin_early-Ends
        (λ v a cflag l low.
          Ends-if cflag.suspended (false, refl)
            (Ends-bind (is_founder r fuel (some v) (some c)) _ (is_founder-Ends fuel v l low)
              (λ b _. Ends-if b (true, refl) (write_acl_entries-Ends target a cflag other))))
        u live h h

  override_entries-Ends :
      (fuel target u a : ℕ) (cflag : Cflag)
      → IsLive r.user_at target
      → IsLive r.user_at u
      → rank u < fuel
      → Ends (override_entries r fuel target c u a cflag)
  unfolding override_entries
  override_entries-Ends fuel target u a cflag other live h =
      target-Ends target _ other (true, refl)
        (λ b there. Ends-bind (r.cflag_at b) _ there (λ cflag2 _.
          Ends-if cflag.suspended (false, refl)
            (Ends-if cflag2.suspended (true, refl)
              (Ends-bind (is_founder r fuel (some u) (some c)) _ (is_founder-Ends fuel u live h)
                (λ f _. (_, refl))))))

  override_early-Ends :
      (target u : ℕ)
      → IsLive r.user_at target
      → IsLive r.user_at u
      → Ends (override_early r target u)
  unfolding override_early is_authed
  override_early-Ends target u other live =
      Ends-bind (is_super_admin r u) _ (is_super_admin-total r sound u live) (λ b _.
        Ends-bind (is_authed r target) _
          (Ends-bind (r.user_at target) _ other (λ user _. (_, refl))) (λ authed _. (_, refl)))

  override-Ends :
      (fuel u target : ℕ)
      → IsLive r.user_at u
      → IsLive r.user_at target
      → rank u < fuel
      → Ends (channel_can_override r fuel (some u) (some target) (some c))
  unfolding channel_can_override
  override-Ends fuel u target live other h =
      follow-Ends r sound rank ranked fuel fuel false (override_early r target) _ c
        (λ v l. override_early-Ends target v other l)
        (λ v a cflag l low. override_entries-Ends fuel target v a cflag other l low) u live h h

  get_flag_early-Ends : (u : ℕ) → IsLive r.user_at u → Ends (get_flag_early r (some c) u)
  unfolding get_flag_early
  get_flag_early-Ends u (user, e) =
      let (o, searched, found) = find_nick-Found r sound user.nick in
      let (b, held) = has_umode-total r sound o umode_superadmin found in
      rw (e, searched, held)
        (Ends-if b (_, refl) (Ends-bind (r.chan_at c) _ channel (λ chan _. (_, refl))))

  get_flag-Ends :
      (fuel u : ℕ) → IsLive r.user_at u → rank u < fuel → Ends (get_flag r fuel (some u) (some c))
  unfolding get_flag
  get_flag-Ends fuel u live h =
      follow-Ends r sound rank ranked fuel fuel (pos 0) (get_flag_early r (some c)) _ c
        get_flag_early-Ends (λ v a cflag l low. (_, refl)) u live h h

  modify_entry-Ends :
      (uflag : ℕ) (o : Option ℕ) → Found r.cflag_at o → Ends (modify_entry r uflag o)
  unfolding modify_entry
  modify_entry-Ends uflag none found = (0, refl)
  modify_entry-Ends uflag (some a) found = Ends-bind (r.cflag_at a) _ found (λ cflag _. (_, refl))

  can_modify_uflag-Ends : (u uflag : ℕ) → IsLive r.user_at u → Ends (can_modify_uflag r u c uflag)
  unfolding can_modify_uflag
  can_modify_uflag-Ends u uflag live =
      Ends-bind (is_super_admin r u) _ (is_super_admin-total r sound u live) (λ b _.
        Ends-if b (_, refl)
          (let (o, searched, found) = find_cflag-Found r sound c u live in
            rw searched (modify_entry-Ends uflag o found)))

-- Every access check ends with an answer.
abbrev pub AccessEnds : Registry → ℕ → ℕ → ℕ → ℕ → ℕ → Type 0
AccessEnds r fuel u target c uflag =
    Ends (is_founder r fuel (some u) (some c))
    × Ends (channel_can_protect r fuel (some u) (some c))
    × Ends (channel_can_op r fuel (some u) (some c))
    × Ends (channel_can_halfop r fuel (some u) (some c))
    × Ends (channel_can_voice r fuel (some u) (some c))
    × Ends (channel_can_invite r fuel (some u) (some c))
    × Ends (channel_can_set r fuel (some u) (some c))
    × Ends (channel_can_topic r fuel (some u) (some c))
    × Ends (channel_can_acl r fuel (some u) (some c))
    × Ends (channel_can_read_acl r fuel (some u) (some c))
    × Ends (channel_can_write_acl r fuel (some u) (some target) (some c))
    × Ends (channel_can_override r fuel (some u) (some target) (some c))
    × Ends (get_flag r fuel (some u) (some c))
    × Ends (can_modify_uflag r u c uflag)

-- In a sound registry whose links form no cycle, every access check on a live channel for a live user
-- ends with an answer, for a target that is live too: no search reads a freed object, and a fuel
-- above the rank of the user is enough.
pub access-Ends :
    (r : Registry) (rank : ℕ → ℕ) (c u target uflag fuel : ℕ)
    → IsSound r
    → Ranked r rank
    → IsLive r.chan_at c
    → IsLive r.user_at u
    → IsLive r.user_at target
    → rank u < fuel
    → AccessEnds r fuel u target c uflag
unfolding channel_can_protect channel_can_op channel_can_halfop channel_can_voice channel_can_invite
    channel_can_set channel_can_topic channel_can_acl
access-Ends r rank c u target uflag fuel sound ranked channel live other h = (
  is_founder-Ends r sound rank ranked c channel fuel u live h,
  channel_can-Ends r sound rank ranked c channel _ (λ l. l.chlev_admin) fuel u live h,
  channel_can-Ends r sound rank ranked c channel _ (λ l. l.chlev_op) fuel u live h,
  channel_can-Ends r sound rank ranked c channel _ (λ l. l.chlev_halfop) fuel u live h,
  channel_can-Ends r sound rank ranked c channel _ (λ l. l.chlev_voice) fuel u live h,
  channel_can-Ends r sound rank ranked c channel _ (λ l. l.chlev_invite) fuel u live h,
  channel_can-Ends r sound rank ranked c channel _ (λ l. l.chlev_sadmin) fuel u live h,
  channel_can-Ends r sound rank ranked c channel _ (λ l. l.chlev_op) fuel u live h,
  channel_can-Ends r sound rank ranked c channel _ (λ l. l.chlev_admin) fuel u live h,
  read_acl-Ends r sound rank ranked c channel fuel u live h,
  write_acl-Ends r sound rank ranked c channel fuel u target live other h,
  override-Ends r sound rank ranked c channel fuel u target live other h,
  get_flag-Ends r sound rank ranked c channel fuel u live h,
  can_modify_uflag-Ends r sound rank ranked c channel u uflag live,
)
