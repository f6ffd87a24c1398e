-- ===== src/Accounts/Sync.antt =====
-- The modes that an access entry gives its user on the network, and the channels that no one uses:
-- sync_cflag and sync_user (src/user.c), IsAclOnChan and chansreg (src/channel.c).
use child.Prelude.{
  ℕ, Bool, true, false, not, Option, none, some, List, [], ◌∷◌, ◌==◌, ◌+◌, ◌&&◌, ◌||◌,
  if◌then◌else◌,
}
use child.Prelude.Int.{pos, lt_ℤ, le_ℤ, eq_ℤ}
use child.Prelude.Maybe.{◌>>=◌}
use child.Strings.{Str, str_eq, space}
use child.Uflags.{
  has, flags, chlev_owner, chlev_coowner, uflag_noop, uflag_autokick, uflag_autokickban,
  uflag_autoowner, uflag_autoprotect, uflag_autoop, uflag_autohalfop, uflag_autovoice,
}
use child.Registry.{
  Registry, Names, Nick, Chan, Cflag, Member, ban, send, find_nick, find_wchan, find_member,
  find_account, find_cflag, is_authed, copt_noauto, copt_axxflags,
}
use child.Access.{get_flag}
use child.Channels.{channel_botname, cflag_auto_on}
use child.Channels.Members.{
  change_status, kick_user, chfl_op, chfl_halfop, chfl_voice, chfl_protect, chfl_owner,
}

abbrev pub cflag_auto_off : ℕ
cflag_auto_off = 0

abbrev pub cflag_auto_voice : ℕ
cflag_auto_voice = 2

abbrev pub cflag_auto_op : ℕ
cflag_auto_op = 3

-- A status if a flag asks for it.
unfoldable pub give_if : Bool → ℕ → Str → ℕ → Str → Registry → Option Registry
give_if false nptr chname chfl bot r = some r
give_if true nptr chname chfl bot r = change_status r nptr chname chfl true bot

-- The comment of every kick of sync_cflag.
abbrev pub out_of_chan : Str
out_of_chan =
    b'G' ∷ b'e' ∷ b't' ∷ space ∷ b'o' ∷ b'u' ∷ b't' ∷ space ∷ b'o' ∷ b'f' ∷ space ∷ b't' ∷ b'h'
    ∷ b'i' ∷ b's' ∷ space ∷ b'c' ∷ b'h' ∷ b'a' ∷ b'n' ∷ space ∷ b'!' ∷ []

unfoldable pub clear_if : Bool → ℕ → Str → ℕ → Str → Registry → Option Registry
clear_if false nptr chname member bot r = some r
clear_if true nptr chname member bot r = do
  m ← r.member_at member
  change_status r nptr chname m.flags false bot

unfoldable pub kick_if : Bool → (Registry → ℕ) → Nick → Str → Str → Registry → Option Registry
kick_if false malloc nick chname bot r = some r
kick_if true malloc nick chname bot r = kick_user malloc r bot nick.name chname out_of_chan

-- A channel that goes by flags.
unfoldable pub sync_by_flags :
    (Registry → ℕ) → Registry → Cflag → ℕ → Nick → Str → Str → ℕ → Option Registry
unfolding give_if clear_if kick_if
sync_by_flags malloc r cflag nptr nick chname bot member = do
  r1 ← give_if (has cflag.uflags uflag_autoowner) nptr chname chfl_owner bot r
  r2 ← give_if (has cflag.uflags uflag_autoprotect) nptr chname chfl_protect bot r1
  r3 ← give_if (has cflag.uflags uflag_autoop) nptr chname chfl_op bot r2
  r4 ← give_if (has cflag.uflags uflag_autohalfop) nptr chname chfl_halfop bot r3
  r5 ← give_if (has cflag.uflags uflag_autovoice) nptr chname chfl_voice bot r4
  r6 ← clear_if (has cflag.uflags uflag_noop) nptr chname member bot r5
  r7 ← kick_if (has cflag.uflags uflag_autokick) malloc nick chname bot r6
  let akb = has cflag.uflags uflag_autokickban
  kick_if akb malloc nick chname bot
      (if akb then send (ban bot nick.name nick.hiddenhost) r7 else r7)

-- The status that a level and the automode ask for: CFLAG_AUTO_OP and CFLAG_AUTO_ON give `own` unless
-- the member has all of it, CFLAG_AUTO_VOICE gives a voice.
unfoldable pub give_by_automode :
    Registry → Cflag → ℕ → Str → Str → Bool → ℕ → Bool → Option Registry
unfolding give_if
give_by_automode r cflag nptr chname bot lacks own unvoiced =
    let full = (cflag.automode == cflag_auto_op || cflag.automode == cflag_auto_on) && lacks in
    let voice = not full && ((cflag.automode == cflag_auto_voice) && unvoiced) in
    give_if (full || voice) nptr chname (if full then own else chfl_voice) bot r

-- The last tests of a channel that goes by levels.
unfoldable pub sync_low_level :
    (Registry → ℕ) → Registry → Cflag → ℕ → Nick → Str → Str → Member → Option Registry
unfolding give_if kick_if
sync_low_level malloc r cflag nptr nick chname bot member =
    let l = r.config.levels in
    if le_ℤ l.chlev_voice cflag.flags
      && (lt_ℤ cflag.flags l.chlev_halfop && not (has member.flags chfl_voice))
    then give_if true nptr chname chfl_voice bot r
    else (if eq_ℤ cflag.flags l.chlev_akick
        then kick_if true malloc nick chname bot r
        else (if eq_ℤ cflag.flags l.chlev_akb
            then kick_if true malloc nick chname bot (send (ban bot nick.name nick.hiddenhost) r)
            else (if eq_ℤ cflag.flags l.chlev_nostatus
                then change_status r nptr chname member.flags false bot
                else some r)))

-- A channel that goes by levels, but for its last three tests.
unfoldable pub sync_by_level :
    (Registry → ℕ) → Registry → Cflag → ℕ → Nick → Str → Str → Member → Option Registry
unfolding give_by_automode sync_low_level
sync_by_level malloc r cflag nptr nick chname bot member =
    let l = r.config.levels in
    let lacks_op = not (has member.flags chfl_op) in
    let unvoiced = not (has member.flags chfl_voice) in
    if eq_ℤ cflag.flags chlev_owner || eq_ℤ cflag.flags chlev_coowner
    then give_by_automode r cflag nptr chname bot (not (has member.flags chfl_owner) || lacks_op)
        (flags (chfl_owner ∷ chfl_op ∷ [])) unvoiced
    else (if le_ℤ l.chlev_admin cflag.flags
        then give_by_automode r cflag nptr chname bot
            (not (has member.flags chfl_protect) || lacks_op) (flags (chfl_protect ∷ chfl_op ∷ []))
            unvoiced
        else (if le_ℤ l.chlev_op cflag.flags && lt_ℤ cflag.flags l.chlev_admin
            then give_by_automode r cflag nptr chname bot lacks_op chfl_op unvoiced
            else (if le_ℤ l.chlev_halfop cflag.flags && lt_ℤ cflag.flags l.chlev_op
                then give_by_automode r cflag nptr chname bot (not (has member.flags chfl_halfop))
                    chfl_halfop unvoiced
                else sync_low_level malloc r cflag nptr nick chname bot member)))

-- sync_cflag for a member of the channel.
unfoldable pub sync_member :
    (Registry → ℕ) → Registry → Cflag → Chan → ℕ → Option ℕ → Option Registry
unfolding sync_by_flags sync_by_level
sync_member malloc r cflag chan nptr none = some r
sync_member malloc r cflag chan nptr (some a) = do
  member ← r.member_at a
  nick ← r.nick_at nptr
  let by_flags = has chan.options copt_axxflags
  let idle =
      has chan.options copt_noauto
      || ((not by_flags && (cflag.automode == cflag_auto_off)) || cflag.suspended)
  let synced : Option Registry = (do
    bot ← channel_botname r chan
    if by_flags
        then sync_by_flags malloc r cflag nptr nick chan.channelname bot a
        else sync_by_level malloc r cflag nptr nick chan.channelname bot member)
  if idle then some r else synced

unfoldable pub sync_wchan :
    (Registry → ℕ) → Registry → Cflag → Chan → ℕ → Option ℕ → Option Registry
unfolding sync_member
sync_wchan malloc r cflag chan nptr none = some r
sync_wchan malloc r cflag chan nptr (some wchan) =
    find_member r wchan nptr >>= sync_member malloc r cflag chan nptr

unfoldable pub sync_nick : (Registry → ℕ) → Registry → Cflag → Chan → Option ℕ → Option Registry
unfolding sync_wchan
sync_nick malloc r cflag chan none = some r
sync_nick malloc r cflag chan (some nptr) =
    sync_wchan malloc r cflag chan nptr (find_wchan r (some chan.channelname))

unfoldable pub sync_cflag : (Registry → ℕ) → Registry → ℕ → Option Registry
unfolding sync_nick
sync_cflag malloc r a = do
  cflag ← r.cflag_at a
  chan ← r.chan_at cflag.chan
  user ← r.user_at cflag.user
  found ← find_nick r user.nick
  sync_nick malloc r cflag chan found

unfoldable pub sync_cflags : (Registry → ℕ) → Registry → List ℕ → Option Registry
unfolding sync_cflag
sync_cflags malloc r [] = some r
sync_cflags malloc r (a ∷ as') = do synced ← sync_cflag malloc r a; sync_cflags malloc synced as'

unfoldable pub sync_user : (Registry → ℕ) → Registry → ℕ → Option Registry
unfolding sync_cflags
sync_user malloc r uptr = do user ← r.user_at uptr; sync_cflags malloc r user.cflags

-- The test of IsAclOnChan on the flags of an entry.
unfoldable pub entry_uses : Registry → Option ℕ → Option Bool
entry_uses r none = some false
entry_uses r (some a) = do
  cflag ← r.cflag_at a
  some (not (has cflag.uflags (flags (uflag_noop ∷ uflag_autokick ∷ uflag_autokickban ∷ []))))

-- What IsAclOnChan says of a member's account.
unfoldable pub uses_channel : Registry → ℕ → ℕ → Option ℕ → Option Bool
unfolding entry_uses
uses_channel r fuel chptr none = some false
uses_channel r fuel chptr (some uptr) = do
  authed ← is_authed r uptr
  chan ← r.chan_at chptr
  let by_level : Option Bool = (do
    level ← get_flag r fuel (some uptr) (some chptr)
    some (lt_ℤ (pos 0) level))
  let by_flags : Option Bool = find_cflag r chptr uptr >>= entry_uses r
  if not authed then some false else (if has chan.options copt_axxflags then by_flags else by_level)

-- The loop of IsAclOnChan over the members.
unfoldable pub is_acl_on_chan_in : Registry → ℕ → ℕ → List ℕ → Option Bool
unfolding uses_channel
is_acl_on_chan_in r fuel chptr [] = some false
is_acl_on_chan_in r fuel chptr (a ∷ as') =
    let later = is_acl_on_chan_in r fuel chptr as' in
    do
      member ← r.member_at a
      account ← find_account r member.nick
      used ← uses_channel r fuel chptr account
      if used then some true else later

unfoldable pub is_acl_on_wchan : Registry → ℕ → ℕ → Option ℕ → Option Bool
unfolding is_acl_on_chan_in
is_acl_on_wchan r fuel chptr none = some false
is_acl_on_wchan r fuel chptr (some wchan) = do
  w ← r.wchan_at wchan
  is_acl_on_chan_in r fuel chptr w.members

unfoldable pub is_acl_on_chan : Registry → ℕ → ℕ → Option Bool
unfolding is_acl_on_wchan
is_acl_on_chan r fuel chptr = do
  chan ← r.chan_at chptr
  is_acl_on_wchan r fuel chptr (find_wchan r (some chan.channelname))

-- The loop of chansreg over the channels.
unfoldable pub chansreg_in : Registry → Str → Names → Option ℕ
chansreg_in r nick [] = some 0
chansreg_in r nick ((_, a) ∷ names) =
    let later = chansreg_in r nick names in
    do
      chan ← r.chan_at a
      count ← later
      some (if str_eq (some chan.owner) (some nick) then count + 1 else count)

unfoldable pub chansreg : Registry → Str → Option ℕ
unfolding chansreg_in
chansreg r nick = chansreg_in r nick r.chans
