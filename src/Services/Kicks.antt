-- ===== src/Services/Kicks.antt =====
-- chan_kick (src/modules/m_chan.c).
use child.Prelude.{
  ℕ, Bool, false, not, ◌==◌, ◌||◌, ◌++◌, Option, none, some, List, [], ◌∷◌, if◌then◌else◌,
}
use child.Prelude.Int.{lt_ℤ}
use child.Prelude.Maybe.{◌>>=◌}
use child.Strings.{Str, str_eq, separate_word?}
use child.Uflags.{has}
use child.Notices.{access_denied, syntax_chan_kick, cannot_kick}
use child.Registry.{Registry, find_user, find_wchan, is_authed, has_umode, copt_axxflags}
use child.Access.{get_flag}
use child.Access.Rights.{channel_can_halfop}
use child.Access.Acl.{channel_can_override}
use child.Channels.{channel_botname}
use child.Channels.Members.{kick_user}
use child.Protocol.Umodes.{umode_oper}
use child.Services.{notice_to_user}
use child.Services.Rights.{guarded, on_channel}
use child.Services.Status.{ChanCommand}

-- `(nick) reason`, the comment of a kick that is asked for.
abbrev pub kick_reason : Str → Str → Str
kick_reason nick reason = b'(' ∷ (nick ++ b')' ∷ b' ' ∷ reason)

abbrev pub requested : Str
requested = b'R' ∷ b'e' ∷ b'q' ∷ b'u' ∷ b'e' ∷ b's' ∷ b't' ∷ b'e' ∷ b'd' ∷ []

abbrev pub dont_touch : Str
dont_touch =
    b'D' ∷ b'o' ∷ b'n' ∷ b'\'' ∷ b't' ∷ b' ' ∷ b't' ∷ b'o' ∷ b'u' ∷ b'c' ∷ b'h' ∷ b' ' ∷ b'!' ∷ []

abbrev pub kicking_all : Str
kicking_all =
    b'K' ∷ b'i' ∷ b'c' ∷ b'k' ∷ b'i' ∷ b'n' ∷ b'g' ∷ b' ' ∷ b'a' ∷ b'l' ∷ b'l' ∷ b' ' ∷ b'u' ∷ b's'
    ∷ b'e' ∷ b'r' ∷ b's' ∷ []

-- The loop of chan_kick over the members, but for the caller and the operators.
unfoldable pub kick_all : (Registry → ℕ) → Registry → ℕ → Str → Str → Str → List ℕ → Option Registry
kick_all malloc r nptr bot caller name [] = some r
kick_all malloc r nptr bot caller name (a ∷ as') = do
  member ← r.member_at a
  oper ← has_umode r (some member.nick) umode_oper
  nick ← r.nick_at member.nick
  let kicked : Option Registry =
      kick_user malloc r bot nick.name name (kick_reason caller kicking_all)
  left ← if (member.nick == nptr) || oper then some r else kicked
  kick_all malloc left nptr bot caller name as'

-- Whether the rank of the caller is too low to kick an account that is identified.
unfoldable pub kick_outranked : Registry → ℕ → Option ℕ → Option ℕ → ℕ → Option Bool
kick_outranked r fuel uptr none chptr = some false
kick_outranked r fuel uptr (some uptr2) chptr = do
  authed ← is_authed r uptr2
  chan ← r.chan_at chptr
  let by_flags : Option Bool = (do
    may ← channel_can_override r fuel uptr (some uptr2) (some chptr)
    some (not may))
  let by_level : Option Bool = (do
    mine ← get_flag r fuel uptr (some chptr)
    theirs ← get_flag r fuel (some uptr2) (some chptr)
    some (lt_ℤ mine theirs))
  if authed then (if has chan.options copt_axxflags then by_flags else by_level) else some false

-- The comment that is given, or `Requested`.
unfoldable pub reason_or_requested : Option Str → Str
reason_or_requested (some (c ∷ reason)) = c ∷ reason
reason_or_requested _ = requested

-- chan_kick of a nick that is neither the bot nor `*`.
unfoldable pub kick_named :
    (Registry → ℕ)
    → Registry
    → ℕ
    → ℕ
    → Option ℕ
    → ℕ
    → Str
    → Str
    → Str
    → Option Str
    → Option Registry
unfolding kick_outranked reason_or_requested notice_to_user
kick_named malloc r fuel nptr uptr chptr bot caller target reason = do
  chan ← r.chan_at chptr
  outranked ← kick_outranked r fuel uptr (find_user r (some target)) chptr
  let refused : Option Registry = notice_to_user r nptr (cannot_kick target)
  let kicked : Option Registry =
      kick_user malloc r bot target chan.channelname
        (kick_reason caller (reason_or_requested reason))
  if outranked then refused else kicked

-- The loop on the channel of the network, if there is one.
unfoldable pub kick_everyone :
    (Registry → ℕ) → Registry → ℕ → Str → Str → Str → Option ℕ → Option Registry
unfolding kick_all
kick_everyone malloc r nptr bot caller name none = some r
kick_everyone malloc r nptr bot caller name (some wchan) = do
  w ← r.wchan_at wchan
  kick_all malloc r nptr bot caller name w.members

-- chan_kick for the word behind the channel.
unfoldable pub kick_target :
    (Registry → ℕ) → Registry → ℕ → ℕ → Option ℕ → ℕ → Option Str → Option Str → Option Registry
unfolding kick_named kick_everyone
kick_target malloc r fuel nptr uptr chptr (some (c ∷ target)) reason = do
  chan ← r.chan_at chptr
  bot ← channel_botname r chan
  nick ← r.nick_at nptr
  let touched : Option Registry = kick_user malloc r bot nick.name chan.channelname dont_touch
  let all_kicked : Option Registry =
      kick_everyone malloc r nptr bot nick.name chan.channelname
        (find_wchan r (some chan.channelname))
  let one_kicked : Option Registry =
      kick_named malloc r fuel nptr uptr chptr bot nick.name (c ∷ target) reason
  if str_eq (some (c ∷ target)) (some bot)
      then touched
      else (if str_eq (some (c ∷ target)) (some (b'*' ∷ [])) then all_kicked else one_kicked)
kick_target malloc r fuel nptr uptr chptr _ reason = do
  chan ← r.chan_at chptr
  bot ← channel_botname r chan
  nick ← r.nick_at nptr
  kick_user malloc r bot nick.name chan.channelname (kick_reason nick.name requested)

unfoldable pub chan_kick : (Registry → ℕ) → ChanCommand
unfolding on_channel guarded kick_target
chan_kick malloc r fuel nptr uptr chptr all =
    let (arg3, rest) = separate_word? all in
    let (arg4, reason) = separate_word? rest in
    on_channel syntax_chan_kick r nptr chptr arg3 (λ name c.
      guarded channel_can_halfop access_denied r fuel nptr uptr c
        (kick_target malloc r fuel nptr uptr c arg4 reason))
