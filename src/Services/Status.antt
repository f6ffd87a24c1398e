-- ===== src/Services/Status.antt =====
-- The commands of src/modules/m_chan.c that give or take a status on a channel: chan_op, chan_deop,
-- chan_voice, chan_halfop, chan_dehalfop and chan_devoice; chan_invite.
use child.Prelude.{ℕ, Bool, true, false, Option, none, some, ◌∷◌}
use child.Prelude.Maybe.{◌>>=◌}
use child.Strings.{Str, separate_word?}
use child.Notices.{
  Notice, access_denied, syntax_chan_op, syntax_chan_deop, syntax_chan_voice, syntax_chan_devoice,
  syntax_chan_halfop, syntax_chan_dehalfop, syntax_chan_invite,
}
use child.Registry.{Registry, invite, send, find_nick}
use child.Access.Rights.{channel_can_op, channel_can_halfop, channel_can_voice, channel_can_invite}
use child.Channels.{channel_botname}
use child.Channels.Members.{change_status, chfl_op, chfl_halfop, chfl_voice}
use child.Protocol.Identity.{if_found}
use child.Services.Rights.{Right, guarded, on_channel}

-- SetStatus through the bot of the channel.
unfoldable pub status_by_bot : Registry → ℕ → ℕ → Str → ℕ → Bool → Option Registry
status_by_bot r chptr nptr name flag what = do
  chan ← r.chan_at chptr
  bot ← channel_botname r chan
  change_status r nptr name flag what bot

-- The status of the nick that is named, or of the caller.
unfoldable pub status_of :
    Option Right → Registry → ℕ → ℕ → Option ℕ → ℕ → Str → ℕ → Bool → Option Str → Option Registry
unfolding status_by_bot guarded if_found
status_of others r fuel nptr uptr chptr name flag what (some (c ∷ target)) =
    let change : Option Registry =
      find_nick r (c ∷ target)
      >>= if_found r (λ nptr2. status_by_bot r chptr nptr2 name flag what) in
    elim others [
      | none ↦ change
      | some can ↦ guarded can access_denied r fuel nptr uptr chptr change
    ]
status_of others r fuel nptr uptr chptr name flag what _ = status_by_bot r chptr nptr name flag what

-- The text that the six commands share: what they ask of the caller, for others in addition, and the
-- status that they give or take.
unfoldable pub chan_status :
    Right
    → Option Right
    → Notice
    → ℕ
    → Bool
    → Registry
    → ℕ
    → ℕ
    → Option ℕ
    → Option ℕ
    → Option Str
    → Option Registry
unfolding status_of guarded on_channel
chan_status can others syntax flag what r fuel nptr uptr chptr all =
    let (arg3, rest) = separate_word? all in
    let (arg4, _) = separate_word? rest in
    on_channel syntax r nptr chptr arg3 (λ name c.
      guarded can access_denied r fuel nptr uptr c
        (status_of others r fuel nptr uptr c name flag what arg4))

-- A user command: the registry, the fuel for links, the caller with his account, the channel and the
-- rest of the line.
abbrev pub ChanCommand : Type 0
ChanCommand = Registry → ℕ → ℕ → Option ℕ → Option ℕ → Option Str → Option Registry

unfoldable pub chan_op : ChanCommand
unfolding chan_status
chan_op = chan_status channel_can_op none syntax_chan_op chfl_op true

unfoldable pub chan_deop : ChanCommand
unfolding chan_status
chan_deop = chan_status channel_can_op none syntax_chan_deop chfl_op false

unfoldable pub chan_voice : ChanCommand
unfolding chan_status
chan_voice =
    chan_status channel_can_voice (some channel_can_halfop) syntax_chan_voice chfl_voice true

unfoldable pub chan_halfop : ChanCommand
unfolding chan_status
chan_halfop =
    chan_status channel_can_halfop (some channel_can_op) syntax_chan_halfop chfl_halfop true

unfoldable pub chan_dehalfop : ChanCommand
unfolding chan_status
chan_dehalfop =
    chan_status channel_can_halfop (some channel_can_op) syntax_chan_dehalfop chfl_halfop false

unfoldable pub chan_devoice : ChanCommand
unfolding chan_status
chan_devoice =
    chan_status channel_can_voice (some channel_can_halfop) syntax_chan_devoice chfl_voice false

-- InviteUser of the caller.
unfoldable pub chan_invite : ChanCommand
unfolding guarded on_channel
chan_invite r fuel nptr uptr chptr all =
    let (arg3, _) = separate_word? all in
    on_channel syntax_chan_invite r nptr chptr arg3 (λ name c.
      guarded channel_can_invite access_denied r fuel nptr uptr c
        (do nick ← r.nick_at nptr; some (send (invite r.config.nick nick.name name) r)))
