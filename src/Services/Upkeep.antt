-- ===== src/Services/Upkeep.antt =====
-- Commands on what a channel says and on its modes (src/modules/m_chan.c): chan_entrymsg,
-- chan_clearchan, chan_clearmodes, chan_unbanall, chan_clearbans, chan_topic and
-- chan_resync.
use child.Prelude.{ℕ, ◌++◌, Option, some, List, [], ◌∷◌}
use child.Prelude.Maybe.{◌>>=◌}
use child.Strings.{Str, strncpy, separate_word?}
use child.Notices.{
  Notice, access_denied, access_denied_full_stop, done, syntax_chan_entrymsg, syntax_chan_clearchan,
  syntax_chan_clearmodes, syntax_chan_unbanall, syntax_chan_clearbans, syntax_chan_topic,
  syntax_chan_resync, chan_resynced, chan_does_not_exist, entrymsg_removed, entrymsg_set,
  banlist_cleared, topic_cleared,
}
use child.Registry.{Registry, Nick, clear_modes, clear_lists, clear_bans, service_topic, send, put}
use child.Access.Rights.{channel_can_set, channel_can_protect, channel_can_op, channel_can_topic}
use child.Channels.{channel_botname}
use child.Channels.Timebans.{delete_timeban}
use child.Protocol.Rooms.{topiclen}
use child.Accounts.Resync.{acl_resync}
use child.Services.{notice_to_user}
use child.Services.Rights.{guarded, if_registered, on_channel}
use child.Services.Status.{ChanCommand}

abbrev pub entrymsglen : ℕ
entrymsglen = 249

-- chan_entrymsg for what follows the channel.
unfoldable pub set_entrymsg : Registry → ℕ → ℕ → Str → Option Str → Option Registry
unfolding notice_to_user
set_entrymsg r nptr chptr name (some (c ∷ text)) = do
  chan ← r.chan_at chptr
  notice_to_user
      (record r {
        chan_at =
            put r.chan_at chptr (some (record chan { entrymsg = strncpy entrymsglen (c ∷ text) }));
      })
      nptr (entrymsg_set name)
set_entrymsg r nptr chptr name _ = do
  chan ← r.chan_at chptr
  notice_to_user (record r { chan_at = put r.chan_at chptr (some (record chan { entrymsg = [] })) })
      nptr (entrymsg_removed name)

unfoldable pub chan_entrymsg : ChanCommand
unfolding on_channel guarded set_entrymsg
chan_entrymsg r fuel nptr uptr chptr all =
    let (arg3, rest) = separate_word? all in
    on_channel syntax_chan_entrymsg r nptr chptr arg3 (λ name c.
      guarded channel_can_set access_denied r fuel nptr uptr c (set_entrymsg r nptr c name rest))

unfoldable pub chan_clearchan : ChanCommand
unfolding on_channel guarded notice_to_user
chan_clearchan r fuel nptr uptr chptr all =
    let (arg3, _) = separate_word? all in
    on_channel syntax_chan_clearchan r nptr chptr arg3 (λ name c.
      guarded channel_can_protect access_denied r fuel nptr uptr c
        (notice_to_user (send (clear_lists name) (send (clear_modes name) r)) nptr done))

unfoldable pub chan_clearmodes : ChanCommand
unfolding on_channel guarded notice_to_user
chan_clearmodes r fuel nptr uptr chptr all =
    let (arg3, _) = separate_word? all in
    on_channel syntax_chan_clearmodes r nptr chptr arg3 (λ name c.
      guarded channel_can_protect access_denied r fuel nptr uptr c
        (notice_to_user (send (clear_modes name) r) nptr done))

unfoldable pub chan_unbanall : ChanCommand
unfolding on_channel guarded notice_to_user
chan_unbanall r fuel nptr uptr chptr all =
    let (arg3, _) = separate_word? all in
    on_channel syntax_chan_unbanall r nptr chptr arg3 (λ name c.
      guarded channel_can_op access_denied r fuel nptr uptr c
        (notice_to_user (send (clear_bans name) r) nptr done))

-- `if (!ch || *ch == '\0')` and `if (!chptr)` of the commands that take any name.
unfoldable pub on_any_channel :
    Notice → Registry → ℕ → Option ℕ → Option Str → (Str → ℕ → Option Registry) → Option Registry
unfolding notice_to_user if_registered
on_any_channel syntax r nptr chptr (some (c ∷ name)) act =
    if_registered r nptr (chan_does_not_exist (c ∷ name)) chptr (act (c ∷ name))
on_any_channel syntax r nptr chptr _ act = notice_to_user r nptr syntax

-- The loop of chan_clearbans over the timebans of the channel.
unfoldable pub delete_timebans : Registry → List ℕ → Option Registry
unfolding delete_timeban
delete_timebans r [] = some r
delete_timebans r (a ∷ as') = do deleted ← delete_timeban r a; delete_timebans deleted as'

unfoldable pub chan_clearbans : ChanCommand
unfolding on_any_channel guarded delete_timebans notice_to_user
chan_clearbans r fuel nptr uptr chptr all =
    let (ch, _) = separate_word? all in
    on_any_channel syntax_chan_clearbans r nptr chptr ch (λ name c.
      guarded channel_can_protect access_denied_full_stop r fuel nptr uptr c (do
        chan ← r.chan_at c
        cleared ← delete_timebans r chan.timebans
        notice_to_user cleared nptr banlist_cleared))

-- `nick!ident@host`, with the hidden host.
abbrev pub hidden_mask : Nick → Str
hidden_mask nick = nick.name ++ b'!' ∷ (nick.ident ++ b'@' ∷ nick.hiddenhost)

-- chan_topic for the topic: the new one, what is sent and what the caller is told.
unfoldable pub change_topic : Registry → ℕ → ℕ → Str → Str → Notice → Option Registry
unfolding notice_to_user
change_topic r nptr chptr name topic text = do
  chan ← r.chan_at chptr
  nick ← r.nick_at nptr
  bot ← channel_botname r chan
  let changed : Registry = record r {
    chan_at = put r.chan_at chptr (some (record chan { topic = strncpy topiclen topic }));
  }
  notice_to_user (send (service_topic bot name (hidden_mask nick) r.now topic) changed) nptr text

unfoldable pub topic_to : Registry → ℕ → ℕ → Str → Option Str → Option Registry
unfolding change_topic
topic_to r nptr chptr name (some (c ∷ topic)) = change_topic r nptr chptr name (c ∷ topic) done
topic_to r nptr chptr name _ = change_topic r nptr chptr name [] topic_cleared

unfoldable pub chan_topic : ChanCommand
unfolding on_any_channel guarded topic_to
chan_topic r fuel nptr uptr chptr all =
    let (ch, rest) = separate_word? all in
    on_any_channel syntax_chan_topic r nptr chptr ch (λ name c.
      guarded channel_can_topic access_denied_full_stop r fuel nptr uptr c
        (topic_to r nptr c name rest))

unfoldable pub chan_resync : (Registry → ℕ) → ChanCommand
unfolding on_any_channel guarded notice_to_user
chan_resync malloc r fuel nptr uptr chptr all =
    let (ch, _) = separate_word? all in
    on_any_channel syntax_chan_resync r nptr chptr ch (λ name c.
      guarded channel_can_protect access_denied r fuel nptr uptr c
        (do resynced ← acl_resync malloc r c; notice_to_user resynced nptr chan_resynced))
