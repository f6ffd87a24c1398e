-- ===== src/Services/Stranger.antt =====
-- One who has no right on a channel, and the commands on it (src/modules/m_chan.c).
use child.Prelude.{ℕ, ◌≡◌, refl, true, false, Option, none, some, [], ◌∷◌}
use child.Prelude.Int.{ℤ}
use child.Strings.{Str, separate_word?}
use child.Notices.{
  Notice, done, banlist_cleared, syntax_chan_op, syntax_chan_deop, syntax_chan_halfop,
  syntax_chan_dehalfop, syntax_chan_voice, syntax_chan_devoice, access_denied,
  access_denied_full_stop, syntax_chan_entrymsg, syntax_chan_clearchan, syntax_chan_clearmodes,
  syntax_chan_unbanall, syntax_chan_clearbans, syntax_chan_topic, syntax_chan_kick,
  syntax_chan_invite,
}
use child.Registry.{Registry, invite, clear_modes, clear_lists, clear_bans, send}
use child.Channels.Members.{chfl_op, chfl_halfop, chfl_voice}
use child.Prelude.Maybe.{◌>>=◌}
use child.Access.{is_founder}
use child.Access.Rights.{
  channel_can_op, channel_can_halfop, channel_can_voice, channel_can_set, channel_can_protect,
  channel_can_topic, channel_can_invite,
}
use child.Services.{notice_to_user}
use child.Services.Rights.{Right, has_right, guarded, if_registered}
use child.Services.Status.{
  chan_op, chan_deop, chan_voice, chan_halfop, chan_dehalfop, chan_devoice, chan_invite,
}
use child.Services.Options.{
  chan_set_private, chan_set_noauto, chan_set_avoice, chan_set_aop, chan_set_secure,
  chan_set_strictop, chan_set_mass, chan_set_protectops, chan_set_axxflags, chan_set_enftopic,
  chan_set_nojoin, chan_set_autolimit, chan_set_mlock, set_option,
}
use child.Services.Upkeep.{
  chan_entrymsg, chan_clearchan, chan_clearmodes, chan_unbanall, chan_clearbans, chan_topic,
  on_any_channel, set_entrymsg, topic_to, delete_timebans,
}
use child.Services.Kicks.{chan_kick, kick_target}
use child.Services.Refused.{OnlyNotice, guarded-refused, on_channel-refused, chan_status-refused}

-- A user without a right on a channel, which all the tests end with.
pub record IsStranger (r : Registry) (fuel : ℕ) (uptr : Option ℕ) (chptr : ℕ) : Type 0 where
  pub founder : is_founder r fuel uptr (some chptr) ≡ some false
  pub op : has_right channel_can_op r fuel uptr chptr ≡ some false
  pub halfop : has_right channel_can_halfop r fuel uptr chptr ≡ some false
  pub voice : has_right channel_can_voice r fuel uptr chptr ≡ some false
  pub set : has_right channel_can_set r fuel uptr chptr ≡ some false
  pub protect : has_right channel_can_protect r fuel uptr chptr ≡ some false
  pub topic : has_right channel_can_topic r fuel uptr chptr ≡ some false
  pub invite : has_right channel_can_invite r fuel uptr chptr ≡ some false

founder-has_right :
    (r : Registry) (fuel : ℕ) (uptr : Option ℕ) (chptr : ℕ)
    → is_founder r fuel uptr (some chptr) ≡ some false
    → has_right is_founder r fuel uptr chptr ≡ some false
unfolding has_right
founder-has_right r fuel uptr chptr h = rw h refl

on_any_channel-refused :
    (can : Right) (syntax : Notice) (r : Registry) (fuel nptr : ℕ) (uptr : Option ℕ) (chptr : ℕ)
    (ch : Option Str) (act : Str → ℕ → Option Registry)
    → has_right can r fuel uptr chptr ≡ some false
    → OnlyNotice r nptr (
        on_any_channel syntax r nptr
          (some chptr)
          ch
          (λ name c. guarded can access_denied_full_stop r fuel nptr uptr c (act name c)))
unfolding on_any_channel if_registered
on_any_channel-refused can syntax r fuel nptr uptr chptr none act h = (syntax, refl)
on_any_channel-refused can syntax r fuel nptr uptr chptr (some []) act h = (syntax, refl)
on_any_channel-refused can syntax r fuel nptr uptr chptr (some (c ∷ name)) act h = (
  access_denied_full_stop,
  guarded-refused can access_denied_full_stop r fuel nptr uptr chptr (act (c ∷ name) chptr) h,
)

module _ (malloc : Registry → ℕ) (atoi : Str → ℤ) (r : Registry) (fuel nptr : ℕ) (uptr : Option ℕ)
    (chptr : ℕ) (all : Option Str) (stranger : IsStranger r fuel uptr chptr) where
  set-refused :
      (act : Option Registry)
      → OnlyNotice r nptr (guarded channel_can_set access_denied r fuel nptr uptr chptr act)
  set-refused act = (
    access_denied,
    guarded-refused channel_can_set access_denied r fuel nptr uptr chptr act stranger.set,
  )

  -- A user without rights on a channel changes no status of its members.
  pub stranger-status :
      OnlyNotice r nptr (chan_op r fuel nptr uptr (some chptr) all)
      × OnlyNotice r nptr (chan_deop r fuel nptr uptr (some chptr) all)
      × OnlyNotice r nptr (chan_halfop r fuel nptr uptr (some chptr) all)
      × OnlyNotice r nptr (chan_dehalfop r fuel nptr uptr (some chptr) all)
      × OnlyNotice r nptr (chan_voice r fuel nptr uptr (some chptr) all)
      × OnlyNotice r nptr (chan_devoice r fuel nptr uptr (some chptr) all)
      × OnlyNotice r nptr (chan_kick malloc r fuel nptr uptr (some chptr) all)
      × OnlyNotice r nptr (chan_invite r fuel nptr uptr (some chptr) all)
  unfolding chan_op chan_deop chan_halfop chan_dehalfop chan_voice chan_devoice chan_kick
      chan_invite
  stranger-status = (
    chan_status-refused channel_can_op none syntax_chan_op chfl_op true r fuel nptr uptr chptr all
        stranger.op,
    chan_status-refused channel_can_op none syntax_chan_deop chfl_op false r fuel nptr uptr chptr
        all stranger.op,
    chan_status-refused channel_can_halfop (some channel_can_op) syntax_chan_halfop chfl_halfop true
        r fuel nptr uptr chptr all stranger.halfop,
    chan_status-refused channel_can_halfop (some channel_can_op) syntax_chan_dehalfop chfl_halfop
        false r fuel nptr uptr chptr all stranger.halfop,
    chan_status-refused channel_can_voice (some channel_can_halfop) syntax_chan_voice chfl_voice
        true r fuel nptr uptr chptr all stranger.voice,
    chan_status-refused channel_can_voice (some channel_can_halfop) syntax_chan_devoice chfl_voice
        false r fuel nptr uptr chptr all stranger.voice,
    on_channel-refused channel_can_halfop syntax_chan_kick access_denied r fuel nptr uptr chptr
        (separate_word? all).0
        (λ name c.
          kick_target malloc r fuel nptr uptr c (separate_word? (separate_word? all).1).0
            (separate_word? (separate_word? all).1).1)
        stranger.halfop,
    on_channel-refused channel_can_invite syntax_chan_invite access_denied r fuel nptr uptr chptr
        (separate_word? all).0
        (λ name c. do nick ← r.nick_at nptr; some (send (invite r.config.nick nick.name name) r))
        stranger.invite,
  )

  -- Nor does he change an option, the limit, the lock or the topic of the channel, or its lists.
  pub stranger-options :
      OnlyNotice r nptr (chan_set_private r fuel nptr uptr chptr all)
      × OnlyNotice r nptr (chan_set_noauto r fuel nptr uptr chptr all)
      × OnlyNotice r nptr (chan_set_avoice r fuel nptr uptr chptr all)
      × OnlyNotice r nptr (chan_set_aop r fuel nptr uptr chptr all)
      × OnlyNotice r nptr (chan_set_secure r fuel nptr uptr chptr all)
      × OnlyNotice r nptr (chan_set_strictop r fuel nptr uptr chptr all)
      × OnlyNotice r nptr (chan_set_mass r fuel nptr uptr chptr all)
      × OnlyNotice r nptr (chan_set_protectops r fuel nptr uptr chptr all)
      × OnlyNotice r nptr (chan_set_enftopic r fuel nptr uptr chptr all)
      × OnlyNotice r nptr (chan_set_axxflags r fuel nptr uptr chptr all)
      × OnlyNotice r nptr (chan_set_nojoin r fuel nptr uptr chptr all)
      × OnlyNotice r nptr (chan_set_autolimit malloc atoi r fuel nptr uptr chptr all)
      × OnlyNotice r nptr (chan_set_mlock r fuel nptr uptr chptr all)
  unfolding chan_set_private chan_set_noauto chan_set_avoice chan_set_aop chan_set_secure
      chan_set_strictop chan_set_mass chan_set_protectops chan_set_enftopic chan_set_axxflags
      chan_set_nojoin chan_set_autolimit chan_set_mlock set_option
  stranger-options = (
    set-refused _,
    set-refused _,
    set-refused _,
    set-refused _,
    set-refused _,
    set-refused _,
    set-refused _,
    set-refused _,
    set-refused _,
    (
      access_denied,
      guarded-refused is_founder access_denied r fuel nptr uptr chptr _
          (founder-has_right r fuel uptr chptr stranger.founder),
    ),
    set-refused _,
    set-refused _,
    set-refused _,
  )

  -- Nor its message at entry, its modes, its bans or its topic.
  pub stranger-upkeep :
      OnlyNotice r nptr (chan_entrymsg r fuel nptr uptr (some chptr) all)
      × OnlyNotice r nptr (chan_clearchan r fuel nptr uptr (some chptr) all)
      × OnlyNotice r nptr (chan_clearmodes r fuel nptr uptr (some chptr) all)
      × OnlyNotice r nptr (chan_unbanall r fuel nptr uptr (some chptr) all)
      × OnlyNotice r nptr (chan_clearbans r fuel nptr uptr (some chptr) all)
      × OnlyNotice r nptr (chan_topic r fuel nptr uptr (some chptr) all)
  unfolding chan_entrymsg chan_clearchan chan_clearmodes chan_unbanall chan_clearbans chan_topic
  stranger-upkeep = (
    on_channel-refused channel_can_set syntax_chan_entrymsg access_denied r fuel nptr uptr chptr
        (separate_word? all).0 (λ name c. set_entrymsg r nptr c name (separate_word? all).1)
        stranger.set,
    on_channel-refused channel_can_protect syntax_chan_clearchan access_denied r fuel nptr uptr
        chptr (separate_word? all).0
        (λ name c. notice_to_user (send (clear_lists name) (send (clear_modes name) r)) nptr done)
        stranger.protect,
    on_channel-refused channel_can_protect syntax_chan_clearmodes access_denied r fuel nptr uptr
        chptr (separate_word? all).0
        (λ name c. notice_to_user (send (clear_modes name) r) nptr done) stranger.protect,
    on_channel-refused channel_can_op syntax_chan_unbanall access_denied r fuel nptr uptr chptr
        (separate_word? all).0 (λ name c. notice_to_user (send (clear_bans name) r) nptr done)
        stranger.op,
    on_any_channel-refused channel_can_protect syntax_chan_clearbans r fuel nptr uptr chptr
        (separate_word? all).0
        (λ name c. do
          chan ← r.chan_at c
          cleared ← delete_timebans r chan.timebans
          notice_to_user cleared nptr banlist_cleared)
        stranger.protect,
    on_any_channel-refused channel_can_topic syntax_chan_topic r fuel nptr uptr chptr
        (separate_word? all).0 (λ name c. topic_to r nptr c name (separate_word? all).1)
        stranger.topic,
  )
