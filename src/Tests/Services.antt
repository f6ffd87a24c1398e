-- ===== src/Tests/Services.antt =====
-- The user commands at concrete inputs: who may call them, what a stranger gets, and the bounds on
-- passwords and messages.
use child.Prelude.{true, false, ◌≡◌, ◌+◌, ◌≤◌, refl, none, some, [], ◌∷◌, arith}
use child.Prelude.Maybe.{◌>>=◌}
use child.Prelude.Int.{pos}
use child.Strings.{Str, strcmp, str_eq, strcasecmp, tolower}
use child.Registry.{
  Registry, Nick, Chan, put, find_nick, find_nick_in, find_channel, find_cflag, find_cflag_in,
  is_super_admin, has_umode, get_link_master, find_link, find_in_names, link_master, find_user,
}
use child.Access.{follow, on_entry, unless_answered, founder_entry, is_founder}
use child.Access.Rights.{
  channel_can, entry_right, channel_can_op, channel_can_halfop, channel_can_voice, channel_can_set,
  channel_can_protect, channel_can_topic, channel_can_invite,
}
use child.Commands.{Command, Commands, cmd_nick}
use child.Services.{is_of_type, serve}
use child.Services.Attempts.{wrong_attempts, wrong_attempts-counted}
use child.Services.Authorised.{Served, serve-Served}
use child.Services.Refused.{OnlyNotice}
use child.Services.Rights.{has_right}
use child.Services.Status.{
  chan_op, chan_deop, chan_voice, chan_halfop, chan_dehalfop, chan_devoice, chan_invite,
}
use child.Services.Options.{
  chan_set_private, chan_set_noauto, chan_set_avoice, chan_set_aop, chan_set_secure,
  chan_set_strictop, chan_set_mass, chan_set_protectops, chan_set_axxflags, chan_set_enftopic,
  chan_set_nojoin, chan_set_autolimit, chan_set_mlock,
}
use child.Services.Upkeep.{
  chan_entrymsg, chan_clearchan, chan_clearmodes, chan_unbanall, chan_clearbans, chan_topic,
}
use child.Services.Kicks.{chan_kick}
use child.Services.Stranger.{IsStranger, stranger-status, stranger-options, stranger-upkeep}
use child.Protocol.Flood.{count_from, throttle}
use child.Protocol.Bound.{passed, passed-bounded}
use child.Protocol.Chanmodes.{locked_by, mode_wchan}
use child.Protocol.Faults.{absent-status}
use child.Protocol.Signs.{Signed, text}
use child.Protocol.Heard.{after, after-heard}
use child.Accounts.Passwords.{Hashing, set_user_password, check_user_password}
use child.Accounts.Verify.{set_user_password-check_user_password}
use child.Protocol.Modes.{letter_status}
use child.Tests.House.{house, chan, user, first}
use child.Tests.Rooms.{guest}

-- A change that gives the modes n and i and takes s, and a lock that takes n and t.
abbrev change_modes : Signed
change_modes = (true, b'n' ∷ b'i' ∷ [], some (b's' ∷ []))

abbrev lock_modes : Signed
lock_modes = (false, b'n' ∷ b't' ∷ [], none)

abbrev locked_chan : Chan
locked_chan = record chan { mlock = text lock_modes }

after-heard_example :
    ((throttle house.config 71 (after house.config guest (1 ∷ 2 ∷ 3 ∷ 4 ∷ 5 ∷ 6 ∷ []))).0 ≡ false)
    × ((throttle house.config 71 (after house.config guest (1 ∷ 2 ∷ 3 ∷ 4 ∷ 5 ∷ 6 ∷ []))).1.ignored
        ≡ false)
after-heard_example =
    after-heard house.config 10 60 6 refl refl guest (1 ∷ 2 ∷ 3 ∷ 4 ∷ 5 ∷ 6 ∷ []) 71
      (omega arith, omega arith) (omega arith) (omega arith) (omega arith)

-- A hash that is the password.
abbrev plain : Hashing
plain = record { md5_hash = λ p. p; pwhash_str = λ r p. p; pwhash_str_verify = strcmp }

set_user_password-check_user_password_example :
    (set : Registry) × (set_user_password plain house 1 (b'p' ∷ []) ≡ some set)
    × ((q : Str) → check_user_password plain set (some 1) q ≡ some (strcmp (b'p' ∷ []) q, set))
set_user_password-check_user_password_example =
    set_user_password-check_user_password plain house 1 (user first (10 ∷ [])) (b'p' ∷ [])
      (λ r p q. refl) refl

passed-bounded_example : passed house.config (count_from 5 guest) (6 ∷ 7 ∷ 8 ∷ 9 ∷ 10 ∷ []) + 1 ≤ 4
passed-bounded_example =
    passed-bounded house.config 10 4 60 5 refl refl refl (omega arith) (omega arith) guest
      (6 ∷ 7 ∷ 8 ∷ 9 ∷ 10 ∷ []) refl (omega arith) (omega arith)

-- A guest who has tried five passwords, the first of them long ago.
abbrev late_guest : Nick
late_guest = record guest { loginattempts = 5; lasttry = 10 }

abbrev late_house : Registry
late_house = record house { nick_at = λ a. some late_guest }

wrong_attempts-counted_example :
    (r' : Registry) × (wrong_attempts (λ r. 9) 100 late_house 1 ≡ some r')
    × (r'.nick_at 1 ≡ some (record late_guest { loginattempts = late_guest.loginattempts + 100 }))
    × (r'.nicks ≡ late_house.nicks)
wrong_attempts-counted_example =
    wrong_attempts-counted (λ r. 9) 100 late_house 1 late_guest
      (record {
        bound = 3;
        max = refl;
        here = refl;
        many = omega arith;
        counting = omega arith;
        late = omega arith;
      })

abbrev info : Command
info = record { name = b'i' ∷ []; desc = []; type = cmd_nick; subtype = 0; level = pos 0; func = 7 }

abbrev table : Commands
table = record { list = 4 ∷ []; command_at = λ a. some info }

-- What the function of a command and the two refusals leave.
abbrev ran : Registry
ran = record house { now = 61 }

abbrev refused : Registry
refused = record house { now = 62 }

serve-Served_example :
    Served table
      (some (b'i' ∷ []))
      cmd_nick
      (λ r. none)
      (λ r. some refused)
      (λ f r. some ran)
      house
      (some 1)
      (serve table
        (is_of_type (some (b'i' ∷ [])) cmd_nick)
        (λ r. none)
        (λ r. some refused)
        (λ f r. some ran)
        house
        (some 1))
serve-Served_example =
    serve-Served table (some (b'i' ∷ [])) cmd_nick (λ r. none) (λ r. some refused) (λ f r. some ran)
      house (some 1) ((info, refl), tt) (user first (10 ∷ []), refl)

absent-status_example :
    (mode_wchan house 2 (b's' ∷ []) (b'#' ∷ []) (b'+' ∷ b'o' ∷ []) ((b'x' ∷ []) ∷ []) 2 ≡ (
      locked_by house (b'+' ∷ b'o' ∷ []) (find_channel house (some (b'#' ∷ []))) >>= λ checked.
      some checked.1))
    × (mode_wchan house 2 (b's' ∷ []) (b'#' ∷ []) (b'-' ∷ b'o' ∷ []) ((b'x' ∷ []) ∷ []) 2 ≡ none)
unfolding find_nick letter_status strcasecmp
absent-status_example = absent-status house 2 (b's' ∷ []) (b'#' ∷ []) b'o' (b'x' ∷ []) 2 refl refl

rights : Unit {0}
unfolding strcasecmp tolower str_eq find_cflag find_cflag_in is_super_admin find_nick find_nick_in
    has_umode get_link_master find_link find_in_names link_master find_user follow on_entry
    unless_answered founder_entry is_founder channel_can entry_right has_right channel_can_op
    channel_can_halfop channel_can_voice channel_can_set channel_can_protect channel_can_topic
    channel_can_invite
rights = tt

-- A third account, without an entry and without a link.
abbrev inn : Registry
inn = record house {
  user_at = put house.user_at 5 (some (user (b'z' ∷ []) []));
  nick_at = λ a. some guest;
}

guest_user : IsStranger inn 2 (some 5) 3
unfolding rights
guest_user = record {
  founder = refl;
  op = refl;
  halfop = refl;
  voice = refl;
  set = refl;
  protect = refl;
  topic = refl;
  invite = refl;
}

stranger-status_example :
    OnlyNotice inn 1 (chan_op inn 2 1 (some 5) (some 3) (some (b'#' ∷ b'c' ∷ [])))
    × OnlyNotice inn 1 (chan_deop inn 2 1 (some 5) (some 3) (some (b'#' ∷ b'c' ∷ [])))
    × OnlyNotice inn 1 (chan_halfop inn 2 1 (some 5) (some 3) (some (b'#' ∷ b'c' ∷ [])))
    × OnlyNotice inn 1 (chan_dehalfop inn 2 1 (some 5) (some 3) (some (b'#' ∷ b'c' ∷ [])))
    × OnlyNotice inn 1 (chan_voice inn 2 1 (some 5) (some 3) (some (b'#' ∷ b'c' ∷ [])))
    × OnlyNotice inn 1 (chan_devoice inn 2 1 (some 5) (some 3) (some (b'#' ∷ b'c' ∷ [])))
    × OnlyNotice inn 1 (chan_kick (λ r. 9) inn 2 1 (some 5) (some 3) (some (b'#' ∷ b'c' ∷ [])))
    × OnlyNotice inn 1 (chan_invite inn 2 1 (some 5) (some 3) (some (b'#' ∷ b'c' ∷ [])))
stranger-status_example =
    stranger-status (λ r. 9) (λ s. pos 0) inn 2 1 (some 5) 3 (some (b'#' ∷ b'c' ∷ [])) guest_user

stranger-options_example :
    OnlyNotice inn 1 (chan_set_private inn 2 1 (some 5) 3 (some (b'#' ∷ b'c' ∷ [])))
    × OnlyNotice inn 1 (chan_set_noauto inn 2 1 (some 5) 3 (some (b'#' ∷ b'c' ∷ [])))
    × OnlyNotice inn 1 (chan_set_avoice inn 2 1 (some 5) 3 (some (b'#' ∷ b'c' ∷ [])))
    × OnlyNotice inn 1 (chan_set_aop inn 2 1 (some 5) 3 (some (b'#' ∷ b'c' ∷ [])))
    × OnlyNotice inn 1 (chan_set_secure inn 2 1 (some 5) 3 (some (b'#' ∷ b'c' ∷ [])))
    × OnlyNotice inn 1 (chan_set_strictop inn 2 1 (some 5) 3 (some (b'#' ∷ b'c' ∷ [])))
    × OnlyNotice inn 1 (chan_set_mass inn 2 1 (some 5) 3 (some (b'#' ∷ b'c' ∷ [])))
    × OnlyNotice inn 1 (chan_set_protectops inn 2 1 (some 5) 3 (some (b'#' ∷ b'c' ∷ [])))
    × OnlyNotice inn 1 (chan_set_enftopic inn 2 1 (some 5) 3 (some (b'#' ∷ b'c' ∷ [])))
    × OnlyNotice inn 1 (chan_set_axxflags inn 2 1 (some 5) 3 (some (b'#' ∷ b'c' ∷ [])))
    × OnlyNotice inn 1 (chan_set_nojoin inn 2 1 (some 5) 3 (some (b'#' ∷ b'c' ∷ [])))
    × OnlyNotice inn 1
        (chan_set_autolimit (λ r. 9) (λ s. pos 0) inn 2 1 (some 5) 3 (some (b'#' ∷ b'c' ∷ [])))
    × OnlyNotice inn 1 (chan_set_mlock inn 2 1 (some 5) 3 (some (b'#' ∷ b'c' ∷ [])))
stranger-options_example =
    stranger-options (λ r. 9) (λ s. pos 0) inn 2 1 (some 5) 3 (some (b'#' ∷ b'c' ∷ [])) guest_user

stranger-upkeep_example :
    OnlyNotice inn 1 (chan_entrymsg inn 2 1 (some 5) (some 3) (some (b'#' ∷ b'c' ∷ [])))
    × OnlyNotice inn 1 (chan_clearchan inn 2 1 (some 5) (some 3) (some (b'#' ∷ b'c' ∷ [])))
    × OnlyNotice inn 1 (chan_clearmodes inn 2 1 (some 5) (some 3) (some (b'#' ∷ b'c' ∷ [])))
    × OnlyNotice inn 1 (chan_unbanall inn 2 1 (some 5) (some 3) (some (b'#' ∷ b'c' ∷ [])))
    × OnlyNotice inn 1 (chan_clearbans inn 2 1 (some 5) (some 3) (some (b'#' ∷ b'c' ∷ [])))
    × OnlyNotice inn 1 (chan_topic inn 2 1 (some 5) (some 3) (some (b'#' ∷ b'c' ∷ [])))
stranger-upkeep_example =
    stranger-upkeep (λ r. 9) (λ s. pos 0) inn 2 1 (some 5) 3 (some (b'#' ∷ b'c' ∷ [])) guest_user
