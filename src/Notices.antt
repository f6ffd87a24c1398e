-- ===== src/Notices.antt =====
-- What the services tell their users: one constructor for each format string of the user commands
-- (src/modules/m_nick.c, src/modules/m_chan.c, src/parseline.c), with what is put into it.
use child.Prelude.{ℕ, Bool}
use child.Prelude.Int.{ℤ}
use child.Strings.{Str}

-- The options of `CHAN SET` that are on or off.
pub data ChanOption : Type 0 where
  nojoin : ChanOption
  private : ChanOption
  noauto : ChanOption
  avoice : ChanOption
  aop : ChanOption
  secure : ChanOption
  strictop : ChanOption
  mass : ChanOption
  protectops : ChanOption
  axxflags : ChanOption
  enftopic : ChanOption

-- The options of `NICK SET` that are on or off.
pub data NickOption : Type 0 where
  protect : NickOption
  hidden : NickOption
  noauto : NickOption
  hidemail : NickOption
  cloak : NickOption

pub data Notice : Type 0 where
  access_denied : Notice
  access_denied_full_stop : Notice
  unknown_command : Notice
  type_for_help : Notice
  unknown_option : Notice
  done : Notice
  version : Notice
  entry : Str → Str → Notice
  syntax_nick_link : Notice
  syntax_nick_unlink : Notice
  syntax_nick_ghost : Notice
  syntax_nick_identify : Notice
  syntax_nick_register : Notice
  syntax_nick_set : NickOption → Notice
  syntax_nick_option : Notice
  syntax_nick_requestpassword : Notice
  not_identified : Notice
  link_with_yourself : Notice
  unlink_from_yourself : Notice
  ghost_yourself : Notice
  user_not_registered : Notice
  user_not_online : Notice
  linked_with_another : Notice
  linked_already : Notice
  not_linked : Notice
  linked : Str → Notice
  unlinked : Str → Notice
  wrong_password : Notice
  identified_already : Str → Notice
  nickname_not_registered : Notice
  account_suspended : Notice
  kills_other : Str → Notice
  nick_registered_already : Notice
  invalid_email : Notice
  level_now : ℤ → Notice
  registered : Notice
  password_generated : Notice
  nick_dropped : Notice
  nick_not_registered : Notice
  other_nick_dropped : Str → Notice
  used_drop : Str → Str → Notice
  nick_option_is : NickOption → Bool → Notice
  email_is : Str → Notice
  password_changed : Notice
  password_of_other_changed : Notice
  outranked : Notice
  other_not_registered : Str → Notice
  used_password : Str → Str → Notice
  user_unknown : Notice
  user_is_authed : Notice
  email_not_set : Notice
  password_mailed : Notice
  syntax_chan_op : Notice
  syntax_chan_deop : Notice
  syntax_chan_voice : Notice
  syntax_chan_devoice : Notice
  syntax_chan_halfop : Notice
  syntax_chan_dehalfop : Notice
  syntax_chan_invite : Notice
  syntax_chan_register : Notice
  syntax_chan_drop : Notice
  syntax_chan_set : Notice
  syntax_chan_option : ChanOption → Notice
  syntax_chan_entrymsg : Notice
  syntax_chan_clearchan : Notice
  syntax_chan_clearmodes : Notice
  syntax_chan_unbanall : Notice
  syntax_chan_kick : Notice
  syntax_chan_suspend : Notice
  syntax_chan_unsuspend : Notice
  syntax_chan_clearbans : Notice
  syntax_chan_topic : Notice
  chan_unknown : Notice
  chan_does_not_exist : Str → Notice
  chan_registered_already : Notice
  too_many_channels : ℤ → Notice
  chan_empty : Notice
  must_be_operator : Notice
  chan_registered : Notice
  chan_used_drop : Str → Str → Notice
  chan_dropped : Notice
  nojoin_of_bot : Notice
  chan_option_is : ChanOption → Bool → Str → Notice
  autolimit_is : Str → ℕ → Notice
  autolimit_off : Str → Notice
  mlock_removed : Str → Notice
  mlock_sign : Notice
  mlock_is : Str → Str → Notice
  founder_unknown : Str → Notice
  founder_is : Str → Str → Notice
  entrymsg_removed : Str → Notice
  entrymsg_set : Str → Notice
  cannot_kick : Str → Notice
  user_does_not_exist : Str → Notice
  not_on_access_list : Str → Notice
  suspended_or_not_on_list : Str → Notice
  outranks_you : Str → Notice
  suspended_already : Str → Notice
  suspended_now : Str → Notice
  not_suspended : Str → Notice
  restored : Str → Notice
  banlist_cleared : Notice
  topic_cleared : Notice
  syntax_chan_access : Notice
  syntax_chan_flags : Notice
  axxflags_needed : Notice
  access_list_for : Str → Notice
  access_list_columns : Notice
  access_list_entry : Bool → Str → Str → Notice
  access_list_end : Notice
  this_user_does_not_exist : Notice
  no_modification : Notice
  one_coowner : Notice
  owner_as_coowner : Notice
  flags_of_absent : Notice
  syntax_chan_resync : Notice
  chan_resynced : Notice
  syntax_chan_levels : Notice
  axxflags_unwanted : Notice
  access_outranked : Notice
  level_too_high : Notice
  maximum_level : Notice
  founder_already : Str → Str → Notice
  coowner_already : Notice
  access_added : Str → Str → ℤ → Notice
  access_user_unknown : Str → Notice
  syntax_automode : Notice
  automode_set : Notice
  removed_yourself : Str → Notice
  user_named_not_registered : Str → Notice
  not_on_list_of : Str → Str → Notice
  remove_outranked : Notice
  remove_owner : Notice
  access_removed : Str → Str → Notice
  level_list_columns : Notice
  level_list_entry : Bool → ℕ → ℤ → Str → Notice
