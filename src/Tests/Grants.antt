-- ===== src/Tests/Grants.antt =====
-- chan_flags and chan_access at concrete inputs: an administrator of a channel gives a user the flag OP
-- and a level.
use child.Prelude.{ℕ, ◌≡◌, ◌⊎◌, true, false, Option, none, some, [], ◌∷◌, bit_or, refl}
use child.Prelude.Int.{pos}
use child.Strings.{str_eq, strcasecmp, tolower}
use child.Uflags.{uflag_op, uflag_voice, parse_uflags, parse_uflags_from, flag_of}
use child.Notices.{done}
use child.Registry.{
  Registry, notice, put, find_nick, find_nick_in, find_cflag, find_cflag_in, is_super_admin,
  has_umode, get_link_master, find_link, find_in_names, link_master, find_user,
}
use child.Access.{follow, on_entry, unless_answered, founder_entry, is_founder}
use child.Access.Rights.{channel_can, entry_right, channel_can_acl}
use child.Access.Acl.{
  channel_can_write_acl, write_acl_entries, outranks, modify_right, modify_entry, can_modify_uflag,
}
use child.Services.{notice_to_user}
use child.Services.Rights.{has_right, guarded}
use child.Services.Refused.{OnlyNotice}
use child.Services.Flags.{
  flags_words, change_uflags, may_modify, modify_uflags, coowner_objection, give_uflags,
}
use child.Services.Options.{is_services_oper}
use child.Services.Levels.{
  barred, has_coowner_level, add_answer, add_objection, add_level, by_level, access_add,
}
use child.Services.Lower.{HasLevel, IsBelow, access_add-IsBelow}
use child.Access.{get_flag, get_flag_early}
use child.Channels.{add_user_to_channel, delete_user_from_channel, delete_found_cflag, delete_cflag}
use child.Services.Granted.{IsGranted, flags_words-IsGranted}
use child.Tests.House.{house, voice, second}
use child.Tests.Rooms.{guest}

abbrev staffed : Registry
staffed = record house { nick_at = λ a. some guest }

abbrev given : Registry
given = record staffed {
  cflag_at = put staffed.cflag_at 11 (some (record voice { uflags = bit_or uflag_voice uflag_op }));
  sent = notice staffed.config.nick guest.name done ∷ staffed.sent;
}

program : Unit {0}
unfolding strcasecmp tolower str_eq find_cflag find_cflag_in is_super_admin find_nick find_nick_in
    has_umode get_link_master find_link find_in_names link_master find_user follow on_entry
    unless_answered founder_entry is_founder channel_can entry_right channel_can_acl
    channel_can_write_acl write_acl_entries outranks modify_right modify_entry can_modify_uflag
    parse_uflags parse_uflags_from flag_of has_right guarded notice_to_user flags_words
    change_uflags may_modify modify_uflags coowner_objection give_uflags is_services_oper barred
    has_coowner_level add_answer add_objection add_level by_level access_add get_flag get_flag_early
    add_user_to_channel delete_user_from_channel delete_found_cflag delete_cflag
program = tt

ran :
    flags_words (λ r. 12) staffed 2 1 (some 1) 3 (b'#' ∷ []) (some second) (some (b'+' ∷ b'o' ∷ []))
    ≡ some given
unfolding program
ran = refl

no_admin : is_super_admin staffed 1 ≡ some false
unfolding program
no_admin = refl

flags_words-IsGranted_example :
    OnlyNotice staffed 1 (some given)
    ⊎ ((has_right channel_can_acl staffed 2 (some 1) 3 ≡ some true)
        × ((u2 : ℕ) × (find_user staffed (some second) ≡ some u2)
            × IsGranted staffed 2 1 u2 3 (parse_uflags (b'o' ∷ []))))
flags_words-IsGranted_example =
    flags_words-IsGranted (λ r. 12) staffed given 2 1 1 3 b'b' b'+' (b'#' ∷ []) [] (b'o' ∷ [])
      no_admin ran

abbrev added : Option Registry
added = access_add (λ r. 12) staffed 2 1 (some 1) 3 (b'#' ∷ []) second (pos 4)

abbrev levelled : Registry
levelled = elim added [ none ↦ staffed | some r ↦ r ]

added_level : added ≡ some levelled
unfolding program
added_level = refl

is_barred : barred true staffed 2 1 (some 1) 3 ≡ some true
unfolding program
is_barred = refl

access_add-IsBelow_example :
    OnlyNotice staffed 1 (some levelled)
    ⊎ (HasLevel staffed 2 1 (some 1) 3 is_barred staffed.config.levels.chlev_admin
        × ((u2 : ℕ) × (find_user staffed (some second) ≡ some u2)
            × IsBelow staffed 2 1 (some 1) 3 is_barred u2 (pos 4)))
access_add-IsBelow_example =
    access_add-IsBelow staffed 2 1 (some 1) 3 is_barred (λ r. 12) levelled (b'#' ∷ []) second
      (pos 4) added_level
