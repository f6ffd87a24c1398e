-- ===== src/Tests/Checks.antt =====
-- The access theorems at the registry of House.
use child.Prelude.{
  not, ◌≡◌, refl, true, false, ◌&&◌, none, some, [], ◌∷◌, ◌==◌, leb, arith, if◌then◌else◌,
}
use child.Prelude.Maybe.{◌>>=◌}
use child.Strings.{strcasecmp, tolower, str_eq}
use child.Uflags.{has, uflag_acl}
use child.Registry.{
  find_cflag, find_cflag_in, is_super_admin, find_nick, find_nick_in, has_umode, get_link_master,
  find_link, find_in_names, link_master, find_user,
}
use child.Access.{follow, on_entry, unless_answered, founder_entry, is_founder}
use child.Access.Rights.{
  channel_can, entry_right, channel_can_op, channel_can_halfop, channel_can_voice,
}
use child.Access.Acl.{
  channel_can_write_acl, write_acl_entries, outranks, modify_right, modify_entry, can_modify_uflag,
}
use child.Access.Total.{AccessEnds, access-Ends}
use child.Access.Ranks.{rank_of, channel_can_write_acl-rank_of}
use child.Tests.House.{house, chan, user, first, second, admin, voice, house-IsSound, house-Ranked}

program : Unit {0}
unfolding strcasecmp tolower str_eq find_cflag find_cflag_in is_super_admin find_nick find_nick_in
    has_umode get_link_master find_link find_in_names link_master find_user follow on_entry
    unless_answered founder_entry is_founder channel_can entry_right channel_can_op
    channel_can_halfop channel_can_voice channel_can_write_acl write_acl_entries outranks
    modify_right modify_entry can_modify_uflag
program = tt

access-Ends_example : AccessEnds house 3 2 1 3 uflag_acl
access-Ends_example =
    access-Ends house (λ u. u) 3 2 1 uflag_acl 3 house-IsSound house-Ranked (chan, refl)
      (user second (11 ∷ []), refl) (user first (10 ∷ []), refl) (omega arith)

no_admin : is_super_admin house 1 ≡ some false
unfolding program
no_admin = refl

may_modify : can_modify_uflag house 1 3 uflag_acl ≡ some 2
unfolding program
may_modify = refl

entry_of : find_cflag house 3 1 ≡ some (some 10)
unfolding program
entry_of = refl

entry_of_target : find_cflag house 3 2 ≡ some (some 11)
unfolding program
entry_of_target = refl

no_founder : is_founder house 2 (some 1) (some 3) ≡ some false
unfolding program
no_founder = refl

no_early_answer : (is_super_admin house 1 >>= λ b. some (if b then some true else none)) ≡ some none
unfolding program
no_early_answer = refl

writes : channel_can_write_acl house 2 (some 1) (some 2) (some 3) ≡ some true
unfolding program
writes = refl

channel_can_write_acl-rank_of_example :
    channel_can_write_acl house 2 (some 1) (some 2) (some 3)
    ≡ some (
        has admin.uflags uflag_acl
        && (leb (rank_of voice.uflags) (rank_of admin.uflags)
            && not ((rank_of admin.uflags == 1) && (rank_of voice.uflags == 1))))
channel_can_write_acl-rank_of_example =
    channel_can_write_acl-rank_of house 1 1 2 3 10 11 admin voice no_early_answer entry_of refl refl
      no_founder entry_of_target refl refl

may_op : channel_can_op house 2 (some 1) (some 3) ≡ some true
unfolding program
may_op = refl
