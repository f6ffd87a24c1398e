-- ===== src/Services/Suspend.antt =====
-- chan_suspend and chan_unsuspend (src/modules/m_chan.c): the access of a user is taken for a time.
use child.Prelude.{ℕ, Bool, true, false, not, ◌==◌, ◌||◌, Option, none, some, ◌∷◌, if◌then◌else◌}
use child.Prelude.Int.{pos, le_ℤ, eq_ℤ}
use child.Prelude.Maybe.{◌>>=◌}
use child.Strings.{Str, separate_word?}
use child.Uflags.{has}
use child.Notices.{
  Notice, access_denied_full_stop, syntax_chan_suspend, syntax_chan_unsuspend, chan_does_not_exist,
  user_does_not_exist, not_on_access_list, suspended_or_not_on_list, outranks_you,
  suspended_already, suspended_now, not_suspended, restored,
}
use child.Registry.{Registry, put, find_user, find_cflag, copt_axxflags}
use child.Access.{get_flag}
use child.Access.Rights.{channel_can_acl}
use child.Access.Acl.{channel_can_write_acl}
use child.Services.{notice_to_user}
use child.Services.Rights.{guarded, if_registered}
use child.Services.Status.{ChanCommand}

-- Whether a pointer to a user is the one given.
abbrev pub is_user : Option ℕ → ℕ → Bool
is_user none uptr2 = false
is_user (some uptr) uptr2 = uptr == uptr2

-- What chan_suspend objects to, `none` for nothing.
unfoldable pub suspend_objection : Registry → ℕ → Option ℕ → ℕ → ℕ → Str → Option (Option Notice)
suspend_objection r fuel uptr uptr2 chptr name = do
  chan ← r.chan_at chptr
  let by_flags : Option (Option Notice) = (do
    may ← channel_can_write_acl r fuel uptr (some uptr2) (some chptr)
    some (if not may || is_user uptr uptr2 then some (outranks_you name) else none))
  let by_level : Option (Option Notice) = (do
    theirs ← get_flag r fuel (some uptr2) (some chptr)
    let compared : Option (Option Notice) = (do
      mine ← get_flag r fuel uptr (some chptr)
      some (if le_ℤ mine theirs then some (outranks_you name) else none))
    if eq_ℤ theirs (pos 0) then some (some (suspended_or_not_on_list name)) else compared)
  if has chan.options copt_axxflags then by_flags else by_level

-- What chan_unsuspend objects to.
unfoldable pub unsuspend_objection :
    Registry → ℕ → Option ℕ → ℕ → ℕ → ℕ → Str → Option (Option Notice)
unsuspend_objection r fuel uptr uptr2 chptr cflag name = do
  chan ← r.chan_at chptr
  entry ← r.cflag_at cflag
  let by_flags : Option (Option Notice) = (do
    may ← channel_can_write_acl r fuel uptr (some uptr2) (some chptr)
    some (if may then none else some (outranks_you name)))
  let by_level : Option (Option Notice) = (do
    mine ← get_flag r fuel uptr (some chptr)
    some (if le_ℤ mine entry.flags then some (outranks_you name) else none))
  if has chan.options copt_axxflags then by_flags else by_level

-- The entry is suspended or restored; one that is so already gives another notice.
unfoldable pub set_suspended : Registry → ℕ → ℕ → Bool → Notice → Notice → Option Registry
unfolding notice_to_user
set_suspended r nptr cflag what told already = do
  entry ← r.cflag_at cflag
  let changed : Registry = record r {
    cflag_at = put r.cflag_at cflag (some (record entry { suspended = what }));
  }
  let same : Bool = (if what then entry.suspended else not entry.suspended)
  let unchanged : Option Registry = notice_to_user r nptr already
  let told_so : Option Registry = notice_to_user changed nptr told
  if same then unchanged else told_so

unfoldable pub unless_objection : Registry → ℕ → Option Registry → Option Notice → Option Registry
unfolding notice_to_user
unless_objection r nptr act none = act
unless_objection r nptr act (some text) = notice_to_user r nptr text

-- From the search for the entry on.
unfoldable pub suspend_entry :
    Registry → ℕ → ℕ → Option ℕ → ℕ → ℕ → Str → Option ℕ → Option Registry
unfolding suspend_objection unless_objection set_suspended notice_to_user
suspend_entry r fuel nptr uptr uptr2 chptr name none =
    notice_to_user r nptr (not_on_access_list name)
suspend_entry r fuel nptr uptr uptr2 chptr name (some cflag) =
    suspend_objection r fuel uptr uptr2 chptr name
    >>= unless_objection r nptr
        (set_suspended r nptr cflag true (suspended_now name) (suspended_already name))

unfoldable pub unsuspend_entry :
    Registry → ℕ → ℕ → Option ℕ → ℕ → ℕ → Str → Option ℕ → Option Registry
unfolding unsuspend_objection unless_objection set_suspended notice_to_user
unsuspend_entry r fuel nptr uptr uptr2 chptr name none =
    notice_to_user r nptr (not_on_access_list name)
unsuspend_entry r fuel nptr uptr uptr2 chptr name (some cflag) =
    unsuspend_objection r fuel uptr uptr2 chptr cflag name
    >>= unless_objection r nptr
        (set_suspended r nptr cflag false (restored name) (not_suspended name))

-- What the two commands do with the entry of a user on a channel.
abbrev pub OnEntry : Type 0
OnEntry = Registry → ℕ → ℕ → Option ℕ → ℕ → ℕ → Str → Option ℕ → Option Registry

unfoldable pub on_user :
    OnEntry → Registry → ℕ → ℕ → Option ℕ → ℕ → Str → Option ℕ → Option Registry
unfolding notice_to_user
on_user act r fuel nptr uptr chptr name none = notice_to_user r nptr (user_does_not_exist name)
on_user act r fuel nptr uptr chptr name (some uptr2) =
    find_cflag r chptr uptr2 >>= act r fuel nptr uptr uptr2 chptr name

-- The tests that the two commands share.
unfoldable pub on_suspension : OnEntry → Notice → ChanCommand
unfolding on_user guarded if_registered notice_to_user
on_suspension act syntax r fuel nptr uptr chptr all =
    let (ch, rest) = separate_word? all in
    let (arg1, _) = separate_word? rest in
    elim ch [
      | some (c ∷ name) ↦ elim arg1 [
        | some (d ∷ user) ↦ if_registered r nptr (chan_does_not_exist (c ∷ name)) chptr (λ a.
            guarded channel_can_acl access_denied_full_stop r fuel nptr uptr a
              (on_user act r fuel nptr uptr a (d ∷ user) (find_user r (some (d ∷ user)))))
        | _ ↦ notice_to_user r nptr syntax
      ]
      | _ ↦ notice_to_user r nptr syntax
    ]

unfoldable pub chan_suspend : ChanCommand
unfolding on_suspension suspend_entry
chan_suspend = on_suspension suspend_entry syntax_chan_suspend

unfoldable pub chan_unsuspend : ChanCommand
unfolding on_suspension unsuspend_entry
chan_unsuspend = on_suspension unsuspend_entry syntax_chan_unsuspend
