-- ===== src/Services/Flags.antt =====
-- chan_flags (src/modules/m_chan.c): the flags of the access entries of a channel.
use child.Prelude.{
  ℕ, Bool, true, false, not, ◌&&◌, ◌||◌, ◌==◌, ◌-◌, Option, none, some, List, [], ◌∷◌, bit_and,
  bit_or, if◌then◌else◌,
}
use child.Prelude.Int.{pos}
use child.Prelude.Maybe.{◌>>=◌}
use child.Strings.{Str, separate_word?}
use child.Uflags.{has, parse_uflags, get_uflags_string, uflag_coowner}
use child.Notices.{
  Notice, access_denied_full_stop, done, syntax_chan_access, syntax_chan_flags, axxflags_needed,
  access_list_for, access_list_columns, access_list_entry, access_list_end,
  this_user_does_not_exist, no_modification, one_coowner, owner_as_coowner, flags_of_absent,
}
use child.Registry.{Registry, put, find_user, find_cflag, copt_axxflags}
use child.Access.{is_true_owner, get_coowner}
use child.Access.Rights.{channel_can_acl}
use child.Access.Acl.{channel_can_read_acl, channel_can_write_acl, can_modify_uflag}
use child.Channels.{add_user_to_channel, delete_user_from_channel}
use child.Services.{notice_to_user}
use child.Services.Rights.{guarded}
use child.Services.Status.{ChanCommand}
use child.Services.Upkeep.{on_any_channel}

-- The loop over the access entries.
unfoldable pub list_entries : Registry → ℕ → List ℕ → Option Registry
unfolding notice_to_user
list_entries r nptr [] = notice_to_user r nptr access_list_end
list_entries r nptr (a ∷ as') = do
  cflag ← r.cflag_at a
  user ← r.user_at cflag.user
  told ←
      notice_to_user r nptr
        (access_list_entry cflag.suspended (get_uflags_string cflag.uflags) user.nick)
  list_entries told nptr as'

unfoldable pub list_access : Registry → ℕ → ℕ → Option ℕ → ℕ → Str → Option Registry
unfolding list_entries notice_to_user
list_access r fuel nptr uptr chptr name = do
  may ← channel_can_read_acl r fuel uptr (some chptr)
  chan ← r.chan_at chptr
  let listed : Option Registry = (do
    titled ← notice_to_user r nptr (access_list_for name)
    headed ← notice_to_user titled nptr access_list_columns
    list_entries headed nptr chan.cflags)
  let denied : Option Registry = notice_to_user r nptr access_denied_full_stop
  if may then listed else denied

-- The flags of an entry.
abbrev pub with_uflags : Registry → ℕ → ℕ → Option Registry
with_uflags r a uflags = do
  cflag ← r.cflag_at a
  some (record r { cflag_at = put r.cflag_at a (some (record cflag { uflags = uflags })) })

-- What `+` with the flag of a co-owner is refused for, `none` for nothing.
unfoldable pub coowner_objection : Registry → ℕ → ℕ → ℕ → ℕ → Option (Option Notice)
coowner_objection r fuel uptr2 chptr uflags =
    let owned : Option (Option Notice) = (do
      owner ← is_true_owner r fuel (some uptr2) (some chptr)
      some (if owner == 0 then none else some owner_as_coowner)) in
    let objected : Option (Option Notice) = (do
      coowner ← get_coowner r chptr
      elim coowner [ some a ↦ some (some one_coowner) | none ↦ owned ]) in
    if has uflags uflag_coowner then objected else some none

-- `+`: the flags are added to the entry, which is made if there is none.
unfoldable pub give_uflags : (Registry → ℕ) → Registry → ℕ → ℕ → ℕ → Option Registry
give_uflags malloc r uptr2 chptr uflags = do
  found ← find_cflag r chptr uptr2
  elim found [
    | none ↦ do entered ← add_user_to_channel malloc r uptr2 chptr (pos 0) uflags; some entered.1
    | some a ↦ do cflag ← r.cflag_at a; with_uflags r a (bit_or cflag.uflags uflags)
  ]

-- `-`: an entry that is left without flags is deleted; `none` within for a user without an entry.
unfoldable pub take_uflags : Registry → ℕ → ℕ → ℕ → Option (Option Registry)
take_uflags r uptr2 chptr uflags = do
  found ← find_cflag r chptr uptr2
  elim found [
    | none ↦ some none
    | some a ↦ do
      cflag ← r.cflag_at a
      let left = cflag.uflags - bit_and cflag.uflags uflags
      changed ← with_uflags r a left
      let dropped : Option Registry = delete_user_from_channel changed uptr2 chptr
      kept ← if left == 0 then dropped else some changed
      some (some kept)
  ]

-- The change behind all tests of rights.
unfoldable pub modify_uflags :
    (Registry → ℕ) → Registry → ℕ → ℕ → ℕ → ℕ → Bool → ℕ → Option Registry
unfolding coowner_objection give_uflags take_uflags notice_to_user
modify_uflags malloc r fuel nptr uptr2 chptr true uflags = do
  objection ← coowner_objection r fuel uptr2 chptr uflags
  elim objection [
    | some text ↦ notice_to_user r nptr text
    | none ↦ do given ← give_uflags malloc r uptr2 chptr uflags; notice_to_user given nptr done
  ]
modify_uflags malloc r fuel nptr uptr2 chptr false uflags = do
  taken ← take_uflags r uptr2 chptr uflags
  elim taken [
    | none ↦ notice_to_user r nptr flags_of_absent
    | some left ↦ notice_to_user left nptr done
  ]

-- Whether a user may change these flags of another: the right to write, and the answer of
-- can_modify_uflag, of which 1 allows the user's own entry alone.
unfoldable pub may_modify : Registry → ℕ → Option ℕ → ℕ → ℕ → ℕ → Option Bool
may_modify r fuel uptr uptr2 chptr uflags = do
  write ← channel_can_write_acl r fuel uptr (some uptr2) (some chptr)
  let modified : Option Bool = (do
    u ← uptr
    ret ← can_modify_uflag r u chptr uflags
    some (not (ret == 0) && not ((ret == 1) && not (u == uptr2))))
  if write then modified else some false

-- chan_flags for a user and a sign with flags.
unfoldable pub change_uflags :
    (Registry → ℕ) → Registry → ℕ → ℕ → Option ℕ → ℕ → ℕ → Str → Option Registry
unfolding may_modify modify_uflags notice_to_user
change_uflags malloc r fuel nptr uptr chptr uptr2 [] = notice_to_user r nptr syntax_chan_flags
change_uflags malloc r fuel nptr uptr chptr uptr2 (sign ∷ text) =
    let uflags = parse_uflags text in
    let unsigned : Option Registry = notice_to_user r nptr syntax_chan_flags in
    let nothing : Option Registry = notice_to_user r nptr no_modification in
    let denied : Option Registry = notice_to_user r nptr access_denied_full_stop in
    let modified : Option Registry =
      modify_uflags malloc r fuel nptr uptr2 chptr (sign == b'+') uflags in
    let tested : Option Registry = (do
      may ← may_modify r fuel uptr uptr2 chptr uflags
      if may then modified else denied) in
    if (sign == b'+') || (sign == b'-') then (if uflags == 0 then nothing else tested) else unsigned

-- chan_flags for the words behind the channel.
unfoldable pub flags_words :
    (Registry → ℕ)
    → Registry
    → ℕ
    → ℕ
    → Option ℕ
    → ℕ
    → Str
    → Option Str
    → Option Str
    → Option Registry
unfolding list_access change_uflags guarded notice_to_user
flags_words malloc r fuel nptr uptr chptr name (some (c ∷ user)) (some (d ∷ text)) =
    guarded channel_can_acl access_denied_full_stop r fuel nptr uptr chptr
      (elim (find_user r (some (c ∷ user))) [
        | none ↦ notice_to_user r nptr this_user_does_not_exist
        | some uptr2 ↦ change_uflags malloc r fuel nptr uptr chptr uptr2 (d ∷ text)
      ])
flags_words malloc r fuel nptr uptr chptr name (some (c ∷ user)) _ =
    notice_to_user r nptr syntax_chan_access
flags_words malloc r fuel nptr uptr chptr name _ arg3 = list_access r fuel nptr uptr chptr name

unfoldable pub chan_flags : (Registry → ℕ) → ChanCommand
unfolding flags_words on_any_channel notice_to_user
chan_flags malloc r fuel nptr uptr chptr all =
    let (arg1, rest) = separate_word? all in
    let (arg2, words) = separate_word? rest in
    let (arg3, _) = separate_word? words in
    on_any_channel syntax_chan_access r nptr chptr arg1 (λ name a. do
      chan ← r.chan_at a
      let worked : Option Registry = flags_words malloc r fuel nptr uptr a name arg2 arg3
      let refused : Option Registry = notice_to_user r nptr axxflags_needed
      if has chan.options copt_axxflags then worked else refused)
