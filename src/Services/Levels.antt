-- ===== src/Services/Levels.antt =====
-- chan_access (src/modules/m_chan.c): the levels of the access entries of a channel.
use child.Prelude.{
  ℕ, Bool, true, false, not, ◌&&◌, ◌==◌, Option, none, some, List, [], ◌∷◌, if◌then◌else◌,
}
use child.Prelude.Int.{ℤ, pos, lt_ℤ, le_ℤ, eq_ℤ}
use child.Prelude.Maybe.{◌>>=◌}
use child.Strings.{Str, str_eq}
use child.Uflags.{chlev_owner, chlev_coowner}
use child.Notices.{
  Notice, access_denied, other_not_registered, access_outranked, level_too_high, maximum_level,
  founder_already, coowner_already, access_added, access_user_unknown, syntax_automode,
  automode_set, removed_yourself, user_named_not_registered, not_on_list_of, remove_outranked,
  remove_owner, access_removed,
}
use child.Registry.{Registry, Chan, User, put, find_user, find_cflag}
use child.Access.{get_flag, is_founder}
use child.Channels.{add_user_to_channel, delete_user_from_channel, cflag_auto_on}
use child.Accounts.Sync.{cflag_auto_off, cflag_auto_voice, cflag_auto_op}
use child.Services.{notice_to_user}
use child.Services.Options.{is_services_oper, off}

-- `test && !IsFounder(uptr, chptr) && (uptr->level < level_oper || !IsOper(nptr))`
unfoldable pub barred : Bool → Registry → ℕ → ℕ → Option ℕ → ℕ → Option Bool
unfolding is_services_oper
barred false r fuel nptr uptr chptr = some false
barred true r fuel nptr uptr chptr = do
  founder ← is_founder r fuel uptr (some chptr)
  let oper : Option Bool = is_services_oper r nptr uptr
  exempt ← if founder then some true else oper
  some (not exempt)

-- The loop that searches for a co-owner by level.
unfoldable pub has_coowner_level : Registry → List ℕ → Option Bool
has_coowner_level r [] = some false
has_coowner_level r (a ∷ as') =
    let later = has_coowner_level r as' in
    do cflag ← r.cflag_at a; if eq_ℤ cflag.flags chlev_coowner then some true else later

-- The tests of `add` in their order, `none` for no objection.
unfoldable pub add_answer : Bool → Bool → ℤ → Chan → User → Bool → Option Notice
add_answer outranked too_high level chan user2 coowned =
    if outranked
    then some access_outranked
    else (if too_high
        then some level_too_high
        else (if le_ℤ chlev_owner level
            then some maximum_level
            else (if str_eq (some chan.owner) (some user2.nick)
                then some (founder_already user2.nick chan.channelname)
                else (if coowned then some coowner_already else none))))

-- What `add` objects to behind the search for the user.
unfoldable pub add_objection : Registry → ℕ → ℕ → Option ℕ → ℕ → ℕ → ℤ → Option (Option Notice)
unfolding barred has_coowner_level add_answer
add_objection r fuel nptr uptr chptr uptr2 level = do
  theirs ← get_flag r fuel (some uptr2) (some chptr)
  mine ← get_flag r fuel uptr (some chptr)
  outranked ← barred (le_ℤ mine theirs) r fuel nptr uptr chptr
  too_high ← barred (le_ℤ mine level) r fuel nptr uptr chptr
  chan ← r.chan_at chptr
  user2 ← r.user_at uptr2
  let searched : Option Bool = has_coowner_level r chan.cflags
  coowned ← if eq_ℤ level chlev_coowner then searched else some false
  some (add_answer outranked too_high level chan user2 coowned)

-- The old entry is deleted and a new one is made.
unfoldable pub add_level : (Registry → ℕ) → Registry → ℕ → ℕ → ℕ → Str → Str → ℤ → Option Registry
unfolding notice_to_user
add_level malloc r nptr chptr uptr2 chname name level = do
  left ← delete_user_from_channel r uptr2 chptr
  entered ← add_user_to_channel malloc left uptr2 chptr level 0
  notice_to_user entered.1 nptr (access_added name chname level)

-- A step for a user that is found, by one whose level is not below a bound or who is exempt.
unfoldable pub by_level :
    ℤ → Notice → Registry → ℕ → ℕ → Option ℕ → ℕ → Str → (ℕ → Option Registry) → Option Registry
unfolding barred notice_to_user
by_level bound unknown r fuel nptr uptr chptr name act = do
  mine ← get_flag r fuel uptr (some chptr)
  low ← barred (lt_ℤ mine bound) r fuel nptr uptr chptr
  let denied : Option Registry = notice_to_user r nptr access_denied
  let found : Option Registry = elim (find_user r (some name)) [
    | none ↦ notice_to_user r nptr unknown
    | some uptr2 ↦ act uptr2
  ]
  if low then denied else found

unfoldable pub access_add :
    (Registry → ℕ) → Registry → ℕ → ℕ → Option ℕ → ℕ → Str → Str → ℤ → Option Registry
unfolding by_level add_objection add_level notice_to_user
access_add malloc r fuel nptr uptr chptr chname name level =
    by_level r.config.levels.chlev_admin (other_not_registered name) r fuel nptr uptr chptr name
      (λ uptr2. do
        objection ← add_objection r fuel nptr uptr chptr uptr2 level
        elim objection [
          | some text ↦ notice_to_user r nptr text
          | none ↦ add_level malloc r nptr chptr uptr2 chname name level
        ])

-- The automatic mode that a word stands for.
unfoldable pub automode_of : Str → Option ℕ
automode_of word =
    if str_eq (some word) (some (b'o' ∷ b'p' ∷ []))
    then some cflag_auto_op
    else (if str_eq (some word) (some (b'v' ∷ b'o' ∷ b'i' ∷ b'c' ∷ b'e' ∷ []))
        then some cflag_auto_voice
        else (if str_eq (some word) (some off)
            then some cflag_auto_off
            else (if str_eq (some word) (some (b'd' ∷ b'e' ∷ b'f' ∷ b'a' ∷ b'u' ∷ b'l' ∷ b't' ∷ []))
                then some cflag_auto_on
                else none)))

-- Automatic status of an operator is for a half-operator at least.
unfoldable pub set_automode : Registry → ℕ → ℕ → ℕ → ℕ → ℕ → ℕ → Option Registry
unfolding notice_to_user
set_automode r fuel nptr chptr uptr2 a mode = do
  cflag ← r.cflag_at a
  theirs ← get_flag r fuel (some uptr2) (some chptr)
  let low = lt_ℤ theirs r.config.levels.chlev_halfop && (mode == cflag_auto_op)
  notice_to_user
      (record r {
        cflag_at =
            put r.cflag_at a
              (some (record cflag { automode = if low then cflag_auto_voice else mode }));
      })
      nptr automode_set

-- Whether the caller may change the mode: his own, by his nick, or that of a user below his level.
unfoldable pub may_automode : Registry → ℕ → ℕ → Option ℕ → ℕ → ℕ → Str → Option Bool
may_automode r fuel nptr uptr chptr uptr2 name = do
  nick ← r.nick_at nptr
  let by_rank : Option Bool = (do
    mine ← get_flag r fuel uptr (some chptr)
    let above : Option Bool = (do
      theirs ← get_flag r fuel (some uptr2) (some chptr)
      some (lt_ℤ theirs mine))
    if le_ℤ (pos 10) mine then above else some false)
  if str_eq (some name) (some nick.name) then some true else by_rank

unfoldable pub access_auto : Registry → ℕ → ℕ → Option ℕ → ℕ → Str → Str → Option Registry
unfolding by_level may_automode set_automode automode_of notice_to_user
access_auto r fuel nptr uptr chptr name word =
    by_level (pos 3) (access_user_unknown name) r fuel nptr uptr chptr name (λ uptr2. do
      may ← may_automode r fuel nptr uptr chptr uptr2 name
      let denied : Option Registry = notice_to_user r nptr access_denied
      let changed : Option Registry = (do
        found ← find_cflag r chptr uptr2
        elim found [
          | none ↦ some r
          | some a ↦ elim (automode_of word) [
            | none ↦ notice_to_user r nptr syntax_automode
            | some mode ↦ set_automode r fuel nptr chptr uptr2 a mode
          ]
        ])
      if may then changed else denied)

-- What `del` objects to, for a user other than the caller.
unfoldable pub del_objection :
    Registry → ℕ → ℕ → Option ℕ → ℕ → ℕ → Str → Str → Option (Option Notice)
unfolding barred
del_objection r fuel nptr uptr chptr uptr2 chname name = do
  theirs ← get_flag r fuel (some uptr2) (some chptr)
  mine ← get_flag r fuel uptr (some chptr)
  let absent = eq_ℤ theirs (pos 0)
  outranked ← barred (not absent && le_ℤ mine theirs) r fuel nptr uptr chptr
  chan ← r.chan_at chptr
  user2 ← r.user_at uptr2
  some (
      if absent
      then some (not_on_list_of name chname)
      else (if outranked
          then some remove_outranked
          else (if str_eq (some user2.nick) (some chan.owner) then some remove_owner else none)))

-- An entry is deleted, and the caller told so.
unfoldable pub del_entry : Registry → ℕ → ℕ → ℕ → Notice → Option Registry
unfolding notice_to_user
del_entry r nptr chptr uptr2 text = do
  left ← delete_user_from_channel r uptr2 chptr
  notice_to_user left nptr text

unfoldable pub access_del : Registry → ℕ → ℕ → Option ℕ → ℕ → Str → Str → Option Registry
unfolding by_level del_objection del_entry notice_to_user
access_del r fuel nptr uptr chptr chname name = do
  mine ← get_flag r fuel uptr (some chptr)
  nick ← r.nick_at nptr
  let own : Option Registry = (do u ← uptr; del_entry r nptr chptr u (removed_yourself chname))
  let other : Option Registry =
      by_level r.config.levels.chlev_admin (user_named_not_registered name) r fuel nptr uptr chptr
        name
        (λ uptr2. do
          objection ← del_objection r fuel nptr uptr chptr uptr2 chname name
          elim objection [
            | some text ↦ notice_to_user r nptr text
            | none ↦ del_entry r nptr chptr uptr2 (access_removed name chname)
          ])
  if not (eq_ℤ mine (pos 0)) && str_eq (some name) (some nick.name) then own else other
