-- ===== src/Services/Chanaccess.antt =====
-- chan_access (src/modules/m_chan.c): the list of the entries, and which command the words ask for.
use child.Prelude.{ℕ, ◌-◌, ◌%◌, ◌^◌, ltb, ◌==◌, Option, none, some, List, [], ◌∷◌, if◌then◌else◌}
use child.Prelude.Int.{ℤ, pos, negsuc, lt_ℤ}
use child.Prelude.Maybe.{◌>>=◌}
use child.Strings.{Str, str_eq, separate_word?}
use child.Uflags.{has, chlev_owner}
use child.Notices.{
  access_denied, chan_unknown, syntax_chan_levels, axxflags_unwanted, access_list_for,
  level_list_columns, level_list_entry, access_list_end,
}
use child.Registry.{Registry, copt_axxflags}
use child.Access.{get_flag}
use child.Services.{notice_to_user}
use child.Services.Rights.{if_registered}
use child.Services.Status.{ChanCommand}
use child.Services.Flags.{chan_flags}
use child.Services.Levels.{barred, access_add, access_auto, access_del}

-- The loop over the entries, but for that of the founder.
unfoldable pub list_levels : Registry → ℕ → List ℕ → Option Registry
unfolding notice_to_user
list_levels r nptr [] = notice_to_user r nptr access_list_end
list_levels r nptr (a ∷ as') = do
  cflag ← r.cflag_at a
  user ← r.user_at cflag.user
  let listed : Option Registry =
      notice_to_user r nptr (level_list_entry cflag.suspended cflag.automode cflag.flags user.nick)
  told ← if lt_ℤ cflag.flags chlev_owner then listed else some r
  list_levels told nptr as'

unfoldable pub access_list : Registry → ℕ → ℕ → Option ℕ → ℕ → Str → Option Registry
unfolding barred list_levels notice_to_user
access_list r fuel nptr uptr chptr chname = do
  mine ← get_flag r fuel uptr (some chptr)
  low ← barred (lt_ℤ mine (pos 1)) r fuel nptr uptr chptr
  chan ← r.chan_at chptr
  let denied : Option Registry = notice_to_user r nptr access_denied
  let listed : Option Registry = (do
    titled ← notice_to_user r nptr (access_list_for chname)
    headed ← notice_to_user titled nptr level_list_columns
    list_levels headed nptr chan.cflags)
  if low then denied else listed

-- A call with a user and a further word, both of which must hold a byte.
unfoldable pub with_two :
    Registry → ℕ → Option Str → Option Str → (Str → Str → Option Registry) → Option Registry
unfolding notice_to_user
with_two r nptr (some (c ∷ name)) (some (d ∷ word)) act = act (c ∷ name) (d ∷ word)
with_two r nptr _ _ act = notice_to_user r nptr syntax_chan_levels

-- A long that is kept in an int of 32 bits, as two's complement.
unfoldable pub to_int : ℤ → ℤ
to_int (pos n) = let m = n % 2 ^ 32 in if ltb m (2 ^ 31) then pos m else negsuc (2 ^ 32 - 1 - m)
to_int (negsuc n) = let m = n % 2 ^ 32 in if ltb m (2 ^ 31) then negsuc m else pos (2 ^ 32 - 1 - m)

-- The commands `add`, `auto`, `del` and `list`. `strtol` is the C library's.
unfoldable pub access_command :
    (Registry → ℕ)
    → (Str → ℤ)
    → Registry
    → ℕ
    → ℕ
    → Option ℕ
    → ℕ
    → Str
    → Option Str
    → Option Str
    → Option Str
    → Option Registry
unfolding access_add access_auto access_del access_list with_two notice_to_user to_int
access_command malloc strtol r fuel nptr uptr chptr chname arg4 arg5 arg6 =
    let added : Option Registry = with_two r nptr arg5 arg6 (λ name level.
      access_add malloc r fuel nptr uptr chptr chname name (to_int (strtol level))) in
    let automatic : Option Registry =
      with_two r nptr arg5 arg6 (access_auto r fuel nptr uptr chptr) in
    let deleted : Option Registry = elim arg5 [
      | none ↦ notice_to_user r nptr syntax_chan_levels
      | some name ↦ access_del r fuel nptr uptr chptr chname name
    ] in
    let listed : Option Registry = access_list r fuel nptr uptr chptr chname in
    let unknown : Option Registry = notice_to_user r nptr syntax_chan_levels in
    if str_eq arg4 (some (b'a' ∷ b'd' ∷ b'd' ∷ []))
    then added
    else (if str_eq arg4 (some (b'a' ∷ b'u' ∷ b't' ∷ b'o' ∷ []))
        then automatic
        else (if str_eq arg4 (some (b'd' ∷ b'e' ∷ b'l' ∷ []))
            then deleted
            else (if str_eq arg4 (some (b'l' ∷ b'i' ∷ b's' ∷ b't' ∷ [])) then listed else unknown)))

-- __chan_access
unfoldable pub access_by_level : (Registry → ℕ) → (Str → ℤ) → ChanCommand
unfolding access_command if_registered notice_to_user
access_by_level malloc strtol r fuel nptr uptr chptr all =
    let (arg3, rest) = separate_word? all in
    let (arg4, words) = separate_word? rest in
    let (arg5, more) = separate_word? words in
    let (arg6, _) = separate_word? more in
    let misused : Option Registry = notice_to_user r nptr syntax_chan_levels in
    elim arg3 [
      | some (x ∷ chname) ↦ elim arg4 [
        | some (y ∷ command) ↦
            let known : Option Registry = if_registered r nptr chan_unknown chptr (λ a. do
              chan ← r.chan_at a
              let flagged : Option Registry = notice_to_user r nptr axxflags_unwanted
              let called : Option Registry =
                  access_command malloc strtol r fuel nptr uptr a (x ∷ chname) (some (y ∷ command))
                    arg5 arg6
              if has chan.options copt_axxflags then flagged else called) in
            if x == b'#' then known else misused
        | _ ↦ misused
      ]
      | _ ↦ misused
    ]

unfoldable pub chan_access : (Registry → ℕ) → (Str → ℤ) → ChanCommand
unfolding access_by_level chan_flags if_registered
chan_access malloc strtol r fuel nptr uptr chptr all = if_registered r nptr chan_unknown chptr (λ a.
    do
      chan ← r.chan_at a
      let flagged : Option Registry = chan_flags malloc r fuel nptr uptr (some a) all
      let levelled : Option Registry = access_by_level malloc strtol r fuel nptr uptr (some a) all
      if has chan.options copt_axxflags then flagged else levelled)
