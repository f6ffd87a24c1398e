-- ===== src/Protocol/Modes.antt =====
-- m_mode (src/parseline.c): the modes of a nick, and those of the members of a channel.
use child.Prelude.{
  ℕ, zero, suc, ◌+◌, Bool, true, false, not, ◌==◌, ◌&&◌, ◌||◌, Option, none, some, List, [], ◌∷◌,
  leb, if◌then◌else◌,
}
use child.Prelude.Int.{ℤ, lt_ℤ, le_ℤ, eq_ℤ}
use child.Prelude.Maybe.{◌>>=◌}
use child.Strings.{Str, str_eq, is_char_in_string}
use child.Uflags.{ChanLevels, has}
use child.Registry.{Registry, restore_bot, send, put, find_account, find_member}
use child.Access.{get_flag, is_founder}
use child.Channels.Members.{
  change_status, change_flags, chfl_op, chfl_halfop, chfl_voice, chfl_protect, chfl_owner,
}
use child.Channels.Limits.{members_num}
use child.Protocol.Identity.{find_nick?, if_found}
use child.Protocol.Renames.{is_authed?}
use child.Services.Options.{copt_strictop, copt_protectops}

-- A change of modes: the channel, its registration and its bot if it has one, the sender and the words
-- behind the modes.
pub record Change : Type 0 where
  pub wchan : ℕ
  pub name : Str
  pub chptr : Option ℕ
  pub bot : Option Str
  pub sender : Str
  pub args : List Str

-- `args[i]`: behind the words stands NULL, and what is behind that is not set.
unfoldable pub word_at : List Str → ℕ → Option (Option Str)
word_at [] zero = some none
word_at [] (suc i) = none
word_at (a ∷ as') zero = some (some a)
word_at (a ∷ as') (suc i) = word_at as' i

-- Without a word both `args[0]` and `args[1]` are NULL.
unfoldable pub arg_at : List Str → ℕ → Option (Option Str)
unfolding word_at
arg_at [] i = if leb i 1 then some none else none
arg_at (a ∷ as') i = word_at (a ∷ as') i

-- The status that a letter stands for, 0 for none.
unfoldable pub letter_status : ℕ → ℕ
letter_status c =
    if c == b'q'
    then chfl_owner
    else (if c == b'a'
        then chfl_protect
        else (if c == b'o'
            then chfl_op
            else (if c == b'h' then chfl_halfop else (if c == b'v' then chfl_voice else 0))))

-- The letters that stand for a status or for a mode with a word of its own.
abbrev pub with_word : Str
with_word =
    b'q' ∷ b'a' ∷ b'o' ∷ b'h' ∷ b'v' ∷ b'b' ∷ b'e' ∷ b'I' ∷ b'f' ∷ b'j' ∷ b'k' ∷ b'l' ∷ b'L' ∷ []

-- SetStatus of the services; their bot is NULL on a channel that is not registered.
unfoldable pub answer : Change → Registry → ℕ → ℕ → Bool → Option Registry
answer m r nptr flag what = do bot ← m.bot; change_status r nptr m.name flag what bot

-- SetOwner, ClearOwner and the like of a member.
unfoldable pub note_status : Registry → ℕ → ℕ → Bool → Option Registry
note_status r member flag what = do
  mem ← r.member_at member
  some (record r {
    member_at =
        put r.member_at member (some (record mem { flags = change_flags what mem.flags flag }));
  })

-- The level that a letter asks for, where it asks for one.
unfoldable pub letter_level : ChanLevels → ℕ → Option ℤ
letter_level l c =
    if c == b'a'
    then some l.chlev_admin
    else (if c == b'o' then some l.chlev_op else (if c == b'h' then some l.chlev_halfop else none))

-- Whether a user lacks what a letter asks for: a founder's right for `q`, a level for `a`, `o` and `h`.
unfoldable pub lacks : Registry → ℕ → ℕ → Option ℕ → ℕ → Bool → ℤ → Option Bool
unfolding letter_level
lacks r fuel c uptr chptr authed flag =
    let by_founder : Option Bool = (do
      founder ← is_founder r fuel uptr (some chptr)
      some (not founder || not authed)) in
    let by_level : Option Bool = elim (letter_level r.config.levels c) [
      | none ↦ some false
      | some level ↦ some (lt_ℤ flag level || not authed)
    ] in
    if c == b'q' then by_founder else by_level

-- Whether a status that was given is taken back: on a registered channel, from one who lacks it, with
-- the option STRICTOP, or as an operator who is alone.
unfoldable pub takes_back : Change → Registry → ℕ → ℕ → Option ℕ → Bool → ℤ → Option Bool
unfolding lacks
takes_back m r fuel c uptr authed flag = elim m.chptr [
  | none ↦ some false
  | some chptr ↦ do
    chan ← r.chan_at chptr
    lacking ← lacks r fuel c uptr chptr authed flag
    number ← members_num r m.wchan
    let alone = (c == b'o') && (number == 1)
    some (lacking && (alone || has chan.options copt_strictop))
]

-- A member that gets a status.
unfoldable pub give_member : Change → Registry → ℕ → ℕ → ℕ → ℕ → Option Registry
unfolding takes_back answer note_status letter_status
give_member m r fuel c nptr2 member = do
  uptr ← find_account r nptr2
  flag ← get_flag r fuel uptr m.chptr
  authed ← is_authed? r uptr
  back ← takes_back m r fuel c uptr authed flag
  let refused : Option Registry = answer m r nptr2 (letter_status c) false
  let noted : Option Registry = note_status r member (letter_status c) true
  if (eq_ℤ flag r.config.levels.chlev_nostatus && authed) || back then refused else noted

-- `+` with a letter for a status.
unfoldable pub give_letter : Change → Registry → ℕ → ℕ → Option Str → Option Registry
unfolding give_member if_found
give_letter m r fuel c arg =
    find_nick? r arg
    >>= if_found r
        (λ nptr2. find_member r m.wchan nptr2 >>= if_found r (give_member m r fuel c nptr2))

-- Whether a user has what a letter asks for, for the letters that PROTECTOPS protects.
unfoldable pub holds : Registry → ℕ → ℕ → Option ℕ → ℕ → Option Bool
unfolding letter_level
holds r fuel c uptr chptr =
    let founder : Option Bool = is_founder r fuel uptr (some chptr) in
    let by_level : Option Bool = (do
      flag ← get_flag r fuel uptr (some chptr)
      elim (letter_level r.config.levels c) [
        | none ↦ some false
        | some level ↦ some (le_ℤ level flag)
      ]) in
    if c == b'q' then founder else (if (c == b'a') || (c == b'o') then by_level else some false)

-- The nick of an account, NULL for none.
unfoldable pub account_nick : Registry → Option ℕ → Option (Option Str)
account_nick r none = some none
account_nick r (some uptr) = do user ← r.user_at uptr; some (some user.nick)

-- Whether a status that was taken is given back: on a registered channel with the option PROTECTOPS, to
-- one who holds it, but for what a user takes from himself.
unfoldable pub gives_back : Change → Registry → ℕ → ℕ → Option ℕ → Option Bool
unfolding holds account_nick
gives_back m r fuel c uptr = elim m.chptr [
  | none ↦ some false
  | some chptr ↦ do
    chan ← r.chan_at chptr
    nick ← account_nick r uptr
    right ← holds r fuel c uptr chptr
    authed ← is_authed? r uptr
    some (
        not (str_eq nick (some m.sender))
        && (right && (authed && has chan.options copt_protectops)))
]

-- A member that loses a status.
unfoldable pub take_member : Change → Registry → ℕ → ℕ → ℕ → Option ℕ → ℕ → Option Registry
unfolding gives_back answer note_status letter_status
take_member m r fuel c nptr2 uptr member = do
  back ← gives_back m r fuel c uptr
  let restored : Option Registry = answer m r nptr2 (letter_status c) true
  let noted : Option Registry = note_status r member (letter_status c) false
  if back then restored else noted

-- Whether it is the bot of the channel that loses `a` or `o`.
unfoldable pub is_bot : Change → ℕ → Option Str → Bool
is_bot m c arg =
    ((c == b'a') || (c == b'o')) && elim m.bot [ none ↦ false | some bot ↦ str_eq (some bot) arg ]

-- `-` with a letter for a status. find_account reads through what find_nick returned.
unfoldable pub take_letter : Change → Registry → ℕ → ℕ → Option Str → Option Registry
unfolding take_member if_found is_bot
take_letter m r fuel c arg = do
  found ← find_nick? r arg
  nptr2 ← found
  member ← find_member r m.wchan nptr2
  uptr ← find_account r nptr2
  let back : Option Registry = (do bot ← m.bot; some (send (restore_bot bot m.name c bot) r))
  let taken : Option Registry = if_found r (take_member m r fuel c nptr2 uptr) member
  if is_bot m c arg then back else taken

-- One letter under a sign.
unfoldable pub apply_letter : Change → Registry → ℕ → Bool → ℕ → ℕ → Option Registry
unfolding give_letter take_letter arg_at letter_status
apply_letter m r fuel plus c warg =
    let given : Option Registry = arg_at m.args warg >>= give_letter m r fuel c in
    let taken : Option Registry = arg_at m.args warg >>= take_letter m r fuel c in
    if letter_status c == 0 then some r else (if plus then given else taken)

-- The sign behind a byte.
abbrev pub sign_after : ℕ → Bool → Bool
sign_after c plus = if c == b'-' then false else (if c == b'+' then true else plus)

-- The two loops over the modes, each of which goes to the other at its sign.
unfoldable pub apply_letters : Change → ℕ → Registry → Bool → Str → ℕ → Option Registry
unfolding apply_letter
apply_letters m fuel r plus [] warg = some r
apply_letters m fuel r plus (c ∷ modes) warg = do
  changed ← apply_letter m r fuel plus c warg
  apply_letters m fuel changed (sign_after c plus) modes
      (if is_char_in_string c with_word then warg + 1 else warg)

-- The modes by their first byte.
unfoldable pub apply_modes : Change → ℕ → Registry → Str → Option Registry
unfolding apply_letters
apply_modes m fuel r [] = some r
apply_modes m fuel r (sign ∷ modes) =
    let given : Option Registry = apply_letters m fuel r true modes 0 in
    let taken : Option Registry = apply_letters m fuel r false modes 0 in
    if sign == b'+' then given else (if sign == b'-' then taken else some r)
