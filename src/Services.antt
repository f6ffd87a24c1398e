-- ===== src/Services.antt =====
-- The user commands (src/modules/m_nick.c, src/modules/m_chan.c): the search of a command and the test
-- of the level of the one who calls it, which do_nick, do_chan, nick_set, chan_set and m_privmsg
-- (src/parseline.c) share. What a command's function does is an argument.
pub mod Rights
pub mod Status
pub mod Options
pub mod Chans
pub mod Upkeep
pub mod Kicks
pub mod Suspend
pub mod Flags
pub mod Levels
pub mod Chanaccess
pub mod Lower
pub mod Granted
pub mod Nicks
pub mod Identify
pub mod Settings
pub mod Attempts
pub mod Authorised
pub mod Refused
pub mod Stranger
use child.Prelude.{
  ℕ, Bool, true, false, not, ◌&&◌, ◌||◌, ◌==◌, Option, none, some, List, [], ◌∷◌, if◌then◌else◌,
}
use child.Prelude.Int.{ℤ, pos, le_ℤ, eq_ℤ}
use child.Prelude.Maybe.{◌>>=◌}
use child.Strings.{Str, str_eq, separate_word?}
use child.Notices.{
  Notice, access_denied, unknown_command, unknown_option, type_for_help, syntax_nick_option,
  syntax_chan_set, chan_unknown,
}
use child.Registry.{Registry, notice, send, find_channel}
use child.Commands.{
  Command, Commands, cmd_nick, cmd_chan, cmd_bot, cmd_base, cmd_nick_set, cmd_chan_set,
  cmd_chan_set,
}

-- NoticeToUser
unfoldable pub notice_to_user : Registry → ℕ → Notice → Option Registry
notice_to_user r nptr text = do
  nick ← r.nick_at nptr
  some (send (notice r.config.nick nick.name text) r)

-- Whether a caller, with an account or none, may use a command of this level.
unfoldable pub is_allowed : Registry → Option ℕ → ℤ → Option Bool
is_allowed r none level = some (eq_ℤ level (pos 0))
is_allowed r (some uptr) level = do
  user ← r.user_at uptr
  some (if user.authed then le_ℤ level user.level else eq_ℤ level (pos 0))

-- The first command of the list that a test accepts.
unfoldable pub first_command : Commands → (Command → Bool) → List ℕ → Option (Option Command)
first_command c accepts [] = some none
first_command c accepts (a ∷ as') =
    let later = first_command c accepts as' in
    do cmd ← c.command_at a; if accepts cmd then some (some cmd) else later

-- The function of a command is called with the registry and the rest of the line.
abbrev pub Run : Type 0
Run = ℕ → Registry → Option Registry

-- What happens with the command found: its function is called if the caller may use it.
unfoldable pub call_found :
    (Registry → Option Registry)
    → (Registry → Option Registry)
    → Run
    → Registry
    → Option ℕ
    → Option Command
    → Option Registry
unfolding is_allowed
call_found unknown denied run r uptr none = unknown r
call_found unknown denied run r uptr (some cmd) = do
  allowed ← is_allowed r uptr cmd.level
  let called : Option Registry = run cmd.func r
  let refused : Option Registry = denied r
  if allowed then called else refused

-- The loop over the commands of one kind.
unfoldable pub serve :
    Commands
    → (Command → Bool)
    → (Registry → Option Registry)
    → (Registry → Option Registry)
    → Run
    → Registry
    → Option ℕ
    → Option Registry
unfolding first_command call_found
serve c accepts unknown denied run r uptr =
    first_command c accepts c.list >>= call_found unknown denied run r uptr

-- A command of a name and a type.
abbrev pub is_of_type : Option Str → ℕ → Command → Bool
is_of_type name type cmd = str_eq (some cmd.name) name && (cmd.type == type)

-- A command of a name, a type and a subtype.
abbrev pub is_of_subtype : Option Str → ℕ → ℕ → Command → Bool
is_of_subtype name type subtype cmd = is_of_type name type cmd && (cmd.subtype == subtype)

abbrev help_word : Str
help_word = b'h' ∷ b'e' ∷ b'l' ∷ b'p' ∷ []

-- The words of a command with its name: the second one, and what follows it.
unfoldable pub command_words : Str → Option Str × Option Str
command_words all = let (_, rest) = separate_word? (some all) in separate_word? rest

-- do_nick, but for `help`. The line has a name of the services before the command.
unfoldable pub do_nick :
    Commands
    → (Registry → Option Registry)
    → (ℕ → Option Str → Registry → Option Registry)
    → Registry
    → ℕ
    → Option ℕ
    → Str
    → Option Registry
unfolding command_words serve notice_to_user
do_nick c help run r nptr uptr all =
    let (arg2, words) = command_words all in
    let helped : Option Registry = help r in
    let served : Option Registry =
      serve c (is_of_type arg2 cmd_nick) (λ s. notice_to_user s nptr unknown_command)
        (λ s. notice_to_user s nptr access_denied) (λ func. run func words) r uptr in
    elim arg2 [
      | some (d ∷ name) ↦ if str_eq (some (d ∷ name)) (some help_word) then helped else served
      | _ ↦ notice_to_user r nptr type_for_help
    ]

-- do_chan, but for `help`; the channel is that of the third word.
unfoldable pub do_chan :
    Commands
    → (Registry → Option Registry)
    → (ℕ → Option ℕ → Option Str → Registry → Option Registry)
    → Registry
    → ℕ
    → Option ℕ
    → Str
    → Option Registry
unfolding command_words serve notice_to_user
do_chan c help run r nptr uptr all =
    let (arg2, words) = command_words all in
    let chptr = find_channel r ((separate_word? words).0) in
    let helped : Option Registry = help r in
    let served : Option Registry =
      serve c (is_of_type arg2 cmd_chan) (λ s. notice_to_user s nptr unknown_command)
        (λ s. notice_to_user s nptr access_denied) (λ func. run func chptr words) r uptr in
    elim arg2 [
      | some (d ∷ name) ↦ if str_eq (some (d ∷ name)) (some help_word) then helped else served
      | _ ↦ notice_to_user r nptr type_for_help
    ]

-- nick_set: the option and its value, which must be there. Without a rest of the line it reads an array
-- that is not set.
unfoldable pub nick_set :
    Commands
    → (ℕ → Option Str → Registry → Option Registry)
    → Registry
    → ℕ
    → Option ℕ
    → Option Str
    → Option Registry
unfolding serve notice_to_user
nick_set c run r nptr uptr none = none
nick_set c run r nptr uptr (some all) =
    let (arg3, words) = separate_word? (some all) in
    let (arg4, _) = separate_word? words in
    let served : Option Registry =
      serve c (is_of_subtype arg3 cmd_nick cmd_nick_set) (λ s. notice_to_user s nptr unknown_option)
        (λ s. notice_to_user s nptr access_denied) (λ func. run func words) r uptr in
    elim arg3 [
      | some (d ∷ option) ↦ elim arg4 [
        | some (e ∷ value) ↦ served
        | _ ↦ notice_to_user r nptr syntax_nick_option
      ]
      | _ ↦ notice_to_user r nptr syntax_nick_option
    ]

-- The words that chan_set must have: a channel, an option and a value.
unfoldable pub are_set_words : Option Str → Option Str → Option Str → Bool
are_set_words (some (x ∷ name)) (some (d ∷ option)) (some (e ∷ value)) = x == b'#'
are_set_words _ _ _ = false

-- chan_set. Without a rest of the line it reads an array that is not set.
unfoldable pub chan_set :
    Commands
    → (ℕ → ℕ → Option Str → Registry → Option Registry)
    → Registry
    → ℕ
    → Option ℕ
    → Option ℕ
    → Option Str
    → Option Registry
unfolding serve are_set_words notice_to_user
chan_set c run r nptr uptr chptr none = none
chan_set c run r nptr uptr chptr (some all) =
    let (arg3, rest) = separate_word? (some all) in
    let (arg4, words) = separate_word? rest in
    let (arg5, _) = separate_word? words in
    let served : Option Registry = elim chptr [
      | none ↦ notice_to_user r nptr chan_unknown
      | some a ↦
          serve c (is_of_subtype arg4 cmd_chan cmd_chan_set)
            (λ s. notice_to_user s nptr unknown_option) (λ s. notice_to_user s nptr access_denied)
            (λ func. run func a words) r uptr
    ] in
    let misused : Option Registry = notice_to_user r nptr syntax_chan_set in
    if are_set_words arg3 arg4 arg5 then served else misused
