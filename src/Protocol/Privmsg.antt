-- ===== src/Protocol/Privmsg.antt =====
-- m_privmsg (src/parseline.c): a message to the services or to a channel, and the command in it. What
-- the commands do is an argument.
use child.Prelude.{
  ℕ, Bool, false, not, ◌||◌, ◌++◌, ◌==◌, Option, none, some, [], ◌∷◌, if◌then◌else◌,
}
use child.Protocol.Rooms.{find_wchan?}
use child.Prelude.Maybe.{◌>>=◌}
use child.Strings.{Str, strncpy, str_eq, strip_blanks, behind_char, separate_word}
use child.Notices.{access_denied, unknown_command, version}
use child.Registry.{Registry, put, find_nick, find_account, find_channel, has_umode}
use child.Commands.{Commands, cmd_bot, cmd_base}
use child.Protocol.{Hooks, run_hooks, after_colon}
use child.Protocol.Identity.{if_found}
use child.Protocol.Umodes.{umode_oper}
use child.Protocol.Flood.{throttle}
use child.Services.{notice_to_user, serve, is_of_type}

abbrev pub hook_privmsg : ℕ
hook_privmsg = 0x100

abbrev pub hook_pre_privmsg : ℕ
hook_pre_privmsg = 0x80

-- The functions of the commands: of a channel, with the channel and its entry on the network, and of
-- the services.
pub record Functions : Type 0 where
  pub on_bot : ℕ → ℕ → Option ℕ → ℕ → ℕ → Option Str → Registry → Option Registry
  pub on_base : ℕ → ℕ → Option ℕ → Str → Registry → Option Registry

-- `some r`, for a search that finds nothing.
abbrev pub nothing : Registry → Option Registry
nothing r = some r

-- A command to the bot of a channel that is registered and on the network.
unfoldable pub bot_command :
    Commands → Functions → Registry → ℕ → Option ℕ → Str → Option ℕ → Option ℕ → Option Registry
unfolding serve
bot_command c f r nptr uptr text (some chptr) (some wchan) =
    let (arg1, rest) = separate_word (strncpy 1024 text) in
    let (_, words) = separate_word text in
    serve c (is_of_type (some arg1) cmd_bot) nothing nothing
      (λ func. f.on_bot func nptr uptr chptr wchan words) r uptr
bot_command c f r nptr uptr text _ _ = some r

abbrev pub version_request : Str
version_request = 1 ∷ b'V' ∷ b'E' ∷ b'R' ∷ b'S' ∷ b'I' ∷ b'O' ∷ b'N' ∷ 1 ∷ []

-- No command has the name: the hook, and else a notice.
unfoldable pub unknown_message : Hooks → ℕ → Option ℕ → Str → Str → Registry → Option Registry
unfolding notice_to_user run_hooks
unknown_message hooks nptr uptr target text r = do
  ran ←
      run_hooks hooks hook_privmsg
        (record {
          nptr = some nptr;
          uptr = uptr;
          chptr = none;
          parv = some target ∷ some text ∷ [];
        })
        r
  let told : Option Registry = notice_to_user ran.1 nptr unknown_command
  if ran.0 then some ran.1 else told

-- A message to the services under one of their names.
unfoldable pub base_command :
    Commands → Functions → Hooks → Registry → ℕ → Option ℕ → Str → Str → Str → Option Registry
unfolding serve unknown_message notice_to_user
base_command c f hooks r nptr uptr target full text =
    let (arg1, _) = separate_word (strncpy 1024 text) in
    let mymask = r.config.nick ++ b'@' ∷ r.config.name in
    let named =
      str_eq (some target) (some r.config.nick)
      || (str_eq (some target) (some mymask) || str_eq (some target) (some r.uid)) in
    let versioned : Option Registry = notice_to_user r nptr version in
    let served : Option Registry =
      serve c (is_of_type (some arg1) cmd_base) (unknown_message hooks nptr uptr target full)
        (λ s. notice_to_user s nptr access_denied) (λ func. f.on_base func nptr uptr text) r uptr in
    if not named
    then some r
    else (if str_eq (some arg1) (some version_request) then versioned else served)

-- m_privmsg behind the bound on the number of messages.
unfoldable pub message_from :
    Commands → Functions → Hooks → Registry → ℕ → Bool → Str → Str → Str → Option Registry
unfolding bot_command base_command run_hooks find_wchan?
message_from c f hooks r nptr to_channel target full text = do
  uptr ← find_account r nptr
  let chptr : Option ℕ = (if to_channel then find_channel r (some target) else none)
  wchan ← (if to_channel then find_wchan? r (some target) else some none)
  ran ←
      run_hooks hooks hook_pre_privmsg
        (record {
          nptr = some nptr;
          uptr = uptr;
          chptr = chptr;
          parv = some target ∷ some full ∷ [];
        })
        r
  let bot : Option Registry = bot_command c f ran.1 nptr uptr text chptr wchan
  let base : Option Registry = base_command c f hooks ran.1 nptr uptr target full text
  if ran.0 then some ran.1 else (if to_channel then bot else base)

-- The bound, which a message to a channel and an operator do not have.
unfoldable pub privmsg_nick :
    Commands → Functions → Hooks → Registry → Bool → Str → Str → Str → ℕ → Option Registry
unfolding throttle message_from
privmsg_nick c f hooks r to_channel target full text nptr = do
  nick ← r.nick_at nptr
  oper ← has_umode r (some nptr) umode_oper
  let (dropped, nick2) = throttle r.config r.now nick
  let counted : Registry = record r { nick_at = put r.nick_at nptr (some nick2) }
  let free : Option Registry = message_from c f hooks r nptr to_channel target full text
  let bounded : Option Registry = message_from c f hooks counted nptr to_channel target full text
  if to_channel || oper then free else (if dropped then some counted else bounded)

-- The text behind the first colon, once the target is cut off: a colon in the target comes first.
unfoldable pub text_of : Str → Option Str
text_of tail = elim (behind_char b':' (separate_word tail).0) [
  | some text ↦ some text
  | none ↦ behind_char b':' tail
]

abbrev pub is_channel_name : Str → Bool
is_channel_name [] = false
is_channel_name (c ∷ s) = c == b'#'

-- m_privmsg for a tail that is not NULL.
unfoldable pub privmsg_text :
    Commands → Functions → Hooks → Registry → Str → Str → Str → Option Registry
unfolding privmsg_nick if_found
privmsg_text c f hooks r sender target full = elim (strip_blanks full) [
  | [] ↦ some r
  | d ∷ text ↦
      find_nick r (after_colon sender)
      >>= if_found r
          (privmsg_nick c f hooks r (is_channel_name target) target (strncpy 1023 full) (d ∷ text))
]

unfoldable pub m_privmsg :
    Commands → Functions → Hooks → Registry → Str → Option Str → Option Registry
unfolding privmsg_text text_of
m_privmsg c f hooks r sender none = some r
m_privmsg c f hooks r sender (some tail) = elim (text_of tail) [
  | none ↦ some r
  | some full ↦ privmsg_text c f hooks r sender (separate_word tail).0 full
]
