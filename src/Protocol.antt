-- ===== src/Protocol.antt =====
-- The dispatch of a line of the server protocol: parse_line (src/parseline.c) and RunHooks
-- (src/modules.c). What the loaded modules do in a hook is an argument.
pub mod Uplink
pub mod Identity
pub mod Rooms
pub mod Renames
pub mod Umodes
pub mod Kept
pub mod Leaving
pub mod Signs
pub mod Renamed
pub mod Flood
pub mod Bound
pub mod Heard
pub mod Privmsg
pub mod Uids
pub mod Locks
pub mod Modes
pub mod Chanmodes
pub mod Joins
pub mod Sjoin
pub mod Faults
pub mod Enforced
pub mod Tokens
use child.Prelude.{
  ℕ, Bool, true, false, not, ◌||◌, ◌==◌, Option, none, some, List, [], ◌∷◌, bit_and, if◌then◌else◌,
}
use child.Prelude.Maybe.{◌>>=◌}
use child.Strings.{Str, strip_blanks, separate_word, separate_word?, str_eq}
use child.Registry.{Registry}

-- The handlers of parse_line.
pub data Handler : Type 0 where
  on_nick : Handler
  on_kick : Handler
  on_join : Handler
  on_quit : Handler
  on_kill : Handler
  on_mode : Handler
  on_umode : Handler
  on_part : Handler
  on_sethost : Handler
  on_setident : Handler
  on_chghost : Handler
  on_chgident : Handler
  on_privmsg : Handler
  on_topic : Handler
  on_uid : Handler
  on_sasl : Handler
  on_sid : Handler
  on_sjoin : Handler
  on_ping : Handler
  on_protoctl : Handler
  on_stopic : Handler
  on_eos : Handler
  on_server : Handler
  on_squit : Handler

abbrev pub Handlers : Type 0
Handlers = List (Str × Handler)

unfoldable pub senders : Handlers
senders =
    (b'P' ∷ b'I' ∷ b'N' ∷ b'G' ∷ [], on_ping)
    ∷ (b'P' ∷ b'R' ∷ b'O' ∷ b'T' ∷ b'O' ∷ b'C' ∷ b'T' ∷ b'L' ∷ [], on_protoctl)
    ∷ (b'T' ∷ b'O' ∷ b'P' ∷ b'I' ∷ b'C' ∷ [], on_stopic)
    ∷ (b'N' ∷ b'E' ∷ b'T' ∷ b'I' ∷ b'N' ∷ b'F' ∷ b'O' ∷ [], on_eos)
    ∷ (b'S' ∷ b'E' ∷ b'R' ∷ b'V' ∷ b'E' ∷ b'R' ∷ [], on_server)
    ∷ (b'S' ∷ b'Q' ∷ b'U' ∷ b'I' ∷ b'T' ∷ [], on_squit)
    ∷ []

unfoldable pub commands : Handlers
commands =
    (b'N' ∷ b'I' ∷ b'C' ∷ b'K' ∷ [], on_nick)
    ∷ (b'K' ∷ b'I' ∷ b'C' ∷ b'K' ∷ [], on_kick)
    ∷ (b'J' ∷ b'O' ∷ b'I' ∷ b'N' ∷ [], on_join)
    ∷ (b'Q' ∷ b'U' ∷ b'I' ∷ b'T' ∷ [], on_quit)
    ∷ (b'K' ∷ b'I' ∷ b'L' ∷ b'L' ∷ [], on_kill)
    ∷ (b'M' ∷ b'O' ∷ b'D' ∷ b'E' ∷ [], on_mode)
    ∷ (b'U' ∷ b'M' ∷ b'O' ∷ b'D' ∷ b'E' ∷ b'2' ∷ [], on_umode)
    ∷ (b'P' ∷ b'A' ∷ b'R' ∷ b'T' ∷ [], on_part)
    ∷ (b'S' ∷ b'E' ∷ b'T' ∷ b'H' ∷ b'O' ∷ b'S' ∷ b'T' ∷ [], on_sethost)
    ∷ (b'S' ∷ b'E' ∷ b'T' ∷ b'I' ∷ b'D' ∷ b'E' ∷ b'N' ∷ b'T' ∷ [], on_setident)
    ∷ (b'C' ∷ b'H' ∷ b'G' ∷ b'H' ∷ b'O' ∷ b'S' ∷ b'T' ∷ [], on_chghost)
    ∷ (b'C' ∷ b'H' ∷ b'G' ∷ b'I' ∷ b'D' ∷ b'E' ∷ b'N' ∷ b'T' ∷ [], on_chgident)
    ∷ (b'P' ∷ b'R' ∷ b'I' ∷ b'V' ∷ b'M' ∷ b'S' ∷ b'G' ∷ [], on_privmsg)
    ∷ (b'T' ∷ b'O' ∷ b'P' ∷ b'I' ∷ b'C' ∷ [], on_topic)
    ∷ (b'U' ∷ b'I' ∷ b'D' ∷ [], on_uid)
    ∷ (b'S' ∷ b'A' ∷ b'S' ∷ b'L' ∷ [], on_sasl)
    ∷ (b'S' ∷ b'I' ∷ b'D' ∷ [], on_sid)
    ∷ (b'S' ∷ b'J' ∷ b'O' ∷ b'I' ∷ b'N' ∷ [], on_sjoin)
    ∷ []

-- The loop over a table.
unfoldable pub handler_of : Str → Handlers → Option Handler
handler_of word [] = none
handler_of word ((name, h) ∷ table) =
    let later = handler_of word table in if str_eq (some word) (some name) then some h else later

-- A call of a handler: its first argument and its tail, which may be NULL.
abbrev pub Call : Type 0
Call = Handler × Str × Option Str

unfoldable pub call_command : Str → Option Str → Option Handler → Option Call
call_command sender tail none = none
call_command sender tail (some h) = some (h, sender, tail)

unfoldable pub call_sender : Str → Str → Option Str → Option Handler → Option Call
unfolding handler_of commands call_command
call_sender sender command tail none = call_command sender tail (handler_of command commands)
call_sender sender command tail (some h) = some (h, command, tail)

-- The two tables in their order.
unfoldable pub call_in_tables : Str → Str → Option Str → Option Call
unfolding handler_of senders call_sender
call_in_tables sender command tail = call_sender sender command tail (handler_of sender senders)

unfoldable pub with_command : Str → Str × Option Str → Option (Str × Str × Option Str)
with_command sender ([], tail) = none
with_command sender (c ∷ command, tail) = some (sender, c ∷ command, tail)

-- The words of a line: sender, command and tail. A line without a command is ignored.
unfoldable pub command_words : Str → Option Str → Option (Str × Str × Option Str)
unfolding with_command
command_words [] rest = none
command_words (c ∷ sender) none = none
command_words (c ∷ sender) (some rest) = with_command (c ∷ sender) (separate_word rest)

unfoldable pub line_words : Str → Option (Str × Str × Option Str)
unfolding command_words
line_words line =
    let (sender, rest) = separate_word (strip_blanks line) in command_words sender rest

-- The arguments of a hook: a nick, its account, a channel and words, NULL or not.
pub record HookArgs : Type 0 where
  pub nptr : Option ℕ
  pub uptr : Option ℕ
  pub chptr : Option ℕ
  pub parv : List (Option Str)

-- The hooks of all modules in the order of the loop, each with its mask; `true` is MOD_STOP.
abbrev pub Hooks : Type 0
Hooks = List (ℕ × (HookArgs → Registry → Option (Bool × Registry)))

unfoldable pub run_hooks_from : Bool → Hooks → ℕ → HookArgs → Registry → Option (Bool × Registry)
run_hooks_from modstop [] hook_mask args r = some (modstop, r)
run_hooks_from modstop ((mask, ptr) ∷ hooks) hook_mask args r =
    let later : Bool × Registry → Option (Bool × Registry) =
      λ ran. run_hooks_from (modstop || ran.0) hooks hook_mask args ran.1 in
    if bit_and mask hook_mask == 0 then later (false, r) else ptr args r >>= later

unfoldable pub run_hooks : Hooks → ℕ → HookArgs → Registry → Option (Bool × Registry)
unfolding run_hooks_from
run_hooks hooks hook_mask args r = run_hooks_from false hooks hook_mask args r

abbrev pub hook_raw : ℕ
hook_raw = 0x200

-- `true` of the hooks is MOD_STOP: then nothing is called.
unfoldable pub unless_stopped : Option Call → Bool × Registry → Option Call × Registry
unless_stopped call (stopped, r) = (if stopped then none else call, r)

-- What parse_line calls for a line, after the hooks of its words.
unfoldable pub parse_line : Hooks → Registry → Str → Option (Option Call × Registry)
unfolding line_words call_in_tables run_hooks unless_stopped
parse_line hooks r line = elim (line_words line) [
  | none ↦ some (none, r)
  | some words ↦ do
    let (sender, command, tail) = words
    ran ←
        run_hooks hooks hook_raw
          (record {
            nptr = none;
            uptr = none;
            chptr = none;
            parv = some sender ∷ some command ∷ tail ∷ [];
          })
          r
    some (unless_stopped (call_in_tables sender command tail) ran)
]

-- `sender++`: a sender is not empty here.
unfoldable pub after_colon : Str → Str
after_colon [] = []
after_colon (c ∷ s) = s

abbrev pub no_args : HookArgs
no_args = record { nptr = none; uptr = none; chptr = none; parv = [] }
