-- ===== src/Protocol/Chanmodes.antt =====
-- m_mode (src/parseline.c) for a line: the words, and whether it is about a nick or a channel.
use child.Prelude.{
  ℕ, zero, suc, ◌==◌, Option, none, some, List, [], ◌∷◌, ltb, length, if◌then◌else◌,
}
use child.Core.{unless_aborted}
use child.Prelude.Maybe.{◌>>=◌}
use child.Strings.{Str, is_char_in_string, separate_word, separate_word?}
use child.Registry.{Registry, find_nick, find_channel, find_wchan}
use child.Channels.{channel_botname}
use child.Protocol.{Hooks, after_colon}
use child.Protocol.Identity.{if_found}
use child.Protocol.Umodes.{umode_nick}
use child.Protocol.Locks.{check_lock}
use child.Protocol.Modes.{apply_modes}

-- The length of the array `args`, which holds a NULL behind the words.
abbrev pub max_args : ℕ
max_args = 50

-- The loop that fills `args`, with fuel for the bytes of the line.
unfoldable pub arg_words : ℕ → Option Str → List Str
arg_words fuel none = []
arg_words zero (some s) = []
arg_words (suc fuel) (some s) = let (word, rest) = separate_word s in word ∷ arg_words fuel rest

-- The lock and the bot of a registered channel.
unfoldable pub locked_by : Registry → Str → Option ℕ → Option (Option Str × Registry)
unfolding check_lock
locked_by r modes none = some (none, r)
locked_by r modes (some chptr) = do
  chan ← r.chan_at chptr
  checked ← check_lock r chan modes
  bot ← channel_botname checked chan
  some (some bot, checked)

-- m_mode on a channel of the network.
unfoldable pub mode_wchan : Registry → ℕ → Str → Str → Str → List Str → ℕ → Option Registry
unfolding locked_by apply_modes
mode_wchan r fuel sender name modes args wchan = do
  let chptr = find_channel r (some name)
  checked ← locked_by r modes chptr
  apply_modes
      (record {
        wchan = wchan;
        name = name;
        chptr = chptr;
        bot = checked.0;
        sender = sender;
        args = args;
      })
      fuel checked.1 modes

-- m_mode on a channel: 50 words or more do not fit `args`.
unfoldable pub mode_channel : Registry → ℕ → Str → Str → Option Str → Option Registry
unfolding mode_wchan arg_words if_found unless_aborted
mode_channel r fuel sender name (some (c ∷ text)) =
    let (modes, rest) = separate_word (c ∷ text) in
    let args = arg_words (length (c ∷ text)) rest in
    if ltb (length args) max_args
    then unless_aborted name
        (if_found r (mode_wchan r fuel sender name modes args) (find_wchan r (some name)))
    else none
mode_channel r fuel sender name _ = some r

-- m_mode on a nick; the byte before its modes is skipped.
unfoldable pub mode_nick : Hooks → Registry → Str → Option Str → Option Registry
unfolding umode_nick if_found
mode_nick hooks r (c ∷ nick) (some (d ∷ umode)) =
    let found : Option Registry =
      find_nick r (c ∷ nick) >>= if_found r (umode_nick hooks r umode) in
    if c == b'#' then some r else found
mode_nick hooks r nick umode = some r

-- m_mode, for a tail that is not NULL: a colon in it makes it a line about a nick.
unfoldable pub m_mode : Hooks → Registry → ℕ → Str → Str → Option Registry
unfolding mode_nick mode_channel after_colon
m_mode hooks r fuel sender tail =
    let (name, rest) = separate_word tail in
    let (umode, _) = separate_word? rest in
    if is_char_in_string b':' tail
    then mode_nick hooks r name umode
    else mode_channel r fuel (after_colon sender) name rest
