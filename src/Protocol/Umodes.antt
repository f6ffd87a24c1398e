-- ===== src/Protocol/Umodes.antt =====
-- m_umode (src/parseline.c), with SetUmode and ClearUmode (src/nick.h).
use child.Prelude.{
  ℕ, ◌-◌, Bool, false, Option, none, some, List, [], ◌∷◌, ◌==◌, bit_and, bit_or, if◌then◌else◌,
}
use child.Prelude.Maybe.{◌>>=◌}
use child.Strings.{Str, is_char_in_string, separate_word?}
use child.Registry.{Registry, Nick, put, send, globops_oper, find_nick, find_account, umode_nokick}
use child.Protocol.{Hooks, run_hooks}
use child.Protocol.Identity.{if_found}

abbrev pub umode_oper : ℕ
umode_oper = 0x1

abbrev pub umode_sadmin : ℕ
umode_sadmin = 0x2

abbrev pub umode_admin : ℕ
umode_admin = 0x4

abbrev pub umode_bot : ℕ
umode_bot = 0x10

abbrev pub umode_nadmin : ℕ
umode_nadmin = 0x20

abbrev pub umode_service : ℕ
umode_service = 0x40

abbrev pub hook_umode : ℕ
hook_umode = 0x20

-- The tests of m_umode in their order: the letter, and the mode it stands for.
abbrev pub umode_letters : List (ℕ × ℕ)
umode_letters =
    (b'o', umode_oper)
    ∷ (b'a', umode_sadmin)
    ∷ (b'A', umode_admin)
    ∷ (b'N', umode_nadmin)
    ∷ (b'B', umode_bot)
    ∷ (b'S', umode_service)
    ∷ (b'q', umode_nokick)
    ∷ []

unfoldable pub set_umodes : List (ℕ × ℕ) → Str → ℕ → ℕ
set_umodes [] umode umodes = umodes
set_umodes ((letter, mode) ∷ letters) umode umodes =
    let set : ℕ = (if is_char_in_string letter umode then bit_or umodes mode else umodes) in
    set_umodes letters umode set

unfoldable pub clear_umodes : List (ℕ × ℕ) → Str → ℕ → ℕ
clear_umodes [] umode umodes = umodes
clear_umodes ((letter, mode) ∷ letters) umode umodes =
    let cleared : ℕ =
      (if is_char_in_string letter umode then umodes - bit_and umodes mode else umodes) in
    clear_umodes letters umode cleared

-- What `umode` makes of a nick, by its first byte.
unfoldable pub apply_umode : Str → Nick → Nick
unfolding set_umodes clear_umodes
apply_umode [] nick = nick
apply_umode (sign ∷ s) nick =
    let set : Nick = record nick { umodes = set_umodes umode_letters (sign ∷ s) nick.umodes } in
    let cleared : Nick = record nick {
      umodes = clear_umodes umode_letters (sign ∷ s) nick.umodes;
      hiddenhost = if is_char_in_string b'x' (sign ∷ s) then nick.host else nick.hiddenhost;
    } in
    if sign == b'+' then set else (if sign == b'-' then cleared else nick)

-- Whether globops is told of a new operator.
unfoldable pub new_oper : Str → Bool
new_oper [] = false
new_oper (sign ∷ s) = if sign == b'+' then is_char_in_string b'o' (sign ∷ s) else false

-- strtok(s, ":"), none for NULL.
unfoldable pub upto_colon : Str → Str
upto_colon [] = []
upto_colon (c ∷ s) = if c == b':' then [] else c ∷ upto_colon s

unfoldable pub strtok_colon : Str → Option Str
unfolding upto_colon
strtok_colon [] = none
strtok_colon (c ∷ s) = if c == b':' then strtok_colon s else some (c ∷ upto_colon s)

unfoldable pub umode_nick : Hooks → Registry → Str → ℕ → Option Registry
unfolding apply_umode new_oper run_hooks
umode_nick hooks r umode nptr = do
  uptr ← find_account r nptr
  nick ← r.nick_at nptr
  let changed : Registry = record r { nick_at = put r.nick_at nptr (some (apply_umode umode nick)) }
  let told : Registry = (if new_oper umode then send (globops_oper nick.name) changed else changed)
  ran ←
      run_hooks hooks hook_umode
        (record { nptr = some nptr; uptr = uptr; chptr = none; parv = some umode ∷ [] }) told
  some ran.1

-- m_umode for its two words; without one of them nothing happens.
unfoldable pub umode_words : Hooks → Registry → Option Str → Option Str → Option Registry
unfolding find_nick if_found umode_nick
umode_words hooks r (some (c ∷ nick)) (some (d ∷ umode)) =
    find_nick r (c ∷ nick) >>= if_found r (umode_nick hooks r (d ∷ umode))
umode_words hooks r nick umode = some r

unfoldable pub m_umode : Hooks → Registry → Str → Option Str → Option Registry
unfolding umode_words strtok_colon
m_umode hooks r sender tail =
    let (umode, _) = separate_word? tail in umode_words hooks r (strtok_colon sender) umode
