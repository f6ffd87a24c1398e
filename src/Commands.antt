-- ===== src/Commands.antt =====
-- The table of commands: __addCommand, delCommand, deleteCommand, find_command, setcmdlev and
-- setcmdlev2 (src/commands.c). The function of a command is its address; atoi is the C library's.
pub mod Lookup
pub mod Level
use child.Prelude.{
  ℕ, Bool, true, false, not, ◌&&◌, Option, none, some, List, [], ◌∷◌, ◌++◌, ◌==◌, if◌then◌else◌,
}
use child.Prelude.Int.{ℤ, lt_ℤ}
use child.Prelude.Maybe.{◌>>=◌}
use child.Strings.{Str, strncpy, str_eq, separate_word?}
use child.Registry.{Heap, put, remove}

abbrev pub cmdlen : ℕ
cmdlen = 200

pub record Command : Type 0 where
  pub name : Str
  pub desc : Str
  pub type : ℕ
  pub subtype : ℕ
  pub level : ℤ
  pub func : ℕ

-- core_get_commands and the commands themselves.
pub record Commands : Type 0 where
  pub list : List ℕ
  pub command_at : Heap Command

abbrev pub cmd_base : ℕ
cmd_base = 0

abbrev pub cmd_nick : ℕ
cmd_nick = 1

abbrev pub cmd_chan : ℕ
cmd_chan = 2

abbrev pub cmd_oper : ℕ
cmd_oper = 3

abbrev pub cmd_host : ℕ
cmd_host = 4

abbrev pub cmd_bot : ℕ
cmd_bot = 5

abbrev pub cmd_help : ℕ
cmd_help = 6

abbrev pub cmd_help_nick : ℕ
cmd_help_nick = 1

abbrev pub cmd_help_chan : ℕ
cmd_help_chan = 2

abbrev pub cmd_help_oper : ℕ
cmd_help_oper = 3

abbrev pub cmd_help_host : ℕ
cmd_help_host = 4

abbrev pub cmd_help_bot : ℕ
cmd_help_bot = 5

abbrev pub cmd_help_nick_set : ℕ
cmd_help_nick_set = 6

abbrev pub cmd_help_chan_set : ℕ
cmd_help_chan_set = 7

abbrev pub cmd_chan_set : ℕ
cmd_chan_set = 1

abbrev pub cmd_nick_set : ℕ
cmd_nick_set = 1

unfoldable pub desc_of : Option Str → Str
desc_of none = []
desc_of (some desc) = strncpy cmdlen desc

-- __addCommand, where malloc is not tested.
unfoldable pub add_command :
    (Commands → ℕ) → Commands → Str → ℕ → ℕ → Option Str → ℕ → ℤ → ℕ × Commands
unfolding desc_of
add_command malloc c name type func desc subtype level =
    let newcmd = malloc c in
    let command : Command = record {
      name = strncpy cmdlen name;
      desc = desc_of desc;
      type = type;
      subtype = subtype;
      level = level;
      func = func;
    } in
    (
      newcmd,
      record { list = c.list ++ newcmd ∷ []; command_at = put c.command_at newcmd (some command) },
    )

-- The test of find_command.
unfoldable pub is_command : Command → Option Str → ℕ → ℕ → Bool
is_command tmp name type subtype =
    str_eq (some tmp.name) name && (tmp.type == type) && (tmp.subtype == subtype)

unfoldable pub find_command_in : Heap Command → Option Str → ℕ → ℕ → List ℕ → Option (Option ℕ)
unfolding is_command
find_command_in heap name type subtype [] = some none
find_command_in heap name type subtype (a ∷ as') =
    let later = find_command_in heap name type subtype as' in
    do tmp ← heap a; if is_command tmp name type subtype then some (some a) else later

unfoldable pub find_command : Commands → Option Str → ℕ → ℕ → Option (Option ℕ)
unfolding find_command_in
find_command c name type subtype = find_command_in c.command_at name type subtype c.list

unfoldable pub del_command : Commands → ℕ → Commands
del_command c cmd = record { list = remove cmd c.list; command_at = put c.command_at cmd none }

-- What deleteCommand returns is whether there was such a command.
unfoldable pub del_found : Commands → Option ℕ → Bool × Commands
unfolding del_command
del_found c none = (false, c)
del_found c (some cmd) = (true, del_command c cmd)

unfoldable pub delete_command : Commands → Option Str → ℕ → ℕ → Option (Bool × Commands)
unfolding find_command del_found
delete_command c name type subtype = do
  cmd ← find_command c name type subtype
  some (del_found c cmd)

-- `if (!cmd) return 0; cmd->level = level; return 1;`
unfoldable pub set_level : Commands → ℤ → Option ℕ → Option (Bool × Commands)
set_level c level none = some (false, c)
set_level c level (some cmd) = do
  command ← c.command_at cmd
  some (
    true,
    record c { command_at = put c.command_at cmd (some (record command { level = level })) },
  )

abbrev word_nick : Option Str
word_nick = some (b'n' ∷ b'i' ∷ b'c' ∷ b'k' ∷ [])

abbrev word_chan : Option Str
word_chan = some (b'c' ∷ b'h' ∷ b'a' ∷ b'n' ∷ [])

abbrev word_oper : Option Str
word_oper = some (b'o' ∷ b'p' ∷ b'e' ∷ b'r' ∷ [])

abbrev word_host : Option Str
word_host = some (b'h' ∷ b'o' ∷ b's' ∷ b't' ∷ [])

abbrev word_bot : Option Str
word_bot = some (b'b' ∷ b'o' ∷ b't' ∷ [])

abbrev word_help : Option Str
word_help = some (b'h' ∷ b'e' ∷ b'l' ∷ b'p' ∷ [])

abbrev word_set : Option Str
word_set = some (b's' ∷ b'e' ∷ b't' ∷ [])

-- The kinds of command in the order of their tests.
unfoldable pub kind_of : Option Str → List (Option Str × ℕ) → Option ℕ
kind_of word [] = none
kind_of word ((name, kind) ∷ kinds) =
    let later = kind_of word kinds in if str_eq word name then some kind else later

abbrev pub bases : List (Option Str × ℕ)
bases =
    (word_nick, cmd_nick)
    ∷ (word_chan, cmd_chan)
    ∷ (word_oper, cmd_oper)
    ∷ (word_host, cmd_host)
    ∷ (word_bot, cmd_bot)
    ∷ (word_help, cmd_help)
    ∷ []

abbrev pub help_types : List (Option Str × ℕ)
help_types =
    (word_nick, cmd_help_nick)
    ∷ (word_chan, cmd_help_chan)
    ∷ (word_oper, cmd_help_oper)
    ∷ (word_host, cmd_help_host)
    ∷ (word_bot, cmd_help_bot)
    ∷ []

-- The first switch: `itype`, or none where setcmdlev returns 0.
unfoldable pub itype_of : ℕ → Option Str → Option ℕ
unfolding kind_of
itype_of ibase type =
    let help = kind_of type help_types in
    let set_type : ℕ → Option ℕ = λ kind. some (if str_eq type word_set then kind else 0) in
    if ibase == cmd_nick
    then set_type cmd_nick_set
    else (if ibase == cmd_chan
        then set_type cmd_chan_set
        else (if ibase == cmd_help then help else some 0))

-- The second switch: `isubtype`, which is also the new `itype` unless it is 0.
unfoldable pub isubtype_of : ℕ → Option Str → ℕ
isubtype_of itype subtype =
    let set_type : ℕ → ℕ = λ kind. if str_eq subtype word_set then kind else 0 in
    if itype == cmd_help_nick
    then set_type cmd_help_nick_set
    else (if itype == cmd_help_chan then set_type cmd_help_chan_set else 0)

-- `s && *s != '\0'`
unfoldable pub is_given : Option Str → Bool
is_given none = false
is_given (some []) = false
is_given (some (c ∷ s)) = true

-- The command that setcmdlev looks for, by its name, type and subtype.
unfoldable pub target_of :
    Option Str → Option Str → Option Str → Option Str → ℕ → ℕ → ℕ → Option Str × ℕ × ℕ
unfolding is_given
target_of base type subtype end ibase itype isubtype =
    if not (isubtype == 0)
    then (if is_given end then (end, ibase, isubtype) else (
      subtype,
      ibase,
      if isubtype == cmd_help_nick_set then cmd_help_nick else cmd_help_chan,
    ))
    else (if not (itype == 0)
        then (if is_given subtype then (subtype, ibase, itype) else (type, ibase, 0))
        else (if is_given type then (type, ibase, 0) else (base, cmd_base, 0)))

-- setcmdlev from the base on, and from the type on.
unfoldable pub setcmdlev_typed :
    Commands
    → Option Str
    → Option Str
    → Option Str
    → Option Str
    → ℤ
    → ℕ
    → Option ℕ
    → Option (Bool × Commands)
unfolding isubtype_of target_of find_command set_level
setcmdlev_typed c base type subtype end level ibase none = some (false, c)
setcmdlev_typed c base type subtype end level ibase (some itype) =
    let (name, kind, subkind) =
      target_of base type subtype end ibase itype (isubtype_of itype subtype) in
    find_command c name kind subkind >>= set_level c level

unfoldable pub setcmdlev_from :
    Commands
    → Option Str
    → Option Str
    → Option Str
    → Option Str
    → ℤ
    → Option ℕ
    → Option (Bool × Commands)
unfolding itype_of setcmdlev_typed
setcmdlev_from c base type subtype end level none = some (false, c)
setcmdlev_from c base type subtype end level (some ibase) =
    setcmdlev_typed c base type subtype end level ibase (itype_of ibase type)

unfoldable pub setcmdlev :
    ℤ → Commands → Option Str → Option Str → Option Str → Option Str → ℤ → Option (Bool × Commands)
unfolding setcmdlev_from kind_of
setcmdlev level_owner c base type subtype end level =
    let set = setcmdlev_from c base type subtype end level (kind_of base bases) in
    if lt_ℤ level_owner level then some (false, c) else set

-- The five words of setcmdlev2.
unfoldable pub five_words :
    Option Str → Option Str × Option Str × Option Str × Option Str × Option Str
five_words data' =
    let (arg1, rest1) = separate_word? data' in
    let (arg2, rest2) = separate_word? rest1 in
    let (arg3, rest3) = separate_word? rest2 in
    let (arg4, rest4) = separate_word? rest3 in
    let (arg5, _) = separate_word? rest4 in (arg1, arg2, arg3, arg4, arg5)

-- The last word given is the level.
unfoldable pub setcmdlev2 : (Option Str → ℤ) → ℤ → Commands → Option Str → Option (Bool × Commands)
unfolding five_words is_given setcmdlev
setcmdlev2 atoi level_owner c data' =
    let (arg1, arg2, arg3, arg4, arg5) = five_words data' in
    let one = setcmdlev level_owner c arg1 none none none (atoi arg2) in
    let two = setcmdlev level_owner c arg1 arg2 none none (atoi arg3) in
    let three = setcmdlev level_owner c arg1 arg2 arg3 none (atoi arg4) in
    let four = setcmdlev level_owner c arg1 arg2 arg3 arg4 (atoi arg5) in
    if not (is_given arg1 && is_given arg2)
    then some (false, c)
    else (if not (is_given arg3)
        then one
        else (if not (is_given arg4) then two else (if not (is_given arg5) then three else four)))
