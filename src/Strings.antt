-- ===== src/Strings.antt =====
-- C strings, and string_utils.c (src/string_utils.c). A string is the list of its bytes before the
-- terminating NUL; a pointer that may be NULL is an option. Of the C library it uses strcasecmp and
-- tolower, in the C locale.
pub mod Words
pub mod Sql
pub mod Case
pub mod Copy
pub mod Masks
use child.Prelude.{
  ℕ, zero, suc, ◌+◌, ◌-◌, Bool, true, false, ◌&&◌, ◌||◌, Option, none, some, List, [], ◌∷◌, ◌++◌,
  leb, ◌==◌, if◌then◌else◌, not,
}

-- The bytes of a C string, without its NUL.
abbrev pub Str : Type 0
Str = List ℕ

abbrev pub space : ℕ
space = b' '

abbrev pub tab : ℕ
tab = 9

abbrev pub newline : ℕ
newline = 10

unfoldable pub tolower : ℕ → ℕ
tolower c = if leb b'A' c && leb c b'Z' then c + 32 else c

-- Whether strcasecmp returns 0.
unfoldable pub strcasecmp : Str → Str → Bool
unfolding tolower
strcasecmp [] [] = true
strcasecmp [] (b ∷ bs) = false
strcasecmp (a ∷ as') [] = false
strcasecmp (a ∷ as') (b ∷ bs) = (tolower a == tolower b) && strcasecmp as' bs

-- IsCharInString
unfoldable pub is_char_in_string : ℕ → Str → Bool
is_char_in_string c [] = false
is_char_in_string c (x ∷ s) = if c == x then true else is_char_in_string c s

unfoldable pub is_blank : ℕ → Bool
is_blank c = (c == space) || (c == tab)

-- StripBlanks
unfoldable pub strip_blanks : Str → Str
unfolding is_blank
strip_blanks [] = []
strip_blanks (c ∷ s) = if is_blank c then strip_blanks s else c ∷ s

-- SeperateWord on a string: what the argument holds after the call, and the result.
unfoldable pub separate_word : Str → Str × Option Str
unfolding strip_blanks
separate_word [] = ([], none)
separate_word (c ∷ s) =
    let (word, rest) = separate_word s in
    if c == space
    then ([], some (strip_blanks s))
    else (if c == newline then ([], none) else (c ∷ word, rest))

-- SeperateWord on a pointer that may be NULL.
unfoldable pub separate_word? : Option Str → Option Str × Option Str
separate_word? none = (none, none)
separate_word? (some s) = let (word, rest) = separate_word s in (some word, rest)

-- Whether Strcmp returns 0: neither string is NULL or empty, and they are equal up to case.
unfoldable pub str_eq : Option Str → Option Str → Bool
unfolding strcasecmp
str_eq (some (a ∷ s)) (some (b ∷ t)) = strcasecmp (a ∷ s) (b ∷ t)
str_eq _ _ = false

abbrev pub backslash : ℕ
backslash = 92

abbrev pub quote : ℕ
quote = 39

abbrev pub double_quote : ℕ
double_quote = 34

unfoldable pub needs_escape : ℕ → Bool
needs_escape c = (c == backslash) || (c == quote) || (c == double_quote)

-- strtosql: the bytes that it writes to `dst` for at most `len` bytes of `src`. The NUL is written
-- only if `src` ends before.
unfoldable pub strtosql : Str → ℕ → List ℕ
unfolding needs_escape
strtosql src zero = []
strtosql [] (suc len) = 0 ∷ []
strtosql (c ∷ src) (suc len) =
    if needs_escape c then backslash ∷ c ∷ strtosql src len else c ∷ strtosql src len

-- ToLower: the bytes that it writes to `dst`; it writes no NUL.
unfoldable pub to_lower : Str → ℕ → List ℕ
unfolding tolower
to_lower [] size = []
to_lower (c ∷ s) zero = []
to_lower (c ∷ s) (suc size) = tolower c ∷ to_lower s size

-- strncpy into a zeroed array of n + 1 bytes.
unfoldable pub strncpy : ℕ → Str → Str
strncpy zero s = []
strncpy (suc n) [] = []
strncpy (suc n) (c ∷ s) = c ∷ strncpy n s

-- Whether strcmp returns 0.
unfoldable pub strcmp : Str → Str → Bool
strcmp [] [] = true
strcmp (a ∷ s) (b ∷ t) = (a == b) && strcmp s t
strcmp _ _ = false

-- strchr, without the byte that it finds.
unfoldable pub behind_char : ℕ → Str → Option Str
behind_char c [] = none
behind_char c (x ∷ s) = if c == x then some s else behind_char c s
