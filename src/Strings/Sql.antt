-- ===== src/Strings/Sql.antt =====
-- What strtosql writes (src/string_utils.c), and what it means inside a quoted literal of a query of
-- src/db.c. The reader of literals is the SQL server's: what it makes of a backslash and the byte
-- behind it is a parameter, of which strtosql relies on the three bytes that it escapes. A quote that
-- another quote follows is a quote of the string, as MySQL documents it.
use child.Prelude.{
  ℕ, zero, suc, ◌*◌, ◌≤◌, ◌<◌, ◌≡◌, refl, inl, inr, Bool, true, false, Option, none, some, List, [],
  ◌∷◌, ◌++◌, ◌==◌, if◌then◌else◌, arith, length, replicate, Bool-cases,
}
use child.Strings.{Str, backslash, quote, needs_escape, strtosql}

-- strtosql without the bound.
escaped : Str → List ℕ
escaped [] = []
escaped (c ∷ s) = if needs_escape c then backslash ∷ c ∷ escaped s else c ∷ escaped s

strtosql-escaped : (s : Str) (len : ℕ) → length s < len → strtosql s len ≡ escaped s ++ 0 ∷ []
unfolding strtosql escaped
strtosql-escaped s zero h = elim h [ ]
strtosql-escaped [] (suc len) h = refl
strtosql-escaped (c ∷ s) (suc len) h = ground (arith, strtosql-escaped s len)

-- The bytes written are at most two for each byte of the bound.
length-strtosql-le : (s : Str) (len : ℕ) → length (strtosql s len) ≤ 2 * len
unfolding strtosql
length-strtosql-le s zero = omega arith
length-strtosql-le [] (suc len) = omega arith
length-strtosql-le (c ∷ s) (suc len) = ground (arith, length-strtosql-le s len)

-- A string of `len` quotes makes strtosql write twice `len` bytes, whatever `len` is.
length-strtosql-quotes : (len : ℕ) → length (strtosql (replicate len quote) len) ≡ 2 * len
unfolding strtosql needs_escape
length-strtosql-quotes zero = omega arith
length-strtosql-quotes (suc len) = omega (arith, length-strtosql-quotes len)

push : ℕ → Option (Str × List ℕ) → Option (Str × List ℕ)
push c none = none
push c (some (lit, rest)) = some (c ∷ lit, rest)

needs_escape-plain :
    (c : ℕ) → needs_escape c ≡ false → ((c == quote) ≡ false) × ((c == backslash) ≡ false)
unfolding needs_escape
needs_escape-plain c h = ground arith

-- Where the reader of a literal stands: inside it, behind a backslash, or behind a quote.
pub data Reading : Type 0 where
  inside : Reading
  behind_backslash : Reading
  behind_quote : Reading

-- A quote here would be a second one.
unfoldable pub begins_quoted : List ℕ → Bool
begins_quoted [] = false
begins_quoted (c ∷ s) = c == quote

module _ (meaning : ℕ → ℕ) (documented : (c : ℕ) → needs_escape c ≡ true → meaning c ≡ c) where
  -- A literal up to its closing quote, with what follows it.
  pub read_literal : Reading → List ℕ → Option (Str × List ℕ)
  read_literal behind_quote [] = some ([], [])
  read_literal behind_quote (c ∷ s) =
      let after = read_literal inside s in if c == quote then push c after else some ([], c ∷ s)
  read_literal inside [] = none
  read_literal behind_backslash [] = none
  read_literal behind_backslash (c ∷ s) = push (meaning c) (read_literal inside s)
  read_literal inside (c ∷ s) =
      let after_escape = read_literal behind_backslash s in
      let after_quote = read_literal behind_quote s in
      let after = read_literal inside s in
      if c == quote then after_quote else (if c == backslash then after_escape else push c after)

  read_literal-closed :
      (rest : List ℕ)
      → begins_quoted rest ≡ false
      → read_literal behind_quote rest ≡ some ([], rest)
  unfolding read_literal begins_quoted
  read_literal-closed [] h = refl
  read_literal-closed (c ∷ rest) h = rw h refl

  read_literal-escaped :
      (s : Str) (rest : List ℕ)
      → begins_quoted rest ≡ false
      → read_literal inside (escaped s ++ quote ∷ rest) ≡ some (s, rest)
  unfolding read_literal escaped push
  read_literal-escaped [] rest h = read_literal-closed rest h
  read_literal-escaped (c ∷ s) rest h = elim (Bool-cases (needs_escape c)) [
    | inl e ↦ rw e (rw (read_literal-escaped s rest h, documented c e) refl)
    | inr n ↦
        rw
          (n, (needs_escape-plain c n).0, (needs_escape-plain c n).1, read_literal-escaped s rest h)
          refl
  ]

  -- A string that fits the bound is written with its NUL, and the server reads what is written
  -- between quotes as that string, if no other quote follows the closing one: no byte of it ends the
  -- literal.
  pub strtosql-read_literal :
      (s : Str) (rest : List ℕ) (len : ℕ)
      → length s < len
      → begins_quoted rest ≡ false
      → (body : List ℕ) × (strtosql s len ≡ body ++ 0 ∷ [])
        × (read_literal inside (body ++ quote ∷ rest) ≡ some (s, rest))
  strtosql-read_literal s rest len fits h =
      (escaped s, strtosql-escaped s len fits, read_literal-escaped s rest h)
