-- ===== src/Strings/Words.antt =====
-- What SeperateWord leaves and returns (src/string_utils.c).
use child.Prelude.{
  ℕ, ◌≡◌, refl, Bool, true, false, not, ◌||◌, ◌⊎◌, inl, inr, ap, Bool-cases, ==_iff, Option, none,
  some, [], ◌∷◌, ◌++◌, arith, ◌==◌,
}
use child.Strings.{Str, space, newline, is_blank, strip_blanks, separate_word}

-- Every byte of a list satisfies a test.
abbrev pub AllBytes : (ℕ → Bool) → Str → Type 0
AllBytes p [] = Unit
AllBytes p (c ∷ s) = (p c ≡ true) × AllBytes p s

-- The blanks that StripBlanks skips.
pub blanks : Str → Str
blanks [] = []
blanks (c ∷ s) = elim (is_blank c) [ true ↦ c ∷ blanks s | false ↦ [] ]

blanks-append-strip_blanks : (s : Str) → blanks s ++ strip_blanks s ≡ s
unfolding blanks strip_blanks
blanks-append-strip_blanks [] = refl
blanks-append-strip_blanks (c ∷ s) = ground (arith, blanks-append-strip_blanks s)

blanks-AllBytes : (s : Str) → AllBytes is_blank (blanks s)
unfolding blanks
blanks-AllBytes [] = tt
blanks-AllBytes (c ∷ s) = ground (arith, blanks-AllBytes s)

-- A string that does not begin with a blank.
abbrev pub NoBlank : Str → Type 0
NoBlank [] = Unit
NoBlank (c ∷ s) = is_blank c ≡ false

strip_blanks-NoBlank : (s : Str) → NoBlank (strip_blanks s)
unfolding strip_blanks
strip_blanks-NoBlank [] = tt
strip_blanks-NoBlank (c ∷ s) = ground (arith, strip_blanks-NoBlank s)

-- A byte of a word.
abbrev pub is_word_byte : ℕ → Bool
is_word_byte c = not ((c == space) || (c == newline))

-- How a sentence falls into a first word and the result of the call.
abbrev pub Splits : Str → Str × Option Str → Type 0
Splits s (word, none) =
    AllBytes is_word_byte word × ((s ≡ word) ⊎ ((tail : Str) × (s ≡ word ++ newline ∷ tail)))
Splits s (word, some rest) =
    AllBytes is_word_byte word
    × NoBlank rest
    × ((gap : Str) × AllBytes is_blank gap × (s ≡ word ++ space ∷ (gap ++ rest)))

Splits-cons :
    (c : ℕ) (s : Str) (r : Str × Option Str)
    → is_word_byte c ≡ true
    → Splits s r
    → Splits (c ∷ s) (c ∷ r.0, r.1)
Splits-cons c s (word, none) h (w, inl e) = ((h, w), inl (ap (λ t. c ∷ t) e))
Splits-cons c s (word, none) h (w, inr (tail, e)) = ((h, w), inr (tail, ap (λ t. c ∷ t) e))
Splits-cons c s (word, some rest) h (w, n, (gap, b, e)) = ((h, w), n, (gap, b, ap (λ t. c ∷ t) e))

-- SeperateWord leaves the bytes up to the first space or newline, and returns NULL exactly where
-- that is a newline or the end, and otherwise what follows the space without its leading blanks.
pub separate_word-Splits : (s : Str) → Splits s (separate_word s)
unfolding separate_word
separate_word-Splits [] = (tt, inl refl)
separate_word-Splits (c ∷ s) = elim (Bool-cases (c == space)) [
  | inl e ↦
      let at_space : c ≡ space = (==_iff c space).0 e in
      rw e (
        tt,
        strip_blanks-NoBlank s,
        (blanks s, blanks-AllBytes s, rw (at_space, blanks-append-strip_blanks)),
      )
  | inr n ↦ elim (Bool-cases (c == newline)) [
    | inl e ↦ rw (n, e) (tt, inr (s, ap (λ b. b ∷ s) ((==_iff c newline).0 e)))
    | inr m ↦ rw (n, m) (Splits-cons c s (separate_word s) (rw (n, m)) (separate_word-Splits s))
  ]
]
