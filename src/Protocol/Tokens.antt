-- ===== src/Protocol/Tokens.antt =====
-- What strtok and the prefixes of m_sjoin read back (src/parseline.c).
use child.Prelude.{
  ℕ, ◌≡◌, ◌≢◌, refl, ap, sym, ◌∙◌, true, false, inl, inr, Bool-cases, ==_iff, ◌==◌, some, List, [],
  ◌∷◌, ◌++◌, arith, append_assoc, append-nil, bit_or,
}
use child.Strings.{Str, is_char_in_string}
use child.Protocol.Joins.{push_word, tokens_from, tokens}
use child.Protocol.Sjoin.{prefix_status, is_list_prefix, sjoin_member}

-- Words with one separator behind each but the last.
abbrev pub joined : ℕ → List Str → Str
joined sep [] = []
joined sep (w ∷ []) = w
joined sep (w ∷ v ∷ ws) = w ++ sep ∷ joined sep (v ∷ ws)

-- Words that are not empty and do not hold the separator.
abbrev pub AllWords : ℕ → List Str → Type 0
AllWords sep [] = Unit
AllWords sep (w ∷ ws) = (w ≢ []) × (is_char_in_string sep w ≡ false) × AllWords sep ws

push_word-full : (word : Str) (words : List Str) → word ≢ [] → push_word word words ≡ word ∷ words
unfolding push_word
push_word-full [] words h = absurd (h refl)
push_word-full (c ∷ word) words h = refl

-- A word without a separator is read into the word that was begun.
tokens_from-append :
    (sep : ℕ) (word w s : Str)
    → is_char_in_string sep w ≡ false
    → tokens_from sep word (w ++ s) ≡ tokens_from sep (word ++ w) s
unfolding tokens_from is_char_in_string
tokens_from-append sep word [] s h = rw (append-nil word) refl
tokens_from-append sep word (x ∷ w) s h = elim (Bool-cases (sep == x)) [
  | inl e ↦ ground arith
  | inr n ↦
      let differ : (x == sep) ≡ false = ground (arith, n) in
      let free : is_char_in_string sep w ≡ false = ground (arith, n, h) in
      rw (differ, tokens_from-append sep (word ++ x ∷ []) w s free, append_assoc word (x ∷ []) w)
        refl
]

tokens_from-sep :
    (sep : ℕ) (word s : Str)
    → word ≢ []
    → tokens_from sep word (sep ∷ s) ≡ word ∷ tokens_from sep [] s
unfolding tokens_from
tokens_from-sep sep word s h =
    let same : (sep == sep) ≡ true = (==_iff sep sep).1 refl in
    rw (same) (push_word-full word (tokens_from sep [] s) h)

tokens_from-nil : (sep : ℕ) (w : Str) → w ≢ [] → tokens_from sep w [] ≡ w ∷ []
unfolding tokens_from
tokens_from-nil sep w h = push_word-full w [] h

-- strtok gives back words that stand with one separator between them, if none is empty or holds it.
pub tokens-joined : (sep : ℕ) (ws : List Str) → AllWords sep ws → tokens sep (joined sep ws) ≡ ws
unfolding tokens
tokens-joined sep [] h = refl
tokens-joined sep (w ∷ []) (full, free, _) =
    let read : tokens_from sep [] (w ++ []) ≡ tokens_from sep w [] =
      tokens_from-append sep [] w [] free in
    ap (tokens_from sep []) (sym (append-nil w)) ∙ read ∙ tokens_from-nil sep w full
tokens-joined sep (w ∷ v ∷ ws) (full, free, rest) =
    rw
      (
        tokens_from-append sep [] w (sep ∷ joined sep (v ∷ ws)) free,
        tokens_from-sep sep w (joined sep (v ∷ ws)) full,
        tokens-joined sep (v ∷ ws) rest,
      )
      refl

-- The bytes of a list are prefixes of a status.
abbrev pub AllStatus : Str → Type 0
AllStatus [] = Unit
AllStatus (c ∷ s) = ((prefix_status c == 0) ≡ false) × AllStatus s

-- The status that prefixes stand for, in addition to the one that is there.
abbrev pub status_of_prefixes : ℕ → Str → ℕ
status_of_prefixes flags [] = flags
status_of_prefixes flags (c ∷ s) = status_of_prefixes (bit_or flags (prefix_status c)) s

-- A member of SJOIN is read as the status of its prefixes and the name behind them, if the name does not
-- begin with a prefix.
sjoin_member-append :
    (flags : ℕ) (prefixes : Str) (c : ℕ) (name : Str)
    → AllStatus prefixes
    → (prefix_status c == 0) ≡ true
    → is_list_prefix c ≡ false
    → sjoin_member flags (prefixes ++ c ∷ name)
      ≡ (status_of_prefixes flags prefixes, some (c ∷ name))
unfolding sjoin_member
sjoin_member-append flags [] c name h own plain = rw (own, plain) refl
sjoin_member-append flags (p ∷ prefixes) c name (h, rest) own plain =
    rw (h) (sjoin_member-append (bit_or flags (prefix_status p)) prefixes c name rest own plain)
