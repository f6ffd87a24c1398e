-- ===== src/Uflags/Text.antt =====
-- The text form of access flags and its parser (src/channel.c).
use child.Prelude.{
  ℕ, ◌%◌, ◌^◌, ◌-◌, ◌≡◌, refl, sym, ap, ◌∙◌, ◌==◌, false, inl, inr, List, [], ◌∷◌, ◌++◌, bit_and,
  bit_or, arith,
}
use child.Prelude.Bits.{
  bit_or_assoc, bit_or-zero, bit_and-zero, bit_and-bit_or, bit_and_single, bit_and_mask,
  zero-bit_or,
}
use mathlib.Core.Path.{◌≡⟨◌⟩◌, ◌∎}
use native.Mathlib.Nat.{one-le-pow}
use child.Strings.{Str}
use child.Uflags.{flag_of, parse_uflags_from, parse_uflags, emit, get_uflags_string}

parse_uflags_from-bit_or : (u : ℕ) (s : Str) → parse_uflags_from u s ≡ bit_or u (parse_uflags s)
unfolding parse_uflags
parse_uflags_from-bit_or u [] = sym (bit_or-zero u)
parse_uflags_from-bit_or u (c ∷ s) =
    parse_uflags_from-bit_or (bit_or u (flag_of c)) s
    ∙ bit_or_assoc u (flag_of c) (parse_uflags s)
    ∙ ap (bit_or u)
        (sym (parse_uflags_from-bit_or (bit_or 0 (flag_of c)) s ∙ rw (zero-bit_or (flag_of c))))

parse_uflags_from-append :
    (u : ℕ) (s t : Str) → parse_uflags_from u (s ++ t) ≡ parse_uflags_from (parse_uflags_from u s) t
unfolding parse_uflags_from
parse_uflags_from-append u [] t = refl
parse_uflags_from-append u (c ∷ s) t = parse_uflags_from-append (bit_or u (flag_of c)) s t

-- A text that is two texts one after the other stands for the flags of both.
pub parse_uflags-append :
    (s t : Str) → parse_uflags (s ++ t) ≡ bit_or (parse_uflags s) (parse_uflags t)
unfolding parse_uflags
parse_uflags-append s t =
    parse_uflags_from-append 0 s t ∙ parse_uflags_from-bit_or (parse_uflags s) t

pow_ne_zero : (k : ℕ) → (2 ^ k == 0) ≡ false
pow_ne_zero k = ground (arith, one-le-pow k 2)

-- One `if` of get_uflags_string, parsed again: the bits under the flag join those read before.
emit_step :
    (k m c : ℕ) (rest : Str) (u : ℕ)
    → flag_of c ≡ 2 ^ k
    → parse_uflags_from (bit_and u m) (emit u (2 ^ k) c rest)
      ≡ parse_uflags_from (bit_and u (bit_or m (2 ^ k))) rest
unfolding emit parse_uflags_from
emit_step k m c rest u h = elim (bit_and_single k u) [
  | inl e ↦ rw (bit_and-bit_or u m (2 ^ k), e, bit_or-zero (bit_and u m))
  | inr e ↦ rw (bit_and-bit_or u m (2 ^ k), e, pow_ne_zero k, h)
]

-- The `if`s of get_uflags_string as a table: the number of the bit and the letter.
abbrev Table : Type 0
Table = List (ℕ × ℕ)

emit_all : ℕ → Table → Str
emit_all u [] = []
emit_all u ((k, c) ∷ t) = emit u (2 ^ k) c (emit_all u t)

union : ℕ → Table → ℕ
union m [] = m
union m ((k, c) ∷ t) = union (bit_or m (2 ^ k)) t

abbrev Agrees : List (ℕ × ℕ) → Type 0
Agrees [] = Unit
Agrees ((k, c) ∷ t) = (flag_of c ≡ 2 ^ k) × Agrees t

parse_emit_all :
    (t : List (ℕ × ℕ)) (m u : ℕ)
    → Agrees t
    → parse_uflags_from (bit_and u m) (emit_all u t) ≡ bit_and u (union m t)
unfolding parse_uflags_from emit_all union
parse_emit_all [] m u a = refl
parse_emit_all ((k, c) ∷ t) m u a =
    emit_step k m c (emit_all u t) u a.0 ∙ parse_emit_all t (bit_or m (2 ^ k)) u a.1

abbrev letters : List (ℕ × ℕ)
letters =
    (0, b'o')
    ∷ (2, b'O')
    ∷ (1, b'v')
    ∷ (3, b'V')
    ∷ (4, b'x')
    ∷ (5, b'i')
    ∷ (6, b't')
    ∷ (7, b'F')
    ∷ (8, b'f')
    ∷ (9, b'h')
    ∷ (10, b's')
    ∷ (11, b'H')
    ∷ (12, b'p')
    ∷ (13, b'P')
    ∷ (14, b'N')
    ∷ (15, b'k')
    ∷ (16, b'b')
    ∷ (17, b'w')
    ∷ []

letters-Agrees : Agrees letters
unfolding flag_of
letters-Agrees = omega arith

get_uflags_string-emit_all : (u : ℕ) → get_uflags_string u ≡ b'+' ∷ emit_all u letters
unfolding get_uflags_string emit_all
get_uflags_string-emit_all u = refl

all_bits : union 0 letters ≡ 2 ^ 18 - 1
unfolding union
all_bits = refl

parse_plus : (s : Str) → parse_uflags (b'+' ∷ s) ≡ parse_uflags_from 0 s
unfolding parse_uflags flag_of
parse_plus s = refl

-- Parsing the text of some flags gives back the flags, less what stands above the 18 known bits.
pub parse_uflags-get_uflags_string : (u : ℕ) → parse_uflags (get_uflags_string u) ≡ u % 2 ^ 18
parse_uflags-get_uflags_string u =
    parse_uflags (get_uflags_string u)
    ≡⟨ ap parse_uflags (get_uflags_string-emit_all u) ⟩ parse_uflags (b'+' ∷ emit_all u letters)
    ≡⟨ parse_plus _ ⟩ parse_uflags_from 0 (emit_all u letters)
    ≡⟨ ap (λ m. parse_uflags_from m (emit_all u letters)) (sym (bit_and-zero u)) ⟩
      parse_uflags_from (bit_and u 0) (emit_all u letters)
    ≡⟨ parse_emit_all letters 0 u letters-Agrees ⟩ bit_and u (union 0 letters)
    ≡⟨ ap (bit_and u) all_bits ∙ bit_and_mask 18 u ⟩ u % 2 ^ 18 ∎
