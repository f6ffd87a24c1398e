-- ===== src/Tests/Texts.antt =====
-- The theorems on texts, flags and levels at concrete inputs.
use child.Prelude.{
  ℕ, Bool, none, ◌↔◌, ◌≡◌, refl, ◌%◌, ◌^◌, true, some, List, [], ◌∷◌, ◌++◌, arith, replicate,
}
use child.Prelude.Int.{pos, negsuc}
use child.Strings.{Str, space, quote, strtosql, separate_word, strcasecmp, tolower}
use child.Strings.Words.{Splits, separate_word-Splits}
use child.Strings.Sql.{inside, begins_quoted, read_literal, strtosql-read_literal}
use child.Strings.Masks.{is_mask, IsMask, is_mask_iff, match_mask}
use child.Uflags.{ChanLevels, parse_uflags, get_uflags_string}
use child.Uflags.Text.{parse_uflags-get_uflags_string}
use child.Uflags.Levels.{IsOrdered}

abbrev sentence : Str
sentence = b'o' ∷ b'p' ∷ space ∷ space ∷ b'x' ∷ []

separate_word-Splits_example : Splits sentence (separate_word sentence)
separate_word-Splits_example = separate_word-Splits sentence

abbrev quoted : Str
quoted = b'a' ∷ quote ∷ b'b' ∷ []

-- A server that takes every byte behind a backslash as it is.
abbrev plain : ℕ → ℕ
plain c = c

-- What db.c writes behind a literal.
abbrev behind : List ℕ
behind = b',' ∷ quote ∷ []

strtosql-read_literal_example :
    (body : List ℕ) × (strtosql quoted 35 ≡ body ++ 0 ∷ [])
    × (read_literal plain (λ c e. refl) inside (body ++ quote ∷ behind) ≡ some (quoted, behind))
unfolding begins_quoted
strtosql-read_literal_example =
    strtosql-read_literal plain (λ c e. refl) quoted behind 35 (omega arith) refl

alike : strcasecmp (b'a' ∷ b'B' ∷ []) (b'A' ∷ b'b' ∷ []) ≡ true
unfolding strcasecmp tolower
alike = refl

parse_uflags-get_uflags_string_example : parse_uflags (get_uflags_string 0x4ffff) ≡ 0x4ffff % 2 ^ 18
parse_uflags-get_uflags_string_example = parse_uflags-get_uflags_string 0x4ffff

-- The levels of docs/child.conf, which are ordered.
abbrev levels : ChanLevels
levels = record {
  chlev_sadmin = pos 15;
  chlev_admin = pos 10;
  chlev_op = pos 5;
  chlev_halfop = pos 4;
  chlev_voice = pos 3;
  chlev_nostatus = negsuc 0;
  chlev_akick = negsuc 1;
  chlev_akb = negsuc 2;
  chlev_invite = pos 1;
}

levels-IsOrdered : IsOrdered levels
levels-IsOrdered = record {
  sadmin = 15;
  admin = 10;
  op = 5;
  halfop = 4;
  voice = 3;
  invite = 1;
  sadmin_is = refl;
  admin_is = refl;
  op_is = refl;
  halfop_is = refl;
  voice_is = refl;
  invite_is = refl;
  positive = omega arith;
  invite_voice = omega arith;
  voice_halfop = omega arith;
  halfop_op = omega arith;
  op_admin = omega arith;
  admin_sadmin = omega arith;
  sadmin_coowner = omega arith;
}

-- a*!*@h
abbrev star_mask : Str
star_mask = b'a' ∷ b'*' ∷ b'!' ∷ b'*' ∷ b'@' ∷ b'h' ∷ []

is_mask_iff_example : (is_mask star_mask ≡ some true) ↔ IsMask star_mask
is_mask_iff_example = is_mask_iff star_mask (omega arith)

is_mask_run : is_mask (replicate 121 b'*' ++ star_mask) ≡ some true
unfolding is_mask
is_mask_run = refl

-- A mask of 127 bytes that IsMask accepts, and that overflows the array of match_mask.
match_mask_run :
    (match_regex : Str → Str → Bool)
    → match_mask match_regex (replicate 121 b'*' ++ star_mask) star_mask ≡ none
unfolding match_mask
match_mask_run match_regex = refl
