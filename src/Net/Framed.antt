-- ===== src/Net/Framed.antt =====
-- The messages that send_raw frames, as read_line on the other side of a link takes them apart.
use child.Prelude.{
  ℕ, zero, suc, ◌≤◌, ◌≡◌, inl, inr, refl, Bool, true, false, some, List, [], ◌∷◌, ◌++◌,
  if◌then◌else◌, length, length-append, arith, append_assoc, Bool-cases,
}
use child.Strings.{Str}
use child.Strings.Copy.{strncpy-fits}
use child.Net.{framed, read_line, is_eol, skip_eol, put_front, after_line, read_lines}
use child.Net.Sendq.{all_framed}

-- A text that a line can carry: no end of line in it, and room for its own.
unfoldable pub no_eol : Str → Bool
no_eol [] = true
no_eol (c ∷ s) = if is_eol c then false else no_eol s

unfoldable pub AreLines : List Str → Type 0
AreLines [] = Unit {0}
AreLines (text ∷ texts) = (no_eol text ≡ true) × (length text ≤ 1021) × AreLines texts

framed_lem : (text : Str) → length text ≤ 1021 → framed text ≡ text ++ 13 ∷ 10 ∷ []
unfolding framed
framed_lem text h =
    rw (strncpy-fits 1022 text (omega arith))
      (strncpy-fits 1023 (text ++ 13 ∷ 10 ∷ []) (omega (arith, length-append text (13 ∷ 10 ∷ []))))

read_line-eol :
    (text s : Str) → no_eol text ≡ true → read_line (text ++ 13 ∷ 10 ∷ s) ≡ some (text, s)
unfolding read_line skip_eol put_front no_eol
read_line-eol [] s h = refl
read_line-eol (c ∷ text) s h = elim (Bool-cases (is_eol c)) [
  | inl e ↦ (let g = rw e at h in cc)
  | inr e ↦ rw (e, read_line-eol text s (rw e at h)) refl
]

-- Messages of at most 1021 bytes without an end of line, framed by send_raw one behind the other, are
-- read back one by one as they were, and nothing is left.
pub read_lines-all_framed :
    (texts : List Str) (fuel : ℕ)
    → AreLines texts
    → length texts ≤ fuel
    → read_lines fuel (all_framed texts) ≡ (texts, [])
unfolding read_lines all_framed AreLines after_line
read_lines-all_framed [] zero h n = refl
read_lines-all_framed [] (suc fuel) h n = (unfold read_line in refl)
read_lines-all_framed (text ∷ texts) zero h n = absurd (omega arith)
read_lines-all_framed (text ∷ texts) (suc fuel) (clean, short, more) n =
    rw
      (
        framed_lem text short,
        append_assoc text (13 ∷ 10 ∷ []) (all_framed texts),
        read_line-eol text (all_framed texts) clean,
        read_lines-all_framed texts fuel more (omega arith),
      )
      refl
