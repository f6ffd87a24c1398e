-- ===== src/Net/Chunk.antt =====
-- The room of the receive buffer, and what happens when a line does not fit it.
use child.Prelude.{
  ℕ, zero, suc, ◌-◌, ◌≤◌, ◌<◌, ◌≡◌, ◌⊎◌, inl, inr, refl, Option, none, some, List, [], ◌∷◌, ◌++◌,
  leb, length, length-append, arith, Option-cases, Bool-cases,
}
use child.Strings.{Str}
use child.Net.{chunksize, read_line, after_line, read_lines, until_nul, read_chunk}
use child.Net.Lines.{read_line-shorter}

until_nul-le : (s : Str) → length (until_nul s) ≤ length s
unfolding until_nul
until_nul-le [] = omega arith
until_nul-le (c ∷ s) = ground (arith, until_nul-le s)

read_lines-le : (fuel : ℕ) (s : Str) → length (read_lines fuel s).1 ≤ length s
unfolding read_lines after_line
read_lines-le zero s = omega arith
read_lines-le (suc fuel) s = elim (Option-cases (read_line s)) [
  | inl e ↦ rw e (omega arith)
  | inr ((line, rest), e) ↦
      rw e (omega (arith, read_lines-le fuel rest, read_line-shorter s line rest e))
]

-- The system's read stores no more bytes than it is asked for.
IsRead : (ℕ → Option (List ℕ)) → Type 0
IsRead received = (n : ℕ) (bytes : List ℕ) → received n ≡ some bytes → length bytes ≤ n

read_chunk-cases :
    (received : ℕ → Option (List ℕ)) (s : Str)
    → (read_chunk received s ≡ none)
      ⊎ ((bytes : List ℕ) × (received (chunksize - length s - 10) ≡ some bytes)
          × (0 < length bytes)
          × (read_chunk received s ≡ some (s ++ until_nul bytes)))
unfolding read_chunk
read_chunk-cases received s = elim (Option-cases (received (chunksize - length s - 10))) [
  | inl e ↦ inl (rw e refl)
  | inr (bytes, e) ↦ elim (Bool-cases (leb (length bytes) 0)) [
    | inl z ↦ inl (rw (e, z) refl)
    | inr z ↦ inr (bytes, e, ground arith, rw (e, z) refl)
  ]
]

-- read_chunk stores its bytes and the NUL inside the buffer, 10 bytes short of its end, and what the
-- main loop then leaves there is again so short, if read stores no more bytes than it is asked for.
read_chunk-pass :
    (received : ℕ → Option (List ℕ)) (s t : Str)
    → IsRead received
    → length s ≤ chunksize - 10
    → read_chunk received s ≡ some t
    → (length t ≤ chunksize - 10) × (length (read_lines (length t) t).1 ≤ chunksize - 10)
unfolding IsRead
read_chunk-pass received s t read fits h = elim (read_chunk-cases received s) [
  | inl e ↦ cc
  | inr (bytes, e, n, g) ↦
      let grown : t ≡ s ++ until_nul bytes = cc in
      let room = read (chunksize - length s - 10) bytes e in
      let le : length t ≤ chunksize - 10 =
        rw grown (omega (arith, length-append s (until_nul bytes), until_nul-le bytes)) in
      (le, omega (arith, read_lines-le (length t) t))
]

-- A line of chunksize - 10 bytes without an end ends the link: read has no room, so that read_chunk
-- fails whatever would come.
read_chunk-full :
    (received : ℕ → Option (List ℕ)) (s : Str)
    → IsRead received
    → length s ≡ chunksize - 10
    → read_chunk received s ≡ none
unfolding IsRead
read_chunk-full received s read full = elim (read_chunk-cases received s) [
  | inl e ↦ e
  | inr (bytes, e, n, g) ↦
      let none_read = read (chunksize - length s - 10) bytes e in absurd (omega arith)
]
