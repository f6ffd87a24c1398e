-- ===== src/Net/Lines.antt =====
-- How the bytes of the uplink fall into lines, whatever the chunks that they come in.
use child.Prelude.{
  ℕ, zero, suc, ◌≤◌, ◌<◌, ◌≡◌, refl, ap, ◌⊎◌, inl, inr, true, false, Option, none, some, List, [],
  ◌∷◌, ◌++◌, if◌then◌else◌, length, arith, Bool-cases, Option-cases, append_assoc, append-nil,
}
use child.Strings.{Str}
use child.Net.{is_eol, skip_eol, put_front, read_line, after_line, read_lines, pass}

-- A line that is not empty.
unfoldable pub nonempty : Str → List Str
nonempty [] = []
nonempty (c ∷ line) = (c ∷ line) ∷ []

unfoldable pub all_nonempty : List Str → List Str
all_nonempty [] = []
all_nonempty (line ∷ lines) = nonempty line ++ all_nonempty lines

-- The reference: byte by byte, a line is what stands between two ends of line, and empty ones do not
-- count. The first argument is the line begun.
unfoldable pub split_lines : Str → Str → List Str × Str
split_lines acc [] = ([], acc)
split_lines acc (c ∷ s) =
    let ended = split_lines [] s in
    let goes_on = split_lines (acc ++ c ∷ []) s in
    if is_eol c then (nonempty acc ++ ended.0, ended.1) else goes_on

put_front-eq-some :
    (c : ℕ) (o : Option (Str × Str)) (line rest : Str)
    → put_front c o ≡ some (line, rest)
    → (l : Str) × (o ≡ some (l, rest)) × (line ≡ c ∷ l)
unfolding put_front
put_front-eq-some c none line rest h = cc
put_front-eq-some c (some (l, r)) line rest h = (l, cc, cc)

put_front-eq-none : (c : ℕ) (o : Option (Str × Str)) → put_front c o ≡ none → o ≡ none
unfolding put_front
put_front-eq-none c none h = refl
put_front-eq-none c (some (l, r)) h = cc

-- What a line read begins with: the end of line at once, or a byte of it.
read_line-cases :
    (x : ℕ) (s line rest : Str)
    → read_line (x ∷ s) ≡ some (line, rest)
    → ((is_eol x ≡ true) × (line ≡ []) × (rest ≡ skip_eol s))
      ⊎ ((is_eol x ≡ false) × (l : Str) × (read_line s ≡ some (l, rest)) × (line ≡ x ∷ l))
unfolding read_line
read_line-cases x s line rest h = elim (Bool-cases (is_eol x)) [
  | inl e ↦ (let g = rw e at h in inl (e, cc, cc))
  | inr e ↦
      let (l, p, q) = put_front-eq-some x (read_line s) line rest (rw e at h) in inr (e, l, p, q)
]

split_lines-skip_eol : (s : Str) → split_lines [] (skip_eol s) ≡ split_lines [] s
unfolding split_lines skip_eol nonempty
split_lines-skip_eol [] = refl
split_lines-skip_eol (c ∷ s) = ground arith

-- The reference byte machine reads the same line.
read_line-split :
    (acc s line rest : Str)
    → read_line s ≡ some (line, rest)
    → split_lines acc s
      ≡ (nonempty (acc ++ line) ++ (split_lines [] rest).0, (split_lines [] rest).1)
unfolding split_lines read_line
read_line-split acc [] line rest h = cc
read_line-split acc (x ∷ s) line rest h = elim (read_line-cases x s line rest h) [
  | inl (e, p, q) ↦ rw (e, p, q, append-nil acc, split_lines-skip_eol s) refl
  | inr (e, l, p, q) ↦
      rw (e, read_line-split (acc ++ x ∷ []) s l rest p, q, append_assoc acc (x ∷ []) l) refl
]

pub read_line-none : (acc s : Str) → read_line s ≡ none → split_lines acc s ≡ ([], acc ++ s)
unfolding read_line split_lines put_front
read_line-none acc [] h = rw (append-nil acc) refl
read_line-none acc (x ∷ s) h = elim (Bool-cases (is_eol x)) [
  | inl e ↦ (let g = rw e at h in cc)
  | inr e ↦
      rw
        (
          e,
          read_line-none (acc ++ x ∷ []) s (put_front-eq-none x (read_line s) (rw e at h)),
          append_assoc acc (x ∷ []) s,
        )
        refl
]

skip_eol-le : (s : Str) → length (skip_eol s) ≤ length s
unfolding skip_eol
skip_eol-le [] = omega arith
skip_eol-le (c ∷ s) = ground arith

pub read_line-shorter :
    (s line rest : Str) → read_line s ≡ some (line, rest) → length rest < length s
unfolding read_line
read_line-shorter [] line rest h = cc
read_line-shorter (x ∷ s) line rest h = elim (read_line-cases x s line rest h) [
  | inl (e, p, q) ↦ rw q (omega (arith, skip_eol-le s))
  | inr (e, l, p, q) ↦ omega (arith, read_line-shorter s l rest p)
]

-- With fuel for each byte, the loop of the daemon reads the lines of the reference, and leaves its
-- rest in the buffer.
pub read_lines-split_lines :
    (fuel : ℕ) (s : Str)
    → length s ≤ fuel
    → (all_nonempty (read_lines fuel s).0 ≡ (split_lines [] s).0)
      × ((read_lines fuel s).1 ≡ (split_lines [] s).1)
unfolding read_lines after_line all_nonempty
read_lines-split_lines zero [] h = (unfold split_lines in (refl, refl))
read_lines-split_lines zero (c ∷ s) h = absurd (omega arith)
read_lines-split_lines (suc fuel) s h = elim (Option-cases (read_line s)) [
  | inl e ↦ rw (e, read_line-none [] s e) (refl, refl)
  | inr ((line, rest), e) ↦
      let (lines, left) =
        read_lines-split_lines fuel rest (omega (arith, read_line-shorter s line rest e)) in
      rw (e, read_line-split [] s line rest e) (ap (λ x. nonempty line ++ x) lines, left)
]

-- The passes of the main loop over the chunks that come in.
unfoldable pub passes : Str → List Str → List Str × Str
passes s [] = ([], s)
passes s (chunk ∷ chunks) =
    let (lines, left) = pass s chunk in
    let (more, rest) = passes left chunks in (lines ++ more, rest)

unfoldable pub joined : List Str → Str
joined [] = []
joined (chunk ∷ chunks) = chunk ++ joined chunks
