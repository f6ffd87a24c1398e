-- ===== src/Strings/Copy.antt =====
-- strncpy into the arrays of src/nick.h and src/net.c: what fits is kept, and no more is written.
use child.Prelude.{ℕ, zero, suc, ◌≤◌, ◌≡◌, refl, ap, [], ◌∷◌, length, arith}
use child.Strings.{Str, strncpy}

pub strncpy-fits : (n : ℕ) (s : Str) → length s ≤ n → strncpy n s ≡ s
unfolding strncpy
strncpy-fits zero [] h = refl
strncpy-fits zero (c ∷ s) h = absurd (omega arith)
strncpy-fits (suc n) [] h = refl
strncpy-fits (suc n) (c ∷ s) h = ap (λ x. c ∷ x) (strncpy-fits n s (omega arith))

pub strncpy-le : (n : ℕ) (s : Str) → length (strncpy n s) ≤ n
unfolding strncpy
strncpy-le zero s = omega arith
strncpy-le (suc n) [] = omega arith
strncpy-le (suc n) (c ∷ s) = omega (arith, strncpy-le n s)
