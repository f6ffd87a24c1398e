-- ===== src/Strings/Masks.antt =====
-- The masks of nicks (src/user.c): IsMask, and match_mask over the regular expressions of the C library.
use child.Prelude.{
  ℕ, ◌<◌, ◌≡◌, ◌≢◌, ◌↔◌, refl, inl, inr, sym, ap, Bool, true, false, not, ◌||◌, Bool-cases, ==_iff,
  Option, none, some, [], ◌∷◌, ◌++◌, arith, ltb, length, if◌then◌else◌, ◌==◌,
}
use child.Strings.{Str, is_char_in_string}

-- The size of the arrays tmp of IsMask and mask of match_mask.
abbrev pub masksize : ℕ
masksize = 128

unfoldable pub put_before : ℕ → Option (Str × Str) → Option (Str × Str)
put_before x none = none
put_before x (some (a, b)) = some (x ∷ a, b)

-- strstr for one byte, which is then overwritten with NUL: what stands before it and behind it.
unfoldable pub cut_at : ℕ → Str → Option (Str × Str)
unfolding put_before
cut_at c [] = none
cut_at c (x ∷ s) = let rest = put_before x (cut_at c s) in if c == x then some ([], s) else rest

unfoldable pub is_empty : Str → Bool
is_empty [] = true
is_empty (c ∷ s) = false

unfoldable pub has_host : Str → Option (Str × Str) → Bool
unfolding is_empty
has_host nick none = false
has_host nick (some (ident, host)) = not (is_empty nick || is_empty ident || is_empty host)

unfoldable pub has_ident : Option (Str × Str) → Bool
unfolding cut_at has_host
has_ident none = false
has_ident (some (nick, rest)) = has_host nick (cut_at b'@' rest)

-- IsMask. The strncpy of 128 bytes or more leaves no NUL in tmp, so that strstr has no string to read.
unfoldable pub is_mask : Str → Option Bool
unfolding cut_at has_ident
is_mask mask = if ltb (length mask) masksize then some (has_ident (cut_at b'!' mask)) else none

-- The regular expression of a mask: a dot before each star.
unfoldable pub mask_regex : Str → Str
mask_regex [] = []
mask_regex (c ∷ reg) = let rest = mask_regex reg in if c == b'*' then b'.' ∷ c ∷ rest else c ∷ rest

-- match_mask, where `match_regex` is whether the C library compiles the expression and finds it.
-- An expression of 128 bytes or more does not fit the array with its NUL.
unfoldable pub match_mask : (Str → Str → Bool) → Str → Str → Option Bool
unfolding mask_regex
match_mask match_regex reg tomatch =
    if ltb (length (mask_regex reg)) masksize
    then some (match_regex (mask_regex reg) tomatch)
    else none

cut_at-append :
    (c : ℕ) (a b : Str) → is_char_in_string c a ≡ false → cut_at c (a ++ c ∷ b) ≡ some (a, b)
unfolding cut_at put_before is_char_in_string
cut_at-append c [] b h = ground arith
cut_at-append c (x ∷ a) b h = elim (Bool-cases (c == x)) [
  | inl e ↦ ground arith
  | inr n ↦
      let free : is_char_in_string c a ≡ false = ground (arith, n, h) in
      rw (n, cut_at-append c a b free) refl
]

-- What a cut returns says how the string falls apart.
abbrev pub Cuts : ℕ → Str → Option (Str × Str) → Type 0
Cuts c s none = Unit
Cuts c s (some (a, b)) = (s ≡ a ++ c ∷ b) × (is_char_in_string c a ≡ false)

Cuts-put_before :
    (c x : ℕ) (s : Str) (o : Option (Str × Str))
    → (c == x) ≡ false
    → Cuts c s o
    → Cuts c (x ∷ s) (put_before x o)
unfolding put_before is_char_in_string
Cuts-put_before c x s none n h = tt
Cuts-put_before c x s (some (a, b)) n (e, free) = (ap (λ t. x ∷ t) e, rw (n) free)

cut_at-Cuts : (c : ℕ) (s : Str) → Cuts c s (cut_at c s)
unfolding cut_at is_char_in_string
cut_at-Cuts c [] = tt
cut_at-Cuts c (x ∷ s) = elim (Bool-cases (c == x)) [
  | inl e ↦ rw e (ap (λ t. t ∷ s) (sym ((==_iff c x).0 e)), refl)
  | inr n ↦ rw n (Cuts-put_before c x s (cut_at c s) n (cut_at-Cuts c s))
]

-- A mask has a nick, an ident and a host, none empty, with no `!` in the nick and no `@` in the ident.
abbrev pub IsMask : Str → Type 0
IsMask mask =
    (nick ident host : Str) × (mask ≡ nick ++ b'!' ∷ (ident ++ b'@' ∷ host))
    × (is_char_in_string b'!' nick ≡ false)
    × (is_char_in_string b'@' ident ≡ false)
    × (nick ≢ [])
    × (ident ≢ [])
    × (host ≢ [])

has_host-cases :
    (nick ident host : Str)
    → (has_host nick (some (ident, host)) ≡ true) ↔ ((nick ≢ []) × (ident ≢ []) × (host ≢ []))
unfolding has_host is_empty
has_host-cases [] ident host = (λ h. cc, λ (a, _, _). absurd (a refl))
has_host-cases (x ∷ nick) [] host = (λ h. cc, λ (_, b, _). absurd (b refl))
has_host-cases (x ∷ nick) (y ∷ ident) [] = (λ h. cc, λ (_, _, d). absurd (d refl))
has_host-cases (x ∷ nick) (y ∷ ident) (z ∷ host) = (λ h. (λ e. cc, λ e. cc, λ e. cc), λ h. refl)

has_rest-Masks :
    (nick rest : Str) (o : Option (Str × Str))
    → Cuts b'@' rest o
    → is_char_in_string b'!' nick ≡ false
    → has_host nick o ≡ true
    → IsMask (nick ++ b'!' ∷ rest)
unfolding has_host
has_rest-Masks nick rest none cuts free h = absurd (ground arith)
has_rest-Masks nick rest (some (ident, host)) (e, free') free h =
    let (a, b, d) = (has_host-cases nick ident host).0 h in
    (nick, ident, host, ap (λ t. nick ++ b'!' ∷ t) e, free, free', a, b, d)

has_ident-Masks :
    (mask : Str) (o : Option (Str × Str)) → Cuts b'!' mask o → has_ident o ≡ true → IsMask mask
unfolding has_ident
has_ident-Masks mask none cuts h = absurd (ground arith)
has_ident-Masks mask (some (nick, rest)) (e, free) h =
    rw (e) (has_rest-Masks nick rest (cut_at b'@' rest) (cut_at-Cuts b'@' rest) free h)

Masks-has_ident : (mask : Str) → IsMask mask → has_ident (cut_at b'!' mask) ≡ true
unfolding has_ident
Masks-has_ident mask (nick, ident, host, e, free, free', a, b, d) =
    rw (e, cut_at-append b'!' nick (ident ++ b'@' ∷ host) free, cut_at-append b'@' ident host free')
      ((has_host-cases nick ident host).1 (a, b, d))

-- IsMask accepts a string of less than 128 bytes exactly if it is a nick, `!`, an ident, `@` and a
-- host, none of them empty, with no `!` in the nick and no `@` in the ident.
pub is_mask_iff : (mask : Str) → length mask < 128 → (is_mask mask ≡ some true) ↔ IsMask mask
unfolding is_mask
is_mask_iff mask short =
    let fits : ltb (length mask) masksize ≡ true = ground arith in
    rw fits (
      λ h. has_ident-Masks mask (cut_at b'!' mask) (cut_at-Cuts b'!' mask) (cc),
      λ h. ap (λ b. some b) (Masks-has_ident mask h),
    )
