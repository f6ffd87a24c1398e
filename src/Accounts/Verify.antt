-- ===== src/Accounts/Verify.antt =====
-- Which passwords check_user_password accepts once set_user_password has set one (src/user.c).
use child.Prelude.{ℕ, ◌≡◌, ◌==◌, true, refl, ap, some, ==_iff}
use child.Strings.{Str, strcmp}
use child.Registry.{Registry, User, put}
use child.Accounts.Passwords.{
  Hashing, with_password, set_user_password, check_user_password, migrate,
}

-- crypto_pwhash_str_verify accepts the password that crypto_pwhash_str hashed, and no other.
abbrev pub IsMatching : Hashing → Type 0
IsMatching h = (r : Registry) (p q : Str) → h.pwhash_str_verify (h.pwhash_str r p) q ≡ strcmp p q

-- The registry with a new password.
abbrev pub renewed : Hashing → Registry → ℕ → User → Str → Registry
renewed h r uptr user p = record r {
  user_at = put r.user_at uptr (some (with_password h r user p));
}

check_user_password-renewed :
    (h : Hashing) (r : Registry) (uptr : ℕ) (user : User) (p q : Str)
    → IsMatching h
    → check_user_password h (renewed h r uptr user p) (some uptr) q
      ≡ some (strcmp p q, renewed h r uptr user p)
unfolding check_user_password migrate
check_user_password-renewed h r uptr user p q m =
    let same : (uptr == uptr) ≡ true = (==_iff uptr uptr).1 refl in
    rw (same, same) (ap (λ b. some (b, renewed h r uptr user p)) (m r p q))

-- A password that is set for a live account is the only one that is accepted from then on, whichever hash
-- the account had before, and checking one then changes nothing, if the library's test of a hash
-- accepts the password that was hashed and no other.
pub set_user_password-check_user_password :
    (h : Hashing) (r : Registry) (uptr : ℕ) (user : User) (p : Str)
    → IsMatching h
    → r.user_at uptr ≡ some user
    → (set : Registry) × (set_user_password h r uptr p ≡ some set)
      × ((q : Str) → check_user_password h set (some uptr) q ≡ some (strcmp p q, set))
unfolding set_user_password
set_user_password-check_user_password h r uptr user p m live =
    (renewed h r uptr user p, rw live refl, λ q. check_user_password-renewed h r uptr user p q m)
