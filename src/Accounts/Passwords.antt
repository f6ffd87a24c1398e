-- ===== src/Accounts/Passwords.antt =====
-- check_user_password and set_user_password (src/user.c). The hashes are those of libsodium and of
-- md5_hash: what they give for a password is a parameter. `pwhash_str` is what stands in `pwhash` after
-- crypto_pwhash_str, also where that fails; the number that it returns is left out, since no caller reads
-- it.
use child.Prelude.{ℕ, Bool, true, false, Option, none, some, [], ◌∷◌, if◌then◌else◌}
use child.Prelude.Maybe.{◌>>=◌}
use child.Strings.{Str, str_eq}
use child.Registry.{Registry, User, put}

pub record Hashing : Type 0 where
  pub md5_hash : Str → Str
  pub pwhash_str : Registry → Str → Str
  pub pwhash_str_verify : Str → Str → Bool

-- set_user_password on a user.
abbrev pub with_password : Hashing → Registry → User → Str → User
with_password h r user password = record user { md5_pass = []; pwhash = h.pwhash_str r password }

unfoldable pub set_user_password : Hashing → Registry → ℕ → Str → Option Registry
set_user_password h r uptr password = do
  user ← r.user_at uptr
  some (record r { user_at = put r.user_at uptr (some (with_password h r user password)) })

-- The old hash, where there is one, is compared first and then replaced.
unfoldable pub migrate : Hashing → Registry → ℕ → User → Str → Bool × Registry
migrate h r uptr user password = elim user.md5_pass [
  | [] ↦ (true, r)
  | c ∷ s ↦
      if str_eq (some (h.md5_hash password)) (some (c ∷ s))
      then (
        true,
        record r { user_at = put r.user_at uptr (some (with_password h r user password)) },
      )
      else (false, r)
]

-- Whether check_user_password returns 0, and what it leaves. NULL has no password.
unfoldable pub check_user_password : Hashing → Registry → Option ℕ → Str → Option (Bool × Registry)
unfolding migrate
check_user_password h r none password = some (false, r)
check_user_password h r (some uptr) password = do
  user ← r.user_at uptr
  let (good, migrated) = migrate h r uptr user password
  let verified : Option (Bool × Registry) = (do
    now ← migrated.user_at uptr
    some (h.pwhash_str_verify now.pwhash password, migrated))
  if good then verified else some (false, r)
