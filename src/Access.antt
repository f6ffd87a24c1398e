-- ===== src/Access.antt =====
-- Who may do what on a channel: IsFounder, IsTrueOwner, get_coowner, GetFlag and find_cflag_recursive
-- (src/channel.c); the ChannelCan functions and can_modify_uflag stand in Rights and Acl. A function that finds no entry of
-- the user in the access list calls itself for the master of the user's link: `fuel` bounds the
-- calls, and `none` stands for running out of it or for a fault. 0 and 1 are the Booleans where the
-- C function returns nothing else.
pub mod Rights
pub mod Acl
pub mod Follow
pub mod Total
pub mod Hierarchy
pub mod Ranks
use child.Prelude.{
  ℕ, zero, suc, Bool, true, false, ◌&&◌, ◌||◌, not, Option, none, some, List, [], ◌∷◌, bit_and,
  ◌==◌, if◌then◌else◌,
}
use child.Prelude.Int.{ℤ, pos, le_ℤ, eq_ℤ}
use child.Prelude.Maybe.{◌>>=◌}
use child.Uflags.{
  has, flags, chlev_owner, chlev_coowner, ChanLevels, uflag_op, uflag_voice, uflag_acl,
  uflag_invite, uflag_topic, uflag_owner, uflag_coowner, uflag_halfop, uflag_set, uflag_protect,
  uflag_autoprotect, uflag_noop, uflag_autokick, uflag_autokickban, uflag_autoowner,
}
use child.Registry.{
  Registry, Cflag, Chan, find_user, find_link, find_nick, has_umode, find_cflag, get_link_master,
  is_authed, is_super_admin, umode_superadmin, copt_axxflags, copt_suspended,
}

-- What is done with the entry that a search found, if it found one.
unfoldable pub on_entry {ℓ} :
    {A : Type ℓ} → Registry → (ℕ → Cflag → Option A) → Option A → Option ℕ → Option A
on_entry r body rest none = rest
on_entry r body rest (some a) = do cflag ← r.cflag_at a; body a cflag

-- An early answer, or what follows.
unfoldable pub unless_answered {ℓ} : {A : Type ℓ} → Option A → Option A → Option A
unless_answered rest none = rest
unless_answered rest (some a) = some a

-- The common shape: 0 for NULL, an early answer, the entry of the user if it has one, and otherwise
-- the same for the master of its link.
unfoldable pub follow {ℓ} :
    {A : Type ℓ}
    → Registry
    → ℕ
    → A
    → (ℕ → Option (Option A))
    → (ℕ → ℕ → Cflag → Option A)
    → ℕ
    → Option ℕ
    → Option A
unfolding on_entry unless_answered
follow r fuel nothing early body chptr none = some nothing
follow r zero nothing early body chptr (some uptr) = none
follow r (suc fuel) nothing early body chptr (some uptr) =
    let next = get_link_master r uptr >>= follow r fuel nothing early body chptr in
    let search = find_cflag r chptr uptr >>= on_entry r (body uptr) next in
    early uptr >>= unless_answered search

-- No test before the search.
abbrev pub no_early {ℓ} : {A : Type ℓ} → ℕ → Option (Option A)
no_early uptr = some none

-- `if (IsSuperAdmin(uptr)) return 1;`
abbrev pub super_admin_early : Registry → ℕ → Option (Option Bool)
super_admin_early r uptr = do
  admin ← is_super_admin r uptr
  some (if admin then some true else none)

-- The tests of IsFounder on the user and the entry found.
unfoldable pub founder_entry : Registry → ℕ → ℕ → ℕ → Cflag → Option Bool
founder_entry r chptr uptr _ cflag = do
  user ← r.user_at uptr
  found ← find_nick r user.nick
  admin ← has_umode r found umode_superadmin
  chan ← r.chan_at chptr
  some (
      if admin
      then true
      else (if has chan.options copt_axxflags
          then has cflag.uflags uflag_owner || has cflag.uflags uflag_coowner
          else eq_ℤ cflag.flags chlev_owner || eq_ℤ cflag.flags chlev_coowner))

unfoldable pub is_founder : Registry → ℕ → Option ℕ → Option ℕ → Option Bool
unfolding follow founder_entry
is_founder r fuel uptr none = some false
is_founder r fuel uptr (some chptr) =
    follow r fuel false no_early (founder_entry r chptr) chptr uptr

unfoldable pub is_true_owner : Registry → ℕ → Option ℕ → Option ℕ → Option ℕ
unfolding follow
is_true_owner r fuel uptr none = some 0
is_true_owner r fuel uptr (some chptr) =
    follow r fuel 0 no_early
      (λ _ _ cflag. do
        chan ← r.chan_at chptr
        some (
            if has chan.options copt_axxflags
            then bit_and cflag.uflags uflag_owner
            else (if eq_ℤ cflag.flags chlev_owner then 1 else 0)))
      chptr uptr

-- The loop of get_coowner over `chptr->cflags`.
unfoldable pub get_coowner_in : (ℕ → Option Cflag) → List ℕ → Option (Option ℕ)
get_coowner_in heap [] = some none
get_coowner_in heap (a ∷ as') =
    let later = get_coowner_in heap as' in
    do
      cflag ← heap a
      if has cflag.uflags uflag_coowner || eq_ℤ cflag.flags chlev_coowner
          then some (some cflag.user)
          else later

unfoldable pub get_coowner : Registry → ℕ → Option (Option ℕ)
unfolding get_coowner_in
get_coowner r chptr = do chan ← r.chan_at chptr; get_coowner_in r.cflag_at chan.cflags

-- The answers of GetFlag before its search: a super administrator, NULL or a suspended channel.
unfoldable pub get_flag_early : Registry → Option ℕ → ℕ → Option (Option ℤ)
get_flag_early r chptr uptr = do
  user ← r.user_at uptr
  found ← find_nick r user.nick
  admin ← has_umode r found umode_superadmin
  if admin then some (some chlev_owner) else elim chptr [
    | none ↦ some (some (pos 0))
    | some c ↦ do
      chan ← r.chan_at c
      some (if has chan.options copt_suspended then some (pos 0) else none)
  ]

-- The nick of a NULL user is the address 0, for which find_nick finds nothing; the test for NULL
-- follows.
unfoldable pub get_flag : Registry → ℕ → Option ℕ → Option ℕ → Option ℤ
unfolding follow get_flag_early
get_flag r fuel none chptr = some (pos 0)
get_flag r fuel (some uptr) chptr =
    follow r fuel (pos 0) (get_flag_early r chptr)
      (λ _ _ cflag. some (if cflag.suspended then pos 0 else cflag.flags))
      (elim chptr [ some c ↦ c | none ↦ 0 ]) (some uptr)

-- find_cflag_recursive, which gives up on a user that is its own master.
unfoldable pub find_cflag_recursive : Registry → ℕ → ℕ → ℕ → Option (Option ℕ)
find_cflag_recursive r zero chptr uptr = none
find_cflag_recursive r (suc fuel) chptr uptr = do
  found ← find_cflag r chptr uptr
  elim found [
    | some a ↦ some (some a)
    | none ↦ do
      master ← get_link_master r uptr
      elim master [
        | none ↦ some none
        | some uptr2 ↦
            let deeper = find_cflag_recursive r fuel chptr uptr2 in
            if uptr == uptr2 then some none else deeper
      ]
  ]
