-- ===== src/Services/Granted.antt =====
-- Whom chan_flags lets change the flags of an access entry (src/modules/m_chan.c).
use child.Prelude.{
  ℕ, ◌≡◌, ◌⊎◌, refl, sym, ap, ◌∙◌, true, false, not, ◌&&◌, ◌||◌, ◌==◌, Bool-cases, inl, inr, Option,
  none, some, [], ◌∷◌, arith, if◌then◌else◌,
}
use child.Prelude.Maybe.{◌>>=◌, >>=-eq-some}
use child.Strings.{Str}
use child.Uflags.{parse_uflags}
use child.Notices.{
  access_denied_full_stop, syntax_chan_flags, no_modification, this_user_does_not_exist,
}
use child.Registry.{Registry, Cflag, find_user, find_cflag, is_super_admin}
use child.Access.Rights.{channel_can_acl}
use child.Access.Acl.{channel_can_write_acl, can_modify_uflag}
use child.Access.Ranks.{Permits, can_modify_uflag-Permits}
use child.Services.{notice_to_user}
use child.Services.Rights.{has_right, guarded}
use child.Services.Refused.{OnlyNotice}
use child.Services.Flags.{may_modify, modify_uflags, change_uflags, flags_words}

-- A caller who may write the access of the user and has an entry of his own that permits the flags.
abbrev pub IsGranted : Registry → ℕ → ℕ → ℕ → ℕ → ℕ → Type 0
IsGranted r fuel u u2 c uflags =
    (channel_can_write_acl r fuel (some u) (some u2) (some c) ≡ some true)
    × ((a : ℕ) × (cflag : Cflag) × (find_cflag r c u ≡ some (some a))
        × (r.cflag_at a ≡ some cflag)
        × Permits cflag.uflags uflags)

may_modify-IsGranted :
    (r : Registry) (fuel u u2 c uflags : ℕ)
    → is_super_admin r u ≡ some false
    → may_modify r fuel (some u) u2 c uflags ≡ some true
    → IsGranted r fuel u u2 c uflags
unfolding may_modify
may_modify-IsGranted r fuel u u2 c uflags plain h =
    let (write, written, rest) =
      >>=-eq-some (channel_can_write_acl r fuel (some u) (some u2) (some c)) _ h in
    elim (Bool-cases write) [
      | inl yes' ↦
          let modified : (do
            ret ← can_modify_uflag r u c uflags
            some (not (ret == 0) && not ((ret == 1) && not (u == u2))))
              ≡ some true =
            ground (arith, yes', rest) in
          let (ret, asked, answer) = >>=-eq-some (can_modify_uflag r u c uflags) _ modified in
          (
            rw (← yes') written,
            can_modify_uflag-Permits r u c uflags ret plain asked (ground (arith, answer)),
          )
      | inr no' ↦ absurd (ground (arith, no', rest))
    ]

-- What stands behind the sign.
abbrev pub behind_sign : Str → Str
behind_sign [] = []
behind_sign (sign ∷ text) = text

change_uflags-IsGranted :
    (malloc : Registry → ℕ) (r r' : Registry) (fuel nptr u u2 c : ℕ) (text : Str)
    → is_super_admin r u ≡ some false
    → change_uflags malloc r fuel nptr (some u) c u2 text ≡ some r'
    → OnlyNotice r nptr (some r') ⊎ IsGranted r fuel u u2 c (parse_uflags (behind_sign text))
unfolding change_uflags
change_uflags-IsGranted malloc r r' fuel nptr u u2 c [] plain h = inl (syntax_chan_flags, sym h)
change_uflags-IsGranted malloc r r' fuel nptr u u2 c (sign ∷ text) plain h =
    elim (Bool-cases ((sign == b'+') || (sign == b'-'))) [
      | inr unsigned ↦ inl (syntax_chan_flags, ground (arith, unsigned, h))
      | inl signed ↦ elim (Bool-cases (parse_uflags text == 0)) [
        | inl zero' ↦ inl (no_modification, ground (arith, signed, zero', h))
        | inr some' ↦
            let tested : (do
              may ← may_modify r fuel (some u) u2 c (parse_uflags text)
              if may
                  then modify_uflags malloc r fuel nptr u2 c (sign == b'+') (parse_uflags text)
                  else notice_to_user r nptr access_denied_full_stop)
                ≡ some r' =
              ground (arith, signed, some', h) in
            let (may, asked, answer) =
              >>=-eq-some (may_modify r fuel (some u) u2 c (parse_uflags text)) _ tested in
            elim (Bool-cases may) [
              | inl yes' ↦
                  inr (
                    may_modify-IsGranted r fuel u u2 c (parse_uflags text) plain
                      (rw (← yes') asked))
              | inr no' ↦ inl (access_denied_full_stop, ground (arith, no', answer))
            ]
      ]
    ]

found-IsGranted :
    (malloc : Registry → ℕ) (r r' : Registry) (fuel nptr u c : ℕ) (text : Str) (found : Option ℕ)
    → is_super_admin r u ≡ some false
    → elim found [
      | none ↦ notice_to_user r nptr this_user_does_not_exist
      | some u2 ↦ change_uflags malloc r fuel nptr (some u) c u2 text
    ]
      ≡ some r'
    → OnlyNotice r nptr (some r')
      ⊎ ((u2 : ℕ) × (found ≡ some u2) × IsGranted r fuel u u2 c (parse_uflags (behind_sign text)))
found-IsGranted malloc r r' fuel nptr u c text none plain h = inl (this_user_does_not_exist, sym h)
found-IsGranted malloc r r' fuel nptr u c text (some u2) plain h =
    elim (change_uflags-IsGranted malloc r r' fuel nptr u u2 c text plain h) [
      | inl only ↦ inl only
      | inr granted ↦ inr (u2, refl, granted)
    ]

-- What chan_flags does for a caller who is no super administrator: a notice is all that comes of it, or the
-- caller has the right ACL or a founder's, may write the access of the user that is named, and has an
-- entry that permits all the flags that are named.
pub flags_words-IsGranted :
    (malloc : Registry → ℕ) (r r' : Registry) (fuel nptr u c c1 c2 : ℕ) (name user text : Str)
    → is_super_admin r u ≡ some false
    → flags_words malloc r fuel nptr (some u) c name (some (c1 ∷ user)) (some (c2 ∷ text)) ≡ some r'
    → OnlyNotice r nptr (some r')
      ⊎ ((has_right channel_can_acl r fuel (some u) c ≡ some true)
          × ((u2 : ℕ) × (find_user r (some (c1 ∷ user)) ≡ some u2)
              × IsGranted r fuel u u2 c (parse_uflags text)))
unfolding flags_words guarded
flags_words-IsGranted malloc r r' fuel nptr u c c1 c2 name user text plain h =
    let (may, asked, answer) = >>=-eq-some (has_right channel_can_acl r fuel (some u) c) _ h in
    elim (Bool-cases may) [
      | inr no' ↦ inl (access_denied_full_stop, ground (arith, no', answer))
      | inl yes' ↦
          elim (found-IsGranted malloc r r' fuel nptr u c (c2 ∷ text)
            (find_user r (some (c1 ∷ user))) plain (ground (arith, yes', answer))) [
              | inl only ↦ inl only
              | inr granted ↦ inr (asked ∙ ap some yes', granted)
            ]
    ]
