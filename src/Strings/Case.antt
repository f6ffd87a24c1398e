-- ===== src/Strings/Case.antt =====
-- Equality up to case (src/core.c, src/string_utils.c).
use child.Prelude.{◌≡◌, refl, true, [], ◌∷◌, map, arith, ◌↔◌}
use child.Strings.{Str, tolower, strcasecmp}

-- strcasecmp returns 0 exactly on strings with the same lower case.
pub strcasecmp_iff : (s t : Str) → (strcasecmp s t ≡ true) ↔ (map tolower s ≡ map tolower t)
unfolding strcasecmp
strcasecmp_iff [] [] = (λ h. refl, λ h. refl)
strcasecmp_iff [] (b ∷ t) = (λ h. cc, λ h. cc)
strcasecmp_iff (a ∷ s) [] = (λ h. cc, λ h. cc)
strcasecmp_iff (a ∷ s) (b ∷ t) =
    (λ h. ground (arith, (strcasecmp_iff s t).0), λ h. ground (arith, (strcasecmp_iff s t).1))

pub strcasecmp_refl : (s : Str) → strcasecmp s s ≡ true
strcasecmp_refl s = (strcasecmp_iff s s).1 refl

pub strcasecmp_symm : (s t : Str) → strcasecmp s t ≡ strcasecmp t s
unfolding strcasecmp
strcasecmp_symm [] [] = refl
strcasecmp_symm [] (b ∷ t) = refl
strcasecmp_symm (a ∷ s) [] = refl
strcasecmp_symm (a ∷ s) (b ∷ t) = ground (arith, strcasecmp_symm s t)

pub strcasecmp_trans :
    (s t u : Str) → strcasecmp s t ≡ true → strcasecmp t u ≡ true → strcasecmp s u ≡ true
strcasecmp_trans s t u h g =
    (strcasecmp_iff s u).1 (cc ((strcasecmp_iff s t).0 h, (strcasecmp_iff t u).0 g))
