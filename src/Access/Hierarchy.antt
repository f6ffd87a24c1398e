-- ===== src/Access/Hierarchy.antt =====
-- How the rights on a channel include one another.
use child.Prelude.{
  ℕ, zero, suc, ◌≡◌, refl, inl, inr, Bool, true, false, Option, none, some, arith, Bool-cases,
  if◌then◌else◌,
}
use child.Prelude.Int.{ℤ, le_ℤ, le_ℤ_trans}
use child.Prelude.Maybe.{◌>>=◌}
use child.Uflags.{ChanLevels, has}
use child.Registry.{Registry, Cflag, Chan, copt_axxflags, find_cflag, get_link_master}
use child.Access.{follow, on_entry, unless_answered, is_founder, super_admin_early}
use child.Access.Rights.{
  entry_right, channel_can, channel_can_op, channel_can_halfop, channel_can_voice,
}

-- What one check grants, another grants.
abbrev pub Implies : Option Bool → Option Bool → Type 0
Implies p q = p ≡ some true → q ≡ some true

module _ (r : Registry) (chptr : ℕ) (early : ℕ → Option (Option Bool)) where
  on_entry-Implies :
      (body body' : ℕ → Cflag → Option Bool) (rest rest' : Option Bool)
      → ((a : ℕ) (c : Cflag) → Implies (body a c) (body' a c))
      → Implies rest rest'
      → (o : Option ℕ) → Implies (on_entry r body rest o) (on_entry r body' rest' o)
  unfolding on_entry
  on_entry-Implies body body' rest rest' step next none = next
  on_entry-Implies body body' rest rest' step next (some a) = bound (r.cflag_at a)
    where
      bound : (o : Option Cflag) → Implies (o >>= body a) (o >>= body' a)
      bound none h = cc
      bound (some c) h = step a c h

  bind-Implies :
      (o : Option (Option ℕ)) (k k' : Option ℕ → Option Bool)
      → ((a : Option ℕ) → Implies (k a) (k' a))
      → Implies (o >>= k) (o >>= k')
  bind-Implies none k k' step h = cc
  bind-Implies (some a) k k' step h = step a h

  unless_answered-Implies :
      (rest rest' : Option Bool)
      → Implies rest rest'
      → (o : Option (Option Bool))
      → Implies (o >>= unless_answered rest) (o >>= unless_answered rest')
  unfolding unless_answered
  unless_answered-Implies rest rest' step none h = cc
  unless_answered-Implies rest rest' step (some none) h = step h
  unless_answered-Implies rest rest' step (some (some b)) h = h

  -- Two walks with the same early answers compare as their bodies do.
  pub follow-Implies :
      (body body' : ℕ → ℕ → Cflag → Option Bool)
      → ((u a : ℕ) (c : Cflag) → Implies (body u a c) (body' u a c))
      → (fuel : ℕ) (u : Option ℕ)
      → Implies (follow r fuel false early body chptr u) (follow r fuel false early body' chptr u)
  unfolding follow
  follow-Implies body body' step fuel none = λ h. h
  follow-Implies body body' step zero (some u) = λ h. h
  follow-Implies body body' step (suc fuel) (some u) =
      let deeper = follow-Implies body body' step fuel in
      unless_answered-Implies _ _
        (bind-Implies (find_cflag r chptr u) _ _ (
          on_entry-Implies (body u) (body' u) _ _ (step u)
            (bind-Implies (get_link_master r u) _ _ deeper)))
        (early u)

ladder-Implies :
    (axx by by' : Bool) (founder : Option Bool) (level level' : Bool)
    → (by ≡ true → by' ≡ true)
    → (level ≡ true → level' ≡ true)
    → Implies
        (if axx then (if by then some true else founder) else some level)
        (if axx then (if by' then some true else founder) else some level')
ladder-Implies true true by' founder level level' f l h = rw (f refl)
ladder-Implies true false true founder level level' f l h = refl
ladder-Implies true false false founder level level' f l h = h
ladder-Implies false by by' founder true level' f l h = rw (l refl)
ladder-Implies false by by' founder false level' f l h = cc

module _ (r : Registry) (by_flags by_flags' : ℕ → Bool) (threshold threshold' : ChanLevels → ℤ)
    (flags_imply : (u : ℕ) → by_flags u ≡ true → by_flags' u ≡ true)
    (level_implies : (l : ℤ)
      → le_ℤ (threshold r.config.levels) l ≡ true
      → le_ℤ (threshold' r.config.levels) l ≡ true) where
  entry_right-Implies :
      (fuel chptr u a : ℕ) (c : Cflag)
      → Implies
          (entry_right r fuel by_flags threshold chptr u a c)
          (entry_right r fuel by_flags' threshold' chptr u a c)
  unfolding entry_right
  entry_right-Implies fuel chptr u a c = elim (Bool-cases c.suspended) [
    | inl s ↦ rw s (λ h. h)
    | inr s ↦ rw s (by_channel (r.chan_at chptr) (is_founder r fuel (some u) (some chptr)))
  ]
    where
      by_channel :
          (o : Option Chan) (founder : Option Bool)
          → Implies
              (o >>= λ chan.
                if has chan.options copt_axxflags
                then (if by_flags c.uflags then some true else founder)
                else some (le_ℤ (threshold r.config.levels) c.flags))
              (o >>= λ chan.
                if has chan.options copt_axxflags
                then (if by_flags' c.uflags then some true else founder)
                else some (le_ℤ (threshold' r.config.levels) c.flags))
      by_channel none founder h = cc
      by_channel (some chan) founder h =
          ladder-Implies (has chan.options copt_axxflags) _ _ founder _ _ (flags_imply c.uflags)
            (level_implies c.flags) h

  pub channel_can-Implies :
      (fuel : ℕ) (u c : Option ℕ)
      → Implies
          (channel_can by_flags threshold r fuel u c)
          (channel_can by_flags' threshold' r fuel u c)
  unfolding channel_can
  channel_can-Implies fuel u none = λ h. h
  channel_can-Implies fuel u (some c) =
      follow-Implies r c (super_admin_early r) _ _ (entry_right-Implies fuel c) fuel u

-- Who may op may halfop and voice too, on every channel and for every user, if the levels for voice,
-- halfop and op are in this order.
pub op_halfop_voice :
    (r : Registry) (fuel : ℕ) (u c : Option ℕ)
    → le_ℤ r.config.levels.chlev_voice r.config.levels.chlev_halfop ≡ true
    → le_ℤ r.config.levels.chlev_halfop r.config.levels.chlev_op ≡ true
    → channel_can_op r fuel u c ≡ some true
    → (channel_can_halfop r fuel u c ≡ some true) × (channel_can_voice r fuel u c ≡ some true)
unfolding channel_can_op channel_can_halfop channel_can_voice
op_halfop_voice r fuel u c vh ho op =
    let halfop =
      channel_can-Implies r _ _ (λ l. l.chlev_op) (λ l. l.chlev_halfop) (λ f h. ground arith)
        (λ l h. le_ℤ_trans r.config.levels.chlev_halfop r.config.levels.chlev_op l ho h) fuel u c
        op in
    let voice =
      channel_can-Implies r _ _ (λ l. l.chlev_halfop) (λ l. l.chlev_voice) (λ f h. ground arith)
        (λ l h. le_ℤ_trans r.config.levels.chlev_voice r.config.levels.chlev_halfop l vh h) fuel u c
        halfop in
    (halfop, voice)
