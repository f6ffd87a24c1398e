-- ===== src/Services/Lower.antt =====
-- Whom `add` of chan_access lets enter at which level (src/modules/m_chan.c).
use child.Prelude.{
  ℕ, ◌≡◌, ◌⊎◌, refl, sym, ◌∙◌, Bool, true, false, Bool-cases, inl, inr, Option, none, some, arith,
  if◌then◌else◌,
}
use child.Prelude.Int.{ℤ, lt_ℤ, le_ℤ, eq_ℤ}
use child.Prelude.Maybe.{>>=-eq-some}
use child.Strings.{Str}
use child.Uflags.{chlev_owner, chlev_coowner}
use child.Notices.{Notice, access_denied}
use child.Registry.{Registry, Chan, User, find_user}
use child.Channels.Balance.{some_injective}
use child.Access.{get_flag}
use child.Services.{notice_to_user}
use child.Services.Refused.{OnlyNotice}
use child.Services.Levels.{
  barred, has_coowner_level, add_answer, add_objection, add_level, by_level, access_add,
}

add_answer-none :
    (outranked high : Bool) (level : ℤ) (chan : Chan) (user : User) (coowned : Bool)
    → add_answer outranked high level chan user coowned ≡ none
    → (outranked ≡ false) × (high ≡ false) × (le_ℤ chlev_owner level ≡ false)
unfolding add_answer
add_answer-none outranked high level chan user coowned h =
    (ground (arith, h), ground (arith, h), ground (arith, h))

module _ (r : Registry) (fuel nptr : ℕ) (uptr : Option ℕ) (c : ℕ)
    (plain : barred true r fuel nptr uptr c ≡ some true) where
  -- One who is neither a founder nor an operator of the services is barred where the test says so.
  barred-same : (b x : Bool) → barred b r fuel nptr uptr c ≡ some x → x ≡ b
  unfolding barred
  barred-same true x h = grind (arith, plain, h)
  barred-same false x h = sym (some_injective h)

  -- A level that is not below a bound.
  abbrev pub HasLevel : ℤ → Type 0
  HasLevel bound =
      (mine : ℤ) × (get_flag r fuel uptr (some c) ≡ some mine) × (lt_ℤ mine bound ≡ false)

  by_level-HasLevel :
      (r' : Registry) (bound : ℤ) (unknown : Notice) (name : Str) (act : ℕ → Option Registry)
      → by_level bound unknown r fuel nptr uptr c name act ≡ some r'
      → OnlyNotice r nptr (some r')
        ⊎ (HasLevel bound × ((u2 : ℕ) × (find_user r (some name) ≡ some u2) × (act u2 ≡ some r')))
  unfolding by_level
  by_level-HasLevel r' bound unknown name act h =
      let (mine, level, rest) = >>=-eq-some (get_flag r fuel uptr (some c)) _ h in
      let (low, asked, answer) = >>=-eq-some (barred (lt_ℤ mine bound) r fuel nptr uptr c) _ rest in
      elim (Bool-cases low) [
        | inl yes' ↦ inl (access_denied, ground (arith, yes', answer))
        | inr no' ↦
            by_user (find_user r (some name)) mine level
              (sym (barred-same (lt_ℤ mine bound) low asked) ∙ no') (ground (arith, no', answer))
      ]
    where
      by_user :
          (found : Option ℕ) (mine : ℤ)
          → get_flag r fuel uptr (some c) ≡ some mine
          → lt_ℤ mine bound ≡ false
          → elim found [ none ↦ notice_to_user r nptr unknown | some u2 ↦ act u2 ] ≡ some r'
          → OnlyNotice r nptr (some r')
            ⊎ (HasLevel bound × ((u2 : ℕ) × (found ≡ some u2) × (act u2 ≡ some r')))
      by_user none mine level high h = inl (unknown, sym h)
      by_user (some u2) mine level high h = inr ((mine, level, high), (u2, refl, h))

  -- Both the user and the level that he gets are below the caller's level, and the level is below a
  -- founder's.
  abbrev pub IsBelow : ℕ → ℤ → Type 0
  IsBelow u2 level =
      (mine : ℤ) × (theirs : ℤ) × (get_flag r fuel uptr (some c) ≡ some mine)
      × (get_flag r fuel (some u2) (some c) ≡ some theirs)
      × (le_ℤ mine theirs ≡ false)
      × (le_ℤ mine level ≡ false)
      × (le_ℤ chlev_owner level ≡ false)

  add_objection-IsBelow :
      (u2 : ℕ) (level : ℤ)
      → add_objection r fuel nptr uptr c u2 level ≡ some none
      → IsBelow u2 level
  unfolding add_objection
  add_objection-IsBelow u2 level h =
      let (theirs, of_theirs, h1) = >>=-eq-some (get_flag r fuel (some u2) (some c)) _ h in
      let (mine, of_mine, h2) = >>=-eq-some (get_flag r fuel uptr (some c)) _ h1 in
      let (outranked, asked, h3) =
        >>=-eq-some (barred (le_ℤ mine theirs) r fuel nptr uptr c) _ h2 in
      let (high, asked2, h4) = >>=-eq-some (barred (le_ℤ mine level) r fuel nptr uptr c) _ h3 in
      let (chan, at, h5) = >>=-eq-some (r.chan_at c) _ h4 in
      let (user2, at2, h6) = >>=-eq-some (r.user_at u2) _ h5 in
      let (coowned, searched, h7) =
        >>=-eq-some
          (if eq_ℤ level chlev_coowner then has_coowner_level r chan.cflags else some false) _ h6 in
      let (o, t, max) =
        add_answer-none outranked high level chan user2 coowned (some_injective h7) in
      (
        mine,
        theirs,
        of_mine,
        of_theirs,
        sym (barred-same (le_ℤ mine theirs) outranked asked) ∙ o,
        sym (barred-same (le_ℤ mine level) high asked2) ∙ t,
        max,
      )

  -- What `add` of chan_access does for a caller who is neither a founder of the channel nor an operator of
  -- the services: a notice is all that comes of it, or the caller has the level of an administrator,
  -- and the user that is named and the level that he gets are both below the caller's level, and the
  -- level is below a founder's.
  pub access_add-IsBelow :
      (malloc : Registry → ℕ) (r' : Registry) (chname name : Str) (level : ℤ)
      → access_add malloc r fuel nptr uptr c chname name level ≡ some r'
      → OnlyNotice r nptr (some r')
        ⊎ (HasLevel r.config.levels.chlev_admin
            × ((u2 : ℕ) × (find_user r (some name) ≡ some u2) × IsBelow u2 level))
  unfolding access_add
  access_add-IsBelow malloc r' chname name level h = elim (by_level-HasLevel r' _ _ name _ h) [
    | inl only ↦ inl only
    | inr (has, (u2, found, acted)) ↦
        let (objection, asked, answer) =
          >>=-eq-some (add_objection r fuel nptr uptr c u2 level) _ acted in
        by_objection has u2 found objection asked answer
  ]
    where
      by_objection :
          HasLevel r.config.levels.chlev_admin
          → (u2 : ℕ) → find_user r (some name) ≡ some u2
          → (objection : Option Notice) → add_objection r fuel nptr uptr c u2 level ≡ some objection
          → elim objection [
            | some text ↦ notice_to_user r nptr text
            | none ↦ add_level malloc r nptr c u2 chname name level
          ]
            ≡ some r'
          → OnlyNotice r nptr (some r')
            ⊎ (HasLevel r.config.levels.chlev_admin
                × ((u3 : ℕ) × (find_user r (some name) ≡ some u3) × IsBelow u3 level))
      by_objection has u2 found (some text) asked answer = inl (text, sym answer)
      by_objection has u2 found none asked answer =
          inr (has, (u2, found, add_objection-IsBelow u2 level asked))
