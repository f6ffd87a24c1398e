-- ===== src/Commands/Level.antt =====
-- setcmdlev and setcmdlev2 (src/commands.c): what a line of the configuration does to the levels.
use child.Prelude.{
  ℕ, ◌≡◌, ◌⊎◌, refl, inl, inr, Bool, true, false, not, ◌&&◌, Option, none, some, if◌then◌else◌,
  Bool-cases, Option-cases,
}
use child.Prelude.Int.{ℤ, lt_ℤ}
use child.Prelude.Maybe.{◌>>=◌}
use child.Strings.{Str}
use child.Registry.{put}
use child.Registry.Reads.{AllLive, Found}
use child.Commands.{
  Command, Commands, find_command, set_level, kind_of, bases, itype_of, isubtype_of, target_of,
  setcmdlev_typed, setcmdlev_from, setcmdlev, setcmdlev2, five_words, is_given,
}
use child.Commands.Lookup.{find_command-Found}

-- Either 0 and nothing changes, or 1 and one command has the level, which is not above the owner's.
abbrev pub SetsLevel : ℤ → Commands → ℤ → Option (Bool × Commands) → Type 0
SetsLevel level_owner c level result =
    (result ≡ some (false, c))
    ⊎ ((lt_ℤ level_owner level ≡ false)
        × (cmd : ℕ) × (command : Command) × (c.command_at cmd ≡ some command)
        × (result
            ≡ some (
              true,
              record c {
                command_at = put c.command_at cmd (some (record command { level = level }));
              },
            )))

module _ (level_owner : ℤ) (c : Commands) (live : AllLive c.command_at c.list) where
  set_level-SetsLevel :
      (level : ℤ) (o : Option ℕ)
      → lt_ℤ level_owner level ≡ false
      → Found c.command_at o
      → SetsLevel level_owner c level (set_level c level o)
  unfolding set_level
  set_level-SetsLevel level none low found = inl refl
  set_level-SetsLevel level (some cmd) low (command, e) = inr (low, cmd, command, e, rw e refl)

  found-SetsLevel :
      (level : ℤ) (name : Option Str) (type subtype : ℕ)
      → lt_ℤ level_owner level ≡ false
      → SetsLevel level_owner c level (find_command c name type subtype >>= set_level c level)
  found-SetsLevel level name type subtype low =
      let (o, run, found) = find_command-Found c name type subtype live in
      rw run (set_level-SetsLevel level o low found)

  setcmdlev_from-SetsLevel :
      (base type subtype end : Option Str) (level : ℤ) (o : Option ℕ)
      → lt_ℤ level_owner level ≡ false
      → SetsLevel level_owner c level (setcmdlev_from c base type subtype end level o)
  unfolding setcmdlev_from setcmdlev_typed
  setcmdlev_from-SetsLevel base type subtype end level none low = inl refl
  setcmdlev_from-SetsLevel base type subtype end level (some ibase) low =
      elim (Option-cases (itype_of ibase type)) [
        | inl e ↦ rw e (inl refl)
        | inr (itype, e) ↦
            let (name, kind, subkind) =
              target_of base type subtype end ibase itype (isubtype_of itype subtype) in
            rw e (found-SetsLevel level name kind subkind low)
      ]

  setcmdlev_low :
      (base type subtype end : Option Str) (level : ℤ)
      → lt_ℤ level_owner level ≡ false
      → setcmdlev level_owner c base type subtype end level
        ≡ setcmdlev_from c base type subtype end level (kind_of base bases)
  unfolding setcmdlev
  setcmdlev_low base type subtype end level low = rw low refl

  setcmdlev_high :
      (base type subtype end : Option Str) (level : ℤ)
      → lt_ℤ level_owner level ≡ true
      → setcmdlev level_owner c base type subtype end level ≡ some (false, c)
  unfolding setcmdlev
  setcmdlev_high base type subtype end level high = rw high refl

  setcmdlev-SetsLevel :
      (base type subtype end : Option Str) (level : ℤ)
      → SetsLevel level_owner c level (setcmdlev level_owner c base type subtype end level)
  setcmdlev-SetsLevel base type subtype end level = elim (Bool-cases (lt_ℤ level_owner level)) [
    | inl high ↦ inl (setcmdlev_high base type subtype end level high)
    | inr low ↦
        rw (setcmdlev_low base type subtype end level low)
          (setcmdlev_from-SetsLevel base type subtype end level (kind_of base bases) low)
  ]

  abbrev SetsSome : Option (Bool × Commands) → Type 0
  SetsSome result = (level : ℤ) × SetsLevel level_owner c level result

  either :
      (b : Bool) (x y : Option (Bool × Commands))
      → SetsSome x
      → SetsSome y
      → SetsSome (if b then x else y)
  either true x y h g = h
  either false x y h g = g

  -- A line of the configuration sets the level of one command or changes nothing, whatever it holds,
  -- and never to more than the owner's level. The table of commands is live.
  pub setcmdlev2-SetsLevel :
      (atoi : Option Str → ℤ) (line : Option Str)
      → (level : ℤ) × SetsLevel level_owner c level (setcmdlev2 atoi level_owner c line)
  unfolding setcmdlev2
  setcmdlev2-SetsLevel atoi line =
      let (arg1, arg2, arg3, arg4, arg5) = five_words line in
      either (not (is_given arg1 && is_given arg2)) _ _ (atoi none, inl refl)
        (either (not (is_given arg3)) _ _ (_, setcmdlev-SetsLevel arg1 none none none (atoi arg2))
          (either (not (is_given arg4)) _ _ (_, setcmdlev-SetsLevel arg1 arg2 none none (atoi arg3))
            (either (not (is_given arg5)) _ _
              (_, setcmdlev-SetsLevel arg1 arg2 arg3 none (atoi arg4))
              (_, setcmdlev-SetsLevel arg1 arg2 arg3 arg4 (atoi arg5)))))
