-- ===== src/Services/Authorised.antt =====
-- Who reaches the function of a user command: the search and the test of levels that do_nick, do_chan
-- and m_privmsg share (src/modules/m_nick.c, src/modules/m_chan.c, src/parseline.c).
use child.Prelude.{
  ℕ, ◌≡◌, ◌⊎◌, inl, inr, refl, sym, subst, ap, ◌∙◌, Bool, true, false, ◌==◌, Bool-cases, Option,
  none, some, List, [], ◌∷◌, arith, if◌then◌else◌,
}
use child.Prelude.Int.{ℤ, pos, negsuc, le_ℤ, eq_ℤ}
use child.Prelude.Maybe.{◌>>=◌, >>=-eq-some}
use child.Channels.Balance.{some_injective}
use child.Strings.{Str, str_eq}
use child.Registry.{Registry, User}
use child.Commands.{Command, Commands}
use child.Services.{Run, is_allowed, first_command, call_found, serve, is_of_type}

-- Who may use a command of some level: one who is identified and whose account has the level, and
-- everyone else where the level is 0.
abbrev pub MayCall : Registry → Option ℕ → ℤ → Type 0
MayCall r none level = level ≡ pos 0
MayCall r (some u) level =
    (user : User) × (r.user_at u ≡ some user)
    × (((user.authed ≡ true) × (le_ℤ level user.level ≡ true))
        ⊎ ((user.authed ≡ false) × (level ≡ pos 0)))

-- A command of a name, in any case of letters, and of a type.
abbrev pub IsNamed : Option Str → ℕ → Command → Type 0
IsNamed name type cmd = (str_eq (some cmd.name) name ≡ true) × (cmd.type ≡ type)

-- The first command of a list that has the name and the type.
abbrev pub IsFirst : Commands → Option Str → ℕ → List ℕ → Command → Type 0
IsFirst c name type [] cmd = ⊥
IsFirst c name type (a ∷ as') cmd =
    (x : Command) × (c.command_at a ≡ some x)
    × ((IsNamed name type x × (x ≡ cmd)) ⊎ ((¬ IsNamed name type x) × IsFirst c name type as' cmd))

-- No command of a list has the name and the type.
abbrev pub IsUnknown : Commands → Option Str → ℕ → List ℕ → Type 0
IsUnknown c name type [] = Unit
IsUnknown c name type (a ∷ as') =
    ((x : Command) × (c.command_at a ≡ some x) × (¬ IsNamed name type x))
    × IsUnknown c name type as'

-- What comes of a command: its function is called, or one of the two refusals.
abbrev pub Served :
    Commands
    → Option Str
    → ℕ
    → (Registry → Option Registry)
    → (Registry → Option Registry)
    → Run
    → Registry
    → Option ℕ
    → Option Registry
    → Type 0
Served c name type unknown denied run r uptr served =
    (IsUnknown c name type c.list × (unknown r ≡ served))
    ⊎ ((cmd : Command) × IsFirst c name type c.list cmd
        × ((MayCall r uptr cmd.level × (run cmd.func r ≡ served))
            ⊎ ((¬ MayCall r uptr cmd.level) × (denied r ≡ served))))

eq_ℤ-zero : (level : ℤ) → eq_ℤ level (pos 0) ≡ true → level ≡ pos 0
eq_ℤ-zero (pos n) h = ap pos (ground (arith, h))
eq_ℤ-zero (negsuc n) h = ground (arith, h)

-- The two kinds of caller with an account.
abbrev pub Suits : User → ℤ → Type 0
Suits user level =
    ((user.authed ≡ true) × (le_ℤ level user.level ≡ true))
    ⊎ ((user.authed ≡ false) × (level ≡ pos 0))

same_user :
    (r : Registry) (u : ℕ) (user : User) (level : ℤ)
    → r.user_at u ≡ some user
    → MayCall r (some u) level
    → Suits user level
same_user r u user level at (x, here, suits) =
    subst (λ y. Suits y level) (some_injective (sym here ∙ at)) suits

not_zero : (level : ℤ) → eq_ℤ level (pos 0) ≡ false → ¬ (level ≡ pos 0)
not_zero level h e = (let yes : eq_ℤ level (pos 0) ≡ true = rw e refl in grind (arith, h, yes))

answer-Suits :
    (user : User) (level : ℤ) (b : Bool)
    → (if user.authed then le_ℤ level user.level else eq_ℤ level (pos 0)) ≡ b
    → ((b ≡ true) × Suits user level) ⊎ ((b ≡ false) × (¬ Suits user level))
answer-Suits user level b h = elim (Bool-cases user.authed) [
  | inl yes' ↦ elim (Bool-cases (le_ℤ level user.level)) [
    | inl high ↦ inl (ground (arith, yes', high, h), inl (yes', high))
    | inr low ↦ inr (
      ground (arith, yes', low, h),
      λ suits. elim suits [
        | inl (_, high) ↦ (let no : false ≡ true = sym low ∙ high in grind arith)
        | inr (no', _) ↦ (let no : false ≡ true = sym no' ∙ yes' in grind arith)
      ],
    )
  ]
  | inr no' ↦ elim (Bool-cases (eq_ℤ level (pos 0))) [
    | inl zero' ↦ inl (ground (arith, no', zero', h), inr (no', eq_ℤ-zero level zero'))
    | inr other ↦ inr (
      ground (arith, no', other, h),
      λ suits. elim suits [
        | inl (yes', _) ↦ (let no : false ≡ true = sym no' ∙ yes' in grind arith)
        | inr (_, e) ↦ not_zero level other e
      ],
    )
  ]
]

-- What the test of the level answers.
is_allowed-MayCall :
    (r : Registry) (uptr : Option ℕ) (level : ℤ) (b : Bool)
    → is_allowed r uptr level ≡ some b
    → ((b ≡ true) × MayCall r uptr level) ⊎ ((b ≡ false) × (¬ MayCall r uptr level))
unfolding is_allowed
is_allowed-MayCall r none level b h = elim (Bool-cases b) [
  | inl yes' ↦ inl (yes', eq_ℤ-zero level (some_injective h ∙ yes'))
  | inr no' ↦ inr (no', not_zero level (some_injective h ∙ no'))
]
is_allowed-MayCall r (some u) level b h =
    let (user, at, answer) = >>=-eq-some (r.user_at u) _ h in
    elim (answer-Suits user level b (some_injective answer)) [
      | inl (yes', suits) ↦ inl (yes', (user, at, suits))
      | inr (no', unfit) ↦ inr (no', λ may. unfit (same_user r u user level at may))
    ]

-- IsNamed is what is_of_type tests.
is_of_type-IsNamed :
    (name : Option Str) (type : ℕ) (cmd : Command)
    → ((is_of_type name type cmd ≡ true) × IsNamed name type cmd)
      ⊎ ((is_of_type name type cmd ≡ false) × (¬ IsNamed name type cmd))
is_of_type-IsNamed name type cmd = elim (Bool-cases (str_eq (some cmd.name) name)) [
  | inr no' ↦ inr (rw no' refl, λ named. (let no : false ≡ true = sym no' ∙ named.0 in grind arith))
  | inl yes' ↦ elim (Bool-cases (cmd.type == type)) [
    | inl same ↦ inl (rw (yes', same) refl, (yes', ground (arith, same)))
    | inr other ↦ inr (rw (yes', other) refl, λ named. ground (arith, other, named.1))
  ]
]

first_command-IsFirst :
    (c : Commands) (name : Option Str) (type : ℕ) (as' : List ℕ) (found : Option Command)
    → first_command c (is_of_type name type) as' ≡ some found
    → ((found ≡ none) × IsUnknown c name type as')
      ⊎ ((cmd : Command) × (found ≡ some cmd) × IsFirst c name type as' cmd)
unfolding first_command
first_command-IsFirst c name type [] found h = inl (sym (some_injective h), tt)
first_command-IsFirst c name type (a ∷ as') found h =
    let (x, at, rest) = >>=-eq-some (c.command_at a) _ h in
    elim (is_of_type-IsNamed name type x) [
      | inl (yes', named) ↦
          let here : some (some x) ≡ some found = ground (arith, yes', rest) in
          inr (x, sym (some_injective here), (x, at, inl (named, refl)))
      | inr (no', unnamed) ↦
          let later : first_command c (is_of_type name type) as' ≡ some found =
            ground (arith, no', rest) in
          elim (first_command-IsFirst c name type as' found later) [
            | inl (e, unknown) ↦ inl (e, ((x, at, unnamed), unknown))
            | inr (cmd, e, first) ↦ inr (cmd, e, (x, at, inr (unnamed, first)))
          ]
    ]

-- Every entry of a list of commands is there.
abbrev pub AllHeld : Commands → List ℕ → Type 0
AllHeld c [] = Unit
AllHeld c (a ∷ as') = ((x : Command) × (c.command_at a ≡ some x)) × AllHeld c as'

-- The account of a caller, if he has one, is there.
abbrev pub IsCaller : Registry → Option ℕ → Type 0
IsCaller r none = Unit
IsCaller r (some u) = (user : User) × (r.user_at u ≡ some user)

first_command-ends :
    (c : Commands) (accepts : Command → Bool) (as' : List ℕ)
    → AllHeld c as'
    → (found : Option Command) × (first_command c accepts as' ≡ some found)
unfolding first_command
first_command-ends c accepts [] held = (none, refl)
first_command-ends c accepts (a ∷ as') ((x, at), held) = elim (Bool-cases (accepts x)) [
  | inl yes' ↦ (some x, rw (at, yes') refl)
  | inr no' ↦
      let (found, later) = first_command-ends c accepts as' held in (found, rw (at, no') later)
]

is_allowed-ends :
    (r : Registry) (uptr : Option ℕ) (level : ℤ)
    → IsCaller r uptr
    → (b : Bool) × (is_allowed r uptr level ≡ some b)
unfolding is_allowed
is_allowed-ends r none level caller = (_, refl)
is_allowed-ends r (some u) level (user, at) =
    (if user.authed then le_ℤ level user.level else eq_ℤ level (pos 0), rw at refl)

-- What becomes of a command by its name and type: the first command of the table that has them decides,
-- where every entry of the table, and the caller's account if he has one, is there. Its function is called
-- if the caller may use the command, and only then: one who is identified needs the command's level, and
-- everyone else may use what has the level 0. A caller who may not, and a name that no command of the type
-- has, get their refusals.
pub serve-Served :
    (c : Commands) (name : Option Str) (type : ℕ) (unknown denied : Registry → Option Registry)
    (run : Run) (r : Registry) (uptr : Option ℕ)
    → AllHeld c c.list
    → IsCaller r uptr
    → Served c name type unknown denied run r uptr
        (serve c (is_of_type name type) unknown denied run r uptr)
unfolding serve call_found
serve-Served c name type unknown denied run r uptr held caller =
    let (found, searched) = first_command-ends c (is_of_type name type) c.list held in
    subst (λ served. Served c name type unknown denied run r uptr served)
      (ap (λ x. x >>= call_found unknown denied run r uptr) (sym searched))
      (by_found found (first_command-IsFirst c name type c.list found searched))
  where
    by_found :
        (found : Option Command)
        → ((found ≡ none) × IsUnknown c name type c.list)
          ⊎ ((cmd : Command) × (found ≡ some cmd) × IsFirst c name type c.list cmd)
        → Served c name type unknown denied run r uptr (call_found unknown denied run r uptr found)
    by_found none (inl (e, none_there)) = inl (none_there, refl)
    by_found none (inr (cmd, e, first)) = grind (arith, e)
    by_found (some cmd) (inl (e, none_there)) = grind (arith, e)
    by_found (some cmd) (inr (x, e, first)) =
        let (allowed, tested) = is_allowed-ends r uptr cmd.level caller in
        inr (
          cmd,
          subst (λ y. IsFirst c name type c.list y) (sym (some_injective e)) first,
          elim (is_allowed-MayCall r uptr cmd.level allowed tested) [
            | inl (yes', may) ↦ inl (may, rw (tested, yes') refl)
            | inr (no', may_not) ↦ inr (may_not, rw (tested, no') refl)
          ],
        )
