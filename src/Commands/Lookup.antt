-- ===== src/Commands/Lookup.antt =====
-- find_command (src/commands.c) on a table of live commands, and after __addCommand.
use child.Prelude.{
  ℕ, ◌≡◌, ◌⊎◌, refl, sym, ◌∙◌, inl, inr, Bool, true, false, Option, none, some, List, [], ◌∷◌, ◌++◌,
  ◌==◌, if◌then◌else◌, Bool-cases, arith, ==_iff, ap,
}
use child.Prelude.Int.{ℤ}
use child.Strings.{Str, strncpy}
use child.Registry.{Heap, put}
use child.Registry.Reads.{AllLive, Found}
use child.Channels.Balance.{some_injective}
use child.Commands.{
  Command, Commands, cmdlen, desc_of, add_command, is_command, find_command_in, find_command,
}

find_command_in-Found :
    (heap : Heap Command) (name : Option Str) (type subtype : ℕ) (as' : List ℕ)
    → AllLive heap as'
    → (o : Option ℕ) × (find_command_in heap name type subtype as' ≡ some o) × Found heap o
unfolding find_command_in
find_command_in-Found heap name type subtype [] l = (none, refl, tt)
find_command_in-Found heap name type subtype (a ∷ as') l =
    let (tmp, e) = l.0 in
    elim (Bool-cases (is_command tmp name type subtype)) [
      | inl hit ↦ (some a, rw (e, hit) refl, (tmp, e))
      | inr miss ↦
          let (o, run, found) = find_command_in-Found heap name type subtype as' l.1 in
          (o, rw (e, miss) run, found)
    ]

-- find_command of a live table ends on a live command or on none.
pub find_command-Found :
    (c : Commands) (name : Option Str) (type subtype : ℕ)
    → AllLive c.command_at c.list
    → (o : Option ℕ) × (find_command c name type subtype ≡ some o) × Found c.command_at o
unfolding find_command
find_command-Found c name type subtype l =
    find_command_in-Found c.command_at name type subtype c.list l

-- The command that is found once one more was added at `a`: an older one comes first.
unfoldable pub or_new : ℕ → Bool → Option ℕ → Option ℕ
or_new a is_new (some b) = some b
or_new a is_new none = if is_new then some a else none

find_command_in-append :
    (heap : Heap Command) (a : ℕ) (x : Command) (name : Option Str) (type subtype : ℕ)
    (as' : List ℕ) (o : Option ℕ)
    → AllLive heap as'
    → heap a ≡ none
    → find_command_in heap name type subtype as' ≡ some o
    → find_command_in (put heap a (some x)) name type subtype (as' ++ a ∷ [])
      ≡ some (or_new a (is_command x name type subtype) o)
unfolding find_command_in or_new
find_command_in-append heap a x name type subtype [] o l fresh run =
    rw (← some_injective run, (==_iff a a).1 refl)
      (elim (Bool-cases (is_command x name type subtype)) [ inl h ↦ rw h refl | inr h ↦ rw h refl ])
find_command_in-append heap a x name type subtype (b ∷ as') o l fresh run =
    let (tmp, e) = l.0 in
    let other = elsewhere tmp e (Bool-cases (a == b)) in
    elim (Bool-cases (is_command tmp name type subtype)) [
      | inl hit ↦
          let here : some b ≡ o = some_injective (sym (rw (e, hit) refl) ∙ run) in
          rw (other, e, hit, ← here) refl
      | inr miss ↦
          rw (other, e, miss)
            (find_command_in-append heap a x name type subtype as' o l.1 fresh
              (sym (rw (e, miss) refl) ∙ run))
    ]
  where
    elsewhere :
        (tmp : Command)
        → heap b ≡ some tmp
        → ((a == b) ≡ true) ⊎ ((a == b) ≡ false)
        → (a == b) ≡ false
    elsewhere tmp e (inr other) = other
    elsewhere tmp e (inl here) =
        let no : none ≡ some tmp = sym fresh ∙ ap heap ((==_iff a b).0 here) ∙ e in grind arith

-- After __addCommand every search finds what it found before, and where it found nothing, the new
-- command if that is the one looked for. The table is live, and malloc returns an address without a
-- command.
pub find_command-add_command :
    (malloc : Commands → ℕ) (c : Commands) (name : Str) (type func : ℕ) (desc : Option Str)
    (subtype : ℕ) (level : ℤ) (q : Option Str) (t u : ℕ)
    → AllLive c.command_at c.list
    → c.command_at (malloc c) ≡ none
    → (o : Option ℕ) × (x : Command) × (find_command c q t u ≡ some o)
      × (x ≡ record {
        name = strncpy cmdlen name;
        desc = desc_of desc;
        type = type;
        subtype = subtype;
        level = level;
        func = func;
      })
      × (find_command (add_command malloc c name type func desc subtype level).1 q t u
          ≡ some (or_new (malloc c) (is_command x q t u) o))
unfolding find_command add_command
find_command-add_command malloc c name type func desc subtype level q t u live fresh =
    let (o, run, _) = find_command_in-Found c.command_at q t u c.list live in
    let x : Command = record {
      name = strncpy cmdlen name;
      desc = desc_of desc;
      type = type;
      subtype = subtype;
      level = level;
      func = func;
    } in
    (
      o,
      x,
      run,
      refl,
      find_command_in-append c.command_at (malloc c) x q t u c.list o live fresh run,
    )
