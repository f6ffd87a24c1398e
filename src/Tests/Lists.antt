-- ===== src/Tests/Lists.antt =====
-- The theorems on access lists at a registry with one account, one channel and one entry.
use child.Prelude.{ℕ, ◌≡◌, refl, inl, inr, false, Option, none, some, List, [], ◌∷◌, arith}
use child.Prelude.Int.{pos}
use child.Uflags.{uflag_op}
use child.Registry.{Registry, User, Chan, Cflag, Limit, put}
use child.Registry.Reads.{IsLive}
use child.Channels.{add_user_to_channel, delete_channel, chandrop, channel_botname}
use child.Channels.Balance.{Balanced, put_cases}
use child.Channels.Linked.{
  IsLinked, chan_of, chan_cflags, user_of, user_cflags, entered, entered-IsLinked,
  add_user_to_channel-IsLinked,
}
use child.Channels.Drop.{chandrop-IsLinked}
use child.Channels.Stale.{IsStale, delete_channel-check_limits}
use child.Tests.House.{house, chan, user, first}

abbrev lone_user : User
lone_user = user first []

abbrev lone_chan : Chan
lone_chan = record chan { cflags = [] }

abbrev due : Limit
due = record { chan = 3; time = 50 }

-- No entries.
abbrev bare : Registry
bare = record house {
  user_at = put (λ a. none) 1 (some lone_user);
  chan_at = put (λ a. none) 3 (some lone_chan);
  cflag_at = λ a. none;
  limit_at = λ a. some due;
}

pub no_entries :
    {A E : Type 0} (list : A → List ℕ) (side : E → ℕ) (o : ℕ) (x : A)
    → list x ≡ []
    → Balanced list side (put (λ a. none) o (some x)) (λ a. none)
no_entries {A = A} list side o x nil u y h a = elim (put_cases (λ b. none) o u x y h) [
  | inl (_, e) ↦ rw (← e, nil) refl
  | inr (_, e) ↦ absurd (nothing e)
]
  where
    nothing : ◌≡◌ {A = Option A} none (some y) → ⊥
    nothing e = grind arith

bare-IsLinked : IsLinked bare
bare-IsLinked = record {
  users = no_entries user_cflags user_of 1 lone_user refl;
  chans = no_entries chan_cflags chan_of 3 lone_chan refl;
  has_user = λ a c h. absurd (nothing c h);
  has_chan = λ a c h. absurd (nothing c h);
}
  where
    nothing : (c : Cflag) → ◌≡◌ {A = Option Cflag} none (some c) → ⊥
    nothing c e = grind arith

abbrev op : Cflag
op = record {
  chan = 3;
  user = 1;
  flags = pos 5;
  automode = 1;
  suspended = false;
  uflags = uflag_op;
}

abbrev small : Registry
small = entered bare 10 op lone_chan lone_user

small-IsLinked : IsLinked small
small-IsLinked = entered-IsLinked bare 10 op lone_chan lone_user bare-IsLinked refl refl refl

abbrev small_chan : Chan
small_chan = record lone_chan { cflags = 10 ∷ [] }

add_user_to_channel-IsLinked_example :
    (r' : Registry) × (add_user_to_channel (λ r. 11) small 1 3 (pos 5) 0 ≡ some (11, r'))
    × IsLinked r'
    × IsLive r'.cflag_at 11
add_user_to_channel-IsLinked_example =
    add_user_to_channel-IsLinked (λ r. 11) small 1 3 (pos 5) 0 small-IsLinked refl
      (record lone_user { cflags = 10 ∷ [] }, refl) (small_chan, refl)

small_bot : channel_botname small small_chan ≡ some (b's' ∷ [])
unfolding channel_botname
small_bot = refl

chandrop-IsLinked_example :
    (r' : Registry) × (chandrop small 3 ≡ some r') × IsLinked r' × (r'.chan_at 3 ≡ none)
chandrop-IsLinked_example =
    chandrop-IsLinked small 3 small_chan (b's' ∷ []) small-IsLinked refl small_bot

-- The limit of the channel alone in the list.
abbrev limited : Registry
limited = record small { limits = 7 ∷ [] }

delete_channel-check_limits_example :
    (r' : Registry) × (delete_channel limited 3 ≡ some r') × IsStale limited r' 3 7 due
unfolding channel_botname
delete_channel-check_limits_example =
    delete_channel-check_limits limited 3 7 due [] [] refl refl refl refl tt small_chan (b's' ∷ [])
      refl refl
