-- ===== src/Protocol/Faults.antt =====
-- What m_mode (src/parseline.c) does with a status of a name that is not on the network.
use child.Prelude.{
  ℕ, ◌≡◌, refl, true, false, ◌==◌, List, Option-cases, Bool, if◌then◌else◌, ◌&&◌, ltb, length, ap,
  sym, ◌∙◌, inl, inr, Option, none, some, [], ◌∷◌,
}
use child.Strings.{Str}
use child.Registry.{Registry, Chan, Message, find_nick, find_nick_in, find_channel}
use child.Prelude.Maybe.{◌>>=◌, >>=-eq-some}
use child.Channels.{channel_botname}
use child.Protocol.Locks.{modeslen, send_times, lock_sends, check_lock}
use child.Protocol.Enforced.{send_times-sent}
use child.Channels.Balance.{some_injective}
use child.Protocol.Identity.{find_nick?, if_found}
use child.Protocol.Modes.{
  Change, letter_status, give_letter, take_letter, apply_letter, apply_letters, apply_modes, arg_at,
  word_at,
}
use child.Protocol.Chanmodes.{locked_by, mode_wchan}

-- The check against the lock sends at most, which find_nick does not see.
find_nick-sent :
    (r x : Registry) (a : Str)
    → (sent : List Message) × (x ≡ record r { sent = sent })
    → find_nick x a ≡ find_nick r a
unfolding find_nick
find_nick-sent r x a (sent, e) = ap (λ y. find_nick_in y.nick_at a y.nicks) e

check_lock-sends :
    (r x : Registry) (chan : Chan) (modes : Str)
    → check_lock r chan modes ≡ some x
    → (sent : List Message) × (x ≡ record r { sent = sent })
unfolding check_lock
check_lock-sends r x chan modes run =
    let (bot, named, checking) = >>=-eq-some (channel_botname r chan) _ run in
    by_lock bot (ltb (length modes) modeslen && ltb (length chan.mlock) modeslen)
      (lock_sends modes chan.mlock) chan.mlock checking
  where
    by_lock :
        (bot : Str) (test : Bool) (n : ℕ) (lock : Str)
        → (elim lock [
          | [] ↦ some r
          | c ∷ s ↦ if test then some (send_times n bot chan r) else none
        ])
          ≡ some x
        → (sent : List Message) × (x ≡ record r { sent = sent })
    by_lock bot test n [] e = (r.sent, sym (some_injective e))
    by_lock bot true n (c ∷ s) e = (_, sym (some_injective e) ∙ send_times-sent n bot chan r)
    by_lock bot false n (c ∷ s) e = cc

locked_by-find_nick :
    (r : Registry) (x : Option Str × Registry) (modes a : Str) (chptr : Option ℕ)
    → locked_by r modes chptr ≡ some x
    → find_nick x.1 a ≡ find_nick r a
unfolding locked_by
locked_by-find_nick r x modes a none run = ap (λ y. find_nick y.1 a) (sym (some_injective run))
locked_by-find_nick r x modes a (some chptr) run =
    let (chan, held, checking) = >>=-eq-some (r.chan_at chptr) _ run in
    let (checked, lock, naming) = >>=-eq-some (check_lock r chan modes) _ checking in
    let (bot, named, e) = >>=-eq-some (channel_botname checked chan) _ naming in
    ap (λ y. find_nick y.1 a) (sym (some_injective e))
    ∙ find_nick-sent r checked a (check_lock-sends r checked chan modes lock)

module _ (m : Change) (r : Registry) (fuel : ℕ) (c warg : ℕ) (a : Str)
    (status : (letter_status c == 0) ≡ false) (given : arg_at m.args warg ≡ some (some a))
    (absent : find_nick r a ≡ some none) where
  give-absent : apply_letter m r fuel true c warg ≡ some r
  unfolding apply_letter give_letter find_nick? if_found
  give-absent = rw (status, given, absent) refl

  take-absent : apply_letter m r fuel false c warg ≡ none
  unfolding apply_letter take_letter find_nick?
  take-absent = rw (status, given, absent) refl

-- A line of one mode, a status for a name that no nick on the network has, on a channel of the network:
-- with a plus, the line does no more than the check against the lock of the channel, whatever that does;
-- with a minus it is a fault, whatever the lock.
pub absent-status :
    (r : Registry) (fuel : ℕ) (sender name : Str) (c : ℕ) (a : Str) (wchan : ℕ)
    → (letter_status c == 0) ≡ false
    → find_nick r a ≡ some none
    → (mode_wchan r fuel sender name (b'+' ∷ c ∷ []) (a ∷ []) wchan
        ≡ (locked_by r (b'+' ∷ c ∷ []) (find_channel r (some name)) >>= λ checked. some checked.1))
      × (mode_wchan r fuel sender name (b'-' ∷ c ∷ []) (a ∷ []) wchan ≡ none)
unfolding mode_wchan apply_modes apply_letters arg_at word_at
absent-status r fuel sender name c a wchan status absent = (
  elim (Option-cases (locked_by r (b'+' ∷ c ∷ []) chptr)) [
    | inl plus ↦ rw plus refl
    | inr ((bot, r1), plus) ↦
        rw (plus, give-absent (change bot) r1 fuel c 0 a status refl (still (b'+' ∷ c ∷ []) plus))
          refl
  ],
  elim (Option-cases (locked_by r (b'-' ∷ c ∷ []) chptr)) [
    | inl minus ↦ rw minus refl
    | inr ((bot, r1), minus) ↦
        rw (minus, take-absent (change bot) r1 fuel c 0 a status refl (still (b'-' ∷ c ∷ []) minus))
          refl
  ],
)
  where
    chptr : Option ℕ
    chptr = find_channel r (some name)

    change : Option Str → Change
    change bot = record {
      wchan = wchan;
      name = name;
      chptr = chptr;
      bot = bot;
      sender = sender;
      args = a ∷ [];
    }

    still :
        (modes : Str) {x : Option Str × Registry}
        → locked_by r modes chptr ≡ some x
        → find_nick x.1 a ≡ some none
    still modes {x = x} run = locked_by-find_nick r x modes a chptr run ∙ absent
