-- ===== src/Protocol/Enforced.antt =====
-- What m_mode sends for a change of modes on a registered channel (src/parseline.c): the lock, once for
-- each mode that the change has under one sign and the lock under the other.
use child.Prelude.{List, ℕ, ◌≡◌, ◌∙◌, refl, ap, zero, suc, replicate, ◌∷◌, ◌++◌}
use child.Strings.{Str}
use child.Registry.{Registry, Chan, Message, mode_lock, send}
use child.Protocol.Locks.{send_times}

replicate-behind :
    (n : ℕ) (m : Message) (s : List Message) → replicate n m ++ m ∷ s ≡ m ∷ (replicate n m ++ s)
replicate-behind zero m s = refl
replicate-behind (suc n) m s = ap (λ t. m ∷ t) (replicate-behind n m s)

-- Messages sent one after the other; the newest is first in the list.
pub send_times-sent :
    (n : ℕ) (bot : Str) (chan : Chan) (r : Registry)
    → send_times n bot chan r
      ≡ record r { sent = replicate n (mode_lock bot chan.channelname chan.mlock) ++ r.sent }
unfolding send_times
send_times-sent zero bot chan r = refl
send_times-sent (suc n) bot chan r =
    send_times-sent n bot chan (send (mode_lock bot chan.channelname chan.mlock) r)
    ∙ ap (λ s. record r { sent = s })
        (replicate-behind n (mode_lock bot chan.channelname chan.mlock) r.sent)
