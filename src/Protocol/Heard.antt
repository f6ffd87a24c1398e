-- ===== src/Protocol/Heard.antt =====
-- That no nick is ignored for ever by m_privmsg (src/parseline.c).
use child.Prelude.{ℕ, ◌+◌, ◌<◌, ◌≤◌, ◌≡◌, false, List, [], ◌∷◌, arith}
use child.Prelude.Int.{pos, ◌-ℤ◌}
use child.Registry.{Config, Nick}
use child.Protocol.Flood.{throttle}

-- A nick after its private messages at some times.
abbrev pub after : Config → Nick → List ℕ → Nick
after c nick [] = nick
after c nick (t ∷ ts) = after c ((throttle c t nick).1) ts

-- Times up to a bound.
abbrev pub AllBefore : ℕ → List ℕ → Type 0
AllBefore last [] = Unit
AllBefore last (t ∷ ts) = (t ≤ last) × AllBefore last ts

-- The times that a nick holds are not behind a bound.
abbrev pub IsBefore : ℕ → Nick → Type 0
IsBefore last nick = (nick.msgtime ≤ last) × (nick.ignoretime ≤ last)

module _ (c : Config) (w g last : ℕ) (time : c.maxmsgtime ≡ pos w)
    (ignore : c.ignoretime ≡ pos g) where
  throttle-IsBefore :
      (t : ℕ) (nick : Nick) → IsBefore last nick → t ≤ last → IsBefore last ((throttle c t nick).1)
  unfolding throttle
  throttle-IsBefore t nick (m, i) early = (ground arith, ground arith)

  after-IsBefore :
      (nick : Nick) (ts : List ℕ)
      → IsBefore last nick
      → AllBefore last ts
      → IsBefore last (after c nick ts)
  after-IsBefore nick [] b all = b
  after-IsBefore nick (t ∷ ts) b (early, all) =
      after-IsBefore ((throttle c t nick).1) ts (throttle-IsBefore t nick b early) all

  throttle-heard :
      (t : ℕ) (nick : Nick)
      → IsBefore last nick
      → last + w < t
      → last + g < t
      → ((throttle c t nick).0 ≡ false) × ((throttle c t nick).1.ignored ≡ false)
  unfolding throttle ◌-ℤ◌
  throttle-heard t nick (m, i) past free =
      (rw (time, ignore) (ground arith), rw (time, ignore) (ground arith))

  -- Whatever messages a nick has sent, a message that comes later than the last of them by more than the
  -- time of a count and the time for which a nick is ignored passes, and the nick is then not ignored;
  -- the times that the nick holds at first are not behind the last message either.
  pub after-heard :
      (nick : Nick) (ts : List ℕ) (t : ℕ)
      → IsBefore last nick
      → AllBefore last ts
      → last + w < t
      → last + g < t
      → ((throttle c t (after c nick ts)).0 ≡ false)
        × ((throttle c t (after c nick ts)).1.ignored ≡ false)
  after-heard nick ts t b all past free =
      throttle-heard t (after c nick ts) (after-IsBefore nick ts b all) past free
