-- ===== src/Protocol/Bound.antt =====
-- How many private messages of a nick pass in the time that m_privmsg counts (src/parseline.c).
use child.Prelude.{
  Bool-cases, inl, inr, ℕ, ◌+◌, ◌≤◌, ◌≡◌, refl, true, false, List, [], ◌∷◌, arith, if◌then◌else◌,
  leb,
}
use child.Prelude.Int.{pos, ◌-ℤ◌}
use child.Registry.{Config, Nick}
use child.Protocol.Flood.{throttle, count_from}

-- The number of messages that are not dropped, at times one after the other.
abbrev pub passed : Config → Nick → List ℕ → ℕ
passed c nick [] = 0
passed c nick (t ∷ ts) =
    let (dropped, next) = throttle c t nick in (if dropped then 0 else 1) + passed c next ts

-- Times up to a bound.
abbrev pub AllIn : ℕ → ℕ → List ℕ → Type 0
AllIn low high [] = Unit
AllIn low high (t ∷ ts) = (low ≤ t) × (t ≤ high) × AllIn low high ts

module _ (c : Config) (w m g start : ℕ) (time : c.maxmsgtime ≡ pos w) (number : c.maxmsgnb ≡ pos m)
    (ignore : c.ignoretime ≡ pos g) (longer : w ≤ g) (started : 1 ≤ start) where
  throttle-ignored :
      (t : ℕ) (nick : Nick)
      → nick.ignored ≡ true
      → start ≤ nick.ignoretime
      → t ≤ start + w
      → throttle c t nick ≡ (true, nick)
  unfolding throttle ◌-ℤ◌
  throttle-ignored t nick h later in_time = rw (h, ignore) (ground arith)

  passed-ignored :
      (nick : Nick) (ts : List ℕ)
      → nick.ignored ≡ true
      → start ≤ nick.ignoretime
      → AllIn start (start + w) ts
      → passed c nick ts ≡ 0
  passed-ignored nick [] h later all = refl
  passed-ignored nick (t ∷ ts) h later (_, in_time, rest) =
      rw (throttle-ignored t nick h later in_time)
        (omega (arith, passed-ignored nick ts h later rest))

  -- What a message in the time of a count does.
  throttle-counted :
      (t : ℕ) (nick : Nick)
      → nick.ignored ≡ false
      → nick.msgtime ≡ start
      → 1 ≤ nick.msgnb
      → start ≤ t
      → t ≤ start + w
      → throttle c t nick ≡ (
          if leb m nick.msgnb
          then (true, record nick { ignored = true; ignoretime = t })
          else (false, record nick { msgnb = nick.msgnb + 1 }))
  unfolding throttle ◌-ℤ◌
  throttle-counted t nick h at some' low high = rw (h, time, number, at) (ground arith)

  passed-counted :
      (nick : Nick) (ts : List ℕ)
      → nick.ignored ≡ false
      → nick.msgtime ≡ start
      → 1 ≤ nick.msgnb
      → nick.msgnb ≤ m
      → AllIn start (start + w) ts
      → passed c nick ts + nick.msgnb ≤ m
  passed-counted nick [] h at some' few all = omega arith
  passed-counted nick (t ∷ ts) h at some' few (low, high, rest) =
      rw (throttle-counted t nick h at some' low high) (elim (Bool-cases (leb m nick.msgnb)) [
        | inl full ↦
            let silenced : Nick = record nick { ignored = true; ignoretime = t } in
            rw full (omega (arith, passed-ignored silenced ts refl low rest))
        | inr free ↦
            let counted : Nick = record nick { msgnb = nick.msgnb + 1 } in
            let fits : nick.msgnb + 1 ≤ m = ground arith in
            let later : passed c counted ts + (nick.msgnb + 1) ≤ m =
              passed-counted counted ts h at (omega arith) fits rest in
            rw free (omega arith)
      ])

  -- Of the messages in the time `maxmsgtime` from the one that begins a count, that one included, at most
  -- `maxmsgnb` pass, if `maxmsgnb` is at least 1, the nick is not ignored at first, a nick is ignored for
  -- at least that time, and the clock is not at 0.
  pub passed-bounded :
      (nick : Nick) (ts : List ℕ)
      → nick.ignored ≡ false
      → 1 ≤ m
      → AllIn start (start + w) ts
      → passed c (count_from start nick) ts + 1 ≤ m
  passed-bounded nick ts h room all =
      passed-counted (count_from start nick) ts h refl (omega arith) room all
