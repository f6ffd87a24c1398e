-- ===== src/Protocol/Flood.antt =====
-- The bound on the private messages of a nick: the tests of m_privmsg on their number and times
-- (src/parseline.c).
use child.Prelude.{ℕ, ◌+◌, Bool, true, false, ◌&&◌, ◌||◌, ◌==◌, if◌then◌else◌}
use child.Prelude.Int.{pos, ◌-ℤ◌, lt_ℤ, le_ℤ}
use child.Registry.{Config, Nick}

-- A count that begins at `now`.
abbrev pub count_from : ℕ → Nick → Nick
count_from now nick = record nick { msgtime = now; msgnb = 1 }

-- Whether a message at `now` is dropped, and what becomes of the nick.
unfoldable pub throttle : Config → ℕ → Nick → Bool × Nick
throttle c now nick =
    let since = pos now -ℤ pos nick.msgtime in
    let heard : Nick = record nick { ignored = false; ignoretime = 0 } in
    let silenced : Nick = record nick { ignored = true; ignoretime = now } in
    let counted : Nick = record nick { msgnb = nick.msgnb + 1 } in
    if nick.ignored
    then (if lt_ℤ c.ignoretime (pos now -ℤ pos nick.ignoretime)
        then (false, heard)
        else (true, nick))
    else (if (nick.msgtime == 0) || (nick.msgnb == 0)
        then (false, count_from now nick)
        else (if le_ℤ since c.maxmsgtime && le_ℤ c.maxmsgnb (pos nick.msgnb)
            then (true, silenced)
            else (if lt_ℤ c.maxmsgtime since && le_ℤ (pos nick.msgnb) c.maxmsgnb
                then (false, count_from now nick)
                else (false, counted))))
