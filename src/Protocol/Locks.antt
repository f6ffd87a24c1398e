-- ===== src/Protocol/Locks.antt =====
-- The check of a change of modes against the lock of a channel: the first part of m_mode on a channel
-- (src/parseline.c).
use child.Prelude.{
  ℕ, zero, suc, ◌+◌, ◌==◌, ◌&&◌, Option, none, some, [], ◌∷◌, ltb, length, if◌then◌else◌,
}
use child.Prelude.Maybe.{◌>>=◌}
use child.Strings.{Str, is_char_in_string, behind_char}
use child.Registry.{Registry, Chan, mode_lock, send}
use child.Channels.{channel_botname}

-- The size of the arrays modesbis and modesbis2, without the NUL that strncpy may leave out.
abbrev pub modeslen : ℕ
modeslen = 32

-- What stands before a byte, which is overwritten with NUL.
unfoldable pub upto : ℕ → Str → Str
upto c [] = []
upto c (x ∷ s) = if x == c then [] else x ∷ upto c s

-- How many bytes of the first string stand in the second.
unfoldable pub count_in : Str → Str → ℕ
count_in [] s = 0
count_in (c ∷ modes) s = if is_char_in_string c s then count_in modes s + 1 else count_in modes s

-- The modes of the lock behind a sign, up to the other sign.
unfoldable pub locked : ℕ → ℕ → Str → Str
unfolding upto
locked sign other mlock = elim (behind_char sign mlock) [ none ↦ [] | some l ↦ upto other l ]

-- How often the lock is sent for modes that begin with `sign`: once for each mode that the lock has
-- under the other sign, in both parts.
unfoldable pub lock_hits : ℕ → ℕ → Str → Str → ℕ
unfolding locked count_in upto
lock_hits sign other modes mlock =
    count_in (upto other modes) (locked other sign mlock) + elim (behind_char other modes) [
      | none ↦ 0
      | some behind ↦ count_in behind (locked sign other mlock)
    ]

unfoldable pub lock_sends : Str → Str → ℕ
unfolding lock_hits
lock_sends [] mlock = 0
lock_sends (c ∷ modes) mlock =
    if c == b'+'
    then lock_hits b'+' b'-' (c ∷ modes) mlock
    else (if c == b'-' then lock_hits b'-' b'+' (c ∷ modes) mlock else 0)

unfoldable pub send_times : ℕ → Str → Chan → Registry → Registry
send_times zero bot chan r = r
send_times (suc n) bot chan r =
    send_times n bot chan (send (mode_lock bot chan.channelname chan.mlock) r)

-- Modes or a lock of 32 bytes or more leave an array without its NUL.
unfoldable pub check_lock : Registry → Chan → Str → Option Registry
unfolding lock_sends send_times
check_lock r chan modes = do
  bot ← channel_botname r chan
  let checked : Option Registry =
      (if ltb (length modes) modeslen && ltb (length chan.mlock) modeslen
        then some (send_times (lock_sends modes chan.mlock) bot chan r)
        else none)
  elim chan.mlock [ [] ↦ some r | c ∷ s ↦ checked ]
