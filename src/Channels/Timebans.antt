-- ===== src/Channels/Timebans.antt =====
-- AddTimeban, DeleteTimeban and CheckTimebans (src/channel.c).
use child.Prelude.{ℕ, Option, none, some, List, [], ◌∷◌, ◌++◌, ◌||◌, if◌then◌else◌}
use child.Prelude.Int.{ℤ, pos, negsuc, ◌+ℤ◌, lt_ℤ, eq_ℤ}
use child.Prelude.Maybe.{◌>>=◌}
use child.Strings.{Str, strncpy}
use child.Registry.{Registry, unban, send, put, remove}
use child.Channels.{channel_botname}

abbrev pub masklen : ℕ
masklen = 255

unfoldable pub add_timeban : (Registry → ℕ) → Registry → ℕ → Str → ℤ → Str → Option (ℕ × Registry)
add_timeban malloc r chptr mask duration reason = do
  chan ← r.chan_at chptr
  let new_tb = malloc r
  some (
    new_tb,
    record r {
      timeban_at = put r.timeban_at new_tb (
          some (record {
            chan = chptr;
            mask = strncpy masklen mask;
            reason = strncpy 256 reason;
            duration = duration;
            setat = r.now;
          }));
      chan_at =
          put r.chan_at chptr (some (record chan { timebans = chan.timebans ++ new_tb ∷ [] }));
      timebans = r.timebans ++ new_tb ∷ [];
    },
  )

unfoldable pub delete_timeban : Registry → ℕ → Option Registry
delete_timeban r a = do
  tb ← r.timeban_at a
  chan ← r.chan_at tb.chan
  some (record r {
    chan_at = put r.chan_at tb.chan (some (record chan { timebans = remove a chan.timebans }));
    timebans = remove a r.timebans;
    timeban_at = put r.timeban_at a none;
  })

-- The body of CheckTimebans.
unfoldable pub check_timeban : Registry → ℕ → Option Registry
unfolding delete_timeban
check_timeban r a = do
  tb ← r.timeban_at a
  let lift : Option Registry = (do
    chan ← r.chan_at tb.chan
    bot ← channel_botname r chan
    delete_timeban (send (unban bot chan.channelname tb.mask) r) a)
  if eq_ℤ tb.duration (negsuc 0) || lt_ℤ (pos r.now) (pos tb.setat +ℤ tb.duration)
      then some r
      else lift

unfoldable pub check_timebans_in : Registry → List ℕ → Option Registry
unfolding check_timeban
check_timebans_in r [] = some r
check_timebans_in r (a ∷ as') = do checked ← check_timeban r a; check_timebans_in checked as'

unfoldable pub check_timebans : Registry → Option Registry
unfolding check_timebans_in
check_timebans r = check_timebans_in r r.timebans
