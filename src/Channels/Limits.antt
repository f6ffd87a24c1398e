-- ===== src/Channels/Limits.antt =====
-- AddLimit, DeleteLimit, clear_limits and CheckLimits (src/channel.c).
use child.Prelude.{ℕ, Option, none, some, List, [], ◌∷◌, ◌++◌, ◌+◌, leb, length, if◌then◌else◌}
use child.Prelude.Int.{pos, ◌+ℤ◌}
use child.Prelude.Maybe.{◌>>=◌}
use child.Uflags.{has}
use child.Registry.{Registry, Chan, set_limit, send, put, remove, find_wchan, copt_nojoin}
use child.Channels.{channel_botname}

unfoldable pub renew_limit : (Registry → ℕ) → Registry → ℕ → Chan → Option ℕ → Option Registry
renew_limit malloc r chptr chan (some l) = do
  limit ← r.limit_at l
  some (record r {
    limit_at = put r.limit_at l (some (record limit { time = r.now + r.config.limittime }));
  })
renew_limit malloc r chptr chan none =
    let limit = malloc r in
    some (record r {
      limit_at =
          put r.limit_at limit (some (record { chan = chptr; time = r.now + r.config.limittime }));
      chan_at = put r.chan_at chptr (some (record chan { active_autolimit = some limit }));
      limits = r.limits ++ limit ∷ [];
    })

unfoldable pub add_limit : (Registry → ℕ) → Registry → ℕ → Option Registry
unfolding renew_limit
add_limit malloc r chptr = do
  chan ← r.chan_at chptr
  renew_limit malloc r chptr chan chan.active_autolimit

unfoldable pub delete_limit : Registry → ℕ → Option Registry
delete_limit r l = do
  limit ← r.limit_at l
  chan ← r.chan_at limit.chan
  some (record r {
    chan_at = put r.chan_at limit.chan (some (record chan { active_autolimit = none }));
    limits = remove l r.limits;
    limit_at = put r.limit_at l none;
  })

unfoldable pub clear_limits_in : Registry → List ℕ → Option Registry
unfolding delete_limit
clear_limits_in r [] = some r
clear_limits_in r (l ∷ ls) = do deleted ← delete_limit r l; clear_limits_in deleted ls

unfoldable pub clear_limits : Registry → Option Registry
unfolding clear_limits_in
clear_limits r = clear_limits_in r r.limits

-- members_num, for a live channel.
unfoldable pub members_num : Registry → ℕ → Option ℕ
members_num r wchan = do w ← r.wchan_at wchan; some (length w.members)

-- The mode that CheckLimits sets when the limit is due.
unfoldable pub announce_limit : Registry → Chan → Option ℕ → Option Registry
unfolding members_num
announce_limit r chan none = some r
announce_limit r chan (some wchan) = do
  num ← members_num r wchan
  bot ← channel_botname r chan
  let ag : ℕ = (if has chan.options copt_nojoin then 0 else 1)
  some (send (set_limit bot chan.channelname (pos (num + ag) +ℤ chan.autolimit)) r)

-- The body of CheckLimits.
unfoldable pub check_limit : Registry → ℕ → Option Registry
unfolding announce_limit delete_limit
check_limit r l = do
  limit ← r.limit_at l
  let fire : Option Registry = (do
    chan ← r.chan_at limit.chan
    announced ← announce_limit r chan (find_wchan r (some chan.channelname))
    delete_limit announced l)
  if leb limit.time r.now then fire else some r

unfoldable pub check_limits_in : Registry → List ℕ → Option Registry
unfolding check_limit
check_limits_in r [] = some r
check_limits_in r (l ∷ ls) = do checked ← check_limit r l; check_limits_in checked ls

unfoldable pub check_limits : Registry → Option Registry
unfolding check_limits_in
check_limits r = check_limits_in r r.limits
