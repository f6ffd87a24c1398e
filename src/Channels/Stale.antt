-- ===== src/Channels/Stale.antt =====
-- DeleteChannel (src/channel.c) frees a channel that a pending limit still points to.
use child.Prelude.{
  ℕ, ◌≡◌, refl, sym, Bool, true, false, none, some, Option, List, ap, ◌∙◌, [], ◌∷◌, ◌++◌, leb,
  ==_iff, if◌then◌else◌,
}
use child.Strings.{Str}
use child.Registry.{Registry, Names, Chan, Limit, Message, part, send, put, erase_name}
use child.Channels.{channel_botname, delete_channel}
use child.Channels.Parted.{part_if-some}
use child.Channels.Limits.{check_limit, check_limits_in, check_limits}

-- Limits that are not due yet.
abbrev pub AllPending : (ℕ → Option Limit) → ℕ → List ℕ → Type 0
AllPending limit_at now [] = Unit
AllPending limit_at now (l ∷ ls) =
    ((limit : Limit) × (limit_at l ≡ some limit) × (leb limit.time now ≡ false))
    × AllPending limit_at now ls

-- A channel that is freed while a limit of the core still leads CheckLimits to it.
pub record IsStale (r r' : Registry) (chptr l : ℕ) (limit : Limit) : Type 0 where
  pub freed : r'.chan_at chptr ≡ none
  pub listed : r'.limits ≡ r.limits
  pub still : r'.limit_at l ≡ some limit
  pub fault : check_limits r' ≡ none

check_limit-pending :
    (r : Registry) (l : ℕ) (limit : Limit)
    → r.limit_at l ≡ some limit
    → leb limit.time r.now ≡ false
    → check_limit r l ≡ some r
unfolding check_limit
check_limit-pending r l limit at later = rw (at, later) refl

-- The loop stops at the limit, behind limits that are not due.
check_limits_in-stops :
    (r : Registry) (before : List ℕ) (l : ℕ) (rest : List ℕ)
    → AllPending r.limit_at r.now before
    → check_limit r l ≡ none
    → check_limits_in r (before ++ l ∷ rest) ≡ none
unfolding check_limits_in
check_limits_in-stops r [] l rest pending stop = rw stop refl
check_limits_in-stops r (b ∷ before) l rest ((limit, at, later), pending) stop =
    rw (check_limit-pending r b limit at later) (check_limits_in-stops r before l rest pending stop)

module _ (r : Registry) (chptr l : ℕ) (limit : Limit) (before rest : List ℕ)
    (at : r.limit_at l ≡ some limit) (here : limit.chan ≡ chptr) (due : leb limit.time r.now ≡ true)
    (list : r.limits ≡ before ++ l ∷ rest) (pending : AllPending r.limit_at r.now before) where
  -- What is sent does not matter.
  told-IsStale :
      (sent : List Message) (chans : Names)
      → IsStale r
          (record r { sent = sent; chans = chans; chan_at = put r.chan_at chptr none })
          chptr
          l
          limit
  unfolding check_limits check_limit
  told-IsStale sent chans =
      let r' : Registry = record r {
        sent = sent;
        chans = chans;
        chan_at = put r.chan_at chptr none;
      } in
      let stop : check_limit r' l ≡ none =
        rw (at, due, (==_iff chptr limit.chan).1 (sym here)) refl in
      record {
        freed = rw ((==_iff chptr chptr).1 refl) refl;
        listed = refl;
        still = at;
        fault = ap (check_limits_in r') list ∙ check_limits_in-stops r' before l rest pending stop;
      }

  -- Only what is sent depends on whether the network is in step.
  closed :
      (eos : Bool) (message : Message) (chans : Names)
      → let renamed : Registry = record r { chans = chans } in
        let told : Registry = (if eos then send message renamed else renamed) in
        record told { chan_at = put told.chan_at chptr none } ≡ record r {
          sent = (if eos then message ∷ r.sent else r.sent);
          chans = chans;
          chan_at = put r.chan_at chptr none;
        }
  closed true message chans = refl
  closed false message chans = refl

  -- DeleteChannel leaves the limit of the channel in place and in the list: when it is due, and no limit
  -- before it in the list is, CheckLimits then reads the freed channel, which is a fault. The bot of the
  -- channel has a nick.
  pub delete_channel-check_limits :
      (chan : Chan) (bot : Str)
      → r.chan_at chptr ≡ some chan
      → channel_botname r chan ≡ some bot
      → (r' : Registry) × (delete_channel r chptr ≡ some r') × IsStale r r' chptr l limit
  unfolding delete_channel channel_botname
  delete_channel-check_limits chan bot held name =
      let chans : Names = erase_name chan.channelname r.chans in
      let renamed : Registry = record r { chans = chans } in
      let renamed_name : channel_botname renamed chan ≡ some bot = name in
      let sent : List Message = (if r.eos then part bot chan.channelname ∷ r.sent else r.sent) in
      (
        record r { sent = sent; chans = chans; chan_at = put r.chan_at chptr none },
        rw (held, part_if-some r.eos renamed chan bot renamed_name)
            (ap some (closed r.eos (part bot chan.channelname) chans)),
        told-IsStale sent chans,
      )
