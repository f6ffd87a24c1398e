-- ===== src/Protocol/Rooms.antt =====
-- The handlers of channels of the network: m_part, m_kick, m_topic, m_stopic and m_eos
-- (src/parseline.c), JoinChannel and joinallchans (src/channel.c).
use child.Prelude.{
  ℕ, Bool, true, false, not, ◌||◌, ◌&&◌, Option, none, some, [], ◌∷◌, if◌then◌else◌,
}
use child.Prelude.Maybe.{◌>>=◌}
use child.Strings.{Str, strncpy, str_eq, strcmp, behind_char, separate_word?}
use child.Core.{unless_aborted}
use child.Hashmap.Dictionary.{is_some}
use child.Uflags.{has}
use child.Registry.{
  Registry, Names, Chan, topic, mode_lock, join, bot_status, send, put, find_channel, find_wchan,
  find_nick, copt_nojoin, copt_enftopic,
}
use child.Channels.{channel_botname}
use child.Channels.Members.{delete_user_from_wchan, kick_user}
use child.Protocol.{after_colon}
use child.Protocol.Identity.{find_nick?, if_found}

abbrev pub topiclen : ℕ
topiclen = 310

unfoldable pub is_empty : Str → Bool
is_empty [] = true
is_empty (c ∷ s) = false

-- JoinChannel of a channel that is registered.
unfoldable pub join_registered : Registry → Str → Str → ℕ → Option Registry
unfolding is_empty
join_registered r who name chptr = do
  chan ← r.chan_at chptr
  let locked : Registry =
      (if is_empty chan.mlock then r else send (mode_lock who name chan.mlock) r)
  bot ← channel_botname r chan
  if str_eq (some bot) (some r.config.nick) && has chan.options copt_nojoin
      then some locked
      else some (send (bot_status who name) (send (join who name) locked))

unfoldable pub join_channel : Registry → Str → Str → Option Registry
unfolding join_registered if_found
join_channel r who name = if_found r (join_registered r who name) (find_channel r (some name))

-- The topic that joinallchans sets: that of the registered channel, if the network has another.
unfoldable pub renew_topic : Registry → Str → Chan → Option ℕ → Option Registry
renew_topic r bot chan none = some r
renew_topic r bot chan (some wchan) =
    let renew : Option Registry = (do
      w ← r.wchan_at wchan
      some (
          if strcmp chan.topic w.topic
          then r
          else send (topic bot chan.channelname chan.topic) r)) in
    elim chan.topic [ [] ↦ some r | c ∷ s ↦ renew ]

-- The loop of joinallchans over the channels.
unfoldable pub join_all_in : Registry → Names → Option Registry
unfolding join_channel renew_topic is_empty
join_all_in r [] = some r
join_all_in r ((_, chptr) ∷ names) = do
  chan ← r.chan_at chptr
  bot ← channel_botname r chan
  let enter : Option Registry = join_channel r bot chan.channelname
  joined ← if not (has chan.options copt_nojoin) || is_some chan.chanbot then enter else some r
  let locked : Registry =
      (if is_empty chan.mlock
        then joined
        else send (mode_lock bot chan.channelname chan.mlock) joined)
  told ← renew_topic locked bot chan (find_wchan r (some chan.channelname))
  join_all_in told names

unfoldable pub joinallchans : Registry → Option Registry
unfolding join_all_in
joinallchans r = join_all_in r r.chans

unfoldable pub m_eos : Registry → Option Registry
unfolding joinallchans
m_eos r = do
  let all : Option Registry = joinallchans r
  joined ← if r.eos then some r else all
  some (record joined { eos = true })

-- find_wchan, which aborts on a name that its hash has no room for; NULL is not hashed.
unfoldable pub find_wchan? : Registry → Option Str → Option (Option ℕ)
unfolding unless_aborted
find_wchan? r none = some (find_wchan r none)
find_wchan? r (some name) = unless_aborted name (some (find_wchan r (some name)))

unfoldable pub m_part : (Registry → ℕ) → Registry → Str → Option Str → Option Registry
unfolding if_found after_colon find_wchan?
m_part malloc r sender tail =
    let (chan, _) = separate_word? tail in
    find_nick r (after_colon sender)
    >>= if_found r
        (λ nptr. find_wchan? r chan >>= if_found r (delete_user_from_wchan malloc r nptr))

-- The end of m_kick, for the nick that was kicked.
unfoldable pub kicked_leaves : (Registry → ℕ) → Registry → ℕ → Option Str → Option Registry
unfolding find_nick? if_found
kicked_leaves malloc r wchan nick =
    find_nick? r nick >>= if_found r (λ nptr. delete_user_from_wchan malloc r nptr wchan)

abbrev pub are_you_mad : Str
are_you_mad =
    b'a' ∷ b'r' ∷ b'e' ∷ b' ' ∷ b'y' ∷ b'o' ∷ b'u' ∷ b' ' ∷ b'm' ∷ b'a' ∷ b'd' ∷ b' ' ∷ b'?' ∷ []

-- The bot of a channel was kicked by `kicker`: it comes back and kicks in turn.
unfoldable pub bot_kicked : (Registry → ℕ) → Registry → Str → Str → Str → ℕ → Option Registry
unfolding join_channel kicked_leaves
bot_kicked malloc r bot kicker chan wchan = do
  joined ← join_channel r bot chan
  kicked ← kick_user malloc joined bot kicker chan are_you_mad
  kicked_leaves malloc kicked wchan (some kicker)

-- m_kick on a channel of the network that is registered or not.
unfoldable pub kick_on :
    (Registry → ℕ) → Registry → Str → Str → Option Str → ℕ → Option ℕ → Option Registry
unfolding bot_kicked kicked_leaves
kick_on malloc r kicker name nick wchan none = kicked_leaves malloc r wchan nick
kick_on malloc r kicker name nick wchan (some chptr) = do
  chan ← r.chan_at chptr
  bot ← channel_botname r chan
  let back : Option Registry = bot_kicked malloc r bot kicker name wchan
  let leaves : Option Registry = kicked_leaves malloc r wchan nick
  if str_eq nick (some bot) then back else leaves

unfoldable pub kick_from :
    (Registry → ℕ) → Registry → Str → Option Str → Option Str → Option Registry
unfolding if_found kick_on find_wchan?
kick_from malloc r kicker none nick = some r
kick_from malloc r kicker (some chan) nick =
    find_wchan? r (some chan)
    >>= if_found r (λ wchan. kick_on malloc r kicker chan nick wchan (find_channel r (some chan)))

unfoldable pub m_kick : (Registry → ℕ) → Registry → Str → Option Str → Option Registry
unfolding kick_from after_colon
m_kick malloc r sender tail =
    let (chan, rest) = separate_word? tail in
    let (nick, _) = separate_word? rest in kick_from malloc r (after_colon sender) chan nick

-- m_topic for the text behind the colon.
unfoldable pub set_topic : Registry → Str → Str → ℕ → Option Registry
set_topic r name text chptr = do
  c ← r.chan_at chptr
  let enforced : Option Registry = (do
    bot ← channel_botname r c
    some (send (topic bot name c.topic) r))
  if has c.options copt_enftopic
      then enforced
      else some (record r {
        chan_at = put r.chan_at chptr (some (record c { topic = strncpy topiclen text }));
      })

unfoldable pub topic_on : Registry → Str → Option Str → Option Registry
unfolding set_topic if_found unless_aborted
topic_on r name none = some r
topic_on r name (some text) =
    unless_aborted name (if_found r (set_topic r name text) (find_channel r (some name)))

unfoldable pub m_topic : Registry → Option Str → Option Registry
unfolding topic_on
m_topic r tail = do
  let (chan, rest) = separate_word? tail
  name ← chan
  text ← rest
  topic_on r name (behind_char b':' text)

-- m_stopic on a channel that is registered or not.
unfoldable pub first_topic : Registry → Str → Option ℕ → Option Registry
unfolding is_empty
first_topic r text none = some r
first_topic r text (some chptr) = do
  c ← r.chan_at chptr
  some (
      if is_empty c.topic
      then record r {
        chan_at = put r.chan_at chptr (some (record c { topic = strncpy topiclen text }));
      }
      else r)

-- m_stopic reads through what find_wchan and strchr return, without a test for NULL.
unfoldable pub m_stopic : Registry → Str → Option Str → Option Registry
unfolding first_topic find_wchan?
m_stopic r chname tail = do
  let (_, rest) = separate_word? tail
  ts ← rest
  found ← find_wchan? r (some chname)
  wchan ← found
  w ← r.wchan_at wchan
  text ← behind_char b':' ts
  let told : Registry = record r {
    wchan_at = put r.wchan_at wchan (some (record w { topic = strncpy topiclen text }));
  }
  first_topic told text (find_channel told (some chname))
