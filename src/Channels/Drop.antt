-- ===== src/Channels/Drop.antt =====
-- DeleteUsersFromChannel and chandrop (src/channel.c) leave the access lists linked.
use child.Prelude.{
  ℕ, ◌≡◌, refl, sym, ap, ◌∙◌, Bool, true, false, Option, none, some, List, [], ◌∷◌, ◌<◌, ◌==◌,
  if◌then◌else◌, arith, ==_iff,
}
use child.Strings.{Str}
use child.Registry.{
  Registry, Chan, Cflag, Heap, put, remove, part, send, erase_name, Message, Config,
}
use child.Registry.Reads.{IsLive}
use child.Channels.{
  delete_cflags, delete_users_from_channel, part_channel, delete_channel, chandrop, channel_botname,
}
use child.Channels.Balance.{count, owned, freed_before, owned_entry}
use child.Channels.Parted.{part_if-some}
use child.Channels.Linked.{IsLinked, chan_of, unlinked, unlinked-IsLinked, delete_cflag-unlinked}

-- The channel without its entries.
abbrev emptied : Chan → Chan
emptied chan = record chan { cflags = [] }

headless :
    (heap : Heap Chan) (o u : ℕ) (chan : Chan) (a : ℕ) (as' : List ℕ)
    → o ≡ u
    → put heap o (some (record chan { cflags = remove a (a ∷ as') })) u
      ≡ some (record chan { cflags = as' })
headless heap o u chan a as' e = rw ((==_iff o u).1 e, (==_iff a a).1 refl) refl

-- What the loop over a channel's entries leaves.
abbrev Emptied : Registry → ℕ → Chan → List ℕ → Type 0
Emptied r chptr chan as' =
    (r' : Registry) × (delete_cflags r as' ≡ some r')
    × IsLinked r'
    × (r'.chan_at chptr ≡ some (emptied chan))
    × (r'.config ≡ r.config)
    × (r'.bot_nick ≡ r.bot_nick)

delete_cflags-Emptied :
    (as' : List ℕ) (r : Registry) (chptr : ℕ) (chan : Chan)
    → IsLinked r
    → r.chan_at chptr ≡ some (record chan { cflags = as' })
    → Emptied r chptr chan as'
unfolding delete_cflags
delete_cflags-Emptied [] r chptr chan linked at = (r, refl, linked, at, refl, refl)
delete_cflags-Emptied (a ∷ as') r chptr chan linked at =
    let (c, ae, here) =
      owned_entry chan_of (r.cflag_at a) chptr (listed (linked.chans chptr _ at a)) in
    let (user, ue) = linked.has_user a c ae in
    let ce : r.chan_at c.chan ≡ some (record chan { cflags = a ∷ as' }) = rw here at in
    let next = unlinked r a c (record chan { cflags = a ∷ as' }) user in
    let (r', run, done, left, config, bots) =
      delete_cflags-Emptied as' next chptr chan
        (unlinked-IsLinked r a c (record chan { cflags = a ∷ as' }) user linked ae ce ue)
        (headless r.chan_at c.chan chptr chan a as' here) in
    (
      r',
      rw (delete_cflag-unlinked r a c (record chan { cflags = a ∷ as' }) user ae ce ue) run,
      done,
      left,
      config,
      bots,
    )
  where
    listed : {n : ℕ} → count a (a ∷ as') ≡ n → 0 < n
    listed e = ground arith

-- DeleteUsersFromChannel on a live channel of a linked registry ends, empties the list of the channel
-- and leaves the registry linked.
pub delete_users_from_channel-IsLinked :
    (r : Registry) (chptr : ℕ) (chan : Chan)
    → IsLinked r
    → r.chan_at chptr ≡ some chan
    → (r' : Registry) × (delete_users_from_channel r chptr ≡ some r')
      × IsLinked r'
      × (r'.chan_at chptr ≡ some (record chan { cflags = [] }))
      × (r'.config ≡ r.config)
      × (r'.bot_nick ≡ r.bot_nick)
unfolding delete_users_from_channel
delete_users_from_channel-IsLinked r chptr chan linked at =
    rw at (delete_cflags-Emptied chan.cflags r chptr chan linked at)

-- The registry without a channel.
abbrev closed : Registry → ℕ → Registry
closed r chptr = record r { chan_at = put r.chan_at chptr none }

-- A channel whose list is empty has no entries, so that none is left behind when it is freed.
closed-IsLinked :
    (r : Registry) (chptr : ℕ) (chan : Chan)
    → IsLinked r
    → r.chan_at chptr ≡ some chan
    → chan.cflags ≡ []
    → IsLinked (closed r chptr)
closed-IsLinked r chptr chan linked at nil = record {
  users = linked.users;
  chans = λ u x h. linked.chans u x (freed_before r.chan_at chptr u x h);
  has_user = linked.has_user;
  has_chan = λ a c h. still c.chan (linked.has_chan a c h) (elsewhere a c h);
}
  where
    none_there : (a : ℕ) → owned chan_of (r.cflag_at a) chptr ≡ 0
    none_there a = sym (linked.chans chptr chan at a) ∙ ap (count a) nil

    no_owner : (u : ℕ) → ◌≡◌ {A = ℕ} (if u == chptr then 1 else 0) 0 → (chptr == u) ≡ false
    no_owner u e = ground arith

    elsewhere : (a : ℕ) (c : Cflag) → r.cflag_at a ≡ some c → (chptr == c.chan) ≡ false
    elsewhere a c h = no_owner c.chan (sym (rw h refl) ∙ none_there a)

    still :
        (u : ℕ) → IsLive r.chan_at u → (chptr == u) ≡ false → IsLive (put r.chan_at chptr none) u
    still u (x, e) other = (x, rw other e)

-- What PartChannel leaves.
abbrev told : Bool → Registry → Message → Registry
told eos r message = if eos then send message r else r

-- The same heaps, configuration and bots.
record SameLists (r r' : Registry) : Type 0 where
  users : r'.user_at ≡ r.user_at
  chans : r'.chan_at ≡ r.chan_at
  entries : r'.cflag_at ≡ r.cflag_at
  config : r'.config ≡ r.config
  bots : r'.bot_nick ≡ r.bot_nick

told-SameLists : (eos : Bool) (r : Registry) (message : Message) → SameLists r (told eos r message)
told-SameLists true r message = record {
  users = refl;
  chans = refl;
  entries = refl;
  config = refl;
  bots = refl;
}
told-SameLists false r message = record {
  users = refl;
  chans = refl;
  entries = refl;
  config = refl;
  bots = refl;
}

told-IsLinked :
    (eos : Bool) (r : Registry) (message : Message) → IsLinked r → IsLinked (told eos r message)
told-IsLinked true r message linked = record {
  users = linked.users;
  chans = linked.chans;
  has_user = linked.has_user;
  has_chan = linked.has_chan;
}
told-IsLinked false r message linked = linked

channel_botname_same :
    (r r' : Registry) (chan : Chan)
    → r'.config ≡ r.config
    → r'.bot_nick ≡ r.bot_nick
    → channel_botname r' (emptied chan) ≡ channel_botname r chan
unfolding channel_botname
channel_botname_same r r' chan config bots = by_bot chan.chanbot
  where
    by_bot :
        (o : Option ℕ)
        → (elim o [ none ↦ some r'.config.nick | some b ↦ r'.bot_nick b ])
          ≡ (elim o [ none ↦ some r.config.nick | some b ↦ r.bot_nick b ])
    by_bot none = ap (λ (c : Config). some c.nick) config
    by_bot (some b) = ap (λ (f : ℕ → Option Str). f b) bots

part_channel-told :
    (r : Registry) (chptr : ℕ) (chan : Chan) (bot : Str)
    → r.chan_at chptr ≡ some chan
    → channel_botname r chan ≡ some bot
    → part_channel r chptr ≡ some (told r.eos r (part bot chan.channelname))
unfolding part_channel
part_channel-told r chptr chan bot at name = rw (at, part_if-some r.eos r chan bot name) refl

-- DeleteChannel of a channel without entries.
delete_channel-IsLinked :
    (r : Registry) (chptr : ℕ) (chan : Chan) (bot : Str)
    → IsLinked r
    → r.chan_at chptr ≡ some chan
    → chan.cflags ≡ []
    → channel_botname r chan ≡ some bot
    → (r' : Registry) × (delete_channel r chptr ≡ some r') × IsLinked r' × (r'.chan_at chptr ≡ none)
unfolding delete_channel channel_botname
delete_channel-IsLinked r chptr chan bot linked at nil name =
    let renamed : Registry = record r { chans = erase_name chan.channelname r.chans } in
    let message = part bot chan.channelname in
    let same = told-SameLists r.eos renamed message in
    let renamed_name : channel_botname renamed chan ≡ some bot = name in
    let linked' : IsLinked renamed = record {
      users = linked.users;
      chans = linked.chans;
      has_user = linked.has_user;
      has_chan = linked.has_chan;
    } in
    (
      closed (told r.eos renamed message) chptr,
      rw (at, part_if-some r.eos renamed chan bot renamed_name) refl,
      closed-IsLinked (told r.eos renamed message) chptr chan
          (told-IsLinked r.eos renamed message linked')
          (ap (λ (h : Heap Chan). h chptr) same.chans ∙ at) nil,
      ground arith,
    )

-- chandrop of a live channel of a linked registry ends and frees the channel, and leaves the registry
-- linked: no entry of the channel is left with its users. The bot of the channel has a nick.
pub chandrop-IsLinked :
    (r : Registry) (chptr : ℕ) (chan : Chan) (bot : Str)
    → IsLinked r
    → r.chan_at chptr ≡ some chan
    → channel_botname r chan ≡ some bot
    → (r' : Registry) × (chandrop r chptr ≡ some r') × IsLinked r' × (r'.chan_at chptr ≡ none)
unfolding chandrop
chandrop-IsLinked r chptr chan bot linked at name =
    let message = part bot chan.channelname in
    let same = told-SameLists r.eos r message in
    let (q, cleared, linked', left, config, bots) =
      delete_users_from_channel-IsLinked (told r.eos r message) chptr chan
        (told-IsLinked r.eos r message linked) (ap (λ (h : Heap Chan). h chptr) same.chans ∙ at) in
    let (r', run, done, freed) =
      delete_channel-IsLinked q chptr (emptied chan) bot linked' left refl
        (channel_botname_same r q chan (config ∙ same.config) (bots ∙ same.bots) ∙ name) in
    (r', rw (part_channel-told r chptr chan bot at name, cleared) run, done, freed)
