-- ===== src/Accounts/Network.antt =====
-- The registries of the network and what keeps them: the nicks, their channels, their accounts and
-- the clones of their hosts (src/nick.c, src/channel.c, src/user.c).
use child.Prelude.{ℕ, ◌≡◌, inl, inr, Option, none, some, List}
use child.Strings.{Str}
use child.Core.{name_key}
use child.Registry.{Registry, Heap, Names, Guest, Clone, Message, Nick, put}
use child.Registry.Named.{AllNamed, AllNamed-put}
use child.Registry.Reads.{Found}
use child.Channels.Balance.{put-IsLive, put_cases}
use child.Channels.Joined.{IsJoined, LimitsLive, nick_name, wchan_name}
use child.Channels.Emptied.{OnePlace, Left}

abbrev pub clone_host : Clone → Str
clone_host clone = clone.host

-- The registries of the network: the members are joined, a nick is in a channel once at most, the
-- tables hold live objects under their own names, and a live nick points to live ones.
pub record IsNetwork (r : Registry) : Type 0 where
  pub joined : IsJoined r
  pub live : LimitsLive r
  pub places : OnePlace r
  pub nicks : AllNamed nick_name r.nick_at r.nicks
  pub rooms : AllNamed wchan_name r.wchan_at r.wchans
  pub clones : AllNamed clone_host r.clone_at r.clones
  pub accounts : (a : ℕ) (nick : Nick) → r.nick_at a ≡ some nick → Found r.user_at nick.account
  pub servers : (a : ℕ) (nick : Nick) → r.nick_at a ≡ some nick → Found r.server_at nick.server

-- A call that ends and keeps the registries of the network.
abbrev pub EndsNetwork : Option Registry → Type 0
EndsNetwork result = (r' : Registry) × (result ≡ some r') × IsNetwork r'

pub Found-put :
    {A : Type 0} (heap : Heap A) (o : ℕ) (x : A) (found : Option ℕ)
    → Found heap found
    → Found (put heap o (some x)) found
Found-put heap o x none f = tt
Found-put heap o x (some a) f = put-IsLive heap o a x f

-- A nick that leaves channels.
pub Left-IsNetwork : (r r' : Registry) → IsNetwork r → Left r r' → IsNetwork r'
Left-IsNetwork r r' net left = record {
  joined = left.joined;
  live = left.live;
  places = left.places;
  nicks = left.names net.nicks;
  rooms = left.rooms net.rooms;
  clones = rw (left.clones, left.clone_at) net.clones;
  accounts = λ a x h.
      let (y, at, account, _) = left.points a x h in
      rw (left.user_at, account) (net.accounts a y at);
  servers = λ a x h.
      let (y, at, _, server) = left.points a x h in
      rw (left.server_at, server) (net.servers a y at);
}

-- A change of a nick that leaves it its name, its channels and its server.
pub changed-IsNetwork :
    (r : Registry) (nptr : ℕ) (nick nick' : Nick)
    → IsNetwork r
    → r.nick_at nptr ≡ some nick
    → nick'.name ≡ nick.name
    → nick'.wchans ≡ nick.wchans
    → nick'.server ≡ nick.server
    → Found r.user_at nick'.account
    → IsNetwork (record r { nick_at = put r.nick_at nptr (some nick') })
changed-IsNetwork r nptr nick nick' net at name same server account = record {
  joined = record {
    nicks = λ u x h a. elim (put_cases r.nick_at nptr u nick' x h) [
      | inl (here, e) ↦ rw (← e, same, ← here) (net.joined.nicks nptr nick at a)
      | inr (_, before) ↦ net.joined.nicks u x before a
    ];
    wchans = net.joined.wchans;
    has_nick = λ a m h. put-IsLive r.nick_at nptr m.nick nick' (net.joined.has_nick a m h);
    has_wchan = net.joined.has_wchan;
  };
  live = record { names = net.live.names; active = net.live.active };
  places = net.places;
  nicks = AllNamed-put nick_name r.nick_at nptr nick nick' r.nicks at name net.nicks;
  rooms = net.rooms;
  clones = net.clones;
  accounts = λ a x h. elim (put_cases r.nick_at nptr a nick' x h) [
    | inl (_, e) ↦ rw (← e) account
    | inr (_, before) ↦ net.accounts a x before
  ];
  servers = λ a x h. elim (put_cases r.nick_at nptr a nick' x h) [
    | inl (_, e) ↦ rw (← e, server) (net.servers nptr nick at)
    | inr (_, before) ↦ net.servers a x before
  ];
}

-- What is said and who is a guest does not matter.
pub unheard-IsNetwork :
    (r : Registry) (messages : List Message) (guests : Names) (guest_at : Heap Guest)
    → IsNetwork r
    → IsNetwork (record r { sent = messages; guests = guests; guest_at = guest_at })
unheard-IsNetwork r messages guests guest_at net = record {
  joined = record {
    nicks = net.joined.nicks;
    wchans = net.joined.wchans;
    has_nick = net.joined.has_nick;
    has_wchan = net.joined.has_wchan;
  };
  live = record { names = net.live.names; active = net.live.active };
  places = net.places;
  nicks = net.nicks;
  rooms = net.rooms;
  clones = net.clones;
  accounts = net.accounts;
  servers = net.servers;
}
