-- ===== src/Accounts/Quit.antt =====
-- userquit and delete_nick (src/user.c, src/nick.c): nothing is left of a nick that quits.
use child.Prelude.{
  ℕ, ◌≡◌, refl, sym, ap, ◌∙◌, inl, inr, false, Option, none, some, List, [], ◌∷◌, ◌==◌, ◌-◌,
  if◌then◌else◌, arith, Bool-cases, ==_iff,
}
use child.Strings.{Str}
use child.Core.{name_key}
use child.Hashmap.Lookup.{lookup}
use child.Hashmap.Dictionary.{is_some}
use child.Uflags.{has}
use child.Registry.{
  Registry, Server, Message, svslogout, set_registered, Nick, User, Member, put, remove, find_clone,
  find_in_names, find_guest, find_nick, has_umode, umode_registered, erase_name,
}
use child.Registry.Named.{AllNamed, AllNamed-AllLiveNames, AllNamed-put, AllNamed-erase}
use child.Registry.Reads.{IsLive, Found, lookup-Found, find_nick_in-Found}
use child.Channels.Balance.{count, owned, freed_before}
use child.Channels.Joined.{IsJoined, nick_of, nick_name}
use child.Channels.Emptied.{delete_user_from_wchans-Emptied}
use child.Accounts.{free_guest, delete_guest, user_logout}
use child.Accounts.Nicks.{
  uncount_clone, off_server, delete_nick, logout_account, quit_found, userquit,
}
use child.Accounts.Network.{
  IsNetwork, EndsNetwork, clone_host, Left-IsNetwork, changed-IsNetwork, unheard-IsNetwork,
  Found-put,
}

-- A nick without channels has no member, so that none is left behind when it is freed.
freed-IsJoined :
    (r : Registry) (nptr : ℕ) (nick : Nick)
    → IsJoined r
    → r.nick_at nptr ≡ some nick
    → nick.wchans ≡ []
    → IsJoined (record r { nick_at = put r.nick_at nptr none })
freed-IsJoined r nptr nick joined at nil = record {
  nicks = λ u x h. joined.nicks u x (freed_before r.nick_at nptr u x h);
  wchans = joined.wchans;
  has_nick = λ a m h. still m.nick (joined.has_nick a m h) (elsewhere a m h);
  has_wchan = joined.has_wchan;
}
  where
    none_there : (a : ℕ) → owned nick_of (r.member_at a) nptr ≡ 0
    none_there a = sym (joined.nicks nptr nick at a) ∙ ap (count a) nil

    no_owner : (u : ℕ) → ◌≡◌ {A = ℕ} (if u == nptr then 1 else 0) 0 → (nptr == u) ≡ false
    no_owner u e = ground arith

    elsewhere : (a : ℕ) (m : Member) → r.member_at a ≡ some m → (nptr == m.nick) ≡ false
    elsewhere a m h = no_owner m.nick (sym (rw h refl) ∙ none_there a)

    still : (u : ℕ) → IsLive r.nick_at u → (nptr == u) ≡ false → IsLive (put r.nick_at nptr none) u
    still u (x, e) other = (x, rw other e)

-- What the steps of delete_nick on clones and servers leave as it was.
record Same (r r' : Registry) : Type 0 where
  nick_at : r'.nick_at ≡ r.nick_at
  wchan_at : r'.wchan_at ≡ r.wchan_at
  member_at : r'.member_at ≡ r.member_at
  user_at : r'.user_at ≡ r.user_at
  chan_at : r'.chan_at ≡ r.chan_at
  limit_at : r'.limit_at ≡ r.limit_at
  nicks : r'.nicks ≡ r.nicks
  wchans : r'.wchans ≡ r.wchans
  chans : r'.chans ≡ r.chans
  servers : (o : Option ℕ) → Found r.server_at o → Found r'.server_at o
  clones : AllNamed clone_host r.clone_at r.clones → AllNamed clone_host r'.clone_at r'.clones

Same-IsNetwork : (r r' : Registry) → Same r r' → IsNetwork r → IsNetwork r'
Same-IsNetwork r r' same net = record {
  joined = record {
    nicks = rw (same.nick_at, same.member_at) net.joined.nicks;
    wchans = rw (same.wchan_at, same.member_at) net.joined.wchans;
    has_nick = rw (same.nick_at, same.member_at) net.joined.has_nick;
    has_wchan = rw (same.wchan_at, same.member_at) net.joined.has_wchan;
  };
  live = record {
    names = rw (same.chan_at, same.chans) net.live.names;
    active = rw (same.chan_at, same.limit_at) net.live.active;
  };
  places = rw same.member_at net.places;
  nicks = rw (same.nick_at, same.nicks) net.nicks;
  rooms = rw (same.wchan_at, same.wchans) net.rooms;
  clones = same.clones net.clones;
  accounts = rw (same.nick_at, same.user_at) net.accounts;
  servers = λ a x h. same.servers x.server (net.servers a x (ap (λ f. f a) (sym same.nick_at) ∙ h));
}

uncount_clone-Same :
    (r : Registry) (o : Option ℕ)
    → Found r.clone_at o
    → (r' : Registry) × (uncount_clone r o ≡ some r') × Same r r'
unfolding uncount_clone
uncount_clone-Same r none found = (
  r,
  refl,
  record {
    nick_at = refl;
    wchan_at = refl;
    member_at = refl;
    user_at = refl;
    chan_at = refl;
    limit_at = refl;
    nicks = refl;
    wchans = refl;
    chans = refl;
    servers = λ s f. f;
    clones = λ h. h;
  },
)
uncount_clone-Same r (some a) (clone, e) = elim (Bool-cases (clone.count - 1 == 0)) [
  | inl last ↦ (
    record r { clones = erase_name clone.host r.clones; clone_at = put r.clone_at a none },
    rw (e, last) refl,
    record {
      nick_at = refl;
      wchan_at = refl;
      member_at = refl;
      user_at = refl;
      chan_at = refl;
      limit_at = refl;
      nicks = refl;
      wchans = refl;
      chans = refl;
      servers = λ s f. f;
      clones = AllNamed-erase clone_host r.clone_at a clone r.clones e;
    },
  )
  | inr more ↦ (
    record r { clone_at = put r.clone_at a (some (record clone { count = clone.count - 1 })) },
    rw (e, more) refl,
    record {
      nick_at = refl;
      wchan_at = refl;
      member_at = refl;
      user_at = refl;
      chan_at = refl;
      limit_at = refl;
      nicks = refl;
      wchans = refl;
      chans = refl;
      servers = λ s f. f;
      clones =
          AllNamed-put clone_host r.clone_at a clone (record clone { count = clone.count - 1 })
            r.clones e refl;
    },
  )
]

off_server-Same :
    (r : Registry) (nptr : ℕ) (o : Option ℕ)
    → Found r.server_at o
    → (r' : Registry) × (off_server r nptr o ≡ some r') × Same r r'
unfolding off_server
off_server-Same r nptr none found = (
  r,
  refl,
  record {
    nick_at = refl;
    wchan_at = refl;
    member_at = refl;
    user_at = refl;
    chan_at = refl;
    limit_at = refl;
    nicks = refl;
    wchans = refl;
    chans = refl;
    servers = λ s f. f;
    clones = λ h. h;
  },
)
off_server-Same r nptr (some s) (server, e) =
    let off : Server = record server { nicks = remove nptr server.nicks } in
    (
      record r { server_at = put r.server_at s (some off) },
      rw e refl,
      record {
        nick_at = refl;
        wchan_at = refl;
        member_at = refl;
        user_at = refl;
        chan_at = refl;
        limit_at = refl;
        nicks = refl;
        wchans = refl;
        chans = refl;
        servers = Found-put r.server_at s off;
        clones = λ h. h;
      },
    )

abbrev freed : Registry → ℕ → Nick → Registry
freed r nptr nick = record r {
  nicks = erase_name nick.name r.nicks;
  nick_at = put r.nick_at nptr none;
}

freed-IsNetwork :
    (r : Registry) (nptr : ℕ) (nick : Nick)
    → IsNetwork r
    → r.nick_at nptr ≡ some nick
    → nick.wchans ≡ []
    → IsNetwork (freed r nptr nick)
freed-IsNetwork r nptr nick net at nil =
    let joined = freed-IsJoined r nptr nick net.joined at nil in
    record {
      joined = record {
        nicks = joined.nicks;
        wchans = joined.wchans;
        has_nick = joined.has_nick;
        has_wchan = joined.has_wchan;
      };
      live = record { names = net.live.names; active = net.live.active };
      places = net.places;
      nicks = AllNamed-erase nick_name r.nick_at nptr nick r.nicks at net.nicks;
      rooms = net.rooms;
      clones = net.clones;
      accounts = λ a x h. net.accounts a x (freed_before r.nick_at nptr a x h);
      servers = λ a x h. net.servers a x (freed_before r.nick_at nptr a x h);
    }

-- delete_nick of a live nick without channels ends, and the registries stay those of a network.
delete_nick-IsNetwork :
    (r : Registry) (nptr : ℕ) (nick : Nick)
    → IsNetwork r
    → r.nick_at nptr ≡ some nick
    → nick.wchans ≡ []
    → EndsNetwork (delete_nick r nptr)
unfolding delete_nick find_clone find_in_names
delete_nick-IsNetwork r nptr nick net at nil =
    elim (Bool-cases (is_some (lookup nick.name r.nicks))) [
      | inr missing ↦ (r, rw (at, missing) refl, net)
      | inl there ↦
          let erased : Registry = record r { nicks = erase_name nick.name r.nicks } in
          let (r1, run1, same1) = uncount_clone-Same erased (lookup nick.reshost r.clones) (
            lookup-Found r.clone_at nick.reshost r.clones
              (AllNamed-AllLiveNames clone_host r.clone_at r.clones net.clones)) in
          let (r2, run2, same2) =
            off_server-Same r1 nptr nick.server
              (same1.servers nick.server (net.servers nptr nick at)) in
          (
            record r2 { nick_at = put r2.nick_at nptr none },
            rw (at, there, run1, run2) refl,
            Same-IsNetwork (freed r nptr nick) (record r2 { nick_at = put r2.nick_at nptr none })
                (record {
                  nick_at = ap (λ h. put h nptr none) (same2.nick_at ∙ same1.nick_at);
                  wchan_at = same2.wchan_at ∙ same1.wchan_at;
                  member_at = same2.member_at ∙ same1.member_at;
                  user_at = same2.user_at ∙ same1.user_at;
                  chan_at = same2.chan_at ∙ same1.chan_at;
                  limit_at = same2.limit_at ∙ same1.limit_at;
                  nicks = same2.nicks ∙ same1.nicks;
                  wchans = same2.wchans ∙ same1.wchans;
                  chans = same2.chans ∙ same1.chans;
                  servers = λ o f. same2.servers o (same1.servers o f);
                  clones = λ h. same2.clones (same1.clones h);
                })
                (freed-IsNetwork r nptr nick net at nil),
          )
    ]

logged_out-IsNetwork :
    (r : Registry) (nptr : ℕ) (nick : Nick) (uptr : ℕ) (user : User) (messages : List Message)
    → IsNetwork r
    → r.nick_at nptr ≡ some nick
    → IsNetwork (record r {
      user_at = put r.user_at uptr (some user);
      nick_at = put r.nick_at nptr (some (record nick { account = none; svid = b'0' ∷ [] }));
      sent = messages;
    })
logged_out-IsNetwork r nptr nick uptr user messages net at =
    let out = unheard-IsNetwork _ messages r.guests r.guest_at (
      changed-IsNetwork r nptr nick (record nick { account = none; svid = b'0' ∷ [] }) net at refl
        refl refl tt) in
    record {
      joined = record {
        nicks = out.joined.nicks;
        wchans = out.joined.wchans;
        has_nick = out.joined.has_nick;
        has_wchan = out.joined.has_wchan;
      };
      live = record { names = out.live.names; active = out.live.active };
      places = out.places;
      nicks = out.nicks;
      rooms = out.rooms;
      clones = out.clones;
      accounts = λ a x h. Found-put r.user_at uptr user x.account (out.accounts a x h);
      servers = out.servers;
    }

-- user_logout of a live nick and a live user ends, and the nick stays live.
pub user_logout-IsNetwork :
    (r : Registry) (nptr uptr : ℕ) (nick : Nick)
    → IsNetwork r
    → r.nick_at nptr ≡ some nick
    → IsLive r.user_at uptr
    → (r' : Registry) × (user_logout r nptr uptr ≡ some r') × IsNetwork r' × IsLive r'.nick_at nptr
unfolding user_logout has_umode
user_logout-IsNetwork r nptr uptr nick net at (user, e) =
    let told = svslogout nick.uid ∷ r.sent in
    let off : User = record user { authed = false; authed_nick = none; lastseen = r.now } in
    let out : Nick = record nick { account = none; svid = b'0' ∷ [] } in
    let there : put r.nick_at nptr (some out) nptr ≡ some out =
      rw ((==_iff nptr nptr).1 refl) refl in
    elim (Bool-cases (has nick.umodes umode_registered)) [
      | inl on ↦ (
        _,
        rw (e, at, on) refl,
        logged_out-IsNetwork r nptr nick uptr off (set_registered nick.uid false ∷ told) net at,
        (out, there),
      )
      | inr not_on ↦ (
        _,
        rw (e, at, not_on) refl,
        logged_out-IsNetwork r nptr nick uptr off told net at,
        (out, there),
      )
    ]

logout_account-IsNetwork :
    (r : Registry) (nptr : ℕ) (nick : Nick) (o : Option ℕ)
    → IsNetwork r
    → r.nick_at nptr ≡ some nick
    → Found r.user_at o
    → (r' : Registry) × (logout_account r nptr o ≡ some r') × IsNetwork r' × IsLive r'.nick_at nptr
unfolding logout_account
logout_account-IsNetwork r nptr nick none net at found = (r, refl, net, (nick, at))
logout_account-IsNetwork r nptr nick (some uptr) net at found =
    user_logout-IsNetwork r nptr uptr nick net at found

free_guest-IsNetwork :
    (r : Registry) (name : Str) (o : Option ℕ) → IsNetwork r → IsNetwork (free_guest r name o)
unfolding free_guest
free_guest-IsNetwork r name none net = net
free_guest-IsNetwork r name (some a) net =
    unheard-IsNetwork r r.sent (erase_name name r.guests) (put r.guest_at a none) net

free_guest-nick_at :
    (r : Registry) (name : Str) (o : Option ℕ) → (free_guest r name o).nick_at ≡ r.nick_at
unfolding free_guest
free_guest-nick_at r name none = refl
free_guest-nick_at r name (some a) = refl

quit_found-IsNetwork :
    (malloc : Registry → ℕ) (r : Registry) (nptr : ℕ) (nick : Nick)
    → IsNetwork r
    → r.nick_at nptr ≡ some nick
    → EndsNetwork (quit_found malloc r (some nptr))
unfolding quit_found delete_guest
quit_found-IsNetwork malloc r nptr nick net at =
    let (r1, run1, net1, (nick1, at1)) =
      logout_account-IsNetwork r nptr nick nick.account net at (net.accounts nptr nick at) in
    let o = find_guest r1 (some nick.name) in
    let guestless = free_guest-IsNetwork r1 nick.name o net1 in
    let (r2, run2, done) =
      delete_user_from_wchans-Emptied malloc (free_guest r1 nick.name o) nptr nick1 guestless.joined
        guestless.live guestless.places
        (ap (λ f. f nptr) (free_guest-nick_at r1 nick.name o) ∙ at1) in
    let (r3, run3, net3) =
      delete_nick-IsNetwork r2 nptr (record nick1 { wchans = [] })
        (Left-IsNetwork (free_guest r1 nick.name o) r2 guestless done.left) done.alone refl in
    (r3, rw (at, run1, run2) run3, net3)

-- userquit ends for any name, and the registries stay those of a network: the members are joined, so
-- that a nick that is freed has left all its channels.
pub userquit-IsNetwork :
    (malloc : Registry → ℕ) (r : Registry) (name : Str)
    → IsNetwork r
    → EndsNetwork (userquit malloc r name)
unfolding userquit find_nick quit_found
userquit-IsNetwork malloc r name net =
    let (o, run, found) =
      find_nick_in-Found r.nick_at name r.nicks
        (AllNamed-AllLiveNames nick_name r.nick_at r.nicks net.nicks) in
    rw run (by_nick o found)
  where
    by_nick : (o : Option ℕ) → Found r.nick_at o → EndsNetwork (quit_found malloc r o)
    by_nick none found = (r, refl, net)
    by_nick (some nptr) (nick, at) = quit_found-IsNetwork malloc r nptr nick net at
