-- ===== src/Channels/Joined.antt =====
-- The members of the channels of the network stand on the lists of their nick and of their channel:
-- DeleteMember and DeleteUserFromWchan (src/channel.c).
use child.Prelude.{
  ℕ, ◌≡◌, refl, ap, ◌∙◌, ==_iff, inl, inr, Option, none, some, List, [], ◌∷◌, ◌++◌, ◌+◌,
}
use child.Strings.{Str}
use child.Core.{name_key}
use child.Registry.{Registry, Nick, Chan, Wchan, Member, Limit, Heap, Names, put, remove}
use child.Registry.Named.{AllNamed}
use child.Registry.Reads.{IsLive, AllLiveNames, Found}
use child.Channels.Balance.{
  Balanced, remove-Balanced, put-IsLive, put_cases, some_injective, freed_before,
}
use child.Channels.Limits.{renew_limit}
use child.Channels.Members.{delete_member}

abbrev pub nick_of : Member → ℕ
nick_of m = m.nick

abbrev pub wchan_of : Member → ℕ
wchan_of m = m.wchan

abbrev pub nick_wchans : Nick → List ℕ
nick_wchans nick = nick.wchans

abbrev pub nick_name : Nick → Str
nick_name nick = nick.name

abbrev pub wchan_name : Wchan → Str
wchan_name w = w.chname

abbrev pub wchan_members : Wchan → List ℕ
wchan_members w = w.members

-- Every live member stands once on the list of its live nick and of its live channel, and these lists
-- hold nothing else.
pub record IsJoined (r : Registry) : Type 0 where
  pub nicks : Balanced nick_wchans nick_of r.nick_at r.member_at
  pub wchans : Balanced wchan_members wchan_of r.wchan_at r.member_at
  pub has_nick : (a : ℕ) (m : Member) → r.member_at a ≡ some m → IsLive r.nick_at m.nick
  pub has_wchan : (a : ℕ) (m : Member) → r.member_at a ≡ some m → IsLive r.wchan_at m.wchan

-- The table of channels holds live ones, and the limit of a live channel is live.
pub record LimitsLive (r : Registry) : Type 0 where
  pub names : AllLiveNames r.chan_at r.chans
  pub active :
      (c l : ℕ) (chan : Chan)
      → r.chan_at c ≡ some chan
      → chan.active_autolimit ≡ some l
      → IsLive r.limit_at l

-- A call that ends with joined members.
abbrev pub EndsJoined : Option Registry → Type 0
EndsJoined result = (r' : Registry) × (result ≡ some r') × IsJoined r'

-- What a change of limits or of the table of channels leaves as it was.
pub record Kept (r r' : Registry) : Type 0 where
  pub nick_at : r'.nick_at ≡ r.nick_at
  pub member_at : r'.member_at ≡ r.member_at
  pub nicks : r'.nicks ≡ r.nicks
  pub clones : r'.clones ≡ r.clones
  pub clone_at : r'.clone_at ≡ r.clone_at
  pub server_at : r'.server_at ≡ r.server_at
  pub user_at : r'.user_at ≡ r.user_at
  pub rooms : AllNamed wchan_name r.wchan_at r.wchans → AllNamed wchan_name r'.wchan_at r'.wchans

-- A call that ends with joined members, the same members and live limits.
abbrev pub EndsKept : Registry → Option Registry → Type 0
EndsKept r result = (r' : Registry) × (result ≡ some r') × IsJoined r' × LimitsLive r' × Kept r r'

abbrev pub without_member : Registry → ℕ → Member → Nick → Wchan → Registry
without_member r a m nick w = record r {
  nick_at = put r.nick_at m.nick (some (record nick { wchans = remove a nick.wchans }));
  wchan_at = put r.wchan_at m.wchan (some (record w { members = remove a w.members }));
  member_at = put r.member_at a none;
}

pub without_member-IsJoined :
    (r : Registry) (a : ℕ) (m : Member) (nick : Nick) (w : Wchan)
    → IsJoined r
    → r.member_at a ≡ some m
    → r.nick_at m.nick ≡ some nick
    → r.wchan_at m.wchan ≡ some w
    → IsJoined (without_member r a m nick w)
without_member-IsJoined r a m nick w joined at ne we = record {
  nicks =
      remove-Balanced nick_wchans nick_of r.nick_at r.member_at a m nick
        (record nick { wchans = remove a nick.wchans }) joined.nicks at ne refl;
  wchans =
      remove-Balanced wchan_members wchan_of r.wchan_at r.member_at a m w
        (record w { members = remove a w.members }) joined.wchans at we refl;
  has_nick = λ b d h.
      put-IsLive r.nick_at m.nick d.nick _ (joined.has_nick b d (freed_before r.member_at a b d h));
  has_wchan = λ b d h.
      put-IsLive r.wchan_at m.wchan d.wchan _
        (joined.has_wchan b d (freed_before r.member_at a b d h));
}

-- DeleteMember of a live member ends, and the members stay joined.
pub delete_member-IsJoined :
    (r : Registry) (a : ℕ) (m : Member)
    → IsJoined r
    → r.member_at a ≡ some m
    → EndsJoined (delete_member r a)
unfolding delete_member
delete_member-IsJoined r a m joined at =
    let (nick, ne) = joined.has_nick a m at in
    let (w, we) = joined.has_wchan a m at in
    (
      without_member r a m nick w,
      rw (at, ne, we) refl,
      without_member-IsJoined r a m nick w joined at ne we,
    )

AllLiveNames-put :
    {A : Type 0} (heap : Heap A) (o : ℕ) (x : A) (names : Names)
    → AllLiveNames heap names
    → AllLiveNames (put heap o (some x)) names
AllLiveNames-put heap o x [] l = tt
AllLiveNames-put heap o x ((k, a) ∷ names) l =
    (put-IsLive heap o a x l.0, AllLiveNames-put heap o x names l.1)

abbrev renewed : Registry → ℕ → Limit → Registry
renewed r l limit = record r {
  limit_at = put r.limit_at l (some (record limit { time = r.now + r.config.limittime }));
}

abbrev limited : Registry → ℕ → ℕ → Chan → Registry
limited r l c chan = record r {
  limit_at = put r.limit_at l (some (record { chan = c; time = r.now + r.config.limittime }));
  chan_at = put r.chan_at c (some (record chan { active_autolimit = some l }));
  limits = r.limits ++ l ∷ [];
}

limited-LimitsLive :
    (r : Registry) (l c : ℕ) (chan : Chan) → LimitsLive r → LimitsLive (limited r l c chan)
limited-LimitsLive r l c chan live = record {
  names =
      AllLiveNames-put r.chan_at c (record chan { active_autolimit = some l }) r.chans live.names;
  active = λ d k x at e.
      elim (put_cases r.chan_at c d (record chan { active_autolimit = some l }) x at) [
        | inl (_, same) ↦ (record { chan = c; time = r.now + r.config.limittime }, own d k x same e)
        | inr (_, before) ↦ put-IsLive r.limit_at l k _ (live.active d k x before e)
      ];
}
  where
    own :
        (d k : ℕ) (x : Chan)
        → ◌≡◌ {A = Chan} (record chan { active_autolimit = some l }) x
        → x.active_autolimit ≡ some k
        → put r.limit_at l (some (record { chan = c; time = r.now + r.config.limittime })) k
          ≡ some (record { chan = c; time = r.now + r.config.limittime })
    own d k x same e =
        let it : some l ≡ some k = ap (λ y. y.active_autolimit) same ∙ e in
        rw (← some_injective it, (==_iff l l).1 refl) refl

-- A limit is renewed or added, and the members are as before.
pub renew_limit-IsJoined :
    (malloc : Registry → ℕ) (r : Registry) (c : ℕ) (chan : Chan) (o : Option ℕ)
    → IsJoined r
    → LimitsLive r
    → Found r.limit_at o
    → EndsKept r (renew_limit malloc r c chan o)
unfolding renew_limit
renew_limit-IsJoined malloc r c chan none joined live found = (
  limited r (malloc r) c chan,
  refl,
  record {
    nicks = joined.nicks;
    wchans = joined.wchans;
    has_nick = joined.has_nick;
    has_wchan = joined.has_wchan;
  },
  limited-LimitsLive r (malloc r) c chan live,
  record {
    nick_at = refl;
    member_at = refl;
    nicks = refl;
    clones = refl;
    clone_at = refl;
    server_at = refl;
    user_at = refl;
    rooms = λ h. h;
  },
)
renew_limit-IsJoined malloc r c chan (some l) joined live (limit, e) = (
  renewed r l limit,
  rw e refl,
  record {
    nicks = joined.nicks;
    wchans = joined.wchans;
    has_nick = joined.has_nick;
    has_wchan = joined.has_wchan;
  },
  record {
    names = live.names;
    active = λ d k x at h. put-IsLive r.limit_at l k _ (live.active d k x at h);
  },
  record {
    nick_at = refl;
    member_at = refl;
    nicks = refl;
    clones = refl;
    clone_at = refl;
    server_at = refl;
    user_at = refl;
    rooms = λ h. h;
  },
)
