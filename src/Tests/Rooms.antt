-- ===== src/Tests/Rooms.antt =====
-- The theorems on members at a registry with one nick in one channel of the network.
use child.Prelude.{ℕ, ◌≡◌, refl, false, Option, none, some, [], ◌∷◌, arith}
use child.Prelude.Int.{pos}
use child.Registry.{Registry, Nick, Wchan, Member, Chan, put}
use child.Channels.Members.{add_user_to_wchan, delete_user_from_wchan}
use child.Channels.Joined.{
  IsJoined, LimitsLive, EndsJoined, nick_of, nick_wchans, wchan_of, wchan_members,
}
use child.Channels.Leave.{delete_user_from_wchan-IsJoined}
use child.Channels.Enter.{with_member, with_member-IsJoined, add_user_to_wchan-IsJoined}
use child.Tests.House.{house, chan}
use child.Tests.Lists.{no_entries}

abbrev pub guest : Nick
guest = record {
  name = b'g' ∷ [];
  ident = [];
  host = [];
  uid = b'1' ∷ [];
  svid = [];
  hiddenhost = [];
  reshost = [];
  umodes = 0;
  msgtime = 0;
  msgnb = 0;
  ignored = false;
  ignoretime = 0;
  loginattempts = 0;
  lasttry = 0;
  account = none;
  wchans = [];
  server = none;
}

abbrev pub room : Wchan
room = record { chname = b'c' ∷ []; topic = []; members = [] }

-- The channel of the same name has a limit.
abbrev empty_rooms : Registry
empty_rooms = record house {
  nick_at = put (λ a. none) 1 (some guest);
  wchan_at = put (λ a. none) 2 (some room);
  member_at = λ a. none;
  chan_at = λ a. some (record chan { autolimit = pos 4 });
}

empty_rooms-IsJoined : IsJoined empty_rooms
empty_rooms-IsJoined = record {
  nicks = no_entries nick_wchans nick_of 1 guest refl;
  wchans = no_entries wchan_members wchan_of 2 room refl;
  has_nick = λ a m h. absurd (nothing m h);
  has_wchan = λ a m h. absurd (nothing m h);
}
  where
    nothing : (m : Member) → ◌≡◌ {A = Option Member} none (some m) → ⊥
    nothing m e = grind arith

empty_rooms-LimitsLive : LimitsLive empty_rooms
empty_rooms-LimitsLive = record {
  names = ((record chan { autolimit = pos 4 }, refl), tt);
  active = λ c l x at e. absurd (no_limit l x at e);
}
  where
    no_limit :
        (l : ℕ) (x : Chan)
        → some (record chan { autolimit = pos 4 }) ≡ some x
        → x.active_autolimit ≡ some l
        → ⊥
    no_limit l x at e = grind arith

abbrev pub inside : Member
inside = record { wchan = 2; nick = 1; flags = 0 }

abbrev pub rooms : Registry
rooms = with_member empty_rooms 5 inside guest room

pub rooms-IsJoined : IsJoined rooms
rooms-IsJoined =
    with_member-IsJoined empty_rooms 5 inside guest room empty_rooms-IsJoined refl refl refl

pub rooms-LimitsLive : LimitsLive rooms
rooms-LimitsLive = record {
  names = empty_rooms-LimitsLive.names;
  active = empty_rooms-LimitsLive.active;
}

add_user_to_wchan-IsJoined_example :
    (r' : Registry) × (add_user_to_wchan (λ r. 6) rooms 1 2 ≡ some (6, r')) × IsJoined r'
add_user_to_wchan-IsJoined_example =
    add_user_to_wchan-IsJoined (λ r. 6) rooms 1 2 rooms-IsJoined rooms-LimitsLive refl
      (record guest { wchans = 5 ∷ [] }, refl) (record room { members = 5 ∷ [] }, refl)

delete_user_from_wchan-IsJoined_example : EndsJoined (delete_user_from_wchan (λ r. 6) rooms 1 2)
delete_user_from_wchan-IsJoined_example =
    delete_user_from_wchan-IsJoined (λ r. 6) rooms 1 2 rooms-IsJoined rooms-LimitsLive
      (record room { members = 5 ∷ [] }, refl)
