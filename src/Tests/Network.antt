-- ===== src/Tests/Network.antt =====
-- Nicks that leave a small network, new names, and a handler of the tables, at concrete inputs.
use child.Prelude.{
  replicate, ℕ, ◌≡◌, refl, sym, ap, ◌∙◌, inl, inr, false, none, some, List, [], ◌∷◌, arith,
}
use child.Strings.{separate_word, separate_word?, Str, str_eq, strcasecmp, tolower}
use child.Core.{name_key}
use child.Registry.{Registry, Nick, Member, put}
use child.Channels.Balance.{put_cases}
use child.Channels.Members.{delete_user_from_wchans}
use child.Channels.Emptied.{OnePlace, Emptied, delete_user_from_wchans-Emptied}
use child.Accounts.Nicks.{userquit, delete_nick}
use child.Accounts.Network.{IsNetwork, EndsNetwork}
use child.Accounts.Quit.{userquit-IsNetwork}
use child.Protocol.{Hooks, commands, handler_of, on_part}
use child.Protocol.Kept.{IsKeeping}
use child.Protocol.Leaving.{Line, quit, part, handle_all, handle_all-IsNetwork}
use child.Protocol.Renames.{rename}
use child.Protocol.Renamed.{Renamed, rename-Renamed, rename-delete_nick}
use child.Tests.Rooms.{guest, room, inside, rooms, rooms-IsJoined, rooms-LimitsLive}

-- The guest is in the one channel.
abbrev network : Registry
network = record rooms { nicks = (guest.name, 1) ∷ []; wchans = (room.chname, 2) ∷ [] }

network-OnePlace : OnePlace network
network-OnePlace a b m d at be nick wchan = sym (the_one a m at) ∙ the_one b d be
  where
    the_one : (c : ℕ) (x : Member) → rooms.member_at c ≡ some x → 5 ≡ c
    the_one c x h = elim (put_cases (λ y. none) 5 c inside x h) [
      | inl (here, _) ↦ here
      | inr (_, before) ↦ (let no : none ≡ some x = before in grind arith)
    ]

-- Every nick is the guest, who has no account and no server.
alone :
    (a : ℕ) (nick : Nick)
    → rooms.nick_at a ≡ some nick
    → (nick.account ≡ none) × (nick.server ≡ none)
alone a nick h =
    elim (put_cases (put (λ b. none) 1 (some guest)) 1 a (record guest { wchans = 5 ∷ [] }) nick
      h) [
        | inl (_, e) ↦ (ap (λ n. n.account) (sym e), ap (λ n. n.server) (sym e))
        | inr (_, before) ↦ elim (put_cases (λ b. none) 1 a guest nick before) [
          | inl (_, e) ↦ (ap (λ n. n.account) (sym e), ap (λ n. n.server) (sym e))
          | inr (_, none_there) ↦ (let no : none ≡ some nick = none_there in grind arith)
        ]
      ]

network-IsNetwork : IsNetwork network
network-IsNetwork = record {
  joined = record {
    nicks = rooms-IsJoined.nicks;
    wchans = rooms-IsJoined.wchans;
    has_nick = rooms-IsJoined.has_nick;
    has_wchan = rooms-IsJoined.has_wchan;
  };
  live = record { names = rooms-LimitsLive.names; active = rooms-LimitsLive.active };
  places = network-OnePlace;
  nicks = ((_, refl, refl), refl, tt);
  rooms = ((_, refl, refl), refl, tt);
  clones = tt;
  accounts = λ a nick h. rw (alone a nick h).0 tt;
  servers = λ a nick h. rw (alone a nick h).1 tt;
}

userquit-IsNetwork_example : EndsNetwork (userquit (λ r. 6) network (b'g' ∷ []))
userquit-IsNetwork_example = userquit-IsNetwork (λ r. 6) network (b'g' ∷ []) network-IsNetwork

-- A module whose hook does nothing.
abbrev idle : Hooks
idle = (0xffff, λ args r. some (false, r)) ∷ []

idle-IsKeeping : IsKeeping idle
unfolding IsKeeping
idle-IsKeeping = (λ args r net. (false, r, refl, net, λ a h. h), tt)

abbrev lines : List Line
lines = part (b':' ∷ b'g' ∷ []) (some (b'c' ∷ [])) ∷ quit (b':' ∷ b'g' ∷ []) ∷ []

handle_all-IsNetwork_example : EndsNetwork (handle_all (λ r. 6) idle lines network)
unfolding separate_word? separate_word
handle_all-IsNetwork_example =
    handle_all-IsNetwork (λ r. 6) idle lines network idle-IsKeeping (omega arith, (tt, tt))
      network-IsNetwork

delete_user_from_wchans-Emptied_example :
    (r' : Registry) × (delete_user_from_wchans (λ r. 6) network 1 ≡ some r')
    × Emptied network r' 1 (record guest { wchans = 5 ∷ [] })
delete_user_from_wchans-Emptied_example =
    delete_user_from_wchans-Emptied (λ r. 6) network 1 (record guest { wchans = 5 ∷ [] })
      network-IsNetwork.joined network-IsNetwork.live network-OnePlace refl

part_handled : handler_of (b'P' ∷ b'A' ∷ b'R' ∷ b'T' ∷ []) commands ≡ some on_part
unfolding handler_of commands str_eq strcasecmp tolower
part_handled = refl

rename-Renamed_example :
    (r' : Registry) × (rename network 1 (b'g' ∷ []) (b'h' ∷ []) ≡ some r')
    × Renamed network r' 1 (b'g' ∷ []) (b'h' ∷ [])
unfolding strcasecmp
rename-Renamed_example =
    rename-Renamed network 1 (record guest { wchans = 5 ∷ [] }) (b'h' ∷ []) network-IsNetwork.nicks
      refl (omega arith) refl

-- A name of 36 bytes.
abbrev endless : Str
endless = replicate 36 b'h'

rename-delete_nick_example :
    (r' : Registry) × (rename network 1 (b'g' ∷ []) endless ≡ some r')
    × (delete_nick r' 1 ≡ some r')
unfolding strcasecmp
rename-delete_nick_example =
    rename-delete_nick network 1 (record guest { wchans = 5 ∷ [] }) endless refl (omega arith)
      (omega arith) refl refl
