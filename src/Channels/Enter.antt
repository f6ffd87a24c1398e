-- ===== src/Channels/Enter.antt =====
-- AddUserToWchan (src/channel.c): a nick enters a channel of the network.
use child.Prelude.{ℕ, ◌≡◌, refl, inl, inr, none, some, [], ◌∷◌, ◌++◌}
use child.Core.{name_key}
use child.Hashmap.Lookup.{lookup}
use child.Registry.{Registry, Nick, Wchan, Member, put, find_channel, find_in_names}
use child.Registry.Reads.{IsLive, lookup-Found}
use child.Channels.Balance.{append-Balanced, put_cases, put-IsLive}
use child.Channels.Members.{add_user_to_wchan}
use child.Channels.Joined.{IsJoined, LimitsLive, wchan_of, wchan_members, nick_of, nick_wchans}
use child.Channels.Leave.{refresh_limit-IsJoined}

abbrev pub with_member : Registry → ℕ → Member → Nick → Wchan → Registry
with_member r a m nick w = record r {
  member_at = put r.member_at a (some m);
  nick_at = put r.nick_at m.nick (some (record nick { wchans = nick.wchans ++ a ∷ [] }));
  wchan_at = put r.wchan_at m.wchan (some (record w { members = w.members ++ a ∷ [] }));
}

pub with_member-IsJoined :
    (r : Registry) (a : ℕ) (m : Member) (nick : Nick) (w : Wchan)
    → IsJoined r
    → r.member_at a ≡ none
    → r.nick_at m.nick ≡ some nick
    → r.wchan_at m.wchan ≡ some w
    → IsJoined (with_member r a m nick w)
with_member-IsJoined r a m nick w joined fresh ne we = record {
  nicks =
      append-Balanced nick_wchans nick_of r.nick_at r.member_at a m nick
        (record nick { wchans = nick.wchans ++ a ∷ [] }) joined.nicks fresh ne refl;
  wchans =
      append-Balanced wchan_members wchan_of r.wchan_at r.member_at a m w
        (record w { members = w.members ++ a ∷ [] }) joined.wchans fresh we refl;
  has_nick = λ b d h. put-IsLive r.nick_at m.nick d.nick _ (elim (put_cases r.member_at a b m d h) [
    | inl (_, same) ↦ (nick, rw (← same) ne)
    | inr (_, before) ↦ joined.has_nick b d before
  ]);
  has_wchan = λ b d h.
      put-IsLive r.wchan_at m.wchan d.wchan _ (elim (put_cases r.member_at a b m d h) [
        | inl (_, same) ↦ (w, rw (← same) we)
        | inr (_, before) ↦ joined.has_wchan b d before
      ]);
}

-- AddUserToWchan of a live nick to a live channel ends, returns the new member and leaves the members
-- joined. The tables of channels and limits hold live objects, and the address that `malloc` returns
-- holds no member.
pub add_user_to_wchan-IsJoined :
    (malloc : Registry → ℕ) (r : Registry) (nptr wchan : ℕ)
    → IsJoined r
    → LimitsLive r
    → r.member_at (malloc r) ≡ none
    → IsLive r.nick_at nptr
    → IsLive r.wchan_at wchan
    → (r' : Registry) × (add_user_to_wchan malloc r nptr wchan ≡ some (malloc r, r')) × IsJoined r'
unfolding add_user_to_wchan find_channel find_in_names
add_user_to_wchan-IsJoined malloc r nptr wchan joined live fresh (nick, ne) (w, we) =
    let m : Member = record { wchan = wchan; nick = nptr; flags = 0 } in
    let added = with_member r (malloc r) m nick w in
    let (r', run, done, _, _) =
      refresh_limit-IsJoined malloc added (lookup w.chname r.chans)
        (with_member-IsJoined r (malloc r) m nick w joined fresh ne we)
        (record { names = live.names; active = live.active })
        (lookup-Found r.chan_at w.chname r.chans live.names) in
    (r', rw (ne, we, run) refl, done)
