-- ===== src/Channels/Leave.antt =====
-- DeleteUserFromWchan (src/channel.c): a nick leaves a channel of the network.
use child.Prelude.{
  ℕ, ◌≡◌, refl, sym, ap, ◌∙◌, inl, inr, false, Option, none, some, List, [], ◌∷◌, ◌==◌,
  if◌then◌else◌, arith, Bool-cases, Option-cases, ◌⊎◌,
}
use child.Prelude.Int.{pos, lt_ℤ}
use child.Core.{name_key}
use child.Hashmap.Lookup.{lookup}
use child.Registry.{
  Registry, Wchan, Member, Heap, put, find_channel, find_in_names, find_member, find_member_in,
  erase_name,
}
use child.Registry.Named.{AllNamed-erase}
use child.Registry.Reads.{IsLive, AllLive, Found, lookup-Found}
use child.Channels.Balance.{count, owned, Balanced-AllLive, put-IsLive, freed_before}
use child.Channels.Limits.{add_limit}
use child.Channels.Members.{
  delete_wchan, delete_member, refresh_limit, after_leave, leave, delete_user_from_wchan,
}
use child.Channels.Joined.{
  IsJoined, LimitsLive, EndsJoined, EndsKept, Kept, wchan_of, wchan_members, wchan_name,
  without_member, without_member-IsJoined, renew_limit-IsJoined,
}

pub find_member_in-Found :
    (heap : Heap Member) (nptr : ℕ) (as' : List ℕ)
    → AllLive heap as'
    → (o : Option ℕ) × (find_member_in heap nptr as' ≡ some o) × Found heap o
unfolding find_member_in
find_member_in-Found heap nptr [] l = (none, refl, tt)
find_member_in-Found heap nptr (a ∷ as') l =
    let (m, e) = l.0 in
    elim (Bool-cases (m.nick == nptr)) [
      | inl hit ↦ (some a, rw (e, hit), (m, e))
      | inr miss ↦
          let (o, run, found) = find_member_in-Found heap nptr as' l.1 in
          (o, rw (e, miss) run, found)
    ]

-- The search for a member of a live channel ends on a live one or on none.
pub find_member-Found :
    (r : Registry) (wchan nptr : ℕ)
    → IsJoined r
    → IsLive r.wchan_at wchan
    → (o : Option ℕ) × (find_member r wchan nptr ≡ some o) × Found r.member_at o
unfolding find_member
find_member-Found r wchan nptr joined (w, e) =
    let (o, run, found) =
      find_member_in-Found r.member_at nptr w.members
        (Balanced-AllLive wchan_members wchan_of r.wchan_at r.member_at wchan w joined.wchans e) in
    (o, rw e run, found)

abbrev pub all_kept : (r : Registry) → Kept r r
all_kept r = record {
  nick_at = refl;
  member_at = refl;
  nicks = refl;
  clones = refl;
  clone_at = refl;
  server_at = refl;
  user_at = refl;
  rooms = λ h. h;
}

pub refresh_limit-IsJoined :
    (malloc : Registry → ℕ) (r : Registry) (o : Option ℕ)
    → IsJoined r
    → LimitsLive r
    → Found r.chan_at o
    → EndsKept r (refresh_limit malloc r o)
unfolding refresh_limit add_limit
refresh_limit-IsJoined malloc r none joined live found = (r, refl, joined, live, all_kept r)
refresh_limit-IsJoined malloc r (some c) joined live (chan, e) =
    elim (Bool-cases (lt_ℤ (pos 0) chan.autolimit)) [
      | inl on ↦
          let (r', run, done, still, kept) =
            renew_limit-IsJoined malloc r c chan chan.active_autolimit joined live
              (active (Option-cases chan.active_autolimit)) in
          (r', rw (e, on) run, done, still, kept)
      | inr off ↦ (r, rw (e, off), joined, live, all_kept r)
    ]
  where
    active :
        (chan.active_autolimit ≡ none) ⊎ ((l : ℕ) × (chan.active_autolimit ≡ some l))
        → Found r.limit_at chan.active_autolimit
    active (inl missing) = rw missing tt
    active (inr (l, e')) = rw e' (live.active c l chan e e')

-- An empty channel has no members, so that none is left behind when it is freed.
closed-IsJoined :
    (r : Registry) (wchan : ℕ) (w : Wchan)
    → IsJoined r
    → r.wchan_at wchan ≡ some w
    → w.members ≡ []
    → IsJoined
        (record r { wchans = erase_name w.chname r.wchans; wchan_at = put r.wchan_at wchan none })
closed-IsJoined r wchan w joined at nil = record {
  nicks = joined.nicks;
  wchans = λ u x h. joined.wchans u x (freed_before r.wchan_at wchan u x h);
  has_nick = joined.has_nick;
  has_wchan = λ a m h. still m.wchan (joined.has_wchan a m h) (elsewhere a m h);
}
  where
    none_there : (a : ℕ) → owned wchan_of (r.member_at a) wchan ≡ 0
    none_there a = sym (joined.wchans wchan w at a) ∙ ap (count a) nil

    no_owner : (u : ℕ) → ◌≡◌ {A = ℕ} (if u == wchan then 1 else 0) 0 → (wchan == u) ≡ false
    no_owner u e = ground arith

    elsewhere : (a : ℕ) (m : Member) → r.member_at a ≡ some m → (wchan == m.wchan) ≡ false
    elsewhere a m h = no_owner m.wchan (sym (rw h refl) ∙ none_there a)

    still :
        (u : ℕ) → IsLive r.wchan_at u → (wchan == u) ≡ false → IsLive (put r.wchan_at wchan none) u
    still u (x, e) other = (x, rw other e)

pub after_leave-IsJoined :
    (malloc : Registry → ℕ) (r : Registry) (wchan : ℕ) (w : Wchan) (members : List ℕ)
    → IsJoined r
    → LimitsLive r
    → r.wchan_at wchan ≡ some w
    → w.members ≡ members
    → EndsKept r (after_leave malloc r wchan w.chname members)
unfolding after_leave delete_wchan find_channel find_in_names
after_leave-IsJoined malloc r wchan w [] joined live at nil = (
  _,
  rw at refl,
  closed-IsJoined r wchan w joined at nil,
  record { names = live.names; active = live.active },
  record {
    nick_at = refl;
    member_at = refl;
    nicks = refl;
    clones = refl;
    clone_at = refl;
    server_at = refl;
    user_at = refl;
    rooms = AllNamed-erase wchan_name r.wchan_at wchan w r.wchans at;
  },
)
after_leave-IsJoined malloc r wchan w (m ∷ members) joined live at left =
    refresh_limit-IsJoined malloc r (lookup w.chname r.chans) joined live
      (lookup-Found r.chan_at w.chname r.chans live.names)

-- DeleteUserFromWchan on a live channel ends and leaves the members joined: a channel that it frees
-- has no member left. The tables of channels and limits hold live objects.
pub delete_user_from_wchan-IsJoined :
    (malloc : Registry → ℕ) (r : Registry) (nptr wchan : ℕ)
    → IsJoined r
    → LimitsLive r
    → IsLive r.wchan_at wchan
    → EndsJoined (delete_user_from_wchan malloc r nptr wchan)
unfolding delete_user_from_wchan leave delete_member
delete_user_from_wchan-IsJoined malloc r nptr wchan joined live there =
    let (o, search, found) = find_member-Found r wchan nptr joined there in
    rw search (by_member o found)
  where
    by_member : (o : Option ℕ) → Found r.member_at o → EndsJoined (leave malloc r wchan o)
    by_member none found = (r, refl, joined)
    by_member (some a) (m, at) =
        let (nick, ne) = joined.has_nick a m at in
        let (w, we) = joined.has_wchan a m at in
        let left = without_member r a m nick w in
        let (w', we') = put-IsLive r.wchan_at m.wchan wchan _ there in
        let (r', run, done, _, _) =
          after_leave-IsJoined malloc left wchan w' w'.members
            (without_member-IsJoined r a m nick w joined at ne we)
            (record { names = live.names; active = live.active }) we' refl in
        (r', rw (at, ne, we, we') run, done)
