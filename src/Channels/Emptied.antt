-- ===== src/Channels/Emptied.antt =====
-- DeleteUserFromWchans (src/channel.c): a nick leaves all its channels of the network.
use child.Prelude.{
  ℕ, ◌<◌, ◌≡◌, refl, sym, ap, ◌∙◌, inl, inr, true, false, some, List, [], ◌∷◌, ◌==◌, arith,
  Bool-cases, ==_iff, Option-cases, ◌⊎◌,
}
use child.Core.{name_key}
use child.Registry.{Registry, Heap, Nick, Wchan, Member, put, remove, find_member, find_member_in}
use child.Registry.Named.{AllNamed, AllNamed-put}
use child.Registry.Reads.{IsLive, IsLive, AllLive}
use child.Channels.Balance.{
  count, owned, owned_entry, Balanced-AllLive, put-IsLive, put_cases, freed_before, some_injective,
}
use child.Channels.Members.{
  delete_member, leave, delete_user_from_wchan, delete_user_from_wchans_in, delete_user_from_wchans,
}
use child.Channels.Joined.{
  IsJoined, LimitsLive, nick_of, nick_name, wchan_name, wchan_of, wchan_members, without_member,
  without_member-IsJoined,
}
use child.Channels.Leave.{after_leave-IsJoined, find_member_in-Found}

-- A nick is in a channel once at most.
abbrev pub OnePlace : Registry → Type 0
OnePlace r =
    (a b : ℕ) (m d : Member)
    → r.member_at a ≡ some m
    → r.member_at b ≡ some d
    → m.nick ≡ d.nick
    → m.wchan ≡ d.wchan
    → a ≡ b

-- A search finds a member of the nick if the list holds one.
find_member_in-hit :
    (heap : Heap Member) (nptr a : ℕ) (m : Member) (as' : List ℕ)
    → AllLive heap as'
    → 0 < count a as'
    → heap a ≡ some m
    → m.nick ≡ nptr
    → (b : ℕ) × (d : Member) × (find_member_in heap nptr as' ≡ some (some b))
      × (heap b ≡ some d)
      × (d.nick ≡ nptr)
      × (0 < count b as')
unfolding find_member_in
find_member_in-hit heap nptr a m [] l h at own = absurd (omega arith)
find_member_in-hit heap nptr a m (c ∷ as') l h at own =
    let (x, e) = l.0 in
    elim (Bool-cases (x.nick == nptr)) [
      | inl hit ↦ (c, x, rw (e, hit) refl, e, (==_iff x.nick nptr).0 hit, ground arith)
      | inr miss ↦
          let (b, d, run, be, bn, bc) =
            find_member_in-hit heap nptr a m as' l.1 (later x e miss (Bool-cases (a == c))) at
              own in
          (b, d, rw (e, miss) run, be, bn, omega (arith, bc))
    ]
  where
    later :
        (x : Member)
        → heap c ≡ some x
        → (x.nick == nptr) ≡ false
        → ((a == c) ≡ true) ⊎ ((a == c) ≡ false)
        → 0 < count a as'
    later x e miss (inl same) =
        let mx : m ≡ x = some_injective (sym at ∙ ap heap ((==_iff a c).0 same) ∙ e) in
        let found = (==_iff x.nick nptr).1 (sym (ap nick_of mx) ∙ own) in cc
    later x e miss (inr other) = (let g = rw other at h in omega arith)

-- What a call leaves behind that takes members from the lists.
pub record Left (r r' : Registry) : Type 0 where
  pub joined : IsJoined r'
  pub live : LimitsLive r'
  pub places : OnePlace r'
  pub nicks : r'.nicks ≡ r.nicks
  pub clones : r'.clones ≡ r.clones
  pub clone_at : r'.clone_at ≡ r.clone_at
  pub server_at : r'.server_at ≡ r.server_at
  pub user_at : r'.user_at ≡ r.user_at
  pub rooms : AllNamed wchan_name r.wchan_at r.wchans → AllNamed wchan_name r'.wchan_at r'.wchans
  pub names : AllNamed nick_name r.nick_at r.nicks → AllNamed nick_name r'.nick_at r'.nicks
  pub points :
      (u : ℕ) (x : Nick)
      → r'.nick_at u ≡ some x
      → (y : Nick) × (r.nick_at u ≡ some y) × (x.account ≡ y.account) × (x.server ≡ y.server)

-- DeleteUserFromWchan of a member takes that one from the list of the nick.
delete_user_from_wchan-Left :
    (malloc : Registry → ℕ) (r : Registry) (nptr a : ℕ) (m : Member) (nick : Nick)
    → IsJoined r
    → LimitsLive r
    → OnePlace r
    → r.member_at a ≡ some m
    → m.nick ≡ nptr
    → r.nick_at nptr ≡ some nick
    → (r' : Registry) × (delete_user_from_wchan malloc r nptr m.wchan ≡ some r')
      × Left r r'
      × (r'.nick_at ≡ put r.nick_at nptr (some (record nick { wchans = remove a nick.wchans })))
unfolding delete_user_from_wchan leave delete_member find_member
delete_user_from_wchan-Left malloc r nptr a m nick joined live places at own ne =
    let (w, we) = joined.has_wchan a m at in
    let in_nick : r.nick_at m.nick ≡ some nick = ap r.nick_at own ∙ ne in
    let (b, d, found, be, bn, bc) =
      find_member_in-hit r.member_at nptr a m w.members
        (Balanced-AllLive wchan_members wchan_of r.wchan_at r.member_at m.wchan w joined.wchans we)
        (on_list w we) at own in
    let same = places a b m d at be (own ∙ sym bn) (sym (its_wchan w we b d be bc)) in
    let search : find_member r m.wchan nptr ≡ some (some a) = rw (we, found, same) refl in
    let left = without_member r a m nick w in
    let shorter : Nick = record nick { wchans = remove a nick.wchans } in
    let (w', we') =
      put-IsLive r.wchan_at m.wchan m.wchan (record w { members = remove a w.members }) (w, we) in
    let (r', run, done, still, kept) =
      after_leave-IsJoined malloc left m.wchan w' w'.members
        (without_member-IsJoined r a m nick w joined at in_nick we)
        (record { names = live.names; active = live.active }) we' refl in
    (
      r',
      rw (search, at, in_nick, we, we') run,
      record {
        joined = done;
        live = still;
        places = λ x y k l xe ye.
            places x y k l
              (freed_before r.member_at a x k (ap (λ f. f x) (sym kept.member_at) ∙ xe))
              (freed_before r.member_at a y l (ap (λ f. f y) (sym kept.member_at) ∙ ye));
        nicks = kept.nicks;
        clones = kept.clones;
        clone_at = kept.clone_at;
        server_at = kept.server_at;
        user_at = kept.user_at;
        rooms = λ h. kept.rooms (
            AllNamed-put wchan_name r.wchan_at m.wchan w (record w { members = remove a w.members })
              r.wchans we refl h);
        names = λ h.
            rw (kept.nicks, kept.nick_at)
              (AllNamed-put nick_name r.nick_at m.nick nick shorter r.nicks in_nick refl h);
        points = λ u x h.
            elim (put_cases r.nick_at m.nick u shorter x (ap (λ f. f u) (sym kept.nick_at) ∙ h)) [
              | inl (here, e) ↦ (
                nick,
                ap r.nick_at (sym here) ∙ in_nick,
                ap (λ y. y.account) (sym e),
                ap (λ y. y.server) (sym e),
              )
              | inr (_, before) ↦ (x, before, refl, refl)
            ];
      },
      kept.nick_at
          ∙ ap (λ n. put r.nick_at n (some (record nick { wchans = remove a nick.wchans }))) own,
    )
  where
    on_list : (w : Wchan) → r.wchan_at m.wchan ≡ some w → 0 < count a w.members
    on_list w we =
        let one : count a w.members ≡ 1 = joined.wchans m.wchan w we a ∙ rw at (ground arith) in
        omega arith

    its_wchan :
        (w : Wchan)
        → r.wchan_at m.wchan ≡ some w
        → (b : ℕ) (d : Member) → r.member_at b ≡ some d
        → 0 < count b w.members
        → d.wchan ≡ m.wchan
    its_wchan w we b d be bc =
        let (c, e, side) =
          owned_entry wchan_of (r.member_at b) m.wchan
            (omega (arith, bc, joined.wchans m.wchan w we b)) in
        ap wchan_of (some_injective (sym be ∙ e)) ∙ side

find_member_in-own :
    (heap : Heap Member) (nptr b : ℕ) (as' : List ℕ)
    → AllLive heap as'
    → find_member_in heap nptr as' ≡ some (some b)
    → (d : Member) × (heap b ≡ some d) × (d.nick ≡ nptr) × (0 < count b as')
unfolding find_member_in
find_member_in-own heap nptr b [] l run = cc
find_member_in-own heap nptr b (c ∷ as') l run =
    let (x, e) = l.0 in
    elim (Bool-cases (x.nick == nptr)) [
      | inl hit ↦
          let here : some (some c) ≡ some (some b) = sym (rw (e, hit) refl) ∙ run in
          let same : c ≡ b = some_injective (some_injective here) in
          (
            x,
            rw (← same) e,
            (==_iff x.nick nptr).0 hit,
            rw (← same, (==_iff c c).1 refl) (omega arith),
          )
      | inr miss ↦
          let (d, at, own, more) =
            find_member_in-own heap nptr b as' l.1 (sym (rw (e, miss) refl) ∙ run) in
          (d, at, own, omega (arith, more))
    ]

-- DeleteUserFromWchan on a live channel ends, whether the nick is in it or not.
pub delete_user_from_wchan-Ends :
    (malloc : Registry → ℕ) (r : Registry) (nptr wchan : ℕ)
    → IsJoined r
    → LimitsLive r
    → OnePlace r
    → IsLive r.wchan_at wchan
    → (delete_user_from_wchan malloc r nptr wchan ≡ some r)
      ⊎ ((r' : Registry) × (delete_user_from_wchan malloc r nptr wchan ≡ some r') × Left r r')
unfolding delete_user_from_wchan leave find_member
delete_user_from_wchan-Ends malloc r nptr wchan joined live places (w, we) =
    let members =
      Balanced-AllLive wchan_members wchan_of r.wchan_at r.member_at wchan w joined.wchans we in
    let (o, run, found) = find_member_in-Found r.member_at nptr w.members members in
    elim (Option-cases o) [
      | inl nobody ↦ inl (rw (we, run, nobody) refl)
      | inr (b, hit) ↦
          let (d, at, own, on) =
            find_member_in-own r.member_at nptr b w.members members (rw hit at run) in
          let (c, ce, side) =
            owned_entry wchan_of (r.member_at b) wchan
              (omega (arith, on, joined.wchans wchan w we b)) in
          let here : d.wchan ≡ wchan = ap wchan_of (some_injective (sym at ∙ ce)) ∙ side in
          let (nick, ne) = joined.has_nick b d at in
          let (r', done, left, _) =
            delete_user_from_wchan-Left malloc r nptr b d nick joined live places at own
              (ap r.nick_at (sym own) ∙ ne) in
          inr (r', ap (delete_user_from_wchan malloc r nptr) (sym here) ∙ done, left)
    ]

-- A nick out of all its channels; the other nicks are as before.
pub record Emptied (r r' : Registry) (nptr : ℕ) (nick : Nick) : Type 0 where
  pub left : Left r r'
  pub alone : r'.nick_at nptr ≡ some (record nick { wchans = [] })
  pub others : (b : ℕ) → (nptr == b) ≡ false → r'.nick_at b ≡ r.nick_at b

delete_user_from_wchans_in-Emptied :
    (malloc : Registry → ℕ) (r : Registry) (nptr : ℕ) (nick : Nick) (as' : List ℕ)
    → IsJoined r
    → LimitsLive r
    → OnePlace r
    → r.nick_at nptr ≡ some nick
    → nick.wchans ≡ as'
    → (r' : Registry) × (delete_user_from_wchans_in malloc r nptr as' ≡ some r')
      × Emptied r r' nptr nick
unfolding delete_user_from_wchans_in
delete_user_from_wchans_in-Emptied malloc r nptr nick [] joined live places ne nil = (
  r,
  refl,
  record {
    left = record {
      joined = joined;
      live = live;
      places = places;
      nicks = refl;
      clones = refl;
      clone_at = refl;
      server_at = refl;
      user_at = refl;
      rooms = λ h. h;
      names = λ h. h;
      points = λ u x h. (x, h, refl, refl);
    };
    alone = ne ∙ ap (λ l. some (record nick { wchans = l })) nil;
    others = λ b h. refl;
  },
)
delete_user_from_wchans_in-Emptied malloc r nptr nick (a ∷ as') joined live places ne list =
    let (m, at, own) = owned_entry nick_of (r.member_at a) nptr on_list in
    let (r1, run1, left1, heap1) =
      delete_user_from_wchan-Left malloc r nptr a m nick joined live places at own ne in
    let shorter : Nick = record nick { wchans = remove a nick.wchans } in
    let (r2, run2, done) =
      delete_user_from_wchans_in-Emptied malloc r1 nptr shorter as' left1.joined left1.live
        left1.places (ap (λ f. f nptr) heap1 ∙ rw ((==_iff nptr nptr).1 refl) refl)
        (ap (remove a) list ∙ rw ((==_iff a a).1 refl) refl) in
    (
      r2,
      rw (at, run1) run2,
      record {
        left = record {
          joined = done.left.joined;
          live = done.left.live;
          places = done.left.places;
          nicks = done.left.nicks ∙ left1.nicks;
          clones = done.left.clones ∙ left1.clones;
          clone_at = done.left.clone_at ∙ left1.clone_at;
          server_at = done.left.server_at ∙ left1.server_at;
          user_at = done.left.user_at ∙ left1.user_at;
          rooms = λ h. done.left.rooms (left1.rooms h);
          names = λ h. done.left.names (left1.names h);
          points = λ u x h.
              let (y, at2, account2, server2) = done.left.points u x h in
              let (z, at1, account1, server1) = left1.points u y at2 in
              (z, at1, account2 ∙ account1, server2 ∙ server1);
        };
        alone = done.alone;
        others = λ b h. done.others b h ∙ ap (λ f. f b) heap1 ∙ rw h refl;
      },
    )
  where
    on_list : 0 < owned nick_of (r.member_at a) nptr
    on_list = rw (← joined.nicks nptr nick ne a, list, (==_iff a a).1 refl) (omega arith)

-- DeleteUserFromWchans of a live nick ends, and the nick is in no channel then. The members stay
-- joined, if a nick is in a channel once at most.
pub delete_user_from_wchans-Emptied :
    (malloc : Registry → ℕ) (r : Registry) (nptr : ℕ) (nick : Nick)
    → IsJoined r
    → LimitsLive r
    → OnePlace r
    → r.nick_at nptr ≡ some nick
    → (r' : Registry) × (delete_user_from_wchans malloc r nptr ≡ some r') × Emptied r r' nptr nick
unfolding delete_user_from_wchans
delete_user_from_wchans-Emptied malloc r nptr nick joined live places ne =
    let (r', run, done) =
      delete_user_from_wchans_in-Emptied malloc r nptr nick nick.wchans joined live places ne
        refl in
    (r', rw ne run, done)
