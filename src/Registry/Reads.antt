-- ===== src/Registry/Reads.antt =====
-- The searches of a sound registry end without a fault, on live objects.
use child.Prelude.{
  ℕ, ◌≡◌, refl, inl, inr, Bool, false, Option, none, some, List, [], ◌∷◌, ◌==◌, Bool-cases,
  Option-cases, ◌||◌,
}
use child.Strings.{Str, str_eq, strcasecmp}
use child.Core.{name_key}
use child.Hashmap.Lookup.{lookup}
use child.Uflags.{has}
use child.Registry.{
  Registry, Heap, Names, User, Nick, Cflag, find_in_names, find_user, find_link, find_nick_in,
  find_nick, find_cflag_in, find_cflag, get_link_master, is_super_admin, has_umode, link_master,
  umode_superadmin,
}

abbrev pub IsLive : {A : Type 0} → Heap A → ℕ → Type 0
IsLive {A} heap a = (x : A) × (heap a ≡ some x)

abbrev pub AllLive : {A : Type 0} → Heap A → List ℕ → Type 0
AllLive heap [] = Unit
AllLive heap (a ∷ as') = IsLive heap a × AllLive heap as'

abbrev pub AllLiveNames : {A : Type 0} → Heap A → Names → Type 0
AllLiveNames heap [] = Unit
AllLiveNames heap ((_, a) ∷ names) = IsLive heap a × AllLiveNames heap names

-- What a search returns is NULL or live.
abbrev pub Found : {A : Type 0} → Heap A → Option ℕ → Type 0
Found heap none = Unit
Found heap (some a) = IsLive heap a

-- The tables and lists that the searches read hold live objects only.
pub record IsSound (r : Registry) : Type 0 where
  pub users : AllLiveNames r.user_at r.users
  pub nicks : AllLiveNames r.nick_at r.nicks
  pub links : AllLiveNames r.link_at r.links
  pub cflags : (a : ℕ) (u : User) → r.user_at a ≡ some u → AllLive r.cflag_at u.cflags

pub lookup-Found :
    {A : Type 0} (heap : Heap A) (name : Str) (names : Names)
    → AllLiveNames heap names
    → Found heap (lookup name names)
lookup-Found heap name [] l = tt
lookup-Found heap name ((k, a) ∷ names) l = elim (Bool-cases (strcasecmp k name)) [
  | inl hit ↦ rw hit l.0
  | inr miss ↦ rw miss (lookup-Found heap name names l.1)
]

find_cflag_in-Found :
    (heap : Heap Cflag) (chptr : ℕ) (as' : List ℕ)
    → AllLive heap as'
    → (o : Option ℕ) × (find_cflag_in heap chptr as' ≡ some o) × Found heap o
unfolding find_cflag_in
find_cflag_in-Found heap chptr [] l = (none, refl, tt)
find_cflag_in-Found heap chptr (a ∷ as') l =
    let (c, e) = l.0 in
    elim (Bool-cases (c.chan == chptr)) [
      | inl hit ↦ (some a, rw (e, hit), (c, e))
      | inr miss ↦
          let (o, run, found) = find_cflag_in-Found heap chptr as' l.1 in
          (o, rw (e, miss) run, found)
    ]

pub find_nick_in-Found :
    (heap : Heap Nick) (name : Str) (names : Names)
    → AllLiveNames heap names
    → (o : Option ℕ) × (find_nick_in heap name names ≡ some o) × Found heap o
unfolding find_nick_in
find_nick_in-Found heap name [] l = (none, refl, tt)
find_nick_in-Found heap name ((k, a) ∷ names) l =
    let (n, e) = l.0 in
    elim (Bool-cases (str_eq (some n.name) (some name) || str_eq (some n.uid) (some name))) [
      | inl hit ↦ (some a, rw (e, hit), (n, e))
      | inr miss ↦
          let (o, run, found) = find_nick_in-Found heap name names l.1 in
          (o, rw (e, miss) run, found)
    ]

module _ (r : Registry) (sound : IsSound r) where
  pub find_cflag-Found :
      (chptr uptr : ℕ)
      → IsLive r.user_at uptr
      → (o : Option ℕ) × (find_cflag r chptr uptr ≡ some o) × Found r.cflag_at o
  unfolding find_cflag
  find_cflag-Found chptr uptr (u, e) =
      let (o, run, found) = find_cflag_in-Found r.cflag_at chptr u.cflags (sound.cflags uptr u e) in
      (o, rw e run, found)

  pub find_nick-Found :
      (name : Str) → (o : Option ℕ) × (find_nick r name ≡ some o) × Found r.nick_at o
  unfolding find_nick
  find_nick-Found name = find_nick_in-Found r.nick_at name r.nicks sound.nicks

  pub get_link_master-Found :
      (uptr : ℕ)
      → IsLive r.user_at uptr
      → (o : Option ℕ) × (get_link_master r uptr ≡ some o) × Found r.user_at o
  unfolding get_link_master link_master find_link find_user find_in_names
  get_link_master-Found uptr (u, e) =
      let linked = lookup-Found r.link_at u.nick r.links sound.links in
      elim (Option-cases (lookup u.nick r.links)) [
        | inl missing ↦ (none, rw (e, missing), tt)
        | inr (l, hit) ↦
            let (link, at) : IsLive r.link_at l = rw hit at linked in
            (
              lookup link.master r.users,
              rw (e, hit, at),
              lookup-Found r.user_at link.master r.users sound.users,
            )
      ]

  pub has_umode-total :
      (o : Option ℕ) (umode : ℕ) → Found r.nick_at o → (b : Bool) × (has_umode r o umode ≡ some b)
  unfolding has_umode
  has_umode-total none umode f = (false, refl)
  has_umode-total (some a) umode (n, e) = (has n.umodes umode, rw e)

  pub is_super_admin-total :
      (uptr : ℕ) → IsLive r.user_at uptr → (b : Bool) × (is_super_admin r uptr ≡ some b)
  unfolding is_super_admin
  is_super_admin-total uptr (u, e) =
      let (o, run, found) = find_nick-Found u.nick in
      let (b, held) = has_umode-total o umode_superadmin found in
      elim (Bool-cases u.authed) [
        | inl authed ↦ (b, rw (e, run, authed) held)
        | inr guest ↦ (false, rw (e, run, guest))
      ]
