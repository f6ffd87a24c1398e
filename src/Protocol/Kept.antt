-- ===== src/Protocol/Kept.antt =====
-- What each handler by which a nick leaves or changes keeps: m_part, m_quit, m_sethost, m_setident and
-- m_umode (src/parseline.c).
use child.Prelude.{
  ℕ, ◌≡◌, refl, inl, inr, Bool, false, ◌||◌, Option, none, some, [], ◌∷◌, ◌==◌, bit_and, length,
  ◌<◌, Bool-cases, Option-cases,
}
use child.Prelude.Maybe.{◌>>=◌}
use child.Strings.{Str, separate_word, separate_word?, strncpy}
use child.Core.{name_key, hash_buf_len, unless_aborted-fits}
use child.Registry.{
  Registry, Nick, globops_oper, put, find_nick, find_wchan, find_in_names, find_account, find_user,
}
use child.Registry.Named.{AllNamed-AllLiveNames}
use child.Registry.Reads.{IsLive, Found, find_nick_in-Found, lookup-Found}
use child.Channels.Members.{delete_user_from_wchan}
use child.Channels.Joined.{nick_name, wchan_name}
use child.Channels.Emptied.{delete_user_from_wchan-Ends}
use child.Channels.{nicklen}
use child.Accounts.{hostlen}
use child.Accounts.Network.{
  IsNetwork, EndsNetwork, Left-IsNetwork, changed-IsNetwork, unheard-IsNetwork,
}
use child.Accounts.Quit.{userquit-IsNetwork}
use child.Protocol.{Hooks, HookArgs, run_hooks, run_hooks_from, after_colon}
use child.Protocol.Identity.{
  if_found, nick_set_hiddenhost, nick_set_ident, m_sethost, m_setident, hook_quit, quit_nick,
  m_quit,
}
use child.Protocol.Rooms.{m_part, find_wchan?}
use child.Protocol.Umodes.{hook_umode, apply_umode, new_oper, umode_nick, umode_words}

-- A hook that ends, keeps the registries of a network and frees no nick.
unfoldable pub IsKeeping : Hooks → Type 0
IsKeeping [] = Unit {0}
IsKeeping ((mask, ptr) ∷ hooks) =
    ((args : HookArgs) (r : Registry)
      → IsNetwork r
      → (b : Bool) × (r' : Registry) × (ptr args r ≡ some (b, r'))
        × IsNetwork r'
        × ((a : ℕ) → IsLive r.nick_at a → IsLive r'.nick_at a))
    × IsKeeping hooks

run_hooks_from-IsNetwork :
    (stop : Bool) (hooks : Hooks) (mask : ℕ) (args : HookArgs) (r : Registry)
    → IsKeeping hooks
    → IsNetwork r
    → (b : Bool) × (r' : Registry) × (run_hooks_from stop hooks mask args r ≡ some (b, r'))
      × IsNetwork r'
      × ((a : ℕ) → IsLive r.nick_at a → IsLive r'.nick_at a)
unfolding run_hooks_from IsKeeping
run_hooks_from-IsNetwork stop [] mask args r keeping net = (stop, r, refl, net, λ a h. h)
run_hooks_from-IsNetwork stop ((m, ptr) ∷ hooks) mask args r (keeps, keeping) net =
    elim (Bool-cases (bit_and m mask == 0)) [
      | inl skip ↦
          let (b, r', run, net', still) =
            run_hooks_from-IsNetwork (stop || false) hooks mask args r keeping net in
          (b, r', rw skip run, net', still)
      | inr called ↦
          let (b1, r1, run1, net1, still1) = keeps args r net in
          let (b, r', run, net', still) =
            run_hooks_from-IsNetwork (stop || b1) hooks mask args r1 keeping net1 in
          (b, r', rw (called, run1) run, net', λ a h. still a (still1 a h))
    ]

-- A change of modes keeps the rest of a nick.
apply_umode-Keeps :
    (umode : Str) (nick : Nick)
    → ((apply_umode umode nick).name ≡ nick.name)
      × ((apply_umode umode nick).wchans ≡ nick.wchans)
      × ((apply_umode umode nick).server ≡ nick.server)
      × ((apply_umode umode nick).account ≡ nick.account)
unfolding apply_umode
apply_umode-Keeps [] nick = (refl, refl, refl, refl)
apply_umode-Keeps (sign ∷ s) nick = elim (Bool-cases (sign == b'+')) [
  | inl plus ↦ rw plus (refl, refl, refl, refl)
  | inr no_plus ↦ elim (Bool-cases (sign == b'-')) [
    | inl minus ↦ rw (no_plus, minus) (refl, refl, refl, refl)
    | inr no_minus ↦ rw (no_plus, no_minus) (refl, refl, refl, refl)
  ]
]

-- A name that the hash of names has room for.
abbrev pub HasRoom : Option Str → Type 0
HasRoom none = Unit
HasRoom (some name) = length name < hash_buf_len

module _ (r : Registry) (net : IsNetwork r) where
  nick-Found : (name : Str) → (o : Option ℕ) × (find_nick r name ≡ some o) × Found r.nick_at o
  unfolding find_nick
  nick-Found name =
      find_nick_in-Found r.nick_at name r.nicks
        (AllNamed-AllLiveNames nick_name r.nick_at r.nicks net.nicks)

  -- A handler that acts on the nick it finds.
  on_nick :
      (name : Str) (act : ℕ → Option Registry)
      → ((a : ℕ) (nick : Nick) → r.nick_at a ≡ some nick → EndsNetwork (act a))
      → EndsNetwork (find_nick r name >>= if_found r act)
  unfolding if_found
  on_nick name act each = let (o, run, found) = nick-Found name in rw run (by_nick o found)
    where
      by_nick : (o : Option ℕ) → Found r.nick_at o → EndsNetwork (if_found r act o)
      by_nick none found = (r, refl, net)
      by_nick (some a) (nick, at) = each a nick at

  account_found :
      (a : ℕ) (nick : Nick) → r.nick_at a ≡ some nick → (o : Option ℕ) × (find_account r a ≡ some o)
  unfolding find_account
  account_found a nick at = elim (Option-cases nick.account) [
    | inl e ↦ (find_user r (some nick.name), rw (at, e) refl)
    | inr (u, e) ↦ (some u, rw (at, e) refl)
  ]

  set_nick :
      (a : ℕ) (nick nick' : Nick)
      → r.nick_at a ≡ some nick
      → nick'.name ≡ nick.name
      → nick'.wchans ≡ nick.wchans
      → nick'.server ≡ nick.server
      → nick'.account ≡ nick.account
      → IsNetwork (record r { nick_at = put r.nick_at a (some nick') })
  set_nick a nick nick' at name wchans server account =
      changed-IsNetwork r a nick nick' net at name wchans server
        (rw account (net.accounts a nick at))

  pub m_sethost-IsNetwork : (sender newhost : Str) → EndsNetwork (m_sethost r sender (some newhost))
  unfolding m_sethost nick_set_hiddenhost separate_word?
  m_sethost-IsNetwork sender newhost = on_nick (after_colon sender) _ (λ a nick at.
      let host = strncpy hostlen (separate_word newhost).0 in
      (
        record r { nick_at = put r.nick_at a (some (record nick { hiddenhost = host })) },
        rw at refl,
        set_nick a nick (record nick { hiddenhost = host }) at refl refl refl refl,
      ))

  pub m_setident-IsNetwork :
      (sender newident : Str) → EndsNetwork (m_setident r sender (some newident))
  unfolding m_setident nick_set_ident separate_word?
  m_setident-IsNetwork sender newident = on_nick (after_colon sender) _ (λ a nick at.
      let ident = strncpy nicklen (separate_word newident).0 in
      (
        record r { nick_at = put r.nick_at a (some (record nick { ident = ident })) },
        rw at refl,
        set_nick a nick (record nick { ident = ident }) at refl refl refl refl,
      ))

  room-Found : (name : Option Str) → Found r.wchan_at (find_wchan r name)
  unfolding find_wchan find_in_names
  room-Found none = tt
  room-Found (some name) =
      lookup-Found r.wchan_at name r.wchans
        (AllNamed-AllLiveNames wchan_name r.wchan_at r.wchans net.rooms)

  wchan-Found :
      (chan : Option Str)
      → HasRoom chan
      → (o : Option ℕ) × (find_wchan? r chan ≡ some o) × Found r.wchan_at o
  unfolding find_wchan?
  wchan-Found none room = (find_wchan r none, refl, room-Found none)
  wchan-Found (some name) room = (
    find_wchan r (some name),
    unless_aborted-fits name (some (find_wchan r (some name))) room,
    room-Found (some name),
  )

  room_left :
      (malloc : Registry → ℕ) (a : ℕ) (o : Option ℕ)
      → Found r.wchan_at o
      → EndsNetwork (if_found r (delete_user_from_wchan malloc r a) o)
  unfolding if_found
  room_left malloc a none found = (r, refl, net)
  room_left malloc a (some wchan) found =
      elim (delete_user_from_wchan-Ends malloc r a wchan net.joined net.live net.places found) [
        | inl absent ↦ (r, absent, net)
        | inr (r', run, left) ↦ (r', run, Left-IsNetwork r r' net left)
      ]

  pub m_part-IsNetwork :
      (malloc : Registry → ℕ) (sender : Str) (tail : Option Str)
      → HasRoom ((separate_word? tail).0)
      → EndsNetwork (m_part malloc r sender tail)
  unfolding m_part
  m_part-IsNetwork malloc sender tail room = on_nick (after_colon sender) _ (λ a nick at.
      let (o, run, found) = wchan-Found (separate_word? tail).0 room in
      let (r', left, net') = room_left malloc a o found in (r', rw run left, net'))

  pub m_quit-IsNetwork :
      (malloc : Registry → ℕ) (hooks : Hooks) (sender : Str)
      → IsKeeping hooks
      → EndsNetwork (m_quit malloc hooks r sender)
  unfolding m_quit quit_nick run_hooks
  m_quit-IsNetwork malloc hooks sender keeping = on_nick (after_colon sender) _ (λ a nick at.
      let (u, account) = account_found a nick at in
      let args : HookArgs = record { nptr = some a; uptr = u; chptr = none; parv = [] } in
      let (b, r1, run1, net1, still) =
        run_hooks_from-IsNetwork false hooks hook_quit args r keeping net in
      let (nick1, at1) = still a (nick, at) in
      let (r2, run2, net2) = userquit-IsNetwork malloc r1 nick1.name net1 in
      elim (Bool-cases b) [
        | inl stop ↦ (r1, rw (account, run1, stop) refl, net1)
        | inr go ↦ (r2, rw (account, run1, go, at1) run2, net2)
      ])

  umode_nick-IsNetwork :
      (hooks : Hooks) (umode : Str) (a : ℕ) (nick : Nick)
      → IsKeeping hooks
      → r.nick_at a ≡ some nick
      → EndsNetwork (umode_nick hooks r umode a)
  unfolding umode_nick run_hooks
  umode_nick-IsNetwork hooks umode a nick keeping at =
      let (u, account) = account_found a nick at in
      let (name, wchans, server, acc) = apply_umode-Keeps umode nick in
      let changed = set_nick a nick (apply_umode umode nick) at name wchans server acc in
      let args : HookArgs = record {
        nptr = some a;
        uptr = u;
        chptr = none;
        parv = some umode ∷ [];
      } in
      elim (Bool-cases (new_oper umode)) [
        | inl oper ↦
            let (b, r1, run1, net1, _) =
              run_hooks_from-IsNetwork false hooks hook_umode args
                (record r {
                  nick_at = put r.nick_at a (some (apply_umode umode nick));
                  sent = globops_oper nick.name ∷ r.sent;
                })
                keeping
                (unheard-IsNetwork _ (globops_oper nick.name ∷ r.sent) r.guests r.guest_at
                  changed) in
            (r1, rw (account, at, oper, run1) refl, net1)
        | inr none_new ↦
            let (b, r1, run1, net1, _) =
              run_hooks_from-IsNetwork false hooks hook_umode args
                (record r { nick_at = put r.nick_at a (some (apply_umode umode nick)) }) keeping
                changed in
            (r1, rw (account, at, none_new, run1) refl, net1)
      ]

  pub umode_words-IsNetwork :
      (hooks : Hooks) (name umode : Option Str)
      → IsKeeping hooks
      → EndsNetwork (umode_words hooks r name umode)
  unfolding umode_words
  umode_words-IsNetwork hooks (some (c ∷ name)) (some (d ∷ umode)) keeping =
      on_nick (c ∷ name) _ (λ a nick at. umode_nick-IsNetwork hooks (d ∷ umode) a nick keeping at)
  umode_words-IsNetwork hooks none umode keeping = (r, refl, net)
  umode_words-IsNetwork hooks (some []) umode keeping = (r, refl, net)
  umode_words-IsNetwork hooks (some (c ∷ name)) none keeping = (r, refl, net)
  umode_words-IsNetwork hooks (some (c ∷ name)) (some []) keeping = (r, refl, net)
