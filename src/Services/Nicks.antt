-- ===== src/Services/Nicks.antt =====
-- The commands that link nicks and end their sessions (src/modules/m_nick.c): nick_link, nick_unlink,
-- nick_ghost and nick_drop; killuser (src/user.h).
use child.Prelude.{ℕ, ◌++◌, Option, none, some, [], ◌∷◌, if◌then◌else◌}
use child.Prelude.Int.{le_ℤ}
use child.Prelude.Maybe.{◌>>=◌}
use child.Strings.{Str, strncpy, str_eq, separate_word?}
use child.Hashmap.Dictionary.{is_some}
use child.Notices.{
  Notice, access_denied, done, not_identified, syntax_nick_link, syntax_nick_unlink,
  syntax_nick_ghost, link_with_yourself, unlink_from_yourself, ghost_yourself, user_not_registered,
  user_not_online, linked_with_another, linked_already, not_linked, linked, unlinked,
  wrong_password, nick_dropped, nick_not_registered, other_nick_dropped, used_drop,
}
use child.Registry.{Registry, kill, globops, send, put, find_user, find_nick, find_link, find_link2}
use child.Accounts.{hostlen, add_link, delete_link, userdrop}
use child.Accounts.Nicks.{userquit}
use child.Accounts.Passwords.{Hashing, check_user_password}
use child.Protocol.Renames.{is_authed?}
use child.Services.{notice_to_user}
use child.Services.Options.{is_services_oper}

-- killuser
unfoldable pub kill_user : (Registry → ℕ) → Registry → Str → Str → Str → Option Registry
unfolding userquit
kill_user malloc r nick reason who =
    userquit malloc (send (kill who nick r.config.name reason) r) nick

-- A command of `NICK`: the registry, the caller with his account, and the rest of the line.
abbrev pub NickCommand : Type 0
NickCommand = Registry → ℕ → Option ℕ → Option Str → Option Registry

-- `if (!IsAuthed(uptr))`
unfoldable pub if_authed : Registry → ℕ → Option ℕ → Option Registry → Option Registry
unfolding is_authed? notice_to_user
if_authed r nptr uptr act = do
  authed ← is_authed? r uptr
  let refused : Option Registry = notice_to_user r nptr not_identified
  if authed then act else refused

-- The test that the named user is another one than the caller, and registered.
unfoldable pub on_other : Registry → ℕ → Notice → Str → (ℕ → Option Registry) → Option Registry
unfolding notice_to_user
on_other r nptr own name act = do
  nick ← r.nick_at nptr
  let oneself : Option Registry = notice_to_user r nptr own
  let found : Option Registry = elim (find_user r (some name)) [
    | none ↦ notice_to_user r nptr user_not_registered
    | some user ↦ act user
  ]
  if str_eq (some name) (some nick.name) then oneself else found

-- A step behind check_user_password on an account.
unfoldable pub if_password :
    Hashing → Registry → ℕ → Option ℕ → Str → (Registry → Option Registry) → Option Registry
unfolding check_user_password notice_to_user
if_password h r nptr uptr password act = do
  checked ← check_user_password h r uptr password
  let good : Option Registry = act checked.1
  let refused : Option Registry = notice_to_user checked.1 nptr wrong_password
  if checked.0 then good else refused

-- The caller's account takes the vhost, the options and the timeout of the account it is linked to.
unfoldable pub take_over : Registry → Option ℕ → ℕ → Option Registry
take_over r none user = none
take_over r (some uptr) user = do
  master ← r.user_at user
  own ← r.user_at uptr
  let vhost : Str = elim master.vhost [ [] ↦ own.vhost | c ∷ s ↦ strncpy hostlen master.vhost ]
  some (record r {
    user_at =
        put r.user_at uptr
          (some (record own { vhost = vhost; options = master.options; timeout = master.timeout }));
  })

-- nick_link from the two tests for links on.
unfoldable pub link_to :
    (Registry → ℕ) → Hashing → Registry → ℕ → Option ℕ → Str → Str → ℕ → Option Registry
unfolding if_password take_over notice_to_user
link_to malloc h r nptr uptr name password user = do
  nick ← r.nick_at nptr
  let enter : Option Registry = if_password h r nptr uptr password (λ s. do
    taken ← take_over (add_link malloc s name nick.name).1 uptr user
    master ← taken.user_at user
    notice_to_user taken nptr (linked master.nick))
  let has_link : Option Registry = notice_to_user r nptr linked_with_another
  let is_linked : Option Registry = notice_to_user r nptr linked_already
  let second : Option Registry = (do
    twice ← find_link2 r nick.name name
    if is_some twice then is_linked else enter)
  if is_some (find_link r (some nick.name)) then has_link else second

-- The password that is asked for is that of the caller's own account.
unfoldable pub nick_link : (Registry → ℕ) → Hashing → NickCommand
unfolding if_authed on_other link_to notice_to_user
nick_link malloc h r nptr uptr all =
    let (arg3, rest) = separate_word? all in
    let (arg4, _) = separate_word? rest in
    if_authed r nptr uptr (elim arg3 [
      | some (c ∷ name) ↦ elim arg4 [
        | some (d ∷ password) ↦
            on_other r nptr link_with_yourself (c ∷ name)
              (link_to malloc h r nptr uptr (c ∷ name) (d ∷ password))
        | _ ↦ notice_to_user r nptr syntax_nick_link
      ]
      | _ ↦ notice_to_user r nptr syntax_nick_link
    ])

-- nick_unlink from the searches for a link on.
unfoldable pub unlink_from : Registry → ℕ → Str → ℕ → Option Registry
unfolding notice_to_user
unlink_from r nptr name user = do
  nick ← r.nick_at nptr
  own ← r.user_at user
  forth ← find_link2 r nick.name name
  let back : Option (Option ℕ) = find_link2 r name nick.name
  found ← if is_some forth then some forth else back
  elim found [
    | none ↦ notice_to_user r nptr not_linked
    | some l ↦ do
      link ← r.link_at l
      notice_to_user (delete_link r link.slave) nptr (unlinked own.nick)
  ]

unfoldable pub nick_unlink : NickCommand
unfolding if_authed on_other unlink_from notice_to_user
nick_unlink r nptr uptr all = if_authed r nptr uptr (elim ((separate_word? all).0) [
  | some (c ∷ name) ↦
      on_other r nptr unlink_from_yourself (c ∷ name) (unlink_from r nptr (c ∷ name))
  | _ ↦ notice_to_user r nptr syntax_nick_unlink
])

abbrev pub ghost_used_by : Str
ghost_used_by =
    b'G' ∷ b'H' ∷ b'O' ∷ b'S' ∷ b'T' ∷ b' ' ∷ b'c' ∷ b'o' ∷ b'm' ∷ b'm' ∷ b'a' ∷ b'n' ∷ b'd' ∷ b' '
    ∷ b'u' ∷ b's' ∷ b'e' ∷ b'd' ∷ b' ' ∷ b'b' ∷ b'y' ∷ b' ' ∷ []

-- nick_ghost from the search for the nick on.
unfoldable pub ghost :
    (Registry → ℕ) → Hashing → Registry → ℕ → Option ℕ → Str → Str → ℕ → Option Registry
unfolding if_password kill_user notice_to_user
ghost malloc h r nptr uptr name password user = do
  nick ← r.nick_at nptr
  online ← find_nick r name
  elim online [
    | none ↦ notice_to_user r nptr user_not_online
    | some nptr2 ↦ if_password h r nptr uptr password (λ s. do
      nick2 ← s.nick_at nptr2
      killed ← kill_user malloc s nick2.name (ghost_used_by ++ nick.name) s.config.nick
      notice_to_user killed nptr done)
  ]

-- Here too the password is that of the caller's own account.
unfoldable pub nick_ghost : (Registry → ℕ) → Hashing → NickCommand
unfolding on_other ghost notice_to_user
nick_ghost malloc h r nptr uptr all =
    let (arg3, rest) = separate_word? all in
    let (arg4, _) = separate_word? rest in
    elim arg3 [
      | some (c ∷ name) ↦ elim arg4 [
        | some (d ∷ password) ↦
            on_other r nptr ghost_yourself (c ∷ name)
              (ghost malloc h r nptr uptr (c ∷ name) (d ∷ password))
        | _ ↦ notice_to_user r nptr syntax_nick_ghost
      ]
      | _ ↦ notice_to_user r nptr syntax_nick_ghost
    ]

-- nick_drop of another nick, for an operator of the services.
unfoldable pub drop_other : (Registry → ℕ) → Registry → ℕ → ℕ → Str → Option ℕ → Option Registry
unfolding notice_to_user
drop_other malloc r nptr uptr name none = notice_to_user r nptr nick_not_registered
drop_other malloc r nptr uptr name (some uptr2) = do
  user ← r.user_at uptr
  other ← r.user_at uptr2
  nick ← r.nick_at nptr
  let refused : Option Registry = notice_to_user r nptr access_denied
  let dropped : Option Registry = (do
    out ← userdrop malloc r uptr2
    told ← notice_to_user out nptr (other_nick_dropped name)
    some (send (globops (used_drop nick.name name)) told))
  if le_ℤ user.level other.level then refused else dropped

-- nick_drop for an account that is identified.
unfoldable pub drop_named : (Registry → ℕ) → Registry → ℕ → ℕ → Option Str → Option Registry
unfolding drop_other is_services_oper notice_to_user
drop_named malloc r nptr uptr (some (c ∷ name)) = do
  oper ← is_services_oper r nptr (some uptr)
  let refused : Option Registry = notice_to_user r nptr access_denied
  let dropped : Option Registry =
      drop_other malloc r nptr uptr (c ∷ name) (find_user r (some (c ∷ name)))
  if oper then dropped else refused
drop_named malloc r nptr uptr _ = do
  out ← userdrop malloc r uptr
  notice_to_user out nptr nick_dropped

unfoldable pub nick_drop : (Registry → ℕ) → NickCommand
unfolding if_authed drop_named
nick_drop malloc r nptr uptr all =
    let (arg3, _) = separate_word? all in
    if_authed r nptr uptr (do u ← uptr; drop_named malloc r nptr u arg3)
