-- ===== src/Services/Identify.antt =====
-- nick_identify and nick_register (src/modules/m_nick.c).
use child.Prelude.{
  ℕ, Bool, true, false, not, ◌==◌, ◌&&◌, ◌+◌, Option, none, some, [], ◌∷◌, ltb, if◌then◌else◌,
}
use child.Prelude.Int.{ℤ, pos, le_ℤ}
use child.Prelude.Maybe.{◌>>=◌}
use child.Strings.{Str, strncpy, separate_word?, behind_char}
use child.Uflags.{has}
use child.Notices.{
  syntax_nick_identify, syntax_nick_register, identified_already, nickname_not_registered,
  wrong_password, account_suspended, kills_other, nick_registered_already, invalid_email, level_now,
  registered, password_generated,
}
use child.Registry.{Registry, Nick, mail, send, put, find_user}
use child.Accounts.{add_user, user_login}
use child.Accounts.Sync.{sync_user}
use child.Accounts.Passwords.{Hashing, check_user_password, set_user_password}
use child.Services.{notice_to_user}
use child.Services.Nicks.{NickCommand, kill_user}

abbrev pub uopt_suspended : ℕ
uopt_suspended = 0x4

abbrev pub uopt_noauto : ℕ
uopt_noauto = 0x20

abbrev pub too_many_attempts : Str
too_many_attempts =
    b'M' ∷ b'a' ∷ b'x' ∷ b' ' ∷ b'l' ∷ b'o' ∷ b'g' ∷ b'i' ∷ b'n' ∷ b' ' ∷ b'a' ∷ b't' ∷ b't' ∷ b'e'
    ∷ b'm' ∷ b'p' ∷ b't' ∷ b's' ∷ b' ' ∷ b'e' ∷ b'x' ∷ b'c' ∷ b'e' ∷ b'e' ∷ b'd' ∷ b'e' ∷ b'd' ∷ []

abbrev pub ghosted : Str
ghosted =
    b'G' ∷ b'h' ∷ b'o' ∷ b's' ∷ b't' ∷ b'e' ∷ b'd' ∷ b' ' ∷ b'b' ∷ b'y' ∷ b' ' ∷ b'n' ∷ b'e' ∷ b'w'
    ∷ b' ' ∷ b'a' ∷ b'c' ∷ b'c' ∷ b'o' ∷ b'u' ∷ b'n' ∷ b't' ∷ b' ' ∷ b'i' ∷ b'd' ∷ b'e' ∷ b'n'
    ∷ b't' ∷ b'i' ∷ b'f' ∷ b'i' ∷ b'c' ∷ b'a' ∷ b't' ∷ b'i' ∷ b'o' ∷ b'n' ∷ []

-- The counters of a nick after a wrong password.
abbrev pub tried : ℕ → Nick → Nick
tried now nick = record nick {
  loginattempts = nick.loginattempts + 1;
  lasttry = if nick.lasttry == 0 then now else nick.lasttry;
}

-- What a wrong password leads to: an attempt too many in a minute kills the nick, and a first attempt
-- after a minute starts to count again.
unfoldable pub wrong_attempt : (Registry → ℕ) → Registry → ℕ → Option Registry
unfolding notice_to_user kill_user
wrong_attempt malloc r nptr = do
  told ← notice_to_user r nptr wrong_password
  nick ← told.nick_at nptr
  let counted = tried r.now nick
  let kept : Registry = record told { nick_at = put told.nick_at nptr (some counted) }
  let again : Registry = record told {
    nick_at = put told.nick_at nptr (some (record counted { loginattempts = 1; lasttry = r.now }));
  }
  let many = le_ℤ r.config.maxloginatt (pos counted.loginattempts)
  let in_a_minute = ltb r.now (counted.lasttry + 60)
  let killed : Option Registry = kill_user malloc kept nick.name too_many_attempts r.config.nick
  if many && in_a_minute then killed else some (if not many && not in_a_minute then again else kept)

-- The nick that is identified with the account already is killed.
unfoldable pub kill_authed : (Registry → ℕ) → Registry → ℕ → ℕ → Option Registry
unfolding notice_to_user kill_user
kill_authed malloc r nptr uptr = do
  user ← r.user_at uptr
  let killed : Option Registry = (do
    other ← user.authed_nick
    nick ← r.nick_at other
    told ← notice_to_user r nptr (kills_other nick.name)
    kill_user malloc told nick.name ghosted r.config.nick)
  if user.authed then killed else some r

-- nick_identify behind the right password.
unfoldable pub identify : (Registry → ℕ) → Registry → ℕ → ℕ → Option Registry
unfolding kill_authed notice_to_user
identify malloc r nptr uptr = do
  user ← r.user_at uptr
  let refused : Option Registry = notice_to_user r nptr account_suspended
  let entered : Option Registry = (do
    alone ← kill_authed malloc r nptr uptr
    in' ← user_login alone nptr uptr
    now ← in'.user_at uptr
    let synced : Option Registry = sync_user malloc in' uptr
    if has now.options uopt_noauto then some in' else synced)
  if has user.options uopt_suspended then refused else entered

-- nick_identify for the account of the caller's nick.
unfoldable pub identify_as :
    (Registry → ℕ) → Hashing → Registry → ℕ → Str → Option ℕ → Option Registry
unfolding identify wrong_attempt notice_to_user
identify_as malloc h r nptr password none = notice_to_user r nptr nickname_not_registered
identify_as malloc h r nptr password (some user) = do
  checked ← check_user_password h r (some user) password
  let wrong : Option Registry = wrong_attempt malloc checked.1 nptr
  let right : Option Registry = identify malloc checked.1 nptr user
  if checked.0 then right else wrong

unfoldable pub nick_identify : (Registry → ℕ) → Hashing → NickCommand
unfolding identify_as notice_to_user
nick_identify malloc h r nptr uptr all = elim ((separate_word? all).0) [
  | some (c ∷ password) ↦ do
    nick ← r.nick_at nptr
    elim nick.account [
      | some a ↦ do user ← r.user_at a; notice_to_user r nptr (identified_already user.nick)
      | none ↦ identify_as malloc h r nptr (c ∷ password) (find_user r (some nick.name))
    ]
  | _ ↦ notice_to_user r nptr syntax_nick_identify
]

abbrev pub emaillen : ℕ
emaillen = 100

-- `str3 = str2 + 2` for what follows the dot: its second byte is there, or it is the NUL of the string,
-- or it is `behind`, the byte of the buffer behind that NUL.
unfoldable pub long_enough : ℕ → Str → Bool
long_enough behind [] = not (behind == 0)
long_enough behind (c ∷ []) = false
long_enough behind (c ∷ d ∷ s) = true

-- The tests of an address. An address that begins with `@` is tested by the byte of the buffer that
-- stands `before` it.
unfoldable pub is_email : ℕ → ℕ → Str → Bool
unfolding long_enough
is_email before behind [] = false
is_email before behind (c ∷ s) = elim (behind_char b'@' (c ∷ s)) [
  | none ↦ false
  | some domain ↦ elim (behind_char b'.' domain) [
    | none ↦ false
    | some rest ↦ not ((c == b'@') && (before == 0)) && long_enough behind rest
  ]
]

-- The level of a new account: the first one of all is the owner's.
unfoldable pub first_level : Registry → ℕ → Option (ℤ × Registry)
unfolding notice_to_user
first_level r nptr = elim r.users [
  | [] ↦ do
    told ← notice_to_user r nptr (level_now r.config.level_owner)
    some (r.config.level_owner, told)
  | _ ∷ _ ↦ some (pos 1, r)
]

-- nick_register from the new account on: its password, its address and its dates.
unfoldable pub enter_account : Hashing → Registry → ℕ → ℕ → Str → Str → Str → Option Registry
unfolding set_user_password notice_to_user user_login
enter_account h r nptr uptr password newpass email = do
  set ← set_user_password h r uptr (if r.config.emailreg then newpass else password)
  user ← set.user_at uptr
  let dated : Registry = record set {
    user_at = put set.user_at uptr (
        some
          (record user { email = strncpy emaillen email; regtime = set.now; lastseen = set.now }));
  }
  told ← notice_to_user dated nptr registered
  let mailed : Option Registry =
      notice_to_user (send (mail (strncpy emaillen email) newpass) told) nptr password_generated
  let in' : Option Registry = user_login told nptr uptr
  if told.config.emailreg then mailed else in'

-- nick_register for a password and an address that are given; `newpass` is what gen_rand_string wrote.
unfoldable pub register_nick :
    (Registry → ℕ) → Hashing → ℕ → ℕ → Str → Registry → ℕ → Str → Str → Option Registry
unfolding first_level enter_account is_email notice_to_user
register_nick malloc h before behind newpass r nptr password email =
    let refused : Option Registry = notice_to_user r nptr invalid_email in
    let entered : Option Registry = (do
      nick ← r.nick_at nptr
      first ← first_level r nptr
      let added : Registry = (add_user malloc first.1 nick.name first.0).1
      elim (find_user added (some nick.name)) [
        | none ↦ some added
        | some user ↦ enter_account h added nptr user password newpass email
      ]) in
    if is_email before behind email then entered else refused

unfoldable pub nick_register : (Registry → ℕ) → Hashing → ℕ → ℕ → Str → NickCommand
unfolding register_nick notice_to_user
nick_register malloc h before behind newpass r nptr (some uptr) all =
    notice_to_user r nptr nick_registered_already
nick_register malloc h before behind newpass r nptr none all =
    let (arg3, rest) = separate_word? all in
    let (arg4, _) = separate_word? rest in
    elim arg3 [
      | some (c ∷ password) ↦ elim arg4 [
        | some (d ∷ email) ↦
            register_nick malloc h before behind newpass r nptr (c ∷ password) (d ∷ email)
        | _ ↦ notice_to_user r nptr syntax_nick_register
      ]
      | _ ↦ notice_to_user r nptr syntax_nick_register
    ]
