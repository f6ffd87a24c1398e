-- ===== src/Services/Settings.antt =====
-- The options of an account (src/modules/m_nick.c): nick_set_protect, nick_set_private,
-- nick_set_noauto, nick_set_hidemail, nick_set_cloak, nick_set_email and
-- nick_set_password; nick_requestpassword.
use child.Prelude.{ℕ, Bool, true, false, ◌++◌, Option, none, some, [], ◌∷◌, if◌then◌else◌}
use child.Prelude.Int.{le_ℤ}
use child.Prelude.Maybe.{◌>>=◌}
use child.Strings.{Str, strncpy, separate_word?}
use child.Notices.{
  NickOption, access_denied, syntax_nick_set, syntax_nick_requestpassword, nick_option_is, email_is,
  invalid_email, password_changed, password_of_other_changed, outranked, used_password,
  other_not_registered, user_unknown, user_is_authed, email_not_set, password_mailed,
}
use child.Registry.{
  Registry, chghost, mail, globops, send, put, find_user, uopt_protect, uopt_hidemail, uopt_cloaked,
}
use child.Channels.Members.{change_flags}
use child.Accounts.Passwords.{Hashing, set_user_password}
use child.Protocol.Identity.{nick_set_hiddenhost}
use child.Services.{notice_to_user}
use child.Services.Options.{on_or_off, is_services_oper}
use child.Services.Nicks.{NickCommand}
use child.Services.Identify.{emaillen, is_email, uopt_noauto}

abbrev pub uopt_private : ℕ
uopt_private = 0x2

-- SetOption or ClearOption on an account, and the notice.
unfoldable pub change_user_option :
    Registry → ℕ → Option ℕ → NickOption → ℕ → Bool → Option Registry
unfolding change_flags notice_to_user
change_user_option r nptr uptr option flag what = do
  u ← uptr
  user ← r.user_at u
  notice_to_user
      (record r {
        user_at =
            put r.user_at u (some (record user { options = change_flags what user.options flag }));
      })
      nptr (nick_option_is option what)

-- The text of the options that do nothing else.
unfoldable pub set_user_option : NickOption → ℕ → NickCommand
unfolding change_user_option on_or_off
set_user_option option flag r nptr uptr all =
    let (arg1, _) = separate_word? all in
    on_or_off r nptr (syntax_nick_set option) arg1 (change_user_option r nptr uptr option flag)

unfoldable pub nick_set_protect : NickCommand
unfolding set_user_option
nick_set_protect = set_user_option NickOption.protect uopt_protect

unfoldable pub nick_set_private : NickCommand
unfolding set_user_option
nick_set_private = set_user_option NickOption.hidden uopt_private

unfoldable pub nick_set_noauto : NickCommand
unfolding set_user_option
nick_set_noauto = set_user_option NickOption.noauto uopt_noauto

unfoldable pub nick_set_hidemail : NickCommand
unfolding set_user_option
nick_set_hidemail = set_user_option NickOption.hidemail uopt_hidemail

-- The cloak: the option, and the hidden host that it gives.
unfoldable pub change_cloak : Registry → ℕ → Option ℕ → Bool → Option Registry
unfolding change_user_option nick_set_hiddenhost notice_to_user
change_cloak r nptr uptr false = change_user_option r nptr uptr NickOption.cloak uopt_cloaked false
change_cloak r nptr uptr true = do
  u ← uptr
  user ← r.user_at u
  let host = user.nick ++ r.config.usercloak
  let set : Registry = record r {
    user_at =
        put r.user_at u
          (some (record user { options = change_flags true user.options uopt_cloaked }));
  }
  shown ← nick_set_hiddenhost (send (chghost user.nick host) set) nptr (some host)
  notice_to_user shown nptr (nick_option_is NickOption.cloak true)

unfoldable pub nick_set_cloak : NickCommand
unfolding change_cloak on_or_off
nick_set_cloak r nptr uptr all =
    let (arg1, _) = separate_word? all in
    on_or_off r nptr (syntax_nick_set NickOption.cloak) arg1 (change_cloak r nptr uptr)

-- nick_set_email for the bytes `before` and `behind` the argument in its buffer.
unfoldable pub nick_set_email : ℕ → ℕ → NickCommand
unfolding is_email notice_to_user
nick_set_email before behind r nptr uptr all = do
  arg1 ← (separate_word? all).0
  let refused : Option Registry = notice_to_user r nptr invalid_email
  let set : Option Registry = (do
    u ← uptr
    user ← r.user_at u
    notice_to_user
        (record r {
          user_at = put r.user_at u (some (record user { email = strncpy emaillen arg1 }));
        })
        nptr (email_is arg1))
  if is_email before behind arg1 then set else refused

-- nick_set_password of an operator for a registered account. What is set is the operator's own
-- password.
unfoldable pub password_of : Hashing → Registry → ℕ → ℕ → Str → Str → Option ℕ → Option Registry
unfolding set_user_password notice_to_user
password_of h r nptr uptr name password none = notice_to_user r nptr (other_not_registered name)
password_of h r nptr uptr name password (some uptr2) = do
  user ← r.user_at uptr
  other ← r.user_at uptr2
  nick ← r.nick_at nptr
  let refused : Option Registry = notice_to_user r nptr outranked
  let changed : Option Registry = (do
    set ← set_user_password h r uptr password
    told ← notice_to_user set nptr password_of_other_changed
    some (send (globops (used_password nick.name other.nick)) told))
  if le_ℤ user.level other.level then refused else changed

unfoldable pub nick_set_password : Hashing → NickCommand
unfolding password_of is_services_oper set_user_password notice_to_user
nick_set_password h r nptr uptr all = do
  let (arg1, rest) = separate_word? all
  let (arg2, _) = separate_word? rest
  u ← uptr
  name ← arg1
  elim arg2 [
    | some (c ∷ password) ↦ do
      oper ← is_services_oper r nptr uptr
      let refused : Option Registry = notice_to_user r nptr access_denied
      let changed : Option Registry =
          password_of h r nptr u name (c ∷ password) (find_user r (some name))
      if oper then changed else refused
    | _ ↦ do set ← set_user_password h r u name; notice_to_user set nptr password_changed
  ]

-- nick_requestpassword for an account; `newpass` is what gen_rand_string wrote.
unfoldable pub mail_password : Hashing → Str → Registry → ℕ → Option ℕ → Option Registry
unfolding set_user_password notice_to_user
mail_password h newpass r nptr none = notice_to_user r nptr user_unknown
mail_password h newpass r nptr (some uptr) = do
  user ← r.user_at uptr
  let authed : Option Registry = notice_to_user r nptr user_is_authed
  let unset : Option Registry = notice_to_user r nptr email_not_set
  let mailed : Option Registry = (do
    set ← set_user_password h r uptr newpass
    notice_to_user (send (mail user.email newpass) set) nptr password_mailed)
  if user.authed then authed else elim user.email [ [] ↦ unset | c ∷ s ↦ mailed ]

unfoldable pub nick_requestpassword : Hashing → Str → NickCommand
unfolding mail_password notice_to_user
nick_requestpassword h newpass r nptr uptr all = elim ((separate_word? all).0) [
  | some (c ∷ name) ↦ mail_password h newpass r nptr (find_user r (some (c ∷ name)))
  | _ ↦ notice_to_user r nptr syntax_nick_requestpassword
]
