-- ===== src/Protocol/Uids.antt =====
-- m_uid (src/parseline.c): a nick comes to the network.
use child.Prelude.{
  ℕ, false, not, ◌&&◌, ◌-◌, ◌++◌, ◌==◌, Option, none, some, List, [], ◌∷◌, bit_and, if◌then◌else◌,
}
use child.Prelude.Int.{ℤ, pos, le_ℤ}
use child.Prelude.Maybe.{◌>>=◌}
use child.Strings.{Str, strncpy, separate_word?}
use child.Hashmap.Dictionary.{is_some}
use child.Uflags.{has}
use child.Registry.{
  Registry, kill, set_registered, notice_identify, send, put, find_user, find_account,
  howmanyclones, umode_registered, umode_nokick, uopt_protect,
}
use child.Accounts.{hostlen, svidlen, add_guest, user_login}
use child.Accounts.Nicks.{new_nick}
use child.Trust.{Trusts, Library, find_trust_strict, find_trust}
use child.Servers.{find_server}
use child.Protocol.{Hooks, run_hooks, after_colon}
use child.Protocol.Identity.{if_found}
use child.Protocol.Umodes.{
  umode_oper, umode_sadmin, umode_admin, umode_bot, umode_nadmin, umode_service, set_umodes,
}
use child.Services.Identify.{uopt_suspended}

abbrev pub umode_ssl : ℕ
umode_ssl = 0x100

abbrev pub hook_nickcreate : ℕ
hook_nickcreate = 0x4

-- What m_uid asks outside of the registry: the trusts with the functions of the C library, and
-- decode_ip (src/base64.c).
pub record Outside : Type 0 where
  pub library : Library
  pub trusts : Trusts
  pub decode_ip : Str → Str

-- The words of a UID line that are used.
pub record Uid : Type 0 where
  pub nick : Str
  pub ident : Str
  pub host : Str
  pub uid : Str
  pub svid : Str
  pub umode : Str
  pub hiddenhost : Str
  pub nickip : Str

-- A word that must be there and hold a byte.
unfoldable pub filled : Option Str → Option Str
filled (some (c ∷ s)) = some (c ∷ s)
filled _ = none

-- The words of the line, `none` if one of those that m_uid tests is missing. The words behind the nick
-- are the number of hops, a time, the ident and so on.
unfoldable pub uid_words : Option Str → Option Uid
unfolding filled
uid_words tail = do
  let (nick, a) = separate_word? tail
  let (_, b) = separate_word? a
  let (_, c) = separate_word? b
  let (ident, d) = separate_word? c
  let (host, e) = separate_word? d
  let (uid, f) = separate_word? e
  let (svid, g) = separate_word? f
  let (umode, h) = separate_word? g
  let (_, i) = separate_word? h
  let (hiddenhost, j) = separate_word? i
  let (nickip, _) = separate_word? j
  nick' ← filled nick
  ident' ← filled ident
  host' ← filled host
  uid' ← filled uid
  svid' ← svid
  umode' ← filled umode
  hiddenhost' ← filled hiddenhost
  nickip' ← filled nickip
  some (record {
    nick = nick';
    ident = ident';
    host = host';
    uid = uid';
    svid = svid';
    umode = umode';
    hiddenhost = hiddenhost';
    nickip = nickip';
  })

-- The address that the clones are counted by.
unfoldable pub clientip : (Str → Str) → Uid → Str
clientip decode_ip u = elim u.nickip [
  | [] ↦ strncpy hostlen (decode_ip u.nickip)
  | c ∷ s ↦ strncpy hostlen (if c == b'*' then u.host else decode_ip u.nickip)
]

-- The number of clones that a host may have: that of its trust, or that of the configuration.
unfoldable pub clone_limit : Outside → ℤ → Str → Str → Option ℤ
clone_limit o maxclones host ip = do
  let by_ip : Option (Option ℕ) = find_trust o.library o.trusts ip
  let strict = find_trust_strict o.trusts (some host)
  found ← if is_some strict then some strict else by_ip
  elim found [ none ↦ some maxclones | some t ↦ do trust ← o.trusts.trust_at t; some trust.limit ]

-- The letters of the modes in the order of their tests.
abbrev pub uid_letters : List (ℕ × ℕ)
uid_letters =
    (b'o', umode_oper)
    ∷ (b'a', umode_sadmin)
    ∷ (b'A', umode_admin)
    ∷ (b'r', umode_registered)
    ∷ (b'N', umode_nadmin)
    ∷ (b'B', umode_bot)
    ∷ (b'S', umode_service)
    ∷ (b'q', umode_nokick)
    ∷ (b'z', umode_ssl)
    ∷ []

-- nick_set_svid, and LLIST_INSERT_TAIL on the nicks of the server.
unfoldable pub attach : Registry → ℕ → ℕ → Str → Option Registry
attach r nptr s svid = do
  nick ← r.nick_at nptr
  server ← r.server_at s
  some (record r {
    nick_at =
        put r.nick_at nptr (some (record nick { svid = strncpy svidlen svid; server = some s }));
    server_at = put r.server_at s (some (record server { nicks = server.nicks ++ nptr ∷ [] }));
  })

-- The account of a nick that comes with the mode +r and no account.
unfoldable pub accept_registered : Registry → ℕ → Option ℕ → Option Registry
accept_registered r nptr uptr = do
  nick ← r.nick_at nptr
  let dropped : Registry = send (set_registered nick.name false) (record r {
    nick_at =
        put r.nick_at nptr
          (some (record nick { umodes = nick.umodes - bit_and nick.umodes umode_registered }));
  })
  let resolved : Option Registry = elim uptr [
    | none ↦ some dropped
    | some u ↦ do
      user ← r.user_at u
      let in' : Option Registry = user_login r nptr u
      if not user.authed && not (has user.options uopt_suspended) then in' else some dropped
  ]
  if has nick.umodes umode_registered && not (is_some nick.account) then resolved else some r

-- The notice to a nick that is not identified, and the guest if the account is protected.
unfoldable pub warn_unidentified : (Registry → ℕ) → Registry → ℕ → ℕ → Option Registry
unfolding add_guest
warn_unidentified malloc r nptr uptr = do
  nick ← r.nick_at nptr
  user ← r.user_at uptr
  let told : Registry = send (notice_identify nick.name) r
  let guarded : Registry = (add_guest malloc told nick.name user.timeout r.now).1
  let warned : Registry = (if has user.options uopt_protect then guarded else told)
  some (
      if not (has nick.umodes umode_registered) && not (has user.options uopt_suspended)
      then warned
      else r)

-- m_uid from the new nick on.
unfoldable pub welcome : (Registry → ℕ) → Hooks → Registry → ℕ → ℕ → Str → Option Registry
unfolding attach accept_registered warn_unidentified run_hooks if_found
welcome malloc hooks r nptr server svid = do
  attached ← attach r nptr server svid
  account ← find_account attached nptr
  ran ←
      run_hooks hooks hook_nickcreate
        (record { nptr = some nptr; uptr = account; chptr = none; parv = [] }) attached
  nick ← ran.1.nick_at nptr
  let uptr = find_user ran.1 (some nick.name)
  accepted ← accept_registered ran.1 nptr uptr
  if_found accepted (warn_unidentified malloc accepted nptr) uptr

-- new_nick, which returns NULL for a name that is taken; nick_set_svid then reads through NULL.
unfoldable pub enter_nick : (Registry → ℕ) → Hooks → Registry → ℕ → Uid → Str → Option Registry
unfolding welcome set_umodes
enter_nick malloc hooks r server u ip = do
  created ←
      new_nick malloc r u.nick u.ident u.host u.uid u.hiddenhost (set_umodes uid_letters u.umode 0)
        ip
  nptr ← created.0
  welcome malloc hooks created.1 nptr server u.svid

abbrev pub max_clones : Str
max_clones =
    b'M' ∷ b'a' ∷ b'x' ∷ b' ' ∷ b'c' ∷ b'l' ∷ b'o' ∷ b'n' ∷ b'e' ∷ b's' ∷ b' ' ∷ b'l' ∷ b'i' ∷ b'm'
    ∷ b'i' ∷ b't' ∷ b' ' ∷ b'e' ∷ b'x' ∷ b'c' ∷ b'e' ∷ b'e' ∷ b'd' ∷ b'e' ∷ b'd' ∷ []

-- m_uid for the words of the line: one clone too many is killed before it is entered.
unfoldable pub admit : (Registry → ℕ) → Hooks → Outside → Registry → ℕ → Uid → Option Registry
unfolding clientip clone_limit enter_nick
admit malloc hooks o r server u = do
  let ip = clientip o.decode_ip u
  limit ← clone_limit o r.config.maxclones u.host ip
  clones ← howmanyclones r ip
  let entered : Option Registry = enter_nick malloc hooks r server u ip
  if le_ℤ limit (pos clones)
      then some (send (kill r.config.nick u.nick r.config.name max_clones) r)
      else entered

unfoldable pub m_uid :
    (Registry → ℕ) → Hooks → Outside → Registry → Str → Option Str → Option Registry
unfolding admit uid_words if_found
m_uid malloc hooks o r sender tail =
    find_server r (some (after_colon sender))
    >>= if_found r (λ server. elim (uid_words tail) [
      | none ↦ some r
      | some u ↦ admit malloc hooks o r server u
    ])
