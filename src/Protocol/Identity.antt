-- ===== src/Protocol/Identity.antt =====
-- The handlers that change what is known of a nick: m_chghost, m_chgident, m_sethost and m_setident
-- (src/parseline.c), nick_set_ident and nick_set_hiddenhost (src/nick.c); m_quit.
use child.Prelude.{ℕ, Option, none, some, [], if◌then◌else◌}
use child.Prelude.Maybe.{◌>>=◌}
use child.Strings.{Str, strncpy, separate_word?}
use child.Registry.{Registry, put, find_nick, find_account}
use child.Channels.{nicklen}
use child.Accounts.{hostlen}
use child.Accounts.Nicks.{userquit}
use child.Protocol.{Hooks, run_hooks, after_colon}

-- nick_set_hiddenhost, for a host that is not NULL.
unfoldable pub nick_set_hiddenhost : Registry → ℕ → Option Str → Option Registry
nick_set_hiddenhost r nptr none = none
nick_set_hiddenhost r nptr (some host) = do
  nick ← r.nick_at nptr
  some (record r {
    nick_at = put r.nick_at nptr (some (record nick { hiddenhost = strncpy hostlen host }));
  })

-- nick_set_ident, for an ident that is not NULL.
unfoldable pub nick_set_ident : Registry → ℕ → Option Str → Option Registry
nick_set_ident r nptr none = none
nick_set_ident r nptr (some ident) = do
  nick ← r.nick_at nptr
  some (record r {
    nick_at = put r.nick_at nptr (some (record nick { ident = strncpy nicklen ident }));
  })

-- find_nick, for a name that may be NULL.
unfoldable pub find_nick? : Registry → Option Str → Option (Option ℕ)
unfolding find_nick
find_nick? r none = some none
find_nick? r (some name) = find_nick r name

-- `if (!nptr) return;`
unfoldable pub if_found : Registry → (ℕ → Option Registry) → Option ℕ → Option Registry
if_found r act none = some r
if_found r act (some nptr) = act nptr

unfoldable pub m_chghost : Registry → Option Str → Option Registry
unfolding find_nick? if_found nick_set_hiddenhost
m_chghost r tail =
    let (target, rest) = separate_word? tail in
    let (newhost, _) = separate_word? rest in
    find_nick? r target >>= if_found r (λ nptr. nick_set_hiddenhost r nptr newhost)

unfoldable pub m_chgident : Registry → Option Str → Option Registry
unfolding find_nick? if_found nick_set_ident
m_chgident r tail =
    let (target, rest) = separate_word? tail in
    let (newident, _) = separate_word? rest in
    find_nick? r target >>= if_found r (λ nptr. nick_set_ident r nptr newident)

unfoldable pub m_sethost : Registry → Str → Option Str → Option Registry
unfolding find_nick if_found nick_set_hiddenhost after_colon
m_sethost r sender tail =
    let (newhost, _) = separate_word? tail in
    find_nick r (after_colon sender) >>= if_found r (λ nptr. nick_set_hiddenhost r nptr newhost)

unfoldable pub m_setident : Registry → Str → Option Str → Option Registry
unfolding find_nick if_found nick_set_ident after_colon
m_setident r sender tail =
    let (newident, _) = separate_word? tail in
    find_nick r (after_colon sender) >>= if_found r (λ nptr. nick_set_ident r nptr newident)

abbrev pub hook_quit : ℕ
hook_quit = 0x10

-- m_quit of a nick that is found.
unfoldable pub quit_nick : (Registry → ℕ) → Hooks → Registry → ℕ → Option Registry
unfolding run_hooks userquit
quit_nick malloc hooks r nptr = do
  uptr ← find_account r nptr
  ran ←
      run_hooks hooks hook_quit (record { nptr = some nptr; uptr = uptr; chptr = none; parv = [] })
        r
  let quit : Option Registry = (do nick ← ran.1.nick_at nptr; userquit malloc ran.1 nick.name)
  if ran.0 then some ran.1 else quit

unfoldable pub m_quit : (Registry → ℕ) → Hooks → Registry → Str → Option Registry
unfolding find_nick if_found quit_nick
m_quit malloc hooks r sender =
    find_nick r (after_colon sender) >>= if_found r (quit_nick malloc hooks r)
