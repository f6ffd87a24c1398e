-- ===== src/Protocol/Uplink.antt =====
-- The handlers of the link itself and of its servers: m_ping, m_sid, m_server and m_squit
-- (src/parseline.c).
use child.Prelude.{ℕ, Option, none, some, [], ◌∷◌, if◌then◌else◌}
use child.Prelude.Maybe.{◌>>=◌}
use child.Strings.{Str, strncpy, separate_word?}
use child.Hashmap.Dictionary.{is_some}
use child.Registry.{Registry, send, pong}
use child.Servers.{servernamelen, find_server, add_server, detach_server_recursive}
use child.Protocol.{Hooks, run_hooks, after_colon, no_args}

abbrev pub hook_ping : ℕ
hook_ping = 0x8

unfoldable pub m_ping : Hooks → Registry → Str → Option Registry
unfolding run_hooks after_colon
m_ping hooks r command = do
  ran ← run_hooks hooks hook_ping no_args (send (pong (after_colon command)) r)
  some ran.1

-- add_server for words that may be NULL, which strncpy does not take.
unfoldable pub add_named :
    (Registry → Option ℕ) → Registry → Option Str → Option Str → ℕ → Option Registry
unfolding add_server
add_named malloc r none sid sptr = none
add_named malloc r (some sname) none sptr = none
add_named malloc r (some sname) (some sid) sptr = do
  added ← add_server malloc r sname sid (some sptr)
  some added.1

-- m_sid once the server that sent it is found or not.
unfoldable pub sid_from :
    (Registry → Option ℕ) → Registry → Option Str → Option Str → Option ℕ → Option Registry
unfolding find_server add_named
sid_from malloc r sname sid none = some r
sid_from malloc r sname sid (some sptr) = do
  named ← find_server r sname
  known ← find_server r sid
  if is_some named
      then some r
      else (if is_some known then some r else add_named malloc r sname sid sptr)

-- The name is the first word of the tail, the sid the third.
unfoldable pub sid_words : Option Str → Option Str × Option Str
sid_words tail =
    let (sname, hops) = separate_word? tail in
    let (_, sids) = separate_word? hops in let (sid, _) = separate_word? sids in (sname, sid)

unfoldable pub m_sid : (Registry → Option ℕ) → Registry → Str → Option Str → Option Registry
unfolding find_server sid_from sid_words
m_sid malloc r sender tail =
    find_server r (some (after_colon sender))
    >>= sid_from malloc r (sid_words tail).0 (sid_words tail).1

-- The test of m_server on the server id of the uplink.
unfoldable pub add_remote : (Registry → Option ℕ) → Registry → Option ℕ → Option Registry
unfolding add_server
add_remote malloc r (some known) = some r
add_remote malloc r none = do
  added ← add_server malloc r r.remote_server r.remote_sid none
  some added.1

unfoldable pub m_server : (Registry → Option ℕ) → Registry → Str → Option Registry
unfolding find_server add_remote
m_server malloc r command =
    let named : Registry = record r { remote_server = strncpy servernamelen command } in
    elim r.remote_sid [
      | [] ↦ some named
      | c ∷ sid ↦ find_server named (some (c ∷ sid)) >>= add_remote malloc named
    ]

unfoldable pub detach_found : (Registry → ℕ) → ℕ → Registry → Option ℕ → Option Registry
unfolding detach_server_recursive
detach_found malloc fuel r none = some r
detach_found malloc fuel r (some server) = detach_server_recursive malloc fuel r server

unfoldable pub m_squit : (Registry → ℕ) → ℕ → Registry → Str → Option Registry
unfolding find_server detach_found
m_squit malloc fuel r sname = find_server r (some sname) >>= detach_found malloc fuel r
