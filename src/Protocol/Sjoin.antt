-- ===== src/Protocol/Sjoin.antt =====
-- m_sjoin (src/parseline.c): a server brings the members of a channel; m_sasl.
use child.Prelude.{
  ℕ, Bool, ◌==◌, ◌&&◌, ◌||◌, ◌++◌, Option, none, some, List, [], ◌∷◌, bit_or, if◌then◌else◌,
}
use child.Prelude.Maybe.{◌>>=◌}
use child.Strings.{Str, strncpy, behind_char, separate_word?}
use child.Registry.{Registry, put, find_nick, find_account, find_channel, find_member, is_authed}
use child.Access.{find_cflag_recursive}
use child.Channels.Members.{
  add_user_to_wchan, chfl_op, chfl_halfop, chfl_voice, chfl_protect, chfl_owner,
}
use child.Accounts.Sync.{sync_cflag}
use child.Protocol.{Hooks, run_hooks}
use child.Protocol.Identity.{if_found}
use child.Protocol.Locks.{upto}
use child.Protocol.Chanmodes.{m_mode}
use child.Protocol.Joins.{wchan_of_name, tokens}

-- strstr for ` :`: what stands before it and behind it.
unfoldable pub cut_sjoin : Str → Option (Str × Str)
cut_sjoin [] = none
cut_sjoin (x ∷ []) = none
cut_sjoin (x ∷ y ∷ s) =
    let later : Option (Str × Str) = (do cut ← cut_sjoin (y ∷ s); some (x ∷ cut.0, cut.1)) in
    if (x == b' ') && (y == b':') then some ([], s) else later

-- The modes and the members of the line: cut at ` :`, or else at the first colon, which must be there.
unfoldable pub sjoin_parts : Str → Option (Str × Str)
unfolding cut_sjoin upto
sjoin_parts modes = elim (cut_sjoin modes) [
  | some cut ↦ some cut
  | none ↦ do members ← behind_char b':' modes; some (upto b':' modes, members)
]

-- The status that a prefix stands for, 0 for none.
unfoldable pub prefix_status : ℕ → ℕ
prefix_status c =
    if c == b'*'
    then chfl_owner
    else (if c == b'~'
        then chfl_protect
        else (if c == b'@'
            then chfl_op
            else (if c == b'%' then chfl_halfop else (if c == b'+' then chfl_voice else 0))))

-- The prefixes of lists that are not kept: of bans, exceptions and invitations.
abbrev pub is_list_prefix : ℕ → Bool
is_list_prefix c = (c == b'&') || ((c == b'"') || (c == b'\''))

-- The prefixes of one member, and the name behind them if it is one of a member.
unfoldable pub sjoin_member : ℕ → Str → ℕ × Option Str
unfolding prefix_status
sjoin_member flags [] = (flags, none)
sjoin_member flags (c ∷ s) =
    let more = sjoin_member (bit_or flags (prefix_status c)) s in
    if prefix_status c == 0 then (flags, if is_list_prefix c then none else some (c ∷ s)) else more

-- The access of a member that came in.
unfoldable pub sync_joined : (Registry → ℕ) → Registry → ℕ → ℕ → ℕ → Option Registry
unfolding if_found
sync_joined malloc r fuel nptr chptr =
    find_account r nptr
    >>= if_found r (λ uptr. do
      authed ← is_authed r uptr
      let synced : Option Registry =
          find_cflag_recursive r fuel chptr uptr >>= if_found r (sync_cflag malloc r)
      if authed then synced else some r)

-- A member comes in with its status; one that is there already is left alone.
unfoldable pub sjoin_nick : (Registry → ℕ) → Registry → ℕ → Str → ℕ → ℕ → ℕ → Option Registry
unfolding sync_joined if_found
sjoin_nick malloc r fuel chname wchan flags nptr = do
  there ← find_member r wchan nptr
  let entered : Option Registry = (do
    added ← add_user_to_wchan malloc r nptr wchan
    member ← added.1.member_at added.0
    let set : Registry = record added.1 {
      member_at = put added.1.member_at added.0 (some (record member { flags = flags }));
    }
    if_found set (sync_joined malloc set fuel nptr) (find_channel set (some chname)))
  elim there [ some m ↦ some r | none ↦ entered ]

unfoldable pub sjoin_elem : (Registry → ℕ) → Registry → ℕ → Str → ℕ → Str → Option Registry
unfolding sjoin_nick sjoin_member if_found
sjoin_elem malloc r fuel chname wchan elem =
    let (flags, name) = sjoin_member 0 elem in
    elim name [
      | none ↦ some r
      | some n ↦ find_nick r n >>= if_found r (sjoin_nick malloc r fuel chname wchan flags)
    ]

-- The loop over the members; the channel of the network is found once, before it.
unfoldable pub sjoin_each : (Registry → ℕ) → Registry → ℕ → Str → ℕ → List Str → Option Registry
unfolding sjoin_elem
sjoin_each malloc r fuel chname wchan [] = some r
sjoin_each malloc r fuel chname wchan (elem ∷ elems) = do
  joined ← sjoin_elem malloc r fuel chname wchan elem
  sjoin_each malloc joined fuel chname wchan elems

-- m_sjoin; the words behind the time must be there.
unfoldable pub m_sjoin : (Registry → ℕ) → Hooks → Registry → ℕ → Str → Option Str → Option Registry
unfolding sjoin_parts sjoin_each tokens
m_sjoin malloc hooks r fuel sender tail = do
  let (_, rest) = separate_word? tail
  let (chname, behind) = separate_word? rest
  name ← chname
  text ← behind
  (modes, members) ← sjoin_parts text
  found ← wchan_of_name malloc r name
  locked ← m_mode hooks found.1 fuel sender (strncpy 1022 (name ++ b' ' ∷ modes))
  sjoin_each malloc locked fuel name found.0 (tokens b' ' members)

abbrev pub hook_sasl : ℕ
hook_sasl = 0x8000

unfoldable pub m_sasl : Hooks → Registry → Str → Option Str → Option Registry
m_sasl hooks r sender tail = do
  ran ←
      run_hooks hooks hook_sasl
        (record { nptr = none; uptr = none; chptr = none; parv = some sender ∷ tail ∷ [] }) r
  some ran.1
