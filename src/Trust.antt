-- ===== src/Trust.antt =====
-- The trusted hosts: find_trust_strict, find_trust, AddTrust and DeleteTrust (src/trust.c), with
-- match_ipmask (src/net.c). inet_addr and atoi are the C library's; an address is given as ntohl gives
-- it, as a number below 2 ^ 32.
pub mod Mask
use child.Prelude.{
  ℕ, ◌-◌, ◌^◌, ◌%◌, Bool, true, false, Option, none, some, List, [], ◌∷◌, ◌++◌, ◌==◌, bit_and,
  if◌then◌else◌,
}
use child.Prelude.Int.{ℤ}
use child.Prelude.Maybe.{◌>>=◌}
use child.Strings.{Str, strncpy, str_eq, is_char_in_string}
use child.Core.{name_key}
use child.Hashmap.Lookup.{lookup}
use child.Registry.{Heap, Names, put, erase_name}
use child.Accounts.{hostlen}

pub record Trusted : Type 0 where
  pub host : Str
  pub limit : ℤ

-- core_get_trusts and the trusts themselves.
pub record Trusts : Type 0 where
  pub trusts : Names
  pub trust_at : Heap Trusted

-- What find_trust uses of the C library: inet_addr with ntohl, and atoi.
pub record Library : Type 0 where
  pub inet_addr : Str → ℕ
  pub atoi : Str → ℕ

-- match_ipmask; `a & ~m` is `a - (a & m)`.
unfoldable pub match_ipmask : ℕ → ℕ → ℕ → Bool
match_ipmask addr mask bits =
    let host_bits = 2 ^ (32 - bits) % 2 ^ 32 - 1 in addr - bit_and addr host_bits == mask

unfoldable pub find_trust_strict : Trusts → Option Str → Option ℕ
find_trust_strict t none = none
find_trust_strict t (some host) = lookup host t.trusts

-- The host of a trust up to its slash, and the bits behind it if there is one.
unfoldable pub split_slash : Str → Str × Option Str
split_slash [] = ([], none)
split_slash (c ∷ s) =
    let (mask, bits) = split_slash s in if c == b'/' then ([], some s) else (c ∷ mask, bits)

unfoldable pub in_network : Library → Str → Str × Option Str → Bool
unfolding match_ipmask
in_network lib host (mask, none) = false
in_network lib host (mask, some bits) =
    match_ipmask (lib.inet_addr host) (lib.inet_addr mask) (lib.atoi bits)

-- The tests of find_trust on one trust: the same host, or an IPv4 address in its network.
unfoldable pub trusts_host : Library → Str → Trusted → Bool
unfolding in_network split_slash
trusts_host lib host tmp =
    let network = in_network lib host (split_slash tmp.host) in
    if str_eq (some tmp.host) (some host)
    then true
    else (if is_char_in_string b':' host then false else network)

-- The loop of find_trust over the table.
unfoldable pub find_trust_in : Library → Heap Trusted → Str → Names → Option (Option ℕ)
unfolding trusts_host
find_trust_in lib heap host [] = some none
find_trust_in lib heap host ((_, a) ∷ names) =
    let later = find_trust_in lib heap host names in
    do tmp ← heap a; if trusts_host lib host tmp then some (some a) else later

unfoldable pub find_trust : Library → Trusts → Str → Option (Option ℕ)
unfolding find_trust_in
find_trust lib t host = find_trust_in lib t.trust_at host t.trusts

unfoldable pub insert_trust : (Trusts → ℕ) → Trusts → Str → ℤ → Option ℕ → Option ℕ × Trusts
insert_trust malloc t host limit (some duplicate) = (none, t)
insert_trust malloc t host limit none =
    let new_trust = malloc t in
    let key = strncpy hostlen host in
    (
      some new_trust,
      record {
        trusts = t.trusts ++ (key, new_trust) ∷ [];
        trust_at = put t.trust_at new_trust (some (record { host = key; limit = limit }));
      },
    )

unfoldable pub add_trust : (Trusts → ℕ) → Trusts → Str → ℤ → Option ℕ × Trusts
unfolding insert_trust
add_trust malloc t host limit =
    insert_trust malloc t host limit (find_trust_strict t (some (strncpy hostlen host)))

unfoldable pub delete_trust : Trusts → ℕ → Option Trusts
delete_trust t a = do
  trust ← t.trust_at a
  some (record { trusts = erase_name trust.host t.trusts; trust_at = put t.trust_at a none })
