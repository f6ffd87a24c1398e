-- ===== src/Trust/Mask.antt =====
-- Which addresses a trusted network has: match_ipmask (src/net.c).
use child.Prelude.{ℕ, ◌-◌, ◌*◌, ◌/◌, ◌%◌, ◌^◌, ◌≤◌, ◌≡◌, ◌↔◌, true, bit_and, ==_iff, arith}
use child.Prelude.Bits.{bit_and_mask}
use native.Mathlib.Nat.{pow-le-pow_right, mod-eq_of_lt, div-add-mod}
use child.Trust.{match_ipmask}

host_bits_lem : (bits : ℕ) → 1 ≤ bits → 2 ^ (32 - bits) % 2 ^ 32 ≡ 2 ^ (32 - bits)
host_bits_lem bits low =
    let small : 2 ^ (32 - bits) ≤ 2 ^ 31 =
      pow-le-pow_right {n = 2} (omega arith) {j = 31} (omega arith) in
    mod-eq_of_lt (omega arith)

network_of : (k addr : ℕ) → addr - bit_and addr (2 ^ k - 1) ≡ addr / 2 ^ k * 2 ^ k
network_of k addr = rw (bit_and_mask k addr) (omega (arith, div-add-mod addr (2 ^ k)))

-- For a network of 1 to 32 bits an address matches exactly if its bits without those of the host are
-- the address of the network.
pub match_ipmask_iff :
    (addr mask bits : ℕ)
    → 1 ≤ bits
    → bits ≤ 32
    → (match_ipmask addr mask bits ≡ true) ↔ (addr / 2 ^ (32 - bits) * 2 ^ (32 - bits) ≡ mask)
unfolding match_ipmask
match_ipmask_iff addr mask bits low high =
    rw (host_bits_lem bits low, network_of (32 - bits) addr)
      (==_iff (addr / 2 ^ (32 - bits) * 2 ^ (32 - bits)) mask)
