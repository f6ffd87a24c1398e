-- ===== src/Prelude/Bits.antt =====
-- Laws of the bitwise operations at variables, from their recursion on binary digits.
use Prim.Native.Nat.{
  ℕ, zero, suc, ◌+◌, ◌-◌, ◌*◌, ◌/◌, ◌%◌, ◌^◌, ◌≤◌, ◌<◌, min, max, digits, bitwise, bit_and, bit_or,
  bit_and-bitwise, bit_or-bitwise,
}
use mathlib.Core.Path.{◌≡◌, refl}
use mathlib.Core.Logic.{◌⊎◌}
use mathlib.Core.WellFounded as Wf
use mathlib.Core.WellFounded.{Acc, WellFounded}
use native.Mathlib.Nat.{pow-suc, one-le-pow}
use native.Mathlib.Omega.{arith}

Acc-below : (k n : ℕ) → n < k → Acc ◌<◌ n
Acc-below zero n h = elim h [ ]
Acc-below (suc k) n h = Acc.intro n (λ m hm. Acc-below k m (omega arith))

pub lt_wf : WellFounded ◌<◌
lt_wf = record { apply = λ n. Acc-below (suc n) n (omega arith) }

-- Induction along halving: the shape of every law below.
pub halving {ℓ} : (P : ℕ → Type ℓ) → P 0 → ((n : ℕ) → P (suc n / 2) → P (suc n)) → (n : ℕ) → P n
halving P base step n = Wf.induction lt_wf {C = P} n go
  where
    go : (k : ℕ) → ((m : ℕ) → m < k → P m) → P k
    go zero ih = base
    go (suc k) ih = step k (ih (suc k / 2) (omega arith))

module _ (rest : ℕ → ℕ) (join : ℕ → ℕ → ℕ) where
  -- Fuel beyond the first operand changes nothing.
  enough_fuel : (a fuel b : ℕ) → a ≤ fuel → digits rest join fuel a b ≡ bitwise rest join a b
  enough_fuel =
      halving (λ a. (fuel b : ℕ) → a ≤ fuel → digits rest join fuel a b ≡ bitwise rest join a b)
        nothing more
    where
      nothing : (fuel b : ℕ) → 0 ≤ fuel → digits rest join fuel 0 b ≡ bitwise rest join 0 b
      nothing zero b h = refl
      nothing (suc fuel) b h = refl

      more :
          (n : ℕ)
          → ((fuel b : ℕ)
              → suc n / 2 ≤ fuel
              → digits rest join fuel (suc n / 2) b ≡ bitwise rest join (suc n / 2) b)
          → (fuel b : ℕ) → suc n ≤ fuel
          → digits rest join fuel (suc n) b ≡ bitwise rest join (suc n) b
      more n ih zero b h = absurd (omega arith)
      more n ih (suc fuel) b h = rw (ih fuel (b / 2) (omega arith), ih n (b / 2) (omega arith))

  last_digit :
      (n b : ℕ)
      → bitwise rest join (suc n) b
        ≡ join (suc n % 2) (b % 2) + 2 * bitwise rest join (suc n / 2) (b / 2)
  last_digit n b = omega (arith, enough_fuel (suc n / 2) n (b / 2) (omega arith))

-- The last digits of a union and of an intersection.
pub bit_or_digit : (a b : ℕ) → bit_or a b ≡ max (a % 2) (b % 2) + 2 * bit_or (a / 2) (b / 2)
bit_or_digit zero b = omega (arith, bit_or-bitwise 0 b, bit_or-bitwise 0 (b / 2))
bit_or_digit (suc n) b = simp bit_or-bitwise (last_digit (λ y. y) max n b)

pub bit_and_digit : (a b : ℕ) → bit_and a b ≡ min (a % 2) (b % 2) + 2 * bit_and (a / 2) (b / 2)
bit_and_digit zero b = omega (arith, bit_and-bitwise 0 b, bit_and-bitwise 0 (b / 2))
bit_and_digit (suc n) b = simp bit_and-bitwise (last_digit (λ y. 0) min n b)

pub zero-bit_and : (b : ℕ) → bit_and 0 b ≡ 0
zero-bit_and b = bit_and-bitwise 0 b

pub zero-bit_or : (b : ℕ) → bit_or 0 b ≡ b
zero-bit_or b = bit_or-bitwise 0 b

pub bit_and-le_right : (a b : ℕ) → bit_and a b ≤ b
bit_and-le_right =
    halving (λ a. (b : ℕ) → bit_and a b ≤ b) (λ b. omega (arith, zero-bit_and b))
      (λ n ih b. omega (arith, bit_and_digit (suc n) b, ih (b / 2)))

pub bit_or-zero : (a : ℕ) → bit_or a 0 ≡ a
bit_or-zero =
    halving (λ a. bit_or a 0 ≡ a) (zero-bit_or 0)
      (λ n ih. omega (arith, bit_or_digit (suc n) 0, ih))

pub bit_and-zero : (a : ℕ) → bit_and a 0 ≡ 0
bit_and-zero a = omega (arith, bit_and-le_right a 0)

-- The two halves of a step, by which a bitwise term under another one is taken apart.
pub bit_or_half : (a b : ℕ) → bit_or a b / 2 ≡ bit_or (a / 2) (b / 2)
bit_or_half a b = omega (arith, bit_or_digit a b)

pub bit_or_parity : (a b : ℕ) → bit_or a b % 2 ≡ max (a % 2) (b % 2)
bit_or_parity a b = omega (arith, bit_or_digit a b)

pub bit_and_half : (a b : ℕ) → bit_and a b / 2 ≡ bit_and (a / 2) (b / 2)
bit_and_half a b = omega (arith, bit_and_digit a b)

pub bit_and_parity : (a b : ℕ) → bit_and a b % 2 ≡ min (a % 2) (b % 2)
bit_and_parity a b = omega (arith, bit_and_digit a b)

-- Two numbers are equal if their halves and their parities are.
pub eq_of_half : {a b : ℕ} → a / 2 ≡ b / 2 → a % 2 ≡ b % 2 → a ≡ b
eq_of_half h p = omega arith

pub bit_or_assoc : (a b c : ℕ) → bit_or (bit_or a b) c ≡ bit_or a (bit_or b c)
bit_or_assoc =
    halving (λ a. (b c : ℕ) → bit_or (bit_or a b) c ≡ bit_or a (bit_or b c))
      (λ b c. rw (zero-bit_or b, zero-bit_or (bit_or b c)))
      (λ n ih b c.
        eq_of_half (simp bit_or_half (ih (b / 2) (c / 2))) (simp bit_or_parity (omega arith)))

pub bit_or_comm : (a b : ℕ) → bit_or a b ≡ bit_or b a
bit_or_comm =
    halving (λ a. (b : ℕ) → bit_or a b ≡ bit_or b a) (λ b. rw (zero-bit_or b, bit_or-zero b))
      (λ n ih b. eq_of_half (simp bit_or_half (ih (b / 2))) (simp bit_or_parity (omega arith)))

pub bit_and-bit_or : (a b c : ℕ) → bit_and a (bit_or b c) ≡ bit_or (bit_and a b) (bit_and a c)
bit_and-bit_or =
    halving (λ a. (b c : ℕ) → bit_and a (bit_or b c) ≡ bit_or (bit_and a b) (bit_and a c))
      (λ b c. rw (zero-bit_and (bit_or b c), zero-bit_and b, zero-bit_and c))
      (λ n ih b c.
        eq_of_half (simp (bit_or_half, bit_and_half) (ih (b / 2) (c / 2)))
          (simp (bit_or_parity, bit_and_parity) (omega arith)))

pow-suc_half : (k : ℕ) → 2 ^ suc k / 2 ≡ 2 ^ k
pow-suc_half k = omega (arith, pow-suc 2 k)

-- Intersection with a single bit is empty or that bit.
pub bit_and_single : (k a : ℕ) → (bit_and a (2 ^ k) ≡ 0) ⊎ (bit_and a (2 ^ k) ≡ 2 ^ k)
bit_and_single zero a = omega (arith, bit_and_digit a 1, bit_and-zero (a / 2))
bit_and_single (suc k) a =
    ground
      (arith, bit_and_digit a (2 ^ suc k), pow-suc_half k, pow-suc 2 k, bit_and_single k (a / 2))

mod-two-mul : (a m : ℕ) → 0 < m → a % (2 * m) ≡ (a / 2 % m) * 2 + a % 2
mod-two-mul a m h = grind arith

-- A mask of `k` ones is the remainder by `2 ^ k`.
pub bit_and_mask : (k a : ℕ) → bit_and a (2 ^ k - 1) ≡ a % 2 ^ k
bit_and_mask zero a = omega (arith, bit_and-zero a)
bit_and_mask (suc k) a = ground (
  arith,
  bit_and_digit a (2 ^ suc k - 1),
  pow-suc 2 k,
  one-le-pow k 2,
  bit_and_mask k (a / 2),
  mod-two-mul a (2 ^ k),
)

-- A union holds what it unites.
pub bit_or-le_left : (a b : ℕ) → a ≤ bit_or a b
bit_or-le_left =
    halving (λ a. (b : ℕ) → a ≤ bit_or a b) (λ b. omega arith)
      (λ n ih b. omega (arith, bit_or_digit (suc n) b, ih (b / 2)))
