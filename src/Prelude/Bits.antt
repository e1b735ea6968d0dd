-- ===== src/Prelude/Bits.antt =====
-- Laws of the native bit operations at variables: the lowest digit, a mask of low bits, one bit.
use Prim.Native.Nat.{
  ℕ, zero, suc, ◌+◌, ◌-◌, ◌*◌, ◌/◌, ◌%◌, ◌^◌, ◌≤◌, ◌<◌, min, bit_and, digits, bit_and-bitwise,
}
use mathlib.Core.Path.{◌≡◌, refl, ap, ◌∙◌}
use native.Mathlib.Nat.{pow-suc, one-le-pow}
use native.Mathlib.Omega.{arith}

double-pow : (q k : ℕ) → q * 2 ^ suc k ≡ 2 * (q * 2 ^ k)
double-pow q k = omega (arith, ap (λ (t : ℕ). q * t) (pow-suc 2 k))

-- A conjunction by its digits, where the fuel is at least the first number.
abbrev meet : ℕ → ℕ → ℕ → ℕ
meet fuel a b = digits (λ d. 0) min fuel a b

meet-mask :
    (fuel k q r a : ℕ) → a ≤ fuel → r < 2 ^ k → a ≡ q * 2 ^ k + r → meet fuel a (2 ^ k - 1) ≡ r
meet-mask zero k q r zero le h e = omega (arith, e)
meet-mask zero k q r (suc a) le h e = absurd (omega (arith, le))
meet-mask (suc fuel) k q r zero le h e = omega (arith, e)
meet-mask (suc fuel) zero q r (suc a) le h e =
    omega (
      arith,
      meet-mask fuel zero (suc a / 2) 0 (suc a / 2) (omega arith) (omega arith) (omega arith),
    )
meet-mask (suc fuel) (suc k) q r (suc a) le h e = ground (
  arith,
  double-pow q k,
  pow-suc 2 k,
  one-le-pow k 2,
  meet-mask fuel k q (r / 2) (suc a / 2) (omega arith) (omega (arith, pow-suc 2 k))
      (omega (arith, double-pow q k, e)),
)

no_bit : (k q r : ℕ) → 0 ≡ q * 2 ^ k + r → 0 ≡ q % 2 * 2 ^ k
no_bit k zero r e = omega arith
no_bit k (suc q) r e = absurd (omega (arith, one-le-pow k 2, e))

meet-bit :
    (fuel k q r a : ℕ)
    → a ≤ fuel
    → r < 2 ^ k
    → a ≡ q * 2 ^ k + r
    → meet fuel a (2 ^ k) ≡ q % 2 * 2 ^ k
meet-bit zero k q r zero le h e = no_bit k q r e
meet-bit zero k q r (suc a) le h e = absurd (omega (arith, le))
meet-bit (suc fuel) k q r zero le h e = no_bit k q r e
meet-bit (suc fuel) zero q r (suc a) le h e =
    omega (
      arith,
      meet-mask fuel zero (suc a / 2) 0 (suc a / 2) (omega arith) (omega arith) (omega arith),
    )
meet-bit (suc fuel) (suc k) q r (suc a) le h e = ground (
  arith,
  double-pow q k,
  double-pow (q % 2) k,
  pow-suc 2 k,
  one-le-pow k 2,
  meet-bit fuel k q (r / 2) (suc a / 2) (omega arith) (omega (arith, pow-suc 2 k))
      (omega (arith, double-pow q k, e)),
)

and_mask_parts : (k q r : ℕ) → r < 2 ^ k → bit_and (q * 2 ^ k + r) (2 ^ k - 1) ≡ r
and_mask_parts k q r h =
    bit_and-bitwise (q * 2 ^ k + r) (2 ^ k - 1)
    ∙ meet-mask (q * 2 ^ k + r) k q r (q * 2 ^ k + r) (omega arith) h refl

and_bit_parts : (k q r : ℕ) → r < 2 ^ k → bit_and (q * 2 ^ k + r) (2 ^ k) ≡ q % 2 * 2 ^ k
and_bit_parts k q r h =
    bit_and-bitwise (q * 2 ^ k + r) (2 ^ k)
    ∙ meet-bit (q * 2 ^ k + r) k q r (q * 2 ^ k + r) (omega arith) h refl

-- A mask of `k` low ones is the remainder by `2 ^ k`.
pub bit_and-mask : (k a : ℕ) → bit_and a (2 ^ k - 1) ≡ a % 2 ^ k
bit_and-mask k a = ground (arith, one-le-pow k 2, and_mask_parts k (a / 2 ^ k) (a % 2 ^ k))

-- A conjunction with the single bit `k`.
pub bit_and-bit : (k a : ℕ) → bit_and a (2 ^ k) ≡ a / 2 ^ k % 2 * 2 ^ k
bit_and-bit k a = ground (arith, one-le-pow k 2, and_bit_parts k (a / 2 ^ k) (a % 2 ^ k))

-- The bit `k` of a number below `2 ^ k` is clear, and of one from there up to `2 ^ (k + 1)` it is set.
pub bit_and-bit_low : (k a : ℕ) → a < 2 ^ k → bit_and a (2 ^ k) ≡ 0
bit_and-bit_low k a h =
    let e : 0 * 2 ^ k + a ≡ a = omega arith in
    let none : 0 % 2 * 2 ^ k ≡ 0 = omega arith in (rw e at (and_bit_parts k 0 a h)) ∙ none

pub bit_and-bit_high : (k a : ℕ) → 2 ^ k ≤ a → a < 2 ^ suc k → bit_and a (2 ^ k) ≡ 2 ^ k
bit_and-bit_high k a lo hi =
    let e : 1 * 2 ^ k + (a - 2 ^ k) ≡ a = omega arith in
    let one : 1 % 2 * 2 ^ k ≡ 2 ^ k = omega arith in
    (rw e at (and_bit_parts k 1 (a - 2 ^ k) (omega (arith, pow-suc 2 k)))) ∙ one

meet_self : (fuel a : ℕ) → a ≤ fuel → meet fuel a a ≡ a
meet_self zero zero le = refl
meet_self zero (suc a) le = absurd (omega (arith, le))
meet_self (suc fuel) zero le = refl
meet_self (suc fuel) (suc a) le = omega (arith, meet_self fuel (suc a / 2) (omega arith))

pub bit_and_self : (a : ℕ) → bit_and a a ≡ a
bit_and_self a = bit_and-bitwise a a ∙ meet_self a a (omega arith)
