-- ===== src/Stream/Mask.antt =====
-- The mask of readClient in server/dia/auprocess.c keeps whole frames of 2 ^ k bytes.
use Prim.Native.Nat.{digits, bit_and-bitwise}
use nas.Prelude.{
  ℕ, zero, suc, ◌+◌, ◌-◌, ◌*◌, ◌/◌, ◌^◌, min, bit_and, ◌<◌, ◌≤◌, ◌≡◌, refl, sym, ap, subst, ◌∙◌,
  some, arith,
}
use native.Mathlib.Nat.{
  suc-mul, pow-suc, one-le-pow, mul-div_cancel, mul-mod_left, div-lt_iff_lt-mul,
}
use nas.Stream.Port.{masked_size}

abbrev meet : ℕ → ℕ → ℕ → ℕ
meet fuel a b = digits (λ d. 0) min fuel a b

double : (q k : ℕ) → q * 2 ^ suc k ≡ 2 * (q * 2 ^ k)
double q k = omega (arith, ap (λ (t : ℕ). q * t) (pow-suc 2 k))

meet-low : (fuel j a : ℕ) → a ≤ fuel → a < 2 ^ j → meet fuel a (2 ^ j - 1) ≡ a
meet-low zero j zero le h = refl
meet-low zero j (suc a) le h = absurd (omega (arith, le))
meet-low (suc fuel) j zero le h = refl
meet-low (suc fuel) zero (suc a) le h = absurd (omega (arith, h))
meet-low (suc fuel) (suc j) (suc a) le h = ground (
  arith,
  pow-suc 2 j,
  one-le-pow j 2,
  meet-low fuel j (suc a / 2) (omega arith) (omega (arith, h, pow-suc 2 j)),
)

meet-high :
    (fuel k j q a : ℕ)
    → a ≤ fuel
    → q < 2 ^ j
    → a ≡ q * 2 ^ k
    → meet fuel a ((2 ^ j - 1) * 2 ^ k) ≡ a
meet-high zero k j q zero le h e = refl
meet-high zero k j q (suc a) le h e = absurd (omega (arith, le))
meet-high (suc fuel) k j q zero le h e = refl
meet-high (suc fuel) zero j q (suc a) le h e =
    let one : (2 ^ j - 1) * 2 ^ 0 ≡ 2 ^ j - 1 = omega arith in
    ap (λ t. meet (suc fuel) (suc a) t) one ∙ meet-low (suc fuel) j (suc a) le (omega (arith, h, e))
meet-high (suc fuel) (suc k) j q (suc a) le h e = ground (
  arith,
  double q k,
  double (2 ^ j - 1) k,
  e,
  meet-high fuel k j q (suc a / 2) (omega arith) h (omega (arith, double q k, e)),
)

pow_sum : (j k : ℕ) → 2 ^ (j + k) ≡ 2 ^ j * 2 ^ k
pow_sum j zero = let none : j + 0 ≡ j = omega arith in ap (λ t. 2 ^ t) none ∙ omega arith
pow_sum j (suc k) =
    let next : j + suc k ≡ suc (j + k) = omega arith in
    ap (λ t. 2 ^ t) next ∙ omega (arith, pow-suc 2 (j + k), pow_sum j k, double (2 ^ j) k)

less_one : (m x : ℕ) → m * x - x ≡ (m - 1) * x
less_one zero x = omega arith
less_one (suc m) x =
    let more : suc m * x ≡ m * x + x = suc-mul m x in
    let one : suc m - 1 ≡ m = omega arith in omega (arith, more, ap (λ t. t * x) one)

-- The mask leaves every number of whole frames.
bit_and-high :
    (k j q : ℕ) → j + k ≡ 32 → q < 2 ^ j → bit_and (q * 2 ^ k) (2 ^ 32 - 2 ^ k) ≡ q * 2 ^ k
bit_and-high k j q sum h =
    let whole : 2 ^ 32 - 2 ^ k ≡ (2 ^ j - 1) * 2 ^ k =
      ap (λ t. t - 2 ^ k) (ap (λ t. 2 ^ t) (sym sum) ∙ pow_sum j k) ∙ less_one (2 ^ j) (2 ^ k) in
    ap (bit_and (q * 2 ^ k)) whole
    ∙ bit_and-bitwise (q * 2 ^ k) ((2 ^ j - 1) * 2 ^ k)
    ∙ meet-high (q * 2 ^ k) k j q (q * 2 ^ k) (omega arith) h refl

pub masked_size_lem : (k n : ℕ) → k ≤ 32 → n * 2 ^ k < 2 ^ 32 → masked_size (2 ^ k) n ≡ some n
unfolding masked_size
masked_size_lem k n le small =
    let sum : 32 - k + k ≡ 32 = omega (arith, le) in
    let pos : 0 < 2 ^ k = omega (arith, one-le-pow k 2) in
    let all : n * 2 ^ k < 2 ^ (32 - k) * 2 ^ k =
      subst (λ t. n * 2 ^ k < t) (ap (λ t. 2 ^ t) (sym sum) ∙ pow_sum (32 - k) k) small in
    let low : n < 2 ^ (32 - k) =
      subst (λ t. t < 2 ^ (32 - k)) (mul-div_cancel n pos) ((div-lt_iff_lt-mul pos).1 all) in
    ground (arith, bit_and-high k (32 - k) n sum low, mul-mod_left n (2 ^ k), mul-div_cancel n pos)
