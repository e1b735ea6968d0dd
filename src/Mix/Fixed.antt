-- ===== src/Mix/Fixed.antt =====
-- AuFixedPointMultiply of server/dia/auutil.c: 32-bit patterns of 16.16 numbers.
use nas.Prelude.{
  ℕ, ◌+◌, ◌-◌, ◌*◌, ◌/◌, ◌%◌, ◌^◌, ◌<◌, ◌≡◌, sym, ap, ap₂, ◌∙◌, Bool, not, leb, if◌then◌else◌,
  arith,
}
use nas.Mix.{integral_addend, fractional_addend, shift_right_16}

abbrev pub negate : ℕ → ℕ
negate x = (2 ^ 32 - x) % 2 ^ 32

abbrev pub is_negative : ℕ → Bool
is_negative x = leb (2 ^ 31) x

abbrev pub fixed_magnitude : ℕ → ℕ
fixed_magnitude x = if is_negative x then negate x else x

abbrev pub signs_differ : ℕ → ℕ → Bool
signs_differ x y = if is_negative x then not (is_negative y) else is_negative y

-- The sum of the partial products, of numbers that are not negative.
abbrev pub partial_products : ℕ → ℕ → ℕ
partial_products m1 m2 =
    (fractional_addend m2 * integral_addend m1
      + shift_right_16 (fractional_addend m2 * fractional_addend m1 % 2 ^ 32)
      + integral_addend m2 * m1)
    % 2 ^ 32

unfoldable pub fixed_point_multiply : ℕ → ℕ → ℕ
fixed_point_multiply m1 m2 =
    let result = partial_products (fixed_magnitude m1) (fixed_magnitude m2) in
    if signs_differ m1 m2 then negate result else result

products :
    (hi1 lo1 hi2 lo2 : ℕ)
    → (hi1 * 2 ^ 16 + lo1) * (hi2 * 2 ^ 16 + lo2)
      ≡ (lo2 * hi1 + hi2 * (hi1 * 2 ^ 16 + lo1)) * 2 ^ 16 + lo2 * lo1
products hi1 lo1 hi2 lo2 = grind arith

fractions : (x y : ℕ) → x < 2 ^ 16 → y < 2 ^ 16 → x * y < 2 ^ 32
fractions x y p q = grind arith

parts : (n : ℕ) → n / 2 ^ 16 * 2 ^ 16 + n % 2 ^ 16 ≡ n
parts n = omega arith

product-parts :
    (m n : ℕ)
    → m * n ≡ (n % 2 ^ 16 * (m / 2 ^ 16) + n / 2 ^ 16 * m) * 2 ^ 16 + n % 2 ^ 16 * (m % 2 ^ 16)
product-parts m n =
    sym (ap₂ (λ x y. x * y) (parts m) (parts n))
    ∙ products (m / 2 ^ 16) (m % 2 ^ 16) (n / 2 ^ 16) (n % 2 ^ 16)
    ∙ ap (λ x. (n % 2 ^ 16 * (m / 2 ^ 16) + n / 2 ^ 16 * x) * 2 ^ 16 + n % 2 ^ 16 * (m % 2 ^ 16))
        (parts m)

-- A whole one is lost where the product of the fractions has its highest bit.
abbrev pub lost : ℕ → ℕ → ℕ
lost m n = if leb (2 ^ 31) (fractional_addend n * fractional_addend m) then 2 ^ 16 else 0

sum-lost :
    (q p a : ℕ)
    → p < 2 ^ 32
    → a ≡ q * 2 ^ 16 + p
    → (q + shift_right_16 (p % 2 ^ 32)) % 2 ^ 32
      ≡ (a / 2 ^ 16 + (2 ^ 32 - (if leb (2 ^ 31) p then 2 ^ 16 else 0))) % 2 ^ 32
sum-lost q p a lt e = ground arith

partial_products-lost :
    (m n : ℕ)
    → m < 2 ^ 31
    → n < 2 ^ 31
    → partial_products m n ≡ (m * n / 2 ^ 16 + (2 ^ 32 - lost m n)) % 2 ^ 32
partial_products-lost m n small short =
    ap (λ x. x % 2 ^ 32) (reordered m n small short)
    ∙ sum-lost (n % 2 ^ 16 * (m / 2 ^ 16) + n / 2 ^ 16 * m) (n % 2 ^ 16 * (m % 2 ^ 16)) (m * n)
        (fractions (n % 2 ^ 16) (m % 2 ^ 16) (omega arith) (omega arith)) (product-parts m n)
  where
    high : (k : ℕ) → k < 2 ^ 31 → integral_addend k ≡ k / 2 ^ 16
    high k lt = ground arith

    reordered :
        (m n : ℕ)
        → m < 2 ^ 31
        → n < 2 ^ 31
        → fractional_addend n * integral_addend m
            + shift_right_16 (fractional_addend n * fractional_addend m % 2 ^ 32)
            + integral_addend n * m
          ≡ n % 2 ^ 16 * (m / 2 ^ 16)
            + n / 2 ^ 16 * m
            + shift_right_16 (n % 2 ^ 16 * (m % 2 ^ 16) % 2 ^ 32)
    reordered m n small short =
        ap₂
          (λ x y.
            fractional_addend n * x
            + shift_right_16 (fractional_addend n * fractional_addend m % 2 ^ 32)
            + y * m)
          (high m small) (high n short)
        ∙ swapped (n % 2 ^ 16 * (m / 2 ^ 16)) (shift_right_16 (n % 2 ^ 16 * (m % 2 ^ 16) % 2 ^ 32))
            (n / 2 ^ 16 * m)
      where
        swapped : (x y z : ℕ) → x + y + z ≡ x + z + y
        swapped x y z = omega arith

-- AuFixedPointMultiply of two numbers above -2 ^ 31: the magnitude is the product of the magnitudes,
-- rounded down to a multiple of 2 ^ -16, in 32 bits, and the sign is the right one; but where the
-- product of the fractions is at least a half, the magnitude is less by one.
pub fixed_point_multiply-lost :
    (m n : ℕ)
    → fixed_magnitude m < 2 ^ 31
    → fixed_magnitude n < 2 ^ 31
    → fixed_point_multiply m n ≡ (
        let size =
          (fixed_magnitude m * fixed_magnitude n / 2 ^ 16
            + (2 ^ 32 - lost (fixed_magnitude m) (fixed_magnitude n)))
          % 2 ^ 32 in
        if signs_differ m n then negate size else size)
unfolding fixed_point_multiply
fixed_point_multiply-lost m n small short =
    ap (λ size. if signs_differ m n then negate size else size)
      (partial_products-lost (fixed_magnitude m) (fixed_magnitude n) small short)
