-- ===== src/Sample/Encode.antt =====
-- The mu-law encoders of lib/audio/convutil.c and server/dia/auprocess.c against the table they
-- share for decoding.
use nas.Prelude.{
  ℕ, ◌+◌, ◌-◌, ◌^◌, ◌≤◌, ◌<◌, ◌≡◌, refl, ◌≢◌, subst, true, ◌==◌, ◌||◌, ==_iff, ==-ne, leb, leb→le,
  every_below, every_below_each, arith,
}
use nas.Sample.Ulaw.{ulaw_to_linear, native_to_ulaw, linear_to_ulaw}

code_table : every_below 256 (λ x. linear_to_ulaw (ulaw_to_linear x) == x || x == 0x7f) ≡ true
unfolding every_below linear_to_ulaw ulaw_to_linear
code_table = refl

-- A mu-law byte other than 0x7f, the second code of zero, is decoded by the table and encoded by
-- the client library to itself.
pub ulaw_round_trip : (x : ℕ) → x < 256 → x ≢ 0x7f → linear_to_ulaw (ulaw_to_linear x) ≡ x
ulaw_round_trip x h ne = ground (
  arith,
  every_below_each _ 256 code_table x h,
  ==_iff (linear_to_ulaw (ulaw_to_linear x)) x,
  ==-ne ne,
)

-- The server's encoder gives the code that the client's gives to a magnitude up to 32635 to the
-- magnitude that is 132 larger, on both sides of zero.
pub native_to_ulaw-bias :
    (size : ℕ)
    → 0 < size
    → size + 132 < 2 ^ 15
    → (native_to_ulaw (size + 132) ≡ linear_to_ulaw size)
      × (native_to_ulaw (2 ^ 16 - (size + 132)) ≡ linear_to_ulaw (2 ^ 16 - size))
unfolding native_to_ulaw linear_to_ulaw
native_to_ulaw-bias size some lt = (ground arith, ground arith)

loud_table : every_below 132 (λ x. leb (ulaw_to_linear (linear_to_ulaw (x + 32636))) 120) ≡ true
unfolding every_below linear_to_ulaw ulaw_to_linear
loud_table = refl

-- The client's encoder does not clip: the samples from 32636 to the largest, 32767, have codes
-- that are decoded to 120 or less.
pub linear_to_ulaw-loud : (v : ℕ) → 32636 ≤ v → v < 2 ^ 15 → ulaw_to_linear (linear_to_ulaw v) ≤ 120
linear_to_ulaw-loud v low high =
    subst (λ t. ulaw_to_linear (linear_to_ulaw t) ≤ 120) (omega arith)
      (leb→le _ 120 (every_below_each _ 132 loud_table (v - 32636) (omega arith)))
