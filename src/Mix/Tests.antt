-- ===== src/Mix/Tests.antt =====
-- Runs of the mixer, and the theorems at two frames of two tracks.
use nas.Prelude.{
  ℕ, ◌+◌, ◌-◌, ◌*◌, ◌/◌, ◌%◌, if◌then◌else◌, zero, suc, ◌^◌, ◌<◌, ◌≡◌, refl, List, [], ◌∷◌, length,
  get_or, arith,
}
use nas.Mix.{addend, clamp}
use nas.Mix.Fixed.{
  fixed_point_multiply, fixed_magnitude, signs_differ, negate, lost, fixed_point_multiply-lost,
}

abbrev two_frames : List ℕ
two_frames = 100 ∷ 0xff00 ∷ 0x7fff ∷ 0x8000 ∷ []

two_frames-small : (k : ℕ) → k < length two_frames → get_or two_frames k 0 < 2 ^ 16
two_frames-small zero lt = omega arith
two_frames-small (suc zero) lt = omega arith
two_frames-small (suc (suc zero)) lt = omega arith
two_frames-small (suc (suc (suc zero))) lt = omega arith
two_frames-small (suc (suc (suc (suc k)))) lt = absurd (omega (arith, lt))

-- Half the gain of -256 is -128.
halved : clamp (addend (2 ^ 15) 0 0xff00) ≡ 0xff80
unfolding clamp addend
halved = refl

-- Three quarters of a half are three eighths, and of three quarters are less than nothing.
three_eighths : fixed_point_multiply 0xc000 0x8000 ≡ 0x6000
unfolding fixed_point_multiply
three_eighths = refl

less_than_nothing : fixed_point_multiply 0xc000 0xc000 ≡ 2 ^ 32 - 0x7000
unfolding fixed_point_multiply
less_than_nothing = refl

-- Minus three halves times two.
fixed_point_multiply-lost_example : fixed_point_multiply 0xfffe8000 0x20000 ≡ (
    let size =
      (fixed_magnitude 0xfffe8000 * fixed_magnitude 0x20000 / 2 ^ 16
        + (2 ^ 32 - lost (fixed_magnitude 0xfffe8000) (fixed_magnitude 0x20000)))
      % 2 ^ 32 in
    if signs_differ 0xfffe8000 0x20000 then negate size else size)
fixed_point_multiply-lost_example =
    fixed_point_multiply-lost 0xfffe8000 0x20000 (omega arith) (omega arith)
