-- ===== src/Mix/Gain.antt =====
-- What the gain of server/dia/auprocess.c does to samples.
use nas.Prelude.{
  ℕ, zero, suc, ◌+◌, ◌-◌, ◌*◌, ◌%◌, ◌^◌, ◌<◌, ◌≡◌, refl, ap, ap₂, List, [], ◌∷◌, length, replicate,
  get_or, min, leb, if◌then◌else◌, arith,
}
use nas.Mix.{
  addend, integral_addend, fractional_addend, shift_right_16, clamp, range_check, mix_direct,
  accumulate_simple_mono, sign_extend, Input, accumulate_output, accumulate_simple_stereo,
}

-- At a gain of one, a sample that is added to silence survives the range check.
clamp-unity : (v : ℕ) → v < 2 ^ 16 → clamp ((0 + addend (2 ^ 16) 0 v) % 2 ^ 32) ≡ v
unfolding clamp addend
clamp-unity v lt = ground arith

-- An input whose tracks map to those of the output, with no constant added.
abbrev pub direct : ℕ → Input
direct multiply = record { multiply_constant = multiply; add_constant = 0; tracks = [] }

mix_direct-cong :
    (f g : ℕ → ℕ)
    → ((v : ℕ) → f v ≡ g v)
    → (samples : ℕ) (s out : List ℕ) → mix_direct f samples s out ≡ mix_direct g samples s out
unfolding mix_direct
mix_direct-cong f g same zero s out = refl
mix_direct-cong f g same (suc left) [] out = refl
mix_direct-cong f g same (suc left) (v ∷ s) [] = refl
mix_direct-cong f g same (suc left) (v ∷ s) (o ∷ out) =
    ap₂ ◌∷◌ (ap (λ t. (o + t) % 2 ^ 32) (same v)) (mix_direct-cong f g same left s out)

-- The range check gives the nearest 16-bit number: of a number that is not negative the smaller of
-- it and 32767, and of a negative one the one whose size is the smaller of its size and 32768.
pub clamp_lem :
    (p : ℕ)
    → p < 2 ^ 32
    → clamp p ≡ (if leb (2 ^ 31) p then 2 ^ 16 - min (2 ^ 32 - p) (2 ^ 15) else min p (2 ^ 15 - 1))
unfolding clamp
clamp_lem p lt = ground arith

-- The routines for flows with one mono or stereo input and no added constant do what the general
-- one does for an input whose tracks map to the output's.
pub accumulate_simple_lem :
    (multiply samples : ℕ) (s out : List ℕ)
    → (accumulate_simple_mono multiply samples s out
        ≡ accumulate_output (direct multiply) 1 1 samples s out)
      × (accumulate_simple_stereo multiply samples s out
          ≡ accumulate_output (direct multiply) 2 2 samples s out)
unfolding accumulate_simple_mono accumulate_simple_stereo accumulate_output addend
accumulate_simple_lem multiply samples s out =
    let same : (v : ℕ)
        → (sign_extend v * integral_addend multiply
              + shift_right_16 (sign_extend v * fractional_addend multiply % 2 ^ 32))
            % 2 ^ 32
          ≡ addend multiply 0 v =
      λ v. ground arith in
    let e : samples * 1 ≡ samples = omega arith in
    (
      rw e (mix_direct-cong _ (addend multiply 0) same samples s out),
      mix_direct-cong _ (addend multiply 0) same (samples * 2) s out,
    )

-- A 16-bit input at a gain of one, mixed into silence, is unchanged after the range check.
pub accumulate_output-unity :
    (samples tracks : ℕ) (s : List ℕ)
    → length s ≡ samples * tracks
    → ((k : ℕ) → k < length s → get_or s k 0 < 2 ^ 16)
    → range_check (
        accumulate_output
          (direct (2 ^ 16))
          tracks
          tracks
          samples
          s
          (replicate (samples * tracks) 0))
      ≡ s
unfolding accumulate_output mix_direct
accumulate_output-unity samples tracks s e small = unity s (samples * tracks) e small
  where
    unity :
        (s : List ℕ) (n : ℕ)
        → length s ≡ n
        → ((k : ℕ) → k < length s → get_or s k 0 < 2 ^ 16)
        → range_check (mix_direct (addend (2 ^ 16) 0) n s (replicate n 0)) ≡ s
    unity [] zero e small = refl
    unity [] (suc n) e small = absurd (omega (arith, e))
    unity (v ∷ s) zero e small = absurd (omega (arith, e))
    unity (v ∷ s) (suc n) e small =
        ap₂ ◌∷◌ (clamp-unity v (small 0 (omega arith)))
          (unity s n (omega (arith, e)) (λ k lt. small (suc k) (omega arith)))
