-- ===== src/Mix.antt =====
-- Mixing the inputs of a flow into an output's mini-buffer, and the output's range check,
-- server/dia/auprocess.c with OUTPUT_RANGE_CHECK. A mini-buffer of inputs is the list of its 16-bit
-- patterns, and that of an output the list of 32-bit patterns; sums and products wrap at 32 bits.
pub mod Gain
pub mod Fixed
mod Tests
use nas.Prelude.{
  ℕ, zero, suc, ◌+◌, ◌-◌, ◌*◌, ◌/◌, ◌%◌, ◌^◌, List, [], ◌∷◌, length, take, drop, leb, ltb, get_or,
  set, map, nonzero, ◌++◌, if◌then◌else◌,
}

-- An AuInt16 as an AuInt32, and the AuInt32 shifted right by 16, with its sign.
abbrev pub sign_extend : ℕ → ℕ
sign_extend v = if leb (2 ^ 15) v then v + (2 ^ 32 - 2 ^ 16) else v

abbrev pub shift_right_16 : ℕ → ℕ
shift_right_16 p = if leb (2 ^ 31) p then p / 2 ^ 16 + (2 ^ 32 - 2 ^ 16) else p / 2 ^ 16

-- The macros of lib/audio/audio.h: the upper half of a 16.16 number with its sign, and the lower.
abbrev pub integral_addend : ℕ → ℕ
integral_addend fp = shift_right_16 fp

abbrev pub fractional_addend : ℕ → ℕ
fractional_addend fp = fp % 2 ^ 16

-- What a sample adds to its output.
unfoldable pub addend : ℕ → ℕ → ℕ → ℕ
addend multiply add v =
    let whole = sign_extend v * integral_addend multiply + integral_addend add in
    let part = (sign_extend v * fractional_addend multiply + fractional_addend add) % 2 ^ 32 in
    (whole + shift_right_16 part) % 2 ^ 32

-- The tracks of one input: `direct` is `numTracks == 0`, where they map to those of the output.
pub record Input : Type 0 where
  pub multiply_constant : ℕ
  pub add_constant : ℕ
  pub tracks : List (ℕ × ℕ)

-- One frame: each pair of an input track and an output track.
abbrev pub mix_tracks : Input → List (ℕ × ℕ) → List ℕ → List ℕ → List ℕ
mix_tracks i [] frame out = out
mix_tracks i ((from, to) ∷ tracks) frame out =
    let v = addend i.multiply_constant i.add_constant (get_or frame from 0) in
    mix_tracks i tracks frame (set out to ((get_or out to 0 + v) % 2 ^ 32))

-- Sample by sample.
unfoldable pub mix_direct : (ℕ → ℕ) → ℕ → List ℕ → List ℕ → List ℕ
mix_direct add zero s out = out
mix_direct add (suc left) (v ∷ s) (o ∷ out) = (o + add v) % 2 ^ 32 ∷ mix_direct add left s out
mix_direct add (suc left) s out = out

unfoldable pub accumulate_simple_mono : ℕ → ℕ → List ℕ → List ℕ → List ℕ
accumulate_simple_mono multiply samples s out =
    mix_direct
      (λ v.
        (sign_extend v * integral_addend multiply
          + shift_right_16 (sign_extend v * fractional_addend multiply % 2 ^ 32))
        % 2 ^ 32)
      samples s out

unfoldable pub accumulate_simple_stereo : ℕ → ℕ → List ℕ → List ℕ → List ℕ
accumulate_simple_stereo multiply samples s out =
    accumulate_simple_mono multiply (samples * 2) s out

-- `frames in` frames of `in_tracks` samples, mixed into frames of `out_tracks`.
unfoldable pub mix_frames : Input → ℕ → ℕ → ℕ → List ℕ → List ℕ → List ℕ
mix_frames i in_tracks out_tracks zero s out = out
mix_frames i in_tracks out_tracks (suc left) s out =
    take out_tracks (mix_tracks i i.tracks s out)
    ++ mix_frames i in_tracks out_tracks left (drop in_tracks s)
        (drop out_tracks (mix_tracks i i.tracks s out))

unfoldable pub accumulate_output : Input → ℕ → ℕ → ℕ → List ℕ → List ℕ → List ℕ
accumulate_output i in_tracks out_tracks samples s out =
    if nonzero (length i.tracks)
    then mix_frames i in_tracks out_tracks samples s out
    else mix_direct (addend i.multiply_constant i.add_constant) (samples * out_tracks) s out

-- The range check of writeOutput: an AuInt32 as the nearest AuInt16.
unfoldable pub clamp : ℕ → ℕ
clamp p =
    if leb (2 ^ 31) p
    then (if ltb p (2 ^ 32 - 2 ^ 15) then 2 ^ 15 else p % 2 ^ 16)
    else if ltb (2 ^ 15 - 1) p
    then 2 ^ 15 - 1
    else p

abbrev pub range_check : List ℕ → List ℕ
range_check out = map clamp out
