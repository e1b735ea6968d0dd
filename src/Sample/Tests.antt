-- ===== src/Sample/Tests.antt =====
-- Runs of the sample converters, and the theorems at a buffer of two samples.
use nas.Prelude.{ℕ, zero, suc, ◌*◌, ◌<◌, ◌≡◌, refl, true, false, some, [], ◌∷◌, length, arith}
use nas.Sample.{Buffer, expand}
use nas.Sample.Ulaw.{ulaw_to_linear, linear_to_ulaw}
use nas.Sample.Convert.{to_native_format, from_native_format}
use nas.Sample.Loops.{byte, Expanded, expand-Expanded}
use nas.Sample.RoundTrip.{linear16_round_trip}
use nas.Prelude.{inl}
use nas.Sample.Client.{convert_data_to_short, convert_short_to_data, words_down}
use nas.Sample.ClientTrip.{client_round_trip}
use nas.Sample.Encode.{ulaw_round_trip}

abbrev two_samples : Buffer
two_samples = 0xff ∷ 0x12 ∷ 0x34 ∷ 0x80 ∷ []

two_samples-bytes : (j : ℕ) → byte two_samples j < 256
two_samples-bytes zero = omega arith
two_samples-bytes (suc zero) = omega arith
two_samples-bytes (suc (suc zero)) = omega arith
two_samples-bytes (suc (suc (suc zero))) = omega arith
two_samples-bytes (suc (suc (suc (suc j)))) = omega arith

grows : expand false (λ x. x * 256) 2 two_samples ≡ some (0 ∷ 0xff ∷ 0 ∷ 0x12 ∷ [])
unfolding expand
grows = refl

expand-Expanded_example :
    (out : Buffer) × (expand false ulaw_to_linear 2 two_samples ≡ some out)
    × Expanded false ulaw_to_linear 2 two_samples out
expand-Expanded_example = expand-Expanded false ulaw_to_linear 2 two_samples (omega arith)

linear16_round_trip_example :
    (mid : Buffer) × (to_native_format false 5 2 two_samples ≡ some mid)
    × (from_native_format false 5 2 mid ≡ some two_samples)
linear16_round_trip_example =
    linear16_round_trip false 5 2 two_samples (omega arith) (omega arith) (omega arith)
      two_samples-bytes

ulaw_round_trip_example : linear_to_ulaw (ulaw_to_linear 0x12) ≡ 0x12
ulaw_round_trip_example = ulaw_round_trip 0x12 (omega arith) (omega arith)

swaps : convert_data_to_short false 4 4 two_samples ≡ some (0x12 ∷ 0xff ∷ 0x80 ∷ 0x34 ∷ [], true)
unfolding convert_data_to_short words_down
swaps = refl

client_round_trip_example :
    (mid : Buffer) × (out : Buffer) × (convert_data_to_short false 2 2 two_samples
      ≡ some (mid, true))
    × (convert_short_to_data false 2 (2 * 2) mid ≡ some (out, true))
    × (length out ≡ 4)
    × ((k : ℕ) → k < 2 → byte out k ≡ byte two_samples k)
client_round_trip_example =
    client_round_trip false 2 2 two_samples (inl refl) (omega arith) (omega arith)
      (λ k lt. two_samples-bytes k)
