-- ===== src/Sample/ClientTrip.antt =====
-- The 8-bit linear formats through the conversion routines of lib/audio/convutil.c.
use nas.Prelude.{
  ℕ, ◌+◌, ◌*◌, ◌/◌, ◌%◌, ◌^◌, ◌≤◌, ◌<◌, ◌≡◌, refl, ◌⊎◌, inl, inr, Bool, true, some, length, ==-ne,
  arith,
}
use nas.Sample.{Buffer, expand, compress}
use nas.Sample.Loops.{byte}
use nas.Sample.RoundTrip.{expand-compress}
use nas.Sample.Client.{convert_data_to_short, convert_short_to_data}

data_to_short-linear :
    (big : Bool) (format count : ℕ) (m out : Buffer)
    → ((format ≡ 2) × (expand big (λ x. (x * 2 ^ 8 + 2 ^ 15) % 2 ^ 16) count m ≡ some out))
      ⊎ ((format ≡ 3) × (expand big (λ x. x * 2 ^ 8 % 2 ^ 16) count m ≡ some out))
    → convert_data_to_short big format count m ≡ some (out, true)
unfolding convert_data_to_short
data_to_short-linear big format count m out (inl (e, runs)) =
    let one : count / 1 ≡ count = omega arith in rw (e, one, runs) refl
data_to_short-linear big format count m out (inr (e, runs)) =
    let one : count / 1 ≡ count = omega arith in rw (e, one, runs) refl

short_to_data-linear :
    (big : Bool) (format count : ℕ) (m out : Buffer)
    → 0 < count
    → ((format ≡ 2) × (compress big (λ x. (x / 2 ^ 8 + 128) % 2 ^ 8) count 0 m ≡ some out))
      ⊎ ((format ≡ 3) × (compress big (λ x. x / 2 ^ 8 % 2 ^ 8) count 0 m ≡ some out))
    → convert_short_to_data big format (2 * count) m ≡ some (out, true)
unfolding convert_short_to_data
short_to_data-linear big format count m out pos (inl (e, runs)) =
    let half : 2 * count / 2 ≡ count = omega arith in
    rw (e, half, ==-ne {a = count} {b = 0} (omega arith), runs) refl
short_to_data-linear big format count m out pos (inr (e, runs)) =
    let half : 2 * count / 2 ≡ count = omega arith in
    rw (e, half, ==-ne {a = count} {b = 0} (omega arith), runs) refl

-- Samples of the 8-bit linear formats, unsigned and signed, in a buffer with room for 16-bit ones,
-- at least one of them, survive AuConvertDataToShort and AuConvertShortToData, which both return 0.
pub client_round_trip :
    (big : Bool) (format count : ℕ) (m : Buffer)
    → (format ≡ 2) ⊎ (format ≡ 3)
    → 0 < count
    → 2 * count ≤ length m
    → ((k : ℕ) → k < count → byte m k < 256)
    → (mid : Buffer) × (out : Buffer) × (convert_data_to_short big format count m
        ≡ some (mid, true))
      × (convert_short_to_data big format (2 * count) mid ≡ some (out, true))
      × (length out ≡ length m)
      × ((k : ℕ) → k < count → byte out k ≡ byte m k)
client_round_trip big format count m (inl e) some_samples le bytes =
    let (mid, out, grows, shrinks, size, same) =
      expand-compress big (λ x. (x * 2 ^ 8 + 2 ^ 15) % 2 ^ 16) (λ x. (x / 2 ^ 8 + 128) % 2 ^ 8)
        (λ x lt. omega arith) (λ x lt. omega arith) count m le bytes in
    (
      mid,
      out,
      data_to_short-linear big format count m mid (inl (e, grows)),
      short_to_data-linear big format count mid out some_samples (inl (e, shrinks)),
      size,
      same,
    )
client_round_trip big format count m (inr e) some_samples le bytes =
    let (mid, out, grows, shrinks, size, same) =
      expand-compress big (λ x. x * 2 ^ 8 % 2 ^ 16) (λ x. x / 2 ^ 8 % 2 ^ 8) (λ x lt. omega arith)
        (λ x lt. omega arith) count m le bytes in
    (
      mid,
      out,
      data_to_short-linear big format count m mid (inr (e, grows)),
      short_to_data-linear big format count mid out some_samples (inr (e, shrinks)),
      size,
      same,
    )
