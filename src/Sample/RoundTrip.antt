-- ===== src/Sample/RoundTrip.antt =====
-- The converters of server/dia/auprocess.c composed: a format's way to the machine's format and
-- back.
use nas.Prelude.{
  ℕ, zero, suc, ◌+◌, ◌*◌, ◌/◌, ◌%◌, ◌≤◌, ◌<◌, bit_xor, ◌≡◌, refl, inl, inr, subst, Bool-cases, ◌&&◌,
  ap, ap₂, ◌∙◌, Bool, true, false, some, ◌==◌, ==_iff, ltb, length, get_or-ext, every_below,
  every_below_each, arith,
}
use native.Mathlib.Decide.{ℕ_discrete}
use nas.Sample.{Buffer, expand, compress, rework, join16, first_byte, second_byte}
use nas.Sample.Loops.{byte, expand-Expanded, compress-Compressed}
use nas.Sample.Rework.{Reworked, rework-Reworked}
use nas.Sample.Convert.{
  shift_up, shift_down, signed8_to_native, native_to_signed8, unsigned8_to_native,
  native_to_unsigned8, change_sign, neg16_lsb_to_16_msb, neg16_msb_to_16_lsb, byte_swap,
  to_native_format, from_native_format,
}

join16-split :
    (big : Bool) (v : ℕ) → v < 65536 → join16 big (first_byte big v) (second_byte big v) ≡ v
join16-split true v h = omega arith
join16-split false v h = omega arith

module _ (big : Bool) (f g : ℕ → ℕ) (f-lt : (x : ℕ) → x < 256 → f x < 65536)
    (g-f : (x : ℕ) → x < 256 → g (f x) ≡ x) where
  -- Growing and shrinking again gives back every sample.
  pub expand-compress :
      (count : ℕ) (m : Buffer)
      → 2 * count ≤ length m
      → ((k : ℕ) → k < count → byte m k < 256)
      → (mid : Buffer) × (out : Buffer) × (expand big f count m ≡ some mid)
        × (compress big g count 0 mid ≡ some out)
        × (length out ≡ length m)
        × ((k : ℕ) → k < count → byte out k ≡ byte m k)
  expand-compress count m h bytes =
      let (mid, grows, p) = expand-Expanded big f count m h in
      let (out, shrinks, q) = compress-Compressed big g count 0 mid (omega (arith, p.size)) in
      (
        mid,
        out,
        grows,
        shrinks,
        q.size ∙ p.size,
        λ k lt.
            q.samples k (omega arith) (omega arith)
            ∙ ap g (
                ap₂ (join16 big) (p.firsts k lt) (p.seconds k lt)
                ∙ join16-split big (f (byte m k)) (f-lt (byte m k) (bytes k lt)))
            ∙ g-f (byte m k) (bytes k lt),
      )

-- Signed 8-bit samples survive the way to the machine's 16-bit samples and back.
pub signed8_round_trip :
    (big : Bool) (count : ℕ) (m : Buffer)
    → 2 * count ≤ length m
    → ((k : ℕ) → k < count → byte m k < 256)
    → (mid : Buffer) × (out : Buffer) × (signed8_to_native big count m ≡ some mid)
      × (native_to_signed8 big count mid ≡ some out)
      × (length out ≡ length m)
      × ((k : ℕ) → k < count → byte out k ≡ byte m k)
unfolding signed8_to_native native_to_signed8
signed8_round_trip big count m =
    expand-compress big shift_up shift_down (λ x lt. omega arith) (λ x lt. omega arith) count m

flip_table :
    every_below 256 (λ x.
      shift_down (bit_xor (bit_xor (shift_up x) 0x8000) 0x8000) == x
      && ltb (bit_xor (shift_up x) 0x8000) 65536)
    ≡ true
unfolding every_below
flip_table = refl

-- Unsigned 8-bit samples survive the way to the machine's 16-bit samples and back.
pub unsigned8_round_trip :
    (big : Bool) (count : ℕ) (m : Buffer)
    → 2 * count ≤ length m
    → ((k : ℕ) → k < count → byte m k < 256)
    → (mid : Buffer) × (out : Buffer) × (unsigned8_to_native big count m ≡ some mid)
      × (native_to_unsigned8 big count mid ≡ some out)
      × (length out ≡ length m)
      × ((k : ℕ) → k < count → byte out k ≡ byte m k)
unfolding unsigned8_to_native native_to_unsigned8
unsigned8_round_trip big count m =
    expand-compress big (λ x. bit_xor (shift_up x) 0x8000) (λ x. shift_down (bit_xor x 0x8000))
      (λ x lt. ground (arith, every_below_each _ 256 flip_table x lt))
      (λ x lt. ground (arith, every_below_each _ 256 flip_table x lt)) count m

module _ (g h : ℕ → ℕ → ℕ × ℕ)
    (back : (a b : ℕ) → a < 256 → b < 256 → h (g a b).0 (g a b).1 ≡ (a, b)) where
  same-even :
      (count : ℕ) (m mid out : Buffer)
      → ((j : ℕ) → byte m j < 256)
      → Reworked g 0 count m mid
      → Reworked h 0 count mid out
      → (k : ℕ) → k < count
      → (byte out (2 * k) ≡ byte m (2 * k)) × (byte out (2 * k + 1) ≡ byte m (2 * k + 1))
  same-even count m mid out bytes p q k lt =
      let e =
        ap₂ h (p.firsts k (omega arith) (omega arith)) (p.seconds k (omega arith) (omega arith))
        ∙ back (byte m (2 * k)) (byte m (2 * k + 1)) (bytes (2 * k)) (bytes (2 * k + 1)) in
      (
        q.firsts k (omega arith) (omega arith) ∙ ap (λ v. v.0) e,
        q.seconds k (omega arith) (omega arith) ∙ ap (λ v. v.1) e,
      )

  same-byte :
      (count : ℕ) (m mid out : Buffer)
      → ((j : ℕ) → byte m j < 256)
      → Reworked g 0 count m mid
      → Reworked h 0 count mid out
      → (j : ℕ) → byte out j ≡ byte m j
  same-byte count m mid out bytes p q j = elim (Bool-cases (ltb j (2 * count))) [
    | inl e ↦ elim (ℕ_discrete (j % 2) 0) [
      | yes even ↦
          subst (λ t. byte out t ≡ byte m t) (omega (arith, even))
            (same-even count m mid out bytes p q (j / 2) (ground arith)).0
      | no odd ↦
          subst (λ t. byte out t ≡ byte m t) (omega (arith, odd))
            (same-even count m mid out bytes p q (j / 2) (ground arith)).1
    ]
    | inr e ↦ q.above j (ground arith) ∙ p.above j (ground arith)
  ]

  -- A change of 16-bit samples, and the change that undoes it, leave the buffer as it was.
  pub rework-rework :
      (count : ℕ) (m : Buffer)
      → 2 * count ≤ length m
      → ((j : ℕ) → byte m j < 256)
      → (mid : Buffer) × (rework g count 0 m ≡ some mid) × (rework h count 0 mid ≡ some m)
  rework-rework count m le bytes =
      let (mid, runs, p) = rework-Reworked g count 0 m (omega arith) in
      let (out, returns, q) = rework-Reworked h count 0 mid (omega (arith, p.size)) in
      (
        mid,
        runs,
        returns
            ∙ ap some (
                get_or-ext out m 0 (q.size ∙ p.size)
                  (λ j lt. same-byte count m mid out bytes p q j)),
      )

flip_byte : every_below 256 (λ x. bit_xor (bit_xor x 0x80) 0x80 == x) ≡ true
unfolding every_below
flip_byte = refl

flip-flip : (x : ℕ) → x < 256 → bit_xor (bit_xor x 0x80) 0x80 ≡ x
flip-flip x h = (==_iff _ x).0 (every_below_each _ 256 flip_byte x h)

-- Each of the four linear 16-bit formats survives the way to the machine's format and back.
pub linear16_round_trip :
    (big : Bool) (format count : ℕ) (m : Buffer)
    → 4 ≤ format
    → format ≤ 7
    → 2 * count ≤ length m
    → ((j : ℕ) → byte m j < 256)
    → (mid : Buffer) × (to_native_format big format count m ≡ some mid)
      × (from_native_format big format count mid ≡ some m)
unfolding to_native_format from_native_format change_sign neg16_lsb_to_16_msb neg16_msb_to_16_lsb
    byte_swap
linear16_round_trip true (suc (suc (suc (suc zero)))) count m low high le bytes = (m, refl, refl)
linear16_round_trip false (suc (suc (suc (suc zero)))) count m low high le bytes =
    rework-rework _ _ (λ a b p q. refl) count m le bytes
linear16_round_trip true (suc (suc (suc (suc (suc zero))))) count m low high le bytes =
    rework-rework _ _ (λ a b p q. rw (flip-flip a p) refl) count m le bytes
linear16_round_trip false (suc (suc (suc (suc (suc zero))))) count m low high le bytes =
    rework-rework _ _ (λ a b p q. rw (flip-flip a p) refl) count m le bytes
linear16_round_trip true (suc (suc (suc (suc (suc (suc zero)))))) count m low high le bytes =
    rework-rework _ _ (λ a b p q. refl) count m le bytes
linear16_round_trip false (suc (suc (suc (suc (suc (suc zero)))))) count m low high le bytes =
    (m, refl, refl)
linear16_round_trip true (suc (suc (suc (suc (suc (suc (suc zero))))))) count m low high le bytes =
    rework-rework _ _ (λ a b p q. rw (flip-flip b q) refl) count m le bytes
linear16_round_trip false (suc (suc (suc (suc (suc (suc (suc zero))))))) count m low high le bytes =
    rework-rework _ _ (λ a b p q. rw (flip-flip b q) refl) count m le bytes
linear16_round_trip big (suc (suc (suc (suc (suc (suc (suc (suc format)))))))) count m low high le
      bytes =
    absurd (omega arith)
linear16_round_trip big zero count m low high le bytes = absurd (omega arith)
linear16_round_trip big (suc zero) count m low high le bytes = absurd (omega arith)
linear16_round_trip big (suc (suc zero)) count m low high le bytes = absurd (omega arith)
linear16_round_trip big (suc (suc (suc zero))) count m low high le bytes = absurd (omega arith)
