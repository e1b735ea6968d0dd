-- ===== src/Setup/Steps.antt =====
-- The steps of rate conversion that doSetup of server/dia/auprocess.c sets.
use Prim.Native.Nat.{digits, bit_or-bitwise}
use nas.Prelude.{
  ℕ, zero, suc, ◌+◌, ◌-◌, ◌*◌, ◌/◌, ◌%◌, ◌^◌, max, bit_or, ◌<◌, ◌≤◌, ◌≡◌, refl, sym, ap, ◌∙◌, Bool,
  true, false, ◌&&◌, not, Bool-cases, some, ◌==◌, inl, inr, if◌then◌else◌, arith,
}
use native.Mathlib.Nat.{
  pow-suc, add-mul-div_right, mod-add-div, div-mul-le_self, mod-lt, div-lt_iff_lt-mul, div-le_self,
}
use nas.Compile.Leaves.{◌>>=◌}
use nas.Setup.{
  Config, Element, RateConverter, rc_null, is_monitor, is_wave_form, own_rate, element_rate, divide,
  wave_step, find_next_sample, rate_converter, set_up_formats, do_setup,
}

abbrev join : ℕ → ℕ → ℕ → ℕ
join fuel a b = digits (λ d. d) max fuel a b

join-disjoint : (fuel k q r a : ℕ) → a ≤ fuel → r < 2 ^ k → a ≡ q * 2 ^ k → join fuel a r ≡ a + r
join-disjoint zero k q r zero le h e = omega arith
join-disjoint zero k q r (suc a) le h e = absurd (omega (arith, le))
join-disjoint (suc fuel) k q r zero le h e = omega arith
join-disjoint (suc fuel) zero q r (suc a) le h e = omega (
  arith,
  h,
  join-disjoint fuel zero (suc a / 2) (r / 2) (suc a / 2) (omega arith) (omega (arith, h))
      (omega arith),
)
join-disjoint (suc fuel) (suc k) q r (suc a) le h e =
    let double : q * 2 ^ suc k ≡ 2 * (q * 2 ^ k) =
      omega (arith, ap (λ (t : ℕ). q * t) (pow-suc 2 k)) in
    ground (
      arith,
      double,
      e,
      join-disjoint fuel k q (r / 2) (suc a / 2) (omega arith) (omega (arith, h, pow-suc 2 k))
          (omega (arith, double, e)),
    )

bit_or-disjoint : (q r : ℕ) → r < 2 ^ 16 → bit_or (q * 2 ^ 16) r ≡ q * 2 ^ 16 + r
bit_or-disjoint q r h =
    (λ i. bit_or-bitwise (q * 2 ^ 16) r i)
    ∙ join-disjoint (q * 2 ^ 16) 16 q r (q * 2 ^ 16) (omega arith) h refl

-- The whole part and the fraction of a quotient.
quotient_parts : (f r : ℕ) → 0 < r → (f % r) * 2 ^ 16 / r + f / r * 2 ^ 16 ≡ f * 2 ^ 16 / r
quotient_parts f r pos =
    let whole : f % r * 2 ^ 16 + f / r * 2 ^ 16 * r ≡ f * 2 ^ 16 =
      omega (arith, ap (λ (t : ℕ). t * 2 ^ 16) (mod-add-div f r)) in
    sym (add-mul-div_right (f % r * 2 ^ 16) (f / r * 2 ^ 16) pos) ∙ ap (λ (t : ℕ). t / r) whole

wave_step_lem : (f r : ℕ) → 0 < r → r < 2 ^ 16 → f < 2 ^ 16 → wave_step f r ≡ some (f * 2 ^ 16 / r)
unfolding wave_step
wave_step_lem f r pos small low =
    let left : (f + 2 ^ 32 - f / r * r) % 2 ^ 32 ≡ f % r =
      omega (arith, div-mul-le_self f r, mod-add-div f r, low) in
    let below : f % r < r = mod-lt f pos in
    let fits : f % r * 2 ^ 16 % 2 ^ 32 ≡ f % r * 2 ^ 16 = omega (arith, below, small) in
    let part : f % r * 2 ^ 16 / r < 2 ^ 16 = (div-lt_iff_lt-mul pos).1 (omega (arith, below)) in
    let high : f / r * 2 ^ 16 % 2 ^ 32 ≡ f / r * 2 ^ 16 = omega (arith, div-le_self f r, low) in
    let sum : bit_or (f / r * 2 ^ 16) (f % r * 2 ^ 16 / r) ≡ f * 2 ^ 16 / r =
      bit_or-disjoint (f / r) (f % r * 2 ^ 16 / r) part ∙ omega (arith, quotient_parts f r pos) in
    ground (arith, pos, left, fits, high, sum)

abbrev pub is_null : RateConverter → Bool
is_null rc_null = true
is_null _ = false

converter-null :
    (config : Config) (rate : ℕ) (e : Element)
    → is_null (rate_converter config rate e)
      ≡ (not (is_monitor e.kind) && element_rate config e == rate)
unfolding rate_converter
converter-null config rate e = ground arith

same_rate : (config : Config) (e : Element) → 0 < own_rate e → element_rate config e ≡ own_rate e
same_rate config e own = ground (arith, own)

divide_lem : (a b : ℕ) → 0 < b → divide a b ≡ some (a / b)
divide_lem a b pos = ground (arith, pos)

find_next_sample_lem :
    (config : Config) (is_input : Bool) (rate : ℕ) (e : Element)
    → 0 < rate
    → rate < 2 ^ 16
    → 0 < own_rate e
    → own_rate e < 2 ^ 16
    → (is_wave_form e.kind && not is_input) ≡ false
    → find_next_sample config is_input rate e
      ≡ some (if is_input then own_rate e * 2 ^ 16 / rate else rate * 2 ^ 16 / own_rate e)
unfolding find_next_sample
find_next_sample_lem config true rate e pos small own low input =
    elim (Bool-cases (is_wave_form e.kind)) [
      | inl q ↦
          ap
            (λ w.
              if w
              then wave_step (own_rate e) rate
              else divide (element_rate config e * 2 ^ 16 % 2 ^ 32) rate)
            q
          ∙ wave_step_lem (own_rate e) rate pos small low
      | inr q ↦
          (let fits : own_rate e * 2 ^ 16 % 2 ^ 32 ≡ own_rate e * 2 ^ 16 = omega (arith, low) in
            ap
              (λ w.
                if w
                then wave_step (own_rate e) rate
                else divide (element_rate config e * 2 ^ 16 % 2 ^ 32) rate)
              q
            ∙ ap (λ t. divide (t * 2 ^ 16 % 2 ^ 32) rate) (same_rate config e own)
            ∙ ap (λ t. divide t rate) fits
            ∙ divide_lem (own_rate e * 2 ^ 16) rate pos)
    ]
find_next_sample_lem config false rate e pos small own low input =
    elim (Bool-cases (is_wave_form e.kind)) [
      | inl q ↦ absurd (ground (arith, q, input))
      | inr q ↦
          (let fits : rate * 2 ^ 16 % 2 ^ 32 ≡ rate * 2 ^ 16 = omega (arith, small) in
            ap
              (λ w.
                if w
                then wave_step (own_rate e) rate
                else divide (rate * 2 ^ 16 % 2 ^ 32) (element_rate config e))
              q
            ∙ ap (λ t. divide (rate * 2 ^ 16 % 2 ^ 32) t) (same_rate config e own)
            ∙ ap (λ t. divide t (own_rate e)) fits
            ∙ divide_lem (rate * 2 ^ 16) (own_rate e) own)
    ]

-- doSetup of an element whose rate is not 0, at a rate of the flow that is not 0, both of at most 16
-- bits, and that is an input if it is a wave form: the step, in units of 2 ^ -16, is the rate of the
-- element over that of the flow for an input, and the reverse for an output, rounded down; and samples
-- are copied without conversion exactly where the rates are the same and the element is no monitor.
pub do_setup_lem :
    (config : Config) (is_input : Bool) (rate : ℕ) (e : Element)
    → 0 < rate
    → rate < 2 ^ 16
    → 0 < own_rate e
    → own_rate e < 2 ^ 16
    → (is_wave_form e.kind && not is_input) ≡ false
    → (e' : Element) × (rc : RateConverter) × (do_setup config is_input rate e ≡ some (e', rc))
      × (e'.next_sample
          ≡ (if is_input then own_rate e * 2 ^ 16 / rate else rate * 2 ^ 16 / own_rate e))
      × (is_null rc ≡ (not (is_monitor e.kind) && own_rate e == rate))
unfolding do_setup
do_setup_lem config is_input rate e pos small own low input =
    let n : ℕ = if is_input then own_rate e * 2 ^ 16 / rate else rate * 2 ^ 16 / own_rate e in
    let same : element_rate config e ≡ own_rate e = same_rate config e own in
    (
      record (set_up_formats e) { next_sample = n },
      rate_converter config rate e,
      ap
          (λ o. o >>= λ t.
            some (record (set_up_formats e) { next_sample = t }, rate_converter config rate e))
          (find_next_sample_lem config is_input rate e pos small own low input),
      refl,
      converter-null config rate e ∙ ap (λ t. not (is_monitor e.kind) && t == rate) same,
    )
