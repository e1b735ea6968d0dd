-- ===== src/Stream/Rates.antt =====
-- The rate converters of server/dia/auprocess.c do what the ports rely on, and the frames that
-- rc_x picks.
use nas.Prelude.{
  ℕ, zero, suc, ◌+◌, ◌-◌, ◌*◌, ◌/◌, ◌%◌, ◌^◌, ◌≤◌, ◌<◌, ◌≡◌, inl, inr, ◌∙◌, sym, List, [], ◌∷◌,
  ◌++◌, length, length-append, drop, leb, Bool-cases, arith,
}
use nas.Stream.Rate.{resample, rate_convert}
use nas.Stream.Laws.{
  then_run, IsRate, length-drop, drop-append, drop-append_past, next, resample-enough,
  resample-within, resample-stops, resample-zero, resample-fits, resample-short, rate_convert-below,
  resample-goes_on, rate_convert-fits, rate_convert-short,
}

module _ (n : ℕ) where
  resample-stays :
      (want c : ℕ) (s t : List ℕ)
      → (resample n want c s).used < length s
      → resample n want c (s ++ t) ≡ resample n want c s
  resample-stays zero c s t lt = resample-zero n c (s ++ t) ∙ sym (resample-zero n c s)
  resample-stays (suc want) c [] t lt = absurd (omega (arith, lt))
  resample-stays (suc want) c (x ∷ xs) t lt =
      let q : ℕ = next n c / 2 ^ 16 in
      elim (Bool-cases (leb q (length (x ∷ xs)))) [
        | inl le ↦ ground (
          arith,
          length-append xs t,
          length-drop q (x ∷ xs),
          resample-fits n want c x xs (ground arith),
          resample-fits n want c x (xs ++ t) (ground (arith, length-append xs t)),
          drop-append q (x ∷ xs) t (ground arith),
          resample-stays want (next n c % 2 ^ 16) (drop q (x ∷ xs)) t,
        )
        | inr gt ↦ absurd (ground (arith, resample-short n want c x xs (ground arith)))
      ]

  pub over-fits :
      (want c : ℕ) (t : List ℕ)
      → 2 ^ 16 ≤ c
      → c / 2 ^ 16 ≤ length t
      → let rest = resample n want (c % 2 ^ 16) (drop (c / 2 ^ 16) t) in
        rate_convert n want c t ≡ record rest { used = c / 2 ^ 16 + rest.used }
  unfolding rate_convert
  over-fits want c t h le = ground arith

  pub over-short :
      (want c : ℕ) (t : List ℕ)
      → length t < c / 2 ^ 16
      → rate_convert n want c t ≡ record {
        out = [];
        current = c % 2 ^ 16 + (c / 2 ^ 16 - length t) * 2 ^ 16;
        used = length t;
      }
  over-short want c t h =
      let e : c % 2 ^ 16 + c / 2 ^ 16 * 2 ^ 16 ≡ c = omega arith in
      rw e at (rate_convert-short n want (c % 2 ^ 16) (c / 2 ^ 16) t (omega arith) h)

  over-goes_on :
      (want c : ℕ) (s t : List ℕ)
      → length s < c / 2 ^ 16
      → rate_convert n want c (s ++ t)
        ≡ then_run
            (rate_convert n want c s)
            (rate_convert n want (rate_convert n want c s).current t)
  over-goes_on want c s t h =
      let k : ℕ = c / 2 ^ 16 - length s in
      let r : ℕ = c % 2 ^ 16 in
      elim (Bool-cases (leb k (length t))) [
        | inl e ↦ ground (
          arith,
          length-append s t,
          over-short want c s h,
          over-fits want c (s ++ t) (omega arith) (ground (arith, length-append s t)),
          drop-append_past (c / 2 ^ 16) s t (omega arith),
          rate_convert-fits n want r k t (omega arith) (omega arith) (ground arith),
        )
        | inr e ↦ ground (
          arith,
          length-append s t,
          over-short want c s h,
          over-short want c (s ++ t) (ground (arith, length-append s t)),
          rate_convert-short n want r k t (omega arith) (ground arith),
        )
      ]

  pub rate_convert-IsRate : IsRate (rate_convert n)
  rate_convert-IsRate = record {
    enough = λ want c s. elim (Bool-cases (leb (2 ^ 16) c)) [
      | inl e ↦ elim (Bool-cases (leb (c / 2 ^ 16) (length s))) [
        | inl le ↦ ground (
          arith,
          over-fits want c s (ground arith) (ground arith),
          resample-enough n want (c % 2 ^ 16) (drop (c / 2 ^ 16) s),
        )
        | inr gt ↦ ground (arith, over-short want c s (ground arith))
      ]
      | inr e ↦
          ground (arith, rate_convert-below n want c s (ground arith), resample-enough n want c s)
    ];
    within = λ want c s. elim (Bool-cases (leb (2 ^ 16) c)) [
      | inl e ↦ elim (Bool-cases (leb (c / 2 ^ 16) (length s))) [
        | inl le ↦ ground (
          arith,
          length-drop (c / 2 ^ 16) s,
          over-fits want c s (ground arith) (ground arith),
          resample-within n want (c % 2 ^ 16) (drop (c / 2 ^ 16) s),
        )
        | inr gt ↦ ground (arith, over-short want c s (ground arith))
      ]
      | inr e ↦
          ground (arith, rate_convert-below n want c s (ground arith), resample-within n want c s)
    ];
    stops = λ want c s. elim (Bool-cases (leb (2 ^ 16) c)) [
      | inl e ↦ elim (Bool-cases (leb (c / 2 ^ 16) (length s))) [
        | inl le ↦ ground (
          arith,
          length-drop (c / 2 ^ 16) s,
          over-fits want c s (ground arith) (ground arith),
          resample-stops n want (c % 2 ^ 16) (drop (c / 2 ^ 16) s),
        )
        | inr gt ↦ ground (arith, over-short want c s (ground arith))
      ]
      | inr e ↦
          ground (arith, rate_convert-below n want c s (ground arith), resample-stops n want c s)
    ];
    goes_on = λ want c s t all. elim (Bool-cases (leb (2 ^ 16) c)) [
      | inl e ↦ elim (Bool-cases (leb (c / 2 ^ 16) (length s))) [
        | inl le ↦ ground (
          arith,
          length-append s t,
          length-drop (c / 2 ^ 16) s,
          drop-append (c / 2 ^ 16) s t (ground arith),
          over-fits want c s (ground arith) (ground arith),
          over-fits want c (s ++ t) (ground arith) (ground (arith, length-append s t)),
          resample-goes_on n want (c % 2 ^ 16) (drop (c / 2 ^ 16) s) t (omega arith),
        )
        | inr gt ↦
            ground
              (arith, over-short want c s (ground arith), over-goes_on want c s t (ground arith))
      ]
      | inr e ↦ ground (
        arith,
        rate_convert-below n want c s (ground arith),
        rate_convert-below n want c (s ++ t) (ground arith),
        resample-goes_on n want c s t (ground arith),
      )
    ];
    stays = λ want c s t some. elim (Bool-cases (leb (2 ^ 16) c)) [
      | inl e ↦ elim (Bool-cases (leb (c / 2 ^ 16) (length s))) [
        | inl le ↦ ground (
          arith,
          length-append s t,
          length-drop (c / 2 ^ 16) s,
          drop-append (c / 2 ^ 16) s t (ground arith),
          over-fits want c s (ground arith) (ground arith),
          over-fits want c (s ++ t) (ground arith) (ground (arith, length-append s t)),
          resample-stays want (c % 2 ^ 16) (drop (c / 2 ^ 16) s) t,
        )
        | inr gt ↦ absurd (ground (arith, over-short want c s (ground arith)))
      ]
      | inr e ↦ ground (
        arith,
        rate_convert-below n want c s (ground arith),
        rate_convert-below n want c (s ++ t) (ground arith),
        resample-stays want c s t,
      )
    ];
  }

  -- A run of rc_x that has read all its frames can be taken up later with more frames: together they
  -- give, read and keep in `currentSample` what one run over all the frames does.
  pub rate_convert-goes_on :
      (want c : ℕ) (s t : List ℕ)
      → (rate_convert n want c s).used ≡ length s
      → let a = rate_convert n want c s in
        rate_convert n want c (s ++ t)
        ≡ then_run a (rate_convert n (want - length a.out) a.current t)
  rate_convert-goes_on want c s t all = rate_convert-IsRate.goes_on want c s t all
