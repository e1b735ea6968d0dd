-- ===== src/Stream/Picks.antt =====
-- Which frames the rate converters of server/dia/auprocess.c give.
use nas.Prelude.{
  ℕ, zero, suc, ◌+◌, ◌-◌, ◌*◌, ◌/◌, ◌%◌, ◌^◌, min, ◌≤◌, ◌<◌, ◌≡◌, refl, ap, inl, inr, ◌∙◌, List, [],
  ◌∷◌, ◌++◌, length, length-append, take, drop, leb, get_or, Bool-cases, arith,
}
use nas.Stream.Rate.{resample, rate_convert, rate_null}
use nas.Stream.Laws.{
  IsRate, next, resample-nil, resample-zero, resample-fits, resample-short, rate_convert-below,
}
use nas.Stream.Rates.{over-fits, over-short}

pub get_or-drop : (k : ℕ) (s : List ℕ) (i : ℕ) → get_or (drop k s) i 0 ≡ get_or s (k + i) 0
get_or-drop zero s i = ap (λ j. get_or s j 0) (omega arith)
get_or-drop (suc k) [] i = refl
get_or-drop (suc k) (x ∷ xs) i =
    let e : suc k + i ≡ suc (k + i) = omega arith in rw e (get_or-drop k xs i)

module _ (n : ℕ) (slow : n + 2 ^ 16 ≤ 2 ^ 32) where
  resample-picks :
      (want c k : ℕ) (s : List ℕ)
      → c < 2 ^ 16
      → k < length (resample n want c s).out
      → get_or (resample n want c s).out k 0 ≡ get_or s ((c + k * n) / 2 ^ 16) 0
  resample-picks zero c k s lt h = absurd (ground (arith, resample-zero n c s))
  resample-picks (suc want) c k [] lt h = absurd (ground (arith, resample-nil n (suc want) c))
  resample-picks (suc want) c zero (x ∷ xs) lt h =
      let e : (c + 0 * n) / 2 ^ 16 ≡ 0 = omega arith in
      elim (Bool-cases (leb (next n c / 2 ^ 16) (length (x ∷ xs)))) [
        | inl le ↦ rw (e, resample-fits n want c x xs (ground arith)) refl
        | inr gt ↦ rw (e, resample-short n want c x xs (ground arith)) refl
      ]
  resample-picks (suc want) c (suc k) (x ∷ xs) lt h =
      let q : ℕ = next n c / 2 ^ 16 in
      let r : ℕ = next n c % 2 ^ 16 in
      let e : q + (r + k * n) / 2 ^ 16 ≡ (c + suc k * n) / 2 ^ 16 = omega arith in
      elim (Bool-cases (leb q (length (x ∷ xs)))) [
        | inl le ↦
            let f = resample-fits n want c x xs (ground arith) in
            rw (f, ← e)
              (resample-picks want r k (drop q (x ∷ xs)) (omega arith) (ground (arith, f))
                ∙ get_or-drop q (x ∷ xs) ((r + k * n) / 2 ^ 16))
        | inr gt ↦ absurd (ground (arith, resample-short n want c x xs (ground arith)))
      ]

  -- The frame at index `k` of what rc_x gives is the one at the place `currentSample + k *
  -- nextSample`, in units of 2 ^ -16 of a frame, rounded down, where the step leaves room in 32 bits.
  pub rate_convert-picks :
      (want c k : ℕ) (s : List ℕ)
      → k < length (rate_convert n want c s).out
      → get_or (rate_convert n want c s).out k 0 ≡ get_or s ((c + k * n) / 2 ^ 16) 0
  rate_convert-picks want c k s h = elim (Bool-cases (leb (2 ^ 16) c)) [
    | inl e ↦ elim (Bool-cases (leb (c / 2 ^ 16) (length s))) [
      | inl le ↦
          let f = over-fits n want c s (ground arith) (ground arith) in
          let e : c / 2 ^ 16 + (c % 2 ^ 16 + k * n) / 2 ^ 16 ≡ (c + k * n) / 2 ^ 16 = omega arith in
          rw (f, ← e)
            (resample-picks want (c % 2 ^ 16) k (drop (c / 2 ^ 16) s) (omega arith)
                (ground (arith, f))
              ∙ get_or-drop (c / 2 ^ 16) s ((c % 2 ^ 16 + k * n) / 2 ^ 16))
      | inr gt ↦ absurd (ground (arith, over-short n want c s (ground arith)))
    ]
    | inr e ↦
        let f = rate_convert-below n want c s (ground arith) in
        rw f (resample-picks want c k s (ground arith) (ground (arith, f)))
  ]

pub length-take : (k : ℕ) (s : List ℕ) → length (take k s) ≡ min k (length s)
length-take zero s = omega arith
length-take (suc k) [] = omega arith
length-take (suc k) (x ∷ xs) = omega (arith, length-take k xs)

pub take-append : (k : ℕ) (s t : List ℕ) → k ≤ length s → take k (s ++ t) ≡ take k s
take-append zero s t h = refl
take-append (suc k) [] t h = absurd (omega arith)
take-append (suc k) (x ∷ xs) t h = ap (◌∷◌ x) (take-append k xs t (omega arith))

pub take-append_past :
    (k : ℕ) (s t : List ℕ) → length s ≤ k → take k (s ++ t) ≡ s ++ take (k - length s) t
take-append_past k [] t h = ap (λ j. take j t) (omega arith)
take-append_past zero (x ∷ xs) t h = absurd (omega arith)
take-append_past (suc k) (x ∷ xs) t h =
    ap (◌∷◌ x) (take-append_past k xs t (omega arith) ∙ ap (λ j. xs ++ take j t) (omega arith))

pub take-all : (k : ℕ) (s : List ℕ) → length s ≤ k → take k s ≡ s
take-all zero [] h = refl
take-all (suc k) [] h = refl
take-all zero (x ∷ xs) h = absurd (omega arith)
take-all (suc k) (x ∷ xs) h = ap (◌∷◌ x) (take-all k xs (omega arith))

pub rate_null-IsRate : IsRate rate_null
unfolding rate_null
rate_null-IsRate = record {
  enough = λ want c s. omega (arith, length-take (min want (length s)) s);
  within = λ want c s. omega arith;
  stops = λ want c s. omega (arith, length-take (min want (length s)) s);
  goes_on = λ want c s t all. ground (
    arith,
    length-append s t,
    take-append_past (min want (length s + length t)) s t (ground arith),
    take-all (min want (length s)) s (omega arith),
  );
  stays = λ want c s t some. ground (arith, length-append s t, take-append want s t (omega arith));
}
