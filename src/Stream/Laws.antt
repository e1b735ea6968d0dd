-- ===== src/Stream/Laws.antt =====
-- What the clients of a rate converter rely on, and that rc_x and rcNull of server/dia/auprocess.c
-- do it.
use nas.Prelude.{
  ℕ, zero, suc, ◌+◌, ◌-◌, ◌*◌, ◌/◌, ◌%◌, ◌^◌, ◌≤◌, ◌<◌, ◌≡◌, refl, ap, ◌⊎◌, inl, inr, ◌∙◌, List, [],
  ◌∷◌, ◌++◌, length, length-append, drop, leb, Bool-cases, arith,
}
use nas.Stream.{Run, Rate}
use nas.Stream.Rate.{skip_count, skip_rest, resample, rate_convert}

-- One run, then another from where it stopped.
abbrev pub then_run : Run → Run → Run
then_run a b = record { out = a.out ++ b.out; current = b.current; used = a.used + b.used }

-- The frames come in pieces: a run stops where it has enough or has read everything; a run that has
-- read everything can be taken up with more frames, and one that has not does not look at them.
pub record IsRate (rate : Rate) : Type 0 where
  pub enough : (want c : ℕ) (s : List ℕ) → length (rate want c s).out ≤ want
  pub within : (want c : ℕ) (s : List ℕ) → (rate want c s).used ≤ length s
  pub stops :
      (want c : ℕ) (s : List ℕ)
      → (length (rate want c s).out ≡ want) ⊎ ((rate want c s).used ≡ length s)
  pub goes_on :
      (want c : ℕ) (s t : List ℕ)
      → (rate want c s).used ≡ length s
      → let a = rate want c s in
        rate want c (s ++ t) ≡ then_run a (rate (want - length a.out) a.current t)
  pub stays :
      (want c : ℕ) (s t : List ℕ)
      → (rate want c s).used < length s
      → rate want c (s ++ t) ≡ rate want c s

pub length-drop : (n : ℕ) (s : List ℕ) → length (drop n s) ≡ length s - n
length-drop zero s = omega arith
length-drop (suc n) [] = omega arith
length-drop (suc n) (x ∷ xs) = omega (arith, length-drop n xs)

pub drop-append : (n : ℕ) (s t : List ℕ) → n ≤ length s → drop n (s ++ t) ≡ drop n s ++ t
drop-append zero s t h = refl
drop-append (suc n) [] t h = absurd (omega arith)
drop-append (suc n) (x ∷ xs) t h = drop-append n xs t (omega arith)

pub drop-append_past :
    (n : ℕ) (s t : List ℕ) → length s ≤ n → drop n (s ++ t) ≡ drop (n - length s) t
drop-append_past n [] t h = ap (λ k. drop k t) (omega arith)
drop-append_past zero (x ∷ xs) t h = absurd (omega arith)
drop-append_past (suc n) (x ∷ xs) t h =
    drop-append_past n xs t (omega arith) ∙ ap (λ k. drop k t) (omega arith)

module _ (n : ℕ) where
  pub resample-enough : (want c : ℕ) (s : List ℕ) → length (resample n want c s).out ≤ want
  unfolding resample
  resample-enough zero c s = omega arith
  resample-enough (suc want) c [] = omega arith
  resample-enough (suc want) c (x ∷ xs) = omega (
    arith,
    resample-enough want (skip_rest ((c + n) % 2 ^ 32) (length (x ∷ xs)))
        (drop (skip_count ((c + n) % 2 ^ 32) (length (x ∷ xs))) (x ∷ xs)),
  )

  pub resample-within : (want c : ℕ) (s : List ℕ) → (resample n want c s).used ≤ length s
  unfolding resample
  resample-within zero c s = omega arith
  resample-within (suc want) c [] = omega arith
  resample-within (suc want) c (x ∷ xs) =
      let c' : ℕ = (c + n) % 2 ^ 32 in
      let inc : ℕ = skip_count c' (length (x ∷ xs)) in
      ground (
        arith,
        length-drop inc (x ∷ xs),
        resample-within want (skip_rest c' (length (x ∷ xs))) (drop inc (x ∷ xs)),
      )

  pub resample-stops :
      (want c : ℕ) (s : List ℕ)
      → (length (resample n want c s).out ≡ want) ⊎ ((resample n want c s).used ≡ length s)
  unfolding resample
  resample-stops zero c s = inl refl
  resample-stops (suc want) c [] = inr refl
  resample-stops (suc want) c (x ∷ xs) =
      let c' : ℕ = (c + n) % 2 ^ 32 in
      let inc : ℕ = skip_count c' (length (x ∷ xs)) in
      ground (
        arith,
        length-drop inc (x ∷ xs),
        resample-stops want (skip_rest c' (length (x ∷ xs))) (drop inc (x ∷ xs)),
      )

  pub resample-zero :
      (c : ℕ) (s : List ℕ) → resample n 0 c s ≡ record { out = []; current = c; used = 0 }
  unfolding resample
  resample-zero c s = refl

  pub resample-nil :
      (want c : ℕ) → resample n want c [] ≡ record { out = []; current = c; used = 0 }
  unfolding resample
  resample-nil zero c = refl
  resample-nil (suc want) c = refl

  abbrev pub next : ℕ → ℕ
  next c = (c + n) % 2 ^ 32

  -- One turn of the loop, where the frames to pass over are there, and where they are not.
  pub resample-fits :
      (want c x : ℕ) (xs : List ℕ)
      → next c / 2 ^ 16 ≤ length (x ∷ xs)
      → let rest = resample n want (next c % 2 ^ 16) (drop (next c / 2 ^ 16) (x ∷ xs)) in
        resample n (suc want) c (x ∷ xs)
        ≡ record { out = x ∷ rest.out; current = rest.current; used = next c / 2 ^ 16 + rest.used }
  unfolding resample
  resample-fits want c x xs h = ground arith

  drop-all : (k : ℕ) (s : List ℕ) → length s ≤ k → drop k s ≡ []
  drop-all zero [] h = refl
  drop-all (suc k) [] h = refl
  drop-all zero (x ∷ xs) h = absurd (omega arith)
  drop-all (suc k) (x ∷ xs) h = drop-all k xs (omega arith)

  pub resample-short :
      (want c x : ℕ) (xs : List ℕ)
      → length (x ∷ xs) < next c / 2 ^ 16
      → resample n (suc want) c (x ∷ xs) ≡ record {
        out = x ∷ [];
        current = next c % 2 ^ 16 + (next c / 2 ^ 16 - length (x ∷ xs)) * 2 ^ 16;
        used = length (x ∷ xs);
      }
  unfolding resample
  resample-short want c x xs h = ground (
    arith,
    drop-all (length (x ∷ xs)) (x ∷ xs) (omega arith),
    resample-nil want (next c % 2 ^ 16 + (next c / 2 ^ 16 - length (x ∷ xs)) * 2 ^ 16),
  )

  -- A run from a `c` with nothing left over, and from one with something left over.
  pub rate_convert-below :
      (want c : ℕ) (s : List ℕ) → c < 2 ^ 16 → rate_convert n want c s ≡ resample n want c s
  unfolding rate_convert
  rate_convert-below want c s h = ground arith

  pub rate_convert-fits :
      (want r k : ℕ) (t : List ℕ)
      → r < 2 ^ 16
      → 0 < k
      → k ≤ length t
      → let rest = resample n want r (drop k t) in
        rate_convert n want (r + k * 2 ^ 16) t ≡ record rest { used = k + rest.used }
  unfolding rate_convert
  rate_convert-fits want r k t lt pos le =
      let q : (r + k * 2 ^ 16) / 2 ^ 16 ≡ k = omega arith in
      let m : (r + k * 2 ^ 16) % 2 ^ 16 ≡ r = omega arith in ground (arith, q, m)

  pub rate_convert-short :
      (want r k : ℕ) (t : List ℕ)
      → r < 2 ^ 16
      → length t < k
      → rate_convert n want (r + k * 2 ^ 16) t
        ≡ record { out = []; current = r + (k - length t) * 2 ^ 16; used = length t }
  unfolding rate_convert
  rate_convert-short want r k t lt le =
      let q : (r + k * 2 ^ 16) / 2 ^ 16 ≡ k = omega arith in
      let m : (r + k * 2 ^ 16) % 2 ^ 16 ≡ r = omega arith in
      ground (
        arith,
        q,
        m,
        drop-all (length t) t (omega arith),
        resample-nil want (r + (k - length t) * 2 ^ 16),
      )

  goes_on-short :
      (want c x : ℕ) (xs t : List ℕ)
      → length (x ∷ xs) < next c / 2 ^ 16
      → let a = resample n (suc want) c (x ∷ xs) in
        resample n (suc want) c (x ∷ (xs ++ t))
        ≡ then_run a (rate_convert n (suc want - length a.out) a.current t)
  goes_on-short want c x xs t h =
      let q : ℕ = next c / 2 ^ 16 in
      let k : ℕ = q - length (x ∷ xs) in
      let r : ℕ = next c % 2 ^ 16 in
      elim (Bool-cases (leb k (length t))) [
        | inl e ↦ ground (
          arith,
          length-append xs t,
          resample-short want c x xs h,
          resample-fits want c x (xs ++ t) (ground (arith, length-append xs t)),
          drop-append_past q (x ∷ xs) t (omega arith),
          rate_convert-fits want r k t (omega arith) (omega arith) (ground arith),
        )
        | inr e ↦ ground (
          arith,
          length-append xs t,
          resample-short want c x xs h,
          resample-short want c x (xs ++ t) (ground (arith, length-append xs t)),
          rate_convert-short want r k t (omega arith) (ground arith),
        )
      ]

  pub resample-goes_on :
      (want c : ℕ) (s t : List ℕ)
      → c < 2 ^ 16
      → (resample n want c s).used ≡ length s
      → let a = resample n want c s in
        resample n want c (s ++ t) ≡ then_run a (rate_convert n (want - length a.out) a.current t)
  resample-goes_on zero c [] t lt e =
      ground (arith, resample-zero c [], resample-zero c t, rate_convert-below 0 c t lt)
  resample-goes_on zero c (x ∷ xs) t lt e = absurd (ground (arith, resample-zero c (x ∷ xs)))
  resample-goes_on (suc want) c [] t lt e =
      ground (arith, resample-nil (suc want) c, rate_convert-below (suc want) c t lt)
  resample-goes_on (suc want) c (x ∷ xs) t lt e =
      elim (Bool-cases (leb (next c / 2 ^ 16) (length (x ∷ xs)))) [
        | inl le ↦
            let q : ℕ = next c / 2 ^ 16 in
            ground (
              arith,
              length-append xs t,
              length-drop q (x ∷ xs),
              resample-fits want c x xs (ground arith),
              resample-fits want c x (xs ++ t) (ground (arith, length-append xs t)),
              drop-append q (x ∷ xs) t (ground arith),
              resample-goes_on want (next c % 2 ^ 16) (drop q (x ∷ xs)) t (omega arith),
            )
        | inr gt ↦ goes_on-short want c x xs t (ground arith)
      ]
