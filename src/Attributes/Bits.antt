-- ===== src/Attributes/Bits.antt =====
-- The loops over the bits of a mask in AuSetComponentAttributes and AuMatchAttributes of
-- server/dia/auutil.c, whatever their cases are.
use nas.Prelude.{
  ℕ, zero, suc, ◌+◌, ◌/◌, ◌%◌, ◌<◌, ◌≡◌, refl, sym, subst, ◌∙◌, Bool, true, ◌==◌, if◌then◌else◌,
  Bool-cases, inl, inr, arith,
}
use nas.Attributes.{walk}

unfoldable pub bit : ℕ → ℕ → Bool
bit zero mask = mask % 2 == 1
bit (suc k) mask = bit k (mask / 2)

-- A view that no case changes is not changed by the loop.
pub walk-keeps {ℓ κ} :
    {S : Type ℓ} {A : Type κ} (step : ℕ → S → S) (view : S → A)
    (keeps : (i : ℕ) (s : S) → view (step i s) ≡ view s) (left mask i : ℕ) (s : S)
    → view (walk step left mask i s) ≡ view s
unfolding walk
walk-keeps step view keeps zero mask i s = refl
walk-keeps step view keeps (suc left) mask i s = elim (Bool-cases (mask % 2 == 1)) [
  | inl e ↦
      subst (λ b. view (walk step left (mask / 2) (suc i) (if b then step i s else s)) ≡ view s)
        (sym e) (walk-keeps step view keeps left (mask / 2) (suc i) (step i s) ∙ keeps i s)
  | inr e ↦
      subst (λ b. view (walk step left (mask / 2) (suc i) (if b then step i s else s)) ≡ view s)
        (sym e) (walk-keeps step view keeps left (mask / 2) (suc i) s)
]

-- A view that no later case changes is not changed by the loop.
pub walk-after {ℓ κ} :
    {S : Type ℓ} {A : Type κ} (step : ℕ → S → S) (view : S → A) (j : ℕ)
    (later : (i : ℕ) (s : S) → j < i → view (step i s) ≡ view s) (left mask i : ℕ) (s : S)
    → j < i
    → view (walk step left mask i s) ≡ view s
unfolding walk
walk-after step view j later zero mask i s lt = refl
walk-after step view j later (suc left) mask i s lt = elim (Bool-cases (mask % 2 == 1)) [
  | inl e ↦
      subst (λ b. view (walk step left (mask / 2) (suc i) (if b then step i s else s)) ≡ view s)
        (sym e)
        (walk-after step view j later left (mask / 2) (suc i) (step i s) (omega arith)
          ∙ later i s lt)
  | inr e ↦
      subst (λ b. view (walk step left (mask / 2) (suc i) (if b then step i s else s)) ≡ view s)
        (sym e) (walk-after step view j later left (mask / 2) (suc i) s (omega arith))
]

from_zero : (i : ℕ) → 0 + i ≡ i
from_zero i = omega arith

nothing_below : (k : ℕ) → k < 0 → ⊥
nothing_below k lt = omega arith

-- What the case of a bit that is set makes of a view that no later case changes is there at the end.
pub walk-at {ℓ κ} :
    {S : Type ℓ} {A : Type κ} (step : ℕ → S → S) (view : S → A) (v : A) (j : ℕ)
    (here : (s : S) → view (step j s) ≡ v)
    (later : (i : ℕ) (s : S) → j < i → view (step i s) ≡ view s) (k left mask i : ℕ) (s : S)
    → k + i ≡ j
    → k < left
    → bit k mask ≡ true
    → view (walk step left mask i s) ≡ v
unfolding walk bit
walk-at step view v j here later k zero mask i s at lt set = elim (nothing_below k lt) [ ]
walk-at step view v j here later zero (suc left) mask i s at lt set =
    subst (λ b. view (walk step left (mask / 2) (suc i) (if b then step i s else s)) ≡ v) (sym set)
      (walk-after step view j later left (mask / 2) (suc i) (step i s) (omega arith)
        ∙ subst (λ n. view (step n s) ≡ v) (sym at ∙ from_zero i) (here s))
walk-at step view v j here later (suc k) (suc left) mask i s at lt set =
    walk-at step view v j here later k left (mask / 2) (suc i)
      (if mask % 2 == 1 then step i s else s) (omega arith) (omega arith) set

-- What every case keeps, and where the bit is not set the next one needs no less, holds at the end.
pub walk-through {ℓ κ} :
    {S : Type ℓ} (P : ℕ → S → Type κ) (step : ℕ → S → S)
    (skip : (i : ℕ) (s : S) → P i s → P (suc i) s) (left mask i : ℕ)
    (on_case : (k : ℕ)
      → k < left
      → bit k mask ≡ true
      → (s : S) → P (k + i) s
      → P (suc (k + i)) (step (k + i) s))
    (s : S)
    → P i s
    → P (left + i) (walk step left mask i s)
unfolding walk bit
walk-through P step skip zero mask i on_case s p = subst (λ n. P n s) (sym (from_zero i)) p
walk-through P step skip (suc left) mask i on_case s p =
    subst (λ n. P n (walk step left (mask / 2) (suc i) (if mask % 2 == 1 then step i s else s)))
      (shift left i)
      (walk-through P step skip left (mask / 2) (suc i)
        (λ k lt set t q.
          subst (λ n. P (suc n) (step n t)) (sym (shift k i))
            (on_case (suc k) (omega arith) set t (subst (λ n. P n t) (shift k i) q)))
        (if mask % 2 == 1 then step i s else s)
        (elim (Bool-cases (mask % 2 == 1)) [
          | inl e ↦
              subst (λ b. P (suc i) (if b then step i s else s)) (sym e)
                (subst (λ n. P (suc n) (step n s)) (from_zero i)
                  (on_case zero (omega arith) e s (subst (λ n. P n s) (sym (from_zero i)) p)))
          | inr e ↦ subst (λ b. P (suc i) (if b then step i s else s)) (sym e) (skip i s p)
        ]))
  where
    shift : (k i : ℕ) → k + suc i ≡ suc k + i
    shift k i = omega arith
