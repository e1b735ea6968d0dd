-- ===== src/Sample/Rework.antt =====
-- What the loops of server/dia/auprocess.c that change 16-bit samples in place do to each of them.
use nas.Prelude.{
  ℕ, zero, suc, ◌+◌, ◌*◌, ◌≤◌, ◌<◌, ◌≡◌, refl, ◌≢◌, ◌∙◌, some, set, length, length-set, arith,
}
use native.Mathlib.Decide.{ℕ_discrete}
use nas.Sample.{Buffer, rework}
use nas.Sample.Loops.{byte, load8-byte, byte-set_other, byte-set_self}

-- The `left` samples from index `i` on have been changed by `g`.
pub record Reworked (g : ℕ → ℕ → ℕ × ℕ) (i left : ℕ) (m out : Buffer) : Type 0 where
  pub size : length out ≡ length m
  pub firsts :
      (k : ℕ)
      → i ≤ k
      → k < i + left
      → byte out (2 * k) ≡ (g (byte m (2 * k)) (byte m (2 * k + 1))).0
  pub seconds :
      (k : ℕ)
      → i ≤ k
      → k < i + left
      → byte out (2 * k + 1) ≡ (g (byte m (2 * k)) (byte m (2 * k + 1))).1
  pub below : (j : ℕ) → j < 2 * i → byte out j ≡ byte m j
  pub above : (j : ℕ) → 2 * (i + left) ≤ j → byte out j ≡ byte m j

module _ (g : ℕ → ℕ → ℕ × ℕ) where
  -- The buffer after the sample at index `i` is changed.
  abbrev changed : Buffer → ℕ → Buffer
  changed m i =
      let v = g (byte m (2 * i)) (byte m (2 * i + 1)) in set (set m (2 * i) v.0) (2 * i + 1) v.1

  changed-length : (m : Buffer) (i : ℕ) → length (changed m i) ≡ length m
  changed-length m i = length-set (set m (2 * i) _) (2 * i + 1) _ ∙ length-set m (2 * i) _

  changed-first :
      (m : Buffer) (i : ℕ)
      → 2 * i + 1 < length m
      → byte (changed m i) (2 * i) ≡ (g (byte m (2 * i)) (byte m (2 * i + 1))).0
  changed-first m i h =
      byte-set_other (set m (2 * i) _) (2 * i + 1) _ (2 * i)
        (omega (arith, length-set m (2 * i) (g (byte m (2 * i)) (byte m (2 * i + 1))).0))
        (λ e. omega (arith, e))
      ∙ byte-set_self m (2 * i) _ (omega arith)

  changed-second :
      (m : Buffer) (i : ℕ)
      → 2 * i + 1 < length m
      → byte (changed m i) (2 * i + 1) ≡ (g (byte m (2 * i)) (byte m (2 * i + 1))).1
  changed-second m i h =
      byte-set_self (set m (2 * i) _) (2 * i + 1) _
        (omega (arith, length-set m (2 * i) (g (byte m (2 * i)) (byte m (2 * i + 1))).0))

  changed-other :
      (m : Buffer) (i j : ℕ)
      → 2 * i + 1 < length m
      → j ≢ 2 * i
      → j ≢ 2 * i + 1
      → byte (changed m i) j ≡ byte m j
  changed-other m i j h ne ne' =
      byte-set_other (set m (2 * i) _) (2 * i + 1) _ j
        (omega (arith, length-set m (2 * i) (g (byte m (2 * i)) (byte m (2 * i + 1))).0)) ne'
      ∙ byte-set_other m (2 * i) _ j (omega arith) ne

  rework-suc :
      (left i : ℕ) (m : Buffer)
      → 2 * i + 1 < length m
      → rework g (suc left) i m ≡ rework g left (i + 1) (changed m i)
  unfolding rework
  rework-suc left i m h =
      let v = g (byte m (2 * i)) (byte m (2 * i + 1)) in
      ground (
        arith,
        load8-byte m (2 * i) (omega arith),
        load8-byte m (2 * i + 1) (omega arith),
        length-set m (2 * i) v.0,
      )

  pub rework-Reworked :
      (left i : ℕ) (m : Buffer)
      → 2 * (i + left) ≤ length m
      → (out : Buffer) × (rework g left i m ≡ some out) × Reworked g i left m out
  rework-Reworked zero i m h = (
    m,
    unfold rework in refl,
    record {
      size = refl;
      firsts = λ k le lt. omega arith;
      seconds = λ k le lt. omega arith;
      below = λ j lt. refl;
      above = λ j le. refl;
    },
  )
  rework-Reworked (suc left) i m h =
      let (out, runs, p) =
        rework-Reworked left (i + 1) (changed m i) (omega (arith, changed-length m i)) in
      let stays : (j : ℕ) → j ≢ 2 * i → j ≢ 2 * i + 1 → byte (changed m i) j ≡ byte m j =
        λ j. changed-other m i j (omega arith) in
      (
        out,
        rework-suc left i m (omega arith) ∙ runs,
        record {
          size = p.size ∙ changed-length m i;
          firsts = λ k le lt. elim (ℕ_discrete k i) [
            | yes e ↦ rw e (p.below (2 * i) (omega arith) ∙ changed-first m i (omega arith))
            | no ne ↦
                rw
                  (
                    p.firsts k (omega (arith, ne)) (omega arith),
                    stays (2 * k) (λ e. ne (omega (arith, e))) (λ e. omega (arith, e)),
                    stays (2 * k + 1) (λ e. omega (arith, e)) (λ e. ne (omega (arith, e))),
                  )
                  refl
          ];
          seconds = λ k le lt. elim (ℕ_discrete k i) [
            | yes e ↦ rw e (p.below (2 * i + 1) (omega arith) ∙ changed-second m i (omega arith))
            | no ne ↦
                rw
                  (
                    p.seconds k (omega (arith, ne)) (omega arith),
                    stays (2 * k) (λ e. ne (omega (arith, e))) (λ e. omega (arith, e)),
                    stays (2 * k + 1) (λ e. omega (arith, e)) (λ e. ne (omega (arith, e))),
                  )
                  refl
          ];
          below = λ j lt.
              p.below j (omega arith) ∙ stays j (λ e. omega (arith, e)) (λ e. omega (arith, e));
          above = λ j le.
              p.above j (omega arith) ∙ stays j (λ e. omega (arith, e)) (λ e. omega (arith, e));
        },
      )
