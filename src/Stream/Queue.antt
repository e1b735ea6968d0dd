-- ===== src/Stream/Queue.antt =====
-- A client port of server/dia/auprocess.c as a queue: the frames from the read pointer on, with the
-- wrap at the end of the array, and what readClient takes off it.
use nas.Prelude.{
  ℕ, zero, suc, ◌+◌, ◌-◌, min, ◌≤◌, ◌<◌, ◌≡◌, refl, ap, sym, List, [], ◌∷◌, ◌++◌, length, take,
  drop, arith,
}
use nas.Stream.Laws.{length-drop, drop-append, drop-append_past}
use nas.Stream.Picks.{take-append, take-append_past, take-all}
use nas.Stream.Port.{Port, window}

abbrev pub ring : List ℕ → ℕ → ℕ → List ℕ
ring frames from count = take count (drop from frames ++ frames)

abbrev pub queue : Port → List ℕ
queue c = ring c.frames c.read c.current_size

-- The pointers and the count stand in the array.
pub record IsPort (c : Port) : Type 0 where
  pub reads : c.read < length c.frames
  pub fits : c.current_size ≤ length c.frames

take-nil : (k : ℕ) → take {A = ℕ} k [] ≡ []
take-nil zero = refl
take-nil (suc k) = refl

drop-nil : (k : ℕ) → drop {A = ℕ} k [] ≡ []
drop-nil zero = refl
drop-nil (suc k) = refl

pub drop-take : (k n : ℕ) (s : List ℕ) → drop k (take n s) ≡ take (n - k) (drop k s)
drop-take zero n s = ap (λ j. take j s) (omega arith)
drop-take (suc k) zero s = let e : 0 - suc k ≡ 0 = omega arith in rw e refl
drop-take (suc k) (suc n) [] = sym (take-nil (suc n - suc k))
drop-take (suc k) (suc n) (x ∷ xs) =
    let e : suc n - suc k ≡ n - k = omega arith in rw e (drop-take k n xs)

pub drop-drop : (j k : ℕ) (s : List ℕ) → drop j (drop k s) ≡ drop (k + j) s
drop-drop j zero s = ap (λ i. drop i s) (omega arith)
drop-drop zero (suc k) [] = sym (drop-nil (suc k + 0))
drop-drop (suc j) (suc k) [] = sym (drop-nil (suc k + suc j))
drop-drop j (suc k) (x ∷ xs) =
    let e : suc k + j ≡ suc (k + j) = omega arith in rw e (drop-drop j k xs)

drop-all : (k : ℕ) (s : List ℕ) → length s ≤ k → drop k s ≡ []
drop-all zero [] h = refl
drop-all (suc k) [] h = refl
drop-all zero (x ∷ xs) h = absurd (omega arith)
drop-all (suc k) (x ∷ xs) h = drop-all k xs (omega arith)

module _ (f : List ℕ) (from count : ℕ) (fits : count ≤ length f) (inside : from < length f) where
  -- Frames taken off the ring before the end of the array, and beyond it.
  pub ring-advance :
      (used : ℕ)
      → used ≤ count
      → from + used < length f
      → drop used (ring f from count) ≡ ring f (from + used) (count - used)
  ring-advance used le lt = ground (
    arith,
    drop-take used count (drop from f ++ f),
    length-drop from f,
    drop-append used (drop from f) f (omega (arith, length-drop from f)),
    drop-drop used from f,
  )

  pub ring-around :
      (used : ℕ)
      → length f - from ≤ used
      → used ≤ count
      → drop used (ring f from count) ≡ ring f (used - (length f - from)) (count - used)
  ring-around used around le = ground (
    arith,
    drop-take used count (drop from f ++ f),
    length-drop from f,
    drop-append_past used (drop from f) f (omega (arith, length-drop from f)),
    length-drop (used - (length f - from)) f,
    take-append (count - used) (drop (used - (length f - from)) f) f
        (omega (arith, length-drop (used - (length f - from)) f)),
  )

  -- The ring in the pieces that the source reads.
  pub ring-whole :
      count ≤ length f - from → window f from (min (length f - from) count) ≡ ring f from count
  ring-whole le = ground (
    arith,
    length-drop from f,
    take-append count (drop from f) f (omega (arith, length-drop from f)),
  )

  pub ring-pieces :
      length f - from < count
      → ring f from count
        ≡ window f from (min (length f - from) count)
          ++ window f 0 (min (length f - 0) (count - (length f - from)))
  ring-pieces lt = ground (
    arith,
    length-drop from f,
    take-append_past count (drop from f) f (omega (arith, length-drop from f)),
    take-all (length f - from) (drop from f) (omega (arith, length-drop from f)),
  )
