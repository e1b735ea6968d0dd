-- ===== src/Stream/Frames.antt =====
-- The frames of a port's array in server/dia/auprocess.c, one by one.
use nas.Prelude.{
  ℕ, zero, suc, ◌+◌, ◌-◌, ◌≤◌, ◌<◌, ◌≡◌, refl, ap, ◌⊎◌, inl, inr, ◌∙◌, List, [], ◌∷◌, ◌++◌, length,
  length-append, length-set, take, drop, ltb, get_or, set, get_or-set_self, get_or-set_ne,
  if◌then◌else◌, Bool-cases, arith,
}
use nas.Stream.Laws.{length-drop}
use nas.Stream.Picks.{length-take, get_or-drop}
use nas.Stream.Port.{put}
use nas.Stream.Queue.{ring}

pub length-put : (f : List ℕ) (at : ℕ) (xs : List ℕ) → length (put f at xs) ≡ length f
length-put f at [] = refl
length-put f at (x ∷ xs) = length-put (set f at x) (at + 1) xs ∙ length-set f at x

pub get_or-put_out :
    (f : List ℕ) (at : ℕ) (xs : List ℕ) (j : ℕ)
    → (j < at) ⊎ (at + length xs ≤ j)
    → get_or (put f at xs) j 0 ≡ get_or f j 0
get_or-put_out f at [] j h = refl
get_or-put_out f at (x ∷ xs) j (inl lt) =
    get_or-put_out (set f at x) (at + 1) xs j (inl (omega arith))
    ∙ get_or-set_ne f at j x 0 (omega arith)
get_or-put_out f at (x ∷ xs) j (inr le) =
    get_or-put_out (set f at x) (at + 1) xs j (inr (omega arith))
    ∙ get_or-set_ne f at j x 0 (omega arith)

pub get_or-put_in :
    (f : List ℕ) (at : ℕ) (xs : List ℕ) (i : ℕ)
    → i < length xs
    → at + length xs ≤ length f
    → get_or (put f at xs) (at + i) 0 ≡ get_or xs i 0
get_or-put_in f at [] i h le = absurd (omega arith)
get_or-put_in f at (x ∷ xs) zero h le =
    let e : at + 0 ≡ at = omega arith in
    rw e (
      get_or-put_out (set f at x) (at + 1) xs at (inl (omega arith))
      ∙ get_or-set_self f at x 0 (omega arith))
get_or-put_in f at (x ∷ xs) (suc i) h le =
    let e : at + suc i ≡ at + 1 + i = omega arith in
    rw e (get_or-put_in (set f at x) (at + 1) xs i (omega arith) (omega (arith, length-set f at x)))

pub get_or-append_left : (s t : List ℕ) (i : ℕ) → i < length s → get_or (s ++ t) i 0 ≡ get_or s i 0
get_or-append_left [] t i h = absurd (omega arith)
get_or-append_left (x ∷ xs) t zero h = refl
get_or-append_left (x ∷ xs) t (suc i) h = get_or-append_left xs t i (omega arith)

pub get_or-append_right :
    (s t : List ℕ) (i : ℕ) → length s ≤ i → get_or (s ++ t) i 0 ≡ get_or t (i - length s) 0
get_or-append_right [] t i h = ap (λ (k : ℕ). get_or t k 0) (omega arith)
get_or-append_right (x ∷ xs) t zero h = absurd (omega arith)
get_or-append_right (x ∷ xs) t (suc i) h =
    let e : suc i - suc (length xs) ≡ i - length xs = omega arith in
    rw e (get_or-append_right xs t i (omega arith))

pub get_or-take : (k : ℕ) (s : List ℕ) (i : ℕ) → i < k → get_or (take k s) i 0 ≡ get_or s i 0
get_or-take zero s i h = absurd (omega arith)
get_or-take (suc k) [] i h = refl
get_or-take (suc k) (x ∷ xs) zero h = refl
get_or-take (suc k) (x ∷ xs) (suc i) h = get_or-take k xs i (omega arith)

-- The place of a frame of the ring in the array.
abbrev pub place : List ℕ → ℕ → ℕ → ℕ
place f from i = if ltb (from + i) (length f) then from + i else from + i - length f

pub get_or-ring :
    (f : List ℕ) (from count i : ℕ)
    → from < length f
    → i < count
    → get_or (ring f from count) i 0 ≡ get_or f (place f from i) 0
get_or-ring f from count i inside lt = elim (Bool-cases (ltb (from + i) (length f))) [
  | inl e ↦ ground (
    arith,
    get_or-take count (drop from f ++ f) i lt,
    get_or-append_left (drop from f) f i (ground (arith, length-drop from f)),
    get_or-drop from f i,
  )
  | inr e ↦ ground (
    arith,
    get_or-take count (drop from f ++ f) i lt,
    length-drop from f,
    get_or-append_right (drop from f) f i (ground (arith, length-drop from f)),
  )
]

pub length-ring :
    (f : List ℕ) (from count : ℕ) → count ≤ length f → length (ring f from count) ≡ count
length-ring f from count le =
    omega (arith, length-take count (drop from f ++ f), length-append (drop from f) f)
