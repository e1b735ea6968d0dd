-- ===== src/Compile/Ends.antt =====
-- Flows without loops, on which compileInputs of server/dia/auutil.c ends.
use nas.Prelude.{
  ℕ, zero, suc, ◌+◌, ◌%◌, ◌^◌, ◌<◌, ◌≡◌, refl, subst, Bool, true, false, ◌&&◌, Bool-cases, none,
  some, Option-cases, List, [], ◌∷◌, ◌++◌, length, get_elem?, ltb, ltb→lt, ◌==◌, inl, inr, arith,
}
use nas.Mix.Fixed.{fixed_point_multiply}
use nas.Compile.{Raw, source, bundle, multiply_constant, add_constant, sum, export, Route, Input}
use nas.Compile.Leaves.{
  Walk, leaves_of, leaves_raw, leaves, to_all, placed, runs, runs_from, all_short,
}

-- Whether there is such an element, and it is no export.
abbrev pub is_input : List Raw → ℕ → Bool
is_input elements i = elim (get_elem? elements i) [
  | none ↦ false
  | some (export j) ↦ false
  | some el ↦ true
]

-- An input of lower rank.
abbrev pub is_below : (ℕ → ℕ) → List Raw → ℕ → ℕ → Bool
is_below rank elements k i = ltb (rank i) (rank k) && is_input elements i

abbrev pub all_below : (ℕ → Bool) → List ℕ → Bool
all_below below [] = true
all_below below (i ∷ rest) = below i && all_below below rest

abbrev pub tracks_below : (ℕ → Bool) → List (ℕ × ℕ) → Bool
tracks_below below [] = true
tracks_below below ((e, t) ∷ rest) = below e && tracks_below below rest

abbrev pub is_nonempty : List (ℕ × ℕ) → Bool
is_nonempty [] = false
is_nonempty (t ∷ ts) = true

-- Element number `k` takes its inputs from elements of lower rank, a bundle some tracks and never
-- more than 32 in a row of one element.
abbrev pub feeds : (ℕ → ℕ) → List Raw → ℕ → Raw → Bool
feeds rank elements k source = true
feeds rank elements k (bundle ts) =
    is_nonempty ts && all_short (runs ts) && tracks_below (is_below rank elements k) ts
feeds rank elements k (multiply_constant c i) = is_below rank elements k i
feeds rank elements k (add_constant c i) = is_below rank elements k i
feeds rank elements k (sum ns) = all_below (is_below rank elements k) ns
feeds rank elements k (export i) = is_input elements i

-- A flow without loops: the elements from number `k` on are in order.
abbrev pub is_acyclic : (ℕ → ℕ) → List Raw → List Raw → ℕ → Bool
is_acyclic rank elements [] k = true
is_acyclic rank elements (el ∷ rest) k =
    feeds rank elements k el && is_acyclic rank elements rest (k + 1)

feeds-elem :
    (rank : ℕ → ℕ) (es rest : List Raw) (j k : ℕ) (el : Raw)
    → is_acyclic rank es rest j ≡ true
    → get_elem? rest k ≡ some el
    → feeds rank es (j + k) el ≡ true
feeds-elem rank es [] j k el h e = absurd (ground (arith, e))
feeds-elem rank es (x ∷ rest) j zero el h e =
    let first : feeds rank es j x ≡ true = ground (arith, h) in
    let at : j ≡ j + 0 = omega arith in
    let this : x ≡ el = ground (arith, e) in
    subst (λ t. feeds rank es (j + 0) t ≡ true) this
      (subst (λ t. feeds rank es t x ≡ true) at first)
feeds-elem rank es (x ∷ rest) j (suc k) el h e =
    let later : feeds rank es (j + 1 + k) el ≡ true =
      feeds-elem rank es rest (j + 1) k el (ground (arith, h)) e in
    let at : j + 1 + k ≡ j + suc k = omega arith in subst (λ t. feeds rank es t el ≡ true) at later

pub feeds-acyclic :
    (rank : ℕ → ℕ) (es : List Raw) (k : ℕ) (el : Raw)
    → is_acyclic rank es es 0 ≡ true
    → get_elem? es k ≡ some el
    → feeds rank es k el ≡ true
feeds-acyclic rank es k el h e =
    let at : 0 + k ≡ k = omega arith in
    subst (λ t. feeds rank es t el ≡ true) at (feeds-elem rank es es 0 k el h e)

runs_below : (ℕ → Bool) → List (ℕ × List ℕ) → Bool
runs_below below [] = true
runs_below below ((e, ts) ∷ rest) = below e && runs_below below rest

runs_from-below :
    (below : ℕ → Bool) (next : ℕ) (tracks : List ℕ) (ts : List (ℕ × ℕ))
    → below next ≡ true
    → tracks_below below ts ≡ true
    → runs_below below (runs_from next tracks ts) ≡ true
unfolding runs_from runs_below
runs_from-below below next tracks [] h a = ground (arith, h)
runs_from-below below next tracks ((e, t) ∷ rest) h a = elim (Bool-cases (e == next)) [
  | inl q ↦ ground (
    arith,
    q,
    runs_from-below below e (tracks ++ t ∷ []) rest (ground (arith, a)) (ground (arith, a)),
  )
  | inr q ↦
      ground
        (arith, q, h, runs_from-below below e (t ∷ []) rest (ground (arith, a)) (ground (arith, a)))
]

module _ (walk : Walk) (below : ℕ → Bool)
    (found : (i : ℕ) (p : Route) → below i ≡ true → (ls : List Input) × (walk i p ≡ some ls)) where
  sum_found :
      (p : Route) (ns : List ℕ)
      → all_below below ns ≡ true
      → (ls : List Input) × (leaves_of walk (to_all p ns) ≡ some ls)
  unfolding leaves_of
  sum_found p [] h = ([], refl)
  sum_found p (i ∷ rest) h =
      let (a, e) = found i p (ground (arith, h)) in
      let (b, e') = sum_found p rest (ground (arith, h)) in (a ++ b, ground (arith, e, e'))

  bundle_found :
      (p : Route) (first : ℕ) (rs : List (ℕ × List ℕ))
      → runs_below below rs ≡ true
      → (ls : List Input) × (leaves_of walk (placed p first rs) ≡ some ls)
  unfolding leaves_of placed runs_below
  bundle_found p first [] h = ([], refl)
  bundle_found p first ((e, ts) ∷ rest) h =
      let (a, q) = found e (record p { in_tracks = ts; first_out = first }) (ground (arith, h)) in
      let (b, q') = bundle_found p ((first + length ts) % 2 ^ 8) rest (ground (arith, h)) in
      (a ++ b, ground (arith, q, q'))

module _ (rank : ℕ → ℕ) (elements : List Raw)
    (ok : (k : ℕ) (el : Raw)
      → get_elem? elements k ≡ some el
      → feeds rank elements k el ≡ true) where
  raw_found :
      (walk : Walk) (k : ℕ)
      (found : (i : ℕ) (p : Route)
        → is_below rank elements k i ≡ true
        → (ls : List Input) × (walk i p ≡ some ls))
      (el : Raw) (p : Route)
      → feeds rank elements k el ≡ true
      → is_input (el ∷ []) 0 ≡ true
      → (ls : List Input) × (leaves_raw walk el k p ≡ some ls)
  unfolding leaves_raw runs
  raw_found walk k found source p h q = (record { element = k; path = p } ∷ [], refl)
  raw_found walk k found (bundle []) p h q = absurd (ground (arith, h))
  raw_found walk k found (bundle ((e, t) ∷ ts)) p h q =
      let (ls, w) =
        bundle_found walk (is_below rank elements k) found p p.first_out (runs ((e, t) ∷ ts)) (
          runs_from-below (is_below rank elements k) e (t ∷ []) ts (ground (arith, h))
            (ground (arith, h))) in
      (ls, ground (arith, h, w))
  raw_found walk k found (multiply_constant c i) p h q =
      found i (record p { multiply = fixed_point_multiply p.multiply c }) h
  raw_found walk k found (add_constant c i) p h q =
      found i (record p { add = (p.add + c) % 2 ^ 32 }) h
  raw_found walk k found (sum ns) p h q = sum_found walk (is_below rank elements k) found p ns h
  raw_found walk k found (export i) p h q = absurd (ground (arith, q))

  -- Every way from an input ends within its rank.
  pub leaves_found :
      (depth k : ℕ) (p : Route)
      → rank k < depth
      → is_input elements k ≡ true
      → (ls : List Input) × (leaves elements depth k p ≡ some ls)
  unfolding leaves
  leaves_found zero k p lt q = absurd (omega arith)
  leaves_found (suc depth) k p lt q = elim (Option-cases (get_elem? elements k)) [
    | inl e ↦ absurd (ground (arith, e, q))
    | inr (el, e) ↦
        (let (ls, w) =
            raw_found (leaves elements depth) k
              (λ i p' b.
                leaves_found depth i p'
                  (omega (arith, lt, ltb→lt (rank i) (rank k) (ground (arith, b))))
                  (ground (arith, b)))
              el p (ok k el e) (ground (arith, e, q)) in
          (ls, ground (arith, e, w)))
  ]
