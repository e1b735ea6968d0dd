-- ===== src/Compile/Shape.antt =====
-- Flows of server/dia/auutil.c but for the constants of their elements, which leave the paths where
-- they are.
use nas.Prelude.{
  ℕ, zero, suc, ◌+◌, ◌%◌, ◌^◌, ◌≡◌, refl, ap, ◌∙◌, Bool-cases, Option, some, Option-cases, List, [],
  ◌∷◌, map, length, get_elem?, inl, inr, arith,
}
use mathlib.Core.List.{map-append}
use nas.Mix.Fixed.{fixed_point_multiply}
use nas.Compile.{Raw, source, bundle, multiply_constant, add_constant, sum, export, Route, Input}
use nas.Compile.Leaves.{◌>>=◌, Walk, leaves_of, leaves_raw, leaves, to_all, placed, runs, all_short}

-- An element but for its constant.
abbrev pub shape : Raw → Raw
shape source = source
shape (bundle ts) = bundle ts
shape (multiply_constant c i) = multiply_constant 0 i
shape (add_constant c i) = add_constant 0 i
shape (sum ns) = sum ns
shape (export i) = export i

abbrev pub bare : Route → Route
bare p = record p { multiply = 0; add = 0 }

-- An input but for its gains.
abbrev pub bare_input : Input → Input
bare_input l = record l { path = bare l.path }

abbrev pub bared : Option (List Input) → Option (List Input)
bared o = o >>= λ a. some (map bare_input a)

bare_all : List (ℕ × Route) → List (ℕ × Route)
bare_all [] = []
bare_all ((i, p) ∷ rest) = (i, bare p) ∷ bare_all rest

placed-bare :
    (p : Route) (first : ℕ) (rs : List (ℕ × List ℕ))
    → placed (bare p) first rs ≡ bare_all (placed p first rs)
unfolding bare_all placed
placed-bare p first [] = refl
placed-bare p first ((e, ts) ∷ rest) =
    ap (λ t. (e, bare (record p { in_tracks = ts; first_out = first })) ∷ t)
      (placed-bare p ((first + length ts) % 2 ^ 8) rest)

to_all-bare : (p : Route) (ns : List ℕ) → to_all (bare p) ns ≡ bare_all (to_all p ns)
unfolding bare_all
to_all-bare p [] = refl
to_all-bare p (i ∷ rest) = ap (λ t. (i, bare p) ∷ t) (to_all-bare p rest)

multiply_zero : fixed_point_multiply 0 0 ≡ 0
unfolding fixed_point_multiply
multiply_zero = refl

module _ (walk walk' : Walk)
    (same : (k : ℕ) (p : Route) → walk' k (bare p) ≡ bared (walk k p)) where
  leaves_of-bare :
      (ps : List (ℕ × Route)) → leaves_of walk' (bare_all ps) ≡ bared (leaves_of walk ps)
  unfolding leaves_of bare_all
  leaves_of-bare [] = refl
  leaves_of-bare ((i, p) ∷ rest) = elim (Option-cases (walk i p)) [
    | inl e ↦ ground (arith, e, same i p)
    | inr (a, e) ↦ elim (Option-cases (leaves_of walk rest)) [
      | inl e' ↦ ground (arith, e, e', same i p, leaves_of-bare rest)
      | inr (b, e') ↦
          ground (arith, e, e', same i p, leaves_of-bare rest, map-append bare_input a b)
    ]
  ]

  leaves_raw-bare :
      (el : Raw) (k : ℕ) (p : Route)
      → leaves_raw walk' (shape el) k (bare p) ≡ bared (leaves_raw walk el k p)
  unfolding leaves_raw
  leaves_raw-bare source k p = refl
  leaves_raw-bare (bundle []) k p = refl
  leaves_raw-bare (bundle (t ∷ ts)) k p = elim (Bool-cases (all_short (runs (t ∷ ts)))) [
    | inl q ↦ ground (
      arith,
      q,
      placed-bare p p.first_out (runs (t ∷ ts)),
      leaves_of-bare (placed p p.first_out (runs (t ∷ ts))),
    )
    | inr q ↦ ground (arith, q)
  ]
  leaves_raw-bare (multiply_constant c i) k p =
      ap (λ m. walk' i (record (bare p) { multiply = m })) multiply_zero
      ∙ same i (record p { multiply = fixed_point_multiply p.multiply c })
  leaves_raw-bare (add_constant c i) k p = same i (record p { add = (p.add + c) % 2 ^ 32 })
  leaves_raw-bare (sum ns) k p =
      ap (leaves_of walk') (to_all-bare p ns) ∙ leaves_of-bare (to_all p ns)
  leaves_raw-bare (export i) k p = refl

get_elem?-map :
    (es : List Raw) (k : ℕ)
    → get_elem? (map shape es) k ≡ (get_elem? es k >>= λ el. some (shape el))
get_elem?-map [] k = refl
get_elem?-map (x ∷ es) zero = refl
get_elem?-map (x ∷ es) (suc k) = get_elem?-map es k

-- The paths of a flow without its constants.
pub leaves-bare :
    (es : List Raw) (depth k : ℕ) (p : Route)
    → leaves (map shape es) depth k (bare p) ≡ bared (leaves es depth k p)
unfolding leaves
leaves-bare es zero k p = refl
leaves-bare es (suc depth) k p = elim (Option-cases (get_elem? es k)) [
  | inl e ↦ ground (arith, e, get_elem?-map es k)
  | inr (el, e) ↦ ground (
    arith,
    e,
    get_elem?-map es k,
    leaves_raw-bare (leaves es depth) (leaves (map shape es) depth) (leaves-bare es depth) el k p,
  )
]
