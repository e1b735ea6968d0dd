-- ===== src/Compile/Leaves.antt =====
-- The paths of a flow from an element to the imports, as plain lists: what compileInputs of
-- server/dia/auutil.c is to find.
use nas.Prelude.{
  ℕ, zero, suc, ◌+◌, ◌%◌, ◌^◌, Bool, true, ◌&&◌, Option, none, some, List, [], ◌∷◌, ◌++◌, length,
  get_elem?, leb, ◌==◌, if◌then◌else◌,
}
use nas.Mix.Fixed.{fixed_point_multiply}
use nas.Compile.{
  Raw, source, bundle, multiply_constant, add_constant, sum, export, Route, Input, max_tracks,
}

infixl 5 ◌>>=◌
abbrev pub ◌>>=◌ {ℓ κ} : {A : Type ℓ} {B : Type κ} → Option A → (A → Option B) → Option B
none >>= f = none
some a >>= f = f a

-- The tracks of a bundle, those of one element in a row together.
unfoldable pub runs_from : ℕ → List ℕ → List (ℕ × ℕ) → List (ℕ × List ℕ)
runs_from next tracks [] = (next, tracks) ∷ []
runs_from next tracks ((e, t) ∷ rest) =
    if e == next
    then runs_from e (tracks ++ t ∷ []) rest
    else (next, tracks) ∷ runs_from e (t ∷ []) rest

unfoldable pub runs : List (ℕ × ℕ) → List (ℕ × List ℕ)
runs [] = []
runs ((e, t) ∷ rest) = runs_from e (t ∷ []) rest

-- The runs go to tracks of the output one after the other.
unfoldable pub placed : Route → ℕ → List (ℕ × List ℕ) → List (ℕ × Route)
placed p first [] = []
placed p first ((e, tracks) ∷ rest) =
    (e, record p { in_tracks = tracks; first_out = first })
    ∷ placed p ((first + length tracks) % 2 ^ 8) rest

abbrev pub all_short : List (ℕ × List ℕ) → Bool
all_short [] = true
all_short ((e, tracks) ∷ rest) = leb (length tracks) max_tracks && all_short rest

abbrev pub Walk : Type 0
Walk = ℕ → Route → Option (List Input)

unfoldable pub leaves_of : Walk → List (ℕ × Route) → Option (List Input)
leaves_of walk [] = some []
leaves_of walk ((i, p) ∷ rest) = do a ← walk i p; b ← leaves_of walk rest; some (a ++ b)

abbrev pub to_all : Route → List ℕ → List (ℕ × Route)
to_all p [] = []
to_all p (i ∷ rest) = (i, p) ∷ to_all p rest

unfoldable pub leaves_raw : Walk → Raw → Walk
leaves_raw walk source k p = some (record { element = k; path = p } ∷ [])
leaves_raw walk (bundle []) k p = none
leaves_raw walk (bundle (t ∷ ts)) k p =
    if all_short (runs (t ∷ ts))
    then leaves_of walk (placed p p.first_out (runs (t ∷ ts)))
    else none
leaves_raw walk (multiply_constant constant input) k p =
    walk input (record p { multiply = fixed_point_multiply p.multiply constant })
leaves_raw walk (add_constant constant input) k p =
    walk input (record p { add = (p.add + constant) % 2 ^ 32 })
leaves_raw walk (sum inputs) k p = leaves_of walk (to_all p inputs)
leaves_raw walk (export input) k p = none

-- The paths of at most so many elements; `none` where there is a longer one or one that ends wrong.
unfoldable pub leaves : List Raw → ℕ → Walk
leaves elements zero k p = none
leaves elements (suc depth) k p = elim (get_elem? elements k) [
  | none ↦ none
  | some el ↦ leaves_raw (leaves elements depth) el k p
]
