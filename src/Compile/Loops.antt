-- ===== src/Compile/Loops.antt =====
-- Flows with loops, on which compileInputs of server/dia/auutil.c does not end.
use nas.Prelude.{
  ℕ, zero, suc, ◌+◌, ◌%◌, ◌^◌, ◌≡◌, refl, Bool, true, false, Option, none, some, List, [], ◌∷◌,
  get_elem?, get_or, set, arith,
}
use nas.Mix.Fixed.{fixed_point_multiply}
use nas.Compile.{
  Raw, source, bundle, multiply_constant, add_constant, sum, export, Route, out_of_depth, Compiling,
  Status, compile_raw, compile_body, compile_inputs, compile_sum, Call,
}

-- The element whose inputs are compiled first.
abbrev pub first_input : Raw → Option ℕ
first_input source = none
first_input (bundle ts) = none
first_input (multiply_constant c i) = some i
first_input (add_constant c i) = some i
first_input (sum []) = none
first_input (sum (i ∷ rest)) = some i
first_input (export i) = none

raw-loop :
    (recompile : Bool) (made : ℕ → Status) (call : Call) (el : Raw) (i : ℕ)
    → first_input el ≡ some i
    → ((st : Compiling) (p : Route) → call st i p ≡ out_of_depth)
    → (compiled : Bool) (st : Compiling) (k : ℕ) (p : Route)
    → compile_raw recompile made call el compiled st k p ≡ out_of_depth
unfolding compile_raw compile_sum
raw-loop recompile made call source i f deep compiled st k p = absurd (ground (arith, f))
raw-loop recompile made call (bundle ts) i f deep compiled st k p = absurd (ground (arith, f))
raw-loop recompile made call (multiply_constant c j) i f deep compiled st k p =
    ground (arith, f, deep st (record p { multiply = fixed_point_multiply p.multiply c }))
raw-loop recompile made call (add_constant c j) i f deep compiled st k p =
    ground (arith, f, deep st (record p { add = (p.add + c) % 2 ^ 32 }))
raw-loop recompile made call (sum []) i f deep compiled st k p = absurd (ground (arith, f))
raw-loop recompile made call (sum (j ∷ rest)) i f deep compiled st k p =
    ground (arith, f, deep st p)
raw-loop recompile made call (export j) i f deep compiled st k p = absurd (ground (arith, f))

-- compileInputs comes back, however many calls may be open, from no element of a set each of whose
-- elements is a constant or a sum and has the next one of the set as its only or first input.
pub compile_inputs-loop :
    (elements : List Raw) (recompile : Bool) (made : ℕ → Status) (looping : ℕ → Bool)
    (loops : (k : ℕ)
      → looping k ≡ true
      → (el : Raw) × (i : ℕ) × (get_elem? elements k ≡ some el)
        × (first_input el ≡ some i)
        × (looping i ≡ true))
    (fuel : ℕ) (st : Compiling) (k : ℕ) (p : Route)
    → looping k ≡ true
    → compile_inputs elements recompile made fuel st k p ≡ out_of_depth
unfolding compile_inputs compile_body
compile_inputs-loop elements recompile made looping loops zero st k p h = refl
compile_inputs-loop elements recompile made looping loops (suc fuel) st k p h =
    let (el, i, e, f, l) = loops k h in
    ground (
      arith,
      e,
      raw-loop recompile made (compile_inputs elements recompile made fuel) el i f
          (λ st' p'. compile_inputs-loop elements recompile made looping loops fuel st' i p' l)
          (get_or st.compiled k false) (record st { compiled = set st.compiled k true }) k p,
    )
