-- ===== src/Compile.antt =====
-- Compiling the inputs of a flow's outputs, compileInputs and AuCompileFlow of server/dia/auutil.c:
-- each path from an export to an import becomes an input with its gains and tracks. The components
-- of the imports and the counts of references are left out, but for whether a component is made.
pub mod Leaves
pub mod Places
pub mod Shape
pub mod Outputs
pub mod Whole
pub mod Inputs
pub mod Renewal
pub mod Ends
pub mod Loops
pub mod Again
mod Tests
use nas.Prelude.{
  ℕ, zero, suc, ◌+◌, ◌-◌, ◌%◌, ◌^◌, Bool, true, false, ◌&&◌, not, Option, none, some, List, [], ◌∷◌,
  ◌++◌, length, get_elem?, get_or, set, ltb, ◌==◌, nonzero, if◌then◌else◌,
}
use nas.Mix.Fixed.{fixed_point_multiply}

-- A raw element: an import of any kind, or what it takes its inputs from. A track of a bundle is an
-- element and a track of it.
pub data Raw : Type 0 where
  source : Raw
  bundle : List (ℕ × ℕ) → Raw
  multiply_constant : ℕ → ℕ → Raw
  add_constant : ℕ → ℕ → Raw
  sum : List ℕ → Raw
  export : ℕ → Raw

-- The gains and the tracks on the way from an output; no tracks are all of them.
pub record Route : Type 0 where
  pub multiply : ℕ
  pub add : ℕ
  pub in_tracks : List ℕ
  pub first_out : ℕ

-- The parts of CompiledFlowInputRec that are made here.
pub record Input : Type 0 where
  pub element : ℕ
  pub path : Route

-- Which elements are compiled, and the inputs of the output with the count of those that were met.
pub record Compiling : Type 0 where
  pub compiled : List Bool
  pub inputs : List Input
  pub count : ℕ

pub data Status : Type 0 where
  success bad_alloc bad_device bad_bucket bad_element : Status

-- The depth of the calls is used up, memory is left, or the call returns.
pub data Outcome : Type 0 where
  out_of_depth outside : Outcome
  returned : Status → Compiling → Outcome

abbrev pub Call : Type 0
Call = Compiling → ℕ → Route → Outcome

-- Goes on after a success.
abbrev pub and_then : Outcome → (Compiling → Outcome) → Outcome
and_then (returned success st) f = f st
and_then (returned bad_alloc st) f = returned bad_alloc st
and_then (returned bad_device st) f = returned bad_device st
and_then (returned bad_bucket st) f = returned bad_bucket st
and_then (returned bad_element st) f = returned bad_element st
and_then out_of_depth f = out_of_depth
and_then outside f = outside

abbrev pub max_tracks : ℕ
max_tracks = 32

abbrev pub with_gains : Route → Input → Input
with_gains p i = record i { path = record i.path { multiply = p.multiply; add = p.add } }

-- The case of an import. `made` is the status of making its component, without which the input is not
-- among those of the output, but is counted as met.
unfoldable pub compile_source : Bool → Status → Bool → Compiling → ℕ → Route → Outcome
compile_source recompile made compiled st k p =
    if recompile
    then elim (get_elem? st.inputs st.count) [
      | none ↦ outside
      | some i ↦
          returned success
            (record st { inputs = set st.inputs st.count (with_gains p i); count = st.count + 1 })
    ]
    else elim (if compiled then success else made) [
      | success ↦ returned success (record st {
        inputs = st.inputs ++ record { element = k; path = p } ∷ [];
        count = st.count + 1;
      })
      | bad ↦ returned bad (record st { count = st.count + 1 })
    ]

-- The loop over the tracks of a bundle: those of one element in a row are compiled together.
unfoldable pub compile_bundle : Call → Route → List (ℕ × ℕ) → Compiling → ℕ → List ℕ → ℕ → Outcome
compile_bundle call p [] st next tracks first =
    call st next (record p { in_tracks = tracks; first_out = first })
compile_bundle call p ((e, t) ∷ rest) st next tracks first =
    let flushed = call st next (record p { in_tracks = tracks; first_out = first }) in
    let first' = (first + length tracks) % 2 ^ 8 in
    let after_flush = and_then flushed (λ st'. compile_bundle call p rest st' e (t ∷ []) first') in
    let more = compile_bundle call p rest st e (tracks ++ t ∷ []) first in
    if nonzero (length tracks) && not (e == next)
    then after_flush
    else if ltb (length tracks) max_tracks
    then more
    else outside

unfoldable pub compile_sum : Call → Route → List ℕ → Compiling → Outcome
compile_sum call p [] st = returned success st
compile_sum call p (i ∷ rest) st = and_then (call st i p) (compile_sum call p rest)

-- The cases of an element of number `k`.
unfoldable pub compile_raw : Bool → (ℕ → Status) → Call → Raw → Bool → Call
compile_raw recompile made call source compiled st k p =
    compile_source recompile (made k) compiled st k p
compile_raw recompile made call (bundle tracks) compiled st k p =
    compile_bundle call p tracks st (2 ^ 32 - 1) [] p.first_out
compile_raw recompile made call (multiply_constant constant input) compiled st k p =
    call st input (record p { multiply = fixed_point_multiply p.multiply constant })
compile_raw recompile made call (add_constant constant input) compiled st k p =
    call st input (record p { add = (p.add + constant) % 2 ^ 32 })
compile_raw recompile made call (sum inputs) compiled st k p = compile_sum call p inputs st
compile_raw recompile made call (export input) compiled st k p = returned bad_element st

unfoldable pub compile_body : List Raw → Bool → (ℕ → Status) → Call → Call
compile_body elements recompile made call st k p = elim (get_elem? elements k) [
  | none ↦ outside
  | some el ↦
      compile_raw recompile made call el (get_or st.compiled k false)
        (record st { compiled = set st.compiled k true }) k p
]

-- The depth of the calls is bounded by the fuel.
unfoldable pub compile_inputs : List Raw → Bool → (ℕ → Status) → ℕ → Call
compile_inputs elements recompile made zero st k p = out_of_depth
compile_inputs elements recompile made (suc fuel) st k p =
    compile_body elements recompile made (compile_inputs elements recompile made fuel) st k p

-- AuFixedPointFromSum(1, 0) and (0, 0), and no tracks.
abbrev pub whole_path : Route
whole_path = record { multiply = 2 ^ 16; add = 0; in_tracks = []; first_out = 0 }
