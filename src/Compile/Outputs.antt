-- ===== src/Compile/Outputs.antt =====
-- AuCompileFlow of server/dia/auutil.c: the outputs of a flow, each with the inputs that are compiled
-- for it. What makes or finds the component of an element is a parameter.
use nas.Prelude.{
  ℕ, ◌+◌, Bool, true, none, some, List, [], ◌∷◌, ◌++◌, length, get_elem?, set, ltb, nonzero,
  if◌then◌else◌,
}
use nas.Compile.{
  Raw, source, bundle, multiply_constant, add_constant, sum, export, Input, Compiling, Status,
  success, bad_alloc, bad_device, bad_bucket, bad_element, Outcome, out_of_depth, outside, returned,
  compile_inputs, whole_path,
}

-- The parts of CompiledFlowOutputRec that are made here.
pub record Output : Type 0 where
  pub element : ℕ
  pub first_input : ℕ
  pub inputs : List Input

-- Which elements are compiled, and the outputs.
pub record CompiledFlow : Type 0 where
  pub compiled : List Bool
  pub outputs : List Output

-- Memory is left or the calls are too deep, or the call returns.
pub data Compilation : Type 0 where
  lost : Compilation
  ended : Status → CompiledFlow → Compilation

abbrev pub and_next : Compilation → (CompiledFlow → Compilation) → Compilation
and_next lost f = lost
and_next (ended success s) f = f s
and_next (ended bad_alloc s) f = ended bad_alloc s
and_next (ended bad_device s) f = ended bad_device s
and_next (ended bad_bucket s) f = ended bad_bucket s
and_next (ended bad_element s) f = ended bad_element s

abbrev pub with_inputs : CompiledFlow → ℕ → Output → Compiling → CompiledFlow
with_inputs s n o st = record s {
  compiled = st.compiled;
  outputs = set s.outputs n (record o { inputs = st.inputs });
}

abbrev pub from_outcome : CompiledFlow → ℕ → Output → Outcome → Compilation
from_outcome s n o out_of_depth = lost
from_outcome s n o outside = lost
from_outcome s n o (returned status st) = ended status (with_inputs s n o st)

-- The output of an export that is compiled for the first time, where its component is made.
abbrev pub new_output : CompiledFlow → ℕ → ℕ → CompiledFlow
new_output s k i = record s {
  compiled = set s.compiled k true;
  outputs = s.outputs ++ record { element = k; first_input = i; inputs = [] } ∷ [];
}

-- The inputs of output number `n`.
unfoldable pub compile_output_inputs :
    List Raw → Bool → (ℕ → Status) → ℕ → ℕ → CompiledFlow → Compilation
compile_output_inputs elements recompile made fuel n s = elim (get_elem? s.outputs n) [
  | none ↦ lost
  | some o ↦
      if ltb (length elements) o.first_input
      then ended bad_element s
      else from_outcome s n o (
          compile_inputs elements recompile made fuel
            (record { compiled = s.compiled; inputs = o.inputs; count = 0 }) o.first_input
            whole_path)
]

-- An export of number `k` that takes its inputs from element `i`.
unfoldable pub compile_export :
    List Raw → Bool → (ℕ → Status) → ℕ → ℕ → ℕ → ℕ → CompiledFlow → Compilation
compile_export elements recompile made fuel k i n s =
    and_next
      (if recompile
        then ended success s
        else elim (made k) [ success ↦ ended success (new_output s k i) | bad ↦ ended bad s ])
      (compile_output_inputs elements recompile made fuel n)

-- The elements from number `k` on, `n` outputs behind those before.
unfoldable pub compile_from :
    List Raw → Bool → (ℕ → Status) → ℕ → List Raw → ℕ → ℕ → CompiledFlow → Compilation
compile_from elements recompile made fuel [] k n s = ended success s
compile_from elements recompile made fuel (export i ∷ rest) k n s =
    and_next (compile_export elements recompile made fuel k i n s)
      (compile_from elements recompile made fuel rest (k + 1) (n + 1))
compile_from elements recompile made fuel (source ∷ rest) k n s =
    compile_from elements recompile made fuel rest (k + 1) n s
compile_from elements recompile made fuel (bundle ts ∷ rest) k n s =
    compile_from elements recompile made fuel rest (k + 1) n s
compile_from elements recompile made fuel (multiply_constant c i ∷ rest) k n s =
    compile_from elements recompile made fuel rest (k + 1) n s
compile_from elements recompile made fuel (add_constant c i ∷ rest) k n s =
    compile_from elements recompile made fuel rest (k + 1) n s
compile_from elements recompile made fuel (sum ns ∷ rest) k n s =
    compile_from elements recompile made fuel rest (k + 1) n s

-- AuCompileFlow.
unfoldable pub compile_flow : List Raw → (ℕ → Status) → ℕ → CompiledFlow → Compilation
compile_flow elements made fuel s =
    compile_from elements (nonzero (length s.outputs)) made fuel elements 0 0 s
