-- ===== src/Compile/Tests.antt =====
-- Flows that are compiled, for AuCompileFlow and compileInputs of server/dia/auutil.c.
use nas.Prelude.{
  ℕ, zero, suc, ◌^◌, min, ◌<◌, ◌≡◌, refl, Bool, true, false, none, some, List, [], ◌∷◌, get_elem?,
  arith,
}
use nas.Mix.Fixed.{fixed_point_multiply}
use nas.Compile.{
  Raw, source, bundle, multiply_constant, sum, export, Status, success, bad_device, out_of_depth,
  compile_inputs, compile_source, compile_bundle, compile_sum, compile_raw, compile_body,
  whole_path,
}
use nas.Compile.Leaves.{runs, runs_from}
use nas.Compile.Ends.{is_acyclic}
use nas.Compile.Loops.{first_input, compile_inputs-loop}
use nas.Compile.Outputs.{
  Output, CompiledFlow, lost, ended, compile_flow, compile_from, compile_export,
  compile_output_inputs,
}
use nas.Compile.Whole.{paths_of, outputs_of}
use nas.Compile.Again.{compile_flow_lem, compile_flow-again}

-- Two imports, one of them at a gain, are summed for one export and bundled for another.
abbrev mixer : ℕ → List Raw
mixer gain =
    source
    ∷ source
    ∷ multiply_constant gain 0
    ∷ sum (2 ∷ 1 ∷ [])
    ∷ bundle ((0, 0) ∷ (0, 1) ∷ (1, 0) ∷ [])
    ∷ export 3
    ∷ export 4
    ∷ []

abbrev half : ℕ
half = 2 ^ 15

abbrev all_made : ℕ → Status
all_made k = success

abbrev rank : ℕ → ℕ
rank k = min k 7

abbrev not_compiled : CompiledFlow
not_compiled = record {
  compiled = false ∷ false ∷ false ∷ false ∷ false ∷ false ∷ false ∷ [];
  outputs = [];
}

rank-lt : (k : ℕ) → rank k < 8
rank-lt k = omega arith

mixed : ℕ → List Output
mixed gain =
    record {
      element = 5;
      first_input = 3;
      inputs =
          record { element = 0; path = record whole_path { multiply = gain } }
          ∷ record { element = 1; path = whole_path }
          ∷ [];
    }
    ∷ record {
      element = 6;
      first_input = 4;
      inputs =
          record { element = 0; path = record whole_path { in_tracks = 0 ∷ 1 ∷ [] } }
          ∷ record { element = 1; path = record whole_path { in_tracks = 0 ∷ []; first_out = 2 } }
          ∷ [];
    }
    ∷ []

mixer_compiled : outputs_of (compile_flow (mixer half) all_made 8 not_compiled) ≡ some (mixed half)
unfolding mixed compile_flow compile_from compile_export compile_output_inputs compile_inputs
    compile_body compile_raw compile_source compile_bundle compile_sum fixed_point_multiply
mixer_compiled = refl

abbrev compiled_once : CompiledFlow
compiled_once = record {
  compiled = true ∷ true ∷ true ∷ true ∷ true ∷ true ∷ true ∷ [];
  outputs = mixed half;
}

runs_once : compile_flow (mixer half) all_made 8 not_compiled ≡ ended success compiled_once
unfolding mixed compile_flow compile_from compile_export compile_output_inputs compile_inputs
    compile_body compile_raw compile_source compile_bundle compile_sum fixed_point_multiply
runs_once = refl

mixer_acyclic : is_acyclic rank (mixer half) (mixer half) 0 ≡ true
unfolding runs runs_from
mixer_acyclic = refl

compile_flow_lem_example :
    (os : List Output) × (paths_of (mixer half) 8 whole_path (mixer half) 0 ≡ some os)
    × (outputs_of (compile_flow (mixer half) all_made 8 not_compiled) ≡ some os)
compile_flow_lem_example =
    compile_flow_lem (mixer half) all_made rank 8 not_compiled (λ k. refl) mixer_acyclic rank-lt
      refl

compile_flow-again_example :
    (os : List Output) × (outputs_of (compile_flow (mixer 3) all_made 8 compiled_once) ≡ some os)
    × (outputs_of (compile_flow (mixer 3) all_made 8 not_compiled) ≡ some os)
compile_flow-again_example =
    compile_flow-again (mixer half) (mixer 3) all_made rank 8 not_compiled compiled_once (λ k. refl)
      mixer_acyclic rank-lt refl runs_once refl

-- An export, and a constant that is its own input.
abbrev feedback : List Raw
feedback = multiply_constant half 0 ∷ export 0 ∷ []

abbrev only_zero : ℕ → Bool
only_zero zero = true
only_zero (suc k) = false

feedback-loops :
    (k : ℕ)
    → only_zero k ≡ true
    → (el : Raw) × (i : ℕ) × (get_elem? feedback k ≡ some el)
      × (first_input el ≡ some i)
      × (only_zero i ≡ true)
feedback-loops zero h = (multiply_constant half 0, 0, refl, refl, refl)
feedback-loops (suc k) h = absurd (ground (arith, h))

compile_inputs-loop_example :
    compile_inputs feedback false all_made 1000
      (record { compiled = []; inputs = []; count = 0 })
      0
      whole_path
    ≡ out_of_depth
compile_inputs-loop_example =
    compile_inputs-loop feedback false all_made only_zero feedback-loops 1000
      (record { compiled = []; inputs = []; count = 0 }) 0 whole_path refl

-- The number of elements passes for the number of an element.
behind_the_elements : compile_flow (source ∷ export 2 ∷ []) all_made 4 not_compiled ≡ lost
unfolding compile_flow compile_from compile_export compile_output_inputs compile_inputs compile_body
behind_the_elements = refl

abbrev tracks : ℕ → List (ℕ × ℕ)
tracks zero = []
tracks (suc n) = (0, n) ∷ tracks n

-- A bundle of 33 tracks of one element leaves the array of its tracks.
too_many_tracks :
    compile_flow (source ∷ bundle (tracks 33) ∷ export 1 ∷ []) all_made 4 not_compiled ≡ lost
unfolding compile_flow compile_from compile_export compile_output_inputs compile_inputs compile_body
    compile_raw compile_bundle
too_many_tracks = refl

-- A device that is not there.
no_device : outputs_of (compile_flow (mixer half) (λ k. bad_device) 8 not_compiled) ≡ none
unfolding compile_flow compile_from compile_export compile_output_inputs
no_device = refl
