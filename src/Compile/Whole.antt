-- ===== src/Compile/Whole.antt =====
-- AuCompileFlow of server/dia/auutil.c against the paths of the whole flow.
use nas.Prelude.{
  ℕ, zero, suc, ◌+◌, ◌<◌, ◌≡◌, refl, ap, ◌∙◌, Bool, true, false, Option, none, some, Option-cases,
  List, [], ◌∷◌, ◌++◌, map, length, get_elem?, set, inl, inr, append-nil, length-append,
  append_assoc, arith,
}
use nas.Compile.{
  Raw, source, bundle, multiply_constant, add_constant, sum, export, Route, Input, Compiling,
  Status, success, bad_alloc, bad_device, bad_bucket, bad_element, Outcome, returned, out_of_depth,
  outside, compile_inputs, whole_path,
}
use nas.Compile.Leaves.{◌>>=◌, leaves}
use nas.Compile.Places.{Filled, filled, written, write}
use nas.Compile.Inputs.{compile_inputs_lem}
use nas.Compile.Shape.{bare_input}
use nas.Compile.Renewal.{write_new, write_again, elem_after, set_after}
use nas.Compile.Outputs.{
  Output, CompiledFlow, Compilation, lost, ended, new_output, compile_output_inputs, compile_export,
  compile_from,
}

-- What is to be found: the exports from number `k` on, with the paths from each.
unfoldable pub paths_of : List Raw → ℕ → Route → List Raw → ℕ → Option (List Output)
paths_of elements fuel p [] k = some []
paths_of elements fuel p (export i ∷ rest) k = do
  ls ← leaves elements fuel i p
  os ← paths_of elements fuel p rest (k + 1)
  some (record { element = k; first_input = i; inputs = ls } ∷ os)
paths_of elements fuel p (source ∷ rest) k = paths_of elements fuel p rest (k + 1)
paths_of elements fuel p (bundle ts ∷ rest) k = paths_of elements fuel p rest (k + 1)
paths_of elements fuel p (multiply_constant c i ∷ rest) k = paths_of elements fuel p rest (k + 1)
paths_of elements fuel p (add_constant c i ∷ rest) k = paths_of elements fuel p rest (k + 1)
paths_of elements fuel p (sum ns ∷ rest) k = paths_of elements fuel p rest (k + 1)

abbrev pub outputs_of : Compilation → Option (List Output)
outputs_of lost = none
outputs_of (ended success s) = some s.outputs
outputs_of (ended bad_alloc s) = none
outputs_of (ended bad_device s) = none
outputs_of (ended bad_bucket s) = none
outputs_of (ended bad_element s) = none

written-success :
    (o : Outcome) (t : Filled)
    → written o ≡ some t
    → (st : Compiling) × (o ≡ returned success st) × (filled st ≡ t)
written-success (returned success st) t h = (st, refl, ground (arith, h))
written-success (returned bad_alloc st) t h = absurd (ground (arith, h))
written-success (returned bad_device st) t h = absurd (ground (arith, h))
written-success (returned bad_bucket st) t h = absurd (ground (arith, h))
written-success (returned bad_element st) t h = absurd (ground (arith, h))
written-success out_of_depth t h = absurd (ground (arith, h))
written-success outside t h = absurd (ground (arith, h))

elem_below : (es : List Raw) (i : ℕ) (el : Raw) → get_elem? es i ≡ some el → i < length es
elem_below [] i el h = absurd (ground (arith, h))
elem_below (x ∷ es) zero el h = omega arith
elem_below (x ∷ es) (suc i) el h = omega (arith, elem_below es i el h)

leaves-in_range :
    (es : List Raw) (fuel i : ℕ) (p : Route) (ls : List Input)
    → leaves es fuel i p ≡ some ls
    → i < length es
unfolding leaves
leaves-in_range es zero i p ls h = absurd (ground (arith, h))
leaves-in_range es (suc fuel) i p ls h = elim (Option-cases (get_elem? es i)) [
  | inl e ↦ absurd (ground (arith, e, h))
  | inr (el, e) ↦ elem_below es i el e
]

-- An output but for the gains of its inputs.
abbrev pub bare_output : Output → Output
bare_output o = record o { inputs = map bare_input o.inputs }

abbrev pub filled_with : Output → List Input → Output
filled_with o ls = record o { inputs = ls }

paths_of-export :
    (elements : List Raw) (fuel : ℕ) (p : Route) (i : ℕ) (rest : List Raw) (k : ℕ)
    (all : List Output)
    → paths_of elements fuel p (export i ∷ rest) k ≡ some all
    → (ls : List Input) × (os : List Output) × (leaves elements fuel i p ≡ some ls)
      × (paths_of elements fuel p rest (k + 1) ≡ some os)
      × (all ≡ record { element = k; first_input = i; inputs = ls } ∷ os)
unfolding paths_of
paths_of-export elements fuel p i rest k all h = elim (Option-cases (leaves elements fuel i p)) [
  | inl e ↦ absurd (ground (arith, e, h))
  | inr (ls, e) ↦ elim (Option-cases (paths_of elements fuel p rest (k + 1))) [
    | inl e' ↦ absurd (ground (arith, e, e', h))
    | inr (os, e') ↦ (ls, os, e, e', ground (arith, e, e', h))
  ]
]

module _ (elements : List Raw) (r : Bool) (made : ℕ → Status) (well : (k : ℕ) → made k ≡ success)
    (fuel : ℕ) where
  output_inputs_lem :
      (s : CompiledFlow) (earlier : List Output) (o : Output) (later : List Output)
      (ls : List Input) (c : ℕ)
      → s.outputs ≡ earlier ++ o ∷ later
      → leaves elements fuel o.first_input whole_path ≡ some ls
      → write r ls (o.inputs, 0) ≡ some (ls, c)
      → (flags : List Bool) × (compile_output_inputs elements r made fuel (length earlier) s
          ≡ ended success
              (record { compiled = flags; outputs = (earlier ++ filled_with o ls ∷ []) ++ later }))
  unfolding compile_output_inputs
  output_inputs_lem s earlier o later ls c es found w =
      let run : written (
            compile_inputs elements r made fuel
              (record { compiled = s.compiled; inputs = o.inputs; count = 0 }) o.first_input
              whole_path)
          ≡ some (ls, c) =
        compile_inputs_lem r made well elements fuel
          (record { compiled = s.compiled; inputs = o.inputs; count = 0 }) o.first_input whole_path
          ls found
        ∙ w in
      let (st, e, f) =
        written-success
          (compile_inputs elements r made fuel
            (record { compiled = s.compiled; inputs = o.inputs; count = 0 }) o.first_input
            whole_path)
          (ls, c) run in
      (
        st.compiled,
        ground (
          arith,
          es,
          elem_after earlier o later,
          e,
          ap (λ t. t.0) f,
          ap (λ t. set t (length earlier) (filled_with o st.inputs)) es,
          set_after earlier o (filled_with o ls) later,
          leaves-in_range elements fuel o.first_input whole_path ls found,
        ),
      )

module _ (elements : List Raw) (made : ℕ → Status) (well : (k : ℕ) → made k ≡ success)
    (fuel : ℕ) where
  pub new_lem :
      (rest : List Raw) (k : ℕ) (s : CompiledFlow) (earlier os : List Output)
      → s.outputs ≡ earlier
      → paths_of elements fuel whole_path rest k ≡ some os
      → outputs_of (compile_from elements false made fuel rest k (length earlier) s)
        ≡ some (earlier ++ os)
  unfolding compile_from compile_export paths_of
  new_lem [] k s earlier os es h = ground (arith, es, h, append-nil earlier)
  new_lem (source ∷ rest) k s earlier os es h = new_lem rest (k + 1) s earlier os es h
  new_lem (bundle ts ∷ rest) k s earlier os es h = new_lem rest (k + 1) s earlier os es h
  new_lem (multiply_constant c i ∷ rest) k s earlier os es h =
      new_lem rest (k + 1) s earlier os es h
  new_lem (add_constant c i ∷ rest) k s earlier os es h = new_lem rest (k + 1) s earlier os es h
  new_lem (sum ns ∷ rest) k s earlier os es h = new_lem rest (k + 1) s earlier os es h
  new_lem (export i ∷ rest) k s earlier all es h =
      let (ls, os, e, eo, ea) = paths_of-export elements fuel whole_path i rest k all h in
      let o : Output = record { element = k; first_input = i; inputs = ls } in
      let (flags, run) =
        output_inputs_lem elements false made well fuel (new_output s k i) earlier
          (record o { inputs = [] }) [] ls (0 + length ls)
          (ap (λ t. t ++ record o { inputs = [] } ∷ []) es) e (write_new ls [] 0) in
      let next =
        new_lem rest (k + 1) (record { compiled = flags; outputs = (earlier ++ o ∷ []) ++ [] })
          (earlier ++ o ∷ []) os (append-nil (earlier ++ o ∷ [])) eo in
      ground (
        arith,
        well k,
        run,
        next,
        length-append earlier (o ∷ []),
        append_assoc earlier (o ∷ []) os,
        ea,
      )

  pub again_lem :
      (rest : List Raw) (k : ℕ) (s : CompiledFlow) (earlier os new : List Output)
      → s.outputs ≡ earlier ++ os
      → paths_of elements fuel whole_path rest k ≡ some new
      → map bare_output os ≡ map bare_output new
      → outputs_of (compile_from elements true made fuel rest k (length earlier) s)
        ≡ some (earlier ++ new)
  unfolding compile_from compile_export paths_of
  again_lem [] k s earlier [] new es h same = ground (arith, es, h)
  again_lem [] k s earlier (o ∷ os) new es h same = absurd (ground (arith, h, same))
  again_lem (source ∷ rest) k s earlier os new es h same =
      again_lem rest (k + 1) s earlier os new es h same
  again_lem (bundle ts ∷ rest) k s earlier os new es h same =
      again_lem rest (k + 1) s earlier os new es h same
  again_lem (multiply_constant c i ∷ rest) k s earlier os new es h same =
      again_lem rest (k + 1) s earlier os new es h same
  again_lem (add_constant c i ∷ rest) k s earlier os new es h same =
      again_lem rest (k + 1) s earlier os new es h same
  again_lem (sum ns ∷ rest) k s earlier os new es h same =
      again_lem rest (k + 1) s earlier os new es h same
  again_lem (export i ∷ rest) k s earlier [] new es h same =
      let (ls, os, e, eo, ea) = paths_of-export elements fuel whole_path i rest k new h in
      absurd (ground (arith, ea, same))
  again_lem (export i ∷ rest) k s earlier (o ∷ later) new es h same =
      let (ls, os, e, eo, ea) = paths_of-export elements fuel whole_path i rest k new h in
      let alike : map bare_output (o ∷ later)
          ≡ map bare_output (record { element = k; first_input = i; inputs = ls } ∷ os) =
        same ∙ ap (map bare_output) ea in
      let heads : bare_output o
          ≡ bare_output (record { element = k; first_input = i; inputs = ls }) =
        ground (arith, alike) in
      let o' : filled_with o ls ≡ record { element = k; first_input = i; inputs = ls } =
        ap (λ t. filled_with t ls) heads in
      let (flags, run) =
        output_inputs_lem elements true made well fuel s earlier o later ls (0 + length ls) es
          (ap (λ t. leaves elements fuel t whole_path) (ap Output.first_input heads) ∙ e)
          (write_again o.inputs ls [] (ap Output.inputs heads)) in
      let next =
        again_lem rest (k + 1)
          (record { compiled = flags; outputs = (earlier ++ filled_with o ls ∷ []) ++ later })
          (earlier ++ filled_with o ls ∷ []) later os refl eo (ground (arith, alike)) in
      ground (
        arith,
        run,
        next,
        length-append earlier (filled_with o ls ∷ []),
        append_assoc earlier (filled_with o ls ∷ []) os,
        ea,
        o',
      )
