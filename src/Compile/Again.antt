-- ===== src/Compile/Again.antt =====
-- Compiling a whole flow with AuCompileFlow of server/dia/auutil.c, once and again.
use nas.Prelude.{
  ℕ, ◌+◌, ◌<◌, ◌≡◌, refl, sym, ap, ◌∙◌, true, Option, some, Option-cases, List, [], ◌∷◌, map,
  get_elem?, inl, inr, arith,
}
use nas.Compile.{
  Raw, source, bundle, multiply_constant, add_constant, sum, export, Route, Status, success,
  whole_path,
}
use nas.Compile.Leaves.{◌>>=◌, leaves}
use nas.Compile.Shape.{shape, bare, leaves-bare}
use nas.Compile.Outputs.{Output, CompiledFlow, ended, compile_flow}
use nas.Compile.Whole.{paths_of, outputs_of, bare_output, new_lem, again_lem}
use nas.Compile.Ends.{feeds, is_acyclic, feeds-acyclic, leaves_found}

paths_found :
    (rank : ℕ → ℕ) (es : List Raw) (fuel : ℕ) (p : Route)
    → ((k : ℕ) (el : Raw) → get_elem? es k ≡ some el → feeds rank es k el ≡ true)
    → ((k : ℕ) → rank k < fuel)
    → (rest : List Raw) (k : ℕ) → is_acyclic rank es rest k ≡ true
    → (os : List Output) × (paths_of es fuel p rest k ≡ some os)
unfolding paths_of
paths_found rank es fuel p ok deep [] k h = ([], refl)
paths_found rank es fuel p ok deep (export i ∷ rest) k h =
    let (ls, e) = leaves_found rank es ok fuel i p (deep i) (ground (arith, h)) in
    let (os, e') = paths_found rank es fuel p ok deep rest (k + 1) (ground (arith, h)) in
    (record { element = k; first_input = i; inputs = ls } ∷ os, ground (arith, e, e'))
paths_found rank es fuel p ok deep (source ∷ rest) k h =
    paths_found rank es fuel p ok deep rest (k + 1) (ground (arith, h))
paths_found rank es fuel p ok deep (bundle ts ∷ rest) k h =
    paths_found rank es fuel p ok deep rest (k + 1) (ground (arith, h))
paths_found rank es fuel p ok deep (multiply_constant c i ∷ rest) k h =
    paths_found rank es fuel p ok deep rest (k + 1) (ground (arith, h))
paths_found rank es fuel p ok deep (add_constant c i ∷ rest) k h =
    paths_found rank es fuel p ok deep rest (k + 1) (ground (arith, h))
paths_found rank es fuel p ok deep (sum ns ∷ rest) k h =
    paths_found rank es fuel p ok deep rest (k + 1) (ground (arith, h))

-- AuCompileFlow of a flow without loops that is not compiled yet, in memory, with components for all
-- its imports and exports, the depth of the calls above every rank: it returns AuSuccess with one
-- output for each export, in the order of the elements, and the inputs of an output are the paths
-- from it to the imports, in order, with the gains and tracks met on the way.
pub compile_flow_lem :
    (elements : List Raw) (made : ℕ → Status) (rank : ℕ → ℕ) (fuel : ℕ) (s : CompiledFlow)
    → ((k : ℕ) → made k ≡ success)
    → is_acyclic rank elements elements 0 ≡ true
    → ((k : ℕ) → rank k < fuel)
    → s.outputs ≡ []
    → (os : List Output) × (paths_of elements fuel whole_path elements 0 ≡ some os)
      × (outputs_of (compile_flow elements made fuel s) ≡ some os)
unfolding compile_flow
compile_flow_lem elements made rank fuel s well acyclic deep none_yet =
    let (os, e) =
      paths_found rank elements fuel whole_path (λ k el. feeds-acyclic rank elements k el acyclic)
        deep elements 0 acyclic in
    (os, e, ground (arith, none_yet, new_lem elements made well fuel elements 0 s [] os none_yet e))

bare_outputs : Option (List Output) → Option (List Output)
bare_outputs o = o >>= λ os. some (map bare_output os)

paths-bare :
    (es : List Raw) (fuel : ℕ) (p : Route) (rest : List Raw) (k : ℕ)
    → paths_of (map shape es) fuel (bare p) (map shape rest) k
      ≡ bare_outputs (paths_of es fuel p rest k)
unfolding paths_of bare_outputs
paths-bare es fuel p [] k = refl
paths-bare es fuel p (export i ∷ rest) k = elim (Option-cases (leaves es fuel i p)) [
  | inl e ↦ ground (arith, e, leaves-bare es fuel i p)
  | inr (ls, e) ↦ elim (Option-cases (paths_of es fuel p rest (k + 1))) [
    | inl e' ↦ ground (arith, e, e', leaves-bare es fuel i p, paths-bare es fuel p rest (k + 1))
    | inr (os, e') ↦
        ground (arith, e, e', leaves-bare es fuel i p, paths-bare es fuel p rest (k + 1))
  ]
]
paths-bare es fuel p (source ∷ rest) k = paths-bare es fuel p rest (k + 1)
paths-bare es fuel p (bundle ts ∷ rest) k = paths-bare es fuel p rest (k + 1)
paths-bare es fuel p (multiply_constant c i ∷ rest) k = paths-bare es fuel p rest (k + 1)
paths-bare es fuel p (add_constant c i ∷ rest) k = paths-bare es fuel p rest (k + 1)
paths-bare es fuel p (sum ns ∷ rest) k = paths-bare es fuel p rest (k + 1)

-- The paths of a flow with other constants.
paths-shape :
    (es es' : List Raw) (fuel : ℕ) (os : List Output)
    → map shape es ≡ map shape es'
    → paths_of es fuel whole_path es 0 ≡ some os
    → (os' : List Output) × (paths_of es' fuel whole_path es' 0 ≡ some os')
      × (map bare_output os ≡ map bare_output os')
unfolding bare_outputs
paths-shape es es' fuel os same h =
    let both : bare_outputs (paths_of es fuel whole_path es 0)
        ≡ bare_outputs (paths_of es' fuel whole_path es' 0) =
      sym (paths-bare es fuel whole_path es 0)
      ∙ ap (λ t. paths_of t fuel (bare whole_path) t 0) same
      ∙ paths-bare es' fuel whole_path es' 0 in
    elim (Option-cases (paths_of es' fuel whole_path es' 0)) [
      | inl e ↦ absurd (ground (arith, both, h, e))
      | inr (os', e) ↦ (os', e, ground (arith, both, h, e))
    ]

-- AuCompileFlow of a compiled flow whose constants have changed since, the flow without loops and in
-- memory as for the first time: it returns AuSuccess, and the outputs with their inputs are the ones
-- that compiling the changed flow anew makes.
pub compile_flow-again :
    (elements elements' : List Raw) (made : ℕ → Status) (rank : ℕ → ℕ) (fuel : ℕ)
    (s s' : CompiledFlow)
    → ((k : ℕ) → made k ≡ success)
    → is_acyclic rank elements elements 0 ≡ true
    → ((k : ℕ) → rank k < fuel)
    → s.outputs ≡ []
    → compile_flow elements made fuel s ≡ ended success s'
    → map shape elements ≡ map shape elements'
    → (os : List Output) × (outputs_of (compile_flow elements' made fuel s') ≡ some os)
      × (outputs_of (compile_flow elements' made fuel s) ≡ some os)
unfolding compile_flow
compile_flow-again elements elements' made rank fuel s s' well acyclic deep none_yet compiled same =
    let (os, e, run) = compile_flow_lem elements made rank fuel s well acyclic deep none_yet in
    let there : s'.outputs ≡ os = ground (arith, run, ap outputs_of compiled) in
    let (os', e', alike) = paths-shape elements elements' fuel os same e in
    let anew = new_lem elements' made well fuel elements' 0 s [] os' none_yet e' in
    (os', second os os' there alike e', ground (arith, none_yet, anew))
  where
    second :
        (os os' : List Output)
        → s'.outputs ≡ os
        → map bare_output os ≡ map bare_output os'
        → paths_of elements' fuel whole_path elements' 0 ≡ some os'
        → outputs_of (compile_flow elements' made fuel s') ≡ some os'
    second [] [] there alike e' =
        ground (arith, there, new_lem elements' made well fuel elements' 0 s' [] [] there e')
    second [] (o' ∷ os') there alike e' = absurd (ground (arith, alike))
    second (o ∷ os) os' there alike e' = ground (
      arith,
      there,
      again_lem elements' made well fuel elements' 0 s' [] (o ∷ os) os' there e' alike,
    )
