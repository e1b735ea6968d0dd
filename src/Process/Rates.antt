-- ===== src/Process/Rates.antt =====
-- When AuProcessFlows of server/dia/auutil.c makes no flow, and the rate of the flow that it makes.
use nas.Prelude.{
  ℕ, max, ◌≡◌, refl, sym, ap, subst, ◌∙◌, Bool, true, false, Bool-cases, none, some, Option-cases,
  List, [], ◌∷◌, ◌++◌, map, length, bit_or, ◌==◌, inl, inr, arith,
}
use nas.Process.{
  Input, Output, Flow, Components, Joining, contains, groups, joined_inputs, input_rate,
  output_rate, raise, with_inputs, add_with, add_output, process_outputs, process_flows,
  nothing_joined, settled,
}
use nas.Process.Groups.{all_started, all_shared, joined_inputs_lem}
use nas.Process.Firsts.{occurs, components_of, all_distinct, firsts}
use nas.Process.Joined.{
  process_outputs-append, process_from_lem, with_inputs-outputs, all_fed, joined,
  process_flows-joined,
}

-- A bucket's import has a rate of its own, and so has a device's export.
abbrev pub rate_of_input : Components → Input → ℕ
rate_of_input cs i = elim i.is_bucket [ true ↦ i.element_rate | false ↦ cs.sample_rate i.component ]

abbrev pub rate_of_output : Components → Output → ℕ
rate_of_output cs o = elim o.is_device [
  | true ↦ o.element_rate
  | false ↦ cs.sample_rate o.component
]

input_rate_lem : (cs : Components) (i : Input) → input_rate cs i ≡ rate_of_input cs i
input_rate_lem cs i = ground arith

output_rate_lem : (cs : Components) (o : Output) → output_rate cs o ≡ rate_of_output cs o
output_rate_lem cs o = ground arith

abbrev pub highest_input : Components → List Input → ℕ
highest_input cs [] = 0
highest_input cs (i ∷ rest) = max (rate_of_input cs i) (highest_input cs rest)

-- The highest rate of an output or an input.
abbrev pub highest : Components → List Output → ℕ
highest cs [] = 0
highest cs (o ∷ os) = max (max (rate_of_output cs o) (highest_input cs o.inputs)) (highest cs os)

highest-snoc :
    (cs : Components) (os : List Output) (o : Output)
    → highest cs (os ++ o ∷ [])
      ≡ max (highest cs os) (max (rate_of_output cs o) (highest_input cs o.inputs))
highest-snoc cs [] o = omega arith
highest-snoc cs (x ∷ os) o = omega (arith, highest-snoc cs os o)

raise_lem : (rate most : ℕ) → raise rate most ≡ max rate most
raise_lem rate most = ground arith

with_inputs-rate :
    (cs : Components) (ins : List Input) (j : Joining)
    → (with_inputs cs ins j).max_rate ≡ max j.max_rate (highest_input cs ins)
unfolding with_inputs
with_inputs-rate cs [] j = omega arith
with_inputs-rate cs (i ∷ rest) j =
    let later = with_inputs-rate cs rest (record j {
      mask = bit_or j.mask (cs.physical_mask i.component);
      max_rate = raise (input_rate cs i) j.max_rate;
    }) in
    let this = raise_lem (input_rate cs i) j.max_rate in
    later ∙ omega (arith, this, input_rate_lem cs i)

module _ (average : Bool) (cs : Components) (fl : List Flow) where
  add_with-rate :
      (o : Output) (ins : List Input) (j j' : Joining)
      → j.max_rate ≡ highest cs j.outputs
      → add_with cs o ins j ≡ some j'
      → (j'.max_rate ≡ highest cs j'.outputs) × (j'.processed ≡ o.component ∷ j.processed)
  unfolding add_with
  add_with-rate o ins j j' v run = elim (Bool-cases (length ins == 0)) [
    | inl q ↦ absurd (ground (arith, q, run))
    | inr q ↦
        (let start : Joining = record j {
          outputs = j.outputs ++ record o { inputs = ins } ∷ [];
          mask = bit_or j.mask (cs.physical_mask o.component);
        } in
          let made : Joining = record (with_inputs cs ins start) {
            max_rate = raise (output_rate cs o) (with_inputs cs ins start).max_rate;
            processed = o.component ∷ (with_inputs cs ins start).processed;
          } in
          let same : made ≡ j' = ground (arith, q, run) in
          let (outs, seen) = with_inputs-outputs cs ins start in
          let top : made.max_rate ≡ highest cs made.outputs =
            raise_lem (output_rate cs o) (with_inputs cs ins start).max_rate
            ∙ omega (
              arith,
              with_inputs-rate cs ins start,
              v,
              output_rate_lem cs o,
              highest-snoc cs j.outputs (record o { inputs = ins }),
            )
            ∙ ap (highest cs) (sym outs) in
          (
            subst (λ t. t.max_rate ≡ highest cs t.outputs) same top,
            subst (λ t. t.processed ≡ o.component ∷ j.processed) same
                (ap (λ t. o.component ∷ t) seen),
          ))
  ]

  process_outputs-rate :
      (os : List Output) (j j' : Joining)
      → j.max_rate ≡ highest cs j.outputs
      → process_outputs average cs fl os j ≡ some j'
      → j'.max_rate ≡ highest cs j'.outputs
  unfolding process_outputs add_output
  process_outputs-rate [] j j' v run = ground (arith, v, run)
  process_outputs-rate (o ∷ os) j j' v run = elim (Bool-cases (contains o.component j.processed)) [
    | inl q ↦ process_outputs-rate os j j' v (ground (arith, q, run))
    | inr q ↦
        elim (Option-cases (add_with cs o (joined_inputs average o (groups o.component fl)) j)) [
          | inl e ↦ absurd (ground (arith, q, e, run))
          | inr (j1, e) ↦
              (let (v1, seen) =
                  add_with-rate o (joined_inputs average o (groups o.component fl)) j j1 v e in
                process_outputs-rate os j1 j' v1 (ground (arith, q, e, run)))
        ]
  ]

  process_outputs-processed :
      (c : ℕ) (os : List Output) (j j' : Joining)
      → j.max_rate ≡ highest cs j.outputs
      → contains c j.processed ≡ false
      → contains c (components_of os) ≡ false
      → process_outputs average cs fl os j ≡ some j'
      → contains c j'.processed ≡ false
  unfolding process_outputs add_output
  process_outputs-processed c [] j j' v new free run = ground (arith, new, run)
  process_outputs-processed c (o ∷ os) j j' v new free run =
      elim (Bool-cases (contains o.component j.processed)) [
        | inl q ↦
            process_outputs-processed c os j j' v new (ground (arith, free))
              (ground (arith, q, run))
        | inr q ↦
            elim (Option-cases
              (add_with cs o (joined_inputs average o (groups o.component fl)) j)) [
                | inl e ↦ absurd (ground (arith, q, e, run))
                | inr (j1, e) ↦
                    (let (v1, seen) =
                        add_with-rate o (joined_inputs average o (groups o.component fl)) j j1 v
                          e in
                      process_outputs-processed c os j1 j' v1 (ground (arith, new, free, seen))
                        (ground (arith, free)) (ground (arith, q, e, run)))
              ]
      ]

  process_flows-rate :
      (j : Joining) (fl' : List Flow)
      → process_flows average cs fl ≡ some (j, fl')
      → j.max_rate ≡ highest cs j.outputs
  unfolding process_flows
  process_flows-rate j fl' run =
      elim (Option-cases (process_outputs average cs fl (all_started fl) nothing_joined)) [
        | inl e ↦ absurd (ground (arith, run, e, process_from_lem average cs fl fl nothing_joined))
        | inr (j1, e) ↦
            (let same : j1 ≡ j =
                ground (arith, run, e, process_from_lem average cs fl fl nothing_joined) in
              subst (λ t. t.max_rate ≡ highest cs t.outputs) same
                (process_outputs-rate (all_started fl) nothing_joined j1 refl e))
      ]

  -- AuProcessFlows where every output of the started flows has an input: it makes a flow, with one
  -- output for each component that one of those outputs has, the first of them, and no component
  -- twice; its inputs are those of all of them, in order, each gain multiplied by 2 ^ 16 / n in fixed
  -- point if there are n > 1 of them and auAverageFlows is set; its rate is the highest rate of these
  -- outputs and inputs, 0 if there are none; and every flow goes to its pending state.
  pub process_flows_lem :
      all_fed (all_started fl) ≡ true
      → (j : Joining) × (process_flows average cs fl
          ≡ some (j, map (λ (f : Flow). record f { state = f.pending_state }) fl))
        × (j.outputs ≡ map (joined average fl) (firsts [] (all_started fl)))
        × (all_distinct (components_of j.outputs) ≡ true)
        × ((c : ℕ) → occurs c (components_of j.outputs) ≡ occurs c (components_of (all_started fl)))
        × (j.max_rate ≡ highest cs j.outputs)
  process_flows_lem fed =
      let (j, run, outs, distinct, same) = process_flows-joined average cs fl fed in
      (j, run, outs, distinct, same, process_flows-rate j (map settled fl) run)

  -- An output to which nothing is joined, behind outputs to other components.
  nothing-added :
      (o : Output) (later : List Output) (j : Joining)
      → contains o.component j.processed ≡ false
      → length (joined_inputs average o (groups o.component fl)) ≡ 0
      → process_outputs average cs fl (o ∷ later) j ≡ none
  unfolding process_outputs add_output add_with
  nothing-added o later j new h = ground (arith, new, h)

  -- AuProcessFlows makes no flow, whatever else is started, if a started flow has an output, the first
  -- to its component, and no output of a started flow to this component has an input.
  pub process_flows-null :
      (earlier : List Output) (o : Output) (later : List Output)
      → all_started fl ≡ earlier ++ o ∷ later
      → contains o.component (components_of earlier) ≡ false
      → all_shared average (length (groups o.component fl)) (groups o.component fl) ≡ []
      → process_flows average cs fl ≡ none
  unfolding process_flows process_outputs
  process_flows-null earlier o later h new nothing =
      let (before, after, split, same) = joined_inputs_lem average fl earlier o later h in
      let whole =
        process_from_lem average cs fl fl nothing_joined
        ∙ ap (λ t. process_outputs average cs fl t nothing_joined) h
        ∙ process_outputs-append average cs fl earlier (o ∷ later) nothing_joined in
      elim (Option-cases (process_outputs average cs fl earlier nothing_joined)) [
        | inl e ↦ ground (arith, whole, e)
        | inr (j1, e) ↦
            (let stays =
                process_outputs-processed o.component earlier nothing_joined j1 refl refl new e in
              let stops = nothing-added o later j1 stays (ap length (same ∙ nothing)) in
              ground (arith, whole, e, stops))
      ]
