-- ===== src/Process/Joined.antt =====
-- The outputs that AuProcessFlows of server/dia/auutil.c makes of those of the started flows.
use nas.Prelude.{
  ℕ, suc, ◌≤◌, ◌<◌, ◌≡◌, refl, sym, ap, ◌∙◌, Bool, true, ◌&&◌, Bool-cases, some, List, [], ◌∷◌,
  ◌++◌, map, length, length-append, append_assoc, append-nil, inl, inr, nonzero, bit_or,
  if◌then◌else◌, arith,
}
use nas.Compile.Leaves.{◌>>=◌}
use nas.Compile.Places.{bind_ap, bind_assoc}
use nas.Process.{
  Input, Output, Flow, Components, Joining, starts, contains, groups, with_inputs, raise,
  output_rate, add_with, add_output, process_outputs, process_from, process_flows, nothing_joined,
  settled,
}
use nas.Process.Groups.{inputs_to, groups_lem, all_started, shared, all_shared, joined_inputs_lem}
use nas.Process.Firsts.{
  occurs, contains-occurs, firsts, all_distinct, components_of, occurs-firsts, firsts-distinct,
}

-- An output with the shares of all inputs to its component.
abbrev pub joined : Bool → List Flow → Output → Output
joined average fl o = record o {
  inputs =
      all_shared average (length (inputs_to o.component (all_started fl)))
        (inputs_to o.component (all_started fl));
}

-- Each output has an input.
abbrev pub all_fed : List Output → Bool
all_fed [] = true
all_fed (o ∷ os) = nonzero (length o.inputs) && all_fed os

length-map-shared :
    (average : Bool) (n : ℕ) (g : List Input) → length (map (shared average n) g) ≡ length g
length-map-shared average n [] = refl
length-map-shared average n (i ∷ g) = ap suc (length-map-shared average n g)

all_shared-le :
    (average : Bool) (n : ℕ) (before : List (List Input)) (g : List Input)
    (after : List (List Input))
    → length g ≤ length (all_shared average n (before ++ g ∷ after))
unfolding all_shared
all_shared-le average n [] g after = omega (
  arith,
  length-append (map (shared average n) g) (all_shared average n after),
  length-map-shared average n g,
)
all_shared-le average n (b ∷ before) g after = omega (
  arith,
  all_shared-le average n before g after,
  length-append (map (shared average n) b) (all_shared average n (before ++ g ∷ after)),
)

pub with_inputs-outputs :
    (cs : Components) (ins : List Input) (j : Joining)
    → ((with_inputs cs ins j).outputs ≡ j.outputs)
      × ((with_inputs cs ins j).processed ≡ j.processed)
unfolding with_inputs
with_inputs-outputs cs [] j = (refl, refl)
with_inputs-outputs cs (i ∷ rest) j = with_inputs-outputs cs rest _

add_with_lem :
    (cs : Components) (o : Output) (ins : List Input) (j : Joining)
    → 0 < length ins
    → (j' : Joining) × (add_with cs o ins j ≡ some j')
      × (j'.outputs ≡ j.outputs ++ record o { inputs = ins } ∷ [])
      × (j'.processed ≡ o.component ∷ j.processed)
unfolding add_with
add_with_lem cs o ins j pos =
    let start : Joining = record j {
      outputs = j.outputs ++ record o { inputs = ins } ∷ [];
      mask = bit_or j.mask (cs.physical_mask o.component);
    } in
    let (outs, seen) = with_inputs-outputs cs ins start in
    (
      record (with_inputs cs ins start) {
        max_rate = raise (output_rate cs o) (with_inputs cs ins start).max_rate;
        processed = o.component ∷ (with_inputs cs ins start).processed;
      },
      ground (arith, pos),
      outs,
      ap (λ t. o.component ∷ t) seen,
    )

module _ (average : Bool) (cs : Components) (fl : List Flow) where
  add_output_lem :
      (earlier : List Output) (o : Output) (later : List Output) (j : Joining)
      → all_started fl ≡ earlier ++ o ∷ later
      → nonzero (length o.inputs) ≡ true
      → (j' : Joining) × (add_output average cs fl o j ≡ some j')
        × (j'.outputs ≡ j.outputs ++ joined average fl o ∷ [])
        × (j'.processed ≡ o.component ∷ j.processed)
  unfolding add_output
  add_output_lem earlier o later j h fed =
      let (before, after, split, same) = joined_inputs_lem average fl earlier o later h in
      let gs = groups o.component fl in
      let enough : length o.inputs ≤ length (all_shared average (length gs) gs) =
        ground (arith, split, all_shared-le average (length gs) before o.inputs after) in
      let (j', run, outs, seen) =
        add_with_lem cs o (all_shared average (length gs) gs) j (ground (arith, enough, fed)) in
      (
        j',
        ap (λ t. add_with cs o t j) same ∙ run,
        outs
            ∙ ap (λ t. j.outputs ++ record o { inputs = all_shared average (length t) t } ∷ [])
                (groups_lem o.component fl),
        seen,
      )

  process_outputs_lem :
      (earlier os : List Output) (j : Joining)
      → all_started fl ≡ earlier ++ os
      → all_fed os ≡ true
      → (j' : Joining) × (process_outputs average cs fl os j ≡ some j')
        × (j'.outputs ≡ j.outputs ++ map (joined average fl) (firsts j.processed os))
  unfolding process_outputs firsts
  process_outputs_lem earlier [] j h fed = (j, refl, sym (append-nil j.outputs))
  process_outputs_lem earlier (o ∷ os) j h fed =
      elim (Bool-cases (occurs o.component j.processed)) [
        | inl q ↦
            (let (j', run, outs) =
                process_outputs_lem (earlier ++ o ∷ []) os j
                  (h ∙ sym (append_assoc earlier (o ∷ []) os)) (ground (arith, fed)) in
              (
                j',
                ground (arith, q, contains-occurs o.component j.processed, run),
                ground (arith, q, outs),
              ))
        | inr q ↦
            (let (j1, one, outs1, seen) = add_output_lem earlier o os j h (ground (arith, fed)) in
              let (j', run, outs) =
                process_outputs_lem (earlier ++ o ∷ []) os j1
                  (h ∙ sym (append_assoc earlier (o ∷ []) os)) (ground (arith, fed)) in
              (
                j',
                ground (arith, q, contains-occurs o.component j.processed, one, run),
                ground (
                  arith,
                  q,
                  outs,
                  outs1,
                  seen,
                  append_assoc j.outputs (joined average fl o ∷ [])
                      (map (joined average fl) (firsts (o.component ∷ j.processed) os)),
                ),
              ))
      ]

  pub process_outputs-append :
      (os ps : List Output) (j : Joining)
      → process_outputs average cs fl (os ++ ps) j
        ≡ process_outputs average cs fl os j >>= process_outputs average cs fl ps
  unfolding process_outputs
  process_outputs-append [] ps j = refl
  process_outputs-append (o ∷ os) ps j =
      bind_ap (if contains o.component j.processed then some j else add_output average cs fl o j)
        (process_outputs average cs fl (os ++ ps))
        (λ j'. process_outputs average cs fl os j' >>= process_outputs average cs fl ps)
        (process_outputs-append os ps)
      ∙ sym (
          bind_assoc
            (if contains o.component j.processed then some j else add_output average cs fl o j)
            (process_outputs average cs fl os) (process_outputs average cs fl ps))

  pub process_from_lem :
      (fs : List Flow) (j : Joining)
      → process_from average cs fl fs j ≡ process_outputs average cs fl (all_started fs) j
  unfolding process_from all_started process_outputs
  process_from_lem [] j = refl
  process_from_lem (f ∷ fs) j = elim (Bool-cases (starts f)) [
    | inl q ↦ ground (
      arith,
      q,
      process_outputs-append f.outputs (all_started fs) j,
      bind_ap (process_outputs average cs fl f.outputs j) (process_from average cs fl fs)
          (process_outputs average cs fl (all_started fs)) (process_from_lem fs),
    )
    | inr q ↦ ground (arith, q, process_from_lem fs j)
  ]

components_of-joined :
    (average : Bool) (fl : List Flow) (os : List Output)
    → components_of (map (joined average fl) os) ≡ components_of os
components_of-joined average fl [] = refl
components_of-joined average fl (o ∷ os) =
    ap (λ t. o.component ∷ t) (components_of-joined average fl os)

pub process_flows-joined :
    (average : Bool) (cs : Components) (fl : List Flow)
    → all_fed (all_started fl) ≡ true
    → (j : Joining) × (process_flows average cs fl ≡ some (j, map settled fl))
      × (j.outputs ≡ map (joined average fl) (firsts [] (all_started fl)))
      × (all_distinct (components_of j.outputs) ≡ true)
      × ((c : ℕ) → occurs c (components_of j.outputs) ≡ occurs c (components_of (all_started fl)))
unfolding process_flows
process_flows-joined average cs fl fed =
    let (j, run, outs) =
      process_outputs_lem average cs fl [] (all_started fl) nothing_joined refl fed in
    let there : components_of j.outputs ≡ components_of (firsts [] (all_started fl)) =
      ap components_of outs ∙ components_of-joined average fl (firsts [] (all_started fl)) in
    (
      j,
      ground (arith, process_from_lem average cs fl fl nothing_joined, run),
      outs,
      ground (arith, there, firsts-distinct [] (all_started fl)),
      λ c. ap (occurs c) there ∙ occurs-firsts c [] (all_started fl) ∙ ground arith,
    )
