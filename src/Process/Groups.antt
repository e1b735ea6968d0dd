-- ===== src/Process/Groups.antt =====
-- The groups of inputs in AuProcessFlows of server/dia/auutil.c, over the outputs of all started flows.
use nas.Prelude.{
  ℕ, suc, ◌+◌, ◌/◌, ◌^◌, ◌≡◌, refl, sym, ap, ◌∙◌, Bool, true, false, ◌&&◌, not, Bool-cases, List,
  [], ◌∷◌, ◌++◌, map, length, length-append, append-nil, ◌==◌, ==-eq, inl, inr, if◌then◌else◌,
  arith,
}
use native.Mathlib.Decide.{ℕ_discrete}
use nas.Mix.Fixed.{fixed_point_multiply}
use nas.Play.{stopped, started, paused}
use nas.Process.{Input, Output, Flow, flow_groups, groups, averaged, copy_groups, joined_inputs}

-- The outputs of the started flows.
unfoldable pub all_started : List Flow → List Output
all_started [] = []
all_started (f ∷ fs) = elim f.pending_state [
  | started ↦ f.outputs ++ all_started fs
  | stopped ↦ all_started fs
  | paused ↦ all_started fs
]

-- The inputs of each of these outputs that is to the component `c`.
unfoldable pub inputs_to : ℕ → List Output → List (List Input)
inputs_to c [] = []
inputs_to c (o ∷ os) = elim (ℕ_discrete o.component c) [
  | yes e ↦ o.inputs ∷ inputs_to c os
  | no ne ↦ inputs_to c os
]

-- The gain of an input of one of `n` groups.
abbrev pub shared : Bool → ℕ → Input → Input
shared average n i =
    if average && not (n == 1)
    then record i { multiply_constant = fixed_point_multiply i.multiply_constant (2 ^ 16 / n) }
    else i

-- All inputs of a component, each with its share.
unfoldable pub all_shared : Bool → ℕ → List (List Input) → List Input
all_shared average n [] = []
all_shared average n (g ∷ gs) = map (shared average n) g ++ all_shared average n gs

flow_groups-append :
    (c : ℕ) (os ps : List Output) → flow_groups c (os ++ ps) ≡ flow_groups c os ++ flow_groups c ps
unfolding flow_groups
flow_groups-append c [] ps = refl
flow_groups-append c (o ∷ os) ps = elim (Bool-cases (o.component == c)) [
  | inl e ↦ ground (arith, e, flow_groups-append c os ps)
  | inr e ↦ ground (arith, e, flow_groups-append c os ps)
]

started_groups : (c : ℕ) (fl : List Flow) → groups c fl ≡ flow_groups c (all_started fl)
unfolding groups all_started flow_groups
started_groups c [] = refl
started_groups c (f ∷ fs) =
    ground (arith, started_groups c fs, flow_groups-append c f.outputs (all_started fs))

flow_groups_lem : (c : ℕ) (os : List Output) → flow_groups c os ≡ inputs_to c os
unfolding flow_groups inputs_to
flow_groups_lem c [] = refl
flow_groups_lem c (o ∷ os) = elim (ℕ_discrete o.component c) [
  | yes e ↦ ground (arith, e, flow_groups_lem c os)
  | no ne ↦ ground (arith, ne, flow_groups_lem c os)
]

pub groups_lem : (c : ℕ) (fl : List Flow) → groups c fl ≡ inputs_to c (all_started fl)
groups_lem c fl = started_groups c fl ∙ flow_groups_lem c (all_started fl)

map_same : (n : ℕ) (g : List Input) → map (shared false n) g ≡ g
map_same n [] = refl
map_same n (i ∷ g) = ap (λ t. i ∷ t) (map_same n g)

map_one : (average : Bool) (g : List Input) → map (shared average 1) g ≡ g
map_one average [] = refl
map_one average (i ∷ g) = ground (arith, map_one average g)

copy_groups_lem :
    (average : Bool) (n : ℕ) (gs : List (List Input))
    → (n == 1) ≡ false
    → copy_groups average (2 ^ 16 / n) gs ≡ all_shared average n gs
unfolding copy_groups all_shared
copy_groups_lem average n [] h = refl
copy_groups_lem true n (g ∷ gs) h =
    ap
      (λ b.
        map (λ i. if not b then averaged (2 ^ 16 / n) i else i) g
        ++ copy_groups true (2 ^ 16 / n) gs)
      (sym h)
    ∙ ap (λ t. map (shared true n) g ++ t) (copy_groups_lem true n gs h)
copy_groups_lem false n (g ∷ gs) h =
    ap (λ t. t ++ copy_groups false (2 ^ 16 / n) gs) (sym (map_same n g))
    ∙ ap (λ t. map (shared false n) g ++ t) (copy_groups_lem false n gs h)

empty : (gs : List (List Input)) → length gs ≡ 0 → gs ≡ []
empty [] h = refl
empty (g ∷ gs) h = absurd (omega (arith, h))

-- What an output of the started flows gets: the shares of all groups of its component.
pub joined_inputs_lem :
    (average : Bool) (fl : List Flow) (earlier : List Output) (o : Output) (later : List Output)
    → all_started fl ≡ earlier ++ o ∷ later
    → (before after : List (List Input)) × (groups o.component fl ≡ before ++ o.inputs ∷ after)
      × (joined_inputs average o (groups o.component fl)
          ≡ all_shared average (length (groups o.component fl)) (groups o.component fl))
unfolding flow_groups all_shared
joined_inputs_lem average fl earlier o later h =
    let before = flow_groups o.component earlier in
    let after = flow_groups o.component later in
    let split : groups o.component fl ≡ before ++ o.inputs ∷ after =
      started_groups o.component fl
      ∙ ap (flow_groups o.component) h
      ∙ flow_groups-append o.component earlier (o ∷ later)
      ∙ ground (arith, ==-eq {a = o.component} {b = o.component} refl) in
    (
      before,
      after,
      split,
      elim (Bool-cases (length (groups o.component fl) == 1)) [
        | inl q ↦
            (let n : length (groups o.component fl) ≡ 1 = ground (arith, q) in
              let sizes : length (groups o.component fl) ≡ length before + suc (length after) =
                ap length split ∙ length-append before (o.inputs ∷ after) in
              let only : groups o.component fl ≡ o.inputs ∷ [] = ground (
                arith,
                split,
                empty before (omega (arith, n, sizes)),
                empty after (omega (arith, n, sizes)),
              ) in
              ground (arith, q, n, only, map_one average o.inputs, append-nil o.inputs))
        | inr q ↦ ground (
          arith,
          q,
          copy_groups_lem average (length (groups o.component fl)) (groups o.component fl) q,
        )
      ],
    )
