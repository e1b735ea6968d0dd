-- ===== src/Process.antt =====
-- AuProcessFlows of server/dia/auutil.c: the outputs of the started flows are brought together, one
-- for each component, with the inputs of all of them. Memory is left but for an allocation of no
-- bytes, which Xalloc of server/os/utils.c refuses.
pub mod Groups
pub mod Firsts
pub mod Joined
pub mod Rates
mod Tests
use nas.Prelude.{
  ℕ, zero, suc, ◌+◌, ◌*◌, ◌/◌, ◌^◌, max, bit_or, Bool, true, false, Option, none, some, List, [],
  ◌∷◌, ◌++◌, map, length, leb, ◌==◌, if◌then◌else◌,
}
use nas.Compile.Leaves.{◌>>=◌}
use nas.Mix.Fixed.{fixed_point_multiply}
use nas.Play.{ElementState, stopped, started, paused}

-- A compiled input: its component, its gain, whether it is a bucket's import and the rate of that.
pub record Input : Type 0 where
  pub component : ℕ
  pub multiply_constant : ℕ
  pub is_bucket : Bool
  pub element_rate : ℕ

-- A compiled output: its component, whether it is a device's export and the rate of that.
pub record Output : Type 0 where
  pub component : ℕ
  pub is_device : Bool
  pub element_rate : ℕ
  pub inputs : List Input

pub record Flow : Type 0 where
  pub outputs : List Output
  pub state : ElementState
  pub pending_state : ElementState

-- The sample rates and the masks of physical devices of the components.
pub record Components : Type 0 where
  pub sample_rate : ℕ → ℕ
  pub physical_mask : ℕ → ℕ

-- The flow that is made, and the components with the flag `processed`.
pub record Joining : Type 0 where
  pub outputs : List Output
  pub mask : ℕ
  pub max_rate : ℕ
  pub processed : List ℕ

abbrev pub starts : Flow → Bool
starts f = elim f.pending_state [ started ↦ true | stopped ↦ false | paused ↦ false ]

abbrev pub contains : ℕ → List ℕ → Bool
contains c [] = false
contains c (x ∷ xs) = if x == c then true else contains c xs

-- The inputs of a flow's outputs to a component, a list for each.
unfoldable pub flow_groups : ℕ → List Output → List (List Input)
flow_groups c [] = []
flow_groups c (o ∷ os) = if o.component == c then o.inputs ∷ flow_groups c os else flow_groups c os

unfoldable pub groups : ℕ → List Flow → List (List Input)
groups c [] = []
groups c (f ∷ fs) = if starts f then flow_groups c f.outputs ++ groups c fs else groups c fs

abbrev pub averaged : ℕ → Input → Input
averaged m i = record i { multiply_constant = fixed_point_multiply i.multiply_constant m }

-- The groups one after the other, each gain times `m` if auAverageFlows is set.
unfoldable pub copy_groups : Bool → ℕ → List (List Input) → List Input
copy_groups average m [] = []
copy_groups average m (g ∷ gs) =
    (if average then map (averaged m) g else g) ++ copy_groups average m gs

-- The inputs of `o` where `gs` are the groups of its component.
abbrev pub joined_inputs : Bool → Output → List (List Input) → List Input
joined_inputs average o gs =
    if length gs == 1 then o.inputs else copy_groups average (2 ^ 16 / length gs) gs

abbrev pub input_rate : Components → Input → ℕ
input_rate cs i = if i.is_bucket then i.element_rate else cs.sample_rate i.component

abbrev pub output_rate : Components → Output → ℕ
output_rate cs o = if o.is_device then o.element_rate else cs.sample_rate o.component

-- if (rate > maxRate) maxRate = rate
abbrev pub raise : ℕ → ℕ → ℕ
raise rate most = if leb rate most then most else rate

unfoldable pub with_inputs : Components → List Input → Joining → Joining
with_inputs cs [] j = j
with_inputs cs (i ∷ rest) j = with_inputs cs rest (record j {
  mask = bit_or j.mask (cs.physical_mask i.component);
  max_rate = raise (input_rate cs i) j.max_rate;
})

-- An output with its inputs.
unfoldable pub add_with : Components → Output → List Input → Joining → Option Joining
add_with cs o ins j =
    let j' = with_inputs cs ins (record j {
      outputs = j.outputs ++ record o { inputs = ins } ∷ [];
      mask = bit_or j.mask (cs.physical_mask o.component);
    }) in
    if length ins == 0
    then none
    else some (record j' {
      max_rate = raise (output_rate cs o) j'.max_rate;
      processed = o.component ∷ j'.processed;
    })

-- An output whose component is not processed yet.
unfoldable pub add_output : Bool → Components → List Flow → Output → Joining → Option Joining
add_output average cs fl o j = add_with cs o (joined_inputs average o (groups o.component fl)) j

unfoldable pub process_outputs :
    Bool → Components → List Flow → List Output → Joining → Option Joining
process_outputs average cs fl [] j = some j
process_outputs average cs fl (o ∷ os) j =
    (if contains o.component j.processed then some j else add_output average cs fl o j)
    >>= process_outputs average cs fl os

unfoldable pub process_from : Bool → Components → List Flow → List Flow → Joining → Option Joining
process_from average cs fl [] j = some j
process_from average cs fl (f ∷ fs) j =
    (if starts f then process_outputs average cs fl f.outputs j else some j)
    >>= process_from average cs fl fs

abbrev pub nothing_joined : Joining
nothing_joined = record { outputs = []; mask = 0; max_rate = 0; processed = [] }

abbrev pub settled : Flow → Flow
settled f = record f { state = f.pending_state }

-- AuProcessFlows: the flow that is made with its rate, and the flows with their new states; or NULL.
unfoldable pub process_flows : Bool → Components → List Flow → Option (Joining × List Flow)
process_flows average cs fl =
    process_from average cs fl fl nothing_joined >>= λ j. some (j, map settled fl)
