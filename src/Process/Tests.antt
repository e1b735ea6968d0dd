-- ===== src/Process/Tests.antt =====
-- Flows that are processed together, for AuProcessFlows of server/dia/auutil.c.
use nas.Prelude.{ℕ, ◌*◌, ◌^◌, ◌≡◌, refl, true, false, none, some, List, [], ◌∷◌, ◌++◌, map}
use nas.Mix.Fixed.{fixed_point_multiply}
use nas.Play.{stopped, started, paused}
use nas.Process.{
  Input, Output, Flow, Components, Joining, flow_groups, groups, copy_groups, with_inputs, add_with,
  add_output, process_outputs, process_from, process_flows, settled,
}
use nas.Process.Groups.{all_started, all_shared}
use nas.Process.Firsts.{occurs, firsts, all_distinct, components_of}
use nas.Process.Joined.{joined, all_fed}
use nas.Process.Rates.{highest, process_flows_lem, process_flows-null}

abbrev at_rates : Components
at_rates = record { sample_rate = λ c. 1000 * c; physical_mask = λ c. 1 }

abbrev unity : ℕ → Input
unity c = record { component = c; multiply_constant = 2 ^ 16; is_bucket = false; element_rate = 0 }

abbrev speaker : List Input → Output
speaker ins = record { component = 1; is_device = true; element_rate = 8000; inputs = ins }

abbrev recorder : List Input → Output
recorder ins = record { component = 2; is_device = false; element_rate = 0; inputs = ins }

-- Two flows that play on a speaker, one of them also on a recorder, and one that does not start.
abbrev two_players : List Flow
two_players =
    record { outputs = speaker (unity 5 ∷ []) ∷ []; state = stopped; pending_state = started }
    ∷ record { outputs = speaker (unity 7 ∷ []) ∷ []; state = started; pending_state = paused }
    ∷ record {
      outputs = recorder (unity 6 ∷ []) ∷ speaker (unity 6 ∷ unity 9 ∷ []) ∷ [];
      state = started;
      pending_state = started;
    }
    ∷ []

abbrev at_half : ℕ → Input
at_half c = record (unity c) { multiply_constant = 2 ^ 15 }

abbrev played : Joining
played = record {
  outputs = speaker (at_half 5 ∷ at_half 6 ∷ at_half 9 ∷ []) ∷ recorder (unity 6 ∷ []) ∷ [];
  mask = 1;
  max_rate = 9000;
  processed = 2 ∷ 1 ∷ [];
}

two_players_processed :
    process_flows true at_rates two_players ≡ some (played, map settled two_players)
unfolding process_flows process_from process_outputs add_output add_with with_inputs groups
    flow_groups copy_groups fixed_point_multiply
two_players_processed = refl

two_players_fed : all_fed (all_started two_players) ≡ true
unfolding all_started
two_players_fed = refl

process_flows_lem_example :
    (j : Joining) × (process_flows true at_rates two_players
      ≡ some (j, map (λ (f : Flow). record f { state = f.pending_state }) two_players))
    × (j.outputs ≡ map (joined true two_players) (firsts [] (all_started two_players)))
    × (all_distinct (components_of j.outputs) ≡ true)
    × ((c : ℕ)
        → occurs c (components_of j.outputs) ≡ occurs c (components_of (all_started two_players)))
    × (j.max_rate ≡ highest at_rates j.outputs)
process_flows_lem_example = process_flows_lem true at_rates two_players two_players_fed

-- A flow to a speaker, and one whose export is fed by a sum of nothing.
abbrev silenced : List Flow
silenced =
    record { outputs = speaker (unity 5 ∷ []) ∷ []; state = started; pending_state = started }
    ∷ record { outputs = recorder [] ∷ []; state = stopped; pending_state = started }
    ∷ []

silenced_all : all_started silenced ≡ (speaker (unity 5 ∷ []) ∷ []) ++ recorder [] ∷ []
unfolding all_started
silenced_all = refl

silenced_nothing : all_shared false 1 (groups 2 silenced) ≡ []
unfolding groups flow_groups all_shared
silenced_nothing = refl

process_flows-null_example : process_flows false at_rates silenced ≡ none
unfolding groups flow_groups
process_flows-null_example =
    process_flows-null false at_rates silenced (speaker (unity 5 ∷ []) ∷ []) (recorder []) []
      silenced_all refl silenced_nothing
