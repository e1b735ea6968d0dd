-- ===== src/Play/Tests.antt =====
-- The state of a small flow, and a flow with one output that is started.
use nas.Prelude.{true, false, none, List, [], ◌∷◌}
use nas.Play.{CompiledFlow, Processing, stopped, started, paused, FlowElement}

abbrev elements : List FlowElement
elements =
    record { is_component = true; state = paused }
    ∷ record { is_component = false; state = started }
    ∷ record { is_component = true; state = stopped }
    ∷ []

abbrev one_output : CompiledFlow
one_output = record { outputs = (3 ∷ 4 ∷ []) ∷ [] }

abbrev idle_server : Processing
idle_server = record { au_flow = none; read_tag = 7; enabled = false; calls = [] }
