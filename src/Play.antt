-- ===== src/Play.antt =====
-- Starting and stopping the processing of flows, server/dia/auprocess.c, and the state of a flow,
-- server/dia/auutil.c. A compiled flow is the read tags of the inputs of each of its outputs.
pub mod State
mod Tests
use nas.Prelude.{
  ℕ, zero, suc, ◌+◌, ◌*◌, Bool, true, false, not, Option, none, some, List, [], ◌∷◌, length, map,
  nonzero, if◌then◌else◌,
}

pub record CompiledFlow : Type 0 where
  pub outputs : List (List ℕ)

-- The calls of the device layer that the processing makes.
pub data Callback : Type 0 where
  enable_process_flow : Callback
  disable_process_flow : Callback

pub record Processing : Type 0 where
  pub au_flow : Option CompiledFlow
  pub read_tag : ℕ
  pub enabled : Bool
  pub calls : List Callback

abbrev pub untagged : CompiledFlow → CompiledFlow
untagged f = record { outputs = map (λ inputs. map (λ tag. 0) inputs) f.outputs }

abbrev pub disable : Processing → Processing
disable p =
    if p.enabled then record p { enabled = false; calls = disable_process_flow ∷ p.calls } else p

abbrev pub enable : Processing → Processing
enable p =
    if p.enabled then p else record p { enabled = true; calls = enable_process_flow ∷ p.calls }

-- Blocking the audio interrupt, and the call that sets the device's output function, are left out.
-- The result is the new state, the old flow, and whether a flow was started.
unfoldable pub start_flow :
    Option CompiledFlow → Processing → Processing × Option CompiledFlow × Bool
start_flow none p = (disable (record p { au_flow = none }), p.au_flow, false)
start_flow (some f) p =
    if nonzero (length f.outputs)
    then (enable (record p { au_flow = some (untagged f); read_tag = 0 }), p.au_flow, true)
    else (disable (record p { au_flow = none }), p.au_flow, false)

-- `process` is AuProcessFlow of the running flow.
unfoldable pub process_data : (CompiledFlow → Processing → Processing) → Processing → Processing
process_data process p = elim p.au_flow [ none ↦ disable p | some f ↦ process f p ]

pub data ElementState : Type 0 where
  stopped : ElementState
  started : ElementState
  paused : ElementState

pub record FlowElement : Type 0 where
  pub is_component : Bool
  pub state : ElementState

pub record Counts : Type 0 where
  pub start : ℕ
  pub pause : ℕ

-- The loop of setFlowState; the count of stopped elements is not used.
abbrev pub count_state : ElementState → Counts → Counts
count_state stopped c = c
count_state started c = record c { start = c.start + 1 }
count_state paused c = record c { pause = c.pause + 1 }

unfoldable pub count_states : List FlowElement → Counts → Counts
count_states [] c = c
count_states (e ∷ es) c = count_states es (if e.is_component then count_state e.state c else c)

unfoldable pub set_flow_state : List FlowElement → ElementState
set_flow_state es =
    let c = count_states es (record { start = 0; pause = 0 }) in
    if nonzero c.start then started else if nonzero c.pause then paused else stopped
