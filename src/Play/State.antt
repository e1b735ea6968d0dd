-- ===== src/Play/State.antt =====
-- What starting flows and the state of a flow come to.
use nas.Prelude.{
  ◌≡◌, ◌≢◌, ◌⊎◌, inl, inr, Bool, true, false, ◌&&◌, ◌||◌, Option, none, some, List, [], ◌∷◌, length,
  nonzero, if◌then◌else◌, Bool-cases, arith,
}
use nas.Play.{
  CompiledFlow, Processing, enable_process_flow, disable_process_flow, start_flow, untagged,
  ElementState, stopped, started, paused, FlowElement, Counts, count_states, count_state,
  set_flow_state,
}

abbrev is_started : ElementState → Bool
is_started started = true
is_started stopped = false
is_started paused = false

abbrev is_paused : ElementState → Bool
is_paused paused = true
is_paused stopped = false
is_paused started = false

-- Some component of the flow passes the test.
abbrev pub any_component : (ElementState → Bool) → List FlowElement → Bool
any_component test [] = false
any_component test (e ∷ es) = e.is_component && test e.state || any_component test es

count_states-any :
    (es : List FlowElement) (c : Counts)
    → (nonzero (count_states es c).start ≡ (nonzero c.start || any_component is_started es))
      × (nonzero (count_states es c).pause ≡ (nonzero c.pause || any_component is_paused es))
unfolding count_states
count_states-any [] c = ground arith
count_states-any (e ∷ es) c =
    ground (arith, count_states-any es (if e.is_component then count_state e.state c else c))

-- A flow is started if any of its components is, else paused if any of them is, else stopped.
pub set_flow_state_lem :
    (es : List FlowElement)
    → set_flow_state es ≡ (
        if any_component is_started es
        then started
        else if any_component is_paused es
        then paused
        else stopped)
unfolding set_flow_state
set_flow_state_lem es = ground (arith, count_states-any es (record { start = 0; pause = 0 }))

-- The flow that is to run: one with outputs, with its tags cleared.
abbrev pub running : Option CompiledFlow → Option CompiledFlow
running none = none
running (some f) = if nonzero (length f.outputs) then some (untagged f) else none

abbrev pub is_running : Option CompiledFlow → Bool
is_running none = false
is_running (some f) = true

-- AuStartFlow says that a flow was started exactly where one with outputs is given, the processing
-- is then enabled and else not, the running flow is the given one with its tags cleared, and the
-- device layer is called exactly where that changes something.
pub start_flow_lem :
    (new_flow : Option CompiledFlow) (p : Processing)
    → let (p', old, status) = start_flow new_flow p in
      (p'.enabled ≡ status)
      × (old ≡ p.au_flow)
      × (p'.au_flow ≡ running new_flow)
      × (status ≡ is_running (running new_flow))
      × (((p'.enabled ≡ p.enabled) × (p'.calls ≡ p.calls))
          ⊎ ((p'.enabled ≢ p.enabled)
              × (p'.calls
                  ≡ (if p'.enabled then enable_process_flow else disable_process_flow) ∷ p.calls)))
unfolding start_flow
start_flow_lem none p = elim (Bool-cases p.enabled) [
  | inl e ↦ ground (arith, e)
  | inr e ↦ ground (arith, e)
]
start_flow_lem (some f) p = elim (Bool-cases (nonzero (length f.outputs))) [
  | inl o ↦ elim (Bool-cases p.enabled) [
    | inl e ↦ ground (arith, o, e)
    | inr e ↦ ground (arith, o, e)
  ]
  | inr o ↦ elim (Bool-cases p.enabled) [
    | inl e ↦ ground (arith, o, e)
    | inr e ↦ ground (arith, o, e)
  ]
]
