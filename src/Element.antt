-- ===== src/Element.antt =====
-- The states of a flow's elements and the actions that they trigger, server/dia/auutil.c:
-- AuChangeElementState and checkForTriggeredActions with `processFlow` AuFalse, as a stream's end, an
-- action and AuProcessStateChanges call them. Flows and components are found by number. A pointer into
-- a component's data is its distance from the start.
pub mod Change
pub mod Rule
pub mod Allowed
pub mod Flags
pub mod Pending
pub mod Measure
pub mod Ends
pub mod Loop
mod Tests
use nas.Prelude.{
  ℕ, ◌+◌, ◌*◌, ◌%◌, ◌^◌, Bool, true, false, ◌&&◌, not, Option, none, some, List, nonzero,
  if◌then◌else◌,
}
use nas.Play.{ElementState, stopped, started, paused}

pub data Kind : Type 0 where
  import_client import_device import_bucket import_wave_form : Kind
  bundle multiply_constant add_constant sum : Kind
  export_client export_device export_bucket export_monitor : Kind

-- What an action does. `none` for an element is AuElementAll.
pub data ActionKind : Type 0 where
  change_state : ℕ → Option ℕ → ElementState → ActionKind
  send_notify : ActionKind
  noop : ActionKind

-- `none` for a state or a reason is AuStateAny or AuReasonAny.
pub record Action : Type 0 where
  pub trigger_state : Option ElementState
  pub trigger_prev_state : Option ElementState
  pub trigger_reason : Option ℕ
  pub action : ActionKind

-- The parts of FlowElementRec that a change of state uses, with the parameters of the raw element.
pub record Element : Type 0 where
  pub kind : Kind
  pub is_component : Bool
  pub compiled : Bool
  pub state : ElementState
  pub prev_state : ElementState
  pub state_change : Bool
  pub actions : List Action
  pub component : ℕ
  pub current_sample : ℕ
  pub count_samples : Bool
  pub num_bytes : ℕ
  pub read : ℕ
  pub write : ℕ
  pub raw_num_samples : ℕ
  pub raw_offset : ℕ
  pub raw_frequency : ℕ

-- The parts of ComponentRec that a change of state uses; `cleared` says that a monitor's minima and
-- maxima are at their ends.
pub record Component : Type 0 where
  pub bytes_per_sample : ℕ
  pub wave_samples : ℕ
  pub frequency : ℕ
  pub read : ℕ
  pub write : ℕ
  pub incoming : ℕ
  pub outgoing : ℕ
  pub current_size : ℕ
  pub discard : Bool
  pub eof : Bool
  pub cleared : Bool

pub record Flow : Type 0 where
  pub elements : List Element
  pub pending_state : ElementState

-- An event asked for by AuRequestElementNotifyEvent.
pub record Notice : Type 0 where
  pub flow : ℕ
  pub element : ℕ
  pub state : ElementState
  pub prev_state : ElementState
  pub reason : ℕ

pub record Store : Type 0 where
  pub flows : ℕ → Flow
  pub components : ℕ → Component
  pub notices : List Notice

abbrev pub native_bytes_per_sample : ℕ
native_bytes_per_sample = 2

-- AuUnlimitedSamples is 0.
abbrev pub counted : ℕ → Element → Element
counted size e =
    if nonzero e.raw_num_samples
    then record e { count_samples = true; num_bytes = e.raw_num_samples * size % 2 ^ 32 }
    else record e { count_samples = false }

abbrev pub discarded : Component → Component
discarded c = record c { read = 0; write = 0; current_size = 0 }

-- An element that is started from a stop.
unfoldable pub start_element : Element → Component → Element × Component
start_element e c =
    let e' = record e { current_sample = 0 } in
    elim e.kind [
      | import_wave_form ↦ (
        record (counted native_bytes_per_sample e') { read = 0 },
        record c { frequency = e.raw_frequency * c.wave_samples % 2 ^ 32 },
      )
      | import_device ↦ (counted c.bytes_per_sample e', c)
      | export_device ↦ (counted c.bytes_per_sample e', c)
      | import_client ↦ (
        e',
        record (if c.discard then record (discarded c) { incoming = 0 } else c) { eof = false },
      )
      | export_client ↦ (e', if c.discard then record (discarded c) { outgoing = 0 } else c)
      | import_bucket ↦ (
        record (counted c.bytes_per_sample e') {
          read = e.raw_offset * c.bytes_per_sample % 2 ^ 32;
        },
        c,
      )
      | export_bucket ↦ (
        record (counted c.bytes_per_sample e') {
          write = e.raw_offset * c.bytes_per_sample % 2 ^ 32;
        },
        c,
      )
      | export_monitor ↦ (e', record c { cleared = true; write = c.read })
      | _ ↦ (e', c)
    ]
