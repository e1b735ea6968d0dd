-- ===== src/Events.antt =====
-- The queue of audio events, server/dia/auevents.c. The doubly linked list is the list of its nodes,
-- the oldest first; the pointer to its tail is kept apart, as what it points to. Nothing is added
-- while events are processed.
pub mod Order
pub mod Credit
mod Tests
use nas.Prelude.{
  ℕ, ◌+◌, ◌-◌, ◌^◌, ◌%◌, Bool, true, false, not, Option, none, some, List, [], ◌∷◌, ◌++◌, ◌==◌,
  if◌then◌else◌,
}
use nas.Play.{ElementState, stopped, started, paused}
use nas.Element.{Kind, import_client, export_client}

-- The parts of ComponentRec and FlowElementRec that an event reads or writes.
pub record Client : Type 0 where
  pub data_size : ℕ
  pub current_size : ℕ
  pub incoming : ℕ
  pub outgoing : ℕ

pub record Source : Type 0 where
  pub client : ℕ
  pub flow : ℕ
  pub number : ℕ
  pub kind : Kind
  pub state : ElementState
  pub prev_state : ElementState

pub record Event : Type 0 where
  pub time : ℕ
  pub flow : ℕ
  pub element_num : ℕ
  pub kind : ℕ
  pub reason : ℕ
  pub prev_state : ElementState
  pub cur_state : ElementState
  pub num_bytes : ℕ

-- What a node asks for: to process the clocked flows, or to write an event to a client.
pub data Work : Type 0 where
  process_clocked_flows : Work
  write : ℕ → Event → Work

-- A node that processes flows has no flow of its own: the one it has is what the memory held.
pub record Node : Type 0 where
  pub flow : ℕ
  pub work : Work

-- NULL, the last node, or a node that has been freed.
pub data Tail : Type 0 where
  nothing last freed : Tail

pub record Queue : Type 0 where
  pub nodes : List Node
  pub tail : Tail

abbrev pub kind_special : ℕ
kind_special = 255

-- `fillInEvent`: the bytes of the event and the component after it. Differences wrap.
abbrev pub minus : ℕ → ℕ → ℕ
minus a b = (a + 2 ^ 32 - b % 2 ^ 32) % 2 ^ 32

abbrev pub is_stopped : ElementState → Bool
is_stopped stopped = true
is_stopped _ = false

unfoldable pub fill_bytes : Source → Client → ℕ × Client
fill_bytes el c = elim el.kind [
  | import_client ↦
      let n = minus (minus c.data_size c.current_size) c.incoming in
      if is_stopped el.state then (n, c) else (n, record c { incoming = (c.incoming + n) % 2 ^ 32 })
  | export_client ↦
      let n = minus c.current_size c.outgoing in
      (n, record c { outgoing = (c.outgoing + n) % 2 ^ 32 })
  | _ ↦ (0, c)
]

abbrev pub filled : ℕ → ℕ → ℕ → Source → ℕ → Event
filled now kind reason el num_bytes = record {
  time = now;
  flow = el.flow;
  element_num = el.number;
  kind = kind;
  reason = reason;
  prev_state = el.prev_state;
  cur_state = el.state;
  num_bytes = num_bytes;
}

-- AddToEventQueue: `none` where it writes to a node that has been freed.
unfoldable pub add_to_event_queue : Node → Queue → Option Queue
add_to_event_queue p q = elim q.tail [
  | nothing ↦ some (record { nodes = p ∷ []; tail = last })
  | last ↦ some (record { nodes = q.nodes ++ p ∷ []; tail = last })
  | freed ↦ none
]

-- AuRequestElementNotifyEvent with memory for the node, which holds `stale` where the flow will be.
unfoldable pub request_element_notify_event :
    ℕ → ℕ → ℕ → ℕ → Source → Client → Queue → Option (Queue × Client)
request_element_notify_event now stale kind reason el c q =
    let (n, c') = fill_bytes el c in
    let q' = add_to_event_queue (record { flow = stale; work = process_clocked_flows }) q in
    let q'' =
      add_to_event_queue
        (record { flow = el.flow; work = write el.client (filled now kind reason el n) }) q in
    if kind == kind_special
    then elim q' [ none ↦ none | some r ↦ some (r, c) ]
    else elim q'' [ none ↦ none | some r ↦ some (r, c') ]

-- What ProcessAudioEvents does for a node, where its client is not gone. The sequence number that it
-- puts into the event is left out.
abbrev pub done : (ℕ → Bool) → Node → List Work
done gone p = elim p.work [
  | process_clocked_flows ↦ process_clocked_flows ∷ []
  | write client e ↦ if gone client then [] else write client e ∷ []
]

-- ProcessAudioEvents from a node on, which is the first one.
unfoldable pub process_from : (ℕ → Bool) → List Node → Tail → Queue × List Work
process_from gone [] tail = (record { nodes = []; tail = tail }, [])
process_from gone (p ∷ rest) tail =
    let (q, works) = process_from gone rest (elim rest [ [] ↦ nothing | r ∷ rs ↦ tail ]) in
    (q, done gone p ++ works)

abbrev pub process_audio_events : (ℕ → Bool) → Queue → Queue × List Work
process_audio_events gone q = process_from gone q.nodes q.tail

-- The tail after a node is unlinked, from the nodes behind it and before it: NULL if no node is left,
-- and not moved else.
abbrev pub unlinked : List Node → List Node → Tail → Tail
unlinked (r ∷ rest) kept tail = tail
unlinked [] [] tail = nothing
unlinked [] (k ∷ kept) last = freed
unlinked [] (k ∷ kept) nothing = nothing
unlinked [] (k ∷ kept) freed = freed

-- AuDequeueEvents from a node on, behind those that have been kept.
unfoldable pub dequeue_from : ℕ → List Node → List Node → Tail → Queue
dequeue_from flow kept [] tail = record { nodes = kept; tail = tail }
dequeue_from flow kept (p ∷ rest) tail =
    dequeue_from flow (if p.flow == flow then kept else kept ++ p ∷ []) rest
      (if p.flow == flow then unlinked rest kept tail else tail)

abbrev pub dequeue_events : ℕ → Queue → Queue
dequeue_events flow q = dequeue_from flow [] q.nodes q.tail
