-- ===== src/Events/Tests.antt =====
-- A queue with events of two flows, and the theorems at it.
use nas.Prelude.{ℕ, ◌≡◌, refl, none, some, List, [], ◌∷◌, arith}
use nas.Play.{stopped, started}
use nas.Element.{import_client}
use nas.Events.{
  Node, process_clocked_flows, write, Source, Client, fill_bytes, add_to_event_queue,
  request_element_notify_event, dequeue_events,
}
use nas.Events.Order.{queue_of, add_to_event_queue-dequeue_events}
use nas.Events.Credit.{IsSound, fill_bytes-IsSound}

abbrev import_source : Source
import_source = record {
  client = 3;
  flow = 40;
  number = 0;
  kind = import_client;
  state = started;
  prev_state = stopped;
}

abbrev half_full : Client
half_full = record { data_size = 100; current_size = 30; incoming = 20; outgoing = 0 }

abbrev clocked : Node
clocked = record { flow = 0; work = process_clocked_flows }

abbrev event_of : ℕ → Node
event_of flow = record {
  flow = flow;
  work = write 3 (record {
    time = 7;
    flow = flow;
    element_num = 0;
    kind = 0;
    reason = 0;
    prev_state = stopped;
    cur_state = started;
    num_bytes = 50;
  });
}

abbrev mixed : List Node
mixed = event_of 40 ∷ clocked ∷ event_of 41 ∷ []

-- The 50 bytes that are free are asked for, and are then on their way.
requested :
    request_element_notify_event 7 9 0 0 import_source half_full (queue_of [])
    ≡ some (
      queue_of (
          record {
            flow = 40;
            work = write 3 (record {
              time = 7;
              flow = 40;
              element_num = 0;
              kind = 0;
              reason = 0;
              prev_state = stopped;
              cur_state = started;
              num_bytes = 50;
            });
          }
          ∷ []),
      record half_full { incoming = 70 },
    )
unfolding request_element_notify_event add_to_event_queue fill_bytes
requested = refl

-- The last event is of the flow: the next one is written behind freed memory.
add_to_event_queue-dequeue_events_example :
    add_to_event_queue clocked (dequeue_events 41 (queue_of mixed)) ≡ none
add_to_event_queue-dequeue_events_example = add_to_event_queue-dequeue_events 41 mixed clocked

half_full-IsSound : IsSound half_full
half_full-IsSound = record { bounded = omega arith; coming = omega arith; going = omega arith }

fill_bytes-IsSound_example :
    IsSound (fill_bytes import_source half_full).1
    × ((fill_bytes import_source half_full).0 ≡ 50)
    × ((fill_bytes import_source half_full).1 ≡ record half_full { incoming = 70 })
fill_bytes-IsSound_example = fill_bytes-IsSound import_source half_full half_full-IsSound
