-- ===== src/Events/Credit.antt =====
-- What a client is told that it may send, in fillInEvent of server/dia/auevents.c.
use nas.Prelude.{ℕ, ◌+◌, ◌-◌, ◌^◌, ◌≤◌, ◌<◌, ◌≡◌, if◌then◌else◌, arith}
use nas.Element.{import_client, export_client}
use nas.Events.{Source, Client, is_stopped, fill_bytes}

-- The data and what is still to come fit into the port, and no more has been sent than there is.
pub record IsSound (c : Client) : Type 0 where
  pub bounded : c.data_size < 2 ^ 32
  pub coming : c.current_size + c.incoming ≤ c.data_size
  pub going : c.outgoing ≤ c.current_size

-- The bytes that an event tells of, and the port after it.
abbrev pub room : Source → Client → ℕ
room el c = elim el.kind [
  | import_client ↦ c.data_size - (c.current_size + c.incoming)
  | export_client ↦ c.current_size - c.outgoing
  | _ ↦ 0
]

abbrev pub noted : Source → Client → Client
noted el c = elim el.kind [
  | import_client ↦
      if is_stopped el.state then c else record c { incoming = c.data_size - c.current_size }
  | export_client ↦ record c { outgoing = c.current_size }
  | _ ↦ c
]

-- An event of a sound port keeps it sound. An import tells of as many bytes as there is room for
-- beside what is there and on its way, and while it is not stopped, all the room is on its way then;
-- an export tells of the bytes that have not been sent, and all have been sent then.
pub fill_bytes-IsSound :
    (el : Source) (c : Client)
    → IsSound c
    → IsSound (fill_bytes el c).1
      × ((fill_bytes el c).0 ≡ room el c)
      × ((fill_bytes el c).1 ≡ noted el c)
unfolding fill_bytes
fill_bytes-IsSound el c sound = (
  record {
    bounded = ground (arith, sound.bounded);
    coming = ground (arith, sound.bounded, sound.coming);
    going = ground (arith, sound.bounded, sound.coming, sound.going);
  },
  ground (arith, sound.bounded, sound.coming, sound.going),
  ground (arith, sound.bounded, sound.coming, sound.going),
)
