-- ===== src/Transfer.antt =====
-- The transfers between a client and its flow, ProcAuWriteElement and ProcAuReadElement of
-- server/dia/audispatch.c. A component's array is of bytes here, and its pointers are indices of it.
-- What another thread of control changes meanwhile is left out.
pub mod Pieces
pub mod Read
pub mod Export
pub mod Write
mod Tests
use nas.Prelude.{
  ℕ, ◌+◌, ◌-◌, ◌*◌, ◌/◌, ◌%◌, ◌^◌, min, Bool, true, false, ◌&&◌, ◌||◌, not, Option, none, some,
  List, [], ◌∷◌, ◌++◌, length, take, drop, replicate, get_elem?, set, ltb, leb, ◌==◌, nonzero,
  if◌then◌else◌,
}
use nas.Play.{ElementState, paused}
use nas.Element.{Kind, import_client, export_client}
use nas.Element.Change.{same_state}
use nas.Stream.Port.{Port, window, put}

-- The parts of FlowElementRec and FlowRec that a transfer uses, with the offset of a bucket's raw
-- element.
pub record Element : Type 0 where
  pub kind : Kind
  pub state : ElementState
  pub component : Port
  pub bytes_per_sample : ℕ
  pub offset : ℕ

pub record Flow : Type 0 where
  pub elements : List Element
  pub trivial : Bool
  pub count : ℕ

-- The answer to a request: an error with its value, an access outside the memory, or what it makes.
pub data Answer (A : Type 0) : Type 0 where
  done : A → Answer A
  bad_flow bad_length outside : Answer A
  bad_element bad_value : ℕ → Answer A

abbrev pub transfer_ready : ℕ
transfer_ready = 0

abbrev pub transfer_pending : ℕ
transfer_pending = 1

abbrev pub transfer_end : ℕ
transfer_end = 2

abbrev pub valid_transfer : ℕ → Bool
valid_transfer s = s == transfer_ready || s == transfer_pending || s == transfer_end

-- `length` is that of the request behind its header, in units of 4 bytes, and `bytes` are its data.
pub record WriteRequest : Type 0 where
  pub element_num : ℕ
  pub state : ℕ
  pub num_bytes : ℕ
  pub words : ℕ
  pub bytes : List ℕ

abbrev pub is_import_client : Kind → Bool
is_import_client import_client = true
is_import_client _ = false

abbrev pub is_export_client : Kind → Bool
is_export_client export_client = true
is_export_client _ = false

-- The flow after the request, and whether AuChangeElementState starts the element.
pub record Made : Type 0 where
  pub flow : Flow
  pub starts : Bool

abbrev pub put_component : Flow → ℕ → Element → Port → Flow
put_component fl i e c = record fl { elements = set fl.elements i (record e { component = c }) }

-- The index of the other element of a trivial flow.
abbrev pub other : ℕ → ℕ
other i = if nonzero i then 0 else 1

-- Where a trivial transfer stands in the bucket.
abbrev pub trivial_place : Flow → Element → ℕ
trivial_place fl e = e.offset * e.bytes_per_sample % 2 ^ 32 + fl.count

unfoldable pub write_trivial : Flow → WriteRequest → Answer Made
write_trivial fl r = elim (get_elem? fl.elements (other r.element_num)) [
  | none ↦ outside
  | some e ↦
      let d = trivial_place fl e in
      if ltb (length e.component.frames) (d + r.num_bytes)
      then bad_value r.num_bytes
      else done (record {
        flow =
            record (put_component fl (other r.element_num) e (record e.component {
              frames = put e.component.frames d (take r.num_bytes r.bytes);
            })) {
              count = if r.state == transfer_end then 0 else (fl.count + r.num_bytes) % 2 ^ 32;
            };
        starts = false;
      })
]

-- The bytes go behind the write pointer, and around the end.
unfoldable pub write_bytes : Port → ℕ → List ℕ → Port
write_bytes c count s =
    let n = min count (length c.frames - c.write) in
    let f = put c.frames c.write (take n s) in
    let d = c.write + count in
    record c {
      frames = if n == count then f else put f 0 (take (count - n) (drop n s));
      write = if leb (length c.frames) d then d - length c.frames else d;
      current_size = (c.current_size + count) % 2 ^ 32;
      incoming = (c.incoming + 2 ^ 32 - count) % 2 ^ 32;
    }

abbrev pub write_port : Port → WriteRequest → Port
write_port c r =
    let c' = if nonzero r.num_bytes then write_bytes c r.num_bytes r.bytes else c in
    if r.state == transfer_end then record c' { eof = true; incoming = 0 } else c'

-- The port of an import.
unfoldable pub write_to_port : Flow → WriteRequest → Element → Answer Made
write_to_port fl r e =
    if ltb ((length e.component.frames + 2 ^ 32 - e.component.current_size) % 2 ^ 32) r.num_bytes
    then bad_value r.num_bytes
    else done (record {
      flow = put_component fl r.element_num e (write_port e.component r);
      starts =
          not (r.state == transfer_pending) && nonzero r.num_bytes && same_state e.state paused;
    })

-- `none` is a flow that LookupIDByType does not find.
unfoldable pub write_element : Option Flow → WriteRequest → Answer Made
write_element none r = bad_flow
write_element (some fl) r = elim (get_elem? fl.elements r.element_num) [
  | none ↦ bad_element r.element_num
  | some e ↦
      if not (is_import_client e.kind)
      then bad_element r.element_num
      else if not (valid_transfer r.state)
      then bad_value r.state
      else if not (r.words == (r.num_bytes + 3) % 2 ^ 32 / 4)
      then bad_length
      else if fl.trivial
      then write_trivial fl r
      else write_to_port fl r e
]

-- What WriteToClient sends: the bytes, padded to a multiple of 4. The padding, which the code leaves
-- as it is in the buffer, is 0 here.
abbrev pub padded : List ℕ → List ℕ
padded xs = xs ++ replicate ((4 - length xs % 4) % 4) 0

abbrev pub wire : List (List ℕ) → List ℕ
wire [] = []
wire (xs ∷ rest) = padded xs ++ wire rest

-- The flow after the request, the bytes of its reply, the pieces that are written behind it, and
-- whether the element is started.
pub record Sent : Type 0 where
  pub flow : Flow
  pub num_bytes : ℕ
  pub pieces : List (List ℕ)
  pub starts : Bool

-- The last piece, if there is one, and the read pointer after it; `none` where it is not in the array.
unfoldable pub last_piece : List ℕ → ℕ → ℕ → List (List ℕ) → Option (List (List ℕ) × ℕ)
last_piece f p rest pieces =
    let p' = if leb (length f) (p + rest) then p + rest - length f else p + rest in
    if rest == 0
    then some (pieces, p')
    else if leb (p + rest) (length f)
    then some (pieces ++ window f p rest ∷ [], p')
    else none

-- The pieces where the read goes around the end: no piece but the last may be padded, so bytes from
-- both sides of the end are put together in a buffer of 4.
unfoldable pub around_pieces : List ℕ → ℕ → ℕ → Option (List (List ℕ) × ℕ)
around_pieces f p n =
    let left = length f - p in
    let whole = left / 4 * 4 in
    let odd = left % 4 in
    let rest = n - whole in
    let k = if ltb (4 - odd) rest then 4 - odd else rest in
    if nonzero odd
    then last_piece f k ((rest + 2 ^ 32 - (odd + k)) % 2 ^ 32)
        (window f p whole ∷ (window f (p + whole) odd ++ window f 0 k) ∷ [])
    else last_piece f 0 (n - left) (window f p left ∷ [])

unfoldable pub read_pieces : Port → ℕ → Option (List (List ℕ) × ℕ)
read_pieces c n =
    if ltb (length c.frames) (c.read + n)
    then around_pieces c.frames c.read n
    else last_piece c.frames c.read n []

-- The port after a read of `n` bytes.
abbrev pub read_port : Port → ℕ → ℕ → Port
read_port c n p = record c {
  read = p;
  current_size = c.current_size - n;
  outgoing = (c.outgoing + 2 ^ 32 - n) % 2 ^ 32;
}

unfoldable pub read_from_port : Flow → ℕ → ℕ → Element → Answer Sent
read_from_port fl i num_bytes e =
    let n = min num_bytes e.component.current_size in
    elim (read_pieces e.component n) [
      | none ↦ outside
      | some (pieces, p) ↦ done (record {
        flow = put_component fl i e (read_port e.component n p);
        num_bytes = n;
        pieces = pieces;
        starts = same_state e.state paused;
      })
    ]

-- A trivial read: `dataEnd - s` is negative where the place is outside, and is then the smaller.
unfoldable pub read_trivial : Flow → ℕ → ℕ → Answer Sent
read_trivial fl i num_bytes = elim (get_elem? fl.elements (other i)) [
  | none ↦ outside
  | some e ↦
      let s = trivial_place fl e in
      let n = min num_bytes (length e.component.frames - s) in
      if ltb (length e.component.frames) s
      then outside
      else done (record {
        flow = record fl { count = (fl.count + n) % 2 ^ 32 };
        num_bytes = n;
        pieces = window e.component.frames s n ∷ [];
        starts = false;
      })
]

unfoldable pub read_element : Option Flow → ℕ → ℕ → Answer Sent
read_element none i num_bytes = bad_flow
read_element (some fl) i num_bytes = elim (get_elem? fl.elements i) [
  | none ↦ bad_element i
  | some e ↦
      if not (is_export_client e.kind)
      then bad_element i
      else if fl.trivial
      then read_trivial fl i num_bytes
      else read_from_port fl i num_bytes e
]
