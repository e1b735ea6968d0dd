-- ===== src/Transfer/Export.antt =====
-- ProcAuReadElement of server/dia/audispatch.c on the port of an export.
use nas.Prelude.{
  ℕ, zero, suc, ◌^◌, min, ◌≤◌, ◌<◌, ◌≡◌, refl, sym, ap, ◌∙◌, true, false, some, List, [], ◌∷◌, ◌++◌,
  length, take, drop, get_elem?, arith,
}
use nas.Play.{paused}
use nas.Element.Change.{same_state}
use nas.Stream.Port.{Port}
use nas.Stream.Queue.{queue, IsPort}
use nas.Stream.Frames.{place}
use nas.Transfer.{
  Flow, Element, done, outside, Sent, padded, wire, read_pieces, read_port, read_from_port,
  read_element, put_component, is_export_client,
}
use nas.Transfer.Read.{
  is_torn, read_pieces_lem, read_pieces-torn, queue-read_port, read_port-IsPort,
}

pub take-take_le : (n k : ℕ) (s : List ℕ) → n ≤ k → take n (take k s) ≡ take n s
take-take_le zero k s le = refl
take-take_le (suc n) zero s le = absurd (omega arith)
take-take_le (suc n) (suc k) [] le = refl
take-take_le (suc n) (suc k) (x ∷ xs) le = ap (λ t. x ∷ t) (take-take_le n k xs (omega arith))

-- How many bytes are read.
abbrev pub read_count : Element → ℕ → ℕ
read_count e num_bytes = min num_bytes e.component.current_size

-- An export of a flow that is not trivial, with a port in order.
pub record IsExport (fl : Flow) (i : ℕ) (e : Element) : Type 0 where
  pub there : get_elem? fl.elements i ≡ some e
  pub export : is_export_client e.kind ≡ true
  pub plain : fl.trivial ≡ false
  pub in_order : IsPort e.component
  pub small : length e.component.frames < 2 ^ 31

module _ (fl : Flow) (i : ℕ) (e : Element) (x : IsExport fl i e) (num_bytes : ℕ) where
  abbrev n : ℕ
  n = read_count e num_bytes

  abbrev port : Port
  port = read_port e.component n (place e.component.frames e.component.read n)

  read_element-done :
      (pieces : List (List ℕ)) (p : ℕ)
      → read_pieces e.component n ≡ some (pieces, p)
      → read_element (some fl) i num_bytes
        ≡ done (record {
          flow = put_component fl i e (read_port e.component n p);
          num_bytes = n;
          pieces = pieces;
          starts = same_state e.state paused;
        })
  unfolding read_element read_from_port
  read_element-done pieces p h = ground (arith, x.there, x.export, x.plain, h)

  -- ProcAuReadElement of an export of a flow that is not trivial, if the read is not torn at the end of
  -- the array: the reply tells of as many bytes as are asked for and there, the client gets the first
  -- bytes of the port's queue, padded once at the end, the port keeps the others and stays in order,
  -- and the element is started if it was paused.
  pub read_element_lem :
      is_torn e.component n ≡ false
      → (sent : Sent) × (read_element (some fl) i num_bytes ≡ done sent)
        × (sent.num_bytes ≡ n)
        × (wire sent.pieces ≡ padded (take n (queue e.component)))
        × (sent.flow ≡ put_component fl i e port)
        × (queue port ≡ drop n (queue e.component))
        × IsPort port
        × (sent.starts ≡ same_state e.state paused)
  read_element_lem h =
      let (pieces, runs, sends) =
        read_pieces_lem e.component x.in_order x.small n (omega arith) h in
      (
        record {
          flow = put_component fl i e port;
          num_bytes = n;
          pieces = pieces;
          starts = same_state e.state paused;
        },
        read_element-done pieces (place e.component.frames e.component.read n) runs,
        refl,
        sends
            ∙ ap padded (
                sym (
                  take-take_le n e.component.current_size
                    (drop e.component.read e.component.frames ++ e.component.frames)
                    (omega arith))),
        refl,
        queue-read_port e.component x.in_order x.small n (omega arith),
        read_port-IsPort e.component x.in_order x.small n (omega arith),
        refl,
      )

  -- Where the read goes around the end of the array, the bytes before the end are not a multiple of 4,
  -- and fewer than 4 are left behind the last multiple, ProcAuReadElement leaves the memory.
  pub read_element-torn :
      is_torn e.component n ≡ true → read_element (some fl) i num_bytes ≡ outside
  unfolding read_element read_from_port
  read_element-torn h = ground (
    arith,
    x.there,
    x.export,
    x.plain,
    read_pieces-torn e.component x.in_order x.small n (omega arith) h,
  )
