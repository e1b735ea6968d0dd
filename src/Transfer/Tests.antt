-- ===== src/Transfer/Tests.antt =====
-- Ports that are read and written around the end of their arrays, a bucket that is, and the theorems
-- at them.
use nas.Prelude.{◌≡◌, refl, true, false, some, [], ◌∷◌, ◌++◌, take, drop, arith}
use nas.Play.{paused}
use nas.Element.{import_client, export_client, import_bucket}
use nas.Stream.Port.{Port}
use nas.Stream.Queue.{queue, IsPort}
use nas.Stream.Write.{IsBehind}
use nas.Transfer.{
  Element, Flow, done, outside, bad_element, WriteRequest, Sent, write_element, write_to_port,
  write_bytes, write_port, read_element, read_from_port, read_trivial, read_pieces, around_pieces,
  last_piece, read_port, padded, wire, put_component,
}
use nas.Transfer.Export.{IsExport, read_element_lem, read_element-torn}
use nas.Transfer.Write.{IsImport, write_element_lem}

-- Six bytes, three before the end of the array.
abbrev eight : Port
eight = record {
  frames = 14 ∷ 15 ∷ 16 ∷ 0 ∷ 0 ∷ 11 ∷ 12 ∷ 13 ∷ [];
  read = 5;
  write = 3;
  current_size = 6;
  low_water_mark = 0;
  high_water_mark = 0;
  incoming = 0;
  outgoing = 6;
  eof = false;
}

abbrev export_of : Port → Element
export_of c = record {
  kind = export_client;
  state = paused;
  component = c;
  bytes_per_sample = 1;
  offset = 0;
}

abbrev exporting : Port → Flow
exporting c = record { elements = export_of c ∷ []; trivial = false; count = 0 }

read_six :
    read_element (some (exporting eight)) 0 9
    ≡ done (record {
      flow = exporting (record eight { read = 3; current_size = 0; outgoing = 0 });
      num_bytes = 6;
      pieces = [] ∷ (11 ∷ 12 ∷ 13 ∷ 14 ∷ []) ∷ (15 ∷ 16 ∷ []) ∷ [];
      starts = true;
    })
unfolding read_element read_from_port read_pieces around_pieces last_piece
read_six = refl

eight-IsExport : IsExport (exporting eight) 0 (export_of eight)
eight-IsExport = record {
  there = refl;
  export = refl;
  plain = refl;
  in_order = record { reads = omega arith; fits = omega arith };
  small = omega arith;
}

read_element_lem_example :
    (sent : Sent) × (read_element (some (exporting eight)) 0 9 ≡ done sent)
    × (sent.num_bytes ≡ 6)
    × (wire sent.pieces ≡ padded (take 6 (queue eight)))
    × (sent.flow ≡ put_component (exporting eight) 0 (export_of eight) (read_port eight 6 3))
    × (queue (read_port eight 6 3) ≡ drop 6 (queue eight))
    × IsPort (read_port eight 6 3)
    × (sent.starts ≡ true)
read_element_lem_example =
    read_element_lem (exporting eight) 0 (export_of eight) eight-IsExport 9 refl

-- Three bytes, one before the end.
abbrev six : Port
six = record eight { frames = 12 ∷ 13 ∷ 0 ∷ 0 ∷ 0 ∷ 11 ∷ []; write = 2; current_size = 3 }

six-IsExport : IsExport (exporting six) 0 (export_of six)
six-IsExport = record {
  there = refl;
  export = refl;
  plain = refl;
  in_order = record { reads = omega arith; fits = omega arith };
  small = omega arith;
}

read_element-torn_example : read_element (some (exporting six)) 0 8 ≡ outside
read_element-torn_example = read_element-torn (exporting six) 0 (export_of six) six-IsExport 8 refl

-- Four bytes into a port of six that holds one, which is the last of its array but one.
abbrev nearly_empty : Port
nearly_empty = record {
  frames = 0 ∷ 0 ∷ 0 ∷ 0 ∷ 7 ∷ 0 ∷ [];
  read = 4;
  write = 5;
  current_size = 1;
  low_water_mark = 0;
  high_water_mark = 0;
  incoming = 5;
  outgoing = 0;
  eof = false;
}

abbrev import_of : Port → Element
import_of c = record (export_of c) { kind = import_client }

abbrev importing : Port → Flow
importing c = record { elements = import_of c ∷ []; trivial = false; count = 0 }

abbrev four_bytes : WriteRequest
four_bytes = record {
  element_num = 0;
  state = 2;
  num_bytes = 4;
  words = 1;
  bytes = 1 ∷ 2 ∷ 3 ∷ 4 ∷ [];
}

written_around :
    write_element (some (importing nearly_empty)) four_bytes
    ≡ done (record {
      flow = importing (record nearly_empty {
        frames = 2 ∷ 3 ∷ 4 ∷ 0 ∷ 7 ∷ 1 ∷ [];
        write = 3;
        current_size = 5;
        incoming = 0;
        eof = true;
      });
      starts = true;
    })
unfolding write_element write_to_port write_bytes
written_around = refl

four-IsImport : IsImport (importing nearly_empty) four_bytes (import_of nearly_empty)
four-IsImport = record {
  there = refl;
  import = refl;
  plain = refl;
  valid = refl;
  sized = refl;
  whole = refl;
  in_order = record { reads = omega arith; fits = omega arith };
  behind = refl;
  small = omega arith;
}

write_element_lem_example :
    (write_element (some (importing nearly_empty)) four_bytes
      ≡ done (record {
        flow =
            put_component
              (importing nearly_empty)
              0
              (import_of nearly_empty)
              (write_port nearly_empty four_bytes);
        starts = true;
      }))
    × (queue (write_port nearly_empty four_bytes) ≡ queue nearly_empty ++ 1 ∷ 2 ∷ 3 ∷ 4 ∷ [])
    × IsPort (write_port nearly_empty four_bytes)
    × IsBehind (write_port nearly_empty four_bytes)
    × ((write_port nearly_empty four_bytes).eof ≡ true)
write_element_lem_example =
    write_element_lem (importing nearly_empty) four_bytes (import_of nearly_empty) four-IsImport
      (omega arith)

-- A read of a bucket from behind its end.
abbrev short_bucket : Flow
short_bucket = record {
  elements = record (export_of eight) { kind = import_bucket; offset = 9 } ∷ export_of eight ∷ [];
  trivial = true;
  count = 0;
}

behind_the_end : read_element (some short_bucket) 1 4 ≡ outside
unfolding read_element read_trivial
behind_the_end = refl

no_import : write_element (some (exporting eight)) four_bytes ≡ bad_element 0
unfolding write_element
no_import = refl
