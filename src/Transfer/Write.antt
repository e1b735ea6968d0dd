-- ===== src/Transfer/Write.antt =====
-- ProcAuWriteElement of server/dia/audispatch.c appends bytes to a port's queue.
use nas.Prelude.{
  ℕ, ◌+◌, ◌-◌, ◌/◌, ◌%◌, ◌^◌, ◌≤◌, ◌<◌, ◌≡◌, refl, sym, ap, subst, append-nil, ◌∙◌, true, false,
  not, ◌&&◌, ◌||◌, some, List, [], ◌∷◌, ◌++◌, length, drop, get_elem?, ◌==◌, nonzero, if◌then◌else◌,
  Bool-cases, inl, inr, arith,
}
use nas.Play.{paused}
use nas.Element.Change.{same_state}
use nas.Stream.Port.{Port}
use nas.Stream.Laws.{length-drop}
use nas.Stream.Picks.{take-all}
use nas.Stream.Queue.{queue, IsPort}
use nas.Stream.Frames.{place}
use nas.Stream.Write.{IsBehind, written, length-written, ring-written, write-lt}
use nas.Transfer.{
  Flow, Element, done, bad_value, WriteRequest, transfer_pending, transfer_end, valid_transfer,
  write_bytes, write_port, write_to_port, write_element, put_component, is_import_client,
}

-- An import of a flow that is not trivial, with a port in order and a request that is.
pub record IsImport (fl : Flow) (r : WriteRequest) (e : Element) : Type 0 where
  pub there : get_elem? fl.elements r.element_num ≡ some e
  pub import : is_import_client e.kind ≡ true
  pub plain : fl.trivial ≡ false
  pub valid : valid_transfer r.state ≡ true
  pub sized : r.words ≡ (r.num_bytes + 3) % 2 ^ 32 / 4
  pub whole : length r.bytes ≡ r.num_bytes
  pub in_order : IsPort e.component
  pub behind : IsBehind e.component
  pub small : length e.component.frames < 2 ^ 31

module _ (c : Port) (v : IsPort c) (behind : IsBehind c) (small : length c.frames < 2 ^ 31)
    (s : List ℕ) (room : length s ≤ length c.frames - c.current_size) where
  write_bytes-written : write_bytes c (length s) s ≡ record c {
    frames = written c.frames c.write s;
    write = place c.frames c.write (length s);
    current_size = c.current_size + length s;
    incoming = (c.incoming + 2 ^ 32 - length s) % 2 ^ 32;
  }
  unfolding write_bytes
  write_bytes-written = ground (
    arith,
    v.fits,
    v.reads,
    room,
    small,
    take-all (length s) s (omega arith),
    take-all (length s - (length c.frames - c.write)) (drop (length c.frames - c.write) s)
        (omega (arith, length-drop (length c.frames - c.write) s)),
  )

  pub write_bytes_lem :
      (queue (write_bytes c (length s) s) ≡ queue c ++ s)
      × IsPort (write_bytes c (length s) s)
      × IsBehind (write_bytes c (length s) s)
  write_bytes_lem =
      let same =
        length-written c.frames c.write s (write-lt c v behind s room) (omega (arith, room)) in
      ground (
        arith,
        write_bytes-written,
        same,
        ring-written c v behind s room,
        write-lt c v behind s room,
        behind,
        v.reads,
        v.fits,
        room,
      )

eof-write_bytes : (c : Port) (n : ℕ) (s : List ℕ) → (write_bytes c n s).eof ≡ c.eof
unfolding write_bytes
eof-write_bytes c n s = refl

write_bytes-none : (c : Port) → queue c ≡ queue c ++ []
write_bytes-none c = sym (append-nil (queue c))

module _ (fl : Flow) (r : WriteRequest) (e : Element) (x : IsImport fl r e) where
  abbrev c : Port
  c = e.component

  written-Port :
      r.num_bytes ≤ length c.frames - c.current_size
      → (queue (if nonzero r.num_bytes then write_bytes c r.num_bytes r.bytes else c)
          ≡ queue c ++ r.bytes)
        × IsPort (if nonzero r.num_bytes then write_bytes c r.num_bytes r.bytes else c)
        × IsBehind (if nonzero r.num_bytes then write_bytes c r.num_bytes r.bytes else c)
  written-Port room = elim (Bool-cases (nonzero r.num_bytes)) [
    | inl some_bytes ↦ rw some_bytes (
        subst
          (λ n.
            (queue (write_bytes c n r.bytes) ≡ queue c ++ r.bytes)
            × IsPort (write_bytes c n r.bytes)
            × IsBehind (write_bytes c n r.bytes))
          x.whole (write_bytes_lem c x.in_order x.behind x.small r.bytes (omega (arith, x.whole))))
    | inr nothing_sent ↦ rw nothing_sent (
      write_bytes-none c
          ∙ ap (λ s. queue c ++ s) (empty r.bytes (ground (arith, x.whole, nothing_sent))),
      x.in_order,
      x.behind,
    )
  ]
    where
      empty : (s : List ℕ) → length s ≡ 0 → [] ≡ s
      empty [] h = refl
      empty (b ∷ s) h = absurd (omega (arith, h))

  -- ProcAuWriteElement of an import of a flow that is not trivial, where the request is in order and the
  -- port has room for its bytes, succeeds: the bytes are behind those of the port's queue, also around
  -- the end of the array, the port stays in order, the end of the data is noted if the client says so,
  -- and the element is started if bytes came, it was paused, and the transfer is not pending.
  pub write_element_lem :
      r.num_bytes ≤ length c.frames - c.current_size
      → (write_element (some fl) r
          ≡ done (record {
            flow = put_component fl r.element_num e (write_port c r);
            starts =
                not (r.state == transfer_pending)
                && nonzero r.num_bytes
                && same_state e.state paused;
          }))
        × (queue (write_port c r) ≡ queue c ++ r.bytes)
        × IsPort (write_port c r)
        × IsBehind (write_port c r)
        × ((write_port c r).eof ≡ (r.state == transfer_end || c.eof))
  unfolding write_element write_to_port
  write_element_lem room =
      let (queued, in_order, behind) = written-Port room in
      (
        ground
            (arith, x.there, x.import, x.plain, x.valid, x.sized, x.small, x.in_order.fits, room),
        ground (arith, queued),
        ground (arith, in_order),
        ground (arith, behind),
        ground (arith, eof-write_bytes c r.num_bytes r.bytes),
      )

  -- Where the port has no room for the bytes, the request is refused with their number.
  pub write_element-full :
      length c.frames - c.current_size < r.num_bytes
      → write_element (some fl) r ≡ bad_value r.num_bytes
  unfolding write_element write_to_port
  write_element-full full =
      ground (arith, x.there, x.import, x.plain, x.valid, x.sized, x.small, x.in_order.fits, full)
