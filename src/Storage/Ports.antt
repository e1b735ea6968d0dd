-- ===== src/Storage/Ports.antt =====
-- Whether a port of createPort, server/dia/auutil.c, fits into what was allocated for it.
use nas.Prelude.{
  ℕ, ◌+◌, ◌*◌, ◌%◌, ◌^◌, ◌≤◌, ◌<◌, ◌≡◌, sym, subst, Bool, false, some, Option-cases, ltb, inl, inr,
  ◌↔◌, arith,
}
use nas.Storage.{
  Machine, Port, PortParms, sizeof_sample, pad4_word, port_size, minibuf_size_of, new_port,
  create_port,
}

-- A port that was created is the new one, and its sizes have passed the check.
create_port-eq :
    (m : Machine) (granted : Bool) (p : PortParms) (port : Port)
    → create_port m granted p ≡ some (some port)
    → (size : ℕ) × (port
        ≡ new_port m p size
            (p.num_samples * size * p.num_tracks % 2 ^ 32)
            (minibuf_size_of m p.num_tracks))
      × (ltb
            (port_size m
              (p.num_samples * size * p.num_tracks % 2 ^ 32)
              (minibuf_size_of m p.num_tracks))
            (p.num_samples * size * p.num_tracks % 2 ^ 32)
          ≡ false)
unfolding create_port
create_port-eq m granted p port h = elim (Option-cases (sizeof_sample p.format)) [
  | inl e ↦ absurd (ground (arith, e, h))
  | inr (size, e) ↦ (size, ground (arith, e, h), ground (arith, e, h))
]

-- The record and two mini-buffers take little space.
abbrev pub HasSpace : Machine → PortParms → Type 0
HasSpace m p = m.header + minibuf_size_of m p.num_tracks * 2 + 6 < 2 ^ 31

-- What the check says of the sizes, with the sum in 32 bits.
checked-32 :
    (header d b : ℕ)
    → d < 2 ^ 32
    → header + b * 2 + 6 < 2 ^ 31
    → ltb ((header + pad4_word d + pad4_word b * 2 % 2 ^ 32) % 2 ^ 32) d ≡ false
    → (d ≤ pad4_word d)
      × (header + pad4_word d + b * 2
          ≤ (header + pad4_word d + pad4_word b * 2 % 2 ^ 32) % 2 ^ 32 % 2 ^ 32)
checked-32 header d b small space h = ground arith

checked-64 :
    (header d b : ℕ)
    → d < 2 ^ 32
    → header + b * 2 + 6 < 2 ^ 31
    → ltb ((header + pad4_word d + pad4_word b * 2 % 2 ^ 32) % 2 ^ 64) d ≡ false
    → (header + d ≤ (header + pad4_word d + pad4_word b * 2 % 2 ^ 32) % 2 ^ 64 % 2 ^ 32)
      ↔ (header + pad4_word d + pad4_word b * 2 < 2 ^ 32)
checked-64 header d b small space h = ((λ le. ground (arith, le)), (λ lt. ground (arith, lt)))

below : (n : ℕ) → n % 2 ^ 32 < 2 ^ 32
below n = omega arith

-- Where a size_t has 32 bits, the check of createPort is enough: if the record and two mini-buffers
-- need less than 2 ^ 31 bytes, then the data of a port that is created end before its mini-buffer, and
-- two mini-buffers end inside what was allocated.
pub create_port-fits :
    (m : Machine) (granted : Bool) (p : PortParms) (port : Port)
    → m.size_bits ≡ 32
    → HasSpace m p
    → create_port m granted p ≡ some (some port)
    → (port.data_end ≤ port.minibuf) × (port.minibuf + port.minibuf_size * 2 ≤ port.allocated)
create_port-fits m granted p port e space h =
    let (size, new, passed) = create_port-eq m granted p port h in
    let (before, all) =
      fits size (p.num_samples * size * p.num_tracks % 2 ^ 32)
        (below (p.num_samples * size * p.num_tracks)) passed in
    subst (λ q. (q.data_end ≤ q.minibuf) × (q.minibuf + q.minibuf_size * 2 ≤ q.allocated)) (sym new)
      (omega (arith, before), omega (arith, all))
  where
    fits :
        (size d : ℕ)
        → d < 2 ^ 32
        → ltb (port_size m d (minibuf_size_of m p.num_tracks)) d ≡ false
        → (d ≤ pad4_word d)
          × (m.header + pad4_word d + minibuf_size_of m p.num_tracks * 2
              ≤ port_size m d (minibuf_size_of m p.num_tracks) % 2 ^ 32)
    fits size d small =
        subst
          (λ w.
            ltb
                ((m.header + pad4_word d + pad4_word (minibuf_size_of m p.num_tracks) * 2 % 2 ^ 32)
                  % 2 ^ w)
                d
              ≡ false
            → (d ≤ pad4_word d)
              × (m.header + pad4_word d + minibuf_size_of m p.num_tracks * 2
                  ≤ (m.header
                      + pad4_word d
                      + pad4_word (minibuf_size_of m p.num_tracks) * 2 % 2 ^ 32)
                    % 2 ^ w
                    % 2 ^ 32))
          (sym e) (checked-32 m.header d (minibuf_size_of m p.num_tracks) small space)

-- Where a size_t has 64 bits, the check of createPort is not enough: if the record and two
-- mini-buffers need less than 2 ^ 31 bytes, then the data of a port that is created lie inside what was
-- allocated exactly where the record, the data and two mini-buffers need less than 2 ^ 32 bytes.
pub create_port-fits_iff :
    (m : Machine) (granted : Bool) (p : PortParms) (port : Port)
    → m.size_bits ≡ 64
    → HasSpace m p
    → create_port m granted p ≡ some (some port)
    → (port.data_end ≤ port.allocated)
      ↔ (m.header + pad4_word port.data_size + pad4_word port.minibuf_size * 2 < 2 ^ 32)
create_port-fits_iff m granted p port e space h =
    let (size, new, passed) = create_port-eq m granted p port h in
    subst
      (λ q.
        (q.data_end ≤ q.allocated)
        ↔ (m.header + pad4_word q.data_size + pad4_word q.minibuf_size * 2 < 2 ^ 32))
      (sym new)
      (fits (p.num_samples * size * p.num_tracks % 2 ^ 32)
        (below (p.num_samples * size * p.num_tracks)) passed)
  where
    fits :
        (d : ℕ)
        → d < 2 ^ 32
        → ltb (port_size m d (minibuf_size_of m p.num_tracks)) d ≡ false
        → (m.header + d ≤ port_size m d (minibuf_size_of m p.num_tracks) % 2 ^ 32)
          ↔ (m.header + pad4_word d + pad4_word (minibuf_size_of m p.num_tracks) * 2 < 2 ^ 32)
    fits d small =
        subst
          (λ w.
            ltb
                ((m.header + pad4_word d + pad4_word (minibuf_size_of m p.num_tracks) * 2 % 2 ^ 32)
                  % 2 ^ w)
                d
              ≡ false
            → (m.header + d
                ≤ (m.header + pad4_word d + pad4_word (minibuf_size_of m p.num_tracks) * 2 % 2 ^ 32)
                  % 2 ^ w
                  % 2 ^ 32)
              ↔ (m.header + pad4_word d + pad4_word (minibuf_size_of m p.num_tracks) * 2 < 2 ^ 32))
          (sym e) (checked-64 m.header d (minibuf_size_of m p.num_tracks) small space)
