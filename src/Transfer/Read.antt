-- ===== src/Transfer/Read.antt =====
-- ProcAuReadElement of server/dia/audispatch.c takes bytes off the front of a port's queue, except
-- where fewer than 4 bytes lie around the end of the array.
use nas.Prelude.{
  ℕ, ◌+◌, ◌-◌, ◌*◌, ◌/◌, ◌%◌, ◌^◌, ◌≤◌, ◌<◌, ◌≡◌, sym, ap, ap₂, ◌∙◌, Bool, true, false, ◌&&◌, none,
  some, List, [], ◌∷◌, ◌++◌, append-nil, append_assoc, length, length-append, drop, ltb, ◌==◌,
  nonzero, Bool-cases, inl, inr, arith,
}
use nas.Stream.Port.{Port, window}
use nas.Stream.Queue.{ring, queue, IsPort, ring-advance, ring-around}
use nas.Stream.Frames.{place}
use nas.Transfer.{padded, wire, last_piece, around_pieces, read_pieces, read_port}
use nas.Transfer.Pieces.{
  window-add, length-window, ring-window, ring-windows, wire-one, wire-two, wire-three,
}

-- Bytes from both sides of the end are put together, and fewer than 4 are left for that.
abbrev pub is_torn : Port → ℕ → Bool
is_torn c n =
    let left = length c.frames - c.read in
    ltb (length c.frames) (c.read + n) && nonzero (left % 4) && ltb (n - left / 4 * 4) 4

module _ (c : Port) (v : IsPort c) (small : length c.frames < 2 ^ 31) (n : ℕ)
    (fits : n ≤ c.current_size) where
  abbrev Reads : Type 0
  Reads =
      (pieces : List (List ℕ)) × (read_pieces c n ≡ some (pieces, place c.frames c.read n))
      × (wire pieces ≡ padded (ring c.frames c.read n))

  straight : ltb (length c.frames) (c.read + n) ≡ false → Reads
  unfolding read_pieces last_piece
  straight e = elim (Bool-cases (n == 0)) [
    | inl z ↦ ([], ground (arith, v.reads), ground arith)
    | inr z ↦ (
      window c.frames c.read n ∷ [],
      ground (arith, v.reads),
      wire-one (window c.frames c.read n)
          ∙ ap padded (sym (ring-window c.frames c.read n (ground arith))),
    )
  ]

  abbrev left : ℕ
  left = length c.frames - c.read

  aligned : ltb (length c.frames) (c.read + n) ≡ true → nonzero (left % 4) ≡ false → Reads
  unfolding read_pieces around_pieces last_piece
  aligned e whole = (
    window c.frames c.read left ∷ window c.frames 0 (n - left) ∷ [],
    ground (arith, v.reads, v.fits),
    wire-two (window c.frames c.read left) (window c.frames 0 (n - left))
          (ground (arith, length-window c.frames c.read left (omega (arith, v.reads))))
        ∙ ap padded (sym (ring-windows c.frames c.read n (omega (arith, v.reads)) (ground arith))),
  )

  abbrev whole : ℕ
  whole = left / 4 * 4

  abbrev odd : ℕ
  odd = left % 4

  -- The buffer of 4 bytes.
  abbrev buffer : List ℕ
  buffer = window c.frames (c.read + whole) odd ++ window c.frames 0 (4 - odd)

  module _ (e : ltb (length c.frames) (c.read + n) ≡ true) (split : nonzero (left % 4) ≡ true)
      (enough : ltb (n - whole) 4 ≡ false) where
    long : whole + 4 ≤ n
    long = ground (arith, e, split, enough, v.reads, fits)

    room : 4 - odd ≤ length c.frames
    room = ground (arith, e, split, enough, v.reads, v.fits, fits)

    length-buffer : length buffer ≡ 4
    length-buffer = ground (
      arith,
      v.reads,
      split,
      room,
      length-append (window c.frames (c.read + whole) odd) (window c.frames 0 (4 - odd)),
      length-window c.frames (c.read + whole) odd (omega (arith, v.reads)),
      length-window c.frames 0 (4 - odd) (omega (arith, room)),
    )

    ring-buffer :
        ring c.frames c.read n
        ≡ (window c.frames c.read whole ++ buffer) ++ window c.frames (4 - odd) (n - (whole + 4))
    ring-buffer =
        ring-windows c.frames c.read n (omega (arith, v.reads)) (ground (arith, e))
        ∙ ap₂ (λ xs ys. xs ++ ys)
            (ap (λ k. window c.frames c.read k) (omega arith)
              ∙ window-add c.frames c.read whole odd)
            (ap (λ k. window c.frames 0 k) (omega (arith, long, ground_odd))
              ∙ window-add c.frames 0 (4 - odd) (n - (whole + 4))
              ∙ ap (λ k. window c.frames 0 (4 - odd) ++ window c.frames k (n - (whole + 4)))
                  (omega arith))
        ∙ regroup (window c.frames c.read whole) (window c.frames (c.read + whole) odd)
            (window c.frames 0 (4 - odd)) (window c.frames (4 - odd) (n - (whole + 4)))
      where
        ground_odd : odd < 4
        ground_odd = omega arith

        regroup : (a b x y : List ℕ) → (a ++ b) ++ (x ++ y) ≡ (a ++ (b ++ x)) ++ y
        regroup a b x y = sym (append_assoc (a ++ b) x y) ∙ ap (λ t. t ++ y) (append_assoc a b x)

    torn_apart : Reads
    unfolding read_pieces around_pieces last_piece
    torn_apart = elim (Bool-cases (n - (whole + 4) == 0)) [
      | inl z ↦ (
        window c.frames c.read whole ∷ buffer ∷ [],
        ground (arith, v.reads, v.fits, e, split, enough, long),
        let zero_left : 0 ≡ n - (whole + 4) = ground (arith, z) in
            wire-two (window c.frames c.read whole) buffer
              (ground (arith, length-window c.frames c.read whole (omega (arith, v.reads))))
            ∙ ap padded (
                sym (append-nil (window c.frames c.read whole ++ buffer))
                ∙ ap (λ k. (window c.frames c.read whole ++ buffer) ++ window c.frames (4 - odd) k)
                    zero_left
                ∙ sym ring-buffer),
      )
      | inr z ↦ (
        window c.frames c.read whole ∷ buffer ∷ window c.frames (4 - odd) (n - (whole + 4)) ∷ [],
        ground (arith, v.reads, v.fits, e, split, enough, long),
        wire-three (window c.frames c.read whole) buffer
              (window c.frames (4 - odd) (n - (whole + 4)))
              (ground (arith, length-window c.frames c.read whole (omega (arith, v.reads))))
              (omega (arith, length-buffer))
            ∙ ap padded (sym ring-buffer),
      )
    ]

  -- Where no read is torn, the pieces are the first bytes of the queue, padded once, and the read
  -- pointer stands behind them.
  pub read_pieces_lem : is_torn c n ≡ false → Reads
  read_pieces_lem h = elim (Bool-cases (ltb (length c.frames) (c.read + n))) [
    | inl e ↦ elim (Bool-cases (nonzero (left % 4))) [
      | inl split ↦ torn_apart e split (ground (arith, e, split, h))
      | inr same ↦ aligned e same
    ]
    | inr e ↦ straight e
  ]

  -- Where it is, the count of the bytes that are left falls below 0, and memory is left.
  pub read_pieces-torn : is_torn c n ≡ true → read_pieces c n ≡ none
  unfolding read_pieces around_pieces last_piece
  read_pieces-torn h = ground (arith, h, v.reads, v.fits, fits, small)

  pub queue-read_port : queue (read_port c n (place c.frames c.read n)) ≡ drop n (queue c)
  queue-read_port = elim (Bool-cases (ltb (c.read + n) (length c.frames))) [
    | inl e ↦ rw e (
        sym (ring-advance c.frames c.read c.current_size v.fits v.reads n fits (ground (arith, e))))
    | inr e ↦ rw e (
        ap (λ k. ring c.frames k (c.current_size - n)) (ground (arith, e, v.reads))
        ∙ sym
            (ring-around c.frames c.read c.current_size v.fits v.reads n (ground (arith, e)) fits))
  ]

  pub read_port-IsPort : IsPort (read_port c n (place c.frames c.read n))
  read_port-IsPort = ground (arith, v.reads, v.fits, fits)
