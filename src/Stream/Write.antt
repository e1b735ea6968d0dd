-- ===== src/Stream/Write.antt =====
-- writeClient of server/dia/auprocess.c, without rate conversion: frames go to the back of the
-- port's queue, and where it runs over, the count of frames exceeds the array.
use nas.Prelude.{
  ℕ, ◌+◌, ◌-◌, min, ◌≤◌, ◌<◌, ◌≡◌, ◌≢◌, inl, inr, List, ◌++◌, length, length-append, take, drop,
  ltb, leb, get_or, get_or-ext, if◌then◌else◌, Bool-cases, arith,
}
use nas.Stream.Rate.{rate_null}
use nas.Stream.Laws.{length-drop}
use nas.Stream.Picks.{length-take, take-all, get_or-drop}
use nas.Stream.Port.{pause_overrun, Port, write_passes, write_client, put, wrapped}
use nas.Stream.Queue.{ring, queue, IsPort}
use nas.Stream.Frames.{
  length-put, get_or-put_out, get_or-put_in, get_or-append_left, get_or-append_right, get_or-take,
  place, get_or-ring, length-ring,
}

-- The array after frames are written from an index on, around its end.
abbrev pub written : List ℕ → ℕ → List ℕ → List ℕ
written f w s =
    let room = length f - w in
    if leb (length s) room then put f w s else put (put f w (take room s)) 0 (drop room s)

module _ (f : List ℕ) (w : ℕ) (s : List ℕ) (inside : w < length f)
    (fits : length s ≤ length f) where
  pub length-written : length (written f w s) ≡ length f
  length-written = ground (
    arith,
    length-put f w s,
    length-put f w (take (length f - w) s),
    length-put (put f w (take (length f - w) s)) 0 (drop (length f - w) s),
  )

  get_or-written_in : (i : ℕ) → i < length s → get_or (written f w s) (place f w i) 0 ≡ get_or s i 0
  get_or-written_in i lt = elim (Bool-cases (leb (length s) (length f - w))) [
    | inl le ↦ ground (arith, get_or-put_in f w s i lt (ground arith))
    | inr gt ↦ elim (Bool-cases (ltb (w + i) (length f))) [
      | inl e ↦ ground (
        arith,
        length-take (length f - w) s,
        length-drop (length f - w) s,
        get_or-put_out (put f w (take (length f - w) s)) 0 (drop (length f - w) s) (w + i)
            (inr (ground (arith, length-drop (length f - w) s))),
        get_or-put_in f w (take (length f - w) s) i (ground (arith, length-take (length f - w) s))
            (ground (arith, length-take (length f - w) s)),
        get_or-take (length f - w) s i (ground arith),
      )
      | inr e ↦
          let at : 0 + (w + i - length f) ≡ w + i - length f = omega arith in
          let back : length f - w + (w + i - length f) ≡ i = ground arith in
          ground (
            arith,
            at,
            back,
            length-put f w (take (length f - w) s),
            get_or-put_in (put f w (take (length f - w) s)) 0 (drop (length f - w) s)
                (w + i - length f) (ground (arith, length-drop (length f - w) s))
                (ground
                  (arith, length-drop (length f - w) s, length-put f w (take (length f - w) s))),
            get_or-drop (length f - w) s (w + i - length f),
          )
    ]
  ]

  get_or-written_out :
      (j : ℕ)
      → (w ≤ j → w + length s ≤ j)
      → (j < w → w + length s ≤ length f + j)
      → j < length f
      → get_or (written f w s) j 0 ≡ get_or f j 0
  get_or-written_out j above below lt = elim (Bool-cases (leb (length s) (length f - w))) [
    | inl le ↦ elim (Bool-cases (ltb j w)) [
      | inl e ↦ ground (arith, get_or-put_out f w s j (inl (ground arith)))
      | inr e ↦ ground (arith, get_or-put_out f w s j (inr (ground arith)))
    ]
    | inr gt ↦ ground (
      arith,
      get_or-put_out (put f w (take (length f - w) s)) 0 (drop (length f - w) s) j
          (inr (ground (arith, length-drop (length f - w) s))),
      get_or-put_out f w (take (length f - w) s) j (inl (ground arith)),
    )
  ]

-- The write pointer stands behind the last frame of the queue.
abbrev pub IsBehind : Port → Type 0
IsBehind c = c.write ≡ place c.frames c.read c.current_size

module _ (c : Port) (v : IsPort c) (behind : IsBehind c) (s : List ℕ)
    (room : length s ≤ length c.frames - c.current_size) where
  pub write-lt : c.write < length c.frames
  write-lt = ground (arith, behind, v.reads, v.fits)

  pub ring-written :
      ring (written c.frames c.write s) c.read (c.current_size + length s) ≡ queue c ++ s
  ring-written =
      let f : List ℕ = c.frames in
      let F : List ℕ = written f c.write s in
      let same : length F ≡ length f = length-written f c.write s write-lt (omega arith) in
      let total : length (ring F c.read (c.current_size + length s)) ≡ c.current_size + length s =
        length-ring F c.read (c.current_size + length s) (omega (arith, same, v.fits)) in
      get_or-ext (ring F c.read (c.current_size + length s)) (queue c ++ s) 0
        (omega
          (arith, total, length-append (queue c) s, length-ring f c.read c.current_size v.fits))
        (λ i lt. elim (Bool-cases (ltb i c.current_size)) [
          | inl e ↦ ground (
            arith,
            same,
            behind,
            v.reads,
            v.fits,
            get_or-ring F c.read (c.current_size + length s) i (omega (arith, same, v.reads))
                (omega (arith, total, lt)),
            get_or-written_out f c.write s write-lt (omega arith) (place f c.read i)
                (ground (arith, behind)) (ground (arith, behind)) (ground (arith, v.reads, v.fits)),
            get_or-append_left (queue c) s i
                (ground (arith, length-ring f c.read c.current_size v.fits)),
            get_or-ring f c.read c.current_size i v.reads (ground arith),
          )
          | inr e ↦ ground (
            arith,
            same,
            behind,
            v.reads,
            v.fits,
            total,
            get_or-ring F c.read (c.current_size + length s) i (omega (arith, same, v.reads))
                (omega (arith, total, lt)),
            get_or-written_in f c.write s write-lt (omega arith) (i - c.current_size)
                (ground (arith, total)),
            get_or-append_right (queue c) s i
                (ground (arith, length-ring f c.read c.current_size v.fits)),
            length-ring f c.read c.current_size v.fits,
          )
        ])

  -- The write pointer after the frames.
  abbrev after : ℕ
  after =
      if leb (length s) (length c.frames - c.write)
      then wrapped c.frames (c.write + length s)
      else length s - (length c.frames - c.write)

  write_passes-null :
      (current : ℕ)
      → write_passes rate_null current s c ≡ (
        record c {
          frames = written c.frames c.write s;
          write = after;
          current_size = c.current_size + length s;
        },
        current,
      )
  unfolding write_passes rate_null
  write_passes-null current =
      let n : ℕ = length c.frames - c.write in
      elim (Bool-cases (leb (length s) n)) [
        | inl le ↦ ground (arith, v.fits, take-all (length s) s (omega arith))
        | inr gt ↦ ground (
          arith,
          v.fits,
          write-lt,
          length-take n s,
          length-drop n s,
          take-all (length (drop n s)) (drop n s) (omega arith),
        )
      ]

  -- writeClient without rate conversion, where the frames fit: they are appended to the queue, also
  -- around the end of the array, the port stays well-formed and the element goes on.
  pub write_client_lem :
      (current : ℕ)
      → let (c', current', request) = write_client rate_null current s c in
        (queue c' ≡ queue c ++ s)
        × IsPort c'
        × IsBehind c'
        × (current' ≡ current)
        × (request ≢ pause_overrun)
  unfolding write_client
  write_client_lem current =
      let e = write_passes-null current in
      let same = length-written c.frames c.write s write-lt (omega arith) in
      ground (arith, e, same, ring-written, write-lt, behind, v.reads, v.fits)

-- writeClient without rate conversion, where more frames come than there is room for: the element
-- is to pause, and the count of frames is then larger than the array.
pub write_client-overrun :
    (c : Port) (s : List ℕ) (current : ℕ)
    → IsPort c
    → c.write < length c.frames
    → length c.frames - c.current_size < length s
    → let (c', current', request) = write_client rate_null current s c in
      (request ≡ pause_overrun) × (length c.frames < c'.current_size)
unfolding write_client write_passes rate_null
write_client-overrun c s current v inside over =
    let pass1 : ℕ = min (length c.frames - c.write) (length c.frames - c.current_size) in
    let t : List ℕ = drop (min pass1 (length s)) s in
    let d : ℕ = wrapped c.frames (c.write + length (take (min pass1 (length s)) s)) in
    let pass2 : ℕ = min (length s - pass1) (length c.frames - d) in
    ground (
      arith,
      v.fits,
      length-take (min pass1 (length s)) s,
      length-drop (min pass1 (length s)) s,
      length-take (min pass2 (length t)) t,
    )
