-- ===== src/Stream/Read.antt =====
-- readClient of server/dia/auprocess.c takes frames off the front of the port's queue.
use nas.Prelude.{
  ◌*◌, ◌^◌, some, ℕ, ◌+◌, ◌-◌, min, ◌≤◌, ◌<◌, ◌≡◌, ◌≢◌, refl, ap, ◌⊎◌, inl, inr, sym, List, [],
  append-nil, length, take, drop, ltb, leb, ◌==◌, if◌then◌else◌, Bool-cases, arith,
}
use nas.Stream.{Run, Rate}
use nas.Stream.Laws.{IsRate, length-drop}
use nas.Stream.Picks.{length-take}
use nas.Stream.Mask.{masked_size_lem}
use nas.Stream.Rate.{rate_null}
use nas.Stream.Picks.{rate_null-IsRate}
use nas.Stream.Port.{
  stop_eof, pause_underrun, Port, Passes, Reading, read_passes, read_masked, read_client, window,
  wrapped,
}
use nas.Stream.Queue.{ring, queue, IsPort, ring-advance, ring-around, ring-whole, ring-pieces}

module _ (rate : Rate) (law : IsRate rate) (size current : ℕ) (c : Port) (v : IsPort c) where
  abbrev pass1 : ℕ
  pass1 = min (length c.frames - c.read) c.current_size

  abbrev first_run : Run
  first_run = rate size current (window c.frames c.read pass1)

  abbrev Taken : Passes → Type 0
  Taken p =
      (p.run.out ≡ (rate size current (queue c)).out)
      × (p.run.used ≤ c.current_size)
      × (ring c.frames p.at (c.current_size - p.run.used) ≡ drop p.run.used (queue c))
      × (p.at < length c.frames)

  first_run-within : (first_run).used ≤ pass1
  first_run-within = omega (
    arith,
    law.within size current (window c.frames c.read pass1),
    length-take pass1 (drop c.read c.frames),
    length-drop c.read c.frames,
    v.reads,
  )

  -- One pass that gives what the whole queue would give.
  one_pass :
      (first_run).out ≡ (rate size current (queue c)).out
      → Taken (record { run = first_run; at = wrapped c.frames (c.read + (first_run).used) })
  one_pass same = elim (Bool-cases (c.read + (first_run).used == length c.frames)) [
    | inl e ↦ ground (
      arith,
      same,
      v.reads,
      first_run-within,
      ring-around c.frames c.read c.current_size v.fits v.reads (first_run).used,
    )
    | inr ne ↦ ground (
      arith,
      same,
      v.reads,
      first_run-within,
      ring-advance c.frames c.read c.current_size v.fits v.reads (first_run).used,
    )
  ]

  -- The first pass stops at the wrap only where the second is made: it has given too few frames, or
  -- all that are wanted, or no wrap is needed.
  abbrev pub Ready : Type 0
  Ready =
      (length (first_run).out < min c.current_size size)
      ⊎ (length (first_run).out ≡ size)
      ⊎ (c.current_size ≤ length c.frames - c.read)

  read_passes-one :
      (length (first_run).out ≡ size) ⊎ (c.current_size ≤ length c.frames - c.read)
      → read_passes rate size current c
        ≡ record { run = first_run; at = wrapped c.frames (c.read + (first_run).used) }
  unfolding read_passes
  read_passes-one (inl e) = ground arith
  read_passes-one (inr e) = ground arith

  rate-more : (want cur : ℕ) (t : List ℕ) → want ≡ 0 → (rate want cur t).out ≡ []
  rate-more want cur t e = ground (arith, law.enough want cur t)

  -- Where the first pass gives all the frames that are wanted, more frames would change nothing.
  same-full :
      length (first_run).out ≡ size
      → length c.frames - c.read < c.current_size
      → (first_run).out ≡ (rate size current (queue c)).out
  same-full full lt =
      let t : List ℕ =
        window c.frames 0
          (min (length c.frames - 0) (c.current_size - (length c.frames - c.read))) in
      let s : List ℕ = window c.frames c.read pass1 in
      let whole = ring-pieces c.frames c.read c.current_size v.fits v.reads lt in
      elim (Bool-cases (ltb (first_run).used (length s))) [
        | inl less ↦ rw (whole, law.stays size current s t (ground arith)) refl
        | inr all ↦
            rw
              (
                whole,
                law.goes_on size current s t (ground (arith, law.within size current s)),
                rate-more (size - length (first_run).out) (first_run).current t
                    (omega (arith, full)),
              )
              (sym (append-nil (first_run).out))
      ]

  two_passes :
      length (first_run).out < min c.current_size size
      → length c.frames - c.read < c.current_size
      → Taken (read_passes rate size current c)
  unfolding read_passes
  two_passes few lt =
      let t : List ℕ =
        window c.frames 0
          (min (length c.frames - 0) (c.current_size - (length c.frames - c.read))) in
      let s : List ℕ = window c.frames c.read pass1 in
      let long : length s ≡ length c.frames - c.read =
        omega (arith, length-take pass1 (drop c.read c.frames), length-drop c.read c.frames) in
      let all : (first_run).used ≡ length s = elim (law.stops size current s) [
        | inl e ↦ absurd (omega (arith, e))
        | inr e ↦ e
      ] in
      let second : Run = rate (size - length (first_run).out) (first_run).current t in
      ground (
        arith,
        v.reads,
        v.fits,
        long,
        all,
        ring-pieces c.frames c.read c.current_size v.fits v.reads lt,
        law.goes_on size current s t all,
        law.within (size - length (first_run).out) (first_run).current t,
        length-take (c.current_size - (length c.frames - c.read)) c.frames,
        ring-around c.frames c.read c.current_size v.fits v.reads ((first_run).used + second.used),
      )

  no_wrap : c.current_size ≤ length c.frames - c.read → Taken (read_passes rate size current c)
  no_wrap le = rw (read_passes-one (inr le)) (
      one_pass (
        ap (λ s. (rate size current s).out)
          (ring-whole c.frames c.read c.current_size v.fits v.reads le)))

  read_passes_lem : Ready → Taken (read_passes rate size current c)
  read_passes_lem (inr (inr le)) = no_wrap le
  read_passes_lem (inr (inl full)) =
      elim (Bool-cases (leb c.current_size (length c.frames - c.read))) [
        | inl le ↦ no_wrap (ground arith)
        | inr gt ↦ rw (read_passes-one (inl full)) (one_pass (same-full full (ground arith)))
      ]
  read_passes_lem (inl few) = elim (Bool-cases (leb c.current_size (length c.frames - c.read))) [
    | inl le ↦ no_wrap (ground arith)
    | inr gt ↦ two_passes few (ground arith)
  ]

  read_masked_lem :
      Ready
      → 0 < c.current_size
      → let r = read_masked rate size current c.current_size c in
        (r.minibuf ≡ (rate size current (queue c)).out)
        × (r.port.current_size ≤ c.current_size)
        × (queue r.port ≡ drop (c.current_size - r.port.current_size) (queue c))
        × IsPort r.port
        × ((r.port.current_size ≢ 0) ⊎ (r.request ≡ (if c.eof then stop_eof else pause_underrun)))
  unfolding read_masked
  read_masked_lem ready some_frames =
      let (same, le, left, inside) = read_passes_lem ready in ground (arith, v.fits)

  -- readClient of a port that is not empty, whose frames have 2 ^ k bytes, all of them less than
  -- 2 ^ 32, with a rate converter that can be taken up and where the second pass is made when it is
  -- needed, comes to an end: the mini-buffer gets what one run over the whole queue would give,
  -- whatever the wrap; the frames that were read are off the front of the queue; and the port has
  -- frames left, or the element is to stop, at the end of the input, or to pause.
  pub read_client_lem :
      (k : ℕ)
      → k ≤ 32
      → c.current_size * 2 ^ k < 2 ^ 32
      → Ready
      → 0 < c.current_size
      → (r : Reading) × (read_client rate (2 ^ k) size current c ≡ some r)
        × (r.minibuf ≡ (rate size current (queue c)).out)
        × (r.port.current_size ≤ c.current_size)
        × (queue r.port ≡ drop (c.current_size - r.port.current_size) (queue c))
        × IsPort r.port
        × ((r.port.current_size ≢ 0) ⊎ (r.request ≡ (if c.eof then stop_eof else pause_underrun)))
  unfolding read_client
  read_client_lem k le small ready some_frames =
      let (out, less, left, in_order, asks) = read_masked_lem ready some_frames in
      (
        read_masked rate size current c.current_size c,
        ground (arith, masked_size_lem k c.current_size le small),
        out,
        less,
        left,
        in_order,
        asks,
      )

-- rcNull always makes the second pass when it is needed.
pub rate_null-Ready :
    (size current : ℕ) (c : Port) (v : IsPort c) → Ready rate_null rate_null-IsRate size current c v
unfolding rate_null
rate_null-Ready size current c v =
    let count : ℕ = min (length c.frames - c.read) c.current_size in
    let s : List ℕ = window c.frames c.read count in
    let gives : length (take (min size (length s)) s) ≡ min size count = omega (
      arith,
      length-take (min size (length s)) s,
      length-take count (drop c.read c.frames),
      length-drop c.read c.frames,
      v.reads,
    ) in
    elim (Bool-cases (leb c.current_size (length c.frames - c.read))) [
      | inl le ↦ inr (inr (ground arith))
      | inr gt ↦ elim (Bool-cases (leb size count)) [
        | inl le ↦ inr (inl (ground (arith, gives)))
        | inr lt ↦ inl (ground (arith, gives))
      ]
    ]
