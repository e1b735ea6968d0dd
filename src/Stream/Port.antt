-- ===== src/Stream/Port.antt =====
-- The client ports of server/dia/auprocess.c, readClient and writeClient. `frames`, `read` and
-- `write` are a component's array and the indices of its pointers.
use nas.Prelude.{
  Option, none, some, bit_and, ◌*◌, ◌%◌, ◌/◌, ◌^◌, ℕ, ◌+◌, ◌-◌, min, Bool, ◌&&◌, ◌||◌, not, List,
  [], ◌∷◌, ◌++◌, length, take, drop, ltb, leb, ◌==◌, nonzero, set, if◌then◌else◌,
}
use nas.Stream.{Run, Rate}

-- The parts of ComponentRec that the ports use; `dataSize` is the length of `frames`.
pub record Port : Type 0 where
  pub frames : List ℕ
  pub read : ℕ
  pub write : ℕ
  pub current_size : ℕ
  pub low_water_mark : ℕ
  pub high_water_mark : ℕ
  pub incoming : ℕ
  pub outgoing : ℕ
  pub eof : Bool

-- What the handler asks for at its end: an element's new state with the reason
-- (AuChangeElementState), or an event.
pub data Request : Type 0 where
  nothing : Request
  stop_eof : Request
  pause_underrun : Request
  pause_overrun : Request
  notify_low_water : Request
  notify_high_water : Request

-- The frames before the end of the array from an index on, as many as are asked for.
abbrev pub window : List ℕ → ℕ → ℕ → List ℕ
window frames from count = take count (drop from frames)

abbrev pub wrapped : List ℕ → ℕ → ℕ
wrapped frames at = if at == length frames then 0 else at

-- The port after a read, `currentSample`, the frames in the mini-buffer, and the request.
pub record Reading : Type 0 where
  pub port : Port
  pub current : ℕ
  pub minibuf : List ℕ
  pub request : Request

-- The two runs of readClient: the frames, `currentSample`, the frames read, and the read pointer.
pub record Passes : Type 0 where
  pub run : Run
  pub at : ℕ

unfoldable pub read_passes : Rate → ℕ → ℕ → Port → Passes
read_passes rate size current c =
    let pass1 = min (length c.frames - c.read) c.current_size in
    let first = rate size current (window c.frames c.read pass1) in
    let s = wrapped c.frames (c.read + first.used) in
    let pass2 = min (length c.frames - s) (c.current_size - first.used) in
    let second = rate (size - length first.out) first.current (window c.frames s pass2) in
    if ltb (length first.out) (min c.current_size size) && ltb pass1 c.current_size
    then record {
      run = record {
        out = first.out ++ second.out;
        current = second.current;
        used = first.used + second.used;
      };
      at = s + second.used;
    }
    else record { run = first; at = s }

abbrev pub read_request : Port → ℕ → Request
read_request c new_size =
    if new_size == 0
    then (if c.eof then stop_eof else pause_underrun)
    else if (ltb c.low_water_mark c.current_size || not (nonzero c.incoming))
        && leb new_size c.low_water_mark
        && not c.eof
    then notify_low_water
    else nothing

-- `curSize`, `currentSize & ~(bytesPerSample - 1)` in bytes, where the frames have so many; `none`
-- where what is left is not a number of whole frames.
unfoldable pub masked_size : ℕ → ℕ → Option ℕ
masked_size bytes_per_sample current_size =
    let bytes = bit_and (current_size * bytes_per_sample) (2 ^ 32 - bytes_per_sample) in
    if bytes % bytes_per_sample == 0 then some (bytes / bytes_per_sample) else none

-- `size` is the mini-buffer's chunk, and `current_size` is `curSize`, which is 0 for a port that leaves
-- the mini-buffer alone.
unfoldable pub read_masked : Rate → ℕ → ℕ → ℕ → Port → Reading
read_masked rate size current current_size c =
    let masked : Port = record c { current_size = current_size } in
    let p = read_passes rate size current masked in
    let new_size = current_size - p.run.used in
    if current_size == 0
    then record { port = c; current = current; minibuf = []; request = nothing }
    else record {
      port = record c { read = p.at; current_size = c.current_size - p.run.used };
      current = p.run.current;
      minibuf = p.run.out;
      request = read_request masked new_size;
    }

-- `none` is a read of broken frames, which is left out.
unfoldable pub read_client : Rate → ℕ → ℕ → ℕ → Port → Option Reading
read_client rate bytes_per_sample size current c =
    elim (masked_size bytes_per_sample c.current_size) [
      | none ↦ none
      | some current_size ↦ some (read_masked rate size current current_size c)
    ]

-- The array after frames are written from an index on.
abbrev pub put : List ℕ → ℕ → List ℕ → List ℕ
put frames at [] = frames
put frames at (x ∷ xs) = put (set frames at x) (at + 1) xs

unfoldable pub write_passes : Rate → ℕ → List ℕ → Port → Port × ℕ
write_passes rate current s c =
    let pass1 = min (length c.frames - c.write) (length c.frames - c.current_size) in
    let first = rate pass1 current s in
    let data1 = put c.frames c.write first.out in
    let d = wrapped c.frames (c.write + length first.out) in
    let pass2 = min (length s - pass1) (length c.frames - d) in
    let second = rate pass2 first.current (drop first.used s) in
    if ltb pass1 (length s)
    then (
      record c {
        frames = put data1 d second.out;
        write = d + length second.out;
        current_size = c.current_size + (length first.out + length second.out);
      },
      second.current,
    )
    else (
      record c { frames = data1; write = d; current_size = c.current_size + length first.out },
      first.current,
    )

abbrev pub write_request : Port → ℕ → ℕ → Request
write_request c size new_size =
    if ltb (length c.frames - c.current_size) size
    then pause_overrun
    else if (ltb c.current_size c.high_water_mark || not (nonzero c.outgoing))
        && leb c.high_water_mark new_size
    then notify_high_water
    else nothing

-- The argument `s` is the mini-buffer, up to `minibufBytes`.
unfoldable pub write_client : Rate → ℕ → List ℕ → Port → Port × ℕ × Request
write_client rate current s c =
    let (c', current') = write_passes rate current s c in
    (c', current', write_request c (length s) c'.current_size)
