-- ===== src/Stream/Tests.antt =====
-- Runs of the rate converters and the client ports, and the theorems at a port whose queue wraps.
use nas.Prelude.{
  Option, none, some, List, ℕ, ◌+◌, ◌-◌, ◌*◌, ◌/◌, ◌^◌, ◌≤◌, ◌<◌, ◌≡◌, ◌≢◌, refl, ◌⊎◌, inl, inr,
  true, false, [], ◌∷◌, ◌++◌, length, drop, get_or, arith,
}
use nas.Stream.Rate.{resample, rate_convert, rate_null}
use nas.Stream.Rates.{rate_convert-IsRate}
use nas.Stream.Picks.{rate_convert-picks, rate_null-IsRate}
use nas.Stream.Port.{
  Request, Reading, masked_size, read_masked, stop_eof, nothing, pause_underrun, pause_overrun,
  Port, read_passes, read_client, write_passes, write_client,
}
use nas.Stream.Bucket.{BucketElement, read_bucket}
use nas.Stream.Buckets.{rest, read_bucket_lem}
use nas.Stream.Queue.{queue, IsPort}
use nas.Stream.Read.{Ready, read_client_lem}
use nas.Stream.Write.{IsBehind, write_client_lem, write_client-overrun}

-- Half a frame for each frame given: every frame twice.
abbrev half : ℕ
half = 2 ^ 15

twice : (rate_convert half 4 0 (7 ∷ 8 ∷ 9 ∷ [])).out ≡ 7 ∷ 7 ∷ 8 ∷ 8 ∷ []
unfolding rate_convert resample
twice = refl

-- Four frames, of which the first two are at the end of the array.
abbrev wrapping : Port
wrapping = record {
  frames = 3 ∷ 4 ∷ 0 ∷ 0 ∷ 1 ∷ 2 ∷ [];
  read = 4;
  write = 2;
  current_size = 4;
  low_water_mark = 1;
  high_water_mark = 5;
  incoming = 1;
  outgoing = 1;
  eof = false;
}

wrapping-queue : queue wrapping ≡ 1 ∷ 2 ∷ 3 ∷ 4 ∷ []
wrapping-queue = refl

wrapping-IsPort : IsPort wrapping
wrapping-IsPort = record { reads = omega arith; fits = omega arith }

abbrev minibuf_of : Option Reading → List ℕ
minibuf_of none = []
minibuf_of (some r) = r.minibuf

abbrev request_of : Option Reading → Request
request_of none = nothing
request_of (some r) = r.request

-- Frames of 3 bytes, of which the mask breaks the last.
broken_frame : masked_size 3 1 ≡ none
unfolding masked_size
broken_frame = refl

read_all : minibuf_of (read_client rate_null 2 6 0 wrapping) ≡ 1 ∷ 2 ∷ 3 ∷ 4 ∷ []
unfolding read_client read_masked masked_size read_passes rate_null
read_all = refl

underrun : request_of (read_client rate_null 2 6 0 wrapping) ≡ pause_underrun
unfolding read_client read_masked masked_size read_passes rate_null
underrun = refl

-- With every frame twice, the first pass gives as many frames as the queue has, and the second is
-- not made, though the mini-buffer has room for two more.
stops_at_wrap : minibuf_of (read_client (rate_convert half) 2 6 0 wrapping) ≡ 1 ∷ 1 ∷ 2 ∷ 2 ∷ []
unfolding read_client read_masked masked_size read_passes rate_convert resample
stops_at_wrap = refl

appended : queue (write_client rate_null 0 (8 ∷ 9 ∷ []) wrapping).0 ≡ 1 ∷ 2 ∷ 3 ∷ 4 ∷ 8 ∷ 9 ∷ []
unfolding write_client write_passes rate_null
appended = refl

all_read : (rate_convert half 9 0 (7 ∷ 8 ∷ [])).used ≡ 2
unfolding rate_convert resample
all_read = refl

third_is_next : 2 < length (rate_convert half 4 0 (7 ∷ 8 ∷ 9 ∷ [])).out
unfolding rate_convert resample
third_is_next = omega arith

rate_convert-picks_example :
    get_or (rate_convert half 4 0 (7 ∷ 8 ∷ 9 ∷ [])).out 2 0
    ≡ get_or (7 ∷ 8 ∷ 9 ∷ []) ((0 + 2 * half) / 2 ^ 16) 0
rate_convert-picks_example =
    rate_convert-picks half (omega arith) 4 0 2 (7 ∷ 8 ∷ 9 ∷ []) third_is_next

whole_queue-Ready :
    Ready (rate_convert half) (rate_convert-IsRate half) 4 0 wrapping wrapping-IsPort
unfolding rate_convert resample
whole_queue-Ready = inr (inl refl)

read_client_lem_example :
    (r : Reading) × (read_client (rate_convert half) (2 ^ 1) 4 0 wrapping ≡ some r)
    × (r.minibuf ≡ (rate_convert half 4 0 (queue wrapping)).out)
    × (r.port.current_size ≤ 4)
    × (queue r.port ≡ drop (4 - r.port.current_size) (queue wrapping))
    × IsPort r.port
    × ((r.port.current_size ≢ 0) ⊎ (r.request ≡ pause_underrun))
read_client_lem_example =
    read_client_lem (rate_convert half) (rate_convert-IsRate half) 4 0 wrapping wrapping-IsPort 1
      (omega arith) (omega arith) whole_queue-Ready (omega arith)

write_client_lem_example :
    let (c', current', request) = write_client rate_null 0 (8 ∷ 9 ∷ []) wrapping in
    (queue c' ≡ queue wrapping ++ (8 ∷ 9 ∷ []))
    × IsPort c'
    × IsBehind c'
    × (current' ≡ 0)
    × (request ≢ pause_overrun)
write_client_lem_example =
    write_client_lem wrapping wrapping-IsPort refl (8 ∷ 9 ∷ []) (omega arith) 0

write_client-overrun_example :
    let (c', current', request) = write_client rate_null 0 (7 ∷ 8 ∷ 9 ∷ []) wrapping in
    (request ≡ pause_overrun) × (6 < c'.current_size)
write_client-overrun_example =
    write_client-overrun wrapping (7 ∷ 8 ∷ 9 ∷ []) 0 wrapping-IsPort (omega arith) (omega arith)

-- A bucket of five frames, of which an element plays the first two.
abbrev five : BucketElement
five = record {
  frames = 1 ∷ 2 ∷ 3 ∷ 4 ∷ 5 ∷ [];
  at = 0;
  count_samples = true;
  num_left = 2;
  parms_changed = false;
  offset = 0;
  num_samples = 2;
}

abbrev played : BucketElement
played = record five { at = 2; num_left = 0 }

abbrev recording : BucketElement
recording = record five { at = 3; count_samples = false }

read_bucket_lem_example :
    let run = rate_null 4 0 (rest five) in
    let r = read_bucket rate_null 4 0 five in
    (r.minibuf ≡ run.out)
    × (rest r.element ≡ drop run.used (rest five))
    × (((r.element.at ≡ 5) × (r.request ≡ stop_eof)) ⊎ ((r.element.at < 5) × (r.request ≡ nothing)))
read_bucket_lem_example = read_bucket_lem rate_null 4 0 five rate_null-IsRate refl (omega arith)
