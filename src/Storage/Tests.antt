-- ===== src/Storage/Tests.antt =====
-- A port on a machine with a size_t of 32 and of 64 bits, buckets, and the theorems at them.
use nas.Prelude.{
  ℕ, ◌+◌, ◌*◌, ◌^◌, ◌≤◌, ◌<◌, ◌≡◌, ◌↔◌, refl, inr, true, false, none, some, List, [], ◌∷◌, arith,
}
use nas.Attributes.{Request, write_attributes, set_component_attributes}
use nas.Attributes.Match.{Hardware}
use nas.Storage.{
  Machine, Port, PortParms, Bucket, Granted, bad_length, pad4_word, create_port, create_bucket,
  new_port, new_bucket, bad_alloc, allocated, allocate_bucket, fill_bucket, place_bucket,
}
use nas.Storage.Ports.{create_port-fits, create_port-fits_iff}
use nas.Storage.Buckets.{allocate_bucket-fits_iff}

abbrev machine : ℕ → Machine
machine bits = record { size_bits = bits; header = 200; minibuf_samples = 800 }

-- Two tracks of 16 bits.
abbrev stereo : ℕ → PortParms
stereo samples = record {
  format = 6;
  num_tracks = 2;
  num_samples = samples;
  low_water = 10;
  high_water = 20;
  discard = true;
}

abbrev small_port : Port
small_port = new_port (machine 32) (stereo 100) 2 400 3200

small_created : create_port (machine 32) true (stereo 100) ≡ some (some small_port)
unfolding create_port
small_created = refl

create_port-fits_example :
    (small_port.data_end ≤ small_port.minibuf)
    × (small_port.minibuf + small_port.minibuf_size * 2 ≤ small_port.allocated)
create_port-fits_example =
    create_port-fits (machine 32) true (stereo 100) small_port refl (omega arith) small_created

-- Nearly 4 gigabytes: refused with 32 bits, and created with 64 in less space than the data.
port_refused : create_port (machine 32) true (stereo 1073741823) ≡ some none
unfolding create_port
port_refused = refl

abbrev large_port : Port
large_port = new_port (machine 64) (stereo 1073741823) 2 4294967292 3200

large_created : create_port (machine 64) true (stereo 1073741823) ≡ some (some large_port)
unfolding create_port
large_created = refl

create_port-fits_iff_example :
    (large_port.data_end ≤ large_port.allocated)
    ↔ (200 + pad4_word large_port.data_size + pad4_word large_port.minibuf_size * 2 < 2 ^ 32)
create_port-fits_iff_example =
    create_port-fits_iff (machine 64) true (stereo 1073741823) large_port refl (omega arith)
      large_created

abbrev request : ℕ → Request
request samples = record {
  value_mask = 196729;
  id = 77;
  kind = 0;
  use_mask = 0;
  format = 6;
  num_tracks = 1;
  access = 1;
  description_type = 1;
  description_len = 2;
  min_sample_rate = 0;
  max_sample_rate = 0;
  location = 0;
  gain = 0;
  line_mode = 0;
  num_children = 0;
  sample_rate = 8000;
  num_samples = samples;
}

abbrev named : List ℕ
named = 104 ∷ 105 ∷ 0 ∷ 0 ∷ []

abbrev enough : Granted
enough = record { bucket = true; resource = true; in_use = true }

-- The bucket that is allocated, and the bucket with its attributes.
abbrev empty_bucket : ℕ → ℕ → Bucket
empty_bucket samples data_size = new_bucket (machine 64) (request samples) 2 data_size

abbrev described : ℕ → Bucket → Bucket
described samples b = record b { component = write_attributes (request samples) named b.component }

abbrev tune : Bucket
tune = described 100 (empty_bucket 100 200)

tune_allocated :
    allocate_bucket (machine 64) true true (request 100) named
    ≡ some (allocated (empty_bucket 100 200))
unfolding allocate_bucket
tune_allocated = refl

too_short : create_bucket (machine 64) enough true (request 100) [] [] ≡ some ([], bad_length)
unfolding create_bucket allocate_bucket
too_short = refl

-- Where the client of the id is not in use, the bucket stays.
stays :
    create_bucket (machine 64) (record enough { in_use = false }) true (request 100) named []
    ≡ some (tune ∷ [], bad_alloc)
unfolding create_bucket allocate_bucket fill_bucket place_bucket set_component_attributes
stays = refl

-- A bucket of nearly 4 gigabytes: the description is written outside of what was allocated.
wrapped_size : create_bucket (machine 64) enough true (request 2147483600) named [] ≡ none
unfolding create_bucket allocate_bucket fill_bucket set_component_attributes
wrapped_size = refl

allocate_bucket-fits_iff_example :
    ((empty_bucket 100 200).data_end ≤ (empty_bucket 100 200).allocated)
    ↔ (200 + pad4_word 200 + pad4_word 2 < 2 ^ 32)
allocate_bucket-fits_iff_example =
    allocate_bucket-fits_iff (machine 64) true true (request 100) named (empty_bucket 100 200)
      (inr refl) tune_allocated (omega arith) (omega arith) (omega arith)

abbrev silent : Hardware
silent = record {
  input_gain = 0;
  output_gain = 0;
  feedback_gain = 0;
  input_mode = 0;
  output_mode = 0;
}
