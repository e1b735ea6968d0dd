-- ===== src/Storage.antt =====
-- The storage of ports and buckets: createPort and aualloc of server/dia/auutil.c, and
-- ProcAuCreateBucket of server/dia/audispatch.c. An address is its distance from the start of what
-- was allocated, where the component's record stands.
pub mod Buckets
pub mod Ports
pub mod Create
mod Tests
use nas.Prelude.{
  ℕ, ◌+◌, ◌-◌, ◌*◌, ◌/◌, ◌%◌, ◌^◌, Bool, true, false, Option, none, some, List, [], ◌∷◌, get_elem?,
  length, ltb, ◌==◌, ◌&&◌, replicate, not, if◌then◌else◌,
}
use nas.Attributes.{Component, Description, Request, bucket_kind, set_component_attributes}

-- The bits of a size_t, PAD4(sizeof(ComponentRec)), and auMinibufSamples.
pub record Machine : Type 0 where
  pub size_bits : ℕ
  pub header : ℕ
  pub minibuf_samples : ℕ

abbrev pub bytes_per_sample : List ℕ
bytes_per_sample = 0 ∷ 1 ∷ 1 ∷ 1 ∷ 2 ∷ 2 ∷ 2 ∷ 2 ∷ []

-- `none` outside the table.
abbrev pub sizeof_sample : ℕ → Option ℕ
sizeof_sample format = get_elem? bytes_per_sample format

-- PAD4 of an AuUint32.
abbrev pub pad4_word : ℕ → ℕ
pad4_word x = (x + 3) % 2 ^ 32 / 4 * 4

-- What `aualloc` asks for: its parameter is an AuUint32.
abbrev pub alloc_size : ℕ → ℕ
alloc_size size = size % 2 ^ 32

pub record Port : Type 0 where
  pub allocated : ℕ
  pub num_samples : ℕ
  pub format : ℕ
  pub num_tracks : ℕ
  pub low_water_mark : ℕ
  pub high_water_mark : ℕ
  pub data_size : ℕ
  pub data_start : ℕ
  pub data_end : ℕ
  pub read : ℕ
  pub write : ℕ
  pub current_size : ℕ
  pub discard : Bool
  pub minibuf : ℕ
  pub minibuf_size : ℕ
  pub bytes_per_sample : ℕ

abbrev pub minibuf_size_of : Machine → ℕ → ℕ
minibuf_size_of m tracks = 2 * m.minibuf_samples * tracks % 2 ^ 32

-- The sum that is checked and allocated.
abbrev pub port_size : Machine → ℕ → ℕ → ℕ
port_size m data_size minibuf_size =
    (m.header + pad4_word data_size + pad4_word minibuf_size * 2 % 2 ^ 32) % 2 ^ m.size_bits

-- The parameters of a port.
pub record PortParms : Type 0 where
  pub format : ℕ
  pub num_tracks : ℕ
  pub num_samples : ℕ
  pub low_water : ℕ
  pub high_water : ℕ
  pub discard : Bool

abbrev pub new_port : Machine → PortParms → ℕ → ℕ → ℕ → Port
new_port m p size data_size minibuf_size = record {
  allocated = alloc_size (port_size m data_size minibuf_size);
  num_samples = p.num_samples;
  format = p.format;
  num_tracks = p.num_tracks;
  low_water_mark = p.low_water * size * p.num_tracks % 2 ^ 32;
  high_water_mark = p.high_water * size * p.num_tracks % 2 ^ 32;
  data_size = data_size;
  data_start = m.header;
  data_end = m.header + data_size;
  read = m.header;
  write = m.header;
  current_size = 0;
  discard = p.discard;
  minibuf = m.header + pad4_word data_size;
  minibuf_size = minibuf_size;
  bytes_per_sample = p.num_tracks * size % 2 ^ 32;
}

-- `some none` is NULL: for want of memory, where `granted` is not set, or for the sizes.
unfoldable pub create_port : Machine → Bool → PortParms → Option (Option Port)
create_port m granted p = elim (sizeof_sample p.format) [
  | none ↦ none
  | some size ↦
      let data_size = p.num_samples * size * p.num_tracks % 2 ^ 32 in
      let minibuf_size = minibuf_size_of m p.num_tracks in
      if ltb (port_size m data_size minibuf_size) data_size
      then some none
      else if granted
      then some (some (new_port m p size data_size minibuf_size))
      else some none
]

pub record Bucket : Type 0 where
  pub component : Component
  pub allocated : ℕ
  pub data_size : ℕ
  pub data_start : ℕ
  pub data_end : ℕ
  pub read : ℕ
  pub write : ℕ
  pub string : ℕ
  pub minibuf_size : ℕ
  pub bytes_per_sample : ℕ

-- The replies of ProcAuCreateBucket.
pub data Reply : Type 0 where
  success bad_length bad_alloc : Reply
  bad_value : ℕ → Reply

-- AuCompBucketAllMasks without the kind and the use.
abbrev pub wanted_masks : ℕ
wanted_masks = 2 ^ 18 - 2 ^ 16 + (2 ^ 7 - 1) - 2 - 4

abbrev pub zeroed : Component
zeroed = record {
  id = 0;
  kind = 0;
  use_mask = 0;
  format = 0;
  num_tracks = 0;
  access = 0;
  description = record { type = 0; len = 0; string = [] };
  min_sample_rate = 0;
  max_sample_rate = 0;
  location = 0;
  gain = 0;
  line_mode = 0;
  num_children = 0;
  children = [];
  sample_rate = 0;
  num_samples = 0;
}

abbrev pub bucket_size : Machine → ℕ → ℕ → ℕ
bucket_size m data_size len = (m.header + pad4_word data_size + pad4_word len) % 2 ^ m.size_bits

-- The bucket before its attributes are set. The memory of its description is what was allocated
-- behind the data, cleared.
abbrev pub new_bucket : Machine → Request → ℕ → ℕ → Bucket
new_bucket m a size data_size =
    let allocated = alloc_size (bucket_size m data_size a.description_len) in
    let string = m.header + pad4_word data_size in
    record {
      component = record zeroed {
        kind = bucket_kind;
        use_mask = 3;
        description = record { type = 0; len = 0; string = replicate (allocated - string) 0 };
      };
      allocated = allocated;
      data_size = data_size;
      data_start = m.header;
      data_end = m.header + data_size;
      read = m.header;
      write = m.header;
      string = string;
      minibuf_size = minibuf_size_of m a.num_tracks;
      bytes_per_sample = a.num_tracks * size;
    }

-- An error, or a bucket in memory.
pub data Allocation : Type 0 where
  refused : Reply → Allocation
  allocated : Bucket → Allocation

-- The checks of the request and the allocation, `none` where the table of formats is left.
-- `long_enough` says that the request holds the attributes, and `var_data` is the bytes after them.
-- Xalloc refuses a size of 0.
unfoldable pub allocate_bucket : Machine → Bool → Bool → Request → List ℕ → Option Allocation
allocate_bucket m granted long_enough a var_data =
    if not long_enough
    then some (refused bad_length)
    else if not (a.value_mask == wanted_masks)
    then some (refused (bad_value a.value_mask))
    else if not (length var_data == pad4_word a.description_len)
    then some (refused bad_length)
    else elim (sizeof_sample a.format) [
      | none ↦ none
      | some size ↦
          let data_size = a.num_samples * size * a.num_tracks % 2 ^ 32 in
          if granted && not (alloc_size (bucket_size m data_size a.description_len) == 0)
          then some (allocated (new_bucket m a size data_size))
          else some (refused bad_alloc)
    ]

-- Whether there is memory for the bucket and for its place in the resource database, and whether the
-- client of its id is in use.
pub record Granted : Type 0 where
  pub bucket : Bool
  pub resource : Bool
  pub in_use : Bool

-- AddResource for the bucket at the head of the list: where there is no memory for the place, it
-- deletes the bucket, but not where the client is not in use.
unfoldable pub place_bucket : Granted → Bucket → List Bucket → List Bucket × Reply
place_bucket granted b buckets =
    if not granted.in_use
    then (b ∷ buckets, bad_alloc)
    else if granted.resource
    then (b ∷ buckets, success)
    else (buckets, bad_alloc)

-- What is written into the memory, `none` where that is outside.
unfoldable pub fill_bucket : Machine → Request → List ℕ → Bucket → Option Bucket
fill_bucket m a var_data b =
    if ltb b.allocated m.header
    then none
    else elim (set_component_attributes a var_data b.component) [
      | none ↦ none
      | some c ↦ some (record b { component = c })
    ]

-- The buckets after the request and the reply.
unfoldable pub create_bucket :
    Machine → Granted → Bool → Request → List ℕ → List Bucket → Option (List Bucket × Reply)
create_bucket m granted long_enough a var_data buckets =
    elim (allocate_bucket m granted.bucket long_enough a var_data) [
      | none ↦ none
      | some (refused reply) ↦ some (buckets, reply)
      | some (allocated b) ↦ elim (fill_bucket m a var_data b) [
        | none ↦ none
        | some b' ↦ some (place_bucket granted b' buckets)
      ]
    ]
