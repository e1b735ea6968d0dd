-- ===== src/Attributes.antt =====
-- Setting the attributes of a component from a request, and matching a component with a request,
-- server/dia/auutil.c: AuSetComponentAttributes and AuMatchAttributes. A request is the attributes
-- and the bytes that follow them.
pub mod Match
pub mod Bits
pub mod Agreement
pub mod SetMatch
mod Tests
use nas.Prelude.{
  ℕ, zero, suc, ◌/◌, ◌%◌, ◌^◌, Bool, ◌||◌, ◌&&◌, not, leb, length, Option, none, some, List, ◌++◌,
  take, drop, ◌==◌, if◌then◌else◌,
}

-- The string is all the memory that the component has for it, with `len` bytes in use.
pub record Description : Type 0 where
  pub type : ℕ
  pub len : ℕ
  pub string : List ℕ

-- The parts of ComponentRec that are attributes. The children are the bytes of their ids.
pub record Component : Type 0 where
  pub id : ℕ
  pub kind : ℕ
  pub use_mask : ℕ
  pub format : ℕ
  pub num_tracks : ℕ
  pub access : ℕ
  pub description : Description
  pub min_sample_rate : ℕ
  pub max_sample_rate : ℕ
  pub location : ℕ
  pub gain : ℕ
  pub line_mode : ℕ
  pub num_children : ℕ
  pub children : List ℕ
  pub sample_rate : ℕ
  pub num_samples : ℕ

-- The attributes of a request: the common ones, those of devices and those of buckets.
pub record Request : Type 0 where
  pub value_mask : ℕ
  pub id : ℕ
  pub kind : ℕ
  pub use_mask : ℕ
  pub format : ℕ
  pub num_tracks : ℕ
  pub access : ℕ
  pub description_type : ℕ
  pub description_len : ℕ
  pub min_sample_rate : ℕ
  pub max_sample_rate : ℕ
  pub location : ℕ
  pub gain : ℕ
  pub line_mode : ℕ
  pub num_children : ℕ
  pub sample_rate : ℕ
  pub num_samples : ℕ

-- The kinds of components.
abbrev pub physical_input : ℕ
physical_input = 1

abbrev pub physical_output : ℕ
physical_output = 2

abbrev pub bucket_kind : ℕ
bucket_kind = 3

abbrev pub physical_feedback : ℕ
physical_feedback = 5

-- The bits of the common masks, and above bit 16 those of devices and of buckets.
abbrev pub common_id : ℕ
common_id = 0

abbrev pub common_kind : ℕ
common_kind = 1

abbrev pub common_use : ℕ
common_use = 2

abbrev pub common_format : ℕ
common_format = 3

abbrev pub common_num_tracks : ℕ
common_num_tracks = 4

abbrev pub common_access : ℕ
common_access = 5

abbrev pub common_description : ℕ
common_description = 6

abbrev pub device_min_sample_rate : ℕ
device_min_sample_rate = 0

abbrev pub device_max_sample_rate : ℕ
device_max_sample_rate = 1

abbrev pub device_location : ℕ
device_location = 2

abbrev pub device_gain : ℕ
device_gain = 3

abbrev pub device_line_mode : ℕ
device_line_mode = 4

abbrev pub device_children : ℕ
device_children = 5

abbrev pub bucket_sample_rate : ℕ
bucket_sample_rate = 0

abbrev pub bucket_num_samples : ℕ
bucket_num_samples = 1

abbrev pub common_bits : ℕ
common_bits = 7

abbrev pub device_bits : ℕ
device_bits = 6

abbrev pub bucket_bits : ℕ
bucket_bits = 2

abbrev pub common_masks : ℕ → ℕ
common_masks value_mask = value_mask % 2 ^ common_bits

abbrev pub device_masks : ℕ → ℕ
device_masks value_mask = value_mask / 2 ^ 16 % 2 ^ device_bits

abbrev pub bucket_masks : ℕ → ℕ
bucket_masks value_mask = value_mask / 2 ^ 16 % 2 ^ bucket_bits

-- The loop `while (mask)`: the case of each bit that is set, from bit `i` on, of `left` bits.
unfoldable pub walk {ℓ} : {S : Type ℓ} → (ℕ → S → S) → ℕ → ℕ → ℕ → S → S
walk step zero mask i s = s
walk step (suc left) mask i s =
    walk step left (mask / 2) (suc i) (if mask % 2 == 1 then step i s else s)

-- `bcopy` into the string leaves what follows in it.
abbrev pub set_description : Request → List ℕ → Description → Description
set_description a var_data d = record {
  type = a.description_type;
  len = a.description_len;
  string = take a.description_len var_data ++ drop a.description_len d.string;
}

-- A component has 8 bits for the access. The cases of the common masks, with the bytes after the attributes.
unfoldable pub set_common : Request → List ℕ → ℕ → Component → Component
set_common a var_data i c =
    if i == common_id
    then record c { id = a.id }
    else if i == common_kind
    then record c { kind = a.kind }
    else if i == common_use
    then record c { use_mask = a.use_mask }
    else if i == common_format
    then record c { format = a.format }
    else if i == common_num_tracks
    then record c { num_tracks = a.num_tracks }
    else if i == common_access
    then record c { access = a.access % 2 ^ 8 }
    else if i == common_description
    then record c { description = set_description a var_data c.description }
    else c

-- The cases of the masks of devices: the others are left out of the code.
unfoldable pub set_device : Request → ℕ → Component → Component
set_device a i c =
    if i == device_gain
    then record c { gain = a.gain }
    else if i == device_line_mode
    then record c { line_mode = a.line_mode }
    else c

unfoldable pub set_bucket : Request → ℕ → Component → Component
set_bucket a i c =
    if i == bucket_sample_rate
    then record c { sample_rate = a.sample_rate }
    else if i == bucket_num_samples
    then record c { num_samples = a.num_samples }
    else c

abbrev pub is_device : ℕ → Bool
is_device kind = kind == physical_input || kind == physical_output || kind == physical_feedback

-- The attributes where every copy is inside.
unfoldable pub write_attributes : Request → List ℕ → Component → Component
write_attributes a var_data c =
    let c' = walk (set_common a var_data) common_bits (common_masks a.value_mask) 0 c in
    if is_device c'.kind
    then walk (set_device a) device_bits (device_masks a.value_mask) 0 c'
    else if c'.kind == bucket_kind
    then walk (set_bucket a) bucket_bits (bucket_masks a.value_mask) 0 c'
    else c'

abbrev pub sets_description : Request → Bool
sets_description a = a.value_mask / 2 ^ common_description % 2 == 1

-- The bytes of a description that is set are in the request, and the component has memory for them.
abbrev pub description_inside : Request → List ℕ → Component → Bool
description_inside a var_data c =
    not (sets_description a)
    || (leb a.description_len (length var_data)
        && leb a.description_len (length c.description.string))

-- AuSetComponentAttributes, `none` where the copy of the description is outside of memory.
unfoldable pub set_component_attributes : Request → List ℕ → Component → Option Component
set_component_attributes a var_data c =
    if description_inside a var_data c then some (write_attributes a var_data c) else none
