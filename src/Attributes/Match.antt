-- ===== src/Attributes/Match.antt =====
-- Matching a component with a request: AuMatchAttributes of server/dia/auutil.c.
use nas.Prelude.{
  ℕ, zero, suc, ◌+◌, ◌*◌, ◌/◌, Bool, true, ◌&&◌, ◌||◌, List, drop, get_or, ◌==◌, nonzero, bit_and,
  if◌then◌else◌,
}
use nas.Attributes.{
  Component, Request, walk, is_device, bucket_kind, physical_input, physical_output,
  physical_feedback, common_id, common_kind, common_use, common_format, common_num_tracks,
  common_access, common_description, device_min_sample_rate, device_max_sample_rate,
  device_location, device_gain, device_line_mode, device_children, bucket_sample_rate,
  bucket_num_samples, common_bits, device_bits, bucket_bits, common_masks, device_masks,
  bucket_masks,
}

-- What the device reports, where it is asked.
pub record Hardware : Type 0 where
  pub input_gain : ℕ
  pub output_gain : ℕ
  pub feedback_gain : ℕ
  pub input_mode : ℕ
  pub output_mode : ℕ

-- The component as far as it has been refreshed, the bytes not yet compared, and whether no
-- comparison has failed.
pub record Compared : Type 0 where
  pub matches : Bool
  pub component : Component
  pub var_data : List ℕ

-- `strncmp` with 0 as its result; a list ends with a zero.
unfoldable pub strings_agree : ℕ → List ℕ → List ℕ → Bool
strings_agree zero xs ys = true
strings_agree (suc n) xs ys =
    let rest = strings_agree n (drop 1 xs) (drop 1 ys) in
    get_or xs 0 0 == get_or ys 0 0 && (get_or xs 0 0 == 0 || rest)

-- `memcmp` with 0 as its result.
unfoldable pub bytes_agree : ℕ → List ℕ → List ℕ → Bool
bytes_agree zero xs ys = true
bytes_agree (suc n) xs ys =
    let rest = bytes_agree n (drop 1 xs) (drop 1 ys) in get_or xs 0 0 == get_or ys 0 0 && rest

abbrev pub pad4 : ℕ → ℕ
pad4 n = (n + 3) / 4 * 4

-- The comparisons of the common masks.
unfoldable pub agrees_common : Request → List ℕ → ℕ → Component → Bool
agrees_common a var_data i c =
    if i == common_id
    then c.id == a.id
    else if i == common_kind
    then c.kind == a.kind
    else if i == common_use
    then nonzero (bit_and c.use_mask a.use_mask)
    else if i == common_format
    then c.format == a.format
    else if i == common_num_tracks
    then c.num_tracks == a.num_tracks
    else if i == common_access
    then nonzero (bit_and c.access a.access)
    else if i == common_description
    then c.description.type == a.description_type
      && (c.description.len == a.description_len
          && strings_agree a.description_len c.description.string var_data)
    else true

-- A case of a loop, which returns as soon as a comparison fails.
unfoldable pub match_common : Request → ℕ → Compared → Compared
match_common a i s =
    if s.matches
    then record s {
      matches = agrees_common a s.var_data i s.component;
      var_data =
          if i == common_description then drop (pad4 a.description_len) s.var_data else s.var_data;
    }
    else s

-- The gain and the mode of a device are asked for before they are compared.
unfoldable pub refresh : Hardware → ℕ → Component → Component
refresh h i c =
    if i == device_gain
    then if c.kind == physical_input
      then record c { gain = h.input_gain }
      else if c.kind == physical_output
      then record c { gain = h.output_gain; line_mode = h.output_mode }
      else if c.kind == physical_feedback
      then record c { gain = h.feedback_gain }
      else c
    else if i == device_line_mode
    then if c.kind == physical_input
      then record c { line_mode = h.input_mode }
      else if c.kind == physical_output
      then record c { gain = h.output_gain; line_mode = h.output_mode }
      else c
    else c

unfoldable pub agrees_device : Request → List ℕ → ℕ → Component → Bool
agrees_device a var_data i c =
    if i == device_min_sample_rate
    then c.min_sample_rate == a.min_sample_rate
    else if i == device_max_sample_rate
    then c.max_sample_rate == a.max_sample_rate
    else if i == device_location
    then nonzero (bit_and c.location a.location)
    else if i == device_gain
    then c.gain == a.gain
    else if i == device_line_mode
    then c.line_mode == a.line_mode
    else if i == device_children
    then c.num_children == a.num_children && bytes_agree (a.num_children * 4) c.children var_data
    else true

unfoldable pub match_device : Hardware → Request → ℕ → Compared → Compared
match_device h a i s =
    if s.matches
    then record s {
      matches = agrees_device a s.var_data i (refresh h i s.component);
      component = refresh h i s.component;
      var_data = if i == device_children then drop (a.num_children * 4) s.var_data else s.var_data;
    }
    else s

unfoldable pub agrees_bucket : Request → ℕ → Component → Bool
agrees_bucket a i c =
    if i == bucket_sample_rate
    then c.sample_rate == a.sample_rate
    else if i == bucket_num_samples
    then c.num_samples == a.num_samples
    else true

unfoldable pub match_bucket : Request → ℕ → Compared → Compared
match_bucket a i s = if s.matches then record s { matches = agrees_bucket a i s.component } else s

abbrev pub all_to_compare : Component → List ℕ → Compared
all_to_compare c var_data = record { matches = true; component = c; var_data = var_data }

unfoldable pub match_attributes : Hardware → Request → List ℕ → Component → Compared
match_attributes h a var_data c =
    let s =
      walk (match_common a) common_bits (common_masks a.value_mask) 0 (all_to_compare c var_data) in
    if is_device c.kind
    then walk (match_device h a) device_bits (device_masks a.value_mask) 0 s
    else if c.kind == bucket_kind
    then walk (match_bucket a) bucket_bits (bucket_masks a.value_mask) 0 s
    else s
