-- ===== src/Attributes/Tests.antt =====
-- A bucket that is described anew, a device whose gain has changed, and the theorem at the bucket.
use nas.Prelude.{
  length, ◌⊎◌, ◌≤◌, ◌<◌, ℕ, ◌+◌, ◌^◌, ◌≡◌, refl, true, false, none, some, List, [], ◌∷◌, arith,
}
use nas.Attributes.Bits.{bit}
use nas.Attributes.{
  common_masks, common_description, Component, Request, bucket_kind, physical_input, walk,
  set_common, set_bucket, set_device, write_attributes, set_component_attributes,
}
use nas.Attributes.Match.{
  Hardware, match_attributes, match_common, match_bucket, match_device, agrees_common,
  agrees_bucket, agrees_device, refresh,
}
use nas.Attributes.Agreement.{IsComplete}
use nas.Attributes.SetMatch.{match_attributes-set_component_attributes}

abbrev old_bucket : Component
old_bucket = record {
  id = 7;
  kind = bucket_kind;
  use_mask = 1;
  format = 1;
  num_tracks = 1;
  access = 1;
  description = record { type = 1; len = 3; string = 111 ∷ 108 ∷ 100 ∷ [] };
  min_sample_rate = 0;
  max_sample_rate = 0;
  location = 0;
  gain = 0;
  line_mode = 0;
  num_children = 0;
  children = [];
  sample_rate = 8000;
  num_samples = 100;
}

-- The use, the description and the sample rate are set.
abbrev describe : Request
describe = record {
  value_mask = 4 + 64 + 2 ^ 16;
  id = 0;
  kind = 0;
  use_mask = 3;
  format = 0;
  num_tracks = 0;
  access = 1;
  description_type = 1;
  description_len = 2;
  min_sample_rate = 0;
  max_sample_rate = 0;
  location = 0;
  gain = 0;
  line_mode = 0;
  num_children = 0;
  sample_rate = 44100;
  num_samples = 0;
}

abbrev new_name : List ℕ
new_name = 104 ∷ 105 ∷ 0 ∷ 0 ∷ []

abbrev quiet : Hardware
quiet = record {
  input_gain = 5;
  output_gain = 6;
  feedback_gain = 7;
  input_mode = 1;
  output_mode = 2;
}

described : write_attributes describe new_name old_bucket ≡ record old_bucket {
  use_mask = 3;
  description = record { type = 1; len = 2; string = 104 ∷ 105 ∷ 100 ∷ [] };
  sample_rate = 44100;
}
unfolding write_attributes walk set_common set_bucket
described = refl

not_yet_described : (match_attributes quiet describe new_name old_bucket).matches ≡ false
unfolding match_attributes walk match_common agrees_common match_bucket agrees_bucket
not_yet_described = refl

-- The gain of a device is the one that it reports, whatever has been set.
abbrev loud : Request
loud = record describe { value_mask = 2 ^ 19; gain = 90 }

abbrev microphone : Component
microphone = record old_bucket { kind = physical_input }

gain_of_device :
    (match_attributes quiet loud [] (write_attributes loud [] microphone)).matches ≡ false
unfolding match_attributes write_attributes walk match_device agrees_device refresh set_device
gain_of_device = refl

describe-IsComplete : IsComplete describe new_name
describe-IsComplete j on = (λ e. omega arith, λ e. (omega arith, omega arith), λ e. omega arith)

-- A description of four bytes has no room in the memory of three.
long_description :
    set_component_attributes (record describe { description_len = 4 }) new_name old_bucket ≡ none
unfolding set_component_attributes
long_description = refl

match_attributes-set_component_attributes_example :
    ((c' : Component) × (set_component_attributes describe new_name old_bucket ≡ some c')
      × ((match_attributes quiet describe new_name c').matches ≡ true)
      × ((bit common_description (common_masks describe.value_mask) ≡ false)
          ⊎ (2 ≤ length old_bucket.description.string)))
    ⊎ ((set_component_attributes describe new_name old_bucket ≡ none)
        × (bit common_description (common_masks describe.value_mask) ≡ true)
        × (length old_bucket.description.string < 2))
unfolding write_attributes walk set_common set_bucket
match_attributes-set_component_attributes_example =
    match_attributes-set_component_attributes quiet describe new_name old_bucket describe-IsComplete
      refl
