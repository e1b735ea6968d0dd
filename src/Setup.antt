-- ===== src/Setup.antt =====
-- Setting up a compiled flow, AuSetupCompiledFlow and doSetup of server/dia/auprocess.c. An element that
-- several inputs share is written out in each of them; a division by 0 is `none`.
pub mod Flags
pub mod Accumulate
pub mod Steps
mod Tests
use nas.Prelude.{
  ℕ, zero, suc, ◌+◌, ◌-◌, ◌*◌, ◌/◌, ◌%◌, ◌^◌, bit_or, Bool, true, false, ◌&&◌, ◌||◌, not, Option,
  none, some, List, [], ◌∷◌, length, ltb, ◌==◌, nonzero, if◌then◌else◌,
}
use nas.Compile.Leaves.{◌>>=◌}
use nas.Element.{
  Kind, import_client, import_device, import_bucket, import_wave_form, bundle, multiply_constant,
  add_constant, sum, export_client, export_device, export_bucket, export_monitor,
}
use nas.Mix.{accumulate_simple_mono, accumulate_simple_stereo}

-- The parts of ComponentRec that are read.
pub record Component : Type 0 where
  pub format : ℕ
  pub sample_size : ℕ
  pub num_tracks : ℕ
  pub bytes_per_sample : ℕ
  pub minibuf_size : ℕ
  pub sample_rate : ℕ
  pub frequency : ℕ

-- No routine, or one of the two of a format.
pub data Converter : Type 0 where
  no_conversion : Converter
  to_native from_native : ℕ → Converter

pub data RateConverter : Type 0 where
  rc_null rc_1 rc_2 rc_4 rc_n rcm_1 rcm_2 rcm_n : RateConverter

pub record Element : Type 0 where
  pub kind : Kind
  pub component : Component
  pub sample_rate : ℕ
  pub is_set_up : Bool
  pub minibuf_chunk : ℕ
  pub to_native_format : Converter
  pub from_native_format : Converter
  pub next_sample : ℕ

pub record Input : Type 0 where
  pub element : Element
  pub mixed : nas.Mix.Input
  pub rate_convert : RateConverter

pub record Output : Type 0 where
  pub element : Element
  pub inputs : List Input
  pub rate_convert : RateConverter

pub data Accumulator : Type 0 where
  general simple_mono simple_stereo : Accumulator

pub record Flow : Type 0 where
  pub outputs : List Output
  pub accumulator : Accumulator

-- The rates of auSetup, both of 16 bits, and AuSetSampleRateCB, if there is one.
pub record Config : Type 0 where
  pub min_sample_rate : ℕ
  pub max_sample_rate : ℕ
  pub set_sample_rate : Option (ℕ → ℕ)

abbrev pub is_monitor : Kind → Bool
is_monitor export_monitor = true
is_monitor _ = false

abbrev pub is_wave_form : Kind → Bool
is_wave_form import_wave_form = true
is_wave_form _ = false

abbrev pub has_own_rate : Kind → Bool
has_own_rate import_bucket = true
has_own_rate export_device = true
has_own_rate _ = false

-- What is set once.
unfoldable pub set_up_formats : Element → Element
set_up_formats e =
    let c = e.component in
    if e.is_set_up
    then e
    else if is_monitor e.kind
    then record e {
      is_set_up = true;
      minibuf_chunk = c.minibuf_size;
      to_native_format = from_native c.format;
      from_native_format = no_conversion;
    }
    else record e {
      is_set_up = true;
      minibuf_chunk = if c.sample_size == 1 then c.minibuf_size / 2 else c.minibuf_size;
      to_native_format = to_native c.format;
      from_native_format = from_native c.format;
    }

abbrev pub own_rate : Element → ℕ
own_rate e =
    if has_own_rate e.kind
    then e.sample_rate
    else if is_wave_form e.kind
    then e.component.frequency
    else e.component.sample_rate

abbrev pub element_rate : Config → Element → ℕ
element_rate config e = if own_rate e == 0 then config.min_sample_rate else own_rate e

abbrev pub divide : ℕ → ℕ → Option ℕ
divide a b = if b == 0 then none else some (a / b)

-- The rate of a wave form over the flow's, the whole part and the fraction.
unfoldable pub wave_step : ℕ → ℕ → Option ℕ
wave_step frequency rate = divide frequency rate >>= λ whole.
    divide ((frequency + 2 ^ 32 - whole * rate) % 2 ^ 32 * 2 ^ 16 % 2 ^ 32) rate >>= λ fraction.
    some (bit_or (whole * 2 ^ 16 % 2 ^ 32) fraction)

-- nextSample, in units of 2 ^ -16 frames.
unfoldable pub find_next_sample : Config → Bool → ℕ → Element → Option ℕ
find_next_sample config is_input rate e =
    if is_wave_form e.kind
    then wave_step (own_rate e) rate
    else if is_input
    then divide (element_rate config e * 2 ^ 16 % 2 ^ 32) rate
    else divide (rate * 2 ^ 16 % 2 ^ 32) (element_rate config e)

unfoldable pub rate_converter : Config → ℕ → Element → RateConverter
rate_converter config rate e =
    let c = e.component in
    if is_monitor e.kind
    then (if c.num_tracks == 1 then rcm_1 else if c.num_tracks == 2 then rcm_2 else rcm_n)
    else if element_rate config e == rate
    then rc_null
    else if c.bytes_per_sample == 1
    then rc_1
    else if c.bytes_per_sample == 2
    then rc_2
    else if c.bytes_per_sample == 4
    then rc_4
    else rc_n

-- doSetup.
unfoldable pub do_setup : Config → Bool → ℕ → Element → Option (Element × RateConverter)
do_setup config is_input rate e = find_next_sample config is_input rate e >>= λ n.
    some (record (set_up_formats e) { next_sample = n }, rate_converter config rate e)

-- Whether the simple forms of accumulateOutput will do.
pub record Simple : Type 0 where
  pub mono : Bool
  pub stereo : Bool

abbrev pub output_simple : ℕ → Simple → Simple
output_simple tracks f = record {
  mono = if ltb 1 tracks then false else f.mono;
  stereo = if tracks == 2 then f.stereo else false;
}

abbrev pub input_simple : nas.Mix.Input → Simple → Simple
input_simple i f =
    if nonzero i.add_constant || nonzero (length i.tracks)
    then record { mono = false; stereo = false }
    else f

unfoldable pub set_up_inputs : Config → ℕ → List Input → Simple → Option (List Input × Simple)
set_up_inputs config rate [] f = some ([], f)
set_up_inputs config rate (i ∷ rest) f = do_setup config true rate i.element >>= λ (e, rc).
    set_up_inputs config rate rest (input_simple i.mixed f) >>= λ (ins, f').
    some (record i { element = e; rate_convert = rc } ∷ ins, f')

unfoldable pub set_up_output : Config → ℕ → Output → Simple → Option (Output × Simple)
set_up_output config rate o f =
    set_up_inputs config rate o.inputs (output_simple o.element.component.num_tracks f)
    >>= λ (ins, f'). do_setup config false rate o.element >>= λ (e, rc).
        some (record { element = e; inputs = ins; rate_convert = rc }, f')

unfoldable pub set_up_outputs : Config → ℕ → List Output → Simple → Option (List Output × Simple)
set_up_outputs config rate [] f = some ([], f)
set_up_outputs config rate (o ∷ rest) f = set_up_output config rate o f >>= λ (o', f').
    set_up_outputs config rate rest f' >>= λ (os, f''). some (o' ∷ os, f'')

abbrev pub in_bounds : Config → ℕ → ℕ
in_bounds config rate =
    let low = if ltb config.max_sample_rate rate then config.max_sample_rate else rate in
    if ltb low config.min_sample_rate then config.min_sample_rate else low

-- The rate that the flow runs at, which becomes auCurrentSampleRate.
unfoldable pub flow_rate : Config → ℕ → ℕ → ℕ
flow_rate config current rate =
    if current == in_bounds config rate
    then in_bounds config rate
    else elim config.set_sample_rate [
      | none ↦ in_bounds config rate
      | some set ↦ set (in_bounds config rate)
    ]

-- AuSetupCompiledFlow, with auCurrentSampleRate before it.
unfoldable pub set_up_compiled_flow : Config → ℕ → List Output → ℕ → Option (Flow × ℕ)
set_up_compiled_flow config current outputs rate =
    let r = flow_rate config current rate in
    set_up_outputs config r outputs (record { mono = true; stereo = true }) >>= λ (os, f). some (
      record {
        outputs = os;
        accumulator = if f.mono then simple_mono else if f.stereo then simple_stereo else general;
      },
      r,
    )

-- The call of a flow's accumulateOutput, for an output of so many tracks.
unfoldable pub accumulate : Accumulator → nas.Mix.Input → ℕ → ℕ → ℕ → List ℕ → List ℕ → List ℕ
accumulate general i in_tracks out_tracks samples s out =
    nas.Mix.accumulate_output i in_tracks out_tracks samples s out
accumulate simple_mono i in_tracks out_tracks samples s out =
    accumulate_simple_mono i.multiply_constant samples s out
accumulate simple_stereo i in_tracks out_tracks samples s out =
    accumulate_simple_stereo i.multiply_constant samples s out
