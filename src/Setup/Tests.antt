-- ===== src/Setup/Tests.antt =====
-- Flows that are set up, for AuSetupCompiledFlow of server/dia/auprocess.c.
use nas.Prelude.{◌-◌, ◌*◌, ◌/◌, ◌^◌, ◌≡◌, refl, true, false, none, some, List, [], ◌∷◌, arith}
use nas.Element.{import_client, import_wave_form, import_bucket, export_device}
use nas.Mix.{accumulate_output}
use nas.Setup.{
  Component, no_conversion, RateConverter, rc_null, rc_2, Element, Input, Output, Flow, simple_mono,
  Config, find_next_sample, rate_converter, set_up_formats, do_setup, set_up_inputs, set_up_output,
  set_up_outputs, flow_rate, set_up_compiled_flow, accumulate,
}
use nas.Setup.Accumulate.{set_up_compiled_flow-accumulate}
use nas.Setup.Steps.{is_null, do_setup_lem}

abbrev rates : Config
rates = record { min_sample_rate = 4000; max_sample_rate = 44100; set_sample_rate = none }

abbrev mono_component : Component
mono_component = record {
  format = 6;
  sample_size = 2;
  num_tracks = 1;
  bytes_per_sample = 2;
  minibuf_size = 512;
  sample_rate = 8000;
  frequency = 440;
}

abbrev player : Element
player = record {
  kind = import_client;
  component = mono_component;
  sample_rate = 0;
  is_set_up = false;
  minibuf_chunk = 0;
  to_native_format = no_conversion;
  from_native_format = no_conversion;
  next_sample = 0;
}

abbrev device : Element
device = record player { kind = export_device; sample_rate = 16000 }

abbrev compiled : List Output
compiled =
    record {
      element = device;
      inputs =
          record {
            element = player;
            mixed = record { multiply_constant = 2 ^ 15; add_constant = 0; tracks = [] };
            rate_convert = rc_null;
          }
          ∷ [];
      rate_convert = rc_null;
    }
    ∷ []

abbrev player_ready : Input
player_ready = record {
  element = record (set_up_formats player) { next_sample = 2 ^ 15 };
  mixed = record { multiply_constant = 2 ^ 15; add_constant = 0; tracks = [] };
  rate_convert = rc_2;
}

abbrev device_ready : Output
device_ready = record {
  element = record (set_up_formats device) { next_sample = 2 ^ 16 };
  inputs = player_ready ∷ [];
  rate_convert = rc_null;
}

abbrev ready : Flow
ready = record { outputs = device_ready ∷ []; accumulator = simple_mono }

set_up : set_up_compiled_flow rates 0 compiled 16000 ≡ some (ready, 16000)
unfolding set_up_compiled_flow set_up_outputs set_up_output set_up_inputs do_setup find_next_sample
    rate_converter flow_rate
set_up = refl

set_up_compiled_flow-accumulate_example :
    accumulate simple_mono player_ready.mixed 1 1 2 (100 ∷ 200 ∷ []) (0 ∷ 0 ∷ [])
    ≡ accumulate_output player_ready.mixed 1 1 2 (100 ∷ 200 ∷ []) (0 ∷ 0 ∷ [])
unfolding set_up_formats
set_up_compiled_flow-accumulate_example =
    set_up_compiled_flow-accumulate rates 0 compiled 16000 ready 16000 0 0 device_ready player_ready
      1 2 (100 ∷ 200 ∷ []) (0 ∷ 0 ∷ []) set_up refl refl (omega arith)

-- A tone of 440 Hz.
abbrev tone : Element
tone = record player { kind = import_wave_form }

do_setup_lem_example :
    (e' : Element) × (rc : RateConverter) × (do_setup rates true 8000 tone ≡ some (e', rc))
    × (e'.next_sample ≡ 440 * 2 ^ 16 / 8000)
    × (is_null rc ≡ false)
do_setup_lem_example =
    do_setup_lem rates true 8000 tone (omega arith) (omega arith) (omega arith) (omega arith) refl

-- A bucket of 96000 frames per second is read at less than half its speed, since its rate loses a bit.
abbrev fast : Element
fast = record player { kind = import_bucket; sample_rate = 96000 }

fast_bucket : find_next_sample rates true 44100 fast ≡ some ((96000 - 65536) * 2 ^ 16 / 44100)
unfolding find_next_sample
fast_bucket = refl
