-- ===== src/Element/Tests.antt =====
-- A flow from a client's port to a bucket, with actions as the server sets them by default, and the
-- theorems at it.
use nas.Prelude.{ℕ, zero, suc, ◌≡◌, refl, true, false, none, some, [], ◌∷◌, arith}
use nas.Play.{ElementState, stopped, started, paused}
use nas.Element.{
  import_client, import_bucket, import_device, export_device, change_state, send_notify, Action,
  Element, Component, Flow, Store, start_element,
}
use nas.Element.Change.{
  change_element_state, change_body, mark, mark_one, fire_from, fire, fire_element, run_actions,
  run_action,
}
use nas.Element.Allowed.{IsAllowed, change_element_state-IsAllowed}
use nas.Element.Pending.{IsClean, change_element_state-IsClean}
use nas.Element.Measure.{Passing}
use nas.Element.Ends.{change_element_state-ends}
use nas.Element.Loop.{bouncing, change_element_state-loops}

-- When the element is in the state, every element of its flow takes it.
abbrev all_to : ElementState → Action
all_to state = record {
  trigger_state = some state;
  trigger_prev_state = none;
  trigger_reason = none;
  action = change_state 0 none state;
}

abbrev tell : ElementState → Action
tell state = record {
  trigger_state = some state;
  trigger_prev_state = none;
  trigger_reason = none;
  action = send_notify;
}

abbrev bucket_element : Element
bucket_element = record {
  kind = import_bucket;
  is_component = true;
  compiled = true;
  state = stopped;
  prev_state = stopped;
  state_change = false;
  actions = tell paused ∷ tell stopped ∷ all_to stopped ∷ [];
  component = 0;
  current_sample = 77;
  count_samples = false;
  num_bytes = 0;
  read = 0;
  write = 0;
  raw_num_samples = 10;
  raw_offset = 3;
  raw_frequency = 0;
}

abbrev device_element : Element
device_element = record bucket_element { kind = export_device; actions = []; component = 1 }

abbrev two_bytes : Component
two_bytes = record {
  bytes_per_sample = 2;
  wave_samples = 0;
  frequency = 0;
  read = 5;
  write = 9;
  incoming = 4;
  outgoing = 0;
  current_size = 4;
  discard = true;
  eof = true;
  cleared = false;
}

abbrev playing : Store
playing = record {
  flows = λ g. record { elements = bucket_element ∷ device_element ∷ []; pending_state = stopped };
  components = λ c. two_bytes;
  notices = [];
}

-- Started from a stop, the bucket is read from its offset, and its bytes are counted.
begins :
    (o : Store) × (change_element_state 3 playing 0 none started 0 ≡ some o)
    × ((o.flows 0).pending_state ≡ started)
unfolding change_element_state change_body mark mark_one fire_from fire fire_element run_actions
    run_action start_element
begins = (_, refl, unfold nas.Play.set_flow_state nas.Play.count_states in refl)

first_read : (start_element bucket_element two_bytes).0.read ≡ 6
unfolding start_element
first_read = refl

change_element_state-IsAllowed_example : IsAllowed begins.0
change_element_state-IsAllowed_example =
    change_element_state-IsAllowed 3 playing 0 none started 0 begins.0 begins.1 (λ g. refl)

change_element_state-IsClean_example : IsClean 0 begins.0
change_element_state-IsClean_example =
    change_element_state-IsClean 3 0 playing 0 none started 0 begins.0 begins.1
      (unfold nas.Play.set_flow_state nas.Play.count_states in refl, quiet)
  where
    quiet : (j : ℕ) → nas.Element.Flags.flag (bucket_element ∷ device_element ∷ []) j ≡ false
    quiet zero = refl
    quiet (suc zero) = refl
    quiet (suc (suc j)) = refl

playing-Passing : Passing 0 2 stopped (bucket_element ∷ device_element ∷ [])
playing-Passing = record { size = refl; plain = refl; waiting = refl }

change_element_state-ends_example :
    (s' : Store) × (change_element_state 7 playing 0 (some 0) stopped 0 ≡ some s')
    × Passing 0 2 stopped (s'.flows 0).elements
change_element_state-ends_example =
    change_element_state-ends 7 playing 0 (some 0) stopped 0 playing-Passing refl (omega arith)

abbrev bouncer : Store
bouncer = record playing {
  flows = λ g. record { elements = bouncing bucket_element started ∷ []; pending_state = started };
}

change_element_state-loops_example : change_element_state 1000 bouncer 0 (some 0) paused 0 ≡ none
change_element_state-loops_example = change_element_state-loops 1000 bouncer bucket_element 0 refl
