-- ===== src/Element/Change.antt =====
-- AuChangeElementState of server/dia/auutil.c: first every element of the call takes the new state,
-- then each that did runs its actions, which call AuChangeElementState again.
use nas.Prelude.{
  ℕ, zero, suc, ◌+◌, Bool, true, false, ◌&&◌, not, Option, none, some, List, [], ◌∷◌, map, length,
  ltb, ◌==◌, get_elem?, set, if◌then◌else◌,
}
use nas.Play.{ElementState, stopped, started, paused, FlowElement, set_flow_state}
use nas.Element.{
  import_client, change_state, send_notify, noop, Action, Element, Component, Flow, Store,
  start_element,
}

abbrev pub reason_underrun : ℕ
reason_underrun = 1

abbrev pub same_state : ElementState → ElementState → Bool
same_state stopped stopped = true
same_state started started = true
same_state paused paused = true
same_state _ _ = false

abbrev pub check_state : Option ElementState → ElementState → Bool
check_state none s = true
check_state (some t) s = same_state t s

abbrev pub check_reason : Option ℕ → ℕ → Bool
check_reason none r = true
check_reason (some t) r = t == r

-- Whether the element of that number is meant.
abbrev pub selected : Option ℕ → ℕ → Bool
selected none i = true
selected (some k) i = k == i

abbrev pub with_component : (ℕ → Component) → ℕ → Component → ℕ → Component
with_component f k c j = if k == j then c else f j

-- Whether the element takes the new state: not its own, and not from a stop to a pause.
abbrev pub takes : ElementState → Element → Bool
takes new e =
    not (same_state new e.state) && not (same_state new paused && same_state e.state stopped)

abbrev pub starts : ElementState → Element → Bool
starts new e = e.compiled && same_state new started && same_state e.state stopped

abbrev pub take_state : ElementState → Element → Element
take_state new e = record e { prev_state = e.state; state = new; state_change = true }

-- The first loop, from the element of number `i` on, and whether it changed a state.
pub record Marked : Type 0 where
  pub elements : List Element
  pub components : ℕ → Component
  pub changed : Bool

unfoldable pub mark_one : ElementState → Element → (ℕ → Component) → Element × (ℕ → Component)
mark_one new e cs =
    let (e', c) = start_element e (cs e.component) in
    if starts new e
    then (take_state new e', with_component cs e.component c)
    else (take_state new e, cs)

unfoldable pub mark : Option ℕ → ElementState → List Element → ℕ → (ℕ → Component) → Marked
mark target new [] i cs = record { elements = []; components = cs; changed = false }
mark target new (e ∷ es) i cs =
    let (e', cs') = mark_one new e cs in
    let rest = mark target new es (i + 1) cs in
    let rest' = mark target new es (i + 1) cs' in
    if selected target i && takes new e
    then record { elements = e' ∷ rest'.elements; components = rest'.components; changed = true }
    else record rest { elements = e ∷ rest.elements }

abbrev pub with_flow : Store → ℕ → Flow → Store
with_flow s f fl = record s { flows = λ g. if f == g then fl else s.flows g }

abbrev pub put_element : Store → ℕ → ℕ → Element → Store
put_element s f i e = with_flow s f (record (s.flows f) { elements = set (s.flows f).elements i e })

-- A call of AuChangeElementState, `none` where it does not come to an end or leaves the array: the
-- flow, the elements, the new state, and the reason.
abbrev pub Call : Type 0
Call = Store → ℕ → Option ℕ → ElementState → ℕ → Option Store

infixl 5 ◌>>=◌
abbrev pub ◌>>=◌ {ℓ κ} : {A : Type ℓ} {B : Type κ} → Option A → (A → Option B) → Option B
none >>= f = none
some a >>= f = f a

-- The state of the element when its actions began, and the reason.
pub record Trigger : Type 0 where
  pub flow : ℕ
  pub element : ℕ
  pub state : ElementState
  pub prev_state : ElementState
  pub reason : ℕ

abbrev pub fires : Trigger → Action → Bool
fires t a =
    check_state a.trigger_state t.state
    && check_state a.trigger_prev_state t.prev_state
    && check_reason a.trigger_reason t.reason

abbrev pub notify : Store → Trigger → Store
notify s t = record s {
  notices = elim (get_elem? (s.flows t.flow).elements t.element) [
    | none ↦ s.notices
    | some e ↦
        (record {
          flow = t.flow;
          element = t.element;
          state = e.state;
          prev_state = e.prev_state;
          reason = t.reason;
        })
        ∷ s.notices
  ];
}

unfoldable pub run_action : Call → Store → Trigger → Action → Option Store
run_action call s t a =
    if fires t a
    then elim a.action [
      | change_state flow target new ↦ call s flow target new t.reason
      | send_notify ↦ some (notify s t)
      | noop ↦ some s
    ]
    else some s

-- checkForTriggeredActions.
unfoldable pub run_actions : Call → Store → Trigger → List Action → Option Store
run_actions call s t [] = some s
run_actions call s t (a ∷ rest) = do s' ← run_action call s t a; run_actions call s' t rest

-- An empty import that is started from a stop is paused before anything gets going.
abbrev pub forced : Store → Element → Bool
forced s e =
    elim e.kind [ import_client ↦ (s.components e.component).discard | _ ↦ false ]
    && same_state e.prev_state stopped
    && same_state e.state started

abbrev pub settled : Store → Element → Element
settled s e =
    if forced s e
    then record e { state_change = false; state = paused; prev_state = started }
    else record e { state_change = false }

abbrev pub trigger : Store → ℕ → ℕ → ℕ → Element → Trigger
trigger s f i reason e = record {
  flow = f;
  element = i;
  state = (settled s e).state;
  prev_state = (settled s e).prev_state;
  reason = if forced s e then reason_underrun else reason;
}

-- One turn of the second loop.
unfoldable pub fire_element : Call → Store → ℕ → ℕ → ℕ → Element → Option Store
fire_element call s f i reason e =
    if e.state_change
    then run_actions call (put_element s f i (settled s e)) (trigger s f i reason e) e.actions
    else some s

unfoldable pub fire : Call → Store → ℕ → ℕ → ℕ → Option Store
fire call s f i reason = elim (get_elem? (s.flows f).elements i) [
  | none ↦ none
  | some e ↦ fire_element call s f i reason e
]

unfoldable pub fire_from : Call → Store → ℕ → ℕ → ℕ → ℕ → Option Store
fire_from call s f reason zero i = some s
fire_from call s f reason (suc count) i = do
  s' ← fire call s f i reason
  fire_from call s' f reason count (i + 1)

abbrev pub view : Element → FlowElement
view e = record { is_component = e.is_component; state = e.state }

-- setFlowState
abbrev pub flow_state : List Element → ElementState
flow_state es = set_flow_state (map view es)

abbrev pub set_pending : Store → ℕ → Store
set_pending s f =
    with_flow s f (record (s.flows f) { pending_state = flow_state (s.flows f).elements })

abbrev pub in_range : Option ℕ → ℕ → Bool
in_range none n = true
in_range (some k) n = ltb k n

abbrev pub first : Option ℕ → ℕ
first none = 0
first (some k) = k

abbrev pub count : Option ℕ → ℕ → ℕ
count none n = n
count (some k) n = 1

abbrev pub marked : Store → ℕ → Marked → Store
marked s f m = record (with_flow s f (record (s.flows f) { elements = m.elements })) {
  components = m.components;
}

-- The body, for the calls that the actions make.
unfoldable pub change_body : Call → Call
change_body call s f target new reason =
    let n = length (s.flows f).elements in
    let m = mark target new (s.flows f).elements 0 s.components in
    if in_range target n
    then (do
      s' ← fire_from call (marked s f m) f reason (count target n) (first target)
      some (if m.changed then set_pending s' f else s'))
    else none

-- The depth of the calls is bounded by the fuel.
unfoldable pub change_element_state : ℕ → Call
change_element_state zero s f target new reason = none
change_element_state (suc fuel) s f target new reason =
    change_body (change_element_state fuel) s f target new reason
