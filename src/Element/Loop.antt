-- ===== src/Element/Loop.antt =====
-- Actions of server/dia/auutil.c that call each other without end.
use nas.Prelude.{
  ℕ, zero, suc, ◌≡◌, refl, ap, ◌∙◌, get_elem?, set, length, Bool-cases, inl, inr, false, none, some,
  [], ◌∷◌, arith,
}
use nas.Play.{ElementState, started, paused}
use nas.Element.Measure.{quieted}
use nas.Element.Ends.{fire-at, put-elements}
use nas.Element.{Component, Element, Store, Action, change_state, import_device, start_element}
use nas.Element.Change.{
  Call, run_action, run_actions, fire_element, fire, fire_from, in_range, put_element, take_state,
  marked, Marked, mark_one, mark, change_body, change_element_state,
}

-- When the element is in one of the states, it goes to the other.
abbrev pub bounce : ElementState → ElementState → Action
bounce from to = record {
  trigger_state = some from;
  trigger_prev_state = none;
  trigger_reason = none;
  action = change_state 0 (some 0) to;
}

-- An input from a device with two such actions.
abbrev pub bouncing : Element → ElementState → Element
bouncing e now = record e {
  kind = import_device;
  state = now;
  actions = bounce started paused ∷ bounce paused started ∷ [];
}

-- The elements after the first loop, and after the change no longer waits.
abbrev after_mark : Element → ElementState → ElementState → Element
after_mark e from to = take_state to (bouncing e from)

abbrev next_element : Element → ElementState → Element
next_element e from = record e { prev_state = from; state_change = false }

mark-bouncing :
    (e : Element) (cs : ℕ → Component)
    → ((mark (some 0) paused (bouncing e started ∷ []) 0 cs).elements
        ≡ after_mark e started paused ∷ [])
      × ((mark (some 0) started (bouncing e paused ∷ []) 0 cs).elements
          ≡ after_mark e paused started ∷ [])
unfolding mark mark_one start_element
mark-bouncing e cs = ground arith

marked-elements : (s : Store) (f : ℕ) (m : Marked) → ((marked s f m).flows f).elements ≡ m.elements
marked-elements s f m = ground arith

module _ (call : Call) (s : Store) (e : Element) (reason : ℕ) where
  -- A turn of a bouncing element ends only if the call that it makes does.
  fire-bouncing :
      ((s.flows 0).elements ≡ after_mark e started paused ∷ []
        → call (put_element s 0 0 (quieted (after_mark e started paused))) 0 (some 0) started reason
          ≡ none
        → fire call s 0 0 reason ≡ none)
      × ((s.flows 0).elements ≡ after_mark e paused started ∷ []
          → call
              (put_element s 0 0 (quieted (after_mark e paused started)))
              0
              (some 0)
              paused
              reason
            ≡ none
          → fire call s 0 0 reason ≡ none)
  unfolding fire_element run_actions run_action
  fire-bouncing = (
    (λ h none_called.
        fire-at call s 0 0 reason (after_mark e started paused) (ap (λ es. get_elem? es 0) h)
        ∙ rw none_called refl),
    (λ h none_called.
        fire-at call s 0 0 reason (after_mark e paused started) (ap (λ es. get_elem? es 0) h)
        ∙ rw none_called refl),
  )

body-none :
    (call : Call) (s : Store) (f i : ℕ) (new : ElementState) (reason : ℕ)
    → fire call (marked s f (mark (some i) new (s.flows f).elements 0 s.components)) f i reason
      ≡ none
    → change_body call s f (some i) new reason ≡ none
unfolding change_body fire_from
body-none call s f i new reason h =
    elim (Bool-cases (in_range (some i) (length (s.flows f).elements))) [
      | inl e ↦ rw (e, h) refl
      | inr e ↦ rw e refl
    ]

-- From either state to the other.
bouncing-none :
    (fuel : ℕ) (s : Store) (e : Element) (reason : ℕ)
    → ((s.flows 0).elements ≡ bouncing e started ∷ []
        → change_element_state fuel s 0 (some 0) paused reason ≡ none)
      × ((s.flows 0).elements ≡ bouncing e paused ∷ []
          → change_element_state fuel s 0 (some 0) started reason ≡ none)
unfolding change_element_state
bouncing-none zero s e reason = ((λ h. refl), (λ h. refl))
bouncing-none (suc fuel) s e reason =
    let call : Call = change_element_state fuel in
    (
      (λ h.
          let m = mark (some 0) paused (s.flows 0).elements 0 s.components in
          let ms : Store = marked s 0 m in
          let es : (ms.flows 0).elements ≡ after_mark e started paused ∷ [] =
            marked-elements s 0 m
            ∙ ap (λ es. (mark (some 0) paused es 0 s.components).elements) h
            ∙ (mark-bouncing e s.components).0 in
          let e' : Element = quieted (after_mark e started paused) in
          let es' : ((put_element ms 0 0 e').flows 0).elements ≡ bouncing e' paused ∷ [] =
            put-elements ms 0 0 e' ∙ ap (λ es. set es 0 e') es in
          body-none call s 0 0 paused reason (
            (fire-bouncing call ms e reason).0 es
              ((bouncing-none fuel (put_element ms 0 0 e') e' reason).1 es'))),
      (λ h.
          let m = mark (some 0) started (s.flows 0).elements 0 s.components in
          let ms : Store = marked s 0 m in
          let es : (ms.flows 0).elements ≡ after_mark e paused started ∷ [] =
            marked-elements s 0 m
            ∙ ap (λ es. (mark (some 0) started es 0 s.components).elements) h
            ∙ (mark-bouncing e s.components).1 in
          let e' : Element = quieted (after_mark e paused started) in
          let es' : ((put_element ms 0 0 e').flows 0).elements ≡ bouncing e' started ∷ [] =
            put-elements ms 0 0 e' ∙ ap (λ es. set es 0 e') es in
          body-none call s 0 0 started reason (
            (fire-bouncing call ms e reason).1 es
              ((bouncing-none fuel (put_element ms 0 0 e') e' reason).0 es'))),
    )

-- A client can make AuChangeElementState call itself without end: where the only element of a flow
-- goes to a pause when it is started and starts when it is paused, and is started, no depth of calls
-- is enough to pause it.
pub change_element_state-loops :
    (fuel : ℕ) (s : Store) (e : Element) (reason : ℕ)
    → (s.flows 0).elements ≡ bouncing e started ∷ []
    → change_element_state fuel s 0 (some 0) paused reason ≡ none
change_element_state-loops fuel s e reason = (bouncing-none fuel s e reason).0
