-- ===== src/Element/Ends.antt =====
-- AuChangeElementState of server/dia/auutil.c comes to an end on a flow whose actions only pass on
-- the state that triggers them.
use nas.Prelude.{
  ℕ, zero, suc, ◌+◌, ◌*◌, ◌≤◌, ◌<◌, ◌≡◌, refl, sym, ap, ◌∙◌, subst, Bool, true, false, Option, none,
  some, List, [], ◌∷◌, length, get_elem?, set, if◌then◌else◌, Bool-cases, Option-cases, inl, inr,
  arith,
}
use nas.Play.{ElementState}
use nas.Element.{ActionKind, change_state, send_notify, noop, Action, Element, Store}
use nas.Element.Change.{
  same_state, mark, Call, Trigger, fires, notify, put_element, run_action, run_actions, settled,
  trigger, fire_element, fire, fire_from, set_pending, in_range, first, count, marked, change_body,
  change_element_state,
}
use nas.Element.Measure.{
  measure, passes_on, all_pass_on, is_plain, Passing, mark-Passing, quieted, quieted-Passing,
  Passing-get,
}

same_state-eq : (a b : ElementState) → same_state a b ≡ true → a ≡ b
same_state-eq a b h = ground arith

action-facts :
    (f n : ℕ) (t : Trigger) (a : Action) (flow : ℕ) (target : Option ℕ) (state new : ElementState)
    → fires t a ≡ true
    → passes_on f n a ≡ true
    → t.state ≡ new
    → a.action ≡ change_state flow target state
    → (flow ≡ f) × (in_range target n ≡ true) × (state ≡ new)
action-facts f n t a flow target state new hit ok same e = elim (Option-cases a.trigger_state) [
  | inl none_set ↦ absurd (ground (arith, hit, ok, e, none_set))
  | inr (x, is) ↦
      ground (arith, hit, ok, same, e, is, same_state-eq x state, same_state-eq x t.state)
]

pub fire-at :
    (call : Call) (s : Store) (f i reason : ℕ) (e : Element)
    → get_elem? (s.flows f).elements i ≡ some e
    → fire call s f i reason ≡ fire_element call s f i reason e
unfolding fire
fire-at call s f i reason e at =
    subst
      (λ o.
        (elim o [ none ↦ none | some e ↦ fire_element call s f i reason e ])
        ≡ fire_element call s f i reason e)
      (sym at) refl

settled-plain :
    (f n : ℕ) (s : Store) (e : Element) → is_plain f n e ≡ true → settled s e ≡ quieted e
settled-plain f n s e h = ground arith

pub put-elements :
    (s : Store) (f i : ℕ) (e : Element)
    → ((put_element s f i e).flows f).elements ≡ set (s.flows f).elements i e
put-elements s f i e = ground arith

module _ (f n : ℕ) (new : ElementState) where
  -- The result of a step: it ends, and the flow is no further from rest.
  abbrev pub EndsIn : ℕ → Option Store → Type 0
  EndsIn m r =
      (s' : Store) × (r ≡ some s')
      × Passing f n new (s'.flows f).elements
      × (measure new (s'.flows f).elements ≤ m)

  abbrev EndsBelow : Call → ℕ → Type 0
  EndsBelow call m =
      (s : Store) (target : Option ℕ) (reason : ℕ)
      → Passing f n new (s.flows f).elements
      → in_range target n ≡ true
      → measure new (s.flows f).elements < m
      → EndsIn (measure new (s.flows f).elements) (call s f target new reason)

  module _ (call : Call) (m : ℕ) (ends : EndsBelow call m) where
    run_action-ends :
        (s : Store) (t : Trigger) (a : Action)
        → Passing f n new (s.flows f).elements
        → measure new (s.flows f).elements < m
        → t.state ≡ new
        → passes_on f n a ≡ true
        → EndsIn (measure new (s.flows f).elements) (run_action call s t a)
    unfolding run_action
    run_action-ends s t a p le same ok = elim (Bool-cases (fires t a)) [
      | inl e ↦ rw e (by_kind a.action refl e)
      | inr e ↦ rw e (s, refl, p, omega arith)
    ]
      where
        by_kind :
            (k : ActionKind)
            → a.action ≡ k
            → fires t a ≡ true
            → EndsIn (measure new (s.flows f).elements) (elim k [
              | change_state flow target new ↦ call s flow target new t.reason
              | send_notify ↦ some (notify s t)
              | noop ↦ some s
            ])
        by_kind (change_state flow target state) e hit =
            let facts : (flow ≡ f) × (in_range target n ≡ true) × (state ≡ new) =
              action-facts f n t a flow target state new hit ok same e in
            rw (facts.0, facts.2) (ends s target t.reason p facts.1 le)
        by_kind send_notify e hit = (notify s t, refl, p, omega arith)
        by_kind noop e hit = (s, refl, p, omega arith)

    run_actions-ends :
        (s : Store) (t : Trigger) (actions : List Action)
        → Passing f n new (s.flows f).elements
        → measure new (s.flows f).elements < m
        → t.state ≡ new
        → all_pass_on f n actions ≡ true
        → EndsIn (measure new (s.flows f).elements) (run_actions call s t actions)
    unfolding run_actions
    run_actions-ends s t [] p le same ok = (s, refl, p, omega arith)
    run_actions-ends s t (a ∷ rest) p le same ok =
        let (mid, e, q, less) = run_action-ends s t a p le same (ground (arith, ok)) in
        let (s', e', q', less') =
          run_actions-ends mid t rest q (omega (arith, less, le)) same (ground (arith, ok)) in
        (s', rw e e', q', omega (arith, less, less'))

    fire-ends :
        (s : Store) (i reason : ℕ)
        → Passing f n new (s.flows f).elements
        → measure new (s.flows f).elements < suc m
        → i < n
        → EndsIn (measure new (s.flows f).elements) (fire call s f i reason)
    unfolding fire_element
    fire-ends s i reason p le lt =
        let (e, at, plain, waits) = Passing-get (s.flows f).elements i p lt in
        rw (fire-at call s f i reason e at) (elim (Bool-cases e.state_change) [
          | inr c ↦ rw c (s, refl, p, omega arith)
          | inl c ↦
              let (q, less) = quieted-Passing (s.flows f).elements i e at c p in
              let quiet = settled-plain f n s e plain in
              let there =
                put-elements s f i (settled s e) ∙ ap (set (s.flows f).elements i) quiet in
              let (s', runs, q', less') =
                run_actions-ends (put_element s f i (settled s e)) (trigger s f i reason e)
                  e.actions (rw there q) (omega (arith, ap (measure new) there, less, le))
                  (ap (λ x. x.state) quiet ∙ same_state-eq e.state new (waits c))
                  (ground (arith, plain)) in
              (s', rw c runs, q', omega (arith, ap (measure new) there, less, less'))
        ])

    fire_from-ends :
        (s : Store) (reason k i : ℕ)
        → Passing f n new (s.flows f).elements
        → measure new (s.flows f).elements < suc m
        → i + k ≤ n
        → EndsIn (measure new (s.flows f).elements) (fire_from call s f reason k i)
    unfolding fire_from
    fire_from-ends s reason zero i p le inside = (s, refl, p, omega arith)
    fire_from-ends s reason (suc k) i p le inside =
        let (mid, e, q, less) = fire-ends s i reason p le (omega (arith, inside)) in
        let (s', e', q', less') =
          fire_from-ends mid reason k (i + 1) q (omega (arith, less, le)) (omega (arith, inside)) in
        (s', rw e e', q', omega (arith, less, less'))

  range-le :
      (target : Option ℕ) (k : ℕ) → in_range target k ≡ true → first target + count target k ≤ k
  range-le none k h = omega arith
  range-le (some i) k h = ground (arith, h)

  pending-ends :
      (s : Store) (m : ℕ) (changed : Bool)
      → Passing f n new (s.flows f).elements
      → measure new (s.flows f).elements ≤ m
      → EndsIn m (some (if changed then set_pending s f else s))
  pending-ends s m false p le = (s, refl, p, le)
  pending-ends s m true p le = (set_pending s f, refl, ground (arith, p), ground (arith, le))

  change_body-ends : (call : Call) (m : ℕ) → EndsBelow call m → EndsBelow (change_body call) (suc m)
  unfolding change_body
  change_body-ends call m ends s target reason p inside le =
      let es = (s.flows f).elements in
      let marks = mark target new es 0 s.components in
      let (q, less) = mark-Passing target es 0 s.components p in
      let there : ((marked s f marks).flows f).elements ≡ marks.elements = ground arith in
      let inside' : in_range target (length es) ≡ true =
        subst (λ k. in_range target k ≡ true) (sym p.size) inside in
      let (mid, runs, q', less') =
        fire_from-ends call m ends (marked s f marks) reason (count target (length es))
          (first target) (rw there q) (omega (arith, ap (measure new) there, less, le))
          (subst (λ k. first target + count target (length es) ≤ k) p.size
            (range-le target (length es) inside')) in
      let (s', e, q'', less'') =
        pending-ends mid (measure new es) marks.changed q'
          (omega (arith, ap (measure new) there, less, less')) in
      (s', rw inside' (rw runs e), q'', less'')

  calls-end : (fuel : ℕ) → EndsBelow (change_element_state fuel) fuel
  unfolding change_element_state
  calls-end zero s target reason p inside lt = absurd (omega (arith, lt))
  calls-end (suc fuel) s target reason p inside lt =
      change_body-ends (change_element_state fuel) fuel (calls-end fuel) s target reason p inside lt

measure-le : (new : ElementState) (es : List Element) → measure new es ≤ 3 * length es
measure-le new [] = omega arith
measure-le new (e ∷ es) = ground (arith, measure-le new es)

-- On a flow without import clients, whose actions change only elements of the same flow and to the
-- state that triggers them, and whose waiting changes are all to the state that is asked for,
-- AuChangeElementState of an element of the flow, or of all, comes to an end with calls nested at
-- most 3 times the number of elements deep, and leaves such a flow, again with every waiting change
-- to that state.
pub change_element_state-ends :
    (fuel : ℕ) (s : Store) (f : ℕ) (target : Option ℕ) (new : ElementState) (reason : ℕ)
    → Passing f (length (s.flows f).elements) new (s.flows f).elements
    → in_range target (length (s.flows f).elements) ≡ true
    → 3 * length (s.flows f).elements < fuel
    → (s' : Store) × (change_element_state fuel s f target new reason ≡ some s')
      × Passing f (length (s.flows f).elements) new (s'.flows f).elements
change_element_state-ends fuel s f target new reason p inside enough =
    let (s', runs, q, less) =
      calls-end f (length (s.flows f).elements) new fuel s target reason p inside
        (omega (arith, enough, measure-le new (s.flows f).elements)) in
    (s', runs, q)
