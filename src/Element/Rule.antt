-- ===== src/Element/Rule.antt =====
-- The rule for what every part of AuChangeElementState of server/dia/auutil.c keeps: then a call
-- keeps it too, with all that its actions call.
use nas.Prelude.{
  ℕ, zero, suc, ◌+◌, ◌≡◌, refl, subst, Option, none, some, List, [], ◌∷◌, length, get_elem?,
  if◌then◌else◌, Bool-cases, inl, inr, arith,
}
use nas.Play.{ElementState}
use nas.Element.{Element, Store, Action, ActionKind, change_state, send_notify, noop}
use nas.Element.Change.{
  ◌>>=◌, mark, put_element, Call, Trigger, fires, notify, run_action, run_actions, settled,
  fire_element, fire, fire_from, set_pending, in_range, first, count, marked, change_body,
  change_element_state,
}

pub >>=-eq-some {ℓ κ} :
    {A : Type ℓ} {B : Type κ} (m : Option A) (f : A → Option B) {b : B}
    → (m >>= f) ≡ some b
    → (a : A) × (m ≡ some a) × (f a ≡ some b)
>>=-eq-some none f h = cc
>>=-eq-some (some a) f h = (a, refl, h)

pub some_eq {ℓ} : {A : Type ℓ} {a b : A} → some a ≡ some b → a ≡ b
some_eq e = cc

abbrev pub Keeps : (Store → Type 0) → Call → Type 0
Keeps P call =
    (s : Store) (f : ℕ) (target : Option ℕ) (new : ElementState) (reason : ℕ) (s' : Store)
    → call s f target new reason ≡ some s'
    → P s
    → P s'

-- A turn that succeeds is on an element that is there.
pub fire-eq-some :
    (call : Call) (s : Store) (f i reason : ℕ) {s' : Store}
    → fire call s f i reason ≡ some s'
    → (e : Element) × (get_elem? (s.flows f).elements i ≡ some e)
      × (fire_element call s f i reason e ≡ some s')
unfolding fire
fire-eq-some call s f i reason {s'} h = go (get_elem? (s.flows f).elements i) refl h
  where
    go :
        (o : Option Element)
        → get_elem? (s.flows f).elements i ≡ o
        → (elim o [ none ↦ none | some e ↦ fire_element call s f i reason e ]) ≡ some s'
        → (e : Element) × (get_elem? (s.flows f).elements i ≡ some e)
          × (fire_element call s f i reason e ≡ some s')
    go none at h = cc
    go (some e) at h = (e, at, h)

module _ (P : Store → Type 0) (f : ℕ)
    (on_settle : (s : Store) (i : ℕ) (e : Element)
      → get_elem? (s.flows f).elements i ≡ some e
      → P s
      → P (put_element s f i (settled s e)))
    (on_notify : (s : Store) (t : Trigger) → P s → P (notify s t)) where
  module _ (call : Call) (keeps : Keeps P call) where
    run_action-keeps :
        (s : Store) (t : Trigger) (a : Action) (s' : Store)
        → run_action call s t a ≡ some s'
        → P s
        → P s'
    unfolding run_action
    run_action-keeps s t a s' h p = elim (Bool-cases (fires t a)) [
      | inl e ↦ by_kind a.action (rw e at (h))
      | inr e ↦ subst P (some_eq (rw e at (h))) p
    ]
      where
        by_kind :
            (k : ActionKind)
            → (elim k [
              | change_state flow target new ↦ call s flow target new t.reason
              | send_notify ↦ some (notify s t)
              | noop ↦ some s
            ])
              ≡ some s'
            → P s'
        by_kind (change_state flow target new) e = keeps s flow target new t.reason s' e p
        by_kind send_notify e = subst P (some_eq e) (on_notify s t p)
        by_kind noop e = subst P (some_eq e) p

    pub run_actions-keeps :
        (s : Store) (t : Trigger) (actions : List Action) (s' : Store)
        → run_actions call s t actions ≡ some s'
        → P s
        → P s'
    unfolding run_actions
    run_actions-keeps s t [] s' h p = subst P (some_eq h) p
    run_actions-keeps s t (a ∷ rest) s' h p =
        let (mid, e, e') = >>=-eq-some (run_action call s t a) (λ m. run_actions call m t rest) h in
        run_actions-keeps mid t rest s' e' (run_action-keeps s t a mid e p)

    fire_element-keeps :
        (s : Store) (i reason : ℕ) (e : Element) (s' : Store)
        → get_elem? (s.flows f).elements i ≡ some e
        → fire_element call s f i reason e ≡ some s'
        → P s
        → P s'
    unfolding fire_element
    fire_element-keeps s i reason e s' at h p = elim (Bool-cases e.state_change) [
      | inl c ↦ run_actions-keeps _ _ e.actions s' (rw c at (h)) (on_settle s i e at p)
      | inr c ↦ subst P (some_eq (rw c at (h))) p
    ]

    pub fire-keeps :
        (s : Store) (i reason : ℕ) (s' : Store) → fire call s f i reason ≡ some s' → P s → P s'
    fire-keeps s i reason s' h p =
        let (e, at, runs) = fire-eq-some call s f i reason h in
        fire_element-keeps s i reason e s' at runs p

    pub fire_from-keeps :
        (s : Store) (reason n i : ℕ) (s' : Store)
        → fire_from call s f reason n i ≡ some s'
        → P s
        → P s'
    unfolding fire_from
    fire_from-keeps s reason zero i s' h p = subst P (some_eq h) p
    fire_from-keeps s reason (suc n) i s' h p =
        let (mid, e, e') =
          >>=-eq-some (fire call s f i reason) (λ m. fire_from call m f reason n (i + 1)) h in
        fire_from-keeps mid reason n (i + 1) s' e' (fire-keeps s i reason mid e p)

module _ (P : Store → Type 0)
    (on_settle : (s : Store) (f i : ℕ) (e : Element)
      → get_elem? (s.flows f).elements i ≡ some e
      → P s
      → P (put_element s f i (settled s e)))
    (on_notify : (s : Store) (t : Trigger) → P s → P (notify s t))
    (on_mark : (s : Store) (f : ℕ) (target : Option ℕ) (new : ElementState)
      → P s
      → P (marked s f (mark target new (s.flows f).elements 0 s.components)))
    (on_pending : (s : Store) (f : ℕ) → P s → P (set_pending s f)) where
  change_body-Keeps : (call : Call) → Keeps P call → Keeps P (change_body call)
  unfolding change_body
  change_body-Keeps call keeps s f target new reason s' h p =
      let n = length (s.flows f).elements in
      let m = mark target new (s.flows f).elements 0 s.components in
      elim (Bool-cases (in_range target n)) [
        | inl e ↦
            let (mid, runs, ends) =
              >>=-eq-some (fire_from call (marked s f m) f reason (count target n) (first target))
                (λ s'. some (if m.changed then set_pending s' f else s')) (rw e at (h)) in
            let q =
              fire_from-keeps P f (λ s. on_settle s f) on_notify call keeps (marked s f m) reason
                (count target n) (first target) mid runs (on_mark s f target new p) in
            elim (Bool-cases m.changed) [
              | inl c ↦ subst P (some_eq (rw c at (ends))) (on_pending mid f q)
              | inr c ↦ subst P (some_eq (rw c at (ends))) q
            ]
        | inr e ↦ absurd (ground (arith, e, h))
      ]

  pub change_element_state-Keeps : (fuel : ℕ) → Keeps P (change_element_state fuel)
  unfolding change_element_state
  change_element_state-Keeps zero s f target new reason s' h p = cc
  change_element_state-Keeps (suc fuel) s f target new reason s' h p =
      change_body-Keeps (change_element_state fuel) (change_element_state-Keeps fuel) s f target new
        reason s' h p
