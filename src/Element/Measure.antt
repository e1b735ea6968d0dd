-- ===== src/Element/Measure.antt =====
-- What decreases in AuChangeElementState of server/dia/auutil.c where actions only pass on the state
-- that triggers them: the elements not in that state, and the changes that wait.
use nas.Prelude.{
  ℕ, zero, suc, ◌+◌, ◌≤◌, ◌<◌, ◌≡◌, refl, Bool, true, false, ◌&&◌, ◌||◌, not, Option, none, some,
  List, [], ◌∷◌, length, length-set, ◌==◌, get_elem?, set, if◌then◌else◌, arith,
}
use nas.Play.{ElementState}
use nas.Element.{
  Kind, import_client, change_state, send_notify, noop, Action, Element, Component, start_element,
}
use nas.Element.Change.{same_state, takes, mark_one, mark, in_range}

abbrev weight : ElementState → Element → ℕ
weight new e = (if same_state e.state new then 0 else 2) + (if e.state_change then 1 else 0)

abbrev pub measure : ElementState → List Element → ℕ
measure new [] = 0
measure new (e ∷ es) = weight new e + measure new es

-- An action that changes states changes those of elements of the same flow, to the state that
-- triggers it.
abbrev pub passes_on : ℕ → ℕ → Action → Bool
passes_on f n a = elim a.action [
  | change_state flow target new ↦
      flow == f
      && in_range target n
      && (elim a.trigger_state [ none ↦ false | some t ↦ same_state t new ])
  | send_notify ↦ true
  | noop ↦ true
]

abbrev pub all_pass_on : ℕ → ℕ → List Action → Bool
all_pass_on f n [] = true
all_pass_on f n (a ∷ rest) = passes_on f n a && all_pass_on f n rest

abbrev pub is_import_client : Kind → Bool
is_import_client import_client = true
is_import_client _ = false

abbrev pub is_plain : ℕ → ℕ → Element → Bool
is_plain f n e = not (is_import_client e.kind) && all_pass_on f n e.actions

abbrev pub all_plain : ℕ → ℕ → List Element → Bool
all_plain f n [] = true
all_plain f n (e ∷ es) = is_plain f n e && all_plain f n es

-- A change that waits is to the state of the call.
abbrev waits_for : ElementState → Element → Bool
waits_for new e = not e.state_change || same_state e.state new

abbrev pub all_wait_for : ElementState → List Element → Bool
all_wait_for new [] = true
all_wait_for new (e ∷ es) = waits_for new e && all_wait_for new es

-- The flow `f` of `n` elements, in a call to the state `new`.
pub record Passing (f n : ℕ) (new : ElementState) (es : List Element) : Type 0 where
  pub size : length es ≡ n
  pub plain : all_plain f n es ≡ true
  pub waiting : all_wait_for new es ≡ true

start_element-same :
    (e : Element) (c : Component)
    → ((start_element e c).0.kind ≡ e.kind) × ((start_element e c).0.actions ≡ e.actions)
unfolding start_element
start_element-same e c = ground arith

mark_one-weight :
    (f n : ℕ) (new : ElementState) (e : Element) (cs : ℕ → Component)
    → takes new e ≡ true
    → let e' = (mark_one new e cs).0 in
      (weight new e' ≤ weight new e)
      × (waits_for new e' ≡ true)
      × (is_plain f n e' ≡ is_plain f n e)
unfolding mark_one
mark_one-weight f n new e cs h = ground (arith, start_element-same e (cs e.component))

mark-parts :
    (f n : ℕ) (target : Option ℕ) (new : ElementState) (es : List Element) (i : ℕ)
    (cs : ℕ → Component)
    → let es' = (mark target new es i cs).elements in
      (length es' ≡ length es)
      × (measure new es' ≤ measure new es)
      × (all_plain f n es' ≡ all_plain f n es)
      × (all_wait_for new es ≡ true → all_wait_for new es' ≡ true)
unfolding mark
mark-parts f n target new [] i cs = ground arith
mark-parts f n target new (e ∷ es) i cs = ground (
  arith,
  mark_one-weight f n new e cs,
  mark-parts f n target new es (i + 1) cs,
  mark-parts f n target new es (i + 1) (mark_one new e cs).1,
)

pub mark-Passing :
    {f n : ℕ} {new : ElementState} (target : Option ℕ) (es : List Element) (i : ℕ)
    (cs : ℕ → Component)
    → Passing f n new es
    → Passing f n new (mark target new es i cs).elements
      × (measure new (mark target new es i cs).elements ≤ measure new es)
mark-Passing {f} {n} {new} target es i cs p = ground (arith, mark-parts f n target new es i cs)

-- One element replaced by itself without a waiting change.
abbrev pub quieted : Element → Element
quieted e = record e { state_change = false }

quieted-parts :
    (f n : ℕ) (new : ElementState) (es : List Element) (i : ℕ) (e : Element)
    → get_elem? es i ≡ some e
    → e.state_change ≡ true
    → (measure new (set es i (quieted e)) + 1 ≡ measure new es)
      × (all_plain f n (set es i (quieted e)) ≡ all_plain f n es)
      × (all_wait_for new es ≡ true → all_wait_for new (set es i (quieted e)) ≡ true)
quieted-parts f n new [] i e at c = cc
quieted-parts f n new (x ∷ xs) zero e at c = ground (arith, at, c)
quieted-parts f n new (x ∷ xs) (suc i) e at c = ground (arith, quieted-parts f n new xs i e at c)

pub quieted-Passing :
    {f n : ℕ} {new : ElementState} (es : List Element) (i : ℕ) (e : Element)
    → get_elem? es i ≡ some e
    → e.state_change ≡ true
    → Passing f n new es
    → Passing f n new (set es i (quieted e))
      × (measure new (set es i (quieted e)) + 1 ≡ measure new es)
quieted-Passing {f} {n} {new} es i e at c p =
    ground (arith, length-set es i (quieted e), quieted-parts f n new es i e at c)

pub Passing-get :
    {f n : ℕ} {new : ElementState} (es : List Element) (i : ℕ)
    → Passing f n new es
    → i < n
    → (e : Element) × (get_elem? es i ≡ some e)
      × (is_plain f n e ≡ true)
      × (e.state_change ≡ true → same_state e.state new ≡ true)
Passing-get {f} {n} {new} es i p lt = go es i p.plain p.waiting (omega (arith, p.size, lt))
  where
    go :
        (es : List Element) (i : ℕ)
        → all_plain f n es ≡ true
        → all_wait_for new es ≡ true
        → i < length es
        → (e : Element) × (get_elem? es i ≡ some e)
          × (is_plain f n e ≡ true)
          × (e.state_change ≡ true → same_state e.state new ≡ true)
    go [] i pl w lt = absurd (omega (arith, lt))
    go (x ∷ xs) zero pl w lt = (x, refl, ground arith, ground arith)
    go (x ∷ xs) (suc i) pl w lt = go xs i (ground arith) (ground arith) (omega (arith, lt))
