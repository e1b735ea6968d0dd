-- ===== src/Element/Allowed.antt =====
-- AuChangeElementState of server/dia/auutil.c never takes an element from a stop to a pause, however
-- its actions call it again.
use nas.Prelude.{
  ℕ, zero, suc, ◌+◌, ◌≡◌, refl, Bool, true, ◌&&◌, not, Option, some, List, [], ◌∷◌, ◌==◌, get_elem?,
  set, if◌then◌else◌, arith,
}
use nas.Play.{ElementState, stopped, paused}
use nas.Element.{Element, Component, Store, start_element}
use nas.Element.Rule.{change_element_state-Keeps}
use nas.Element.Change.{same_state, takes, mark_one, mark, settled, change_element_state}

-- Not from a stop to a pause.
abbrev pub allowed : Element → Bool
allowed e = not (same_state e.prev_state stopped && same_state e.state paused)

abbrev pub all_allowed : List Element → Bool
all_allowed [] = true
all_allowed (e ∷ es) = allowed e && all_allowed es

abbrev pub IsAllowed : Store → Type 0
IsAllowed s = (g : ℕ) → all_allowed (s.flows g).elements ≡ true

all_allowed-set :
    (es : List Element) (i : ℕ) (e : Element)
    → all_allowed es ≡ true
    → allowed e ≡ true
    → all_allowed (set es i e) ≡ true
all_allowed-set [] i e h p = refl
all_allowed-set (x ∷ xs) zero e h p = ground arith
all_allowed-set (x ∷ xs) (suc i) e h p = ground (arith, all_allowed-set xs i e)

all_allowed-get :
    (es : List Element) (i : ℕ) (e : Element)
    → all_allowed es ≡ true
    → get_elem? es i ≡ some e
    → allowed e ≡ true
all_allowed-get [] i e h p = cc
all_allowed-get (x ∷ xs) zero e h p = ground arith
all_allowed-get (x ∷ xs) (suc i) e h p = ground (arith, all_allowed-get xs i e)

start_element-states :
    (e : Element) (c : Component)
    → ((start_element e c).0.state ≡ e.state) × ((start_element e c).0.prev_state ≡ e.prev_state)
unfolding start_element
start_element-states e c = ground arith

take-allowed :
    (new : ElementState) (e : Element) (cs : ℕ → Component)
    → takes new e ≡ true
    → allowed (mark_one new e cs).0 ≡ true
unfolding mark_one
take-allowed new e cs h = ground (arith, start_element-states e (cs e.component))

all_allowed-mark :
    (target : Option ℕ) (new : ElementState) (es : List Element) (i : ℕ) (cs : ℕ → Component)
    → all_allowed es ≡ true
    → all_allowed (mark target new es i cs).elements ≡ true
unfolding mark
all_allowed-mark target new [] i cs h = refl
all_allowed-mark target new (e ∷ es) i cs h = ground (
  arith,
  take-allowed new e cs,
  all_allowed-mark target new es (i + 1) cs,
  all_allowed-mark target new es (i + 1) (mark_one new e cs).1,
)

settled-allowed : (s : Store) (e : Element) → allowed e ≡ true → allowed (settled s e) ≡ true
settled-allowed s e h = ground arith

-- What holds of the elements of every flow, where those of one are replaced.
with_elements-IsAllowed :
    (s : Store) (f : ℕ) (es : List Element)
    → IsAllowed s
    → all_allowed es ≡ true
    → (g : ℕ) → all_allowed (if f == g then es else (s.flows g).elements) ≡ true
with_elements-IsAllowed s f es h p g = ground (arith, h g)

-- However AuChangeElementState calls itself, if it comes to an end and before it no element was
-- paused straight from a stop, none is after it.
pub change_element_state-IsAllowed :
    (fuel : ℕ) (s : Store) (f : ℕ) (target : Option ℕ) (new : ElementState) (reason : ℕ)
    (s' : Store)
    → change_element_state fuel s f target new reason ≡ some s'
    → IsAllowed s
    → IsAllowed s'
change_element_state-IsAllowed =
    change_element_state-Keeps IsAllowed
      (λ s f i e at h g. ground (
        arith,
        h g,
        h f,
        all_allowed-set (s.flows f).elements i (settled s e),
        all_allowed-get (s.flows f).elements i e,
        settled-allowed s e,
      ))
      (λ s t h. h)
      (λ s f target new h g.
        ground (arith, h g, h f, all_allowed-mark target new (s.flows f).elements 0 s.components))
      (λ s f h g. ground (arith, h g, h f))
