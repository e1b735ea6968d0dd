-- ===== src/Element/Pending.antt =====
-- The pending state of a flow of server/dia/auutil.c agrees with its elements after
-- AuChangeElementState, also where actions change other flows.
use nas.Prelude.{
  ℕ, zero, suc, ◌+◌, ◌≡◌, ◌≢◌, refl, sym, ◌∙◌, subst, false, Option, some, List, [], ◌∷◌, length,
  if◌then◌else◌, Bool-cases, inl, inr, arith,
}
use native.Mathlib.Decide.{ℕ_discrete}
use nas.Play.{ElementState}
use nas.Element.{Element, Component, Store}
use nas.Element.Change.{
  mark_one, mark, Marked, Call, fire_element, fire, fire_from, set_pending, in_range, first, count,
  marked, flow_state, change_body, change_element_state,
}
use nas.Element.Rule.{Keeps, some_eq, >>=-eq-some, fire-eq-some, fire_from-keeps}
use nas.Element.Flags.{
  flag-get, IsQuiet, settle-IsQuiet, change_body-IsQuiet, change_element_state-IsQuiet,
}

-- The pending state is that of the elements.
abbrev pub IsCoherent : ℕ → Store → Type 0
IsCoherent g s = (s.flows g).pending_state ≡ flow_state (s.flows g).elements

-- And no element of the flow has a change that waits.
abbrev pub IsClean : ℕ → Store → Type 0
IsClean g s = IsCoherent g s × ((j : ℕ) → IsQuiet g j s)

mark-same :
    (target : Option ℕ) (new : ElementState) (es : List Element) (i : ℕ) (cs : ℕ → Component)
    → (mark target new es i cs).changed ≡ false
    → (mark target new es i cs).elements ≡ es
unfolding mark
mark-same target new [] i cs h = refl
mark-same target new (e ∷ es) i cs h = ground (
  arith,
  mark-same target new es (i + 1) cs,
  mark-same target new es (i + 1) (mark_one new e cs).1,
)

module _ (call : Call) where
  -- A flow without waiting changes: no turn does anything.
  fire-quiet :
      (s : Store) (f i reason : ℕ) (s' : Store)
      → ((j : ℕ) → IsQuiet f j s)
      → fire call s f i reason ≡ some s'
      → s ≡ s'
  unfolding fire_element
  fire-quiet s f i reason s' q h =
      let (e, at, runs) = fire-eq-some call s f i reason h in
      let c : e.state_change ≡ false = sym (flag-get (s.flows f).elements i e at) ∙ q i in
      some_eq (rw c at (runs))

  fire_from-quiet :
      (s : Store) (f reason n i : ℕ) (s' : Store)
      → ((j : ℕ) → IsQuiet f j s)
      → fire_from call s f reason n i ≡ some s'
      → s ≡ s'
  unfolding fire_from
  fire_from-quiet s f reason zero i s' q h = some_eq h
  fire_from-quiet s f reason (suc n) i s' q h =
      let (mid, e, e') =
        >>=-eq-some (fire call s f i reason) (λ m. fire_from call m f reason n (i + 1)) h in
      let same = fire-quiet s f i reason mid q e in
      same
      ∙ fire_from-quiet mid f reason n (i + 1) s' (subst (λ t. (j : ℕ) → IsQuiet f j t) same q) e'

module _ (call : Call) (quiet : (g j : ℕ) → Keeps (IsQuiet g j) call)
    (clean : (g : ℕ) → Keeps (IsClean g) call) where
  -- A call for another flow.
  other-IsClean :
      (g : ℕ) (s : Store) (f : ℕ) (m : Marked) (reason n i : ℕ) (mid : Store)
      → f ≢ g
      → fire_from call (marked s f m) f reason n i ≡ some mid
      → IsClean g s
      → IsClean g mid
  other-IsClean g s f m reason n i mid differs runs (coherent, q) =
      fire_from-keeps (IsClean g) f
        (λ s k e at h. (ground (arith, differs, h.0), λ j. settle-IsQuiet g j s f k e (h.1 j)))
        (λ s t h. h) call (clean g) (marked s f m) reason n i mid runs
        (ground (arith, differs, coherent), λ j. ground (arith, differs, q j))

  change_body-IsCoherent :
      (g : ℕ) (s : Store) (f : ℕ) (target : Option ℕ) (new : ElementState) (reason : ℕ) (s' : Store)
      → change_body call s f target new reason ≡ some s'
      → IsClean g s
      → IsCoherent g s'
  unfolding change_body
  change_body-IsCoherent g s f target new reason s' h p =
      let n = length (s.flows f).elements in
      let m = mark target new (s.flows f).elements 0 s.components in
      elim (Bool-cases (in_range target n)) [
        | inr e ↦ absurd (ground (arith, e, h))
        | inl e ↦
            let (mid, runs, ends) =
              >>=-eq-some (fire_from call (marked s f m) f reason (count target n) (first target))
                (λ s'. some (if m.changed then set_pending s' f else s')) (rw e at (h)) in
            elim (ℕ_discrete f g) [
              | no other ↦
                  let q =
                    other-IsClean g s f m reason (count target n) (first target) mid other runs p in
                  elim (Bool-cases m.changed) [
                    | inl c ↦
                        subst (IsCoherent g) (some_eq (rw c at (ends))) (ground (arith, other, q.0))
                    | inr c ↦ subst (IsCoherent g) (some_eq (rw c at (ends))) q.0
                  ]
              | yes same ↦ elim (Bool-cases m.changed) [
                | inl c ↦ subst (IsCoherent g) (some_eq (rw c at (ends))) (ground (arith, same))
                | inr c ↦
                    let unmoved = mark-same target new (s.flows f).elements 0 s.components c in
                    let p' : IsClean f s = subst (λ k. IsClean k s) (sym same) p in
                    let stays =
                      fire_from-quiet call (marked s f m) f reason (count target n) (first target)
                        mid (λ j. ground (arith, unmoved, p'.1 j)) runs in
                    subst (IsCoherent g) (some_eq (rw c at (ends)))
                      (subst (IsCoherent g) stays (ground (arith, same, unmoved, p'.0)))
              ]
            ]
      ]

-- If AuChangeElementState comes to an end, whatever it called, a flow whose pending state agreed with
-- its elements, and without waiting changes, is again such a flow: any flow, also of other elements.
pub change_element_state-IsClean :
    (fuel g : ℕ) (s : Store) (f : ℕ) (target : Option ℕ) (new : ElementState) (reason : ℕ)
    (s' : Store)
    → change_element_state fuel s f target new reason ≡ some s'
    → IsClean g s
    → IsClean g s'
unfolding change_element_state
change_element_state-IsClean zero g s f target new reason s' h p = cc
change_element_state-IsClean (suc fuel) g s f target new reason s' h p =
    let call = change_element_state fuel in
    (
      change_body-IsCoherent call (change_element_state-IsQuiet fuel)
          (change_element_state-IsClean fuel) g s f target new reason s' h p,
      λ j.
          change_body-IsQuiet call (change_element_state-IsQuiet fuel) g j s f target new reason s'
            h (p.1 j),
    )
