-- ===== src/Element/Flags.antt =====
-- After AuChangeElementState of server/dia/auutil.c no element has a change of state that waits, and
-- a call leaves no new one to the call that it came from.
use nas.Prelude.{
  ℕ, zero, suc, ◌+◌, ◌≤◌, ◌<◌, ◌≡◌, refl, sym, ◌∙◌, subst, Bool, false, ◌&&◌, Option, some, List,
  [], ◌∷◌, length, ltb, get_elem?, set, if◌then◌else◌, Bool-cases, inl, inr, arith,
}
use native.Mathlib.Decide.{ℕ_discrete}
use nas.Play.{ElementState}
use nas.Element.{Element, Component, Store}
use nas.Element.Change.{
  selected, mark_one, mark, put_element, Call, settled, fire_element, fire, fire_from, set_pending,
  in_range, first, count, marked, change_body, change_element_state,
}
use nas.Element.Rule.{Keeps, some_eq, >>=-eq-some, fire-eq-some, fire_from-keeps, run_actions-keeps}

-- Whether the element of that number has a change that waits.
abbrev pub flag : List Element → ℕ → Bool
flag [] i = false
flag (e ∷ es) zero = e.state_change
flag (e ∷ es) (suc i) = flag es i

abbrev pub IsQuiet : ℕ → ℕ → Store → Type 0
IsQuiet g i s = flag (s.flows g).elements i ≡ false

flag-set_self :
    (es : List Element) (i : ℕ) (e : Element) → e.state_change ≡ false → flag (set es i e) i ≡ false
flag-set_self [] i e h = refl
flag-set_self (x ∷ xs) zero e h = h
flag-set_self (x ∷ xs) (suc i) e h = flag-set_self xs i e h

flag-set :
    (es : List Element) (i j : ℕ) (e : Element)
    → e.state_change ≡ false
    → flag es j ≡ false
    → flag (set es i e) j ≡ false
flag-set [] i j e h p = refl
flag-set (x ∷ xs) zero zero e h p = h
flag-set (x ∷ xs) zero (suc j) e h p = p
flag-set (x ∷ xs) (suc i) zero e h p = p
flag-set (x ∷ xs) (suc i) (suc j) e h p = flag-set xs i j e h p

pub flag-get :
    (es : List Element) (i : ℕ) (e : Element) → get_elem? es i ≡ some e → flag es i ≡ e.state_change
flag-get [] i e h = cc
flag-get (x ∷ xs) zero e h = cc
flag-get (x ∷ xs) (suc i) e h = flag-get xs i e h

settled-quiet : (s : Store) (e : Element) → (settled s e).state_change ≡ false
settled-quiet s e = ground arith

pub settle-IsQuiet :
    (g j : ℕ) (s : Store) (f i : ℕ) (e : Element)
    → IsQuiet g j s
    → IsQuiet g j (put_element s f i (settled s e))
settle-IsQuiet g j s f i e h =
    ground (arith, settled-quiet s e, flag-set (s.flows f).elements i j (settled s e))

-- The first loop leaves the elements that the call does not mean.
flag-mark :
    (target : Option ℕ) (new : ElementState) (es : List Element) (i j : ℕ) (cs : ℕ → Component)
    → selected target (i + j) ≡ false
    → flag (mark target new es i cs).elements j ≡ flag es j
unfolding mark
flag-mark target new [] i j cs h = refl
flag-mark target new (e ∷ es) i zero cs h =
    let e0 : i + 0 ≡ i = omega arith in
    let h' : selected target i ≡ false = subst (λ k. selected target k ≡ false) e0 h in
    ground (arith, h')
flag-mark target new (e ∷ es) i (suc j) cs h =
    let e0 : i + suc j ≡ i + 1 + j = omega arith in
    let h' : selected target (i + 1 + j) ≡ false = subst (λ k. selected target k ≡ false) e0 h in
    ground (
      arith,
      flag-mark target new es (i + 1) j cs h',
      flag-mark target new es (i + 1) j (mark_one new e cs).1 h',
    )

-- There is no change beyond the last element.
flag-mark_past :
    (target : Option ℕ) (new : ElementState) (es : List Element) (i j : ℕ) (cs : ℕ → Component)
    → length es ≤ j
    → flag (mark target new es i cs).elements j ≡ false
unfolding mark
flag-mark_past target new [] i j cs h = refl
flag-mark_past target new (e ∷ es) i zero cs h = absurd (omega (arith, h))
flag-mark_past target new (e ∷ es) i (suc j) cs h = ground (
  arith,
  flag-mark_past target new es (i + 1) j cs (omega (arith, h)),
  flag-mark_past target new es (i + 1) j (mark_one new e cs).1 (omega (arith, h)),
)

skipped-quiet :
    (s : Store) (f : ℕ) (target : Option ℕ) (new : ElementState) (j : ℕ)
    → (selected target j && ltb j (length (s.flows f).elements)) ≡ false
    → IsQuiet f j s
    → flag (mark target new (s.flows f).elements 0 s.components).elements j ≡ false
skipped-quiet s f target new j h p = elim (Bool-cases (selected target j)) [
  | inl e ↦ flag-mark_past target new (s.flows f).elements 0 j s.components (ground (arith, e, h))
  | inr e ↦
      let at : 0 + j ≡ j = omega arith in
      flag-mark target new (s.flows f).elements 0 j s.components
        (subst (λ k. selected target k ≡ false) (sym at) e)
      ∙ p
]

module _ (call : Call) (quiet : (g j : ℕ) → Keeps (IsQuiet g j) call) where
  -- A turn quiets its own element.
  fire-quiets :
      (s : Store) (f i reason : ℕ) (s' : Store) → fire call s f i reason ≡ some s' → IsQuiet f i s'
  unfolding fire_element
  fire-quiets s f i reason s' h =
      let (e, at, runs) = fire-eq-some call s f i reason h in
      elim (Bool-cases e.state_change) [
        | inl c ↦
            run_actions-keeps (IsQuiet f i) f (λ s k e at. settle-IsQuiet f i s f k e) (λ s t h. h)
              call (quiet f i) _ _ e.actions s' (rw c at (runs))
              (ground
                (arith, settled-quiet s e, flag-set_self (s.flows f).elements i (settled s e)))
        | inr c ↦
            subst (IsQuiet f i) (some_eq (rw c at (runs)))
              (flag-get (s.flows f).elements i e at ∙ c)
      ]

  fire_from-quiets :
      (s : Store) (f reason n i j : ℕ) (s' : Store)
      → fire_from call s f reason n i ≡ some s'
      → i ≤ j
      → j < i + n
      → IsQuiet f j s'
  unfolding fire_from
  fire_from-quiets s f reason zero i j s' h le lt = absurd (omega (arith, le, lt))
  fire_from-quiets s f reason (suc n) i j s' h le lt =
      let (mid, e, e') =
        >>=-eq-some (fire call s f i reason) (λ m. fire_from call m f reason n (i + 1)) h in
      elim (ℕ_discrete i j) [
        | yes same ↦
            fire_from-keeps (IsQuiet f j) f (λ s k e at. settle-IsQuiet f j s f k e) (λ s t h. h)
              call (quiet f j) mid reason n (i + 1) s' e'
              (rw same at (fire-quiets s f i reason mid e))
        | no differs ↦
            fire_from-quiets mid f reason n (i + 1) j s' e' (omega (arith, differs)) (omega arith)
      ]

  pub change_body-IsQuiet : (g j : ℕ) → Keeps (IsQuiet g j) (change_body call)
  unfolding change_body
  change_body-IsQuiet g j s f target new reason s' h p =
      let n = length (s.flows f).elements in
      let m = mark target new (s.flows f).elements 0 s.components in
      elim (Bool-cases (in_range target n)) [
        | inr e ↦ absurd (ground (arith, e, h))
        | inl e ↦
            let (mid, runs, ends) =
              >>=-eq-some (fire_from call (marked s f m) f reason (count target n) (first target))
                (λ s'. some (if m.changed then set_pending s' f else s')) (rw e at (h)) in
            let stays : IsQuiet g j mid → IsQuiet g j s' = λ q. elim (Bool-cases m.changed) [
              | inl c ↦ subst (IsQuiet g j) (some_eq (rw c at (ends))) (ground (arith, q))
              | inr c ↦ subst (IsQuiet g j) (some_eq (rw c at (ends))) q
            ] in
            let kept : IsQuiet g j (marked s f m) → IsQuiet g j s' = λ q. stays (
              fire_from-keeps (IsQuiet g j) f (λ s k e at. settle-IsQuiet g j s f k e) (λ s t h. h)
                call (quiet g j) (marked s f m) reason (count target n) (first target) mid runs
                q) in
            elim (ℕ_discrete f g) [
              | no other ↦ kept (ground (arith, other, p))
              | yes same ↦ elim (Bool-cases (selected target j && ltb j n)) [
                | inl meant ↦ stays (
                    rw same at (
                      fire_from-quiets (marked s f m) f reason (count target n) (first target) j mid
                        runs (ground (arith, meant)) (ground (arith, meant))))
                | inr skipped ↦ kept (
                    ground (
                      arith,
                      same,
                      skipped-quiet s f target new j skipped
                          (subst (λ k. IsQuiet k j s) (sym same) p),
                    ))
              ]
            ]
      ]

pub change_element_state-IsQuiet : (fuel g j : ℕ) → Keeps (IsQuiet g j) (change_element_state fuel)
unfolding change_element_state
change_element_state-IsQuiet zero g j s f target new reason s' h p = cc
change_element_state-IsQuiet (suc fuel) g j s f target new reason s' h p =
    change_body-IsQuiet (change_element_state fuel) (change_element_state-IsQuiet fuel) g j s f
      target new reason s' h p
