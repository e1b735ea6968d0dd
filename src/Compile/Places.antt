-- ===== src/Compile/Places.antt =====
-- The loops of compileInputs of server/dia/auutil.c over the tracks of a bundle and the terms of a sum.
use nas.Prelude.{
  ℕ, ◌+◌, ◌%◌, ◌^◌, ◌<◌, ◌≤◌, ◌≡◌, inl, inr, refl, sym, ap, ◌∙◌, Bool, true, Bool-cases, Option,
  none, some, Option-cases, List, [], ◌∷◌, ◌++◌, length, get_elem?, set, ◌==◌, if◌then◌else◌,
  append-nil, length-append, arith,
}
use nas.Compile.{
  Route, Input, Compiling, Outcome, outside, out_of_depth, returned, success, bad_alloc, bad_device,
  bad_bucket, bad_element, Call, and_then, with_gains, max_tracks, compile_bundle, compile_sum,
}
use nas.Compile.Leaves.{◌>>=◌, Walk, leaves_of, to_all, placed, runs_from, all_short}

-- The inputs of an output, and how many of them are met.
abbrev pub Filled : Type 0
Filled = List Input × ℕ

abbrev pub filled : Compiling → Filled
filled st = (st.inputs, st.count)

-- What a call that succeeds leaves.
abbrev pub written : Outcome → Option Filled
written (returned success st) = some (filled st)
written (returned bad_alloc st) = none
written (returned bad_device st) = none
written (returned bad_bucket st) = none
written (returned bad_element st) = none
written out_of_depth = none
written outside = none

-- One more input: behind the others, or the next of those there are with new gains.
unfoldable pub write_one : Bool → Input → Filled → Option Filled
write_one recompile l (xs, n) =
    if recompile
    then elim (get_elem? xs n) [
      | none ↦ none
      | some i ↦ some (set xs n (with_gains l.path i), n + 1)
    ]
    else some (xs ++ l ∷ [], n + 1)

unfoldable pub write : Bool → List Input → Filled → Option Filled
write recompile [] s = some s
write recompile (l ∷ ls) s = write_one recompile l s >>= write recompile ls

pub bind_assoc :
    {A B C : Type 0} (o : Option A) (f : A → Option B) (g : B → Option C)
    → (o >>= f) >>= g ≡ o >>= λ a. f a >>= g
bind_assoc none f g = refl
bind_assoc (some a) f g = refl

pub bind_ap :
    {A B : Type 0} (o : Option A) (f g : A → Option B)
    → ((a : A) → f a ≡ g a)
    → (o >>= f) ≡ (o >>= g)
bind_ap none f g h = refl
bind_ap (some a) f g h = h a

pub write-append :
    (r : Bool) (a b : List Input) (s : Filled) → write r (a ++ b) s ≡ write r a s >>= write r b
unfolding write
write-append r [] b s = refl
write-append r (l ∷ a) b s =
    bind_ap (write_one r l s) (write r (a ++ b)) (λ t. write r a t >>= write r b)
      (write-append r a b)
    ∙ sym (bind_assoc (write_one r l s) (write r a) (write r b))

written-and_then :
    (o : Outcome) (f : Compiling → Outcome) (g : Filled → Option Filled)
    → ((st : Compiling) → written (f st) ≡ g (filled st))
    → written (and_then o f) ≡ written o >>= g
written-and_then (returned success st) f g h = h st
written-and_then (returned bad_alloc st) f g h = refl
written-and_then (returned bad_device st) f g h = refl
written-and_then (returned bad_bucket st) f g h = refl
written-and_then (returned bad_element st) f g h = refl
written-and_then out_of_depth f g h = refl
written-and_then outside f g h = refl

pub leaves_of-cons :
    (walk : Walk) (i : ℕ) (p : Route) (rest : List (ℕ × Route)) (ls : List Input)
    → leaves_of walk ((i, p) ∷ rest) ≡ some ls
    → (a b : List Input) × (walk i p ≡ some a) × (leaves_of walk rest ≡ some b) × (ls ≡ a ++ b)
unfolding leaves_of
leaves_of-cons walk i p rest ls h = elim (Option-cases (walk i p)) [
  | inl e ↦ absurd (ground (arith, e, h))
  | inr (a, e) ↦ elim (Option-cases (leaves_of walk rest)) [
    | inl e' ↦ absurd (ground (arith, e, e', h))
    | inr (b, e') ↦ (a, b, e, e', ground (arith, e, e', h))
  ]
]

nothing_left : (walk : Walk) (b : List Input) → leaves_of walk [] ≡ some b → b ≡ []
unfolding leaves_of
nothing_left walk b h = ground (arith, h)

pub first_run :
    (next : ℕ) (tracks : List ℕ) (ts : List (ℕ × ℕ))
    → all_short (runs_from next tracks ts) ≡ true
    → length tracks ≤ max_tracks
unfolding runs_from
first_run next tracks [] h = ground arith
first_run next tracks ((e, t) ∷ rest) h = elim (Bool-cases (e == next)) [
  | inl q ↦ omega (
    arith,
    first_run e (tracks ++ t ∷ []) rest (ground (arith, h, q)),
    length-append tracks (t ∷ []),
  )
  | inr q ↦ ground (arith, h, q)
]

module _ (r : Bool) (call : Call) (walk : Walk)
    (finds : (st : Compiling) (k : ℕ) (p : Route) (ls : List Input)
      → walk k p ≡ some ls
      → written (call st k p) ≡ write r ls (filled st)) where
  two_parts :
      (st : Compiling) (i : ℕ) (p : Route) (a b ls : List Input) (f : Compiling → Outcome)
      → walk i p ≡ some a
      → ls ≡ a ++ b
      → ((st' : Compiling) → written (f st') ≡ write r b (filled st'))
      → written (and_then (call st i p) f) ≡ write r ls (filled st)
  two_parts st i p a b ls f ea el h =
      written-and_then (call st i p) f (write r b) h
      ∙ ap (λ o. o >>= write r b) (finds st i p a ea)
      ∙ sym (write-append r a b (filled st))
      ∙ ap (λ t. write r t (filled st)) (sym el)

  pub compile_sum_lem :
      (p : Route) (ns : List ℕ) (st : Compiling) (ls : List Input)
      → leaves_of walk (to_all p ns) ≡ some ls
      → written (compile_sum call p ns st) ≡ write r ls (filled st)
  unfolding compile_sum leaves_of write
  compile_sum_lem p [] st ls h = ground (arith, h)
  compile_sum_lem p (i ∷ rest) st ls h =
      let (a, b, ea, eb, el) = leaves_of-cons walk i p (to_all p rest) ls h in
      two_parts st i p a b ls (compile_sum call p rest) ea el
        (λ st'. compile_sum_lem p rest st' b eb)

  pub compile_bundle_lem :
      (p : Route) (ts : List (ℕ × ℕ)) (st : Compiling) (next : ℕ) (tracks : List ℕ) (first : ℕ)
      (ls : List Input)
      → 0 < length tracks
      → all_short (runs_from next tracks ts) ≡ true
      → leaves_of walk (placed p first (runs_from next tracks ts)) ≡ some ls
      → written (compile_bundle call p ts st next tracks first) ≡ write r ls (filled st)
  unfolding compile_bundle placed runs_from
  compile_bundle_lem p [] st next tracks first ls pos short h =
      let (a, b, ea, eb, el) =
        leaves_of-cons walk next (record p { in_tracks = tracks; first_out = first }) [] ls h in
      finds st next (record p { in_tracks = tracks; first_out = first }) ls
        (ea ∙ ap some (sym (el ∙ ap (λ t. a ++ t) (nothing_left walk b eb) ∙ append-nil a)))
  compile_bundle_lem p ((e, t) ∷ rest) st next tracks first ls pos short h =
      elim (Bool-cases (e == next)) [
        | inl q ↦ ground (
          arith,
          q,
          compile_bundle_lem p rest st e (tracks ++ t ∷ []) first ls
              (omega (arith, pos, length-append tracks (t ∷ []))) (ground (arith, short, q))
              (ground (arith, h, q)),
          length-append tracks (t ∷ []),
          first_run e (tracks ++ t ∷ []) rest (ground (arith, short, q)),
        )
        | inr q ↦
            (let (a, b, ea, eb, el) =
                leaves_of-cons walk next (record p { in_tracks = tracks; first_out = first })
                  (placed p ((first + length tracks) % 2 ^ 8) (runs_from e (t ∷ []) rest)) ls
                  (ground (arith, h, q)) in
              let both =
                two_parts st next (record p { in_tracks = tracks; first_out = first }) a b ls
                  (λ st'.
                    compile_bundle call p rest st' e (t ∷ []) ((first + length tracks) % 2 ^ 8))
                  ea el
                  (λ st'.
                    compile_bundle_lem p rest st' e (t ∷ []) ((first + length tracks) % 2 ^ 8) b
                      (omega arith) (ground (arith, short, q)) eb) in
              ground (arith, q, pos, both))
      ]
