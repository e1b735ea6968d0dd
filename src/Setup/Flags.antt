-- ===== src/Setup/Flags.antt =====
-- Whether the simple forms of accumulateOutput will do, AuSetupCompiledFlow of server/dia/auprocess.c.
use nas.Prelude.{
  ℕ, ◌≡◌, refl, sym, ap, ap₂, subst, ◌∙◌, Bool, true, false, ◌&&◌, Bool-cases, none, some,
  Option-cases, List, [], ◌∷◌, length, leb, ltb, ◌==◌, nonzero, inl, inr, if◌then◌else◌, arith,
}
use nas.Mix.{accumulate_output, accumulate_simple_mono, accumulate_simple_stereo}
use nas.Setup.{
  Component, is_monitor, rate_converter, Config, Element, Input, Output, Simple, RateConverter,
  find_next_sample, set_up_formats, do_setup, input_simple, output_simple, set_up_inputs,
  set_up_output, set_up_outputs,
}

-- No constant is added, and the tracks map to those of the output.
abbrev pub is_plain : nas.Mix.Input → Bool
is_plain i = i.add_constant == 0 && length i.tracks == 0

abbrev pub all_plain : List Input → Bool
all_plain [] = true
all_plain (i ∷ rest) = is_plain i.mixed && all_plain rest

abbrev pub all_mono : List Output → Bool
all_mono [] = true
all_mono (o ∷ os) = leb o.element.component.num_tracks 1 && all_plain o.inputs && all_mono os

abbrev pub all_stereo : List Output → Bool
all_stereo [] = true
all_stereo (o ∷ os) = o.element.component.num_tracks == 2 && all_plain o.inputs && all_stereo os

input_simple_lem :
    (i : nas.Mix.Input) (f : Simple)
    → input_simple i f ≡ record { mono = is_plain i && f.mono; stereo = is_plain i && f.stereo }
input_simple_lem i f = elim (Bool-cases (nonzero i.add_constant)) [
  | inl e ↦ ground (arith, e)
  | inr e ↦ elim (Bool-cases (nonzero (length i.tracks))) [
    | inl e' ↦ ground (arith, e, e')
    | inr e' ↦ ground (arith, e, e')
  ]
]

pub only : {A : Type 0} {a b : A} → some a ≡ some b → a ≡ b
only {A} {a} {b} h = ap (λ o. elim o [ none ↦ a | some x ↦ x ]) h

pub left : (p q : Bool) → (p && q) ≡ true → p ≡ true
left true q h = refl
left false q h = h

pub right : (p q : Bool) → (p && q) ≡ true → q ≡ true
right true q h = h
right false q h = absurd (ground (arith, h))

and_swap : (p q a : Bool) → (q && (p && a)) ≡ ((p && q) && a)
and_swap true true a = refl
and_swap true false a = refl
and_swap false true a = refl
and_swap false false a = refl

set_up_formats-component : (e : Element) → (set_up_formats e).component ≡ e.component
unfolding set_up_formats
set_up_formats-component e = elim (Bool-cases e.is_set_up) [
  | inl q ↦ ground (arith, q)
  | inr q ↦ elim (Bool-cases (is_monitor e.kind)) [
    | inl q' ↦ ground (arith, q, q')
    | inr q' ↦ ground (arith, q, q')
  ]
]

-- One output, and one more.
mono_one :
    (n : ℕ) (p a : Bool) → (p && (if ltb 1 n then false else a)) ≡ ((leb n 1 && p && true) && a)
mono_one n true a = ground arith
mono_one n false a = ground arith

stereo_one :
    (n : ℕ) (p a : Bool) → (p && (if n == 2 then a else false)) ≡ ((n == 2 && p && true) && a)
stereo_one n true a = ground arith
stereo_one n false a = ground arith

one_more : (p q r a : Bool) → (r && ((p && q && true) && a)) ≡ ((p && q && r) && a)
one_more true true true a = refl
one_more true true false a = refl
one_more true false true a = refl
one_more true false false a = refl
one_more false true true a = refl
one_more false true false a = refl
one_more false false true a = refl
one_more false false false a = refl

do_setup-component :
    (config : Config) (is_input : Bool) (rate : ℕ) (e e' : Element) (rc : RateConverter)
    → do_setup config is_input rate e ≡ some (e', rc)
    → e'.component ≡ e.component
unfolding do_setup
do_setup-component config is_input rate e e' rc run =
    elim (Option-cases (find_next_sample config is_input rate e)) [
      | inl q ↦ absurd (ground (arith, q, run))
      | inr (n, q) ↦
          (let made : Element × RateConverter =
              (record (set_up_formats e) { next_sample = n }, rate_converter config rate e) in
            let same : ◌≡◌ {A = Element × RateConverter} made (e', rc) =
              only (ground (arith, q, run)) in
            ap (λ (t : Element × RateConverter). t.0.component) (sym same)
            ∙ set_up_formats-component e)
    ]

module _ (config : Config) (rate : ℕ) where
  inputs_lem :
      (ins : List Input) (f : Simple) (ins' : List Input) (f' : Simple)
      → set_up_inputs config rate ins f ≡ some (ins', f')
      → f' ≡ record { mono = all_plain ins' && f.mono; stereo = all_plain ins' && f.stereo }
  unfolding set_up_inputs
  inputs_lem [] f ins' f' run = ground (arith, run)
  inputs_lem (i ∷ rest) f ins' f' run = elim (Option-cases (do_setup config true rate i.element)) [
    | inl e ↦ absurd (ground (arith, e, run))
    | inr ((el, rc), e) ↦
        elim (Option-cases (set_up_inputs config rate rest (input_simple i.mixed f))) [
          | inl e' ↦ absurd (ground (arith, e, e', run))
          | inr ((ins1, f1), e') ↦
              (let next = inputs_lem rest (input_simple i.mixed f) ins1 f1 e' in
                let same : ◌≡◌ {A = List Input × Simple}
                    (record i { element = el; rate_convert = rc } ∷ ins1, f1) (ins', f') =
                  only (ground (arith, e, e', run)) in
                let g = input_simple_lem i.mixed f in
                let here : f1 ≡ record {
                  mono = (is_plain i.mixed && all_plain ins1) && f.mono;
                  stereo = (is_plain i.mixed && all_plain ins1) && f.stereo;
                } =
                  next
                  ∙ ap
                      (λ (t : Simple). record {
                        mono = all_plain ins1 && t.mono;
                        stereo = all_plain ins1 && t.stereo;
                      })
                      g
                  ∙ ap₂ (λ a b. record { mono = a; stereo = b })
                      (and_swap (is_plain i.mixed) (all_plain ins1) f.mono)
                      (and_swap (is_plain i.mixed) (all_plain ins1) f.stereo) in
                subst
                  (λ (t : List Input × Simple).
                    t.1
                    ≡ record { mono = all_plain t.0 && f.mono; stereo = all_plain t.0 && f.stereo })
                  same here)
        ]
  ]

  output_lem :
      (o : Output) (f : Simple) (o' : Output) (f' : Simple)
      → set_up_output config rate o f ≡ some (o', f')
      → f'
        ≡ record { mono = all_mono (o' ∷ []) && f.mono; stereo = all_stereo (o' ∷ []) && f.stereo }
  unfolding set_up_output
  output_lem o f o' f' run =
      elim (Option-cases
        (set_up_inputs config rate o.inputs (output_simple o.element.component.num_tracks f))) [
          | inl e ↦ absurd (ground (arith, e, run))
          | inr ((ins, f1), e) ↦ elim (Option-cases (do_setup config false rate o.element)) [
            | inl e' ↦ absurd (ground (arith, e, e', run))
            | inr ((el, rc), e') ↦
                (let made : Output = record { element = el; inputs = ins; rate_convert = rc } in
                  let same : ◌≡◌ {A = Output × Simple} (made, f1) (o', f') =
                    only (ground (arith, e, e', run)) in
                  let tracks : o.element.component.num_tracks ≡ el.component.num_tracks =
                    ap (λ (c : Component). c.num_tracks)
                      (sym (do_setup-component config false rate o.element el rc e')) in
                  let here : f1 ≡ record {
                    mono = all_mono (made ∷ []) && f.mono;
                    stereo = all_stereo (made ∷ []) && f.stereo;
                  } =
                    inputs_lem o.inputs (output_simple o.element.component.num_tracks f) ins f1 e
                    ∙ ap
                        (λ n. record {
                          mono = all_plain ins && (if ltb 1 n then false else f.mono);
                          stereo = all_plain ins && (if n == 2 then f.stereo else false);
                        })
                        tracks
                    ∙ ap₂ (λ a b. record { mono = a; stereo = b })
                        (mono_one el.component.num_tracks (all_plain ins) f.mono)
                        (stereo_one el.component.num_tracks (all_plain ins) f.stereo) in
                  subst
                    (λ (t : Output × Simple). t.1 ≡ record {
                      mono = all_mono (t.0 ∷ []) && f.mono;
                      stereo = all_stereo (t.0 ∷ []) && f.stereo;
                    })
                    same here)
          ]
        ]

  pub outputs_lem :
      (os : List Output) (f : Simple) (os' : List Output) (f' : Simple)
      → set_up_outputs config rate os f ≡ some (os', f')
      → f' ≡ record { mono = all_mono os' && f.mono; stereo = all_stereo os' && f.stereo }
  unfolding set_up_outputs
  outputs_lem [] f os' f' run = ground (arith, run)
  outputs_lem (o ∷ rest) f os' f' run = elim (Option-cases (set_up_output config rate o f)) [
    | inl e ↦ absurd (ground (arith, e, run))
    | inr ((o1, f1), e) ↦ elim (Option-cases (set_up_outputs config rate rest f1)) [
      | inl e' ↦ absurd (ground (arith, e, e', run))
      | inr ((os1, f2), e') ↦
          (let same : ◌≡◌ {A = List Output × Simple} (o1 ∷ os1, f2) (os', f') =
              only (ground (arith, e, e', run)) in
            let here : f2 ≡ record {
              mono = all_mono (o1 ∷ os1) && f.mono;
              stereo = all_stereo (o1 ∷ os1) && f.stereo;
            } =
              outputs_lem rest f1 os1 f2 e'
              ∙ ap
                  (λ (t : Simple). record {
                    mono = all_mono os1 && t.mono;
                    stereo = all_stereo os1 && t.stereo;
                  })
                  (output_lem o f o1 f1 e)
              ∙ ap₂ (λ a b. record { mono = a; stereo = b })
                  (one_more (leb o1.element.component.num_tracks 1) (all_plain o1.inputs)
                    (all_mono os1) f.mono)
                  (one_more (o1.element.component.num_tracks == 2) (all_plain o1.inputs)
                    (all_stereo os1) f.stereo) in
            subst
              (λ (t : List Output × Simple).
                t.1 ≡ record { mono = all_mono t.0 && f.mono; stereo = all_stereo t.0 && f.stereo })
              same here)
    ]
  ]
