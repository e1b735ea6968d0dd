-- ===== src/Setup/Accumulate.antt =====
-- Which form of accumulateOutput AuSetupCompiledFlow of server/dia/auprocess.c chooses.
use nas.Prelude.{
  ℕ, zero, suc, ◌<◌, ◌≤◌, ◌≡◌, refl, sym, ap, subst, ◌∙◌, true, Bool-cases, some, Option-cases,
  List, [], ◌∷◌, length, get_elem?, ◌==◌, inl, inr, if◌then◌else◌, arith,
}
use nas.Mix.{accumulate_output, accumulate_simple_mono, accumulate_simple_stereo}
use nas.Mix.Gain.{direct, accumulate_simple_lem}
use nas.Setup.{
  Config, Input, Output, Flow, Simple, general, simple_mono, simple_stereo, set_up_outputs,
  flow_rate, set_up_compiled_flow, accumulate,
}
use nas.Setup.Flags.{is_plain, all_plain, all_mono, all_stereo, only, left, right, outputs_lem}

no_tracks : (ts : List (ℕ × ℕ)) → (length ts == 0) ≡ true → ts ≡ []
no_tracks [] h = refl
no_tracks (t ∷ ts) h = absurd (ground (arith, h))

plain_direct : (i : nas.Mix.Input) → is_plain i ≡ true → i ≡ direct i.multiply_constant
plain_direct i h = ground (
  arith,
  left (i.add_constant == 0) (length i.tracks == 0) h,
  no_tracks i.tracks (right (i.add_constant == 0) (length i.tracks == 0) h),
)

mono_same :
    (i : nas.Mix.Input) (in_tracks out_tracks samples : ℕ) (s out : List ℕ)
    → is_plain i ≡ true
    → 1 ≡ out_tracks
    → accumulate_simple_mono i.multiply_constant samples s out
      ≡ accumulate_output i in_tracks out_tracks samples s out
unfolding accumulate_output
mono_same i in_tracks out_tracks samples s out h one =
    let (mono, stereo) = accumulate_simple_lem i.multiply_constant samples s out in
    subst
      (λ n.
        accumulate_simple_mono i.multiply_constant samples s out
        ≡ accumulate_output i in_tracks n samples s out)
      one (mono ∙ ap (λ t. accumulate_output t in_tracks 1 samples s out) (sym (plain_direct i h)))

stereo_same :
    (i : nas.Mix.Input) (in_tracks out_tracks samples : ℕ) (s out : List ℕ)
    → is_plain i ≡ true
    → 2 ≡ out_tracks
    → accumulate_simple_stereo i.multiply_constant samples s out
      ≡ accumulate_output i in_tracks out_tracks samples s out
unfolding accumulate_output
stereo_same i in_tracks out_tracks samples s out h two =
    let (mono, stereo) = accumulate_simple_lem i.multiply_constant samples s out in
    subst
      (λ n.
        accumulate_simple_stereo i.multiply_constant samples s out
        ≡ accumulate_output i in_tracks n samples s out)
      two
      (stereo ∙ ap (λ t. accumulate_output t in_tracks 2 samples s out) (sym (plain_direct i h)))

plain-elem :
    (ins : List Input) (j : ℕ) (i : Input)
    → all_plain ins ≡ true
    → get_elem? ins j ≡ some i
    → is_plain i.mixed ≡ true
plain-elem [] j i h e = absurd (ground (arith, e))
plain-elem (x ∷ ins) zero i h e =
    subst (λ (t : Input). is_plain t.mixed ≡ true) (only e)
      (left (is_plain x.mixed) (all_plain ins) h)
plain-elem (x ∷ ins) (suc j) i h e =
    plain-elem ins j i (right (is_plain x.mixed) (all_plain ins) h) e

mono-elem :
    (os : List Output) (k : ℕ) (o : Output)
    → all_mono os ≡ true
    → get_elem? os k ≡ some o
    → (o.element.component.num_tracks ≤ 1) × (all_plain o.inputs ≡ true)
mono-elem [] k o h e = absurd (ground (arith, e))
mono-elem (x ∷ os) zero o h e =
    subst (λ (t : Output). (t.element.component.num_tracks ≤ 1) × (all_plain t.inputs ≡ true))
      (only e) (ground (arith, h), ground (arith, h))
mono-elem (x ∷ os) (suc k) o h e = mono-elem os k o (ground (arith, h)) e

stereo-elem :
    (os : List Output) (k : ℕ) (o : Output)
    → all_stereo os ≡ true
    → get_elem? os k ≡ some o
    → (o.element.component.num_tracks ≡ 2) × (all_plain o.inputs ≡ true)
stereo-elem [] k o h e = absurd (ground (arith, e))
stereo-elem (x ∷ os) zero o h e =
    subst (λ (t : Output). (t.element.component.num_tracks ≡ 2) × (all_plain t.inputs ≡ true))
      (only e) (ground (arith, h), ground (arith, h))
stereo-elem (x ∷ os) (suc k) o h e = stereo-elem os k o (ground (arith, h)) e

-- The form of accumulateOutput that AuSetupCompiledFlow chooses does on every output of the flow,
-- with any of its inputs and any samples, what the general form does, if this output has a track.
pub set_up_compiled_flow-accumulate :
    (config : Config) (current : ℕ) (outputs : List Output) (rate : ℕ) (fl : Flow) (r : ℕ) (k j : ℕ)
    (o : Output) (i : Input) (in_tracks samples : ℕ) (s out : List ℕ)
    → set_up_compiled_flow config current outputs rate ≡ some (fl, r)
    → get_elem? fl.outputs k ≡ some o
    → get_elem? o.inputs j ≡ some i
    → 0 < o.element.component.num_tracks
    → accumulate fl.accumulator i.mixed in_tracks o.element.component.num_tracks samples s out
      ≡ accumulate_output i.mixed in_tracks o.element.component.num_tracks samples s out
unfolding set_up_compiled_flow accumulate
set_up_compiled_flow-accumulate config current outputs rate fl r k j o i in_tracks samples s out run
      eo ei pos =
    elim (Option-cases (
      set_up_outputs config (flow_rate config current rate) outputs
        (record { mono = true; stereo = true }))) [
          | inl e ↦ absurd (ground (arith, e, run))
          | inr ((os, f), e) ↦
              (let made : Flow = record {
                outputs = os;
                accumulator =
                    if f.mono then simple_mono else if f.stereo then simple_stereo else general;
              } in
                let same : ◌≡◌ {A = Flow × ℕ} (made, flow_rate config current rate) (fl, r) =
                  only (ground (arith, e, run)) in
                let flow : made ≡ fl = ap (λ (t : Flow × ℕ). t.0) same in
                let there : get_elem? os k ≡ some o =
                  ap (λ (t : Flow). get_elem? t.outputs k) flow ∙ eo in
                let flags =
                  outputs_lem config (flow_rate config current rate) outputs
                    (record { mono = true; stereo = true }) os f e in
                subst
                  (λ (t : Flow).
                    accumulate t.accumulator i.mixed in_tracks o.element.component.num_tracks
                      samples s out
                    ≡ accumulate_output i.mixed in_tracks o.element.component.num_tracks samples s
                        out)
                  flow
                  (elim (Bool-cases f.mono) [
                    | inl q ↦
                        (let (few, plain) =
                            mono-elem os k o
                              (left (all_mono os) true
                                (sym (ap (λ (t : Simple). t.mono) flags) ∙ q))
                              there in
                          ground (
                            arith,
                            q,
                            mono_same i.mixed in_tracks o.element.component.num_tracks samples s out
                                (plain-elem o.inputs j i plain ei) (omega (arith, few, pos)),
                          ))
                    | inr q ↦ elim (Bool-cases f.stereo) [
                      | inl q' ↦
                          (let (two, plain) =
                              stereo-elem os k o
                                (left (all_stereo os) true
                                  (sym (ap (λ (t : Simple). t.stereo) flags) ∙ q'))
                                there in
                            ground (
                              arith,
                              q,
                              q',
                              stereo_same i.mixed in_tracks o.element.component.num_tracks samples s
                                  out (plain-elem o.inputs j i plain ei) (sym two),
                            ))
                      | inr q' ↦ ground (arith, q, q')
                    ]
                  ]))
        ]
