-- ===== src/Compile/Inputs.antt =====
-- compileInputs of server/dia/auutil.c against the paths of a flow.
use nas.Prelude.{
  ℕ, zero, suc, ◌≡◌, ap, ◌∙◌, Bool, true, false, Bool-cases, some, Option-cases, List, [], ◌∷◌,
  get_elem?, get_or, set, inl, inr, arith,
}
use nas.Compile.{
  Raw, source, bundle, multiply_constant, add_constant, sum, export, Route, Input, Compiling,
  Status, success, Call, compile_source, compile_bundle, compile_raw, compile_body, compile_inputs,
}
use nas.Compile.Leaves.{Walk, leaves_raw, leaves, runs, all_short}
use nas.Compile.Places.{filled, written, write_one, write, compile_sum_lem, compile_bundle_lem}

module _ (r : Bool) (made : ℕ → Status) (well : (k : ℕ) → made k ≡ success) where
  source_one :
      (compiled : Bool) (st : Compiling) (k : ℕ) (p : Route)
      → written (compile_source r (made k) compiled st k p)
        ≡ write r (record { element = k; path = p } ∷ []) (filled st)
  unfolding compile_source write write_one
  source_one compiled st k p = elim (Bool-cases r) [
    | inl q ↦ elim (Option-cases (get_elem? st.inputs st.count)) [
      | inl e ↦ ground (arith, q, e)
      | inr (i, e) ↦ ground (arith, q, e)
    ]
    | inr q ↦ elim (Bool-cases compiled) [
      | inl c ↦ ground (arith, q, c)
      | inr c ↦ ground (arith, q, c, well k)
    ]
  ]

  only : {A : Type 0} (a b : A) → some a ≡ some b → a ≡ b
  only a b h = ground (arith, h)

  source_lem :
      (compiled : Bool) (st : Compiling) (k : ℕ) (p : Route) (ls : List Input)
      → some (record { element = k; path = p } ∷ []) ≡ some ls
      → written (compile_source r (made k) compiled st k p) ≡ write r ls (filled st)
  source_lem compiled st k p ls h =
      source_one compiled st k p
      ∙ ap (λ t. write r t (filled st)) (only (record { element = k; path = p } ∷ []) ls h)

  module _ (call : Call) (walk : Walk)
      (finds : (st : Compiling) (k : ℕ) (p : Route) (ls : List Input)
        → walk k p ≡ some ls
        → written (call st k p) ≡ write r ls (filled st)) where
    raw_lem :
        (el : Raw) (compiled : Bool) (st : Compiling) (k : ℕ) (p : Route) (ls : List Input)
        → leaves_raw walk el k p ≡ some ls
        → written (compile_raw r made call el compiled st k p) ≡ write r ls (filled st)
    unfolding compile_raw leaves_raw compile_bundle runs
    raw_lem source compiled st k p ls h = source_lem compiled st k p ls h
    raw_lem (bundle []) compiled st k p ls h = absurd (ground (arith, h))
    raw_lem (bundle ((e, t) ∷ ts)) compiled st k p ls h =
        elim (Bool-cases (all_short (runs ((e, t) ∷ ts)))) [
          | inl q ↦
              (let both =
                  compile_bundle_lem r call walk finds p ts st e (t ∷ []) p.first_out ls
                    (omega arith) (ground (arith, q)) (ground (arith, h, q)) in
                ground (arith, both))
          | inr q ↦ absurd (ground (arith, h, q))
        ]
    raw_lem (multiply_constant c i) compiled st k p ls h = finds st i _ ls h
    raw_lem (add_constant c i) compiled st k p ls h = finds st i _ ls h
    raw_lem (sum ns) compiled st k p ls h = compile_sum_lem r call walk finds p ns st ls h
    raw_lem (export i) compiled st k p ls h = absurd (ground (arith, h))

  -- compileInputs, in memory, called where the paths from the element are found in the depth of the
  -- calls, none ending wrong: it returns AuSuccess, and has put an input for each path, in order,
  -- behind the inputs, or, for a flow that is compiled again, put its gains in the inputs met next.
  pub compile_inputs_lem :
      (elements : List Raw) (fuel : ℕ) (st : Compiling) (k : ℕ) (p : Route) (ls : List Input)
      → leaves elements fuel k p ≡ some ls
      → written (compile_inputs elements r made fuel st k p) ≡ write r ls (filled st)
  unfolding compile_inputs compile_body leaves
  compile_inputs_lem elements zero st k p ls h = absurd (ground (arith, h))
  compile_inputs_lem elements (suc fuel) st k p ls h = elim (Option-cases (get_elem? elements k)) [
    | inl e ↦ absurd (ground (arith, e, h))
    | inr (el, e) ↦
        (let found =
            raw_lem (compile_inputs elements r made fuel) (leaves elements fuel)
              (compile_inputs_lem elements fuel) el (get_or st.compiled k false)
              (record st { compiled = set st.compiled k true }) k p ls (ground (arith, e, h)) in
          ground (arith, e, found))
  ]
