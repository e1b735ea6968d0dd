-- ===== src/Process/Firsts.antt =====
-- The first outputs of their components, for AuProcessFlows of server/dia/auutil.c.
use nas.Prelude.{
  ℕ, ◌≡◌, refl, subst, Bool, true, false, ◌&&◌, ◌||◌, not, Bool-cases, List, [], ◌∷◌, ◌==◌, ==-eq,
  inl, inr, if◌then◌else◌, arith,
}
use nas.Process.{Output, contains}

abbrev pub occurs : ℕ → List ℕ → Bool
occurs c [] = false
occurs c (x ∷ xs) = x == c || occurs c xs

pub contains-occurs : (c : ℕ) (xs : List ℕ) → contains c xs ≡ occurs c xs
contains-occurs c [] = refl
contains-occurs c (x ∷ xs) = ground (arith, contains-occurs c xs)

-- The outputs whose component is not seen before.
unfoldable pub firsts : List ℕ → List Output → List Output
firsts seen [] = []
firsts seen (o ∷ os) =
    if occurs o.component seen then firsts seen os else o ∷ firsts (o.component ∷ seen) os

abbrev pub all_distinct : List ℕ → Bool
all_distinct [] = true
all_distinct (c ∷ cs) = not (occurs c cs) && all_distinct cs

abbrev pub components_of : List Output → List ℕ
components_of [] = []
components_of (o ∷ os) = o.component ∷ components_of os

pub occurs-firsts :
    (c : ℕ) (seen : List ℕ) (os : List Output)
    → occurs c (components_of (firsts seen os))
      ≡ (occurs c (components_of os) && not (occurs c seen))
unfolding firsts
occurs-firsts c seen [] = refl
occurs-firsts c seen (o ∷ os) = elim (Bool-cases (occurs o.component seen)) [
  | inl q ↦ elim (Bool-cases (o.component == c)) [
    | inl e ↦
        (let at : o.component ≡ c = ground (arith, e) in
          let seen_c : occurs c seen ≡ true = subst (λ t. occurs t seen ≡ true) at q in
          ground (arith, q, e, seen_c, occurs-firsts c seen os))
    | inr e ↦ ground (arith, q, e, occurs-firsts c seen os)
  ]
  | inr q ↦ elim (Bool-cases (o.component == c)) [
    | inl e ↦
        (let at : o.component ≡ c = ground (arith, e) in
          let seen_c : occurs c seen ≡ false = subst (λ t. occurs t seen ≡ false) at q in
          ground (arith, q, e, seen_c))
    | inr e ↦ ground (arith, q, e, occurs-firsts c (o.component ∷ seen) os)
  ]
]

pub firsts-distinct :
    (seen : List ℕ) (os : List Output) → all_distinct (components_of (firsts seen os)) ≡ true
unfolding firsts
firsts-distinct seen [] = refl
firsts-distinct seen (o ∷ os) = elim (Bool-cases (occurs o.component seen)) [
  | inl q ↦ ground (arith, q, firsts-distinct seen os)
  | inr q ↦ ground (
    arith,
    q,
    firsts-distinct (o.component ∷ seen) os,
    occurs-firsts o.component (o.component ∷ seen) os,
    ==-eq {a = o.component} {b = o.component} refl,
  )
]
