-- ===== src/Resource/Chain.antt =====
-- Chains and the nodes of one id in them: what the operations of server/dia/resource.c see.
use nas.Prelude.{
  ℕ, zero, suc, ◌+◌, ◌<◌, ◌≡◌, refl, ◌≢◌, ap, List, [], ◌∷◌, ◌++◌, append-nil, ◌==◌, if◌then◌else◌,
  subst, ap, get_or, set, length, get_or-set_self, get_or-set_ne, arith,
}
use native.Mathlib.Decide.{ℕ_discrete}
use nas.Resource.{Resource, hash}

-- The nodes of one id, in their order.
abbrev pub of_id : ℕ → List Resource → List Resource
of_id id [] = []
of_id id (r ∷ rs) = if r.id == id then r ∷ of_id id rs else of_id id rs

-- Every node hashes to `j`: there is no node of an id of another hash.
abbrev pub HashesTo : ℕ → ℕ → List Resource → Type 0
HashesTo hashsize j rs = (id : ℕ) → hash hashsize id ≢ j → of_id id rs ≡ []

abbrev pub flatten : List (List Resource) → List Resource
flatten [] = []
flatten (chain ∷ chains) = chain ++ flatten chains

pub of_id-append :
    (id : ℕ) (xs ys : List Resource) → of_id id (xs ++ ys) ≡ of_id id xs ++ of_id id ys
of_id-append id [] ys = refl
of_id-append id (r ∷ rs) ys = ground (arith, of_id-append id rs ys)

pub of_id-of_id : (id : ℕ) (rs : List Resource) → of_id id (of_id id rs) ≡ of_id id rs
of_id-of_id id [] = refl
of_id-of_id id (r ∷ rs) = ground (arith, of_id-of_id id rs)

pub HashesTo-append :
    (hashsize j : ℕ) (xs ys : List Resource)
    → HashesTo hashsize j xs
    → HashesTo hashsize j ys
    → HashesTo hashsize j (xs ++ ys)
HashesTo-append hashsize j xs ys p q id ne = ground (arith, of_id-append id xs ys, p id ne, q id ne)

-- A chain changed at one id only still has no node of another hash.
pub HashesTo-change :
    (hashsize id : ℕ) (rs new changed : List Resource)
    → ((j : ℕ) → of_id j new ≡ (if j == id then changed else of_id j rs))
    → HashesTo hashsize (hash hashsize id) rs
    → HashesTo hashsize (hash hashsize id) new
HashesTo-change hashsize id rs new changed same p j ne = elim (ℕ_discrete j id) [
  | yes e ↦ absurd (ne (ap (hash hashsize) e))
  | no differs ↦ ground (arith, same j, p j ne)
]

abbrev PlacedFrom : ℕ → ℕ → List (List Resource) → Type 0
PlacedFrom hashsize k t = (j : ℕ) → HashesTo hashsize (k + j) (get_or t j [])

PlacedFrom-tail :
    (hashsize k : ℕ) (chain : List Resource) (chains : List (List Resource))
    → PlacedFrom hashsize k (chain ∷ chains)
    → PlacedFrom hashsize (suc k) chains
PlacedFrom-tail hashsize k chain chains p j =
    let e : k + suc j ≡ suc k + j = omega arith in
    subst (λ i. HashesTo hashsize i (get_or chains j [])) e (p (suc j))

-- Only the bucket of its hash holds an id: the whole table has no node of an id whose bucket lies
-- before it.
of_id-flatten_below :
    (hashsize id k : ℕ) (t : List (List Resource))
    → PlacedFrom hashsize k t
    → hash hashsize id < k
    → of_id id (flatten t) ≡ []
of_id-flatten_below hashsize id k [] p h = refl
of_id-flatten_below hashsize id k (chain ∷ chains) p h =
    rw (of_id-append id chain (flatten chains), p 0 id (omega arith))
      (of_id-flatten_below hashsize id (suc k) chains (PlacedFrom-tail hashsize k chain chains p)
        (omega arith))

of_id-flatten_from :
    (hashsize id k i : ℕ) (t : List (List Resource))
    → PlacedFrom hashsize k t
    → hash hashsize id ≡ k + i
    → of_id id (flatten t) ≡ of_id id (get_or t i [])
of_id-flatten_from hashsize id k i [] p h = refl
of_id-flatten_from hashsize id k zero (chain ∷ chains) p h =
    rw
      (
        of_id-append id chain (flatten chains),
        of_id-flatten_below hashsize id (suc k) chains (PlacedFrom-tail hashsize k chain chains p)
            (omega arith),
      )
      (append-nil _)
of_id-flatten_from hashsize id k (suc i) (chain ∷ chains) p h =
    rw (of_id-append id chain (flatten chains), p 0 id (omega arith))
      (of_id-flatten_from hashsize id (suc k) i chains (PlacedFrom-tail hashsize k chain chains p)
        (omega arith))

-- A table of chains each in the bucket of its hash.
abbrev pub Placed : ℕ → List (List Resource) → Type 0
Placed hashsize t = (j : ℕ) → HashesTo hashsize j (get_or t j [])

-- All the nodes of an id are in the bucket of its hash.
pub of_id-flatten :
    (hashsize id : ℕ) (t : List (List Resource))
    → Placed hashsize t
    → of_id id (flatten t) ≡ of_id id (get_or t (hash hashsize id) [])
of_id-flatten hashsize id t p =
    of_id-flatten_from hashsize id 0 (hash hashsize id) t
      (λ j.
        let e : j ≡ 0 + j = omega arith in subst (λ i. HashesTo hashsize i (get_or t j [])) e (p j))
      (omega arith)

-- Replacing one chain by another of the same hash keeps the table placed.
pub Placed-set :
    (hashsize i : ℕ) (t : List (List Resource)) (chain : List Resource)
    → Placed hashsize t
    → HashesTo hashsize i chain
    → i < length t
    → Placed hashsize (set t i chain)
Placed-set hashsize i t chain p q h j = elim (ℕ_discrete i j) [
  | yes e ↦ rw (← e, get_or-set_self t i chain [] h) q
  | no ne ↦ rw (get_or-set_ne t i j chain [] ne) (p j)
]
