-- ===== src/Resource/Inv.antt =====
-- The invariant of one client's table of server/dia/resource.c, and what replacing one chain does.
use nas.Prelude.{
  ℕ, zero, suc, ◌+◌, ◌^◌, ◌≤◌, ◌<◌, ◌≡◌, ◌≢◌, bit_and, List, [], ◌∷◌, ◌==◌, if◌then◌else◌, get_or,
  set, ◌∙◌, length, length-append, length-set, get_or-set_self, get_or-set_ne, arith,
}
use native.Mathlib.Decide.{ℕ_discrete}
use nas.Resource.{Resource, ClientTable, Server, hash, bucket, with_bucket, server_bit}
use nas.Resource.Hash.{hash-lt}
use nas.Resource.Chain.{of_id, HashesTo-change, flatten, Placed, Placed-set}

-- A table in use: as many buckets as the hash addresses, each node in the bucket of its hash, at
-- most as many nodes as counted, and every id that a client can make below `expect_id`.
pub record IsTable (c : ClientTable) : Type 0 where
  pub shape : length c.resources ≡ c.buckets
  pub power : c.buckets ≡ 2 ^ c.hashsize
  pub small : 6 ≤ c.hashsize
  pub large : c.hashsize ≤ 11
  pub placed : Placed c.hashsize c.resources
  pub counted : length (flatten c.resources) ≤ c.elements
  pub fresh :
      (id : ℕ)
      → id < 2 ^ 32
      → bit_and id server_bit ≡ 0
      → c.expect_id ≤ id
      → of_id id (bucket c id) ≡ []

-- Every table that is in use is well-formed.
abbrev pub IsValid : Server → Type 0
IsValid s = (i : ℕ) → (s.clients i).buckets ≢ 0 → IsTable (s.clients i)

-- The nodes of an id in a client's table, the last added first.
abbrev pub entries : ClientTable → ℕ → List Resource
entries c id = of_id id (bucket c id)

pub bucket-lt : {c : ClientTable} → IsTable c → (id : ℕ) → hash c.hashsize id < length c.resources
bucket-lt {c} v id = omega (arith, hash-lt c.hashsize id v.small v.large, v.shape, v.power)

pub length-flatten-set :
    (t : List (List Resource)) (i : ℕ) (chain : List Resource)
    → i < length t
    → length (flatten (set t i chain)) + length (get_or t i []) ≡ length (flatten t) + length chain
length-flatten-set [] i chain h = absurd (omega arith)
length-flatten-set (x ∷ xs) zero chain h =
    omega (arith, length-append x (flatten xs), length-append chain (flatten xs))
length-flatten-set (x ∷ xs) (suc i) chain h = omega (
  arith,
  length-append x (flatten xs),
  length-append x (flatten (set xs i chain)),
  length-flatten-set xs i chain (omega arith),
)

pub length-bucket-le :
    (t : List (List Resource)) (i : ℕ) → length (get_or t i []) ≤ length (flatten t)
length-bucket-le [] i = omega arith
length-bucket-le (x ∷ xs) zero = omega (arith, length-append x (flatten xs))
length-bucket-le (x ∷ xs) (suc i) =
    omega (arith, length-append x (flatten xs), length-bucket-le xs i)

module _ {c : ClientTable} (v : IsTable c) (id : ℕ) (new changed : List Resource)
    (same : (j : ℕ) → of_id j new ≡ (if j == id then changed else of_id j (bucket c id))) where
  -- The other ids keep their nodes.
  pub entries-with_bucket :
      (j : ℕ)
      → of_id j (get_or (with_bucket c id new) (hash c.hashsize j) [])
        ≡ (if j == id then changed else entries c j)
  entries-with_bucket j = elim (ℕ_discrete (hash c.hashsize id) (hash c.hashsize j)) [
    | yes e ↦
        ground
          (arith, same j, get_or-set_self c.resources (hash c.hashsize id) new [] (bucket-lt v id))
    | no ne ↦
        ground (arith, get_or-set_ne c.resources (hash c.hashsize id) (hash c.hashsize j) new [] ne)
  ]

  pub Placed-with_bucket : Placed c.hashsize (with_bucket c id new)
  Placed-with_bucket =
      Placed-set c.hashsize (hash c.hashsize id) c.resources new v.placed
        (HashesTo-change c.hashsize id (bucket c id) new changed same
          (v.placed (hash c.hashsize id)))
        (bucket-lt v id)

  -- What makes the table well-formed again after that change, with a new count and a new
  -- `expect_id`.
  pub IsTable-with_bucket :
      (n e : ℕ)
      → length new + c.elements ≤ n + length (bucket c id)
      → ((j : ℕ)
          → j < 2 ^ 32
          → bit_and j server_bit ≡ 0
          → e ≤ j
          → (if j == id then changed else entries c j) ≡ [])
      → IsTable (record c { resources = with_bucket c id new; elements = n; expect_id = e })
  IsTable-with_bucket n e room fresh = record {
    shape = rw (length-set c.resources (hash c.hashsize id) new) v.shape;
    power = v.power;
    small = v.small;
    large = v.large;
    placed = Placed-with_bucket;
    counted = omega (
      arith,
      length-flatten-set c.resources (hash c.hashsize id) new (bucket-lt v id),
      v.counted,
    );
    fresh = λ j lt clear le. entries-with_bucket j ∙ fresh j lt clear le;
  }
