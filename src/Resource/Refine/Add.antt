-- ===== src/Resource/Refine/Add.antt =====
-- AddResource of server/dia/resource.c.
use nas.Prelude.{
  ==-eq, ==-ne, Bool-cases, inl, inr, ℕ, ◌+◌, ◌^◌, ◌<◌, ◌≡◌, refl, ◌≢◌, ap, Bool, true, false,
  subst, List, ◌∷◌, ◌==◌, if◌then◌else◌, bit_and, arith,
}
use nas.Prelude.Bits.{bit_and-bit}
use native.Mathlib.Decide.{ℕ_discrete}
use nas.Resource.{Resource, ClientTable, Server, client_id, bucket, server_bit, update}
use nas.Resource.Chain.{of_id}
use nas.Resource.Create.{linked, grown, add_resource}
use nas.Resource.Inv.{IsTable, IsValid, entries, entries-with_bucket, IsTable-with_bucket}
use nas.Resource.Rebuild.{grown-IsTable, grown-entries}

-- The nodes of an id in the server, the last added first.
abbrev pub held : Server → ℕ → List Resource
held s id = entries (s.clients (client_id id)) id

pub client_id-lt : (id : ℕ) → client_id id < 128
client_id-lt id = omega arith

-- An id with a clear server bit is not the largest number.
suc-lt_of_clear : (x : ℕ) → x < 2 ^ 32 → bit_and x server_bit ≡ 0 → x + 1 < 2 ^ 32
suc-lt_of_clear x lt clear = omega (arith, bit_and-bit 29 x)

module _ {c : ClientTable} (v : IsTable c) (r : Resource) where
  same :
      (j : ℕ)
      → of_id j (r ∷ bucket c r.id)
        ≡ (if j == r.id then r ∷ entries c r.id else of_id j (bucket c r.id))
  same j = elim (ℕ_discrete j r.id) [ yes e ↦ rw e (ground arith) | no ne ↦ ground arith ]

  linked-entries :
      (j : ℕ) → entries (linked c r) j ≡ (if j == r.id then r ∷ entries c r.id else entries c j)
  unfolding linked
  linked-entries j = entries-with_bucket v r.id (r ∷ bucket c r.id) (r ∷ entries c r.id) same j

  linked-IsTable : r.id < 2 ^ 32 → IsTable (linked c r)
  unfolding linked
  linked-IsTable small =
      IsTable-with_bucket v r.id (r ∷ bucket c r.id) (r ∷ entries c r.id) same (c.elements + 1) _
        (omega arith)
        (λ j lt clear le. ground (arith, v.fresh j lt clear, suc-lt_of_clear r.id small))

-- A well-formed table put in for one client.
pub update-IsValid :
    (s : Server) (i : ℕ) {c : ClientTable}
    → IsValid s
    → IsTable c
    → (j : ℕ) → (update s.clients i c j).buckets ≢ 0
    → IsTable (update s.clients i c j)
update-IsValid s i {c} v t j ne = elim (Bool-cases (i == j)) [
  | inl e ↦ rw e t
  | inr e ↦ rw e (v j (rw e at ne))
]

-- A table put in for the client of `id` that changes the nodes of `id` alone changes those alone in
-- the whole server.
pub held-update :
    (s : Server) (id : ℕ) (c : ClientTable) (changed : List Resource)
    → ((j : ℕ) → entries c j ≡ (if j == id then changed else entries (s.clients (client_id id)) j))
    → (j : ℕ)
    → entries (update s.clients (client_id id) c (client_id j)) j
      ≡ (if j == id then changed else held s j)
held-update s id c changed h j = elim (ℕ_discrete (client_id id) (client_id j)) [
  | yes e ↦ rw (==-eq e) (ground (arith, h j, ap (λ (i : ℕ). entries (s.clients i) j) e))
  | no ne ↦ rw (==-ne ne) (ground (arith, ap client_id))
]

pub held-same : (s : Server) (id j : ℕ) → held s j ≡ (if j == id then held s id else held s j)
held-same s id j = elim (ℕ_discrete j id) [
  | yes e ↦ rw (==-eq e) (ap (held s) e)
  | no ne ↦ rw (==-ne ne)
]

module _ (s : Server) (rebuild : Bool) (v : IsValid s) (r : Resource)
    (used : (s.clients (client_id r.id)).buckets ≢ 0) where
  added : ClientTable
  added = linked (grown rebuild (s.clients (client_id r.id))) r

  add_resource-eq :
      add_resource rebuild true s r
      ≡ (record s { clients = update s.clients (client_id r.id) added }, true)
  unfolding add_resource added
  add_resource-eq = ground arith

  add_resource-no_node : add_resource rebuild false s r ≡ (
    record s {
      clients = update s.clients (client_id r.id) (grown rebuild (s.clients (client_id r.id)));
      deleted = r ∷ s.deleted;
    },
    false,
  )
  unfolding add_resource
  add_resource-no_node = ground arith

  added-entries :
      (j : ℕ)
      → entries added j
        ≡ (if j == r.id then r ∷ held s r.id else entries (s.clients (client_id r.id)) j)
  unfolding added
  added-entries j = ground (
    arith,
    linked-entries (grown-IsTable rebuild (v (client_id r.id) used)) r j,
    grown-entries rebuild (v (client_id r.id) used) j,
    grown-entries rebuild (v (client_id r.id) used) r.id,
  )

  -- AddResource to a client in use, with memory for the node, succeeds. Its node becomes the first
  -- of its id, and every other id of every client keeps its nodes, also where the table grows.
  pub add_resource_lem :
      ((add_resource rebuild true s r).1 ≡ true)
      × ((j : ℕ)
          → held (add_resource rebuild true s r).0 j
            ≡ (if j == r.id then r ∷ held s r.id else held s j))
  add_resource_lem =
      rw add_resource-eq (refl, held-update s r.id added (r ∷ held s r.id) added-entries)

  added-IsValid : r.id < 2 ^ 32 → (node : Bool) → IsValid (add_resource rebuild node s r).0
  added-IsValid small true = rw add_resource-eq (
      update-IsValid s (client_id r.id) v
        (unfold added in linked-IsTable (grown-IsTable rebuild (v (client_id r.id) used)) r small))
  added-IsValid small false =
      rw add_resource-no_node
        (update-IsValid s (client_id r.id) v (grown-IsTable rebuild (v (client_id r.id) used)))

-- AddResource with a 32-bit id keeps every table well-formed, whichever of its allocations succeed,
-- and whether the client is in use or not.
pub add_resource-IsValid :
    (s : Server) (rebuild node : Bool)
    → IsValid s
    → (r : Resource) → r.id < 2 ^ 32
    → IsValid (add_resource rebuild node s r).0
unfolding add_resource
add_resource-IsValid s rebuild node v r small =
    elim (ℕ_discrete (s.clients (client_id r.id)).buckets 0) [
      | yes e ↦
          (let same : s ≡ (add_resource rebuild node s r).0 = ground (arith, e) in
            subst IsValid same v)
      | no used ↦ added-IsValid s rebuild v r used small node
    ]
