-- ===== src/Resource/Refine/Free.antt =====
-- FreeResource of server/dia/resource.c.
use nas.Prelude.{
  ℕ, ◌+◌, ◌≤◌, ◌≡◌, refl, ◌≢◌, ◌↔◌, ◌⊎◌, inl, inr, true, false, ◌&&◌, none, some, List, [], ◌∷◌,
  ◌==◌, if◌then◌else◌, length, arith,
}
use nas.Resource.{
  Resource, ClientTable, Server, client_id, bucket, with_bucket, update, in_use, hash,
}
use nas.Resource.Chain.{of_id}
use nas.Resource.Remove.{Sweep, swept, free_resource}
use nas.Resource.Views.{
  deletions, has_any, sweep-kept, sweep-elements, sweep-deleted, sweep-got_one, sweep-length,
}
use nas.Resource.Inv.{
  IsTable, length-bucket-le, IsValid, entries, entries-with_bucket, IsTable-with_bucket,
}
use nas.Resource.Refine.Add.{held, held-update, update-IsValid, client_id-lt}

has_any-cases :
    (rs : List Resource) → (has_any rs ≡ true) × (rs ≢ []) ⊎ (has_any rs ≡ false) × (rs ≡ [])
has_any-cases [] = inr (refl, refl)
has_any-cases (r ∷ rs) = inl (refl, λ e. cc)

module _ (s : Server) (id skip : ℕ) where
  abbrev table : ClientTable
  table = s.clients (client_id id)

  abbrev start : Sweep
  start = record { kept = []; elements = table.elements; deleted = s.deleted; got_one = false }

  freed : ClientTable
  freed = record table {
    resources = with_bucket table id (swept s id skip).kept;
    elements = (swept s id skip).elements;
  }

  free_resource-eq : free_resource s id skip ≡ (
      if in_use s id && has_any (held s id)
      then some (record s {
        clients = update s.clients (client_id id) freed;
        deleted = deletions skip (held s id) s.deleted;
      })
      else none)
  unfolding free_resource freed
  free_resource-eq = ground (
    arith,
    sweep-got_one id skip (bucket table id) start,
    sweep-deleted id skip (bucket table id) start,
  )

  -- FreeResource ends the server exactly where the client has no table or the id has no node.
  pub free_resource-none_iff :
      (free_resource s id skip ≡ none) ↔ ((table.buckets ≡ 0) ⊎ (held s id ≡ []))
  free_resource-none_iff =
      ground (arith, free_resource-eq, has_any-cases (held s id), client_id-lt id)

  abbrev freed_server : Server
  freed_server = record s {
    clients = update s.clients (client_id id) freed;
    deleted = deletions skip (held s id) s.deleted;
  }

  free_resource-some :
      (s' : Server) → free_resource s id skip ≡ some s' → (s' ≡ freed_server) × (table.buckets ≢ 0)
  free_resource-some s' e = ground (arith, free_resource-eq)

  module _ (v : IsValid s) where
    kept :
        (j : ℕ)
        → of_id j (swept s id skip).kept ≡ (if j == id then [] else of_id j (bucket table id))
    kept j = sweep-kept id skip j (bucket table id) start

    freed-entries :
        table.buckets ≢ 0 → (j : ℕ) → entries freed j ≡ (if j == id then [] else entries table j)
    unfolding freed
    freed-entries used =
        entries-with_bucket (v (client_id id) used) id (swept s id skip).kept [] kept

    -- What is counted is at least what is held.
    held-le :
        table.buckets ≢ 0 → length (held s id) + length (swept s id skip).kept ≤ table.elements
    held-le used = omega (
      arith,
      sweep-length id skip (bucket table id) start,
      length-bucket-le (table).resources (hash (table).hashsize id),
      (v (client_id id) used).counted,
    )

    freed-IsTable : table.buckets ≢ 0 → IsTable freed
    unfolding freed
    freed-IsTable used =
        let t = v (client_id id) used in
        IsTable-with_bucket t id (swept s id skip).kept [] kept (swept s id skip).elements
          (table).expect_id
          (omega (
            arith,
            sweep-length id skip (bucket table id) start,
            sweep-elements id skip (bucket table id) start,
            held-le used,
          ))
          (λ j lt clear le. ground (arith, t.fresh j lt clear le))

    -- FreeResource drops every node of the id, whatever its type, and no other node of any client,
    -- and calls the delete functions of those nodes whose type is not the skipped one, in order.
    pub free_resource_lem :
        (s' : Server)
        → free_resource s id skip ≡ some s'
        → ((j : ℕ) → held s' j ≡ (if j == id then [] else held s j))
          × (s'.deleted ≡ deletions skip (held s id) s.deleted)
          × ((s'.clients (client_id id)).elements + length (held s id) ≡ table.elements)
    free_resource_lem s' e =
        let (is, used) = free_resource-some s' e in
        rw is (
          held-update s id freed [] (freed-entries used),
          refl,
          unfold freed in
              ground (arith, sweep-elements id skip (bucket table id) start, held-le used),
        )

    -- FreeResource keeps every table well-formed.
    pub free_resource-IsValid : (s' : Server) → free_resource s id skip ≡ some s' → IsValid s'
    free_resource-IsValid s' e =
        let (is, used) = free_resource-some s' e in
        rw is (update-IsValid s (client_id id) v (freed-IsTable used))
