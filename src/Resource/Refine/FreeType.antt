-- ===== src/Resource/Refine/FreeType.antt =====
-- FreeResourceByType of server/dia/resource.c.
use nas.Prelude.{
  ℕ, ◌≡◌, refl, ◌≢◌, Bool, Option, none, some, List, ◌∷◌, ◌==◌, if◌then◌else◌, arith, ==-eq,
  Option-cases, ◌⊎◌, inl, inr,
}
use nas.Resource.{Resource, ClientTable, Server, client_id, bucket, with_bucket, update}
use nas.Resource.Chain.{of_id}
use nas.Resource.Remove.{unlink_type, free_resource_by_type}
use nas.Resource.Views.{
  erase_type, first_type, left_of, unlink_type-left, unlink_type-found, unlink_type-length,
}
use nas.Resource.Inv.{IsTable, IsValid, entries, entries-with_bucket, IsTable-with_bucket}
use nas.Resource.Refine.Add.{held, held-update, held-same, update-IsValid, client_id-lt}

-- The delete function is called for the node that is found.
abbrev pub deletion : Bool → Option Resource → List Resource → List Resource
deletion skip_free none deleted = deleted
deletion skip_free (some r) deleted = if skip_free then deleted else r ∷ deleted

module _ (s : Server) (v : IsValid s) (id type : ℕ) (skip_free : Bool)
    (used : (s.clients (client_id id)).buckets ≢ 0) where
  abbrev table : ClientTable
  table = s.clients (client_id id)

  left : List Resource
  left = left_of (bucket table id) (unlink_type id type (bucket table id))

  same :
      (j : ℕ)
      → of_id j left ≡ (if j == id then erase_type type (held s id) else of_id j (bucket table id))
  unfolding left
  same j = unlink_type-left id type j (bucket table id)

  unlinked : ClientTable
  unlinked = record table { resources = with_bucket table id left }

  unlinked-entries :
      (j : ℕ)
      → entries unlinked j ≡ (if j == id then erase_type type (held s id) else entries table j)
  unfolding unlinked
  unlinked-entries =
      entries-with_bucket (v (client_id id) used) id left (erase_type type (held s id)) same

  unlinked-IsTable : IsTable unlinked
  unfolding unlinked left
  unlinked-IsTable =
      let t = v (client_id id) used in
      IsTable-with_bucket t id left (erase_type type (held s id)) same (table).elements
        (table).expect_id (omega (arith, unlink_type-length id type (bucket table id)))
        (λ j lt clear le. ground (arith, t.fresh j lt clear le))

  -- Either nothing is found and nothing changes, or the node is unlinked.
  outcome :
      (free_resource_by_type s id type skip_free ≡ s)
        × (first_type type (held s id) ≡ none)
        × (erase_type type (held s id) ≡ held s id)
      ⊎ ((r : Resource) × (first_type type (held s id) ≡ some r)
          × (free_resource_by_type s id type skip_free ≡ record s {
            clients = update s.clients (client_id id) unlinked;
            deleted = if skip_free then s.deleted else r ∷ s.deleted;
          }))
  unfolding free_resource_by_type unlinked left
  outcome = elim (Option-cases (unlink_type id type (bucket table id))) [
    | inl e ↦ inl (
      ground (arith, client_id-lt id),
      ground (arith, unlink_type-found id type (bucket table id)),
      ground (arith, unlink_type-left id type id (bucket table id)),
    )
    | inr (x, e) ↦ inr (
      x.0,
      ground (arith, unlink_type-found id type (bucket table id)),
      ground (arith, client_id-lt id),
    )
  ]

  -- FreeResourceByType of a client in use unlinks the first node of the id that has the type, and
  -- changes no other id; the delete function is called for that node unless it is skipped, and the
  -- client's count of elements stays as it was.
  pub free_resource_by_type_lem :
      let s' = free_resource_by_type s id type skip_free in
      ((j : ℕ) → held s' j ≡ (if j == id then erase_type type (held s id) else held s j))
      × (s'.deleted ≡ deletion skip_free (first_type type (held s id)) s.deleted)
      × ((s'.clients (client_id id)).elements ≡ (table).elements)
  free_resource_by_type_lem = elim outcome [
    | inl p ↦ rw p.0 (λ j. rw p.2 (held-same s id j), ground arith, refl)
    | inr p ↦ rw p.2 (
      held-update s id unlinked (erase_type type (held s id)) unlinked-entries,
      ground arith,
      rw (==-eq {a = client_id id} refl) (unfold unlinked in refl),
    )
  ]

  -- FreeResourceByType keeps every table well-formed.
  pub free_resource_by_type-IsValid : IsValid (free_resource_by_type s id type skip_free)
  free_resource_by_type-IsValid = elim outcome [
    | inl p ↦ rw p.0 v
    | inr p ↦ rw p.2 (update-IsValid s (client_id id) v unlinked-IsTable)
  ]
