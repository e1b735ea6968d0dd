-- ===== src/Resource/Refine/Value.antt =====
-- ChangeResourceValue and the lookups of server/dia/resource.c.
use nas.Prelude.{
  ℕ, ◌≡◌, refl, ◌≢◌, Bool, true, false, Option, none, some, List, [], ◌∷◌, ◌==◌, if◌then◌else◌,
  arith, Option-cases, ◌⊎◌, inl, inr,
}
use nas.Resource.{
  Resource, ClientTable, Server, null, client_id, bucket, with_bucket, update, in_use,
}
use nas.Resource.Chain.{of_id}
use nas.Resource.Find.{
  change_value, change_resource_value, lookup_id_by_type, lookup_id_by_class, find_class,
}
use nas.Resource.Views.{
  put_value, value_of, changed_of, change_value-changed, change_value-length, find_type-of_id,
  find_class-of_id,
}
use nas.Resource.Inv.{IsTable, IsValid, entries, entries-with_bucket, IsTable-with_bucket}
use nas.Resource.Refine.Add.{held, held-update, held-same, update-IsValid, client_id-lt}

-- Whether a node of the type is there.
abbrev pub has_type : ℕ → List Resource → Bool
has_type type [] = false
has_type type (r ∷ rs) = if r.type == type then true else has_type type rs

abbrev is_some {ℓ} : {A : Type ℓ} → Option A → Bool
is_some none = false
is_some (some a) = true

change_value-found :
    (id type value : ℕ) (rs : List Resource)
    → is_some (change_value id type value rs) ≡ has_type type (of_id id rs)
unfolding change_value
change_value-found id type value [] = refl
change_value-found id type value (r ∷ rs) = ground (arith, change_value-found id type value rs)

module _ (s : Server) (v : IsValid s) (id type value : ℕ)
    (used : (s.clients (client_id id)).buckets ≢ 0) where
  abbrev table : ClientTable
  table = s.clients (client_id id)

  chain : List Resource
  chain = changed_of (bucket table id) (change_value id type value (bucket table id))

  same :
      (j : ℕ)
      → of_id j chain
        ≡ (if j == id then put_value type value (held s id) else of_id j (bucket table id))
  unfolding chain
  same j = change_value-changed id type value j (bucket table id)

  changed : ClientTable
  changed = record table { resources = with_bucket table id chain }

  changed-entries :
      (j : ℕ)
      → entries changed j ≡ (if j == id then put_value type value (held s id) else entries table j)
  unfolding changed
  changed-entries =
      entries-with_bucket (v (client_id id) used) id chain (put_value type value (held s id)) same

  changed-IsTable : IsTable changed
  unfolding changed chain
  changed-IsTable =
      let t = v (client_id id) used in
      IsTable-with_bucket t id chain (put_value type value (held s id)) same (table).elements
        (table).expect_id (omega (arith, change_value-length id type value (bucket table id)))
        (λ j lt clear le. ground (arith, t.fresh j lt clear le))

  outcome :
      (change_resource_value s id type value ≡ (s, false))
        × (has_type type (held s id) ≡ false)
        × (put_value type value (held s id) ≡ held s id)
      ⊎ (has_type type (held s id) ≡ true)
        × (change_resource_value s id type value
            ≡ (record s { clients = update s.clients (client_id id) changed }, true))
  unfolding change_resource_value changed chain
  outcome = elim (Option-cases (change_value id type value (bucket table id))) [
    | inl e ↦ inl (
      ground (arith, client_id-lt id),
      ground (arith, change_value-found id type value (bucket table id)),
      ground (arith, change_value-changed id type value id (bucket table id)),
    )
    | inr (x, e) ↦ inr (
      ground (arith, change_value-found id type value (bucket table id)),
      ground (arith, client_id-lt id),
    )
  ]

  -- ChangeResourceValue of a client in use gives the value to the first node of the id that has the
  -- type, changes nothing else, and says whether there was one.
  pub change_resource_value_lem :
      ((change_resource_value s id type value).1 ≡ has_type type (held s id))
      × ((j : ℕ)
          → held (change_resource_value s id type value).0 j
            ≡ (if j == id then put_value type value (held s id) else held s j))
  change_resource_value_lem = elim outcome [
    | inl p ↦ rw p.0 (rw p.1, λ j. rw p.2 (held-same s id j))
    | inr p ↦
        rw p.1 (rw p.0, held-update s id changed (put_value type value (held s id)) changed-entries)
  ]

  -- ChangeResourceValue keeps every table well-formed.
  pub change_resource_value-IsValid : IsValid (change_resource_value s id type value).0
  change_resource_value-IsValid = elim outcome [
    | inl p ↦ rw p.0 v
    | inr p ↦ rw p.1 (update-IsValid s (client_id id) v changed-IsTable)
  ]

-- A lookup by type gives the value of the first node of the id that has the type, or NULL.
pub lookup_id_by_type_lem :
    (s : Server) (id type : ℕ)
    → lookup_id_by_type s id type ≡ (if in_use s id then value_of type (held s id) else null)
unfolding lookup_id_by_type
lookup_id_by_type_lem s id type =
    ground (arith, find_type-of_id id type (bucket (s.clients (client_id id)) id))

pub lookup_id_by_class_lem :
    (s : Server) (id classes : ℕ)
    → lookup_id_by_class s id classes
      ≡ (if in_use s id then find_class id classes (held s id) else null)
unfolding lookup_id_by_class
lookup_id_by_class_lem s id classes =
    ground (arith, find_class-of_id id classes (bucket (s.clients (client_id id)) id))
