-- ===== src/Resource/Find.antt =====
-- server/dia/resource.c: lookups by type and by class, ChangeResourceValue, LegalNewID.
use nas.Prelude.{
  ℕ, ◌-◌, ◌%◌, bit_and, Bool, true, false, ◌&&◌, ◌||◌, not, Option, none, some, List, [], ◌∷◌, leb,
  ◌==◌, nonzero, if◌then◌else◌,
}
use nas.Resource.{
  null, id_range, any_class, client_id, Resource, Server, update, bucket, with_bucket, in_use,
}

unfoldable pub find_type : ℕ → ℕ → List Resource → ℕ
find_type id type [] = null
find_type id type (r ∷ rs) = if r.id == id && r.type == type then r.value else find_type id type rs

unfoldable pub find_class : ℕ → ℕ → List Resource → ℕ
find_class id classes [] = null
find_class id classes (r ∷ rs) =
    if r.id == id && nonzero (bit_and r.type classes) then r.value else find_class id classes rs

unfoldable pub lookup_id_by_type : Server → ℕ → ℕ → ℕ
lookup_id_by_type s id type =
    if in_use s id then find_type id type (bucket (s.clients (client_id id)) id) else null

unfoldable pub lookup_id_by_class : Server → ℕ → ℕ → ℕ
lookup_id_by_class s id classes =
    if in_use s id then find_class id classes (bucket (s.clients (client_id id)) id) else null

-- `id - id % id_range` is `id & ~RESOURCE_ID_MASK`.
unfoldable pub legal_new_id : Server → ℕ → ℕ → ℕ → Bool
legal_new_id s id as_mask index =
    as_mask == id - id % id_range
    && (leb (s.clients index).expect_id id || not (nonzero (lookup_id_by_class s id any_class)))

unfoldable pub change_value : ℕ → ℕ → ℕ → List Resource → Option (List Resource)
change_value id type value [] = none
change_value id type value (r ∷ rs) =
    if r.id == id && r.type == type
    then some (record r { value = value } ∷ rs)
    else elim (change_value id type value rs) [ none ↦ none | some rest ↦ some (r ∷ rest) ]

unfoldable pub change_resource_value : Server → ℕ → ℕ → ℕ → Server × Bool
change_resource_value s id type value =
    let c = s.clients (client_id id) in
    if in_use s id
    then elim (change_value id type value (bucket c id)) [
      | none ↦ (s, false)
      | some chain ↦ (
        record s {
          clients =
              update s.clients (client_id id) (record c { resources = with_bucket c id chain });
        },
        true,
      )
    ]
    else (s, false)
