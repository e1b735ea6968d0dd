-- ===== src/Resource/Legal.antt =====
-- LegalNewID of server/dia/resource.c, and the beginning and end of a client's table.
use nas.Prelude.{
  ◌⊎◌, sym, subst, ℕ, ◌-◌, ◌*◌, ◌%◌, ◌^◌, ◌≤◌, ◌<◌, ◌≡◌, refl, ◌≢◌, true, List, [], ◌∷◌, arith, inl,
  inr,
}
use nas.Prelude.Bits.{bit_and-bit_low, bit_and-mask}
use nas.Resource.{Resource, Server, null, client_id, id_range, any_class, bucket}
use nas.Resource.Chain.{of_id}
use nas.Resource.Find.{find_class, lookup_id_by_class, legal_new_id}
use nas.Resource.Inv.{IsTable}
use nas.Resource.Refine.Add.{held, client_id-lt}

-- Every node has a type and a pointer.
abbrev pub AllLive : List Resource → Type 0
AllLive [] = Unit
AllLive (r ∷ rs) = (0 < r.type) × (r.type < 2 ^ 64) × (0 < r.value) × AllLive rs

find_class-any :
    (id : ℕ) (rs : List Resource)
    → AllLive rs
    → find_class id any_class rs ≡ null
    → of_id id rs ≡ []
unfolding find_class
find_class-any id [] p e = refl
find_class-any id (r ∷ rs) p e = ground (arith, bit_and-mask 64 r.type, find_class-any id rs p.3)

legal_new_id-parts :
    (s : Server) (id as_mask index : ℕ)
    → legal_new_id s id as_mask index ≡ true
    → (id - id % id_range ≡ as_mask)
      × (((s.clients index).expect_id ≤ id) ⊎ (lookup_id_by_class s id any_class ≡ null))
unfolding legal_new_id
legal_new_id-parts s id as_mask index legal = ground arith

lookup-null :
    (s : Server) (id : ℕ)
    → (s.clients (client_id id)).buckets ≢ 0
    → lookup_id_by_class s id any_class ≡ null
    → find_class id any_class (bucket (s.clients (client_id id)) id) ≡ null
unfolding lookup_id_by_class
lookup-null s id used e = ground (arith, client_id-lt id)

-- A legal new id lies in the client's own range, and no resource of the server has it.
pub legal_new_id_lem :
    (s : Server) (id index : ℕ)
    → index < 128
    → (s.clients index).buckets ≢ 0
    → IsTable (s.clients index)
    → AllLive (bucket (s.clients index) id)
    → legal_new_id s id (index * id_range) index ≡ true
    → (client_id id ≡ index) × (held s id ≡ [])
legal_new_id_lem s id index small used v live legal =
    let parts = legal_new_id-parts s id (index * id_range) index legal in
    let range : id - id % id_range ≡ index * id_range = parts.0 in
    let mine : client_id id ≡ index = omega arith in
    let back : index ≡ client_id id = sym mine in
    (
      mine,
      elim parts.1 [
        | inl le ↦
            subst (λ i. of_id id (bucket (s.clients i) id) ≡ []) back
              (v.fresh id (omega arith) (bit_and-bit_low 29 id (omega arith)) le)
        | inr e ↦
            find_class-any id (bucket (s.clients (client_id id)) id)
              (subst (λ i. AllLive (bucket (s.clients i) id)) back live)
              (lookup-null s id (subst (λ i. (s.clients i).buckets ≢ 0) back used) e)
      ],
    )
