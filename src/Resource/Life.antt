-- ===== src/Resource/Life.antt =====
-- The beginning and the end of a client's table in server/dia/resource.c.
use nas.Prelude.{
  ℕ, ◌≡◌, refl, Bool, true, false, some, List, [], ◌∷◌, ◌++◌, append_assoc, arith, ==-eq,
}
use mathlib.Core.List.{reverse, reverse-append, reverse-cons}
use nas.Resource.{Resource, Server, client_id, null, init_buckets, init_hash_size, hash}
use nas.Resource.Chain.{flatten}
use nas.Resource.Create.{new_table, init_client_resources}
use nas.Resource.Remove.{delete_chain, delete_chains, free_client_resources}
use nas.Resource.Find.{lookup_id_by_type}
use nas.Resource.Inv.{IsTable, entries}
use nas.Resource.Rebuild.{get_or-replicate_nil, take_all}

new_table-entries : (index as_mask id : ℕ) → entries (new_table index as_mask) id ≡ []
new_table-entries index as_mask id =
    rw (get_or-replicate_nil init_buckets (hash init_hash_size id)) refl

pub new_table-IsTable : (index as_mask : ℕ) → IsTable (new_table index as_mask)
new_table-IsTable index as_mask = record {
  shape = refl;
  power = refl;
  small = omega arith;
  large = omega arith;
  placed = λ j id ne. rw (get_or-replicate_nil init_buckets j);
  counted = omega arith;
  fresh = λ id lt clear le. new_table-entries index as_mask id;
}

-- InitClientResources with memory gives the client a well-formed table with no resource in it.
pub init_client_resources_lem :
    (is_server : Bool) (index as_mask : ℕ) (s : Server)
    → let (s', done) = init_client_resources true true is_server index as_mask s in
      (done ≡ true) × IsTable (s'.clients index) × ((id : ℕ) → entries (s'.clients index) id ≡ [])
unfolding init_client_resources
init_client_resources_lem true index as_mask s =
    rw (==-eq {a = index} refl)
      (refl, new_table-IsTable index as_mask, new_table-entries index as_mask)
init_client_resources_lem false index as_mask s =
    rw (==-eq {a = index} refl)
      (refl, new_table-IsTable index as_mask, new_table-entries index as_mask)

delete_chain_lem : (rs deleted : List Resource) → delete_chain rs deleted ≡ reverse rs ++ deleted
unfolding delete_chain
delete_chain_lem [] deleted = refl
delete_chain_lem (r ∷ rs) deleted =
    rw (delete_chain_lem rs (r ∷ deleted), reverse-cons, append_assoc) refl

delete_chains_lem :
    (chains : List (List Resource)) (deleted : List Resource)
    → delete_chains chains deleted ≡ reverse (flatten chains) ++ deleted
unfolding delete_chains
delete_chains_lem [] deleted = refl
delete_chains_lem (chain ∷ chains) deleted =
    rw
      (
        delete_chains_lem chains (delete_chain chain deleted),
        delete_chain_lem chain deleted,
        reverse-append,
        append_assoc,
      )
      refl

-- FreeClientResources calls the delete function of every node of the client's table, bucket by
-- bucket from the head on, and no lookup finds a resource of the client after it.
pub free_client_resources_lem :
    (s : Server) (index : ℕ)
    → IsTable (s.clients index)
    → let s' = free_client_resources (some index) s in
      (s'.deleted ≡ reverse (flatten (s.clients index).resources) ++ s.deleted)
      × ((id type : ℕ) → client_id id ≡ index → lookup_id_by_type s' id type ≡ null)
unfolding free_client_resources lookup_id_by_type
free_client_resources_lem s index v = (
  rw (← v.shape, take_all (s.clients index).resources, delete_chains_lem) refl,
  λ id type e. rw (e, ==-eq {a = index} refl) (ground arith),
)
