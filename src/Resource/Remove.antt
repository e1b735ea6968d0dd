-- ===== src/Resource/Remove.antt =====
-- server/dia/resource.c: FreeResource, FreeResourceByType, and the end of a client.
use nas.Prelude.{
  ℕ, zero, suc, ◌-◌, Bool, true, false, ◌&&◌, Option, none, some, List, [], ◌∷◌, ◌++◌, ◌==◌,
  nonzero, if◌then◌else◌, take,
}
use nas.Resource.{client_id, Resource, Server, update, bucket, with_bucket, in_use}

-- The loop of FreeResource over one chain: what it has kept so far, and what it counts.
pub record Sweep : Type 0 where
  pub kept : List Resource
  pub elements : ℕ
  pub deleted : List Resource
  pub got_one : Bool

-- The node is unlinked, counted, and given to its delete function unless that is skipped.
abbrev pub drop_node : ℕ → Resource → Sweep → Sweep
drop_node skip r w = record w {
  elements = w.elements - 1;
  deleted = if r.type == skip then w.deleted else r ∷ w.deleted;
  got_one = true;
}

abbrev pub keep_node : Resource → Sweep → Sweep
keep_node r w = record w { kept = w.kept ++ (r ∷ []) }

unfoldable pub sweep : ℕ → ℕ → List Resource → Sweep → Sweep
sweep id skip [] w = w
sweep id skip (r ∷ rs) w =
    sweep id skip rs (if r.id == id then drop_node skip r w else keep_node r w)

abbrev pub swept : Server → ℕ → ℕ → Sweep
swept s id skip =
    let c = s.clients (client_id id) in
    sweep id skip (bucket c id)
      (record { kept = []; elements = c.elements; deleted = s.deleted; got_one = false })

-- `none` is FatalError, which ends the server.
unfoldable pub free_resource : Server → ℕ → ℕ → Option Server
free_resource s id skip =
    let c = s.clients (client_id id) in
    let w = swept s id skip in
    if in_use s id && w.got_one
    then some (record s {
      clients =
          update s.clients (client_id id)
            (record c { resources = with_bucket c id w.kept; elements = w.elements });
      deleted = w.deleted;
    })
    else none

-- The first node of that id and type, and the chain without it.
unfoldable pub unlink_type : ℕ → ℕ → List Resource → Option (Resource × List Resource)
unlink_type id type [] = none
unlink_type id type (r ∷ rs) =
    if r.id == id && r.type == type
    then some (r, rs)
    else elim (unlink_type id type rs) [ none ↦ none | some (found, rest) ↦ some (found, r ∷ rest) ]

unfoldable pub free_resource_by_type : Server → ℕ → ℕ → Bool → Server
free_resource_by_type s id type skip_free =
    let c = s.clients (client_id id) in
    if in_use s id
    then elim (unlink_type id type (bucket c id)) [
      | none ↦ s
      | some (r, rest) ↦ record s {
        clients = update s.clients (client_id id) (record c { resources = with_bucket c id rest });
        deleted = if skip_free then s.deleted else r ∷ s.deleted;
      }
    ]
    else s

-- Every node of every chain, in order, each deleted as it is unlinked.
unfoldable pub delete_chain : List Resource → List Resource → List Resource
delete_chain [] deleted = deleted
delete_chain (r ∷ rs) deleted = delete_chain rs (r ∷ deleted)

unfoldable pub delete_chains : List (List Resource) → List Resource → List Resource
delete_chains [] deleted = deleted
delete_chains (chain ∷ chains) deleted = delete_chains chains (delete_chain chain deleted)

-- The argument is the client's index, or `none` for a NULL client.
unfoldable pub free_client_resources : Option ℕ → Server → Server
free_client_resources none s = s
free_client_resources (some index) s =
    let c = s.clients index in
    record s {
      clients = update s.clients index (record c { resources = []; buckets = 0 });
      deleted = delete_chains (take c.buckets c.resources) s.deleted;
    }

-- `at i` is `clients[i]`; the count is `currentMaxClients`, and the loop runs down from it.
unfoldable pub free_all_resources : (ℕ → Option ℕ) → ℕ → Server → Server
free_all_resources at zero s = s
free_all_resources at (suc i) s =
    free_all_resources at i
      (if nonzero (s.clients i).buckets then free_client_resources (at i) s else s)
