-- ===== src/Resource/Create.antt =====
-- server/dia/resource.c: types and classes of resources, a client's table, adding a resource and
-- growing the table.
use nas.Prelude.{
  ℕ, ◌+◌, ◌-◌, ◌*◌, ◌/◌, ◌%◌, ◌^◌, bit_and, Bool, true, false, ◌&&◌, not, List, [], ◌∷◌, ◌++◌, ltb,
  leb, nonzero, if◌then◌else◌, get_or, set, take, replicate,
}
use nas.Resource.{
  init_buckets, init_hash_size, max_hash_size, server_min_id, server_bit, id_range, client_id,
  Resource, ClientTable, Server, update, hash, bucket, with_bucket,
}

unfoldable pub create_new_resource_type : Bool → Server → Server × ℕ
create_new_resource_type alloc s =
    let next = s.last_type + 1 in
    if nonzero (bit_and next s.last_class)
    then (s, 0)
    else if not alloc
    then (s, 0)
    else (record s { last_type = next }, next)

unfoldable pub create_new_resource_class : Server → Server × ℕ
create_new_resource_class s =
    let next = s.last_class / 2 in
    if nonzero (bit_and s.last_type next) then (s, 0) else (record s { last_class = next }, next)

abbrev pub first_fake_id : ℕ → ℕ → ℕ
first_fake_id index as_mask = as_mask + (if nonzero index then server_bit else server_min_id)

-- `(fakeID | RESOURCE_ID_MASK) + 1` is the end of the 22-bit range.
abbrev pub new_table : ℕ → ℕ → ClientTable
new_table index as_mask = record {
  resources = replicate init_buckets [];
  elements = 0;
  buckets = init_buckets;
  hashsize = init_hash_size;
  fake_id = first_fake_id index as_mask;
  end_fake_id = first_fake_id index as_mask - first_fake_id index as_mask % id_range + id_range;
  expect_id = as_mask;
}

-- `is_server` is the test `client == serverClient`; the first allocation is for the delete
-- functions, the second for the buckets.
unfoldable pub init_client_resources : Bool → Bool → Bool → ℕ → ℕ → Server → Server × Bool
init_client_resources funcs table is_server index as_mask s =
    let s' = if is_server then record s { last_type = 0; last_class = 2 ^ 30 } else s in
    let no_buckets = record (s'.clients index) { resources = [] } in
    if is_server && not funcs
    then (s', false)
    else if not table
    then (record s' { clients = update s'.clients index no_buckets }, false)
    else (record s' { clients = update s'.clients index (new_table index as_mask) }, true)

-- The inner loop of RebuildTable appends each node at the tail of its new chain.
unfoldable pub append_node : ℕ → List (List Resource) → Resource → List (List Resource)
append_node hashsize t r = set t (hash hashsize r.id) (get_or t (hash hashsize r.id) [] ++ (r ∷ []))

unfoldable pub move_chain : ℕ → List (List Resource) → List Resource → List (List Resource)
move_chain hashsize t [] = t
move_chain hashsize t (r ∷ rs) = move_chain hashsize (append_node hashsize t r) rs

unfoldable pub move_chains : ℕ → List (List Resource) → List (List Resource) → List (List Resource)
move_chains hashsize t [] = t
move_chains hashsize t (chain ∷ chains) = move_chains hashsize (move_chain hashsize t chain) chains

-- The argument says whether both allocations succeed.
unfoldable pub rebuild_table : Bool → ClientTable → ClientTable
rebuild_table false c = c
rebuild_table true c = record c {
  resources =
      move_chains (c.hashsize + 1) (replicate (2 * c.buckets) []) (take c.buckets c.resources);
  buckets = c.buckets * 2;
  hashsize = c.hashsize + 1;
}

unfoldable pub grown : Bool → ClientTable → ClientTable
grown rebuild c =
    if leb (4 * c.buckets) c.elements && ltb c.hashsize max_hash_size
    then rebuild_table rebuild c
    else c

-- The node put at the head of its chain.
unfoldable pub linked : ClientTable → Resource → ClientTable
linked c r = record c {
  resources = with_bucket c r.id (r ∷ bucket c r.id);
  elements = c.elements + 1;
  expect_id =
      if not (nonzero (bit_and r.id server_bit)) && leb c.expect_id r.id
      then (r.id + 1) % 2 ^ 32
      else c.expect_id;
}

unfoldable pub add_resource : Bool → Bool → Server → Resource → Server × Bool
add_resource rebuild node s r =
    let client = client_id r.id in
    let c = grown rebuild (s.clients client) in
    if not (nonzero (s.clients client).buckets)
    then (s, false)
    else if not node
    then (record s { clients = update s.clients client c; deleted = r ∷ s.deleted }, false)
    else (record s { clients = update s.clients client (linked c r) }, true)
