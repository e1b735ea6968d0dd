-- ===== src/Resource/Fake.antt =====
-- FakeClientID of server/dia/resource.c: ids that the server makes in the name of a client.
-- FatalError, for the server's own ids, is `none`.
pub mod Fresh
use nas.Prelude.{
  ℕ, zero, suc, ◌+◌, ◌-◌, ◌*◌, ◌%◌, ◌^◌, Bool, true, false, ◌&&◌, ◌||◌, not, Option, none, some,
  List, [], ◌∷◌, ltb, leb, ◌==◌, nonzero, if◌then◌else◌,
}
use nas.Resource.{
  Resource, ClientTable, Server, server_bit, server_min_id, id_range, bucket, update,
}

-- The inner loop of AvailableID: whether the chain has a node of the id.
abbrev pub has_id : ℕ → List Resource → Bool
has_id id [] = false
has_id id (r ∷ rs) = if r.id == id then true else has_id id rs

-- The outer loop, with the ids that are left to try; 0 where all are taken.
pub first_free : ℕ → ClientTable → ℕ → ℕ
first_free zero c id = 0
first_free (suc left) c id =
    let rest = first_free left c (id + 1) in if has_id id (bucket c id) then rest else id

pub available_id : ClientTable → ℕ → ℕ → ℕ → ℕ
available_id c id maxid goodid =
    if leb id goodid && leb goodid maxid then goodid else first_free (maxid + 1 - id) c id

-- The range that FakeClientID narrows, and an id in it that is known to be free, or 0.
pub record Range : Type 0 where
  pub id : ℕ
  pub maxid : ℕ
  pub goodid : ℕ

-- One node: a node inside the range cuts off the smaller side, unless only that has a free id.
pub narrow : ClientTable → Resource → Range → Range
narrow c r w =
    let below = available_id c w.id (r.id - 1) w.goodid in
    let above = available_id c (r.id + 1) w.maxid w.goodid in
    if ltb r.id w.id || ltb w.maxid r.id
    then w
    else if leb (w.maxid - r.id) (r.id - w.id)
    then (if nonzero below
        then record w { maxid = r.id - 1; goodid = below }
        else record w { id = r.id + 1; goodid = below })
    else (if nonzero above
        then record w { id = r.id + 1; goodid = above }
        else record w { maxid = r.id - 1; goodid = above })

pub narrow_chain : ClientTable → List Resource → Range → Range
narrow_chain c [] w = w
narrow_chain c (r ∷ rs) w = narrow_chain c rs (narrow c r w)

pub narrow_chains : ClientTable → List (List Resource) → Range → Range
narrow_chains c [] w = w
narrow_chains c (chain ∷ chains) w = narrow_chains c chains (narrow_chain c chain w)

-- `(client << CLIENTOFFSET) | (client ? SERVER_BIT : SERVER_MINID)`, fields that do not overlap,
-- and `id | RESOURCE_ID_MASK`.
abbrev pub server_range : ℕ → Range
server_range client =
    let id = client * id_range + (if nonzero client then server_bit else server_min_id) in
    record { id = id; maxid = id - id % id_range + (id_range - 1); goodid = 0 }

pub new_range : ClientTable → ℕ → Range
new_range c client = narrow_chains c c.resources (server_range client)

-- The state with the counter moved past `w.id`, up to the end of the range.
abbrev pub give : Server → ℕ → Range → Server
give s client w = record s {
  clients =
      update s.clients client
        (record (s.clients client) { fake_id = w.id + 1; end_fake_id = w.maxid + 1 });
}

-- The range `(client << CLIENTOFFSET) | (SERVER_BIT * 3)` of a client marked for an exception.
abbrev pub last_range : ℕ → Range
last_range client =
    let id = client * id_range + server_bit * 3 in
    record { id = id; maxid = id - id % id_range + (id_range - 1); goodid = 0 }

pub fake_client_id : Server → ℕ → Option (Server × ℕ)
fake_client_id s client =
    let c = s.clients client in
    let w = new_range c client in
    let over = last_range client in
    if not (c.fake_id == c.end_fake_id)
    then some (
      record s {
        clients = update s.clients client (record c { fake_id = (c.fake_id + 1) % 2 ^ 32 });
      },
      c.fake_id,
    )
    else if ltb w.maxid w.id
    then (if nonzero client
        then some (give (record s { exceptions = client ∷ s.exceptions }) client over, over.id)
        else none)
    else some (give s client w, w.id)
