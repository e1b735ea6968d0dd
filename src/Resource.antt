-- ===== src/Resource.antt =====
-- The resource database of the server, server/dia/resource.c with the id layout of
-- server/include/resource.h: for each client a chained hash table from ids to typed pointers.
-- A pointer is a number, and 0 is NULL. The array `clientTable` is a function of the index. A chain
-- is the list of its nodes from the head on. `deleted` records the calls of delete functions, the
-- last first; those that the server registers (AuFreeComponent, freeFlow) do not call back into
-- this file, so a chain is not changed under a loop. An allocation's outcome is a `Bool` argument.
pub mod Create
pub mod Remove
pub mod Find
pub mod Fake
pub mod Hash
pub mod Chain
pub mod Views
pub mod Inv
pub mod Rebuild
pub mod Refine
pub mod Classes
pub mod Legal
pub mod Life
mod Tests
use nas.Prelude.{
  ℕ, zero, suc, ◌+◌, ◌-◌, ◌*◌, ◌/◌, ◌%◌, ◌^◌, bit_and, bit_xor, Bool, true, false, ◌&&◌, ◌||◌, not,
  Option, none, some, List, [], ◌∷◌, ◌++◌, ltb, leb, ◌==◌, nonzero, if◌then◌else◌, get_or, set,
  take, replicate,
}

abbrev pub null : ℕ
null = 0

abbrev pub max_clients : ℕ
max_clients = 128

abbrev pub init_buckets : ℕ
init_buckets = 64

abbrev pub init_hash_size : ℕ
init_hash_size = 6

abbrev pub max_hash_size : ℕ
max_hash_size = 11

abbrev pub server_min_id : ℕ
server_min_id = 32

abbrev pub server_bit : ℕ
server_bit = 2 ^ 29

-- RESOURCE_ID_MASK + 1
abbrev pub id_range : ℕ
id_range = 2 ^ 22

-- RC_ANY, an `unsigned long`
abbrev pub any_class : ℕ
any_class = 2 ^ 64 - 1

-- The 7 bits from CLIENTOFFSET on.
abbrev pub client_id : ℕ → ℕ
client_id id = id / id_range % 128

pub record Resource : Type 0 where
  pub id : ℕ
  pub type : ℕ
  pub value : ℕ

pub record ClientTable : Type 0 where
  pub resources : List (List Resource)
  pub elements : ℕ
  pub buckets : ℕ
  pub hashsize : ℕ
  pub fake_id : ℕ
  pub end_fake_id : ℕ
  pub expect_id : ℕ

-- `exceptions` holds the clients given to MarkClientException.
pub record Server : Type 0 where
  pub clients : ℕ → ClientTable
  pub deleted : List Resource
  pub exceptions : List ℕ
  pub last_type : ℕ
  pub last_class : ℕ

abbrev pub update : (ℕ → ClientTable) → ℕ → ClientTable → ℕ → ClientTable
update f i c j = if i == j then c else f j

-- The last line is the int -1, which is outside every table.
unfoldable pub hash : ℕ → ℕ → ℕ
hash hashsize whole =
    let id = whole % id_range in
    if hashsize == 6
    then bit_and (bit_xor (bit_xor id (id / 2 ^ 6)) (id / 2 ^ 12)) 0x03F
    else if hashsize == 7
    then bit_and (bit_xor (bit_xor id (id / 2 ^ 7)) (id / 2 ^ 13)) 0x07F
    else if hashsize == 8
    then bit_and (bit_xor (bit_xor id (id / 2 ^ 8)) (id / 2 ^ 16)) 0x0FF
    else if hashsize == 9
    then bit_and (bit_xor id (id / 2 ^ 9)) 0x1FF
    else if hashsize == 10
    then bit_and (bit_xor id (id / 2 ^ 10)) 0x3FF
    else if hashsize == 11
    then bit_and (bit_xor id (id / 2 ^ 11)) 0x7FF
    else 2 ^ 32 - 1

-- The chain that an id hashes to. An index outside the table reads an empty chain and writes
-- nothing; `Hash.hash-lt` and the invariant rule it out.
abbrev pub bucket : ClientTable → ℕ → List Resource
bucket c id = get_or c.resources (hash c.hashsize id) []

abbrev pub with_bucket : ClientTable → ℕ → List Resource → List (List Resource)
with_bucket c id chain = set c.resources (hash c.hashsize id) chain

-- `CLIENT_ID(id) < MAXCLIENTS && clientTable[cid].buckets`
abbrev pub in_use : Server → ℕ → Bool
in_use s id = ltb (client_id id) max_clients && nonzero (s.clients (client_id id)).buckets
