-- ===== src/Resource/Tests.antt =====
-- Tests of server/dia/resource.c, and its theorems at a small server.
use nas.Prelude.{
  ℕ, ◌+◌, ◌*◌, ◌^◌, ◌≤◌, ◌≡◌, refl, ◌≢◌, true, false, none, some, [], ◌∷◌, ◌==◌, if◌then◌else◌,
  length, arith, Bool-cases, inl, inr,
}
use nas.Resource.{Resource, ClientTable, Server, client_id, id_range, hash, bucket}
use nas.Resource.Create.{new_table, add_resource, grown, linked}
use nas.Resource.Remove.{free_resource, free_resource_by_type, sweep}
use nas.Resource.Find.{lookup_id_by_type, lookup_id_by_class, find_class, legal_new_id, find_type}
use nas.Resource.Fake.{fake_client_id, new_range, server_range, give}
use nas.Resource.Fake.Fresh.{fake_client_id_refills}
use nas.Resource.Inv.{IsTable, IsValid, entries}
use nas.Resource.Views.{deletions, erase_type, first_type}
use nas.Resource.Refine.Add.{held, add_resource_lem, add_resource-IsValid}
use nas.Resource.Refine.Free.{free_resource_lem, free_resource-IsValid}
use nas.Resource.Refine.FreeType.{deletion, free_resource_by_type_lem}
use nas.Resource.Legal.{AllLive, legal_new_id_lem}
use nas.Resource.Life.{new_table-IsTable}

-- Client 1 has connected; nobody else has.
abbrev no_table : ClientTable
no_table = record {
  resources = [];
  elements = 0;
  buckets = 0;
  hashsize = 0;
  fake_id = 0;
  end_fake_id = 0;
  expect_id = 0;
}

abbrev one_client : Server
one_client = record {
  clients = λ i. if i == 1 then new_table 1 id_range else no_table;
  deleted = [];
  exceptions = [];
  last_type = 2;
  last_class = 2 ^ 30;
}

one_client-IsValid : IsValid one_client
one_client-IsValid i ne = elim (Bool-cases (i == 1)) [
  | inl e ↦ rw e (new_table-IsTable 1 id_range)
  | inr e ↦ absurd ((rw e at ne) refl)
]

abbrev flow : Resource
flow = record { id = id_range + 5; type = 2; value = 77 }

abbrev bucket_of_sound : Resource
bucket_of_sound = record { id = id_range + 5; type = 1; value = 78 }

-- Two resources of one id.
abbrev busy : Server
busy = (add_resource true true (add_resource true true one_client flow).0 bucket_of_sound).0

lookup_finds : lookup_id_by_type busy (id_range + 5) 2 ≡ 77
unfolding lookup_id_by_type find_type add_resource grown linked hash
lookup_finds = refl

legal_refuses : legal_new_id busy (id_range + 5) id_range 1 ≡ false
unfolding legal_new_id lookup_id_by_class find_class add_resource grown linked hash
legal_refuses = refl

-- The id of the tests, and the server with one resource.
abbrev flow_id : ℕ
flow_id = id_range + 5

abbrev playing : Server
playing = (add_resource true true one_client flow).0

used : (one_client.clients (client_id flow_id)).buckets ≢ 0
used = omega arith

playing-IsValid : IsValid playing
playing-IsValid = add_resource-IsValid one_client true true one_client-IsValid flow (omega arith)

playing_used : (playing.clients (client_id flow_id)).buckets ≢ 0
unfolding add_resource grown linked
playing_used = omega arith

busy-IsValid : IsValid busy
busy-IsValid = add_resource-IsValid playing true true playing-IsValid bucket_of_sound (omega arith)

busy_used : (busy.clients (client_id flow_id)).buckets ≢ 0
unfolding add_resource grown linked
busy_used = omega arith

abbrev idle : Server
idle = elim (free_resource busy flow_id 2) [ none ↦ busy | some s ↦ s ]

idle_eq : free_resource busy flow_id 2 ≡ some idle
unfolding free_resource sweep add_resource grown linked hash
idle_eq = refl

add_resource_lem_example :
    ((add_resource true true playing bucket_of_sound).1 ≡ true)
    × ((j : ℕ)
        → held (add_resource true true playing bucket_of_sound).0 j
          ≡ (if j == flow_id then bucket_of_sound ∷ held playing flow_id else held playing j))
add_resource_lem_example =
    add_resource_lem playing true playing-IsValid bucket_of_sound playing_used

add_resource-IsValid_example : IsValid (add_resource true false playing bucket_of_sound).0
add_resource-IsValid_example =
    add_resource-IsValid playing true false playing-IsValid bucket_of_sound (omega arith)

free_resource_lem_example :
    ((j : ℕ) → held idle j ≡ (if j == flow_id then [] else held busy j))
    × (idle.deleted ≡ deletions 2 (held busy flow_id) busy.deleted)
    × ((idle.clients (client_id flow_id)).elements + length (held busy flow_id)
        ≡ (busy.clients (client_id flow_id)).elements)
free_resource_lem_example = free_resource_lem busy flow_id 2 busy-IsValid idle idle_eq

free_resource-IsValid_example : IsValid idle
free_resource-IsValid_example = free_resource-IsValid busy flow_id 2 busy-IsValid idle idle_eq

free_resource_by_type_lem_example :
    let s' = free_resource_by_type busy flow_id 1 false in
    ((j : ℕ) → held s' j ≡ (if j == flow_id then erase_type 1 (held busy flow_id) else held busy j))
    × (s'.deleted ≡ deletion false (first_type 1 (held busy flow_id)) busy.deleted)
    × ((s'.clients (client_id flow_id)).elements ≡ (busy.clients (client_id flow_id)).elements)
free_resource_by_type_lem_example =
    free_resource_by_type_lem busy busy-IsValid flow_id 1 false busy_used

legal_new_id_lem_example : (client_id (id_range + 9) ≡ 1) × (held one_client (id_range + 9) ≡ [])
legal_new_id_lem_example =
    legal_new_id_lem one_client (id_range + 9) 1 (omega arith) (omega arith)
      (new_table-IsTable 1 id_range) live legal
  where
    live : AllLive (bucket (one_client.clients 1) (id_range + 9))
    live = unfold hash in tt

    legal : legal_new_id one_client (id_range + 9) (1 * id_range) 1 ≡ true
    legal = unfold legal_new_id lookup_id_by_class find_class hash in refl

-- Client 1 after its last fake id, where all its ids are free.
abbrev used_up : Server
used_up = record one_client {
  clients = λ i. record (new_table 1 id_range) { fake_id = 7; end_fake_id = 7 };
}

used_up-IsTable : IsTable (used_up.clients 1)
used_up-IsTable =
    let v = new_table-IsTable 1 id_range in
    record {
      shape = refl;
      power = refl;
      small = omega arith;
      large = omega arith;
      placed = v.placed;
      counted = omega arith;
      fresh = v.fresh;
    }

fake_client_id_refills_example :
    let w = new_range (used_up.clients 1) 1 in
    (fake_client_id used_up 1 ≡ some (give used_up 1 w, w.id))
    × (w.id ≤ w.maxid)
    × ((j : ℕ)
        → w.id ≤ j
        → j ≤ w.maxid
        → ((server_range 1).id ≤ j)
          × (j ≤ (server_range 1).maxid)
          × (entries (used_up.clients 1) j ≡ []))
fake_client_id_refills_example =
    fake_client_id_refills used_up 1 used_up-IsTable refl
      ((server_range 1).id, omega arith, omega arith, unfold hash in refl)
