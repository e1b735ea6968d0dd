-- ===== src/Cache.antt =====
-- The client library's cache of bucket attributes, lib/audio/bcache.c: for each server a list of
-- copies. An allocation succeeds or fails as `Memory` says; what is freed is listed.
pub mod Entries
pub mod Servers
pub mod Refine
pub mod Traces
mod Tests
use nas.Prelude.{
  ℕ, ◌+◌, Bool, true, false, Option, none, some, List, [], ◌∷◌, take, ◌==◌, if◌then◌else◌,
}

-- The identifier and the description of AuBucketAttributes, and the fields that are copied with them.
pub record BucketAttributes : Type 0 where
  pub identifier : ℕ
  pub description_len : ℕ
  pub description : Option (List ℕ)
  pub others : List ℕ

pub record ServerCache : Type 0 where
  pub aud : ℕ
  pub cache : List BucketAttributes

-- Whether each allocation of a call succeeds: a server's record, an entry, a copy of the attributes,
-- a copy of the description.
pub record Memory : Type 0 where
  pub server : Bool
  pub entry : Bool
  pub attributes : Bool
  pub description : Bool

-- What a call leaves, and the attributes that it has freed.
pub record Freed : Type 0 where
  pub servers : List ServerCache
  pub freed : List BucketAttributes

-- The description is copied with the zero at its end.
abbrev pub duplicate : BucketAttributes → BucketAttributes
duplicate a = record a {
  description = elim a.description [ none ↦ none | some d ↦ some (take (a.description_len + 1) d) ];
}

unfoldable pub copy_bucket_attributes : Memory → BucketAttributes → Option BucketAttributes
copy_bucket_attributes m a =
    if m.attributes
    then elim a.description [
      | none ↦ some (duplicate a)
      | some d ↦ if m.description then some (duplicate a) else none
    ]
    else none

-- The first record of the server, and the first entry of the bucket.
unfoldable pub server_of : ℕ → List ServerCache → Option ServerCache
server_of aud [] = none
server_of aud (s ∷ rest) = if s.aud == aud then some s else server_of aud rest

unfoldable pub entry_of : ℕ → List BucketAttributes → Option BucketAttributes
entry_of bucket [] = none
entry_of bucket (e ∷ rest) = if e.identifier == bucket then some e else entry_of bucket rest

-- The cache of the first record of the server is replaced.
unfoldable pub with_cache : ℕ → List BucketAttributes → List ServerCache → List ServerCache
with_cache aud cache [] = []
with_cache aud cache (s ∷ rest) =
    if s.aud == aud then record s { cache = cache } ∷ rest else s ∷ with_cache aud cache rest

unfoldable pub add_entry : Memory → BucketAttributes → List BucketAttributes → List BucketAttributes
add_entry m a cache = elim (entry_of a.identifier cache) [
  | some e ↦ cache
  | none ↦
      if m.entry
      then elim (copy_bucket_attributes m a) [ none ↦ cache | some e ↦ e ∷ cache ]
      else cache
]

unfoldable pub add_to_bucket_cache :
    Memory → ℕ → BucketAttributes → List ServerCache → List ServerCache
add_to_bucket_cache m aud a servers = elim (server_of aud servers) [
  | some s ↦ with_cache aud (add_entry m a s.cache) servers
  | none ↦ if m.server then record { aud = aud; cache = add_entry m a [] } ∷ servers else servers
]

unfoldable pub lookup_bucket_in_cache : Memory → ℕ → ℕ → List ServerCache → Option BucketAttributes
lookup_bucket_in_cache m aud bucket servers = elim (server_of aud servers) [
  | none ↦ none
  | some s ↦ elim (entry_of bucket s.cache) [ none ↦ none | some e ↦ copy_bucket_attributes m e ]
]

-- The first entry of the bucket is unlinked.
unfoldable pub unlink_entry : ℕ → List BucketAttributes → List BucketAttributes
unlink_entry bucket [] = []
unlink_entry bucket (e ∷ rest) =
    if e.identifier == bucket then rest else e ∷ unlink_entry bucket rest

unfoldable pub remove_from_bucket_cache : ℕ → ℕ → List ServerCache → Freed
remove_from_bucket_cache aud bucket servers = elim (server_of aud servers) [
  | none ↦ record { servers = servers; freed = [] }
  | some s ↦ elim (entry_of bucket s.cache) [
    | none ↦ record { servers = servers; freed = [] }
    | some e ↦ record {
      servers = with_cache aud (unlink_entry bucket s.cache) servers;
      freed = e ∷ [];
    }
  ]
]

-- The first record of the server is unlinked.
unfoldable pub unlink_server : ℕ → List ServerCache → List ServerCache
unlink_server aud [] = []
unlink_server aud (s ∷ rest) = if s.aud == aud then rest else s ∷ unlink_server aud rest

unfoldable pub free_bucket_cache : ℕ → List ServerCache → Freed
free_bucket_cache aud servers = elim (server_of aud servers) [
  | none ↦ record { servers = servers; freed = [] }
  | some s ↦ record { servers = unlink_server aud servers; freed = s.cache }
]
