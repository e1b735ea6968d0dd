-- ===== src/Cache/Refine.antt =====
-- The bucket cache of lib/audio/bcache.c keeps what a map from a server and a bucket to the
-- attributes promises, call by call and over every sequence of calls.
use nas.Prelude.{
  ℕ, ◌≡◌, refl, Bool, true, ◌&&◌, none, some, Option-cases, List, [], ◌∷◌, ◌==◌, if◌then◌else◌, inl,
  inr, arith,
}
use nas.Cache.{
  ServerCache, BucketAttributes, Memory, duplicate, copy_bucket_attributes, server_of, entry_of,
  with_cache, add_entry, add_to_bucket_cache, lookup_bucket_in_cache, unlink_entry,
  remove_from_bucket_cache, free_bucket_cache,
}
use nas.Cache.Entries.{
  is_none, has_room, entry_of-add_entry, entry_of-unlink_entry, add_entry-all_differ,
  unlink_entry-all_differ,
}
use nas.Cache.Servers.{
  held, is_valid, held-with_cache, held-server_of, held-none, with_cache-is_valid,
  server_of-all_differ, held-unlink_server, unlink_server-is_valid,
}

abbrev pub server_added : Memory → ℕ → List ServerCache → Bool
server_added m aud servers = elim (server_of aud servers) [ none ↦ m.server | some s ↦ true ]

-- _AuAddToBucketCache, whatever the memory: where the bucket is not in the cache of the server and
-- each allocation that is made succeeds, it is there as a copy; every other bucket of every server
-- stays as it is, and so does this one else.
pub add_to_bucket_cache_lem :
    (m : Memory) (aud : ℕ) (a : BucketAttributes) (servers : List ServerCache) (g b : ℕ)
    → held (add_to_bucket_cache m aud a servers) g b ≡ (
        if aud == g
          && a.identifier == b
          && is_none (held servers g b)
          && server_added m aud servers
          && m.entry
          && has_room m a
        then some (duplicate a)
        else held servers g b)
unfolding add_to_bucket_cache held entry_of
add_to_bucket_cache_lem m aud a servers g b = elim (Option-cases (server_of aud servers)) [
  | inl e ↦ ground (arith, e, held-none aud b servers e, entry_of-add_entry m a b [])
  | inr (s, e) ↦ ground (
    arith,
    e,
    held-with_cache aud g b (add_entry m a s.cache) s servers e,
    held-server_of aud b s servers e,
    entry_of-add_entry m a b s.cache,
  )
]

pub add_to_bucket_cache-is_valid :
    (m : Memory) (aud : ℕ) (a : BucketAttributes) (servers : List ServerCache)
    → is_valid servers ≡ true
    → is_valid (add_to_bucket_cache m aud a servers) ≡ true
unfolding add_to_bucket_cache
add_to_bucket_cache-is_valid m aud a servers v = elim (Option-cases (server_of aud servers)) [
  | inl e ↦ ground (arith, e, v, add_entry-all_differ m a [] refl)
  | inr (s, e) ↦ ground (
    arith,
    e,
    with_cache-is_valid aud (add_entry m a s.cache) servers v
        (add_entry-all_differ m a s.cache (server_of-all_differ aud s servers v e)),
  )
]

remove-found :
    (aud bucket : ℕ) (servers : List ServerCache) (s : ServerCache)
    → server_of aud servers ≡ some s
    → is_valid servers ≡ true
    → (g b : ℕ)
    → held (with_cache aud (unlink_entry bucket s.cache) servers) g b
      ≡ (if aud == g && bucket == b then none else held servers g b)
remove-found aud bucket servers s e v g b = ground (
  arith,
  held-with_cache aud g b (unlink_entry bucket s.cache) s servers e,
  held-server_of aud b s servers e,
  entry_of-unlink_entry bucket b s.cache (server_of-all_differ aud s servers v e),
)

-- _AuRemoveFromBucketCache of a well-formed cache: the bucket of the server is not in it any more,
-- all others stay, and exactly the attributes that were held are freed.
pub remove_from_bucket_cache_lem :
    (aud bucket : ℕ) (servers : List ServerCache)
    → is_valid servers ≡ true
    → ((g b : ℕ)
        → held (remove_from_bucket_cache aud bucket servers).servers g b
          ≡ (if aud == g && bucket == b then none else held servers g b))
      × ((remove_from_bucket_cache aud bucket servers).freed
          ≡ elim (held servers aud bucket) [ none ↦ [] | some e ↦ e ∷ [] ])
unfolding remove_from_bucket_cache
remove_from_bucket_cache_lem aud bucket servers v = elim (Option-cases (server_of aud servers)) [
  | inl e ↦ (
    λ g b. ground (arith, e, held-none aud b servers e),
    ground (arith, e, held-none aud bucket servers e),
  )
  | inr (s, e) ↦ (
    λ g b.
        ground
          (arith, e, held-server_of aud b s servers e, remove-found aud bucket servers s e v g b),
    ground (arith, e, held-server_of aud bucket s servers e),
  )
]

pub remove_from_bucket_cache-is_valid :
    (aud bucket : ℕ) (servers : List ServerCache)
    → is_valid servers ≡ true
    → is_valid (remove_from_bucket_cache aud bucket servers).servers ≡ true
unfolding remove_from_bucket_cache
remove_from_bucket_cache-is_valid aud bucket servers v =
    elim (Option-cases (server_of aud servers)) [
      | inl e ↦ ground (arith, e, v)
      | inr (s, e) ↦ ground (
        arith,
        e,
        v,
        with_cache-is_valid aud (unlink_entry bucket s.cache) servers v
            (unlink_entry-all_differ bucket s.cache (server_of-all_differ aud s servers v e)),
      )
    ]

pub held-free_bucket_cache :
    (aud g b : ℕ) (servers : List ServerCache)
    → is_valid servers ≡ true
    → held (free_bucket_cache aud servers).servers g b
      ≡ (if aud == g then none else held servers g b)
unfolding free_bucket_cache
held-free_bucket_cache aud g b servers v = elim (Option-cases (server_of aud servers)) [
  | inl e ↦ ground (arith, e, held-none aud b servers e)
  | inr (s, e) ↦ ground (arith, e, held-unlink_server aud g b servers v)
]

pub free_bucket_cache-is_valid :
    (aud : ℕ) (servers : List ServerCache)
    → is_valid servers ≡ true
    → is_valid (free_bucket_cache aud servers).servers ≡ true
unfolding free_bucket_cache
free_bucket_cache-is_valid aud servers v = ground (arith, unlink_server-is_valid aud servers v)

pub lookup-held :
    (m : Memory) (aud b : ℕ) (servers : List ServerCache)
    → lookup_bucket_in_cache m aud b servers
      ≡ elim (held servers aud b) [ none ↦ none | some e ↦ copy_bucket_attributes m e ]
unfolding lookup_bucket_in_cache
lookup-held m aud b servers = elim (Option-cases (server_of aud servers)) [
  | inl e ↦ ground (arith, e, held-none aud b servers e)
  | inr (s, e) ↦ ground (arith, e, held-server_of aud b s servers e)
]
