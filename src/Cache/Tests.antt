-- ===== src/Cache/Tests.antt =====
-- Two servers with a bucket each, one of them removed, and the theorems at them.
use nas.Prelude.{◌≡◌, refl, false, none, some, List, [], ◌∷◌}
use nas.Cache.{
  BucketAttributes, ServerCache, Memory, add_to_bucket_cache, lookup_bucket_in_cache, server_of,
  entry_of, with_cache, add_entry, copy_bucket_attributes, unlink_entry, remove_from_bucket_cache,
  free_bucket_cache, unlink_server,
}
use nas.Cache.Traces.{
  Call, add, remove, free, plenty, calls, promises, nothing, lookup_bucket_in_cache-calls,
}

abbrev bell : BucketAttributes
bell = record {
  identifier = 5;
  description_len = 1;
  description = some (98 ∷ 0 ∷ 77 ∷ []);
  others = 8000 ∷ [];
}

abbrev horn : BucketAttributes
horn = record { identifier = 6; description_len = 0; description = none; others = [] }

abbrev some_calls : List Call
some_calls = add 1 bell ∷ add 2 horn ∷ add 1 horn ∷ remove 1 6 ∷ free 2 ∷ []

abbrev both : List ServerCache
both = record { aud = 2; cache = horn ∷ [] } ∷ record { aud = 1; cache = horn ∷ bell ∷ [] } ∷ []

bell_found :
    lookup_bucket_in_cache plenty 1 5 (calls some_calls [])
    ≡ some (record bell { description = some (98 ∷ 0 ∷ []) })
unfolding calls add_to_bucket_cache lookup_bucket_in_cache server_of entry_of with_cache add_entry
    copy_bucket_attributes unlink_entry remove_from_bucket_cache free_bucket_cache unlink_server
bell_found = refl

lookup_bucket_in_cache-calls_example :
    lookup_bucket_in_cache plenty 1 5 (calls some_calls []) ≡ promises some_calls nothing 1 5
lookup_bucket_in_cache-calls_example = lookup_bucket_in_cache-calls some_calls 1 5

-- No memory for the description.
abbrev tight : Memory
tight = record plenty { description = false }
