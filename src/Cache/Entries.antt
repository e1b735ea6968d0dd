-- ===== src/Cache/Entries.antt =====
-- The entries of one server in the bucket cache of lib/audio/bcache.c: no two have one identifier.
use nas.Prelude.{
  ℕ, ◌≡◌, refl, Bool, true, false, ◌&&◌, ◌||◌, Option, none, some, List, [], ◌∷◌, ◌==◌,
  if◌then◌else◌, arith,
}
use nas.Cache.{
  BucketAttributes, Memory, duplicate, copy_bucket_attributes, entry_of, add_entry, unlink_entry,
}

abbrev pub is_none {ℓ} : {A : Type ℓ} → Option A → Bool
is_none none = true
is_none (some a) = false

abbrev pub all_differ : List BucketAttributes → Bool
all_differ [] = true
all_differ (e ∷ rest) = is_none (entry_of e.identifier rest) && all_differ rest

entry_of-none : (bucket : ℕ) (o : Option BucketAttributes) → is_none o ≡ true → o ≡ none
entry_of-none bucket none h = refl
entry_of-none bucket (some e) h = cc

pub entry_of-unlink_entry :
    (bucket b : ℕ) (es : List BucketAttributes)
    → all_differ es ≡ true
    → entry_of b (unlink_entry bucket es) ≡ (if bucket == b then none else entry_of b es)
unfolding entry_of unlink_entry
entry_of-unlink_entry bucket b [] h = ground arith
entry_of-unlink_entry bucket b (e ∷ es) h =
    ground (arith, entry_of-unlink_entry bucket b es, entry_of-none b (entry_of e.identifier es))

pub unlink_entry-all_differ :
    (bucket : ℕ) (es : List BucketAttributes)
    → all_differ es ≡ true
    → all_differ (unlink_entry bucket es) ≡ true
unfolding unlink_entry
unlink_entry-all_differ bucket [] h = refl
unlink_entry-all_differ bucket (e ∷ es) h =
    ground (arith, unlink_entry-all_differ bucket es, entry_of-unlink_entry bucket e.identifier es)

-- Whether the memory is enough for a copy.
abbrev pub has_room : Memory → BucketAttributes → Bool
has_room m a = m.attributes && (is_none a.description || m.description)

pub copy-duplicate :
    (m : Memory) (a : BucketAttributes)
    → copy_bucket_attributes m a ≡ (if has_room m a then some (duplicate a) else none)
unfolding copy_bucket_attributes
copy-duplicate m a = ground arith

pub add_entry-all_differ :
    (m : Memory) (a : BucketAttributes) (es : List BucketAttributes)
    → all_differ es ≡ true
    → all_differ (add_entry m a es) ≡ true
unfolding add_entry
add_entry-all_differ m a es h = ground (arith, copy-duplicate m a)

-- The entry of the bucket stays if there is one, and is else a copy if there is memory.
pub entry_of-add_entry :
    (m : Memory) (a : BucketAttributes) (b : ℕ) (es : List BucketAttributes)
    → entry_of b (add_entry m a es) ≡ (
        if a.identifier == b && is_none (entry_of b es) && m.entry && has_room m a
        then some (duplicate a)
        else entry_of b es)
unfolding add_entry entry_of
entry_of-add_entry m a b es = ground (arith, copy-duplicate m a)
