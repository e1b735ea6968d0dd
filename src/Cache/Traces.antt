-- ===== src/Cache/Traces.antt =====
-- Sequences of calls on the bucket cache of lib/audio/bcache.c, from the empty cache on.
use nas.Prelude.{
  ℕ, zero, suc, ◌+◌, take, ◌≡◌, refl, ap, ◌∙◌, true, ◌&&◌, Option, none, some, List, [], ◌∷◌, ◌==◌,
  if◌then◌else◌, arith,
}
use nas.Cache.{
  ServerCache, BucketAttributes, Memory, duplicate, copy_bucket_attributes, add_to_bucket_cache,
  lookup_bucket_in_cache, remove_from_bucket_cache, free_bucket_cache,
}
use nas.Cache.Entries.{is_none, copy-duplicate}
use nas.Cache.Servers.{held, is_valid}
use nas.Cache.Refine.{
  add_to_bucket_cache_lem, add_to_bucket_cache-is_valid, remove_from_bucket_cache_lem,
  remove_from_bucket_cache-is_valid, held-free_bucket_cache, free_bucket_cache-is_valid,
  lookup-held,
}

pub data Call : Type 0 where
  add : ℕ → BucketAttributes → Call
  remove : ℕ → ℕ → Call
  free : ℕ → Call

abbrev pub plenty : Memory
plenty = record { server = true; entry = true; attributes = true; description = true }

abbrev pub called : Call → List ServerCache → List ServerCache
called (add aud a) servers = add_to_bucket_cache plenty aud a servers
called (remove aud bucket) servers = (remove_from_bucket_cache aud bucket servers).servers
called (free aud) servers = (free_bucket_cache aud servers).servers

unfoldable pub calls : List Call → List ServerCache → List ServerCache
calls [] servers = servers
calls (c ∷ rest) servers = calls rest (called c servers)

-- The map: from a server and a bucket to the attributes that were first added and not removed since.
abbrev pub Contents : Type 0
Contents = ℕ → ℕ → Option BucketAttributes

abbrev pub promised : Call → Contents → Contents
promised (add aud a) held g b =
    if aud == g && a.identifier == b && is_none (held g b) then some (duplicate a) else held g b
promised (remove aud bucket) held g b = if aud == g && bucket == b then none else held g b
promised (free aud) held g b = if aud == g then none else held g b

unfoldable pub promises : List Call → Contents → Contents
promises [] held = held
promises (c ∷ rest) held = promises rest (promised c held)

called-promised :
    (c : Call) (servers : List ServerCache)
    → is_valid servers ≡ true
    → (g b : ℕ) → held (called c servers) g b ≡ promised c (held servers) g b
called-promised (add aud a) servers v g b =
    ground (arith, add_to_bucket_cache_lem plenty aud a servers g b)
called-promised (remove aud bucket) servers v g b =
    (remove_from_bucket_cache_lem aud bucket servers v).0 g b
called-promised (free aud) servers v g b = held-free_bucket_cache aud g b servers v

called-is_valid :
    (c : Call) (servers : List ServerCache)
    → is_valid servers ≡ true
    → is_valid (called c servers) ≡ true
called-is_valid (add aud a) servers v = add_to_bucket_cache-is_valid plenty aud a servers v
called-is_valid (remove aud bucket) servers v =
    remove_from_bucket_cache-is_valid aud bucket servers v
called-is_valid (free aud) servers v = free_bucket_cache-is_valid aud servers v

promised-ext :
    (c : Call) (m n : Contents)
    → ((g b : ℕ) → m g b ≡ n g b)
    → (g b : ℕ) → promised c m g b ≡ promised c n g b
promised-ext (add aud a) m n h g b = ground (arith, h g b)
promised-ext (remove aud bucket) m n h g b = ground (arith, h g b)
promised-ext (free aud) m n h g b = ground (arith, h g b)

held-calls :
    (cs : List Call) (servers : List ServerCache) (contents : Contents)
    → is_valid servers ≡ true
    → ((g b : ℕ) → held servers g b ≡ contents g b)
    → (g b : ℕ) → held (calls cs servers) g b ≡ promises cs contents g b
unfolding calls promises
held-calls [] servers contents v h g b = h g b
held-calls (c ∷ cs) servers contents v h g b =
    held-calls cs (called c servers) (promised c contents) (called-is_valid c servers v)
      (λ g b. called-promised c servers v g b ∙ promised-ext c (held servers) contents h g b) g b

abbrev pub nothing : Contents
nothing aud bucket = none

take-take : (n : ℕ) (xs : List ℕ) → take n (take n xs) ≡ take n xs
take-take zero xs = refl
take-take (suc n) [] = refl
take-take (suc n) (x ∷ xs) = ap (λ ys. x ∷ ys) (take-take n xs)

-- A copy of a copy is no shorter.
duplicate-duplicate : (a : BucketAttributes) → duplicate (duplicate a) ≡ duplicate a
duplicate-duplicate a = go a.description
  where
    go :
        (d : Option (List ℕ))
        → duplicate (duplicate (record a { description = d }))
          ≡ duplicate (record a { description = d })
    go none = refl
    go (some d) =
        ap (λ xs. record a { description = some xs }) (take-take (a.description_len + 1) d)

abbrev AreCopies : Contents → Type 0
AreCopies contents = (g b : ℕ) (e : BucketAttributes) → contents g b ≡ some e → duplicate e ≡ e

promised-AreCopies :
    (c : Call) (contents : Contents) → AreCopies contents → AreCopies (promised c contents)
promised-AreCopies (add aud a) contents h g b e at =
    ground (arith, at, h g b e, duplicate-duplicate a)
promised-AreCopies (remove aud bucket) contents h g b e at = ground (arith, at, h g b e)
promised-AreCopies (free aud) contents h g b e at = ground (arith, at, h g b e)

promises-AreCopies :
    (cs : List Call) (contents : Contents) → AreCopies contents → AreCopies (promises cs contents)
unfolding promises
promises-AreCopies [] contents h = h
promises-AreCopies (c ∷ cs) contents h =
    promises-AreCopies cs (promised c contents) (promised-AreCopies c contents h)

held-nothing : (g b : ℕ) → held [] g b ≡ none
unfolding held
held-nothing g b = refl

-- After any sequence of calls that add, remove and free, from the empty cache on and with memory
-- enough for each, _AuLookupBucketInCache gives what the map holds after them, and NULL where it
-- holds nothing.
pub lookup_bucket_in_cache-calls :
    (cs : List Call) (aud b : ℕ)
    → lookup_bucket_in_cache plenty aud b (calls cs []) ≡ promises cs nothing aud b
lookup_bucket_in_cache-calls cs aud b =
    lookup-held plenty aud b (calls cs [])
    ∙ go (held (calls cs []) aud b) (promises cs nothing aud b)
        (held-calls cs [] nothing refl held-nothing aud b)
        (promises-AreCopies cs nothing (λ g b e at. cc) aud b)
  where
    go :
        (m n : Option BucketAttributes)
        → m ≡ n
        → ((e : BucketAttributes) → n ≡ some e → duplicate e ≡ e)
        → elim m [ none ↦ none | some e ↦ copy_bucket_attributes plenty e ] ≡ n
    go m none e h = ground (arith, e)
    go m (some a) e h = ground (arith, e, copy-duplicate plenty a, h a refl)
