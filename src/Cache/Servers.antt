-- ===== src/Cache/Servers.antt =====
-- The bucket cache of lib/audio/bcache.c as a map from a server and a bucket to the attributes, and
-- its well-formedness: one record for each server, one entry for each bucket.
use nas.Prelude.{
  ℕ, ◌≡◌, refl, Bool, true, ◌&&◌, Option, none, some, List, [], ◌∷◌, ◌==◌, if◌then◌else◌, arith,
}
use nas.Cache.{ServerCache, BucketAttributes, server_of, entry_of, with_cache, unlink_server}
use nas.Cache.Entries.{is_none, all_differ}

unfoldable pub held : List ServerCache → ℕ → ℕ → Option BucketAttributes
held [] aud bucket = none
held (s ∷ rest) aud bucket = if s.aud == aud then entry_of bucket s.cache else held rest aud bucket

abbrev pub is_valid : List ServerCache → Bool
is_valid [] = true
is_valid (s ∷ rest) = is_none (server_of s.aud rest) && all_differ s.cache && is_valid rest

pub held-with_cache :
    (aud g b : ℕ) (es : List BucketAttributes) (s : ServerCache) (ss : List ServerCache)
    → server_of aud ss ≡ some s
    → held (with_cache aud es ss) g b ≡ (if aud == g then entry_of b es else held ss g b)
unfolding held with_cache server_of
held-with_cache aud g b es s [] h = cc
held-with_cache aud g b es s (t ∷ ss) h = ground (arith, held-with_cache aud g b es s ss)

pub held-server_of :
    (aud b : ℕ) (s : ServerCache) (ss : List ServerCache)
    → server_of aud ss ≡ some s
    → held ss aud b ≡ entry_of b s.cache
unfolding held server_of
held-server_of aud b s [] h = cc
held-server_of aud b s (t ∷ ss) h = ground (arith, held-server_of aud b s ss)

pub held-none : (aud b : ℕ) (ss : List ServerCache) → server_of aud ss ≡ none → held ss aud b ≡ none
unfolding held server_of
held-none aud b [] h = refl
held-none aud b (t ∷ ss) h = ground (arith, held-none aud b ss)

server_of-with_cache :
    (aud g : ℕ) (es : List BucketAttributes) (ss : List ServerCache)
    → is_none (server_of g (with_cache aud es ss)) ≡ is_none (server_of g ss)
unfolding with_cache server_of
server_of-with_cache aud g es [] = refl
server_of-with_cache aud g es (t ∷ ss) = ground (arith, server_of-with_cache aud g es ss)

pub with_cache-is_valid :
    (aud : ℕ) (es : List BucketAttributes) (ss : List ServerCache)
    → is_valid ss ≡ true
    → all_differ es ≡ true
    → is_valid (with_cache aud es ss) ≡ true
unfolding with_cache
with_cache-is_valid aud es [] h d = refl
with_cache-is_valid aud es (t ∷ ss) h d =
    ground (arith, with_cache-is_valid aud es ss, server_of-with_cache aud t.aud es ss)

pub server_of-all_differ :
    (aud : ℕ) (s : ServerCache) (ss : List ServerCache)
    → is_valid ss ≡ true
    → server_of aud ss ≡ some s
    → all_differ s.cache ≡ true
unfolding server_of
server_of-all_differ aud s [] v h = cc
server_of-all_differ aud s (t ∷ ss) v h = ground (arith, server_of-all_differ aud s ss)

is_none-server_of : (aud : ℕ) (o : Option ServerCache) → is_none o ≡ true → o ≡ none
is_none-server_of aud none h = refl
is_none-server_of aud (some s) h = cc

pub held-unlink_server :
    (aud g b : ℕ) (ss : List ServerCache)
    → is_valid ss ≡ true
    → held (unlink_server aud ss) g b ≡ (if aud == g then none else held ss g b)
unfolding held unlink_server
held-unlink_server aud g b [] v = ground arith
held-unlink_server aud g b (t ∷ ss) v = ground (
  arith,
  held-unlink_server aud g b ss,
  held-none t.aud b ss,
  is_none-server_of t.aud (server_of t.aud ss),
)

server_of-unlink_server :
    (aud g : ℕ) (ss : List ServerCache)
    → is_none (server_of g ss) ≡ true
    → is_none (server_of g (unlink_server aud ss)) ≡ true
unfolding server_of unlink_server
server_of-unlink_server aud g [] h = refl
server_of-unlink_server aud g (t ∷ ss) h = ground (arith, server_of-unlink_server aud g ss)

pub unlink_server-is_valid :
    (aud : ℕ) (ss : List ServerCache) → is_valid ss ≡ true → is_valid (unlink_server aud ss) ≡ true
unfolding unlink_server
unlink_server-is_valid aud [] v = refl
unlink_server-is_valid aud (t ∷ ss) v =
    ground (arith, unlink_server-is_valid aud ss, server_of-unlink_server aud t.aud ss)
