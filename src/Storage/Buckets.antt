-- ===== src/Storage/Buckets.antt =====
-- Whether a bucket of ProcAuCreateBucket, server/dia/audispatch.c, fits into what was allocated for it.
use nas.Prelude.{
  Bool, ℕ, ◌+◌, ◌*◌, ◌%◌, ◌^◌, ◌≤◌, ◌<◌, ◌≡◌, sym, subst, ◌⊎◌, some, Option-cases, List, length,
  inl, inr, arith, ◌↔◌,
}
use nas.Attributes.{Request}
use nas.Storage.{
  Machine, Bucket, allocated, sizeof_sample, pad4_word, alloc_size, bucket_size, new_bucket,
  allocate_bucket, wanted_masks,
}

-- What holds of a bucket that was allocated.
pub record WasAllocated (m : Machine) (a : Request) (var_data : List ℕ) (b : Bucket) : Type 0 where
  pub size : ℕ
  pub sized : sizeof_sample a.format ≡ some size
  pub new : b ≡ new_bucket m a size (a.num_samples * size * a.num_tracks % 2 ^ 32)
  pub wanted : a.value_mask ≡ wanted_masks
  pub described : length var_data ≡ pad4_word a.description_len

pub allocate_bucket-WasAllocated :
    (m : Machine) (granted whole : Bool) (a : Request) (var_data : List ℕ) (b : Bucket)
    → allocate_bucket m granted whole a var_data ≡ some (allocated b)
    → WasAllocated m a var_data b
unfolding allocate_bucket
allocate_bucket-WasAllocated m granted whole a var_data b h =
    elim (Option-cases (sizeof_sample a.format)) [
      | inl e ↦ absurd (ground (arith, e, h))
      | inr (size, e) ↦ record {
        size = size;
        sized = e;
        new = ground (arith, e, h);
        wanted = ground (arith, e, h);
        described = ground (arith, e, h);
      }
    ]

sum_fits :
    (header d len : ℕ)
    → d + 3 < 2 ^ 32
    → len + 3 < 2 ^ 32
    → header + pad4_word len < 2 ^ 32
    → (header + d ≤ (header + pad4_word d + pad4_word len) % 2 ^ 32)
      ↔ (header + pad4_word d + pad4_word len < 2 ^ 32)
sum_fits header d len small short space = (λ le. omega arith, λ lt. omega arith)

allocated-sum :
    (m : Machine) (d len : ℕ)
    → (m.size_bits ≡ 32) ⊎ (m.size_bits ≡ 64)
    → alloc_size (bucket_size m d len) ≡ (m.header + pad4_word d + pad4_word len) % 2 ^ 32
allocated-sum m d len (inl e) =
    subst
      (λ w.
        (m.header + pad4_word d + pad4_word len) % 2 ^ w % 2 ^ 32
        ≡ (m.header + pad4_word d + pad4_word len) % 2 ^ 32)
      (sym e) (omega arith)
allocated-sum m d len (inr e) =
    subst
      (λ w.
        (m.header + pad4_word d + pad4_word len) % 2 ^ w % 2 ^ 32
        ≡ (m.header + pad4_word d + pad4_word len) % 2 ^ 32)
      (sym e) (omega arith)

-- ProcAuCreateBucket, on a machine with a size_t of 32 or of 64 bits: if the checks of the request
-- are passed and a bucket is allocated, and neither the data nor the description come within 3 bytes of
-- 2 ^ 32, and the record and the description need less than 2 ^ 32 bytes, then the data lie inside what
-- was allocated exactly where the record, the data and the description need less than 2 ^ 32 bytes;
-- nothing checks that.
pub allocate_bucket-fits_iff :
    (m : Machine) (granted whole : Bool) (a : Request) (var_data : List ℕ) (b : Bucket)
    → (m.size_bits ≡ 32) ⊎ (m.size_bits ≡ 64)
    → allocate_bucket m granted whole a var_data ≡ some (allocated b)
    → b.data_size + 3 < 2 ^ 32
    → a.description_len + 3 < 2 ^ 32
    → m.header + pad4_word a.description_len < 2 ^ 32
    → (b.data_end ≤ b.allocated)
      ↔ (m.header + pad4_word b.data_size + pad4_word a.description_len < 2 ^ 32)
allocate_bucket-fits_iff m granted whole a var_data b bits h small short space =
    let w = allocate_bucket-WasAllocated m granted whole a var_data b h in
    let d : ℕ = a.num_samples * w.size * a.num_tracks % 2 ^ 32 in
    let new : b ≡ new_bucket m a w.size d = w.new in
    subst
      (λ c.
        (c.data_end ≤ c.allocated)
        ↔ (m.header + pad4_word c.data_size + pad4_word a.description_len < 2 ^ 32))
      (sym new)
      (subst
        (λ n. (m.header + d ≤ n) ↔ (m.header + pad4_word d + pad4_word a.description_len < 2 ^ 32))
        (sym (allocated-sum m d a.description_len bits))
        (sum_fits m.header d a.description_len (subst (λ c. c.data_size + 3 < 2 ^ 32) new small)
          short space))
