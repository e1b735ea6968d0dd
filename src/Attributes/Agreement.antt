-- ===== src/Attributes/Agreement.antt =====
-- After AuSetComponentAttributes of server/dia/auutil.c the comparisons of AuMatchAttributes with
-- the same request succeed, one by one.
use nas.Prelude.{
  ℕ, zero, suc, ◌^◌, ◌≤◌, ◌<◌, ◌≡◌, refl, sym, subst, true, false, List, [], ◌∷◌, ◌++◌, take, drop,
  length, ◌==◌, if◌then◌else◌, arith,
}
use nas.Prelude.Bits.{bit_and_self}
use nas.Attributes.{
  Component, Request, walk, is_device, bucket_kind, common_bits, device_bits, bucket_bits,
  common_masks, bucket_masks, device_masks, common_use, common_access, common_description,
  set_common, set_bucket, set_device, write_attributes,
}
use nas.Attributes.Bits.{bit, walk-at, walk-keeps}
use nas.Attributes.Match.{strings_agree, agrees_common, agrees_bucket}

nothing_above : (n : ℕ) → suc n ≤ 0 → ⊥
nothing_above n le = omega arith

strings_agree-take :
    (n : ℕ) (xs old : List ℕ) → n ≤ length xs → strings_agree n (take n xs ++ old) xs ≡ true
unfolding strings_agree
strings_agree-take zero xs old le = refl
strings_agree-take (suc n) [] old le = elim (nothing_above n le) [ ]
strings_agree-take (suc n) (x ∷ xs) old le = ground (arith, strings_agree-take n xs old)

-- What the case of a bit needs of the request: a use with a bit in it, an access with a bit in it
-- and none above the 8th, all the bytes of the description.
abbrev pub IsReady : Request → List ℕ → ℕ → Type 0
IsReady a var_data j =
    (j ≡ common_use → 1 ≤ a.use_mask)
    × (j ≡ common_access → (1 ≤ a.access) × (a.access < 2 ^ 8))
    × (j ≡ common_description → a.description_len ≤ length var_data)

abbrev pub IsComplete : Request → List ℕ → Type 0
IsComplete a var_data = (j : ℕ) → bit j (common_masks a.value_mask) ≡ true → IsReady a var_data j

agrees-set_common :
    (a : Request) (var_data : List ℕ) (j : ℕ) (c : Component)
    → IsReady a var_data j
    → agrees_common a var_data j (set_common a var_data j c) ≡ true
unfolding agrees_common set_common
agrees-set_common a var_data j c ready = ground (
  arith,
  ready.0,
  ready.1,
  ready.2,
  bit_and_self a.use_mask,
  bit_and_self a.access,
  strings_agree-take a.description_len var_data (drop a.description_len c.description.string),
)

agrees-set_common_later :
    (a : Request) (var_data : List ℕ) (j i : ℕ) (c : Component)
    → j < i
    → agrees_common a var_data j (set_common a var_data i c) ≡ agrees_common a var_data j c
unfolding agrees_common set_common
agrees-set_common_later a var_data j i c lt = ground arith

agrees_common-set_bucket :
    (a : Request) (var_data : List ℕ) (j i : ℕ) (c : Component)
    → agrees_common a var_data j (set_bucket a i c) ≡ agrees_common a var_data j c
unfolding agrees_common set_bucket
agrees_common-set_bucket a var_data j i c = ground arith

agrees-set_bucket :
    (a : Request) (j : ℕ) (c : Component) → agrees_bucket a j (set_bucket a j c) ≡ true
unfolding agrees_bucket set_bucket
agrees-set_bucket a j c = ground arith

agrees-set_bucket_later :
    (a : Request) (j i : ℕ) (c : Component)
    → j < i
    → agrees_bucket a j (set_bucket a i c) ≡ agrees_bucket a j c
unfolding agrees_bucket set_bucket
agrees-set_bucket_later a j i c lt = ground arith

set_bucket-kind : (a : Request) (i : ℕ) (c : Component) → (set_bucket a i c).kind ≡ c.kind
unfolding set_bucket
set_bucket-kind a i c = ground arith

set_device-kind : (a : Request) (i : ℕ) (c : Component) → (set_device a i c).kind ≡ c.kind
unfolding set_device
set_device-kind a i c = ground arith

-- The component after the common masks.
abbrev pub common_set : Request → List ℕ → Component → Component
common_set a var_data c = walk (set_common a var_data) common_bits (common_masks a.value_mask) 0 c

abbrev buckets_set : Request → Component → Component
buckets_set a c = walk (set_bucket a) bucket_bits (bucket_masks a.value_mask) 0 c

pub set-kind :
    (a : Request) (var_data : List ℕ) (c : Component)
    → (write_attributes a var_data c).kind ≡ (common_set a var_data c).kind
unfolding write_attributes
set-kind a var_data c = ground (
  arith,
  walk-keeps (set_device a) (λ s. s.kind) (set_device-kind a) device_bits
      (device_masks a.value_mask) 0 (common_set a var_data c),
  walk-keeps (set_bucket a) (λ s. s.kind) (set_bucket-kind a) bucket_bits
      (bucket_masks a.value_mask) 0 (common_set a var_data c),
)

-- Without a device, what the loops have made.
not_device :
    (a : Request) (var_data : List ℕ) (c : Component)
    → is_device (write_attributes a var_data c).kind ≡ false
    → write_attributes a var_data c ≡ (
        if (common_set a var_data c).kind == bucket_kind
        then buckets_set a (common_set a var_data c)
        else common_set a var_data c)
unfolding write_attributes
not_device a var_data c h = go (subst (λ k. is_device k ≡ false) (set-kind a var_data c) h)
  where
    go :
        is_device (common_set a var_data c).kind ≡ false
        → write_attributes a var_data c ≡ (
            if (common_set a var_data c).kind == bucket_kind
            then buckets_set a (common_set a var_data c)
            else common_set a var_data c)
    go e = ground (arith, e)

-- The comparison of each bit that is set succeeds.
pub agrees_common-set :
    (a : Request) (var_data : List ℕ) (c : Component)
    → IsComplete a var_data
    → is_device (write_attributes a var_data c).kind ≡ false
    → (j : ℕ) → j < common_bits
    → bit j (common_masks a.value_mask) ≡ true
    → agrees_common a var_data j (write_attributes a var_data c) ≡ true
agrees_common-set a var_data c complete h j lt on = ground (
  arith,
  not_device a var_data c h,
  walk-at (set_common a var_data) (agrees_common a var_data j) true j
      (λ s. agrees-set_common a var_data j s (complete j on))
      (λ i s. agrees-set_common_later a var_data j i s) j common_bits (common_masks a.value_mask) 0
      c (omega arith) lt on,
  walk-keeps (set_bucket a) (agrees_common a var_data j) (agrees_common-set_bucket a var_data j)
      bucket_bits (bucket_masks a.value_mask) 0 (common_set a var_data c),
)

pub agrees_bucket-set :
    (a : Request) (var_data : List ℕ) (c : Component)
    → (write_attributes a var_data c).kind ≡ bucket_kind
    → (j : ℕ) → j < bucket_bits
    → bit j (bucket_masks a.value_mask) ≡ true
    → agrees_bucket a j (write_attributes a var_data c) ≡ true
agrees_bucket-set a var_data c h j lt on = ground (
  arith,
  not_device a var_data c (subst (λ k. is_device k ≡ false) (sym h) refl),
  set-kind a var_data c,
  walk-at (set_bucket a) (agrees_bucket a j) true j (λ s. agrees-set_bucket a j s)
      (λ i s. agrees-set_bucket_later a j i s) j bucket_bits (bucket_masks a.value_mask) 0
      (common_set a var_data c) (omega arith) lt on,
)
