-- ===== src/Attributes/SetMatch.antt =====
-- A bucket whose attributes are set from a request matches it:
-- AuSetComponentAttributes and AuMatchAttributes of server/dia/auutil.c.
use nas.Prelude.{
  some, none, ap, leb, length, ◌⊎◌, ◌%◌, ◌/◌, ◌^◌, ℕ, suc, ◌+◌, ◌≤◌, ◌<◌, ◌≡◌, refl, subst, true,
  false, List, ◌==◌, ==_iff, Bool-cases, inl, inr, arith,
}
use nas.Attributes.{
  Component, Request, walk, is_device, bucket_kind, common_bits, bucket_bits, common_masks,
  bucket_masks, common_description, write_attributes, sets_description, set_component_attributes,
}
use nas.Attributes.Bits.{bit, walk-through}
use nas.Attributes.Match.{
  Compared, Hardware, agrees_common, agrees_bucket, match_common, match_bucket, all_to_compare,
  match_attributes,
}
use nas.Attributes.Agreement.{IsComplete, agrees_common-set, agrees_bucket-set}

-- What the comparison of the common masks keeps while it succeeds.
abbrev Agrees : Component → List ℕ → ℕ → Compared → Type 0
Agrees c var_data i s =
    (s.matches ≡ true) × (s.component ≡ c) × (i ≤ common_description → s.var_data ≡ var_data)

match_common-Agrees :
    (a : Request) (var_data : List ℕ) (c : Component) (j : ℕ) (s : Compared)
    → agrees_common a var_data j c ≡ true
    → j < common_bits
    → Agrees c var_data j s
    → Agrees c var_data (suc j) (match_common a j s)
unfolding match_common
match_common-Agrees a var_data c j s e lt p =
    (ground (arith, p.0, p.1, p.2 (omega arith), e), ground (arith, p.1), λ le. ground (arith, p.2))

match_bucket-Agrees :
    (a : Request) (c : Component) (j : ℕ) (s : Compared)
    → agrees_bucket a j c ≡ true
    → (s.matches ≡ true) × (s.component ≡ c)
    → ((match_bucket a j s).matches ≡ true) × ((match_bucket a j s).component ≡ c)
unfolding match_bucket
match_bucket-Agrees a c j s e p = (ground (arith, p.0, p.1, e), ground (arith, p.1))

from_end : (k : ℕ) → k ≡ k + 0
from_end k = omega arith

common-compared :
    (a : Request) (var_data : List ℕ) (c : Component)
    → ((j : ℕ)
        → j < common_bits
        → bit j (common_masks a.value_mask) ≡ true
        → agrees_common a var_data j c ≡ true)
    → Agrees c var_data common_bits (
        walk (match_common a) common_bits (common_masks a.value_mask) 0 (all_to_compare c var_data))
common-compared a var_data c agrees =
    walk-through (Agrees c var_data) (match_common a) (λ i s p. (p.0, p.1, λ le. p.2 (omega arith)))
      common_bits (common_masks a.value_mask) 0
      (λ k lt on s p.
        match_common-Agrees a var_data c (k + 0) s
          (subst (λ n. agrees_common a var_data n c ≡ true) (from_end k) (agrees k lt on))
          (omega arith) p)
      (all_to_compare c var_data) (refl, refl, λ le. refl)

bucket-compared :
    (a : Request) (c : Component) (s : Compared)
    → ((j : ℕ)
        → j < bucket_bits
        → bit j (bucket_masks a.value_mask) ≡ true
        → agrees_bucket a j c ≡ true)
    → (s.matches ≡ true) × (s.component ≡ c)
    → (walk (match_bucket a) bucket_bits (bucket_masks a.value_mask) 0 s).matches ≡ true
bucket-compared a c s agrees p =
    (walk-through (λ i t. (t.matches ≡ true) × (t.component ≡ c)) (match_bucket a) (λ i t q. q)
      bucket_bits (bucket_masks a.value_mask) 0
      (λ k lt on t q.
        match_bucket-Agrees a c (k + 0) t
          (subst (λ n. agrees_bucket a n c ≡ true) (from_end k) (agrees k lt on)) q)
      s p).0

matched :
    (h : Hardware) (a : Request) (var_data : List ℕ) (c : Component)
    → is_device c.kind ≡ false
    → (c.kind ≡ bucket_kind
        → (j : ℕ) → j < bucket_bits
        → bit j (bucket_masks a.value_mask) ≡ true
        → agrees_bucket a j c ≡ true)
    → Agrees c var_data common_bits (
        walk (match_common a) common_bits (common_masks a.value_mask) 0 (all_to_compare c var_data))
    → (match_attributes h a var_data c).matches ≡ true
unfolding match_attributes
matched h a var_data c other agrees common = elim (Bool-cases (c.kind == bucket_kind)) [
  | inl e ↦ ground (
    arith,
    other,
    e,
    bucket-compared a c
        (walk (match_common a) common_bits (common_masks a.value_mask) 0
          (all_to_compare c var_data))
        (agrees ((==_iff c.kind bucket_kind).0 e)) (common.0, common.1),
  )
  | inr e ↦ ground (arith, other, e, common.0)
]

pub match_attributes-write_attributes :
    (h : Hardware) (a : Request) (var_data : List ℕ) (c : Component)
    → IsComplete a var_data
    → is_device (write_attributes a var_data c).kind ≡ false
    → (match_attributes h a var_data (write_attributes a var_data c)).matches ≡ true
match_attributes-write_attributes h a var_data c complete other =
    matched h a var_data (write_attributes a var_data c) other (agrees_bucket-set a var_data c) (
      common-compared a var_data (write_attributes a var_data c)
        (agrees_common-set a var_data c complete other))

six_bits : (mask : ℕ) → mask % 2 ^ 7 / 2 / 2 / 2 / 2 / 2 / 2 % 2 ≡ mask / 2 ^ 6 % 2
six_bits mask = omega arith

bit-sets_description :
    (a : Request) → bit common_description (common_masks a.value_mask) ≡ sets_description a
unfolding bit
bit-sets_description a = ap (λ n. n == 1) (six_bits a.value_mask)

-- Where the copy of the description is inside of memory and where it is outside.
set_component_attributes_lem :
    (a : Request) (var_data : List ℕ) (c : Component)
    → IsComplete a var_data
    → ((set_component_attributes a var_data c ≡ some (write_attributes a var_data c))
        × ((bit common_description (common_masks a.value_mask) ≡ false)
            ⊎ (a.description_len ≤ length c.description.string)))
      ⊎ ((set_component_attributes a var_data c ≡ none)
          × (bit common_description (common_masks a.value_mask) ≡ true)
          × (length c.description.string < a.description_len))
unfolding set_component_attributes
set_component_attributes_lem a var_data c complete =
    let same = bit-sets_description a in
    elim (Bool-cases (bit common_description (common_masks a.value_mask))) [
      | inl on ↦
          (let whole : a.description_len ≤ length var_data =
              (complete common_description on).2 refl in
            elim (Bool-cases (leb a.description_len (length c.description.string))) [
              | inl q ↦ inl (ground (arith, same, on, whole, q), inr (ground (arith, q)))
              | inr q ↦ inr (ground (arith, same, on, whole, q), on, ground (arith, q))
            ])
      | inr off ↦ inl (ground (arith, same, off), inl off)
    ]

-- If the request has all the bytes of a description that it sets, and sets neither an empty use nor an
-- access that is empty or needs more than 8 bits, and the component would not be a device then, then
-- either the request sets no description or the string of the component has memory for it, and
-- AuSetComponentAttributes comes to an end, and the component whose attributes it has set matches the
-- request in AuMatchAttributes; or the request sets a description that is longer than the memory of the
-- string, and it is written outside.
pub match_attributes-set_component_attributes :
    (h : Hardware) (a : Request) (var_data : List ℕ) (c : Component)
    → IsComplete a var_data
    → is_device (write_attributes a var_data c).kind ≡ false
    → ((c' : Component) × (set_component_attributes a var_data c ≡ some c')
        × ((match_attributes h a var_data c').matches ≡ true)
        × ((bit common_description (common_masks a.value_mask) ≡ false)
            ⊎ (a.description_len ≤ length c.description.string)))
      ⊎ ((set_component_attributes a var_data c ≡ none)
          × (bit common_description (common_masks a.value_mask) ≡ true)
          × (length c.description.string < a.description_len))
match_attributes-set_component_attributes h a var_data c complete other =
    elim (set_component_attributes_lem a var_data c complete) [
      | inl (runs, inside) ↦ inl (
        write_attributes a var_data c,
        runs,
        match_attributes-write_attributes h a var_data c complete other,
        inside,
      )
      | inr out ↦ inr out
    ]
