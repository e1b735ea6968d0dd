-- ===== src/Resource/Classes.antt =====
-- CreateNewResourceType and CreateNewResourceClass of server/dia/resource.c: types count up from 0,
-- classes are single bits that go down, and the two never meet.
use nas.Prelude.{ℕ, suc, ◌+◌, ◌^◌, ◌≤◌, ◌<◌, ◌≡◌, ◌⊎◌, inl, inr, ◌/◌, true, arith}
use nas.Prelude.Bits.{bit_and-bit_low, bit_and-bit_high}
use native.Mathlib.Decide.{dec_lt}
use native.Mathlib.Nat.{pow-suc, one-le-pow}
use nas.Resource.{Server}
use nas.Resource.Create.{create_new_resource_type, create_new_resource_class}

-- A new type is the next number, unless that is the lowest class: then 0 is returned and nothing
-- changes.
pub create_new_resource_type_lem :
    (s : Server) (k : ℕ)
    → s.last_class ≡ 2 ^ k
    → s.last_type < 2 ^ k
    → let (s', type) = create_new_resource_type true s in
      (s.last_type + 1 < 2 ^ k)
        × (type ≡ s.last_type + 1)
        × (s' ≡ record s { last_type = s.last_type + 1 })
      ⊎ (s.last_type + 1 ≡ 2 ^ k) × (type ≡ 0) × (s' ≡ s)
unfolding create_new_resource_type
create_new_resource_type_lem s k c t = elim (dec_lt (s.last_type + 1) (2 ^ k)) [
  | yes lt ↦ inl (ground (arith, bit_and-bit_low k (s.last_type + 1) lt))
  | no ge ↦ inr (ground (arith, one-le-pow k 2, pow-suc 2 k, bit_and-bit_high k (s.last_type + 1)))
]

-- A new class is the next lower bit, unless a type has it: then 0 is returned and nothing changes.
pub create_new_resource_class_lem :
    (s : Server) (k : ℕ)
    → s.last_class ≡ 2 ^ suc k
    → s.last_type < 2 ^ suc k
    → let (s', class) = create_new_resource_class s in
      (s.last_type < 2 ^ k) × (class ≡ 2 ^ k) × (s' ≡ record s { last_class = 2 ^ k })
      ⊎ (2 ^ k ≤ s.last_type) × (class ≡ 0) × (s' ≡ s)
unfolding create_new_resource_class
create_new_resource_class_lem s k c t = elim (dec_lt s.last_type (2 ^ k)) [
  | yes lt ↦ inl (ground (arith, half, bit_and-bit_low k s.last_type lt))
  | no ge ↦ inr (ground (arith, half, one-le-pow k 2, bit_and-bit_high k s.last_type))
]
  where
    half : s.last_class / 2 ≡ 2 ^ k
    half = omega (arith, pow-suc 2 k)
