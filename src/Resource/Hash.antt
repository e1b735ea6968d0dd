-- ===== src/Resource/Hash.antt =====
-- The hash of server/dia/resource.c stays inside the table.
use nas.Prelude.{ℕ, ◌%◌, ◌/◌, ◌^◌, ◌≤◌, ◌<◌, bit_xor, arith}
use nas.Prelude.Bits.{bit_and-mask}
use nas.Resource.{hash}

-- For each size that a table takes, `Hash` is an index of a table of `2 ^ hashsize` buckets.
pub hash-lt : (hashsize id : ℕ) → 6 ≤ hashsize → hashsize ≤ 11 → hash hashsize id < 2 ^ hashsize
unfolding hash
hash-lt hashsize whole lo hi =
    let id : ℕ = whole % 2 ^ 22 in
    ground (
      arith,
      bit_and-mask 6 (bit_xor (bit_xor id (id / 2 ^ 6)) (id / 2 ^ 12)),
      bit_and-mask 7 (bit_xor (bit_xor id (id / 2 ^ 7)) (id / 2 ^ 13)),
      bit_and-mask 8 (bit_xor (bit_xor id (id / 2 ^ 8)) (id / 2 ^ 16)),
      bit_and-mask 9 (bit_xor id (id / 2 ^ 9)),
      bit_and-mask 10 (bit_xor id (id / 2 ^ 10)),
      bit_and-mask 11 (bit_xor id (id / 2 ^ 11)),
    )
