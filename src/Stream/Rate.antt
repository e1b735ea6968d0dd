-- ===== src/Stream/Rate.antt =====
-- The rate converters of server/dia/auprocess.c: rc_x and rcNull.
use nas.Prelude.{
  ℕ, zero, suc, ◌+◌, ◌-◌, ◌*◌, ◌/◌, ◌%◌, ◌^◌, min, [], ◌∷◌, length, take, drop, ltb, leb,
  if◌then◌else◌,
}
use nas.Stream.{Rate}

-- At NEXT: the frames passed over, and `c` after it, with what is left over where they run out.
abbrev pub skip_count : ℕ → ℕ → ℕ
skip_count c avail = if ltb avail (c / 2 ^ 16) then avail else c / 2 ^ 16

abbrev pub skip_rest : ℕ → ℕ → ℕ
skip_rest c avail =
    if ltb avail (c / 2 ^ 16) then c % 2 ^ 16 + (c / 2 ^ 16 - avail) * 2 ^ 16 else c % 2 ^ 16

-- The loop.
unfoldable pub resample : ℕ → Rate
resample n zero c s = record { out = []; current = c; used = 0 }
resample n (suc want) c [] = record { out = []; current = c; used = 0 }
resample n (suc want) c (x ∷ xs) =
    let c' = (c + n) % 2 ^ 32 in
    let inc = skip_count c' (length (x ∷ xs)) in
    let rest = resample n want (skip_rest c' (length (x ∷ xs))) (drop inc (x ∷ xs)) in
    record { out = x ∷ rest.out; current = rest.current; used = inc + rest.used }

-- A `c` that is left over from the last call is passed over first.
unfoldable pub rate_convert : ℕ → Rate
rate_convert n want c s =
    let inc = skip_count c (length s) in
    let rest = resample n want (skip_rest c (length s)) (drop inc s) in
    if leb (2 ^ 16) c then record rest { used = inc + rest.used } else resample n want c s

unfoldable pub rate_null : Rate
rate_null want c s =
    let size = min want (length s) in record { out = take size s; current = c; used = size }
