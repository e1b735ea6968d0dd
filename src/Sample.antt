-- ===== src/Sample.antt =====
-- Conversion between the sample formats in the server's mini-buffers, server/dia/auprocess.c. A
-- buffer is the list of its bytes, and a 16-bit sample is its bit pattern, at two bytes that `big`
-- puts in the machine's order. `none` is an access outside the buffer. `count` is
-- `numSamples * tracks`.
pub mod Ulaw
pub mod Convert
pub mod Loops
pub mod Rework
pub mod Encode
pub mod Client
pub mod ClientTrip
pub mod RoundTrip
mod Tests
use nas.Prelude.{
  ℕ, zero, suc, ◌+◌, ◌*◌, ◌/◌, ◌%◌, Bool, true, false, Option, none, some, List, ltb, if◌then◌else◌,
  get_elem?, set, length,
}

infixl 5 ◌>>=◌
abbrev pub ◌>>=◌ {ℓ κ} : {A : Type ℓ} {B : Type κ} → Option A → (A → Option B) → Option B
none >>= f = none
some a >>= f = f a

abbrev pub Buffer : Type 0
Buffer = List ℕ

abbrev pub load8 : Buffer → ℕ → Option ℕ
load8 m i = get_elem? m i

abbrev pub store8 : Buffer → ℕ → ℕ → Option Buffer
store8 m i v = if ltb i (length m) then some (set m i v) else none

abbrev pub join16 : Bool → ℕ → ℕ → ℕ
join16 big a b = if big then a * 256 + b else b * 256 + a

abbrev pub first_byte : Bool → ℕ → ℕ
first_byte big v = if big then v / 256 % 256 else v % 256

abbrev pub second_byte : Bool → ℕ → ℕ
second_byte big v = if big then v % 256 else v / 256 % 256

abbrev pub load16 : Bool → Buffer → ℕ → Option ℕ
load16 big m i = do a ← load8 m i; b ← load8 m (i + 1); some (join16 big a b)

abbrev pub store16 : Bool → Buffer → ℕ → ℕ → Option Buffer
store16 big m i v = do m' ← store8 m i (first_byte big v); store8 m' (i + 1) (second_byte big v)

-- The loops that grow 8-bit samples to 16 bits in place, from the last sample down; the number
-- left is one more than the index of the next sample.
unfoldable pub expand : Bool → (ℕ → ℕ) → ℕ → Buffer → Option Buffer
expand big f zero m = some m
expand big f (suc i) m = do x ← load8 m i; m' ← store16 big m (2 * i) (f x); expand big f i m'

-- The loops that shrink 16-bit samples to 8 bits in place, from the first sample up.
unfoldable pub compress : Bool → (ℕ → ℕ) → ℕ → ℕ → Buffer → Option Buffer
compress big f zero i m = some m
compress big f (suc left) i m = do
  x ← load16 big m (2 * i)
  m' ← store8 m i (f x)
  compress big f left (i + 1) m'

-- The loops that change 16-bit samples in place, byte by byte.
unfoldable pub rework : (ℕ → ℕ → ℕ × ℕ) → ℕ → ℕ → Buffer → Option Buffer
rework f zero i m = some m
rework f (suc left) i m = do
  a ← load8 m (2 * i)
  b ← load8 m (2 * i + 1)
  m' ← store8 m (2 * i) (f a b).0
  m'' ← store8 m' (2 * i + 1) (f a b).1
  rework f left (i + 1) m''
