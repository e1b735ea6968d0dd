-- ===== src/Sample/Convert.antt =====
-- The converters of server/dia/auprocess.c, and the table that chooses among them.
use nas.Prelude.{
  ℕ, zero, suc, ◌*◌, ◌/◌, ◌%◌, ◌^◌, bit_xor, Bool, true, false, Option, none, some, ltb,
  if◌then◌else◌,
}
use nas.Sample.{Buffer, expand, compress, rework}
use nas.Sample.Ulaw.{ulaw_to_linear, native_to_ulaw}

-- The loop counter is an AuInt16, which does not reach a count over 32767.
unfoldable pub ulaw8_to_native : Bool → ℕ → Buffer → Option Buffer
ulaw8_to_native big count p = if ltb 32767 count then none else expand big ulaw_to_linear count p

unfoldable pub native_to_ulaw8 : Bool → ℕ → Buffer → Option Buffer
native_to_ulaw8 big count s =
    if ltb 32767 count then none else compress big native_to_ulaw count 0 s

abbrev pub shift_up : ℕ → ℕ
shift_up x = x * 2 ^ 8 % 2 ^ 16

abbrev pub shift_down : ℕ → ℕ
shift_down x = x / 2 ^ 8 % 2 ^ 8

unfoldable pub signed8_to_native : Bool → ℕ → Buffer → Option Buffer
signed8_to_native big count p = expand big shift_up count p

unfoldable pub native_to_signed8 : Bool → ℕ → Buffer → Option Buffer
native_to_signed8 big count s = compress big shift_down count 0 s

unfoldable pub unsigned8_to_native : Bool → ℕ → Buffer → Option Buffer
unsigned8_to_native big count p = expand big (λ x. bit_xor (shift_up x) 0x8000) count p

unfoldable pub native_to_unsigned8 : Bool → ℕ → Buffer → Option Buffer
native_to_unsigned8 big count s = compress big (λ x. shift_down (bit_xor x 0x8000)) count 0 s

-- `x ^ 0x8000` changes the byte that holds the sign in the machine's order.
unfoldable pub change_sign : Bool → ℕ → Buffer → Option Buffer
change_sign big count p =
    rework (λ a b. if big then (bit_xor a 0x80, b) else (a, bit_xor b 0x80)) count 0 p

unfoldable pub neg16_lsb_to_16_msb : ℕ → Buffer → Option Buffer
neg16_lsb_to_16_msb count p = rework (λ a b. (bit_xor b 0x80, a)) count 0 p

unfoldable pub neg16_msb_to_16_lsb : ℕ → Buffer → Option Buffer
neg16_msb_to_16_lsb count p = rework (λ a b. (b, bit_xor a 0x80)) count 0 p

unfoldable pub byte_swap : ℕ → Buffer → Option Buffer
byte_swap count p = rework (λ a b. (b, a)) count 0 p

-- The array `converters`, with the macros of server/dia/au.h for the machine's order; a NULL
-- converter leaves the buffer alone, and a format past the array has none.
abbrev pub Converter : Type 0
Converter = ℕ → Buffer → Option Buffer

abbrev pub no_change : Converter
no_change count p = some p

unfoldable pub to_native_format : Bool → ℕ → Converter
to_native_format big zero = no_change
to_native_format big (suc zero) = ulaw8_to_native big
to_native_format big (suc (suc zero)) = unsigned8_to_native big
to_native_format big (suc (suc (suc zero))) = signed8_to_native big
to_native_format big (suc (suc (suc (suc zero)))) = if big then no_change else byte_swap
to_native_format big (suc (suc (suc (suc (suc zero))))) =
    if big then change_sign true else neg16_msb_to_16_lsb
to_native_format big (suc (suc (suc (suc (suc (suc zero)))))) = if big then byte_swap else no_change
to_native_format big (suc (suc (suc (suc (suc (suc (suc zero))))))) =
    if big then neg16_lsb_to_16_msb else change_sign false
to_native_format big (suc (suc (suc (suc (suc (suc (suc (suc format)))))))) = λ count p. none

unfoldable pub from_native_format : Bool → ℕ → Converter
from_native_format big zero = no_change
from_native_format big (suc zero) = native_to_ulaw8 big
from_native_format big (suc (suc zero)) = native_to_unsigned8 big
from_native_format big (suc (suc (suc zero))) = native_to_signed8 big
from_native_format big (suc (suc (suc (suc zero)))) = if big then no_change else byte_swap
from_native_format big (suc (suc (suc (suc (suc zero))))) =
    if big then change_sign true else neg16_lsb_to_16_msb
from_native_format big (suc (suc (suc (suc (suc (suc zero)))))) =
    if big then byte_swap else no_change
from_native_format big (suc (suc (suc (suc (suc (suc (suc zero))))))) =
    if big then neg16_msb_to_16_lsb else change_sign false
from_native_format big (suc (suc (suc (suc (suc (suc (suc (suc format)))))))) = λ count p. none
