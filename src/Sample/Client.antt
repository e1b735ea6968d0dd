-- ===== src/Sample/Client.antt =====
-- The conversion routines of the client library, lib/audio/convutil.c. The flag says whether 0 is
-- returned, and not -1. A format of no size is divided by, which is `none` here.
use nas.Prelude.{
  ℕ, zero, suc, ◌+◌, ◌*◌, ◌/◌, ◌%◌, ◌^◌, bit_xor, Bool, true, false, ◌||◌, not, Option, none, some,
  ltb, ◌==◌, if◌then◌else◌,
}
use nas.Sample.{Buffer, ◌>>=◌, load16, store16, expand, compress}
use nas.Sample.Ulaw.{ulaw_to_linear, linear_to_ulaw}

-- AuSizeofFormat of lib/audio/audio.h.
abbrev pub sizeof_format : ℕ → ℕ
sizeof_format format = if ltb format 1 || ltb 7 format then 0 else if ltb format 4 then 1 else 2

abbrev pub swap16 : ℕ → ℕ
swap16 x = x / 2 ^ 8 % 2 ^ 8 + x * 2 ^ 8 % 2 ^ 16

-- The macros `convert` between 16-bit formats: from the last sample down, and from the first up.
unfoldable pub words_down : Bool → (ℕ → ℕ) → ℕ → Buffer → Option Buffer
words_down big f zero m = some m
words_down big f (suc i) m = do
  x ← load16 big m (2 * i)
  m' ← store16 big m (2 * i) (f x)
  words_down big f i m'

unfoldable pub words_up : Bool → (ℕ → ℕ) → ℕ → ℕ → Buffer → Option Buffer
words_up big f zero i m = some m
words_up big f (suc left) i m = do
  x ← load16 big m (2 * i)
  m' ← store16 big m (2 * i) (f x)
  words_up big f left (i + 1) m'

abbrev pub returns_0 : Option Buffer → Option (Buffer × Bool)
returns_0 r = do m ← r; some (m, true)

-- A 16-bit format other than the machine's signed one, or that one, which is left alone. `same` says
-- that the format has the machine's byte order.
abbrev pub convert16 : ((ℕ → ℕ) → Option Buffer) → Bool → Bool → Buffer → Option Buffer
convert16 loop same signed m =
    if same
    then (if signed then some m else loop (λ x. bit_xor x 0x8000))
    else if signed
    then loop swap16
    else loop (λ x. bit_xor (swap16 x) 0x8000)

unfoldable pub convert_data_to_short : Bool → ℕ → ℕ → Buffer → Option (Buffer × Bool)
convert_data_to_short big format num_bytes m =
    let samples = num_bytes / sizeof_format format in
    let loop : (ℕ → ℕ) → Option Buffer = λ f. words_down big f samples m in
    if sizeof_format format == 0
    then none
    else if format == 1
    then returns_0 (expand big ulaw_to_linear samples m)
    else if format == 2
    then returns_0 (expand big (λ x. (x * 2 ^ 8 + 2 ^ 15) % 2 ^ 16) samples m)
    else if format == 3
    then returns_0 (expand big (λ x. x * 2 ^ 8 % 2 ^ 16) samples m)
    else if format == 4
    then returns_0 (convert16 loop big true m)
    else if format == 5
    then returns_0 (convert16 loop big false m)
    else if format == 6
    then returns_0 (convert16 loop (not big) true m)
    else returns_0 (convert16 loop (not big) false m)

unfoldable pub convert_short_to_data : Bool → ℕ → ℕ → Buffer → Option (Buffer × Bool)
convert_short_to_data big format num_bytes m =
    let samples = num_bytes / 2 in
    let loop : (ℕ → ℕ) → Option Buffer = λ f. words_up big f samples 0 m in
    if samples == 0
    then some (m, true)
    else if format == 1
    then returns_0 (compress big linear_to_ulaw samples 0 m)
    else if format == 2
    then returns_0 (compress big (λ x. (x / 2 ^ 8 + 128) % 2 ^ 8) samples 0 m)
    else if format == 3
    then returns_0 (compress big (λ x. x / 2 ^ 8 % 2 ^ 8) samples 0 m)
    else if format == 4
    then returns_0 (convert16 loop big true m)
    else if format == 5
    then returns_0 (convert16 loop big false m)
    else if format == 6
    then returns_0 (convert16 loop (not big) true m)
    else if format == 7
    then returns_0 (convert16 loop (not big) false m)
    else some (m, false)
