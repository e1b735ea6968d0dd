-- ===== src/Sample/Ulaw.antt =====
-- The mu-law tables and encoders of server/dia/auprocess.c and lib/audio/convutil.c.
use nas.Prelude.{ℕ, ◌+◌, ◌-◌, ◌*◌, ◌/◌, ◌%◌, ◌^◌, List, [], ◌∷◌, ltb, leb, if◌then◌else◌, get_or}

abbrev pub ulaw_to_linear_table : List ℕ
ulaw_to_linear_table =
    0x8284 ∷ 0x8684 ∷ 0x8a84 ∷ 0x8e84 ∷ 0x9284 ∷ 0x9684 ∷ 0x9a84 ∷ 0x9e84 ∷ 0xa284 ∷ 0xa684 ∷ 0xaa84
    ∷ 0xae84 ∷ 0xb284 ∷ 0xb684 ∷ 0xba84 ∷ 0xbe84 ∷ 0xc184 ∷ 0xc384 ∷ 0xc584 ∷ 0xc784 ∷ 0xc984
    ∷ 0xcb84 ∷ 0xcd84 ∷ 0xcf84 ∷ 0xd184 ∷ 0xd384 ∷ 0xd584 ∷ 0xd784 ∷ 0xd984 ∷ 0xdb84 ∷ 0xdd84
    ∷ 0xdf84 ∷ 0xe104 ∷ 0xe204 ∷ 0xe304 ∷ 0xe404 ∷ 0xe504 ∷ 0xe604 ∷ 0xe704 ∷ 0xe804 ∷ 0xe904
    ∷ 0xea04 ∷ 0xeb04 ∷ 0xec04 ∷ 0xed04 ∷ 0xee04 ∷ 0xef04 ∷ 0xf004 ∷ 0xf0c4 ∷ 0xf144 ∷ 0xf1c4
    ∷ 0xf244 ∷ 0xf2c4 ∷ 0xf344 ∷ 0xf3c4 ∷ 0xf444 ∷ 0xf4c4 ∷ 0xf544 ∷ 0xf5c4 ∷ 0xf644 ∷ 0xf6c4
    ∷ 0xf744 ∷ 0xf7c4 ∷ 0xf844 ∷ 0xf8a4 ∷ 0xf8e4 ∷ 0xf924 ∷ 0xf964 ∷ 0xf9a4 ∷ 0xf9e4 ∷ 0xfa24
    ∷ 0xfa64 ∷ 0xfaa4 ∷ 0xfae4 ∷ 0xfb24 ∷ 0xfb64 ∷ 0xfba4 ∷ 0xfbe4 ∷ 0xfc24 ∷ 0xfc64 ∷ 0xfc94
    ∷ 0xfcb4 ∷ 0xfcd4 ∷ 0xfcf4 ∷ 0xfd14 ∷ 0xfd34 ∷ 0xfd54 ∷ 0xfd74 ∷ 0xfd94 ∷ 0xfdb4 ∷ 0xfdd4
    ∷ 0xfdf4 ∷ 0xfe14 ∷ 0xfe34 ∷ 0xfe54 ∷ 0xfe74 ∷ 0xfe8c ∷ 0xfe9c ∷ 0xfeac ∷ 0xfebc ∷ 0xfecc
    ∷ 0xfedc ∷ 0xfeec ∷ 0xfefc ∷ 0xff0c ∷ 0xff1c ∷ 0xff2c ∷ 0xff3c ∷ 0xff4c ∷ 0xff5c ∷ 0xff6c
    ∷ 0xff7c ∷ 0xff88 ∷ 0xff90 ∷ 0xff98 ∷ 0xffa0 ∷ 0xffa8 ∷ 0xffb0 ∷ 0xffb8 ∷ 0xffc0 ∷ 0xffc8
    ∷ 0xffd0 ∷ 0xffd8 ∷ 0xffe0 ∷ 0xffe8 ∷ 0xfff0 ∷ 0xfff8 ∷ 0x0000 ∷ 0x7d7c ∷ 0x797c ∷ 0x757c
    ∷ 0x717c ∷ 0x6d7c ∷ 0x697c ∷ 0x657c ∷ 0x617c ∷ 0x5d7c ∷ 0x597c ∷ 0x557c ∷ 0x517c ∷ 0x4d7c
    ∷ 0x497c ∷ 0x457c ∷ 0x417c ∷ 0x3e7c ∷ 0x3c7c ∷ 0x3a7c ∷ 0x387c ∷ 0x367c ∷ 0x347c ∷ 0x327c
    ∷ 0x307c ∷ 0x2e7c ∷ 0x2c7c ∷ 0x2a7c ∷ 0x287c ∷ 0x267c ∷ 0x247c ∷ 0x227c ∷ 0x207c ∷ 0x1efc
    ∷ 0x1dfc ∷ 0x1cfc ∷ 0x1bfc ∷ 0x1afc ∷ 0x19fc ∷ 0x18fc ∷ 0x17fc ∷ 0x16fc ∷ 0x15fc ∷ 0x14fc
    ∷ 0x13fc ∷ 0x12fc ∷ 0x11fc ∷ 0x10fc ∷ 0x0ffc ∷ 0x0f3c ∷ 0x0ebc ∷ 0x0e3c ∷ 0x0dbc ∷ 0x0d3c
    ∷ 0x0cbc ∷ 0x0c3c ∷ 0x0bbc ∷ 0x0b3c ∷ 0x0abc ∷ 0x0a3c ∷ 0x09bc ∷ 0x093c ∷ 0x08bc ∷ 0x083c
    ∷ 0x07bc ∷ 0x075c ∷ 0x071c ∷ 0x06dc ∷ 0x069c ∷ 0x065c ∷ 0x061c ∷ 0x05dc ∷ 0x059c ∷ 0x055c
    ∷ 0x051c ∷ 0x04dc ∷ 0x049c ∷ 0x045c ∷ 0x041c ∷ 0x03dc ∷ 0x039c ∷ 0x036c ∷ 0x034c ∷ 0x032c
    ∷ 0x030c ∷ 0x02ec ∷ 0x02cc ∷ 0x02ac ∷ 0x028c ∷ 0x026c ∷ 0x024c ∷ 0x022c ∷ 0x020c ∷ 0x01ec
    ∷ 0x01cc ∷ 0x01ac ∷ 0x018c ∷ 0x0174 ∷ 0x0164 ∷ 0x0154 ∷ 0x0144 ∷ 0x0134 ∷ 0x0124 ∷ 0x0114
    ∷ 0x0104 ∷ 0x00f4 ∷ 0x00e4 ∷ 0x00d4 ∷ 0x00c4 ∷ 0x00b4 ∷ 0x00a4 ∷ 0x0094 ∷ 0x0084 ∷ 0x0078
    ∷ 0x0070 ∷ 0x0068 ∷ 0x0060 ∷ 0x0058 ∷ 0x0050 ∷ 0x0048 ∷ 0x0040 ∷ 0x0038 ∷ 0x0030 ∷ 0x0028
    ∷ 0x0020 ∷ 0x0018 ∷ 0x0010 ∷ 0x0008 ∷ 0x0000 ∷ []

unfoldable pub ulaw_to_linear : ℕ → ℕ
ulaw_to_linear x = get_or ulaw_to_linear_table x 0

abbrev pub bias : ℕ
bias = 0x84

-- The array `exp_lut` by its runs of equal entries.
unfoldable pub exp_lut : ℕ → ℕ
exp_lut i =
    if ltb i 2
    then 0
    else if ltb i 4
    then 1
    else if ltb i 8
    then 2
    else if ltb i 16
    then 3
    else if ltb i 32
    then 4
    else if ltb i 64
    then 5
    else if ltb i 128
    then 6
    else 7

-- The sign and the magnitude of a 16-bit pattern; -32768 has no magnitude and stays itself.
abbrev pub sign_of : ℕ → ℕ
sign_of sample = if leb 32768 sample then 0x80 else 0

abbrev pub magnitude : ℕ → ℕ
magnitude sample = if leb 32768 sample then (2 ^ 16 - sample) % 2 ^ 16 else sample

-- The bits of sign, exponent and mantissa do not overlap, and `~` is taken in a byte.
unfoldable pub ulaw_byte : ℕ → ℕ → ℕ
unfolding exp_lut
ulaw_byte sign sample =
    let exponent = exp_lut (sample / 2 ^ 7 % 256) in
    let mantissa = sample / 2 ^ (exponent + 3) % 16 in 255 - (sign + exponent * 16 + mantissa)

-- The server's encoder, where the addition of the bias is commented out.
unfoldable pub native_to_ulaw : ℕ → ℕ
unfolding ulaw_byte
native_to_ulaw sample = ulaw_byte (sign_of sample) (magnitude sample)

-- The client library's encoder; the sum is kept in a `short`.
unfoldable pub linear_to_ulaw : ℕ → ℕ
unfolding ulaw_byte
linear_to_ulaw sample = ulaw_byte (sign_of sample) ((magnitude sample + bias) % 2 ^ 16)
