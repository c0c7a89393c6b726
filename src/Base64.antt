-- ===== src/Base64.antt =====
-- platforms/linux/src/base64.c. Characters are numbers; a C string is the list of its characters
-- without the terminator. The `int` of the decoder is a 32-bit word in two's complement, in which
-- -1 of the table is 2 ^ 32 - 1, and shifts of it lose the high bits.
pub mod Groups
pub mod Writes
pub mod Texts
pub mod RoundTrip
pub mod Padding
mod Tests
use schc_work.Common.{
  ℕ, zero, suc, ◌+◌, ◌-◌, ◌*◌, ◌/◌, ◌%◌, ◌^◌, Bool, true, false, not, ◌&&◌, ◌||◌, Option, none,
  some, List, [], ◌∷◌, ◌++◌, length, get_elem?, bit_and, bit_or, Bytes, ltb, leb, ◌==◌,
  if◌then◌else◌, ◌>>=◌, ◌<<<◌, ◌>>>◌, u32, u64, store,
}

-- '='
abbrev pub pad : ℕ
pad = 61

-- A to Z, a to z, 0 to 9, + and /.
abbrev pub b64chars : Bytes
b64chars =
    65 ∷ 66 ∷ 67 ∷ 68 ∷ 69 ∷ 70 ∷ 71 ∷ 72 ∷ 73 ∷ 74 ∷ 75 ∷ 76 ∷ 77 ∷ 78 ∷ 79 ∷ 80 ∷ 81 ∷ 82 ∷ 83
    ∷ 84 ∷ 85 ∷ 86 ∷ 87 ∷ 88 ∷ 89 ∷ 90 ∷ 97 ∷ 98 ∷ 99 ∷ 100 ∷ 101 ∷ 102 ∷ 103 ∷ 104 ∷ 105 ∷ 106
    ∷ 107 ∷ 108 ∷ 109 ∷ 110 ∷ 111 ∷ 112 ∷ 113 ∷ 114 ∷ 115 ∷ 116 ∷ 117 ∷ 118 ∷ 119 ∷ 120 ∷ 121 ∷ 122
    ∷ 48 ∷ 49 ∷ 50 ∷ 51 ∷ 52 ∷ 53 ∷ 54 ∷ 55 ∷ 56 ∷ 57 ∷ 43 ∷ 47 ∷ []

-- -1
abbrev minus_1 : ℕ
minus_1 = 2 ^ 32 - 1

abbrev pub b64invs : List ℕ
b64invs =
    62 ∷ minus_1 ∷ minus_1 ∷ minus_1 ∷ 63 ∷ 52 ∷ 53 ∷ 54 ∷ 55 ∷ 56 ∷ 57 ∷ 58 ∷ 59 ∷ 60 ∷ 61
    ∷ minus_1 ∷ minus_1 ∷ minus_1 ∷ minus_1 ∷ minus_1 ∷ minus_1 ∷ minus_1 ∷ 0 ∷ 1 ∷ 2 ∷ 3 ∷ 4 ∷ 5
    ∷ 6 ∷ 7 ∷ 8 ∷ 9 ∷ 10 ∷ 11 ∷ 12 ∷ 13 ∷ 14 ∷ 15 ∷ 16 ∷ 17 ∷ 18 ∷ 19 ∷ 20 ∷ 21 ∷ 22 ∷ 23 ∷ 24 ∷ 25
    ∷ minus_1 ∷ minus_1 ∷ minus_1 ∷ minus_1 ∷ minus_1 ∷ minus_1 ∷ 26 ∷ 27 ∷ 28 ∷ 29 ∷ 30 ∷ 31 ∷ 32
    ∷ 33 ∷ 34 ∷ 35 ∷ 36 ∷ 37 ∷ 38 ∷ 39 ∷ 40 ∷ 41 ∷ 42 ∷ 43 ∷ 44 ∷ 45 ∷ 46 ∷ 47 ∷ 48 ∷ 49 ∷ 50 ∷ 51
    ∷ []

unfoldable pub b64_isvalidchar : ℕ → Bool
b64_isvalidchar c =
    (leb 48 c && leb c 57)
    || ((leb 65 c && leb c 90) || ((leb 97 c && leb c 122) || (c == 43 || (c == 47 || c == pad))))

pub b64_encoded_size : ℕ → ℕ
b64_encoded_size inlen =
    let ret = if inlen % 3 == 0 then inlen else inlen + (3 - inlen % 3) in ret / 3 * 4

-- `b64chars[k & 0x3F]`
unfoldable pub char : ℕ → Option ℕ
char k = get_elem? b64chars (bit_and k 0x3F)

-- The characters of a round of the loop, from `v` and the answers to `i + 1 < len` and `i + 2 < len`.
unfoldable pub encode_group : ℕ → Bool → Bool → Option Bytes
encode_group v second third = do
  c0 ← char (v >>> 18)
  c1 ← char (v >>> 12)
  c2 ← if second then char (v >>> 6) else some pad
  c3 ← if third then char v else some pad
  some (c0 ∷ c1 ∷ c2 ∷ c3 ∷ [])

-- The loop: what is written to `out`, four characters for three bytes.
pub encode_loop : Bytes → Option Bytes
encode_loop [] = some []
encode_loop (a ∷ []) = encode_group ((a <<< 8) <<< 8) false false
encode_loop (a ∷ b ∷ []) = encode_group (bit_or (a <<< 8) b <<< 8) true false
encode_loop (a ∷ b ∷ c ∷ rest) = do
  group ← encode_group (bit_or (bit_or (a <<< 8) b <<< 8) c) true true
  later ← encode_loop rest
  some (group ++ later)

-- The result is the written characters, `some none` for NULL.
unfoldable pub b64_encode : Bytes → Option (Option Bytes)
b64_encode input =
    if length input == 0 then some none else do out ← encode_loop input; some (some out)

pub is_pad : Option ℕ → Bool
is_pad none = false
is_pad (some c) = c == pad

-- The loop of `b64_decoded_size` with `i` characters to go.
pub strip : Bytes → ℕ → ℕ → ℕ
strip text zero ret = ret
strip text (suc i) ret =
    let rest = strip text i (u64 (ret + (2 ^ 64 - 1))) in
    if is_pad (get_elem? text i) then rest else ret

pub b64_decoded_size : Bytes → ℕ
b64_decoded_size text = strip text (length text) (length text / 4 * 3)

-- `b64invs[c - 43]`
unfoldable pub inv : ℕ → Option ℕ
inv c = if ltb c 43 then none else get_elem? b64invs (c - 43)

-- `c == '=' ? v << 6 : (v << 6) | b64invs[c - 43]`
unfoldable pub padded : ℕ → ℕ → Option ℕ
padded v c =
    if c == pad then some (u32 (v <<< 6)) else do k ← inv c; some (bit_or (u32 (v <<< 6)) k)

unfoldable pub decode_word : ℕ → ℕ → ℕ → ℕ → Option ℕ
decode_word c0 c1 c2 c3 = do
  v0 ← inv c0
  k1 ← inv c1
  let v1 = bit_or (u32 (v0 <<< 6)) k1
  v2 ← padded v1 c2
  padded v2 c3

-- The writes of a round.
pub write_group : ℕ → ℕ → ℕ → ℕ → Bytes → Option Bytes
write_group v c2 c3 j out = do
  out0 ← store out j (bit_and (v >>> 16) 0xFF)
  out1 ← if c2 == pad then some out0 else store out0 (j + 1) (bit_and (v >>> 8) 0xFF)
  if c3 == pad then some out1 else store out1 (j + 2) (bit_and v 0xFF)

-- The loop. The length of the text is a multiple of 4.
pub decode_loop : Bytes → ℕ → Bytes → Option Bytes
decode_loop [] j out = some out
decode_loop (c0 ∷ c1 ∷ c2 ∷ c3 ∷ rest) j out = do
  v ← decode_word c0 c1 c2 c3
  written ← write_group v c2 c3 j out
  decode_loop rest (j + 3) written
decode_loop text j out = none

unfoldable pub all_valid : Bytes → Bool
all_valid [] = true
all_valid (c ∷ text) = b64_isvalidchar c && all_valid text

-- `malloc` gives a buffer of the size with any contents. The result is `*outlen` and the buffer,
-- `some none` for NULL.
pub b64_decode : (ℕ → Bytes) → Bytes → Option (Option (ℕ × Bytes))
b64_decode malloc text =
    if not (length text % 4 == 0) then some none else if not (all_valid text) then some none else do
      let outlen = b64_decoded_size text
      out ← store (malloc (u64 (outlen + 1))) outlen 0
      written ← decode_loop text 0 out
      some (some (outlen, written))
