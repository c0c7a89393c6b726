-- ===== src/Nvm/Stdio.antt =====
-- What the storage uses of <stdio.h> and <string.h>: texts are the lists of their characters, and a
-- file is the list of its characters.
pub mod Decimal
pub mod Lines
use schc_work.Common.{
  ℕ, zero, suc, ◌+◌, ◌-◌, ◌*◌, ◌/◌, ◌%◌, ◌^◌, Bool, true, false, not, ◌&&◌, ◌||◌, Option, none,
  some, List, [], ◌∷◌, Bytes, ltb, leb, ◌==◌, if◌then◌else◌, ◌>>=◌,
}

abbrev pub newline : ℕ
newline = 10

abbrev pub is_space : ℕ → Bool
is_space c = c == 32 || (leb 9 c && leb c 13)

abbrev pub is_digit : ℕ → Bool
is_digit c = leb 48 c && leb c 57

-- What `%lu` prints: the digits of a number below 10 ^ fuel, before `later`.
unfoldable pub digits : ℕ → ℕ → Bytes → Bytes
digits zero n later = later
digits (suc fuel) n later =
    let rest = digits fuel (n / 10) ((48 + n % 10) ∷ later) in
    if ltb n 10 then (48 + n) ∷ later else rest

-- A 64-bit number has at most 20 digits.
unfoldable pub print_lu : ℕ → Bytes
print_lu n = digits 20 n []

-- The characters before the first newline: `line[strcspn(line, "\n")] = 0`, where the line ends.
pub cut_line : Bytes → Bytes
cut_line [] = []
cut_line (c ∷ text) = let rest = cut_line text in if c == newline || c == 0 then [] else c ∷ rest

-- At most `n` characters, up to a newline, and what is left of the file.
pub take_line : ℕ → Bytes → Bytes × Bytes
take_line zero text = ([], text)
take_line (suc n) [] = ([], [])
take_line (suc n) (c ∷ text) =
    let (line, rest) = take_line n text in if c == newline then (c ∷ [], text) else (c ∷ line, rest)

-- `fgets` with a buffer of `size`, or `none` for NULL at the end of the file.
pub fgets : ℕ → Bytes → Option (Bytes × Bytes)
fgets size [] = none
fgets size (c ∷ text) = some (take_line (size - 1) (c ∷ text))

-- `sscanf`: the format's own characters, then a conversion.
unfoldable pub literal : Bytes → Bytes → Option Bytes
literal [] text = some text
literal (a ∷ format) [] = none
literal (a ∷ format) (c ∷ text) = if a == c then literal format text else none

pub skip_space : Bytes → Bytes
skip_space [] = []
skip_space (c ∷ text) = let rest = skip_space text in if is_space c then rest else c ∷ text

pub word : Bytes → Bytes
word [] = []
word (c ∷ text) = let rest = word text in if is_space c then [] else c ∷ rest

pub nonempty : Bytes → Option Bytes
nonempty [] = none
nonempty (c ∷ text) = some (c ∷ text)

-- `%s` converts a word, if there is one.
unfoldable pub scan_s : Bytes → Bytes → Option Bytes
scan_s format text = do rest ← literal format text; nonempty (word (skip_space rest))

pub value : ℕ → Bytes → ℕ
value acc [] = acc
value acc (c ∷ text) =
    let rest = value (acc * 10 + (c - 48)) text in if is_digit c then rest else acc

-- A number in an `unsigned int`; `over` tells what is stored where it does not fit.
unfoldable pub to_unsigned : (ℕ → ℕ) → ℕ → ℕ
to_unsigned over n = if ltb n (2 ^ 32) then n else over n

pub digits_of : Bytes → Option ℕ
digits_of [] = none
digits_of (c ∷ text) = if is_digit c then some (value 0 (c ∷ text)) else none

-- The sign, if there is one, and the digits. A negated number is one of `unsigned long`.
pub signed : Bytes → Option ℕ
signed [] = none
signed (c ∷ text) =
    if c == 43
    then digits_of text
    else if not (c == 45)
    then digits_of (c ∷ text)
    else do n ← digits_of text; some (if n == 0 then 0 else 2 ^ 64 - n)

-- `%u` converts a number.
unfoldable pub scan_u : (ℕ → ℕ) → Bytes → Bytes → Option ℕ
scan_u over format text = do
  rest ← literal format text
  n ← signed (skip_space rest)
  some (to_unsigned over n)
