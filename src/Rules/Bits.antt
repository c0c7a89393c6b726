-- ===== src/Rules/Bits.antt =====
-- Numbers as bits, the highest first, and the sizes of RFC 8724 in front of residues of variable
-- length.
use native.Mathlib.Numerals.{unary_clauses}
use mathlib.Core.List.{append_assoc}
use schc_work.Common.{
  ℕ, zero, suc, ◌+◌, ◌-◌, ◌*◌, ◌^◌, ◌<◌, ◌≡◌, refl, sym, inl, inr, Bool, true, Option, none, some,
  List, [], ◌∷◌, ◌++◌, arith, length, take, drop, Bytes, ltb, leb, Bool-cases, if◌then◌else◌, ◌>>=◌,
  length-append,
}
use schc_work.Common.Slices.{take-append, drop-append_past}

abbrev pub Bits : Type 0
Bits = List Bool

unfoldable pub to_bits : ℕ → ℕ → Bits
to_bits zero v = []
to_bits (suc w) v = let top = leb (2 ^ w) v in top ∷ to_bits w (if top then v - 2 ^ w else v)

pub of_bits : Bits → ℕ
of_bits [] = 0
of_bits (b ∷ bs) = (if b then 2 ^ length bs else 0) + of_bits bs

unfoldable pub byte_bits : Bytes → Bits
byte_bits [] = []
byte_bits (b ∷ bytes) = to_bits 8 b ++ byte_bits bytes

-- The next `w` bits and what follows them.
pub read_bits : ℕ → Bits → Option (Bits × Bits)
read_bits w bits = if leb w (length bits) then some (take w bits, drop w bits) else none

pub read_number : ℕ → Bits → Option (ℕ × Bits)
read_number w bits = do (taken, rest) ← read_bits w bits; some (of_bits taken, rest)

-- The size of a residue in 4, 12 or 28 bits.
unfoldable pub size_bits : ℕ → Bits
size_bits n =
    if ltb n 15
    then to_bits 4 n
    else if ltb n 255
    then to_bits 4 15 ++ to_bits 8 n
    else to_bits 4 15 ++ (to_bits 8 255 ++ to_bits 16 n)

pub read_size : Bits → Option (ℕ × Bits)
read_size bits = do
  (small, rest) ← read_number 4 bits
  if ltb small 15 then some (small, rest) else do
    (middle, rest') ← read_number 8 rest
    if ltb middle 255 then some (middle, rest') else read_number 16 rest'

pub length-to_bits : (w v : ℕ) → length (to_bits w v) ≡ w
unfolding to_bits
length-to_bits zero v = refl
length-to_bits (suc w) v = omega (arith, length-to_bits w (if leb (2 ^ w) v then v - 2 ^ w else v))

pub of_bits-to_bits : (w v : ℕ) → v < 2 ^ w → of_bits (to_bits w v) ≡ v
unfolding to_bits of_bits
of_bits-to_bits zero v h = omega arith
of_bits-to_bits (suc w) v h =
    let double : 2 ^ suc w ≡ 2 * 2 ^ w = simp unary_clauses (omega arith) in
    elim (Bool-cases (leb (2 ^ w) v)) [
      | inl top ↦
          let below : v - 2 ^ w < 2 ^ w = ground (arith, double) in
          rw (top, length-to_bits w (v - 2 ^ w), of_bits-to_bits w (v - 2 ^ w) below) (ground arith)
      | inr low ↦
          let below : v < 2 ^ w = ground arith in rw (low, of_bits-to_bits w v below) (omega arith)
    ]

pub read_bits-append :
    (bits rest : Bits) (w : ℕ) → w ≡ length bits → read_bits w (bits ++ rest) ≡ some (bits, rest)
unfolding read_bits
read_bits-append bits rest w e =
    let fits : leb w (length (bits ++ rest)) ≡ true = ground (arith, length-append bits rest) in
    let front : take w (bits ++ rest) ≡ bits = rw e (take-append bits rest) in
    rw (fits, front, drop-append_past bits rest w e) refl

pub read_number-to_bits :
    (w v : ℕ) (rest : Bits) → v < 2 ^ w → read_number w (to_bits w v ++ rest) ≡ some (v, rest)
unfolding read_number
read_number-to_bits w v rest h =
    rw (read_bits-append (to_bits w v) rest w (sym (length-to_bits w v)), of_bits-to_bits w v h)
      refl

-- The size that was written is read back.
pub read_size-size_bits :
    (n : ℕ) (rest : Bits) → n < 2 ^ 16 → read_size (size_bits n ++ rest) ≡ some (n, rest)
unfolding read_size size_bits
read_size-size_bits n rest h = elim (Bool-cases (ltb n 15)) [
  | inl small ↦
      let fits : n < 2 ^ 4 = ground arith in
      rw (small, read_number-to_bits 4 n rest fits, small) refl
  | inr big ↦ elim (Bool-cases (ltb n 255)) [
    | inl middle ↦
        let fits : n < 2 ^ 8 = ground arith in
        rw
          (
            big,
            middle,
            append_assoc (to_bits 4 15) (to_bits 8 n) rest,
            read_number-to_bits 4 15 (to_bits 8 n ++ rest) (omega arith),
            read_number-to_bits 8 n rest fits,
            middle,
          )
          refl
    | inr large ↦
        rw
          (
            big,
            large,
            append_assoc (to_bits 4 15) (to_bits 8 255 ++ to_bits 16 n) rest,
            append_assoc (to_bits 8 255) (to_bits 16 n) rest,
            read_number-to_bits 4 15 (to_bits 8 255 ++ (to_bits 16 n ++ rest)) (omega arith),
            read_number-to_bits 8 255 (to_bits 16 n ++ rest) (omega arith),
          )
          (read_number-to_bits 16 n rest h)
  ]
]
