-- ===== src/Nvm/Stdio/Decimal.antt =====
-- A printed number, read back by `%u`.
use mathlib.Core.Path.{subst}
use schc_work.Common.{
  ◌≡◌, refl, sym, ap, ◌∙◌, inl, inr, ℕ, zero, suc, ◌+◌, ◌-◌, ◌*◌, ◌/◌, ◌%◌, ◌^◌, ◌≤◌, ◌<◌, true,
  false, some, [], ◌∷◌, Bytes, All, length, ltb, ◌==◌, arith, Bool-cases,
}
use schc_work.Nvm.Stdio.{digits, print_lu, value, digits_of, signed, skip_space, is_digit, is_space}

abbrev pub IsDigit : ℕ → Type 0
IsDigit c = (48 ≤ c) × (c ≤ 57)

-- 10 to the power of the fuel.
abbrev tens : ℕ → ℕ
tens zero = 1
tens (suc fuel) = 10 * tens fuel

-- A last digit.
single : (n : ℕ) (later : Bytes) → n < 10 → value 0 ((48 + n) ∷ later) ≡ value n later
unfolding value
single n later h =
    let digit : is_digit (48 + n) ≡ true = ground arith in
    let read : 0 * 10 + (48 + n - 48) ≡ n = omega arith in rw digit (ap (λ k. value k later) read)

value-digits :
    (fuel n : ℕ) (later : Bytes) → n < tens fuel → value 0 (digits fuel n later) ≡ value n later
unfolding digits value
value-digits zero n later small =
    let nothing : n ≡ 0 = omega arith in ap (λ k. value k later) (sym nothing)
value-digits (suc fuel) n later small = elim (Bool-cases (ltb n 10)) [
  | inl one ↦ rw one (single n later (ground arith))
  | inr more ↦
      let digit : is_digit (48 + n % 10) ≡ true = ground arith in
      let joined : n / 10 * 10 + (48 + n % 10 - 48) ≡ n = omega arith in
      rw more (
        value-digits fuel (n / 10) ((48 + n % 10) ∷ later) (omega arith)
        ∙ rw digit (ap (λ k. value k later) joined))
]

digits-All : (fuel n : ℕ) (later : Bytes) → All IsDigit later → All IsDigit (digits fuel n later)
unfolding digits
digits-All zero n later h = h
digits-All (suc fuel) n later h = elim (Bool-cases (ltb n 10)) [
  | inl one ↦ rw one ((omega arith, ground arith), h)
  | inr more ↦
      rw more (digits-All fuel (n / 10) ((48 + n % 10) ∷ later) ((omega arith, omega arith), h))
]

length-digits : (fuel n : ℕ) (later : Bytes) → length (digits fuel n later) ≤ fuel + length later
unfolding digits
length-digits zero n later = omega arith
length-digits (suc fuel) n later = elim (Bool-cases (ltb n 10)) [
  | inl one ↦ rw one (omega arith)
  | inr more ↦ rw more (omega (arith, length-digits fuel (n / 10) ((48 + n % 10) ∷ later)))
]

pub length-print_lu : (n : ℕ) → length (print_lu n) ≤ 20
unfolding print_lu
length-print_lu n = omega (arith, length-digits 20 n [])

-- A text with a first character.
abbrev pub IsCons : Bytes → Type 0
IsCons text = (c : ℕ) × (rest : Bytes) × (text ≡ c ∷ rest)

digits-IsCons : (fuel n c : ℕ) (later : Bytes) → IsCons (digits fuel n (c ∷ later))
unfolding digits
digits-IsCons zero n c later = (c, later, refl)
digits-IsCons (suc fuel) n c later = elim (Bool-cases (ltb n 10)) [
  | inl one ↦ rw one (48 + n, c ∷ later, refl)
  | inr more ↦ rw more (digits-IsCons fuel (n / 10) (48 + n % 10) (c ∷ later))
]

pub print_lu-All : (n : ℕ) → All IsDigit (print_lu n)
unfolding print_lu
print_lu-All n = digits-All 20 n [] tt

pub print_lu-IsCons : (n : ℕ) → IsCons (print_lu n)
unfolding print_lu digits
print_lu-IsCons n = elim (Bool-cases (ltb n 10)) [
  | inl one ↦ rw one (48 + n, [], refl)
  | inr more ↦ rw more (digits-IsCons 19 (n / 10) (48 + n % 10) [])
]

signed_cons :
    (c : ℕ) (text : Bytes) → IsDigit c → signed (skip_space (c ∷ text)) ≡ some (value 0 (c ∷ text))
unfolding signed skip_space digits_of
signed_cons c text h =
    let solid : is_space c ≡ false = ground (arith, h.0, h.1) in
    let digit : is_digit c ≡ true = ground (arith, h.0, h.1) in
    let plus : (c == 43) ≡ false = ground (arith, h.0, h.1) in
    let minus : (c == 45) ≡ false = ground (arith, h.0, h.1) in rw (solid, plus, minus, digit) refl

-- The digits of a 64-bit number are read as this number.
pub signed-print_lu : (n : ℕ) → n < 2 ^ 64 → signed (skip_space (print_lu n)) ≡ some n
unfolding print_lu value
signed-print_lu n small =
    let (c, rest, e) = print_lu-IsCons n in
    let read : value 0 (print_lu n) ≡ n = value-digits 20 n [] (omega arith) in
    let first = subst (All IsDigit) e (print_lu-All n) in
    ap (λ t. signed (skip_space t)) e
    ∙ (signed_cons c rest first.0 ∙ ap some (ap (value 0) (sym e) ∙ read))
