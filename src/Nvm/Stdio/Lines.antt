-- ===== src/Nvm/Stdio/Lines.antt =====
-- Lines and words of a file.
use schc_work.Common.{
  ◌≡◌, ◌≢◌, refl, sym, ap, ◌∙◌, inl, inr, ℕ, zero, suc, ◌+◌, ◌-◌, ◌≤◌, ◌<◌, false, ◌||◌, none, some,
  [], ◌∷◌, ◌++◌, Bytes, All, length, ◌==◌, arith, Bool-cases,
}
use schc_work.Nvm.Stdio.{newline, is_space, cut_line, take_line, fgets, word, skip_space, nonempty}

-- A character inside a line.
abbrev pub IsInline : ℕ → Type 0
IsInline c = (c ≢ newline) × (c ≢ 0)

abbrev pub IsSolid : ℕ → Type 0
IsSolid c = is_space c ≡ false

pub cut_line_lem :
    (text rest : Bytes) → All IsInline text → cut_line (text ++ newline ∷ rest) ≡ text
unfolding cut_line
cut_line_lem [] rest h = refl
cut_line_lem (c ∷ text) rest h =
    let inside : (c == newline || c == 0) ≡ false = ground (arith, h.0.0, h.0.1) in
    rw (inside, cut_line_lem text rest h.1) refl

take_line_lem :
    (n : ℕ) (text rest : Bytes)
    → All IsInline text
    → length text < n
    → take_line n (text ++ newline ∷ rest) ≡ (text ++ newline ∷ [], rest)
unfolding take_line
take_line_lem zero text rest h fits = absurd (omega arith)
take_line_lem (suc n) [] rest h fits = refl
take_line_lem (suc n) (c ∷ text) rest h fits =
    let inside : (c == newline) ≡ false = ground (arith, h.0.0) in
    rw (take_line_lem n text rest h.1 (omega arith), inside) refl

pub fgets_lem :
    (size c : ℕ) (text rest : Bytes)
    → All IsInline (c ∷ text)
    → length text + 2 < size
    → fgets size (c ∷ (text ++ newline ∷ rest)) ≡ some (c ∷ (text ++ newline ∷ []), rest)
unfolding fgets
fgets_lem size c text rest h fits =
    ap some (take_line_lem (size - 1) (c ∷ text) rest h (omega arith))

pub fgets_end : (size : ℕ) → fgets size [] ≡ none
unfolding fgets
fgets_end size = refl

take_line-length : (n : ℕ) (text : Bytes) → length (take_line n text).1 ≤ length text
unfolding take_line
take_line-length zero text = omega arith
take_line-length (suc n) [] = omega arith
take_line-length (suc n) (c ∷ text) = elim (Bool-cases (c == newline)) [
  | inl a ↦ rw a (omega arith)
  | inr a ↦ rw a (omega (arith, take_line-length n text))
]

take_line_shorter :
    (n c : ℕ) (text : Bytes) → length (take_line (suc n) (c ∷ text)).1 < suc (length text)
unfolding take_line
take_line_shorter n c text = elim (Bool-cases (c == newline)) [
  | inl a ↦ rw a (omega arith)
  | inr a ↦ rw a (omega (arith, take_line-length n text))
]

-- A line takes at least a character of the file, if the buffer has room for one.
pub fgets_shorter :
    (size : ℕ) (text line rest : Bytes)
    → 2 ≤ size
    → fgets size text ≡ some (line, rest)
    → length rest < length text
unfolding fgets
fgets_shorter size [] line rest room e = cc
fgets_shorter size (c ∷ text) line rest room e =
    let n = size - 2 in
    let less : size - 1 ≡ suc n = omega arith in
    let read : take_line (suc n) (c ∷ text) ≡ (line, rest) =
      ap (λ k. take_line k (c ∷ text)) (sym less) ∙ cc in
    let left : (take_line (suc n) (c ∷ text)).1 ≡ rest = ap (λ r. r.1) read in
    omega (arith, ap length left, take_line_shorter n c text)

word_lem : (text : Bytes) → All IsSolid text → word text ≡ text
unfolding word
word_lem [] h = refl
word_lem (c ∷ text) h = rw (h.0, word_lem text h.1) refl

-- A word stands alone.
pub nonempty-word :
    (c : ℕ) (text : Bytes)
    → All IsSolid (c ∷ text)
    → nonempty (word (skip_space (c ∷ text))) ≡ some (c ∷ text)
unfolding nonempty skip_space
nonempty-word c text h = rw h.0 (rw (word_lem (c ∷ text) h) refl)
