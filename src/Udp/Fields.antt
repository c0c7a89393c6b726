-- ===== src/Udp/Fields.antt =====
-- 16-bit fields of a buffer, as two bytes in network order.
use native.Mathlib.Numerals.{add-one}
use schc_work.Common.{
  ℕ, zero, suc, ◌+◌, ◌/◌, ◌%◌, ◌^◌, ◌≤◌, ◌<◌, ◌≡◌, sym, ap, ◌∙◌, ◌≢◌, none, some, [], ◌∷◌, arith,
  length, get_elem?, set, take, drop, Bytes, IsBytes, IsByte, All-set, length-set,
  get_elem?-set_self, get_elem?-none, Option-cases, get_elem?-set_ne, drop-set, take-set,
  take-set_past,
}
use schc_work.Udp.{load16, store16}
use schc_work.Udp.Checksum.{word_sum}

-- The buffer after a store of the field at `i`.
abbrev pub put16 : Bytes → ℕ → ℕ → Bytes
put16 p i v = set (set p i (v / 256)) (suc i) (v % 256)

pub store16-put16 : (p : Bytes) (i v : ℕ) → suc i < length p → store16 p i v ≡ some (put16 p i v)
unfolding store16
store16-put16 p i v h = rw add-one (ground (arith, length-set p i (v / 256)))

pub load16_past : (p : Bytes) (i : ℕ) → length p ≤ suc i → load16 p i ≡ none
unfolding load16
load16_past p i h =
    rw (add-one) (ground (arith, get_elem?-none p (suc i) h, Option-cases (get_elem? p i)))

pub load16-put16 :
    (p : Bytes) (i v : ℕ) → suc i < length p → v < 2 ^ 16 → load16 (put16 p i v) i ≡ some v
unfolding load16
load16-put16 p i v h small =
    let first : get_elem? (put16 p i v) i ≡ some (v / 256) =
      get_elem?-set_ne (set p i (v / 256)) (suc i) i (v % 256) (omega arith)
      ∙ get_elem?-set_self p i (v / 256) (omega arith) in
    let second : get_elem? (put16 p i v) (suc i) ≡ some (v % 256) =
      get_elem?-set_self (set p i (v / 256)) (suc i) (v % 256)
        (omega (arith, length-set p i (v / 256))) in
    rw (add-one, first, second) (ap some (omega arith))

pub get_elem?-put16 :
    (p : Bytes) (i v j : ℕ) → j ≢ i → j ≢ suc i → get_elem? (put16 p i v) j ≡ get_elem? p j
get_elem?-put16 p i v j ne ne' =
    get_elem?-set_ne (set p i (v / 256)) (suc i) j (v % 256) (λ e. ne' (sym e))
    ∙ get_elem?-set_ne p i j (v / 256) (λ e. ne (sym e))

pub load16-put16_ne :
    (p : Bytes) (i v j : ℕ) → j ≢ i → j ≢ suc i → suc j ≢ i → load16 (put16 p i v) j ≡ load16 p j
unfolding load16
load16-put16_ne p i v j a b c =
    rw
      (add-one, get_elem?-put16 p i v j a b, get_elem?-put16 p i v (suc j) c (λ e. a (omega arith)))

pub length-put16 : (p : Bytes) (i v : ℕ) → length (put16 p i v) ≡ length p
length-put16 p i v = length-set (set p i (v / 256)) (suc i) (v % 256) ∙ length-set p i (v / 256)

pub put16-IsBytes : (p : Bytes) (i v : ℕ) → IsBytes p → v < 2 ^ 16 → IsBytes (put16 p i v)
put16-IsBytes p i v bs small =
    All-set IsByte (set p i (v / 256)) (suc i) (v % 256)
      (All-set IsByte p i (v / 256) bs (omega arith)) (omega arith)

-- The field of a part of the buffer.
pub drop-put16 :
    (m : ℕ) (p : Bytes) (i j v : ℕ) → j ≡ m + i → drop m (put16 p j v) ≡ put16 (drop m p) i v
drop-put16 m p i j v e =
    drop-set m (set p j (v / 256)) (suc i) (suc j) (v % 256) (omega arith)
    ∙ ap (λ t. set t (suc i) (v % 256)) (drop-set m p i j (v / 256) e)

pub take-put16 : (n : ℕ) (p : Bytes) (i v : ℕ) → take n (put16 p i v) ≡ put16 (take n p) i v
take-put16 n p i v =
    take-set n (set p i (v / 256)) (suc i) (v % 256)
    ∙ ap (λ t. set t (suc i) (v % 256)) (take-set n p i (v / 256))

pub take-put16_past : (n : ℕ) (p : Bytes) (i v : ℕ) → n ≤ i → take n (put16 p i v) ≡ take n p
take-put16_past n p i v h =
    take-set_past n (set p i (v / 256)) (suc i) (v % 256) (omega arith)
    ∙ take-set_past n p i (v / 256) h

abbrev pub double : ℕ → ℕ
double zero = zero
double (suc k) = suc (suc (double k))

-- Filling a cleared field at an even offset adds it to the sum of the words.
pub word_sum-put16 :
    (k : ℕ) (p : Bytes) (v : ℕ)
    → suc (double k) < length p
    → word_sum (put16 (put16 p (double k) 0) (double k) v) ≡ word_sum (put16 p (double k) 0) + v
word_sum-put16 k [] v h = absurd (omega arith)
word_sum-put16 k (a ∷ []) v h = absurd (omega arith)
word_sum-put16 zero (a ∷ b ∷ p) v h = omega arith
word_sum-put16 (suc k) (a ∷ b ∷ p) v h = omega (arith, word_sum-put16 k p v (omega arith))

pub load16-same :
    (p q : Bytes) (i : ℕ)
    → get_elem? p i ≡ get_elem? q i
    → get_elem? p (suc i) ≡ get_elem? q (suc i)
    → load16 p i ≡ load16 q i
unfolding load16
load16-same p q i a b = rw (add-one, a, b)
