-- ===== src/Common/Bits.antt =====
-- `|` of disjoint fields and `&` with a low mask, as arithmetic.
use Prim.Native.Nat.{min, max, digits, bit_and-bitwise, bit_or-bitwise}
use native.Mathlib.Nat.{pow-suc, one-le-pow}
use schc_work.Common.{
  ℕ, zero, suc, ◌+◌, ◌-◌, ◌*◌, ◌/◌, ◌%◌, ◌^◌, ◌≤◌, ◌<◌, bit_and, bit_or, ◌≡◌, refl, ap, arith,
}

-- The native operations stand for a recursion on binary digits with fuel; any two amounts that
-- cover the first number agree.
more_fuel :
    (z : ℕ → ℕ) (f : ℕ → ℕ → ℕ) (n m a b : ℕ) → a ≤ n → a ≤ m → digits z f n a b ≡ digits z f m a b
more_fuel z f zero zero a b p q = refl
more_fuel z f zero (suc m) zero b p q = refl
more_fuel z f zero (suc m) (suc a) b p q = absurd (omega arith)
more_fuel z f (suc n) zero zero b p q = refl
more_fuel z f (suc n) zero (suc a) b p q = absurd (omega arith)
more_fuel z f (suc n) (suc m) zero b p q = refl
more_fuel z f (suc n) (suc m) (suc a) b p q =
    omega (arith, more_fuel z f n m (suc a / 2) (b / 2) (omega arith) (omega arith))

or_digit : (a b : ℕ) → bit_or a b ≡ bit_or (a / 2) (b / 2) * 2 + max (a % 2) (b % 2)
or_digit zero b = simp bit_or-bitwise (omega arith)
or_digit (suc a) b =
    let half = suc a / 2 in
    simp bit_or-bitwise
      (omega (arith, more_fuel (λ y. y) max a half half (b / 2) (omega arith) (omega arith)))

and_digit : (a b : ℕ) → bit_and a b ≡ bit_and (a / 2) (b / 2) * 2 + min (a % 2) (b % 2)
and_digit zero b = simp bit_and-bitwise (omega arith)
and_digit (suc a) b =
    let half = suc a / 2 in
    simp bit_and-bitwise
      (omega (arith, more_fuel (λ y. 0) min a half half (b / 2) (omega arith) (omega arith)))

or_zero_fuel : (n a : ℕ) → a ≤ n → bit_or a 0 ≡ a
or_zero_fuel n zero h = refl
or_zero_fuel zero (suc a) h = absurd (omega arith)
or_zero_fuel (suc n) (suc a) h =
    omega (arith, or_digit (suc a) 0, or_zero_fuel n (suc a / 2) (omega arith))

and_zero_fuel : (n a : ℕ) → a ≤ n → bit_and a 0 ≡ 0
and_zero_fuel n zero h = refl
and_zero_fuel zero (suc a) h = absurd (omega arith)
and_zero_fuel (suc n) (suc a) h =
    omega (arith, and_digit (suc a) 0, and_zero_fuel n (suc a / 2) (omega arith))

double_shift : (q k : ℕ) → q * 2 ^ suc k ≡ 2 * (q * 2 ^ k)
double_shift q k = omega (arith, ap (λ (t : ℕ). q * t) (pow-suc 2 k))

-- `(q << k) | r` is a sum when `r` fits into the `k` low bits.
pub bit_or_low : (k q r : ℕ) → r < 2 ^ k → bit_or (q * 2 ^ k) r ≡ q * 2 ^ k + r
bit_or_low zero q r h = ground (arith, or_zero_fuel q q (omega arith))
bit_or_low (suc k) q r h =
    ground
      (arith, or_digit (q * 2 ^ suc k) r, double_shift q k, bit_or_low k q (r / 2) (omega arith))

mask_fields : (k q r : ℕ) → r < 2 ^ k → bit_and (q * 2 ^ k + r) (2 ^ k - 1) ≡ r
mask_fields zero q r h = ground (arith, and_zero_fuel (q * 1 + r) (q * 1 + r) (omega arith))
mask_fields (suc k) q r h = ground (
  arith,
  and_digit (q * 2 ^ suc k + r) (2 ^ suc k - 1),
  double_shift q k,
  pow-suc 2 k,
  mask_fields k q (r / 2) (omega arith),
)

-- A mask of `k` low bits is the remainder by `2 ^ k`.
pub bit_and_low : (k a : ℕ) → bit_and a (2 ^ k - 1) ≡ a % 2 ^ k
bit_and_low k a = ground (arith, one-le-pow k 2, mask_fields k (a / 2 ^ k) (a % 2 ^ k))
