-- ===== src/Udp/Checksum.antt =====
-- The checksum of libs/net/src/udp.c against the ones'-complement sum of RFC 768 and RFC 8200.
use Prim.Native.Nat.add
use mathlib.Core.Logic.{dif_pos, dif_neg}
use native.Mathlib.Bridge.{le_prop}
use mathlib.Core.WellFounded.{Acc}
use schc_work.Common.{
  ℕ, zero, suc, ◌+◌, ◌-◌, ◌*◌, ◌/◌, ◌%◌, ◌^◌, ◌≤◌, ◌<◌, bit_and, ◌≡◌, ap, ◌∙◌, some, [], ◌∷◌, arith,
  dec_lt, length, take, Bytes, IsBytes, u64, u32, u16, ◌==◌, if◌then◌else◌, ℕ_discrete, ◌>>>◌,
}
use schc_work.Common.Bits.{bit_or_low, bit_and_low}
use schc_work.Common.Order.{lt_wf}
use schc_work.Udp.{csum_add, fold_acc, fold_carries, udp_checksum, ipproto_udp}

-- The sum of the big-endian 16-bit words of some bytes, an odd last byte padded with zero.
abbrev pub word_sum : Bytes → ℕ
word_sum [] = 0
word_sum (a ∷ []) = a * 256
word_sum (a ∷ b ∷ p) = a * 256 + b + word_sum p

-- `csum_add` reads inside the object, and adds exactly the words of the first `n` bytes when the
-- 64-bit sum has room for them.
pub csum_add_lem :
    (sum : ℕ) (p : Bytes) (n : ℕ)
    → IsBytes p
    → n ≤ length p
    → sum + 0xFFFF * n < 2 ^ 64
    → csum_add sum p n ≡ some (sum + word_sum (take n p))
unfolding csum_add
csum_add_lem sum p zero bs fits room = ap some (omega arith)
csum_add_lem sum [] (suc n) bs fits room = absurd (omega arith)
csum_add_lem sum (a ∷ p) (suc zero) bs fits room = ap some (omega arith)
csum_add_lem sum (a ∷ []) (suc (suc n)) bs fits room = absurd (omega arith)
csum_add_lem sum (a ∷ b ∷ p) (suc (suc n)) bs fits room =
    rw (bit_or_low 8 a b bs.1.0)
      let added : u64 (sum + (a * 2 ^ 8 + b)) ≡ sum + (a * 256 + b) = omega arith in
        rw added (
          csum_add_lem (sum + (a * 256 + b)) p n bs.1.1 (omega arith) (omega arith)
          ∙ ap some (omega arith))

word_sum_bound : (n : ℕ) (p : Bytes) → IsBytes p → word_sum (take n p) ≤ 0xFFFF * n
word_sum_bound zero p bs = omega arith
word_sum_bound (suc n) [] bs = omega arith
word_sum_bound (suc zero) (a ∷ p) bs = omega arith
word_sum_bound (suc (suc n)) (a ∷ []) bs = omega arith
word_sum_bound (suc (suc n)) (a ∷ b ∷ p) bs = omega (arith, word_sum_bound n p bs.1.1)

-- What folding does to a sum: it removes a multiple of 0xFFFF, leaves 16 bits, and gives zero
-- only for zero.
pub record IsFolded (sum folded : ℕ) : Type 0 where
  pub removed : ℕ
  pub congruent : sum ≡ folded + 0xFFFF * removed
  pub small : folded ≤ 0xFFFF
  pub kept : 0 < sum → 0 < folded

fold_acc-IsFolded : (sum : ℕ) (w : Acc ◌<◌ sum) → IsFolded sum (fold_acc sum w)
unfolding fold_acc
fold_acc-IsFolded sum (Acc.intro _ smaller) = elim (dec_lt 0 (sum >>> 16)) [
  | yes h ↦
      let next = bit_and sum 0xFFFF + (sum >>> 16) in
      let low : bit_and sum 0xFFFF ≡ sum % 2 ^ 16 = bit_and_low 16 sum in
      let rest = fold_acc-IsFolded next (smaller next (omega arith)) in
      rw (dif_pos _ le_prop h) (record {
        removed = rest.removed + sum / 2 ^ 16;
        congruent = omega (arith, low);
        small = rest.small;
        kept = λ p. rest.kept (omega (arith, low));
      })
  | no h ↦
      rw (dif_neg _ h)
        (record { removed = 0; congruent = omega arith; small = omega arith; kept = λ p. p })
]

pub fold_carries-IsFolded : (sum : ℕ) → IsFolded sum (fold_carries sum)
unfolding fold_carries
fold_carries-IsFolded sum = fold_acc-IsFolded sum (lt_wf.apply sum)

-- The sum of RFC 8200, 8.1, over a UDP datagram of `size` bytes: both addresses, the length, the
-- next header and the datagram itself.
abbrev pub datagram_sum : Bytes → ℕ → Bytes → Bytes → ℕ
datagram_sum packet size src dst =
    word_sum (take 16 src)
    + word_sum (take 16 dst)
    + size
    + ipproto_udp
    + word_sum (take size packet)

-- The checksum completes a sum to a positive multiple of 0xFFFF, and is never zero.
pub record Completes (sum checksum : ℕ) : Type 0 where
  pub times : ℕ
  pub total : sum + checksum ≡ 0xFFFF * suc times
  pub nonzero : 0 < checksum
  pub word : checksum ≤ 0xFFFF

complement-Completes :
    (sum : ℕ)
    → 0 < sum
    → let result = u16 (2 ^ 64 - 1 - fold_carries sum) in
      Completes sum (if result == 0 then 0xFFFF else result)
complement-Completes sum pos =
    let f = fold_carries-IsFolded sum in
    let p = f.kept pos in
    elim (ℕ_discrete (fold_carries sum) 0xFFFF) [
      | yes e ↦
          let z : u16 (2 ^ 64 - 1 - fold_carries sum) ≡ 0 = omega (arith, f.small, e) in
          rw z (record {
            times = f.removed + 1;
            total = omega (arith, f.congruent, e);
            nonzero = omega arith;
            word = omega arith;
          })
      | no ne ↦
          let z : u16 (2 ^ 64 - 1 - fold_carries sum) ≡ 0xFFFF - fold_carries sum =
            omega (arith, f.small) in
          rw z (record {
            times = f.removed;
            total = ground (arith, f.congruent, f.small, ne);
            nonzero = ground (arith, f.small, ne);
            word = ground arith;
          })
    ]

-- `udp_checksum` on readable addresses and a readable datagram of less than 64 KiB reads nothing
-- out of range, and returns the number that completes the datagram's sum.
pub udp_checksum-Completes :
    (packet : Bytes) (size : ℕ) (src dst : Bytes)
    → IsBytes packet
    → IsBytes src
    → IsBytes dst
    → size ≤ length packet
    → 16 ≤ length src
    → 16 ≤ length dst
    → size < 2 ^ 16
    → (c : ℕ) × (udp_checksum packet size src dst ≡ some c)
      × Completes (datagram_sum packet size src dst) c
unfolding udp_checksum
udp_checksum-Completes packet size src dst bp bs bd fp fs fd small =
    let ws = word_sum (take 16 src) in
    let wd = word_sum (take 16 dst) in
    let bound_s = word_sum_bound 16 src bs in
    let bound_d = word_sum_bound 16 dst bd in
    let first : csum_add 0 src 16 ≡ some ws =
      csum_add_lem 0 src 16 bs fs (omega arith) ∙ ap some (add.zero ws) in
    let high : u64 (ws + wd + bit_and (u32 (size >>> 16)) 0xFFFF) ≡ ws + wd =
      omega (arith, bit_and_low 16 (u32 (size >>> 16))) in
    let low : u64 (ws + wd + bit_and (u32 size) 0xFFFF) ≡ ws + wd + size =
      omega (arith, bit_and_low 16 (u32 size)) in
    let next : u64 (ws + wd + size + ipproto_udp) ≡ ws + wd + size + ipproto_udp = omega arith in
    let total = datagram_sum packet size src dst in
    let result = u16 (2 ^ 64 - 1 - fold_carries total) in
    (
      (if result == 0 then 0xFFFF else result),
      rw (
        first,
        csum_add_lem ws dst 16 bd fd (omega arith),
        high,
        low,
        next,
        csum_add_lem (ws + wd + size + ipproto_udp) packet size bp fp (omega arith),
      ),
      complement-Completes total (omega arith),
    )
