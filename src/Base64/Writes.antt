-- ===== src/Base64/Writes.antt =====
-- The writes of the decoder, and the padding at the end of a text.
use native.Mathlib.Numerals.{unary_clauses}
use mathlib.Core.List.{append_assoc}
use schc_work.Common.{
  ℕ, zero, suc, ◌+◌, ◌-◌, ◌*◌, ◌/◌, ◌%◌, ◌^◌, ◌≤◌, ◌<◌, ◌≡◌, refl, sym, ◌∙◌, true, false, inl, inr,
  some, [], ◌∷◌, ◌++◌, length, get_elem?, bit_and, bit_or, Bytes, IsByte, arith, ltb, ◌==◌,
  if◌then◌else◌, ◌<<<◌, ◌>>>◌, u64, store, Bool-cases, length-append, set-append,
}
use schc_work.Common.Bits.{bit_or_low, bit_and_low}
use schc_work.Base64.{pad, is_pad, strip, decode_word, write_group, decode_loop}

-- A store behind `before` and `mid`.
pub store-append :
    (before mid : Bytes) (x : ℕ) (after : Bytes) (i v : ℕ)
    → i ≡ length before + length mid
    → store (before ++ (mid ++ x ∷ after)) i v ≡ some (before ++ (mid ++ v ∷ after))
store-append before mid x after i v e =
    let lengths : length (before ++ mid) ≡ i = length-append before mid ∙ sym e in
    let more : length (x ∷ after) ≡ length after + 1 = simp unary_clauses (omega arith) in
    let inside : ltb i (length ((before ++ mid) ++ x ∷ after)) ≡ true =
      ground (arith, length-append (before ++ mid) (x ∷ after), more, lengths) in
    rw
      (
        sym (append_assoc before mid (x ∷ after)),
        inside,
        set-append (before ++ mid) x after v i (sym lengths),
        append_assoc before mid (v ∷ after),
      )
      refl

-- The padding at the end, among the first `i` characters.
unfoldable pub trail : Bytes → ℕ → ℕ
trail text zero = 0
trail text (suc i) = let rest = suc (trail text i) in if is_pad (get_elem? text i) then rest else 0

pub trail-cons :
    (c : ℕ) (text : Bytes) (i : ℕ) → (c == pad) ≡ false → trail (c ∷ text) (suc i) ≡ trail text i
unfolding trail is_pad
trail-cons c text zero e = rw e refl
trail-cons c text (suc i) e = rw (trail-cons c text i e) refl

pub strip-trail :
    (text : Bytes) (i ret : ℕ)
    → trail text i ≤ ret
    → ret < 2 ^ 64
    → strip text i ret ≡ ret - trail text i
unfolding trail strip
strip-trail text zero ret h l = omega arith
strip-trail text (suc i) ret h l = elim (Bool-cases (is_pad (get_elem? text i))) [
  | inl at ↦
      let less : suc (trail text i) ≤ ret = rw at at h in
      let one : suc (trail text i) ≡ trail text i + 1 = simp unary_clauses (omega arith) in
      let wrapped : u64 (ret + (2 ^ 64 - 1)) ≡ ret - 1 = omega (arith, less, one, l) in
      rw (at, wrapped, strip-trail text i (ret - 1) (omega (arith, less, one)) (omega (arith, l)))
        (omega (arith, one))
  | inr off ↦ rw off (omega arith)
]

-- The words of a round, as numbers.
pub word3 :
    (a b c : ℕ)
    → IsByte b
    → IsByte c
    → bit_or (bit_or (a <<< 8) b <<< 8) c ≡ a * 2 ^ 16 + (b * 2 ^ 8 + c)
word3 a b c hb hc = rw (bit_or_low 8 a b hb, bit_or_low 8 (a * 2 ^ 8 + b) c hc) (omega arith)

pub byte : (v n b : ℕ) → v / 2 ^ n % 256 ≡ b → bit_and (v >>> n) 0xFF ≡ b
byte v n b e = bit_and_low 8 (v / 2 ^ n) ∙ e

-- The writes of a full group at the place of three bytes.
pub write_group_full :
    (v a b c c2 c3 : ℕ) (done : Bytes) (x y z : ℕ) (after : Bytes)
    → v ≡ a * 2 ^ 16 + (b * 2 ^ 8 + c)
    → IsByte a
    → IsByte b
    → IsByte c
    → (c2 == pad) ≡ false
    → (c3 == pad) ≡ false
    → write_group v c2 c3 (length done) (done ++ x ∷ y ∷ z ∷ after)
      ≡ some (done ++ a ∷ b ∷ c ∷ after)
unfolding write_group
write_group_full v a b c c2 c3 done x y z after e ha hb hc no2 no3 =
    let first = byte v 16 a (omega (arith, e, ha, hb, hc)) in
    let second = byte v 8 b (omega (arith, e, ha, hb, hc)) in
    let third : bit_and v 0xFF ≡ c = bit_and_low 8 v ∙ omega (arith, e, ha, hb, hc) in
    rw
      (
        first,
        second,
        third,
        store-append done [] x (y ∷ z ∷ after) (length done) a (omega arith),
        no2,
        store-append done (a ∷ []) y (z ∷ after) (length done + 1) b (omega arith),
        no3,
        store-append done (a ∷ b ∷ []) z after (length done + 2) c (omega arith),
      )
      refl

-- The last byte of a text with one byte in its last group, and the last two.
pub write_group_one :
    (v a : ℕ) (done : Bytes) (x : ℕ) (after : Bytes)
    → v ≡ a * 2 ^ 16
    → IsByte a
    → write_group v pad pad (length done) (done ++ x ∷ after) ≡ some (done ++ a ∷ after)
unfolding write_group
write_group_one v a done x after e ha =
    rw
      (
        byte v 16 a (omega (arith, e, ha)),
        store-append done [] x after (length done) a (omega arith),
      )
      refl

pub write_group_two :
    (v a b c2 : ℕ) (done : Bytes) (x y : ℕ) (after : Bytes)
    → v ≡ a * 2 ^ 16 + b * 2 ^ 8
    → IsByte a
    → IsByte b
    → (c2 == pad) ≡ false
    → write_group v c2 pad (length done) (done ++ x ∷ y ∷ after) ≡ some (done ++ a ∷ b ∷ after)
unfolding write_group
write_group_two v a b c2 done x y after e ha hb no2 =
    rw
      (
        byte v 16 a (omega (arith, e, ha, hb)),
        byte v 8 b (omega (arith, e, ha, hb)),
        store-append done [] x (y ∷ after) (length done) a (omega arith),
        no2,
        store-append done (a ∷ []) y after (length done + 1) b (omega arith),
      )
      refl

pub decode_step :
    (c0 c1 c2 c3 : ℕ) (text : Bytes) (j v : ℕ) (out written : Bytes)
    → decode_word c0 c1 c2 c3 ≡ some v
    → write_group v c2 c3 j out ≡ some written
    → decode_loop (c0 ∷ c1 ∷ c2 ∷ c3 ∷ text) j out ≡ decode_loop text (j + 3) written
unfolding decode_loop
decode_step c0 c1 c2 c3 text j v out written e e' = rw (e, e') refl

pub length-three : (a b c : ℕ) (rest : Bytes) → length (a ∷ b ∷ c ∷ rest) ≡ length rest + 3
length-three a b c rest = simp unary_clauses (omega arith)
