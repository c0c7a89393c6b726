-- ===== src/Rules/Schc/Lossless.antt =====
-- Decompression behind compression, field by field.
use mathlib.Core.List.{append_assoc}
use schc_work.Common.{
  ℕ, zero, suc, ◌-◌, ◌*◌, ◌/◌, ◌%◌, ◌^◌, ◌≤◌, ◌<◌, ◌≡◌, refl, sym, ap, ap₂, ◌∙◌, inl, inr, Bool,
  true, false, ◌&&◌, Option, none, some, List, [], ◌∷◌, ◌++◌, arith, length, get_elem?, take, drop,
  ltb, leb, ◌==◌, Bool-cases, length-drop,
}
use schc_work.Rules.{
  BitString, TargetValue, tv_none, tv_bit_string, tv_mapped_values, Mo, mo_equal, mo_ignore,
  mo_mapping, mo_msb, Cda, cda_not_sent, cda_value_sent, cda_mapping_sent, cda_lsb,
  cda_compute_length, cda_compute_checksum, RuleField,
}
use schc_work.Rules.Bits.{
  Bits, read_bits-append, read_number-to_bits, size_bits, read_size-size_bits,
}
use schc_work.Rules.Schc.{
  target_bits, same_bit, same_bits, one_later, index_of, index_width, is_some, matches_target,
  matches_size, matches_field, matches_fields, send, receive, msb, index_or_zero, compress_as,
  compress, decompress_as, decompress, restored_as, restored, valid_as, valid_fields,
}

pub both : (a b : Bool) → (a && b) ≡ true → (a ≡ true) × (b ≡ true)
both true b e = (refl, e)
both false b e = absurd (cc)

same_bit-eq : (b c : Bool) → same_bit b c ≡ true → b ≡ c
unfolding same_bit
same_bit-eq true c e = sym e
same_bit-eq false true e = absurd (cc)
same_bit-eq false false e = refl

pub same_bits-eq : (bs cs : Bits) → same_bits bs cs ≡ true → bs ≡ cs
unfolding same_bits
same_bits-eq [] [] e = refl
same_bits-eq [] (c ∷ cs) e = absurd (cc)
same_bits-eq (b ∷ bs) [] e = absurd (cc)
same_bits-eq (b ∷ bs) (c ∷ cs) e =
    let (first, rest) = both (same_bit b c) (same_bits bs cs) e in
    ap₂ (λ x xs. x ∷ xs) (same_bit-eq b c first) (same_bits-eq bs cs rest)

-- An index that was found is that of the value.
record IsIndex (v : Bits) (values : List BitString) (i : ℕ) : Type 0 where
  value : BitString
  inside : i < length values
  there : get_elem? values i ≡ some value
  same : target_bits value ≡ v

Found : Bits → List BitString → Type 0
Found v values = (i : ℕ) × (index_of v values ≡ some i) × IsIndex v values i

-- A value that is found behind the first one.
Found-later :
    (v : Bits) (s : BitString) (values : List BitString)
    → same_bits v (target_bits s) ≡ false
    → Found v values
    → Found v (s ∷ values)
unfolding index_of Found
Found-later v s values other (i, at, good) = (
  suc i,
  rw (other, at) refl,
  record {
    value = good.value;
    inside = omega (arith, good.inside);
    there = good.there;
    same = good.same;
  },
)

Found-first :
    (v : Bits) (s : BitString) (values : List BitString)
    → same_bits v (target_bits s) ≡ true
    → Found v (s ∷ values)
unfolding index_of Found
Found-first v s values here = (
  0,
  rw here refl,
  record {
    value = s;
    inside = omega arith;
    there = refl;
    same = sym (same_bits-eq v (target_bits s) here);
  },
)

is_some-one_later : (o : Option ℕ) → is_some (one_later o) ≡ is_some o
unfolding is_some
is_some-one_later none = refl
is_some-one_later (some i) = refl

index_of-Found :
    (v : Bits) (values : List BitString) → is_some (index_of v values) ≡ true → Found v values
unfolding index_of is_some
index_of-Found v [] e = absurd (cc)
index_of-Found v (s ∷ values) e = elim (Bool-cases (same_bits v (target_bits s))) [
  | inl here ↦ Found-first v s values here
  | inr other ↦
      let found : is_some (one_later (index_of v values)) ≡ true = rw other at e in
      Found-later v s values other
        (index_of-Found v values (sym (is_some-one_later (index_of v values)) ∙ found))
]

index_width-fits : (i n : ℕ) → n ≤ 256 → i < n → i < 2 ^ index_width n
unfolding index_width
index_width-fits i n most inside = ground arith

-- What `send` and `receive` agree on: whole bytes, or the number of bits that is expected.
IsSent : ℕ → ℕ → Bits → Type 0
IsSent zero k v = (length v % 8 ≡ 0) × (length v < 2 ^ 16)
IsSent (suc n) k v = length v ≡ k

receive-send :
    (n k : ℕ) (v rest : Bits) → IsSent n k v → receive n k (send n v ++ rest) ≡ some (v, rest)
unfolding receive send IsSent
receive-send zero k v rest (whole, short) =
    let size : length v / 8 < 2 ^ 16 = omega arith in
    rw
      (
        append_assoc (size_bits (length v / 8)) v rest,
        read_size-size_bits (length v / 8) (v ++ rest) size,
      )
      (read_bits-append v rest (length v / 8 * 8) (omega arith))
receive-send (suc n) k v rest e = read_bits-append v rest k (sym e)

matches_size-IsSent : (n : ℕ) (v : Bits) → matches_size n v ≡ true → IsSent n n v
unfolding matches_size IsSent
matches_size-IsSent zero v e = ground (arith, both (length v % 8 == 0) (ltb (length v) (2 ^ 16)) e)
matches_size-IsSent (suc n) v e = ground arith

mapping-through :
    (values : List BitString) (n : ℕ) (v rest : Bits)
    → leb (length values) 256 ≡ true
    → is_some (index_of v values) ≡ true
    → decompress_as cda_mapping_sent
        (tv_mapped_values values)
        mo_mapping
        n
        (compress_as cda_mapping_sent (tv_mapped_values values) mo_mapping n v ++ rest)
      ≡ some (some v, rest)
unfolding decompress_as compress_as index_or_zero Found
mapping-through values n v rest most found =
    let (i, at, good) = index_of-Found v values found in
    let few : length values ≤ 256 = ground arith in
    rw
      (
        at,
        read_number-to_bits (index_width (length values)) i rest
            (index_width-fits i (length values) few good.inside),
        good.there,
        good.same,
      )
      refl

take-drop : (n : ℕ) (v : Bits) → take n v ++ drop n v ≡ v
take-drop zero v = refl
take-drop (suc n) [] = refl
take-drop (suc n) (b ∷ v) = ap (λ w. b ∷ w) (take-drop n v)

lsb-IsSent :
    (s : BitString) (m n : ℕ) (v : Bits)
    → valid_as cda_lsb (tv_bit_string s) (mo_msb m) n ≡ true
    → leb m (length v) ≡ true
    → IsSent n n v
    → IsSent n (n - m) (drop m v)
unfolding valid_as IsSent
lsb-IsSent s m zero v valid inside (whole, short) = ground (arith, length-drop m v)
lsb-IsSent s m (suc n) v valid inside e = omega (arith, length-drop m v)

lsb-through :
    (s : BitString) (m n : ℕ) (v rest : Bits)
    → valid_as cda_lsb (tv_bit_string s) (mo_msb m) n ≡ true
    → matches_size n v ≡ true
    → matches_target (mo_msb m) (tv_bit_string s) v ≡ true
    → decompress_as cda_lsb
        (tv_bit_string s)
        (mo_msb m)
        n
        (compress_as cda_lsb (tv_bit_string s) (mo_msb m) n v ++ rest)
      ≡ some (some v, rest)
unfolding decompress_as compress_as msb matches_target
lsb-through s m n v rest valid size match =
    let (inside, front) =
      both (leb m (length v)) (same_bits (take m v) (take m (target_bits s))) match in
    let same : take m (target_bits s) ≡ take m v = sym (same_bits-eq _ _ front) in
    let sent = lsb-IsSent s m n v valid inside (matches_size-IsSent n v size) in
    rw (receive-send n (n - m) (drop m v) rest sent, same, take-drop m v) refl

through :
    (cda : Cda) (t : TargetValue) (mo : Mo) (n : ℕ) (v rest : Bits)
    → valid_as cda t mo n ≡ true
    → matches_size n v ≡ true
    → matches_target mo t v ≡ true
    → decompress_as cda t mo n (compress_as cda t mo n v ++ rest)
      ≡ some (restored_as cda t mo v, rest)
unfolding decompress_as compress_as restored_as valid_as matches_target
through cda_not_sent (tv_bit_string s) mo_equal n v rest valid size match =
    rw (same_bits-eq v (target_bits s) match) refl
through cda_not_sent (tv_bit_string s) mo_ignore n v rest valid size match = refl
through cda_not_sent (tv_bit_string s) mo_mapping n v rest valid size match = absurd (cc)
through cda_not_sent (tv_bit_string s) (mo_msb m) n v rest valid size match = absurd (cc)
through cda_not_sent tv_none mo n v rest valid size match = absurd (cc)
through cda_not_sent (tv_mapped_values values) mo n v rest valid size match = absurd (cc)
through cda_value_sent t mo n v rest valid size match =
    rw (receive-send n n v rest (matches_size-IsSent n v size)) refl
through cda_mapping_sent (tv_mapped_values values) mo_mapping n v rest valid size match =
    mapping-through values n v rest valid match
through cda_mapping_sent (tv_mapped_values values) mo_equal n v rest valid size match = absurd (cc)
through cda_mapping_sent (tv_mapped_values values) mo_ignore n v rest valid size match = absurd (cc)
through cda_mapping_sent (tv_mapped_values values) (mo_msb m) n v rest valid size match =
    absurd (cc)
through cda_mapping_sent tv_none mo n v rest valid size match = absurd (cc)
through cda_mapping_sent (tv_bit_string s) mo n v rest valid size match = absurd (cc)
through cda_lsb (tv_bit_string s) (mo_msb m) n v rest valid size match =
    lsb-through s m n v rest valid size match
through cda_lsb (tv_bit_string s) mo_equal n v rest valid size match = absurd (cc)
through cda_lsb (tv_bit_string s) mo_ignore n v rest valid size match = absurd (cc)
through cda_lsb (tv_bit_string s) mo_mapping n v rest valid size match = absurd (cc)
through cda_lsb tv_none mo n v rest valid size match = absurd (cc)
through cda_lsb (tv_mapped_values values) mo n v rest valid size match = absurd (cc)
through cda_compute_length t mo n v rest valid size match = refl
through cda_compute_checksum t mo n v rest valid size match = refl

-- A list of valid fields brings every header that it matches through, whatever follows.
pub decompress-compress :
    (fields : List RuleField) (values : List Bits) (rest : Bits)
    → valid_fields fields ≡ true
    → matches_fields fields values ≡ true
    → decompress fields (compress fields values ++ rest) ≡ some (restored fields values, rest)
unfolding decompress compress restored valid_fields matches_fields matches_field
decompress-compress [] [] rest valid match = refl
decompress-compress [] (v ∷ values) rest valid match = absurd (cc)
decompress-compress (f ∷ fields) [] rest valid match = absurd (cc)
decompress-compress (f ∷ fields) (v ∷ values) rest valid match =
    let (valid₁, valid₂) = both (valid_as f.cda f.target f.mo f.bits) (valid_fields fields) valid in
    let (match₁, match₂) = both (matches_field f v) (matches_fields fields values) match in
    let (size, target) = both (matches_size f.bits v) (matches_target f.mo f.target v) match₁ in
    let first = compress_as f.cda f.target f.mo f.bits v in
    let others = compress fields values in
    rw
      (
        append_assoc first others rest,
        through f.cda f.target f.mo f.bits v (others ++ rest) valid₁ size target,
        decompress-compress fields values rest valid₂ match₂,
      )
      refl
