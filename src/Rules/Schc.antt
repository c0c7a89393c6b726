-- ===== src/Rules/Schc.antt =====
-- The specification that the rules are read by: matching, compression and decompression of header
-- fields as RFC 8724 describes them, on the values of a header's fields as bits.
pub mod Lossless
use schc_work.Common.{
  ℕ, zero, suc, ◌+◌, ◌-◌, ◌*◌, ◌/◌, ◌%◌, ◌^◌, ◌≡◌, Bool, true, false, not, ◌&&◌, ◌||◌, Option, none,
  some, List, [], ◌∷◌, ◌++◌, length, get_elem?, take, drop, ltb, leb, ◌==◌, if◌then◌else◌, ◌>>=◌,
}
use schc_work.Rules.{
  BitString, TargetValue, tv_none, tv_bit_string, tv_mapped_values, Mo, mo_equal, mo_ignore,
  mo_mapping, mo_msb, Cda, cda_not_sent, cda_value_sent, cda_mapping_sent, cda_lsb,
  cda_compute_length, cda_compute_checksum, RuleField,
}
use schc_work.Rules.Bits.{
  Bits, to_bits, of_bits, byte_bits, read_bits, read_number, size_bits, read_size,
}

unfoldable pub target_bits : BitString → Bits
target_bits s = take s.size (drop s.offset (byte_bits s.ptr))

unfoldable pub same_bit : Bool → Bool → Bool
same_bit true b = b
same_bit false b = not b

unfoldable pub same_bits : Bits → Bits → Bool
same_bits [] [] = true
same_bits [] (c ∷ cs) = false
same_bits (b ∷ bs) [] = false
same_bits (b ∷ bs) (c ∷ cs) = same_bit b c && same_bits bs cs

abbrev pub one_later : Option ℕ → Option ℕ
one_later none = none
one_later (some i) = some (suc i)

-- The place of a value in a mapping list.
unfoldable pub index_of : Bits → List BitString → Option ℕ
index_of v [] = none
index_of v (s ∷ values) =
    let later = index_of v values in if same_bits v (target_bits s) then some 0 else one_later later

-- The bits that hold every index of a list of this length.
unfoldable pub index_width : ℕ → ℕ
index_width n =
    if leb n 2 then 1 else if leb n 4 then 2 else if leb n 8 then 3 else if leb n 16 then 4 else 8

unfoldable pub is_some {ℓ} : {A : Type ℓ} → Option A → Bool
is_some none = false
is_some (some a) = true

-- The matching operators.
unfoldable pub matches_target : Mo → TargetValue → Bits → Bool
matches_target mo_equal (tv_bit_string s) v = same_bits v (target_bits s)
matches_target mo_equal _ v = false
matches_target mo_ignore t v = true
matches_target mo_mapping (tv_mapped_values values) v = is_some (index_of v values)
matches_target mo_mapping _ v = false
matches_target (mo_msb n) (tv_bit_string s) v =
    leb n (length v) && same_bits (take n v) (take n (target_bits s))
matches_target (mo_msb n) _ v = false

-- A field of fixed length has this many bits; one of variable length has whole bytes.
unfoldable pub matches_size : ℕ → Bits → Bool
matches_size zero v = length v % 8 == 0 && ltb (length v) (2 ^ 16)
matches_size (suc n) v = length v == suc n

unfoldable pub matches_field : RuleField → Bits → Bool
matches_field f v = matches_size f.bits v && matches_target f.mo f.target v

unfoldable pub matches_fields : List RuleField → List Bits → Bool
matches_fields [] [] = true
matches_fields [] (v ∷ values) = false
matches_fields (f ∷ fields) [] = false
matches_fields (f ∷ fields) (v ∷ values) = matches_field f v && matches_fields fields values

-- A residue, behind its size in bytes if the field has a variable length.
unfoldable pub send : ℕ → Bits → Bits
send zero v = size_bits (length v / 8) ++ v
send (suc n) v = v

-- The residue that is received: `fixed` bits of a field of fixed length.
pub receive : ℕ → ℕ → Bits → Option (Bits × Bits)
receive zero fixed bits = do (size, rest) ← read_size bits; read_bits (size * 8) rest
receive (suc n) fixed bits = read_bits fixed bits

-- The number of leading bits that MSB compares.
unfoldable pub msb : Mo → ℕ
msb (mo_msb n) = n
msb _ = 0

unfoldable pub index_or_zero : Option ℕ → ℕ
index_or_zero none = 0
index_or_zero (some i) = i

-- What a field adds to the residue.
unfoldable pub compress_as : Cda → TargetValue → Mo → ℕ → Bits → Bits
compress_as cda_not_sent t mo n v = []
compress_as cda_value_sent t mo n v = send n v
compress_as cda_mapping_sent (tv_mapped_values values) mo n v =
    to_bits (index_width (length values)) (index_or_zero (index_of v values))
compress_as cda_mapping_sent _ mo n v = []
compress_as cda_lsb t mo n v = send n (drop (msb mo) v)
compress_as cda_compute_length t mo n v = []
compress_as cda_compute_checksum t mo n v = []

abbrev pub compress_field : RuleField → Bits → Bits
compress_field f v = compress_as f.cda f.target f.mo f.bits v

-- What a field takes from the residue: its value, or `none` if it is left to be computed.
pub decompress_as : Cda → TargetValue → Mo → ℕ → Bits → Option (Option Bits × Bits)
decompress_as cda_not_sent (tv_bit_string s) mo n bits = some (some (target_bits s), bits)
decompress_as cda_not_sent _ mo n bits = none
decompress_as cda_value_sent t mo n bits = do (v, rest) ← receive n n bits; some (some v, rest)
decompress_as cda_mapping_sent (tv_mapped_values values) mo n bits = do
  (i, rest) ← read_number (index_width (length values)) bits
  s ← get_elem? values i
  some (some (target_bits s), rest)
decompress_as cda_mapping_sent _ mo n bits = none
decompress_as cda_lsb (tv_bit_string s) mo n bits = do
  (v, rest) ← receive n (n - msb mo) bits
  some (some (take (msb mo) (target_bits s) ++ v), rest)
decompress_as cda_lsb _ mo n bits = none
decompress_as cda_compute_length t mo n bits = some (none, bits)
decompress_as cda_compute_checksum t mo n bits = some (none, bits)

abbrev pub decompress_field : RuleField → Bits → Option (Option Bits × Bits)
decompress_field f bits = decompress_as f.cda f.target f.mo f.bits bits

unfoldable pub compress : List RuleField → List Bits → Bits
compress [] values = []
compress (f ∷ fields) [] = []
compress (f ∷ fields) (v ∷ values) = compress_field f v ++ compress fields values

pub decompress : List RuleField → Bits → Option (List (Option Bits) × Bits)
decompress [] bits = some ([], bits)
decompress (f ∷ fields) bits = do
  (v, rest) ← decompress_field f bits
  (values, rest') ← decompress fields rest
  some (v ∷ values, rest')

-- A value after the way through: a computed field is left out, an ignored one that is not sent has
-- the rule's value, any other the value that it had.
unfoldable pub restored_as : Cda → TargetValue → Mo → Bits → Option Bits
restored_as cda_compute_length t mo v = none
restored_as cda_compute_checksum t mo v = none
restored_as cda_not_sent (tv_bit_string s) mo_ignore v = some (target_bits s)
restored_as _ t mo v = some v

unfoldable pub restored : List RuleField → List Bits → List (Option Bits)
restored [] values = []
restored (f ∷ fields) [] = []
restored (f ∷ fields) (v ∷ values) = restored_as f.cda f.target f.mo v ∷ restored fields values

-- A field that RFC 8724 gives a meaning to: the action fits the operator and the target value.
unfoldable pub valid_as : Cda → TargetValue → Mo → ℕ → Bool
valid_as cda_not_sent (tv_bit_string s) mo_equal n = true
valid_as cda_not_sent (tv_bit_string s) mo_ignore n = true
valid_as cda_value_sent t mo n = true
valid_as cda_mapping_sent (tv_mapped_values values) mo_mapping n = leb (length values) 256
valid_as cda_lsb (tv_bit_string s) (mo_msb m) zero = m % 8 == 0
valid_as cda_lsb (tv_bit_string s) (mo_msb m) (suc n) = leb m (suc n)
valid_as cda_compute_length t mo n = true
valid_as cda_compute_checksum t mo n = true
valid_as _ _ _ _ = false

unfoldable pub valid_fields : List RuleField → Bool
valid_fields [] = true
valid_fields (f ∷ fields) = valid_as f.cda f.target f.mo f.bits && valid_fields fields
