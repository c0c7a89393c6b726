-- ===== src/Ascon/Aead.antt =====
-- libs/ascon_integration/src/ascon_integration.c: the authenticated encryption of the OSCORE
-- library's crypto interface, and its hash. The AEAD of the ASCON library is a parameter.
pub mod RoundTrip
mod Tests
use schc_work.Common.{
  ℕ, ◌+◌, ◌-◌, ◌*◌, ◌^◌, Bool, true, false, Option, none, some, List, ◌++◌, length, take, drop,
  Bytes, view, overwrite, u32, ltb, leb, if◌then◌else◌, ◌>>=◌,
}
use schc_work.Ascon.{HashAlg, ascon_hash_256, other_hash, ascon_hash_size}

-- `enum err` of the OSCORE library, as far as these functions return it.
pub data AeadErr : Type 0 where
  ok aead_failed oscore_invalid_algorithm_aead buffer_to_small : AeadErr
  crypto_operation_not_implemented wrong_parameter sha_failed : AeadErr

-- The algorithm of the security context, as far as it is told apart.
pub data AeadAlg : Type 0 where
  oscore_asconaead128 oscore_asconaead128_64 oscore_asconaead128_32 other_aead : AeadAlg

pub data AesOperation : Type 0 where
  encrypt decrypt : AesOperation

-- `struct byte_array`: the object behind the pointer, and the length that it claims.
pub record ByteArray : Type 0 where
  pub bytes : Bytes
  pub len : ℕ

-- The two functions of the ASCON library: from the bytes of the tag, the key, the nonce, the
-- associated data and the text, whether the status is not negative, and the bytes that are written.
pub record AsconAead : Type 0 where
  pub encrypt_trunc : ℕ → Bytes → Bytes → Bytes → Bytes → Bool × (Bytes × Bytes)
  pub decrypt_trunc : ℕ → Bytes → Bytes → Bytes → Bytes → Bytes → Bool × Bytes

abbrev pub ascon_key_bytes : ℕ
ascon_key_bytes = 16

abbrev pub ascon_nonce_bytes : ℕ
ascon_nonce_bytes = 16

pub tag_len_of : AeadAlg → Option ℕ
tag_len_of oscore_asconaead128 = some 16
tag_len_of oscore_asconaead128_64 = some 8
tag_len_of oscore_asconaead128_32 = some 4
tag_len_of other_aead = none

-- The error, `*out` and `*tag`.
abbrev pub AeadResult : Type 0
AeadResult = AeadErr × ByteArray × ByteArray

-- What follows the status `st` on either way.
pub finish : Bool → ByteArray → ByteArray → ℕ → AeadResult
finish false out tag tag_len = (aead_failed, out, tag)
finish true out tag tag_len = (ok, out, record tag { len = tag_len })

abbrev with_bytes : ByteArray → Bytes → ByteArray
with_bytes a written = record { bytes = written; len = a.len }

pub aead_encrypt :
    AsconAead → ℕ → ByteArray → Bytes → Bytes → Bytes → ByteArray → ByteArray → Option AeadResult
aead_encrypt lib tag_len input key nonce aad out tag =
    if ltb out.len input.len
    then some (buffer_to_small, out, tag)
    else if ltb tag.len tag_len
    then some (aead_failed, out, tag)
    else do
      text ← view input.bytes input.len
      let (st, (ciphertext, mac)) = lib.encrypt_trunc tag_len key nonce aad text
      out_bytes ← overwrite out.bytes 0 ciphertext
      tag_bytes ← overwrite tag.bytes 0 mac
      some (finish st (with_bytes out out_bytes) (with_bytes tag tag_bytes) tag_len)

-- The tag stands behind the ciphertext: the sizes are 32-bit differences. A tag in front of the
-- input is outside of its object.
pub aead_decrypt :
    AsconAead → ℕ → ByteArray → Bytes → Bytes → Bytes → ByteArray → ByteArray → Option AeadResult
aead_decrypt lib tag_len input key nonce aad out tag =
    let text_len = u32 (input.len + (2 ^ 32 - tag_len)) in
    if ltb out.len text_len
    then some (buffer_to_small, out, tag)
    else if ltb input.len tag_len
    then none
    else do
      mac ← view (drop (input.len - tag_len) input.bytes) tag_len
      ciphertext ← view input.bytes text_len
      let (st, text) = lib.decrypt_trunc tag_len key nonce aad ciphertext mac
      out_bytes ← overwrite out.bytes 0 text
      some (finish st (record { bytes = out_bytes; len = text_len }) tag tag_len)

pub by_operation :
    AsconAead
    → AesOperation
    → ℕ
    → ByteArray
    → Bytes
    → Bytes
    → Bytes
    → ByteArray
    → ByteArray
    → Option AeadResult
by_operation lib encrypt tag_len input key nonce aad out tag =
    aead_encrypt lib tag_len input key nonce aad out tag
by_operation lib decrypt tag_len input key nonce aad out tag =
    aead_decrypt lib tag_len input key nonce aad out tag

pub aead_with :
    AsconAead
    → Option ℕ
    → AesOperation
    → ByteArray
    → ByteArray
    → ByteArray
    → ByteArray
    → ByteArray
    → ByteArray
    → Option AeadResult
aead_with lib none op input key nonce aad out tag = some (oscore_invalid_algorithm_aead, out, tag)
aead_with lib (some tag_len) op input key nonce aad out tag =
    if ltb key.len ascon_key_bytes
    then some (aead_failed, out, tag)
    else if ltb nonce.len ascon_nonce_bytes
    then some (aead_failed, out, tag)
    else do
      key_bytes ← view key.bytes ascon_key_bytes
      nonce_bytes ← view nonce.bytes ascon_nonce_bytes
      aad_bytes ← view aad.bytes aad.len
      by_operation lib op tag_len input key_bytes nonce_bytes aad_bytes out tag

-- The first argument is the algorithm of `get_oscore_ctx()`, `none` for NULL.
pub aead :
    AsconAead
    → Option AeadAlg
    → AesOperation
    → ByteArray
    → ByteArray
    → ByteArray
    → ByteArray
    → ByteArray
    → ByteArray
    → Option AeadResult
aead lib none op input key nonce aad out tag = some (aead_failed, out, tag)
aead lib (some alg) op input key nonce aad out tag =
    aead_with lib (tag_len_of alg) op input key nonce aad out tag

-- What follows `crypto_hash`: whether it returned 0, and what it wrote.
pub finish_hash : Bool × Bytes → Bytes → Option (AeadErr × Option Bytes)
finish_hash (st, digest) out = do
  written ← overwrite out 0 digest
  some (if st then ok else sha_failed, some written)

pub hash_bytes :
    (Bytes → Bool × Bytes) → Option Bytes → ℕ → Option Bytes → ℕ → Option (AeadErr × Option Bytes)
hash_bytes crypto_hash none input_len out out_len = some (wrong_parameter, out)
hash_bytes crypto_hash (some input) input_len none out_len = some (wrong_parameter, none)
hash_bytes crypto_hash (some input) input_len (some out) out_len =
    if ltb out_len ascon_hash_size
    then some (buffer_to_small, some out)
    else do message ← view input input_len; finish_hash (crypto_hash message) out

-- `hash`, with `none` for a null pointer; the result is the error and the object behind `out`.
pub hash :
    (Bytes → Bool × Bytes)
    → HashAlg
    → Option Bytes
    → ℕ
    → Option Bytes
    → ℕ
    → Option (AeadErr × Option Bytes)
hash crypto_hash other_hash input input_len out out_len =
    some (crypto_operation_not_implemented, out)
hash crypto_hash ascon_hash_256 input input_len out out_len =
    hash_bytes crypto_hash input input_len out out_len
