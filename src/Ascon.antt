-- ===== src/Ascon.antt =====
-- libs/ascon_integration/src/ascon_hmac.c and ascon_integration.c: the HMAC and the key derivation
-- for the OSCORE library. The hash of the ASCON library is a parameter.
pub mod Expand
pub mod Hkdf
pub mod Aead
mod Tests
use schc_work.Common.{
  ℕ, zero, suc, ◌+◌, ◌-◌, ◌*◌, ◌/◌, ◌%◌, ◌^◌, Bool, true, false, not, Option, none, some, List, [],
  ◌∷◌, ◌++◌, map, bit_xor, length, take, replicate, Bytes, overwrite, u8, u32, ltb, leb, ◌==◌,
  if◌then◌else◌, ◌>>=◌,
}

-- `enum err` of the OSCORE library, as far as these functions return it.
pub data CryptoErr : Type 0 where
  ok crypto_operation_not_implemented hkdf_failed : CryptoErr

-- `enum hash_alg`, as far as it is told apart.
pub data HashAlg : Type 0 where
  ascon_hash_256 other_hash : HashAlg

abbrev pub ascon_hash_size : ℕ
ascon_hash_size = 32

abbrev pub ascon_hmac_block_size : ℕ
ascon_hmac_block_size = 32

-- The hash of the ASCON library: its state, and `squeeze` of ASCON_HASH_SIZE bytes.
pub record AsconHash : Type 1 where
  pub AsconState : Type 0
  pub inithash : AsconState
  pub absorb : AsconState → Bytes → AsconState
  pub squeeze : AsconState → Bytes

-- Step 1 of `hmac_ascon`: the key hashed if it is longer than a block, else with zeros behind it.
pub normal_key : AsconHash → Bytes → Bytes
normal_key h key =
    if ltb ascon_hmac_block_size (length key)
    then h.squeeze (h.absorb h.inithash key)
    else key ++ replicate (ascon_hmac_block_size - length key) 0

-- One of the two hashes: the padded key, then the data.
pub keyed_hash : AsconHash → ℕ → Bytes → Bytes → Bytes
keyed_hash h pad k0 bytes =
    h.squeeze (h.absorb (h.absorb h.inithash (map (λ b. bit_xor b pad) k0)) bytes)

-- The bytes that `hmac_ascon` writes.
pub hmac_bytes : AsconHash → Bytes → Bytes → Bytes
unfolding keyed_hash
hmac_bytes h key msg = let k0 = normal_key h key in keyed_hash h 0x5c k0 (keyed_hash h 0x36 k0 msg)

-- `none` would be a return value other than 0, which this HMAC never gives.
pub hmac_ascon : AsconHash → Bytes → Bytes → Option Bytes
hmac_ascon h key msg = some (hmac_bytes h key msg)

pub extract_with : Option Bytes → CryptoErr × Bytes
extract_with none = (hkdf_failed, [])
extract_with (some prk) = (ok, prk)

-- The salt, with zeros in place of a null or empty one.
pub salt_or_zeros : Option Bytes → Bytes
salt_or_zeros none = replicate ascon_hash_size 0
salt_or_zeros (some []) = replicate ascon_hash_size 0
salt_or_zeros (some (b ∷ salt)) = b ∷ salt

-- `salt` is `none` for a null pointer; the result is the error with the key that was written.
pub hkdf_extract : AsconHash → HashAlg → Option Bytes → Bytes → CryptoErr × Bytes
hkdf_extract h other_hash salt ikm = (crypto_operation_not_implemented, [])
hkdf_extract h ascon_hash_256 salt ikm = extract_with (hmac_ascon h (salt_or_zeros salt) ikm)

-- How many bytes of the block go out: the whole, or the remainder on the last iteration.
pub copy_len : ℕ → ℕ → ℕ
copy_len len i =
    if ltb (len - (i - 1) * ascon_hash_size) ascon_hash_size
    then len % ascon_hash_size
    else ascon_hash_size

-- What follows the MAC of iteration `i`; a copy for `i = 0` would go in front of the output.
pub after_mac :
    ℕ
    → ℕ
    → Bytes
    → Option Bytes
    → (Bytes → Bytes → Option (CryptoErr × Bytes))
    → Option (CryptoErr × Bytes)
after_mac len i out none next = some (hkdf_failed, out)
after_mac len i out (some t) next =
    if i == 0
    then none
    else do out' ← overwrite out ((i - 1) * ascon_hash_size) (take (copy_len len i) t); next t out'

-- T(i-1) || info || i, with T(0) empty.
pub message : ℕ → Bytes → Bytes → Bytes
message i t info = (if ltb 1 i then t else []) ++ (info ++ i ∷ [])

-- `for (uint8_t i = 1; i <= iterations; i++)`; the first number that falls is the fuel, and `none`
-- also stands for a loop that has not ended with it.
pub expand_loop :
    AsconHash → Bytes → Bytes → ℕ → ℕ → ℕ → ℕ → Bytes → Bytes → Option (CryptoErr × Bytes)
expand_loop h prk info len iterations zero i t out = none
expand_loop h prk info len iterations (suc fuel) i t out =
    if leb i iterations
    then after_mac len i out (hmac_ascon h prk (message i t info))
        (expand_loop h prk info len iterations fuel (u8 (i + 1)))
    else some (ok, out)

-- `(out->len + ASCON_HASH_SIZE - 1) / ASCON_HASH_SIZE`, as a byte.
pub iterations_for : ℕ → ℕ
iterations_for len = u8 (u32 (len + ascon_hash_size - 1) / ascon_hash_size)

-- `out` is the object behind the pointer and `len` its claimed length.
pub hkdf_expand : AsconHash → HashAlg → Bytes → Bytes → Bytes → ℕ → Option (CryptoErr × Bytes)
hkdf_expand h other_hash prk info out len = some (crypto_operation_not_implemented, out)
hkdf_expand h ascon_hash_256 prk info out len =
    if ltb 255 (iterations_for len)
    then some (hkdf_failed, out)
    else expand_loop h prk info len (iterations_for len) 256 1 (replicate ascon_hash_size 0) out

-- `TRY` returns the first error.
pub expand_after : AsconHash → CryptoErr × Bytes → Bytes → Bytes → ℕ → Option (CryptoErr × Bytes)
expand_after h (ok, prk) info out len = hkdf_expand h ascon_hash_256 prk info out len
expand_after h (e, prk) info out len = some (e, out)

pub hkdf_ascon_hash_256 :
    AsconHash → Bytes → Option Bytes → Bytes → Bytes → ℕ → Option (CryptoErr × Bytes)
hkdf_ascon_hash_256 h master_secret master_salt info out len =
    expand_after h (hkdf_extract h ascon_hash_256 master_salt master_secret) info out len
