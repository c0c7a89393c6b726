-- ===== src/Ascon/Hkdf.antt =====
-- `hkdf_expand` and `hkdf_ascon_hash_256` against the definition of HKDF in RFC 5869.
use schc_work.Common.{
  ℕ, ◌+◌, ◌*◌, ◌/◌, ◌≤◌, ◌<◌, ◌≡◌, refl, false, Option, some, ◌++◌, arith, length, take, drop,
  Bytes, ltb,
}
use schc_work.Ascon.{
  hkdf_ascon_hash_256, hkdf_extract, extract_with, expand_after, salt_or_zeros, ok, ascon_hash_256,
  AsconHash, hmac_bytes, expand_loop, iterations_for, hkdf_expand,
}
use schc_work.Ascon.Expand.{okm, HasBlocks, hmac_ascon_lem, expand_loop-okm}

blocks_for : (len : ℕ) → len ≤ 254 * 32 → iterations_for len ≡ (len + 31) / 32
unfolding iterations_for
blocks_for len most = omega arith

blocks_wrap : (len : ℕ) → 255 * 32 < len → len ≤ 256 * 32 → iterations_for len ≡ 0
unfolding iterations_for
blocks_wrap len lo hi = omega arith

-- With a hash of 32 bytes and at most 254 blocks asked for in an object that holds them,
-- `hkdf_expand` returns `ok` after the first `len` bytes of T(1) || T(2) || ... of RFC 5869, over
-- `hmac_ascon`, are written, and leaves the rest of the object as it was.
pub hkdf_expand-okm :
    (h : AsconHash) (prk info : Bytes)
    → HasBlocks h
    → (out : Bytes) (len : ℕ) → len ≤ 254 * 32
    → len ≤ length out
    → hkdf_expand h ascon_hash_256 prk info out len
      ≡ some (ok, take len (okm (hmac_bytes h) prk info ((len + 31) / 32)) ++ drop len out)
unfolding hkdf_expand
hkdf_expand-okm h prk info size out len most room =
    let n = (len + 31) / 32 in
    let count : iterations_for len ≡ n = blocks_for len most in
    let within : ltb 255 n ≡ false = ground arith in
    rw (count, within)
      (expand_loop-okm h prk info size n len out (omega arith) (omega arith) (omega arith) room)

-- For more than 255 and up to 256 blocks the count wraps to 0: `hkdf_expand` returns `ok` and has
-- written nothing, where the RFC asks for an error.
pub hkdf_expand_unwritten :
    (h : AsconHash) (prk info out : Bytes) (len : ℕ)
    → 255 * 32 < len
    → len ≤ 256 * 32
    → hkdf_expand h ascon_hash_256 prk info out len ≡ some (ok, out)
unfolding hkdf_expand
hkdf_expand_unwritten h prk info out len lo hi =
    rw (blocks_wrap len lo hi) (unfold expand_loop in refl)

-- The key derivation as a whole, with a hash of 32 bytes and at most
-- 254 blocks in an object that holds them: the key is extracted with the salt, or with 32 zeros in
-- place of a null or empty salt, and the output is that of HKDF-Expand in RFC 5869 with that key.
pub hkdf_ascon_hash_256-okm :
    (h : AsconHash)
    → HasBlocks h
    → (master_secret : Bytes) (master_salt : Option Bytes) (info out : Bytes) (len : ℕ)
    → len ≤ 254 * 32
    → len ≤ length out
    → hkdf_ascon_hash_256 h master_secret master_salt info out len
      ≡ some (
        ok,
        take len (
              okm
                (hmac_bytes h)
                (hmac_bytes h (salt_or_zeros master_salt) master_secret)
                info
                ((len + 31) / 32))
            ++ drop len out,
      )
unfolding hkdf_ascon_hash_256 hkdf_extract expand_after extract_with
hkdf_ascon_hash_256-okm h size master_secret master_salt info out len most room =
    let prk = hmac_bytes h (salt_or_zeros master_salt) master_secret in
    rw (hmac_ascon_lem h (salt_or_zeros master_salt) master_secret)
      (hkdf_expand-okm h prk info size out len most room)
