-- ===== src/Ascon/Tests.antt =====
-- The theorems on the key derivation at a concrete hash.
use schc_work.Common.{
  ℕ, ◌+◌, ◌%◌, ◌≤◌, ◌≡◌, refl, none, some, [], ◌∷◌, ◌++◌, arith, length, take, drop, replicate,
  Bytes, length-replicate,
}
use schc_work.Ascon.{
  ok, ascon_hash_256, AsconHash, hmac_bytes, hkdf_expand, hkdf_ascon_hash_256, salt_or_zeros,
}
use schc_work.Ascon.Expand.{HasBlocks, okm}
use schc_work.Ascon.Hkdf.{hkdf_expand-okm, hkdf_ascon_hash_256-okm}

-- A hash whose state is the number of bytes absorbed, and its blocks repeat it.
abbrev counting : AsconHash
counting = record {
  AsconState = ℕ;
  inithash = 0;
  absorb = λ s bytes. s + length bytes;
  squeeze = λ s. replicate 32 (s % 256);
}

counting-HasBlocks : HasBlocks counting
counting-HasBlocks s = refl

-- 40 bytes in an object of 48.
abbrev object : Bytes
object = replicate 48 7

hkdf_expand-okm_example :
    hkdf_expand counting ascon_hash_256 (1 ∷ []) (2 ∷ 3 ∷ []) object 40
    ≡ some (ok, take 40 (okm (hmac_bytes counting) (1 ∷ []) (2 ∷ 3 ∷ []) 2) ++ drop 40 object)
hkdf_expand-okm_example =
    hkdf_expand-okm counting (1 ∷ []) (2 ∷ 3 ∷ []) counting-HasBlocks object 40 (omega arith)
      (omega arith)

hkdf_ascon_hash_256-okm_example :
    hkdf_ascon_hash_256 counting (9 ∷ []) none (2 ∷ 3 ∷ []) object 40
    ≡ some (
      ok,
      take 40 (
            okm
              (hmac_bytes counting)
              (hmac_bytes counting (salt_or_zeros none) (9 ∷ []))
              (2 ∷ 3 ∷ [])
              2)
          ++ drop 40 object,
    )
hkdf_ascon_hash_256-okm_example =
    hkdf_ascon_hash_256-okm counting counting-HasBlocks (9 ∷ []) none (2 ∷ 3 ∷ []) object 40
      (omega arith) (omega arith)

large_fits : 8160 ≤ length {A = ℕ} (replicate 8160 0)
large_fits = omega (arith, length-replicate {A = ℕ} 8160 0)
