-- ===== src/Ascon/Aead/RoundTrip.antt =====
-- Decryption behind encryption.
use schc_work.Common.{
  ℕ, ◌+◌, ◌-◌, ◌^◌, ◌≤◌, ◌<◌, ◌≡◌, refl, sym, ap, ◌∙◌, true, false, some, ◌++◌, length, take, drop,
  Bytes, view, u32, ltb, arith, length-append,
}
use schc_work.Common.Access.{view-take, view_whole, overwrite_front}
use schc_work.Common.Slices.{take-append, drop-append_past}
use schc_work.Ascon.Aead.{
  ok, AeadAlg, AesOperation, encrypt, decrypt, ByteArray, AsconAead, tag_len_of, finish,
  aead_encrypt, aead_decrypt, by_operation, aead_with, aead, ascon_key_bytes, ascon_nonce_bytes,
}

-- What the library promises: a ciphertext as long as the text, a tag of the size asked for, and
-- that the text is recovered from both.
pub record IsAead (lib : AsconAead) : Type 0 where
  pub seals :
      (t : ℕ) (key nonce aad text : Bytes)
      → (c : Bytes) × (m : Bytes) × (lib.encrypt_trunc t key nonce aad text ≡ (true, (c, m)))
        × (length c ≡ length text)
        × (length m ≡ t)
        × (lib.decrypt_trunc t key nonce aad c m ≡ (true, text))

-- A text, a key, a nonce and associated data inside their objects.
pub record IsInput (t : ℕ) (input key nonce aad : ByteArray) : Type 0 where
  pub key_len : 16 ≤ key.len
  pub key_there : key.len ≤ length key.bytes
  pub nonce_len : 16 ≤ nonce.len
  pub nonce_there : nonce.len ≤ length nonce.bytes
  pub aad_there : aad.len ≤ length aad.bytes
  pub whole : length input.bytes ≡ input.len
  pub small : input.len + t < 2 ^ 32

-- The checks on the key, the nonce and the data pass.
aead_with_checked :
    (lib : AsconAead) (t : ℕ) (op : AesOperation) (input key nonce aad out tag : ByteArray)
    → 16 ≤ key.len
    → key.len ≤ length key.bytes
    → 16 ≤ nonce.len
    → nonce.len ≤ length nonce.bytes
    → aad.len ≤ length aad.bytes
    → aead_with lib (some t) op input key nonce aad out tag
      ≡ by_operation lib op t input
          (take 16 key.bytes)
          (take 16 nonce.bytes)
          (take aad.len aad.bytes)
          out
          tag
unfolding aead_with
aead_with_checked lib t op input key nonce aad out tag kl kt nl nt at =
    let long_key : ltb key.len ascon_key_bytes ≡ false = ground (arith, kl) in
    let long_nonce : ltb nonce.len ascon_nonce_bytes ≡ false = ground (arith, nl) in
    rw
      (
        long_key,
        long_nonce,
        view-take key.bytes 16 (omega (arith, kl, kt)),
        view-take nonce.bytes 16 (omega (arith, nl, nt)),
        view-take aad.bytes aad.len at,
      )
      refl

abbrev pub behind : Bytes → ByteArray → Bytes
behind bs a = bs ++ drop (length bs) a.bytes

encrypted :
    (lib : AsconAead) (t : ℕ) (input : ByteArray) (key nonce aad c m : Bytes) (out tag : ByteArray)
    → length input.bytes ≡ input.len
    → input.len ≤ out.len
    → out.len ≤ length out.bytes
    → t ≤ tag.len
    → tag.len ≤ length tag.bytes
    → lib.encrypt_trunc t key nonce aad input.bytes ≡ (true, (c, m))
    → length c ≡ length input.bytes
    → length m ≡ t
    → aead_encrypt lib t input key nonce aad out tag
      ≡ some (
        ok,
        record { bytes = behind c out; len = out.len },
        record { bytes = behind m tag; len = t },
      )
unfolding aead_encrypt finish
encrypted lib t input key nonce aad c m out tag whole room there tag_room tag_there e lc lm =
    let fits : ltb out.len input.len ≡ false = ground (arith, room) in
    let tag_fits : ltb tag.len t ≡ false = ground (arith, tag_room) in
    rw
      (
        fits,
        tag_fits,
        view_whole input.bytes input.len (sym whole),
        e,
        overwrite_front out.bytes c (omega (arith, lc, whole, room, there)),
        overwrite_front tag.bytes m (omega (arith, lm, tag_room, tag_there)),
      )
      refl

decrypted :
    (lib : AsconAead) (t n : ℕ) (key nonce aad c m text : Bytes) (out tag : ByteArray)
    → n ≡ length c
    → length m ≡ t
    → length text ≡ n
    → n + t < 2 ^ 32
    → n ≤ out.len
    → out.len ≤ length out.bytes
    → lib.decrypt_trunc t key nonce aad c m ≡ (true, text)
    → aead_decrypt lib t (record { bytes = c ++ m; len = n + t }) key nonce aad out tag
      ≡ some
          (ok, record { bytes = behind text out; len = n }, record { bytes = tag.bytes; len = t })
unfolding aead_decrypt finish
decrypted lib t n key nonce aad c m text out tag lc lm lt small room there e =
    let size : u32 ((n + t) + (2 ^ 32 - t)) ≡ n = omega (arith, small) in
    let fits : ltb out.len n ≡ false = ground (arith, room) in
    let long : ltb (n + t) t ≡ false = ground arith in
    let mac : drop ((n + t) - t) (c ++ m) ≡ m =
      drop-append_past c m ((n + t) - t) (omega (arith, lc)) in
    let front : view (c ++ m) n ≡ some c =
      view-take (c ++ m) n (omega (arith, lc, length-append c m))
      ∙ (ap (λ k. some (take k (c ++ m))) lc ∙ ap (λ x. some x) (take-append c m)) in
    rw
      (
        size,
        fits,
        long,
        mac,
        view_whole m t (sym lm),
        front,
        e,
        overwrite_front out.bytes text (omega (arith, lt, room, there)),
      )
      refl

-- For an AEAD of the library that keeps its promises, an algorithm of the three known ones, a text,
-- a key, a nonce and data inside their objects, the first with its exact size and with the tag
-- below 2 ^ 32 bytes, and room for the text and the tag: encryption is ok and writes a ciphertext to
-- the front of out and a tag, as long as the algorithm says, to the front of tag; and decryption of
-- the ciphertext with the tag behind it is ok and writes the text to the front of out, with its
-- length.
pub aead-decrypted :
    (lib : AsconAead) (alg : AeadAlg) (t : ℕ) (input key nonce aad out tag : ByteArray)
    → IsAead lib
    → tag_len_of alg ≡ some t
    → IsInput t input key nonce aad
    → input.len ≤ out.len
    → out.len ≤ length out.bytes
    → t ≤ tag.len
    → tag.len ≤ length tag.bytes
    → (c : Bytes) × (m : Bytes) × (aead lib (some alg) encrypt input key nonce aad out tag
        ≡ some (
          ok,
          record { bytes = behind c out; len = out.len },
          record { bytes = behind m tag; len = t },
        ))
      × (aead lib
            (some alg)
            decrypt
            (record { bytes = c ++ m; len = input.len + t })
            key
            nonce
            aad
            out
            tag
          ≡ some (
            ok,
            record { bytes = behind input.bytes out; len = input.len },
            record { bytes = tag.bytes; len = t },
          ))
unfolding aead by_operation
aead-decrypted lib alg t input key nonce aad out tag good known i room there tag_room tag_there =
    let key16 = take 16 key.bytes in
    let nonce16 = take 16 nonce.bytes in
    let aad_bytes = take aad.len aad.bytes in
    let (c, m, sealed, lc, lm, back) = good.seals t key16 nonce16 aad_bytes input.bytes in
    let enc =
      encrypted lib t input key16 nonce16 aad_bytes c m out tag i.whole room there tag_room
        tag_there sealed lc lm in
    let dec =
      decrypted lib t input.len key16 nonce16 aad_bytes c m input.bytes out tag (sym (lc ∙ i.whole))
        lm i.whole i.small room there back in
    (
      c,
      m,
      rw
          (
            known,
            aead_with_checked lib t encrypt input key nonce aad out tag i.key_len i.key_there
                i.nonce_len i.nonce_there i.aad_there,
          )
          enc,
      rw
          (
            known,
            aead_with_checked lib t decrypt (record { bytes = c ++ m; len = input.len + t }) key
                nonce aad out tag i.key_len i.key_there i.nonce_len i.nonce_there i.aad_there,
          )
          dec,
    )
