-- ===== src/Base64/Tests.antt =====
-- Texts, and the theorems at them.
use schc_work.Common.{
  ℕ, ◌≡◌, refl, true, none, some, [], ◌∷◌, ◌++◌, length, arith, Bytes, replicate, length-replicate,
}
use schc_work.Base64.{
  pad, char, encode_group, encode_loop, b64_encode, b64_encoded_size, b64_decode, all_valid,
  b64_isvalidchar,
}
use schc_work.Base64.RoundTrip.{b64_decode-encode}
use schc_work.Base64.Padding.{b64_decode_past}

-- "Man" and "Ma" of RFC 4648.
b64_encode_two : b64_encode (77 ∷ 97 ∷ []) ≡ some (some (84 ∷ 87 ∷ 69 ∷ pad ∷ []))
unfolding b64_encode encode_loop encode_group char
b64_encode_two = refl

abbrev fresh : ℕ → Bytes
fresh n = replicate n 170

b64_decode-encode_example :
    (text : Bytes) × (b64_encode (77 ∷ 97 ∷ 110 ∷ 255 ∷ []) ≡ some (some text))
    × (length text ≡ b64_encoded_size 4)
    × (b64_decode fresh text ≡ some (some (4, 77 ∷ 97 ∷ 110 ∷ 255 ∷ 0 ∷ [])))
b64_decode-encode_example =
    b64_decode-encode fresh (77 ∷ 97 ∷ 110 ∷ 255 ∷ []) (λ n. length-replicate n 170)
      (omega arith, (omega arith, (omega arith, (omega arith, tt)))) (omega arith) (omega arith)

abbrev man : Bytes
man = 84 ∷ 87 ∷ 70 ∷ 117 ∷ []

man_valid : all_valid man ≡ true
unfolding all_valid b64_isvalidchar
man_valid = refl

b64_decode_past_example : b64_decode fresh (man ++ pad ∷ pad ∷ pad ∷ pad ∷ []) ≡ none
b64_decode_past_example =
    b64_decode_past fresh man (λ n. length-replicate n 170) refl (omega arith) man_valid
      (refl, (refl, (refl, (refl, tt))))
