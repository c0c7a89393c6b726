-- ===== src/Ascon/Aead/Tests.antt =====
-- The round trip at a concrete library.
use schc_work.Common.{
  ◌≡◌, refl, true, some, [], ◌∷◌, ◌++◌, length, replicate, arith, Bytes, length-replicate,
}
use schc_work.Ascon.Aead.{
  ok, oscore_asconaead128_64, encrypt, decrypt, ByteArray, AsconAead, aead, tag_len_of,
}
use schc_work.Ascon.Aead.RoundTrip.{IsAead, IsInput, behind, aead-decrypted}

-- A library that leaves the text as it is, with the size of the data as tag.
abbrev open_text : AsconAead
open_text = record {
  encrypt_trunc = λ t key nonce aad text. (true, (text, replicate t (length aad)));
  decrypt_trunc = λ t key nonce aad c m. (true, c);
}

open_text-IsAead : IsAead open_text
open_text-IsAead = record {
  seals = λ t key nonce aad text.
      (text, replicate t (length aad), refl, refl, length-replicate t (length aad), refl);
}

abbrev text : ByteArray
text = record { bytes = 72 ∷ 105 ∷ []; len = 2 }

abbrev sixteen : ByteArray
sixteen = record { bytes = replicate 16 5; len = 16 }

abbrev no_aad : ByteArray
no_aad = record { bytes = []; len = 0 }

abbrev room : ByteArray
room = record { bytes = replicate 12 0; len = 12 }

text-IsInput : IsInput 8 text sixteen sixteen no_aad
text-IsInput = record {
  key_len = omega arith;
  key_there = omega arith;
  nonce_len = omega arith;
  nonce_there = omega arith;
  aad_there = omega arith;
  whole = refl;
  small = omega arith;
}

short_tag : tag_len_of oscore_asconaead128_64 ≡ some 8
unfolding tag_len_of
short_tag = refl

aead-decrypted_example :
    (c : Bytes) × (m : Bytes) × (aead open_text
        (some oscore_asconaead128_64)
        encrypt
        text
        sixteen
        sixteen
        no_aad
        room
        room
      ≡ some (
        ok,
        record { bytes = behind c room; len = 12 },
        record { bytes = behind m room; len = 8 },
      ))
    × (aead open_text
          (some oscore_asconaead128_64)
          decrypt
          (record { bytes = c ++ m; len = 10 })
          sixteen
          sixteen
          no_aad
          room
          room
        ≡ some (
          ok,
          record { bytes = 72 ∷ 105 ∷ replicate 10 0; len = 2 },
          record { bytes = replicate 12 0; len = 8 },
        ))
aead-decrypted_example =
    aead-decrypted open_text oscore_asconaead128_64 8 text sixteen sixteen no_aad room room
      open_text-IsAead short_tag text-IsInput (omega arith) (omega arith) (omega arith)
      (omega arith)
