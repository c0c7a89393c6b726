-- ===== src/Base64/RoundTrip.antt =====
-- The decoder on a text of the encoder.
use schc_work.Common.{
  ℕ, zero, suc, ◌+◌, ◌*◌, ◌/◌, ◌%◌, ◌^◌, ◌<◌, ◌≡◌, refl, ap, ◌∙◌, true, false, some, [], ◌∷◌, ◌++◌,
  length, set, Bytes, IsBytes, arith, ltb, ◌==◌, u64, take, length-take,
}
use schc_work.Base64.{b64_encode, b64_encoded_size, b64_decoded_size, b64_decode}
use schc_work.Base64.Writes.{strip-trail}
use schc_work.Base64.Texts.{IsText, encode_loop-IsText}

set_last : (buf : Bytes) (n v : ℕ) → length buf ≡ n + 1 → set buf n v ≡ take n buf ++ v ∷ []
set_last [] n v e = absurd (omega arith)
set_last (x ∷ []) zero v e = refl
set_last (x ∷ y ∷ buf) zero v e = absurd (omega arith)
set_last (x ∷ buf) (suc n) v e =
    let fewer : length buf ≡ n + 1 = omega (arith, e) in ap (◌∷◌ x) (set_last buf n v fewer)

decoded_size :
    (input text : Bytes)
    → length input < 2 ^ 62
    → IsText input text
    → b64_decoded_size text ≡ length input
unfolding b64_decoded_size
decoded_size input text small t =
    strip-trail text (length text) (length text / 4 * 3) (omega (arith, t.groups, t.pads))
      (omega (arith, t.groups, small))
    ∙ omega (arith, t.groups, t.pads)

-- The terminator is written first, the bytes in front of it.
decoded_text :
    (malloc : ℕ → Bytes) (input text : Bytes)
    → ((n : ℕ) → length (malloc n) ≡ n)
    → length input < 2 ^ 62
    → IsText input text
    → b64_decode malloc text ≡ some (some (length input, input ++ 0 ∷ []))
unfolding b64_decode
decoded_text malloc input text sized small t =
    let len = length input in
    let buf = malloc (len + 1) in
    let groups : (length text % 4 == 0) ≡ true =
      (let zeros : length text % 4 ≡ 0 = omega (arith, t.groups) in ground (arith, zeros)) in
    let room : u64 (len + 1) ≡ len + 1 = omega (arith, small) in
    let inside : ltb len (length buf) ≡ true = ground (arith, sized (len + 1)) in
    let fits : length (take len buf) ≡ len = length-take len buf (omega (arith, sized (len + 1))) in
    rw
      (
        groups,
        t.valid,
        decoded_size input text small t,
        room,
        inside,
        set_last buf len 0 (sized (len + 1)),
        t.decoded [] (take len buf) fits,
      )
      refl

-- For a buffer of fewer than 2 ^ 62 and at least one byte, and malloc giving a buffer of the size
-- that it is asked for with any contents: b64_encode gives a text of b64_encoded_size characters,
-- and b64_decode of the text gives the bytes, their number, and a 0 behind them.
pub b64_decode-encode :
    (malloc : ℕ → Bytes) (input : Bytes)
    → ((n : ℕ) → length (malloc n) ≡ n)
    → IsBytes input
    → 0 < length input
    → length input < 2 ^ 62
    → (text : Bytes) × (b64_encode input ≡ some (some text))
      × (length text ≡ b64_encoded_size (length input))
      × (b64_decode malloc text ≡ some (some (length input, input ++ 0 ∷ [])))
unfolding b64_encode b64_encoded_size
b64_decode-encode malloc input sized bytes some_byte small =
    let (text, t) = encode_loop-IsText input bytes in
    let nonempty : (length input == 0) ≡ false = ground (arith, some_byte) in
    (
      text,
      rw (nonempty, t.written) refl,
      ground (arith, t.groups),
      decoded_text malloc input text sized small t,
    )
