-- ===== src/Base64/Padding.antt =====
-- A text that ends in four characters of padding.
use native.Mathlib.Numerals.{unary_clauses}
use schc_work.Common.{
  ℕ, ◌+◌, ◌-◌, ◌*◌, ◌/◌, ◌%◌, ◌^◌, ◌≤◌, ◌<◌, ◌≡◌, refl, sym, ap, ◌∙◌, Bool, true, false, inl, inr,
  none, some, [], ◌∷◌, ◌++◌, length, set, bit_and, Bytes, arith, ltb, ◌==◌, if◌then◌else◌, ◌>>=◌,
  ◌>>>◌, u64, store, All, Bool-cases, length-append, length-set, Option-cases,
}
use schc_work.Base64.{
  pad, b64_isvalidchar, is_pad, strip, b64_decoded_size, decode_word, write_group, decode_loop,
  all_valid, b64_decode,
}
use schc_work.Base64.Groups.{both}
use schc_work.Base64.Writes.{trail, trail-cons, strip-trail}

abbrev pads : Bytes
pads = pad ∷ pad ∷ pad ∷ pad ∷ []

store-length :
    (out : Bytes) (i v : ℕ) (written : Bytes)
    → store out i v ≡ some written
    → length written ≡ length out
store-length out i v written e = elim (Bool-cases (ltb i (length out))) [
  | inl inside ↦
      let there : some (set out i v) ≡ some written = rw inside at e in
      let same : set out i v ≡ written = cc in ap (λ b. length b) (sym same) ∙ length-set out i v
  | inr outside ↦ let never : none ≡ some written = rw outside at e in absurd (cc)
]

-- A write that may be left out.
step_length :
    (b : Bool) (out : Bytes) (i v : ℕ) (written : Bytes)
    → (if b then some out else store out i v) ≡ some written
    → length written ≡ length out
step_length true out i v written e = let same : out ≡ written = cc in ap (λ b. length b) (sym same)
step_length false out i v written e = store-length out i v written e

length-write_group :
    (v c2 c3 j : ℕ) (out written : Bytes)
    → write_group v c2 c3 j out ≡ some written
    → length written ≡ length out
unfolding write_group
length-write_group v c2 c3 j out written e =
    elim (Option-cases (store out j (bit_and (v >>> 16) 0xFF))) [
      | inl off ↦ let never : none ≡ some written = rw off at e in absurd (cc)
      | inr (out0, e0) ↦
          let rest : ((if c2 == pad then some out0 else store out0 (j + 1) (bit_and (v >>> 8) 0xFF))
                >>= λ out1. if c3 == pad then some out1 else store out1 (j + 2) (bit_and v 0xFF))
              ≡ some written =
            rw e0 at e in
          elim (Option-cases
            (if c2 == pad then some out0 else store out0 (j + 1) (bit_and (v >>> 8) 0xFF))) [
              | inl off ↦ let never : none ≡ some written = rw off at rest in absurd (cc)
              | inr (out1, e1) ↦
                  let last : (if c3 == pad then some out1 else store out1 (j + 2) (bit_and v 0xFF))
                      ≡ some written =
                    rw e1 at rest in
                  step_length (c3 == pad) out1 (j + 2) (bit_and v 0xFF) written last
                  ∙ (step_length (c2 == pad) out0 (j + 1) (bit_and (v >>> 8) 0xFF) out1 e1
                      ∙ store-length out j (bit_and (v >>> 16) 0xFF) out0 e0)
            ]
    ]

-- The decoder's step, wherever it ends.
decode_fails :
    (c0 c1 c2 c3 : ℕ) (text : Bytes) (j : ℕ) (out : Bytes)
    → ((v : ℕ) (written : Bytes)
        → write_group v c2 c3 j out ≡ some written
        → decode_loop text (j + 3) written ≡ none)
    → decode_loop (c0 ∷ c1 ∷ c2 ∷ c3 ∷ text) j out ≡ none
unfolding decode_loop
decode_fails c0 c1 c2 c3 text j out h = elim (Option-cases (decode_word c0 c1 c2 c3)) [
  | inl off ↦ rw off refl
  | inr (v, e) ↦ elim (Option-cases (write_group v c2 c3 j out)) [
    | inl off ↦ rw (e, off) refl
    | inr (written, e') ↦ rw (e, e') (h v written e')
  ]
]

past_end : (v c2 c3 j : ℕ) (out : Bytes) → length out ≤ j → write_group v c2 c3 j out ≡ none
unfolding write_group
past_end v c2 c3 j out h =
    let outside : ltb j (length out) ≡ false = ground (arith, h) in rw outside refl

-- The write of the last group is behind the buffer.
decode_loop_past :
    (text : Bytes) (j : ℕ) (out : Bytes)
    → length text % 4 ≡ 0
    → length out ≤ j + length text / 4 * 3
    → decode_loop (text ++ pads) j out ≡ none
unfolding decode_loop
decode_loop_past [] j out m h =
    decode_fails pad pad pad pad [] j out
      (λ v written e. absurd (cc (e, past_end v pad pad j out (omega (arith, h)))))
decode_loop_past (c0 ∷ []) j out m h = absurd (omega arith)
decode_loop_past (c0 ∷ c1 ∷ []) j out m h = absurd (omega arith)
decode_loop_past (c0 ∷ c1 ∷ c2 ∷ []) j out m h = absurd (omega arith)
decode_loop_past (c0 ∷ c1 ∷ c2 ∷ c3 ∷ text) j out m h =
    let more : length (c0 ∷ c1 ∷ c2 ∷ c3 ∷ text) ≡ length text + 4 =
      simp unary_clauses (omega arith) in
    decode_fails c0 c1 c2 c3 (text ++ pads) j out (λ v written e.
      decode_loop_past text (j + 3) written (omega (arith, m, more))
        (omega (arith, h, more, length-write_group v c2 c3 j out written e)))

trail-pads :
    (text : Bytes)
    → All (λ c. (c == pad) ≡ false) text
    → trail (text ++ pads) (length (text ++ pads)) ≡ 4
unfolding trail is_pad
trail-pads [] h = refl
trail-pads (c ∷ text) (hc, h) =
    trail-cons c (text ++ pads) (length (text ++ pads)) hc ∙ trail-pads text h

all_valid-append : (text : Bytes) → all_valid text ≡ true → all_valid (text ++ pads) ≡ true
unfolding all_valid b64_isvalidchar
all_valid-append [] h = refl
all_valid-append (c ∷ text) h =
    let (here, later) = both (b64_isvalidchar c) (all_valid text) h in
    rw (here, all_valid-append text later) refl

store-inside :
    (out : Bytes) (i v : ℕ) (written : Bytes) → store out i v ≡ some written → i < length out
store-inside out i v written e = elim (Bool-cases (ltb i (length out))) [
  | inl inside ↦ ground (arith, inside)
  | inr outside ↦ let never : none ≡ some written = rw outside at e in absurd (cc)
]

-- The buffer that is allocated, where its terminator can be written.
past_malloc :
    (malloc : ℕ → Bytes) (text : Bytes) (size : ℕ)
    → ((n : ℕ) → length (malloc n) ≡ n)
    → length text % 4 ≡ 0
    → length text < 2 ^ 62
    → All (λ c. (c == pad) ≡ false) text
    → size ≡ b64_decoded_size (text ++ pads)
    → (out : Bytes) → store (malloc (u64 (size + 1))) size 0 ≡ some out
    → length out ≤ length text / 4 * 3
unfolding b64_decoded_size strip is_pad
past_malloc malloc [] size sized m small clean at out e =
    let inside = store-inside (malloc (u64 (size + 1))) size 0 out e in
    absurd (omega (arith, at, inside, sized (u64 (size + 1))))
past_malloc malloc (c ∷ text) size sized m small clean at out e =
    let whole = c ∷ text in
    let n = length (whole ++ pads) in
    let four : n ≡ length whole + 4 = length-append whole pads in
    let padding = trail-pads whole clean in
    let some_byte : length whole ≡ length text + 1 = simp unary_clauses (omega arith) in
    let less : size ≡ n / 4 * 3 - 4 =
      at
      ∙ (strip-trail (whole ++ pads) n (n / 4 * 3) (omega (arith, padding, four, some_byte, m))
            (omega (arith, four, small))
          ∙ omega (arith, padding)) in
    omega (
      arith,
      store-length (malloc (u64 (size + 1))) size 0 out e,
      sized (u64 (size + 1)),
      less,
      four,
      m,
      small,
      some_byte,
    )

decode_past :
    (malloc : ℕ → Bytes) (text : Bytes) (size : ℕ)
    → ((out : Bytes)
        → store (malloc (u64 (size + 1))) size 0 ≡ some out
        → decode_loop text 0 out ≡ none)
    → size ≡ b64_decoded_size text
    → length text % 4 ≡ 0
    → all_valid text ≡ true
    → b64_decode malloc text ≡ none
unfolding b64_decode
decode_past malloc text size h at m valid =
    let groups : (length text % 4 == 0) ≡ true = ground (arith, m) in
    elim (Option-cases (store (malloc (u64 (size + 1))) size 0)) [
      | inl off ↦ rw (groups, valid, sym at, off) refl
      | inr (out, e) ↦ rw (groups, valid, sym at, e, h out e) refl
    ]

-- For malloc giving a buffer of the size that it is asked for, a text of complete groups of base64
-- characters without padding, shorter than 2 ^ 62, with four characters of padding behind it makes
-- b64_decode write outside of the buffer that it allocates.
pub b64_decode_past :
    (malloc : ℕ → Bytes) (text : Bytes)
    → ((n : ℕ) → length (malloc n) ≡ n)
    → length text % 4 ≡ 0
    → length text < 2 ^ 62
    → all_valid text ≡ true
    → All (λ c. (c == pad) ≡ false) text
    → b64_decode malloc (text ++ pad ∷ pad ∷ pad ∷ pad ∷ []) ≡ none
b64_decode_past malloc text sized m small valid clean =
    decode_past malloc (text ++ pads) (b64_decoded_size (text ++ pads))
      (λ out e. decode_loop_past text 0 out m (
        omega (
          arith,
          past_malloc malloc text (b64_decoded_size (text ++ pads)) sized m small clean refl out e,
        )))
      refl (omega (arith, m, length-append text pads)) (all_valid-append text valid)
