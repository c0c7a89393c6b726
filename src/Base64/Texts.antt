-- ===== src/Base64/Texts.antt =====
-- The text of a list of bytes.
use native.Mathlib.Numerals.{unary_clauses}
use mathlib.Core.List.{append_assoc}
use schc_work.Common.{
  ℕ, ◌+◌, ◌*◌, ◌/◌, ◌^◌, ◌≡◌, refl, ◌∙◌, true, false, some, [], ◌∷◌, ◌++◌, length, bit_or, Bytes,
  IsByte, IsBytes, arith, ◌<<<◌, length-append,
}
use schc_work.Common.Bits.{bit_or_low}
use schc_work.Base64.{pad, b64_isvalidchar, encode_loop, is_pad, decode_loop, all_valid}
use schc_work.Base64.Groups.{IsDigit, IsRound, encode_group-IsRound}
use schc_work.Base64.Writes.{
  trail, trail-cons, word3, write_group_full, write_group_one, write_group_two, decode_step,
  length-three,
}

-- The text of the bytes.
pub record IsText (bs text : Bytes) : Type 0 where
  pub written : encode_loop bs ≡ some text
  pub decoded :
      (done junk : Bytes)
      → length junk ≡ length bs
      → decode_loop text (length done) (done ++ (junk ++ 0 ∷ [])) ≡ some (done ++ (bs ++ 0 ∷ []))
  pub valid : all_valid text ≡ true
  pub groups : length text ≡ (length bs + 2) / 3 * 4
  pub pads : trail text (length text) + length bs ≡ (length bs + 2) / 3 * 3

pub decoded_group :
    (a b c : ℕ) (rest text : Bytes) (c0 c1 c2 c3 : ℕ) (done junk : Bytes)
    → IsByte a
    → IsByte b
    → IsByte c
    → IsRound (a * 2 ^ 16 + (b * 2 ^ 8 + c)) true true c0 c1 c2 c3
    → IsText rest text
    → length junk ≡ length rest + 3
    → decode_loop (c0 ∷ c1 ∷ c2 ∷ c3 ∷ text) (length done) (done ++ (junk ++ 0 ∷ []))
      ≡ some (done ++ (a ∷ b ∷ c ∷ rest ++ 0 ∷ []))
unfolding IsDigit
decoded_group a b c rest text c0 c1 c2 c3 done [] ha hb hc g later fit = absurd (omega arith)
decoded_group a b c rest text c0 c1 c2 c3 done (x ∷ []) ha hb hc g later fit = absurd (omega arith)
decoded_group a b c rest text c0 c1 c2 c3 done (x ∷ y ∷ []) ha hb hc g later fit =
    absurd (omega arith)
decoded_group a b c rest text c0 c1 c2 c3 done (x ∷ y ∷ z ∷ junk) ha hb hc g later fit =
    let v = a * 2 ^ 16 + (b * 2 ^ 8 + c) in
    let here =
      write_group_full v a b c c2 c3 done x y z (junk ++ 0 ∷ []) refl ha hb hc g.digit2.no_pad
        g.digit3.no_pad in
    let behind : length (done ++ a ∷ b ∷ c ∷ []) ≡ length done + 3 =
      length-append done (a ∷ b ∷ c ∷ []) in
    let moved = append_assoc done (a ∷ b ∷ c ∷ []) (junk ++ 0 ∷ []) in
    let ended = append_assoc done (a ∷ b ∷ c ∷ []) (rest ++ 0 ∷ []) in
    let same : length junk ≡ length rest = omega (arith, fit, length-three x y z junk) in
    let next = later.decoded (done ++ a ∷ b ∷ c ∷ []) junk same in
    decode_step c0 c1 c2 c3 text (length done) v (done ++ (x ∷ y ∷ z ∷ junk ++ 0 ∷ []))
      (done ++ (a ∷ b ∷ c ∷ junk ++ 0 ∷ [])) g.read here
    ∙ rw (behind, moved, ended) at next

pub IsText-group :
    (a b c : ℕ) (rest text : Bytes) (c0 c1 c2 c3 : ℕ)
    → IsByte a
    → IsByte b
    → IsByte c
    → IsRound (a * 2 ^ 16 + (b * 2 ^ 8 + c)) true true c0 c1 c2 c3
    → IsText rest text
    → IsText (a ∷ b ∷ c ∷ rest) (c0 ∷ c1 ∷ c2 ∷ c3 ∷ text)
unfolding encode_loop all_valid IsDigit
IsText-group a b c rest text c0 c1 c2 c3 ha hb hc g later =
    let bytes = length-three a b c rest in
    let chars : length (c0 ∷ c1 ∷ c2 ∷ c3 ∷ text) ≡ length text + 4 =
      simp unary_clauses (omega arith) in
    let same : trail (c0 ∷ c1 ∷ c2 ∷ c3 ∷ text) (length (c0 ∷ c1 ∷ c2 ∷ c3 ∷ text))
        ≡ trail text (length text) =
      trail-cons c0 (c1 ∷ c2 ∷ c3 ∷ text) (length (c1 ∷ c2 ∷ c3 ∷ text)) g.char0.no_pad
      ∙ (trail-cons c1 (c2 ∷ c3 ∷ text) (length (c2 ∷ c3 ∷ text)) g.char1.no_pad
          ∙ (trail-cons c2 (c3 ∷ text) (length (c3 ∷ text)) g.digit2.no_pad
              ∙ trail-cons c3 text (length text) g.digit3.no_pad)) in
    record {
      written = rw (word3 a b c hb hc, g.written, later.written) refl;
      decoded = λ done junk fit.
          decoded_group a b c rest text c0 c1 c2 c3 done junk ha hb hc g later (fit ∙ bytes);
      valid = rw (g.char0.valid, g.char1.valid, g.digit2.valid, g.digit3.valid) later.valid;
      groups = omega (arith, bytes, chars, later.groups);
      pads = omega (arith, bytes, same, later.pads);
    }

pub decoded_one :
    (a c0 c1 : ℕ) (done junk : Bytes)
    → IsByte a
    → IsRound (a * 2 ^ 16) false false c0 c1 pad pad
    → length junk ≡ 1
    → decode_loop (c0 ∷ c1 ∷ pad ∷ pad ∷ []) (length done) (done ++ (junk ++ 0 ∷ []))
      ≡ some (done ++ (a ∷ 0 ∷ []))
unfolding decode_loop
decoded_one a c0 c1 done [] ha g fit = absurd (omega arith)
decoded_one a c0 c1 done (x ∷ []) ha g fit =
    decode_step c0 c1 pad pad [] (length done) (a * 2 ^ 16) (done ++ x ∷ 0 ∷ [])
      (done ++ a ∷ 0 ∷ []) g.read (write_group_one (a * 2 ^ 16) a done x (0 ∷ []) refl ha)
decoded_one a c0 c1 done (x ∷ y ∷ junk) ha g fit = absurd (omega arith)

pub IsText-one :
    (a c0 c1 : ℕ)
    → IsByte a
    → IsRound (a * 2 ^ 16) false false c0 c1 pad pad
    → IsText (a ∷ []) (c0 ∷ c1 ∷ pad ∷ pad ∷ [])
unfolding encode_loop all_valid trail is_pad b64_isvalidchar
IsText-one a c0 c1 ha g =
    let word : (a <<< 8) <<< 8 ≡ a * 2 ^ 16 = omega arith in
    record {
      written = rw (word, g.written) refl;
      decoded = λ done junk fit. decoded_one a c0 c1 done junk ha g fit;
      valid = rw (g.char0.valid, g.char1.valid) refl;
      groups = refl;
      pads = rw g.char1.no_pad refl;
    }

pub decoded_two :
    (a b c0 c1 c2 : ℕ) (done junk : Bytes)
    → IsByte a
    → IsByte b
    → IsRound (a * 2 ^ 16 + b * 2 ^ 8) true false c0 c1 c2 pad
    → length junk ≡ 2
    → decode_loop (c0 ∷ c1 ∷ c2 ∷ pad ∷ []) (length done) (done ++ (junk ++ 0 ∷ []))
      ≡ some (done ++ (a ∷ b ∷ 0 ∷ []))
unfolding decode_loop IsDigit
decoded_two a b c0 c1 c2 done [] ha hb g fit = absurd (omega arith)
decoded_two a b c0 c1 c2 done (x ∷ []) ha hb g fit = absurd (omega arith)
decoded_two a b c0 c1 c2 done (x ∷ y ∷ []) ha hb g fit =
    let v = a * 2 ^ 16 + b * 2 ^ 8 in
    decode_step c0 c1 c2 pad [] (length done) v (done ++ x ∷ y ∷ 0 ∷ []) (done ++ a ∷ b ∷ 0 ∷ [])
      g.read (write_group_two v a b c2 done x y (0 ∷ []) refl ha hb g.digit2.no_pad)
decoded_two a b c0 c1 c2 done (x ∷ y ∷ z ∷ junk) ha hb g fit = absurd (omega arith)

pub IsText-two :
    (a b c0 c1 c2 : ℕ)
    → IsByte a
    → IsByte b
    → IsRound (a * 2 ^ 16 + b * 2 ^ 8) true false c0 c1 c2 pad
    → IsText (a ∷ b ∷ []) (c0 ∷ c1 ∷ c2 ∷ pad ∷ [])
unfolding encode_loop all_valid trail is_pad b64_isvalidchar IsDigit
IsText-two a b c0 c1 c2 ha hb g =
    let word : bit_or (a <<< 8) b <<< 8 ≡ a * 2 ^ 16 + b * 2 ^ 8 =
      rw (bit_or_low 8 a b hb) (omega arith) in
    record {
      written = rw (word, g.written) refl;
      decoded = λ done junk fit. decoded_two a b c0 c1 c2 done junk ha hb g fit;
      valid = rw (g.char0.valid, g.char1.valid, g.digit2.valid) refl;
      groups = refl;
      pads = rw g.digit2.no_pad refl;
    }

-- All bytes have a text.
pub encode_loop-IsText : (bs : Bytes) → IsBytes bs → (text : Bytes) × IsText bs text
unfolding encode_loop decode_loop all_valid trail IsDigit
encode_loop-IsText [] h = (
  [],
  record {
    written = refl;
    decoded = λ done junk fit. empty done junk fit;
    valid = refl;
    groups = refl;
    pads = refl;
  },
)
  where
    empty :
        (done junk : Bytes)
        → length junk ≡ 0
        → some (done ++ (junk ++ 0 ∷ [])) ≡ some (done ++ 0 ∷ [])
    empty done [] fit = refl
    empty done (x ∷ junk) fit = absurd (omega arith)
encode_loop-IsText (a ∷ []) (ha, _) =
    let v = a * 2 ^ 16 in
    let (c0, c1, c2, c3, g) =
      encode_group-IsRound v false false (omega (arith, ha)) (λ e. omega arith)
        (λ e. omega arith) in
    let ended : IsRound v false false c0 c1 pad pad = rw (g.digit2.0, g.digit3.0) at g in
    (c0 ∷ c1 ∷ pad ∷ pad ∷ [], IsText-one a c0 c1 ha ended)
encode_loop-IsText (a ∷ b ∷ []) (ha, (hb, _)) =
    let v = a * 2 ^ 16 + b * 2 ^ 8 in
    let (c0, c1, c2, c3, g) =
      encode_group-IsRound v true false (omega (arith, ha, hb)) (λ e. absurd (cc))
        (λ e. omega arith) in
    let ended : IsRound v true false c0 c1 c2 pad = rw g.digit3.0 at g in
    (c0 ∷ c1 ∷ c2 ∷ pad ∷ [], IsText-two a b c0 c1 c2 ha hb ended)
encode_loop-IsText (a ∷ b ∷ c ∷ rest) (ha, (hb, (hc, h))) =
    let v = a * 2 ^ 16 + (b * 2 ^ 8 + c) in
    let (c0, c1, c2, c3, g) =
      encode_group-IsRound v true true (omega (arith, ha, hb, hc)) (λ e. absurd (cc))
        (λ e. absurd (cc)) in
    let (text, later) = encode_loop-IsText rest h in
    (c0 ∷ c1 ∷ c2 ∷ c3 ∷ text, IsText-group a b c rest text c0 c1 c2 c3 ha hb hc g later)
