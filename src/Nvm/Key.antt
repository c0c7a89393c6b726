-- ===== src/Nvm/Key.antt =====
-- The text of a key with the short identifiers of OSCORE.
use schc_work.Common.{
  ◌≡◌, refl, ◌∙◌, ℕ, ◌+◌, ◌%◌, ◌^◌, ◌≤◌, ◌<◌, ◌==◌, ◌&&◌, Bool, true, false, some, List, [], ◌∷◌,
  ◌++◌, Bytes, IsBytes, IsByte, All, length, drop, take, arith, length-append, length-drop,
  length-take, All-drop,
}
use schc_work.Common.Slices.{splice, splice-IsSpliced, All-append, All-take}
use schc_work.Common.Access.{view-take}
use schc_work.Base64.{b64_encode, all_valid, b64_isvalidchar}
use schc_work.Base64.Texts.{IsText, encode_loop-IsText}
use schc_work.Nvm.Stdio.Lines.{IsInline, IsSolid}
use schc_work.Nvm.Stdio.Decimal.{IsCons}
use schc_work.Nvm.{
  ByteArray, NvmKey, Stack, image, encode_arrays, arrays, bytes_of_u32, nvm_key_base64_encode,
}

pub record IsStack (stack : Stack) : Type 0 where
  pub padding_length : length stack.padding ≡ 4
  pub padding_bytes : IsBytes stack.padding
  pub array_length : (n : ℕ) → length (stack.array n) ≡ n
  pub array_bytes : (n : ℕ) → IsBytes (stack.array n)

-- A pointer has 8 bytes.
abbrev pub IsPointer : ByteArray → Type 0
IsPointer b = (length b.ptr ≡ 8) × IsBytes b.ptr

-- Lengths for which `memcpy` stays in the array `bytes`.
pub record IsSmall (nvm_key : NvmKey) : Type 0 where
  pub sender_len : nvm_key.sender_id.len ≤ 40
  pub recipient_len : nvm_key.recipient_id.len ≤ 24
  pub context_len : nvm_key.id_context.len ≤ 8
  pub sender_ptr : IsPointer nvm_key.sender_id
  pub recipient_ptr : IsPointer nvm_key.recipient_id
  pub context_ptr : IsPointer nvm_key.id_context

bytes_of_u32-IsBytes : (n : ℕ) → IsBytes (bytes_of_u32 n)
bytes_of_u32-IsBytes n = (omega arith, (omega arith, (omega arith, (omega arith, tt))))

module _ (stack : Stack) (sound : IsStack stack) where
  length-image :
      (b : ByteArray) (bs : List ByteArray)
      → IsPointer b
      → length (image stack (b ∷ bs)) ≡ 16 + length (image stack bs)
  unfolding image
  length-image b bs p = omega (
    arith,
    length-append stack.padding (b.ptr ++ image stack bs),
    length-append b.ptr (image stack bs),
    sound.padding_length,
    p.0,
  )

  image-IsBytes : (bs : List ByteArray) → All IsPointer bs → IsBytes (image stack bs)
  unfolding image
  image-IsBytes [] h = tt
  image-IsBytes (b ∷ bs) h = All-append IsByte (bytes_of_u32 b.len) _ (bytes_of_u32-IsBytes b.len) (
      All-append IsByte stack.padding _ sound.padding_bytes
        (All-append IsByte b.ptr (image stack bs) h.0.1 (image-IsBytes bs h.1)))

  -- What the loop needs of the arrays: pointers, and no `memcpy` past the end.
  abbrev Fits : List ByteArray → Type 0
  Fits [] = Unit {0}
  Fits (b ∷ bs) = (b.len + 8 ≤ length (image stack (b ∷ bs))) × Fits bs

  abbrev total : List ByteArray → ℕ
  total [] = 0
  total (b ∷ bs) = 4 + b.len + total bs

  abbrev Encoded : Bytes → List ByteArray → ℕ → Bytes → Type 0
  Encoded nvm_key_bytes bs nvm_ptr out =
      (encode_arrays stack bs nvm_ptr nvm_key_bytes ≡ some out)
      × (length out ≡ length nvm_key_bytes)
      × IsBytes out

  encode_arrays-Encoded :
      (bs : List ByteArray) (nvm_ptr : ℕ) (nvm_key_bytes : Bytes)
      → All IsPointer bs
      → Fits bs
      → nvm_ptr + total bs ≤ length nvm_key_bytes
      → IsBytes nvm_key_bytes
      → (out : Bytes) × Encoded nvm_key_bytes bs nvm_ptr out
  unfolding encode_arrays
  encode_arrays-Encoded [] nvm_ptr buffer ps fits room h = (buffer, (refl, refl, h))
  encode_arrays-Encoded (b ∷ bs) nvm_ptr buffer ps fits room h =
      let src = drop 8 (image stack (b ∷ bs)) in
      let src_IsBytes = All-drop IsByte 8 (image stack (b ∷ bs)) (image-IsBytes (b ∷ bs) ps) in
      let src_length : b.len ≤ length src =
        omega (arith, length-drop 8 (image stack (b ∷ bs)), fits.0) in
      let copied = take b.len src in
      let copied_length : length copied ≡ b.len = length-take b.len src src_length in
      let one = splice-IsSpliced buffer nvm_ptr (bytes_of_u32 b.len) (omega arith) in
      let first = splice buffer nvm_ptr (bytes_of_u32 b.len) in
      let two = splice-IsSpliced first 0 copied (omega (arith, one.same_length, copied_length)) in
      let second = splice first 0 copied in
      let second_IsBytes =
        two.bytes (one.bytes h (bytes_of_u32-IsBytes b.len))
          (All-take IsByte b.len src src_IsBytes) in
      let (out, (e, l, good)) =
        encode_arrays-Encoded bs (nvm_ptr + 4 + b.len) second ps.1 fits.1
          (omega (arith, one.same_length, two.same_length)) second_IsBytes in
      (
        out,
        (
          rw (one.written, view-take src b.len src_length, two.written) e,
          l ∙ (two.same_length ∙ one.same_length),
          good,
        ),
      )

-- A character of the text, and a text of such characters.
valid-IsInline : (c : ℕ) → b64_isvalidchar c ≡ true → IsInline c
unfolding b64_isvalidchar
valid-IsInline c h = (ground arith, ground arith)

valid-IsSolid : (c : ℕ) → b64_isvalidchar c ≡ true → IsSolid c
unfolding b64_isvalidchar
valid-IsSolid c h = ground arith

&&-parts : (a b : Bool) → (a && b) ≡ true → (a ≡ true) × (b ≡ true)
&&-parts true true h = (refl, refl)
&&-parts true false h = cc
&&-parts false b h = cc

valid_text : (text : Bytes) → all_valid text ≡ true → All IsInline text × All IsSolid text
unfolding all_valid
valid_text [] h = (tt, tt)
valid_text (c ∷ text) h =
    let (a, b) = &&-parts (b64_isvalidchar c) (all_valid text) h in
    let (i, s) = valid_text text b in ((valid-IsInline c a, i), (valid-IsSolid c a, s))

-- A text that fits in a line behind `NVM_KEY=`, and is one word.
pub record IsKeyText (text : Bytes) : Type 0 where
  pub inline : All IsInline text
  pub solid : All IsSolid text
  pub cons : IsCons text
  pub short : length text ≤ 112

IsText-IsKeyText :
    (bs text : Bytes) → IsText bs text → 0 < length bs → length bs ≤ 84 → IsKeyText text
IsText-IsKeyText bs [] t some_bytes few = absurd (omega (arith, t.groups))
IsText-IsKeyText bs (c ∷ text) t some_bytes few =
    let (i, s) = valid_text (c ∷ text) t.valid in
    record { inline = i; solid = s; cons = (c, text, refl); short = omega (arith, t.groups) }

b64_encode-IsKeyText :
    (bs : Bytes)
    → IsBytes bs
    → 0 < length bs
    → length bs ≤ 84
    → (text : Bytes) × (b64_encode bs ≡ some (some text)) × IsKeyText text
unfolding b64_encode
b64_encode-IsKeyText bs h some_bytes few =
    let (text, t) = encode_loop-IsText bs h in
    let filled : (length bs == 0) ≡ false = ground arith in
    (text, rw (filled, t.written) refl, IsText-IsKeyText bs text t some_bytes few)

encode_steps :
    (stack : Stack) (nvm_key : NvmKey) (n : ℕ) (out text : Bytes)
    → (nvm_key.sender_id.len + nvm_key.recipient_id.len + nvm_key.id_context.len + 12) % 2 ^ 8 ≡ n
    → encode_arrays stack
        (nvm_key.sender_id ∷ nvm_key.recipient_id ∷ nvm_key.id_context ∷ [])
        0
        (stack.array n)
      ≡ some out
    → b64_encode out ≡ some (some text)
    → nvm_key_base64_encode stack nvm_key ≡ some (some text)
unfolding nvm_key_base64_encode arrays
encode_steps stack nvm_key n out text plain e encoded = rw (plain, e) encoded

pub nvm_key_base64_encode-IsKeyText :
    (stack : Stack) (nvm_key : NvmKey)
    → IsStack stack
    → IsSmall nvm_key
    → (text : Bytes) × (nvm_key_base64_encode stack nvm_key ≡ some (some text)) × IsKeyText text
nvm_key_base64_encode-IsKeyText stack nvm_key sound small =
    let s = nvm_key.sender_id in
    let r = nvm_key.recipient_id in
    let x = nvm_key.id_context in
    let n = s.len + r.len + x.len + 12 in
    let plain : n % 2 ^ 8 ≡ n =
      omega (arith, small.sender_len, small.recipient_len, small.context_len) in
    let one = length-image stack sound x [] small.context_ptr in
    let two = length-image stack sound r (x ∷ []) small.recipient_ptr in
    let three = length-image stack sound s (r ∷ x ∷ []) small.sender_ptr in
    let (out, (e, l, good)) =
      encode_arrays-Encoded stack sound (s ∷ r ∷ x ∷ []) 0 (stack.array n)
        (small.sender_ptr, (small.recipient_ptr, (small.context_ptr, tt)))
        (
          omega (arith, three, two, one, small.sender_len),
          (
            omega (arith, two, one, small.recipient_len),
            (omega (arith, one, small.context_len), tt),
          ),
        )
        (omega (arith, sound.array_length n)) (sound.array_bytes n) in
    let (text, encoded, t) =
      b64_encode-IsKeyText out good (omega (arith, l, sound.array_length n)) (
        omega (
          arith,
          l,
          sound.array_length n,
          small.sender_len,
          small.recipient_len,
          small.context_len,
        )) in
    (text, encode_steps stack nvm_key n out text plain e encoded, t)
