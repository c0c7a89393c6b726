-- ===== src/InnerSchc/Fallback.antt =====
-- A packet that is not compressed: the default rule id and the plaintext behind it.
use schc_work.Common.{
  ℕ, ◌+◌, ◌-◌, ◌^◌, ◌≤◌, ◌<◌, ◌≡◌, refl, ap, ◌∙◌, inl, inr, true, false, ◌&&◌, ltb, none, some,
  arith, length, take, drop, Bytes, view, u16, leb, ◌==◌, if◌then◌else◌, ◌>>=◌, length-take,
  length-drop, Bool-cases,
}
use schc_work.Common.Access.{view-take, overwrite_front}
use schc_work.InnerSchc.{
  comp_rules_not_found_err, mgt_success, InnerSdk, get_inner_rules, copy_uncompressed,
  after_decompress, mgt_ext_oscore_inner_decompression, copy_back, oscore_msg_inner_decompression,
}
use schc_work.InnerSchc.Copied.{behind, buffer, copied}

-- The SDK finds no rules for the packet.
unfoldable pub IsUnruled : InnerSdk → Bytes → ℕ → Bytes → Type 0
IsUnruled sdk plaintext size written =
    sdk.schc_oscore_inner_decompress get_inner_rules 128 (take size plaintext)
    ≡ (comp_rules_not_found_err, written)

fallback :
    (sdk : InnerSdk) (plaintext written : Bytes) (size : ℕ)
    → size < 2 ^ 16
    → size ≤ length plaintext
    → IsUnruled sdk plaintext size written
    → oscore_msg_inner_decompression sdk plaintext size
      ≡ (copy_uncompressed buffer plaintext size >>= λ r. copy_back r plaintext size)
unfolding IsUnruled oscore_msg_inner_decompression mgt_ext_oscore_inner_decompression
    after_decompress
fallback sdk plaintext written size small there e =
    let whole : u16 size ≡ size = omega (arith, small) in
    rw (whole, view-take plaintext size there, e) refl

body_past :
    (plaintext body : Bytes) (size : ℕ)
    → size ≡ length body + 1
    → 128 < length body
    → view (drop 1 plaintext) (size - 1) ≡ some body
    → copy_uncompressed buffer plaintext size ≡ none
unfolding copy_uncompressed
body_past plaintext body size e long there =
    let some_byte : (size == 0) ≡ false = ground (arith, e) in
    let outside : leb (0 + length body) 128 ≡ false = ground (arith, long) in
    rw (some_byte, there, outside) refl

body_copied :
    (plaintext body : Bytes) (size : ℕ)
    → size ≡ length body + 1
    → length body ≤ 128
    → view (drop 1 plaintext) (size - 1) ≡ some body
    → copy_uncompressed buffer plaintext size ≡ some (mgt_success, behind body buffer, length body)
unfolding copy_uncompressed
body_copied plaintext body size e short there =
    let some_byte : (size == 0) ≡ false = ground (arith, e) in
    let fewer : size - 1 ≡ length body = omega (arith, e) in
    rw (some_byte, there, overwrite_front buffer body short)
      (ap (λ n. some (mgt_success, behind body buffer, n)) fewer)

empty_past :
    (plaintext : Bytes) (size : ℕ) → size ≡ 0 → copy_uncompressed buffer plaintext size ≡ none
unfolding copy_uncompressed
empty_past plaintext size e =
    let nothing : (size == 0) ≡ true = ground (arith, e) in rw nothing refl

-- For a packet inside its object, of fewer than 2 ^ 16 bytes, for which the SDK finds no rules:
-- with 1 to 129 bytes, the callback succeeds with what stands behind the first byte, whatever that
-- is; with none it copies 2 ^ 64 - 1 bytes, and with more than 129 it writes behind its buffer.
pub oscore_msg_inner_decompression-fallback :
    (sdk : InnerSdk) (plaintext written : Bytes) (size : ℕ)
    → size < 2 ^ 16
    → size ≤ length plaintext
    → IsUnruled sdk plaintext size written
    → oscore_msg_inner_decompression sdk plaintext size ≡ (
        if ltb 0 size && leb size 129
        then some (true, behind (take (size - 1) (drop 1 plaintext)) plaintext, size - 1)
        else none)
oscore_msg_inner_decompression-fallback sdk plaintext written size small there e =
    let body = take (size - 1) (drop 1 plaintext) in
    let rest = length-drop 1 plaintext in
    let len : length body ≡ size - 1 =
      length-take (size - 1) (drop 1 plaintext) (omega (arith, rest, there)) in
    let seen : view (drop 1 plaintext) (size - 1) ≡ some body =
      view-take (drop 1 plaintext) (size - 1) (omega (arith, rest, there)) in
    fallback sdk plaintext written size small there e ∙ elim (Bool-cases (ltb 0 size)) [
      | inr nothing ↦ rw (nothing, empty_past plaintext size (ground (arith, nothing))) refl
      | inl some_byte ↦ elim (Bool-cases (leb size 129)) [
        | inr long ↦
            rw
              (
                some_byte,
                long,
                body_past plaintext body size (ground (arith, some_byte, len))
                    (ground (arith, long, len)) seen,
              )
              refl
        | inl short ↦
            rw
              (
                some_byte,
                short,
                body_copied plaintext body size (ground (arith, some_byte, len))
                    (ground (arith, short, len)) seen,
                copied body plaintext size (omega (arith, len, there)),
                len,
              )
              refl
      ]
    ]
