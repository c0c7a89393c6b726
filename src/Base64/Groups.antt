-- ===== src/Base64/Groups.antt =====
-- A round of the encoder and the round of the decoder that reads it.
use schc_work.Common.{
  ℕ, zero, suc, ◌+◌, ◌*◌, ◌%◌, ◌^◌, ◌<◌, ◌≡◌, refl, sym, ap, ◌∙◌, Bool, true, false, not, ◌&&◌,
  Option, none, some, [], ◌∷◌, length, get_elem?, bit_or, Bytes, arith, ◌==◌, if◌then◌else◌, ◌<<<◌,
  ◌>>>◌, u32,
}
use schc_work.Common.Bits.{bit_or_low, bit_and_low}
use schc_work.Base64.{pad, b64chars, b64_isvalidchar, char, encode_group, inv, padded, decode_word}

-- The character of a number below 64: what the decoder makes of it.
pub record IsChar (k c : ℕ) : Type 0 where
  pub back : inv c ≡ some k
  pub valid : b64_isvalidchar c ≡ true
  pub no_pad : (c == pad) ≡ false

is_char : ℕ → ℕ → Bool
is_char k c =
    (elim (inv c) [ none ↦ false | some i ↦ i == k ]) && (b64_isvalidchar c && not (c == pad))

check_chars : ℕ → Bytes → Bool
check_chars k [] = true
check_chars k (c ∷ cs) = is_char k c && check_chars (suc k) cs

pub both : (a b : Bool) → (a && b) ≡ true → (a ≡ true) × (b ≡ true)
both true b e = (refl, e)
both false b e = absurd (cc)

pub not-true : (b : Bool) → not b ≡ true → b ≡ false
not-true false e = refl
not-true true e = absurd (cc)

inv_is : (o : Option ℕ) (k : ℕ) → (elim o [ none ↦ false | some i ↦ i == k ]) ≡ true → o ≡ some k
inv_is none k e = absurd (cc)
inv_is (some i) k e = let same : i ≡ k = ground arith in ap (λ x. some x) same

checked-IsChar :
    (cs : Bytes) (k i n : ℕ)
    → check_chars k cs ≡ true
    → i < length cs
    → n ≡ k + i
    → (c : ℕ) × (get_elem? cs i ≡ some c) × IsChar n c
unfolding check_chars is_char
checked-IsChar [] k i n e h at = absurd (omega arith)
checked-IsChar (c ∷ cs) k zero n e h at =
    let (here, later) = both (is_char k c) (check_chars (suc k) cs) e in
    let (back, rest) =
      both (elim (inv c) [ none ↦ false | some i ↦ i == k ]) (b64_isvalidchar c && not (c == pad))
        here in
    let (valid, no_pad) = both (b64_isvalidchar c) (not (c == pad)) rest in
    let same : n ≡ k = omega (arith, at) in
    (
      c,
      refl,
      record {
        back = inv_is (inv c) k back ∙ ap (λ x. some x) (sym same);
        valid = valid;
        no_pad = not-true (c == pad) no_pad;
      },
    )
checked-IsChar (c ∷ cs) k (suc i) n e h at =
    checked-IsChar cs (suc k) i n (both (is_char k c) (check_chars (suc k) cs) e).1 (omega arith)
      (omega (arith, at))

-- Every number has a character.
pub char-IsChar : (v : ℕ) → (c : ℕ) × (char v ≡ some c) × IsChar (v % 64) c
unfolding char check_chars is_char inv b64_isvalidchar
char-IsChar v =
    let (c, at, good) =
      checked-IsChar b64chars 0 (v % 64) (v % 64) refl (omega arith) (omega arith) in
    (c, rw (bit_and_low 6 v) at, good)

-- A digit of a group: a character, or the padding where there is no byte.
unfoldable pub IsDigit : Bool → ℕ → ℕ → Type 0
IsDigit true k c = IsChar k c
IsDigit false k c = (c ≡ pad) × (k ≡ 0)

digit :
    (flag : Bool) (v : ℕ)
    → (flag ≡ false → v % 64 ≡ 0)
    → (c : ℕ) × ((if flag then char v else some pad) ≡ some c) × IsDigit flag (v % 64) c
unfolding IsDigit
digit true v h = char-IsChar v
digit false v h = (pad, refl, (refl, h refl))

padded-IsDigit :
    (flag : Bool) (v k c : ℕ)
    → v < 2 ^ 26
    → k < 64
    → IsDigit flag k c
    → padded v c ≡ some (v * 64 + k)
unfolding padded IsDigit
padded-IsDigit true v k c h l good =
    let fits : u32 (v <<< 6) ≡ v * 2 ^ 6 = omega arith in
    rw (good.no_pad, good.back, fits, bit_or_low 6 v k l) refl
padded-IsDigit false v k c h l (at, low) =
    let fits : u32 (v <<< 6) ≡ v * 64 + k = omega (arith, low) in rw (at, fits) refl

-- A round of the encoder on `v`, whose second and third byte may be missing, and the word that the
-- decoder reads in it.
pub record IsRound (v : ℕ) (second third : Bool) (c0 c1 c2 c3 : ℕ) : Type 0 where
  pub written : encode_group v second third ≡ some (c0 ∷ c1 ∷ c2 ∷ c3 ∷ [])
  pub read : decode_word c0 c1 c2 c3 ≡ some v
  pub char0 : IsChar ((v >>> 18) % 64) c0
  pub char1 : IsChar ((v >>> 12) % 64) c1
  pub digit2 : IsDigit second ((v >>> 6) % 64) c2
  pub digit3 : IsDigit third (v % 64) c3

steps-IsRound :
    (v : ℕ) (second third : Bool) (c0 c1 c2 c3 : ℕ)
    → v < 2 ^ 24
    → char (v >>> 18) ≡ some c0
    → char (v >>> 12) ≡ some c1
    → (if second then char (v >>> 6) else some pad) ≡ some c2
    → (if third then char v else some pad) ≡ some c3
    → IsChar ((v >>> 18) % 64) c0
    → IsChar ((v >>> 12) % 64) c1
    → IsDigit second ((v >>> 6) % 64) c2
    → IsDigit third (v % 64) c3
    → IsRound v second third c0 c1 c2 c3
unfolding encode_group decode_word
steps-IsRound v second third c0 c1 c2 c3 h at0 at1 at2 at3 good0 good1 good2 good3 =
    let word1 : bit_or (u32 (((v >>> 18) % 64) <<< 6)) ((v >>> 12) % 64) ≡ v >>> 12 =
      (let fits : u32 (((v >>> 18) % 64) <<< 6) ≡ ((v >>> 18) % 64) * 2 ^ 6 = omega (arith, h) in
        rw (fits, bit_or_low 6 ((v >>> 18) % 64) ((v >>> 12) % 64) (omega arith))
          (omega (arith, h))) in
    let step2 : padded (v >>> 12) c2 ≡ some (v >>> 6) =
      padded-IsDigit second (v >>> 12) ((v >>> 6) % 64) c2 (omega (arith, h)) (omega arith) good2
      ∙ ap (λ x. some x) (omega arith) in
    let step3 : padded (v >>> 6) c3 ≡ some v =
      padded-IsDigit third (v >>> 6) (v % 64) c3 (omega (arith, h)) (omega arith) good3
      ∙ ap (λ x. some x) (omega arith) in
    record {
      written = rw (at0, at1, at2, at3) refl;
      read = rw (good0.back, good1.back, word1, step2) step3;
      char0 = good0;
      char1 = good1;
      digit2 = good2;
      digit3 = good3;
    }

pub encode_group-IsRound :
    (v : ℕ) (second third : Bool)
    → v < 2 ^ 24
    → (second ≡ false → (v >>> 6) % 64 ≡ 0)
    → (third ≡ false → v % 64 ≡ 0)
    → (c0 : ℕ) × (c1 : ℕ) × (c2 : ℕ) × (c3 : ℕ) × IsRound v second third c0 c1 c2 c3
unfolding encode_group decode_word
encode_group-IsRound v second third h no_second no_third =
    let (c0, at0, good0) = char-IsChar (v >>> 18) in
    let (c1, at1, good1) = char-IsChar (v >>> 12) in
    let (c2, at2, good2) = digit second (v >>> 6) no_second in
    let (c3, at3, good3) = digit third v no_third in
    (
      c0,
      c1,
      c2,
      c3,
      steps-IsRound v second third c0 c1 c2 c3 h at0 at1 at2 at3 good0 good1 good2 good3,
    )
