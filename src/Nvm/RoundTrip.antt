-- ===== src/Nvm/RoundTrip.antt =====
-- `nvm_read_ssn` on a stored number, on any file, and without a file.
use schc_work.Common.{
  ◌≡◌, refl, ap, ◌∙◌, ◌⊎◌, inl, inr, ℕ, zero, suc, ◌^◌, ◌<◌, Bool, true, false, not, ◌&&◌, Option,
  none, some, Bytes, length, ltb, if◌then◌else◌, arith, ◌>>=◌, Bool-cases,
}
use schc_work.Oscore.{Err, ok, oscore_ssn_overflow}
use schc_work.Nvm.Stdio.{fgets, to_unsigned}
use schc_work.Nvm.Stdio.Lines.{fgets_shorter}
use schc_work.Nvm.File.{read_file-nvm_text}
use schc_work.Nvm.Key.{IsStack, IsSmall, nvm_key_base64_encode-IsKeyText}
use schc_work.Nvm.{
  NvmKey, Stack, Storage, Scan, max_nvm_line_length, nvm_text, scan_line, next_line, scan_lines,
  start_scan, found, read_file, create, read_opened, nvm_write_ssn, nvm_read_ssn,
  nvm_key_base64_encode,
}

written :
    (stack : Stack) (nvm_key : NvmKey) (ssn : ℕ) (nvm : Storage) (text : Bytes)
    → nvm.writable ≡ true
    → nvm_key_base64_encode stack nvm_key ≡ some (some text)
    → nvm_write_ssn stack nvm_key ssn nvm
      ≡ some (ok, record nvm { file = some (nvm_text (some text) ssn) })
unfolding nvm_write_ssn
written stack nvm_key ssn nvm text w e = rw (w, e) refl

opened_lem : {A : Type 0} (b : Bool) → b ≡ true → (x y : A) → (if not b then x else y) ≡ y
opened_lem true e x y = refl
opened_lem false e x y = cc

read_back :
    (over : ℕ → ℕ) (stack : Stack) (nvm_key : NvmKey) (nvm : Storage) (text : Bytes) (res : Err)
    (ssn : Option ℕ)
    → nvm.readable ≡ true
    → nvm.file ≡ some text
    → read_file over text ≡ some (res, ssn)
    → nvm_read_ssn over stack nvm_key nvm ≡ some (res, ssn, nvm)
unfolding nvm_read_ssn read_opened
read_back over stack nvm_key nvm text res ssn r f e =
    ap (read_opened over stack nvm_key nvm) f
    ∙ (opened_lem nvm.readable r _ _
        ∙ ap (λ (t : Option (Err × Option ℕ)). t >>= λ x. some (x.0, x.1, nvm)) e)

-- A number that is written is read back by `nvm_read_ssn`, for every number that `ssn` can hold:
-- the number itself if it is below 2 ^ 32, otherwise what `%u` makes of it. The write succeeds if
-- the file may be written and the identifiers are as short as those of OSCORE. The read takes the
-- number whichever key it is asked for.
pub nvm_read_ssn-write_ssn :
    (over : ℕ → ℕ) (stack stack' : Stack) (nvm_key nvm_key' : NvmKey) (ssn : ℕ) (nvm : Storage)
    → IsStack stack
    → IsSmall nvm_key
    → nvm.readable ≡ true
    → nvm.writable ≡ true
    → ssn < 2 ^ 64
    → (nvm' : Storage) × (nvm_write_ssn stack nvm_key ssn nvm ≡ some (ok, nvm'))
      × (nvm_read_ssn over stack' nvm_key' nvm'
          ≡ some (ok, some (if ltb ssn (2 ^ 32) then ssn else over ssn), nvm'))
unfolding to_unsigned
nvm_read_ssn-write_ssn over stack stack' nvm_key nvm_key' ssn nvm sound small r w fits =
    let (text, e, k) = nvm_key_base64_encode-IsKeyText stack nvm_key sound small in
    (
      record nvm { file = some (nvm_text (some text) ssn) },
      written stack nvm_key ssn nvm text w e,
      read_back over stack' nvm_key' (record nvm { file = some (nvm_text (some text) ssn) })
          (nvm_text (some text) ssn) ok (some (to_unsigned over ssn)) r refl
          (read_file-nvm_text over text ssn k fits),
    )

closed_lem : {A : Type 0} (b : Bool) → b ≡ false → (x y : A) → (if not b then x else y) ≡ x
closed_lem true e x y = cc
closed_lem false e x y = refl

refused :
    (stack : Stack) (nvm_key : NvmKey) (ssn : ℕ) (nvm : Storage)
    → nvm.writable ≡ false
    → nvm_write_ssn stack nvm_key ssn nvm ≡ some (oscore_ssn_overflow, nvm)
unfolding nvm_write_ssn
refused stack nvm_key ssn nvm shut = closed_lem nvm.writable shut _ _

-- Without a file, `nvm_read_ssn` returns 0 and creates one, from which 0 is read for any key. If it
-- cannot be written, an error is returned, `*ssn` is 0 all the same, and there is still no file.
pub nvm_read_ssn_first :
    (over : ℕ → ℕ) (stack stack' : Stack) (nvm_key nvm_key' : NvmKey) (nvm : Storage)
    → IsStack stack
    → IsSmall nvm_key
    → nvm.file ≡ none
    → nvm.readable ≡ true
    → ((nvm.writable ≡ true)
        × ((nvm' : Storage) × (nvm_read_ssn over stack nvm_key nvm ≡ some (ok, some 0, nvm'))
            × (nvm_read_ssn over stack' nvm_key' nvm' ≡ some (ok, some 0, nvm'))))
      ⊎ ((nvm.writable ≡ false)
          × (nvm_read_ssn over stack nvm_key nvm ≡ some (oscore_ssn_overflow, some 0, nvm)))
unfolding nvm_read_ssn read_opened create
nvm_read_ssn_first over stack stack' nvm_key nvm_key' nvm sound small none_yet r =
    elim (Bool-cases nvm.writable) [
      | inr shut ↦ inr (
        shut,
        ap (read_opened over stack nvm_key nvm) none_yet
            ∙ ap (λ (t : Option (Err × Storage)). t >>= λ x. some (x.0, some 0, x.1))
                (refused stack nvm_key 0 nvm shut),
      )
      | inl w ↦
          let (nvm', e, e') =
            nvm_read_ssn-write_ssn over stack stack' nvm_key nvm_key' 0 nvm sound small r w
              (omega arith) in
          inl (
            w,
            (
              nvm',
              ap (read_opened over stack nvm_key nvm) none_yet
                  ∙ ap (λ (t : Option (Err × Storage)). t >>= λ x. some (x.0, some 0, x.1)) e,
              e',
            ),
          )
    ]

scan_lines-total :
    (over : ℕ → ℕ) (fuel : ℕ) (text : Bytes) (s : Scan)
    → length text < fuel
    → (s' : Scan) × (scan_lines over fuel text s ≡ some s')
unfolding scan_lines
scan_lines-total over zero text s enough = absurd (omega arith)
scan_lines-total over (suc fuel) text s enough =
    step (fgets max_nvm_line_length text) refl (scan_lines-total over fuel)
  where
    step :
        (got : Option (Bytes × Bytes))
        → fgets max_nvm_line_length text ≡ got
        → ((rest : Bytes) (t : Scan)
            → length rest < fuel
            → (s' : Scan) × (scan_lines over fuel rest t ≡ some s'))
        → (s' : Scan) × (next_line over s got (scan_lines over fuel) ≡ some s')
    step none e ih = (s, refl)
    step (some (line, rest)) e ih =
        let shorter = fgets_shorter max_nvm_line_length text line rest (omega arith) e in
        ih rest (scan_line over line s) (omega (arith, shorter, enough))

if_cases :
    {A : Type 0} (b : Bool) (x y : A) → ((if b then x else y) ≡ y) ⊎ ((if b then x else y) ≡ x)
if_cases true x y = inr refl
if_cases false x y = inl refl

-- The result for what the lines hold.
found_cases :
    (s : Scan) → (found s ≡ (oscore_ssn_overflow, none)) ⊎ (found s ≡ (ok, some s.read_ssn))
unfolding found
found_cases s = if_cases (s.nvm_key_found && s.ssn_found) _ _

read_file_lem :
    (over : ℕ → ℕ) (text : Bytes) (s : Scan) (out : Err × Option ℕ)
    → scan_lines over (suc (length text)) text start_scan ≡ some s
    → found s ≡ out
    → read_file over text ≡ some out
unfolding read_file
read_file_lem over text s out e f =
    ap (λ (t : Option Scan). t >>= λ s'. some (found s')) e ∙ ap some f

-- Whatever the file holds, `nvm_read_ssn` comes to its end: it returns an error and leaves the number
-- alone, or it returns `ok` with a number. The file is only read.
pub nvm_read_ssn-total :
    (over : ℕ → ℕ) (stack : Stack) (nvm_key : NvmKey) (nvm : Storage) (text : Bytes)
    → nvm.readable ≡ true
    → nvm.file ≡ some text
    → (nvm_read_ssn over stack nvm_key nvm ≡ some (oscore_ssn_overflow, none, nvm))
      ⊎ ((n : ℕ) × (nvm_read_ssn over stack nvm_key nvm ≡ some (ok, some n, nvm)))
nvm_read_ssn-total over stack nvm_key nvm text r f =
    let (s, e) = scan_lines-total over (suc (length text)) text start_scan (omega arith) in
    elim (found_cases s) [
      | inr is ↦ inr (
        s.read_ssn,
        read_back over stack nvm_key nvm text _ _ r f (read_file_lem over text s _ e is),
      )
      | inl is ↦
          inl (read_back over stack nvm_key nvm text _ _ r f (read_file_lem over text s _ e is))
    ]
