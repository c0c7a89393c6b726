-- ===== src/Nvm/File.antt =====
-- The file of two lines that `nvm_write_ssn` leaves, as the loop of `nvm_read_ssn` scans it.
use mathlib.Core.List.{append_assoc}
use mathlib.Core.Path.{subst}
use schc_work.Common.{
  ◌≡◌, refl, sym, ap, ◌∙◌, ℕ, suc, ◌+◌, ◌^◌, ◌<◌, true, none, some, [], ◌∷◌, ◌++◌, Bytes, All,
  length, arith,
}
use schc_work.Common.Slices.{All-append}
use schc_work.Rules.{ascii}
use schc_work.Oscore.{ok}
use schc_work.Nvm.Stdio.{
  newline, print_lu, scan_s, scan_u, literal, to_unsigned, skip_space, word, nonempty,
}
use schc_work.Nvm.Stdio.Decimal.{length-print_lu, signed-print_lu, print_lu-All, IsDigit}
use schc_work.Nvm.Stdio.Lines.{fgets_end, IsInline, IsSolid, cut_line_lem, fgets_lem, nonempty-word}
use schc_work.Nvm.Key.{IsKeyText}
use schc_work.Nvm.{
  Scan, nvm_text, printed, scan_ssn, scan_key, scan_line, next_line, scan_lines, start_scan, found,
  read_file,
}

key_line : Bytes → Bytes
key_line key = ascii "NVM_KEY=" ++ key

ssn_line : ℕ → Bytes
ssn_line n = ascii "OSCORE_SSN=" ++ print_lu n

scan_s-key_line :
    (key : Bytes) → IsKeyText key → scan_s (ascii "NVM_KEY=") (key_line key) ≡ some key
unfolding scan_s literal key_line
scan_s-key_line key k =
    let (c, rest, e) = k.cons in
    ap (λ t. nonempty (word (skip_space t))) e
    ∙ (nonempty-word c rest (subst (All IsSolid) e k.solid) ∙ ap some (sym e))

scan_u-ssn_line :
    (over : ℕ → ℕ) (n : ℕ)
    → n < 2 ^ 64
    → scan_u over (ascii "OSCORE_SSN=") (ssn_line n) ≡ some (to_unsigned over n)
unfolding scan_u literal ssn_line
scan_u-ssn_line over n small = rw (signed-print_lu n small) refl

scan_s-ssn_line : (n : ℕ) → scan_s (ascii "NVM_KEY=") (ssn_line n) ≡ none
unfolding scan_s literal ssn_line
scan_s-ssn_line n = refl

digit-IsInline : (text : Bytes) → All IsDigit text → All IsInline text
digit-IsInline [] h = tt
digit-IsInline (c ∷ text) h = ((ground arith, ground arith), digit-IsInline text h.1)

key_prefix : All IsInline (ascii "NVM_KEY=")
key_prefix = omega arith

ssn_prefix : All IsInline (ascii "OSCORE_SSN=")
ssn_prefix = omega arith

key_line-IsInline : (key : Bytes) → IsKeyText key → All IsInline (key_line key)
unfolding key_line
key_line-IsInline key k = All-append IsInline (ascii "NVM_KEY=") key key_prefix k.inline

ssn_line-IsInline : (n : ℕ) → All IsInline (ssn_line n)
unfolding ssn_line
ssn_line-IsInline n =
    All-append IsInline (ascii "OSCORE_SSN=") (print_lu n) ssn_prefix
      (digit-IsInline (print_lu n) (print_lu-All n))

-- A file of two lines.
two_lines :
    (over : ℕ → ℕ) (fuel c c' : ℕ) (text text' : Bytes) (s s' s'' : Scan)
    → All IsInline (c ∷ text)
    → All IsInline (c' ∷ text')
    → length text + 2 < 256
    → length text' + 2 < 256
    → scan_line over (c ∷ (text ++ newline ∷ [])) s ≡ s'
    → scan_line over (c' ∷ (text' ++ newline ∷ [])) s' ≡ s''
    → scan_lines over
        (suc (suc (suc fuel)))
        (c ∷ (text ++ newline ∷ c' ∷ (text' ++ newline ∷ [])))
        s
      ≡ some s''
unfolding scan_lines next_line
two_lines over fuel c c' text text' s s' s'' h h' short short' e e' =
    rw
      (
        fgets_lem 256 c text (c' ∷ (text' ++ newline ∷ [])) h short,
        fgets_lem 256 c' text' [] h' short',
        fgets_end 256,
        e,
        e',
      )
      refl

key_line-scan :
    (over : ℕ → ℕ) (key : Bytes) (s : Scan)
    → IsKeyText key
    → scan_line over (key_line key ++ newline ∷ []) s
      ≡ record s { read_nvm_key = key; nvm_key_found = true }
unfolding scan_line scan_key
key_line-scan over key s k =
    rw (cut_line_lem (key_line key) [] (key_line-IsInline key k), scan_s-key_line key k) refl

ssn_line-scan :
    (over : ℕ → ℕ) (n : ℕ) (s : Scan)
    → n < 2 ^ 64
    → scan_line over (ssn_line n ++ newline ∷ []) s
      ≡ record s { read_ssn = to_unsigned over n; ssn_found = true }
unfolding scan_line scan_key scan_ssn
ssn_line-scan over n s small =
    rw
      (
        cut_line_lem (ssn_line n) [] (ssn_line-IsInline n),
        scan_s-ssn_line n,
        scan_u-ssn_line over n small,
      )
      refl

nvm_text_lines :
    (key : Bytes) (n : ℕ)
    → nvm_text (some key) n ≡ key_line key ++ newline ∷ (ssn_line n ++ newline ∷ [])
unfolding nvm_text printed key_line ssn_line
nvm_text_lines key n =
    ap (λ t. ascii "NVM_KEY=" ++ t) (append_assoc key (newline ∷ []) (ssn_line n ++ newline ∷ []))

pub read_file-nvm_text :
    (over : ℕ → ℕ) (key : Bytes) (n : ℕ)
    → IsKeyText key
    → n < 2 ^ 64
    → read_file over (nvm_text (some key) n) ≡ some (ok, some (to_unsigned over n))
unfolding read_file found key_line ssn_line
read_file-nvm_text over key n k small =
    rw
      (
        nvm_text_lines key n,
        two_lines over _ 78 79 (ascii "VM_KEY=" ++ key) (ascii "SCORE_SSN=" ++ print_lu n)
            start_scan _ _ (key_line-IsInline key k) (ssn_line-IsInline n) (omega (arith, k.short))
            (omega (arith, length-print_lu n)) (key_line-scan over key start_scan k)
            (ssn_line-scan over n _ small),
      )
      refl
