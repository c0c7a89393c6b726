-- ===== src/Nvm.antt =====
-- applications/schc_worker_linux/src/uoscore_integration.c: the sender sequence number of OSCORE in
-- a file of two lines, and the text of the key that it is stored with.
pub mod Stdio
pub mod Key
pub mod File
pub mod RoundTrip
mod Tests
use schc_work.Common.{
  ℕ, zero, suc, ◌+◌, ◌*◌, ◌/◌, ◌%◌, ◌^◌, ◌-◌, Bool, true, false, not, ◌&&◌, Option, none, some,
  List, [], ◌∷◌, ◌++◌, Bytes, ltb, leb, ◌==◌, if◌then◌else◌, ◌>>=◌, length, drop, load, view,
  overwrite, u32,
}
use schc_work.Rules.{ascii}
use schc_work.Base64.{b64_encode, b64_decode}
use schc_work.Oscore.{Err, ok, oscore_ssn_overflow, other}
use schc_work.Nvm.Stdio.{newline, print_lu, cut_line, fgets, scan_s, scan_u}

abbrev pub max_nvm_line_length : ℕ
max_nvm_line_length = 256

-- `struct byte_array`; `ptr` has the 8 bytes of the pointer, `content` what it points to.
pub record ByteArray : Type 0 where
  pub len : ℕ
  pub ptr : Bytes
  pub content : Bytes

-- `struct nvm_key_t`
pub record NvmKey : Type 0 where
  pub sender_id : ByteArray
  pub recipient_id : ByteArray
  pub id_context : ByteArray

-- `array_equals` of the library is an argument.
pub nvm_key_equals : (ByteArray → ByteArray → Bool) → NvmKey → NvmKey → Bool
nvm_key_equals array_equals nvm_key_1 nvm_key_2 =
    if not (array_equals nvm_key_1.sender_id nvm_key_2.sender_id)
    then false
    else if not (array_equals nvm_key_1.recipient_id nvm_key_2.recipient_id)
    then false
    else if not (array_equals nvm_key_1.id_context nvm_key_2.id_context)
    then false
    else true

-- The bytes of a `uint32_t` in memory.
abbrev pub bytes_of_u32 : ℕ → Bytes
bytes_of_u32 n = (n % 256) ∷ (n / 2 ^ 8 % 256) ∷ (n / 2 ^ 16 % 256) ∷ (n / 2 ^ 24 % 256) ∷ []

-- What the stack holds: the four bytes of padding in a `struct byte_array`, and an array before it
-- is written.
pub record Stack : Type 0 where
  pub padding : Bytes
  pub array : ℕ → Bytes

-- The array `bytes` in memory, from its element `i` on.
pub image : Stack → List ByteArray → Bytes
image stack [] = []
image stack (b ∷ bs) = bytes_of_u32 b.len ++ (stack.padding ++ (b.ptr ++ image stack bs))

-- The loop of `nvm_key_base64_encode` over `bytes`, with `nvm_ptr` as an offset.
pub encode_arrays : Stack → List ByteArray → ℕ → Bytes → Option Bytes
encode_arrays stack [] nvm_ptr nvm_key_bytes = some nvm_key_bytes
encode_arrays stack (b ∷ bs) nvm_ptr nvm_key_bytes = do
  with_len ← overwrite nvm_key_bytes nvm_ptr (bytes_of_u32 b.len)
  copied ← view (drop 8 (image stack (b ∷ bs))) b.len
  with_ptr ← overwrite with_len 0 copied
  encode_arrays stack bs (nvm_ptr + 4 + b.len) with_ptr

pub arrays : NvmKey → List ByteArray
arrays nvm_key = nvm_key.sender_id ∷ nvm_key.recipient_id ∷ nvm_key.id_context ∷ []

-- The text, `some none` for NULL.
pub nvm_key_base64_encode : Stack → NvmKey → Option (Option Bytes)
unfolding arrays
nvm_key_base64_encode stack nvm_key = do
  let nvm_key_bytes_len =
      (nvm_key.sender_id.len + nvm_key.recipient_id.len + nvm_key.id_context.len + 4 * 3) % 2 ^ 8
  nvm_key_bytes ← encode_arrays stack (arrays nvm_key) 0 (stack.array nvm_key_bytes_len)
  b64_encode nvm_key_bytes

-- The loop of `nvm_key_base64_decode` at `current_ptr` with `remaining_len` bytes left.
pub decode_arrays : List ByteArray → Bytes → ℕ → Option Err
decode_arrays [] current_ptr remaining_len = some ok
decode_arrays (b ∷ bs) current_ptr remaining_len =
    if ltb remaining_len 4 then some oscore_ssn_overflow else do
      curr_len ← load current_ptr 0
      if not (curr_len == b.len)
          then some oscore_ssn_overflow
          else if ltb (remaining_len - 4) b.len
          then some oscore_ssn_overflow
          else decode_arrays bs (drop (4 + b.len) current_ptr) (remaining_len - 4 - b.len)

-- `return -1` for a text that is not base64.
pub after_decode : NvmKey → Option (ℕ × Bytes) → Option Err
after_decode nvm_key none = some (other (2 ^ 32 - 1))
after_decode nvm_key (some (decoded_len, decoded_bytes)) =
    decode_arrays (arrays nvm_key) decoded_bytes decoded_len

pub nvm_key_base64_decode : (ℕ → Bytes) → Bytes → NvmKey → Option Err
unfolding arrays after_decode
nvm_key_base64_decode malloc b64_input nvm_key = do
  decoded ← b64_decode malloc b64_input
  after_decode nvm_key decoded

-- The file, `none` where there is none, and whether `fopen` may read and write it. A call that has
-- opened the file writes all of what it prints.
pub record Storage : Type 0 where
  pub file : Option Bytes
  pub readable : Bool
  pub writable : Bool

-- `%s` of NULL, as the C library prints it.
pub printed : Option Bytes → Bytes
printed none = ascii "(null)"
printed (some text) = text

-- The two lines.
pub nvm_text : Option Bytes → ℕ → Bytes
unfolding printed
nvm_text nvm_key_base64 ssn =
    (ascii "NVM_KEY=" ++ (printed nvm_key_base64 ++ newline ∷ []))
    ++ (ascii "OSCORE_SSN=" ++ (print_lu ssn ++ newline ∷ []))

pub nvm_write_ssn : Stack → NvmKey → ℕ → Storage → Option (Err × Storage)
unfolding nvm_text
nvm_write_ssn stack nvm_key ssn nvm =
    if not nvm.writable then some (oscore_ssn_overflow, nvm) else do
      nvm_key_base64 ← nvm_key_base64_encode stack nvm_key
      some (ok, record nvm { file = some (nvm_text nvm_key_base64 ssn) })

-- The variables of `nvm_read_ssn`.
pub record Scan : Type 0 where
  pub read_nvm_key : Bytes
  pub read_ssn : ℕ
  pub nvm_key_found : Bool
  pub ssn_found : Bool

scan_ssn : (ℕ → ℕ) → Bytes → Scan → Option ℕ → Scan
scan_ssn over line s none = s
scan_ssn over line s (some n) = record s { read_ssn = n; ssn_found = true }

scan_key : (ℕ → ℕ) → Bytes → Scan → Option Bytes → Scan
scan_key over line s none = scan_ssn over line s (scan_u over (ascii "OSCORE_SSN=") line)
scan_key over line s (some key) = record s { read_nvm_key = key; nvm_key_found = true }

-- The body of the loop, at a line of the file.
pub scan_line : (ℕ → ℕ) → Bytes → Scan → Scan
unfolding scan_ssn scan_key
scan_line over line s =
    let line' = cut_line line in scan_key over line' s (scan_s (ascii "NVM_KEY=") line')

-- A turn of the loop with what `fgets` gave, before the others.
next_line : (ℕ → ℕ) → Scan → Option (Bytes × Bytes) → (Bytes → Scan → Option Scan) → Option Scan
next_line over s none later = some s
next_line over s (some (line, rest)) later = later rest (scan_line over line s)

-- The loop, with fuel for so many calls of `fgets`.
pub scan_lines : (ℕ → ℕ) → ℕ → Bytes → Scan → Option Scan
unfolding next_line
scan_lines over zero text s = none
scan_lines over (suc fuel) text s =
    next_line over s (fgets max_nvm_line_length text) (scan_lines over fuel)

abbrev pub start_scan : Scan
start_scan = record { read_nvm_key = []; read_ssn = 0; nvm_key_found = false; ssn_found = false }

-- What is returned, and `*ssn` where it is set.
pub found : Scan → Err × Option ℕ
found s =
    if s.nvm_key_found && s.ssn_found then (ok, some s.read_ssn) else (oscore_ssn_overflow, none)

-- No file could be opened: one is written for the number 0.
pub create : Stack → NvmKey → Storage → Option (Err × Option ℕ × Storage)
create stack nvm_key nvm = do
  (write_res, nvm') ← nvm_write_ssn stack nvm_key 0 nvm
  some (write_res, some 0, nvm')

-- `nvm_read_ssn`, on a file that was opened.
pub read_file : (ℕ → ℕ) → Bytes → Option (Err × Option ℕ)
unfolding found
read_file over text = do s ← scan_lines over (suc (length text)) text start_scan; some (found s)

pub read_opened :
    (ℕ → ℕ) → Stack → NvmKey → Storage → Option Bytes → Option (Err × Option ℕ × Storage)
unfolding create read_file
read_opened over stack nvm_key nvm none = create stack nvm_key nvm
read_opened over stack nvm_key nvm (some text) =
    if not nvm.readable
    then create stack nvm_key nvm
    else do (res, ssn) ← read_file over text; some (res, ssn, nvm)

pub nvm_read_ssn : (ℕ → ℕ) → Stack → NvmKey → Storage → Option (Err × Option ℕ × Storage)
unfolding read_opened
nvm_read_ssn over stack nvm_key nvm = read_opened over stack nvm_key nvm nvm.file
