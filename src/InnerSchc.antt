-- ===== src/InnerSchc.antt =====
-- The compression inside OSCORE: libs/schc_comp_apis/oscore_basic/src/fullsdkextapi.c, and the two
-- callbacks of applications/schc_worker_linux/src/uoscore_integration.c with REGULAR_COMP and an
-- OSCORE_INNER_MAX_SIZE of 128. The compressor of the SDK is a parameter.
pub mod Copied
pub mod Fallback
mod Tests
use schc_work.Common.{
  ℕ, ◌+◌, ◌-◌, ◌/◌, ◌%◌, ◌^◌, Bool, true, false, not, ◌||◌, Option, none, some, List, [], ◌∷◌,
  length, get_elem?, take, drop, replicate, Bytes, load, view, overwrite, u8, u16, ltb, ◌==◌,
  if◌then◌else◌, ◌>>=◌,
}
use schc_work.Rules.{Rules}
use schc_work.Rules.Outer.{Addresses}

abbrev pub ext_no_comp_rule_id : ℕ
ext_no_comp_rule_id = 0x1c

-- `get_inner_rules`: a table without rules.
abbrev pub get_inner_rules : Rules
get_inner_rules = record { default_rule_id = ext_no_comp_rule_id; rules_capacity = 0; rules = [] }

-- `comp_status_t`, as far as it is told apart.
pub data CompStatus : Type 0 where
  comp_success comp_rules_not_found_err comp_other : CompStatus

pub data MgtStatus : Type 0 where
  mgt_success mgt_error : MgtStatus

-- The two functions of the SDK: from the rules, the room and the input, the status and what is
-- written.
pub record InnerSdk : Type 0 where
  pub schc_oscore_inner_compress : Rules → ℕ → Bytes → CompStatus × Bytes
  pub schc_oscore_inner_decompress : Rules → ℕ → Bytes → CompStatus × Bytes

-- The bytes of `port / 256` and `port % 256`, for an `int` that is not negative.
pub static_port : ℕ → Bytes
static_port port = u8 (port / 256) ∷ u8 (port % 256) ∷ []

-- The four setters. `atoi` gives a number that is not negative, `inet_pton` the bytes that the
-- destination holds afterwards.
pub net_set_host_static_ip : (Bytes → Bytes) → Addresses → Bytes → Addresses
net_set_host_static_ip inet_pton a ipv6_address = record a {
  host_ipv6_addr = inet_pton ipv6_address;
}

pub net_set_host_static_port : (Bytes → ℕ) → Addresses → Bytes → Addresses
unfolding static_port
net_set_host_static_port atoi a udp_port = record a { host_udp_port = static_port (atoi udp_port) }

pub net_set_remote_static_ip : (Bytes → Bytes) → Addresses → Bytes → Addresses
net_set_remote_static_ip inet_pton a ipv6_address = record a {
  remote_ipv6_addr = inet_pton ipv6_address;
}

pub net_set_remote_static_port : (Bytes → ℕ) → Addresses → Bytes → Addresses
unfolding static_port
net_set_remote_static_port atoi a udp_port = record a {
  remote_udp_port = static_port (atoi udp_port);
}

-- The status, the output buffer and `*out_data_size`.
abbrev pub InnerResult : Type 0
InnerResult = MgtStatus × Bytes × ℕ

pub after_compress : CompStatus × Bytes → Bytes → ℕ → Option InnerResult
after_compress (comp_success, written) out out_size = do
  out' ← overwrite out 0 written
  some (mgt_success, out', length written)
after_compress (st, written) out out_size = some (mgt_error, out, out_size)

-- `out` is the buffer with room for all its bytes, `out_size` what `*out_data_size` was.
pub mgt_ext_oscore_inner_compression : InnerSdk → Bytes → ℕ → Bytes → ℕ → Option InnerResult
mgt_ext_oscore_inner_compression sdk out out_size in_data in_size = do
  input ← view in_data in_size
  after_compress (sdk.schc_oscore_inner_compress get_inner_rules (length out) input) out out_size

-- `memcpy(out_buf, in_data + 1, in_data_size - 1)`; a size of 0 makes the difference -1.
pub copy_uncompressed : Bytes → Bytes → ℕ → Option InnerResult
copy_uncompressed out in_data in_size = if in_size == 0 then none else do
  body ← view (drop 1 in_data) (in_size - 1)
  out' ← overwrite out 0 body
  some (mgt_success, out', in_size - 1)

-- The first byte is only read after an error other than that no rules were found.
pub after_decompress : CompStatus × Bytes → Bytes → ℕ → Bytes → ℕ → Option InnerResult
after_decompress (comp_success, written) out out_size in_data in_size = do
  out' ← overwrite out 0 written
  some (mgt_success, out', length written)
after_decompress (comp_rules_not_found_err, written) out out_size in_data in_size =
    copy_uncompressed out in_data in_size
after_decompress (comp_other, written) out out_size in_data in_size = do
  first ← load in_data 0
  if not (first == get_inner_rules.default_rule_id)
      then some (mgt_error, out, out_size)
      else copy_uncompressed out in_data in_size

pub mgt_ext_oscore_inner_decompression : InnerSdk → Bytes → ℕ → Bytes → ℕ → Option InnerResult
mgt_ext_oscore_inner_decompression sdk out out_size in_data in_size = do
  input ← view in_data in_size
  after_decompress (sdk.schc_oscore_inner_decompress get_inner_rules (length out) input) out
      out_size in_data in_size

abbrev pub oscore_inner_max_size : ℕ
oscore_inner_max_size = 128

-- What a callback does with the status: the result, the object of the plaintext and its size.
pub copy_back : InnerResult → Bytes → ℕ → Option (Bool × Bytes × ℕ)
copy_back (mgt_error, out, out_size) plaintext size = some (false, plaintext, size)
copy_back (mgt_success, out, out_size) plaintext size = do
  result ← view out out_size
  plaintext' ← overwrite plaintext 0 result
  some (true, plaintext', out_size)

-- The SDK's interface takes a `uint16_t` for the size.
pub oscore_msg_inner_compression : InnerSdk → Bytes → ℕ → Option (Bool × Bytes × ℕ)
oscore_msg_inner_compression sdk plaintext size = do
  r ←
      mgt_ext_oscore_inner_compression sdk (replicate oscore_inner_max_size 0) 0 plaintext
        (u16 size)
  copy_back r plaintext size

-- `*out_data_size` is not set before the call; it is only read after a success, which sets it.
pub oscore_msg_inner_decompression : InnerSdk → Bytes → ℕ → Option (Bool × Bytes × ℕ)
oscore_msg_inner_decompression sdk plaintext size = do
  r ←
      mgt_ext_oscore_inner_decompression sdk (replicate oscore_inner_max_size 0) 0 plaintext
        (u16 size)
  copy_back r plaintext size
