-- ===== src/Udp.antt =====
-- libs/net/src/udp.c: reading and rewriting the headers of an IPv6/UDP packet in place.
-- A packet pointer is the list of the bytes from it to the end of its object; a function returns
-- `none` where the C code would read or write outside of that object.
pub mod Checksum
pub mod Fields
pub mod Headers
mod Tests
use mathlib.Core.Logic.{dite}
use mathlib.Core.WellFounded.{Acc}
use schc_work.Common.{
  ℕ, zero, suc, ◌+◌, ◌-◌, ◌*◌, ◌/◌, ◌%◌, ◌^◌, ◌≤◌, ◌<◌, bit_and, bit_or, Bool, true, false, Option,
  none, some, List, [], ◌∷◌, arith, dec_lt, ltb, ◌==◌, if◌then◌else◌, drop, Bytes, load, store, u16,
  u32, u64, ◌<<<◌, ◌>>>◌, ◌>>=◌,
}
use schc_work.Common.Bits.{bit_and_low}
use schc_work.Common.Order.{lt_wf}

-- `sizeof(struct ip6_hdr)` and `sizeof(struct udphdr)`.
abbrev pub ip6_hdr_size : ℕ
ip6_hdr_size = 40

abbrev pub udphdr_size : ℕ
udphdr_size = 8

abbrev pub ipv6_version : ℕ
ipv6_version = 6

-- IPPROTO_UDP
abbrev pub ipproto_udp : ℕ
ipproto_udp = 17

-- A 16-bit field of a header: `ntohs` of a load, and the store of an `htons`.
unfoldable pub load16 : Bytes → ℕ → Option ℕ
load16 p i = do hi ← load p i; lo ← load p (i + 1); some (hi * 256 + lo)

pub store16 : Bytes → ℕ → ℕ → Option Bytes
store16 p i v = do p' ← store p i (v / 256); store p' (i + 1) (v % 256)

-- `packet` is `none` for NULL.
unfoldable pub is_ipv6_udp_packet : Option Bytes → ℕ → Option Bool
is_ipv6_udp_packet none size = some false
is_ipv6_udp_packet (some p) size = if ltb size (ip6_hdr_size + udphdr_size) then some false else do
  first ← load p 0
  if first >>> 4 == ipv6_version
      then (do next ← load p 6; some (next == ipproto_udp))
      else some false

-- The list is what `p` points to; `n` is the number of bytes left to add.
pub csum_add : ℕ → Bytes → ℕ → Option ℕ
csum_add sum p zero = some sum
csum_add sum [] (suc n) = none
csum_add sum (a ∷ p) (suc zero) = some (u64 (sum + (a <<< 8)))
csum_add sum (a ∷ []) (suc (suc n)) = none
csum_add sum (a ∷ b ∷ p) (suc (suc n)) = csum_add (u64 (sum + bit_or (a <<< 8) b)) p n

-- `while (sum >> 16) sum = (sum & 0xFFFF) + (sum >> 16);` by recursion on the falling sum.
fold_acc : (sum : ℕ) → Acc ◌<◌ sum → ℕ
fold_acc sum (Acc.intro _ smaller) =
    dite (dec_lt 0 (sum >>> 16))
      (λ h.
        fold_acc (bit_and sum 0xFFFF + (sum >>> 16))
          (smaller _ (omega (arith, bit_and_low 16 sum))))
      (λ _. sum)

pub fold_carries : ℕ → ℕ
unfolding fold_acc lt_wf dec_lt
fold_carries sum = fold_acc sum (lt_wf.apply sum)

-- The result before its `htons`.
pub udp_checksum : Bytes → ℕ → Bytes → Bytes → Option ℕ
udp_checksum packet size src_addr dst_addr = do
  s ← csum_add 0 src_addr 16
  s' ← csum_add s dst_addr 16
  let high = u64 (s' + bit_and (u32 (size >>> 16)) 0xFFFF)
  let low = u64 (high + bit_and (u32 size) 0xFFFF)
  t ← csum_add (u64 (low + ipproto_udp)) packet size
  let result = u16 (2 ^ 64 - 1 - fold_carries t)
  some (if result == 0 then 0xFFFF else result)

pub update_udp_checksum : Bytes → Option Bytes
update_udp_checksum p = do
  ulen ← load16 p 44
  cleared ← store16 p 46 0
  sum ← udp_checksum (drop ip6_hdr_size cleared) ulen (drop 8 cleared) (drop 24 cleared)
  store16 cleared 46 sum

pub update_ip6_udp_len : Bytes → ℕ → Option Bytes
update_ip6_udp_len p size = do
  p' ← store16 p 4 (u16 (udphdr_size + size))
  store16 p' 44 (u16 (udphdr_size + size))

unfoldable pub ipv6_udp_payload_len : Bytes → Option ℕ
unfolding load16
ipv6_udp_payload_len p = do
  udp_total_len ← load16 p 44
  some (if ltb udp_total_len udphdr_size then 0 else udp_total_len - udphdr_size)

abbrev pub coap_version_mask : ℕ
coap_version_mask = 0xC0

abbrev pub coap_version_1 : ℕ
coap_version_1 = 0x40

unfoldable pub is_coap_packet : Bytes → ℕ → Option Bool
is_coap_packet raw_coap pkt_len =
    if ltb pkt_len 1
    then some false
    else do first ← load raw_coap 0; some (bit_and first coap_version_mask == coap_version_1)
