-- ===== src/NetHelper.antt =====
-- libs/commons/src/net_helper.c: a packet for the demonstration programs, and a checksum that adds
-- words in the order of the machine's bytes, which is little-endian here. `inet_pton` gives the
-- bytes that it stores, or `none` where it stores nothing; `atoi` gives the bits of its `int`.
pub mod Writes
pub mod Packet
pub mod Sum
mod Tests
use mathlib.Core.Logic.{dite}
use schc_work.Common.{
  ℕ, zero, suc, ◌+◌, ◌*◌, ◌/◌, ◌%◌, ◌^◌, ◌-◌, bit_or, Option, none, some, List, [], ◌∷◌, ◌++◌,
  Bytes, load, store, view, overwrite, length, take, drop, replicate, u16, u32, u64, ◌>>=◌,
}
use schc_work.Udp.{store16, fold_carries, ipproto_udp}

abbrev pub ipv6_headers_bytes : ℕ
ipv6_headers_bytes = 40

abbrev pub udp_headers_bytes : ℕ
udp_headers_bytes = 8

-- What the functions of the C library do.
pub record Libc : Type 0 where
  pub inet_pton : Bytes → Option Bytes
  pub atoi : Bytes → ℕ

-- The first loop of `checksum`, with the 64-bit sum, and the odd byte behind it.
pub words_add : ℕ → Bytes → ℕ
words_add sum [] = sum
words_add sum (a ∷ []) = u64 (sum + a)
words_add sum (a ∷ b ∷ p) = words_add (u64 (sum + (a + b * 256))) p

-- `checksum` of a whole buffer.
pub checksum : Bytes → ℕ
checksum buffer = u16 (2 ^ 64 - 1 - fold_carries (words_add 0 buffer))

-- The bytes of an `htonl`.
abbrev pub htonl : ℕ → Bytes
htonl n = (n / 2 ^ 24 % 256) ∷ (n / 2 ^ 16 % 256) ∷ (n / 2 ^ 8 % 256) ∷ (n % 256) ∷ []

-- `udp_checksum`, over a copy of the pseudo header, the UDP header and the payload.
pub pseudo_checksum : Bytes → Bytes → Bytes → Bytes → ℕ → Option ℕ
pseudo_checksum src dst udp payload payload_len = do
  zeros ← some (replicate (40 + udp_headers_bytes + payload_len) 0)
  src' ← view src 16
  with_src ← overwrite zeros 0 src'
  dst' ← view dst 16
  with_dst ← overwrite with_src 16 dst'
  with_len ← overwrite with_dst 32 (htonl (u32 (udp_headers_bytes + payload_len)))
  with_next ← store with_len 39 ipproto_udp
  udp' ← view udp udp_headers_bytes
  with_udp ← overwrite with_next 40 udp'
  payload' ← view payload payload_len
  whole ← overwrite with_udp (40 + udp_headers_bytes) payload'
  some (checksum whole)

-- `ip6h->ip6_flow |= htonl(flow)`
or_flow : Bytes → Bytes → Option Bytes
or_flow p (f ∷ f' ∷ f'' ∷ f''' ∷ _) = do
  a ← load p 0
  p' ← store p 0 (bit_or a f)
  b ← load p' 1
  p'' ← store p' 1 (bit_or b f')
  c ← load p'' 2
  p''' ← store p'' 2 (bit_or c f'')
  d ← load p''' 3
  store p''' 3 (bit_or d f''')
or_flow p _ = none

-- `inet_pton(AF_INET6, text, packet + i)`
put_address : Option Bytes → Bytes → ℕ → Option Bytes
put_address none p i = some p
put_address (some address) p i = overwrite p i address

-- The fields of the IPv6 header before the addresses.
put_fixed_part : ℕ → Bytes → Option Bytes
unfolding or_flow
put_fixed_part payload_size p = do
  version ← store p 0 (6 * 16)
  flow ← or_flow version (htonl 0x6724d)
  plen ← store16 flow 4 (u16 (udp_headers_bytes + payload_size))
  nxt ← store plen 6 ipproto_udp
  store nxt 7 64

put_ipv6_header : Libc → Bytes → Bytes → ℕ → Bytes → Option Bytes
unfolding put_fixed_part put_address
put_ipv6_header libc src_addr dst_addr payload_size p = do
  fixed ← put_fixed_part payload_size p
  src ← put_address (libc.inet_pton src_addr) fixed 8
  put_address (libc.inet_pton dst_addr) src 24

put_udp_header : Libc → Bytes → Bytes → ℕ → Bytes → Option Bytes
put_udp_header libc src_port dst_port payload_size p = do
  sport ← store16 p 40 (u16 (libc.atoi src_port))
  dport ← store16 sport 42 (u16 (libc.atoi dst_port))
  ulen ← store16 dport 44 (u16 (udp_headers_bytes + payload_size))
  store16 ulen 46 0

pub generate_ipv6_udp_packet :
    Libc → Bytes → Bytes → Bytes → Bytes → Bytes → Bytes → ℕ → Option Bytes
unfolding put_ipv6_header put_udp_header
generate_ipv6_udp_packet libc packet src_addr src_port dst_addr dst_port payload payload_size = do
  zeros ← overwrite packet 0 (replicate (ipv6_headers_bytes + udp_headers_bytes + payload_size) 0)
  ip6h ← put_ipv6_header libc src_addr dst_addr payload_size zeros
  udph ← put_udp_header libc src_port dst_port payload_size ip6h
  bytes ← view payload payload_size
  overwrite udph (ipv6_headers_bytes + udp_headers_bytes) bytes
