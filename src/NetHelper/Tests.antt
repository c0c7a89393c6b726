-- ===== src/NetHelper/Tests.antt =====
-- A packet from ::1 to ::2, and the theorems at it.
use schc_work.Common.{
  ◌≡◌, refl, ℕ, ◌+◌, if◌then◌else◌, ◌==◌, some, [], ◌∷◌, ◌++◌, Bytes, replicate, arith,
}
use schc_work.Udp.{udp_checksum}
use schc_work.NetHelper.{Libc, words_add, pseudo_checksum, generate_ipv6_udp_packet}
use schc_work.NetHelper.Packet.{Carries, generate_ipv6_udp_packet-Carries}
use schc_work.NetHelper.Sum.{swapped, pseudo_checksum-udp_checksum}

abbrev loopback : Bytes
loopback = replicate 15 0 ++ 1 ∷ []

abbrev neighbour : Bytes
neighbour = replicate 15 0 ++ 2 ∷ []

-- The texts of the two addresses are taken as 1 and 2, that of the port as 3.
abbrev libc : Libc
libc = record { inet_pton = λ text. some (replicate 15 0 ++ text); atoi = λ text. 5683 }

abbrev ping : Bytes
ping = 0x40 ∷ 0 ∷ []

-- A buffer of 52 bytes, with old content.
abbrev buffer : Bytes
buffer = replicate 52 0xFF

machine_words : words_add 0 (0x12 ∷ 0x34 ∷ 0x56 ∷ []) ≡ 0x3412 + 0x56
unfolding words_add
machine_words = refl

generate_ipv6_udp_packet-Carries_example :
    (p : Bytes) × (generate_ipv6_udp_packet libc buffer (1 ∷ []) (3 ∷ []) (2 ∷ []) (3 ∷ []) ping 2
      ≡ some p)
    × Carries loopback neighbour 5683 5683 2 ping (0xFF ∷ 0xFF ∷ []) p
generate_ipv6_udp_packet-Carries_example =
    generate_ipv6_udp_packet-Carries libc (1 ∷ []) (2 ∷ []) loopback neighbour refl refl refl refl
      buffer (3 ∷ []) (3 ∷ []) ping 2 (omega arith) (omega arith) (omega arith)

abbrev header : Bytes
header = 0x16 ∷ 0x33 ∷ 0x16 ∷ 0x33 ∷ 0 ∷ 10 ∷ 0 ∷ 0 ∷ []

pseudo_checksum-udp_checksum_example :
    (c : ℕ) × (c' : ℕ) × (pseudo_checksum loopback neighbour header ping 2 ≡ some c)
    × (udp_checksum (header ++ ping) 10 loopback neighbour ≡ some c')
    × (c' ≡ (if swapped c == 0 then 0xFFFF else swapped c))
pseudo_checksum-udp_checksum_example =
    pseudo_checksum-udp_checksum loopback neighbour header ping 2 refl refl refl refl (omega arith)
      (omega arith) (omega arith) (omega arith) (omega arith)
