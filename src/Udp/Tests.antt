-- ===== src/Udp/Tests.antt =====
-- Runs of the packet functions, and the theorems at concrete packets.
use schc_work.Common.{◌≡◌, refl, none, some, true, false, [], ◌∷◌, arith, Bytes, IsBytes}
use schc_work.Samples.{packet}
use schc_work.Udp.{
  load16, fold_carries, update_udp_checksum, update_ip6_udp_len, ipv6_udp_payload_len,
  is_ipv6_udp_packet, is_coap_packet,
}
use schc_work.Udp.Headers.{
  HasLengths, update_ip6_udp_len-HasLengths, HasChecksum, update_udp_checksum-HasChecksum,
}

accepts_packet : is_ipv6_udp_packet (some packet) 50 ≡ some true
unfolding is_ipv6_udp_packet
accepts_packet = refl

refuses_short : is_ipv6_udp_packet (some packet) 47 ≡ some false
unfolding is_ipv6_udp_packet
refuses_short = refl

refuses_null : is_ipv6_udp_packet none 50 ≡ some false
unfolding is_ipv6_udp_packet
refuses_null = refl

payload_of_packet : ipv6_udp_payload_len packet ≡ some 2
unfolding ipv6_udp_payload_len
payload_of_packet = refl

coap_version : is_coap_packet (0x40 ∷ 1 ∷ []) 2 ≡ some true
unfolding is_coap_packet
coap_version = refl

folds : fold_carries 0x1_FFFF ≡ 1
unfolding fold_carries
folds = refl

packet-IsBytes : IsBytes packet
packet-IsBytes = omega arith

update_ip6_udp_len-HasLengths_example :
    (p' : Bytes) × (update_ip6_udp_len packet 2 ≡ some p') × HasLengths packet 2 p'
update_ip6_udp_len-HasLengths_example =
    update_ip6_udp_len-HasLengths packet 2 (omega arith) (omega arith)

update_udp_checksum-HasChecksum_example :
    (p' : Bytes) × (update_udp_checksum packet ≡ some p') × HasChecksum packet 10 p'
unfolding load16
update_udp_checksum-HasChecksum_example =
    update_udp_checksum-HasChecksum packet 10 packet-IsBytes (omega arith) refl (omega arith)
      (omega arith) (omega arith)
