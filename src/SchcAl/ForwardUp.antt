-- ===== src/SchcAl/ForwardUp.antt =====
-- applications/schc_worker_linux/src/schc_al.c, the way up: packets from the network layer are
-- written to the TUN device.
pub mod Laws
use schc_work.Common.{
  ℕ, ◌+◌, Bool, not, Option, none, some, List, [], ◌∷◌, length, drop, Bytes, view, overwrite, u16,
  ◌==◌, if◌then◌else◌, ◌>>=◌, ◌||◌,
}
use schc_work.Common.Int.{ℤ, pos, minus_one, is_neg}
use schc_work.Oscore.{
  CoapOscoreRes, co_success, co_buffer_error, co_coap_error, co_oscore_error, co_echo_error,
  co_not_oscore, co_max_session_reached, co_unknown_session, Conversion, oscore_to_coap,
}
use schc_work.Udp.{
  is_ipv6_udp_packet, ipv6_udp_payload_len, is_coap_packet, update_ip6_udp_len, update_udp_checksum,
}
use schc_work.SchcAl.{Al, Options, Effect, tun_written}

-- The answers to the calls on the way up: the conversion, and whether `write` succeeds.
pub record UpAnswers : Type 0 where
  pub oscore2coap : Conversion
  pub write_ok : Bool

-- The status, what was written, and the caller's buffer, which is rewritten in place.
abbrev pub Up : Type 0
Up = ℤ × List Effect × Bytes

-- From `What goes to tun` on.
write_up : UpAnswers → Bytes → ℕ → Option Up
write_up answers buffer size = do
  packet ← view buffer size
  some ((if answers.write_ok then pos 0 else minus_one), tun_written packet ∷ [], buffer)

-- The `switch` behind `oscore_to_coap`, which wrote `coap_packet_len` bytes.
after_oscore : UpAnswers → Bytes → ℕ → ℕ → CoapOscoreRes → Option Up
unfolding write_up
after_oscore answers buffer data_size coap_packet_len co_success = do
  resized ← update_ip6_udp_len buffer coap_packet_len
  summed ← update_udp_checksum resized
  write_up answers summed (u16 (40 + 8 + coap_packet_len))
after_oscore answers buffer data_size coap_packet_len co_not_oscore =
    write_up answers buffer data_size
after_oscore answers buffer data_size coap_packet_len _ = some (minus_one, [], buffer)

unprotect : Options → UpAnswers → Bytes → ℕ → ℕ → Option Up
unfolding after_oscore
unprotect o answers buffer data_size coap_packet_len = do
  oscore_packet ← view (drop 48 buffer) (u16 coap_packet_len)
  let converted = oscore_to_coap answers.oscore2coap o.inner_schc oscore_packet coap_packet_len
  buffer' ← overwrite buffer 48 converted.1
  after_oscore answers buffer' data_size (length converted.1) converted.0

-- `is_coap_packet` is given `data_size`, the size of the whole packet.
pub schc_al_forward_up : Options → UpAnswers → Al → Bytes → ℕ → Option Up
unfolding unprotect write_up
schc_al_forward_up o answers s buffer data_size =
    if is_neg s.tun_fd || data_size == 0 then some (minus_one, [], buffer) else do
      is_udp ← is_ipv6_udp_packet (some buffer) data_size
      if not is_udp then some (pos 0, [], buffer) else do
        coap_packet_len ← ipv6_udp_payload_len buffer
        is_coap ← is_coap_packet (drop 48 buffer) data_size
        if is_coap
            then if o.oscore_proxy_enabled
              then unprotect o answers buffer data_size coap_packet_len
              else write_up answers buffer data_size
            else if o.drop_non_coap
            then some (pos 0, [], buffer)
            else write_up answers buffer data_size

-- `net_status_t`, as far as the callback tells its values apart.
pub data NetStatus : Type 0 where
  net_success net_rules_not_found_err : NetStatus
  net_other : ℕ → NetStatus

-- The callback hands a packet on only with NET_SUCCESS.
pub net_data_received :
    Options → UpAnswers → Al → Bytes → ℕ → NetStatus → Option (List Effect × Bytes)
net_data_received o answers s buffer data_size net_success = do
  (status, effects, buffer') ← schc_al_forward_up o answers s buffer data_size
  some (effects, buffer')
net_data_received o answers s buffer data_size net_rules_not_found_err = some ([], buffer)
net_data_received o answers s buffer data_size (net_other n) = some ([], buffer)
