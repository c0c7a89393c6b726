-- ===== src/SchcAl.antt =====
-- applications/schc_worker_linux/src/schc_al.c: the SCHC adaptation layer between a TUN device and
-- the SCHC network layer. The static variables are the record `Al`; each function takes what the
-- system and the libraries answer to its calls. A result `none` is an access outside of a buffer.
pub mod Sending
pub mod Outcomes
pub mod Protected
pub mod Guard
pub mod Lifecycle
pub mod Frame
pub mod ForwardUp
mod Tests
use schc_work.Common.{
  ℕ, suc, ◌+◌, ◌-◌, Bool, true, false, not, ◌&&◌, Option, none, some, List, [], ◌∷◌, ◌++◌, length,
  drop, Bytes, view, overwrite, u16, ltb, ◌==◌, if◌then◌else◌, ◌>>=◌,
}
use schc_work.Common.Int.{ℤ, pos, minus_one, is_neg}
use schc_work.Platform.FdTable.{Slot, watch_fd_for_input, unwatch_fd_for_input}
use schc_work.Oscore.{
  CoapOscoreRes, co_success, co_not_oscore, Conversion, coap_to_oscore, oscore_to_coap,
}
use schc_work.Udp.{
  is_ipv6_udp_packet, ipv6_udp_payload_len, is_coap_packet, update_ip6_udp_len, update_udp_checksum,
}

-- The build options: OSCORE_PROXY_ENABLED, DROP_NON_COAP, OSCORE_DROP_ON_ERROR and
-- `oscore_inner_schc_enabled`.
pub record Options : Type 0 where
  pub oscore_proxy_enabled : Bool
  pub drop_non_coap : Bool
  pub oscore_drop_on_error : Bool
  pub inner_schc : Bool

-- The callbacks that the worker registers with the platform.
pub data Callback : Type 0 where
  schc_al_tun_received_handler downlink_available_callback : Callback

-- The static variables of the file, the bits of `event` one by one, and the platform's table.
pub record Al : Type 0 where
  pub processing_required : Bool
  pub connectivity_available : Bool
  pub ip_packet_available : Bool
  pub ongoing_transmission : Bool
  pub tun_fd : ℤ
  pub net_buffer : Bytes
  pub watched_fds : List (Slot Callback)

pub data ProcessStatus : Type 0 where
  send_down_ok send_down_busy send_down_oscore_error send_down_internal_error : ProcessStatus

-- What the outside sees of a call.
pub data Effect : Type 0 where
  closed : ℤ → Effect
  net_sent tun_written : Bytes → Effect

-- The answers to the calls of `schc_al_init`: the security context, the descriptor of
-- `create_tun`, and whether each of the three commands succeeded.
pub record InitAnswers : Type 0 where
  pub context_ok : Bool
  pub tun : ℤ
  pub link_up : Bool
  pub addr_added : Bool
  pub route_replaced : Bool

abbrev no_events : Al → Al
no_events s = record s {
  processing_required = false;
  connectivity_available = false;
  ip_packet_available = false;
  ongoing_transmission = false;
}

-- `close(tun_fd); tun_fd = -1; return -1;`
give_up : Al → ℤ × List Effect × Al
give_up s = (minus_one, closed s.tun_fd ∷ [], record s { tun_fd = minus_one })

-- The part of `schc_al_init` behind `create_tun`, with its descriptor in `tun_fd`.
unfoldable pub set_up_tun : InitAnswers → Al → Option (ℤ × List Effect × Al)
unfolding give_up
set_up_tun answers s =
    if not answers.link_up
    then some (give_up s)
    else if not answers.addr_added
    then some (give_up s)
    else if not answers.route_replaced
    then some (give_up s)
    else do
      (done, slots) ← watch_fd_for_input s.tun_fd (some schc_al_tun_received_handler) s.watched_fds
      let s' = record s { watched_fds = slots }
      if not done
          then some (give_up s')
          else some
              (pos 0, [], record s' { connectivity_available = true; processing_required = true })

unfoldable pub schc_al_init : Options → InitAnswers → Al → Option (ℤ × List Effect × Al)
unfolding set_up_tun
schc_al_init o answers s =
    let s' = no_events s in
    if o.oscore_proxy_enabled && not answers.context_ok
    then some (minus_one, [], s')
    else if not (is_neg s.tun_fd)
    then some (pos 0, [], s')
    else let opened = record s' { tun_fd = answers.tun } in
      if is_neg answers.tun then some (minus_one, [], opened) else set_up_tun answers opened

unfoldable pub schc_al_terminate : Al → Option (ℤ × List Effect × Al)
schc_al_terminate s = if is_neg s.tun_fd then some (pos 0, [], no_events s) else do
  (done, slots) ← unwatch_fd_for_input s.tun_fd s.watched_fds
  some (
    pos 0,
    closed s.tun_fd ∷ [],
    no_events (record s { watched_fds = slots; tun_fd = minus_one }),
  )

unfoldable pub tun_received : Al → Al
tun_received s = record s { ip_packet_available = true; processing_required = true }

-- What a `read` that is not interrupted answers.
pub data ReadResult : Type 0 where
  would_block read_failed : ReadResult
  got : Bytes → ReadResult

-- The answers of `read`: it is interrupted finitely often before it answers.
pub data Reads : Type 0 where
  interrupted : Reads → Reads
  last : ReadResult → Reads

-- The loop that repeats `read` while it is interrupted.
unfoldable pub read_tun : Reads → ReadResult
read_tun (interrupted reads) = read_tun reads
read_tun (last r) = r

-- The answers to the calls of `schc_al_send_down`; `net_sendto` tells whether it succeeds.
pub record SendAnswers : Type 0 where
  pub reads : Reads
  pub coap2oscore : Conversion
  pub net_sendto : Bytes → Bool

abbrev pub Sent : Type 0
Sent = ProcessStatus × List Effect × Al

-- From the second log line of `schc_al_send_down` on.
pub transmit : SendAnswers → Al → ℕ → Option Sent
transmit answers s pkt_len = do
  packet ← view s.net_buffer pkt_len
  if answers.net_sendto packet
      then some (send_down_ok, net_sent packet ∷ [], record s { ongoing_transmission = true })
      else some (
        send_down_internal_error,
        net_sent packet ∷ [],
        record s { ongoing_transmission = false },
      )

-- The new lengths and checksum, then the transmission.
pub send_oscore : SendAnswers → Al → ℕ → Option Sent
send_oscore answers s oscore_len = do
  resized ← update_ip6_udp_len s.net_buffer oscore_len
  summed ← update_udp_checksum resized
  transmit answers (record s { net_buffer = summed }) (40 + 8 + oscore_len)

-- What follows the conversion: `oscore_len` bytes on success; on an error the drop, or the
-- original length.
pub after_conversion : Options → SendAnswers → Al → ℕ → ℕ → CoapOscoreRes → Option Sent
after_conversion o answers s oscore_len coap_packet_len co_success =
    send_oscore answers s oscore_len
after_conversion o answers s oscore_len coap_packet_len _ =
    if o.oscore_drop_on_error
    then some (send_down_oscore_error, [], s)
    else send_oscore answers s coap_packet_len

-- The conversion in place of the CoAP packet in `net_buffer`.
pub protect : Options → SendAnswers → Al → ℕ → Option Sent
unfolding after_conversion
protect o answers s coap_packet_len = do
  coap_packet ← view (drop 48 s.net_buffer) (u16 coap_packet_len)
  let converted =
      coap_to_oscore answers.coap2oscore o.inner_schc coap_packet (length s.net_buffer - 40 - 8)
  buffer ← overwrite s.net_buffer 48 converted.1
  after_conversion o answers (record s { net_buffer = buffer }) (length converted.1) coap_packet_len
      converted.0

-- A packet of `pkt_len` bytes has been read into `net_buffer`.
pub send_packet : Options → SendAnswers → Al → ℕ → Option Sent
send_packet o answers s pkt_len = do
  is_udp ← is_ipv6_udp_packet (some s.net_buffer) pkt_len
  if not is_udp then some (send_down_ok, [], s) else do
    coap_packet_len ← ipv6_udp_payload_len s.net_buffer
    is_coap ← is_coap_packet (drop 48 s.net_buffer) coap_packet_len
    if not is_coap
        then (if o.drop_non_coap then some (send_down_ok, [], s) else transmit answers s pkt_len)
        else if o.oscore_proxy_enabled
        then protect o answers s coap_packet_len
        else transmit answers s pkt_len

unfoldable pub after_read : Options → SendAnswers → Al → ReadResult → Option Sent
after_read o answers s would_block = some (send_down_ok, [], s)
after_read o answers s read_failed = some (send_down_internal_error, [], s)
after_read o answers s (got bytes) = do
  buffer ← overwrite s.net_buffer 0 bytes
  send_packet o answers (record s { net_buffer = buffer }) (length bytes)

unfoldable pub schc_al_send_down : Options → SendAnswers → Al → Option Sent
unfolding after_read
schc_al_send_down o answers s =
    if is_neg s.tun_fd
    then some (send_down_internal_error, [], s)
    else if s.ongoing_transmission
    then some (send_down_busy, [], s)
    else after_read o answers s (read_tun answers.reads)

unfoldable pub schc_al_process : Options → SendAnswers → Al → Option Sent
schc_al_process o answers s =
    if s.ip_packet_available
    then schc_al_send_down o answers
        (record s { ip_packet_available = false; processing_required = false })
    else some (send_down_ok, [], s)

-- `net_transmission_result`: whatever the status, the transmission is over.
unfoldable pub net_transmission_result : Al → Al
net_transmission_result s = record s { ongoing_transmission = false }
