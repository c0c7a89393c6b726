-- ===== src/SchcAl/Tests.antt =====
-- Runs of the adaptation layer, and the theorems at concrete states.
use mathlib.Core.List.{Nodup-nil}
use schc_work.Common.{
  ◌≡◌, refl, sym, ◌∙◌, true, false, none, some, List, [], ◌∷◌, ◌++◌, arith, replicate, Bytes,
  IsBytes,
}
use schc_work.Common.Int.{pos, minus_one}
use schc_work.Common.Slices.{splice}
use schc_work.Oscore.{ok, other, Conversion, coap_to_oscore, uoscore_err_to_res}
use schc_work.Platform.FdTable.{Slot, used, scan, set_fd, watch_fd_for_input}
use schc_work.Platform.FdTable.Laws.{IsValid}
use schc_work.Samples.{packet, long_packet, empty_packet}
use schc_work.Udp.{is_ipv6_udp_packet, ipv6_udp_payload_len, is_coap_packet}
use schc_work.SchcAl.{
  Al, Options, Callback, net_sent, tun_written, InitAnswers, send_down_ok, send_down_oscore_error,
  interrupted, last, got, SendAnswers, schc_al_init, schc_al_terminate, schc_al_send_down,
  schc_al_process, read_tun, after_read, send_packet, protect, after_conversion, transmit,
  set_up_tun,
}
use schc_work.SchcAl.Guard.{IsGuarded, WritesBytes, ReadsBytes, schc_al_process-IsGuarded}
use schc_work.SchcAl.Lifecycle.{
  Started, schc_al_init-Started, IsTerminated, schc_al_init-terminate, tun_entry, running_on,
}
use schc_work.SchcAl.Outcomes.{Outcome, schc_al_process-Outcome}
use schc_work.SchcAl.Protected.{IsCoapPacket, schc_al_send_down-IsRewritten}
use schc_work.SchcAl.Sending.{IsRewritten, sent_as}
use schc_work.SchcAl.ForwardUp.{UpAnswers, schc_al_forward_up}
use schc_work.SchcAl.ForwardUp.Laws.{IsCoapUp, schc_al_forward_up-IsRewritten}

abbrev options : Options
options = record {
  oscore_proxy_enabled = true;
  drop_non_coap = true;
  oscore_drop_on_error = true;
  inner_schc = false;
}

-- The worker on descriptor 3, with a packet waiting.
abbrev al : Al
al = record {
  processing_required = true;
  connectivity_available = true;
  ip_packet_available = true;
  ongoing_transmission = false;
  tun_fd = pos 3;
  net_buffer = replicate 60 0;
  watched_fds = tun_entry (pos 3) ∷ replicate 7 (record { fd = minus_one; cb = none });
}

-- A conversion that puts a byte in front of the packet.
abbrev marking : Conversion
marking cb p room = (ok, 0xFF ∷ p)

-- A conversion that writes three bytes.
abbrev sealing : Conversion
sealing cb p room = (ok, 0xFF ∷ 0x40 ∷ 1 ∷ [])

-- A conversion that fails.
abbrev failing : Conversion
failing cb p room = (other 7, 1 ∷ [])

-- The packet is read at the second attempt, and every transmission succeeds.
abbrev answers_with : Conversion → Bytes → SendAnswers
answers_with conv bytes = record {
  reads = interrupted (last (got bytes));
  coap2oscore = conv;
  net_sendto = λ p. true;
}

is_coap_here : IsCoapPacket al packet 2
unfolding is_ipv6_udp_packet ipv6_udp_payload_len is_coap_packet
is_coap_here = record { fits = omega arith; is_udp = refl; payload_len = refl; is_coap = refl }

zeros-IsBytes : IsBytes al.net_buffer
zeros-IsBytes = omega arith

packet-IsBytes : IsBytes packet
packet-IsBytes = omega arith

reads_packet : read_tun (interrupted (last (got packet))) ≡ got packet
unfolding read_tun
reads_packet = refl

schc_al_send_down-IsRewritten_example :
    (sent : Bytes) × (s' : Al) × (schc_al_send_down options (answers_with marking packet) al
      ≡ some (sent_as (answers_with marking packet) s' sent))
    × IsRewritten (splice al.net_buffer 0 packet) (0xFF ∷ 0x40 ∷ 1 ∷ []) sent
schc_al_send_down-IsRewritten_example =
    schc_al_send_down-IsRewritten options (answers_with marking packet) al packet 2
      (0xFF ∷ 0x40 ∷ 1 ∷ []) refl refl refl reads_packet is_coap_here zeros-IsBytes packet-IsBytes
      (omega arith) (omega arith) refl (omega arith) (omega arith)

is_coap_long : IsCoapPacket al long_packet 514
unfolding is_ipv6_udp_packet ipv6_udp_payload_len is_coap_packet
is_coap_long = record { fits = omega arith; is_udp = refl; payload_len = refl; is_coap = refl }

reads_long : read_tun (interrupted (last (got long_packet))) ≡ got long_packet
unfolding read_tun
reads_long = refl

-- The state after a conversion that failed with one byte written.
abbrev al_dropped : Al
al_dropped = record al {
  ip_packet_available = false;
  processing_required = false;
  net_buffer = splice (splice al.net_buffer 0 packet) 48 (1 ∷ []);
}

dropping_run :
    schc_al_process options (answers_with failing packet) al
    ≡ some (send_down_oscore_error, [], al_dropped)
unfolding schc_al_process schc_al_send_down read_tun after_read send_packet protect after_conversion
    is_ipv6_udp_packet ipv6_udp_payload_len is_coap_packet coap_to_oscore uoscore_err_to_res
dropping_run = refl

abbrev al_served : Al
al_served = record al { ip_packet_available = false; processing_required = false }

is_coap_served : IsCoapPacket al_served packet 2
unfolding is_ipv6_udp_packet ipv6_udp_payload_len is_coap_packet
is_coap_served = record { fits = omega arith; is_udp = refl; payload_len = refl; is_coap = refl }

sealed :
    (sent : Bytes) × (s' : Al) × (schc_al_send_down options (answers_with sealing packet) al_served
      ≡ some (sent_as (answers_with sealing packet) s' sent))
    × IsRewritten (splice al.net_buffer 0 packet) (0xFF ∷ 0x40 ∷ 1 ∷ []) sent
sealed =
    schc_al_send_down-IsRewritten options (answers_with sealing packet) al_served packet 2
      (0xFF ∷ 0x40 ∷ 1 ∷ []) refl refl refl reads_packet is_coap_served zeros-IsBytes packet-IsBytes
      (omega arith) (omega arith) refl (omega arith) (omega arith)

sealed_run :
    schc_al_process options (answers_with sealing packet) al
    ≡ some (sent_as (answers_with sealing packet) sealed.1 sealed.0)
unfolding schc_al_process
sealed_run = sealed.2

sealing-WritesBytes : WritesBytes (answers_with sealing packet)
sealing-WritesBytes cb p room = omega arith

read-ReadsBytes : ReadsBytes (answers_with sealing packet)
read-ReadsBytes bytes e =
    let same : got packet ≡ got bytes = sym reads_packet ∙ e in
    let whole : packet ≡ bytes = cc in rw (← whole) packet-IsBytes

schc_al_process-IsGuarded_example :
    IsGuarded options
      (answers_with sealing packet)
      al.net_buffer
      (sent_as (answers_with sealing packet) sealed.1 sealed.0)
schc_al_process-IsGuarded_example =
    schc_al_process-IsGuarded options (answers_with sealing packet) refl refl refl
      sealing-WritesBytes read-ReadsBytes al zeros-IsBytes (omega arith) sealed_run

-- Without OSCORE the packet leaves as it is.
abbrev plain : Options
plain = record options { oscore_proxy_enabled = false }

abbrev al_sent : Al
al_sent = record al {
  ip_packet_available = false;
  processing_required = false;
  ongoing_transmission = true;
  net_buffer = splice al.net_buffer 0 packet;
}

sending_run :
    schc_al_process plain (answers_with marking packet) al
    ≡ some (send_down_ok, net_sent packet ∷ [], al_sent)
unfolding schc_al_process schc_al_send_down read_tun after_read send_packet transmit
    is_ipv6_udp_packet ipv6_udp_payload_len is_coap_packet
sending_run = refl

schc_al_process-Outcome_example :
    Outcome (answers_with marking packet) false (send_down_ok, net_sent packet ∷ [], al_sent)
schc_al_process-Outcome_example =
    schc_al_process-Outcome plain (answers_with marking packet) al sending_run

-- The worker before its start, and the answers of a system that does what it is asked.
abbrev al_down : Al
al_down = record al {
  tun_fd = minus_one;
  watched_fds =
      record { fd = minus_one; cb = none } ∷ replicate 7 (record { fd = pos 0; cb = none });
}

abbrev willing : InitAnswers
willing = record {
  context_ok = true;
  tun = pos 3;
  link_up = true;
  addr_added = true;
  route_replaced = true;
}

al_down-IsValid : IsValid al_down.watched_fds
unfolding used
al_down-IsValid = record { size = refl; nonneg = tt; distinct = Nodup-nil }

abbrev started_slots : List (Slot Callback)
started_slots =
    tun_entry (pos 3)
    ∷ record { fd = minus_one; cb = none }
    ∷ replicate 6 (record { fd = pos 0; cb = none })

init_run :
    schc_al_init options willing al_down
    ≡ some (pos 0, [], running_on (pos 3) started_slots al_down)
unfolding schc_al_init set_up_tun watch_fd_for_input scan set_fd
init_run = refl

schc_al_init-Started_example :
    Started options willing al_down (schc_al_init options willing al_down)
schc_al_init-Started_example = schc_al_init-Started options willing al_down al_down-IsValid

schc_al_init-terminate_example :
    IsTerminated
      (pos 3)
      (used al_down.watched_fds)
      (schc_al_terminate (running_on (pos 3) started_slots al_down))
schc_al_init-terminate_example =
    schc_al_init-terminate options willing al_down (running_on (pos 3) started_slots al_down)
      al_down-IsValid refl init_run

abbrev up_with : Conversion → UpAnswers
up_with conv = record { oscore2coap = conv; write_ok = true }

-- The caller's buffer has room behind the packet.
abbrev buffer : Bytes
buffer = packet ++ replicate 10 0

is_coap_up : IsCoapUp al buffer 50 2
unfolding is_ipv6_udp_packet ipv6_udp_payload_len is_coap_packet
is_coap_up = record {
  up = refl;
  nonempty = refl;
  is_udp = refl;
  payload_len = refl;
  is_coap = refl;
  small = omega arith;
  fits = omega arith;
}

schc_al_forward_up-IsRewritten_example :
    (written buffer' : Bytes) × (schc_al_forward_up options (up_with marking) al buffer 50
      ≡ some (pos 0, tun_written written ∷ [], buffer'))
    × IsRewritten buffer (0xFF ∷ 0x40 ∷ 1 ∷ []) written
schc_al_forward_up-IsRewritten_example =
    schc_al_forward_up-IsRewritten options (up_with marking) al buffer 50 2 (0xFF ∷ 0x40 ∷ 1 ∷ [])
      refl is_coap_up (omega arith) (omega arith) refl (omega arith) (omega arith)

is_udp_empty : is_ipv6_udp_packet (some empty_packet) 48 ≡ some true
unfolding is_ipv6_udp_packet
is_udp_empty = refl

no_payload : ipv6_udp_payload_len empty_packet ≡ some 0
unfolding ipv6_udp_payload_len
no_payload = refl
