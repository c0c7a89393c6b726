-- ===== src/SchcAl/Protected.antt =====
-- The OSCORE path of `schc_al_send_down`: what leaves, what is dropped, what is read too far.
use schc_work.Common.{
  ℕ, ◌+◌, ◌-◌, ◌^◌, ◌≤◌, ◌<◌, ◌≡◌, ◌∙◌, true, false, Option, none, some, arith, length, take, drop,
  Bytes, IsBytes, view, u16, if◌then◌else◌, length-drop,
}
use schc_work.Common.Int.{is_neg}
use schc_work.Common.Slices.{splice, splice-IsSpliced, view_past}
use schc_work.Oscore.{ok, InnerCallback, inner_compression, coap_to_oscore}
use schc_work.Udp.{is_ipv6_udp_packet, ipv6_udp_payload_len, is_coap_packet}
use schc_work.SchcAl.{
  Al, Options, SendAnswers, protect, send_packet, after_read, got, read_tun, schc_al_send_down,
  send_oscore,
}
use schc_work.SchcAl.Sending.{IsRewritten, sent_as, send_oscore-IsRewritten}

-- The state after the read of `bytes` into the buffer.
abbrev pub received : Al → Bytes → Al
received s bytes = record s { net_buffer = splice s.net_buffer 0 bytes }

-- A packet that the handler takes for CoAP over UDP over IPv6, with the payload length `m` of its
-- UDP header.
pub record IsCoapPacket (s : Al) (bytes : Bytes) (m : ℕ) : Type 0 where
  pub fits : length bytes ≤ length s.net_buffer
  pub is_udp : is_ipv6_udp_packet (some (splice s.net_buffer 0 bytes)) (length bytes) ≡ some true
  pub payload_len : ipv6_udp_payload_len (splice s.net_buffer 0 bytes) ≡ some m
  pub is_coap : is_coap_packet (drop 48 (splice s.net_buffer 0 bytes)) m ≡ some true

abbrev pub callback_of : Options → Option InnerCallback
callback_of o = if o.inner_schc then some inner_compression else none

-- The handler reaches the conversion.
send_down-protect :
    (o : Options) (answers : SendAnswers) (s : Al) (bytes : Bytes) (m : ℕ)
    → o.oscore_proxy_enabled ≡ true
    → is_neg s.tun_fd ≡ false
    → s.ongoing_transmission ≡ false
    → read_tun answers.reads ≡ got bytes
    → IsCoapPacket s bytes m
    → schc_al_send_down o answers s ≡ protect o answers (received s bytes) m
unfolding schc_al_send_down after_read send_packet
send_down-protect o answers s bytes m on up idle reads coap =
    let spliced = splice-IsSpliced s.net_buffer 0 bytes (omega (arith, coap.fits)) in
    rw (up, idle, reads, spliced.written, coap.is_udp, coap.payload_len, coap.is_coap, on)

-- The conversion succeeds and its output is written back.
protect-send_oscore :
    (o : Options) (answers : SendAnswers) (s : Al) (m : ℕ) (out : Bytes)
    → m < 2 ^ 16
    → 48 + m ≤ length s.net_buffer
    → answers.coap2oscore
        (callback_of o)
        (take m (drop 48 s.net_buffer))
        (length s.net_buffer - 40 - 8)
      ≡ (ok, out)
    → 48 + length out ≤ length s.net_buffer
    → protect o answers s m
      ≡ send_oscore answers (record s { net_buffer = splice s.net_buffer 48 out }) (length out)
unfolding protect coap_to_oscore
protect-send_oscore o answers s m out small room conv fits =
    let whole : u16 m ≡ m = omega arith in
    let seen : view (drop 48 s.net_buffer) m ≡ some (take m (drop 48 s.net_buffer)) =
      ground (arith, length-drop 48 s.net_buffer) in
    rw (whole, seen, conv, (splice-IsSpliced s.net_buffer 48 out fits).written)

-- With OSCORE enabled, an open TUN device and no transmission under way: when a CoAP packet that
-- lies inside the buffer is read and the library converts it to `out`, which fits the room that it
-- was given, exactly one packet is handed to `net_sendto`. It carries `out`, both length fields
-- and the checksum are right for it, and its other header bytes are those of the packet read.
pub schc_al_send_down-IsRewritten :
    (o : Options) (answers : SendAnswers) (s : Al) (bytes : Bytes) (m : ℕ) (out : Bytes)
    → o.oscore_proxy_enabled ≡ true
    → is_neg s.tun_fd ≡ false
    → s.ongoing_transmission ≡ false
    → read_tun answers.reads ≡ got bytes
    → IsCoapPacket s bytes m
    → IsBytes s.net_buffer
    → IsBytes bytes
    → length s.net_buffer < 2 ^ 16
    → 48 + m ≤ length s.net_buffer
    → let buffer = splice s.net_buffer 0 bytes in
      answers.coap2oscore (callback_of o) (take m (drop 48 buffer)) (length buffer - 40 - 8)
        ≡ (ok, out)
      → IsBytes out
      → 48 + length out ≤ length s.net_buffer
      → (packet : Bytes) × (s' : Al) × (schc_al_send_down o answers s
          ≡ some (sent_as answers s' packet))
        × IsRewritten (splice s.net_buffer 0 bytes) out packet
schc_al_send_down-IsRewritten o answers s bytes m out on up idle reads coap bn bb small room conv bo
      fits =
    let s₁ = received s bytes in
    let first = splice-IsSpliced s.net_buffer 0 bytes (omega (arith, coap.fits)) in
    let len = first.same_length in
    let second = splice-IsSpliced s₁.net_buffer 48 out (omega (arith, len)) in
    let s₂ : Al = record s₁ { net_buffer = splice s₁.net_buffer 48 out } in
    let (packet, s', e, good) =
      send_oscore-IsRewritten answers s₂ out (second.bytes (first.bytes bn bb) bo)
        (omega (arith, len, second.same_length)) (omega arith) second.content in
    (
      packet,
      s',
      send_down-protect o answers s bytes m on up idle reads coap
          ∙ protect-send_oscore o answers s₁ m out (omega arith) (omega (arith, len)) conv
              (omega (arith, len))
          ∙ e,
      record {
        size = good.size;
        carries = good.carries;
        ip6_plen = good.ip6_plen;
        ulen = good.ulen;
        valid = good.valid;
        others = λ j h a b c d e f. good.others j h a b c d e f ∙ second.before j h;
      },
    )

-- With OSCORE enabled, an open TUN device and no transmission under way: the conversion is handed
-- as many bytes as the UDP header of the CoAP packet read claims, and if that is more than the
-- buffer holds behind the headers, the bytes behind the buffer are read.
pub schc_al_send_down_past :
    (o : Options) (answers : SendAnswers) (s : Al) (bytes : Bytes) (m : ℕ)
    → o.oscore_proxy_enabled ≡ true
    → is_neg s.tun_fd ≡ false
    → s.ongoing_transmission ≡ false
    → read_tun answers.reads ≡ got bytes
    → IsCoapPacket s bytes m
    → m < 2 ^ 16
    → 48 ≤ length s.net_buffer
    → length s.net_buffer < 48 + m
    → schc_al_send_down o answers s ≡ none
schc_al_send_down_past o answers s bytes m on up idle reads coap small headers past =
    let first = splice-IsSpliced s.net_buffer 0 bytes (omega (arith, coap.fits)) in
    let buffer = splice s.net_buffer 0 bytes in
    let whole : u16 m ≡ m = omega arith in
    let unseen : view (drop 48 buffer) m ≡ none =
      view_past (drop 48 buffer) m (omega (arith, first.same_length, length-drop 48 buffer)) in
    send_down-protect o answers s bytes m on up idle reads coap
    ∙ unfold protect in rw (whole, unseen)
