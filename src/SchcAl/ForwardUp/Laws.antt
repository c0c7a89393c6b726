-- ===== src/SchcAl/ForwardUp/Laws.antt =====
-- What `schc_al_forward_up` writes to the TUN device, drops, and reads too far.
use schc_work.Common.{
  ℕ, ◌+◌, ◌^◌, ◌≤◌, ◌<◌, ◌≡◌, refl, ap, ◌∙◌, true, false, Option, none, some, [], ◌∷◌, arith,
  length, take, drop, Bytes, IsBytes, view, u16, if◌then◌else◌, length-drop, get_elem?-none, ◌==◌,
}
use schc_work.Common.Int.{pos, minus_one, is_neg}
use schc_work.Common.Slices.{splice, splice-IsSpliced, view_fits}
use schc_work.Oscore.{
  co_success, co_not_oscore, Err, ok, not_oscore_pkt, InnerCallback, inner_decompression,
  oscore_to_coap, uoscore_err_to_res,
}
use schc_work.Udp.{is_ipv6_udp_packet, ipv6_udp_payload_len, is_coap_packet}
use schc_work.SchcAl.{Al, Options, tun_written}
use schc_work.SchcAl.Sending.{IsRewritten, rewrite_headers}
use schc_work.SchcAl.ForwardUp.{UpAnswers, write_up, after_oscore, schc_al_forward_up}

-- With the TUN device open, on an IPv6/UDP packet of exactly the two headers in a buffer of that
-- size, which a datagram without payload is, the version test reads behind the buffer.
pub schc_al_forward_up_past :
    (o : Options) (answers : UpAnswers) (s : Al) (buffer : Bytes) (coap_packet_len : ℕ)
    → is_neg s.tun_fd ≡ false
    → length buffer ≡ 48
    → is_ipv6_udp_packet (some buffer) 48 ≡ some true
    → ipv6_udp_payload_len buffer ≡ some coap_packet_len
    → schc_al_forward_up o answers s buffer 48 ≡ none
unfolding schc_al_forward_up
schc_al_forward_up_past o answers s buffer n up size is_udp len_ok =
    let unread : is_coap_packet (drop 48 buffer) 48 ≡ none =
      unfold is_coap_packet in
      rw (get_elem?-none (drop 48 buffer) 0 (omega (arith, length-drop 48 buffer))) in
    rw (up, is_udp, len_ok, unread)

-- A packet of `size` bytes that the function takes for CoAP over UDP over IPv6.
pub record IsCoapUp (s : Al) (buffer : Bytes) (size m : ℕ) : Type 0 where
  pub up : is_neg s.tun_fd ≡ false
  pub nonempty : (size == 0) ≡ false
  pub is_udp : is_ipv6_udp_packet (some buffer) size ≡ some true
  pub payload_len : ipv6_udp_payload_len buffer ≡ some m
  pub is_coap : is_coap_packet (drop 48 buffer) size ≡ some true
  pub small : m < 2 ^ 16
  pub fits : 48 + m ≤ length buffer

abbrev pub callback_of : Options → Option InnerCallback
callback_of o = if o.inner_schc then some inner_decompression else none

-- The function reaches the conversion, and writes its output back.
forward_up-after_oscore :
    (o : Options) (answers : UpAnswers) (s : Al) (buffer : Bytes) (size m : ℕ) (e : Err)
    (out : Bytes)
    → o.oscore_proxy_enabled ≡ true
    → IsCoapUp s buffer size m
    → answers.oscore2coap (callback_of o) (take m (drop 48 buffer)) m ≡ (e, out)
    → 48 + length out ≤ length buffer
    → schc_al_forward_up o answers s buffer size
      ≡ after_oscore answers (splice buffer 48 out) size (length out) (uoscore_err_to_res e)
unfolding schc_al_forward_up oscore_to_coap
forward_up-after_oscore o answers s buffer size m e out on coap conv fits =
    let whole : u16 m ≡ m = omega (arith, coap.small) in
    let seen : view (drop 48 buffer) m ≡ some (take m (drop 48 buffer)) =
      view_fits (drop 48 buffer) m (omega (arith, coap.fits, length-drop 48 buffer)) in
    rw (
      coap.up,
      coap.nonempty,
      coap.is_udp,
      coap.payload_len,
      coap.is_coap,
      on,
      whole,
      seen,
      conv,
      (splice-IsSpliced buffer 48 out fits).written,
    )

ok_success : uoscore_err_to_res ok ≡ co_success
unfolding uoscore_err_to_res
ok_success = refl

not_oscore_same : uoscore_err_to_res not_oscore_pkt ≡ co_not_oscore
unfolding uoscore_err_to_res
not_oscore_same = refl

write_up-view :
    (answers : UpAnswers) (buffer : Bytes) (n : ℕ)
    → n ≤ length buffer
    → write_up answers buffer n
      ≡ some (
        (if answers.write_ok then pos 0 else minus_one),
        tun_written (take n buffer) ∷ [],
        buffer,
      )
unfolding write_up
write_up-view answers buffer n h = rw (view_fits buffer n h)

-- With OSCORE enabled and the TUN device open: when a packet from the network layer is CoAP over
-- UDP over IPv6 and the library converts it to `out`, which fits the caller's buffer, exactly one
-- packet is written to the TUN device. It carries `out`, both length fields and the checksum are
-- right for it, its other header bytes are those that came in, and the status is that of `write`.
pub schc_al_forward_up-IsRewritten :
    (o : Options) (answers : UpAnswers) (s : Al) (buffer : Bytes) (size m : ℕ) (out : Bytes)
    → o.oscore_proxy_enabled ≡ true
    → IsCoapUp s buffer size m
    → IsBytes buffer
    → length buffer < 2 ^ 16
    → answers.oscore2coap (callback_of o) (take m (drop 48 buffer)) m ≡ (ok, out)
    → IsBytes out
    → 48 + length out ≤ length buffer
    → (packet buffer' : Bytes) × (schc_al_forward_up o answers s buffer size
        ≡ some ((if answers.write_ok then pos 0 else minus_one), tun_written packet ∷ [], buffer'))
      × IsRewritten buffer out packet
schc_al_forward_up-IsRewritten o answers s buffer size m out on coap bs room conv bo fits =
    let n = length out in
    let spliced = splice-IsSpliced buffer 48 out fits in
    let b₁ = splice buffer 48 out in
    let (resized, summed, e, e', len, good) =
      rewrite_headers b₁ out (spliced.bytes bs bo) (omega (arith, spliced.same_length))
        (omega arith) spliced.content in
    let whole : u16 (48 + n) ≡ 48 + n = omega arith in
    let sent : after_oscore answers b₁ size n co_success
        ≡ some (
          (if answers.write_ok then pos 0 else minus_one),
          tun_written (take (48 + n) summed) ∷ [],
          summed,
        ) =
      unfold after_oscore in
      rw (e, e', whole)
        (write_up-view answers summed (48 + n) (omega (arith, len, spliced.same_length))) in
    (
      take (48 + n) summed,
      summed,
      forward_up-after_oscore o answers s buffer size m ok out on coap conv fits
          ∙ ap (after_oscore answers b₁ size n) ok_success
          ∙ sent,
      record {
        size = good.size;
        carries = good.carries;
        ip6_plen = good.ip6_plen;
        ulen = good.ulen;
        valid = good.valid;
        others = λ j h a b c d e f. good.others j h a b c d e f ∙ spliced.before j h;
      },
    )

-- With OSCORE enabled and the TUN device open: when the library answers `not_oscore_pkt` to a CoAP
-- packet from the network layer that lies in the caller's buffer, exactly one packet is written,
-- of the size that came in: the received one with the library's output, if it wrote any, over the
-- front of its payload. The status is that of `write`.
pub schc_al_forward_up-not_oscore :
    (o : Options) (answers : UpAnswers) (s : Al) (buffer : Bytes) (size m : ℕ) (out : Bytes)
    → o.oscore_proxy_enabled ≡ true
    → IsCoapUp s buffer size m
    → answers.oscore2coap (callback_of o) (take m (drop 48 buffer)) m ≡ (not_oscore_pkt, out)
    → 48 + length out ≤ length buffer
    → size ≤ length buffer
    → schc_al_forward_up o answers s buffer size
      ≡ some (
        (if answers.write_ok then pos 0 else minus_one),
        tun_written (take size (splice buffer 48 out)) ∷ [],
        splice buffer 48 out,
      )
schc_al_forward_up-not_oscore o answers s buffer size m out on coap conv fits whole =
    let spliced = splice-IsSpliced buffer 48 out fits in
    forward_up-after_oscore o answers s buffer size m not_oscore_pkt out on coap conv fits
    ∙ ap (after_oscore answers (splice buffer 48 out) size (length out)) not_oscore_same
    ∙ unfold after_oscore in
      write_up-view answers (splice buffer 48 out) size (omega (arith, spliced.same_length))
