-- ===== src/SchcAl/Guard.antt =====
-- What `schc_al_process` hands over with OSCORE on and dropping enabled.
use schc_work.Common.{
  sym, ap, ◌∙◌, ℕ, ◌-◌, ◌≡◌, refl, ◌⊎◌, inl, inr, true, false, not, Option, none, some, [], length,
  drop, Bytes, IsBytes, view, arith, List, ◌∷◌, ◌^◌, ◌<◌, Bool-cases, overwrite, u16, if◌then◌else◌,
  Ensures, Ensures->>=, Ensures-if, Ensures-eq, result,
}
use schc_work.Common.Int.{is_neg}
use schc_work.Oscore.{
  Err, ok, buffer_to_small, not_oscore_pkt, first_request_after_reboot, oscore_ssn_overflow, other,
  InnerCallback, inner_compression, coap_to_oscore, uoscore_err_to_res, CoapOscoreRes, co_success,
}
use schc_work.Udp.{is_ipv6_udp_packet, ipv6_udp_payload_len, is_coap_packet}
use schc_work.Common.Slices.{splice, splice-IsSpliced, overwrite_inside}
use schc_work.SchcAl.Protected.{callback_of}
use schc_work.SchcAl.Sending.{IsRewritten, sent_as, send_oscore-IsRewritten}
use schc_work.SchcAl.{
  send_oscore, net_sent, Effect, Al, Options, SendAnswers, Sent, after_conversion, protect,
  send_packet, after_read, ReadResult, would_block, read_failed, got, read_tun, schc_al_send_down,
  schc_al_process,
}

-- What is handed over is the library's output: `bytes` were read into the buffer, the CoAP packet
-- of the length in its UDP header was converted to `converted` with `ok`, and one packet is sent,
-- which carries `converted` behind the headers of the packet read.
pub record IsConverted (o : Options) (answers : SendAnswers) (net_buffer : Bytes)
    (effects : List Effect) : Type 0 where
  pub bytes : Bytes
  pub buffer : Bytes
  pub coap_packet : Bytes
  pub coap_packet_len : ℕ
  pub converted : Bytes
  pub packet : Bytes
  pub reads : read_tun answers.reads ≡ got bytes
  pub received : overwrite net_buffer 0 bytes ≡ some buffer
  pub payload_len : ipv6_udp_payload_len buffer ≡ some coap_packet_len
  pub seen : view (drop 48 buffer) (u16 coap_packet_len) ≡ some coap_packet
  pub success :
      answers.coap2oscore
        (if o.inner_schc then some inner_compression else none)
        coap_packet
        (length buffer - 40 - 8)
      ≡ (ok, converted)
  pub sent : effects ≡ net_sent packet ∷ []
  pub rewritten : IsRewritten (splice buffer 48 converted) converted packet

-- A result that hands nothing to `net_sendto`, or the output of the library for the packet read.
abbrev pub IsGuarded : Options → SendAnswers → Bytes → Sent → Type 0
IsGuarded o answers net_buffer out = (out.1 ≡ []) ⊎ IsConverted o answers net_buffer out.1

-- The library writes bytes.
abbrev pub WritesBytes : SendAnswers → Type 0
WritesBytes answers =
    (cb : Option InnerCallback) (packet : Bytes) (room : ℕ)
    → IsBytes (answers.coap2oscore cb packet room).1

-- `read` writes bytes.
abbrev pub ReadsBytes : SendAnswers → Type 0
ReadsBytes answers = (bytes : Bytes) → read_tun answers.reads ≡ got bytes → IsBytes bytes

uoscore-ok : (e : Err) → uoscore_err_to_res e ≡ co_success → e ≡ ok
unfolding uoscore_err_to_res
uoscore-ok ok h = refl
uoscore-ok buffer_to_small h = absurd (cc)
uoscore-ok not_oscore_pkt h = absurd (cc)
uoscore-ok first_request_after_reboot h = absurd (cc)
uoscore-ok oscore_ssn_overflow h = absurd (cc)
uoscore-ok (other n) h = absurd (cc)

sent_as-sends :
    (answers : SendAnswers) (s : Al) (packet : Bytes)
    → (sent_as answers s packet).1 ≡ net_sent packet ∷ []
sent_as-sends answers s packet = elim (Bool-cases (answers.net_sendto packet)) [
  | inl a ↦ rw a refl
  | inr a ↦ rw a refl
]

module _ (o : Options) (answers : SendAnswers) (guarded : o.oscore_proxy_enabled ≡ true)
    (drops : o.oscore_drop_on_error ≡ true) (coap_only : o.drop_non_coap ≡ true)
    (library : WritesBytes answers) (device : ReadsBytes answers) (net_buffer : Bytes)
    (zeros : IsBytes net_buffer) (small : length net_buffer < 2 ^ 16) where
  abbrev G : Sent → Type 0
  G = IsGuarded o answers net_buffer

  converted-IsGuarded :
      (st : CoapOscoreRes) (s : Al) (n m : ℕ)
      → (st ≡ co_success → Ensures G (send_oscore answers s n))
      → Ensures G (after_conversion o answers s n m st)
  unfolding after_conversion
  converted-IsGuarded co_success s n m success = success refl
  converted-IsGuarded _ s n m success = rw drops (result _ (inl refl))

  module _ (bytes : Bytes) (reads : read_tun answers.reads ≡ got bytes) where
    -- The packet that follows a conversion with `ok`.
    sent-IsGuarded :
        (s : Al) (m : ℕ) (packet : Bytes) {buffer : Bytes}
        → overwrite net_buffer 0 bytes ≡ some s.net_buffer
        → ipv6_udp_payload_len s.net_buffer ≡ some m
        → view (drop 48 s.net_buffer) (u16 m) ≡ some packet
        → (out : Err × Bytes)
        → answers.coap2oscore (callback_of o) packet (length s.net_buffer - 40 - 8) ≡ out
        → out.0 ≡ ok
        → overwrite s.net_buffer 48 out.1 ≡ some buffer
        → Ensures G (send_oscore answers (record s { net_buffer = buffer }) (length out.1))
    sent-IsGuarded s m packet received len seen out conv good written =
        let (fits₀, same₀) = overwrite_inside net_buffer 0 bytes received in
        let first = splice-IsSpliced net_buffer 0 bytes fits₀ in
        let (fits, same) = overwrite_inside s.net_buffer 48 out.1 written in
        let second = splice-IsSpliced s.net_buffer 48 out.1 fits in
        let size : length s.net_buffer ≡ length net_buffer =
          ap length (sym same₀) ∙ first.same_length in
        let read_bytes : IsBytes s.net_buffer =
          rw (← same₀) (first.bytes zeros (device bytes reads)) in
        let library_bytes : IsBytes out.1 =
          rw (← conv) (library (callback_of o) packet (length s.net_buffer - 40 - 8)) in
        let s' : Al = record s { net_buffer = splice s.net_buffer 48 out.1 } in
        let (p, s'', e, rewritten) =
          send_oscore-IsRewritten answers s' out.1 (second.bytes read_bytes library_bytes)
            (omega (arith, second.same_length, fits)) (omega (arith, fits, size, small))
            second.content in
        rw (← same, e)
          (result _ (
            inr (record {
              bytes = bytes;
              buffer = s.net_buffer;
              coap_packet = packet;
              coap_packet_len = m;
              converted = out.1;
              packet = p;
              reads = reads;
              received = received;
              payload_len = len;
              seen = seen;
              success = conv ∙ ap (λ c. (c, out.1)) good;
              sent = sent_as-sends answers s'' p;
              rewritten = rewritten;
            })))

    protect-IsGuarded :
        (s : Al) (m : ℕ)
        → overwrite net_buffer 0 bytes ≡ some s.net_buffer
        → ipv6_udp_payload_len s.net_buffer ≡ some m
        → Ensures G (protect o answers s m)
    unfolding protect coap_to_oscore
    protect-IsGuarded s m received len =
        Ensures->>= (view (drop 48 s.net_buffer) (u16 m)) _ λ packet seen.
          let room = length s.net_buffer - 40 - 8 in
          let converted = coap_to_oscore answers.coap2oscore o.inner_schc packet room in
          Ensures->>= (overwrite s.net_buffer 48 converted.1) _ λ buffer written.
            converted-IsGuarded converted.0 (record s { net_buffer = buffer }) (length converted.1)
              m
              (λ e.
                sent-IsGuarded s m packet received len seen
                  (answers.coap2oscore (callback_of o) packet room) refl (uoscore-ok _ e) written)

    send_packet-IsGuarded :
        (s : Al) (n : ℕ)
        → overwrite net_buffer 0 bytes ≡ some s.net_buffer
        → Ensures G (send_packet o answers s n)
    unfolding send_packet
    send_packet-IsGuarded s n received =
        Ensures->>= (is_ipv6_udp_packet (some s.net_buffer) n) _ λ is_udp _.
          Ensures-if (not is_udp) _ _ (λ _. result _ (inl refl))
            λ _. Ensures->>= (ipv6_udp_payload_len s.net_buffer) _ λ m len.
              Ensures->>= (is_coap_packet (drop 48 s.net_buffer) m) _ λ is_coap _.
                Ensures-if (not is_coap) _ _ (λ _. rw coap_only (result _ (inl refl)))
                  (λ _.
                    Ensures-if o.oscore_proxy_enabled _ _ (λ _. protect-IsGuarded s m received len)
                      (λ off. absurd (cc)))

  after_read-IsGuarded :
      (s : Al) (r : ReadResult)
      → s.net_buffer ≡ net_buffer
      → read_tun answers.reads ≡ r
      → Ensures G (after_read o answers s r)
  unfolding after_read
  after_read-IsGuarded s would_block same reads = result _ (inl refl)
  after_read-IsGuarded s read_failed same reads = result _ (inl refl)
  after_read-IsGuarded s (got bytes) same reads =
      Ensures->>= (overwrite s.net_buffer 0 bytes) _ λ buffer received.
        send_packet-IsGuarded bytes reads (record s { net_buffer = buffer }) (length bytes)
          (ap (λ b. overwrite b 0 bytes) (sym same) ∙ received)

  send_down-IsGuarded :
      (s : Al) → s.net_buffer ≡ net_buffer → Ensures G (schc_al_send_down o answers s)
  unfolding schc_al_send_down
  send_down-IsGuarded s same =
      Ensures-if (is_neg s.tun_fd) _ _ (λ _. result _ (inl refl))
        λ _.
          Ensures-if s.ongoing_transmission _ _ (λ _. result _ (inl refl))
            λ _. after_read-IsGuarded s (read_tun answers.reads) same refl

-- With the build options OSCORE_PROXY_ENABLED, OSCORE_DROP_ON_ERROR and DROP_NON_COAP, a call of
-- `schc_al_process` that returns hands nothing to `net_sendto`, or exactly one packet. This carries
-- what the library wrote, with `ok`, for the CoAP packet that the call read, and both lengths and
-- the checksum are right for it. The buffer has less than 2^16 bytes, and `read` and the library
-- write bytes. Whether what the library writes with `ok` is encrypted, is up to the library.
pub schc_al_process-IsGuarded :
    (o : Options) (answers : SendAnswers)
    → o.oscore_proxy_enabled ≡ true
    → o.oscore_drop_on_error ≡ true
    → o.drop_non_coap ≡ true
    → WritesBytes answers
    → ReadsBytes answers
    → (s : Al) → IsBytes s.net_buffer
    → length s.net_buffer < 2 ^ 16
    → {out : Sent} → schc_al_process o answers s ≡ some out
    → IsGuarded o answers s.net_buffer out
unfolding schc_al_process
schc_al_process-IsGuarded o answers guarded drops coap_only library device s zeros small e =
    Ensures-eq
      (Ensures-if s.ip_packet_available _ _
        (λ _.
          send_down-IsGuarded o answers guarded drops coap_only library device s.net_buffer zeros
            small (record s { ip_packet_available = false; processing_required = false }) refl)
        (λ _. result _ (inl refl)))
      e
