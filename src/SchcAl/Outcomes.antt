-- ===== src/SchcAl/Outcomes.antt =====
-- What a call of `schc_al_process` can amount to: at most one transmission, and its flag.
use schc_work.Common.{
  ℕ, ◌+◌, ◌-◌, ◌≡◌, refl, Bool, true, false, not, some, [], ◌∷◌, length, drop, Bytes, view,
  overwrite, u16, Ensures, Ensures->>=, Ensures-if, Ensures-eq, result,
}
use schc_work.Common.Int.{is_neg}
use schc_work.Oscore.{coap_to_oscore, CoapOscoreRes, co_success}
use schc_work.Udp.{
  is_ipv6_udp_packet, ipv6_udp_payload_len, is_coap_packet, update_ip6_udp_len, update_udp_checksum,
}
use schc_work.SchcAl.{
  Al, Options, SendAnswers, net_sent, ProcessStatus, send_down_ok, send_down_busy,
  send_down_internal_error, send_down_oscore_error, Sent, transmit, send_oscore, after_conversion,
  protect, send_packet, after_read, ReadResult, would_block, read_failed, got, read_tun,
  schc_al_send_down, schc_al_process,
}

-- One call: nothing is handed to the network layer and the flag stays, or one packet is and the
-- flag says whether it was accepted.
pub data Outcome (answers : SendAnswers) (flag : Bool) : Sent → Type 0 where
  quiet :
      (st : ProcessStatus) (s' : Al)
      → s'.ongoing_transmission ≡ flag
      → Outcome answers flag (st, [], s')
  accepted :
      (packet : Bytes) (s' : Al)
      → flag ≡ false
      → answers.net_sendto packet ≡ true
      → s'.ongoing_transmission ≡ true
      → Outcome answers flag (send_down_ok, net_sent packet ∷ [], s')
  rejected :
      (packet : Bytes) (s' : Al)
      → flag ≡ false
      → answers.net_sendto packet ≡ false
      → s'.ongoing_transmission ≡ false
      → Outcome answers flag (send_down_internal_error, net_sent packet ∷ [], s')

module _ (o : Options) (answers : SendAnswers) (flag : Bool) (free : flag ≡ false) where
  abbrev P : Sent → Type 0
  P = Outcome answers flag

  transmit-Outcome : (s : Al) (n : ℕ) → Ensures P (transmit answers s n)
  unfolding transmit
  transmit-Outcome s n = Ensures->>= (view s.net_buffer n) _ λ packet _.
      Ensures-if (answers.net_sendto packet) _ _ (λ e. result _ (accepted packet _ free e refl))
        (λ e. result _ (rejected packet _ free e refl))

  send_oscore-Outcome : (s : Al) (n : ℕ) → Ensures P (send_oscore answers s n)
  unfolding send_oscore
  send_oscore-Outcome s n = Ensures->>= (update_ip6_udp_len s.net_buffer n) _ λ resized _.
      Ensures->>= (update_udp_checksum resized) _
        λ summed _. transmit-Outcome (record s { net_buffer = summed }) (40 + 8 + n)

  -- The branches behind a conversion.
  converted-Outcome :
      (st : CoapOscoreRes) (s : Al) (n m : ℕ)
      → s.ongoing_transmission ≡ flag
      → Ensures P (after_conversion o answers s n m st)
  unfolding after_conversion
  converted-Outcome co_success s n m e = send_oscore-Outcome s n
  converted-Outcome _ s n m e =
      Ensures-if o.oscore_drop_on_error _ _ (λ _. result _ (quiet send_down_oscore_error s e))
        (λ _. send_oscore-Outcome s m)

  protect-Outcome :
      (s : Al) (n : ℕ) → s.ongoing_transmission ≡ flag → Ensures P (protect o answers s n)
  unfolding protect
  protect-Outcome s n e = Ensures->>= (view (drop 48 s.net_buffer) (u16 n)) _ λ packet _.
      let converted =
        coap_to_oscore answers.coap2oscore o.inner_schc packet (length s.net_buffer - 40 - 8) in
      Ensures->>= (overwrite s.net_buffer 48 converted.1) _ λ buffer _.
        converted-Outcome converted.0 (record s { net_buffer = buffer }) (length converted.1) n e

  send_packet-Outcome :
      (s : Al) (n : ℕ) → s.ongoing_transmission ≡ flag → Ensures P (send_packet o answers s n)
  unfolding send_packet
  send_packet-Outcome s n e = Ensures->>= (is_ipv6_udp_packet (some s.net_buffer) n) _ λ is_udp _.
      Ensures-if (not is_udp) _ _ (λ _. result _ (quiet send_down_ok s e))
        λ _. Ensures->>= (ipv6_udp_payload_len s.net_buffer) _ λ m _.
          Ensures->>= (is_coap_packet (drop 48 s.net_buffer) m) _ λ is_coap _.
            Ensures-if (not is_coap) _ _
              (λ _.
                Ensures-if o.drop_non_coap _ _ (λ _. result _ (quiet send_down_ok s e))
                  (λ _. transmit-Outcome s n))
              (λ _.
                Ensures-if o.oscore_proxy_enabled _ _ (λ _. protect-Outcome s m e)
                  (λ _. transmit-Outcome s n))

  after_read-Outcome :
      (s : Al) (r : ReadResult)
      → s.ongoing_transmission ≡ flag
      → Ensures P (after_read o answers s r)
  unfolding after_read
  after_read-Outcome s would_block e = result _ (quiet send_down_ok s e)
  after_read-Outcome s read_failed e = result _ (quiet send_down_internal_error s e)
  after_read-Outcome s (got bytes) e =
      Ensures->>= (overwrite s.net_buffer 0 bytes) _
        λ buffer _. send_packet-Outcome (record s { net_buffer = buffer }) (length bytes) e

send_down-Outcome :
    (o : Options) (answers : SendAnswers) (s : Al)
    → Ensures (Outcome answers s.ongoing_transmission) (schc_al_send_down o answers s)
unfolding schc_al_send_down
send_down-Outcome o answers s =
    Ensures-if (is_neg s.tun_fd) _ _ (λ _. result _ (quiet send_down_internal_error s refl))
      λ _.
        Ensures-if s.ongoing_transmission _ _ (λ _. result _ (quiet send_down_busy s refl))
          λ free.
            after_read-Outcome o answers s.ongoing_transmission free s (read_tun answers.reads) refl

-- Every call of `schc_al_process` that returns either hands no packet to `net_sendto` and leaves
-- the transmission flag as it was; or it hands over one packet, which it does only while no
-- transmission is under way, and afterwards the flag is set exactly if the packet was accepted.
pub schc_al_process-Outcome :
    (o : Options) (answers : SendAnswers) (s : Al) {out : Sent}
    → schc_al_process o answers s ≡ some out
    → Outcome answers s.ongoing_transmission out
unfolding schc_al_process
schc_al_process-Outcome o answers s e =
    Ensures-eq
      (Ensures-if s.ip_packet_available _ _
        (λ _.
          send_down-Outcome o answers
            (record s { ip_packet_available = false; processing_required = false }))
        (λ _. result _ (quiet send_down_ok s refl)))
      e
