-- ===== src/SchcAl/Frame.antt =====
-- What a call of `schc_al_process` leaves alone, and the event that it consumes.
use schc_work.Common.{
  ℕ, ◌+◌, ◌-◌, ◌≡◌, refl, ◌∙◌, Bool, true, false, not, some, length, drop, Bytes, view, overwrite,
  u16, Ensures, Ensures->>=, Ensures-if, Ensures-eq, result,
}
use schc_work.Common.Int.{is_neg}
use schc_work.Oscore.{coap_to_oscore, CoapOscoreRes, co_success}
use schc_work.Udp.{
  is_ipv6_udp_packet, ipv6_udp_payload_len, is_coap_packet, update_ip6_udp_len, update_udp_checksum,
}
use schc_work.SchcAl.{
  Al, Options, SendAnswers, Sent, transmit, send_oscore, after_conversion, protect, send_packet,
  after_read, ReadResult, would_block, read_failed, got, read_tun, schc_al_send_down,
  schc_al_process,
}

-- Apart from the buffer and the transmission flag, the two states are the same.
pub record IsSameButBuffer (s s' : Al) : Type 0 where
  pub pending : s'.ip_packet_available ≡ s.ip_packet_available
  pub required : s'.processing_required ≡ s.processing_required
  pub connectivity : s'.connectivity_available ≡ s.connectivity_available
  pub device : s'.tun_fd ≡ s.tun_fd
  pub table : s'.watched_fds ≡ s.watched_fds

same : (s : Al) → IsSameButBuffer s s
same s = record {
  pending = refl;
  required = refl;
  connectivity = refl;
  device = refl;
  table = refl;
}

with_buffer : (s : Al) (b : Bytes) → IsSameButBuffer s (record s { net_buffer = b })
with_buffer s b = record {
  pending = refl;
  required = refl;
  connectivity = refl;
  device = refl;
  table = refl;
}

with_flag : (s : Al) (f : Bool) → IsSameButBuffer s (record s { ongoing_transmission = f })
with_flag s f = record {
  pending = refl;
  required = refl;
  connectivity = refl;
  device = refl;
  table = refl;
}

then_same : {s t u : Al} → IsSameButBuffer s t → IsSameButBuffer t u → IsSameButBuffer s u
then_same p q = record {
  pending = q.pending ∙ p.pending;
  required = q.required ∙ p.required;
  connectivity = q.connectivity ∙ p.connectivity;
  device = q.device ∙ p.device;
  table = q.table ∙ p.table;
}

module _ (o : Options) (answers : SendAnswers) (s₀ : Al) where
  abbrev Kept : Sent → Type 0
  Kept out = IsSameButBuffer s₀ out.2

  transmit-Kept : (s : Al) (n : ℕ) → IsSameButBuffer s₀ s → Ensures Kept (transmit answers s n)
  unfolding transmit
  transmit-Kept s n k = Ensures->>= (view s.net_buffer n) _ λ packet _.
      Ensures-if (answers.net_sendto packet) _ _ (λ _. result _ (then_same k (with_flag s true)))
        (λ _. result _ (then_same k (with_flag s false)))

  send_oscore-Kept :
      (s : Al) (n : ℕ) → IsSameButBuffer s₀ s → Ensures Kept (send_oscore answers s n)
  unfolding send_oscore
  send_oscore-Kept s n k = Ensures->>= (update_ip6_udp_len s.net_buffer n) _ λ resized _.
      Ensures->>= (update_udp_checksum resized) _ λ summed _.
        transmit-Kept (record s { net_buffer = summed }) (40 + 8 + n)
          (then_same k (with_buffer s summed))

  converted-Kept :
      (st : CoapOscoreRes) (s : Al) (n m : ℕ)
      → IsSameButBuffer s₀ s
      → Ensures Kept (after_conversion o answers s n m st)
  unfolding after_conversion
  converted-Kept co_success s n m k = send_oscore-Kept s n k
  converted-Kept _ s n m k =
      Ensures-if o.oscore_drop_on_error _ _ (λ _. result _ k) (λ _. send_oscore-Kept s m k)

  protect-Kept : (s : Al) (n : ℕ) → IsSameButBuffer s₀ s → Ensures Kept (protect o answers s n)
  unfolding protect
  protect-Kept s n k = Ensures->>= (view (drop 48 s.net_buffer) (u16 n)) _ λ packet _.
      let converted =
        coap_to_oscore answers.coap2oscore o.inner_schc packet (length s.net_buffer - 40 - 8) in
      Ensures->>= (overwrite s.net_buffer 48 converted.1) _ λ buffer _.
        converted-Kept converted.0 (record s { net_buffer = buffer }) (length converted.1) n
          (then_same k (with_buffer s buffer))

  send_packet-Kept :
      (s : Al) (n : ℕ) → IsSameButBuffer s₀ s → Ensures Kept (send_packet o answers s n)
  unfolding send_packet
  send_packet-Kept s n k = Ensures->>= (is_ipv6_udp_packet (some s.net_buffer) n) _ λ is_udp _.
      Ensures-if (not is_udp) _ _ (λ _. result _ k)
        λ _. Ensures->>= (ipv6_udp_payload_len s.net_buffer) _ λ m _.
          Ensures->>= (is_coap_packet (drop 48 s.net_buffer) m) _ λ is_coap _.
            Ensures-if (not is_coap) _ _
              (λ _. Ensures-if o.drop_non_coap _ _ (λ _. result _ k) (λ _. transmit-Kept s n k))
              (λ _.
                Ensures-if o.oscore_proxy_enabled _ _ (λ _. protect-Kept s m k)
                  (λ _. transmit-Kept s n k))

  after_read-Kept :
      (s : Al) (r : ReadResult) → IsSameButBuffer s₀ s → Ensures Kept (after_read o answers s r)
  unfolding after_read
  after_read-Kept s would_block k = result _ k
  after_read-Kept s read_failed k = result _ k
  after_read-Kept s (got bytes) k = Ensures->>= (overwrite s.net_buffer 0 bytes) _ λ buffer _.
      send_packet-Kept (record s { net_buffer = buffer }) (length bytes)
        (then_same k (with_buffer s buffer))

  send_down-Kept : (s : Al) → IsSameButBuffer s₀ s → Ensures Kept (schc_al_send_down o answers s)
  unfolding schc_al_send_down
  send_down-Kept s k =
      Ensures-if (is_neg s.tun_fd) _ _ (λ _. result _ k)
        λ _.
          Ensures-if s.ongoing_transmission _ _ (λ _. result _ k)
            λ _. after_read-Kept s (read_tun answers.reads) k

-- The state in which `schc_al_process` has consumed the event of a packet, if there was one.
unfoldable pub consume : Bool → Al → Al
consume true s = record s { ip_packet_available = false; processing_required = false }
consume false s = s

on-same :
    (b : Bool) (s : Al)
    → b ≡ true
    → IsSameButBuffer
        (consume b s)
        (record s { ip_packet_available = false; processing_required = false })
unfolding consume
on-same true s e = same _
on-same false s e = absurd (cc)

off-same : (b : Bool) (s : Al) → b ≡ false → IsSameButBuffer (consume b s) s
unfolding consume
off-same true s e = absurd (cc)
off-same false s e = same s

process-Kept :
    (o : Options) (answers : SendAnswers) (s : Al)
    → Ensures (Kept o answers (consume s.ip_packet_available s)) (schc_al_process o answers s)
unfolding schc_al_process
process-Kept o answers s =
    Ensures-if s.ip_packet_available _ _
      (λ on. send_down-Kept o answers _ _ (on-same s.ip_packet_available s on))
      (λ off. result _ (off-same s.ip_packet_available s off))

-- A call of `schc_al_process` that returns consumes the event of a packet, with the request to be
-- called, if there was one; otherwise it changes at most the buffer and the transmission flag. In
-- particular the TUN descriptor and the platform's table stay as they were.
pub schc_al_process-IsSameButBuffer :
    (o : Options) (answers : SendAnswers) (s : Al) {out : Sent}
    → schc_al_process o answers s ≡ some out
    → IsSameButBuffer (consume s.ip_packet_available s) out.2
schc_al_process-IsSameButBuffer o answers s e = Ensures-eq (process-Kept o answers s) e
