-- ===== src/SchcAl/Sending.antt =====
-- The packet that `schc_al_send_down` hands to `net_sendto` after an OSCORE conversion.
use schc_work.Common.{
  ℕ, ◌+◌, ◌^◌, ◌≤◌, ◌<◌, ◌≡◌, sym, ap, ◌∙◌, ◌≢◌, true, false, some, [], ◌∷◌, arith, length,
  get_elem?, take, drop, Bytes, IsBytes, if◌then◌else◌, length-take,
}
use schc_work.Common.Slices.{
  get_elem?_ext, get_elem?-drop, get_elem?-take, take-drop-take, drop-take,
}
use schc_work.Udp.{load16, update_ip6_udp_len, update_udp_checksum}
use schc_work.Udp.Fields.{load16-same}
use schc_work.Udp.Headers.{
  HasLengths, update_ip6_udp_len-HasLengths, HasChecksum, update_udp_checksum-HasChecksum,
  IsChecksumValid,
}
use schc_work.SchcAl.{
  Al, SendAnswers, net_sent, send_down_ok, send_down_internal_error, Sent, transmit, send_oscore,
}

-- `packet` carries `payload` behind the headers of `buffer`, with both length fields and the
-- checksum made right for it.
pub record IsRewritten (buffer payload packet : Bytes) : Type 0 where
  pub size : length packet ≡ 48 + length payload
  pub carries : drop 48 packet ≡ payload
  pub ip6_plen : load16 packet 4 ≡ some (8 + length payload)
  pub ulen : load16 packet 44 ≡ some (8 + length payload)
  pub valid : IsChecksumValid packet (8 + length payload)
  pub others :
      (j : ℕ)
      → j < 48
      → j ≢ 4
      → j ≢ 5
      → j ≢ 44
      → j ≢ 45
      → j ≢ 46
      → j ≢ 47
      → get_elem? packet j ≡ get_elem? buffer j

IsChecksumValid-take :
    (p : Bytes) (n : ℕ) → IsChecksumValid p (8 + n) → IsChecksumValid (take (48 + n) p) (8 + n)
IsChecksumValid-take p n (k, e) = (
  k,
  rw
      (
        take-drop-take 16 8 (48 + n) p (omega arith),
        take-drop-take 16 24 (48 + n) p (omega arith),
        take-drop-take (8 + n) 40 (48 + n) p (omega arith),
      )
      e,
)

-- What lengths and checksum leave of the buffer, cut to the packet's size.
IsRewritten-take :
    (buffer resized summed payload : Bytes)
    → 48 + length payload ≤ length buffer
    → take (length payload) (drop 48 buffer) ≡ payload
    → HasLengths buffer (length payload) resized
    → HasChecksum resized (8 + length payload) summed
    → IsRewritten buffer payload (take (48 + length payload) summed)
IsRewritten-take buffer resized summed payload fits content lengths sums =
    let n = length payload in
    let packet = take (48 + n) summed in
    let cut : (j : ℕ) → j < 48 → get_elem? packet j ≡ get_elem? summed j =
      λ j h. get_elem?-take (48 + n) summed j (omega arith) in
    let behind : drop 48 summed ≡ drop 48 buffer =
      get_elem?_ext (drop 48 summed) (drop 48 buffer) (λ i.
        get_elem?-drop 48 summed i
        ∙ sums.others (48 + i) (omega arith) (omega arith)
        ∙ lengths.others (48 + i) (omega arith) (omega arith) (omega arith) (omega arith)
        ∙ sym (get_elem?-drop 48 buffer i)) in
    record {
      size = length-take (48 + n) summed (omega (arith, sums.same_length, lengths.same_length));
      carries = drop-take 48 n summed ∙ ap (take n) behind ∙ content;
      ip6_plen =
          load16-same packet resized 4
            (cut 4 (omega arith) ∙ sums.others 4 (omega arith) (omega arith))
            (cut 5 (omega arith) ∙ sums.others 5 (omega arith) (omega arith))
          ∙ lengths.ip6_plen;
      ulen =
          load16-same packet resized 44
            (cut 44 (omega arith) ∙ sums.others 44 (omega arith) (omega arith))
            (cut 45 (omega arith) ∙ sums.others 45 (omega arith) (omega arith))
          ∙ lengths.ulen;
      valid = IsChecksumValid-take summed n sums.valid;
      others = λ j h a b c d e f. cut j h ∙ sums.others j e f ∙ lengths.others j a b c d;
    }

-- What a transmission of a packet amounts to, by the answer of `net_sendto`.
abbrev pub sent_as : SendAnswers → Al → Bytes → Sent
sent_as answers s packet =
    if answers.net_sendto packet
    then (send_down_ok, net_sent packet ∷ [], record s { ongoing_transmission = true })
    else (send_down_internal_error, net_sent packet ∷ [], record s { ongoing_transmission = false })

transmit_lem :
    (answers : SendAnswers) (s : Al) (n : ℕ)
    → n ≤ length s.net_buffer
    → transmit answers s n ≡ some (sent_as answers s (take n s.net_buffer))
unfolding transmit
transmit_lem answers s n h = ground arith

-- `update_ip6_udp_len` and `update_udp_checksum` in a row.
pub rewrite_headers :
    (buffer payload : Bytes)
    → IsBytes buffer
    → 48 + length payload ≤ length buffer
    → length payload + 8 < 2 ^ 16
    → take (length payload) (drop 48 buffer) ≡ payload
    → (resized summed : Bytes) × (update_ip6_udp_len buffer (length payload) ≡ some resized)
      × (update_udp_checksum resized ≡ some summed)
      × (length summed ≡ length buffer)
      × IsRewritten buffer payload (take (48 + length payload) summed)
rewrite_headers buffer payload bs fits small content =
    let n = length payload in
    let (resized, e, lengths) =
      update_ip6_udp_len-HasLengths buffer n (omega arith) (omega arith) in
    let (summed, e', sums) =
      update_udp_checksum-HasChecksum resized (8 + n) (lengths.bytes bs)
        (omega (arith, lengths.same_length)) lengths.ulen (omega arith) (omega arith)
        (omega (arith, lengths.same_length)) in
    (
      resized,
      summed,
      e,
      e',
      sums.same_length ∙ lengths.same_length,
      IsRewritten-take buffer resized summed payload fits content lengths sums,
    )

pub send_oscore-IsRewritten :
    (answers : SendAnswers) (s : Al) (payload : Bytes)
    → IsBytes s.net_buffer
    → 48 + length payload ≤ length s.net_buffer
    → length payload + 8 < 2 ^ 16
    → take (length payload) (drop 48 s.net_buffer) ≡ payload
    → (packet : Bytes) × (s' : Al) × (send_oscore answers s (length payload)
        ≡ some (sent_as answers s' packet))
      × IsRewritten s.net_buffer payload packet
unfolding send_oscore
send_oscore-IsRewritten answers s payload bs fits small content =
    let n = length payload in
    let (resized, summed, e, e', len, good) =
      rewrite_headers s.net_buffer payload bs fits small content in
    let s' : Al = record s { net_buffer = summed } in
    (
      take (48 + n) summed,
      s',
      rw (e, e') (transmit_lem answers s' (48 + n) (omega (arith, len))),
      good,
    )
