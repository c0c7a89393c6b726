-- ===== src/Udp/Headers.antt =====
-- What `update_udp_checksum`, `update_ip6_udp_len`, `ipv6_udp_payload_len` and
-- `is_ipv6_udp_packet` do to a packet, byte by byte.
use schc_work.Common.{
  ℕ, zero, suc, ◌+◌, ◌*◌, ◌/◌, ◌^◌, ◌≤◌, ◌<◌, ◌≡◌, refl, ap, ◌∙◌, ◌≢◌, ◌↔◌, none, some, Bool, true,
  false, arith, length, get_elem?, take, drop, Bytes, IsBytes, IsByte, All-drop, length-drop,
  length-take, ltb, ◌==◌, ◌>>>◌, u16, get_elem?_total, Bool-cases, Option-cases, bit_or, u64, ◌<<<◌,
  inl, inr, [], ◌∷◌, ◌&&◌,
}
use schc_work.Udp.{
  load16, udp_checksum, update_udp_checksum, update_ip6_udp_len, ipv6_udp_payload_len,
  is_ipv6_udp_packet, udphdr_size, csum_add,
}
use schc_work.Udp.Checksum.{datagram_sum, udp_checksum-Completes}
use schc_work.Udp.Fields.{
  put16, store16-put16, load16-put16, load16-put16_ne, get_elem?-put16, length-put16, put16-IsBytes,
  drop-put16, take-put16, take-put16_past, word_sum-put16,
}

-- Both length fields of the packet `p'` say `size` bytes of payload, and the rest is as in `p`.
pub record HasLengths (p : Bytes) (size : ℕ) (p' : Bytes) : Type 0 where
  pub same_length : length p' ≡ length p
  pub bytes : IsBytes p → IsBytes p'
  pub ulen : load16 p' 44 ≡ some (udphdr_size + size)
  pub payload : ipv6_udp_payload_len p' ≡ some size
  pub ip6_plen : load16 p' 4 ≡ some (udphdr_size + size)
  pub others : (j : ℕ) → j ≢ 4 → j ≢ 5 → j ≢ 44 → j ≢ 45 → get_elem? p' j ≡ get_elem? p j

-- On a buffer that holds both headers, and for a payload that the 16-bit fields can express,
-- `update_ip6_udp_len` writes inside the buffer, `ipv6_udp_payload_len` reads the length back,
-- the IPv6 payload length is eight more, and no byte outside of the two fields changes.
pub update_ip6_udp_len-HasLengths :
    (p : Bytes) (size : ℕ)
    → 48 ≤ length p
    → size + 8 < 2 ^ 16
    → (p' : Bytes) × (update_ip6_udp_len p size ≡ some p') × HasLengths p size p'
unfolding update_ip6_udp_len ipv6_udp_payload_len
update_ip6_udp_len-HasLengths p size room small =
    let n = u16 (udphdr_size + size) in
    let p₁ = put16 p 4 n in
    let p₂ = put16 p₁ 44 n in
    let l₁ = length-put16 p 4 n in
    let plain : n ≡ udphdr_size + size = omega arith in
    let ulen : load16 p₂ 44 ≡ some n = load16-put16 p₁ 44 n (omega (arith, l₁)) (omega arith) in
    (
      p₂,
      rw (store16-put16 p 4 n (omega arith)) (store16-put16 p₁ 44 n (omega (arith, l₁))),
      record {
        same_length = length-put16 p₁ 44 n ∙ l₁;
        bytes = λ bs. put16-IsBytes p₁ 44 n (put16-IsBytes p 4 n bs (omega arith)) (omega arith);
        ulen = ulen ∙ ap some plain;
        payload = rw ulen (ground (arith, plain));
        ip6_plen =
            load16-put16_ne p₁ 44 n 4 (omega arith) (omega arith) (omega arith)
            ∙ load16-put16 p 4 n (omega arith) (omega arith)
            ∙ ap some plain;
        others = λ j a b c d. get_elem?-put16 p₁ 44 n j c d ∙ get_elem?-put16 p 4 n j a b;
      },
    )

-- The ones'-complement sum over the pseudo-header and the datagram of `size` bytes, its checksum
-- included, is a positive multiple of 0xFFFF: what a receiver accepts.
abbrev pub IsChecksumValid : Bytes → ℕ → Type 0
IsChecksumValid p size =
    (k : ℕ) × (datagram_sum (drop 40 p) size (drop 8 p) (drop 24 p) ≡ 0xFFFF * suc k)

-- `p'` is `p` with a valid, nonzero checksum.
pub record HasChecksum (p : Bytes) (ulen : ℕ) (p' : Bytes) : Type 0 where
  pub same_length : length p' ≡ length p
  pub valid : IsChecksumValid p' ulen
  pub checksum : ℕ
  pub stored : load16 p' 46 ≡ some checksum
  pub nonzero : 0 < checksum
  pub others : (j : ℕ) → j ≢ 46 → j ≢ 47 → get_elem? p' j ≡ get_elem? p j

datagram_sum-put16 :
    (p : Bytes) (ulen v : ℕ)
    → 48 ≤ length p
    → 8 ≤ ulen
    → 40 + ulen ≤ length p
    → let p₁ = put16 p 46 0 in
      let p₂ = put16 p₁ 46 v in
      datagram_sum (drop 40 p₂) ulen (drop 8 p₂) (drop 24 p₂)
      ≡ datagram_sum (drop 40 p₁) ulen (drop 8 p₁) (drop 24 p₁) + v
datagram_sum-put16 p ulen v room least fits =
    let p₁ = put16 p 46 0 in
    let segment = take ulen (drop 40 p) in
    let inside : 7 < length segment =
      omega (arith, length-take ulen (drop 40 p) (omega (arith, length-drop 40 p))) in
    rw
      (
        unmoved 8 38 p₁ v refl (omega arith),
        unmoved 24 22 p₁ v refl (omega arith),
        moved p₁ ulen v,
        moved p ulen 0,
      )
      (omega (arith, word_sum-put16 3 segment v inside))
  where
    unmoved :
        (m i : ℕ) (q : Bytes) (w : ℕ)
        → 46 ≡ m + i
        → 16 ≤ i
        → take 16 (drop m (put16 q 46 w)) ≡ take 16 (drop m q)
    unmoved m i q w e h =
        ap (take 16) (drop-put16 m q i 46 w e) ∙ take-put16_past 16 (drop m q) i w h

    moved : (q : Bytes) (n w : ℕ) → take n (drop 40 (put16 q 46 w)) ≡ put16 (take n (drop 40 q)) 6 w
    moved q n w = ap (take n) (drop-put16 40 q 6 46 w refl) ∙ take-put16 n (drop 40 q) 6 w

-- On a packet whose UDP length field `ulen` covers the header and lies inside the buffer,
-- `update_udp_checksum` stays inside the buffer, stores a nonzero checksum that a receiver accepts,
-- and changes no other byte, whatever checksum the packet had.
pub update_udp_checksum-HasChecksum :
    (p : Bytes) (ulen : ℕ)
    → IsBytes p
    → 48 ≤ length p
    → load16 p 44 ≡ some ulen
    → 8 ≤ ulen
    → ulen < 2 ^ 16
    → 40 + ulen ≤ length p
    → (p' : Bytes) × (update_udp_checksum p ≡ some p') × HasChecksum p ulen p'
unfolding update_udp_checksum
update_udp_checksum-HasChecksum p ulen bs room len_field least most fits =
    let p₁ = put16 p 46 0 in
    let b₁ = put16-IsBytes p 46 0 bs (omega arith) in
    let l₁ = length-put16 p 46 0 in
    let (c, computed, ok) =
      udp_checksum-Completes (drop 40 p₁) ulen (drop 8 p₁) (drop 24 p₁) (All-drop IsByte 40 p₁ b₁)
        (All-drop IsByte 8 p₁ b₁) (All-drop IsByte 24 p₁ b₁) (omega (arith, l₁, length-drop 40 p₁))
        (omega (arith, l₁, length-drop 8 p₁)) (omega (arith, l₁, length-drop 24 p₁)) most in
    (
      put16 p₁ 46 c,
      rw (len_field, store16-put16 p 46 0 (omega arith), computed)
          (store16-put16 p₁ 46 c (omega (arith, l₁))),
      record {
        same_length = length-put16 p₁ 46 c ∙ l₁;
        valid = (ok.times, datagram_sum-put16 p ulen c room least fits ∙ ok.total);
        checksum = c;
        stored = load16-put16 p₁ 46 c (omega (arith, l₁)) (omega (arith, ok.word));
        nonzero = ok.nonzero;
        others = λ j a b. get_elem?-put16 p₁ 46 c j a b ∙ get_elem?-put16 p 46 0 j a b;
      },
    )

-- A datagram length that reaches past the end of the buffer makes the checksum read outside of it.
csum_add_past : (sum : ℕ) (p : Bytes) (n : ℕ) → length p < n → csum_add sum p n ≡ none
unfolding csum_add
csum_add_past sum p zero h = absurd (omega arith)
csum_add_past sum [] (suc n) h = refl
csum_add_past sum (a ∷ p) (suc zero) h = absurd (omega arith)
csum_add_past sum (a ∷ []) (suc (suc n)) h = refl
csum_add_past sum (a ∷ b ∷ p) (suc (suc n)) h =
    csum_add_past (u64 (sum + bit_or (a <<< 8) b)) p n (omega arith)

udp_checksum_past :
    (packet : Bytes) (size : ℕ) (src dst : Bytes)
    → length packet < size
    → udp_checksum packet size src dst ≡ none
unfolding udp_checksum
udp_checksum_past packet size src dst h = elim (Option-cases (csum_add 0 src 16)) [
  | inl e ↦ rw e
  | inr (s, e) ↦ elim (Option-cases (csum_add s dst 16)) [
    | inl e' ↦ rw (e, e')
    | inr (s', e') ↦ rw (e, e', csum_add_past _ packet size h)
  ]
]

-- `update_udp_checksum` trusts the UDP length field: on any packet whose field reaches past the
-- end of the buffer it reads out of range.
pub update_udp_checksum_past :
    (p : Bytes) (ulen : ℕ)
    → 48 ≤ length p
    → load16 p 44 ≡ some ulen
    → length p < 40 + ulen
    → update_udp_checksum p ≡ none
unfolding update_udp_checksum
update_udp_checksum_past p ulen room len_field past =
    let p₁ = put16 p 46 0 in
    rw (
      len_field,
      store16-put16 p 46 0 (omega arith),
      udp_checksum_past (drop 40 p₁) ulen (drop 8 p₁) (drop 24 p₁)
          (omega (arith, length-put16 p 46 0, length-drop 40 p₁)),
    )

-- On a buffer that holds `size` bytes, `is_ipv6_udp_packet` reads nothing out of range. It answers
-- true exactly when `size` covers both headers, the version is 6 and the next header is UDP.
pub is_ipv6_udp_packet_iff :
    (p : Bytes) (size : ℕ)
    → size ≤ length p
    → (b : Bool) × (is_ipv6_udp_packet (some p) size ≡ some b)
      × ((b ≡ true) ↔ (
          (48 ≤ size)
          × ((first : ℕ) × (get_elem? p 0 ≡ some first) × (first / 16 ≡ 6))
          × (get_elem? p 6 ≡ some 17)))
unfolding is_ipv6_udp_packet
is_ipv6_udp_packet_iff p size held = elim (Bool-cases (ltb size 48)) [
  | inl short ↦ (false, rw short, ((λ e. absurd (cc)), (λ h. ground arith)))
  | inr long ↦
      let (first, e) = get_elem?_total p 0 (ground arith) in
      let (next, e') = get_elem?_total p 6 (ground arith) in
      (
        (first >>> 4 == 6) && (next == 17),
        rw (long, e) (ground (arith, e')),
        (
          (λ h. (ground arith, (first, e, ground arith), ground (arith, e'))),
          (λ h. ground (arith, e, e', h)),
        ),
      )
]
