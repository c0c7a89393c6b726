-- ===== src/NetHelper/Packet.antt =====
-- The packet of `generate_ipv6_udp_packet`, read back by the functions of libs/net/src/udp.c.
use mathlib.Core.List.{append_assoc}
use schc_work.Common.{
  ◌≡◌, refl, sym, ap, ◌∙◌, ℕ, suc, ◌+◌, ◌/◌, ◌%◌, ◌^◌, ◌≤◌, ◌<◌, true, some, [], ◌∷◌, ◌++◌, Bytes,
  length, set, take, drop, replicate, overwrite, u16, arith, length-append, length-take,
  length-replicate,
}
use schc_work.Common.Slices.{replicate-add, take-append, drop-append_more, drop-append_past}
use schc_work.Common.Access.{view-take, overwrite_front}
use schc_work.Udp.{load16, store16, is_ipv6_udp_packet, ipv6_udp_payload_len}
use schc_work.Udp.Fields.{put16, store16-put16}
use schc_work.NetHelper.Writes.{overwrite_inside, set-append, store-set, get_elem?_behind}
use schc_work.NetHelper.{
  Libc, or_flow, put_fixed_part, put_address, put_ipv6_header, put_udp_header,
  generate_ipv6_udp_packet,
}

store16_behind :
    (front p : Bytes) (i j v : ℕ)
    → i ≡ length front + j
    → suc j < length p
    → store16 (front ++ p) i v ≡ some (front ++ put16 p j v)
store16_behind front p i j v e fits =
    store16-put16 (front ++ p) i v (omega (arith, length-append front p))
    ∙ ap some (
        ap (λ t. set t (suc i) (v % 256)) (set-append front p i j (v / 256) e)
        ∙ set-append front (set p j (v / 256)) (suc i) (suc j) (v % 256) (omega arith))

-- The fixed fields of the IPv6 header: version 6, the flow label 0x6724d, UDP, 64 hops.
abbrev fixed_part : ℕ → Bytes
fixed_part plen = 0x60 ∷ 0x06 ∷ 0x72 ∷ 0x4d ∷ (plen / 256) ∷ (plen % 256) ∷ 17 ∷ 64 ∷ []

abbrev udp_part : ℕ → ℕ → ℕ → Bytes
udp_part sport dport ulen =
    (sport / 256)
    ∷ (sport % 256)
    ∷ (dport / 256)
    ∷ (dport % 256)
    ∷ (ulen / 256)
    ∷ (ulen % 256)
    ∷ 0
    ∷ 0
    ∷ []

put_udp_header-udp_part :
    (libc : Libc) (src_port dst_port : Bytes) (n : ℕ) (front back : Bytes)
    → length front ≡ 40
    → put_udp_header libc src_port dst_port n (front ++ (replicate 8 0 ++ back))
      ≡ some (
          front
          ++ (udp_part (u16 (libc.atoi src_port)) (u16 (libc.atoi dst_port)) (u16 (8 + n)) ++ back))
unfolding put_udp_header
put_udp_header-udp_part libc src_port dst_port n front back e =
    let s = u16 (libc.atoi src_port) in
    let d = u16 (libc.atoi dst_port) in
    let first = put16 (replicate 8 0 ++ back) 0 s in
    let second = put16 first 2 d in
    let third = put16 second 4 (u16 (8 + n)) in
    rw
      (
        store16_behind front (replicate 8 0 ++ back) 40 0 s (omega arith) (omega arith),
        store16_behind front first 42 2 d (omega arith) (omega arith),
        store16_behind front second 44 4 (u16 (8 + n)) (omega arith) (omega arith),
      )
      (store16_behind front third 46 6 0 (omega arith) (omega arith))

-- The fields up to the addresses, before any bytes.
put_fixed_part-fixed_part :
    (n : ℕ) (t : Bytes)
    → put_fixed_part n (replicate 8 0 ++ t) ≡ some (fixed_part (u16 (8 + n)) ++ t)
unfolding put_fixed_part or_flow
put_fixed_part-fixed_part n t =
    let b = u16 (8 + n) in
    rw
      (
        store-set (replicate 8 0 ++ t) 0 96 (omega arith),
        store-set (96 ∷ 0 ∷ 0 ∷ 0 ∷ 0 ∷ 0 ∷ 0 ∷ 0 ∷ t) 0 96 (omega arith),
        store-set (96 ∷ 0 ∷ 0 ∷ 0 ∷ 0 ∷ 0 ∷ 0 ∷ 0 ∷ t) 1 6 (omega arith),
        store-set (96 ∷ 6 ∷ 0 ∷ 0 ∷ 0 ∷ 0 ∷ 0 ∷ 0 ∷ t) 2 114 (omega arith),
        store-set (96 ∷ 6 ∷ 114 ∷ 0 ∷ 0 ∷ 0 ∷ 0 ∷ 0 ∷ t) 3 77 (omega arith),
        store16-put16 (96 ∷ 6 ∷ 114 ∷ 77 ∷ 0 ∷ 0 ∷ 0 ∷ 0 ∷ t) 4 b (omega arith),
        store-set (96 ∷ 6 ∷ 114 ∷ 77 ∷ (b / 256) ∷ (b % 256) ∷ 0 ∷ 0 ∷ t) 6 17 (omega arith),
      )
      (store-set (96 ∷ 6 ∷ 114 ∷ 77 ∷ (b / 256) ∷ (b % 256) ∷ 17 ∷ 0 ∷ t) 7 64 (omega arith))

load16_behind :
    (front p : Bytes) (i j : ℕ) → i ≡ length front + j → load16 (front ++ p) i ≡ load16 p j
unfolding load16
load16_behind front p i j e =
    rw (get_elem?_behind front p i j e, get_elem?_behind front p (i + 1) (j + 1) (omega arith)) refl

payload_len_behind :
    (front p : Bytes) (v n : ℕ)
    → length front ≡ 40
    → load16 p 4 ≡ some v
    → v ≡ 8 + n
    → ipv6_udp_payload_len (front ++ p) ≡ some n
unfolding ipv6_udp_payload_len
payload_len_behind front p v n len e plain =
    rw (load16_behind front p 44 4 (omega arith), e) (ground arith)

take_front : (xs ys : Bytes) (n : ℕ) → length xs ≡ n → take n (xs ++ ys) ≡ xs
take_front xs ys n e = rw (sym e) (take-append xs ys)

-- A packet from `src` to `dst` with `n` bytes of payload, as the functions of libs/net/src/udp.c read
-- it; `rest` is what its object has behind it.
pub record Carries (src dst : Bytes) (sport dport n : ℕ) (payload rest p : Bytes) : Type 0 where
  pub accepted : is_ipv6_udp_packet (some p) (48 + n) ≡ some true
  pub payload_len : ipv6_udp_payload_len p ≡ some n
  pub content : take n (drop 48 p) ≡ payload
  pub source : take 16 (drop 8 p) ≡ src
  pub destination : take 16 (drop 24 p) ≡ dst
  pub source_port : load16 p 40 ≡ some sport
  pub destination_port : load16 p 42 ≡ some dport
  pub checksum : load16 p 46 ≡ some 0
  pub behind : drop (48 + n) p ≡ rest

module _ (libc : Libc) (src_addr dst_addr src dst : Bytes)
    (src_ok : libc.inet_pton src_addr ≡ some src) (dst_ok : libc.inet_pton dst_addr ≡ some dst)
    (src_len : length src ≡ 16) (dst_len : length dst ≡ 16) where
  abbrev ipv6_part : ℕ → Bytes
  ipv6_part n = fixed_part (u16 (8 + n)) ++ (src ++ dst)

  length-ipv6_part : (n : ℕ) → length (ipv6_part n) ≡ 40
  length-ipv6_part n = omega (arith, length-append src dst, src_len, dst_len)

  put_ipv6_header-ipv6_part :
      (n : ℕ) (back : Bytes)
      → put_ipv6_header libc src_addr dst_addr n (replicate 40 0 ++ back)
        ≡ some (ipv6_part n ++ back)
  unfolding put_ipv6_header put_address
  put_ipv6_header-ipv6_part n back =
      let h = fixed_part (u16 (8 + n)) in
      let z : Bytes = replicate 16 0 in
      rw
        (
          put_fixed_part-fixed_part n (z ++ (z ++ back)),
          src_ok,
          dst_ok,
          overwrite_inside h z (z ++ back) src 8 refl src_len,
        )
        (ap (λ p. overwrite p 24 dst) (sym (append_assoc h src (z ++ back)))
          ∙ overwrite_inside (h ++ src) z back dst 24 (omega (arith, src_len)) dst_len
          ∙ ap some (
              append_assoc h src (dst ++ back)
              ∙ ap (λ t. h ++ t) (sym (append_assoc src dst back))))

  -- All of the packet, in an object with room for it.
  generate_ipv6_udp_packet-layout :
      (packet src_port dst_port payload : Bytes) (n : ℕ)
      → 48 + n ≤ length packet
      → n ≤ length payload
      → generate_ipv6_udp_packet libc packet src_addr src_port dst_addr dst_port payload n
        ≡ some (
            ipv6_part n
            ++ (udp_part (u16 (libc.atoi src_port)) (u16 (libc.atoi dst_port)) (u16 (8 + n))
                ++ (take n payload ++ drop (48 + n) packet)))
  unfolding generate_ipv6_udp_packet
  generate_ipv6_udp_packet-layout packet src_port dst_port payload n room enough =
      let s = u16 (libc.atoi src_port) in
      let d = u16 (libc.atoi dst_port) in
      let zn : Bytes = replicate n 0 in
      let rest = drop (48 + n) packet in
      let u = udp_part s d (u16 (8 + n)) in
      let cleared : overwrite packet 0 (replicate (48 + n) 0)
          ≡ some (replicate 40 0 ++ (replicate 8 0 ++ (zn ++ rest))) =
        overwrite_front packet (replicate (48 + n) 0)
          (omega (arith, length-replicate {A = ℕ} (48 + n) 0))
        ∙ rw (length-replicate {A = ℕ} (48 + n) 0, replicate-add {A = ℕ} 48 n 0) refl in
      rw
        (
          cleared,
          put_ipv6_header-ipv6_part n (replicate 8 0 ++ (zn ++ rest)),
          put_udp_header-udp_part libc src_port dst_port n (ipv6_part n) (zn ++ rest)
              (length-ipv6_part n),
          view-take payload n enough,
        )
        (ap (λ p. overwrite p 48 (take n payload)) (sym (append_assoc (ipv6_part n) u (zn ++ rest)))
          ∙ overwrite_inside (ipv6_part n ++ u) zn rest (take n payload) 48
              (omega (arith, length-append (ipv6_part n) u, length-ipv6_part n))
              (omega (arith, length-take n payload enough, length-replicate {A = ℕ} n 0))
          ∙ ap some (append_assoc (ipv6_part n) u (take n payload ++ rest)))

  layout-Carries :
      (s d n : ℕ) (content rest : Bytes)
      → length content ≡ n
      → 8 + n < 2 ^ 16
      → Carries src dst s d n content rest
          (ipv6_part n ++ (udp_part s d (u16 (8 + n)) ++ (content ++ rest)))
  unfolding load16
  layout-Carries s d n content rest whole small =
      let h = fixed_part (u16 (8 + n)) in
      let u = udp_part s d (u16 (8 + n)) in
      let behind_addresses = u ++ (content ++ rest) in
      let p = ipv6_part n ++ behind_addresses in
      let len = length-ipv6_part n in
      let grouped : p ≡ h ++ (src ++ (dst ++ behind_addresses)) =
        ap (λ t. h ++ t) (append_assoc src dst behind_addresses) in
      let after_udp : drop 48 p ≡ content ++ rest =
        drop-append_more (ipv6_part n) behind_addresses 48 8 (omega (arith, len)) in
      record {
        accepted = unfold is_ipv6_udp_packet in ground arith;
        payload_len =
            payload_len_behind (ipv6_part n) behind_addresses (u16 (8 + n)) n len
              (ap some (omega arith)) (omega arith);
        content = ap (λ t. take n t) after_udp ∙ take_front content rest n whole;
        source =
            ap (λ t. take 16 (drop 8 t)) grouped
            ∙ take_front src (dst ++ behind_addresses) 16 src_len;
        destination =
            ap (λ t. take 16 (drop 24 t)) grouped
            ∙ (ap (λ t. take 16 t) (drop-append_past src (dst ++ behind_addresses) 16 (sym src_len))
                ∙ take_front dst behind_addresses 16 dst_len);
        source_port =
            load16_behind (ipv6_part n) behind_addresses 40 0 (omega (arith, len))
            ∙ ap some (omega arith);
        destination_port =
            load16_behind (ipv6_part n) behind_addresses 42 2 (omega (arith, len))
            ∙ ap some (omega arith);
        checksum = load16_behind (ipv6_part n) behind_addresses 46 6 (omega (arith, len));
        behind =
            drop-append_more (ipv6_part n) behind_addresses (48 + n) (8 + n) (omega (arith, len))
            ∙ (drop-append_more u (content ++ rest) (8 + n) n (omega arith)
                ∙ drop-append_past content rest n (sym whole));
      }

  -- With room for the packet, a payload of less than 64 KiB with its headers, and addresses that
  -- `inet_pton` reads, the packet is written, and it is read back as an IPv6/UDP packet with these
  -- addresses, ports and this payload, whatever the object held before; what lies behind it is as
  -- before. Its checksum is 0.
  pub generate_ipv6_udp_packet-Carries :
      (packet src_port dst_port payload : Bytes) (n : ℕ)
      → 48 + n ≤ length packet
      → n ≤ length payload
      → 8 + n < 2 ^ 16
      → (p : Bytes) × (generate_ipv6_udp_packet libc packet src_addr src_port dst_addr dst_port
            payload n
          ≡ some p)
        × Carries src dst
            (u16 (libc.atoi src_port))
            (u16 (libc.atoi dst_port))
            n
            (take n payload)
            (drop (48 + n) packet)
            p
  generate_ipv6_udp_packet-Carries packet src_port dst_port payload n room enough small = (
    _,
    generate_ipv6_udp_packet-layout packet src_port dst_port payload n room enough,
    layout-Carries (u16 (libc.atoi src_port)) (u16 (libc.atoi dst_port)) n (take n payload)
        (drop (48 + n) packet) (length-take n payload enough) small,
  )
