-- ===== src/Samples.antt =====
-- Packets for the tests of several modules.
use schc_work.Common.{[], ◌∷◌, ◌++◌, replicate, Bytes}

-- From ::1 port 5683 to ::2 port 5643, with the CoAP bytes 40 01 in a buffer of 50 bytes.
abbrev pub packet : Bytes
packet =
    0x60 ∷ 0 ∷ 0 ∷ 0 ∷ 0 ∷ 10 ∷ 17 ∷ 64 ∷ replicate 15 0
    ++ (1 ∷ replicate 15 0
        ++ (2 ∷ 0x16 ∷ 0x33 ∷ 0x16 ∷ 0x0B ∷ 0 ∷ 10 ∷ 0xAA ∷ 0xBB ∷ 0x40 ∷ 1 ∷ []))

-- The same packet with a length field of 522.
abbrev pub long_packet : Bytes
long_packet =
    0x60 ∷ 0 ∷ 0 ∷ 0 ∷ 0 ∷ 10 ∷ 17 ∷ 64 ∷ replicate 15 0
    ++ (1 ∷ replicate 15 0
        ++ (2 ∷ 0x16 ∷ 0x33 ∷ 0x16 ∷ 0x0B ∷ 2 ∷ 10 ∷ 0xAA ∷ 0xBB ∷ 0x40 ∷ 1 ∷ []))

-- The headers alone: a datagram without payload.
abbrev pub empty_packet : Bytes
empty_packet =
    0x60 ∷ 0 ∷ 0 ∷ 0 ∷ 0 ∷ 8 ∷ 17 ∷ 64 ∷ replicate 15 0
    ++ (1 ∷ replicate 15 0 ++ (2 ∷ 0x16 ∷ 0x33 ∷ 0x16 ∷ 0x0B ∷ 0 ∷ 8 ∷ 0xAA ∷ 0xBB ∷ []))
