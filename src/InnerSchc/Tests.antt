-- ===== src/InnerSchc/Tests.antt =====
-- Plaintexts, and the theorems at them.
use schc_work.Common.{◌≡◌, refl, none, [], ◌∷◌, replicate, arith, Bytes}
use schc_work.InnerSchc.{
  comp_success, comp_rules_not_found_err, InnerSdk, oscore_msg_inner_decompression,
}
use schc_work.InnerSchc.Fallback.{IsUnruled, oscore_msg_inner_decompression-fallback}

-- An SDK that finds no rule for the default id, which it puts in front of what it compresses.
abbrev unruled : InnerSdk
unruled = record {
  schc_oscore_inner_compress = λ rules room input. (comp_success, 28 ∷ input);
  schc_oscore_inner_decompress = λ rules room input. (comp_rules_not_found_err, []);
}

-- 130 bytes that no rule explains.
abbrev long_packet : Bytes
long_packet = replicate 130 7

long_packet-IsUnruled : IsUnruled unruled long_packet 130 []
unfolding IsUnruled
long_packet-IsUnruled = refl

oscore_msg_inner_decompression-fallback_example :
    oscore_msg_inner_decompression unruled long_packet 130 ≡ none
oscore_msg_inner_decompression-fallback_example =
    oscore_msg_inner_decompression-fallback unruled long_packet [] 130 (omega arith) (omega arith)
      long_packet-IsUnruled
