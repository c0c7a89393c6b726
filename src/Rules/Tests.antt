-- ===== src/Rules/Tests.antt =====
-- Headers that the rules compress, and the theorems at them.
use schc_work.Common.{All, ◌≡◌, refl, true, false, some, List, [], ◌∷◌, ◌++◌, replicate}
use schc_work.Rules.{rfc_codes, ascii}
use schc_work.Rules.Bits.{Bits, to_bits, byte_bits, size_bits}
use schc_work.Rules.Schc.{
  target_bits, same_bit, same_bits, index_of, index_width, index_or_zero, msb, is_some,
  matches_target, matches_size, matches_field, matches_fields, send, compress_as, compress,
  decompress, restored,
}
use schc_work.Rules.Inner.{get_orange_labs_inner_rules, get_rule_40}
use schc_work.Rules.Outer.{
  Addresses, get_orangelabs_outer_rules, add_ip_fields, add_udp_fields,
  ipv6_coap_oscore_request_rule,
}
use schc_work.Rules.Template.{
  TemplateAddresses, tpl_get_template_rules, template_rule, ip_udp_fields, coap_fields,
}
use schc_work.Rules.Tables.{rules-IsLossless, IsLosslessRule}

-- A registration of demoMangoh3 for 86400 seconds.
abbrev registration : List Bits
registration =
    to_bits 8 2
    ∷ byte_bits (ascii "rd")
    ∷ to_bits 8 40
    ∷ byte_bits (ascii "lwm2m=1.1")
    ∷ byte_bits (ascii "ep=demoMangoh3")
    ∷ byte_bits (ascii "b=U")
    ∷ byte_bits (ascii "lt=86400")
    ∷ []

registration-matches : matches_fields (get_rule_40 rfc_codes).fields registration ≡ true
unfolding get_rule_40 matches_fields matches_field matches_size matches_target index_of is_some
    same_bits same_bit target_bits byte_bits to_bits
registration-matches = refl

-- Six bits are sent.
registration-compressed :
    compress (get_rule_40 rfc_codes).fields registration
    ≡ false ∷ true ∷ false ∷ true ∷ true ∷ true ∷ []
unfolding get_rule_40 compress compress_as index_of index_width index_or_zero same_bits same_bit
    target_bits byte_bits to_bits
registration-compressed = refl

-- ::1 port 5683 and ::2 port 5684.
abbrev hosts : Addresses
hosts = record {
  host_ipv6_addr = replicate 15 0 ++ 1 ∷ [];
  host_udp_port = 0x16 ∷ 0x33 ∷ [];
  remote_ipv6_addr = replicate 15 0 ++ 2 ∷ [];
  remote_udp_port = 0x16 ∷ 0x34 ∷ [];
}

abbrev scenario : TemplateAddresses
scenario = record {
  dev_ip = replicate 15 0 ++ 1 ∷ [];
  app_ip = replicate 15 0 ++ 2 ∷ [];
  dev_port = 0x16 ∷ 0x33 ∷ [];
  app_port = 0x16 ∷ 0x34 ∷ [];
}

registration-restored :
    decompress
      (get_rule_40 rfc_codes).fields
      (compress (get_rule_40 rfc_codes).fields registration ++ true ∷ [])
    ≡ some (restored (get_rule_40 rfc_codes).fields registration, true ∷ [])
unfolding get_orange_labs_inner_rules
registration-restored =
    ((rules-IsLossless rfc_codes hosts scenario).0.0 registration registration-matches).back
      (true ∷ [])

abbrev ip_udp_values : List Bits
ip_udp_values =
    to_bits 4 6
    ∷ to_bits 8 0
    ∷ to_bits 20 7
    ∷ to_bits 16 30
    ∷ to_bits 8 17
    ∷ to_bits 8 63
    ∷ replicate 64 false
    ∷ to_bits 64 1
    ∷ replicate 64 false
    ∷ to_bits 64 2
    ∷ to_bits 16 5683
    ∷ to_bits 16 5684
    ∷ to_bits 16 30
    ∷ to_bits 16 4660
    ∷ []

-- A protected request with the message id 300, the token 0102 and the OSCORE option 09 05.
abbrev request : List Bits
request =
    ip_udp_values
    ++ (to_bits 2 1
        ∷ to_bits 2 0
        ∷ to_bits 4 2
        ∷ to_bits 8 2
        ∷ to_bits 16 300
        ∷ to_bits 16 258
        ∷ to_bits 16 0x0905
        ∷ [])

request-matches :
    matches_fields (ipv6_coap_oscore_request_rule rfc_codes hosts).fields request ≡ true
unfolding ipv6_coap_oscore_request_rule add_ip_fields add_udp_fields matches_fields matches_field
    matches_size matches_target is_some same_bits same_bit target_bits byte_bits to_bits
request-matches = refl

-- The message id, the token, and the option's second byte behind its size.
request-compressed :
    compress (ipv6_coap_oscore_request_rule rfc_codes hosts).fields request
    ≡ to_bits 16 300 ++ (to_bits 16 258 ++ (to_bits 4 1 ++ to_bits 8 5))
unfolding ipv6_coap_oscore_request_rule add_ip_fields add_udp_fields compress compress_as msb send
    size_bits to_bits
request-compressed = refl

request-restored :
    decompress
      (ipv6_coap_oscore_request_rule rfc_codes hosts).fields
      (compress (ipv6_coap_oscore_request_rule rfc_codes hosts).fields request ++ to_bits 8 255)
    ≡ some (restored (ipv6_coap_oscore_request_rule rfc_codes hosts).fields request, to_bits 8 255)
unfolding get_orangelabs_outer_rules
request-restored =
    ((rules-IsLossless rfc_codes hosts scenario).1.0 request request-matches).back (to_bits 8 255)

-- A temperature with the message id 300.
abbrev notification : List Bits
notification =
    ip_udp_values
    ++ (to_bits 2 1
        ∷ to_bits 2 0
        ∷ to_bits 4 0
        ∷ to_bits 8 2
        ∷ to_bits 16 300
        ∷ []
        ∷ byte_bits (ascii "notifications")
        ∷ byte_bits (ascii "temp")
        ∷ to_bits 8 0x3C
        ∷ [])

notification-matches : matches_fields (template_rule rfc_codes scenario).fields notification ≡ true
unfolding template_rule ip_udp_fields coap_fields matches_fields matches_field matches_size
    matches_target is_some same_bits same_bit target_bits byte_bits to_bits
notification-matches = refl

notification-restored :
    decompress
      (template_rule rfc_codes scenario).fields
      (compress (template_rule rfc_codes scenario).fields notification ++ [])
    ≡ some (restored (template_rule rfc_codes scenario).fields notification, [])
unfolding tpl_get_template_rules
notification-restored =
    ((rules-IsLossless rfc_codes hosts scenario).2.0 notification notification-matches).back []

rules-IsLossless_example :
    All IsLosslessRule (get_orange_labs_inner_rules rfc_codes).rules
    × All IsLosslessRule (get_orangelabs_outer_rules rfc_codes hosts).rules
    × All IsLosslessRule (tpl_get_template_rules rfc_codes scenario).rules
rules-IsLossless_example = rules-IsLossless rfc_codes hosts scenario
