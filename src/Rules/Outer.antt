-- ===== src/Rules/Outer.antt =====
-- libs/schc_comp_apis/oscore_basic/src/outerrules.c: the rules for the packets around OSCORE and
-- EDHOC. The addresses and ports are the variables of fullsdkextapi.c.
use schc_work.Common.{ℕ, List, [], ◌∷◌, ◌++◌, Bytes}
use schc_work.Rules.{
  fid_ipv6_version, fid_ipv6_traffic_class, fid_ipv6_flow_label, fid_ipv6_payload_length,
  fid_ipv6_next_header, fid_ipv6_hop_limit, fid_ipv6_prefix_dev, fid_ipv6_iid_dev,
  fid_ipv6_prefix_app, fid_ipv6_iid_app, fid_udp_port_dev, fid_udp_port_app, fid_udp_length,
  fid_udp_checksum, fid_coap_version, fid_coap_type, fid_coap_token_length, fid_coap_code,
  fid_coap_msg_id, fid_coap_token, fid_coap_observe, fid_coap_oscore, fid_coap_uri_path, dir_bi,
  tv_none, mo_equal, mo_ignore, mo_msb, cda_not_sent, cda_value_sent, cda_lsb, cda_compute_length,
  cda_compute_checksum, RuleField, rule_field, Rule, init_rule, stack_ipv6_udp, stack_ipv6_udp_coap,
  Rules, CoapCodes, bit_string, text,
}

-- `host_ipv6_addr`, `host_udp_port`, `remote_ipv6_addr`, `remote_udp_port`.
pub record Addresses : Type 0 where
  pub host_ipv6_addr : Bytes
  pub host_udp_port : Bytes
  pub remote_ipv6_addr : Bytes
  pub remote_udp_port : Bytes

-- The fields that `add_ip_fields` adds. An offset of 64 bits is `ptr + 8`.
unfoldable pub add_ip_fields : Addresses → List RuleField
add_ip_fields a =
    rule_field fid_ipv6_version 1 dir_bi (bit_string (0x60 ∷ []) 0 4) 4 mo_equal cda_not_sent
    ∷ rule_field fid_ipv6_traffic_class 1 dir_bi (bit_string (0 ∷ []) 0 8) 8 mo_equal cda_not_sent
    ∷ rule_field fid_ipv6_flow_label 1 dir_bi (bit_string (0x12 ∷ 0x34 ∷ 0x50 ∷ []) 0 20) 20
        mo_ignore cda_not_sent
    ∷ rule_field fid_ipv6_payload_length 1 dir_bi tv_none 16 mo_ignore cda_compute_length
    ∷ rule_field fid_ipv6_next_header 1 dir_bi (bit_string (17 ∷ []) 0 8) 8 mo_equal cda_not_sent
    ∷ rule_field fid_ipv6_hop_limit 1 dir_bi (bit_string (64 ∷ []) 0 8) 8 mo_ignore cda_not_sent
    ∷ rule_field fid_ipv6_prefix_dev 1 dir_bi (bit_string a.host_ipv6_addr 0 64) 64 mo_equal
        cda_not_sent
    ∷ rule_field fid_ipv6_iid_dev 1 dir_bi (bit_string a.host_ipv6_addr 64 64) 64 mo_equal
        cda_not_sent
    ∷ rule_field fid_ipv6_prefix_app 1 dir_bi (bit_string a.remote_ipv6_addr 0 64) 64 mo_equal
        cda_not_sent
    ∷ rule_field fid_ipv6_iid_app 1 dir_bi (bit_string a.remote_ipv6_addr 64 64) 64 mo_equal
        cda_not_sent
    ∷ []

unfoldable pub add_udp_fields : Addresses → List RuleField
add_udp_fields a =
    rule_field fid_udp_port_dev 1 dir_bi (bit_string a.host_udp_port 0 16) 16 mo_equal cda_not_sent
    ∷ rule_field fid_udp_port_app 1 dir_bi (bit_string a.remote_udp_port 0 16) 16 mo_equal
        cda_not_sent
    ∷ rule_field fid_udp_length 1 dir_bi tv_none 16 mo_ignore cda_compute_length
    ∷ rule_field fid_udp_checksum 1 dir_bi tv_none 16 mo_ignore cda_compute_checksum
    ∷ []

abbrev ip_udp : Addresses → List RuleField → List RuleField
ip_udp a fields = add_ip_fields a ++ (add_udp_fields a ++ fields)

abbrev rule_field_edhoc_uri : RuleField
rule_field_edhoc_uri =
    rule_field fid_coap_uri_path 1 dir_bi (text ".well-known/edhoc") 0 mo_equal cda_not_sent

-- Version.
abbrev rule_field_14 : RuleField
rule_field_14 =
    rule_field fid_coap_version 1 dir_bi (bit_string (1 ∷ []) 6 2) 2 mo_equal cda_not_sent

-- Type, whose value is the number of the type in the two low bits.
abbrev coap_type : ℕ → RuleField
coap_type t = rule_field fid_coap_type 1 dir_bi (bit_string (t ∷ []) 6 2) 2 mo_equal cda_not_sent

abbrev rule_field_15_con : RuleField
rule_field_15_con = coap_type 0

abbrev rule_field_15_non_con : RuleField
rule_field_15_non_con = coap_type 1

abbrev rule_field_15_ack : RuleField
rule_field_15_ack = coap_type 2

-- Token length.
abbrev rule_field_16 : RuleField
rule_field_16 =
    rule_field fid_coap_token_length 1 dir_bi (bit_string (2 ∷ []) 4 4) 4 mo_equal cda_not_sent

-- Code.
abbrev rule_field_17 : ℕ → RuleField
rule_field_17 c =
    rule_field fid_coap_code 1 dir_bi (bit_string (c ∷ []) 0 8) 8 mo_equal cda_not_sent

-- Message ID.
abbrev rule_field_18 : RuleField
rule_field_18 = rule_field fid_coap_msg_id 1 dir_bi tv_none 16 mo_ignore cda_value_sent

-- Token.
abbrev rule_field_19 : RuleField
rule_field_19 = rule_field fid_coap_token 1 dir_bi tv_none 16 mo_ignore cda_value_sent

abbrev rule_field_20_observe : RuleField
rule_field_20_observe =
    rule_field fid_coap_observe 1 dir_bi (bit_string (0 ∷ []) 0 0) 0 mo_equal cda_not_sent

abbrev rule_field_20_observe_notif : RuleField
rule_field_20_observe_notif =
    rule_field fid_coap_observe 1 dir_bi tv_none 0 mo_ignore cda_value_sent

abbrev rule_field_21_request : RuleField
rule_field_21_request =
    rule_field fid_coap_oscore 1 dir_bi (bit_string (0x09 ∷ []) 0 8) 0 (mo_msb 8) cda_lsb

abbrev rule_field_21_response : RuleField
rule_field_21_response =
    rule_field fid_coap_oscore 1 dir_bi (bit_string (0 ∷ []) 0 0) 0 mo_equal cda_not_sent

abbrev rule_field_21_observe_notif : RuleField
rule_field_21_observe_notif = rule_field fid_coap_oscore 1 dir_bi tv_none 0 mo_ignore cda_value_sent

unfoldable pub ipv6_coap_oscore_request_rule : CoapCodes → Addresses → Rule
ipv6_coap_oscore_request_rule codes a = init_rule 56 stack_ipv6_udp_coap 21 (
    ip_udp a (
      rule_field_14
      ∷ rule_field_15_con
      ∷ rule_field_16
      ∷ rule_field_17 codes.coap_post
      ∷ rule_field_18
      ∷ rule_field_19
      ∷ rule_field_21_request
      ∷ []))

unfoldable pub ipv6_coap_oscore_response_rule : CoapCodes → Addresses → Rule
ipv6_coap_oscore_response_rule codes a = init_rule 57 stack_ipv6_udp_coap 21 (
    ip_udp a (
      rule_field_14
      ∷ rule_field_15_ack
      ∷ rule_field_16
      ∷ rule_field_17 codes.coap_changed
      ∷ rule_field_18
      ∷ rule_field_19
      ∷ rule_field_21_response
      ∷ []))

unfoldable pub ipv6_coap_oscore_observe_request_rule : CoapCodes → Addresses → Rule
ipv6_coap_oscore_observe_request_rule codes a = init_rule 58 stack_ipv6_udp_coap 22 (
    ip_udp a (
      rule_field_14
      ∷ rule_field_15_con
      ∷ rule_field_16
      ∷ rule_field_17 codes.coap_fetch
      ∷ rule_field_18
      ∷ rule_field_19
      ∷ rule_field_20_observe
      ∷ rule_field_21_request
      ∷ []))

unfoldable pub ipv6_coap_oscore_observe_response_rule : CoapCodes → Addresses → Rule
ipv6_coap_oscore_observe_response_rule codes a = init_rule 59 stack_ipv6_udp_coap 22 (
    ip_udp a (
      rule_field_14
      ∷ rule_field_15_ack
      ∷ rule_field_16
      ∷ rule_field_17 codes.coap_content
      ∷ rule_field_18
      ∷ rule_field_19
      ∷ rule_field_20_observe
      ∷ rule_field_21_response
      ∷ []))

unfoldable pub ipv6_coap_oscore_observe_notif_rule : CoapCodes → Addresses → Rule
ipv6_coap_oscore_observe_notif_rule codes a = init_rule 60 stack_ipv6_udp_coap 22 (
    ip_udp a (
      rule_field_14
      ∷ rule_field_15_non_con
      ∷ rule_field_16
      ∷ rule_field_17 codes.coap_content
      ∷ rule_field_18
      ∷ rule_field_19
      ∷ rule_field_20_observe_notif
      ∷ rule_field_21_observe_notif
      ∷ []))

unfoldable pub ipv6_coap_edhoc_request_rule : CoapCodes → Addresses → Rule
ipv6_coap_edhoc_request_rule codes a = init_rule 69 stack_ipv6_udp_coap 21 (
    ip_udp a (
      rule_field_14
      ∷ rule_field_15_con
      ∷ rule_field_16
      ∷ rule_field_17 codes.coap_post
      ∷ rule_field_18
      ∷ rule_field_19
      ∷ rule_field_edhoc_uri
      ∷ []))

unfoldable pub ipv6_coap_edhoc_response_rule : CoapCodes → Addresses → Rule
ipv6_coap_edhoc_response_rule codes a = init_rule 70 stack_ipv6_udp_coap 21 (
    ip_udp a (
      rule_field_14
      ∷ rule_field_15_ack
      ∷ rule_field_16
      ∷ rule_field_17 codes.coap_changed
      ∷ rule_field_18
      ∷ rule_field_19
      ∷ []))

unfoldable pub ipv6_udp_rule : Addresses → Rule
ipv6_udp_rule a = init_rule 61 stack_ipv6_udp 15 (ip_udp a [])

unfoldable pub get_orangelabs_outer_rules : CoapCodes → Addresses → Rules
get_orangelabs_outer_rules codes a = record {
  default_rule_id = 150;
  rules_capacity = 8;
  rules =
      ipv6_coap_oscore_request_rule codes a
      ∷ ipv6_coap_oscore_response_rule codes a
      ∷ ipv6_coap_oscore_observe_request_rule codes a
      ∷ ipv6_coap_oscore_observe_response_rule codes a
      ∷ ipv6_coap_oscore_observe_notif_rule codes a
      ∷ ipv6_coap_edhoc_request_rule codes a
      ∷ ipv6_coap_edhoc_response_rule codes a
      ∷ ipv6_udp_rule a
      ∷ [];
}
