-- ===== src/Rules/Template.antt =====
-- templates/lpwan_scenario_coap_template.c: the template of the demonstration scenario, with one
-- rule. Its six parameters are parts of the addresses and ports.
use schc_work.Common.{ℕ, List, [], ◌∷◌, ◌++◌, Bytes}
use schc_work.Rules.{
  fid_ipv6_version, fid_ipv6_traffic_class, fid_ipv6_flow_label, fid_ipv6_payload_length,
  fid_ipv6_next_header, fid_ipv6_hop_limit, fid_ipv6_prefix_dev, fid_ipv6_iid_dev,
  fid_ipv6_prefix_app, fid_ipv6_iid_app, fid_udp_port_dev, fid_udp_port_app, fid_udp_length,
  fid_udp_checksum, fid_coap_version, fid_coap_type, fid_coap_token_length, fid_coap_code,
  fid_coap_msg_id, fid_coap_token, fid_coap_uri_path, fid_coap_content_format, dir_bi, tv_none,
  mo_equal, mo_ignore, cda_not_sent, cda_value_sent, cda_compute_length, cda_compute_checksum,
  RuleField, rule_field, Rule, init_rule, stack_ipv6_udp_coap, Rules, CoapCodes, bit_string, text,
}

-- `dev_ip`, `app_ip`, `dev_port`, `app_port`.
pub record TemplateAddresses : Type 0 where
  pub dev_ip : Bytes
  pub app_ip : Bytes
  pub dev_port : Bytes
  pub app_port : Bytes

abbrev pub nb_params : ℕ
nb_params = 6

abbrev pub ipv6_udp_rule_id : ℕ
ipv6_udp_rule_id = 28

-- The fields 00 to 13 of the IPv6 and UDP layers.
unfoldable pub ip_udp_fields : TemplateAddresses → List RuleField
ip_udp_fields a =
    rule_field fid_ipv6_version 1 dir_bi (bit_string (0x60 ∷ []) 0 4) 4 mo_equal cda_not_sent
    ∷ rule_field fid_ipv6_traffic_class 1 dir_bi (bit_string (0 ∷ []) 0 8) 8 mo_equal cda_not_sent
    ∷ rule_field fid_ipv6_flow_label 1 dir_bi (bit_string (0 ∷ 0 ∷ 0 ∷ []) 0 20) 20 mo_ignore
        cda_not_sent
    ∷ rule_field fid_ipv6_payload_length 1 dir_bi tv_none 16 mo_ignore cda_compute_length
    ∷ rule_field fid_ipv6_next_header 1 dir_bi (bit_string (17 ∷ []) 0 8) 8 mo_equal cda_not_sent
    ∷ rule_field fid_ipv6_hop_limit 1 dir_bi (bit_string (255 ∷ []) 0 8) 8 mo_ignore cda_not_sent
    ∷ rule_field fid_ipv6_prefix_dev 1 dir_bi (bit_string a.dev_ip 0 64) 64 mo_equal cda_not_sent
    ∷ rule_field fid_ipv6_iid_dev 1 dir_bi (bit_string a.dev_ip 64 64) 64 mo_equal cda_not_sent
    ∷ rule_field fid_ipv6_prefix_app 1 dir_bi (bit_string a.app_ip 0 64) 64 mo_equal cda_not_sent
    ∷ rule_field fid_ipv6_iid_app 1 dir_bi (bit_string a.app_ip 64 64) 64 mo_equal cda_not_sent
    ∷ rule_field fid_udp_port_dev 1 dir_bi (bit_string a.dev_port 0 16) 16 mo_equal cda_not_sent
    ∷ rule_field fid_udp_port_app 1 dir_bi (bit_string a.app_port 0 16) 16 mo_equal cda_not_sent
    ∷ rule_field fid_udp_length 1 dir_bi tv_none 16 mo_ignore cda_compute_length
    ∷ rule_field fid_udp_checksum 1 dir_bi tv_none 16 mo_ignore cda_compute_checksum
    ∷ []

-- The fields 14 to 22 of the CoAP layer: a confirmable POST of no token to notifications/temp.
unfoldable pub coap_fields : CoapCodes → List RuleField
coap_fields codes =
    rule_field fid_coap_version 1 dir_bi (bit_string (1 ∷ []) 6 2) 2 mo_equal cda_not_sent
    ∷ rule_field fid_coap_type 1 dir_bi (bit_string (0 ∷ []) 6 2) 2 mo_equal cda_not_sent
    ∷ rule_field fid_coap_token_length 1 dir_bi (bit_string (0 ∷ []) 4 4) 4 mo_equal cda_not_sent
    ∷ rule_field fid_coap_code 1 dir_bi (bit_string (codes.coap_post ∷ []) 0 8) 8 mo_equal
        cda_not_sent
    ∷ rule_field fid_coap_msg_id 1 dir_bi tv_none 16 mo_ignore cda_value_sent
    ∷ rule_field fid_coap_token 1 dir_bi (bit_string (0 ∷ []) 0 0) 0 mo_equal cda_not_sent
    ∷ rule_field fid_coap_uri_path 1 dir_bi (text "notifications") 104 mo_equal cda_not_sent
    ∷ rule_field fid_coap_uri_path 2 dir_bi (text "temp") 32 mo_equal cda_not_sent
    ∷ rule_field fid_coap_content_format 1 dir_bi (bit_string (0x3C ∷ []) 0 8) 8 mo_equal
        cda_not_sent
    ∷ []

unfoldable pub template_rule : CoapCodes → TemplateAddresses → Rule
template_rule codes a =
    init_rule ipv6_udp_rule_id stack_ipv6_udp_coap 23 (ip_udp_fields a ++ coap_fields codes)

unfoldable pub tpl_get_template_rules : CoapCodes → TemplateAddresses → Rules
tpl_get_template_rules codes a = record {
  default_rule_id = 150;
  rules_capacity = 1;
  rules = template_rule codes a ∷ [];
}
