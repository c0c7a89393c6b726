-- ===== src/Rules/Inner.antt =====
-- libs/schc_comp_apis/oscore_basic/src/innerrules.c: the rules for the plaintext inside OSCORE.
use Prim.Native.String.{String}
use schc_work.Common.{ℕ, ◌*◌, List, [], ◌∷◌, Bytes}
use schc_work.Rules.{
  Fid, fid_coap_code, fid_coap_uri_path, fid_coap_content_format, fid_coap_uri_query,
  fid_coap_location_path, fid_coap_accept, fid_coap_observe, dir_bi, tv_none, tv_mapped_values,
  BitString, mo_equal, mo_ignore, mo_mapping, cda_not_sent, cda_value_sent, cda_mapping_sent,
  RuleField, rule_field, Rule, init_rule, stack_oscore_plaintext, Rules, CoapCodes, bit_string,
  text_bits, text,
}

abbrev pub location_path_len : ℕ
location_path_len = 10

abbrev pub no_comp_rule_id : ℕ
no_comp_rule_id = 150

abbrev lwm2m_tlv : Bytes
lwm2m_tlv = 0x2D ∷ 0x16 ∷ []

abbrev coap_code : ℕ → RuleField
coap_code c = rule_field fid_coap_code 1 dir_bi (bit_string (c ∷ []) 0 8) 8 mo_equal cda_not_sent

-- The code in the rules 53 to 56, whose field length is 0.
abbrev coap_code_0 : ℕ → RuleField
coap_code_0 c = rule_field fid_coap_code 1 dir_bi (bit_string (c ∷ []) 0 8) 0 mo_equal cda_not_sent

-- A field of variable length that equals a text.
abbrev equal_text : Fid → ℕ → String → RuleField
equal_text fid position s = rule_field fid position dir_bi (text s) 0 mo_equal cda_not_sent

-- Content-Format or Accept with LWM2M_TLV.
abbrev tlv : Fid → RuleField
tlv fid = rule_field fid 1 dir_bi (bit_string lwm2m_tlv 0 16) 0 mo_equal cda_not_sent

-- The second part of the path, a value of LOCATION_PATH_LEN bytes.
abbrev location : Fid → RuleField
location fid = rule_field fid 2 dir_bi tv_none (location_path_len * 8) mo_ignore cda_value_sent

abbrev coap_uri_query_2_mv : List BitString
coap_uri_query_2_mv =
    text_bits "ep=demoMangoh1"
    ∷ text_bits "ep=demoMangoh2"
    ∷ text_bits "ep=demoMangoh3"
    ∷ text_bits "ep=demoMangoh4"
    ∷ text_bits "ep=demoMangoh5"
    ∷ text_bits "ep=demoMangoh6"
    ∷ text_bits "ep=demoMangoh7"
    ∷ text_bits "ep=demoMangoh8"
    ∷ []

abbrev coap_uri_query_4_mv : List BitString
coap_uri_query_4_mv =
    text_bits "lt=300"
    ∷ text_bits "lt=500"
    ∷ text_bits "lt=1000"
    ∷ text_bits "lt=2000"
    ∷ text_bits "lt=3600"
    ∷ text_bits "lt=7200"
    ∷ text_bits "lt=10000"
    ∷ text_bits "lt=86400"
    ∷ []

-- Registration request.
unfoldable pub get_rule_40 : CoapCodes → Rule
get_rule_40 codes = init_rule 40 stack_oscore_plaintext 7 (
    coap_code codes.coap_post
    ∷ equal_text fid_coap_uri_path 1 "rd"
    ∷ rule_field fid_coap_content_format 1 dir_bi (bit_string (0x28 ∷ []) 0 8) 0 mo_equal
        cda_not_sent
    ∷ equal_text fid_coap_uri_query 1 "lwm2m=1.1"
    ∷ rule_field fid_coap_uri_query 2 dir_bi (tv_mapped_values coap_uri_query_2_mv) 0 mo_mapping
        cda_mapping_sent
    ∷ equal_text fid_coap_uri_query 3 "b=U"
    ∷ rule_field fid_coap_uri_query 4 dir_bi (tv_mapped_values coap_uri_query_4_mv) 0 mo_mapping
        cda_mapping_sent
    ∷ [])

-- Registration response.
unfoldable pub get_rule_41 : CoapCodes → Rule
get_rule_41 codes = init_rule 41 stack_oscore_plaintext 3 (
    coap_code codes.coap_created
    ∷ equal_text fid_coap_location_path 1 "rd"
    ∷ location fid_coap_location_path
    ∷ [])

-- Registration confirm request.
unfoldable pub get_rule_42 : CoapCodes → Rule
get_rule_42 codes = init_rule 42 stack_oscore_plaintext 3 (
    coap_code codes.coap_post
    ∷ equal_text fid_coap_uri_path 1 "rd"
    ∷ location fid_coap_uri_path
    ∷ [])

-- Registration confirm response.
unfoldable pub get_rule_43 : CoapCodes → Rule
get_rule_43 codes = init_rule 43 stack_oscore_plaintext 1 (coap_code codes.coap_changed ∷ [])

-- Temperature sensor request.
unfoldable pub get_rule_44 : CoapCodes → Rule
get_rule_44 codes = init_rule 44 stack_oscore_plaintext 5 (
    coap_code codes.coap_get
    ∷ equal_text fid_coap_uri_path 1 "3303"
    ∷ equal_text fid_coap_uri_path 2 "0"
    ∷ equal_text fid_coap_uri_path 3 "5700"
    ∷ tlv fid_coap_accept
    ∷ [])

-- Temperature, light and battery status response.
unfoldable pub get_rule_45 : CoapCodes → Rule
get_rule_45 codes =
    init_rule 45 stack_oscore_plaintext 2
      (coap_code codes.coap_content ∷ tlv fid_coap_content_format ∷ [])

-- Light control request.
unfoldable pub get_rule_46 : CoapCodes → Rule
get_rule_46 codes = init_rule 46 stack_oscore_plaintext 5 (
    coap_code codes.coap_put
    ∷ equal_text fid_coap_uri_path 1 "3311"
    ∷ equal_text fid_coap_uri_path 2 "0"
    ∷ equal_text fid_coap_uri_path 3 "5850"
    ∷ tlv fid_coap_content_format
    ∷ [])

-- Light control response.
unfoldable pub get_rule_47 : CoapCodes → Rule
get_rule_47 codes = init_rule 47 stack_oscore_plaintext 1 (coap_code codes.coap_changed ∷ [])

-- Light status request.
unfoldable pub get_rule_48 : CoapCodes → Rule
get_rule_48 codes = init_rule 48 stack_oscore_plaintext 5 (
    coap_code codes.coap_get
    ∷ equal_text fid_coap_uri_path 1 "3311"
    ∷ equal_text fid_coap_uri_path 2 "0"
    ∷ equal_text fid_coap_uri_path 3 "5850"
    ∷ tlv fid_coap_accept
    ∷ [])

-- Observe location request.
unfoldable pub get_rule_50 : CoapCodes → Rule
get_rule_50 codes = init_rule 50 stack_oscore_plaintext 6 (
    coap_code codes.coap_get
    ∷ rule_field fid_coap_observe 1 dir_bi (bit_string (0 ∷ []) 0 0) 0 mo_equal cda_not_sent
    ∷ rule_field fid_coap_uri_path 1 dir_bi (text "6") 8 mo_equal cda_not_sent
    ∷ rule_field fid_coap_uri_path 2 dir_bi (text "0") 8 mo_equal cda_not_sent
    ∷ rule_field fid_coap_accept 1 dir_bi (bit_string lwm2m_tlv 0 16) 16 mo_equal cda_not_sent
    ∷ [])

-- Observe location response and notification.
unfoldable pub get_rule_51 : CoapCodes → Rule
get_rule_51 codes = init_rule 51 stack_oscore_plaintext 3 (
    coap_code codes.coap_content
    ∷ rule_field fid_coap_observe 1 dir_bi (bit_string (0 ∷ []) 0 0) 0 mo_equal cda_not_sent
    ∷ tlv fid_coap_content_format
    ∷ [])

-- Battery level request.
unfoldable pub get_rule_52 : CoapCodes → Rule
get_rule_52 codes = init_rule 52 stack_oscore_plaintext 5 (
    coap_code codes.coap_get
    ∷ equal_text fid_coap_uri_path 1 "3"
    ∷ equal_text fid_coap_uri_path 2 "0"
    ∷ equal_text fid_coap_uri_path 3 "9"
    ∷ tlv fid_coap_accept
    ∷ [])

-- Register refresh request.
unfoldable pub get_rule_53 : CoapCodes → Rule
get_rule_53 codes = init_rule 53 stack_oscore_plaintext 3 (
    coap_code_0 codes.coap_post
    ∷ equal_text fid_coap_uri_path 1 "rd"
    ∷ location fid_coap_uri_path
    ∷ [])

-- Reset message.
unfoldable pub get_rule_54 : CoapCodes → Rule
get_rule_54 codes = init_rule 54 stack_oscore_plaintext 1 (coap_code_0 codes.coap_empty ∷ [])

-- Deregister request.
unfoldable pub get_rule_55 : CoapCodes → Rule
get_rule_55 codes = init_rule 55 stack_oscore_plaintext 3 (
    coap_code_0 codes.coap_delete
    ∷ equal_text fid_coap_uri_path 1 "rd"
    ∷ location fid_coap_uri_path
    ∷ [])

-- Deregister response.
unfoldable pub get_rule_56 : CoapCodes → Rule
get_rule_56 codes = init_rule 56 stack_oscore_plaintext 1 (coap_code_0 codes.coap_deleted ∷ [])

unfoldable pub get_orange_labs_inner_rules : CoapCodes → Rules
get_orange_labs_inner_rules codes = record {
  default_rule_id = no_comp_rule_id;
  rules_capacity = 16;
  rules =
      get_rule_40 codes
      ∷ get_rule_41 codes
      ∷ get_rule_42 codes
      ∷ get_rule_43 codes
      ∷ get_rule_44 codes
      ∷ get_rule_45 codes
      ∷ get_rule_46 codes
      ∷ get_rule_47 codes
      ∷ get_rule_48 codes
      ∷ get_rule_50 codes
      ∷ get_rule_51 codes
      ∷ get_rule_52 codes
      ∷ get_rule_53 codes
      ∷ get_rule_54 codes
      ∷ get_rule_55 codes
      ∷ get_rule_56 codes
      ∷ [];
}
