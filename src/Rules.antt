-- ===== src/Rules.antt =====
-- The compression rules of libs/schc_comp_apis/oscore_basic and templates/, as the data that the
-- code hands to the SDK: a field is a `rule_field_t` initializer, a rule is an `init_rule` with the
-- fields of its `add_rule_field` calls in order, a table an `init_rules` with its `add_rule` calls.
pub mod Outer
pub mod Inner
pub mod Template
pub mod Bits
pub mod Schc
pub mod Tables
mod Tests
use Prim.Native.Char.{code}
use Prim.Native.String.{String}
use schc_work.Common.{ℕ, ◌*◌, Option, none, some, List, [], ◌∷◌, length, Bytes}

-- The fields that the rules name.
pub data Fid : Type 0 where
  fid_ipv6_version fid_ipv6_traffic_class fid_ipv6_flow_label fid_ipv6_payload_length : Fid
  fid_ipv6_next_header fid_ipv6_hop_limit fid_ipv6_prefix_dev fid_ipv6_iid_dev : Fid
  fid_ipv6_prefix_app fid_ipv6_iid_app fid_udp_port_dev fid_udp_port_app fid_udp_length : Fid
  fid_udp_checksum fid_coap_version fid_coap_type fid_coap_token_length fid_coap_code : Fid
  fid_coap_msg_id fid_coap_token fid_coap_observe fid_coap_oscore fid_coap_uri_path : Fid
  fid_coap_content_format fid_coap_uri_query fid_coap_location_path fid_coap_accept : Fid

pub data Dir : Type 0 where
  dir_bi dir_up dir_down : Dir

-- `{ptr, offset, size}`: the bits from `offset` on, `size` of them.
pub record BitString : Type 0 where
  pub ptr : Bytes
  pub offset : ℕ
  pub size : ℕ

-- `tv_none` for NULL.
pub data TargetValue : Type 0 where
  tv_none : TargetValue
  tv_bit_string : BitString → TargetValue
  tv_mapped_values : List BitString → TargetValue

-- The matching operator with its argument, where it has one.
pub data Mo : Type 0 where
  mo_equal mo_ignore mo_mapping : Mo
  mo_msb : ℕ → Mo

pub data Cda : Type 0 where
  cda_not_sent cda_value_sent cda_mapping_sent cda_lsb cda_compute_length cda_compute_checksum : Cda

-- `rule_field_t`: a length of 0 is a variable length.
pub record RuleField : Type 0 where
  pub fid : Fid
  pub position : ℕ
  pub dir : Dir
  pub target : TargetValue
  pub bits : ℕ
  pub mo : Mo
  pub cda : Cda

-- The initializer in the order of the C code.
abbrev pub rule_field : Fid → ℕ → Dir → TargetValue → ℕ → Mo → Cda → RuleField
rule_field fid position dir target bits mo cda = record {
  fid = fid;
  position = position;
  dir = dir;
  target = target;
  bits = bits;
  mo = mo;
  cda = cda;
}

pub data Stack : Type 0 where
  stack_ipv6_udp stack_ipv6_udp_coap stack_oscore_plaintext : Stack

-- `capacity` is the length of the array of fields that `init_rule` is given.
pub record Rule : Type 0 where
  pub rule_id : ℕ
  pub stack : Stack
  pub capacity : ℕ
  pub fields : List RuleField

abbrev pub init_rule : ℕ → Stack → ℕ → List RuleField → Rule
init_rule rule_id stack capacity fields = record {
  rule_id = rule_id;
  stack = stack;
  capacity = capacity;
  fields = fields;
}

pub record Rules : Type 0 where
  pub default_rule_id : ℕ
  pub rules_capacity : ℕ
  pub rules : List Rule

-- The codes of CoAP, which the SDK's headers define.
pub record CoapCodes : Type 0 where
  pub coap_empty : ℕ
  pub coap_get : ℕ
  pub coap_post : ℕ
  pub coap_put : ℕ
  pub coap_delete : ℕ
  pub coap_fetch : ℕ
  pub coap_created : ℕ
  pub coap_deleted : ℕ
  pub coap_changed : ℕ
  pub coap_content : ℕ

-- The numbers of RFC 7252 and, for FETCH, RFC 8132.
abbrev pub rfc_codes : CoapCodes
rfc_codes = record {
  coap_empty = 0;
  coap_get = 1;
  coap_post = 2;
  coap_put = 3;
  coap_delete = 4;
  coap_fetch = 5;
  coap_created = 65;
  coap_deleted = 66;
  coap_changed = 68;
  coap_content = 69;
}

-- The bytes of a string literal without its terminator.
abbrev pub ascii : String → Bytes
ascii String.[] = []
ascii (String.◌∷◌ c s) = code c ∷ ascii s

-- `{TV_BIT_STRING, {{ptr, offset, size}}}`
abbrev pub bit_string : Bytes → ℕ → ℕ → TargetValue
bit_string ptr offset size = tv_bit_string (record { ptr = ptr; offset = offset; size = size })

-- `{s, 0, (sizeof(s) - 1) * CHAR_BIT}` for a string literal.
abbrev pub text_bits : String → BitString
text_bits s = record { ptr = ascii s; offset = 0; size = length (ascii s) * 8 }

abbrev pub text : String → TargetValue
text s = tv_bit_string (text_bits s)
