-- ===== src/Rules/Tables.antt =====
-- The rule tables of the program under the compression of RFC 8724.
use schc_work.Common.{
  ℕ, zero, suc, ◌≡◌, refl, sym, Bool, true, false, ◌&&◌, ◌||◌, some, List, [], ◌∷◌, ◌++◌, get_elem?,
  All,
}
use schc_work.Rules.{
  Fid, fid_ipv6_flow_label, fid_ipv6_hop_limit, fid_ipv6_payload_length, fid_udp_length,
  fid_udp_checksum, TargetValue, tv_none, tv_bit_string, tv_mapped_values, Mo, mo_equal, mo_ignore,
  mo_mapping, mo_msb, Cda, cda_not_sent, cda_value_sent, cda_mapping_sent, cda_lsb,
  cda_compute_length, cda_compute_checksum, RuleField, Rule, CoapCodes,
}
use schc_work.Rules.Bits.{Bits}
use schc_work.Rules.Schc.{
  matches_fields, compress, decompress, restored, restored_as, valid_fields, valid_as,
}
use schc_work.Rules.Schc.Lossless.{both, decompress-compress}
use schc_work.Rules.Inner.{
  get_orange_labs_inner_rules, get_rule_40, get_rule_41, get_rule_42, get_rule_43, get_rule_44,
  get_rule_45, get_rule_46, get_rule_47, get_rule_48, get_rule_50, get_rule_51, get_rule_52,
  get_rule_53, get_rule_54, get_rule_55, get_rule_56,
}
use schc_work.Rules.Outer.{
  Addresses, get_orangelabs_outer_rules, add_ip_fields, add_udp_fields,
  ipv6_coap_oscore_request_rule, ipv6_coap_oscore_response_rule,
  ipv6_coap_oscore_observe_request_rule, ipv6_coap_oscore_observe_response_rule,
  ipv6_coap_oscore_observe_notif_rule, ipv6_coap_edhoc_request_rule, ipv6_coap_edhoc_response_rule,
  ipv6_udp_rule,
}
use schc_work.Rules.Template.{
  TemplateAddresses, tpl_get_template_rules, template_rule, ip_udp_fields, coap_fields,
}

-- The fields that the rules do not carry: the flow label and the hop limit are replaced by the
-- rule's, the lengths and the checksum are computed again.
pub is_rewritten : Fid → Bool
is_rewritten fid_ipv6_flow_label = true
is_rewritten fid_ipv6_hop_limit = true
is_rewritten fid_ipv6_payload_length = true
is_rewritten fid_udp_length = true
is_rewritten fid_udp_checksum = true
is_rewritten _ = false

-- A header that the rule matches comes back: as `restored` says, and with the value that it had in
-- every field but the rewritten ones; what follows the residue is left alone.
pub record IsLossless (r : Rule) (values : List Bits) : Type 0 where
  pub back :
      (rest : Bits)
      → decompress r.fields (compress r.fields values ++ rest)
        ≡ some (restored r.fields values, rest)
  pub kept :
      (i : ℕ) (f : RuleField) (v : Bits)
      → get_elem? r.fields i ≡ some f
      → get_elem? values i ≡ some v
      → is_rewritten f.fid ≡ false
      → get_elem? (restored r.fields values) i ≡ some (some v)

-- A field that brings its value through whatever it is.
is_exact : Cda → TargetValue → Mo → Bool
is_exact cda_compute_length t mo = false
is_exact cda_compute_checksum t mo = false
is_exact cda_not_sent (tv_bit_string s) mo_ignore = false
is_exact _ t mo = true

is_exact-restored_as :
    (cda : Cda) (t : TargetValue) (mo : Mo) (v : Bits)
    → is_exact cda t mo ≡ true
    → restored_as cda t mo v ≡ some v
unfolding is_exact restored_as
is_exact-restored_as cda_compute_length t mo v e = absurd (cc)
is_exact-restored_as cda_compute_checksum t mo v e = absurd (cc)
is_exact-restored_as cda_not_sent (tv_bit_string s) mo_ignore v e = absurd (cc)
is_exact-restored_as cda_not_sent (tv_bit_string s) mo_equal v e = refl
is_exact-restored_as cda_not_sent (tv_bit_string s) mo_mapping v e = refl
is_exact-restored_as cda_not_sent (tv_bit_string s) (mo_msb m) v e = refl
is_exact-restored_as cda_not_sent tv_none mo v e = refl
is_exact-restored_as cda_not_sent (tv_mapped_values values) mo v e = refl
is_exact-restored_as cda_value_sent t mo v e = refl
is_exact-restored_as cda_mapping_sent t mo v e = refl
is_exact-restored_as cda_lsb t mo v e = refl

only_rewritten : List RuleField → Bool
only_rewritten [] = true
only_rewritten (f ∷ fields) =
    (is_exact f.cda f.target f.mo || is_rewritten f.fid) && only_rewritten fields

check_rules : List Rule → Bool
check_rules [] = true
check_rules (r ∷ rules) = (valid_fields r.fields && only_rewritten r.fields) && check_rules rules

either : (a b : Bool) → (a || b) ≡ true → b ≡ false → a ≡ true
either true b e off = refl
either false true e off = absurd (cc)
either false false e off = absurd (cc)

restored-kept :
    (fields : List RuleField) (values : List Bits) (i : ℕ) (f : RuleField) (v : Bits)
    → only_rewritten fields ≡ true
    → get_elem? fields i ≡ some f
    → get_elem? values i ≡ some v
    → is_rewritten f.fid ≡ false
    → get_elem? (restored fields values) i ≡ some (some v)
unfolding only_rewritten restored
restored-kept [] values i f v only e e' kept = absurd (cc)
restored-kept (g ∷ fields) [] i f v only e e' kept = absurd (cc)
restored-kept (g ∷ fields) (w ∷ values) zero f v only e e' kept =
    let here =
      (both (is_exact g.cda g.target g.mo || is_rewritten g.fid) (only_rewritten fields) only).0 in
    let same : g ≡ f = cc in
    let value : w ≡ v = cc in
    let exact : is_exact g.cda g.target g.mo ≡ true =
      either (is_exact g.cda g.target g.mo) (is_rewritten g.fid) here (rw (sym same) at kept) in
    rw (is_exact-restored_as g.cda g.target g.mo w exact, value) refl
restored-kept (g ∷ fields) (w ∷ values) (suc i) f v only e e' kept =
    restored-kept fields values i f v
      (both (is_exact g.cda g.target g.mo || is_rewritten g.fid) (only_rewritten fields) only).1 e
      e' kept

-- Every header that a rule matches.
abbrev pub IsLosslessRule : Rule → Type 0
IsLosslessRule r =
    (values : List Bits) → matches_fields r.fields values ≡ true → IsLossless r values

checked-IsLossless : (rules : List Rule) → check_rules rules ≡ true → All IsLosslessRule rules
unfolding check_rules
checked-IsLossless [] e = tt
checked-IsLossless (r ∷ rules) e =
    let (here, later) =
      both (valid_fields r.fields && only_rewritten r.fields) (check_rules rules) e in
    let (valid, only) = both (valid_fields r.fields) (only_rewritten r.fields) here in
    (
      λ values match. record {
        back = λ rest. decompress-compress r.fields values rest valid match;
        kept = λ i f v at_f at_v. restored-kept r.fields values i f v only at_f at_v;
      },
      checked-IsLossless rules later,
    )

inner_rules-IsLossless :
    (codes : CoapCodes) → All IsLosslessRule (get_orange_labs_inner_rules codes).rules
unfolding get_orange_labs_inner_rules check_rules only_rewritten is_exact is_rewritten valid_fields
    valid_as get_rule_40 get_rule_41 get_rule_42 get_rule_43 get_rule_44 get_rule_45 get_rule_46
    get_rule_47 get_rule_48 get_rule_50 get_rule_51 get_rule_52 get_rule_53 get_rule_54 get_rule_55
    get_rule_56
inner_rules-IsLossless codes = checked-IsLossless (get_orange_labs_inner_rules codes).rules refl

outer_rules-IsLossless :
    (codes : CoapCodes) (a : Addresses)
    → All IsLosslessRule (get_orangelabs_outer_rules codes a).rules
unfolding get_orangelabs_outer_rules check_rules only_rewritten is_exact is_rewritten valid_fields
    valid_as add_ip_fields add_udp_fields ipv6_coap_oscore_request_rule
    ipv6_coap_oscore_response_rule ipv6_coap_oscore_observe_request_rule
    ipv6_coap_oscore_observe_response_rule ipv6_coap_oscore_observe_notif_rule
    ipv6_coap_edhoc_request_rule ipv6_coap_edhoc_response_rule ipv6_udp_rule
outer_rules-IsLossless codes a = checked-IsLossless (get_orangelabs_outer_rules codes a).rules refl

template_rules-IsLossless :
    (codes : CoapCodes) (a : TemplateAddresses)
    → All IsLosslessRule (tpl_get_template_rules codes a).rules
unfolding tpl_get_template_rules check_rules only_rewritten is_exact is_rewritten valid_fields
    valid_as template_rule ip_udp_fields coap_fields
template_rules-IsLossless codes a = checked-IsLossless (tpl_get_template_rules codes a).rules refl

-- For all codes of CoAP and all addresses and ports, every rule of get_orange_labs_inner_rules, of
-- get_orangelabs_outer_rules and of tpl_get_template_rules is lossless: a header that the rule
-- matches, compressed by it and followed by any bits, is decompressed with the same value in every
-- field that is not a flow label, a hop limit, a length or a checksum, and the bits that follow are
-- left.
pub rules-IsLossless :
    (codes : CoapCodes) (a : Addresses) (t : TemplateAddresses)
    → All IsLosslessRule (get_orange_labs_inner_rules codes).rules
      × All IsLosslessRule (get_orangelabs_outer_rules codes a).rules
      × All IsLosslessRule (tpl_get_template_rules codes t).rules
rules-IsLossless codes a t = (
  inner_rules-IsLossless codes,
  outer_rules-IsLossless codes a,
  template_rules-IsLossless codes t,
)
