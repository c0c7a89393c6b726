-- ===== src/SchcHelper/Null.antt =====
-- The helper before its first start.
use schc_work.Common.{ℕ, ◌≡◌, refl, false, none, Bytes, take}
use schc_work.SchcHelper.{
  Helper, Libc, Answers, put_param, with_ipv6_src_param, with_ipv6_dst_param, port_bytes,
  with_ipv6_udp_src_param, with_ipv6_udp_dst_param, clean_params, finish, config_schc,
}

put_param_null :
    {C : Type 0} (s : Helper C) (i : ℕ) (bytes : Bytes)
    → s.has_params ≡ false
    → put_param s i bytes ≡ none
unfolding put_param
put_param_null s i bytes null = rw null refl

-- Where no configuration was ever started, config_schc and the four functions that set a parameter
-- dereference a null pointer.
pub config_schc_null :
    {C : Type 0} (libc : Libc) (answers : Answers) (s : Helper C) (text : Bytes)
    → s.initialized ≡ false
    → s.has_params ≡ false
    → (config_schc answers s ≡ none)
      × (with_ipv6_src_param libc s text ≡ none)
      × (with_ipv6_dst_param libc s text ≡ none)
      × (with_ipv6_udp_src_param libc s text ≡ none)
      × (with_ipv6_udp_dst_param libc s text ≡ none)
unfolding config_schc finish clean_params with_ipv6_src_param with_ipv6_dst_param
    with_ipv6_udp_src_param with_ipv6_udp_dst_param
config_schc_null libc answers s text off null = (
  rw (off, null) refl,
  rw (put_param_null s 0 (take 8 (libc.inet_pton text)) null) refl,
  rw (put_param_null s 2 (take 8 (libc.inet_pton text)) null) refl,
  put_param_null s 4 (port_bytes libc text) null,
  put_param_null s 5 (port_bytes libc text) null,
)
