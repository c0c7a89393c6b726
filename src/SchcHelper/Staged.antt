-- ===== src/SchcHelper/Staged.antt =====
-- What is staged: the settings since the start, as a function of them.
pub mod Settings
use native.Mathlib.Numerals.{unary_clauses}
use mathlib.Core.List.{append-nil}
use schc_work.Common.{
  ℕ, zero, suc, ◌+◌, ◌-◌, ◌/◌, ◌%◌, ◌^◌, ◌≤◌, ◌<◌, ◌≡◌, ◌≢◌, refl, sym, ap, ◌∙◌, inl, inr, Bool,
  true, false, not, Option, none, some, List, [], ◌∷◌, ◌++◌, map, length, get_elem?, set, take,
  drop, replicate, Bytes, overwrite, u8, u16, ltb, leb, if◌then◌else◌, ◌>>=◌, arith, dec_lt,
  ℕ_discrete, length-replicate, length-set, get_elem?-set_self, get_elem?-set_ne, get_elem?_total,
  Bool-cases,
}
use schc_work.Common.Access.{overwrite_whole}
use schc_work.SchcHelper.{
  Param, zero_param, L2Addr, Staging, zero_staging, Helper, Libc, max_template_params,
  ipv4_str_max_len, udp_port_str_max_len, clean_params, staged, start_config, with_mtu,
  with_sdk_mode, with_net_callbacks, strcpy, with_tunnel, init_param, put_param,
  with_ipv6_src_param, with_ipv6_dst_param, port_bytes, with_ipv6_udp_src_param,
  with_ipv6_udp_dst_param,
}

-- A call of one of the `with_` functions.
pub data Setting (C : Type 0) : Type 0 where
  mtu mode : ℕ → Setting C
  tunnel : Bytes → Bytes → Bytes → Bytes → Setting C
  net_callbacks : C → Setting C
  ipv6_src ipv6_dst ipv6_udp_src ipv6_udp_dst : Bytes → Setting C

-- The configuration that is asked for, with the values of the parameters that are set.
pub record Wanted (C : Type 0) : Type 0 where
  pub staging : Staging C
  pub params : List (Option Bytes)

-- A parameter that is set to these bytes, or not set.
unfoldable pub param_of : Option Bytes → Param
param_of none = zero_param
param_of (some v) = record { value = some v; size = length v; initialized = true }

-- The last 16 bits of a number, the higher byte first.
unfoldable pub network_order : ℕ → Bytes
network_order port = port / 256 % 256 ∷ port % 256 ∷ []

pub port_bytes-network_order :
    (libc : Libc) (text : Bytes) → port_bytes libc text ≡ network_order (libc.atoi text)
unfolding port_bytes network_order
port_bytes-network_order libc text =
    let port = libc.atoi text in
    let high : port % 65536 / 256 % 256 ≡ port / 256 % 256 = omega arith in
    let low : port % 65536 % 256 ≡ port % 256 = omega arith in
    ap (λ h. h ∷ port % 65536 % 256 ∷ []) high ∙ ap (λ l. port / 256 % 256 ∷ l ∷ []) low

-- The sizes of the six parameters.
pub width : ℕ → ℕ
width i = if ltb i 4 then 8 else 2

-- The arrays of the tunnel have room for the strings.
unfoldable pub Fits : {C : Type 0} → Setting C → Type 0
Fits (tunnel host_addr host_port dst_addr dst_port) =
    (length host_addr < 16)
    × (length host_port < 6)
    × (length dst_addr < 16)
    × (length dst_port < 6)
Fits _ = Unit

pub get_elem?-map :
    (xs : List (Option Bytes)) (i : ℕ) (o : Option Bytes)
    → get_elem? xs i ≡ some o
    → get_elem? (map param_of xs) i ≡ some (param_of o)
get_elem?-map [] i o e = absurd (cc)
get_elem?-map (x ∷ xs) zero o e = let same : x ≡ o = cc in ap (λ y. some (param_of y)) same
get_elem?-map (x ∷ xs) (suc i) o e = get_elem?-map xs i o e

set-map :
    (xs : List (Option Bytes)) (i : ℕ) (o : Option Bytes)
    → set (map param_of xs) i (param_of o) ≡ map param_of (set xs i o)
set-map [] i o = refl
set-map (x ∷ xs) zero o = refl
set-map (x ∷ xs) (suc i) o = ap (λ ys. param_of x ∷ ys) (set-map xs i o)

-- The static variables hold what is wanted.
pub record IsStaged {C : Type 0} (s : Helper C) (w : Wanted C) : Type 0 where
  pub started : s.initialized ≡ true
  pub has_params : s.has_params ≡ true
  pub staging : s.staging_config ≡ w.staging
  pub params : s.template_params ≡ map param_of w.params
  pub slots : length w.params ≡ 50
  pub widths : (i : ℕ) (v : Bytes) → get_elem? w.params i ≡ some (some v) → length v ≡ width i

filled_block :
    (o : Option Bytes) (bytes : Bytes)
    → ((v : Bytes) → o ≡ some v → length v ≡ length bytes)
    → (block : Bytes) × ((init_param (param_of o) (length bytes)).value ≡ some block)
      × (overwrite block 0 bytes ≡ some bytes)
      × ((init_param (param_of o) (length bytes)).size ≡ length bytes)
      × ((init_param (param_of o) (length bytes)).initialized ≡ true)
unfolding init_param param_of
filled_block none bytes h = (
  replicate (length bytes) 0,
  refl,
  overwrite_whole (replicate (length bytes) 0) bytes (length-replicate (length bytes) 0),
  refl,
  refl,
)
filled_block (some v) bytes h = (v, refl, overwrite_whole v bytes (h v refl), refl, refl)

set_widths :
    (xs : List (Option Bytes)) (i : ℕ) (bytes : Bytes)
    → ((j : ℕ) (v : Bytes) → get_elem? xs j ≡ some (some v) → length v ≡ width j)
    → i < length xs
    → length bytes ≡ width i
    → (j : ℕ) (v : Bytes) → get_elem? (set xs i (some bytes)) j ≡ some (some v)
    → length v ≡ width j
set_widths xs i bytes h inside wide j v e = elim (ℕ_discrete i j) [
  | yes same ↦
      let here : get_elem? (set xs i (some bytes)) i ≡ some (some v) =
        ap (λ k. get_elem? (set xs i (some bytes)) k) same ∙ e in
      let value : bytes ≡ v = cc (get_elem?-set_self xs i (some bytes) inside, here) in
      ap (λ b. length b) (sym value) ∙ (wide ∙ ap (λ k. width k) same)
  | no other ↦ h j v (sym (get_elem?-set_ne xs i j (some bytes) other) ∙ e)
]

-- The code's new values where everything that it computes is known.
put_step :
    {C : Type 0} (s : Helper C) (params : List Param) (i : ℕ) (bytes : Bytes) (p : Param)
    (block : Bytes)
    → s.has_params ≡ true
    → s.template_params ≡ params
    → get_elem? params i ≡ some p
    → (init_param p (length bytes)).value ≡ some block
    → overwrite block 0 bytes ≡ some bytes
    → (init_param p (length bytes)).size ≡ length bytes
    → (init_param p (length bytes)).initialized ≡ true
    → put_param s i bytes
      ≡ some (record s { template_params = set params i (param_of (some bytes)) })
unfolding put_param param_of
put_step s params i bytes p block has at there value full sized on =
    rw (has, at, there, value, full, sized, on) refl

module _ {C : Type 0} where
  abbrev pub put : Wanted C → ℕ → Bytes → Wanted C
  put w i v = record { staging = w.staging; params = set w.params i (some v) }

  -- One parameter is set.
  pub put_param-IsStaged :
      (s : Helper C) (w : Wanted C) (i : ℕ) (bytes : Bytes)
      → IsStaged s w
      → i < 50
      → length bytes ≡ width i
      → (s' : Helper C) × (put_param s i bytes ≡ some s') × IsStaged s' (put w i bytes)
  put_param-IsStaged s w i bytes st h wide =
      let inside : i < length w.params = omega (arith, st.slots, h) in
      let (o, at) = get_elem?_total w.params i inside in
      let (block, value, full, sized, on) =
        filled_block o bytes (λ v e. st.widths i v (at ∙ ap (λ x. some x) e) ∙ sym wide) in
      (
        record s { template_params = set (map param_of w.params) i (param_of (some bytes)) },
        put_step s (map param_of w.params) i bytes (param_of o) block st.has_params st.params
            (get_elem?-map w.params i o at) value full sized on,
        record {
          started = st.started;
          has_params = st.has_params;
          staging = st.staging;
          params = set-map w.params i (some bytes);
          slots = length-set w.params i (some bytes) ∙ st.slots;
          widths = set_widths w.params i bytes st.widths inside wide;
        },
      )

  -- The settings by the code, and what they ask for.
  pub apply : Libc → Setting C → Helper C → Option (Helper C)
  apply libc (mtu n) s = some (with_mtu s n)
  apply libc (mode n) s = some (with_sdk_mode s n)
  apply libc (tunnel host_addr host_port dst_addr dst_port) s =
      with_tunnel s host_addr host_port dst_addr dst_port
  apply libc (net_callbacks c) s = some (with_net_callbacks s c)
  apply libc (ipv6_src addr) s = with_ipv6_src_param libc s addr
  apply libc (ipv6_dst addr) s = with_ipv6_dst_param libc s addr
  apply libc (ipv6_udp_src port) s = with_ipv6_udp_src_param libc s port
  apply libc (ipv6_udp_dst port) s = with_ipv6_udp_dst_param libc s port

  pub apply_all : Libc → List (Setting C) → Helper C → Option (Helper C)
  apply_all libc [] s = some s
  apply_all libc (x ∷ settings) s = do s' ← apply libc x s; apply_all libc settings s'

  pub want : Libc → Setting C → Wanted C → Wanted C
  want libc (mtu n) w = let c = w.staging in record w { staging = record c { mtu = u16 n } }
  want libc (mode n) w = let c = w.staging in record w { staging = record c { mode = n } }
  want libc (tunnel host_addr host_port dst_addr dst_port) w =
      let c = w.staging in
      record w {
        staging = record c {
          host_addr = record { addr = host_addr; port = host_port };
          dst_addr = record { addr = dst_addr; port = dst_port };
        };
      }
  want libc (net_callbacks k) w =
      let c = w.staging in record w { staging = record c { net_callbacks = some k } }
  want libc (ipv6_src addr) w =
      let bytes = libc.inet_pton addr in put (put w 0 (take 8 bytes)) 1 (drop 8 bytes)
  want libc (ipv6_dst addr) w =
      let bytes = libc.inet_pton addr in put (put w 2 (take 8 bytes)) 3 (drop 8 bytes)
  want libc (ipv6_udp_src port) w = put w 4 (network_order (libc.atoi port))
  want libc (ipv6_udp_dst port) w = put w 5 (network_order (libc.atoi port))

  pub want_all : Libc → List (Setting C) → Wanted C → Wanted C
  want_all libc [] w = w
  want_all libc (x ∷ settings) w = want_all libc settings (want libc x w)
