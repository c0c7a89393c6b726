-- ===== src/SchcHelper/Staged/Settings.antt =====
-- The calls of the `with_` functions: each does what it is asked for.
use schc_work.Common.{
  u16, ℕ, zero, suc, ◌⊎◌, inl, inr, ◌<◌, ◌≡◌, refl, sym, ap, true, false, none, some, List, [], ◌∷◌,
  length, get_elem?, replicate, take, drop, Bytes, All, ltb, ◌>>=◌, arith, length-take, length-drop,
}
use schc_work.Common.Slices.{take_whole}
use schc_work.SchcHelper.{
  Helper, Staging, zero_staging, Libc, zero_param, with_mtu, with_sdk_mode, with_net_callbacks,
  strcpy, with_tunnel, put_param, with_ipv6_src_param, with_ipv6_dst_param, with_ipv6_udp_src_param,
  with_ipv6_udp_dst_param, clean_params, start_config, staged,
}
use schc_work.SchcHelper.Staged.{
  network_order, port_bytes-network_order, Setting, mtu, mode, tunnel, net_callbacks, ipv6_src,
  ipv6_dst, ipv6_udp_src, ipv6_udp_dst, Wanted, param_of, width, Fits, IsStaged, put,
  put_param-IsStaged, apply, apply_all, want, want_all,
}

strcpy_fits : (n : ℕ) (text : Bytes) → length text < n → strcpy n text ≡ some text
unfolding strcpy
strcpy_fits n text h = let fits : ltb (length text) n ≡ true = ground (arith, h) in rw fits refl

none_there : (n i : ℕ) (v : Bytes) → get_elem? (replicate n none) i ≡ some (some v) → ⊥
none_there zero i v e = cc
none_there (suc n) zero v e = cc
none_there (suc n) (suc i) v e = none_there n i v e

module _ {C : Type 0} where
  put_two :
      (s : Helper C) (w : Wanted C) (i j : ℕ) (front back : Bytes)
      → IsStaged s w
      → i < 50
      → j < 50
      → length front ≡ width i
      → length back ≡ width j
      → (s' : Helper C) × ((put_param s i front >>= λ s1. put_param s1 j back) ≡ some s')
        × IsStaged s' (put (put w i front) j back)
  put_two s w i j front back st hi hj li lj =
      let (s1, e1, st1) = put_param-IsStaged s w i front st hi li in
      let (s2, e2, st2) = put_param-IsStaged s1 (put w i front) j back st1 hj lj in
      (s2, rw e1 e2, st2)

  -- The sixteen bytes of an address as two parameters.
  put_halves :
      (s : Helper C) (w : Wanted C) (i j : ℕ) (addr : Bytes)
      → IsStaged s w
      → i < 4
      → j < 4
      → length addr ≡ 16
      → (s' : Helper C) × ((put_param s i (take 8 addr) >>= λ s1.
            put_param s1 j (take 8 (drop 8 addr)))
          ≡ some s')
        × IsStaged s' (put (put w i (take 8 addr)) j (drop 8 addr))
  unfolding width
  put_halves s w i j addr st hi hj sixteen =
      let back : length (drop 8 addr) ≡ 8 = omega (arith, length-drop 8 addr, sixteen) in
      let front : length (take 8 addr) ≡ 8 = length-take 8 addr (omega (arith, sixteen)) in
      let wi : length (take 8 addr) ≡ width i = ground (arith, front, hi) in
      let wj : length (drop 8 addr) ≡ width j = ground (arith, back, hj) in
      let (s', e, st') =
        put_two s w i j (take 8 addr) (drop 8 addr) st (omega (arith, hi)) (omega (arith, hj)) wi
          wj in
      (s', rw (take_whole (drop 8 addr) 8 (sym back)) e, st')

  apply-IsStaged :
      (libc : Libc) (x : Setting C) (s : Helper C) (w : Wanted C)
      → ((text : Bytes) → length (libc.inet_pton text) ≡ 16)
      → Fits x
      → IsStaged s w
      → (s' : Helper C) × (apply libc x s ≡ some s') × IsStaged s' (want libc x w)
  unfolding apply want Fits with_mtu with_sdk_mode with_net_callbacks with_tunnel
      with_ipv6_src_param with_ipv6_dst_param with_ipv6_udp_src_param with_ipv6_udp_dst_param width
      network_order
  apply-IsStaged libc (mtu n) s w sized fits st = (
    with_mtu s n,
    refl,
    record {
      started = st.started;
      has_params = st.has_params;
      staging = ap (λ (c : Staging C). record c { mtu = u16 n }) st.staging;
      params = st.params;
      slots = st.slots;
      widths = st.widths;
    },
  )
  apply-IsStaged libc (mode n) s w sized fits st = (
    with_sdk_mode s n,
    refl,
    record {
      started = st.started;
      has_params = st.has_params;
      staging = ap (λ (c : Staging C). record c { mode = n }) st.staging;
      params = st.params;
      slots = st.slots;
      widths = st.widths;
    },
  )
  apply-IsStaged libc (tunnel host host_port dst dst_port) s w sized (h1, h2, h3, h4) st =
      let c = s.staging_config in
      (
        record s {
          staging_config = record c {
            host_addr = record { addr = host; port = host_port };
            dst_addr = record { addr = dst; port = dst_port };
          };
        },
        rw
            (
              strcpy_fits 16 host h1,
              strcpy_fits 6 host_port h2,
              strcpy_fits 16 dst h3,
              strcpy_fits 6 dst_port h4,
            )
            refl,
        record {
          started = st.started;
          has_params = st.has_params;
          staging =
              ap
                (λ (c : Staging C). record c {
                  host_addr = record { addr = host; port = host_port };
                  dst_addr = record { addr = dst; port = dst_port };
                })
                st.staging;
          params = st.params;
          slots = st.slots;
          widths = st.widths;
        },
      )
  apply-IsStaged libc (net_callbacks k) s w sized fits st = (
    with_net_callbacks s k,
    refl,
    record {
      started = st.started;
      has_params = st.has_params;
      staging = ap (λ (c : Staging C). record c { net_callbacks = some k }) st.staging;
      params = st.params;
      slots = st.slots;
      widths = st.widths;
    },
  )
  apply-IsStaged libc (ipv6_src addr) s w sized fits st =
      put_halves s w 0 1 (libc.inet_pton addr) st (omega arith) (omega arith) (sized addr)
  apply-IsStaged libc (ipv6_dst addr) s w sized fits st =
      put_halves s w 2 3 (libc.inet_pton addr) st (omega arith) (omega arith) (sized addr)
  apply-IsStaged libc (ipv6_udp_src port) s w sized fits st =
      rw (port_bytes-network_order libc port)
        (put_param-IsStaged s w 4 (network_order (libc.atoi port)) st (omega arith) refl)
  apply-IsStaged libc (ipv6_udp_dst port) s w sized fits st =
      rw (port_bytes-network_order libc port)
        (put_param-IsStaged s w 5 (network_order (libc.atoi port)) st (omega arith) refl)

  pub apply_all-IsStaged :
      (libc : Libc) (settings : List (Setting C)) (s : Helper C) (w : Wanted C)
      → ((text : Bytes) → length (libc.inet_pton text) ≡ 16)
      → All Fits settings
      → IsStaged s w
      → (s' : Helper C) × (apply_all libc settings s ≡ some s')
        × IsStaged s' (want_all libc settings w)
  unfolding apply_all want_all
  apply_all-IsStaged libc [] s w sized fits st = (s, refl, st)
  apply_all-IsStaged libc (x ∷ settings) s w sized (here, later) st =
      let (s1, e1, st1) = apply-IsStaged libc x s w sized here st in
      let (s2, e2, st2) = apply_all-IsStaged libc settings s1 (want libc x w) sized later st1 in
      (s2, rw e1 e2, st2)

  -- A start is possible: nothing is left in the parameters, or they are there to be cleaned.
  unfoldable pub IsReady : Helper C → Type 0
  IsReady s =
      ((s.initialized ≡ true) × (s.has_params ≡ true))
      ⊎ ((s.initialized ≡ false) × (s.template_params ≡ replicate 50 zero_param))

  abbrev pub nothing_wanted : Wanted C
  nothing_wanted = record { staging = zero_staging; params = replicate 50 none }

  zeros-IsStaged :
      (s : Helper C)
      → s.template_params ≡ replicate 50 zero_param
      → IsStaged (staged s) nothing_wanted
  unfolding param_of
  zeros-IsStaged s zeros = record {
    started = refl;
    has_params = refl;
    staging = refl;
    params = zeros;
    slots = refl;
    widths = λ i v e. absurd (none_there 50 i v e);
  }

  pub start_config-IsStaged :
      (s : Helper C)
      → IsReady s
      → (s' : Helper C) × (start_config s ≡ some s') × IsStaged s' nothing_wanted
  unfolding IsReady start_config clean_params
  start_config-IsStaged s (inl (on, has)) =
      let cleaned = record s { template_params = replicate 50 zero_param } in
      (staged cleaned, rw (on, has) refl, zeros-IsStaged cleaned refl)
  start_config-IsStaged s (inr (off, zeros)) = (staged s, rw off refl, zeros-IsStaged s zeros)
