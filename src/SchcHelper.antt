-- ===== src/SchcHelper.antt =====
-- libs/schc_commons/src/schc_helper.c: the configuration of the SDK, staged in static variables,
-- with L2_STACK_udp. A pointer to a heap block is the block's bytes, `none` for NULL.
pub mod Staged
pub mod Calls
pub mod Config
pub mod Null
mod Tests
use schc_work.Common.{
  ℕ, zero, suc, ◌+◌, ◌/◌, ◌%◌, ◌^◌, Bool, true, false, not, Option, none, some, List, [], ◌∷◌, ◌++◌,
  length, get_elem?, set, take, drop, replicate, Bytes, overwrite, u8, u16, ltb, if◌then◌else◌,
  ◌>>=◌,
}

abbrev pub max_template_params : ℕ
max_template_params = 50

abbrev pub ipv4_str_max_len : ℕ
ipv4_str_max_len = 16

abbrev pub udp_port_str_max_len : ℕ
udp_port_str_max_len = 6

-- `schc_config_result_t`
pub data ConfigResult : Type 0 where
  schc_config_ok schc_config_ko : ConfigResult

-- `schc_template_param_t`
pub record Param : Type 0 where
  pub value : Option Bytes
  pub size : ℕ
  pub initialized : Bool

-- A parameter after `memset` to 0.
abbrev pub zero_param : Param
zero_param = record { value = none; size = 0; initialized = false }

-- `l2_addr_t`, as the strings in the two arrays.
pub record L2Addr : Type 0 where
  pub addr : Bytes
  pub port : Bytes

-- `schc_config_t` but its parameters. `C` is what the caller hands over as network callbacks.
pub record Staging (C : Type 0) : Type 0 where
  pub mtu : ℕ
  pub host_addr : L2Addr
  pub dst_addr : L2Addr
  pub net_callbacks : Option C
  pub mode : ℕ

abbrev pub no_addr : L2Addr
no_addr = record { addr = []; port = [] }

abbrev pub zero_staging : {C : Type 0} → Staging C
zero_staging = record {
  mtu = 0;
  host_addr = no_addr;
  dst_addr = no_addr;
  net_callbacks = none;
  mode = 0;
}

-- The static variables. `has_params` tells whether `staging_config.params` is `template_params`; it
-- is NULL before the first start.
pub record Helper (C : Type 0) : Type 0 where
  pub initialized : Bool
  pub staging_config : Staging C
  pub has_params : Bool
  pub template_params : List Param

-- The variables at the start of the program.
abbrev pub initial : {C : Type 0} → Helper C
initial = record {
  initialized = false;
  staging_config = zero_staging;
  has_params = false;
  template_params = replicate 50 zero_param;
}

-- What the helper calls.
pub data Call (C : Type 0) : Type 0 where
  timer_init l2_set_mtu mgt_set_mode : ℕ → Call C
  l2_set_ipv4_host_addr l2_set_ipv4_remote_addr l2_set_udp_src_port l2_set_udp_dest_port :
      Bytes → Call C
  mgt_initialize : Call C
  mgt_set_template_param : ℕ → Option Bytes → ℕ → Call C
  net_initialize : Option C → Call C

-- `inet_pton` gives the sixteen bytes that the destination holds afterwards, `atoi` a number.
pub record Libc : Type 0 where
  pub inet_pton : Bytes → Bytes
  pub atoi : Bytes → ℕ

-- What the SDK answers: whether a call succeeds, and the number of parameters of the template.
pub record Answers : Type 0 where
  pub initialize_ok : Bool
  pub nb_params : ℕ
  pub set_param_ok : ℕ → Bool
  pub net_ok : Bool

-- `strcpy` into an array of `n` characters.
pub strcpy : ℕ → Bytes → Option Bytes
strcpy n text = if ltb (length text) n then some text else none

-- `INIT_PARAM`
pub init_param : Param → ℕ → Param
init_param p size =
    if p.initialized
    then record p { size = size }
    else record { value = some (replicate size 0); size = size; initialized = true }

-- The bytes of `htons(atoi(text))` in memory.
pub port_bytes : Libc → Bytes → Bytes
port_bytes libc text = let port = u16 (libc.atoi text) in u8 (port / 256) ∷ u8 port ∷ []

module _ {C : Type 0} where
  -- `free` and `memset` of all parameters; a null pointer in place of the array is dereferenced.
  pub clean_params : Helper C → Option (Helper C)
  clean_params s =
      if s.has_params
      then some (record s { template_params = replicate max_template_params zero_param })
      else none

  abbrev pub staged : Helper C → Helper C
  staged s = record s { initialized = true; staging_config = zero_staging; has_params = true }

  pub start_config : Helper C → Option (Helper C)
  start_config s =
      if not s.initialized
      then some (staged s)
      else do cleaned ← clean_params s; some (staged cleaned)

  -- The parameter is a `uint16_t`.
  pub with_mtu : Helper C → ℕ → Helper C
  with_mtu s mtu =
      let c = s.staging_config in record s { staging_config = record c { mtu = u16 mtu } }

  pub with_sdk_mode : Helper C → ℕ → Helper C
  with_sdk_mode s mode =
      let c = s.staging_config in record s { staging_config = record c { mode = mode } }

  pub with_net_callbacks : Helper C → C → Helper C
  with_net_callbacks s callbacks =
      let c = s.staging_config in
      record s { staging_config = record c { net_callbacks = some callbacks } }

  pub with_tunnel : Helper C → Bytes → Bytes → Bytes → Bytes → Option (Helper C)
  with_tunnel s host_addr host_port dst_addr dst_port = do
    host ← strcpy ipv4_str_max_len host_addr
    host_udp ← strcpy udp_port_str_max_len host_port
    dst ← strcpy ipv4_str_max_len dst_addr
    dst_udp ← strcpy udp_port_str_max_len dst_port
    let c = s.staging_config
    some (record s {
      staging_config = record c {
        host_addr = record { addr = host; port = host_udp };
        dst_addr = record { addr = dst; port = dst_udp };
      };
    })

  -- `INIT_PARAM` of the parameter `i` and the `memcpy` to it.
  pub put_param : Helper C → ℕ → Bytes → Option (Helper C)
  put_param s i bytes = if not s.has_params then none else do
    p ← get_elem? s.template_params i
    let q = init_param p (length bytes)
    block ← q.value
    filled ← overwrite block 0 bytes
    some (record s { template_params = set s.template_params i (record q { value = some filled }) })

  pub with_ipv6_src_param : Libc → Helper C → Bytes → Option (Helper C)
  with_ipv6_src_param libc s dev_addr = do
    let src_addr = libc.inet_pton dev_addr
    s1 ← put_param s 0 (take 8 src_addr)
    put_param s1 1 (take 8 (drop 8 src_addr))

  pub with_ipv6_dst_param : Libc → Helper C → Bytes → Option (Helper C)
  with_ipv6_dst_param libc s app_addr = do
    let dst_addr = libc.inet_pton app_addr
    s1 ← put_param s 2 (take 8 dst_addr)
    put_param s1 3 (take 8 (drop 8 dst_addr))

  pub with_ipv6_udp_src_param : Libc → Helper C → Bytes → Option (Helper C)
  with_ipv6_udp_src_param libc s src_param = put_param s 4 (port_bytes libc src_param)

  pub with_ipv6_udp_dst_param : Libc → Helper C → Bytes → Option (Helper C)
  with_ipv6_udp_dst_param libc s dst_param = put_param s 5 (port_bytes libc dst_param)

  -- The loop over the parameters from `i` on, `n` of them: whether all calls succeed, and the calls.
  pub set_params : Answers → List Param → ℕ → ℕ → Option (Bool × List (Call C))
  set_params answers params i zero = some (true, [])
  set_params answers params i (suc n) =
      let later = set_params answers params (i + 1) n in
      do
        p ← get_elem? params i
        if not p.initialized
            then later
            else if not (answers.set_param_ok i)
            then some (false, mgt_set_template_param i p.value p.size ∷ [])
            else do (st, calls) ← later; some (st, mgt_set_template_param i p.value p.size ∷ calls)

  -- The calls up to `mgt_set_mode`.
  pub setup_calls : Staging C → List (Call C)
  setup_calls c =
      timer_init 0
      ∷ timer_init 1
      ∷ timer_init 2
      ∷ l2_set_mtu c.mtu
      ∷ l2_set_ipv4_host_addr c.host_addr.addr
      ∷ l2_set_ipv4_remote_addr c.dst_addr.addr
      ∷ l2_set_udp_src_port c.host_addr.port
      ∷ l2_set_udp_dest_port c.dst_addr.port
      ∷ mgt_set_mode c.mode
      ∷ []

  -- Both labels of `config_schc`.
  pub finish :
      ConfigResult → List (Call C) → Helper C → Option (ConfigResult × List (Call C) × Helper C)
  finish res calls s = do
    cleaned ← clean_params s
    some (res, calls, record cleaned { initialized = false })

  pub after_params :
      Answers → Helper C → List (Call C) → Bool → Option (ConfigResult × List (Call C) × Helper C)
  after_params answers s calls set_all =
      let all_calls = calls ++ net_initialize s.staging_config.net_callbacks ∷ [] in
      if not set_all
      then finish schc_config_ko calls s
      else if not answers.net_ok
      then some (schc_config_ko, all_calls, s)
      else finish schc_config_ok all_calls s

  pub config_schc : Answers → Helper C → Option (ConfigResult × List (Call C) × Helper C)
  config_schc answers s =
      let calls = setup_calls s.staging_config ++ mgt_initialize ∷ [] in
      if not s.initialized
      then finish schc_config_ko [] s
      else if not answers.initialize_ok
      then finish schc_config_ko calls s
      else do
        (set_all, set_calls) ← set_params answers s.template_params 0 (u8 answers.nb_params)
        after_params answers s (calls ++ set_calls) set_all
