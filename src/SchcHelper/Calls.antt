-- ===== src/SchcHelper/Calls.antt =====
-- What `config_schc` tells the SDK, and the ways through it where what it asks is known.
use schc_work.Common.{
  ℕ, zero, suc, ◌+◌, ◌≤◌, ◌≡◌, refl, inl, inr, Bool, true, false, Option, none, some, List, [], ◌∷◌,
  ◌++◌, map, length, get_elem?, replicate, Bytes, u8, arith, Bool-cases, get_elem?_total,
}
use schc_work.SchcHelper.{
  ConfigResult, schc_config_ok, schc_config_ko, Param, zero_param, Helper, Call, timer_init,
  l2_set_mtu, l2_set_ipv4_host_addr, l2_set_ipv4_remote_addr, l2_set_udp_src_port,
  l2_set_udp_dest_port, mgt_set_mode, mgt_initialize, mgt_set_template_param, net_initialize,
  Answers, clean_params, set_params, setup_calls, finish, after_params, config_schc,
}
use schc_work.SchcHelper.Staged.{Wanted, param_of, get_elem?-map}

module _ {C : Type 0} where
  -- The calls for the parameters from `i` on, `n` of them.
  pub param_call : ℕ → Option (Option Bytes) → List (Call C) → List (Call C)
  param_call i (some (some v)) calls = mgt_set_template_param i (some v) (length v) ∷ calls
  param_call i _ calls = calls

  pub param_calls : List (Option Bytes) → ℕ → ℕ → List (Call C)
  param_calls xs i zero = []
  param_calls xs i (suc n) = param_call i (get_elem? xs i) (param_calls xs (i + 1) n)

  -- What the SDK is to be told of a configuration, for a template of `n` parameters: three timers,
  -- the lower layer's maximal size and both ends of its tunnel, the mode, then the parameters
  -- between the two initializations.
  unfoldable pub wanted_calls : Wanted C → ℕ → List (Call C)
  wanted_calls w n =
      (timer_init 0
        ∷ timer_init 1
        ∷ timer_init 2
        ∷ l2_set_mtu w.staging.mtu
        ∷ l2_set_ipv4_host_addr w.staging.host_addr.addr
        ∷ l2_set_ipv4_remote_addr w.staging.dst_addr.addr
        ∷ l2_set_udp_src_port w.staging.host_addr.port
        ∷ l2_set_udp_dest_port w.staging.dst_addr.port
        ∷ mgt_set_mode w.staging.mode
        ∷ mgt_initialize
        ∷ param_calls w.params 0 n)
      ++ net_initialize w.staging.net_callbacks ∷ []

  pub set_params-calls :
      (answers : Answers) (xs : List (Option Bytes)) (i n : ℕ)
      → ((j : ℕ) → answers.set_param_ok j ≡ true)
      → i + n ≤ length xs
      → set_params answers (map param_of xs) i n ≡ some (true, param_calls xs i n)
  unfolding set_params param_calls param_call param_of
  set_params-calls answers xs i zero all h = refl
  set_params-calls answers xs i (suc n) all h =
      let (o, at) = get_elem?_total xs i (omega (arith, h)) in
      step answers xs i n o at (all i)
        (set_params-calls answers xs (i + 1) n all (omega (arith, h)))
    where
      step :
          (answers : Answers) (xs : List (Option Bytes)) (i n : ℕ) (o : Option Bytes)
          → get_elem? xs i ≡ some o
          → answers.set_param_ok i ≡ true
          → set_params answers (map param_of xs) (i + 1) n ≡ some (true, param_calls xs (i + 1) n)
          → set_params answers (map param_of xs) i (suc n) ≡ some (true, param_calls xs i (suc n))
      step answers xs i n none at good later = rw (get_elem?-map xs i none at, at) later
      step answers xs i n (some v) at good later =
          rw (get_elem?-map xs i (some v) at, at, good, later) refl

  -- Whatever the SDK answers, the loop stays inside the array.
  pub set_params_total :
      (answers : Answers) (params : List Param) (i n : ℕ)
      → i + n ≤ length params
      → (st : Bool) × (calls : List (Call C)) × (set_params answers params i n ≡ some (st, calls))
  unfolding set_params
  set_params_total answers params i zero h = (true, [], refl)
  set_params_total answers params i (suc n) h =
      let (p, at) = get_elem?_total params i (omega (arith, h)) in
      let (st, calls, later) = set_params_total answers params (i + 1) n (omega (arith, h)) in
      step answers params i n p st calls at later
    where
      step :
          (answers : Answers) (params : List Param) (i n : ℕ) (p : Param) (st : Bool)
          (calls : List (Call C))
          → get_elem? params i ≡ some p
          → set_params answers params (i + 1) n ≡ some (st, calls)
          → (st : Bool) × (calls : List (Call C)) × (set_params answers params i (suc n)
              ≡ some (st, calls))
      step answers params i n p st calls at later = elim (Bool-cases p.initialized) [
        | inr off ↦ (st, calls, rw (at, off) later)
        | inl on ↦ elim (Bool-cases (answers.set_param_ok i)) [
          | inr bad ↦ (false, mgt_set_template_param i p.value p.size ∷ [], rw (at, on, bad) refl)
          | inl good ↦
              (st, mgt_set_template_param i p.value p.size ∷ calls, rw (at, on, good, later) refl)
        ]
      ]

  abbrev pub cleaned : Helper C → Helper C
  cleaned s = record s { initialized = false; template_params = replicate 50 zero_param }

  pub finish-cleaned :
      (res : ConfigResult) (calls : List (Call C)) (s : Helper C)
      → s.has_params ≡ true
      → finish res calls s ≡ some (res, calls, cleaned s)
  unfolding finish clean_params
  finish-cleaned res calls s has = rw has refl

  -- The way through the code where what it asks is known.
  pub net_failed :
      (answers : Answers) (s : Helper C) (calls : List (Call C))
      → answers.net_ok ≡ false
      → after_params answers s calls true
        ≡ some (schc_config_ko, calls ++ net_initialize s.staging_config.net_callbacks ∷ [], s)
  unfolding after_params
  net_failed answers s calls e = rw e refl

  pub net_started :
      (answers : Answers) (s : Helper C) (calls : List (Call C))
      → answers.net_ok ≡ true
      → after_params answers s calls true
        ≡ finish schc_config_ok (calls ++ net_initialize s.staging_config.net_callbacks ∷ []) s
  unfolding after_params
  net_started answers s calls e = rw e refl

  abbrev pub first_calls : Helper C → List (Call C)
  first_calls s = setup_calls s.staging_config ++ mgt_initialize ∷ []

  pub not_initialized :
      (answers : Answers) (s : Helper C)
      → s.initialized ≡ true
      → answers.initialize_ok ≡ false
      → config_schc answers s ≡ finish schc_config_ko (first_calls s) s
  unfolding config_schc
  not_initialized answers s on bad = rw (bad, on) refl

  pub params_sent :
      (answers : Answers) (s : Helper C) (n : ℕ) (st : Bool) (calls : List (Call C))
      → s.initialized ≡ true
      → answers.initialize_ok ≡ true
      → u8 answers.nb_params ≡ n
      → set_params answers s.template_params 0 n ≡ some (st, calls)
      → config_schc answers s ≡ after_params answers s (first_calls s ++ calls) st
  unfolding config_schc
  params_sent answers s n st calls on good number e = rw (number, e, good, on) refl
