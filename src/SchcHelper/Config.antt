-- ===== src/SchcHelper/Config.antt =====
-- `config_schc` on what is staged: what the SDK is told, and how the call ends.
use mathlib.Core.Path.{subst}
use schc_work.Common.{
  ℕ, suc, ◌≤◌, ◌≡◌, refl, sym, ap, ◌∙◌, ◌⊎◌, inl, inr, Bool, true, false, Option, some, List, [],
  ◌∷◌, ◌++◌, map, length, Bytes, All, u8, arith, Bool-cases,
}
use schc_work.SchcHelper.{
  ConfigResult, schc_config_ok, schc_config_ko, Staging, Helper, Call, mgt_initialize,
  net_initialize, Libc, Answers, start_config, set_params, setup_calls, finish, after_params,
  config_schc,
}
use schc_work.SchcHelper.Staged.{Setting, Wanted, param_of, Fits, IsStaged, apply_all, want_all}
use schc_work.SchcHelper.Staged.Settings.{
  IsReady, nothing_wanted, start_config-IsStaged, apply_all-IsStaged,
}
use schc_work.SchcHelper.Calls.{
  wanted_calls, param_calls, set_params-calls, set_params_total, cleaned, finish-cleaned,
  net_failed, net_started, first_calls, not_initialized, params_sent,
}

module _ {C : Type 0} where
  -- How a call ends: with all parameters released, or, where net_initialize fails, as it was.
  pub Ends : Answers → Helper C → ConfigResult → Helper C → Type 0
  Ends answers s res s' =
      (s' ≡ cleaned s) ⊎ ((res ≡ schc_config_ko) × (answers.net_ok ≡ false) × (s' ≡ s))

  HasEnded : Answers → Helper C → Option (ConfigResult × List (Call C) × Helper C) → Type 0
  HasEnded answers s r =
      (res : ConfigResult) × (calls : List (Call C)) × (s' : Helper C) × (r ≡ some (res, calls, s'))
      × Ends answers s res s'
      × IsReady s'

  finish-HasEnded :
      (answers : Answers) (res : ConfigResult) (calls : List (Call C)) (s : Helper C)
      → s.has_params ≡ true
      → HasEnded answers s (finish res calls s)
  unfolding Ends IsReady HasEnded
  finish-HasEnded answers res calls s has =
      (res, calls, cleaned s, finish-cleaned res calls s has, inl refl, inr (refl, refl))

  HasEnded-by :
      (answers : Answers) (s : Helper C) (r r' : Option (ConfigResult × List (Call C) × Helper C))
      → r ≡ r'
      → HasEnded answers s r'
      → HasEnded answers s r
  HasEnded-by answers s r r' e h = subst (HasEnded answers s) (sym e) h

  after_params-HasEnded :
      (answers : Answers) (s : Helper C) (calls : List (Call C)) (set_all : Bool)
      → s.initialized ≡ true
      → s.has_params ≡ true
      → HasEnded answers s (after_params answers s calls set_all)
  unfolding after_params HasEnded Ends IsReady
  after_params-HasEnded answers s calls false on has =
      finish-HasEnded answers schc_config_ko calls s has
  after_params-HasEnded answers s calls true on has =
      let all_calls = calls ++ net_initialize s.staging_config.net_callbacks ∷ [] in
      elim (Bool-cases answers.net_ok) [
        | inl good ↦
            HasEnded-by answers s (after_params answers s calls true)
              (finish schc_config_ok all_calls s) (net_started answers s calls good)
              (finish-HasEnded answers schc_config_ok all_calls s has)
        | inr bad ↦ (
          schc_config_ko,
          all_calls,
          s,
          net_failed answers s calls bad,
          inr (refl, bad, refl),
          inl (on, has),
        )
      ]

  -- A staged configuration and a template of at most 50 parameters, whatever the SDK answers:
  -- config_schc returns, with all parameters released and the configuration ended, or, only with an
  -- error and where net_initialize fails, with everything as it was; a new start is possible.
  pub config_schc-Ends :
      (answers : Answers) (s : Helper C) (w : Wanted C)
      → IsStaged s w
      → answers.nb_params ≤ 50
      → (res : ConfigResult) × (calls : List (Call C)) × (s' : Helper C) × (config_schc answers s
          ≡ some (res, calls, s'))
        × Ends answers s res s'
        × IsReady s'
  unfolding HasEnded
  config_schc-Ends answers s w st small = elim (Bool-cases answers.initialize_ok) [
    | inr bad ↦
        HasEnded-by answers s (config_schc answers s) (finish schc_config_ko (first_calls s) s)
          (not_initialized answers s st.started bad)
          (finish-HasEnded answers schc_config_ko (first_calls s) s st.has_params)
    | inl good ↦
        let number : u8 answers.nb_params ≡ answers.nb_params = omega (arith, small) in
        let slots : length s.template_params ≡ 50 =
          ap (λ ps. length ps) st.params ∙ (map_length w.params ∙ st.slots) in
        let (all_set, set_calls, e) =
          set_params_total answers s.template_params 0 answers.nb_params
            (omega (arith, slots, small)) in
        HasEnded-by answers s (config_schc answers s)
          (after_params answers s (first_calls s ++ set_calls) all_set)
          (params_sent answers s answers.nb_params all_set set_calls st.started good number e)
          (after_params-HasEnded answers s (first_calls s ++ set_calls) all_set st.started
            st.has_params)
  ]
    where
      map_length : (xs : List (Option Bytes)) → length (map param_of xs) ≡ length xs
      map_length [] = refl
      map_length (x ∷ xs) = ap suc (map_length xs)

  -- For an inet_pton that fills the sixteen bytes of an address, a state in which nothing is left of
  -- an earlier configuration or its parameters can be cleaned, settings whose strings fit their
  -- arrays, an SDK that accepts every call, and a template of at most 50 parameters: after
  -- start_config and the calls for the settings, in any order and number, config_schc is ok and
  -- tells the SDK the last value of each setting and of each parameter that was set, and no other
  -- parameter; and a new start is possible.
  pub config_schc-refines :
      (libc : Libc) (answers : Answers) (settings : List (Setting C)) (s : Helper C)
      → ((text : Bytes) → length (libc.inet_pton text) ≡ 16)
      → IsReady s
      → All Fits settings
      → answers.initialize_ok ≡ true
      → ((i : ℕ) → answers.set_param_ok i ≡ true)
      → answers.net_ok ≡ true
      → answers.nb_params ≤ 50
      → (s1 : Helper C) × (s2 : Helper C) × (start_config s ≡ some s1)
        × (apply_all libc settings s1 ≡ some s2)
        × (config_schc answers s2
            ≡ some (
              schc_config_ok,
              wanted_calls (want_all libc settings nothing_wanted) answers.nb_params,
              cleaned s2,
            ))
        × IsReady (cleaned s2)
  unfolding wanted_calls IsReady setup_calls
  config_schc-refines libc answers settings s sized ready fits init_ok set_ok net_ok small =
      let (s1, e1, st1) = start_config-IsStaged s ready in
      let (s2, e2, st2) = apply_all-IsStaged libc settings s1 nothing_wanted sized fits st1 in
      let w = want_all libc settings nothing_wanted in
      (
        s1,
        s2,
        e1,
        e2,
        params_sent answers s2 answers.nb_params true (param_calls w.params 0 answers.nb_params)
              st2.started init_ok (omega (arith, small))
              (ap (λ ps. set_params answers ps 0 answers.nb_params) st2.params
                ∙ set_params-calls answers w.params 0 answers.nb_params set_ok
                    (omega (arith, st2.slots, small)))
            ∙ (net_started answers s2 (first_calls s2 ++ param_calls w.params 0 answers.nb_params)
                  net_ok
                ∙ (finish-cleaned schc_config_ok
                      ((first_calls s2 ++ param_calls w.params 0 answers.nb_params)
                        ++ net_initialize s2.staging_config.net_callbacks ∷ [])
                      s2 st2.has_params
                    ∙ ap
                        (λ (c : Staging C). some (
                          schc_config_ok,
                          ((setup_calls c ++ mgt_initialize ∷ [])
                                ++ param_calls w.params 0 answers.nb_params)
                              ++ net_initialize c.net_callbacks ∷ [],
                          cleaned s2,
                        ))
                        st2.staging)),
        inr (refl, refl),
      )
