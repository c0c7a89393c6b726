-- ===== src/SchcHelper/Tests.antt =====
-- A configuration, and the theorems at it.
use schc_work.Common.{
  ℕ, ◌≡◌, refl, true, false, inr, some, List, [], ◌∷◌, ◌++◌, All, arith, replicate,
}
use schc_work.SchcHelper.{
  ConfigResult, schc_config_ok, Helper, initial, Call, Libc, Answers, start_config, config_schc,
}
use schc_work.SchcHelper.Staged.{
  Setting, mtu, mode, tunnel, ipv6_src, ipv6_udp_src, Fits, apply_all, want_all,
}
use schc_work.SchcHelper.Staged.Settings.{IsReady, nothing_wanted, start_config-IsStaged}
use schc_work.SchcHelper.Calls.{wanted_calls, cleaned}
use schc_work.SchcHelper.Config.{Ends, config_schc-refines, config_schc-Ends}

abbrev libc : Libc
libc = record { inet_pton = λ text. replicate 15 0 ++ 1 ∷ []; atoi = λ text. 5683 }

-- An SDK with the six parameters of the template, that accepts all, and one whose network layer
-- fails.
abbrev accepting : Answers
accepting = record { initialize_ok = true; nb_params = 6; set_param_ok = λ i. true; net_ok = true }

abbrev no_network : Answers
no_network = record {
  initialize_ok = true;
  nb_params = 6;
  set_param_ok = λ i. true;
  net_ok = false;
}

abbrev settings : List (Setting ℕ)
settings =
    mtu 80
    ∷ mode 1
    ∷ tunnel (49 ∷ []) (50 ∷ []) (51 ∷ []) (52 ∷ [])
    ∷ ipv6_src (58 ∷ 58 ∷ 49 ∷ [])
    ∷ mtu 100
    ∷ ipv6_udp_src (53 ∷ [])
    ∷ []

settings-Fits : All Fits settings
unfolding Fits
settings-Fits =
    (tt, (tt, ((omega arith, omega arith, omega arith, omega arith), (tt, (tt, (tt, tt))))))

initial-IsReady : IsReady {C = ℕ} initial
unfolding IsReady
initial-IsReady = inr (refl, refl)

config_schc-refines_example :
    (s1 : Helper ℕ) × (s2 : Helper ℕ) × (start_config initial ≡ some s1)
    × (apply_all libc settings s1 ≡ some s2)
    × (config_schc accepting s2
        ≡ some (schc_config_ok, wanted_calls (want_all libc settings nothing_wanted) 6, cleaned s2))
    × IsReady (cleaned s2)
config_schc-refines_example =
    config_schc-refines libc accepting settings initial (λ text. refl) initial-IsReady settings-Fits
      refl (λ i. refl) refl (omega arith)

abbrev just_started : Helper ℕ
just_started = (start_config-IsStaged initial initial-IsReady).0

config_schc-Ends_example :
    (res : ConfigResult) × (calls : List (Call ℕ)) × (s' : Helper ℕ) × (config_schc no_network
        just_started
      ≡ some (res, calls, s'))
    × Ends no_network just_started res s'
    × IsReady s'
config_schc-Ends_example =
    config_schc-Ends no_network just_started nothing_wanted
      (start_config-IsStaged initial initial-IsReady).2 (omega arith)
