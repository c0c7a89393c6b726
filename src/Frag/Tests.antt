-- ===== src/Frag/Tests.antt =====
-- The profiles at rule numbers.
use schc_work.Common.{[], ◌∷◌, arith}
use schc_work.Worker.Main.{sdk_app_mode, sdk_device_mode}
use schc_work.Frag.{RuleIds, ae_basic, profiles_of, mgt_load_profiles}
use schc_work.Frag.Mirror.{Linked, loads, mgt_load_profiles-Linked}

abbrev ids : RuleIds
ids = record {
  aa_downlink_frag_rule_id = 21;
  aoe_uplink_frag_rule_id = 22;
  aoe_downlink_frag_rule_id = 23;
  default_na_downlink_frag_rule_id = 24;
}

-- The device was an application before.
mgt_load_profiles-Linked_example :
    Linked
      (mgt_load_profiles sdk_device_mode (loads (sdk_app_mode ∷ []) (profiles_of ae_basic ids))).0
      (mgt_load_profiles sdk_app_mode (loads [] (profiles_of ae_basic ids))).0
mgt_load_profiles-Linked_example =
    mgt_load_profiles-Linked ae_basic ids (sdk_app_mode ∷ []) [] (omega arith)
