-- ===== src/Frag.antt =====
-- libs/schc_frag_apis: the fragmentation profiles of the three builds, aa_basic, ae_basic and
-- na_basic. The checksum function is the SDK's in all of them, and so are the numbers of the rules.
pub mod Mirror
mod Tests
use schc_work.Common.{ℕ, ◌+◌, ◌*◌, ◌/◌, Bool, true, false, List, [], ◌∷◌}
use schc_work.Worker.Main.{SdkMode, sdk_app_mode, sdk_device_mode}

pub data Direction : Type 0 where
  profile_dir_up profile_dir_down : Direction

-- The fields of `aa`.
pub record AckAlways : Type 0 where
  pub max_ack_requests : ℕ
  pub window_size : ℕ
  pub rt_exp_time : ℕ
  pub ack_req_dn_opportunity : ℕ
  pub ack_rt_exp_time : ℕ
  pub idle_polling_time : ℕ

-- The fields of `ae`.
pub record AckOnError : Type 0 where
  pub tile_size_bits : ℕ
  pub m : ℕ
  pub window_size : ℕ
  pub max_ack_requests : ℕ
  pub rt_exp_time : ℕ
  pub no_tile_in_all1_flag : Bool
  pub one_l2_word_smaller_flag : Bool
  pub resend_contiguous_tiles_flag : Bool

-- `mode`, with the fields of this mode; `na` has `max_polling_frame`.
pub data FragMode : Type 0 where
  frag_mode_aa : AckAlways → FragMode
  frag_mode_aoe : AckOnError → FragMode
  frag_mode_na : ℕ → FragMode

-- The functions that compute the checksum of a packet, by name.
pub data RcsFunction : Type 0 where
  profile_compute_rcs : RcsFunction

-- `frag_profile_t`; a field without an initializer is 0. The two bits are `padding_bits_values`.
pub record FragProfile : Type 0 where
  pub mode : FragMode
  pub direction : Direction
  pub rule_id : ℕ
  pub rule_id_size_bits : ℕ
  pub dtag_size_bits : ℕ
  pub l2_word_size_bits : ℕ
  pub n : ℕ
  pub rcs_size_bytes : ℕ
  pub calc_rcs : RcsFunction
  pub polling_enabled : Bool
  pub frag_padding_bit : ℕ
  pub byte_padding_bit : ℕ
  pub it_exp_time : ℕ

-- The two static profiles of a build, the one for the uplink of a device first.
pub record Profiles : Type 0 where
  pub up_profile : FragProfile
  pub down_profile : FragProfile

-- The numbers of rules in the headers of the SDK.
pub record RuleIds : Type 0 where
  pub aa_downlink_frag_rule_id : ℕ
  pub aoe_uplink_frag_rule_id : ℕ
  pub aoe_downlink_frag_rule_id : ℕ
  pub default_na_downlink_frag_rule_id : ℕ

abbrev pub max_ack_req : ℕ
max_ack_req = 3

abbrev pub schc_ack_req_dn_opportunity : ℕ
schc_ack_req_dn_opportunity = 2

abbrev pub inactivity_timer_exp : ℕ
inactivity_timer_exp = 600000

abbrev pub idle_polling_timer_exp : ℕ
idle_polling_timer_exp = inactivity_timer_exp * 3 / 4

abbrev pub retransmission_timer_exp_down : ℕ
retransmission_timer_exp_down = inactivity_timer_exp / (max_ack_req + 1)

abbrev pub ack_retransmission_timer_exp : ℕ
ack_retransmission_timer_exp =
    retransmission_timer_exp_down / (max_ack_req * schc_ack_req_dn_opportunity)

abbrev pub ack_always : AckAlways
ack_always = record {
  max_ack_requests = max_ack_req;
  window_size = 1;
  rt_exp_time = 0;
  ack_req_dn_opportunity = schc_ack_req_dn_opportunity;
  ack_rt_exp_time = ack_retransmission_timer_exp;
  idle_polling_time = idle_polling_timer_exp;
}

abbrev pub aa_up_profile : RuleIds → FragProfile
aa_up_profile ids = record {
  mode = frag_mode_aa ack_always;
  direction = profile_dir_down;
  rule_id = ids.aa_downlink_frag_rule_id;
  rule_id_size_bits = 8;
  dtag_size_bits = 0;
  l2_word_size_bits = 8;
  n = 1;
  rcs_size_bytes = 4;
  calc_rcs = profile_compute_rcs;
  polling_enabled = false;
  frag_padding_bit = 0;
  byte_padding_bit = 0;
  it_exp_time = inactivity_timer_exp;
}

abbrev pub aa_down_profile : RuleIds → FragProfile
aa_down_profile ids = record {
  mode = frag_mode_aa ack_always;
  direction = profile_dir_down;
  rule_id = ids.aa_downlink_frag_rule_id + 1;
  rule_id_size_bits = 8;
  dtag_size_bits = 0;
  l2_word_size_bits = 8;
  n = 1;
  rcs_size_bytes = 4;
  calc_rcs = profile_compute_rcs;
  polling_enabled = false;
  frag_padding_bit = 0;
  byte_padding_bit = 0;
  it_exp_time = inactivity_timer_exp;
}

abbrev pub ack_on_error : AckOnError
ack_on_error = record {
  tile_size_bits = 32;
  m = 2;
  window_size = 63;
  max_ack_requests = 3;
  rt_exp_time = 0;
  no_tile_in_all1_flag = true;
  one_l2_word_smaller_flag = false;
  resend_contiguous_tiles_flag = true;
}

abbrev pub up_aoe_profile : RuleIds → FragProfile
up_aoe_profile ids = record {
  mode = frag_mode_aoe ack_on_error;
  direction = profile_dir_up;
  rule_id = ids.aoe_uplink_frag_rule_id;
  rule_id_size_bits = 8;
  dtag_size_bits = 2;
  l2_word_size_bits = 8;
  n = 6;
  rcs_size_bytes = 4;
  calc_rcs = profile_compute_rcs;
  polling_enabled = false;
  frag_padding_bit = 0;
  byte_padding_bit = 0;
  it_exp_time = 600000;
}

abbrev pub down_aoe_profile : RuleIds → FragProfile
down_aoe_profile ids = record {
  mode = frag_mode_aoe ack_on_error;
  direction = profile_dir_down;
  rule_id = ids.aoe_downlink_frag_rule_id;
  rule_id_size_bits = 8;
  dtag_size_bits = 2;
  l2_word_size_bits = 8;
  n = 6;
  rcs_size_bytes = 4;
  calc_rcs = profile_compute_rcs;
  polling_enabled = false;
  frag_padding_bit = 0;
  byte_padding_bit = 0;
  it_exp_time = 600000;
}

abbrev pub up_noack_profile : RuleIds → FragProfile
up_noack_profile ids = record {
  mode = frag_mode_na 2;
  direction = profile_dir_up;
  rule_id = ids.default_na_downlink_frag_rule_id + 1;
  rule_id_size_bits = 8;
  dtag_size_bits = 7;
  l2_word_size_bits = 8;
  n = 1;
  rcs_size_bytes = 4;
  calc_rcs = profile_compute_rcs;
  polling_enabled = false;
  frag_padding_bit = 0;
  byte_padding_bit = 0;
  it_exp_time = 180000;
}

abbrev pub down_noack_profile : RuleIds → FragProfile
down_noack_profile ids = record {
  mode = frag_mode_na 2;
  direction = profile_dir_down;
  rule_id = ids.default_na_downlink_frag_rule_id;
  rule_id_size_bits = 8;
  dtag_size_bits = 7;
  l2_word_size_bits = 8;
  n = 1;
  rcs_size_bytes = 4;
  calc_rcs = profile_compute_rcs;
  polling_enabled = false;
  frag_padding_bit = 0;
  byte_padding_bit = 0;
  it_exp_time = 180000;
}

-- The builds, and the static profiles of each at the start of the program.
pub data Build : Type 0 where
  aa_basic ae_basic na_basic : Build

pub profiles_of : Build → RuleIds → Profiles
profiles_of aa_basic ids = record {
  up_profile = aa_up_profile ids;
  down_profile = aa_down_profile ids;
}
profiles_of ae_basic ids = record {
  up_profile = up_aoe_profile ids;
  down_profile = down_aoe_profile ids;
}
profiles_of na_basic ids = record {
  up_profile = up_noack_profile ids;
  down_profile = down_noack_profile ids;
}

set_directions : Direction → Direction → Profiles → Profiles
set_directions up down p = record {
  up_profile = record p.up_profile { direction = up };
  down_profile = record p.down_profile { direction = down };
}

-- The directions for the mode, which stay in the static profiles.
pub set_mode_directions : SdkMode → Profiles → Profiles
unfolding set_directions
set_mode_directions sdk_device_mode p = set_directions profile_dir_up profile_dir_down p
set_mode_directions sdk_app_mode p = set_directions profile_dir_down profile_dir_up p

-- `mgt_load_profiles`: the list, and the static profiles after the call.
pub mgt_load_profiles : SdkMode → Profiles → List FragProfile × Profiles
mgt_load_profiles mode p =
    let p' = set_mode_directions mode p in (p'.up_profile ∷ p'.down_profile ∷ [], p')
