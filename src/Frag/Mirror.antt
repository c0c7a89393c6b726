-- ===== src/Frag/Mirror.antt =====
-- The profiles that the two ends of a link load.
use schc_work.Common.{◌≡◌, ◌≢◌, refl, ◌∙◌, ap, ◌*◌, ◌^◌, ◌%◌, ◌<◌, List, [], ◌∷◌, arith}
use schc_work.Worker.Main.{SdkMode, sdk_app_mode, sdk_device_mode}
use schc_work.Frag.{
  Direction, profile_dir_up, profile_dir_down, FragMode, frag_mode_aa, frag_mode_aoe, frag_mode_na,
  FragProfile, Profiles, RuleIds, Build, aa_up_profile, aa_down_profile, up_aoe_profile,
  down_aoe_profile, up_noack_profile, down_noack_profile, aa_basic, ae_basic, na_basic, profiles_of,
  set_directions, set_mode_directions, mgt_load_profiles,
}

abbrev pub opposite : Direction → Direction
opposite profile_dir_up = profile_dir_down
opposite profile_dir_down = profile_dir_up

-- What one end sends by the profile, the other receives by its own: they differ in nothing else.
abbrev pub Mirrored : FragProfile → FragProfile → Type 0
Mirrored a b = a ≡ record b { direction = opposite b.direction }

-- The counters have room for a window, the tiles are whole words of the lower layer, and all
-- requests for an acknowledgement are made before the session is given up.
abbrev pub IsConsistent : FragProfile → FragMode → Type 0
IsConsistent p (frag_mode_aa aa) =
    (0 < aa.window_size)
    × (aa.window_size < 2 ^ p.n)
    × (aa.ack_rt_exp_time * aa.ack_req_dn_opportunity * aa.max_ack_requests < p.it_exp_time)
    × (aa.idle_polling_time < p.it_exp_time)
IsConsistent p (frag_mode_aoe ae) =
    (0 < ae.window_size)
    × (ae.window_size < 2 ^ p.n)
    × (ae.tile_size_bits % p.l2_word_size_bits ≡ 0)
    × (0 < ae.max_ack_requests)
IsConsistent p (frag_mode_na frames) = (0 < p.n) × (0 < p.it_exp_time)

-- What both ends have: two profiles with different rules, the first one to send with at the device
-- and to receive with at the application.
pub record Linked (device app : List FragProfile) : Type 0 where
  pub up : FragProfile
  pub down : FragProfile
  pub up' : FragProfile
  pub down' : FragProfile
  pub at_device : device ≡ up ∷ down ∷ []
  pub at_app : app ≡ up' ∷ down' ∷ []
  pub up_mirrored : Mirrored up up'
  pub down_mirrored : Mirrored down down'
  pub sends : up.direction ≡ profile_dir_up
  pub receives : down.direction ≡ profile_dir_down
  pub rules : up.rule_id ≢ down.rule_id
  pub up_consistent : IsConsistent up up.mode
  pub down_consistent : IsConsistent down down.mode

-- The static profiles after calls of `mgt_load_profiles` in these modes.
pub loads : List SdkMode → Profiles → Profiles
loads [] p = p
loads (mode ∷ modes) p = loads modes (mgt_load_profiles mode p).1

-- Only the last call counts.
directions_again :
    (mode mode' : SdkMode) (p : Profiles)
    → set_mode_directions mode (set_mode_directions mode' p) ≡ set_mode_directions mode p
unfolding set_mode_directions set_directions
directions_again sdk_device_mode sdk_device_mode p = refl
directions_again sdk_device_mode sdk_app_mode p = refl
directions_again sdk_app_mode sdk_device_mode p = refl
directions_again sdk_app_mode sdk_app_mode p = refl

loads-directions :
    (modes : List SdkMode) (mode : SdkMode) (p : Profiles)
    → set_mode_directions mode (loads modes p) ≡ set_mode_directions mode p
unfolding loads mgt_load_profiles
loads-directions [] mode p = refl
loads-directions (m ∷ modes) mode p =
    loads-directions modes mode (set_mode_directions m p) ∙ directions_again mode m p

loads-load :
    (modes : List SdkMode) (mode : SdkMode) (p : Profiles)
    → (mgt_load_profiles mode (loads modes p)).0 ≡ (mgt_load_profiles mode p).0
unfolding mgt_load_profiles
loads-load modes mode p =
    ap (λ q. q.up_profile ∷ q.down_profile ∷ []) (loads-directions modes mode p)

abbrev turned : Direction → FragProfile → FragProfile
turned way p = record p { direction = way }

turned-IsConsistent :
    (mode : FragMode) (way : Direction) (p : FragProfile)
    → IsConsistent p mode
    → IsConsistent (turned way p) mode
turned-IsConsistent (frag_mode_aa aa) way p h = h
turned-IsConsistent (frag_mode_aoe ae) way p h = h
turned-IsConsistent (frag_mode_na frames) way p h = h

-- Two profiles of a build, with the directions of both ends.
turned-Linked :
    (u d : FragProfile)
    → u.rule_id ≢ d.rule_id
    → IsConsistent u u.mode
    → IsConsistent d d.mode
    → Linked
        (turned profile_dir_up u ∷ turned profile_dir_down d ∷ [])
        (turned profile_dir_down u ∷ turned profile_dir_up d ∷ [])
turned-Linked u d differ cu cd = record {
  up = turned profile_dir_up u;
  down = turned profile_dir_down d;
  up' = turned profile_dir_down u;
  down' = turned profile_dir_up d;
  at_device = refl;
  at_app = refl;
  up_mirrored = refl;
  down_mirrored = refl;
  sends = refl;
  receives = refl;
  rules = differ;
  up_consistent = turned-IsConsistent u.mode profile_dir_up u cu;
  down_consistent = turned-IsConsistent d.mode profile_dir_down d cd;
}

profiles_of-Linked :
    (build : Build) (ids : RuleIds)
    → ids.aoe_uplink_frag_rule_id ≢ ids.aoe_downlink_frag_rule_id
    → Linked
        (mgt_load_profiles sdk_device_mode (profiles_of build ids)).0
        (mgt_load_profiles sdk_app_mode (profiles_of build ids)).0
unfolding mgt_load_profiles set_mode_directions set_directions profiles_of
profiles_of-Linked aa_basic ids differ =
    turned-Linked (aa_up_profile ids) (aa_down_profile ids) (omega arith) (omega arith)
      (omega arith)
profiles_of-Linked ae_basic ids differ =
    turned-Linked (up_aoe_profile ids) (down_aoe_profile ids) differ (omega arith) (omega arith)
profiles_of-Linked na_basic ids differ =
    turned-Linked (up_noack_profile ids) (down_noack_profile ids) (omega arith) (omega arith)
      (omega arith)

-- In each build, and whichever modes `mgt_load_profiles` was called in before, at both ends: what
-- it gives in the device mode and in the application mode fits together. Each profile of one end
-- is that of the other with the opposite direction, the first is for the uplink, the two have
-- different rules, and their windows, tiles and timers are consistent. The rules for the uplink and
-- the downlink of ae_basic differ in the SDK.
pub mgt_load_profiles-Linked :
    (build : Build) (ids : RuleIds) (before before' : List SdkMode)
    → ids.aoe_uplink_frag_rule_id ≢ ids.aoe_downlink_frag_rule_id
    → Linked
        (mgt_load_profiles sdk_device_mode (loads before (profiles_of build ids))).0
        (mgt_load_profiles sdk_app_mode (loads before' (profiles_of build ids))).0
mgt_load_profiles-Linked build ids before before' differ =
    rw
      (
        loads-load before sdk_device_mode (profiles_of build ids),
        loads-load before' sdk_app_mode (profiles_of build ids),
      )
      (profiles_of-Linked build ids differ)
