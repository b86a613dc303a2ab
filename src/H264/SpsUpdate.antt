-- ===== src/H264/SpsUpdate.antt =====
-- vcodec/mpp/codec/enc/h264e/h264e_sps.c: the sequence parameter set that a configuration asks for.
-- The numbers of the configuration are not negative, and the picture has less than 2 ^ 31 pixels.
pub mod Size
pub mod Level
pub mod Fields
mod Tests
use rockchip_kmpp.Prelude.{
  ℕ, ◌+◌, ◌-◌, ◌*◌, ◌/◌, ◌^◌, List, [], ◌∷◌, Bool, ltb, leb, not, ◌==◌, ◌&&◌, ◌||◌, if◌then◌else◌,
}
use rockchip_kmpp.Prelude.Word.{u32}
use rockchip_kmpp.RefTypes.{RefCfg}
use rockchip_kmpp.RefCheck.{cfg_cpb_info}
use rockchip_kmpp.Maths.{mpp_log2, min, align16}
use rockchip_kmpp.H264.{Sps, Vui, Crop}
use rockchip_kmpp.H264.Chain.{is_set}

-- The fields of MppEncPrepCfg, MppEncRcCfg and MppEncH264Cfg that are read, and the references.
pub record SpsCfg : Type 0 where
  pub width : ℕ
  pub height : ℕ
  pub range : ℕ
  pub color : ℕ
  pub colorprim : ℕ
  pub colortrc : ℕ
  pub gop : ℕ
  pub fps_out_flex : ℕ
  pub fps_out_num : ℕ
  pub fps_out_denorm : ℕ
  pub profile : ℕ
  pub level : ℕ
  pub poc_type : ℕ
  pub log2_max_poc_lsb : ℕ
  pub log2_max_frame_num : ℕ
  pub gaps_not_allowed : ℕ
  pub transform8x8_mode : ℕ
  pub ref_cfg : RefCfg

-- H264eLevelInfo, less the name.
pub record LevelInfo : Type 0 where
  pub level : ℕ
  pub max_mbps : ℕ
  pub max_mbs : ℕ
  pub max_dpb_mbs : ℕ
  pub max_br : ℕ

abbrev pub info : ℕ → ℕ → ℕ → ℕ → ℕ → LevelInfo
info level mbps mbs dpb br = record {
  level = level;
  max_mbps = mbps;
  max_mbs = mbs;
  max_dpb_mbs = dpb;
  max_br = br;
}

-- H264_LEVEL_1_b
abbrev pub level_1_b : ℕ
level_1_b = 99

abbrev pub level_infos : List LevelInfo
level_infos =
    info 10 1485 99 396 64
    ∷ info level_1_b 1485 99 396 128
    ∷ info 11 3000 396 900 192
    ∷ info 12 6000 396 2376 384
    ∷ info 13 11880 396 2376 768
    ∷ info 20 11880 396 2376 2000
    ∷ info 21 19800 792 4752 4000
    ∷ info 22 20250 1620 8100 4000
    ∷ info 30 40500 1620 8100 10000
    ∷ info 31 108000 3600 18000 14000
    ∷ info 32 216000 5120 20480 20000
    ∷ info 40 245760 8192 32768 20000
    ∷ info 41 245760 8192 32768 50000
    ∷ info 42 522240 8704 34816 50000
    ∷ info 50 589824 22080 110400 135000
    ∷ info 51 983040 36864 184320 240000
    ∷ info 52 2073600 36864 184320 240000
    ∷ info 60 4177920 139264 696320 240000
    ∷ info 61 8355840 139264 696320 480000
    ∷ info 62 16711680 139264 696320 800000
    ∷ []

-- The loop over the levels, from one of them on.
unfoldable pub raise_level : List LevelInfo → ℕ → ℕ → ℕ
raise_level [] mbs level_idc = level_idc
raise_level (e ∷ es) mbs level_idc =
    let rest = raise_level es mbs level_idc in
    if leb mbs e.max_mbs
    then (if ltb level_idc e.level && not (e.level == level_1_b) then e.level else level_idc)
    else rest

-- `(aligned_w * aligned_h) >> 8`
abbrev pub frame_mbs : SpsCfg → ℕ
frame_mbs cfg = u32 (align16 cfg.width * align16 cfg.height) / 2 ^ 8

-- What the length of a group of pictures asks for.
unfoldable pub frame_num_bits : SpsCfg → ℕ
frame_num_bits cfg =
    let log2_gop = min (mpp_log2 cfg.gop) 16 in
    let log2_frm_num = if leb log2_gop 4 then 0 else log2_gop - 4 in
    if (cfg.gop == 0) || (cfg.gop == 1)
    then 12
    else if ltb cfg.log2_max_frame_num log2_frm_num
    then log2_frm_num
    else cfg.log2_max_frame_num

unfoldable pub poc_lsb_bits : SpsCfg → ℕ
poc_lsb_bits cfg =
    let log2_gop = min (mpp_log2 cfg.gop) 16 in
    let log2_poc_lsb = min (if leb log2_gop 3 then 0 else log2_gop - 3) 12 in
    if (cfg.gop == 0) || (cfg.gop == 1)
    then 12
    else if ltb cfg.log2_max_poc_lsb log2_poc_lsb
    then log2_poc_lsb
    else cfg.log2_max_poc_lsb

abbrev pub crop_right : SpsCfg → ℕ
crop_right cfg = u32 (align16 cfg.width + (2 ^ 32 - cfg.width))

abbrev pub crop_bottom : SpsCfg → ℕ
crop_bottom cfg = u32 (align16 cfg.height + (2 ^ 32 - cfg.height))

abbrev pub is_cropped : SpsCfg → Bool
is_cropped cfg = is_set (crop_right cfg) || is_set (crop_bottom cfg)

-- The colour is described if one of its three parts is known.
abbrev pub describes : SpsCfg → Bool
describes cfg =
    (leb cfg.colorprim 22 && not (cfg.colorprim == 2))
    || ((leb cfg.colortrc 18 && not (cfg.colortrc == 2))
        || (leb cfg.color 14 && not (cfg.color == 2)))

unfoldable pub made_vui : SpsCfg → Vui
made_vui cfg =
    let is_jpeg = cfg.range == 2 in
    record {
      vui_present = 1;
      aspect_ratio_info_present = 0;
      aspect_ratio_idc = 0;
      sar_width = 0;
      sar_height = 0;
      overscan_info_present = 0;
      overscan_appropriate_flag = 0;
      signal_type_present = if is_jpeg || describes cfg then 1 else 0;
      vidformat = 5;
      fullrange = if is_jpeg then 1 else 0;
      color_description_present = if describes cfg then 1 else 0;
      colorprim = if describes cfg then cfg.colorprim else 0;
      colortrc = if describes cfg then cfg.colortrc else 0;
      colmatrix = if describes cfg then cfg.color else 0;
      chroma_loc_info_present = 0;
      chroma_loc_top = 0;
      chroma_loc_bottom = 0;
      timing_info_present = 1;
      num_units_in_tick = cfg.fps_out_denorm;
      time_scale = u32 (cfg.fps_out_num * 2);
      fixed_frame_rate = if is_set cfg.fps_out_flex then 0 else 1;
      nal_hrd_parameters_present = 0;
      vcl_hrd_parameters_present = 0;
      pic_struct_present = 0;
      bitstream_restriction = 1;
      motion_vectors_over_pic_boundaries = 1;
      max_bytes_per_pic_denom = 0;
      max_bits_per_mb_denom = 0;
      log2_max_mv_length_horizontal = 16;
      log2_max_mv_length_vertical = 16;
      num_reorder_frames = 0;
      max_dec_frame_buffering = (cfg_cpb_info cfg.ref_cfg).dpb_size;
    }

unfoldable pub made_crop : SpsCfg → Crop
made_crop cfg = record {
  left = 0;
  right = if is_cropped cfg then crop_right cfg else 0;
  top = 0;
  bottom = if is_cropped cfg then crop_bottom cfg else 0;
}

-- h264e_sps_update, which sets every field.
unfoldable pub sps_update : SpsCfg → Sps
sps_update cfg = record {
  profile_idc = cfg.profile;
  constraint_set0 = 1;
  constraint_set1 = 1;
  constraint_set2 = 0;
  constraint_set3 = 0;
  constraint_set4 = 0;
  constraint_set5 = 0;
  level_idc = raise_level level_infos (frame_mbs cfg) cfg.level;
  sps_id = 0;
  chroma_format_idc = 1;
  log2_max_frame_num_minus4 = frame_num_bits cfg;
  pic_order_cnt_type = cfg.poc_type;
  log2_max_poc_lsb_minus4 = poc_lsb_bits cfg;
  num_ref_frames = (cfg_cpb_info cfg.ref_cfg).dpb_size;
  gaps_in_frame_num_value_allowed = if is_set cfg.gaps_not_allowed then 0 else 1;
  pic_width_in_mbs = align16 cfg.width / 2 ^ 4;
  pic_height_in_mbs = align16 cfg.height / 2 ^ 4;
  frame_mbs_only = 1;
  direct8x8_inference = cfg.transform8x8_mode;
  cropping = if is_cropped cfg then 1 else 0;
  crop = made_crop cfg;
  vui = made_vui cfg;
}
