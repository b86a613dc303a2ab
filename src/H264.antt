-- ===== src/H264.antt =====
-- The parameter sets of the H.264 encoder, vcodec/mpp/codec/enc/h264e/h264e_sps.h and h264e_pps.h.
-- Fields are numbers: flags and counts that the code never makes negative.
pub mod Packet
pub mod Chain
pub mod Nal
pub mod SpsWrite
pub mod SpsUpdate
pub mod PpsWrite
pub mod Dpb
pub mod Marking
pub mod Slice
mod Tests
use rockchip_kmpp.Prelude.{ℕ}
use rockchip_kmpp.Prelude.Int.{ℤ}

-- H264eVui, less the HRD parameters, which nothing writes.
pub record Vui : Type 0 where
  pub vui_present : ℕ
  pub aspect_ratio_info_present : ℕ
  pub aspect_ratio_idc : ℕ
  pub sar_width : ℕ
  pub sar_height : ℕ
  pub overscan_info_present : ℕ
  pub overscan_appropriate_flag : ℕ
  pub signal_type_present : ℕ
  pub vidformat : ℕ
  pub fullrange : ℕ
  pub color_description_present : ℕ
  pub colorprim : ℕ
  pub colortrc : ℕ
  pub colmatrix : ℕ
  pub chroma_loc_info_present : ℕ
  pub chroma_loc_top : ℕ
  pub chroma_loc_bottom : ℕ
  pub timing_info_present : ℕ
  pub num_units_in_tick : ℕ
  pub time_scale : ℕ
  pub fixed_frame_rate : ℕ
  pub nal_hrd_parameters_present : ℕ
  pub vcl_hrd_parameters_present : ℕ
  pub pic_struct_present : ℕ
  pub bitstream_restriction : ℕ
  pub motion_vectors_over_pic_boundaries : ℕ
  pub max_bytes_per_pic_denom : ℕ
  pub max_bits_per_mb_denom : ℕ
  pub log2_max_mv_length_horizontal : ℕ
  pub log2_max_mv_length_vertical : ℕ
  pub num_reorder_frames : ℕ
  pub max_dec_frame_buffering : ℕ

pub record Crop : Type 0 where
  pub left : ℕ
  pub right : ℕ
  pub top : ℕ
  pub bottom : ℕ

-- H264eSps
pub record Sps : Type 0 where
  pub profile_idc : ℕ
  pub constraint_set0 : ℕ
  pub constraint_set1 : ℕ
  pub constraint_set2 : ℕ
  pub constraint_set3 : ℕ
  pub constraint_set4 : ℕ
  pub constraint_set5 : ℕ
  pub level_idc : ℕ
  pub sps_id : ℕ
  pub chroma_format_idc : ℕ
  pub log2_max_frame_num_minus4 : ℕ
  pub pic_order_cnt_type : ℕ
  pub log2_max_poc_lsb_minus4 : ℕ
  pub num_ref_frames : ℕ
  pub gaps_in_frame_num_value_allowed : ℕ
  pub pic_width_in_mbs : ℕ
  pub pic_height_in_mbs : ℕ
  pub frame_mbs_only : ℕ
  pub direct8x8_inference : ℕ
  pub cropping : ℕ
  pub crop : Crop
  pub vui : Vui

-- H264ePps, less the choice of matrices, which nothing reads.
pub record Pps : Type 0 where
  pub pps_id : ℕ
  pub sps_id : ℕ
  pub entropy_coding_mode : ℕ
  pub bottom_field_pic_order_in_frame_present : ℕ
  pub num_slice_groups : ℕ
  pub num_ref_idx_l0_default_active : ℕ
  pub num_ref_idx_l1_default_active : ℕ
  pub weighted_pred : ℕ
  pub weighted_bipred_idc : ℕ
  pub pic_init_qp : ℤ
  pub pic_init_qs : ℤ
  pub chroma_qp_index_offset : ℤ
  pub second_chroma_qp_index_offset_present : ℕ
  pub second_chroma_qp_index_offset : ℤ
  pub deblocking_filter_control : ℕ
  pub constrained_intra_pred : ℕ
  pub redundant_pic_cnt : ℕ
  pub transform_8x8_mode : ℕ
  pub scaling_list_mode : ℕ
