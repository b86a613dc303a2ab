-- ===== src/H264/Slice.antt =====
-- vcodec/mpp/codec/enc/h264e/h264e_slice.c: what the slice header of a frame holds. The queues of
-- operations that a slice points to are in Marking.
pub mod Header
mod Tests
use rockchip_kmpp.Prelude.{ℕ, ◌+◌, ◌-◌, ◌^◌, Bool, leb, ltb, if◌then◌else◌}
use rockchip_kmpp.Prelude.Int.{ℤ, pos}
use rockchip_kmpp.Prelude.Word.{u32}
use rockchip_kmpp.H264.{Sps, Pps}
use rockchip_kmpp.H264.Chain.{is_set}
use rockchip_kmpp.H264.Dpb.{DpbFrm}

-- H264eSlice, less the pointers.
pub record Slice : Type 0 where
  pub mb_w : ℕ
  pub mb_h : ℕ
  pub max_num_ref_frames : ℕ
  pub entropy_coding_mode : ℕ
  pub log2_max_frame_num : ℕ
  pub log2_max_poc_lsb : ℕ
  pub pic_order_cnt_type : ℕ
  pub qp_init : ℤ
  pub nal_reference_idc : ℕ
  pub nalu_type : ℕ
  pub first_mb_in_slice : ℕ
  pub slice_type : ℕ
  pub last_slice_type : ℕ
  pub pic_parameter_set_id : ℕ
  pub frame_num : ℕ
  pub num_ref_idx_override : ℕ
  pub qp_delta : ℕ
  pub cabac_init_idc : ℕ
  pub disable_deblocking_filter_idc : ℕ
  pub slice_alpha_c0_offset_div2 : ℤ
  pub slice_beta_offset_div2 : ℤ
  pub ref_pic_list_modification_flag : ℕ
  pub idr_flag : ℕ
  pub idr_pic_id : ℕ
  pub next_idr_pic_id : ℕ
  pub pic_order_cnt_lsb : ℕ
  pub num_ref_idx_active : ℕ
  pub no_output_of_prior_pics : ℕ
  pub long_term_reference_flag : ℕ
  pub adaptive_ref_pic_buffering : ℕ
  pub is_multi_slice : ℕ

-- h264e_slice_init
abbrev pub slice_init : Slice
slice_init = record {
  mb_w = 0;
  mb_h = 0;
  max_num_ref_frames = 0;
  entropy_coding_mode = 0;
  log2_max_frame_num = 0;
  log2_max_poc_lsb = 0;
  pic_order_cnt_type = 0;
  qp_init = pos 0;
  nal_reference_idc = 0;
  nalu_type = 0;
  first_mb_in_slice = 0;
  slice_type = 0;
  last_slice_type = 0;
  pic_parameter_set_id = 0;
  frame_num = 0;
  num_ref_idx_override = 0;
  qp_delta = 0;
  cabac_init_idc = 0;
  disable_deblocking_filter_idc = 0;
  slice_alpha_c0_offset_div2 = pos 0;
  slice_beta_offset_div2 = pos 0;
  ref_pic_list_modification_flag = 0;
  idr_flag = 0;
  idr_pic_id = 0;
  next_idr_pic_id = 0;
  pic_order_cnt_lsb = 0;
  num_ref_idx_active = 1;
  no_output_of_prior_pics = 0;
  long_term_reference_flag = 0;
  adaptive_ref_pic_buffering = 0;
  is_multi_slice = 0;
}

-- The fields of MppEncH264Cfg that are read.
pub record SliceCfg : Type 0 where
  pub entropy_coding_mode : ℕ
  pub cabac_init_idc : ℕ
  pub deblock_disable : ℕ
  pub deblock_offset_alpha : ℤ
  pub deblock_offset_beta : ℤ

-- The counter of IDR pictures goes round at 16.
unfoldable pub step_idr_pic_id : ℕ → ℕ
step_idr_pic_id n = if leb 16 (u32 (n + 1)) then 0 else u32 (n + 1)

-- h264e_slice_update. The numbers of the enumerations are those of vcodec/mpp/common/h264_syntax.h.
unfoldable pub slice_update : Slice → SliceCfg → Sps → Pps → DpbFrm → Slice
slice_update slice h264 sps pps frm =
    let is_idr = frm.status.is_idr in
    record slice {
      mb_w = sps.pic_width_in_mbs;
      mb_h = sps.pic_height_in_mbs;
      max_num_ref_frames = sps.num_ref_frames;
      log2_max_frame_num = sps.log2_max_frame_num_minus4 + 4;
      log2_max_poc_lsb = sps.log2_max_poc_lsb_minus4 + 4;
      entropy_coding_mode = h264.entropy_coding_mode;
      pic_order_cnt_type = sps.pic_order_cnt_type;
      qp_init = pps.pic_init_qp;
      nal_reference_idc = if frm.status.is_non_ref then 0 else if is_idr then 3 else 2;
      nalu_type = if is_idr then 5 else 1;
      first_mb_in_slice = 0;
      slice_type = if is_idr then 2 else 0;
      pic_parameter_set_id = 0;
      frame_num = frm.frame_num;
      num_ref_idx_override = 0;
      qp_delta = 0;
      cabac_init_idc = if is_set h264.entropy_coding_mode then h264.cabac_init_idc else 2 ^ 32 - 1;
      disable_deblocking_filter_idc = h264.deblock_disable;
      slice_alpha_c0_offset_div2 = h264.deblock_offset_alpha;
      slice_beta_offset_div2 = h264.deblock_offset_beta;
      idr_flag = if is_idr then 1 else 0;
      idr_pic_id = if is_idr then slice.next_idr_pic_id else slice.idr_pic_id;
      next_idr_pic_id =
          if is_idr then step_idr_pic_id slice.next_idr_pic_id else slice.next_idr_pic_id;
      pic_order_cnt_lsb = u32 frm.poc;
      num_ref_idx_active = 1;
      no_output_of_prior_pics = 0;
      long_term_reference_flag = if is_idr then (if frm.status.is_lt_ref then 1 else 0) else 0;
    }
