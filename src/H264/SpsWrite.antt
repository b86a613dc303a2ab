-- ===== src/H264/SpsWrite.antt =====
-- vcodec/mpp/codec/enc/h264e/h264e_sps.c: how the sequence parameter set is written.
pub mod Syntax
pub mod Written
pub mod Trip
use rockchip_kmpp.Prelude.{ℕ, ◌+◌, ◌-◌, ◌/◌, ◌^◌, bit_and, ltb, not, ◌==◌, if◌then◌else◌}
use rockchip_kmpp.Prelude.Ret.{Ret, ok}
use rockchip_kmpp.Prelude.Word.{u32}
use rockchip_kmpp.BitWriter.{WriteCtx, trailing, bytes}
use rockchip_kmpp.H264.{Sps, Vui, Crop}
use rockchip_kmpp.H264.Packet.{Packet, open_writer, close_writer}
use rockchip_kmpp.H264.Chain.{◌▸◌, u, e, is_set, start_nal}

-- H264_PROFILE_HIGH, H264_EXTENDED_SAR and H264_NALU_TYPE_SPS
abbrev pub profile_high : ℕ
profile_high = 100

abbrev pub extended_sar : ℕ
extended_sar = 255

abbrev pub nalu_type_sps : ℕ
nalu_type_sps = 7

-- `x - 1` on a signed field.
abbrev pub pred32 : ℕ → ℕ
pred32 x = u32 (x + (2 ^ 32 - 1))

pub put_profile : Sps → WriteCtx → WriteCtx
put_profile sps c =
    c
    ▸ u sps.profile_idc 8
    ▸ u sps.constraint_set0 1
    ▸ u sps.constraint_set1 1
    ▸ u sps.constraint_set2 1
    ▸ u sps.constraint_set3 1
    ▸ u sps.constraint_set4 1
    ▸ u sps.constraint_set5 1
    ▸ u 0 2
    ▸ u sps.level_idc 8
    ▸ e sps.sps_id

pub put_chroma_format : Sps → WriteCtx → WriteCtx
put_chroma_format sps c =
    if ltb sps.profile_idc profile_high
    then c
    else c ▸ e sps.chroma_format_idc ▸ e 0 ▸ e 0 ▸ u 0 1 ▸ u 0 1

pub put_order : Sps → WriteCtx → WriteCtx
put_order sps c =
    let c' = c ▸ e sps.log2_max_frame_num_minus4 ▸ e sps.pic_order_cnt_type in
    if sps.pic_order_cnt_type == 0 then c' ▸ e sps.log2_max_poc_lsb_minus4 else c'

pub put_size : Sps → WriteCtx → WriteCtx
put_size sps c =
    c
    ▸ e sps.num_ref_frames
    ▸ u sps.gaps_in_frame_num_value_allowed 1
    ▸ e (pred32 sps.pic_width_in_mbs)
    ▸ e (pred32 sps.pic_height_in_mbs)
    ▸ u sps.frame_mbs_only 1
    ▸ u sps.direct8x8_inference 1
    ▸ u sps.cropping 1

pub put_crop : Sps → WriteCtx → WriteCtx
put_crop sps c =
    if is_set sps.cropping
    then c
      ▸ e (sps.crop.left / 2)
      ▸ e (sps.crop.right / 2)
      ▸ e (sps.crop.top / 2)
      ▸ e (sps.crop.bottom / 2)
    else c

pub put_sar : Vui → WriteCtx → WriteCtx
put_sar vui c =
    if vui.aspect_ratio_idc == extended_sar then c ▸ u vui.sar_width 16 ▸ u vui.sar_height 16 else c

pub put_aspect : Vui → WriteCtx → WriteCtx
put_aspect vui c =
    let c' = c ▸ u vui.aspect_ratio_info_present 1 in
    if is_set vui.aspect_ratio_info_present then c' ▸ u vui.aspect_ratio_idc 8 ▸ put_sar vui else c'

pub put_overscan : Vui → WriteCtx → WriteCtx
put_overscan vui c =
    let c' = c ▸ u vui.overscan_info_present 1 in
    if is_set vui.overscan_info_present then c' ▸ u vui.overscan_appropriate_flag 1 else c'

pub put_colour : Vui → WriteCtx → WriteCtx
put_colour vui c =
    if is_set vui.color_description_present
    then c ▸ u vui.colorprim 8 ▸ u vui.colortrc 8 ▸ u vui.colmatrix 8
    else c

pub put_signal : Vui → WriteCtx → WriteCtx
put_signal vui c =
    let c' = c ▸ u vui.signal_type_present 1 in
    if is_set vui.signal_type_present
    then c'
      ▸ u vui.vidformat 3
      ▸ u vui.fullrange 1
      ▸ u vui.color_description_present 1
      ▸ put_colour vui
    else c'

pub put_chroma_loc : Vui → WriteCtx → WriteCtx
put_chroma_loc vui c =
    let c' = c ▸ u vui.chroma_loc_info_present 1 in
    if is_set vui.chroma_loc_info_present
    then c' ▸ e vui.chroma_loc_top ▸ e vui.chroma_loc_bottom
    else c'

pub put_timing : Vui → WriteCtx → WriteCtx
put_timing vui c =
    let c' = c ▸ u vui.timing_info_present 1 in
    if is_set vui.timing_info_present
    then c'
      ▸ u (vui.num_units_in_tick / 2 ^ 16) 16
      ▸ u (bit_and vui.num_units_in_tick 0xffff) 16
      ▸ u (vui.time_scale / 2 ^ 16) 16
      ▸ u (bit_and vui.time_scale 0xffff) 16
      ▸ u vui.fixed_frame_rate 1
    else c'

pub put_restriction : Vui → WriteCtx → WriteCtx
put_restriction vui c =
    let c' =
      c
      ▸ u vui.nal_hrd_parameters_present 1
      ▸ u vui.vcl_hrd_parameters_present 1
      ▸ u vui.pic_struct_present 1
      ▸ u vui.bitstream_restriction 1 in
    if is_set vui.bitstream_restriction
    then c'
      ▸ u vui.motion_vectors_over_pic_boundaries 1
      ▸ e vui.max_bytes_per_pic_denom
      ▸ e vui.max_bits_per_mb_denom
      ▸ e vui.log2_max_mv_length_horizontal
      ▸ e vui.log2_max_mv_length_vertical
      ▸ e vui.num_reorder_frames
      ▸ e vui.max_dec_frame_buffering
    else c'

pub put_vui : Vui → WriteCtx → WriteCtx
put_vui vui c =
    let c' = c ▸ u vui.vui_present 1 in
    if is_set vui.vui_present
    then c'
      ▸ put_aspect vui
      ▸ put_overscan vui
      ▸ put_signal vui
      ▸ put_chroma_loc vui
      ▸ put_timing vui
      ▸ put_restriction vui
    else c'

-- What stands between the header of the NAL unit and the trailing bits.
pub put_sps : Sps → WriteCtx → WriteCtx
put_sps sps c =
    c
    ▸ put_profile sps
    ▸ put_chroma_format sps
    ▸ put_order sps
    ▸ put_size sps
    ▸ put_crop sps
    ▸ put_vui sps.vui

-- h264e_sps_to_packet: the code, what is stored in `len`, and the packet.
pub sps_to_packet : Sps → Packet → Ret × ℕ × Packet
sps_to_packet sps p =
    let c = open_writer p ▸ start_nal nalu_type_sps ▸ put_sps sps ▸ trailing in
    (ok, bytes c, close_writer p c)
