-- ===== src/H264/Tests.antt =====
-- The parameter sets of a small stream.
use rockchip_kmpp.Prelude.{◌+◌, ◌≡◌, refl, inl, arith}
use rockchip_kmpp.Prelude.Int.{pos, negsuc, ◌-ℤ◌}
use rockchip_kmpp.Prelude.Ret.{ok}
use rockchip_kmpp.H264.{Sps, Pps, Vui}
use rockchip_kmpp.H264.Packet.{Packet}
use rockchip_kmpp.H264.Nal.{Holds, HasRoom}
use rockchip_kmpp.H264.SpsWrite.{sps_to_packet}
use rockchip_kmpp.H264.SpsWrite.Syntax.{IsSupported, sps_items}
use rockchip_kmpp.H264.SpsWrite.Trip.{sps_to_packet-Holds}
use rockchip_kmpp.H264.PpsWrite.{PpsCfg, pps_update, pps_to_packet}
use rockchip_kmpp.H264.PpsWrite.Syntax.{pps_items}
use rockchip_kmpp.H264.PpsWrite.Update.{IsCodec, pps_update-Holds}

-- What 1080 lines at 30 frames a second get.
abbrev vui : Vui
vui = record {
  vui_present = 1;
  aspect_ratio_info_present = 0;
  aspect_ratio_idc = 0;
  sar_width = 0;
  sar_height = 0;
  overscan_info_present = 0;
  overscan_appropriate_flag = 0;
  signal_type_present = 1;
  vidformat = 5;
  fullrange = 1;
  color_description_present = 0;
  colorprim = 0;
  colortrc = 0;
  colmatrix = 0;
  chroma_loc_info_present = 0;
  chroma_loc_top = 0;
  chroma_loc_bottom = 0;
  timing_info_present = 1;
  num_units_in_tick = 1;
  time_scale = 60;
  fixed_frame_rate = 1;
  nal_hrd_parameters_present = 0;
  vcl_hrd_parameters_present = 0;
  pic_struct_present = 0;
  bitstream_restriction = 1;
  motion_vectors_over_pic_boundaries = 1;
  max_bytes_per_pic_denom = 0;
  max_bits_per_mb_denom = 0;
  log2_max_mv_length_horizontal = 16;
  log2_max_mv_length_vertical = 16;
  num_reorder_frames = 0;
  max_dec_frame_buffering = 1;
}

abbrev pub sps : Sps
sps = record {
  profile_idc = 100;
  constraint_set0 = 1;
  constraint_set1 = 1;
  constraint_set2 = 0;
  constraint_set3 = 0;
  constraint_set4 = 0;
  constraint_set5 = 0;
  level_idc = 40;
  sps_id = 0;
  chroma_format_idc = 1;
  log2_max_frame_num_minus4 = 12;
  pic_order_cnt_type = 0;
  log2_max_poc_lsb_minus4 = 12;
  num_ref_frames = 1;
  gaps_in_frame_num_value_allowed = 1;
  pic_width_in_mbs = 120;
  pic_height_in_mbs = 68;
  frame_mbs_only = 1;
  direct8x8_inference = 1;
  cropping = 1;
  crop = record { left = 0; right = 0; top = 0; bottom = 8 };
  vui = vui;
}

abbrev packet : Packet
packet = record { mem = λ _. 0xaa; start = 100; pos = 100; size = 4096; length = 20 }

sps-HasRoom : HasRoom packet (sps_items sps)
sps-HasRoom = record { octets = λ i. omega arith; room = omega arith; small = omega arith }

sps-IsSupported : IsSupported sps
sps-IsSupported = record {
  profile = refl;
  chroma = refl;
  order = inl refl;
  progressive = refl;
  no_nal_hrd = refl;
  no_vcl_hrd = refl;
}

sps_to_packet-Holds_example :
    let r = sps_to_packet sps packet in
    (r.0 ≡ ok) × (r.2.length ≡ 20 + r.1) × Holds packet r.2 7 (sps_items sps)
sps_to_packet-Holds_example =
    sps_to_packet-Holds sps packet sps-IsSupported (omega arith) sps-HasRoom

abbrev codec : PpsCfg
codec = record {
  profile = 100;
  entropy_coding_mode = 1;
  chroma_cb_qp_offset = pos 0;
  chroma_cr_qp_offset = negsuc 5;
  constrained_intra_pred_mode = 0;
  transform8x8_mode = 1;
  scaling_list_mode = 1;
}

abbrev pub pps : Pps
pps = pps_update codec

codec-IsCodec : IsCodec codec
codec-IsCodec = record {
  entropy = omega arith;
  constrained = omega arith;
  transform = omega arith;
  lists = omega arith;
  lists_high = λ _. (omega arith, refl);
  cb_low = omega arith;
  cb_high = omega arith;
  cr_low = omega arith;
  cr_high = omega arith;
}

pps-HasRoom : HasRoom packet (pps_items pps)
unfolding pps_update ◌-ℤ◌
pps-HasRoom = record { octets = λ i. omega arith; room = omega arith; small = omega arith }

pps_update-Holds_example :
    let r = pps_to_packet pps packet in (r.1.length ≡ 20 + r.0) × Holds packet r.1 8 (pps_items pps)
pps_update-Holds_example = pps_update-Holds codec packet codec-IsCodec pps-HasRoom
