-- ===== src/H264/SpsWrite/Syntax.antt =====
-- The syntax of the sequence parameter set, tables 7.3.2.1.1 and E.1.1 of H.264, for the sets that
-- h264e_sps.c has the fields for: progressive, 4:2:0, without a type 1 of the picture order count,
-- and without parameters of a hypothetical decoder.
use rockchip_kmpp.Prelude.{ℕ, ◌/◌, ◌%◌, ◌^◌, ◌≡◌, ◌⊎◌, List, [], ◌∷◌, ◌++◌, Bool, true, ◌||◌, ◌==◌}
use rockchip_kmpp.BitReader.Items.{Item, bits, ue}
use rockchip_kmpp.H264.{Sps, Vui}
use rockchip_kmpp.H264.Chain.{is_set, when}
use rockchip_kmpp.H264.SpsWrite.{extended_sar, pred32}

abbrev pub profile_items : Sps → List Item
profile_items sps =
    (bits 8, sps.profile_idc)
    ∷ (bits 1, sps.constraint_set0)
    ∷ (bits 1, sps.constraint_set1)
    ∷ (bits 1, sps.constraint_set2)
    ∷ (bits 1, sps.constraint_set3)
    ∷ (bits 1, sps.constraint_set4)
    ∷ (bits 1, sps.constraint_set5)
    ∷ (bits 2, 0)
    ∷ (bits 8, sps.level_idc)
    ∷ (ue, sps.sps_id)
    ∷ []

-- The profiles whose sets tell the format of the chroma samples.
abbrev pub has_chroma : ℕ → Bool
has_chroma profile_idc =
    (profile_idc == 100)
    || ((profile_idc == 110)
        || ((profile_idc == 122)
            || ((profile_idc == 244)
                || ((profile_idc == 44)
                    || ((profile_idc == 83)
                        || ((profile_idc == 86)
                            || ((profile_idc == 118) || (profile_idc == 128))))))))

-- Baseline, main, extended, high, high 10, high 4:2:2, high 4:4:4, multiview and stereo high.
abbrev pub is_profile : ℕ → Bool
is_profile profile_idc =
    (profile_idc == 66)
    || ((profile_idc == 77)
        || ((profile_idc == 88)
            || ((profile_idc == 100)
                || ((profile_idc == 110)
                    || ((profile_idc == 122)
                        || ((profile_idc == 244)
                            || ((profile_idc == 118) || (profile_idc == 128))))))))

-- The sets whose syntax is the list below: the fields that tables 7.3.2.1.1 and E.1.1 have for
-- other sets are not in it.
pub record IsSupported (sps : Sps) : Type 0 where
  pub profile : is_profile sps.profile_idc ≡ true
  pub chroma : sps.chroma_format_idc ≡ 1
  pub order : (sps.pic_order_cnt_type ≡ 0) ⊎ (sps.pic_order_cnt_type ≡ 2)
  pub progressive : sps.frame_mbs_only ≡ 1
  pub no_nal_hrd : sps.vui.nal_hrd_parameters_present ≡ 0
  pub no_vcl_hrd : sps.vui.vcl_hrd_parameters_present ≡ 0

abbrev pub chroma_items : Sps → List Item
chroma_items sps =
    when (has_chroma sps.profile_idc)
      ((ue, sps.chroma_format_idc) ∷ (ue, 0) ∷ (ue, 0) ∷ (bits 1, 0) ∷ (bits 1, 0) ∷ [])

abbrev pub order_items : Sps → List Item
order_items sps =
    (ue, sps.log2_max_frame_num_minus4)
    ∷ (ue, sps.pic_order_cnt_type)
    ∷ when (sps.pic_order_cnt_type == 0) ((ue, sps.log2_max_poc_lsb_minus4) ∷ [])

abbrev pub size_items : Sps → List Item
size_items sps =
    (ue, sps.num_ref_frames)
    ∷ (bits 1, sps.gaps_in_frame_num_value_allowed)
    ∷ (ue, pred32 sps.pic_width_in_mbs)
    ∷ (ue, pred32 sps.pic_height_in_mbs)
    ∷ (bits 1, sps.frame_mbs_only)
    ∷ (bits 1, sps.direct8x8_inference)
    ∷ (bits 1, sps.cropping)
    ∷ []

abbrev pub crop_items : Sps → List Item
crop_items sps = when (is_set sps.cropping) (
    (ue, sps.crop.left / 2)
    ∷ (ue, sps.crop.right / 2)
    ∷ (ue, sps.crop.top / 2)
    ∷ (ue, sps.crop.bottom / 2)
    ∷ [])

abbrev pub aspect_items : Vui → List Item
aspect_items v =
    (bits 1, v.aspect_ratio_info_present)
    ∷ when (is_set v.aspect_ratio_info_present) (
        (bits 8, v.aspect_ratio_idc)
        ∷ when (v.aspect_ratio_idc == extended_sar)
            ((bits 16, v.sar_width) ∷ (bits 16, v.sar_height) ∷ []))

abbrev pub overscan_items : Vui → List Item
overscan_items v =
    (bits 1, v.overscan_info_present)
    ∷ when (is_set v.overscan_info_present) ((bits 1, v.overscan_appropriate_flag) ∷ [])

abbrev pub signal_items : Vui → List Item
signal_items v =
    (bits 1, v.signal_type_present)
    ∷ when (is_set v.signal_type_present) (
        (bits 3, v.vidformat)
        ∷ (bits 1, v.fullrange)
        ∷ (bits 1, v.color_description_present)
        ∷ when (is_set v.color_description_present)
            ((bits 8, v.colorprim) ∷ (bits 8, v.colortrc) ∷ (bits 8, v.colmatrix) ∷ []))

abbrev pub chroma_loc_items : Vui → List Item
chroma_loc_items v =
    (bits 1, v.chroma_loc_info_present)
    ∷ when (is_set v.chroma_loc_info_present)
        ((ue, v.chroma_loc_top) ∷ (ue, v.chroma_loc_bottom) ∷ [])

-- The two numbers of 32 bits, in halves.
abbrev pub timing_items : Vui → List Item
timing_items v =
    (bits 1, v.timing_info_present)
    ∷ when (is_set v.timing_info_present) (
        (bits 16, v.num_units_in_tick / 2 ^ 16)
        ∷ (bits 16, v.num_units_in_tick % 2 ^ 16)
        ∷ (bits 16, v.time_scale / 2 ^ 16)
        ∷ (bits 16, v.time_scale % 2 ^ 16)
        ∷ (bits 1, v.fixed_frame_rate)
        ∷ [])

abbrev pub restriction_items : Vui → List Item
restriction_items v =
    (bits 1, v.nal_hrd_parameters_present)
    ∷ (bits 1, v.vcl_hrd_parameters_present)
    ∷ (bits 1, v.pic_struct_present)
    ∷ (bits 1, v.bitstream_restriction)
    ∷ when (is_set v.bitstream_restriction) (
        (bits 1, v.motion_vectors_over_pic_boundaries)
        ∷ (ue, v.max_bytes_per_pic_denom)
        ∷ (ue, v.max_bits_per_mb_denom)
        ∷ (ue, v.log2_max_mv_length_horizontal)
        ∷ (ue, v.log2_max_mv_length_vertical)
        ∷ (ue, v.num_reorder_frames)
        ∷ (ue, v.max_dec_frame_buffering)
        ∷ [])

abbrev pub vui_items : Vui → List Item
vui_items v =
    (bits 1, v.vui_present)
    ∷ when (is_set v.vui_present) (
        aspect_items v
        ++ (overscan_items v
            ++ (signal_items v ++ (chroma_loc_items v ++ (timing_items v ++ restriction_items v)))))

abbrev pub sps_items : Sps → List Item
sps_items sps =
    profile_items sps
    ++ (chroma_items sps
        ++ (order_items sps ++ (size_items sps ++ (crop_items sps ++ vui_items sps.vui))))
