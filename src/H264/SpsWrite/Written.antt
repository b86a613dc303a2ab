-- ===== src/H264/SpsWrite/Written.antt =====
-- What is written is the syntax.
use rockchip_kmpp.Prelude.{ℕ, ◌≡◌, refl, arith, true, not, ltb, ◌==◌, Bool-cases, inl, inr}
use rockchip_kmpp.Prelude.Bits.{and-mask}
use rockchip_kmpp.BitWriter.{WriteCtx}
use rockchip_kmpp.BitReader.Items.{put_items}
use rockchip_kmpp.H264.{Sps, Vui}
use rockchip_kmpp.H264.Chain.{is_set, stage}
use rockchip_kmpp.H264.SpsWrite.{
  profile_high, extended_sar, put_profile, put_chroma_format, put_order, put_size, put_crop,
  put_sar, put_aspect, put_overscan, put_colour, put_signal, put_chroma_loc, put_timing,
  put_restriction, put_vui, put_sps,
}
use rockchip_kmpp.H264.SpsWrite.Syntax.{
  is_profile, has_chroma, IsSupported, profile_items, chroma_items, order_items, size_items,
  crop_items, aspect_items, overscan_items, signal_items, chroma_loc_items, timing_items,
  restriction_items, vui_items, sps_items,
}

-- On the known profiles the test of the code is that of the syntax.
has_chroma_lem :
    (profile : ℕ) → is_profile profile ≡ true → has_chroma profile ≡ not (ltb profile profile_high)
has_chroma_lem profile known = ground arith

put_chroma_format_lem :
    (sps : Sps) (c : WriteCtx)
    → IsSupported sps
    → put_chroma_format sps c ≡ put_items c (chroma_items sps)
unfolding put_chroma_format put_items
put_chroma_format_lem sps c v =
    rw (has_chroma_lem sps.profile_idc v.profile)
      (elim (Bool-cases (ltb sps.profile_idc profile_high)) [ inl h ↦ rw h | inr h ↦ rw h ])

put_order_lem : (sps : Sps) (c : WriteCtx) → put_order sps c ≡ put_items c (order_items sps)
unfolding put_order put_items
put_order_lem sps c = elim (Bool-cases (sps.pic_order_cnt_type == 0)) [
  | inl h ↦ rw h
  | inr h ↦ rw h
]

put_profile_lem : (sps : Sps) (c : WriteCtx) → put_profile sps c ≡ put_items c (profile_items sps)
unfolding put_profile put_items
put_profile_lem sps c = refl

put_size_lem : (sps : Sps) (c : WriteCtx) → put_size sps c ≡ put_items c (size_items sps)
unfolding put_size put_items
put_size_lem sps c = refl

put_crop_lem : (sps : Sps) (c : WriteCtx) → put_crop sps c ≡ put_items c (crop_items sps)
unfolding put_crop put_items
put_crop_lem sps c = elim (Bool-cases (is_set sps.cropping)) [ inl h ↦ rw h | inr h ↦ rw h ]

module _ (v : Vui) (c : WriteCtx) where
  put_aspect_lem : put_aspect v c ≡ put_items c (aspect_items v)
  unfolding put_aspect put_sar put_items
  put_aspect_lem = elim (Bool-cases (is_set v.aspect_ratio_info_present)) [
    | inr h ↦ rw h
    | inl h ↦
        rw h
          (elim (Bool-cases (v.aspect_ratio_idc == extended_sar)) [ inl k ↦ rw k | inr k ↦ rw k ])
  ]

  put_overscan_lem : put_overscan v c ≡ put_items c (overscan_items v)
  unfolding put_overscan put_items
  put_overscan_lem = elim (Bool-cases (is_set v.overscan_info_present)) [
    | inl h ↦ rw h
    | inr h ↦ rw h
  ]

  put_signal_lem : put_signal v c ≡ put_items c (signal_items v)
  unfolding put_signal put_colour put_items
  put_signal_lem = elim (Bool-cases (is_set v.signal_type_present)) [
    | inr h ↦ rw h
    | inl h ↦
        rw h
          (elim (Bool-cases (is_set v.color_description_present)) [ inl k ↦ rw k | inr k ↦ rw k ])
  ]

  put_chroma_loc_lem : put_chroma_loc v c ≡ put_items c (chroma_loc_items v)
  unfolding put_chroma_loc put_items
  put_chroma_loc_lem = elim (Bool-cases (is_set v.chroma_loc_info_present)) [
    | inl h ↦ rw h
    | inr h ↦ rw h
  ]

  put_timing_lem : put_timing v c ≡ put_items c (timing_items v)
  unfolding put_timing put_items
  put_timing_lem =
      rw (and-mask 16 v.num_units_in_tick, and-mask 16 v.time_scale)
        (elim (Bool-cases (is_set v.timing_info_present)) [ inl h ↦ rw h | inr h ↦ rw h ])

  put_restriction_lem : put_restriction v c ≡ put_items c (restriction_items v)
  unfolding put_restriction put_items
  put_restriction_lem = elim (Bool-cases (is_set v.bitstream_restriction)) [
    | inl h ↦ rw h
    | inr h ↦ rw h
  ]

put_vui_lem : (v : Vui) (c : WriteCtx) → put_vui v c ≡ put_items c (vui_items v)
unfolding put_vui put_items
put_vui_lem v c = elim (Bool-cases (is_set v.vui_present)) [
  | inr h ↦ rw h
  | inl h ↦ rw h (
      stage _ _ (aspect_items v) _ (put_aspect_lem v _) (
        stage _ _ (overscan_items v) _ (put_overscan_lem v _) (
          stage _ _ (signal_items v) _ (put_signal_lem v _) (
            stage _ _ (chroma_loc_items v) _ (put_chroma_loc_lem v _)
              (stage _ _ (timing_items v) _ (put_timing_lem v _) (put_restriction_lem v _))))))
]

-- The calls of the writer are those of the syntax.
pub put_sps_lem :
    (sps : Sps) (c : WriteCtx) → IsSupported sps → put_sps sps c ≡ put_items c (sps_items sps)
unfolding put_sps
put_sps_lem sps c v = stage _ _ (profile_items sps) _ (put_profile_lem sps c) (
    stage _ _ (chroma_items sps) _ (put_chroma_format_lem sps _ v) (
      stage _ _ (order_items sps) _ (put_order_lem sps _) (
        stage _ _ (size_items sps) _ (put_size_lem sps _)
          (stage _ _ (crop_items sps) _ (put_crop_lem sps _) (put_vui_lem sps.vui _)))))
