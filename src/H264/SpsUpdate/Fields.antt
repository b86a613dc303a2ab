-- ===== src/H264/SpsUpdate/Fields.antt =====
-- The sequence parameter set that h264e_sps_update makes can be written.
use rockchip_kmpp.Prelude.{
  ℕ, ◌+◌, ◌/◌, ◌^◌, ◌≤◌, ◌<◌, ◌≡◌, refl, ◌⊎◌, true, List, [], ◌∷◌, ◌++◌, arith, ◌==◌, if◌then◌else◌,
}
use rockchip_kmpp.Prelude.Ret.{ok}
use rockchip_kmpp.RefCheck.{cfg_cpb_info}
use rockchip_kmpp.BitReader.Items.{bits, ue, IsItem, All}
use rockchip_kmpp.H264.{Sps, Vui}
use rockchip_kmpp.H264.Packet.{Packet}
use rockchip_kmpp.H264.Chain.{is_set, when, All-append, All-when}
use rockchip_kmpp.H264.Nal.{Holds, HasRoom}
use rockchip_kmpp.H264.SpsWrite.{sps_to_packet}
use rockchip_kmpp.H264.SpsWrite.Syntax.{
  is_profile, has_chroma, IsSupported, profile_items, chroma_items, order_items, size_items,
  crop_items, vui_items, sps_items, aspect_items, overscan_items, signal_items, chroma_loc_items,
  timing_items, restriction_items,
}
use rockchip_kmpp.H264.SpsWrite.Trip.{sps_to_packet-Holds}
use rockchip_kmpp.H264.SpsUpdate.{
  SpsCfg, LevelInfo, level_infos, raise_level, frame_mbs, frame_num_bits, poc_lsb_bits, made_vui,
  made_crop, crop_right, crop_bottom, is_cropped, describes, sps_update,
}
use rockchip_kmpp.H264.SpsUpdate.Size.{align16_lem}

-- A configuration in range: a known profile, a type of the picture order count that the set has the
-- fields of, and numbers that the fields of the syntax are wide enough for.
pub record IsCfg (cfg : SpsCfg) : Type 0 where
  pub some_width : 0 < cfg.width
  pub some_height : 0 < cfg.height
  pub width : cfg.width < 2 ^ 16
  pub height : cfg.height < 2 ^ 16
  pub gop : cfg.gop < 2 ^ 32
  pub num : cfg.fps_out_num < 2 ^ 31
  pub denorm : cfg.fps_out_denorm < 2 ^ 32
  pub profile : is_profile cfg.profile ≡ true
  pub level : cfg.level < 2 ^ 8
  pub poc_type : (cfg.poc_type ≡ 0) ⊎ (cfg.poc_type ≡ 2)
  pub frame_num : cfg.log2_max_frame_num ≤ 12
  pub poc_lsb : cfg.log2_max_poc_lsb ≤ 12
  pub transform : cfg.transform8x8_mode ≤ 1
  pub color : cfg.color < 2 ^ 8
  pub colorprim : cfg.colorprim < 2 ^ 8
  pub colortrc : cfg.colortrc < 2 ^ 8
  pub dpb : (cfg_cpb_info cfg.ref_cfg).dpb_size ≤ 16

-- What the set takes from the configuration, in the numbers that a decoder reads. The time scale
-- counts fields, two of which make a frame.
pub record Asks (cfg : SpsCfg) (sps : Sps) : Type 0 where
  pub profile : sps.profile_idc ≡ cfg.profile
  pub order : sps.pic_order_cnt_type ≡ cfg.poc_type
  pub frames : sps.num_ref_frames ≡ (cfg_cpb_info cfg.ref_cfg).dpb_size
  pub buffering : sps.vui.max_dec_frame_buffering ≡ sps.num_ref_frames
  pub tick : sps.vui.num_units_in_tick ≡ cfg.fps_out_denorm
  pub scale : sps.vui.time_scale ≡ cfg.fps_out_num + cfg.fps_out_num
  pub frame_num : sps.log2_max_frame_num_minus4 ≤ 12
  pub poc_lsb : sps.log2_max_poc_lsb_minus4 ≤ 12

level_bound :
    (es : List LevelInfo) (mbs level : ℕ)
    → All (λ (e : LevelInfo). e.level < 2 ^ 8) es
    → level < 2 ^ 8
    → raise_level es mbs level < 2 ^ 8
unfolding raise_level
level_bound [] mbs level h k = k
level_bound (e ∷ es) mbs level h k =
    let rest = level_bound es mbs level h.1 k in ground (arith, rest, h.0, k)

signal-All :
    (v : Vui)
    → v.signal_type_present ≤ 1
    → v.vidformat < 8
    → v.fullrange ≤ 1
    → v.color_description_present ≤ 1
    → v.colorprim < 2 ^ 8
    → v.colortrc < 2 ^ 8
    → v.colmatrix < 2 ^ 8
    → All IsItem (signal_items v)
signal-All v present format full description prim trc matrix =
    let colours =
      All-when (is_set v.color_description_present)
        ((bits 8, v.colorprim) ∷ (bits 8, v.colortrc) ∷ (bits 8, v.colmatrix) ∷ [])
        (λ _. omega arith) in
    (
      omega arith,
      All-when (is_set v.signal_type_present)
          ((bits 3, v.vidformat)
            ∷ (bits 1, v.fullrange)
            ∷ (bits 1, v.color_description_present)
            ∷ when (is_set v.color_description_present)
                ((bits 8, v.colorprim) ∷ (bits 8, v.colortrc) ∷ (bits 8, v.colmatrix) ∷ []))
          (λ _. (omega arith, (omega arith, (omega arith, colours)))),
    )

vui-All :
    (v : Vui)
    → v.vui_present ≤ 1
    → All IsItem (aspect_items v)
    → All IsItem (overscan_items v)
    → All IsItem (signal_items v)
    → All IsItem (chroma_loc_items v)
    → All IsItem (timing_items v)
    → All IsItem (restriction_items v)
    → All IsItem (vui_items v)
vui-All v present aspect overscan signal chroma_loc timing restriction =
    let last = timing_items v ++ restriction_items v in
    let located = chroma_loc_items v ++ last in
    let signalled = signal_items v ++ located in
    let scanned = overscan_items v ++ signalled in
    let h₁ = All-append (timing_items v) (restriction_items v) timing restriction in
    let h₂ = All-append (chroma_loc_items v) last chroma_loc h₁ in
    let h₃ = All-append (signal_items v) located signal h₂ in
    let h₄ = All-append (overscan_items v) signalled overscan h₃ in
    (
      omega arith,
      All-when (is_set v.vui_present) (aspect_items v ++ scanned)
          (λ _. All-append (aspect_items v) scanned aspect h₄),
    )

sps-All :
    (sps : Sps)
    → All IsItem (profile_items sps)
    → All IsItem (chroma_items sps)
    → All IsItem (order_items sps)
    → All IsItem (size_items sps)
    → All IsItem (crop_items sps)
    → All IsItem (vui_items sps.vui)
    → All IsItem (sps_items sps)
sps-All sps profile chroma order size crop vui =
    let cropped = crop_items sps ++ vui_items sps.vui in
    let sized = size_items sps ++ cropped in
    let ordered = order_items sps ++ sized in
    let h₁ = All-append (crop_items sps) (vui_items sps.vui) crop vui in
    let h₂ = All-append (size_items sps) cropped size h₁ in
    let h₃ = All-append (order_items sps) sized order h₂ in
    let h₄ = All-append (chroma_items sps) ordered chroma h₃ in
    All-append (profile_items sps) (chroma_items sps ++ ordered) profile h₄

module _ (cfg : SpsCfg) (c : IsCfg cfg) where
  frame_num_range : frame_num_bits cfg ≤ 12
  unfolding frame_num_bits
  frame_num_range = ground (arith, c.frame_num)

  poc_lsb_range : poc_lsb_bits cfg ≤ 12
  unfolding poc_lsb_bits
  poc_lsb_range = ground (arith, c.poc_lsb)

  profile_fits : All IsItem (profile_items (sps_update cfg))
  unfolding sps_update
  profile_fits =
      let level = level_bound level_infos (frame_mbs cfg) cfg.level (omega arith) c.level in
      let profile : cfg.profile < 2 ^ 8 = ground (arith, c.profile) in omega (arith, profile, level)

  order_fits : All IsItem (order_items (sps_update cfg))
  unfolding sps_update
  order_fits = (
    omega (arith, frame_num_range),
    (
      ground (arith, c.poc_type),
      All-when (cfg.poc_type == 0) ((ue, poc_lsb_bits cfg) ∷ [])
          (λ _. omega (arith, poc_lsb_range)),
    ),
  )

  size_fits : All IsItem (size_items (sps_update cfg))
  unfolding sps_update
  size_fits =
      let w = align16_lem cfg.width (omega (arith, c.width)) in
      let h = align16_lem cfg.height (omega (arith, c.height)) in
      let flag : (if is_set cfg.gaps_not_allowed then 0 else 1) ≤ 1 = ground arith in
      let cropped : (if is_cropped cfg then 1 else 0) ≤ 1 = ground arith in
      omega (
        arith, c.dpb, w, h, flag, cropped, c.width, c.height, c.some_width, c.some_height,
        c.transform,
      )

  crop_fits : All IsItem (crop_items (sps_update cfg))
  unfolding sps_update made_crop
  crop_fits =
      let w = align16_lem cfg.width (omega (arith, c.width)) in
      let h = align16_lem cfg.height (omega (arith, c.height)) in
      let right : (if is_cropped cfg then crop_right cfg else 0) ≤ 16 =
        ground (arith, w, c.width) in
      let bottom : (if is_cropped cfg then crop_bottom cfg else 0) ≤ 16 =
        ground (arith, h, c.height) in
      All-when (is_set (if is_cropped cfg then 1 else 0))
        ((ue, 0 / 2)
          ∷ (ue, (if is_cropped cfg then crop_right cfg else 0) / 2)
          ∷ (ue, 0 / 2)
          ∷ (ue, (if is_cropped cfg then crop_bottom cfg else 0) / 2)
          ∷ [])
        (λ _. omega (arith, right, bottom))

  signal_fits : All IsItem (signal_items (made_vui cfg))
  unfolding made_vui
  signal_fits =
      let colour : (x : ℕ) → x < 2 ^ 8 → (if describes cfg then x else 0) < 2 ^ 8 =
        λ x h. ground arith in
      signal-All (made_vui cfg) (ground arith) (omega arith) (ground arith) (ground arith)
        (colour cfg.colorprim c.colorprim) (colour cfg.colortrc c.colortrc)
        (colour cfg.color c.color)

  timing_fits : All IsItem (timing_items (made_vui cfg))
  unfolding made_vui
  timing_fits =
      let flag : (if is_set cfg.fps_out_flex then 0 else 1) ≤ 1 = ground arith in
      omega (arith, flag, c.denorm)

  vui_fits : All IsItem (vui_items (sps_update cfg).vui)
  unfolding sps_update made_vui
  vui_fits =
      vui-All (made_vui cfg) (omega arith) (omega arith) (omega arith) signal_fits (omega arith)
        timing_fits (omega (arith, c.dpb))

  chroma_fits : All IsItem (chroma_items (sps_update cfg))
  unfolding sps_update
  chroma_fits =
      All-when (has_chroma cfg.profile)
        ((ue, 1) ∷ (ue, 0) ∷ (ue, 0) ∷ (bits 1, 0) ∷ (bits 1, 0) ∷ []) (λ _. omega arith)

  sps_fits : All IsItem (sps_items (sps_update cfg))
  sps_fits =
      sps-All (sps_update cfg) profile_fits chroma_fits order_fits size_fits crop_fits vui_fits

  supported : IsSupported (sps_update cfg)
  unfolding sps_update made_vui
  supported = record {
    profile = c.profile;
    chroma = refl;
    order = c.poc_type;
    progressive = refl;
    no_nal_hrd = refl;
    no_vcl_hrd = refl;
  }

  asked : Asks cfg (sps_update cfg)
  unfolding sps_update made_vui
  asked = record {
    profile = refl;
    order = refl;
    frames = refl;
    buffering = refl;
    tick = refl;
    scale = omega (arith, c.num);
    frame_num = frame_num_range;
    poc_lsb = poc_lsb_range;
  }

-- The set that h264e_sps_update makes of a configuration in range is put into a packet with room by
-- h264e_sps_to_packet: behind what the packet holds a NAL unit of type 7, from which the bit reader
-- reads the fields that the syntax of H.264 has for such a set, in their order. They are the
-- profile, the type of the picture order count, the number of reference frames and the frame rate,
-- a time scale of twice the frames to the units of a tick, of the configuration, with lengths of
-- the frame numbers and of the picture order counts that H.264 allows. The bytes before it stay,
-- the length grows by what is returned, and the buffer is not left.
pub sps_update-Holds :
    (cfg : SpsCfg) (p : Packet)
    → IsCfg cfg
    → HasRoom p (sps_items (sps_update cfg))
    → let sps = sps_update cfg in
      let r = sps_to_packet sps p in
      (r.0 ≡ ok)
      × (r.2.length ≡ p.length + r.1)
      × Holds p r.2 7 (sps_items sps)
      × IsSupported sps
      × Asks cfg sps
sps_update-Holds cfg p c room =
    let (code, longer, holds) =
      sps_to_packet-Holds (sps_update cfg) p (supported cfg c) (sps_fits cfg c) room in
    (code, longer, holds, supported cfg c, asked cfg c)
