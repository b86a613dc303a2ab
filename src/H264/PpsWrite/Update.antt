-- ===== src/H264/PpsWrite/Update.antt =====
-- The picture parameter set that h264e_pps_update makes can be written.
use rockchip_kmpp.Prelude.{
  zero, suc, ◌+◌, ◌≤◌, ◌≡◌, [], ◌∷◌, arith, ltb, ◌==◌, ◌&&◌, ◌||◌, if◌then◌else◌, Bool-cases, inl,
  inr,
}
use rockchip_kmpp.Prelude.Int.{ℤ, pos, negsuc, ◌-ℤ◌, ◌≤ℤ◌}
use rockchip_kmpp.BitReader.Items.{IsItem, All}
use rockchip_kmpp.H264.{Pps}
use rockchip_kmpp.H264.Packet.{Packet}
use rockchip_kmpp.H264.Chain.{is_set, All-append, All-when}
use rockchip_kmpp.H264.Nal.{Holds, HasRoom}
use rockchip_kmpp.H264.SpsWrite.{profile_high}
use rockchip_kmpp.H264.PpsWrite.{PpsCfg, pps_update, pps_to_packet}
use rockchip_kmpp.H264.PpsWrite.Syntax.{
  se, no_lists, matrix_items, more_items, base_items, pps_items, IsSupported,
}
use rockchip_kmpp.H264.PpsWrite.Trip.{pps_to_packet-Holds}

-- A configuration in range. Scaling lists are for the high profiles with the transform of 8x8 blocks.
pub record IsCodec (codec : PpsCfg) : Type 0 where
  pub entropy : codec.entropy_coding_mode ≤ 1
  pub constrained : codec.constrained_intra_pred_mode ≤ 1
  pub transform : codec.transform8x8_mode ≤ 1
  pub lists : codec.scaling_list_mode ≤ 1
  pub lists_high :
      codec.scaling_list_mode ≡ 1 → (profile_high ≤ codec.profile) × (codec.transform8x8_mode ≡ 1)
  pub cb_low : negsuc 11 ≤ℤ codec.chroma_cb_qp_offset
  pub cb_high : codec.chroma_cb_qp_offset ≤ℤ pos 12
  pub cr_low : negsuc 11 ≤ℤ codec.chroma_cr_qp_offset
  pub cr_high : codec.chroma_cr_qp_offset ≤ℤ pos 12

se-IsItem : (z : ℤ) → negsuc 11 ≤ℤ z → z ≤ℤ pos 12 → IsItem (se z)
se-IsItem (pos zero) h k = omega arith
se-IsItem (pos (suc n)) h k = omega arith
se-IsItem (negsuc n) h k = omega arith

module _ (pps : Pps) (transform : pps.transform_8x8_mode ≤ 1)
    (lists : pps.scaling_list_mode ≤ 1) where
  matrix-IsItem : All IsItem (matrix_items pps)
  matrix-IsItem = All-when (is_set pps.scaling_list_mode) _ (λ on.
      let one : pps.scaling_list_mode ≡ 1 = ground arith in
      All-append no_lists _ (omega arith)
        (All-when (is_set pps.transform_8x8_mode) _ (λ _. rw one (omega arith))))

  more-IsItem-of : IsItem (se pps.second_chroma_qp_index_offset) → All IsItem (more_items pps)
  more-IsItem-of offset =
      All-when
        (is_set pps.transform_8x8_mode
          || (is_set pps.second_chroma_qp_index_offset_present || is_set pps.scaling_list_mode))
        _
        (λ _. (
          (omega arith, omega arith),
          (
            (omega arith, ground arith),
            All-append (matrix_items pps) (se pps.second_chroma_qp_index_offset ∷ []) matrix-IsItem
                (offset, tt),
          ),
        ))

module _ (codec : PpsCfg) (c : IsCodec codec) where
  base-IsItem : All IsItem (base_items (pps_update codec))
  unfolding pps_update ◌-ℤ◌
  base-IsItem =
      let cb = se-IsItem codec.chroma_cb_qp_offset c.cb_low c.cb_high in
      let entropy : (if (codec.profile == 66) && is_set codec.entropy_coding_mode
            then 0
            else codec.entropy_coding_mode)
          ≤ 1 =
        ground (arith, c.entropy) in
      omega (arith, c.constrained, cb, entropy)

  supported : IsSupported (pps_update codec)
  unfolding pps_update
  supported = elim (Bool-cases (codec.scaling_list_mode == 0)) [
    | inl off ↦ inl (ground arith)
    | inr on ↦
        let one : codec.scaling_list_mode ≡ 1 = ground (arith, c.lists) in
        inr (inl one, ground (arith, c.lists_high one))
  ]

  second : IsItem (se (pps_update codec).second_chroma_qp_index_offset)
  unfolding pps_update
  second = elim (Bool-cases (ltb codec.profile profile_high)) [
    | inl low ↦ rw low (se-IsItem codec.chroma_cb_qp_offset c.cb_low c.cb_high)
    | inr high ↦ rw high (se-IsItem codec.chroma_cr_qp_offset c.cr_low c.cr_high)
  ]

  more-IsItem : All IsItem (more_items (pps_update codec))
  unfolding pps_update
  more-IsItem = more-IsItem-of (pps_update codec) (ground (arith, c.transform)) c.lists second

-- The set that h264e_pps_update makes of a configuration in range, with scaling lists only in the high
-- profiles and with the transform of 8x8 blocks, is put into a packet with room by
-- h264e_pps_to_packet: behind what the packet holds a NAL unit of type 8, from which the bit reader
-- reads the fields of the syntax of H.264 in their order, signed ones as code numbers. The bytes
-- before it stay, the length grows by what is returned, and the buffer is not left.
pub pps_update-Holds :
    (codec : PpsCfg) (p : Packet)
    → IsCodec codec
    → HasRoom p (pps_items (pps_update codec))
    → let r = pps_to_packet (pps_update codec) p in
      (r.1.length ≡ p.length + r.0) × Holds p r.1 8 (pps_items (pps_update codec))
pps_update-Holds codec p c room =
    let pps = pps_update codec in
    pps_to_packet-Holds pps p (supported codec c)
      (All-append (base_items pps) (more_items pps) (base-IsItem codec c) (more-IsItem codec c))
      room
