-- ===== src/H264/Slice/Tests.antt =====
-- Two IDR frames with a frame between them.
use rockchip_kmpp.Prelude.{◌<◌, ◌≡◌, ◌≢◌, refl, arith, [], ◌∷◌, true, false, ◌==◌}
use rockchip_kmpp.Prelude.Int.{pos}
use rockchip_kmpp.RefTypes.{no_frm}
use rockchip_kmpp.H264.Dpb.{DpbFrm, no_slot}
use rockchip_kmpp.H264.Slice.{SliceCfg, slice_init, slice_update}
use rockchip_kmpp.H264.Slice.Header.{update_all, slice_update-distinct}
use rockchip_kmpp.H264.Tests.{sps, pps}

abbrev slice_cfg : SliceCfg
slice_cfg = record {
  entropy_coding_mode = 1;
  cabac_init_idc = 0;
  deblock_disable = 0;
  deblock_offset_alpha = pos 0;
  deblock_offset_beta = pos 0;
}

abbrev idr : DpbFrm
idr = record no_slot { status = record no_frm { valid = true; is_idr = true } }

slice_update-distinct_example :
    let first = slice_update slice_init slice_cfg sps pps idr in
    let second =
      slice_update (update_all slice_cfg sps pps first (no_slot ∷ [])) slice_cfg sps pps idr in
    (first.idr_pic_id ≢ second.idr_pic_id)
    × (second.idr_pic_id < 16)
    × (second.next_idr_pic_id < 16)
    × (second.nalu_type ≡ 5)
    × (second.slice_type ≡ 2)
    × ((second.nal_reference_idc == 0) ≡ false)
slice_update-distinct_example =
    slice_update-distinct slice_cfg sps pps slice_init idr idr (no_slot ∷ []) (omega arith) refl
      (refl, tt) refl
