-- ===== src/H264/PpsWrite.antt =====
-- vcodec/mpp/codec/enc/h264e/h264e_pps.c: how the picture parameter set is set and written.
pub mod Syntax
pub mod Trip
pub mod Update
use rockchip_kmpp.Prelude.{
  ℕ, zero, suc, ◌+◌, ◌-◌, ◌*◌, ◌/◌, ◌^◌, Bool, not, ◌&&◌, ◌||◌, ltb, ◌==◌, if◌then◌else◌, List, [],
  ◌∷◌, get_or,
}
use rockchip_kmpp.Prelude.Cast.{low_bits, signed8}
use rockchip_kmpp.Prelude.Int.{ℤ, pos, ◌-ℤ◌}
use rockchip_kmpp.BitWriter.{WriteCtx, trailing, bytes}
use rockchip_kmpp.H264.{Pps}
use rockchip_kmpp.H264.Packet.{Packet, open_writer, close_writer}
use rockchip_kmpp.H264.Chain.{◌▸◌, u, e, s, is_set, start_nal}
use rockchip_kmpp.H264.SpsWrite.{profile_high, pred32}

-- H264_PROFILE_BASELINE and H264_NALU_TYPE_PPS
abbrev pub profile_baseline : ℕ
profile_baseline = 66

abbrev pub nalu_type_pps : ℕ
nalu_type_pps = 8

abbrev pub zigzag : List ℕ
zigzag =
    0 ∷ 8 ∷ 1 ∷ 2 ∷ 9 ∷ 16 ∷ 24 ∷ 17 ∷ 10 ∷ 3 ∷ 4 ∷ 11 ∷ 18 ∷ 25 ∷ 32 ∷ 40 ∷ 33 ∷ 26 ∷ 19 ∷ 12 ∷ 5
    ∷ 6 ∷ 13 ∷ 20 ∷ 27 ∷ 34 ∷ 41 ∷ 48 ∷ 56 ∷ 49 ∷ 42 ∷ 35 ∷ 28 ∷ 21 ∷ 14 ∷ 7 ∷ 15 ∷ 22 ∷ 29 ∷ 36
    ∷ 43 ∷ 50 ∷ 57 ∷ 58 ∷ 51 ∷ 44 ∷ 37 ∷ 30 ∷ 23 ∷ 31 ∷ 38 ∷ 45 ∷ 52 ∷ 59 ∷ 60 ∷ 53 ∷ 46 ∷ 39 ∷ 47
    ∷ 54 ∷ 61 ∷ 62 ∷ 55 ∷ 63 ∷ []

abbrev pub intra_scl : List ℕ
intra_scl =
    10 ∷ 11 ∷ 14 ∷ 16 ∷ 17 ∷ 19 ∷ 21 ∷ 23 ∷ 11 ∷ 12 ∷ 16 ∷ 17 ∷ 19 ∷ 21 ∷ 23 ∷ 25 ∷ 14 ∷ 16 ∷ 17
    ∷ 19 ∷ 21 ∷ 23 ∷ 25 ∷ 27 ∷ 16 ∷ 17 ∷ 19 ∷ 21 ∷ 23 ∷ 25 ∷ 27 ∷ 28 ∷ 17 ∷ 19 ∷ 21 ∷ 23 ∷ 25 ∷ 27
    ∷ 28 ∷ 29 ∷ 19 ∷ 21 ∷ 23 ∷ 25 ∷ 27 ∷ 28 ∷ 29 ∷ 30 ∷ 21 ∷ 23 ∷ 25 ∷ 27 ∷ 28 ∷ 29 ∷ 30 ∷ 31 ∷ 23
    ∷ 25 ∷ 27 ∷ 28 ∷ 29 ∷ 30 ∷ 31 ∷ 32 ∷ []

abbrev pub inter_scl : List ℕ
inter_scl =
    12 ∷ 13 ∷ 15 ∷ 16 ∷ 17 ∷ 19 ∷ 20 ∷ 21 ∷ 13 ∷ 14 ∷ 16 ∷ 17 ∷ 19 ∷ 20 ∷ 21 ∷ 22 ∷ 15 ∷ 16 ∷ 17
    ∷ 19 ∷ 20 ∷ 21 ∷ 22 ∷ 23 ∷ 16 ∷ 17 ∷ 19 ∷ 20 ∷ 21 ∷ 22 ∷ 23 ∷ 25 ∷ 17 ∷ 19 ∷ 20 ∷ 21 ∷ 22 ∷ 23
    ∷ 25 ∷ 27 ∷ 19 ∷ 20 ∷ 21 ∷ 22 ∷ 23 ∷ 25 ∷ 27 ∷ 28 ∷ 20 ∷ 21 ∷ 22 ∷ 23 ∷ 25 ∷ 27 ∷ 28 ∷ 29 ∷ 21
    ∷ 22 ∷ 23 ∷ 25 ∷ 27 ∷ 28 ∷ 29 ∷ 30 ∷ []

-- The part of MppEncH264Cfg that the set is made from.
pub record PpsCfg : Type 0 where
  pub profile : ℕ
  pub entropy_coding_mode : ℕ
  pub chroma_cb_qp_offset : ℤ
  pub chroma_cr_qp_offset : ℤ
  pub constrained_intra_pred_mode : ℕ
  pub transform8x8_mode : ℕ
  pub scaling_list_mode : ℕ

-- h264e_pps_update. The assertion on the mode of the scaling lists only logs.
unfoldable pub pps_update : PpsCfg → Pps
pps_update codec =
    let low = ltb codec.profile profile_high in
    record {
      pps_id = 0;
      sps_id = 0;
      entropy_coding_mode =
          if (codec.profile == profile_baseline) && is_set codec.entropy_coding_mode
          then 0
          else codec.entropy_coding_mode;
      bottom_field_pic_order_in_frame_present = 0;
      num_slice_groups = 1;
      num_ref_idx_l0_default_active = 1;
      num_ref_idx_l1_default_active = 1;
      weighted_pred = 1;
      weighted_bipred_idc = 0;
      pic_init_qp = pos 26;
      pic_init_qs = pos 26;
      chroma_qp_index_offset = codec.chroma_cb_qp_offset;
      second_chroma_qp_index_offset_present = if low then 0 else 1;
      second_chroma_qp_index_offset =
          if low then codec.chroma_cb_qp_offset else codec.chroma_cr_qp_offset;
      deblocking_filter_control = 1;
      constrained_intra_pred = codec.constrained_intra_pred_mode;
      redundant_pic_cnt = 0;
      transform_8x8_mode =
          if low && is_set codec.transform8x8_mode then 0 else codec.transform8x8_mode;
      scaling_list_mode = codec.scaling_list_mode;
    }

-- A value of a list in scan order.
abbrev pub scan_at : List ℕ → ℕ → ℕ
scan_at scl i = get_or scl (get_or zigzag i 0) 0

-- `(int8_t)z`
abbrev pub int8 : ℤ → ℤ
int8 z = signed8 (low_bits 8 z)

-- `for (run = len; run > 1; run--)`: where the values at the end begin to be all the same.
pub run_from : List ℕ → ℕ → ℕ
run_from scl zero = 0
run_from scl (suc zero) = 1
run_from scl (suc (suc k)) =
    let shorter = run_from scl (suc k) in
    if scan_at scl (suc k) == scan_at scl k then shorter else suc (suc k)

-- A value less the one before it.
pub delta : List ℕ → ℕ → ℤ
unfolding ◌-ℤ◌
delta scl j = int8 (pos (scan_at scl j) -ℤ pos (if ltb 0 j then scan_at scl (j - 1) else 8))

-- `for (j = 0; j < run; j ++)`, from `j` on.
pub put_deltas : List ℕ → ℕ → ℕ → WriteCtx → WriteCtx
put_deltas scl zero j c = c
put_deltas scl (suc rounds) j c = put_deltas scl rounds (j + 1) (c ▸ s (delta scl j))

pub put_list : List ℕ → WriteCtx → WriteCtx
unfolding ◌-ℤ◌
put_list scl c =
    let run = run_from scl 64 in
    let c' = c ▸ u 1 1 ▸ put_deltas scl run 0 in
    if ltb run 64 then c' ▸ s (int8 (pos 0 -ℤ pos (scan_at scl run))) else c'

-- The lists of the 8x8 blocks.
pub put_lists : Pps → WriteCtx → WriteCtx
put_lists pps c =
    if pps.scaling_list_mode == 1
    then c ▸ u 0 1 ▸ u 0 1
    else if pps.scaling_list_mode == 2
    then (if is_set pps.transform_8x8_mode
        then c ▸ put_list intra_scl ▸ put_list inter_scl
        else c ▸ u 0 1 ▸ u 0 1)
    else c

pub put_matrix : Pps → WriteCtx → WriteCtx
put_matrix pps c =
    if is_set pps.scaling_list_mode then c ▸ u 0 1 ▸ u 0 1 ▸ u 0 1 ▸ u 0 1 ▸ u 0 1 ▸ u 0 1 else c

pub put_more : Pps → WriteCtx → WriteCtx
put_more pps c =
    if is_set pps.transform_8x8_mode
      || (is_set pps.second_chroma_qp_index_offset_present || is_set pps.scaling_list_mode)
    then c
      ▸ u pps.transform_8x8_mode 1
      ▸ u (if is_set pps.scaling_list_mode then 1 else 0) 1
      ▸ put_matrix pps
      ▸ put_lists pps
      ▸ s pps.second_chroma_qp_index_offset
    else c

pub put_base : Pps → WriteCtx → WriteCtx
unfolding ◌-ℤ◌
put_base pps c =
    c
    ▸ e pps.pps_id
    ▸ e pps.sps_id
    ▸ u pps.entropy_coding_mode 1
    ▸ u pps.bottom_field_pic_order_in_frame_present 1
    ▸ e (pred32 pps.num_slice_groups)
    ▸ e (pred32 pps.num_ref_idx_l0_default_active)
    ▸ e (pred32 pps.num_ref_idx_l1_default_active)
    ▸ u pps.weighted_pred 1
    ▸ u pps.weighted_bipred_idc 2
    ▸ s (pps.pic_init_qp -ℤ pos 26)
    ▸ s (pps.pic_init_qs -ℤ pos 26)
    ▸ s pps.chroma_qp_index_offset
    ▸ u pps.deblocking_filter_control 1
    ▸ u pps.constrained_intra_pred 1
    ▸ u pps.redundant_pic_cnt 1

pub put_pps : Pps → WriteCtx → WriteCtx
put_pps pps c = c ▸ put_base pps ▸ put_more pps

-- h264e_pps_to_packet: what is stored in `len` and returned, and the packet.
pub pps_to_packet : Pps → Packet → ℕ × Packet
pps_to_packet pps p =
    let c = open_writer p ▸ start_nal nalu_type_pps ▸ put_pps pps ▸ trailing in
    (bytes c, close_writer p c)
