-- ===== src/H264/Marking/Tests.antt =====
-- The marking of a long-term frame.
use rockchip_kmpp.Prelude.{◌≡◌, refl, arith, [], ◌∷◌, true, some}
use rockchip_kmpp.Prelude.Ret.{ok}
use rockchip_kmpp.RefTypes.{no_frm, no_info}
use rockchip_kmpp.H264.Dpb.{Dpb, dpb_init, no_slot}
use rockchip_kmpp.H264.Marking.{
  Mmco, Rplmo, MarkingInfo, ReorderInfo, marking_init, reorder_init, wr_rewind, rd_rewind,
  build_marking,
}
use rockchip_kmpp.H264.Marking.Queue.{wr_ops, rd_ops, rd_ops-wr_ops}
use rockchip_kmpp.H264.Marking.Build.{marks, build_marking-marks}

abbrev blank : Mmco
blank = record {
  mmco = 0;
  difference_of_pic_nums_minus1 = 0;
  long_term_pic_num = 0;
  long_term_frame_idx = 0;
  max_long_term_frame_idx_plus1 = 0;
}

abbrev to_lt : Rplmo
to_lt = record {
  modification_of_pic_nums_idc = 2;
  abs_diff_pic_num_minus1 = 0;
  long_term_pic_idx = 1;
  abs_diff_view_idx_minus1 = 0;
}

abbrev reorder : ReorderInfo
reorder = reorder_init (record { rd_cnt = 0; wr_cnt = 0; size = 0; ops = λ _. to_lt })

abbrev marking : MarkingInfo
marking = marking_init (record {
  idr_flag = 0;
  no_output_of_prior_pics = 0;
  long_term_reference_flag = 0;
  adaptive_ref_pic_buffering = 0;
  queue = record { rd_cnt = 0; wr_cnt = 0; size = 0; ops = λ _. blank };
})

abbrev dpb : Dpb
dpb = record dpb_init {
  info = record no_info { max_lt_idx = 1 };
  curr = some 0;
  frames = λ _. record no_slot {
    lt_idx = 1;
    status = record no_frm { valid = true; is_lt_ref = true; lt_idx = 1 };
  };
}

rd_ops-wr_ops_example :
    let r = wr_ops (wr_rewind reorder) (to_lt ∷ []) in
    (r.0 ≡ ok) × (rd_ops 2 (rd_rewind r.1) to_lt ≡ to_lt ∷ [])
rd_ops-wr_ops_example = rd_ops-wr_ops reorder (to_lt ∷ []) to_lt (omega arith)

build_marking-marks_example :
    (dpb' : Dpb) × (m : MarkingInfo) × (build_marking blank dpb marking ≡ some (dpb', m))
    × (rd_ops 3 (rd_rewind m.queue) blank ≡ marks blank (dpb.frames 0) dpb)
    × (m.idr_flag ≡ 0)
    × (true ≡ true → dpb'.curr_max_lt_idx ≡ dpb'.info.max_lt_idx)
build_marking-marks_example = build_marking-marks blank dpb marking 0 blank refl (omega arith)
