-- ===== src/H264/Marking.antt =====
-- vcodec/mpp/codec/enc/h264e/h264e_slice.c: the operations on reference lists and on reference
-- marking that wait for the slice header, and how h264e_dpb.c makes those on marking.
pub mod Queue
pub mod Build
mod Tests
use rockchip_kmpp.Prelude.{
  ℕ, zero, suc, ◌+◌, List, [], ◌∷◌, Bool, ltb, leb, not, ◌==◌, if◌then◌else◌, Option, none, some,
}
use rockchip_kmpp.Prelude.Maybe.{◌>>=◌}
use rockchip_kmpp.Prelude.Ret.{Ret, ok, nok, is_err}
use rockchip_kmpp.H264.Dpb.{Dpb, DpbFrm}

-- H264eRplmo
pub record Rplmo : Type 0 where
  pub modification_of_pic_nums_idc : ℕ
  pub abs_diff_pic_num_minus1 : ℕ
  pub long_term_pic_idx : ℕ
  pub abs_diff_view_idx_minus1 : ℕ

-- H264eMmco
pub record Mmco : Type 0 where
  pub mmco : ℕ
  pub difference_of_pic_nums_minus1 : ℕ
  pub long_term_pic_num : ℕ
  pub long_term_frame_idx : ℕ
  pub max_long_term_frame_idx_plus1 : ℕ

-- The counts and the array that H264eReorderInfo and H264eMarkingInfo both have.
pub record Ops (A : Type 0) : Type 0 where
  pub rd_cnt : ℕ
  pub wr_cnt : ℕ
  pub size : ℕ
  pub ops : ℕ → A

abbrev pub ReorderInfo : Type 0
ReorderInfo = Ops Rplmo

-- H264eMarkingInfo
pub record MarkingInfo : Type 0 where
  pub idr_flag : ℕ
  pub no_output_of_prior_pics : ℕ
  pub long_term_reference_flag : ℕ
  pub adaptive_ref_pic_buffering : ℕ
  pub queue : Ops Mmco

-- h264e_reorder_init. The array keeps what it holds.
abbrev pub reorder_init : ReorderInfo → ReorderInfo
reorder_init q = record q { size = 16; rd_cnt = 0; wr_cnt = 0 }

-- h264e_marking_init
abbrev pub marking_init : MarkingInfo → MarkingInfo
marking_init m = record {
  idr_flag = 0;
  no_output_of_prior_pics = 0;
  long_term_reference_flag = 0;
  adaptive_ref_pic_buffering = 0;
  queue = record m.queue { size = 8; wr_cnt = 0; rd_cnt = 0 };
}

module _ {A : Type 0} where
  -- h264e_reorder_wr_rewind, h264e_marking_wr_rewind
  abbrev pub wr_rewind : Ops A → Ops A
  wr_rewind q = record q { wr_cnt = 0 }

  -- h264e_reorder_rd_rewind, h264e_marking_rd_rewind
  abbrev pub rd_rewind : Ops A → Ops A
  rd_rewind q = record q { rd_cnt = 0 }

  -- h264e_reorder_wr_op, h264e_marking_wr_op
  unfoldable pub wr_op : Ops A → A → Ret × Ops A
  wr_op q op = if leb q.size q.wr_cnt then (nok, q) else (
    ok,
    record q { ops = λ i. if i == q.wr_cnt then op else q.ops i; wr_cnt = q.wr_cnt + 1 },
  )

  -- h264e_marking_is_empty
  abbrev pub is_empty : Ops A → Bool
  is_empty q = leb q.wr_cnt q.rd_cnt

  -- h264e_reorder_rd_op, h264e_marking_rd_op. `old` is what `op` points to.
  unfoldable pub rd_op : Ops A → A → Ret × Ops A × A
  rd_op q old =
      if is_empty q then (nok, q, old) else (ok, record q { rd_cnt = q.rd_cnt + 1 }, q.ops q.rd_cnt)

-- The operations that are added for a long-term frame. `op` is what stands in the local variable.
unfoldable pub mark_lt : Mmco → DpbFrm → Dpb → Ops Mmco → Dpb × Ops Mmco
mark_lt op frm dpb q =
    let next = dpb.info.max_lt_idx in
    let op₄ = record op { mmco = 4; max_long_term_frame_idx_plus1 = next + 1 } in
    let is_new = not (next == dpb.curr_max_lt_idx) in
    let op' = if is_new then op₄ else op in
    let q' = if is_new then (wr_op q op₄).1 else q in
    (
      record dpb { next_max_lt_idx = next; curr_max_lt_idx = next },
      (wr_op q' (record op' { mmco = 6; long_term_frame_idx = frm.lt_idx })).1,
    )

-- h264e_dpb_build_marking; `none` if there is no current frame.
unfoldable pub build_marking : Mmco → Dpb → MarkingInfo → Option (Dpb × MarkingInfo)
build_marking op dpb marking = do
  c ← dpb.curr
  let frm = dpb.frames c
  let q = wr_rewind marking.queue
  let lt = mark_lt op frm dpb q
  let plain = record marking {
    queue = q;
    idr_flag = 0;
    long_term_reference_flag = 0;
    adaptive_ref_pic_buffering = 0;
  }
  some (
      if frm.status.is_idr
      then (
        dpb,
        record marking {
          queue = q;
          idr_flag = 1;
          no_output_of_prior_pics = 0;
          long_term_reference_flag = if frm.status.is_lt_ref then 1 else 0;
        },
      )
      else if frm.status.is_non_ref
      then (dpb, plain)
      else if frm.status.is_lt_ref
      then (lt.0, record plain { queue = lt.1 })
      else (dpb, plain))
