-- ===== src/H264/Marking/Build.antt =====
-- The operations that a frame asks for, as the slice header will read them.
use mathlib.Core.Bool.{true≢false}
use rockchip_kmpp.Prelude.{
  ℕ, suc, ◌+◌, ◌≤◌, ◌≡◌, refl, sym, ap, ◌∙◌, arith, List, [], ◌∷◌, length, Bool, true, false, not,
  leb, ◌==◌, ◌||◌, if◌then◌else◌, Bool-cases, some, inl, inr,
}
use rockchip_kmpp.RefTypes.{FrmStatus}
use rockchip_kmpp.H264.Dpb.{Dpb, DpbFrm}
use rockchip_kmpp.H264.Marking.{
  Mmco, Ops, MarkingInfo, wr_op, wr_rewind, rd_rewind, mark_lt, build_marking,
}
use rockchip_kmpp.H264.Marking.Queue.{wr_ops, rd_ops, rd_ops-wr_ops}

-- A long-term frame sets the highest index if it has changed, and then takes its own index.
abbrev pub lt_marks : Mmco → DpbFrm → Dpb → List Mmco
lt_marks op frm dpb =
    let op₄ = record op { mmco = 4; max_long_term_frame_idx_plus1 = dpb.info.max_lt_idx + 1 } in
    if dpb.info.max_lt_idx == dpb.curr_max_lt_idx
    then record op { mmco = 6; long_term_frame_idx = frm.lt_idx } ∷ []
    else op₄ ∷ record op₄ { mmco = 6; long_term_frame_idx = frm.lt_idx } ∷ []

abbrev pub asks : FrmStatus → Bool
asks s = not (s.is_idr || (s.is_non_ref || not s.is_lt_ref))

-- Only a long-term frame that is no IDR frame asks for operations.
abbrev pub marks : Mmco → DpbFrm → Dpb → List Mmco
marks op frm dpb = if asks frm.status then lt_marks op frm dpb else []

mark_lt-wr_ops :
    (op : Mmco) (frm : DpbFrm) (dpb : Dpb) (q : Ops Mmco)
    → 2 ≤ q.size
    → (mark_lt op frm dpb (wr_rewind q)).1 ≡ (wr_ops (wr_rewind q) (lt_marks op frm dpb)).1
unfolding mark_lt wr_ops wr_op
mark_lt-wr_ops op frm dpb q h =
    let first : leb q.size 0 ≡ false = ground arith in
    let second : leb q.size 1 ≡ false = ground arith in
    elim (Bool-cases (dpb.info.max_lt_idx == dpb.curr_max_lt_idx)) [
      | inl same ↦ rw (same, first) refl
      | inr new ↦ rw (new, first, second) refl
    ]

lt_marks-length : (op : Mmco) (frm : DpbFrm) (dpb : Dpb) → length (lt_marks op frm dpb) ≤ 2
lt_marks-length op frm dpb = ground arith

-- With a current frame and a queue of at least two entries, h264e_dpb_build_marking makes the
-- operations that the frame asks for, and the reads of the queue give exactly these: none, unless
-- it is a long-term frame that is no IDR frame; else its index, behind the highest index if that has
-- changed. The highest index is then the current one, so that another frame does not set it again.
pub build_marking-marks :
    (op : Mmco) (dpb : Dpb) (marking : MarkingInfo) (c : ℕ) (old : Mmco)
    → dpb.curr ≡ some c
    → 2 ≤ marking.queue.size
    → let frm = dpb.frames c in
      let xs = marks op frm dpb in
      (dpb' : Dpb) × (m : MarkingInfo) × (build_marking op dpb marking ≡ some (dpb', m))
      × (rd_ops (suc (length xs)) (rd_rewind m.queue) old ≡ xs)
      × (m.idr_flag ≡ (if frm.status.is_idr then 1 else 0))
      × (asks frm.status ≡ true → dpb'.curr_max_lt_idx ≡ dpb'.info.max_lt_idx)
unfolding build_marking wr_ops mark_lt
build_marking-marks op dpb marking c old e h =
    let s = (dpb.frames c).status in
    let none_read = (rd_ops-wr_ops marking.queue [] old (omega arith)).1 in
    elim (Bool-cases s.is_idr) [
      | inl idr ↦ rw (e, idr) (_, _, refl, none_read, refl, (λ a. absurd (true≢false (sym a))))
      | inr other ↦ elim (Bool-cases s.is_non_ref) [
        | inl non ↦
            rw (e, other, non) (_, _, refl, none_read, refl, (λ a. absurd (true≢false (sym a))))
        | inr ref ↦ elim (Bool-cases s.is_lt_ref) [
          | inl lt ↦ rw (e, other, ref, lt) (_, _, refl, lt_reads, refl, (λ _. refl))
          | inr st ↦
              rw (e, other, ref, st)
                (_, _, refl, none_read, refl, (λ a. absurd (true≢false (sym a))))
        ]
      ]
    ]
  where
    lt_reads :
        let xs = lt_marks op (dpb.frames c) dpb in
        rd_ops
          (suc (length xs))
          (rd_rewind (mark_lt op (dpb.frames c) dpb (wr_rewind marking.queue)).1)
          old
        ≡ xs
    lt_reads =
        let frm = dpb.frames c in
        let xs = lt_marks op frm dpb in
        ap (λ q. rd_ops (suc (length xs)) (rd_rewind q) old)
          (mark_lt-wr_ops op frm dpb marking.queue h)
        ∙ (rd_ops-wr_ops marking.queue xs old (omega (arith, lt_marks-length op frm dpb))).1
