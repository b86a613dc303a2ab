-- ===== src/H264/Dpb/Place.antt =====
-- A frame that is placed does not cost the buffer a frame.
use mathlib.Core.Bool.{true≢false}
use mathlib.Core.List.{Memᴰ}
use rockchip_kmpp.Prelude.{
  ℕ, ◌+◌, ◌≤◌, ◌<◌, ◌≡◌, ◌≢◌, refl, sym, ap, subst, ◌∙◌, arith, length, true, false, ◌==◌,
  Bool-cases, some, inl, inr,
}
use rockchip_kmpp.RefTypes.{FrmStatus, CpbStatus}
use rockchip_kmpp.H264.Dpb.{
  Dpb, DpbFrm, max_refs_cnt, start_frame, scan_frame, take_slot, visit_slots, find_refr,
  place_frame, find_cpb_frame, in_map,
}
use rockchip_kmpp.H264.Dpb.Free.{some-IsFree}
use rockchip_kmpp.H264.Dpb.Slots.{visit_slots-kept, visit_slots-sizes, visit_slots-Visited}
use rockchip_kmpp.H264.Dpb.Find.{
  IsAt, marked, find_cpb-IsAt, find_cpb-total, used-scan, scan-found, scan-back,
}

-- `after` is `before` with the current frame in slot `c`.
pub record Placed (cpb : CpbStatus) (before after : Dpb) (c : ℕ) : Type 0 where
  pub near : c ≤ length cpb.init
  pub current : after.curr ≡ some c
  pub held : (after.frames c).status ≡ cpb.curr
  pub in_use : (after.frames c).on_used ≡ true
  pub kept :
      (frm : FrmStatus) (j : ℕ)
      → Memᴰ frm cpb.init
      → find_cpb_frame before.frames before.total_cnt frm ≡ some j
      → (j ≢ c) × (after.frames j ≡ marked (before.frames j))
  pub released :
      (j : ℕ)
      → c < j
      → j ≤ max_refs_cnt
      → ((frm : FrmStatus)
          → Memᴰ frm cpb.init
          → find_cpb_frame before.frames before.total_cnt frm ≢ some j)
      → (after.frames j).status.valid ≡ false
  pub refers :
      (frm : FrmStatus) (j : ℕ)
      → Memᴰ frm cpb.init
      → find_cpb_frame before.frames before.total_cnt frm ≡ some j
      → cpb.refr.valid ≡ true
      → cpb.refr.seq_idx ≡ frm.seq_idx
      → (r : ℕ) × (after.refr ≡ some r) × IsAt (after.frames r) frm.seq_idx

take_slot-held :
    (c : ℕ) (curr : FrmStatus) (d : Dpb)
    → (((take_slot c curr d).frames c).status ≡ curr)
      × (((take_slot c curr d).frames c).on_used ≡ true)
unfolding take_slot
take_slot-held c curr d = let same : (c == c) ≡ true = ground arith in rw same (refl, refl)

module _ (cpb : CpbStatus) (before : Dpb) (small : length cpb.init ≤ 16) where
  abbrev scanned : Dpb
  scanned = scan_frame cpb.init before

  abbrev visited : Dpb
  visited = visit_slots (max_refs_cnt + 1) 0 cpb.curr scanned

  visited-frames :
      (frm : FrmStatus) (j : ℕ)
      → Memᴰ frm cpb.init
      → find_cpb_frame before.frames before.total_cnt frm ≡ some j
      → (in_map j scanned.map ≡ true) × (visited.frames j ≡ marked (before.frames j))
  unfolding scan_frame
  visited-frames frm j m e =
      let (kept, at) = scan-found before.total_cnt before.frames cpb.init frm j m e in
      (at, visit_slots-kept cpb.curr (max_refs_cnt + 1) 0 j scanned at ∙ kept)

  visited-total : visited.total_cnt ≡ before.total_cnt
  unfolding scan_frame
  visited-total = (visit_slots-sizes cpb.curr (max_refs_cnt + 1) 0 scanned).0

  not_in_map :
      (j : ℕ)
      → ((frm : FrmStatus)
          → Memᴰ frm cpb.init
          → find_cpb_frame before.frames before.total_cnt frm ≢ some j)
      → in_map j scanned.map ≡ false
  unfolding scan_frame
  not_in_map j none_at = elim (Bool-cases (in_map j scanned.map)) [
    | inl at ↦
        let (frm, m, e) = scan-back before.total_cnt before.frames cpb.init j at in
        absurd (none_at frm m e)
    | inr free ↦ free
  ]

  refers_to :
      (frm : FrmStatus) (j : ℕ)
      → Memᴰ frm cpb.init
      → find_cpb_frame before.frames before.total_cnt frm ≡ some j
      → cpb.refr.valid ≡ true
      → cpb.refr.seq_idx ≡ frm.seq_idx
      → (r : ℕ) × ((find_refr cpb.refr visited).refr ≡ some r) × IsAt (visited.frames r) frm.seq_idx
  unfolding find_refr
  refers_to frm j m e valid seq =
      let (_, same) = visited-frames frm j m e in
      let (lt, _, at) = find_cpb-IsAt before.total_cnt before.frames frm j e in
      let here : IsAt (visited.frames j) frm.seq_idx =
        subst (λ f. IsAt f frm.seq_idx) (sym same) at in
      let (r, found) =
        find_cpb-total visited.total_cnt visited.frames cpb.refr j (rw visited-total lt) valid
          (here.0, here.1 ∙ sym seq) in
      let (_, _, there) = find_cpb-IsAt visited.total_cnt visited.frames cpb.refr r found in
      (r, rw found refl, (there.0, there.1 ∙ seq))

  place-Placed : (c : ℕ) × Placed cpb before (find_refr cpb.refr visited) c
  unfolding find_refr take_slot scan_frame
  place-Placed =
      let (c, free, le) = some-IsFree scanned.map in
      let near : c ≤ length cpb.init =
        omega (arith, le, used-scan before.total_cnt before.frames cpb.init) in
      let v =
        visit_slots-Visited cpb.curr (max_refs_cnt + 1) 0 c scanned refl free (omega arith)
          (omega (arith, near, small)) in
      (
        c,
        record {
          near = near;
          current = v.current;
          held = ap (λ (f : DpbFrm). f.status) v.held ∙ (take_slot-held c cpb.curr scanned).0;
          in_use = ap (λ (f : DpbFrm). f.on_used) v.held ∙ (take_slot-held c cpb.curr scanned).1;
          kept = λ frm j m e.
              let (at, same) = visited-frames frm j m e in
              (λ eq. true≢false (sym at ∙ (ap (λ k. in_map k scanned.map) eq ∙ free.free)), same);
          released = λ j lt le none_at. v.behind j lt (omega (arith, le)) (not_in_map j none_at);
          refers = refers_to;
        },
      )

-- Let the plan hold at most 16 frames. Then h264e_dpb_proc gives the current frame one of the first
-- slots, at most as many as the plan holds frames and one more, that none of these has, and marks it
-- as used. Each frame of the plan that has a slot keeps it, with its numbers, and is marked as used.
-- The slots behind the current one that no frame of the plan has are released. If the frame that is
-- referred to is one of the plan with a slot, the reference is a slot that holds it.
pub place_frame-Placed :
    (cpb : CpbStatus) (dpb : Dpb)
    → length cpb.init ≤ 16
    → (c : ℕ) × Placed cpb (start_frame cpb.curr dpb) (place_frame cpb dpb) c
unfolding place_frame
place_frame-Placed cpb dpb small = place-Placed cpb (start_frame cpb.curr dpb) small
