-- ===== src/H264/Slice/Header.antt =====
-- Consecutive IDR pictures are told apart, and the header agrees with the frame.
use rockchip_kmpp.Prelude.{
  ℕ, ◌<◌, ◌≡◌, ◌≢◌, refl, sym, ◌∙◌, arith, List, [], ◌∷◌, true, false, ◌==◌, if◌then◌else◌,
  Bool-cases, inl, inr,
}
use rockchip_kmpp.H264.{Sps, Pps}
use rockchip_kmpp.H264.Dpb.{DpbFrm}
use rockchip_kmpp.H264.Slice.{Slice, SliceCfg, step_idr_pic_id, slice_update}

step-bound : (n : ℕ) → step_idr_pic_id n < 16
unfolding step_idr_pic_id
step-bound n = ground arith

step-changes : (n : ℕ) → n < 16 → step_idr_pic_id n ≢ n
unfolding step_idr_pic_id
step-changes n h = ground arith

module _ (h264 : SliceCfg) (sps : Sps) (pps : Pps) where
  -- The slices of a row of frames.
  unfoldable pub update_all : Slice → List DpbFrm → Slice
  update_all slice [] = slice
  update_all slice (frm ∷ frms) = update_all (slice_update slice h264 sps pps frm) frms

  abbrev pub Quiet : List DpbFrm → Type 0
  Quiet [] = Unit
  Quiet (frm ∷ frms) = (frm.status.is_idr ≡ false) × Quiet frms

  update_all-Quiet :
      (slice : Slice) (frms : List DpbFrm)
      → Quiet frms
      → (update_all slice frms).next_idr_pic_id ≡ slice.next_idr_pic_id
  unfolding update_all slice_update
  update_all-Quiet slice [] h = refl
  update_all-Quiet slice (frm ∷ frms) h =
      update_all-Quiet (slice_update slice h264 sps pps frm) frms h.1 ∙ rw h.0 refl

  idr-numbers :
      (slice : Slice) (frm : DpbFrm)
      → frm.status.is_idr ≡ true
      → let after = slice_update slice h264 sps pps frm in
        (after.idr_pic_id ≡ slice.next_idr_pic_id)
        × (after.next_idr_pic_id ≡ step_idr_pic_id slice.next_idr_pic_id)
        × (after.nalu_type ≡ 5)
        × (after.slice_type ≡ 2)
        × ((after.nal_reference_idc == 0) ≡ frm.status.is_non_ref)
  unfolding slice_update
  idr-numbers slice frm e = rw e (refl, refl, refl, refl, idc)
    where
      idc : ((if frm.status.is_non_ref then 0 else 3) == 0) ≡ frm.status.is_non_ref
      idc = elim (Bool-cases frm.status.is_non_ref) [
        | inl non ↦ rw non refl
        | inr ref ↦ rw ref refl
      ]

  -- Two IDR frames with no IDR frame between them, and any number of others, get different
  -- idr_pic_id below 16, if the counter was below 16 before. The second one is of the NAL unit type 5
  -- and of slice type 2, and its priority is 0 exactly if no frame refers to it.
  pub slice_update-distinct :
      (slice : Slice) (idr idr' : DpbFrm) (frms : List DpbFrm)
      → slice.next_idr_pic_id < 16
      → idr.status.is_idr ≡ true
      → Quiet frms
      → idr'.status.is_idr ≡ true
      → let first = slice_update slice h264 sps pps idr in
        let second = slice_update (update_all first frms) h264 sps pps idr' in
        (first.idr_pic_id ≢ second.idr_pic_id)
        × (second.idr_pic_id < 16)
        × (second.next_idr_pic_id < 16)
        × (second.nalu_type ≡ 5)
        × (second.slice_type ≡ 2)
        × ((second.nal_reference_idc == 0) ≡ idr'.status.is_non_ref)
  slice_update-distinct slice idr idr' frms h e q e' =
      let first = slice_update slice h264 sps pps idr in
      let middle = update_all first frms in
      let start = idr-numbers slice idr e in
      let end = idr-numbers middle idr' e' in
      let kept = update_all-Quiet first frms q in
      let changes = step-changes slice.next_idr_pic_id h in
      (
        (λ same. changes (sym (sym start.0 ∙ (same ∙ (end.0 ∙ (kept ∙ start.1)))))),
        omega (arith, end.0, kept, start.1, step-bound slice.next_idr_pic_id),
        omega (arith, end.1, step-bound middle.next_idr_pic_id),
        end.2,
        end.3,
        end.4,
      )
