-- ===== src/H264/PpsWrite/Syntax.antt =====
-- The syntax of the picture parameter set, tables 7.3.2.2 and 7.3.2.1.1.1 of H.264, and that it is
-- what is written if the set is supported.
use rockchip_kmpp.Prelude.{
  ℕ, zero, suc, ◌+◌, ◌≡◌, refl, List, [], ◌∷◌, ◌++◌, true, ltb, ◌==◌, ◌||◌, if◌then◌else◌,
  Bool-cases, ◌⊎◌, inl, inr,
}
use rockchip_kmpp.Prelude.Int.{ℤ, pos, ◌-ℤ◌}
use rockchip_kmpp.BitWriter.{WriteCtx, put_bits, put_ue, put_se}
use rockchip_kmpp.BitWriter.Signed.{se_number, put_se_lem}
use rockchip_kmpp.BitReader.Items.{Item, bits, ue, put_items}
use rockchip_kmpp.H264.{Pps}
use rockchip_kmpp.H264.Chain.{is_set, when, stage}
use rockchip_kmpp.H264.SpsWrite.{pred32}
use rockchip_kmpp.H264.PpsWrite.{
  intra_scl, inter_scl, scan_at, int8, run_from, delta, put_deltas, put_list, put_lists, put_matrix,
  put_more, put_base, put_pps,
}

abbrev pub se : ℤ → Item
se z = (ue, se_number z)

-- No list of the six of 4x4 blocks is sent: they fall back to the default.
abbrev pub no_lists : List Item
no_lists = (bits 1, 0) ∷ (bits 1, 0) ∷ (bits 1, 0) ∷ (bits 1, 0) ∷ (bits 1, 0) ∷ (bits 1, 0) ∷ []

unfoldable pub delta_items : List ℕ → ℕ → ℕ → List Item
delta_items scl zero j = []
delta_items scl (suc rounds) j = se (delta scl j) ∷ delta_items scl rounds (j + 1)

-- A list up to where its values stay the same, and the step to 0 that says so.
abbrev pub list_items : List ℕ → List Item
list_items scl =
    let run = run_from scl 64 in
    (bits 1, 1)
    ∷ (delta_items scl run 0 ++ when (ltb run 64) (se (int8 (pos 0 -ℤ pos (scan_at scl run))) ∷ []))

abbrev pub matrix_items : Pps → List Item
matrix_items pps = when (is_set pps.scaling_list_mode) (
    no_lists
    ++ when (is_set pps.transform_8x8_mode) (
        if pps.scaling_list_mode == 1
        then (bits 1, 0) ∷ (bits 1, 0) ∷ []
        else list_items intra_scl ++ list_items inter_scl))

abbrev pub more_items : Pps → List Item
more_items pps =
    when
      (is_set pps.transform_8x8_mode
        || (is_set pps.second_chroma_qp_index_offset_present || is_set pps.scaling_list_mode))
      ((bits 1, pps.transform_8x8_mode)
        ∷ (bits 1, if is_set pps.scaling_list_mode then 1 else 0)
        ∷ (matrix_items pps ++ (se pps.second_chroma_qp_index_offset ∷ [])))

abbrev pub base_items : Pps → List Item
base_items pps =
    (ue, pps.pps_id)
    ∷ (ue, pps.sps_id)
    ∷ (bits 1, pps.entropy_coding_mode)
    ∷ (bits 1, pps.bottom_field_pic_order_in_frame_present)
    ∷ (ue, pred32 pps.num_slice_groups)
    ∷ (ue, pred32 pps.num_ref_idx_l0_default_active)
    ∷ (ue, pred32 pps.num_ref_idx_l1_default_active)
    ∷ (bits 1, pps.weighted_pred)
    ∷ (bits 2, pps.weighted_bipred_idc)
    ∷ se (pps.pic_init_qp -ℤ pos 26)
    ∷ se (pps.pic_init_qs -ℤ pos 26)
    ∷ se pps.chroma_qp_index_offset
    ∷ (bits 1, pps.deblocking_filter_control)
    ∷ (bits 1, pps.constrained_intra_pred)
    ∷ (bits 1, pps.redundant_pic_cnt)
    ∷ []

abbrev pub pps_items : Pps → List Item
pps_items pps = base_items pps ++ more_items pps

-- Scaling lists are sent in modes 1 and 2, and then the blocks of 8x8 are used.
abbrev pub IsSupported : Pps → Type 0
IsSupported pps =
    (pps.scaling_list_mode ≡ 0)
    ⊎ ((pps.scaling_list_mode ≡ 1) ⊎ (pps.scaling_list_mode ≡ 2))
      × (is_set pps.transform_8x8_mode ≡ true)

put_deltas_lem :
    (scl : List ℕ) (rounds j : ℕ) (c : WriteCtx)
    → put_deltas scl rounds j c ≡ put_items c (delta_items scl rounds j)
unfolding put_deltas delta_items put_items
put_deltas_lem scl zero j c = refl
put_deltas_lem scl (suc rounds) j c =
    rw (put_se_lem c (delta scl j))
      (put_deltas_lem scl rounds (j + 1) (put_ue c (se_number (delta scl j))))

put_list_lem : (scl : List ℕ) (c : WriteCtx) → put_list scl c ≡ put_items c (list_items scl)
unfolding put_list put_items
put_list_lem scl c =
    let run = run_from scl 64 in
    let last = when (ltb run 64) (se (int8 (pos 0 -ℤ pos (scan_at scl run))) ∷ []) in
    stage (put_bits c 1 1) (put_deltas scl run 0 (put_bits c 1 1)) (delta_items scl run 0) last
      (put_deltas_lem scl run 0 (put_bits c 1 1))
      (elim (Bool-cases (ltb run 64)) [ inl h ↦ rw (h, put_se_lem) | inr h ↦ rw h ])

put_base_lem : (pps : Pps) (c : WriteCtx) → put_base pps c ≡ put_items c (base_items pps)
unfolding put_base put_items
put_base_lem pps c = simp put_se_lem

lists_lem :
    (pps : Pps) (c : WriteCtx)
    → IsSupported pps
    → put_lists pps (put_matrix pps c) ≡ put_items c (matrix_items pps)
unfolding put_lists put_matrix put_items
lists_lem pps c (inl off) = rw off
lists_lem pps c (inr (inl one, blocks)) = rw (one, blocks)
lists_lem pps c (inr (inr two, blocks)) =
    let c' = put_items c no_lists in
    rw (two, blocks)
      (stage c' (put_list intra_scl c') (list_items intra_scl) (list_items inter_scl)
        (put_list_lem intra_scl c') (put_list_lem inter_scl (put_list intra_scl c')))

nothing : (c : WriteCtx) → c ≡ put_items c []
unfolding put_items
nothing c = refl

two_flags :
    (pps : Pps) (c : WriteCtx)
    → put_bits
        (put_bits c pps.transform_8x8_mode 1)
        (if is_set pps.scaling_list_mode then 1 else 0)
        1
      ≡ put_items c (
          (bits 1, pps.transform_8x8_mode)
          ∷ (bits 1, if is_set pps.scaling_list_mode then 1 else 0)
          ∷ [])
unfolding put_items
two_flags pps c = refl

se_lem : (c : WriteCtx) (z : ℤ) → put_se c z ≡ put_items c (se z ∷ [])
unfolding put_items
se_lem c z = put_se_lem c z

put_more_lem :
    (pps : Pps) (c : WriteCtx) → IsSupported pps → put_more pps c ≡ put_items c (more_items pps)
unfolding put_more
put_more_lem pps c supported =
    let guard =
      is_set pps.transform_8x8_mode
      || (is_set pps.second_chroma_qp_index_offset_present || is_set pps.scaling_list_mode) in
    let c' = put_bits c pps.transform_8x8_mode 1 in
    let c'' = put_bits c' (if is_set pps.scaling_list_mode then 1 else 0) 1 in
    elim (Bool-cases guard) [
      | inr h ↦ rw h (nothing c)
      | inl h ↦ rw h (
          stage c c''
            ((bits 1, pps.transform_8x8_mode)
              ∷ (bits 1, if is_set pps.scaling_list_mode then 1 else 0)
              ∷ [])
            (matrix_items pps ++ (se pps.second_chroma_qp_index_offset ∷ [])) (two_flags pps c)
            (stage c'' (put_lists pps (put_matrix pps c'')) (matrix_items pps)
              (se pps.second_chroma_qp_index_offset ∷ []) (lists_lem pps c'' supported)
              (se_lem (put_lists pps (put_matrix pps c'')) pps.second_chroma_qp_index_offset)))
    ]

-- A supported set is written as the syntax has it.
pub put_pps_lem :
    (pps : Pps) (c : WriteCtx) → IsSupported pps → put_pps pps c ≡ put_items c (pps_items pps)
unfolding put_pps
put_pps_lem pps c supported =
    stage c (put_base pps c) (base_items pps) (more_items pps) (put_base_lem pps c)
      (put_more_lem pps (put_base pps c) supported)
