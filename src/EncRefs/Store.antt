-- ===== src/EncRefs/Store.antt =====
-- The last steps of mpp_enc_refs_get_cpb give a result on a small buffer.
use rockchip_kmpp.Prelude.Int.{ℤ, pos, negsuc, pos_part}
use rockchip_kmpp.Prelude.Word.{update}
use rockchip_kmpp.Prelude.{
  ℕ, ◌+◌, ◌≤◌, ◌≡◌, ◌≢◌, refl, arith, Option, none, some, Bool-cases, inl, inr,
}
use rockchip_kmpp.Prelude.Maybe.{some-of-≢}
use rockchip_kmpp.RefTypes.{FrmStatus, no_frm, CpbInfo, CpbStatus}
use rockchip_kmpp.Cpb.{VirtualCpb, cell, get_ref_from_cpb, store_ref_to_cpb, store_lt, store_st}
use rockchip_kmpp.Cpb.History.{IsIndex}
use rockchip_kmpp.Cpb.Save.{save_cpb_status-total}
use rockchip_kmpp.EncRefs.NextFrame.{store_frame, refer_and_store}

-- The searched index is in range.
cell-total :
    (size : ℕ) (arr : ℕ → FrmStatus) (a : ℤ)
    → 16 ≤ size
    → IsIndex a
    → cell size arr a ≡ some (arr (pos_part a))
cell-total size arr (pos i) s h = ground arith
cell-total size arr (negsuc i) s h = absurd h

-- The search for the reference does not fault for an argument in range.
get_ref_from_cpb-total :
    (cpb : VirtualCpb) (frm : FrmStatus) → IsIndex frm.ref_arg → get_ref_from_cpb cpb frm ≢ none
unfolding get_ref_from_cpb
get_ref_from_cpb-total cpb frm arg = ground (
  arith,
  cell-total 16 cpb.st_tid_refs frm.ref_arg,
  cell-total 16 cpb.lt_idx_refs frm.ref_arg,
  cell-total 32 cpb.cpb_refs frm.ref_arg,
)

-- Two buffers with the same sizes and counters.
pub record SameSetup (a b : VirtualCpb) : Type 0 where
  pub info : a.info ≡ b.info
  pub lt_cnter : a.lt_cnter ≡ b.lt_cnter

store_ref_to_cpb-SameSetup :
    (cpb : VirtualCpb) (f : FrmStatus) → SameSetup (store_ref_to_cpb cpb f) cpb
unfolding store_ref_to_cpb store_lt store_st
store_ref_to_cpb-SameSetup cpb f = elim (Bool-cases f.is_non_ref) [
  | inl out ↦ simp out (record { info = refl; lt_cnter = refl })
  | inr kept ↦ elim (Bool-cases f.is_lt_ref) [
    | inl lt ↦ elim (Bool-cases f.is_intra) [
      | inl i ↦ simp (kept, lt, i) (record { info = refl; lt_cnter = refl })
      | inr i ↦ simp (kept, lt, i) (record { info = refl; lt_cnter = refl })
    ]
    | inr st ↦ elim (Bool-cases f.is_intra) [
      | inl i ↦ simp (kept, st, i) (record { info = refl; lt_cnter = refl })
      | inr i ↦ simp (kept, st, i) (record { info = refl; lt_cnter = refl })
    ]
  ]
]

-- The sizes with which eight entries are enough.
pub record SmallCpb (info : CpbInfo) : Type 0 where
  pub sum : info.max_lt_cnt + info.max_st_cnt ≤ info.dpb_size
  pub small : info.dpb_size ≤ 8

-- A frame is stored, and both notes are taken.
abbrev pub Stores : Option (VirtualCpb × CpbStatus) → VirtualCpb → Type 0
Stores r cpb =
    (cpb' : VirtualCpb) × (status' : CpbStatus) × (r ≡ some (cpb', status')) × SameSetup cpb' cpb

store_frame-total :
    (cpb : VirtualCpb) (frm refr : FrmStatus)
    → SmallCpb cpb.info
    → Stores (store_frame cpb frm refr) cpb
unfolding store_frame
store_frame-total cpb frm refr s =
    let same = store_ref_to_cpb-SameSetup cpb frm in
    let (before, e) = save_cpb_status-total cpb s.sum s.small in
    let (after, e') =
      save_cpb_status-total (store_ref_to_cpb cpb frm) (rw same.info s.sum)
        (rw same.info s.small) in
    (
      store_ref_to_cpb cpb frm,
      record { curr = frm; refr = refr; init = before; final = after },
      simp (e, e'),
      same,
    )

pub refer_and_store-total :
    (cpb : VirtualCpb) (frm : FrmStatus) (status : CpbStatus)
    → SmallCpb cpb.info
    → IsIndex frm.ref_arg
    → Stores (refer_and_store cpb frm status) cpb
unfolding refer_and_store
refer_and_store-total cpb frm status s arg =
    let (found, e) = some-of-≢ (get_ref_from_cpb cpb frm) (get_ref_from_cpb-total cpb frm arg) in
    rw e (by_case found)
  where
    by_case :
        (found : Option FrmStatus)
        → Stores
            (elim found as (λ _. Option (VirtualCpb × CpbStatus)) [
              | none ↦ store_frame cpb frm no_frm
              | some ref ↦
                  store_frame (record cpb { list0 = update cpb.list0 0 status.refr }) frm ref
            ])
            cpb
    by_case none = store_frame-total cpb frm no_frm s
    by_case (some ref) =
        let (cpb', status', e, same) =
          store_frame-total (record cpb { list0 = update cpb.list0 0 status.refr }) frm ref s in
        (cpb', status', e, record { info = same.info; lt_cnter = same.lt_cnter })
