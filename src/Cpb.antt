-- ===== src/Cpb.antt =====
-- vcodec/mpp/base/mpp_enc_refs.c, the virtual coded picture buffer: EncVirtualCpb and the static
-- functions on it. An array is a function of the index; where the code indexes by a value that it
-- does not check, a read or write outside of the array is a fault, `none`.
pub mod History
pub mod Window
pub mod Track
pub mod Find
pub mod Save
use rockchip_kmpp.Prelude.{
  ℕ, zero, suc, ◌+◌, ◌-◌, ◌%◌, ◌^◌, Bool, true, false, not, ◌&&◌, ◌||◌, ltb, leb, ◌==◌,
  if◌then◌else◌, List, [], ◌∷◌, Option, none, some, length, set, replicate,
}
use rockchip_kmpp.Prelude.Word.{u32, update}
use rockchip_kmpp.Prelude.Int.{ℤ, pos, negsuc, ltb_ℤ, ◌-ℤ◌}
use rockchip_kmpp.Prelude.Cast.{low_bits, signed8, low_bit, nonzero, leb_ℤ}
use rockchip_kmpp.Prelude.Maybe.{◌>>=◌}
use rockchip_kmpp.RefTypes.{
  FrmStatus, no_frm, CpbInfo, StFrmCfg, ref_to_prev_ref_frm, ref_to_prev_st_ref, ref_to_prev_lt_ref,
  ref_to_prev_intra, ref_to_temporal_layer, ref_to_lt_ref_idx, ref_to_st_prev_n_ref,
  ref_to_st_ref_setup, max_cpb_refs,
}

-- RefsCnt
pub record RefsCnt : Type 0 where
  pub delay : ℤ
  pub delay_cnt : ℤ
  pub len : ℤ
  pub cnt : ℕ
  pub idx : ℕ
  pub lt_idx : ℤ
  pub tid : ℤ
  pub ref_mode : ℕ
  pub ref_arg : ℤ

abbrev pub no_cnt : RefsCnt
no_cnt = record {
  delay = pos 0;
  delay_cnt = pos 0;
  len = pos 0;
  cnt = 0;
  idx = 0;
  lt_idx = pos 0;
  tid = pos 0;
  ref_mode = 0;
  ref_arg = pos 0;
}

abbrev pub max_cpb_st_frm : ℕ
max_cpb_st_frm = 16

abbrev pub max_cpb_lt_frm : ℕ
max_cpb_lt_frm = 16

abbrev pub max_cpb_frm : ℕ
max_cpb_frm = 32

-- EncVirtualCpb. Of `list0` the code only writes the first cell; `list1` and `cpb_st` it only
-- clears.
pub record VirtualCpb : Type 0 where
  pub info : CpbInfo
  pub cpb_refs : ℕ → FrmStatus
  pub mode_refs : ℕ → FrmStatus
  pub st_tid_refs : ℕ → FrmStatus
  pub lt_idx_refs : ℕ → FrmStatus
  pub lt_cnter : ℕ → RefsCnt
  pub list0 : ℕ → FrmStatus
  pub list1 : ℕ → FrmStatus
  pub cpb_st : ℕ → FrmStatus
  pub frm_idx : ℕ
  pub seq_idx : ℕ
  pub seq_cnt : ℕ
  pub st_cfg_pos : ℕ
  pub st_cfg_repeat_pos : ℕ

-- A read by an index that the code does not check.
abbrev pub cell : ℕ → (ℕ → FrmStatus) → ℤ → Option FrmStatus
cell size arr (pos i) = if ltb i size then some (arr i) else none
cell size arr (negsuc i) = none

-- cleanup_cpb_refs
unfoldable pub reset_cnt : RefsCnt → RefsCnt
reset_cnt c = record c { delay_cnt = c.delay; cnt = 0; idx = 0 }

unfoldable pub cleanup_cpb_refs : VirtualCpb → VirtualCpb
cleanup_cpb_refs cpb = record cpb {
  cpb_refs = λ _. no_frm;
  mode_refs = λ _. no_frm;
  st_tid_refs = λ _. no_frm;
  lt_idx_refs = λ _. no_frm;
  list0 = λ _. no_frm;
  list1 = λ _. no_frm;
  cpb_st = λ _. no_frm;
  seq_idx = 0;
  seq_cnt = u32 (cpb.seq_cnt + 1);
  st_cfg_pos = 0;
  st_cfg_repeat_pos = 0;
  lt_cnter = λ i. reset_cnt (cpb.lt_cnter i);
}

-- set_st_cfg_to_frm: the fields keep what fits their bits.
unfoldable pub set_st_cfg_to_frm : ℕ → StFrmCfg → FrmStatus
set_st_cfg_to_frm seq_idx st_cfg =
    let is_idr = seq_idx == 0 in
    record no_frm {
      seq_idx = seq_idx % 2 ^ 16;
      valid = true;
      is_idr = is_idr;
      is_intra = is_idr;
      is_non_ref = low_bit st_cfg.is_non_ref;
      is_lt_ref = false;
      temporal_id = low_bits 4 st_cfg.temporal_id;
      ref_mode = st_cfg.ref_mode % 2 ^ 6;
      ref_arg = signed8 (low_bits 8 st_cfg.ref_arg);
    }

-- set_lt_cfg_to_frm
unfoldable pub set_lt_cfg_to_frm : FrmStatus → RefsCnt → FrmStatus
set_lt_cfg_to_frm frm lt_cfg =
    let marked = record frm {
      is_non_ref = false;
      is_lt_ref = true;
      temporal_id = low_bits 4 lt_cfg.tid;
      lt_idx = low_bits 4 lt_cfg.lt_idx;
    } in
    if lt_cfg.ref_mode == ref_to_st_ref_setup then marked else record marked {
      ref_mode = lt_cfg.ref_mode % 2 ^ 6;
      ref_arg = signed8 (low_bits 8 lt_cfg.ref_arg);
    }

-- get_ref_from_cpb. `some none` is the null pointer: the frame is intra, or its mode is unknown.
unfoldable pub get_ref_from_cpb : VirtualCpb → FrmStatus → Option (Option FrmStatus)
get_ref_from_cpb cpb frm =
    let mode = frm.ref_mode in
    let found : Option FrmStatus → Option (Option FrmStatus) = elim [
      | none ↦ none
      | some ref ↦ some (some ref)
    ] in
    if frm.is_intra
    then some none
    else if leb mode ref_to_prev_intra
    then some (some (cpb.mode_refs mode))
    else if mode == ref_to_temporal_layer
    then found (cell 16 cpb.st_tid_refs frm.ref_arg)
    else if mode == ref_to_lt_ref_idx
    then found (cell 16 cpb.lt_idx_refs frm.ref_arg)
    else if mode == ref_to_st_prev_n_ref
    then found (cell max_cpb_frm cpb.cpb_refs frm.ref_arg)
    else some none

-- The search loops of check_ref_cpb_pos: the first of `left` cells from `i` on that fits.
pub find_cell : (FrmStatus → Bool) → (ℕ → FrmStatus) → ℕ → ℕ → Option ℕ
find_cell fits arr zero i = none
find_cell fits arr (suc left) i =
    let rest = find_cell fits arr left (i + 1) in if fits (arr i) then some i else rest

-- check_ref_cpb_pos. `none` is -1.
unfoldable pub check_ref_cpb_pos : VirtualCpb → FrmStatus → Option ℕ
unfolding find_cell
check_ref_cpb_pos cpb frm =
    if not frm.valid || frm.is_non_ref
    then none
    else if frm.is_lt_ref
    then find_cell (λ r. r.valid && (r.lt_idx == frm.lt_idx)) cpb.cpb_refs max_cpb_lt_frm
        max_cpb_st_frm
    else find_cell (λ r. r.valid && (r.seq_idx == frm.seq_idx)) cpb.cpb_refs max_cpb_st_frm 0

-- `refs[ref_cnt++].val = ref->val`, into an array of MAX_CPB_REFS cells.
abbrev pub append_ref : List FrmStatus × ℕ → FrmStatus → Option (List FrmStatus × ℕ)
append_ref (refs, ref_cnt) ref =
    if ltb ref_cnt (length refs) then some (set refs ref_cnt ref, ref_cnt + 1) else none

-- The loops of save_cpb_status: the cells that fit, of `left` cells from `i` on.
pub save_refs :
    (FrmStatus → Bool) → (ℕ → FrmStatus) → ℕ → ℕ → List FrmStatus × ℕ → Option (List FrmStatus × ℕ)
save_refs fits arr zero i out = some out
save_refs fits arr (suc left) i out =
    let next : Option (List FrmStatus × ℕ) =
      if fits (arr i) then append_ref out (arr i) else some out in
    if ltb i max_cpb_frm
    then elim next [ none ↦ none | some out' ↦ save_refs fits arr left (i + 1) out' ]
    else none

abbrev pub is_lt_slot : FrmStatus → Bool
is_lt_slot ref = ref.valid && not ref.is_non_ref && ref.is_lt_ref

abbrev pub is_st_slot : FrmStatus → Bool
is_st_slot ref = ref.valid && not ref.is_non_ref && not ref.is_lt_ref

-- The entries of the second loop: where there is room for more than `max_st_cnt`, as many as fit.
abbrev pub st_room : CpbInfo → ℕ → ℕ
st_room info ref_cnt =
    let room = info.dpb_size - ref_cnt in if ltb info.max_st_cnt room then room else info.max_st_cnt

-- save_cpb_status behind its first loop.
unfoldable pub save_st : VirtualCpb → List FrmStatus × ℕ → Option (List FrmStatus)
unfolding save_refs
save_st cpb (refs, ref_cnt) =
    if ltb ref_cnt cpb.info.dpb_size
    then save_refs is_st_slot cpb.cpb_refs (st_room cpb.info ref_cnt) 0 (refs, ref_cnt)
      >>= (λ out. some out.0)
    else some refs

-- save_cpb_status, into the array that the caller has cleared.
unfoldable pub save_cpb_status : VirtualCpb → Option (List FrmStatus)
unfolding save_refs
save_cpb_status cpb =
    save_refs is_lt_slot cpb.cpb_refs cpb.info.max_lt_cnt max_cpb_st_frm
      (replicate max_cpb_refs no_frm, 0)
    >>= save_st cpb

-- The loop of store_ref_to_cpb over the long-term cells: the first that is free or has the index.
pub find_lt_cell : (ℕ → FrmStatus) → ℕ → ℕ → ℕ → Option ℕ
find_lt_cell arr lt_idx zero i = none
find_lt_cell arr lt_idx (suc left) i =
    let rest = find_lt_cell arr lt_idx left (i + 1) in
    if not (arr (i + max_cpb_st_frm)).valid
    then some (i + max_cpb_st_frm)
    else if (arr (i + max_cpb_st_frm)).lt_idx == lt_idx
    then some (i + max_cpb_st_frm)
    else rest

-- The sliding window: `for (i = n; i > 0; i--) refs[i] = refs[i - 1]`.
pub slide : ℕ → (ℕ → FrmStatus) → ℕ → FrmStatus
slide zero arr = arr
slide (suc i) arr = slide i (update arr (suc i) (arr i))

unfoldable pub store_lt : VirtualCpb → FrmStatus → VirtualCpb
store_lt cpb frm = record cpb {
  lt_idx_refs = update cpb.lt_idx_refs frm.lt_idx frm;
  st_tid_refs = update cpb.st_tid_refs frm.temporal_id frm;
  mode_refs = update (update cpb.mode_refs ref_to_prev_ref_frm frm) ref_to_prev_lt_ref frm;
  cpb_refs = elim (find_lt_cell cpb.cpb_refs frm.lt_idx max_cpb_lt_frm 0) [
    | none ↦ cpb.cpb_refs
    | some i ↦ update cpb.cpb_refs i frm
  ];
}

unfoldable pub store_st : VirtualCpb → FrmStatus → VirtualCpb
store_st cpb frm = record cpb {
  st_tid_refs = update cpb.st_tid_refs frm.temporal_id frm;
  mode_refs = update (update cpb.mode_refs ref_to_prev_ref_frm frm) ref_to_prev_st_ref frm;
  cpb_refs = update (slide (max_cpb_st_frm - 1) cpb.cpb_refs) 0 frm;
}

-- store_ref_to_cpb. The fields of `frm` have four bits, so they index within the arrays.
unfoldable pub store_ref_to_cpb : VirtualCpb → FrmStatus → VirtualCpb
unfolding store_lt store_st find_lt_cell slide
store_ref_to_cpb cpb frm =
    let intra =
      if frm.is_intra
      then record cpb { mode_refs = update cpb.mode_refs ref_to_prev_intra frm }
      else cpb in
    if frm.is_non_ref then cpb else if frm.is_lt_ref then store_lt intra frm else store_st intra frm
