-- ===== src/EncRefs/NextFrame.antt =====
-- vcodec/mpp/base/mpp_enc_refs.c, the plan for the next frame: mpp_enc_refs_get_cpb, the queries
-- before it, and the first pass.
use rockchip_kmpp.Prelude.{
  ℕ, zero, suc, ◌+◌, ◌%◌, ◌^◌, Bool, true, false, not, ◌&&◌, ◌||◌, ltb, leb, ◌==◌, if◌then◌else◌,
  Option, none, some, get_elem?,
}
use rockchip_kmpp.Prelude.Word.{u32, update}
use rockchip_kmpp.Prelude.Int.{pos, negsuc, ltb_ℤ, ◌-ℤ◌}
use rockchip_kmpp.Prelude.Cast.{low_bits, signed8, nonzero, leb_ℤ}
use rockchip_kmpp.Prelude.Maybe.{◌>>=◌}
use rockchip_kmpp.RefTypes.{FrmStatus, no_frm, StFrmCfg, RefCfg, CpbStatus, ref_to_prev_ref_frm}
use rockchip_kmpp.Cpb.{
  VirtualCpb, RefsCnt, cleanup_cpb_refs, set_st_cfg_to_frm, set_lt_cfg_to_frm, get_ref_from_cpb,
  save_cpb_status, store_ref_to_cpb, max_cpb_lt_frm,
}
use rockchip_kmpp.EncRefs.{EncRefs}

-- One long-term counter meets the next frame. The Boolean says whether a counter before it has
-- already marked the frame.
unfoldable pub lt_step : RefsCnt → FrmStatus × Bool → RefsCnt × (FrmStatus × Bool)
lt_step c (frm, set_to_lt) =
    let cnt = u32 (c.cnt + 1) in
    let marks = not set_to_lt && (c.cnt == 0) in
    let out : FrmStatus × Bool =
      if marks then (set_lt_cfg_to_frm frm c, true) else (frm, set_to_lt) in
    let moved =
      if leb_ℤ c.len (pos cnt)
      then (if nonzero c.len
          then record c { cnt = 0; idx = u32 (c.idx + 1) }
          else record c { cnt = 1; idx = 1 })
      else record c { cnt = cnt } in
    if nonzero c.delay_cnt
    then (record c { delay_cnt = c.delay_cnt -ℤ pos 1 }, (frm, set_to_lt))
    else (moved, out)

-- The array of counters, if a loop over so many of them stays in it.
abbrev pub lt_counters : ℕ → Option ℕ
lt_counters cnt = if leb cnt max_cpb_lt_frm then some cnt else none

-- The loop over the counters. It faults on more of them than the array holds: its callers ask
-- `lt_counters` first.
unfoldable pub lt_loop :
    ℕ → ℕ → (ℕ → RefsCnt) → FrmStatus × Bool → (ℕ → RefsCnt) × (FrmStatus × Bool)
lt_loop zero i cnter out = (cnter, out)
lt_loop (suc left) i cnter out =
    let (c, out') = lt_step (cnter i) out in lt_loop left (i + 1) (update cnter i c) out'

-- get_cpb_st_cfg_pos: the second round of the configuration starts from 1.
unfoldable pub get_cpb_st_cfg_pos : VirtualCpb → RefCfg → ℕ
get_cpb_st_cfg_pos cpb cfg =
    if leb cfg.st_cfg_cnt cpb.st_cfg_pos
    then (if ltb 1 cfg.st_cfg_cnt then 1 else 0)
    else cpb.st_cfg_pos

-- Step 1 of mpp_enc_refs_get_cpb: whether the buffer is cleaned before the frame, and what is left.
unfoldable pub needs_cleanup : EncRefs → Bool
needs_cleanup p =
    p.igop_changed
    || (nonzero p.igop && leb_ℤ p.igop (pos p.cpb.seq_idx))
    || p.usr_cfg.force_flag.idr

unfoldable pub begin_frame : EncRefs → EncRefs
begin_frame p =
    let restarted =
      if needs_cleanup p
      then cleanup_cpb_refs p.cpb
      else if p.ref_cfg_changed
      then record (p.cpb) { st_cfg_pos = 0; st_cfg_repeat_pos = 0 }
      else p.cpb in
    record p {
      cpb = record restarted { frm_idx = u32 (restarted.frm_idx + 1) };
      usr_cfg = record (p.usr_cfg) { force_flag = record (p.usr_cfg.force_flag) { idr = false } };
      ref_cfg_changed = false;
      usr_cfg_changed = false;
      igop_changed = false;
    }

-- The forced long-term index. An IDR frame takes index 0.
unfoldable pub force_lt : EncRefs → FrmStatus → EncRefs × FrmStatus
force_lt p frm =
    let u = p.usr_cfg in
    let idx = low_bits 4 u.force_lt_idx in
    if u.force_flag.lt_ref_idx
    then (
      record p {
        cpb = record (p.cpb) { st_cfg_repeat_pos = 0; st_cfg_pos = 0 };
        usr_cfg = record u { force_flag = record (u.force_flag) { lt_ref_idx = false } };
      },
      record frm {
        is_non_ref = false;
        is_lt_ref = true;
        lt_idx = if frm.is_idr then 0 else idx;
        temporal_id = 0;
      },
    )
    else (p, frm)

-- The forced reference mode and the forced skip.
unfoldable pub force_mode : EncRefs → FrmStatus → EncRefs × FrmStatus
force_mode p frm =
    let u = p.usr_cfg in
    if u.force_flag.ref_mode
    then (
      record p { usr_cfg = record u { force_flag = record (u.force_flag) { ref_mode = false } } },
      record frm {
        ref_mode = u.force_ref_mode % 2 ^ 6;
        ref_arg = signed8 (low_bits 8 u.force_ref_arg);
      },
    )
    else (p, frm)

unfoldable pub force_pskip : EncRefs → FrmStatus → EncRefs × FrmStatus
force_pskip p frm =
    let u = p.usr_cfg in
    if u.force_flag.pskip
    then (
      record p { usr_cfg = record u { force_flag = record (u.force_flag) { pskip = false } } },
      record frm { is_non_ref = true },
    )
    else (p, frm)

-- The repeat count of the short-term configuration moves on.
unfoldable pub advance_st : StFrmCfg → VirtualCpb → VirtualCpb
advance_st st_cfg cpb =
    let repeat_pos = u32 (cpb.st_cfg_repeat_pos + 1) in
    if ltb_ℤ st_cfg.repeat (pos repeat_pos)
    then record cpb { st_cfg_repeat_pos = 0; st_cfg_pos = u32 (cpb.st_cfg_pos + 1) }
    else record cpb { st_cfg_repeat_pos = repeat_pos }

-- The last steps, which the first pass shares, behind the search for the reference: note the
-- buffer, store the frame, and note the buffer again.
unfoldable pub store_frame : VirtualCpb → FrmStatus → FrmStatus → Option (VirtualCpb × CpbStatus)
store_frame cpb frm refr = do
  before ← save_cpb_status cpb
  let cpb' = store_ref_to_cpb cpb frm
  after ← save_cpb_status cpb'
  some (cpb', record { curr = frm; refr = refr; init = before; final = after })

-- With a reference, the one of the frame before goes into `list0`.
unfoldable pub refer_and_store :
    VirtualCpb → FrmStatus → CpbStatus → Option (VirtualCpb × CpbStatus)
refer_and_store cpb frm status = do
  found ← get_ref_from_cpb cpb frm
  elim found [
    | none ↦ store_frame cpb frm no_frm
    | some ref ↦ store_frame (record cpb { list0 = update cpb.list0 0 status.refr }) frm ref
  ]

-- Steps 2 to 5 of mpp_enc_refs_get_cpb: the frame's status from the short-term configuration, the
-- long-term counters and what the user forces. A frame whose status before the call was that of a
-- first pass is read from there.
unfoldable pub plan_frame : RefCfg → StFrmCfg → CpbStatus → EncRefs → EncRefs × FrmStatus
plan_frame cfg st_cfg status q =
    let st_frm = set_st_cfg_to_frm q.cpb.seq_idx st_cfg in
    let (cnter, (lt_frm, _)) = lt_loop cfg.lt_cfg_cnt 0 q.cpb.lt_cnter (st_frm, false) in
    let cpb = record (q.cpb) {
      st_cfg_pos = get_cpb_st_cfg_pos q.cpb cfg;
      seq_idx = u32 (q.cpb.seq_idx + 1);
      lt_cnter = cnter;
    } in
    let (p₁, frm₁) = force_lt (record q { cpb = cpb }) lt_frm in
    let frm₂ = if status.curr.save_pass1 then record frm₁ { use_pass1 = true } else frm₁ in
    let (p₃, frm₃) = force_mode p₁ frm₂ in
    let (p₄, frm₄) = force_pskip p₃ frm₃ in
    let single = leb_ℤ q.igop (pos 1) && leb_ℤ (pos 1) q.igop in
    (
      record p₄ { cpb = advance_st st_cfg p₄.cpb },
      record frm₄ { non_recn = frm₄.is_non_ref || single },
    )

-- mpp_enc_refs_get_cpb
unfoldable pub get_cpb : EncRefs → CpbStatus → Option (EncRefs × CpbStatus)
get_cpb p status = do
  cfg ← p.ref_cfg
  cnt ← lt_counters cfg.lt_cfg_cnt
  let q = begin_frame p
  st_cfg ← get_elem? cfg.st_cfg (get_cpb_st_cfg_pos q.cpb cfg)
  let (q', frm) = plan_frame cfg st_cfg status q
  (cpb, status') ← refer_and_store q'.cpb frm status
  some (record q' { cpb = cpb }, status')

-- mpp_enc_refs_get_cpb_pass1: the frame keeps its other fields.
unfoldable pub get_cpb_pass1 : EncRefs → CpbStatus → Option (EncRefs × CpbStatus)
get_cpb_pass1 p status = do
  let frm = record (status.curr) {
    valid = true;
    save_pass1 = true;
    is_non_ref = true;
    is_lt_ref = false;
    temporal_id = 0;
    ref_mode = ref_to_prev_ref_frm;
    ref_arg = pos 0;
    non_recn = false;
  }
  (cpb, status') ← refer_and_store p.cpb frm status
  some (record p { cpb = cpb }, status')

-- mpp_enc_refs_next_frm_is_intra
unfoldable pub next_frm_is_intra : EncRefs → Bool
unfolding needs_cleanup
next_frm_is_intra p = if p.cpb.frm_idx == 0 then false else needs_cleanup p

-- mpp_enc_refs_next_frm_is_kpfrm: the early tests only clear a flag that is clear. A remainder by
-- zero is a fault.
unfoldable pub next_frm_is_kpfrm : EncRefs → Option Bool
next_frm_is_kpfrm p =
    let info = p.cpb.info in
    if nonzero info.lt_gop
    then elim info.st_gop [
      | pos zero ↦ none
      | pos (suc n) ↦ some ((p.cpb.seq_idx + 1) % suc n == 0)
      | negsuc n ↦ some ((p.cpb.seq_idx + 1) % suc n == 0)
    ]
    else some false
