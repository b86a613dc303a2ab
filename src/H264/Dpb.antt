-- ===== src/H264/Dpb.antt =====
-- vcodec/mpp/codec/enc/h264e/h264e_dpb.c: which slot a frame takes, and what it is numbered.
-- A slot is its index in `frames`, an array of 17 that is a function of the index. Of
-- h264e_dpb_proc this is the part in front of the reference lists.
pub mod Free
pub mod Slots
pub mod Find
pub mod Place
pub mod Numbers
mod Tests
use rockchip_kmpp.Prelude.{
  ℕ, zero, suc, ◌+◌, ◌*◌, ◌^◌, List, [], ◌∷◌, Bool, true, false, not, ltb, ◌==◌, ◌&&◌, ◌||◌,
  if◌then◌else◌, Option, none, some,
}
use rockchip_kmpp.RefTypes.{FrmStatus, no_frm, CpbInfo, CpbStatus, no_info, RefCfg}
use rockchip_kmpp.RefCheck.{cfg_cpb_info}
use rockchip_kmpp.H264.{Sps}

-- H264eDpbFrm, less its own index and the time stamp.
pub record DpbFrm : Type 0 where
  pub seq_idx : ℕ
  pub on_used : Bool
  pub status : FrmStatus
  pub frame_num : ℕ
  pub lt_idx : ℕ
  pub poc : ℕ

-- H264eDpbRt
pub record DpbRt : Type 0 where
  pub last_seq_idx : ℕ
  pub last_is_ref : ℕ
  pub last_frm_num : ℕ
  pub last_poc_lsb : ℕ
  pub last_poc_msb : ℕ

-- H264eDpb, less the lists and the syntax built from them.
pub record Dpb : Type 0 where
  pub info : CpbInfo
  pub next_max_lt_idx : ℕ
  pub curr_max_lt_idx : ℕ
  pub used_size : ℕ
  pub dpb_size : ℕ
  pub total_cnt : ℕ
  pub max_frm_num : ℕ
  pub max_poc_lsb : ℕ
  pub poc_type : ℕ
  pub curr : Option ℕ
  pub refr : Option ℕ
  pub map : List (Option ℕ)
  pub rt : DpbRt
  pub rt_bak : DpbRt
  pub frames : ℕ → DpbFrm
  pub frm_bak : ℕ → DpbFrm

-- H264E_MAX_REFS_CNT
abbrev pub max_refs_cnt : ℕ
max_refs_cnt = 16

abbrev pub no_slot : DpbFrm
no_slot = record {
  seq_idx = 0;
  on_used = false;
  status = no_frm;
  frame_num = 0;
  lt_idx = 0;
  poc = 0;
}

abbrev pub no_rt : DpbRt
no_rt = record {
  last_seq_idx = 0;
  last_is_ref = 0;
  last_frm_num = 0;
  last_poc_lsb = 0;
  last_poc_msb = 0;
}

-- h264e_dpb_init: a cleared object.
abbrev pub dpb_init : Dpb
dpb_init = record {
  info = no_info;
  next_max_lt_idx = 0;
  curr_max_lt_idx = 0;
  used_size = 0;
  dpb_size = 0;
  total_cnt = 0;
  max_frm_num = 0;
  max_poc_lsb = 0;
  poc_type = 0;
  curr = none;
  refr = none;
  map = [];
  rt = no_rt;
  rt_bak = no_rt;
  frames = λ _. no_slot;
  frm_bak = λ _. no_slot;
}

-- h264e_dpb_setup
unfoldable pub dpb_setup : RefCfg → Sps → Dpb
dpb_setup ref_cfg sps =
    let info = cfg_cpb_info ref_cfg in
    record dpb_init {
      info = info;
      dpb_size = info.dpb_size;
      total_cnt = info.dpb_size + 1;
      max_frm_num = 2 ^ (sps.log2_max_frame_num_minus4 + 4);
      max_poc_lsb = 2 ^ (sps.log2_max_poc_lsb_minus4 + 4);
      poc_type = sps.pic_order_cnt_type;
    }

-- The loop of find_cpb_frame: so many slots from `i` on. A count above the 17 slots of the array,
-- which would leave it, is not told as a fault.
unfoldable pub find_from : ℕ → ℕ → (ℕ → DpbFrm) → ℕ → Option ℕ
find_from zero i frms seq_idx = none
find_from (suc cnt) i frms seq_idx =
    let later = find_from cnt (i + 1) frms seq_idx in
    let p = (frms i).status in if p.valid && (p.seq_idx == seq_idx) then some i else later

unfoldable pub find_cpb_frame : (ℕ → DpbFrm) → ℕ → FrmStatus → Option ℕ
find_cpb_frame frms cnt frm = if frm.valid then find_from cnt 0 frms frm.seq_idx else none

-- A store to one slot.
abbrev pub set_slot : (ℕ → DpbFrm) → ℕ → DpbFrm → ℕ → DpbFrm
set_slot frms i f j = if i == j then f else frms j

abbrev pub mark_used : Option ℕ → (ℕ → DpbFrm) → ℕ → DpbFrm
mark_used none frms = frms
mark_used (some i) frms = set_slot frms i (record (frms i) { on_used = true })

-- The scan of the frames that the buffer holds: their slots, which are in use.
unfoldable pub scan_map : ℕ → (ℕ → DpbFrm) → List FrmStatus → List (Option ℕ) × (ℕ → DpbFrm)
scan_map cnt frms [] = ([], frms)
scan_map cnt frms (frm ∷ init) =
    let found = find_cpb_frame frms cnt frm in
    let (map, frms') = scan_map cnt (mark_used found frms) init in (found ∷ map, frms')

abbrev pub is_slot : ℕ → Option ℕ → Bool
is_slot i none = false
is_slot i (some j) = i == j

-- `p == dpb->map[j]` for some j.
abbrev pub in_map : ℕ → List (Option ℕ) → Bool
in_map i [] = false
in_map i (m ∷ map) = is_slot i m || in_map i map

abbrev pub release : DpbFrm → DpbFrm
release f = record f { on_used = false; status = record f.status { valid = false } }

-- What happens before the scan: an IDR frame releases all slots, a frame that is encoded again finds
-- what was there before.
unfoldable pub start_frame : FrmStatus → Dpb → Dpb
start_frame curr dpb =
    if curr.is_idr
    then record dpb {
      frames = λ i. if ltb i (max_refs_cnt + 1) then release (dpb.frames i) else dpb.frames i;
      used_size = 0;
      curr_max_lt_idx = 0;
      next_max_lt_idx = 0;
    }
    else if curr.seq_idx == dpb.rt.last_seq_idx
    then record dpb { rt = dpb.rt_bak; frames = dpb.frm_bak }
    else dpb

-- The scan, and the copies for another encoding.
unfoldable pub scan_frame : List FrmStatus → Dpb → Dpb
scan_frame init dpb =
    let (map, frames) = scan_map dpb.total_cnt dpb.frames init in
    record dpb { map = map; frames = frames; rt_bak = dpb.rt; frm_bak = frames; curr = none }

abbrev pub next_frm_num : Dpb → ℕ
next_frm_num dpb =
    let n = dpb.rt.last_frm_num + dpb.rt.last_is_ref in if ltb n dpb.max_frm_num then n else 0

-- The lower and the upper part of the next picture order count.
unfoldable pub next_poc : Dpb → ℕ × ℕ
next_poc dpb =
    let lsb =
      dpb.rt.last_poc_lsb
      + (if dpb.poc_type == 0
          then 2
          else if dpb.poc_type == 2
          then 1 + dpb.rt.last_is_ref
          else 0) in
    if ltb lsb dpb.max_poc_lsb then (lsb, dpb.rt.last_poc_msb) else (0, dpb.rt.last_poc_msb + 1)

-- The slot of the current frame is filled.
unfoldable pub take_slot : ℕ → FrmStatus → Dpb → Dpb
take_slot i curr dpb =
    let frm_num = if curr.is_idr then 0 else next_frm_num dpb in
    let lsb = if curr.is_idr then 0 else (next_poc dpb).0 in
    let msb = if curr.is_idr then 0 else (next_poc dpb).1 in
    record dpb {
      curr = some i;
      frames = set_slot dpb.frames i (record {
        seq_idx = curr.seq_idx;
        on_used = true;
        status = curr;
        frame_num = frm_num;
        lt_idx = curr.lt_idx;
        poc = lsb + msb * dpb.max_poc_lsb;
      });
      rt = record {
        last_seq_idx = curr.seq_idx;
        last_is_ref = if curr.is_non_ref then 0 else 1;
        last_frm_num = frm_num;
        last_poc_lsb = lsb;
        last_poc_msb = msb;
      };
    }

abbrev pub is_found : Option ℕ → Bool
is_found none = false
is_found (some i) = true

-- A round of the loop over the slots.
unfoldable pub visit_slot : ℕ → FrmStatus → Dpb → Dpb
visit_slot i curr dpb =
    if in_map i dpb.map
    then dpb
    else if is_found dpb.curr
    then record dpb { frames = set_slot dpb.frames i (release (dpb.frames i)) }
    else take_slot i curr dpb

-- So many slots from `i` on.
unfoldable pub visit_slots : ℕ → ℕ → FrmStatus → Dpb → Dpb
visit_slots zero i curr dpb = dpb
visit_slots (suc cnt) i curr dpb = visit_slots cnt (i + 1) curr (visit_slot i curr dpb)

-- The slot of the frame that is referred to; the current one if there is none.
unfoldable pub find_refr : FrmStatus → Dpb → Dpb
find_refr refr dpb =
    let found = find_cpb_frame dpb.frames dpb.total_cnt refr in
    record dpb { refr = if is_found found then found else dpb.curr }

-- h264e_dpb_proc, up to the lists.
unfoldable pub place_frame : CpbStatus → Dpb → Dpb
place_frame cpb dpb =
    let scanned = scan_frame cpb.init (start_frame cpb.curr dpb) in
    find_refr cpb.refr (visit_slots (max_refs_cnt + 1) 0 cpb.curr scanned)
