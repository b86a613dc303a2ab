-- ===== src/EncRefs/Tests.antt =====
-- Runs of the reference manager on small inputs.
use mathlib.Core.Option
use mathlib.Core.Path.{subst}
use rockchip_kmpp.Prelude.Maybe.{some-cancel}
use rockchip_kmpp.Prelude.{
  ℕ, zero, suc, ◌≡◌, refl, sym, ◌∙◌, get_elem?, arith, true, false, ◌||◌, ◌==◌, [], ◌∷◌, none, some,
}
use rockchip_kmpp.Prelude.Int.{pos}
use rockchip_kmpp.RefTypes.{
  FrmStatus, no_frm, StFrmCfg, RefCfg, CpbStatus, ref_to_prev_ref_frm, ref_to_temporal_layer,
  ref_to_prev_lt_ref,
}
use rockchip_kmpp.Cpb.{
  VirtualCpb, store_ref_to_cpb, store_lt, store_st, get_ref_from_cpb, save_cpb_status, save_st,
  set_st_cfg_to_frm, set_lt_cfg_to_frm, cleanup_cpb_refs,
}
use rockchip_kmpp.Cpb.History.{History, remember, HasArg, IsIndex}
use rockchip_kmpp.Cpb.Track.{Tracks, cleanup-Tracks, store_ref_to_cpb-Tracks}
use rockchip_kmpp.Cpb.Save.{save_cpb_status-overrun}
use rockchip_kmpp.EncRefs.{EncRefs, refs_init, no_cpb, set_cfg, setup_cnts}
use rockchip_kmpp.EncRefs.NextFrame.{
  get_cpb, needs_cleanup, begin_frame, plan_frame, lt_loop, lt_step, force_lt, force_mode,
  force_pskip, advance_st, refer_and_store, store_frame, get_cpb_st_cfg_pos,
}
use rockchip_kmpp.EncRefs.Refine.{history_before, reference_of, get_cpb-Tracks}
use rockchip_kmpp.EncRefs.Reach.{Histories, Reaches, start, configured, planned, Reaches-Tracks}
use rockchip_kmpp.EncRefs.Intra.{get_cpb-is_intra}
use rockchip_kmpp.EncRefs.Dryrun.{dryrun}
use rockchip_kmpp.EncRefs.Total.{Configured, get_cpb-total}

-- Two temporal layers, and every fourth frame a long-term reference.
abbrev base_st : StFrmCfg
base_st = record {
  is_non_ref = pos 0;
  temporal_id = pos 0;
  ref_mode = ref_to_prev_ref_frm;
  ref_arg = pos 0;
  repeat = pos 0;
}

abbrev layered : RefCfg
layered = record {
  ready = true;
  keep_cpb = false;
  lt_cfg_cnt = 1;
  st_cfg_cnt = 3;
  lt_cfg =
      record {
        lt_idx = pos 0;
        temporal_id = pos 0;
        ref_mode = ref_to_prev_lt_ref;
        ref_arg = pos 0;
        lt_gap = pos 4;
        lt_delay = pos 0;
      }
      ∷ [];
  st_cfg =
      base_st
      ∷ record base_st { is_non_ref = pos 1; temporal_id = pos 1 }
      ∷ record base_st { ref_mode = ref_to_temporal_layer }
      ∷ [];
  cpb_info = record {
    dpb_size = 2;
    max_lt_cnt = 1;
    max_st_cnt = 1;
    max_lt_idx = 0;
    max_st_tid = 1;
    lt_gop = pos 4;
    st_gop = pos 2;
  };
}

abbrev blank : CpbStatus
blank = record { curr = no_frm; refr = no_frm; init = []; final = [] }

abbrev opened : EncRefs
opened = Option.get_or (set_cfg refs_init (some layered)) refs_init

opens : set_cfg refs_init (some layered) ≡ some opened
unfolding set_cfg setup_cnts refs_init
opens = refl

abbrev first : EncRefs × CpbStatus
first = Option.get_or (get_cpb opened blank) (opened, blank)

plans_first : get_cpb opened blank ≡ some first
unfolding set_cfg setup_cnts refs_init get_cpb begin_frame needs_cleanup plan_frame lt_loop lt_step
    force_lt force_mode force_pskip advance_st refer_and_store store_frame get_cpb_st_cfg_pos
    store_ref_to_cpb store_lt store_st get_ref_from_cpb save_cpb_status save_st set_st_cfg_to_frm
    set_lt_cfg_to_frm
plans_first = refl

-- The first frame is a long-term reference, at the start of the sequence.
first_frame :
    (first.1.curr.ref_arg ≡ pos 0)
    × (first.1.curr.is_lt_ref ≡ true)
    × (first.1.curr.is_idr ≡ true)
    × (first.0.cpb.frm_idx ≡ 1)
    × (first.0.cpb.seq_idx ≡ 1)
unfolding set_cfg setup_cnts refs_init get_cpb begin_frame needs_cleanup plan_frame lt_loop lt_step
    force_lt force_mode force_pskip advance_st refer_and_store store_frame get_cpb_st_cfg_pos
    store_ref_to_cpb store_lt store_st get_ref_from_cpb save_cpb_status save_st set_st_cfg_to_frm
    set_lt_cfg_to_frm
first_frame = (refl, refl, refl, refl, refl)

layered_args : (i : ℕ) (s : StFrmCfg) → get_elem? layered.st_cfg i ≡ some s → IsIndex s.ref_arg
layered_args zero s e = subst (λ x. IsIndex x.ref_arg) (some-cancel e) (omega arith)
layered_args (suc zero) s e = subst (λ x. IsIndex x.ref_arg) (some-cancel e) (omega arith)
layered_args (suc (suc zero)) s e = subst (λ x. IsIndex x.ref_arg) (some-cancel e) (omega arith)
layered_args (suc (suc (suc i))) s e = cc

opened-Configured : Configured opened
unfolding set_cfg setup_cnts refs_init
opened-Configured = record {
  cfg = layered;
  has_cfg = refl;
  counted = refl;
  lt_cnt = omega arith;
  some_st = omega arith;
  st_args = layered_args;
  lt_args = λ i. ground arith;
  forced_arg = omega arith;
  sizes = record { sum = omega arith; small = omega arith };
}

-- The second frame.
first-Configured : Configured first.0
first-Configured =
    let (p, status, e, c, _) = get_cpb-total opened blank opened-Configured in
    subst (λ r. Configured r.0) (some-cancel (sym e ∙ plans_first)) c

abbrev second :
    (p : EncRefs) × (status : CpbStatus) × (get_cpb first.0 blank ≡ some (p, status))
    × Configured p
    × IsIndex status.curr.ref_arg
second = get_cpb-total first.0 blank first-Configured

first-HasArg : HasArg first.1.curr
first-HasArg low high = let (e, _, _, _, _) = first_frame in rw e (omega arith)

-- What the first two frames leave behind.
abbrev no_histories : Histories
no_histories = record { now = []; stashed = [] }

abbrev one_frame : History
one_frame = remember first.1.curr (history_before opened [])

opened-Reaches : Reaches opened no_histories
opened-Reaches = configured layered start opens

first-Reaches : Reaches first.0 (record { now = one_frame; stashed = [] })
first-Reaches = planned blank first.1 opened-Reaches plans_first first-HasArg

first-Tracks : Tracks first.0.cpb one_frame
first-Tracks = (Reaches-Tracks first.0 (record { now = one_frame; stashed = [] }) first-Reaches).0

Reaches-Tracks_example : Tracks first.0.cpb one_frame × Tracks first.0.cpb_stash []
Reaches-Tracks_example =
    Reaches-Tracks first.0 (record { now = one_frame; stashed = [] }) first-Reaches

get_cpb-Tracks_example :
    (second.1.refr ≡ reference_of (history_before first.0 one_frame) second.1.curr)
    × Tracks second.0.cpb (remember second.1.curr (history_before first.0 one_frame))
get_cpb-Tracks_example =
    get_cpb-Tracks first.0 blank one_frame first-Tracks second.2 (λ _ _. second.4)

get_cpb-is_intra_example :
    (second.1.curr.is_intra ≡ (needs_cleanup first.0 || (first.0.cpb.seq_idx == 0)))
    × (second.1.curr.is_idr ≡ (needs_cleanup first.0 || (first.0.cpb.seq_idx == 0)))
    × (second.1.curr.is_intra ≡ true → second.1.refr ≡ no_frm)
get_cpb-is_intra_example = get_cpb-is_intra first.0 blank second.2

get_cpb-total_example :
    (p' : EncRefs) × (status' : CpbStatus) × (get_cpb opened blank ≡ some (p', status'))
    × Configured p'
    × IsIndex status'.curr.ref_arg
get_cpb-total_example = get_cpb-total opened blank opened-Configured

-- A frame stored in a clean buffer.
abbrev frame : FrmStatus
frame = record no_frm { valid = true; is_intra = true; temporal_id = 1; seq_idx = 5 }

store_ref_to_cpb-Tracks_example :
    Tracks (store_ref_to_cpb (cleanup_cpb_refs no_cpb) frame) (remember frame [])
store_ref_to_cpb-Tracks_example =
    store_ref_to_cpb-Tracks (cleanup_cpb_refs no_cpb) frame [] (cleanup-Tracks no_cpb)

-- A buffer for two frames, and one for nine.
abbrev two : VirtualCpb
two = record no_cpb { info = layered.cpb_info }

abbrev nine : VirtualCpb
nine = record no_cpb {
  info = record {
    dpb_size = 9;
    max_lt_cnt = 0;
    max_st_cnt = 9;
    max_lt_idx = 0;
    max_st_tid = 0;
    lt_gop = pos 0;
    st_gop = pos 0;
  };
  cpb_refs = λ _. frame;
}

save_cpb_status-overrun_example : save_cpb_status nine ≡ none
save_cpb_status-overrun_example =
    save_cpb_status-overrun nine refl (omega arith) (omega arith) (λ j h. refl)

-- The layered configuration, not yet checked.
abbrev unchecked : RefCfg
unchecked = record layered { ready = false }

abbrev fresh : EncRefs
fresh = record refs_init {
  ref_cfg = some unchecked;
  cpb = record no_cpb { info = layered.cpb_info };
}

abbrev dry : EncRefs
dry = Option.get_or (dryrun fresh) fresh
