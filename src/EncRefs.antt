-- ===== src/EncRefs.antt =====
-- vcodec/mpp/base/mpp_enc_refs.c, the reference manager: MppEncRefsImpl and its interface. A null
-- handle, which every function refuses first, is left out. `none` is a fault: an access outside of
-- an array, or through the pointer to a configuration that was never set.
pub mod NextFrame
pub mod Dryrun
pub mod Same
pub mod Refine
pub mod Intra
pub mod Reach
pub mod Depth
pub mod Sizes
pub mod Store
pub mod Args
pub mod Total
pub mod Tests
use rockchip_kmpp.Prelude.{
  ℕ, zero, suc, ◌+◌, ◌%◌, ◌^◌, Bool, true, false, not, ◌&&◌, ◌||◌, ltb, leb, ◌==◌, if◌then◌else◌,
  List, [], ◌∷◌, Option, none, some, get_elem?, replicate,
}
use mathlib.Core.Option
use rockchip_kmpp.Prelude.Word.{u32, update}
use rockchip_kmpp.Prelude.Int.{ℤ, pos, negsuc, ltb_ℤ, ◌-ℤ◌}
use rockchip_kmpp.Prelude.Cast.{low_bits, signed8, low_bit, nonzero, leb_ℤ}
use rockchip_kmpp.Prelude.Maybe.{◌>>=◌}
use rockchip_kmpp.RefTypes.{
  FrmStatus, no_frm, CpbInfo, no_info, LtFrmCfg, StFrmCfg, RefCfg, CpbStatus, ref_to_prev_ref_frm,
}
use rockchip_kmpp.Cpb.{
  VirtualCpb, RefsCnt, no_cnt, cleanup_cpb_refs, set_st_cfg_to_frm, set_lt_cfg_to_frm,
  get_ref_from_cpb, check_ref_cpb_pos, save_cpb_status, store_ref_to_cpb,
}

-- The bits of `force_flag`.
pub record ForceFlag : Type 0 where
  pub idr : Bool
  pub pskip : Bool
  pub nonref : Bool
  pub lt_ref_idx : Bool
  pub temporal_id : Bool
  pub ref_mode : Bool

-- MppEncRefFrmUsrCfg, less the values that no function reads.
pub record FrmUsrCfg : Type 0 where
  pub force_flag : ForceFlag
  pub force_lt_idx : ℤ
  pub force_ref_mode : ℕ
  pub force_ref_arg : ℤ

-- MppEncRefsImpl. `changed` is its three flags.
pub record EncRefs : Type 0 where
  pub ref_cfg_changed : Bool
  pub usr_cfg_changed : Bool
  pub igop_changed : Bool
  pub ref_cfg : Option RefCfg
  pub usr_cfg : FrmUsrCfg
  pub igop : ℤ
  pub hdr_need_update : Bool
  pub cpb : VirtualCpb
  pub cpb_stash : VirtualCpb

abbrev pub no_cpb : VirtualCpb
no_cpb = record {
  info = no_info;
  cpb_refs = λ _. no_frm;
  mode_refs = λ _. no_frm;
  st_tid_refs = λ _. no_frm;
  lt_idx_refs = λ _. no_frm;
  lt_cnter = λ _. no_cnt;
  list0 = λ _. no_frm;
  list1 = λ _. no_frm;
  cpb_st = λ _. no_frm;
  frm_idx = 0;
  seq_idx = 0;
  seq_cnt = 0;
  st_cfg_pos = 0;
  st_cfg_repeat_pos = 0;
}

abbrev pub no_force : ForceFlag
no_force = record {
  idr = false;
  pskip = false;
  nonref = false;
  lt_ref_idx = false;
  temporal_id = false;
  ref_mode = false;
}

-- mpp_enc_refs_init: a cleared object.
unfoldable pub refs_init : EncRefs
refs_init = record {
  ref_cfg_changed = false;
  usr_cfg_changed = false;
  igop_changed = false;
  ref_cfg = none;
  usr_cfg = record {
    force_flag = no_force;
    force_lt_idx = pos 0;
    force_ref_mode = 0;
    force_ref_arg = pos 0;
  };
  igop = pos 0;
  hdr_need_update = false;
  cpb = no_cpb;
  cpb_stash = no_cpb;
}

-- mpp_enc_ref_default
abbrev pub default_st_ref_cfg : StFrmCfg
default_st_ref_cfg = record {
  is_non_ref = pos 0;
  temporal_id = pos 0;
  ref_mode = ref_to_prev_ref_frm;
  ref_arg = pos 0;
  repeat = pos 0;
}

abbrev pub default_ref_cfg : RefCfg
default_ref_cfg = record {
  ready = true;
  keep_cpb = false;
  lt_cfg_cnt = 0;
  st_cfg_cnt = 1;
  lt_cfg = [];
  st_cfg = default_st_ref_cfg ∷ [];
  cpb_info = record {
    dpb_size = 1;
    max_lt_cnt = 0;
    max_st_cnt = 1;
    max_lt_idx = 0;
    max_st_tid = 0;
    lt_gop = pos 0;
    st_gop = pos 0;
  };
}

-- One long-term counter, set up from its configuration. The count and the index stay.
abbrev pub setup_cnt : RefsCnt → LtFrmCfg → RefsCnt
setup_cnt c lt_cfg = record c {
  delay = lt_cfg.lt_delay;
  delay_cnt = lt_cfg.lt_delay;
  len = lt_cfg.lt_gap;
  lt_idx = lt_cfg.lt_idx;
  tid = lt_cfg.temporal_id;
  ref_mode = lt_cfg.ref_mode;
  ref_arg = lt_cfg.ref_arg;
}

-- The loop of mpp_enc_refs_set_cfg. The assertion on the count only logs, so the 17th counter
-- would be written outside of the array.
unfoldable pub setup_cnts : ℕ → ℕ → List LtFrmCfg → (ℕ → RefsCnt) → Option (ℕ → RefsCnt)
setup_cnts zero i lt_cfg cnter = some cnter
setup_cnts (suc left) i lt_cfg cnter =
    if ltb i 16
    then elim (get_elem? lt_cfg i) [
      | none ↦ none
      | some cfg ↦ setup_cnts left (i + 1) lt_cfg (update cnter i (setup_cnt (cnter i) cfg))
    ]
    else none

-- mpp_enc_refs_set_cfg. `none` for the configuration is the null pointer, and stands for the
-- default. The manager keeps the configuration as it is now, where the code keeps the pointer to it:
-- that it is not changed while it is set is assumed.
unfoldable pub set_cfg : EncRefs → Option RefCfg → Option EncRefs
set_cfg p ref_cfg = do
  let cfg = Option.get_or ref_cfg default_ref_cfg
  let cpb = if cfg.keep_cpb then p.cpb else no_cpb
  cnter ← setup_cnts cfg.lt_cfg_cnt 0 cfg.lt_cfg cpb.lt_cnter
  let grows = ltb 0 cpb.info.dpb_size && ltb cpb.info.dpb_size cfg.cpb_info.dpb_size
  some (record p {
    ref_cfg = some cfg;
    ref_cfg_changed = true;
    hdr_need_update = not cfg.keep_cpb || grows;
    cpb = record cpb { lt_cnter = cnter; info = cfg.cpb_info };
  })

-- mpp_enc_refs_set_usr_cfg
abbrev pub any_force : ForceFlag → Bool
any_force f = f.idr || f.pskip || f.nonref || f.lt_ref_idx || f.temporal_id || f.ref_mode

pub set_usr_cfg : EncRefs → FrmUsrCfg → EncRefs
set_usr_cfg p cfg = record p {
  usr_cfg = cfg;
  usr_cfg_changed = p.usr_cfg_changed || any_force cfg.force_flag;
}

pub eq_ℤ : ℤ → ℤ → Bool
eq_ℤ a b = leb_ℤ a b && leb_ℤ b a

-- mpp_enc_refs_set_rc_igop
pub set_rc_igop : EncRefs → ℤ → EncRefs
set_rc_igop p igop = if eq_ℤ p.igop igop then p else record p { igop = igop; igop_changed = true }

-- mpp_enc_refs_update_hdr, mpp_enc_refs_get_cpb_info
pub update_hdr : EncRefs → Bool
update_hdr p = p.hdr_need_update

unfoldable pub get_cpb_info : EncRefs → CpbInfo
get_cpb_info p = p.cpb.info

-- mpp_enc_refs_stash, mpp_enc_refs_rollback
pub stash : EncRefs → EncRefs
stash p = record p { cpb_stash = p.cpb }

pub rollback : EncRefs → EncRefs
rollback p = record p { cpb = p.cpb_stash }
