-- ===== src/EncRefs/Dryrun.antt =====
-- vcodec/mpp/base/mpp_enc_refs.c, mpp_enc_refs_dryrun: one round of the configuration on a clean
-- buffer, to learn how far back the short-term references go.
use rockchip_kmpp.Prelude.{
  ℕ, zero, suc, ◌+◌, false, ltb, ◌==◌, if◌then◌else◌, Option, none, some, get_elem?,
}
use rockchip_kmpp.Prelude.Word.{u32}
use rockchip_kmpp.Prelude.Int.{pos_part}
use rockchip_kmpp.Prelude.Cast.{nonzero}
use rockchip_kmpp.Prelude.Maybe.{◌>>=◌}
use rockchip_kmpp.RefTypes.{FrmStatus, StFrmCfg, RefCfg}
use rockchip_kmpp.Cpb.{
  VirtualCpb, cleanup_cpb_refs, set_st_cfg_to_frm, get_ref_from_cpb, check_ref_cpb_pos,
  store_ref_to_cpb, max_cpb_st_frm,
}
use rockchip_kmpp.EncRefs.{EncRefs}
use rockchip_kmpp.EncRefs.NextFrame.{lt_counters, lt_loop}

-- The variables of the loop.
pub record Dry : Type 0 where
  pub cpb : VirtualCpb
  pub cpb_st_used_size : ℕ
  pub seq_idx : ℕ

-- Step 3: a short-term reference at a position makes the used size reach behind it.
unfoldable pub grow_used : VirtualCpb → Option FrmStatus → ℕ → ℕ
grow_used cpb none used = used
grow_used cpb (some ref) used = elim (check_ref_cpb_pos cpb ref) [
  | none ↦ used
  | some cpb_pos ↦
      if ltb cpb_pos max_cpb_st_frm
      then (if ltb used (cpb_pos + 1) then cpb_pos + 1 else used)
      else used
]

-- One frame of the dry run.
unfoldable pub dry_frame : ℕ → StFrmCfg → Dry → Option Dry
dry_frame lt_cfg_cnt st_cfg d = do
  cnt ← lt_counters lt_cfg_cnt
  let st_frm = set_st_cfg_to_frm d.seq_idx st_cfg
  let (cnter, (frm, _)) = lt_loop lt_cfg_cnt 0 d.cpb.lt_cnter (st_frm, false)
  let cpb = record (d.cpb) { lt_cnter = cnter }
  found ← get_ref_from_cpb cpb frm
  some (record {
    cpb = store_ref_to_cpb cpb frm;
    cpb_st_used_size = grow_used cpb found d.cpb_st_used_size;
    seq_idx = u32 (d.seq_idx + 1);
  })

unfoldable pub dry_repeat : ℕ → ℕ → StFrmCfg → Dry → Option Dry
dry_repeat lt_cfg_cnt zero st_cfg d = some d
dry_repeat lt_cfg_cnt (suc rounds) st_cfg d =
    dry_frame lt_cfg_cnt st_cfg d >>= dry_repeat lt_cfg_cnt rounds st_cfg

-- `(repeat) ? repeat : 1` rounds, and none if it is negative.
abbrev pub dry_rounds : StFrmCfg → ℕ
dry_rounds st_cfg = if nonzero st_cfg.repeat then pos_part st_cfg.repeat else 1

unfoldable pub dry_loop : ℕ → ℕ → RefCfg → Dry → Option Dry
dry_loop zero st_idx cfg d = some d
dry_loop (suc left) st_idx cfg d = do
  st_cfg ← get_elem? cfg.st_cfg st_idx
  d' ← dry_repeat cfg.lt_cfg_cnt (dry_rounds st_cfg) st_cfg d
  dry_loop left (st_idx + 1) cfg d'

-- The run on a clean buffer, which is clean again at the end and knows `max_st_cnt`.
unfoldable pub dry_cpb : RefCfg → VirtualCpb → Option VirtualCpb
dry_cpb cfg cpb = do
  let start : Dry = record { cpb = cleanup_cpb_refs cpb; cpb_st_used_size = 0; seq_idx = 0 }
  d ← dry_loop cfg.st_cfg_cnt 0 cfg start
  let used = d.cpb_st_used_size
  let clean = cleanup_cpb_refs d.cpb
  some (record clean { info = record (clean.info) { max_st_cnt = if used == 0 then 1 else used } })

-- mpp_enc_refs_dryrun. A configuration that is already checked is not run again.
unfoldable pub dryrun : EncRefs → Option EncRefs
dryrun p = do
  cfg ← p.ref_cfg
  cpb ← if cfg.ready then some p.cpb else dry_cpb cfg p.cpb
  some (record p {
    cpb = record cpb {
      info = record (cpb.info) { dpb_size = cpb.info.max_lt_cnt + cpb.info.max_st_cnt };
    };
  })
