-- ===== src/RefTypes.antt =====
-- The data of the reference management: vcodec/inc/rk_venc_ref.h, vcodec/inc/mpp_rc_defs.h and
-- vcodec/mpp/base/inc/mpp_enc_ref.h.
-- A 32-bit signed field is an integer where the user sets it, and a number where the code only
-- counts in it: a counter that passes 2 ^ 31 - 1 is undefined in C, and keeps its pattern here.
use rockchip_kmpp.Prelude.{ℕ, Bool, false, ◌&&◌, ltb, List}
use rockchip_kmpp.Prelude.Int.{ℤ, pos}

-- MppEncRefMode, as the numbers that the enumeration gives.
abbrev pub ref_to_prev_ref_frm : ℕ
ref_to_prev_ref_frm = 0

abbrev pub ref_to_prev_st_ref : ℕ
ref_to_prev_st_ref = 1

abbrev pub ref_to_prev_lt_ref : ℕ
ref_to_prev_lt_ref = 2

abbrev pub ref_to_prev_intra : ℕ
ref_to_prev_intra = 3

abbrev pub ref_to_temporal_layer : ℕ
ref_to_temporal_layer = 4

abbrev pub ref_to_lt_ref_idx : ℕ
ref_to_lt_ref_idx = 5

abbrev pub ref_to_st_prev_n_ref : ℕ
ref_to_st_prev_n_ref = 6

abbrev pub ref_mode_global_butt : ℕ
ref_mode_global_butt = 7

abbrev pub ref_mode_lt : ℕ
ref_mode_lt = 0x18

abbrev pub ref_to_st_ref_setup : ℕ
ref_to_st_ref_setup = 0x19

abbrev pub ref_mode_lt_butt : ℕ
ref_mode_lt_butt = 0x1a

abbrev pub ref_mode_st : ℕ
ref_mode_st = 0x1c

abbrev pub ref_mode_st_butt : ℕ
ref_mode_st_butt = 0x1e

-- REF_MODE_IS_GLOBAL, REF_MODE_IS_LT_MODE, REF_MODE_IS_ST_MODE. The first range starts at 0.
abbrev pub ref_mode_is_global : ℕ → Bool
ref_mode_is_global mode = ltb mode ref_mode_global_butt

abbrev pub ref_mode_is_lt_mode : ℕ → Bool
ref_mode_is_lt_mode mode = ltb ref_mode_lt mode && ltb mode ref_mode_lt_butt

abbrev pub ref_mode_is_st_mode : ℕ → Bool
ref_mode_is_st_mode mode = ltb ref_mode_st mode && ltb mode ref_mode_st_butt

-- EncFrmStatus, less the reserved bits. A copy of `val` is a copy of the record.
pub record FrmStatus : Type 0 where
  pub valid : Bool
  pub non_recn : Bool
  pub save_pass1 : Bool
  pub use_pass1 : Bool
  pub is_intra : Bool
  pub is_idr : Bool
  pub is_non_ref : Bool
  pub is_lt_ref : Bool
  pub lt_idx : ℕ
  pub temporal_id : ℕ
  pub ref_mode : ℕ
  pub ref_arg : ℤ
  pub ref_dist : ℤ
  pub drop_frm : Bool
  pub re_dpb_proc : Bool
  pub reencode : Bool
  pub super_frame : Bool
  pub force_pskip : Bool
  pub reencode_times : ℕ
  pub seq_idx : ℕ

-- `val = 0`, and what a memset leaves.
abbrev pub no_frm : FrmStatus
no_frm = record {
  valid = false;
  non_recn = false;
  save_pass1 = false;
  use_pass1 = false;
  is_intra = false;
  is_idr = false;
  is_non_ref = false;
  is_lt_ref = false;
  lt_idx = 0;
  temporal_id = 0;
  ref_mode = 0;
  ref_arg = pos 0;
  ref_dist = pos 0;
  drop_frm = false;
  re_dpb_proc = false;
  reencode = false;
  super_frame = false;
  force_pskip = false;
  reencode_times = 0;
  seq_idx = 0;
}

-- MppEncRefLtFrmCfg
pub record LtFrmCfg : Type 0 where
  pub lt_idx : ℤ
  pub temporal_id : ℤ
  pub ref_mode : ℕ
  pub ref_arg : ℤ
  pub lt_gap : ℤ
  pub lt_delay : ℤ

-- MppEncRefStFrmCfg
pub record StFrmCfg : Type 0 where
  pub is_non_ref : ℤ
  pub temporal_id : ℤ
  pub ref_mode : ℕ
  pub ref_arg : ℤ
  pub repeat : ℤ

-- MppEncCpbInfo
pub record CpbInfo : Type 0 where
  pub dpb_size : ℕ
  pub max_lt_cnt : ℕ
  pub max_st_cnt : ℕ
  pub max_lt_idx : ℕ
  pub max_st_tid : ℕ
  pub lt_gop : ℤ
  pub st_gop : ℤ

abbrev pub no_info : CpbInfo
no_info = record {
  dpb_size = 0;
  max_lt_cnt = 0;
  max_st_cnt = 0;
  max_lt_idx = 0;
  max_st_tid = 0;
  lt_gop = pos 0;
  st_gop = pos 0;
}

-- MppEncRefCfgImpl. The lists are the allocated arrays, with max_lt_cfg and max_st_cfg cells.
-- The name, which only marks the type, and the debug flag are left out.
pub record RefCfg : Type 0 where
  pub ready : Bool
  pub keep_cpb : Bool
  pub lt_cfg_cnt : ℕ
  pub st_cfg_cnt : ℕ
  pub lt_cfg : List LtFrmCfg
  pub st_cfg : List StFrmCfg
  pub cpb_info : CpbInfo

-- EncCpbStatus: `init` and `final` are arrays of MAX_CPB_REFS cells. Its `seq_idx`, which the
-- reference manager does not touch, is left out.
abbrev pub max_cpb_refs : ℕ
max_cpb_refs = 8

pub record CpbStatus : Type 0 where
  pub curr : FrmStatus
  pub refr : FrmStatus
  pub init : List FrmStatus
  pub final : List FrmStatus
