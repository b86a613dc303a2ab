-- ===== src/RefCheck.antt =====
-- vcodec/mpp/base/mpp_enc_ref.c: the configuration of the references, and its check. The test that
-- a handle is a configuration, which comes first in each function, is left out, as is a failed
-- allocation. `none` is a fault: a copy over the end of an array, or a shift by a negative count or
-- by 32 and more, which C leaves undefined.
pub mod Valid
pub mod Accepts
pub mod Fill
pub mod Again
pub mod Tests
use rockchip_kmpp.Prelude.{
  ℕ, zero, suc, ◌+◌, ◌^◌, Bool, true, false, not, ◌&&◌, ◌||◌, ltb, ◌==◌, if◌then◌else◌, bit_and,
  bit_or, List, [], ◌∷◌, Option, none, some, get_elem?, set, length, replicate,
}
use rockchip_kmpp.Prelude.Int.{ℤ, pos, negsuc, pos_part, ltb_ℤ, ◌+ℤ◌, ◌-ℤ◌}
use rockchip_kmpp.Prelude.Cast.{nonzero, leb_ℤ}
use rockchip_kmpp.Prelude.Maybe.{◌>>=◌}
use rockchip_kmpp.Prelude.Ret.{Ret, ok, nok}
use rockchip_kmpp.RefTypes.{
  LtFrmCfg, StFrmCfg, RefCfg, CpbInfo, no_info, ref_mode_is_global, ref_mode_is_lt_mode,
  ref_mode_is_st_mode,
}
use rockchip_kmpp.EncRefs.{EncRefs, refs_init, set_cfg, get_cpb_info}
use rockchip_kmpp.EncRefs.Dryrun.{dryrun}

-- mpp_enc_ref_cfg_init, mpp_enc_ref_cfg_reset: a cleared object.
abbrev pub empty_cfg : RefCfg
empty_cfg = record {
  ready = false;
  keep_cpb = false;
  lt_cfg_cnt = 0;
  st_cfg_cnt = 0;
  lt_cfg = [];
  st_cfg = [];
  cpb_info = no_info;
}

abbrev pub cfg_reset : RefCfg → RefCfg
cfg_reset p = empty_cfg

abbrev pub no_lt : LtFrmCfg
no_lt = record {
  lt_idx = pos 0;
  temporal_id = pos 0;
  ref_mode = 0;
  ref_arg = pos 0;
  lt_gap = pos 0;
  lt_delay = pos 0;
}

abbrev pub no_st : StFrmCfg
no_st = record {
  is_non_ref = pos 0;
  temporal_id = pos 0;
  ref_mode = 0;
  ref_arg = pos 0;
  repeat = pos 0;
}

-- mpp_enc_ref_cfg_set_cfg_cnt: new arrays, cleared. An old one is released.
unfoldable pub set_cfg_cnt : RefCfg → ℕ → ℕ → RefCfg
set_cfg_cnt p lt_cnt st_cnt = record p {
  lt_cfg_cnt = 0;
  st_cfg_cnt = 0;
  lt_cfg = replicate lt_cnt no_lt;
  st_cfg = replicate st_cnt no_st;
}

-- The copy of some entries into an array, from a position on.
unfoldable pub copy_in {ℓ} : {A : Type ℓ} → List A → ℕ → List A → Option (List A)
copy_in arr at [] = some arr
copy_in arr at (x ∷ xs) = if ltb at (length arr) then copy_in (set arr at x) (at + 1) xs else none

-- mpp_enc_ref_cfg_add_lt_cfg, mpp_enc_ref_cfg_add_st_cfg: the count is not checked.
unfoldable pub add_lt_cfg : RefCfg → List LtFrmCfg → Option RefCfg
add_lt_cfg p frm = do
  lt_cfg ← copy_in p.lt_cfg p.lt_cfg_cnt frm
  some (record p { lt_cfg = lt_cfg; lt_cfg_cnt = p.lt_cfg_cnt + length frm })

unfoldable pub add_st_cfg : RefCfg → List StFrmCfg → Option RefCfg
add_st_cfg p frm = do
  st_cfg ← copy_in p.st_cfg p.st_cfg_cnt frm
  some (record p { st_cfg = st_cfg; st_cfg_cnt = p.st_cfg_cnt + length frm })

-- mpp_enc_ref_cfg_set_keep_cpb, mpp_enc_ref_cfg_get_cpb_info
unfoldable pub set_keep_cpb : RefCfg → ℤ → RefCfg
set_keep_cpb p keep = record p { keep_cpb = nonzero keep }

unfoldable pub cfg_cpb_info : RefCfg → CpbInfo
cfg_cpb_info p = p.cpb_info

-- mpp_enc_ref_cfg_copy: the arrays are copied whole.
unfoldable pub cfg_copy : RefCfg → RefCfg → RefCfg
cfg_copy dst source = source

-- `1 << n`
unfoldable pub bit_mask : ℤ → Option ℕ
bit_mask (pos n) = if ltb n 32 then some (2 ^ n) else none
bit_mask (negsuc n) = none

-- The variables of the long-term loop.
pub record LtCheck : Type 0 where
  pub ready : Bool
  pub max_lt_ref_cnt : ℕ
  pub max_lt_ref_idx : ℤ
  pub lt_idx_used_mask : ℕ
  pub lt_dryrun_length : ℤ

-- The tests of one long-term configuration. MPP_ENC_MAX_LT_REF_NUM is 16.
unfoldable pub lt_is_ready : LtFrmCfg → ℕ → ℕ → Bool
lt_is_ready cfg mask used =
    ltb_ℤ cfg.lt_idx (pos 16)
    && (bit_and used mask == 0)
    && not (nonzero cfg.temporal_id)
    && (ref_mode_is_global cfg.ref_mode || ref_mode_is_lt_mode cfg.ref_mode)

unfoldable pub lt_check : LtFrmCfg → ℕ → LtCheck → LtCheck
lt_check cfg mask c =
    let fresh = bit_and c.lt_idx_used_mask mask == 0 in
    let counted = record c {
      ready = lt_is_ready cfg mask c.lt_idx_used_mask;
      lt_idx_used_mask = if fresh then bit_or c.lt_idx_used_mask mask else c.lt_idx_used_mask;
      max_lt_ref_cnt = if fresh then c.max_lt_ref_cnt + 1 else c.max_lt_ref_cnt;
      max_lt_ref_idx = if ltb_ℤ c.max_lt_ref_idx cfg.lt_idx then cfg.lt_idx else c.max_lt_ref_idx;
    } in
    let span = cfg.lt_gap +ℤ cfg.lt_delay in
    if counted.ready && nonzero cfg.lt_gap && ltb_ℤ c.lt_dryrun_length span
    then record counted { lt_dryrun_length = span }
    else counted

-- The loop stops where a test fails.
unfoldable pub lt_checks : ℕ → ℕ → List LtFrmCfg → LtCheck → Option LtCheck
lt_checks zero i lt_cfg c = some c
lt_checks (suc left) i lt_cfg c = do
  cfg ← get_elem? lt_cfg i
  mask ← bit_mask cfg.lt_idx
  let c' = lt_check cfg mask c
  if c'.ready then lt_checks left (i + 1) lt_cfg c' else some c'

-- The variables of the short-term loop. It mends negative repeats in the array.
pub record StCheck : Type 0 where
  pub ready : Bool
  pub st_cfg : List StFrmCfg
  pub max_st_ref_cnt : ℕ
  pub max_st_tid : ℤ
  pub st_tid_used_mask : ℕ
  pub st_dryrun_length : ℤ

-- The tests of one short-term configuration. MPP_ENC_MAX_TEMPORAL_LAYER_NUM is 4. The frames at the
-- head and at the tail are references in the lowest layer.
unfoldable pub st_is_ready : StFrmCfg → Bool → Bool
st_is_ready cfg at_end =
    leb_ℤ cfg.temporal_id (pos 3)
    && (ref_mode_is_global cfg.ref_mode || ref_mode_is_st_mode cfg.ref_mode)
    && not (at_end && (nonzero cfg.is_non_ref || ltb_ℤ (pos 0) cfg.temporal_id))

abbrev pub mended : StFrmCfg → StFrmCfg
mended cfg = if ltb_ℤ cfg.repeat (pos 0) then record cfg { repeat = pos 0 } else cfg

-- The length of the dry run, a signed 32-bit field of the code, is an integer without bounds: the
-- sum of the repeats is taken to stay below 2 ^ 31, which the code does not test.
unfoldable pub st_check : StFrmCfg → ℕ → Bool → ℕ → StCheck → StCheck
st_check cfg mask at_end i c =
    let kept = record c { ready = st_is_ready cfg at_end; st_cfg = set c.st_cfg i (mended cfg) } in
    let fresh = not (nonzero cfg.is_non_ref) && (bit_and c.st_tid_used_mask mask == 0) in
    if kept.ready
    then record kept {
      max_st_ref_cnt = if fresh then c.max_st_ref_cnt + 1 else c.max_st_ref_cnt;
      st_tid_used_mask = if fresh then bit_or c.st_tid_used_mask mask else c.st_tid_used_mask;
      max_st_tid = if ltb_ℤ c.max_st_tid cfg.temporal_id then cfg.temporal_id else c.max_st_tid;
      st_dryrun_length = c.st_dryrun_length +ℤ pos 1 +ℤ (mended cfg).repeat;
    }
    else kept

unfoldable pub st_checks : ℕ → ℕ → ℕ → StCheck → Option StCheck
st_checks zero st_cfg_cnt i c = some c
st_checks (suc left) st_cfg_cnt i c = do
  cfg ← get_elem? c.st_cfg i
  mask ← bit_mask cfg.temporal_id
  let c' = st_check cfg mask ((i == 0) || (i + 1 == st_cfg_cnt)) i c
  if c'.ready then st_checks left st_cfg_cnt (i + 1) c' else some c'

abbrev pub no_lt_check : LtCheck
no_lt_check = record {
  ready = true;
  max_lt_ref_cnt = 0;
  max_lt_ref_idx = pos 0;
  lt_idx_used_mask = 0;
  lt_dryrun_length = pos 0;
}

abbrev pub no_st_check : List StFrmCfg → StCheck
no_st_check st_cfg = record {
  ready = true;
  st_cfg = st_cfg;
  max_st_ref_cnt = 0;
  max_st_tid = pos 0;
  st_tid_used_mask = 0;
  st_dryrun_length = pos 0;
}

-- The short-term loop runs only if the long-term loop has passed.
unfoldable pub run_checks : RefCfg → Option (LtCheck × StCheck)
run_checks p = do
  l ← lt_checks p.lt_cfg_cnt 0 p.lt_cfg no_lt_check
  let start = no_st_check p.st_cfg
  s ←
      if l.ready
      then st_checks p.st_cfg_cnt p.st_cfg_cnt 0 start
      else some (record start { ready = false })
  some (l, s)

-- The dry run on a manager of its own finds the size of the buffer. It sees the `ready` of the
-- configuration as it was before the check.
unfoldable pub learn_size : RefCfg → LtCheck → StCheck → Option CpbInfo
learn_size p l s = do
  let info : CpbInfo = record {
    dpb_size = 0;
    max_lt_cnt = l.max_lt_ref_cnt;
    max_st_cnt = s.max_st_ref_cnt;
    max_lt_idx = pos_part l.max_lt_ref_idx;
    max_st_tid = pos_part s.max_st_tid;
    lt_gop = l.lt_dryrun_length;
    st_gop = s.st_dryrun_length -ℤ pos 1;
  }
  refs ← set_cfg refs_init (some (record p { cpb_info = info; st_cfg = s.st_cfg }))
  ran ← dryrun refs
  some (get_cpb_info ran)

-- mpp_enc_ref_cfg_check
unfoldable pub cfg_check : RefCfg → Option (Ret × RefCfg)
cfg_check p = do
  (l, s) ← run_checks p
  info ← if s.ready then learn_size p l s else some p.cpb_info
  some (
    if s.ready then ok else nok,
    record p { ready = s.ready; st_cfg = s.st_cfg; cpb_info = info },
  )
