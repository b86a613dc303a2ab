-- ===== src/Presets.antt =====
-- vcodec/mpp/base/mpp_enc_refs_setup.c: the configurations of the references that the library offers.
-- The tests of handles are left out, and `none` is a fault, as in RefCheck. The arrays of entries are
-- the lists of those that are added.
pub mod Accepted
pub mod Layers
pub mod Pyramid
mod Tests
use rockchip_kmpp.Prelude.{
  ℕ, ◌+◌, ◌*◌, ◌-◌, ◌^◌, ltb, ◌==◌, if◌then◌else◌, ◌&&◌, Bool, true, false, not, List, [], ◌∷◌,
  Option, none, some, length,
}
use rockchip_kmpp.Prelude.Int.{ℤ, pos, negsuc, ltb_ℤ, ◌-ℤ◌}
use rockchip_kmpp.Prelude.Maybe.{◌>>=◌}
use rockchip_kmpp.Prelude.Word.{u32}
use rockchip_kmpp.Prelude.Ret.{Ret, ok}
use rockchip_kmpp.RefTypes.{
  LtFrmCfg, StFrmCfg, RefCfg, ref_to_prev_ref_frm, ref_to_prev_lt_ref, ref_to_prev_intra,
  ref_to_temporal_layer,
}
use rockchip_kmpp.RefCheck.{set_cfg_cnt, add_lt_cfg, add_st_cfg, cfg_check}

-- MppEncRefParam, the fields that are read.
pub record RefParam : Type 0 where
  pub gop_len : ℤ
  pub vi_len : ℤ
  pub base_n : ℕ
  pub enh_m : ℕ
  pub pre_en : ℕ

-- The stores to one entry of the arrays, which were cleared.
abbrev pub st : ℤ → ℤ → ℕ → ℤ → StFrmCfg
st is_non_ref temporal_id ref_mode repeat = record {
  is_non_ref = is_non_ref;
  temporal_id = temporal_id;
  ref_mode = ref_mode;
  ref_arg = pos 0;
  repeat = repeat;
}

-- The long-term frame of index 0, in the lowest layer, every so many frames.
abbrev pub lt : ℤ → LtFrmCfg
lt gap = record {
  lt_idx = pos 0;
  temporal_id = pos 0;
  ref_mode = ref_to_prev_lt_ref;
  ref_arg = pos 0;
  lt_gap = gap;
  lt_delay = pos 0;
}

-- case 3: four temporal layers.
abbrev pub tsvc4 : List StFrmCfg
tsvc4 =
    st (pos 0) (pos 0) ref_to_temporal_layer (pos 0)
    ∷ st (pos 1) (pos 3) ref_to_prev_ref_frm (pos 0)
    ∷ st (pos 0) (pos 2) ref_to_prev_ref_frm (pos 0)
    ∷ st (pos 1) (pos 3) ref_to_prev_ref_frm (pos 0)
    ∷ st (pos 0) (pos 1) ref_to_prev_lt_ref (pos 0)
    ∷ st (pos 1) (pos 3) ref_to_prev_ref_frm (pos 0)
    ∷ st (pos 0) (pos 2) ref_to_prev_ref_frm (pos 0)
    ∷ st (pos 1) (pos 3) ref_to_prev_ref_frm (pos 0)
    ∷ st (pos 0) (pos 0) ref_to_temporal_layer (pos 0)
    ∷ []

-- case 2: three.
abbrev pub tsvc3 : List StFrmCfg
tsvc3 =
    st (pos 0) (pos 0) ref_to_temporal_layer (pos 0)
    ∷ st (pos 1) (pos 2) ref_to_prev_ref_frm (pos 0)
    ∷ st (pos 0) (pos 1) ref_to_prev_ref_frm (pos 0)
    ∷ st (pos 1) (pos 2) ref_to_prev_ref_frm (pos 0)
    ∷ st (pos 0) (pos 0) ref_to_temporal_layer (pos 0)
    ∷ []

-- case 1: two.
abbrev pub tsvc2 : List StFrmCfg
tsvc2 =
    st (pos 0) (pos 0) ref_to_temporal_layer (pos 0)
    ∷ st (pos 1) (pos 1) ref_to_prev_ref_frm (pos 0)
    ∷ st (pos 0) (pos 0) ref_to_prev_ref_frm (pos 0)
    ∷ []

abbrev pub is_mode : ℤ → ℕ → Bool
is_mode (pos m) n = m == n
is_mode (negsuc m) n = false

-- The switch over the mode: the entries, none in the default case.
pub gop_entries : ℤ → List LtFrmCfg × List StFrmCfg
gop_entries gop_mode =
    if is_mode gop_mode 3
    then (lt (pos 8) ∷ [], tsvc4)
    else if is_mode gop_mode 2
    then ([], tsvc3)
    else if is_mode gop_mode 1
    then ([], tsvc2)
    else ([], [])

-- The calls behind the switch, of which the last return code is kept. `if (cnt)` guards an addition
-- of nothing, which changes nothing.
pub fill : RefCfg → ℕ → ℕ → List LtFrmCfg → List StFrmCfg → Option (Ret × RefCfg)
fill p lt_cnt st_cnt lt_ref st_ref = do
  p₁ ← add_lt_cfg (set_cfg_cnt p lt_cnt st_cnt) lt_ref
  p₂ ← add_st_cfg p₁ st_ref
  cfg_check p₂

-- mpi_enc_gen_ref_cfg
pub gen_ref_cfg : RefCfg → ℤ → Option (Ret × RefCfg)
gen_ref_cfg p gop_mode =
    let (lt_ref, st_ref) = gop_entries gop_mode in
    let lt_cnt = length lt_ref in
    let st_cnt = length st_ref in
    if (lt_cnt == 0) && (st_cnt == 0) then some (ok, p) else fill p lt_cnt st_cnt lt_ref st_ref

-- mpi_enc_gen_smart_gop_ref_cfg
pub smart_entries : ℤ → List StFrmCfg
unfolding ◌-ℤ◌
smart_entries vi_len =
    let last : List StFrmCfg = st (pos 0) (pos 0) ref_to_prev_intra (pos 0) ∷ [] in
    let middle = st (pos 0) (pos 1) ref_to_prev_ref_frm (vi_len -ℤ pos 2) in
    st (pos 0) (pos 0) ref_to_prev_intra (pos 0)
    ∷ (if ltb_ℤ (pos 1) vi_len then middle ∷ last else last)

pub gen_smart_gop_ref_cfg : RefCfg → RefParam → Option (Ret × RefCfg)
gen_smart_gop_ref_cfg p para = fill p 1 8 (lt para.gop_len ∷ []) (smart_entries para.vi_len)

-- An unsigned value in a signed field.
abbrev pub signed32 : ℕ → ℤ
signed32 w = if ltb w (2 ^ 31) then pos w else negsuc (2 ^ 32 - 1 - w)

-- mpi_enc_gen_hir_skip_ref. The arithmetic of `base_N` and `enh_M` is on 32 bits without sign.
abbrev pub hir_repeat : RefParam → ℤ
hir_repeat para = signed32 (u32 (para.enh_m + (2 ^ 32 - 1)))

abbrev pub hir_gap : RefParam → ℤ
hir_gap para = signed32 (u32 (para.base_n * u32 (para.enh_m + 1)))

pub hir_entries : RefParam → LtFrmCfg × List StFrmCfg
hir_entries para =
    let layer = st (pos 0) (pos 1) ref_to_prev_ref_frm (hir_repeat para) in
    let back : List StFrmCfg = st (pos 0) (pos 0) ref_to_prev_lt_ref (pos 0) ∷ [] in
    if para.pre_en == 0
    then (
      lt para.gop_len,
      st (pos 0) (pos 0) ref_to_prev_lt_ref (pos 0)
          ∷ layer
          ∷ st (pos 0) (pos 0) ref_to_prev_intra (pos 0)
          ∷ [],
    )
    else (
      lt (hir_gap para),
      st (pos 0) (pos 0) ref_to_prev_ref_frm (pos 0)
          ∷ (if ltb 1 para.enh_m then layer ∷ back else back),
    )

pub gen_hir_skip_ref : RefCfg → RefParam → Option (Ret × RefCfg)
gen_hir_skip_ref p para = let (lt_ref, st_ref) = hir_entries para in fill p 1 8 (lt_ref ∷ []) st_ref
