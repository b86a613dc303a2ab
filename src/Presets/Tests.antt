-- ===== src/Presets/Tests.antt =====
-- The offered configurations at small parameters.
use mathlib.Core.Option
use rockchip_kmpp.Prelude.{◌≡◌, refl, some, ◌⊎◌}
use rockchip_kmpp.Prelude.Int.{pos, ◌+ℤ◌, ◌-ℤ◌}
use rockchip_kmpp.Prelude.Ret.{Ret, ok, nok}
use rockchip_kmpp.RefTypes.{RefCfg}
use rockchip_kmpp.Cpb.{
  check_ref_cpb_pos, store_ref_to_cpb, store_lt, store_st, get_ref_from_cpb, set_st_cfg_to_frm,
  set_lt_cfg_to_frm, cleanup_cpb_refs, reset_cnt,
}
use rockchip_kmpp.EncRefs.{refs_init, set_cfg, setup_cnts, get_cpb_info}
use rockchip_kmpp.EncRefs.NextFrame.{lt_loop, lt_step}
use rockchip_kmpp.EncRefs.Dryrun.{dryrun, dry_cpb, dry_loop, dry_repeat, dry_frame, grow_used}
use rockchip_kmpp.RefCheck.{
  empty_cfg, set_cfg_cnt, add_lt_cfg, add_st_cfg, copy_in, bit_mask, lt_is_ready, lt_check,
  lt_checks, st_is_ready, st_check, st_checks, run_checks, learn_size, cfg_check,
}
use rockchip_kmpp.Presets.{
  RefParam, fill, gen_ref_cfg, gen_smart_gop_ref_cfg, smart_entries, gen_hir_skip_ref, hir_entries,
}
use rockchip_kmpp.Presets.Pyramid.{Plans}
use rockchip_kmpp.Presets.Layers.{IsLayered, Accepts, gen_ref_cfg_lem}

abbrev small : RefParam
small = record { gop_len = pos 6; vi_len = pos 3; base_n = 2; enh_m = 2; pre_en = 1 }

abbrev smart : Ret × RefCfg
smart = Option.get_or (gen_smart_gop_ref_cfg empty_cfg small) (nok, empty_cfg)

smart_is : gen_smart_gop_ref_cfg empty_cfg small ≡ some smart
unfolding gen_smart_gop_ref_cfg smart_entries fill set_cfg_cnt add_lt_cfg add_st_cfg copy_in
    cfg_check run_checks lt_checks lt_check lt_is_ready st_checks st_check st_is_ready bit_mask
    learn_size set_cfg setup_cnts refs_init dryrun dry_cpb dry_loop dry_repeat dry_frame grow_used
    check_ref_cpb_pos lt_loop lt_step store_ref_to_cpb store_lt store_st get_ref_from_cpb
    set_st_cfg_to_frm set_lt_cfg_to_frm cleanup_cpb_refs reset_cnt get_cpb_info ◌+ℤ◌ ◌-ℤ◌
smart_is = refl

abbrev hir : Ret × RefCfg
hir = Option.get_or (gen_hir_skip_ref empty_cfg small) (nok, empty_cfg)

hir_is : gen_hir_skip_ref empty_cfg small ≡ some hir
unfolding gen_hir_skip_ref hir_entries fill set_cfg_cnt add_lt_cfg add_st_cfg copy_in cfg_check
    run_checks lt_checks lt_check lt_is_ready st_checks st_check st_is_ready bit_mask learn_size
    set_cfg setup_cnts refs_init dryrun dry_cpb dry_loop dry_repeat dry_frame grow_used
    check_ref_cpb_pos lt_loop lt_step store_ref_to_cpb store_lt store_st get_ref_from_cpb
    set_st_cfg_to_frm set_lt_cfg_to_frm cleanup_cpb_refs reset_cnt get_cpb_info ◌+ℤ◌ ◌-ℤ◌
hir_is = refl

gen_ref_cfg_lem_example :
    (pos 3 ≡ pos 1) × Accepts empty_cfg (pos 3) 1 × Plans empty_cfg 1 5
    ⊎ (pos 3 ≡ pos 2) × Accepts empty_cfg (pos 3) 2 × Plans empty_cfg 2 9
    ⊎ (pos 3 ≡ pos 3) × Accepts empty_cfg (pos 3) 2 × Plans empty_cfg 3 17
    ⊎ (¬ (IsLayered (pos 3))) × (gen_ref_cfg empty_cfg (pos 3) ≡ some (ok, empty_cfg))
gen_ref_cfg_lem_example = gen_ref_cfg_lem empty_cfg (pos 3) refl
