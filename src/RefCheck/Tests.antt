-- ===== src/RefCheck/Tests.antt =====
-- Runs of the configuration's check on small inputs.
use mathlib.Core.Option
use rockchip_kmpp.Prelude.Maybe.{◌>>=◌}
use rockchip_kmpp.Prelude.{
  ℕ, ◌+◌, ◌≤◌, ◌<◌, ◌≡◌, refl, arith, true, List, [], ◌∷◌, none, some, get_elem?, length,
}
use rockchip_kmpp.Prelude.Int.{pos, negsuc, ◌+ℤ◌, ◌-ℤ◌}
use rockchip_kmpp.Prelude.Ret.{Ret, nok}
use rockchip_kmpp.RefTypes.{StFrmCfg, RefCfg, ref_to_prev_lt_ref, ref_to_temporal_layer}
use rockchip_kmpp.Cpb.{
  check_ref_cpb_pos, store_ref_to_cpb, store_lt, store_st, get_ref_from_cpb, set_st_cfg_to_frm,
  set_lt_cfg_to_frm, cleanup_cpb_refs, reset_cnt,
}
use rockchip_kmpp.EncRefs.{refs_init, set_cfg, setup_cnts, get_cpb_info}
use rockchip_kmpp.EncRefs.NextFrame.{lt_loop, lt_step}
use rockchip_kmpp.EncRefs.Dryrun.{dryrun, dry_cpb, dry_loop, dry_repeat, dry_frame, grow_used}
use rockchip_kmpp.RefCheck.{
  LtCheck, StCheck, empty_cfg, no_st, no_lt, set_cfg_cnt, add_st_cfg, bit_mask, lt_is_ready,
  lt_check, lt_checks, st_is_ready, st_check, st_checks, run_checks, learn_size, cfg_check,
  no_lt_check, no_st_check,
}
use rockchip_kmpp.RefCheck.Accepts.{Verdict, cfg_check-Verdict}
use rockchip_kmpp.RefCheck.Fill.{add_st_cfg_lem}

-- Two temporal layers, and every fourth frame a long-term reference. The last repeat is negative.
abbrev entries : List StFrmCfg
entries =
    no_st
    ∷ record no_st { is_non_ref = pos 1; temporal_id = pos 1 }
    ∷ record no_st { ref_mode = ref_to_temporal_layer; repeat = negsuc 1 }
    ∷ []

abbrev layered : RefCfg
layered = record empty_cfg {
  lt_cfg_cnt = 1;
  st_cfg_cnt = 3;
  lt_cfg = record no_lt { ref_mode = ref_to_prev_lt_ref; lt_gap = pos 4 } ∷ [];
  st_cfg = entries;
}

abbrev checked : Ret × RefCfg
checked = Option.get_or (cfg_check layered) (nok, layered)

checks : cfg_check layered ≡ some checked
unfolding cfg_check run_checks lt_checks lt_check lt_is_ready st_checks st_check st_is_ready
    bit_mask learn_size set_cfg setup_cnts refs_init dryrun dry_cpb dry_loop dry_repeat dry_frame
    grow_used check_ref_cpb_pos lt_loop lt_step store_ref_to_cpb store_lt store_st get_ref_from_cpb
    set_st_cfg_to_frm set_lt_cfg_to_frm cleanup_cpb_refs reset_cnt get_cpb_info ◌+ℤ◌ ◌-ℤ◌
checks = refl

cfg_check-Verdict_example : Verdict layered checked
cfg_check-Verdict_example = cfg_check-Verdict layered checks

add_st_cfg_lem_example :
    let twice =
      add_st_cfg (set_cfg_cnt empty_cfg 1 4) entries >>= (λ q. add_st_cfg q (no_st ∷ [])) in
    (length entries + 1 ≤ 4
      → (p' : RefCfg) × (twice ≡ some p')
        × (p'.st_cfg_cnt ≡ length entries + 1)
        × ((j : ℕ) → j < length entries → get_elem? p'.st_cfg j ≡ get_elem? entries j)
        × ((j : ℕ) → j < 1 → get_elem? p'.st_cfg (length entries + j) ≡ get_elem? (no_st ∷ []) j))
    × (4 < length entries + 1 → twice ≡ none)
add_st_cfg_lem_example = add_st_cfg_lem empty_cfg 1 4 entries (no_st ∷ []) (omega arith)

-- The same configuration, marked as ready.
abbrev marked : RefCfg
marked = record layered { ready = true }

abbrev found : LtCheck × StCheck
found = Option.get_or (run_checks marked) (no_lt_check, no_st_check [])

abbrev again : Ret × RefCfg
again = Option.get_or (cfg_check marked) (nok, layered)

finds : (run_checks marked ≡ some found) × (found.1.ready ≡ true)
unfolding run_checks lt_checks lt_check lt_is_ready st_checks st_check st_is_ready bit_mask ◌+ℤ◌
finds = (refl, refl)

checks_again : cfg_check marked ≡ some again
unfolding cfg_check run_checks lt_checks lt_check lt_is_ready st_checks st_check st_is_ready
    bit_mask learn_size set_cfg setup_cnts refs_init dryrun get_cpb_info ◌+ℤ◌ ◌-ℤ◌
checks_again = refl
