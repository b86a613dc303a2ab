-- ===== src/Presets/Layers.antt =====
-- The configurations with temporal layers, checked whole.
use mathlib.Core.Option
use rockchip_kmpp.Prelude.{
  ℕ, zero, suc, ◌+◌, ◌*◌, ◌^◌, ◌≡◌, refl, sym, ap, subst, Bool, true, false, [], some, ◌⊎◌, inl,
  inr, arith,
}
use rockchip_kmpp.Prelude.Int.{ℤ, pos, negsuc, ◌+ℤ◌, ◌-ℤ◌}
use rockchip_kmpp.Prelude.Ret.{Ret, ok}
use rockchip_kmpp.RefTypes.{RefCfg}
use rockchip_kmpp.RefCheck.{
  set_cfg_cnt, add_lt_cfg, add_st_cfg, copy_in, bit_mask, lt_is_ready, lt_check, lt_checks,
  st_is_ready, st_check, st_checks, run_checks, learn_size, cfg_check,
}
use rockchip_kmpp.Cpb.{
  check_ref_cpb_pos, store_ref_to_cpb, store_lt, store_st, get_ref_from_cpb, set_st_cfg_to_frm,
  set_lt_cfg_to_frm, cleanup_cpb_refs, reset_cnt,
}
use rockchip_kmpp.EncRefs.{refs_init, set_cfg, setup_cnts, get_cpb_info}
use rockchip_kmpp.EncRefs.NextFrame.{lt_loop, lt_step}
use rockchip_kmpp.EncRefs.Dryrun.{dryrun, dry_cpb, dry_loop, dry_repeat, dry_frame, grow_used}
use rockchip_kmpp.Presets.Pyramid.{Plans, unready, unready-plans1, unready-plans2, unready-plans3}
use rockchip_kmpp.Presets.{gop_entries, fill, gen_ref_cfg}

-- The modes that the switch knows.
abbrev pub IsLayered : ℤ → Type 0
IsLayered m = (m ≡ pos 1) ⊎ ((m ≡ pos 2) ⊎ (m ≡ pos 3))

-- What a call returns: its code, whether the configuration is ready, and the size of the buffer.
abbrev pub summary : Ret × RefCfg → Ret × Bool × ℕ
summary (ret, p) = (ret, p.ready, p.cpb_info.dpb_size)

-- The configuration for a mode is accepted, with as many frames in the buffer as it needs.
abbrev pub Accepts : RefCfg → ℤ → ℕ → Type 0
Accepts p m size = Option.map summary (gen_ref_cfg p m) ≡ some (ok, true, size)

unready-eq : (p : RefCfg) → p.ready ≡ false → unready p ≡ p
unready-eq p fresh = ap (λ b. record p { ready = b }) (sym fresh)

unchanged : (p : RefCfg) (m : ℤ) → gop_entries m ≡ ([], []) → gen_ref_cfg p m ≡ some (ok, p)
unfolding gen_ref_cfg
unchanged p m e = rw e

layered1 : (p : RefCfg) → Accepts (unready p) (pos 1) 1
unfolding gen_ref_cfg gop_entries fill set_cfg_cnt add_lt_cfg add_st_cfg copy_in cfg_check
    run_checks lt_checks lt_check lt_is_ready st_checks st_check st_is_ready bit_mask learn_size
    set_cfg setup_cnts refs_init dryrun dry_cpb dry_loop dry_repeat dry_frame grow_used
    check_ref_cpb_pos lt_loop lt_step store_ref_to_cpb store_lt store_st get_ref_from_cpb
    set_st_cfg_to_frm set_lt_cfg_to_frm cleanup_cpb_refs reset_cnt get_cpb_info ◌+ℤ◌ ◌-ℤ◌
layered1 p = refl

layered2 : (p : RefCfg) → Accepts (unready p) (pos 2) 2
unfolding gen_ref_cfg gop_entries fill set_cfg_cnt add_lt_cfg add_st_cfg copy_in cfg_check
    run_checks lt_checks lt_check lt_is_ready st_checks st_check st_is_ready bit_mask learn_size
    set_cfg setup_cnts refs_init dryrun dry_cpb dry_loop dry_repeat dry_frame grow_used
    check_ref_cpb_pos lt_loop lt_step store_ref_to_cpb store_lt store_st get_ref_from_cpb
    set_st_cfg_to_frm set_lt_cfg_to_frm cleanup_cpb_refs reset_cnt get_cpb_info ◌+ℤ◌ ◌-ℤ◌
layered2 p = refl

layered3 : (p : RefCfg) → Accepts (unready p) (pos 3) 2
unfolding gen_ref_cfg gop_entries fill set_cfg_cnt add_lt_cfg add_st_cfg copy_in cfg_check
    run_checks lt_checks lt_check lt_is_ready st_checks st_check st_is_ready bit_mask learn_size
    set_cfg setup_cnts refs_init dryrun dry_cpb dry_loop dry_repeat dry_frame grow_used
    check_ref_cpb_pos lt_loop lt_step store_ref_to_cpb store_lt store_st get_ref_from_cpb
    set_st_cfg_to_frm set_lt_cfg_to_frm cleanup_cpb_refs reset_cnt get_cpb_info ◌+ℤ◌ ◌-ℤ◌
layered3 p = refl

beyond : (n : ℕ) → ¬ (IsLayered (pos (suc (suc (suc (suc n))))))
beyond n (inl e) = ground arith
beyond n (inr (inl e)) = ground arith
beyond n (inr (inr e)) = ground arith

-- mpi_enc_gen_ref_cfg on a configuration that is not marked as ready: in mode n of 1, 2 and 3 the
-- configuration is accepted, with one frame in the buffer in mode 1 and two in the others, and a new
-- manager that it is set for plans a temporal pyramid of the layers 0 to n for two periods of 2 ^ n
-- frames and the frame behind them. The frame i, with t factors 2, of which n count at most, is in
-- the layer n - t, is a non-reference frame if t is 0 and only then, and refers to the frame
-- i - 2 ^ t, which is the nearest before it of a lower layer, or of layer 0 for layer 0; the first
-- frame refers to none. Any other mode returns without an error and changes nothing.
pub gen_ref_cfg_lem :
    (p : RefCfg) (m : ℤ)
    → p.ready ≡ false
    → (m ≡ pos 1) × Accepts p m 1 × Plans p 1 (2 * 2 ^ 1 + 1)
      ⊎ (m ≡ pos 2) × Accepts p m 2 × Plans p 2 (2 * 2 ^ 2 + 1)
      ⊎ (m ≡ pos 3) × Accepts p m 2 × Plans p 3 (2 * 2 ^ 3 + 1)
      ⊎ (¬ (IsLayered m)) × (gen_ref_cfg p m ≡ some (ok, p))
unfolding gop_entries
gen_ref_cfg_lem p (pos (suc zero)) fresh =
    let same = unready-eq p fresh in
    inl (
      refl,
      subst (λ q. Accepts q (pos 1) 1) same (layered1 p),
      subst (λ q. Plans q 1 5) same (unready-plans1 p),
    )
gen_ref_cfg_lem p (pos (suc (suc zero))) fresh =
    let same = unready-eq p fresh in
    inr (
      inl (
        refl,
        subst (λ q. Accepts q (pos 2) 2) same (layered2 p),
        subst (λ q. Plans q 2 9) same (unready-plans2 p),
      ))
gen_ref_cfg_lem p (pos (suc (suc (suc zero)))) fresh =
    let same = unready-eq p fresh in
    inr (
      inr (
        inl (
          refl,
          subst (λ q. Accepts q (pos 3) 2) same (layered3 p),
          subst (λ q. Plans q 3 17) same (unready-plans3 p),
        )))
gen_ref_cfg_lem p (pos zero) fresh = inr (
    inr (
      inr (
        λ h. elim h [ inl e ↦ cc | inr (inl e) ↦ cc | inr (inr e) ↦ cc ],
        unchanged p (pos 0) refl,
      )))
gen_ref_cfg_lem p (pos (suc (suc (suc (suc n))))) fresh =
    inr (inr (inr (beyond n, unchanged p (pos (suc (suc (suc (suc n))))) (ground arith))))
gen_ref_cfg_lem p (negsuc n) fresh = inr (
    inr (
      inr (
        λ h. elim h [ inl e ↦ cc | inr (inl e) ↦ cc | inr (inr e) ↦ cc ],
        unchanged p (negsuc n) refl,
      )))
