-- ===== src/Presets/Pyramid.antt =====
-- The temporal pyramid of the configurations with layers, as the manager plans it frame by frame.
use mathlib.Core.Option
use rockchip_kmpp.Prelude.{
  ℕ, zero, suc, ◌+◌, ◌-◌, ◌/◌, ◌%◌, ◌^◌, ◌≡◌, refl, Bool, true, false, List, [], ◌∷◌, some, none,
  ◌==◌, if◌then◌else◌, Option, length,
}
use rockchip_kmpp.Prelude.Maybe.{◌>>=◌, >>=-some}
use rockchip_kmpp.Prelude.Int.{ℤ, pos, ◌+ℤ◌, ◌-ℤ◌}
use rockchip_kmpp.RefTypes.{RefCfg, CpbInfo, CpbStatus, no_frm}
use rockchip_kmpp.Prelude.Ret.{ok}
use rockchip_kmpp.RefCheck.{
  set_cfg_cnt, add_lt_cfg, add_st_cfg, copy_in, bit_mask, lt_is_ready, lt_check, lt_checks,
  st_is_ready, st_check, st_checks, run_checks, learn_size, cfg_check,
}
use rockchip_kmpp.Cpb.{
  check_ref_cpb_pos, store_ref_to_cpb, store_lt, store_st, get_ref_from_cpb, set_st_cfg_to_frm,
  set_lt_cfg_to_frm, cleanup_cpb_refs, reset_cnt, save_cpb_status, save_st,
}
use rockchip_kmpp.EncRefs.{EncRefs, refs_init, set_cfg, setup_cnts, get_cpb_info}
use rockchip_kmpp.EncRefs.NextFrame.{
  lt_loop, lt_step, get_cpb, begin_frame, needs_cleanup, plan_frame, force_lt, force_mode,
  force_pskip, advance_st, refer_and_store, store_frame, get_cpb_st_cfg_pos,
}
use rockchip_kmpp.EncRefs.Dryrun.{dryrun, dry_cpb, dry_loop, dry_repeat, dry_frame, grow_used}
use rockchip_kmpp.Presets.{gop_entries, fill, gen_ref_cfg}

-- The factors 2 of a number, `n` of them at most.
abbrev pub twos : ℕ → ℕ → ℕ
twos zero i = 0
twos (suc n) i = let rest = twos n (i / 2) in if i % 2 == 0 then suc rest else 0

-- What a decoder needs to know of a frame: its layer, whether nothing refers to it, and the number
-- of the frame that it refers to.
pub record Planned : Type 0 where
  pub temporal_id : ℕ
  pub is_non_ref : Bool
  pub reference : Option ℕ

-- The frame `i` of a pyramid of the layers 0 to `n`: the layer is 0 at each multiple of 2 ^ n, and
-- the highest at each odd number, whose frames nothing refers to; and a frame refers to the nearest
-- one before it of a lower layer, in layer 0 to the one before it of that layer.
abbrev pub in_pyramid : ℕ → ℕ → Planned
in_pyramid n i = record {
  temporal_id = n - twos n i;
  is_non_ref = twos n i == 0;
  reference = if i == 0 then none else some (i - 2 ^ twos n i);
}

abbrev pub pyramid : ℕ → ℕ → ℕ → List Planned
pyramid n i zero = []
pyramid n i (suc left) = in_pyramid n i ∷ pyramid n (i + 1) left

-- What the manager plans for so many frames, each status handed on to the next call.
abbrev pub plan : ℕ → EncRefs → CpbStatus → Option (List Planned)
plan zero p status = some []
plan (suc left) p status = do
  (p', status') ← get_cpb p status
  rest ← plan left p' status'
  some (
      record {
        temporal_id = status'.curr.temporal_id;
        is_non_ref = status'.curr.is_non_ref;
        reference = if status'.refr.valid then some status'.refr.seq_idx else none;
      }
      ∷ rest)

abbrev pub no_status : CpbStatus
no_status = record { curr = no_frm; refr = no_frm; init = []; final = [] }

-- A new manager with the configuration for a mode plans the pyramid, for so many frames.
abbrev pub Plans : RefCfg → ℕ → ℕ → Type 0
Plans p n cnt =
    (do (ret, p') ← gen_ref_cfg p (pos n); q ← set_cfg refs_init (some p'); plan cnt q no_status)
    ≡ some (pyramid n 0 cnt)

-- A configuration that is not marked as ready.
abbrev pub unready : RefCfg → RefCfg
unready p = record p { ready = false }

-- What the check learns about the buffer: its sizes, and the periods of the entries.
abbrev sizes : ℕ → ℕ → ℕ → ℤ → CpbInfo
sizes lt_cnt st_cnt n lt_gop = record {
  dpb_size = lt_cnt + st_cnt;
  max_lt_cnt = lt_cnt;
  max_st_cnt = st_cnt;
  max_lt_idx = 0;
  max_st_tid = n;
  lt_gop = lt_gop;
  st_gop = pos (2 ^ n);
}

-- The accepted configuration for a mode.
abbrev made : ℕ → CpbInfo → Bool → RefCfg
made n info keep =
    let (lt_ref, st_ref) = gop_entries (pos n) in
    record {
      ready = true;
      keep_cpb = keep;
      lt_cfg_cnt = length lt_ref;
      st_cfg_cnt = length st_ref;
      lt_cfg = lt_ref;
      st_cfg = st_ref;
      cpb_info = info;
    }

abbrev made1 : Bool → RefCfg
made1 = made 1 (sizes 0 1 1 (pos 0))

abbrev made2 : Bool → RefCfg
made2 = made 2 (sizes 0 2 2 (pos 0))

abbrev made3 : Bool → RefCfg
made3 = made 3 (sizes 1 1 3 (pos 8))

abbrev opened : RefCfg → EncRefs
opened cfg = Option.get_or (set_cfg refs_init (some cfg)) refs_init

-- What follows once the configuration, the manager and the plan are known.
Plans-made :
    (p : RefCfg) (n cnt : ℕ) (cfg : RefCfg) {q : EncRefs}
    → gen_ref_cfg p (pos n) ≡ some (ok, cfg)
    → set_cfg refs_init (some cfg) ≡ some q
    → plan cnt q no_status ≡ some (pyramid n 0 cnt)
    → Plans p n cnt
Plans-made p n cnt cfg made opens planned = >>=-some _ made (>>=-some _ opens planned)

gen1 : (p : RefCfg) → gen_ref_cfg (unready p) (pos 1) ≡ some (ok, made1 p.keep_cpb)
unfolding gen_ref_cfg gop_entries fill set_cfg_cnt add_lt_cfg add_st_cfg copy_in cfg_check
    run_checks lt_checks lt_check lt_is_ready st_checks st_check st_is_ready bit_mask learn_size
    set_cfg setup_cnts refs_init dryrun dry_cpb dry_loop dry_repeat dry_frame grow_used
    check_ref_cpb_pos lt_loop lt_step store_ref_to_cpb store_lt store_st get_ref_from_cpb
    set_st_cfg_to_frm set_lt_cfg_to_frm cleanup_cpb_refs reset_cnt get_cpb_info ◌+ℤ◌ ◌-ℤ◌
gen1 p = refl

gen2 : (p : RefCfg) → gen_ref_cfg (unready p) (pos 2) ≡ some (ok, made2 p.keep_cpb)
unfolding gen_ref_cfg gop_entries fill set_cfg_cnt add_lt_cfg add_st_cfg copy_in cfg_check
    run_checks lt_checks lt_check lt_is_ready st_checks st_check st_is_ready bit_mask learn_size
    set_cfg setup_cnts refs_init dryrun dry_cpb dry_loop dry_repeat dry_frame grow_used
    check_ref_cpb_pos lt_loop lt_step store_ref_to_cpb store_lt store_st get_ref_from_cpb
    set_st_cfg_to_frm set_lt_cfg_to_frm cleanup_cpb_refs reset_cnt get_cpb_info ◌+ℤ◌ ◌-ℤ◌
gen2 p = refl

gen3 : (p : RefCfg) → gen_ref_cfg (unready p) (pos 3) ≡ some (ok, made3 p.keep_cpb)
unfolding gen_ref_cfg gop_entries fill set_cfg_cnt add_lt_cfg add_st_cfg copy_in cfg_check
    run_checks lt_checks lt_check lt_is_ready st_checks st_check st_is_ready bit_mask learn_size
    set_cfg setup_cnts refs_init dryrun dry_cpb dry_loop dry_repeat dry_frame grow_used
    check_ref_cpb_pos lt_loop lt_step store_ref_to_cpb store_lt store_st get_ref_from_cpb
    set_st_cfg_to_frm set_lt_cfg_to_frm cleanup_cpb_refs reset_cnt get_cpb_info ◌+ℤ◌ ◌-ℤ◌
gen3 p = refl

opens1 : (keep : Bool) → set_cfg refs_init (some (made1 keep)) ≡ some (opened (made1 keep))
unfolding set_cfg setup_cnts refs_init gop_entries
opens1 true = refl
opens1 false = refl

opens2 : (keep : Bool) → set_cfg refs_init (some (made2 keep)) ≡ some (opened (made2 keep))
unfolding set_cfg setup_cnts refs_init gop_entries
opens2 true = refl
opens2 false = refl

opens3 : (keep : Bool) → set_cfg refs_init (some (made3 keep)) ≡ some (opened (made3 keep))
unfolding set_cfg setup_cnts refs_init gop_entries
opens3 true = refl
opens3 false = refl

plan1 : (keep : Bool) → plan 5 (opened (made1 keep)) no_status ≡ some (pyramid 1 0 5)
unfolding gop_entries set_cfg setup_cnts refs_init get_cpb begin_frame needs_cleanup plan_frame
    lt_loop lt_step force_lt force_mode force_pskip advance_st refer_and_store store_frame
    get_cpb_st_cfg_pos store_ref_to_cpb store_lt store_st get_ref_from_cpb save_cpb_status save_st
    set_st_cfg_to_frm set_lt_cfg_to_frm cleanup_cpb_refs reset_cnt ◌-ℤ◌
plan1 true = refl
plan1 false = refl

plan2 : (keep : Bool) → plan 9 (opened (made2 keep)) no_status ≡ some (pyramid 2 0 9)
unfolding gop_entries set_cfg setup_cnts refs_init get_cpb begin_frame needs_cleanup plan_frame
    lt_loop lt_step force_lt force_mode force_pskip advance_st refer_and_store store_frame
    get_cpb_st_cfg_pos store_ref_to_cpb store_lt store_st get_ref_from_cpb save_cpb_status save_st
    set_st_cfg_to_frm set_lt_cfg_to_frm cleanup_cpb_refs reset_cnt ◌-ℤ◌
plan2 true = refl
plan2 false = refl

plan3 : (keep : Bool) → plan 17 (opened (made3 keep)) no_status ≡ some (pyramid 3 0 17)
unfolding gop_entries set_cfg setup_cnts refs_init get_cpb begin_frame needs_cleanup plan_frame
    lt_loop lt_step force_lt force_mode force_pskip advance_st refer_and_store store_frame
    get_cpb_st_cfg_pos store_ref_to_cpb store_lt store_st get_ref_from_cpb save_cpb_status save_st
    set_st_cfg_to_frm set_lt_cfg_to_frm cleanup_cpb_refs reset_cnt ◌-ℤ◌
plan3 true = refl
plan3 false = refl

pub unready-plans1 : (p : RefCfg) → Plans (unready p) 1 5
unready-plans1 p =
    Plans-made (unready p) 1 5 (made1 p.keep_cpb) (gen1 p) (opens1 p.keep_cpb) (plan1 p.keep_cpb)

pub unready-plans2 : (p : RefCfg) → Plans (unready p) 2 9
unready-plans2 p =
    Plans-made (unready p) 2 9 (made2 p.keep_cpb) (gen2 p) (opens2 p.keep_cpb) (plan2 p.keep_cpb)

pub unready-plans3 : (p : RefCfg) → Plans (unready p) 3 17
unready-plans3 p =
    Plans-made (unready p) 3 17 (made3 p.keep_cpb) (gen3 p) (opens3 p.keep_cpb) (plan3 p.keep_cpb)
