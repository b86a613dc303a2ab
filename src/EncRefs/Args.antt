-- ===== src/EncRefs/Args.antt =====
-- The planning of a frame keeps the sizes of the buffer, and every argument of a mode in range.
use mathlib.Core.Path.{subst}
use rockchip_kmpp.Prelude.Int.{ℤ, pos, negsuc, ltb_ℤ}
use rockchip_kmpp.Prelude.Word.{u32, update}
use rockchip_kmpp.Prelude.Cast.{low_bits, signed8}
use rockchip_kmpp.Prelude.{
  ℕ, zero, suc, ◌+◌, ◌≡◌, refl, ◌∙◌, sym, arith, Bool, true, false, ◌==◌, if◌then◌else◌, Bool-cases,
  inl, inr,
}
use rockchip_kmpp.RefTypes.{FrmStatus, StFrmCfg, RefCfg, CpbStatus}
use rockchip_kmpp.Cpb.{VirtualCpb, RefsCnt, set_st_cfg_to_frm, set_lt_cfg_to_frm}
use rockchip_kmpp.Cpb.History.{IsIndex}
use rockchip_kmpp.EncRefs.{EncRefs}
use rockchip_kmpp.EncRefs.Store.{SameSetup}
use rockchip_kmpp.EncRefs.NextFrame.{
  lt_step, lt_loop, force_lt, force_mode, force_pskip, advance_st, plan_frame,
}

-- The conversion to a field of eight bits keeps an argument in range.
field-IsIndex : (a : ℤ) → IsIndex a → IsIndex (signed8 (low_bits 8 a))
field-IsIndex (pos n) h = ground arith
field-IsIndex (negsuc n) h = absurd h

-- The counters have arguments in range.
abbrev pub CntArgs : (ℕ → RefsCnt) → Type 0
CntArgs cnter = (i : ℕ) → IsIndex (cnter i).ref_arg

lt_step-frm :
    (c : RefsCnt) (f : FrmStatus) (b : Bool)
    → IsIndex c.ref_arg
    → IsIndex f.ref_arg
    → IsIndex (lt_step c (f, b)).1.0.ref_arg
unfolding lt_step set_lt_cfg_to_frm
lt_step-frm c f b hc hf = ground (arith, field-IsIndex c.ref_arg hc)

lt_step-cnt : (c : RefsCnt) (f : FrmStatus) (b : Bool) → (lt_step c (f, b)).0.ref_arg ≡ c.ref_arg
unfolding lt_step
lt_step-cnt c f b = ground arith

update-CntArgs :
    (cnter : ℕ → RefsCnt) (i : ℕ) (c : RefsCnt)
    → CntArgs cnter
    → IsIndex c.ref_arg
    → CntArgs (update cnter i c)
update-CntArgs cnter i c h hc j = elim (Bool-cases (i == j)) [
  | inl e ↦ rw e hc
  | inr e ↦ rw e (h j)
]

lt_loop-args :
    (left i : ℕ) (cnter : ℕ → RefsCnt) (f : FrmStatus) (b : Bool)
    → CntArgs cnter
    → IsIndex f.ref_arg
    → CntArgs (lt_loop left i cnter (f, b)).0 × IsIndex (lt_loop left i cnter (f, b)).1.0.ref_arg
unfolding lt_loop
lt_loop-args zero i cnter f b hc hf = (hc, hf)
lt_loop-args (suc left) i cnter f b hc hf =
    let r = lt_step (cnter i) (f, b) in
    lt_loop-args left (i + 1) (update cnter i r.0) r.1.0 r.1.1
      (update-CntArgs cnter i r.0 hc (rw (lt_step-cnt (cnter i) f b) (hc i)))
      (lt_step-frm (cnter i) f b (hc i) hf)

-- What the forced settings leave alone.
pub record SameForced (p q : EncRefs) : Type 0 where
  pub cfg : p.ref_cfg ≡ q.ref_cfg
  pub arg : p.usr_cfg.force_ref_arg ≡ q.usr_cfg.force_ref_arg
  pub setup : SameSetup p.cpb q.cpb

forced_trans : {p q r : EncRefs} → SameForced p q → SameForced q r → SameForced p r
forced_trans s t = record {
  cfg = s.cfg ∙ t.cfg;
  arg = s.arg ∙ t.arg;
  setup = record {
    info = s.setup.info ∙ t.setup.info;
    lt_cnter = s.setup.lt_cnter ∙ t.setup.lt_cnter;
  };
}

SameForced-if :
    (b : Bool) (x y : EncRefs × FrmStatus) (p : EncRefs)
    → SameForced x.0 p
    → SameForced y.0 p
    → SameForced (if b then x else y).0 p
SameForced-if true x y p s t = s
SameForced-if false x y p s t = t

same_setup : (a : VirtualCpb) → SameSetup a a
same_setup a = record { info = refl; lt_cnter = refl }

same_forced : (p : EncRefs) → SameForced p p
same_forced p = record { cfg = refl; arg = refl; setup = same_setup p.cpb }

force_lt-SameForced : (p : EncRefs) (f : FrmStatus) → SameForced (force_lt p f).0 p
unfolding force_lt
force_lt-SameForced p f =
    SameForced-if p.usr_cfg.force_flag.lt_ref_idx _ (p, f) p
      (record { cfg = refl; arg = refl; setup = record { info = refl; lt_cnter = refl } })
      (same_forced p)

force_mode-SameForced : (p : EncRefs) (f : FrmStatus) → SameForced (force_mode p f).0 p
unfolding force_mode
force_mode-SameForced p f =
    SameForced-if p.usr_cfg.force_flag.ref_mode _ (p, f) p
      (record { cfg = refl; arg = refl; setup = same_setup p.cpb }) (same_forced p)

force_pskip-SameForced : (p : EncRefs) (f : FrmStatus) → SameForced (force_pskip p f).0 p
unfolding force_pskip
force_pskip-SameForced p f =
    SameForced-if p.usr_cfg.force_flag.pskip _ (p, f) p
      (record { cfg = refl; arg = refl; setup = same_setup p.cpb }) (same_forced p)

force_lt-arg : (p : EncRefs) (f : FrmStatus) → (force_lt p f).1.ref_arg ≡ f.ref_arg
unfolding force_lt
force_lt-arg p f = ground arith

force_pskip-arg : (p : EncRefs) (f : FrmStatus) → (force_pskip p f).1.ref_arg ≡ f.ref_arg
unfolding force_pskip
force_pskip-arg p f = ground arith

pass1-arg :
    (b : Bool) (f : FrmStatus)
    → (if b then record f { use_pass1 = true } else f).ref_arg ≡ f.ref_arg
pass1-arg true f = refl
pass1-arg false f = refl

force_mode-arg :
    (p : EncRefs) (f : FrmStatus)
    → IsIndex p.usr_cfg.force_ref_arg
    → IsIndex f.ref_arg
    → IsIndex (force_mode p f).1.ref_arg
unfolding force_mode
force_mode-arg p f hp hf = elim (Bool-cases p.usr_cfg.force_flag.ref_mode) [
  | inl e ↦ simp e (field-IsIndex p.usr_cfg.force_ref_arg hp)
  | inr e ↦ simp e hf
]

advance_st-SameSetup : (st : StFrmCfg) (cpb : VirtualCpb) → SameSetup (advance_st st cpb) cpb
unfolding advance_st
advance_st-SameSetup st cpb =
    elim (Bool-cases (ltb_ℤ st.repeat (pos (u32 (cpb.st_cfg_repeat_pos + 1))))) [
      | inl e ↦ rw e (record { info = refl; lt_cnter = refl })
      | inr e ↦ rw e (record { info = refl; lt_cnter = refl })
    ]

-- Planning a frame, whole. The counters move on, with their arguments.
pub plan_frame-args :
    (cfg : RefCfg) (st_cfg : StFrmCfg) (status : CpbStatus) (q : EncRefs)
    → IsIndex st_cfg.ref_arg
    → CntArgs q.cpb.lt_cnter
    → IsIndex q.usr_cfg.force_ref_arg
    → let r = plan_frame cfg st_cfg status q in
      (r.0.ref_cfg ≡ q.ref_cfg)
      × (r.0.usr_cfg.force_ref_arg ≡ q.usr_cfg.force_ref_arg)
      × (r.0.cpb.info ≡ q.cpb.info)
      × CntArgs r.0.cpb.lt_cnter
      × IsIndex r.1.ref_arg
unfolding plan_frame set_st_cfg_to_frm
plan_frame-args cfg st_cfg status q hs hc hf =
    let start = set_st_cfg_to_frm q.cpb.seq_idx st_cfg in
    let (cnts, arg) =
      lt_loop-args cfg.lt_cfg_cnt 0 q.cpb.lt_cnter start false hc
        (field-IsIndex st_cfg.ref_arg hs) in
    let l = force_lt-SameForced _ _ in
    let s =
      forced_trans (force_pskip-SameForced _ _) (forced_trans (force_mode-SameForced _ _) l) in
    let a = advance_st-SameSetup st_cfg _ in
    (
      s.cfg,
      s.arg,
      a.info ∙ s.setup.info,
      rw (a.lt_cnter ∙ s.setup.lt_cnter) cnts,
      subst IsIndex (sym (force_pskip-arg _ _)) (
          force_mode-arg _ _ (rw l.arg hf)
            (subst IsIndex (sym (pass1-arg status.curr.save_pass1 _ ∙ force_lt-arg _ _)) arg)),
    )
