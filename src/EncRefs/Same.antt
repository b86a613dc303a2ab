-- ===== src/EncRefs/Same.antt =====
-- What the planning of a frame leaves alone: the cells of the buffer that the reference modes read.
use rockchip_kmpp.Prelude.Int.{pos, ltb_ℤ}
use rockchip_kmpp.Prelude.Word.{u32}
use rockchip_kmpp.Prelude.{
  ◌+◌, ◌≡◌, refl, ◌∙◌, Bool, true, false, if◌then◌else◌, Bool-cases, inl, inr,
}
use rockchip_kmpp.RefTypes.{FrmStatus, StFrmCfg, RefCfg, CpbStatus}
use rockchip_kmpp.Cpb.{VirtualCpb}
use rockchip_kmpp.Cpb.History.{History}
use rockchip_kmpp.Cpb.Track.{Tracks}
use rockchip_kmpp.EncRefs.{EncRefs}
use rockchip_kmpp.EncRefs.NextFrame.{advance_st, force_lt, force_mode, force_pskip, plan_frame}

-- Two buffers with the same cells for the reference modes.
pub record SameRefs (a b : VirtualCpb) : Type 0 where
  pub modes : a.mode_refs ≡ b.mode_refs
  pub layers : a.st_tid_refs ≡ b.st_tid_refs
  pub lt_frames : a.lt_idx_refs ≡ b.lt_idx_refs
  pub cells : a.cpb_refs ≡ b.cpb_refs

pub Tracks-same : {a b : VirtualCpb} {h : History} → SameRefs a b → Tracks b h → Tracks a h
Tracks-same s v = record {
  prev = rw s.modes v.prev;
  prev_st = rw s.modes v.prev_st;
  prev_lt = rw s.modes v.prev_lt;
  prev_intra = rw s.modes v.prev_intra;
  layer = λ t. rw s.layers (v.layer t);
  lt_frame = λ k. rw s.lt_frames (v.lt_frame k);
  window = λ i p. rw s.cells (v.window i p);
}

pub same : (a : VirtualCpb) → SameRefs a a
same a = record { modes = refl; layers = refl; lt_frames = refl; cells = refl }

same_trans : {a b c : VirtualCpb} → SameRefs a b → SameRefs b c → SameRefs a c
same_trans s t = record {
  modes = s.modes ∙ t.modes;
  layers = s.layers ∙ t.layers;
  lt_frames = s.lt_frames ∙ t.lt_frames;
  cells = s.cells ∙ t.cells;
}

pub same_if :
    (b : Bool) (x y c : VirtualCpb) → SameRefs x c → SameRefs y c → SameRefs (if b then x else y) c
same_if true x y c s t = s
same_if false x y c s t = t

same_if_plan :
    (b : Bool) (x y : EncRefs × FrmStatus) (c : VirtualCpb)
    → SameRefs x.0.cpb c
    → SameRefs y.0.cpb c
    → SameRefs (if b then x else y).0.cpb c
same_if_plan true x y c s t = s
same_if_plan false x y c s t = t

force_lt-SameRefs : (p : EncRefs) (f : FrmStatus) → SameRefs (force_lt p f).0.cpb p.cpb
unfolding force_lt
force_lt-SameRefs p f =
    same_if_plan p.usr_cfg.force_flag.lt_ref_idx _ (p, f) p.cpb
      (record { modes = refl; layers = refl; lt_frames = refl; cells = refl }) (same p.cpb)

force_mode-SameRefs : (p : EncRefs) (f : FrmStatus) → SameRefs (force_mode p f).0.cpb p.cpb
unfolding force_mode
force_mode-SameRefs p f =
    same_if_plan p.usr_cfg.force_flag.ref_mode _ (p, f) p.cpb (same p.cpb) (same p.cpb)

force_pskip-SameRefs : (p : EncRefs) (f : FrmStatus) → SameRefs (force_pskip p f).0.cpb p.cpb
unfolding force_pskip
force_pskip-SameRefs p f =
    same_if_plan p.usr_cfg.force_flag.pskip _ (p, f) p.cpb (same p.cpb) (same p.cpb)

advance_st-SameRefs : (st : StFrmCfg) (cpb : VirtualCpb) → SameRefs (advance_st st cpb) cpb
unfolding advance_st
advance_st-SameRefs st cpb =
    elim (Bool-cases (ltb_ℤ st.repeat (pos (u32 (cpb.st_cfg_repeat_pos + 1))))) [
      | inl e ↦ rw e (record { modes = refl; layers = refl; lt_frames = refl; cells = refl })
      | inr e ↦ rw e (record { modes = refl; layers = refl; lt_frames = refl; cells = refl })
    ]

-- Planning a frame touches no cell that a reference mode reads.
pub plan_frame-SameRefs :
    (cfg : RefCfg) (st_cfg : StFrmCfg) (status : CpbStatus) (q : EncRefs)
    → SameRefs (plan_frame cfg st_cfg status q).0.cpb q.cpb
unfolding plan_frame
plan_frame-SameRefs cfg st_cfg status q = same_trans (advance_st-SameRefs st_cfg _) (
    same_trans (force_pskip-SameRefs _ _) (
      same_trans (force_mode-SameRefs _ _) (
        same_trans (force_lt-SameRefs _ _)
          (record { modes = refl; layers = refl; lt_frames = refl; cells = refl }))))
