-- ===== src/EncRefs/Intra.antt =====
-- When mpp_enc_refs_get_cpb plans an intra frame.
use mathlib.Core.Path.{subst}
use rockchip_kmpp.Prelude.Word.{update}
use rockchip_kmpp.Prelude.{
  ℕ, zero, suc, ◌+◌, ◌≡◌, refl, ap, ◌∙◌, sym, arith, Bool, true, false, ◌||◌, ◌==◌, if◌then◌else◌,
  none, some, get_elem?,
}
use rockchip_kmpp.Prelude.Maybe.{>>=-eq-some, some-cancel}
use rockchip_kmpp.RefTypes.{FrmStatus, no_frm, StFrmCfg, RefCfg, CpbStatus}
use rockchip_kmpp.Cpb.{
  VirtualCpb, RefsCnt, get_ref_from_cpb, save_cpb_status, store_ref_to_cpb, set_st_cfg_to_frm,
  set_lt_cfg_to_frm, cleanup_cpb_refs,
}
use rockchip_kmpp.EncRefs.{EncRefs}
use rockchip_kmpp.EncRefs.Refine.{refer_and_store-curr}
use rockchip_kmpp.EncRefs.NextFrame.{
  lt_counters, lt_step, lt_loop, begin_frame, needs_cleanup, force_lt, force_mode, force_pskip,
  plan_frame, store_frame, refer_and_store, get_cpb, get_cpb_st_cfg_pos, next_frm_is_intra,
}

-- Two statuses that are intra, and IDR, alike.
record SameKind (f g : FrmStatus) : Type 0 where
  intra : f.is_intra ≡ g.is_intra
  idr : f.is_idr ≡ g.is_idr

kind_trans : {f g h : FrmStatus} → SameKind f g → SameKind g h → SameKind f h
kind_trans s t = record { intra = s.intra ∙ t.intra; idr = s.idr ∙ t.idr }

lt_step-SameKind : (c : RefsCnt) (f : FrmStatus) (b : Bool) → SameKind (lt_step c (f, b)).1.0 f
unfolding lt_step set_lt_cfg_to_frm
lt_step-SameKind c f b = record { intra = ground arith; idr = ground arith }

lt_loop-SameKind :
    (left i : ℕ) (cnter : ℕ → RefsCnt) (out : FrmStatus × Bool)
    → SameKind (lt_loop left i cnter out).1.0 out.0
unfolding lt_loop
lt_loop-SameKind zero i cnter out = record { intra = refl; idr = refl }
lt_loop-SameKind (suc left) i cnter (f, b) =
    let r = lt_step (cnter i) (f, b) in
    kind_trans (lt_loop-SameKind left (i + 1) (update cnter i r.0) r.1)
      (lt_step-SameKind (cnter i) f b)

force_lt-SameKind : (p : EncRefs) (f : FrmStatus) → SameKind (force_lt p f).1 f
unfolding force_lt
force_lt-SameKind p f = record { intra = ground arith; idr = ground arith }

force_mode-SameKind : (p : EncRefs) (f : FrmStatus) → SameKind (force_mode p f).1 f
unfolding force_mode
force_mode-SameKind p f = record { intra = ground arith; idr = ground arith }

force_pskip-SameKind : (p : EncRefs) (f : FrmStatus) → SameKind (force_pskip p f).1 f
unfolding force_pskip
force_pskip-SameKind p f = record { intra = ground arith; idr = ground arith }

pass1-SameKind :
    (b : Bool) (f : FrmStatus) → SameKind (if b then record f { use_pass1 = true } else f) f
pass1-SameKind true f = record { intra = refl; idr = refl }
pass1-SameKind false f = record { intra = refl; idr = refl }

st-SameKind :
    (n : ℕ) (s : StFrmCfg)
    → ((set_st_cfg_to_frm n s).is_intra ≡ (n == 0)) × ((set_st_cfg_to_frm n s).is_idr ≡ (n == 0))
unfolding set_st_cfg_to_frm
st-SameKind n s = (refl, refl)

-- The planned frame is an IDR frame where the sequence starts.
pub plan_frame-kind :
    (cfg : RefCfg) (st_cfg : StFrmCfg) (status : CpbStatus) (q : EncRefs)
    → let frm = (plan_frame cfg st_cfg status q).1 in
      (frm.is_intra ≡ (q.cpb.seq_idx == 0)) × (frm.is_idr ≡ (q.cpb.seq_idx == 0))
unfolding plan_frame
plan_frame-kind cfg st_cfg status q =
    let start = set_st_cfg_to_frm q.cpb.seq_idx st_cfg in
    let loop = lt_loop-SameKind cfg.lt_cfg_cnt 0 q.cpb.lt_cnter (start, false) in
    let same = kind_trans (force_pskip-SameKind _ _) (
      kind_trans (force_mode-SameKind _ _) (
        kind_trans (pass1-SameKind status.curr.save_pass1 _)
          (kind_trans (force_lt-SameKind _ _) loop))) in
    let (c, d) = st-SameKind q.cpb.seq_idx st_cfg in (same.intra ∙ c, same.idr ∙ d)

-- The frame that the next call starts from.
begin_frame-seq_idx :
    (p : EncRefs) → ((begin_frame p).cpb.seq_idx == 0) ≡ (needs_cleanup p || (p.cpb.seq_idx == 0))
unfolding begin_frame cleanup_cpb_refs
begin_frame-seq_idx p = by_case (needs_cleanup p) p.ref_cfg_changed
  where
    by_case :
        (a b : Bool)
        → ((if a
              then cleanup_cpb_refs p.cpb
              else if b
              then record (p.cpb) { st_cfg_pos = 0; st_cfg_repeat_pos = 0 }
              else p.cpb).seq_idx
            == 0)
          ≡ (a || (p.cpb.seq_idx == 0))
    by_case true b = refl
    by_case false true = refl
    by_case false false = refl

-- An intra frame refers to nothing.
store_frame-refr :
    (cpb : VirtualCpb) (frm refr : FrmStatus) {cpb' : VirtualCpb} {status' : CpbStatus}
    → store_frame cpb frm refr ≡ some (cpb', status')
    → status'.refr ≡ refr
unfolding store_frame
store_frame-refr cpb frm refr e =
    let (before, e₁, rest) = >>=-eq-some (save_cpb_status cpb) _ e in
    let (after, e₂, ends) = >>=-eq-some (save_cpb_status (store_ref_to_cpb cpb frm)) _ rest in
    ap (λ r. r.1.refr) (sym (some-cancel ends))

intra-none :
    (cpb : VirtualCpb) (frm : FrmStatus)
    → frm.is_intra ≡ true
    → get_ref_from_cpb cpb frm ≡ some none
unfolding get_ref_from_cpb
intra-none cpb frm e = simp e

refer_and_store-intra :
    (cpb : VirtualCpb) (frm : FrmStatus) (status : CpbStatus) {cpb' : VirtualCpb}
    {status' : CpbStatus}
    → frm.is_intra ≡ true
    → refer_and_store cpb frm status ≡ some (cpb', status')
    → status'.refr ≡ no_frm
unfolding refer_and_store
refer_and_store-intra cpb frm status i e =
    store_frame-refr cpb frm no_frm (rw (intra-none cpb frm i) at e)

-- What comes out of a frame for which the sequence starts, or not.
abbrev Starts : Bool → EncRefs × CpbStatus → Type 0
Starts starts r =
    (r.1.curr.is_intra ≡ starts)
    × (r.1.curr.is_idr ≡ starts)
    × (r.1.curr.is_intra ≡ true → r.1.refr ≡ no_frm)

-- mpp_enc_refs_get_cpb, where it does not fault, plans an intra frame, which is an IDR frame then,
-- exactly if the buffer is cleaned (the period of IDR frames changed or is over, or the user forces
-- one) or nothing is in the sequence yet; and an intra frame refers to nothing.
pub get_cpb-is_intra :
    (p : EncRefs) (status : CpbStatus) {p' : EncRefs} {status' : CpbStatus}
    → get_cpb p status ≡ some (p', status')
    → (status'.curr.is_intra ≡ (needs_cleanup p || (p.cpb.seq_idx == 0)))
      × (status'.curr.is_idr ≡ (needs_cleanup p || (p.cpb.seq_idx == 0)))
      × (status'.curr.is_intra ≡ true → status'.refr ≡ no_frm)
unfolding get_cpb
get_cpb-is_intra p status e =
    let q = begin_frame p in
    let (cfg, has_cfg, r₁) = >>=-eq-some p.ref_cfg _ e in
    let (cnt, counters, r₂) = >>=-eq-some (lt_counters cfg.lt_cfg_cnt) _ r₁ in
    let (st_cfg, has_st, r₃) =
      >>=-eq-some (get_elem? cfg.st_cfg (get_cpb_st_cfg_pos q.cpb cfg)) _ r₂ in
    let q' = (plan_frame cfg st_cfg status q).0 in
    let frm = (plan_frame cfg st_cfg status q).1 in
    let (out, done, r₄) = >>=-eq-some (refer_and_store q'.cpb frm status) _ r₃ in
    let curr = refer_and_store-curr q'.cpb frm status done in
    let (i, d) = plan_frame-kind cfg st_cfg status q in
    let at_start = begin_frame-seq_idx p in
    subst (Starts (needs_cleanup p || (p.cpb.seq_idx == 0))) (some-cancel r₄) (
      ap (λ f. f.is_intra) curr ∙ i ∙ at_start,
      ap (λ f. f.is_idr) curr ∙ d ∙ at_start,
      λ is. refer_and_store-intra q'.cpb frm status (sym (ap (λ f. f.is_intra) curr) ∙ is) done,
    )

or-false : (b : Bool) → (b || false) ≡ b
or-false true = refl
or-false false = refl

-- If neither the overall frame index nor the index in the sequence is 0,
-- mpp_enc_refs_next_frm_is_intra foretells whether mpp_enc_refs_get_cpb, where it does not fault,
-- plans an intra frame.
next_frm_is_intra-get_cpb :
    (p : EncRefs) (status : CpbStatus) {p' : EncRefs} {status' : CpbStatus}
    → (p.cpb.frm_idx == 0) ≡ false
    → (p.cpb.seq_idx == 0) ≡ false
    → get_cpb p status ≡ some (p', status')
    → next_frm_is_intra p ≡ status'.curr.is_intra
unfolding next_frm_is_intra
next_frm_is_intra-get_cpb p status f s e =
    let (i, _, _) = get_cpb-is_intra p status e in simp (f, i, s, or-false)
