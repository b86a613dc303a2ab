-- ===== src/EncRefs/Reach.antt =====
-- Sequences of calls to the reference manager.
use mathlib.Core.Path.{subst}
use rockchip_kmpp.Prelude.Int.{ℤ}
use rockchip_kmpp.Prelude.{
  ◌≡◌, refl, ap, ◌∙◌, sym, Bool, true, false, if◌then◌else◌, [], some, get_elem?, Bool-cases, inl,
  inr,
}
use rockchip_kmpp.Prelude.Maybe.{>>=-eq-some, some-cancel}
use rockchip_kmpp.RefTypes.{FrmStatus, StFrmCfg, RefCfg, CpbStatus}
use rockchip_kmpp.Cpb.History.{History, remember, HasArg}
use rockchip_kmpp.Cpb.Track.{Tracks}
use rockchip_kmpp.EncRefs.{
  EncRefs, FrmUsrCfg, refs_init, no_cpb, set_cfg, setup_cnts, set_usr_cfg, set_rc_igop, eq_ℤ, stash,
  rollback,
}
use rockchip_kmpp.EncRefs.Same.{Tracks-same}
use rockchip_kmpp.EncRefs.Refine.{history_before, get_cpb-Tracks}
use rockchip_kmpp.EncRefs.NextFrame.{
  lt_counters, get_cpb, get_cpb_st_cfg_pos, begin_frame, plan_frame, refer_and_store, force_lt,
  force_mode, force_pskip,
}

-- The histories of the buffer and of its stash.
pub record Histories : Type 0 where
  pub now : History
  pub stashed : History

-- The states that the calls reach, with what they have coded. A new configuration keeps the frames
-- where it says so.
pub data Reaches : EncRefs → Histories → Type 0 where
  start : Reaches refs_init (record { now = []; stashed = [] })
  configured :
      {p p' : EncRefs} {h : Histories} (cfg : RefCfg)
      → Reaches p h
      → set_cfg p (some cfg) ≡ some p'
      → Reaches p' (record h { now = if cfg.keep_cpb then h.now else [] })
  forced :
      {p : EncRefs} {h : Histories} (cfg : FrmUsrCfg) → Reaches p h → Reaches (set_usr_cfg p cfg) h
  period_set :
      {p : EncRefs} {h : Histories} (igop : ℤ) → Reaches p h → Reaches (set_rc_igop p igop) h
  planned :
      {p p' : EncRefs} {h : Histories} (status status' : CpbStatus)
      → Reaches p h
      → get_cpb p status ≡ some (p', status')
      → HasArg status'.curr
      → Reaches p' (record h { now = remember status'.curr (history_before p h.now) })
  stashed :
      {p : EncRefs} {h : Histories} → Reaches p h → Reaches (stash p) (record h { stashed = h.now })
  rolled_back :
      {p : EncRefs} {h : Histories}
      → Reaches p h
      → Reaches (rollback p) (record h { now = h.stashed })

-- A cleared buffer has no history.
no_cpb-Tracks : Tracks no_cpb []
no_cpb-Tracks = record {
  prev = refl;
  prev_st = refl;
  prev_lt = refl;
  prev_intra = refl;
  layer = λ t. refl;
  lt_frame = λ k. refl;
  window = λ i q. refl;
}

-- mpp_enc_refs_set_cfg keeps the cells, or clears them.
set_cfg-Tracks :
    (p : EncRefs) (cfg : RefCfg) (h : History) {p' : EncRefs}
    → Tracks p.cpb h
    → set_cfg p (some cfg) ≡ some p'
    → Tracks p'.cpb (if cfg.keep_cpb then h else []) × (p'.cpb_stash ≡ p.cpb_stash)
unfolding set_cfg
set_cfg-Tracks p cfg h v e =
    let cpb = if cfg.keep_cpb then p.cpb else no_cpb in
    let (cnter, _, r) = >>=-eq-some (setup_cnts cfg.lt_cfg_cnt 0 cfg.lt_cfg cpb.lt_cnter) _ e in
    subst (λ q. Tracks q.cpb (if cfg.keep_cpb then h else []) × (q.cpb_stash ≡ p.cpb_stash))
      (some-cancel r)
      (
        Tracks-same (record { modes = refl; layers = refl; lt_frames = refl; cells = refl })
            (by_case cfg.keep_cpb),
        refl,
      )
  where
    by_case : (b : Bool) → Tracks (if b then p.cpb else no_cpb) (if b then h else [])
    by_case true = v
    by_case false = no_cpb-Tracks

set_rc_igop-cpb :
    (p : EncRefs) (igop : ℤ)
    → ((set_rc_igop p igop).cpb ≡ p.cpb) × ((set_rc_igop p igop).cpb_stash ≡ p.cpb_stash)
unfolding set_rc_igop
set_rc_igop-cpb p igop = elim (Bool-cases (eq_ℤ p.igop igop)) [
  | inl e ↦ rw e (refl, refl)
  | inr e ↦ rw e (refl, refl)
]

-- Planning leaves the stash alone.
force_lt-stash : (p : EncRefs) (f : FrmStatus) → (force_lt p f).0.cpb_stash ≡ p.cpb_stash
unfolding force_lt
force_lt-stash p f = elim (Bool-cases p.usr_cfg.force_flag.lt_ref_idx) [
  | inl e ↦ simp e
  | inr e ↦ simp e
]

force_mode-stash : (p : EncRefs) (f : FrmStatus) → (force_mode p f).0.cpb_stash ≡ p.cpb_stash
unfolding force_mode
force_mode-stash p f = elim (Bool-cases p.usr_cfg.force_flag.ref_mode) [
  | inl e ↦ simp e
  | inr e ↦ simp e
]

force_pskip-stash : (p : EncRefs) (f : FrmStatus) → (force_pskip p f).0.cpb_stash ≡ p.cpb_stash
unfolding force_pskip
force_pskip-stash p f = elim (Bool-cases p.usr_cfg.force_flag.pskip) [
  | inl e ↦ simp e
  | inr e ↦ simp e
]

plan_frame-stash :
    (cfg : RefCfg) (st_cfg : StFrmCfg) (status : CpbStatus) (q : EncRefs)
    → (plan_frame cfg st_cfg status q).0.cpb_stash ≡ q.cpb_stash
unfolding plan_frame
plan_frame-stash cfg st_cfg status q =
    force_pskip-stash _ _ ∙ force_mode-stash _ _ ∙ force_lt-stash _ _

get_cpb-stash :
    (p : EncRefs) (status : CpbStatus) {p' : EncRefs} {status' : CpbStatus}
    → get_cpb p status ≡ some (p', status')
    → p'.cpb_stash ≡ p.cpb_stash
unfolding get_cpb begin_frame
get_cpb-stash p status e =
    let q = begin_frame p in
    let (cfg, has_cfg, r₁) = >>=-eq-some p.ref_cfg _ e in
    let (cnt, counters, r₂) = >>=-eq-some (lt_counters cfg.lt_cfg_cnt) _ r₁ in
    let (st_cfg, has_st, r₃) =
      >>=-eq-some (get_elem? cfg.st_cfg (get_cpb_st_cfg_pos q.cpb cfg)) _ r₂ in
    let q' = (plan_frame cfg st_cfg status q).0 in
    let frm = (plan_frame cfg st_cfg status q).1 in
    let (out, done, r₄) = >>=-eq-some (refer_and_store q'.cpb frm status) _ r₃ in
    ap (λ r. r.0.cpb_stash) (sym (some-cancel r₄)) ∙ plan_frame-stash cfg st_cfg status q

-- After every sequence of calls (configuring, forcing, setting the period, planning frames whose
-- mode has an argument below 16 if it takes one, stashing and rolling back) the buffer answers each
-- reference mode as the reference frames planned since the last IDR frame demand, and the stash as
-- those demand that were planned when it was taken: what is planned between a stash and its
-- rollback leaves no trace in the references.
pub Reaches-Tracks :
    (p : EncRefs) (h : Histories) → Reaches p h → Tracks p.cpb h.now × Tracks p.cpb_stash h.stashed
unfolding set_usr_cfg stash rollback refs_init
Reaches-Tracks _ _ start = (no_cpb-Tracks, no_cpb-Tracks)
Reaches-Tracks p' _ (configured {p} {h} cfg r e) =
    let (now, old) = Reaches-Tracks p h r in
    let (tracks, kept) = set_cfg-Tracks p cfg h.now now e in (tracks, rw kept old)
Reaches-Tracks _ h (forced {p} cfg r) = Reaches-Tracks p h r
Reaches-Tracks _ h (period_set {p} igop r) =
    let (same, kept) = set_rc_igop-cpb p igop in
    let (now, old) = Reaches-Tracks p h r in (rw same now, rw kept old)
Reaches-Tracks p' _ (planned {p} {h = h} status status' r e arg) =
    let (now, old) = Reaches-Tracks p h r in
    let (_, tracks) = get_cpb-Tracks p status h.now now e arg in
    (tracks, rw (get_cpb-stash p status e) old)
Reaches-Tracks _ _ (stashed {p} {h} r) = let (now, _) = Reaches-Tracks p h r in (now, now)
Reaches-Tracks _ _ (rolled_back {p} {h} r) = let (_, old) = Reaches-Tracks p h r in (old, old)
