-- ===== src/EncRefs/Refine.antt =====
-- The plan for a frame refers to the frame that its mode means in the history of the reference
-- frames, and the history goes on with the frame.
use mathlib.Core.Option
use mathlib.Core.Path.{subst}
use rockchip_kmpp.Prelude.Word.{update}
use rockchip_kmpp.Prelude.{
  ◌≡◌, refl, ap, sym, Bool, true, false, if◌then◌else◌, [], Option, none, some, get_elem?,
}
use rockchip_kmpp.Prelude.Maybe.{>>=-eq-some, some-cancel}
use rockchip_kmpp.RefTypes.{FrmStatus, no_frm, CpbStatus}
use rockchip_kmpp.Cpb.{VirtualCpb, get_ref_from_cpb, save_cpb_status, store_ref_to_cpb}
use rockchip_kmpp.Cpb.History.{History, referred, remember, HasArg}
use rockchip_kmpp.Cpb.Track.{Tracks, cleanup-Tracks, store_ref_to_cpb-Tracks}
use rockchip_kmpp.Cpb.Find.{get_ref_from_cpb_lem}
use rockchip_kmpp.EncRefs.{EncRefs}
use rockchip_kmpp.EncRefs.Same.{Tracks-same, same, same_if, plan_frame-SameRefs}
use rockchip_kmpp.EncRefs.NextFrame.{
  lt_counters, begin_frame, needs_cleanup, plan_frame, store_frame, refer_and_store, get_cpb,
  get_cpb_st_cfg_pos,
}

-- The history that a frame is planned on: an IDR frame starts a new one.
abbrev pub history_before : EncRefs → History → History
history_before p h = if needs_cleanup p then [] else h

-- The frame that the plan refers to.
abbrev pub reference_of : History → FrmStatus → FrmStatus
reference_of h frm = Option.get_or (referred h frm) no_frm

Tracks-if :
    (b : Bool) (x y : VirtualCpb) (g h : History)
    → Tracks x g
    → Tracks y h
    → Tracks (if b then x else y) (if b then g else h)
Tracks-if true x y g h v w = v
Tracks-if false x y g h v w = w

begin_frame-Tracks :
    (p : EncRefs) (h : History) → Tracks p.cpb h → Tracks (begin_frame p).cpb (history_before p h)
unfolding begin_frame
begin_frame-Tracks p h v =
    Tracks-same (record { modes = refl; layers = refl; lt_frames = refl; cells = refl })
      (Tracks-if (needs_cleanup p) _ _ [] h (cleanup-Tracks p.cpb) (
        Tracks-same
          (same_if p.ref_cfg_changed _ p.cpb p.cpb
            (record { modes = refl; layers = refl; lt_frames = refl; cells = refl }) (same p.cpb))
          v))

store_frame_lem :
    (cpb : VirtualCpb) (frm refr : FrmStatus) (h : History) {cpb' : VirtualCpb}
    {status' : CpbStatus}
    → Tracks cpb h
    → store_frame cpb frm refr ≡ some (cpb', status')
    → (status'.refr ≡ refr) × Tracks cpb' (remember frm h)
unfolding store_frame
store_frame_lem cpb frm refr h v e =
    let (before, e₁, rest) = >>=-eq-some (save_cpb_status cpb) _ e in
    let (after, e₂, ends) = >>=-eq-some (save_cpb_status (store_ref_to_cpb cpb frm)) _ rest in
    let both = some-cancel ends in
    (
      ap (λ r. r.1.refr) (sym both),
      subst (λ r. Tracks r.0 (remember frm h)) both (store_ref_to_cpb-Tracks cpb frm h v),
    )

store_frame-curr :
    (cpb : VirtualCpb) (frm refr : FrmStatus) {cpb' : VirtualCpb} {status' : CpbStatus}
    → store_frame cpb frm refr ≡ some (cpb', status')
    → status'.curr ≡ frm
unfolding store_frame
store_frame-curr cpb frm refr e =
    let (before, e₁, rest) = >>=-eq-some (save_cpb_status cpb) _ e in
    let (after, e₂, ends) = >>=-eq-some (save_cpb_status (store_ref_to_cpb cpb frm)) _ rest in
    ap (λ r. r.1.curr) (sym (some-cancel ends))

-- The rest of the call, given the reference.
abbrev with_reference :
    VirtualCpb → FrmStatus → CpbStatus → Option FrmStatus → Option (VirtualCpb × CpbStatus)
with_reference cpb frm status found = elim found [
  | none ↦ store_frame cpb frm no_frm
  | some ref ↦ store_frame (record cpb { list0 = update cpb.list0 0 status.refr }) frm ref
]

-- The frame that comes out is the frame that was planned.
pub refer_and_store-curr :
    (cpb : VirtualCpb) (frm : FrmStatus) (status : CpbStatus) {cpb' : VirtualCpb}
    {status' : CpbStatus}
    → refer_and_store cpb frm status ≡ some (cpb', status')
    → status'.curr ≡ frm
unfolding refer_and_store
refer_and_store-curr cpb frm status {cpb'} {status'} e =
    let (found, e₁, rest) = >>=-eq-some (get_ref_from_cpb cpb frm) _ e in by_case found rest
  where
    by_case :
        (found : Option FrmStatus)
        → with_reference cpb frm status found ≡ some (cpb', status')
        → status'.curr ≡ frm
    by_case none q = store_frame-curr cpb frm no_frm q
    by_case (some ref) q =
        store_frame-curr (record cpb { list0 = update cpb.list0 0 status.refr }) frm ref q

refer_and_store_lem :
    (cpb : VirtualCpb) (frm : FrmStatus) (status : CpbStatus) (h : History) {cpb' : VirtualCpb}
    {status' : CpbStatus}
    → Tracks cpb h
    → HasArg frm
    → refer_and_store cpb frm status ≡ some (cpb', status')
    → (status'.refr ≡ reference_of h frm) × Tracks cpb' (remember frm h)
unfolding refer_and_store
refer_and_store_lem cpb frm status h {cpb'} {status'} v arg e =
    by_case (referred h frm) (rw (get_ref_from_cpb_lem cpb frm h v arg) at e)
  where
    by_case :
        (found : Option FrmStatus)
        → with_reference cpb frm status found ≡ some (cpb', status')
        → (status'.refr ≡ Option.get_or found no_frm) × Tracks cpb' (remember frm h)
    by_case none q = store_frame_lem cpb frm no_frm h v q
    by_case (some ref) q =
        store_frame_lem (record cpb { list0 = update cpb.list0 0 status.refr }) frm ref h
          (Tracks-same (record { modes = refl; layers = refl; lt_frames = refl; cells = refl }) v) q

-- What the theorem says of a result.
abbrev Refers : History → EncRefs × CpbStatus → Type 0
Refers h r =
    HasArg r.1.curr → (r.1.refr ≡ reference_of h r.1.curr) × Tracks r.0.cpb (remember r.1.curr h)

refer_and_store-Refers :
    (cpb : VirtualCpb) (frm : FrmStatus) (status : CpbStatus) (h : History) {cpb' : VirtualCpb}
    {status' : CpbStatus}
    → Tracks cpb h
    → refer_and_store cpb frm status ≡ some (cpb', status')
    → HasArg status'.curr
    → (status'.refr ≡ reference_of h status'.curr) × Tracks cpb' (remember status'.curr h)
refer_and_store-Refers cpb frm status h {cpb'} {status'} v e =
    subst (λ f. HasArg f → (status'.refr ≡ reference_of h f) × Tracks cpb' (remember f h))
      (sym (refer_and_store-curr cpb frm status e))
      (λ arg. refer_and_store_lem cpb frm status h v arg e)

-- On a buffer that answers each mode as a history does, mpp_enc_refs_get_cpb, where it does not
-- fault and the frame's argument is from 0 to 15 if its mode takes one, makes the frame refer to
-- the one that its mode means in that history (cleared before, if an IDR frame is due), or to none
-- if there is none; and afterwards the buffer answers as the history with the frame put in front,
-- unless it is marked as no reference.
pub get_cpb-Tracks :
    (p : EncRefs) (status : CpbStatus) (h : History) {p' : EncRefs} {status' : CpbStatus}
    → Tracks p.cpb h
    → get_cpb p status ≡ some (p', status')
    → HasArg status'.curr
    → (status'.refr ≡ reference_of (history_before p h) status'.curr)
      × Tracks p'.cpb (remember status'.curr (history_before p h))
unfolding get_cpb
get_cpb-Tracks p status h v e arg =
    let q = begin_frame p in
    let (cfg, has_cfg, r₁) = >>=-eq-some p.ref_cfg _ e in
    let (cnt, counters, r₂) = >>=-eq-some (lt_counters cfg.lt_cfg_cnt) _ r₁ in
    let (st_cfg, has_st, r₃) =
      >>=-eq-some (get_elem? cfg.st_cfg (get_cpb_st_cfg_pos q.cpb cfg)) _ r₂ in
    let q' = (plan_frame cfg st_cfg status q).0 in
    let frm = (plan_frame cfg st_cfg status q).1 in
    let (out, done, r₄) = >>=-eq-some (refer_and_store q'.cpb frm status) _ r₃ in
    let v' = Tracks-same (plan_frame-SameRefs cfg st_cfg status q) (begin_frame-Tracks p h v) in
    subst (Refers (history_before p h)) (some-cancel r₄)
      (refer_and_store-Refers q'.cpb frm status (history_before p h) v' done) arg
