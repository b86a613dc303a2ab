-- ===== src/H264/Dpb/Numbers.antt =====
-- Frame numbers count the reference frames, and picture order counts rise.
use mathlib.Core.Bool.{true≢false}
use native.Mathlib.Nat.{mod-eq_of_lt, mod_self}
use rockchip_kmpp.Prelude.{
  ℕ, ◌+◌, ◌*◌, ◌%◌, ◌≤◌, ◌<◌, ◌≡◌, ◌≢◌, refl, sym, ap, subst, ◌∙◌, arith, length, true, false, ltb,
  ltb→lt, ◌==◌, if◌then◌else◌, Bool-cases, some, ◌⊎◌, inl, inr,
}
use rockchip_kmpp.RefTypes.{FrmStatus, CpbStatus}
use rockchip_kmpp.H264.Dpb.{
  Dpb, DpbFrm, DpbRt, max_refs_cnt, start_frame, scan_frame, next_poc, next_frm_num, take_slot,
  visit_slots, find_refr, place_frame,
}
use rockchip_kmpp.H264.Dpb.Free.{some-IsFree}
use rockchip_kmpp.H264.Dpb.Slots.{HasSizes, visit_slots-sizes, visit_slots-Visited}
use rockchip_kmpp.H264.Dpb.Find.{used-scan}

-- The numbers of the last frame are in range.
pub record IsNumbered (d : Dpb) : Type 0 where
  pub frm_num : d.rt.last_frm_num < d.max_frm_num
  pub is_ref : d.rt.last_is_ref ≤ 1
  pub lsb : d.rt.last_poc_lsb < d.max_poc_lsb
  pub even : d.poc_type ≡ 0 → d.rt.last_poc_lsb % 2 ≡ 0
  pub max_even : d.max_poc_lsb % 2 ≡ 0
  pub type : (d.poc_type ≡ 0) ⊎ (d.poc_type ≡ 2)

abbrev pub last_poc : Dpb → ℕ
last_poc d = d.rt.last_poc_lsb + d.rt.last_poc_msb * d.max_poc_lsb

-- What the numbers of a frame are to those of the last one.
abbrev pub Follows : FrmStatus → Dpb → DpbFrm → Type 0
Follows curr d f =
    (curr.is_idr ≡ true → (f.frame_num ≡ 0) × (f.poc ≡ 0))
    × (curr.is_idr ≡ false
        → (f.frame_num ≡ (d.rt.last_frm_num + d.rt.last_is_ref) % d.max_frm_num)
          × (last_poc d < f.poc)
          × (d.poc_type ≡ 0 → f.poc ≡ last_poc d + 2))

abbrev wrapped : ℕ → ℕ → ℕ → ℕ × ℕ
wrapped sum msb max = if ltb sum max then (sum, msb) else (0, msb + 1)

wrapped-rises :
    (lsb by msb max : ℕ)
    → lsb < max
    → 0 < by
    → (lsb + msb * max < (wrapped (lsb + by) msb max).0 + (wrapped (lsb + by) msb max).1 * max)
      × ((wrapped (lsb + by) msb max).0 < max)
wrapped-rises lsb by msb max h k = elim (Bool-cases (ltb (lsb + by) max)) [
  | inl below ↦ rw below (omega arith, ground arith)
  | inr over ↦ rw over (omega arith, omega arith)
]

wrapped-even :
    (lsb msb max : ℕ)
    → lsb < max
    → lsb % 2 ≡ 0
    → max % 2 ≡ 0
    → ((wrapped (lsb + 2) msb max).0 + (wrapped (lsb + 2) msb max).1 * max ≡ lsb + msb * max + 2)
      × ((wrapped (lsb + 2) msb max).0 % 2 ≡ 0)
wrapped-even lsb msb max h e m = elim (Bool-cases (ltb (lsb + 2) max)) [
  | inl below ↦ rw below (omega arith, omega arith)
  | inr over ↦ let full : lsb + 2 ≡ max = ground arith in rw over (omega (arith, full), omega arith)
]

next_poc_lem :
    (d : Dpb)
    → IsNumbered d
    → (last_poc d < (next_poc d).0 + (next_poc d).1 * d.max_poc_lsb)
      × (d.poc_type ≡ 0 → (next_poc d).0 + (next_poc d).1 * d.max_poc_lsb ≡ last_poc d + 2)
      × ((next_poc d).0 < d.max_poc_lsb)
      × (d.poc_type ≡ 0 → (next_poc d).0 % 2 ≡ 0)
unfolding next_poc
next_poc_lem d n = elim n.type [
  | inl zero_type ↦
      let (rises, low) =
        wrapped-rises d.rt.last_poc_lsb 2 d.rt.last_poc_msb d.max_poc_lsb n.lsb (omega arith) in
      let (two, even) =
        wrapped-even d.rt.last_poc_lsb d.rt.last_poc_msb d.max_poc_lsb n.lsb (n.even zero_type)
          n.max_even in
      rw zero_type (rises, (λ _. two), low, (λ _. even))
  | inr two_type ↦
      let (rises, low) =
        wrapped-rises d.rt.last_poc_lsb (1 + d.rt.last_is_ref) d.rt.last_poc_msb d.max_poc_lsb n.lsb
          (omega arith) in
      rw two_type (rises, (λ e. absurd (omega (arith, e))), low, (λ e. absurd (omega (arith, e))))
]

frm_num_lem :
    (d : Dpb)
    → IsNumbered d
    → (next_frm_num d ≡ (d.rt.last_frm_num + d.rt.last_is_ref) % d.max_frm_num)
      × (next_frm_num d < d.max_frm_num)
frm_num_lem d n =
    let sum = d.rt.last_frm_num + d.rt.last_is_ref in
    elim (Bool-cases (ltb sum d.max_frm_num)) [
      | inl below ↦
          let lt : sum < d.max_frm_num = ltb→lt sum d.max_frm_num below in
          rw below (sym (mod-eq_of_lt lt), lt)
      | inr over ↦
          let full : sum ≡ d.max_frm_num = ground (arith, n.frm_num, n.is_ref) in
          rw over (
            sym (ap (λ s. s % d.max_frm_num) full ∙ mod_self d.max_frm_num),
            omega (arith, n.frm_num),
          )
    ]

-- The slot that is taken.
take_slot-Follows :
    (c : ℕ) (curr : FrmStatus) (d : Dpb)
    → IsNumbered d
    → Follows curr d ((take_slot c curr d).frames c) × IsNumbered (take_slot c curr d)
unfolding take_slot
take_slot-Follows c curr d n =
    let same : (c == c) ≡ true = ground arith in
    elim (Bool-cases curr.is_idr) [
      | inl idr ↦
          rw (same, idr)
            (
              ((λ _. (refl, omega arith)), (λ e. absurd (true≢false e))),
              record {
                frm_num = omega (arith, n.frm_num);
                is_ref = ground arith;
                lsb = omega (arith, n.lsb);
                even = λ _. refl;
                max_even = n.max_even;
                type = n.type;
              },
            )
      | inr other ↦
          let (num, low_num) = frm_num_lem d n in
          let (rises, two, low, even) = next_poc_lem d n in
          rw (same, other)
            (
              ((λ e. absurd (true≢false (sym e))), (λ _. (num, rises, two))),
              record {
                frm_num = low_num;
                is_ref = ground arith;
                lsb = low;
                even = even;
                max_even = n.max_even;
                type = n.type;
              },
            )
    ]

IsNumbered-same : (d e : Dpb) → e.rt ≡ d.rt → HasSizes d e → IsNumbered d → IsNumbered e
IsNumbered-same d e rt (total, frm, poc, type) n =
    let num : e.rt.last_frm_num ≡ d.rt.last_frm_num = ap (λ (r : DpbRt). r.last_frm_num) rt in
    let is_ref : e.rt.last_is_ref ≡ d.rt.last_is_ref = ap (λ (r : DpbRt). r.last_is_ref) rt in
    let lsb : e.rt.last_poc_lsb ≡ d.rt.last_poc_lsb = ap (λ (r : DpbRt). r.last_poc_lsb) rt in
    record {
      frm_num = omega (arith, num, frm, n.frm_num);
      is_ref = omega (arith, is_ref, n.is_ref);
      lsb = omega (arith, lsb, poc, n.lsb);
      even = λ zero_type. ap (λ (l : ℕ). l % 2) lsb ∙ n.even (sym type ∙ zero_type);
      max_even = ap (λ (m : ℕ). m % 2) poc ∙ n.max_even;
      type = subst (λ k. (k ≡ 0) ⊎ (k ≡ 2)) (sym type) n.type;
    }

Follows-same :
    (curr : FrmStatus) (d e : Dpb) (f : DpbFrm)
    → e.rt ≡ d.rt
    → HasSizes d e
    → Follows curr e f
    → Follows curr d f
Follows-same curr d e f rt (total, frm, poc, type) (idr, other) =
    let num : (e.rt.last_frm_num + e.rt.last_is_ref) % e.max_frm_num
        ≡ (d.rt.last_frm_num + d.rt.last_is_ref) % d.max_frm_num =
      rw (rt, frm) refl in
    let last : last_poc e ≡ last_poc d = rw (rt, poc) refl in
    (
      idr,
      λ no_idr.
          let (n, rises, two) = other no_idr in
          (
            n ∙ num,
            omega (arith, last, rises),
            λ zero. two (type ∙ zero) ∙ ap (λ (p : ℕ). p + 2) last,
          ),
    )

-- What a set-up with sizes in range and the loop leave.
module _ (cpb : CpbStatus) (d : Dpb) (small : length cpb.init ≤ 16) (n : IsNumbered d) where
  abbrev scanned : Dpb
  scanned = scan_frame cpb.init d

  abbrev visited : Dpb
  visited = visit_slots (max_refs_cnt + 1) 0 cpb.curr scanned

  placed :
      (c : ℕ) × (visited.curr ≡ some c) × Follows cpb.curr d (visited.frames c) × IsNumbered visited
  unfolding scan_frame take_slot
  placed =
      let (c, free, le) = some-IsFree scanned.map in
      let near : c ≤ 16 = omega (arith, le, used-scan d.total_cnt d.frames cpb.init, small) in
      let v =
        visit_slots-Visited cpb.curr (max_refs_cnt + 1) 0 c scanned refl free (omega arith)
          (omega (arith, near)) in
      let scanned-IsNumbered = IsNumbered-same d scanned refl (refl, refl, refl, refl) n in
      let (follows, taken) = take_slot-Follows c cpb.curr scanned scanned-IsNumbered in
      (
        c,
        v.current,
        subst (λ f. Follows cpb.curr scanned f) (sym v.held) follows,
        IsNumbered-same (take_slot c cpb.curr scanned) visited v.runtime
            (visit_slots-sizes cpb.curr (max_refs_cnt + 1) 0 scanned) taken,
      )

start_frame-same :
    (curr : FrmStatus) (d : Dpb)
    → (curr.is_idr ≡ false → curr.seq_idx ≢ d.rt.last_seq_idx)
    → HasSizes d (start_frame curr d) × ((start_frame curr d).rt ≡ d.rt)
unfolding start_frame
start_frame-same curr d new = elim (Bool-cases curr.is_idr) [
  | inl idr ↦ rw idr ((refl, refl, refl, refl), refl)
  | inr other ↦
      let fresh : (curr.seq_idx == d.rt.last_seq_idx) ≡ false = ground (arith, new other) in
      rw (other, fresh) ((refl, refl, refl, refl), refl)
]

-- Let the numbers of the last frame be in range, the picture order count be of type 0 or 2, the plan
-- hold at most 16 frames, and the frame be an IDR frame or another than the last one. Then
-- h264e_dpb_proc numbers an IDR frame 0 and 0; any other frame it gives a frame number that counts
-- the reference frames modulo the maximum, and a picture order count that is higher than that of
-- the last frame, by 2 if it is of type 0, across the wrap of its lower part. The numbers stay in
-- range.
pub place_frame-Follows :
    (cpb : CpbStatus) (dpb : Dpb)
    → length cpb.init ≤ 16
    → IsNumbered dpb
    → (cpb.curr.is_idr ≡ false → cpb.curr.seq_idx ≢ dpb.rt.last_seq_idx)
    → let after = place_frame cpb dpb in
      (c : ℕ) × (after.curr ≡ some c) × Follows cpb.curr dpb (after.frames c) × IsNumbered after
unfolding place_frame find_refr
place_frame-Follows cpb dpb small n new =
    let before = start_frame cpb.curr dpb in
    let (sizes, rt) = start_frame-same cpb.curr dpb new in
    let (c, current, follows, numbered) =
      placed cpb before small (IsNumbered-same dpb before rt sizes n) in
    (
      c,
      current,
      Follows-same cpb.curr dpb before
          ((visited cpb before small (IsNumbered-same dpb before rt sizes n)).frames c) rt sizes
          follows,
      IsNumbered-same (visited cpb before small (IsNumbered-same dpb before rt sizes n)) _ refl
          (refl, refl, refl, refl) numbered,
    )
