-- ===== src/H264/Dpb/Find.antt =====
-- The search for a frame, and the scan of the frames that the buffer holds.
use mathlib.Core.Bool.{true≢false}
use mathlib.Core.List.{Memᴰ}
use rockchip_kmpp.Prelude.{
  ℕ, zero, suc, ◌+◌, ◌≤◌, ◌<◌, ◌≡◌, refl, sym, ap, subst, ◌∙◌, arith, List, [], ◌∷◌, length, Bool,
  true, false, ◌==◌, ◌&&◌, ◌||◌, Bool-cases, Option, none, some, inl, inr,
}
use rockchip_kmpp.Prelude.Maybe.{some-cancel}
use rockchip_kmpp.RefTypes.{FrmStatus}
use rockchip_kmpp.H264.Dpb.{DpbFrm, find_from, find_cpb_frame, mark_used, scan_map, is_slot, in_map}
use rockchip_kmpp.H264.Dpb.Free.{used}

abbrev pub marked : DpbFrm → DpbFrm
marked f = record f { on_used = true }

-- A slot that holds the frame of the number.
abbrev pub IsAt : DpbFrm → ℕ → Type 0
IsAt f seq_idx = (f.status.valid ≡ true) × (f.status.seq_idx ≡ seq_idx)

abbrev matches : DpbFrm → ℕ → Bool
matches f seq_idx = f.status.valid && (f.status.seq_idx == seq_idx)

matches-IsAt : (f : DpbFrm) (seq_idx : ℕ) → matches f seq_idx ≡ true → IsAt f seq_idx
matches-IsAt f seq_idx e = ground arith

IsAt-matches : (f : DpbFrm) (seq_idx : ℕ) → IsAt f seq_idx → matches f seq_idx ≡ true
IsAt-matches f seq_idx at = ground (arith, at)

find_from-here :
    (cnt i : ℕ) (frms : ℕ → DpbFrm) (seq_idx : ℕ)
    → matches (frms i) seq_idx ≡ true
    → find_from (suc cnt) i frms seq_idx ≡ some i
unfolding find_from
find_from-here cnt i frms seq_idx e = rw e refl

find_from-later :
    (cnt i : ℕ) (frms : ℕ → DpbFrm) (seq_idx : ℕ)
    → matches (frms i) seq_idx ≡ false
    → find_from (suc cnt) i frms seq_idx ≡ find_from cnt (i + 1) frms seq_idx
unfolding find_from
find_from-later cnt i frms seq_idx e = rw e refl

find_from-IsAt :
    (cnt i : ℕ) (frms : ℕ → DpbFrm) (seq_idx k : ℕ)
    → find_from cnt i frms seq_idx ≡ some k
    → (k < i + cnt) × IsAt (frms k) seq_idx
unfolding find_from
find_from-IsAt zero i frms seq_idx k e = cc
find_from-IsAt (suc cnt) i frms seq_idx k e = elim (Bool-cases (matches (frms i) seq_idx)) [
  | inl here ↦
      let same : i ≡ k = some-cancel (sym (find_from-here cnt i frms seq_idx here) ∙ e) in
      (omega arith, subst (λ k. IsAt (frms k) seq_idx) same (matches-IsAt (frms i) seq_idx here))
  | inr later ↦
      let (lt, at) =
        find_from-IsAt cnt (i + 1) frms seq_idx k
          (sym (find_from-later cnt i frms seq_idx later) ∙ e) in
      (omega (arith, lt), at)
]

find_from-total :
    (cnt i : ℕ) (frms : ℕ → DpbFrm) (seq_idx k : ℕ)
    → i ≤ k
    → k < i + cnt
    → IsAt (frms k) seq_idx
    → (r : ℕ) × (find_from cnt i frms seq_idx ≡ some r)
unfolding find_from
find_from-total zero i frms seq_idx k le lt at = absurd (omega (arith, le, lt))
find_from-total (suc cnt) i frms seq_idx k le lt at = elim (Bool-cases (matches (frms i) seq_idx)) [
  | inl here ↦ (i, find_from-here cnt i frms seq_idx here)
  | inr later ↦
      let (r, e) =
        find_from-total cnt (i + 1) frms seq_idx k (behind later) (omega (arith, lt)) at in
      (r, find_from-later cnt i frms seq_idx later ∙ e)
]
  where
    behind : matches (frms i) seq_idx ≡ false → i + 1 ≤ k
    behind later = elim (Bool-cases (i == k)) [
      | inl same ↦
          let e : i ≡ k = ground arith in
          absurd (
            true≢false (
              sym (IsAt-matches (frms k) seq_idx at)
              ∙ subst (λ j. matches (frms j) seq_idx ≡ false) e later))
      | inr other ↦ ground arith
    ]

find_from-cong :
    (cnt i : ℕ) (frms frms' : ℕ → DpbFrm) (seq_idx : ℕ)
    → ((j : ℕ) → (frms' j).status ≡ (frms j).status)
    → find_from cnt i frms' seq_idx ≡ find_from cnt i frms seq_idx
unfolding find_from
find_from-cong zero i frms frms' seq_idx h = refl
find_from-cong (suc cnt) i frms frms' seq_idx h =
    rw (h i, find_from-cong cnt (i + 1) frms frms' seq_idx h) refl

mark_used-status :
    (m : Option ℕ) (frms : ℕ → DpbFrm) (j : ℕ) → (mark_used m frms j).status ≡ (frms j).status
mark_used-status none frms j = refl
mark_used-status (some i) frms j = elim (Bool-cases (i == j)) [
  | inl here ↦ let same : i ≡ j = ground arith in rw (here, same) refl
  | inr other ↦ rw other refl
]

find_cpb-cong :
    (cnt : ℕ) (frms frms' : ℕ → DpbFrm) (frm : FrmStatus)
    → ((j : ℕ) → (frms' j).status ≡ (frms j).status)
    → find_cpb_frame frms' cnt frm ≡ find_cpb_frame frms cnt frm
unfolding find_cpb_frame
find_cpb-cong cnt frms frms' frm h = rw (find_from-cong cnt 0 frms frms' frm.seq_idx h) refl

pub find_cpb-IsAt :
    (cnt : ℕ) (frms : ℕ → DpbFrm) (frm : FrmStatus) (k : ℕ)
    → find_cpb_frame frms cnt frm ≡ some k
    → (k < cnt) × (frm.valid ≡ true) × IsAt (frms k) frm.seq_idx
unfolding find_cpb_frame
find_cpb-IsAt cnt frms frm k e = elim (Bool-cases frm.valid) [
  | inl valid ↦
      let (lt, at) = find_from-IsAt cnt 0 frms frm.seq_idx k (rw valid at e) in
      (omega (arith, lt), valid, at)
  | inr off ↦ cc
]

pub find_cpb-total :
    (cnt : ℕ) (frms : ℕ → DpbFrm) (frm : FrmStatus) (k : ℕ)
    → k < cnt
    → frm.valid ≡ true
    → IsAt (frms k) frm.seq_idx
    → (r : ℕ) × (find_cpb_frame frms cnt frm ≡ some r)
unfolding find_cpb_frame
find_cpb-total cnt frms frm k lt valid at =
    let (r, e) = find_from-total cnt 0 frms frm.seq_idx k (omega arith) (omega (arith, lt)) at in
    (r, rw valid e)

mark_used-here : (i : ℕ) (frms : ℕ → DpbFrm) → mark_used (some i) frms i ≡ marked (frms i)
mark_used-here i frms = let e : (i == i) ≡ true = ground arith in rw e refl

mark_used-marked :
    (m : Option ℕ) (frms : ℕ → DpbFrm) (j : ℕ) → marked (mark_used m frms j) ≡ marked (frms j)
mark_used-marked none frms j = refl
mark_used-marked (some i) frms j = elim (Bool-cases (i == j)) [
  | inl here ↦ let same : i ≡ j = ground arith in rw (here, same) refl
  | inr other ↦ rw other refl
]

mark_used-keeps :
    (m : Option ℕ) (frms : ℕ → DpbFrm) (j : ℕ)
    → marked (frms j) ≡ frms j
    → mark_used m frms j ≡ marked (frms j)
mark_used-keeps none frms j e = sym e
mark_used-keeps (some i) frms j e = elim (Bool-cases (i == j)) [
  | inl here ↦ let same : i ≡ j = ground arith in rw (here, same) refl
  | inr other ↦ rw other (sym e)
]

pub used-scan :
    (cnt : ℕ) (frms : ℕ → DpbFrm) (init : List FrmStatus)
    → used (scan_map cnt frms init).0 ≤ length init
unfolding scan_map
used-scan cnt frms [] = omega arith
used-scan cnt frms (frm ∷ init) =
    ground (arith, used-scan cnt (mark_used (find_cpb_frame frms cnt frm) frms) init)

scan-keeps :
    (cnt : ℕ) (frms : ℕ → DpbFrm) (init : List FrmStatus) (j : ℕ)
    → marked (frms j) ≡ frms j
    → (scan_map cnt frms init).1 j ≡ marked (frms j)
unfolding scan_map
scan-keeps cnt frms [] j e = sym e
scan-keeps cnt frms (frm ∷ init) j e =
    let found = find_cpb_frame frms cnt frm in
    let frms' = mark_used found frms in
    scan-keeps cnt frms' init j
      (mark_used-marked found frms j ∙ sym (mark_used-keeps found frms j e))
    ∙ mark_used-marked found frms j

is_slot-some : (j : ℕ) (m : Option ℕ) → is_slot j m ≡ true → m ≡ some j
is_slot-some j none e = cc
is_slot-some j (some i) e = let same : i ≡ j = ground arith in rw same refl

some-is_slot : (j : ℕ) (m : Option ℕ) → m ≡ some j → is_slot j m ≡ true
some-is_slot j m e = rw e (let same : (j == j) ≡ true = ground arith in same)

mark_used-found :
    (m : Option ℕ) (frms : ℕ → DpbFrm) (j : ℕ) → m ≡ some j → mark_used m frms j ≡ marked (frms j)
mark_used-found m frms j e =
    subst (λ o. mark_used o frms j ≡ marked (frms j)) (sym e) (mark_used-here j frms)

-- A frame of the buffer that has a slot keeps it, in use.
pub scan-found :
    (cnt : ℕ) (frms : ℕ → DpbFrm) (init : List FrmStatus) (frm : FrmStatus) (j : ℕ)
    → Memᴰ frm init
    → find_cpb_frame frms cnt frm ≡ some j
    → ((scan_map cnt frms init).1 j ≡ marked (frms j))
      × (in_map j (scan_map cnt frms init).0 ≡ true)
unfolding scan_map
scan-found cnt frms [] frm j m e = elim m [ ]
scan-found cnt frms (x ∷ init) frm j (Memᴰ.head q) e =
    let found = find_cpb_frame frms cnt x in
    let at : found ≡ some j = ap (λ y. find_cpb_frame frms cnt y) (sym q) ∙ e in
    let frms' = mark_used found frms in
    let here = mark_used-found found frms j at in
    (
      scan-keeps cnt frms' init j (mark_used-marked found frms j ∙ sym here)
          ∙ mark_used-marked found frms j,
      rw (some-is_slot j found at) refl,
    )
scan-found cnt frms (x ∷ init) frm j (Memᴰ.tail m) e =
    let found = find_cpb_frame frms cnt x in
    let frms' = mark_used found frms in
    let (kept, at) =
      scan-found cnt frms' init frm j m
        (find_cpb-cong cnt frms frms' frm (mark_used-status found frms) ∙ e) in
    (kept ∙ mark_used-marked found frms j, rw at (ground arith))

or-right : (a b : Bool) → a ≡ false → (a || b) ≡ true → b ≡ true
or-right a b h e = ground (arith, h, e)

-- What the map holds is the slot of a frame of the buffer.
pub scan-back :
    (cnt : ℕ) (frms : ℕ → DpbFrm) (init : List FrmStatus) (j : ℕ)
    → in_map j (scan_map cnt frms init).0 ≡ true
    → (frm : FrmStatus) × Memᴰ frm init × (find_cpb_frame frms cnt frm ≡ some j)
unfolding scan_map
scan-back cnt frms [] j e = absurd (true≢false (sym e))
scan-back cnt frms (x ∷ init) j e =
    let found = find_cpb_frame frms cnt x in
    let frms' = mark_used found frms in
    elim (Bool-cases (is_slot j found)) [
      | inl here ↦ (x, Memᴰ.head refl, is_slot-some j found here)
      | inr later ↦
          let (frm, m, at) = scan-back cnt frms' init j (behind later) in
          (
            frm,
            Memᴰ.tail m,
            sym (find_cpb-cong cnt frms frms' frm (mark_used-status found frms)) ∙ at,
          )
    ]
  where
    behind :
        is_slot j (find_cpb_frame frms cnt x) ≡ false
        → in_map j (scan_map cnt (mark_used (find_cpb_frame frms cnt x) frms) init).0 ≡ true
    behind later = or-right _ _ later e
