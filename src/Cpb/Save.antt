-- ===== src/Cpb/Save.antt =====
-- save_cpb_status writes within its array, if the buffer is small enough, and not otherwise.
use rockchip_kmpp.Prelude.{
  ℕ, zero, suc, ◌+◌, ◌≤◌, ◌<◌, ◌≡◌, refl, ◌∙◌, arith, Bool, true, ltb, length, set, length-set,
  List, Option, none, some, replicate, Bool-cases, inl, inr, ap,
}
use rockchip_kmpp.Prelude.Maybe.{◌>>=◌, >>=-some, >>=-none}
use rockchip_kmpp.RefTypes.{FrmStatus, no_frm, CpbInfo}
use rockchip_kmpp.Cpb.{
  VirtualCpb, append_ref, save_refs, is_lt_slot, is_st_slot, st_room, save_st, save_cpb_status,
  max_cpb_frm,
}

-- The loop gives a result with no more than `most` entries.
abbrev Saves : Option (List FrmStatus × ℕ) → ℕ → Type 0
Saves r most =
    (refs : List FrmStatus) × (n : ℕ) × (r ≡ some (refs, n)) × (length refs ≡ 8) × (n ≤ most)

append_ref-lt :
    (refs : List FrmStatus) (n : ℕ) (f : FrmStatus)
    → n < length refs
    → append_ref (refs, n) f ≡ some (set refs n f, n + 1)
append_ref-lt refs n f h = ground arith

save_refs-Saves :
    (fits : FrmStatus → Bool) (arr : ℕ → FrmStatus) (left i : ℕ) (refs : List FrmStatus) (n : ℕ)
    → length refs ≡ 8
    → n + left ≤ 8
    → i + left ≤ 32
    → Saves (save_refs fits arr left i (refs, n)) (n + left)
unfolding save_refs
save_refs-Saves fits arr zero i refs n len room cells = (refs, n, refl, len, omega arith)
save_refs-Saves fits arr (suc left) i refs n len room cells = elim (Bool-cases (fits (arr i))) [
  | inl fit ↦
      let (refs', n', e, len', le) =
        save_refs-Saves fits arr left (i + 1) (set refs n (arr i)) (n + 1)
          (length-set refs n (arr i) ∙ len) (omega arith) (omega arith) in
      (
        refs',
        n',
        simp (fit, in_range, append_ref-lt refs n (arr i) (omega arith), e),
        len',
        omega arith,
      )
  | inr unfit ↦
      let (refs', n', e, len', le) =
        save_refs-Saves fits arr left (i + 1) refs n len (omega arith) (omega arith) in
      (refs', n', simp (unfit, in_range, e), len', omega arith)
]
  where
    in_range : ltb i max_cpb_frm ≡ true
    in_range = ground arith

st_room-le :
    (info : CpbInfo) (n : ℕ)
    → info.max_lt_cnt + info.max_st_cnt ≤ info.dpb_size
    → n ≤ 0 + info.max_lt_cnt
    → n + st_room info n ≤ info.dpb_size
st_room-le info n sum le = ground arith

save_st-total :
    (cpb : VirtualCpb) (refs : List FrmStatus) (n : ℕ)
    → length refs ≡ 8
    → n + st_room cpb.info n ≤ 8
    → (out : List FrmStatus) × (save_st cpb (refs, n) ≡ some out)
unfolding save_st
save_st-total cpb refs n len room =
    let (refs', _, e, _, _) =
      save_refs-Saves is_st_slot cpb.cpb_refs (st_room cpb.info n) 0 refs n len room
        (omega arith) in
    elim (Bool-cases (ltb n cpb.info.dpb_size)) [
      | inl more ↦ (refs', rw more (ap (λ r. r >>= (λ out. some out.0)) e))
      | inr done ↦ (refs, rw done refl)
    ]

-- If the size of the buffer is at least the sum of its long-term and short-term frames, and at
-- most eight, save_cpb_status writes within its array of eight.
pub save_cpb_status-total :
    (cpb : VirtualCpb)
    → cpb.info.max_lt_cnt + cpb.info.max_st_cnt ≤ cpb.info.dpb_size
    → cpb.info.dpb_size ≤ 8
    → (refs : List FrmStatus) × (save_cpb_status cpb ≡ some refs)
unfolding save_cpb_status
save_cpb_status-total cpb sum dpb =
    let (refs, n, e, len, le) =
      save_refs-Saves is_lt_slot cpb.cpb_refs cpb.info.max_lt_cnt 16 (replicate 8 no_frm) 0 refl
        (omega arith) (omega arith) in
    let within = st_room-le cpb.info n sum le in
    let (out, e') = save_st-total cpb refs n len (omega arith) in
    (out, ap (λ r. r >>= save_st cpb) e ∙ e')

-- With more fitting cells than entries the loop writes behind the array.
save_refs-overrun :
    (fits : FrmStatus → Bool) (arr : ℕ → FrmStatus) (left i : ℕ) (refs : List FrmStatus) (n : ℕ)
    → length refs ≡ 8
    → n ≤ 8
    → 8 < n + left
    → ((j : ℕ) → j < i + left → fits (arr j) ≡ true)
    → save_refs fits arr left i (refs, n) ≡ none
unfolding save_refs
save_refs-overrun fits arr zero i refs n len le many all = absurd (omega arith)
save_refs-overrun fits arr (suc left) i refs n len le many all =
    elim (Bool-cases (ltb n (length refs))) [
      | inl room ↦
          let rest =
            save_refs-overrun fits arr left (i + 1) (set refs n (arr i)) (n + 1)
              (length-set refs n (arr i) ∙ len) (ground arith) (omega arith)
              (λ j h. all j (omega arith)) in
          elim (Bool-cases (ltb i max_cpb_frm)) [
            | inl cell ↦ simp (cell, all i (omega arith), room, rest)
            | inr out ↦ simp out
          ]
      | inr full ↦ elim (Bool-cases (ltb i max_cpb_frm)) [
        | inl cell ↦ simp (cell, all i (omega arith), full)
        | inr out ↦ simp out
      ]
    ]

-- An empty first loop.
save_refs-zero :
    (fits : FrmStatus → Bool) (arr : ℕ → FrmStatus) (left : ℕ) (out : List FrmStatus × ℕ)
    → left ≡ 0
    → save_refs fits arr left 16 out ≡ some out
unfolding save_refs
save_refs-zero fits arr zero out e = refl
save_refs-zero fits arr (suc left) out e = absurd (omega arith)

-- A buffer for more than eight frames, none of them long-term and the short-term ones no more than
-- its size, that holds short-term references in its first `dpb_size` cells, makes save_cpb_status
-- write outside of its array of eight.
pub save_cpb_status-overrun :
    (cpb : VirtualCpb)
    → cpb.info.max_lt_cnt ≡ 0
    → cpb.info.max_st_cnt ≤ cpb.info.dpb_size
    → 8 < cpb.info.dpb_size
    → ((j : ℕ) → j < cpb.info.dpb_size → is_st_slot (cpb.cpb_refs j) ≡ true)
    → save_cpb_status cpb ≡ none
unfolding save_cpb_status save_st save_refs
save_cpb_status-overrun cpb lt st dpb all =
    >>=-some _
      (save_refs-zero is_lt_slot cpb.cpb_refs cpb.info.max_lt_cnt (replicate 8 no_frm, 0) lt)
      (rw some_room (
        >>=-none _ (
          save_refs-overrun is_st_slot cpb.cpb_refs (st_room cpb.info 0) 0 (replicate 8 no_frm) 0
            refl (omega arith) many (λ j h. all j (ground arith)))))
  where
    some_room : ltb 0 cpb.info.dpb_size ≡ true
    some_room = ground arith

    many : 8 < 0 + st_room cpb.info 0
    many = ground arith
