-- ===== src/H264/Dpb/Slots.antt =====
-- The loop over the slots: the first free one is taken, the free ones behind it are released.
use rockchip_kmpp.Prelude.{
  ℕ, zero, suc, ◌+◌, ◌≤◌, ◌<◌, ◌≡◌, refl, sym, subst, ◌∙◌, arith, true, false, ◌==◌, Bool-cases,
  none, some, inl, inr,
}
use rockchip_kmpp.RefTypes.{FrmStatus}
use rockchip_kmpp.H264.Dpb.{
  Dpb, set_slot, in_map, is_found, release, take_slot, visit_slot, visit_slots,
}
use rockchip_kmpp.H264.Dpb.Free.{IsFree, apart}

-- The sizes that a set-up gives are the same.
abbrev pub HasSizes : Dpb → Dpb → Type 0
HasSizes d e =
    (e.total_cnt ≡ d.total_cnt)
    × (e.max_frm_num ≡ d.max_frm_num)
    × (e.max_poc_lsb ≡ d.max_poc_lsb)
    × (e.poc_type ≡ d.poc_type)

module _ (curr : FrmStatus) where
  visit_slot-map : (i : ℕ) (d : Dpb) → (visit_slot i curr d).map ≡ d.map
  unfolding visit_slot take_slot
  visit_slot-map i d = ground arith

  pub visit_slot-sizes : (i : ℕ) (d : Dpb) → HasSizes d (visit_slot i curr d)
  unfolding visit_slot take_slot
  visit_slot-sizes i d = elim (Bool-cases (in_map i d.map)) [
    | inl taken ↦ rw taken (refl, refl, refl, refl)
    | inr free ↦ elim (Bool-cases (is_found d.curr)) [
      | inl found ↦ rw (free, found) (refl, refl, refl, refl)
      | inr fresh ↦ rw (free, fresh) (refl, refl, refl, refl)
    ]
  ]

  pub visit_slots-sizes : (cnt i : ℕ) (d : Dpb) → HasSizes d (visit_slots cnt i curr d)
  unfolding visit_slots
  visit_slots-sizes zero i d = (refl, refl, refl, refl)
  visit_slots-sizes (suc cnt) i d =
      let (t, n, p, k) = visit_slot-sizes i d in
      let (t', n', p', k') = visit_slots-sizes cnt (i + 1) (visit_slot i curr d) in
      (t' ∙ t, n' ∙ n, p' ∙ p, k' ∙ k)

  visit_slot-kept :
      (i j : ℕ) (d : Dpb) → in_map j d.map ≡ true → (visit_slot i curr d).frames j ≡ d.frames j
  unfolding visit_slot take_slot
  visit_slot-kept i j d h = elim (Bool-cases (in_map i d.map)) [
    | inl taken ↦ rw taken refl
    | inr free ↦
        let other = apart d.map i j free h in
        elim (Bool-cases (is_found d.curr)) [
          | inl found ↦ rw (free, found, other) refl
          | inr fresh ↦ rw (free, fresh, other) refl
        ]
  ]

  -- The slots of the buffer keep their frames.
  pub visit_slots-kept :
      (cnt i j : ℕ) (d : Dpb)
      → in_map j d.map ≡ true
      → (visit_slots cnt i curr d).frames j ≡ d.frames j
  unfolding visit_slots
  visit_slots-kept zero i j d h = refl
  visit_slots-kept (suc cnt) i j d h =
      visit_slots-kept cnt (i + 1) j (visit_slot i curr d) (rw (visit_slot-map i d) h)
      ∙ visit_slot-kept i j d h

  visit_slot-taken : (i : ℕ) (d : Dpb) → in_map i d.map ≡ true → visit_slot i curr d ≡ d
  unfolding visit_slot
  visit_slot-taken i d h = rw h refl

  visit_slot-free :
      (i : ℕ) (d : Dpb)
      → in_map i d.map ≡ false
      → d.curr ≡ none
      → visit_slot i curr d ≡ take_slot i curr d
  unfolding visit_slot
  visit_slot-free i d h e = rw (h, e) refl

  visit_slot-release :
      (i c : ℕ) (d : Dpb)
      → in_map i d.map ≡ false
      → d.curr ≡ some c
      → visit_slot i curr d ≡ record d { frames = set_slot d.frames i (release (d.frames i)) }
  unfolding visit_slot
  visit_slot-release i c d h e = rw (h, e) refl

  -- With a current slot it stays, and so do the slots that have been visited.
  visit_slot-stays :
      (i c j : ℕ) (d : Dpb)
      → d.curr ≡ some c
      → j < i
      → ((visit_slot i curr d).curr ≡ some c)
        × ((visit_slot i curr d).frames j ≡ d.frames j)
        × ((visit_slot i curr d).rt ≡ d.rt)
  visit_slot-stays i c j d e lt = elim (Bool-cases (in_map i d.map)) [
    | inl taken ↦ rw (visit_slot-taken i d taken) (e, refl, refl)
    | inr free ↦
        let other : (i == j) ≡ false = ground arith in
        rw (visit_slot-release i c d free e, other) (e, refl, refl)
  ]

  pub visit_slots-stays :
      (cnt i c j : ℕ) (d : Dpb)
      → d.curr ≡ some c
      → j < i
      → ((visit_slots cnt i curr d).curr ≡ some c)
        × ((visit_slots cnt i curr d).frames j ≡ d.frames j)
        × ((visit_slots cnt i curr d).rt ≡ d.rt)
  unfolding visit_slots
  visit_slots-stays zero i c j d e lt = (e, refl, refl)
  visit_slots-stays (suc cnt) i c j d e lt =
      let (same, kept, rt) = visit_slot-stays i c j d e lt in
      let (same', kept', rt') =
        visit_slots-stays cnt (i + 1) c j (visit_slot i curr d) same (omega arith) in
      (same', kept' ∙ kept, rt' ∙ rt)

  visit_slot-current : (i c : ℕ) (d : Dpb) → d.curr ≡ some c → (visit_slot i curr d).curr ≡ some c
  visit_slot-current i c d e = elim (Bool-cases (in_map i d.map)) [
    | inl taken ↦ rw (visit_slot-taken i d taken) e
    | inr free ↦ rw (visit_slot-release i c d free e) e
  ]

  -- The slots behind the current one that are free are released.
  visit_slots-behind :
      (cnt i c j : ℕ) (d : Dpb)
      → d.curr ≡ some c
      → i ≤ j
      → j < i + cnt
      → in_map j d.map ≡ false
      → ((visit_slots cnt i curr d).frames j).status.valid ≡ false
  unfolding visit_slots
  visit_slots-behind zero i c j d e le lt free = absurd (omega (arith, le, lt))
  visit_slots-behind (suc cnt) i c j d e le lt free = elim (Bool-cases (i == j)) [
    | inl here ↦
        let same : i ≡ j = ground arith in
        let released : ((visit_slot i curr d).frames j).status.valid ≡ false =
          rw (visit_slot-release i c d (rw same free) e, here) refl in
        let (_, kept, _) =
          visit_slots-stays cnt (i + 1) c j (visit_slot i curr d) (visit_slot-current i c d e)
            (omega (arith, same)) in
        rw kept released
    | inr later ↦
        visit_slots-behind cnt (i + 1) c j (visit_slot i curr d) (visit_slot-current i c d e)
          (ground arith) (omega arith) (rw (visit_slot-map i d) free)
  ]

  -- What the loop comes to, on slots below `end`: `c` is current, what is free behind it is released.
  pub record Visited (d e : Dpb) (c end : ℕ) : Type 0 where
    pub current : e.curr ≡ some c
    pub held : e.frames c ≡ (take_slot c curr d).frames c
    pub runtime : e.rt ≡ (take_slot c curr d).rt
    pub behind :
        (j : ℕ) → c < j → j < end → in_map j d.map ≡ false → (e.frames j).status.valid ≡ false

  visit_slots-here :
      (cnt i : ℕ) (d : Dpb)
      → d.curr ≡ none
      → in_map i d.map ≡ false
      → Visited d (visit_slots (suc cnt) i curr d) i (i + suc cnt)
  unfolding visit_slots take_slot
  visit_slots-here cnt i d e free =
      subst (λ v. Visited d (visit_slots cnt (i + 1) curr v) i (i + suc cnt))
        (sym (visit_slot-free i d free e))
        (let taken = take_slot i curr d in
          let (current, held, runtime) =
            visit_slots-stays cnt (i + 1) i i taken refl (omega arith) in
          record {
            current = current;
            held = held;
            runtime = runtime;
            behind = λ j lt end free_j.
                visit_slots-behind cnt (i + 1) i j taken refl (omega (arith, lt))
                  (omega (arith, end)) free_j;
          })

  -- The first free slot becomes the current one, and the free ones behind it are released.
  pub visit_slots-Visited :
      (cnt i c : ℕ) (d : Dpb)
      → d.curr ≡ none
      → IsFree d.map c
      → i ≤ c
      → c < i + cnt
      → Visited d (visit_slots cnt i curr d) c (i + cnt)
  unfolding visit_slots
  visit_slots-Visited zero i c d e free le lt = absurd (omega (arith, le, lt))
  visit_slots-Visited (suc cnt) i c d e free le lt = elim (Bool-cases (i == c)) [
    | inl here ↦
        let same : i ≡ c = ground arith in
        subst (λ k. Visited d (visit_slots (suc cnt) i curr d) k (i + suc cnt)) same
          (visit_slots-here cnt i d e (rw same free.free))
    | inr later ↦
        let rest = visit_slots-Visited cnt (i + 1) c d e free (ground arith) (omega arith) in
        subst (λ v. Visited d (visit_slots cnt (i + 1) curr v) c (i + suc cnt))
          (sym (visit_slot-taken i d (free.first i (ground arith))))
          (record {
            current = rest.current;
            held = rest.held;
            runtime = rest.runtime;
            behind = λ j h k free_j. rest.behind j h (omega (arith, k)) free_j;
          })
  ]
