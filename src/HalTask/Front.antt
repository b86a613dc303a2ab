-- ===== src/HalTask/Front.antt =====
-- What hal_task_get_hnd and hal_task_check_empty find.
use rockchip_kmpp.Prelude.{
  ℕ, ◌≤◌, ◌<◌, ◌≡◌, refl, ap, ◌∙◌, arith, true, List, [], ◌∷◌, Option, none, some, length, ltb,
  Bool-cases, inl, inr,
}
use rockchip_kmpp.Prelude.Ret.{Ret, ok, nok}
use rockchip_kmpp.HalTask.{
  HalTaskStatus, idle, processing, proc_done, HalTaskGroup, eq_status, get_hnd,
}
use rockchip_kmpp.HalTask.Partition.{IsPartition}
use rockchip_kmpp.Links.{occurs}

eq_status-eq : (s t : HalTaskStatus) → eq_status s t ≡ true → t ≡ s
eq_status-eq idle idle e = refl
eq_status-eq idle processing e = cc
eq_status-eq idle proc_done e = cc
eq_status-eq processing idle e = cc
eq_status-eq processing processing e = refl
eq_status-eq processing proc_done e = cc
eq_status-eq proc_done idle e = cc
eq_status-eq proc_done processing e = cc
eq_status-eq proc_done proc_done e = refl

module _ {I : Type 0} (p : HalTaskGroup I) (v : IsPartition p) (s : HalTaskStatus) where
  -- A task in a list is one of the group, with the list's status.
  member : (i : ℕ) → 1 ≤ occurs i (p.list s) → (i < p.task_count) × (p.status i ≡ s)
  member i h = elim (Bool-cases (ltb i p.task_count)) [
    | inl e ↦
        let l : i < p.task_count = ground arith in
        let here : eq_status s (p.status i) ≡ true = ground (arith, v.home i s l) in
        (l, eq_status-eq s (p.status i) here)
    | inr e ↦
        let far : p.task_count ≤ i = ground arith in absurd (omega (arith, v.stranger i s far))
  ]

-- What a front task is.
abbrev pub Found : {I : Type 0} → HalTaskGroup I → HalTaskStatus → Ret × Option ℕ → Type 0
Found p s (ret, none) = (ret ≡ nok) × (p.count s ≡ 0)
Found p s (ret, some i) = (ret ≡ ok) × (i < p.task_count) × (p.status i ≡ s)

-- On a group whose tasks stand once in the list of their status and in no other, with the lengths
-- as counts, hal_task_get_hnd gives a task of the group that has the wanted status, or an error if
-- the count of that status is 0.
get_hnd-Found :
    {I : Type 0} (p : HalTaskGroup I) (s : HalTaskStatus) → IsPartition p → Found p s (get_hnd p s)
unfolding get_hnd
get_hnd-Found p s v = go (p.list s) refl
  where
    go :
        (xs : List ℕ)
        → p.list s ≡ xs
        → Found p s (elim xs as (λ _. Ret × Option ℕ) [ [] ↦ (nok, none) | i ∷ _ ↦ (ok, some i) ])
    go [] e = (refl, v.counted s ∙ ap length e)
    go (i ∷ xs) e =
        let stands = ap (occurs i) e in
        let (l, same) = member p v s i (ground arith) in (refl, l, same)
