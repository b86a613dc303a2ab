-- ===== src/HalTask/Partition.antt =====
-- Every task stands once in the list of its status and in no other, and the counts are the lengths.
use mathlib.Core.Path.{subst}
use rockchip_kmpp.Prelude.{
  ℕ, zero, suc, ◌+◌, ◌-◌, ◌^◌, ◌≤◌, ◌<◌, ◌≡◌, refl, ap, ◌∙◌, arith, Bool, true, false, ◌==◌,
  if◌then◌else◌, List, [], ◌∷◌, ◌++◌, length, length-append, Bool-cases, inl, inr, ltb,
}
use rockchip_kmpp.Links.{
  list_del, occurs, occurs-append, occurs-del_self, occurs-del_other, length-del,
}
use rockchip_kmpp.Prelude.Word.{u32}
use rockchip_kmpp.HalTask.{
  HalTaskStatus, idle, processing, proc_done, HalTaskGroup, eq_status, indices, group_init,
  hnd_set_status,
}

abbrev pub mark : Bool → ℕ
mark b = if b then 1 else 0

occurs-indices :
    (left i j : ℕ) → occurs j (indices left i) ≡ (if ltb j i then 0 else mark (ltb j (i + left)))
occurs-indices zero i j = ground arith
occurs-indices (suc left) i j = ground (arith, occurs-indices left (i + 1) j)

length-indices : (left i : ℕ) → length (indices left i) ≡ left
length-indices zero i = refl
length-indices (suc left) i = ap suc (length-indices left (i + 1))

eq_status_sym : (s t : HalTaskStatus) → eq_status s t ≡ eq_status t s
eq_status_sym idle idle = refl
eq_status_sym idle processing = refl
eq_status_sym idle proc_done = refl
eq_status_sym processing idle = refl
eq_status_sym processing processing = refl
eq_status_sym processing proc_done = refl
eq_status_sym proc_done idle = refl
eq_status_sym proc_done processing = refl
eq_status_sym proc_done proc_done = refl

module _ {I : Type 0} where
  pub record IsPartition (p : HalTaskGroup I) : Type 0 where
    pub few : p.task_count < 2 ^ 31
    pub home :
        (i : ℕ) (s : HalTaskStatus)
        → i < p.task_count
        → occurs i (p.list s) ≡ mark (eq_status s (p.status i))
    pub stranger : (i : ℕ) (s : HalTaskStatus) → p.task_count ≤ i → occurs i (p.list s) ≡ 0
    pub counted : (s : HalTaskStatus) → p.count s ≡ length (p.list s)
    pub whole :
        length (p.list idle) + length (p.list processing) + length (p.list proc_done) ≡ p.task_count

  -- hal_task_group_init for less than 2 ^ 31 tasks makes a group whose tasks stand once in the
  -- list of their status and in no other, with the lengths as counts.
  pub group_init-IsPartition :
      (n : ℕ) (cleared : I) → n < 2 ^ 31 → IsPartition (group_init n cleared)
  unfolding group_init
  group_init-IsPartition n cleared few = record {
    few = few;
    home = λ i s l. homes i s l;
    stranger = λ i s l. strangers i s l;
    counted = counts;
    whole = omega (arith, length-indices n 0);
  }
    where
      homes :
          (i : ℕ) (s : HalTaskStatus)
          → i < n
          → occurs i (if eq_status s idle then indices n 0 else []) ≡ mark (eq_status s idle)
      homes i idle l = ground (arith, occurs-indices n 0 i)
      homes i processing l = refl
      homes i proc_done l = refl

      strangers :
          (i : ℕ) (s : HalTaskStatus)
          → n ≤ i
          → occurs i (if eq_status s idle then indices n 0 else []) ≡ 0
      strangers i idle l = ground (arith, occurs-indices n 0 i)
      strangers i processing l = refl
      strangers i proc_done l = refl

      counts :
          (s : HalTaskStatus)
          → (if eq_status s idle then u32 n else 0)
            ≡ length (if eq_status s idle then indices n 0 else [])
      counts idle = omega (arith, length-indices n 0)
      counts processing = refl
      counts proc_done = refl

-- A list without a task, and with it at the end if it is the one to go to.
module _ {I : Type 0} (p : HalTaskGroup I) (i : ℕ) (to : HalTaskStatus) (v : IsPartition p)
    (l : i < p.task_count) where
  moved : HalTaskStatus → List ℕ
  moved s = if eq_status s to then list_del i (p.list s) ++ (i ∷ []) else list_del i (p.list s)

  length-moved :
      (s : HalTaskStatus)
      → length (moved s) + mark (eq_status s (p.status i))
        ≡ length (p.list s) + mark (eq_status s to)
  unfolding moved
  length-moved s =
      ground (
        arith,
        length-del i (p.list s),
        v.home i s l,
        length-append (list_del i (p.list s)) (i ∷ []),
      )

  occurs-moved_self : (s : HalTaskStatus) → occurs i (moved s) ≡ mark (eq_status s to)
  unfolding moved
  occurs-moved_self s = ground (
    arith,
    occurs-del_self i (p.list s),
    v.home i s l,
    occurs-append i (list_del i (p.list s)) (i ∷ []),
  )

  occurs-moved_other :
      (j : ℕ) (s : HalTaskStatus) → (i == j) ≡ false → occurs j (moved s) ≡ occurs j (p.list s)
  unfolding moved
  occurs-moved_other j s ne =
      ground (
        arith,
        occurs-del_other i j (p.list s) ne,
        occurs-append j (list_del i (p.list s)) (i ∷ []),
      )

  moved-whole :
      length (moved idle) + length (moved processing) + length (moved proc_done) ≡ p.task_count
  moved-whole =
      go (p.status i) to (length-moved idle) (length-moved processing) (length-moved proc_done)
    where
      go :
          (old new : HalTaskStatus)
          → length (moved idle) + mark (eq_status idle old)
            ≡ length (p.list idle) + mark (eq_status idle new)
          → length (moved processing) + mark (eq_status processing old)
            ≡ length (p.list processing) + mark (eq_status processing new)
          → length (moved proc_done) + mark (eq_status proc_done old)
            ≡ length (p.list proc_done) + mark (eq_status proc_done new)
          → length (moved idle) + length (moved processing) + length (moved proc_done)
            ≡ p.task_count
      go idle idle a b c = omega (arith, v.whole)
      go idle processing a b c = omega (arith, v.whole)
      go idle proc_done a b c = omega (arith, v.whole)
      go processing idle a b c = omega (arith, v.whole)
      go processing processing a b c = omega (arith, v.whole)
      go processing proc_done a b c = omega (arith, v.whole)
      go proc_done idle a b c = omega (arith, v.whole)
      go proc_done processing a b c = omega (arith, v.whole)
      go proc_done proc_done a b c = omega (arith, v.whole)

  length-le : (s : HalTaskStatus) → length (p.list s) ≤ p.task_count
  length-le idle = omega (arith, v.whole)
  length-le processing = omega (arith, v.whole)
  length-le proc_done = omega (arith, v.whole)

  moved_count :
      (s : HalTaskStatus)
      → (let less = if eq_status s (p.status i) then u32 (p.count s + 2 ^ 32 - 1) else p.count s in
          if eq_status s to then u32 (less + 1) else less)
        ≡ length (moved s)
  moved_count s =
      let len = length-moved s in let le = length-le s in ground (arith, v.counted s, v.few)

  -- On a group whose tasks stand once in the list of their status and in no other, with the lengths
  -- as counts, hal_task_hnd_set_status of one of its tasks keeps all of that, and the task has the
  -- new status.
  pub hnd_set_status-IsPartition :
      IsPartition (hnd_set_status p i to) × ((hnd_set_status p i to).status i ≡ to)
  unfolding hnd_set_status moved
  hnd_set_status-IsPartition = (
    record {
      few = v.few;
      home = homes;
      stranger = λ j s h. occurs-moved_other j s (ground arith) ∙ v.stranger j s h;
      counted = moved_count;
      whole = moved-whole;
    },
    ground arith,
  )
    where
      self : (i == i) ≡ true
      self = ground arith

      homes :
          (j : ℕ) (s : HalTaskStatus)
          → j < p.task_count
          → occurs j (moved s) ≡ mark (eq_status s (if j == i then to else p.status j))
      homes j s h = elim (Bool-cases (i == j)) [
        | inl e ↦
            let same : i ≡ j = ground arith in
            subst (λ k. occurs k (moved s) ≡ mark (eq_status s (if k == i then to else p.status k)))
              same (rw self (occurs-moved_self s))
        | inr e ↦
            let other : (j == i) ≡ false = ground arith in
            rw other (occurs-moved_other j s e ∙ v.home j s h)
      ]
