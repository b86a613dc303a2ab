-- ===== src/HalTask.antt =====
-- vcodec/mpp/hal/hal_task.c: the tasks that the codec and the hardware layer hand to each other. A
-- task is its index in the array. The lists of the group are lists of indices, the front first. The
-- lock makes each call one step. A failed allocation and a null argument are left out.
pub mod Partition
pub mod Front
pub mod Tests
use rockchip_kmpp.Prelude.{
  ℕ, zero, suc, ◌+◌, ◌-◌, ◌^◌, Bool, true, false, ◌==◌, if◌then◌else◌, List, [], ◌∷◌, ◌++◌, Option,
  none, some, length,
}
use rockchip_kmpp.Links.{list_del}
use rockchip_kmpp.Prelude.Word.{u32}
use rockchip_kmpp.Prelude.Ret.{Ret, ok, nok}

-- HalTaskStatus
pub data HalTaskStatus : Type 0 where
  idle processing proc_done : HalTaskStatus

abbrev pub eq_status : HalTaskStatus → HalTaskStatus → Bool
eq_status idle idle = true
eq_status processing processing = true
eq_status proc_done proc_done = true
eq_status _ _ = false

-- HalTaskGroupImpl, with the status and the information of each task. `I` is HalTaskInfo, which the
-- group only copies.
pub record HalTaskGroup (I : Type 0) : Type 0 where
  pub task_count : ℕ
  pub status : ℕ → HalTaskStatus
  pub task : ℕ → I
  pub list : HalTaskStatus → List ℕ
  pub count : HalTaskStatus → ℕ

-- list_add_tail for the tasks from `i` on, in hal_task_group_init.
abbrev pub indices : ℕ → ℕ → List ℕ
indices zero i = []
indices (suc left) i = i ∷ indices left (i + 1)

module _ {I : Type 0} where
  -- hal_task_group_init
  unfoldable pub group_init : ℕ → I → HalTaskGroup I
  group_init task_count cleared = record {
    task_count = task_count;
    status = λ _. idle;
    task = λ _. cleared;
    list = λ s. if eq_status s idle then indices task_count 0 else [];
    count = λ s. if eq_status s idle then u32 task_count else 0;
  }

  -- hal_task_get_hnd: the front of the list, which stays there.
  unfoldable pub get_hnd : HalTaskGroup I → HalTaskStatus → Ret × Option ℕ
  get_hnd p status = elim (p.list status) [ [] ↦ (nok, none) | i ∷ _ ↦ (ok, some i) ]

  -- hal_task_check_empty, hal_task_get_count
  unfoldable pub check_empty : HalTaskGroup I → HalTaskStatus → Ret
  check_empty p status = elim (p.list status) [ [] ↦ ok | _ ∷ _ ↦ nok ]

  unfoldable pub get_count : HalTaskGroup I → HalTaskStatus → ℕ
  get_count p status = p.count status

  -- hal_task_hnd_set_status: list_del_init takes the task out of the list that links it, whichever
  -- it is.
  unfoldable pub hnd_set_status : HalTaskGroup I → ℕ → HalTaskStatus → HalTaskGroup I
  hnd_set_status p i status =
      let old = p.status i in
      let deleted : HalTaskStatus → List ℕ = λ s. list_del i (p.list s) in
      let less : HalTaskStatus → ℕ =
        λ s. if eq_status s old then u32 (p.count s + 2 ^ 32 - 1) else p.count s in
      record p {
        list = λ s. if eq_status s status then deleted s ++ (i ∷ []) else deleted s;
        count = λ s. if eq_status s status then u32 (less s + 1) else less s;
        status = λ j. if j == i then status else p.status j;
      }

  -- hal_task_hnd_set_info, hal_task_hnd_get_info
  unfoldable pub hnd_set_info : HalTaskGroup I → ℕ → I → HalTaskGroup I
  hnd_set_info p i task = record p { task = λ j. if j == i then task else p.task j }

  unfoldable pub hnd_get_info : HalTaskGroup I → ℕ → I
  hnd_get_info p i = p.task i
