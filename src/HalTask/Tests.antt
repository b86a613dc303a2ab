-- ===== src/HalTask/Tests.antt =====
-- Runs of a group of tasks.
use rockchip_kmpp.Prelude.{ℕ, ◌≡◌, refl, arith, [], ◌∷◌}
use rockchip_kmpp.HalTask.{idle, processing, HalTaskGroup, group_init, hnd_set_status}
use rockchip_kmpp.HalTask.Partition.{
  IsPartition, group_init-IsPartition, hnd_set_status-IsPartition,
}

-- Three tasks, whose information is a number, and the second at work.
abbrev fresh : HalTaskGroup ℕ
fresh = group_init 3 0

abbrev busy : HalTaskGroup ℕ
busy = hnd_set_status fresh 1 processing

busy_lists : (busy.list idle ≡ 0 ∷ 2 ∷ []) × (busy.list processing ≡ 1 ∷ []) × (busy.count idle ≡ 2)
unfolding group_init hnd_set_status
busy_lists = (refl, refl, refl)

fresh_count : fresh.task_count ≡ 3
unfolding group_init
fresh_count = refl

fresh-IsPartition : IsPartition fresh
fresh-IsPartition = group_init-IsPartition 3 0 (omega arith)

hnd_set_status-IsPartition_example : IsPartition busy × (busy.status 1 ≡ processing)
hnd_set_status-IsPartition_example =
    hnd_set_status-IsPartition fresh 1 processing fresh-IsPartition (omega (arith, fresh_count))
