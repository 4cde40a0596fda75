-- ===== src/Schedule/Tests.antt =====
-- src/arch/x86_64/task/schedule.c: a processor whose list, at 100, holds the task at 8; the task at 24
-- runs, and the task at 40 idles.
use clay_figure_kernel.Base.{ℕ, ◌<◌, ◌≡◌, ◌≢◌, refl, arith, [], ◌∷◌, done, mul64, add64}
use clay_figure_kernel.Klist.{null}
use clay_figure_kernel.Klist.Chain.{Apart}
use clay_figure_kernel.Klist.Ops.{ends}
use clay_figure_kernel.Klist.Samples.{one_node, ne, one_node-IsList}
use clay_figure_kernel.Schedule.{
  ready, Scheduler, weight, idle_priority, task_list_insert, get_next_task, task_update,
}
use clay_figure_kernel.Schedule.Order.{InWindow, AllInWindow, IsSorted, NotBefore}
use clay_figure_kernel.Schedule.Insert.{weights, IsReady, Wakes, task_list_insert-Wakes}
use clay_figure_kernel.Schedule.Next.{chosen, Chosen, get_next_task-Chosen}
use clay_figure_kernel.Schedule.Times.{scaled_time, NotAfter, Ticked, task_update-Ticked}

abbrev behind : ℕ → ℕ
behind _ = 1

abbrev sample : Scheduler
sample = record {
  nodes = one_node;
  tasks = record { status = λ _. ready; priority = λ _. 20; run_time = λ _. 6; vrun_time = λ _. 5 };
  man = record {
    task_list = 100;
    min_vrun_time = 5;
    running_tasks = 1;
    total_weight = 1024;
    idle_task = 40;
  };
}

sample-IsReady : IsReady 0 behind sample (8 ∷ [])
unfolding AllInWindow IsSorted NotBefore weights weight
sample-IsReady = record {
  linked = one_node-IsList;
  window = ((omega arith), tt);
  sorted = (tt, tt);
  count = refl;
  sum = refl;
}

outside : (x : ℕ) → x ≢ 0 → x ≢ 100 → x ≢ 8 → x ≢ 116 → Apart x (null ∷ ends 100 (8 ∷ []))
unfolding Apart
outside x a b c d = (a, (b, (c, (d, tt))))

idle_outside : Apart 40 (null ∷ ends 100 [])
unfolding Apart
idle_outside = (ne 40 0 refl, (ne 40 100 refl, (ne 40 116 refl, tt)))

not_listed : Apart 24 (8 ∷ [])
unfolding Apart
not_listed = (ne 24 8 refl, tt)

in_window : AllInWindow 0 sample.tasks.vrun_time (8 ∷ [])
unfolding AllInWindow
in_window = (omega arith, tt)

none_after : NotAfter 0 sample.tasks.vrun_time 5 (8 ∷ [])
unfolding NotAfter
none_after = (omega arith, tt)

weight_pos : 0 < weight behind 20
unfolding weight
weight_pos = omega arith

scaled-InWindow : InWindow 0 (scaled_time behind sample 24)
unfolding weight mul64 add64
scaled-InWindow = omega arith

-- The idle task's priority has no entry in the table.
idle_weight : weight behind idle_priority ≡ 1
unfolding weight
idle_weight = refl

task_list_insert_example : Wakes 0 behind sample 24 (8 ∷ []) (task_list_insert behind sample 24 2)
task_list_insert_example =
    task_list_insert-Wakes 0 behind sample 24 (8 ∷ []) 2 sample-IsReady
      (outside 24 (ne 24 0 refl) (ne 24 100 refl) (ne 24 8 refl) (ne 24 116 refl)) (omega arith)
      (omega arith)

get_next_task_example :
    (s' : Scheduler) × (get_next_task behind sample 2 ≡ done (chosen 40 (8 ∷ []), s'))
    × Chosen 0 behind sample (8 ∷ []) s'
get_next_task_example =
    get_next_task-Chosen 0 behind sample (8 ∷ []) 2 sample-IsReady idle_outside (omega arith)
      (omega arith)

task_update_example : Ticked 0 behind sample 24 (8 ∷ []) (task_update behind sample 24)
task_update_example =
    task_update-Ticked 0 behind sample 24 (8 ∷ []) weight_pos scaled-InWindow (omega arith)
      not_listed in_window none_after
