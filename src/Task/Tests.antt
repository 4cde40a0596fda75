-- ===== src/Task/Tests.antt =====
-- src/arch/x86_64/task/task.c: a table whose first two slots are in use, the second by a child of task 7,
-- and whose other slots are free.
use clay_figure_kernel.Base.{
  ℕ, ◌<◌, ◌≡◌, ◌≢◌, ◌⊎◌, refl, arith, false, none, some, done, ltb, if◌then◌else◌,
}
use clay_figure_kernel.Klist.Samples.{ne}
use clay_figure_kernel.Ipc.{pid_no_task}
use clay_figure_kernel.Task.{tasks, Table, task_alloc, alloc_loop, adopt_loop}
use clay_figure_kernel.Task.Slots.{IsNew, task_alloc_lem}
use clay_figure_kernel.Task.Children.{is_child, new_parent, OnlyParents, adopt_loop_lem}

abbrev two_used : Table
two_used = record {
  pid = λ i. if ltb i 2 then i else pid_no_task;
  ppid = λ i. if ltb i 2 then 7 else 0;
  cpu_id = λ _. 0;
  childs = λ _. 0;
  return_status = λ _. 0;
  other_bytes = λ _ _. 5;
  tasks_lock = record { lock = 1; preempt_count = 0 };
}

task_alloc_example :
    ((k : ℕ) × (k < tasks)
      × (two_used.pid k ≡ pid_no_task)
      × ((j : ℕ) → j < k → two_used.pid j ≢ pid_no_task)
      × (t' : Table) × (task_alloc two_used ≡ done (some k, t'))
      × IsNew two_used t' k)
    ⊎ (((j : ℕ) → j < tasks → two_used.pid j ≢ pid_no_task)
        × (task_alloc two_used ≡ done (none, two_used)))
task_alloc_example = task_alloc_lem two_used refl (omega arith)

-- The third slot is taken.
third : (alloc_loop two_used 0 3).0 ≡ some 2
unfolding alloc_loop
third = refl

adopt_example :
    OnlyParents two_used (adopt_loop (λ _. 1) 7 two_used 0 tasks)
    × ((j : ℕ)
        → j < tasks
        → ((adopt_loop (λ _. 1) 7 two_used 0 tasks).ppid j ≡ new_parent (λ _. 1) 7 two_used j)
          × (is_child (adopt_loop (λ _. 1) 7 two_used 0 tasks) 7 j ≡ false))
adopt_example = adopt_loop_lem (λ _. 1) 7 two_used (λ cpu. ne 1 7 refl)
