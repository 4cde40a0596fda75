-- ===== src/Schedule/Next.antt =====
-- src/arch/x86_64/task/schedule.c: the task that `get_next_task` chooses.
use clay_figure_kernel.Base.{
  ℕ, suc, ◌+◌, ◌%◌, ◌^◌, ◌<◌, ◌≡◌, refl, arith, List, [], ◌∷◌, ne→ne, sub64, length, done,
}
use clay_figure_kernel.Klist.{Nodes, null}
use clay_figure_kernel.Klist.Chain.{Apart}
use clay_figure_kernel.Klist.Edit.{IsList}
use clay_figure_kernel.Klist.Ops.{ends, list_pop-IsList, list_remove-IsList, list_empty_lem}
use clay_figure_kernel.Schedule.{Scheduler, weight, take_task, get_next_task}
use clay_figure_kernel.Schedule.Order.{InWindow, AllInWindow, NotBefore, IsSorted, inserted}
use clay_figure_kernel.Schedule.Insert.{weights, IsReady, task_list_insert-Wakes}

-- What the choice takes from the list `xs`: its first task, or the idle task.
unfoldable pub chosen : ℕ → List ℕ → ℕ
chosen idle [] = idle
chosen idle (x ∷ xs) = x

unfoldable pub left : List ℕ → List ℕ
left [] = []
left (x ∷ xs) = xs

-- The choice returns, with no task in the list earlier than the chosen one, and the others are ready.
pub record Chosen (base : ℕ) (behind : ℕ → ℕ) (s : Scheduler) (xs : List ℕ) (s' : Scheduler)
    : Type 0 where
  pub list : IsReady base behind s' (left xs)
  pub earliest :
      NotBefore base s.tasks.vrun_time (s.tasks.vrun_time (chosen s.man.idle_task xs)) (left xs)
  pub times : s'.tasks.vrun_time ≡ s.tasks.vrun_time
  pub unlinked :
      (s'.nodes.prev (chosen s.man.idle_task xs) ≡ null)
      × (s'.nodes.next (chosen s.man.idle_task xs) ≡ null)

uncounted : (n k : ℕ) → n ≡ suc k % 2 ^ 64 → sub64 n 1 ≡ k % 2 ^ 64
unfolding sub64
uncounted n k e = omega arith

unsummed : (n w k : ℕ) → n ≡ (w + k) % 2 ^ 64 → sub64 n w ≡ k % 2 ^ 64
unfolding sub64
unsummed n w k e = omega arith

-- The scheduler without the task `x`, whose nodes are now `nodes`.
abbrev without : (ℕ → ℕ) → Scheduler → ℕ → Nodes → Scheduler
without behind s x nodes = record s {
  nodes = nodes;
  man = record s.man {
    running_tasks = sub64 s.man.running_tasks 1;
    total_weight = sub64 s.man.total_weight (weight behind (s.tasks.priority x));
  };
}

without-IsReady :
    (base : ℕ) (behind : ℕ → ℕ) (s : Scheduler) (x : ℕ) (xs : List ℕ) (nodes : Nodes)
    → IsReady base behind s (x ∷ xs)
    → IsList nodes s.man.task_list xs
    → IsReady base behind (without behind s x nodes) xs
unfolding weights AllInWindow IsSorted
without-IsReady base behind s x xs nodes r linked = record {
  linked = linked;
  window = r.window.1;
  sorted = r.sorted.1;
  count = uncounted s.man.running_tasks (length xs) r.count;
  sum =
      unsummed s.man.total_weight (weight behind (s.tasks.priority x))
        (weights behind s.tasks.priority xs) r.sum;
}

-- `get_next_task` of a ready list `xs`, given the fuel, where the idle task is neither NULL nor an end
-- of the list and its time is in the window: it returns the first task of the list, or the idle task if
-- the list is empty. No task left is earlier, the others are left sorted and counted, the times are as
-- they were, and the chosen task is linked nowhere.
pub get_next_task-Chosen :
    (base : ℕ) (behind : ℕ → ℕ) (s : Scheduler) (xs : List ℕ) (fuel : ℕ)
    → IsReady base behind s xs
    → Apart s.man.idle_task (null ∷ ends s.man.task_list [])
    → InWindow base (s.tasks.vrun_time s.man.idle_task)
    → length xs < fuel
    → (s' : Scheduler) × (get_next_task behind s fuel ≡ done (chosen s.man.idle_task xs, s'))
      × Chosen base behind s xs s'
unfolding get_next_task take_task chosen left IsSorted NotBefore inserted
get_next_task-Chosen base behind s [] fuel r apart w enough =
    let idle = s.man.idle_task in
    let (s', e, woken) = task_list_insert-Wakes base behind s idle [] fuel r apart w enough in
    let (h, e', linked, others, prev, next) =
      list_remove-IsList s'.nodes s'.man.task_list idle [] [] woken.list.linked in
    (
      without behind s' idle h,
      rw (list_empty_lem s.nodes s.man.task_list [] r.linked, e, e') refl,
      record {
        list = without-IsReady base behind s' idle [] h woken.list linked;
        earliest = tt;
        times = λ i. (woken.tasks i).vrun_time;
        unlinked = (prev, next);
      },
    )
get_next_task-Chosen base behind s (x ∷ xs) fuel r apart w enough =
    let (h, e, linked, others, prev, next) =
      list_pop-IsList s.nodes s.man.task_list x xs r.linked in
    (
      without behind s x h,
      rw
          (
            list_empty_lem s.nodes s.man.task_list (x ∷ xs) r.linked,
            ne→ne (suc (length xs)) 0 (λ e. omega (arith, e)),
            e,
          )
          refl,
      record {
        list = without-IsReady base behind s x xs h r linked;
        earliest = r.sorted.0;
        times = refl;
        unlinked = (prev, next);
      },
    )
