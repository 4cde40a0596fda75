-- ===== src/Task.antt =====
-- src/arch/x86_64/task/task.c: the slots of the table of tasks, and the children of a task that ends.
-- A slot is its index, and `none` is the null pointer to one; `tasks_lock` holds the lock of the table
-- beside the running task's `preempt_count`.
pub mod Slots
pub mod Children
mod Tests
use clay_figure_kernel.Base.{
  ℕ, zero, suc, ◌+◌, Bool, true, false, not, ◌&&◌, Option, none, some, leb, ◌==◌, if◌then◌else◌,
  Run, done, ◌>>=◌,
}
use clay_figure_kernel.Base.Update.{update}
use clay_figure_kernel.Sync.{Spinlock, spinlock_lock, spinlock_unlock}
use clay_figure_kernel.Ipc.{max_pid, pid_no_task}

abbrev pub tasks : ℕ
tasks = 4096

-- The members of each slot that these functions use, and the bytes of the others by their offset.
pub record Table : Type 0 where
  pub pid : ℕ → ℕ
  pub ppid : ℕ → ℕ
  pub cpu_id : ℕ → ℕ
  pub childs : ℕ → ℕ
  pub return_status : ℕ → ℕ
  pub other_bytes : ℕ → ℕ → ℕ
  pub tasks_lock : Spinlock

pub pid_to_task : Table → ℕ → Option ℕ
pid_to_task t pid = if leb pid max_pid && not (t.pid pid == pid_no_task) then some pid else none

-- `memset(task, 0, sizeof(*task))`, and the pid of the slot.
abbrev pub clear_slot : Table → ℕ → Table
clear_slot t i = record t {
  pid = update t.pid i i;
  ppid = update t.ppid i 0;
  cpu_id = update t.cpu_id i 0;
  childs = update t.childs i 0;
  return_status = update t.return_status i 0;
  other_bytes = λ j k. if j == i then 0 else t.other_bytes j k;
}

-- The loop of `task_alloc` from `i` on.
pub alloc_loop : Table → ℕ → ℕ → Option ℕ × Table
alloc_loop t i zero = (none, t)
alloc_loop t i (suc n) =
    let rest = alloc_loop t (i + 1) n in
    if t.pid i == pid_no_task then (some i, clear_slot t i) else rest

pub task_alloc : Table → Run (Option ℕ × Table)
task_alloc t = spinlock_lock t.tasks_lock >>= λ l.
    let (task, t') = alloc_loop (record t { tasks_lock = l }) 0 tasks in
    done (task, record t' { tasks_lock = spinlock_unlock t'.tasks_lock })

pub task_free : Table → Option ℕ → Run Table
task_free t none = done t
task_free t (some task) = spinlock_lock t.tasks_lock >>= λ l.
    done (record t { pid = update t.pid task pid_no_task; tasks_lock = spinlock_unlock l })

-- The loop of `main_task_adopt_child` on the table from `i` on, where `main_pid` is the pid of the main
-- task of a processor.
pub adopt_loop : (ℕ → ℕ) → ℕ → Table → ℕ → ℕ → Table
adopt_loop main_pid ppid t i zero = t
adopt_loop main_pid ppid t i (suc n) =
    let child : Bool = elim (pid_to_task t i) [ none ↦ false | some task ↦ t.ppid task == ppid ] in
    adopt_loop main_pid ppid
      (if child then record t { ppid = update t.ppid i (main_pid (t.cpu_id i)) } else t) (i + 1) n
