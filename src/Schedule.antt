-- ===== src/Schedule.antt =====
-- src/arch/x86_64/task/schedule.c, with src/arch/x86_64/include/task/task.h: the ready list of a
-- processor and the run times by which it is ordered. A task is named by the address of its
-- `general_tag`, from which `CONTAINER_OF` and `pid_to_task` come back to it. Interrupts are off in
-- these functions, and the log line is left out. `behind` is what stands in memory behind the table
-- of weights; a division by a weight of 0, which would fault, is not modelled.
pub mod Times
pub mod Order
pub mod Insert
pub mod Next
mod Tests
use clay_figure_kernel.Base.{
  ℕ, zero, suc, ◌+◌, ◌-◌, ◌*◌, ◌/◌, ◌^◌, Bool, true, false, List, [], ◌∷◌, ltb, leb, ◌==◌,
  if◌then◌else◌, get_or, add64, sub64, mul64, Run, done, panic, spin, ◌>>=◌,
}
use clay_figure_kernel.Klist.{
  Nodes, list_head, list_tail, put, through, list_in, list_remove, list_pop, list_find, list_empty,
}

pub data TaskStatus : Type 0 where
  ready : TaskStatus
  running : TaskStatus
  blocked : TaskStatus
  sending : TaskStatus
  receiving : TaskStatus
  waiting : TaskStatus
  died : TaskStatus

-- The fields of the `task_struct_t` that the scheduler uses, at each task.
pub record Tasks : Type 0 where
  pub status : ℕ → TaskStatus
  pub priority : ℕ → ℕ
  pub run_time : ℕ → ℕ
  pub vrun_time : ℕ → ℕ

-- The `task_man_t` of a processor. `task_list` is the address of its list.
pub record TaskMan : Type 0 where
  pub task_list : ℕ
  pub min_vrun_time : ℕ
  pub running_tasks : ℕ
  pub total_weight : ℕ
  pub idle_task : ℕ

pub record Scheduler : Type 0 where
  pub nodes : Nodes
  pub tasks : Tasks
  pub man : TaskMan

abbrev pub default_priority : ℕ
default_priority = 20

abbrev pub idle_priority : ℕ
idle_priority = 40

abbrev pub task_prio_to_weight : List ℕ
task_prio_to_weight =
    88761 ∷ 71755 ∷ 56483 ∷ 46273 ∷ 36291 ∷ 29154 ∷ 23254 ∷ 18705 ∷ 14949 ∷ 11916 ∷ 9548 ∷ 7620
    ∷ 6100 ∷ 4904 ∷ 3906 ∷ 3121 ∷ 2501 ∷ 1991 ∷ 1586 ∷ 1277 ∷ 1024 ∷ 820 ∷ 655 ∷ 526 ∷ 423 ∷ 335
    ∷ 272 ∷ 215 ∷ 172 ∷ 137 ∷ 110 ∷ 87 ∷ 70 ∷ 56 ∷ 45 ∷ 36 ∷ 29 ∷ 23 ∷ 18 ∷ 15 ∷ []

-- `task_prio_to_weight[priority]`.
pub weight : (ℕ → ℕ) → ℕ → ℕ
weight behind priority =
    if ltb priority 40 then get_or task_prio_to_weight priority 0 else behind priority

-- `(int64_t)(a - b) < 0`.
pub earlier : ℕ → ℕ → Bool
earlier a b = leb (2 ^ 63) (sub64 a b)

-- `MAX_VRUNTIME`: `(int64_t)(a - b) > 0 ? a : b`.
pub max_vruntime : ℕ → ℕ → ℕ
max_vruntime a b = let d = sub64 a b in if d == 0 then b else if leb (2 ^ 63) d then b else a

pub update_min_vrun_time : TaskMan → ℕ → TaskMan
update_min_vrun_time man vrun_time = record man {
  min_vrun_time = max_vruntime man.min_vrun_time vrun_time;
}

-- `put` for a field of a task that is no number.
pub set_status : (ℕ → TaskStatus) → ℕ → TaskStatus → ℕ → TaskStatus
set_status f task status x = if x == task then status else f x

pub update_vrun_time : (ℕ → ℕ) → Scheduler → ℕ → Scheduler
update_vrun_time behind s task =
    let nice0_weight = weight behind default_priority in
    let cur_weight = weight behind (s.tasks.priority task) in
    let scaled = mul64 (s.tasks.run_time task) nice0_weight / cur_weight in
    let vrun_time = max_vruntime scaled s.man.min_vrun_time in
    let run_time =
      if vrun_time == scaled
      then s.tasks.run_time
      else put s.tasks.run_time task (mul64 vrun_time cur_weight / nice0_weight) in
    record s {
      tasks = record s.tasks {
        run_time = run_time;
        vrun_time = put s.tasks.vrun_time task vrun_time;
      };
      man = update_min_vrun_time s.man vrun_time;
    }

-- `task_update` of the running task.
pub task_update : (ℕ → ℕ) → Scheduler → ℕ → Scheduler
task_update behind s cur_task =
    update_vrun_time behind
      (record s {
        tasks = record s.tasks {
          run_time = put s.tasks.run_time cur_task (add64 (s.tasks.run_time cur_task) 1);
        };
      })
      cur_task

-- The loop of `task_list_insert`, with one unit of fuel for a node and one for the tail.
pub place_loop : Scheduler → ℕ → ℕ → ℕ → Run ℕ
place_loop s vrun_time zero node = spin
place_loop s vrun_time (suc fuel) node =
    let rest = place_loop s vrun_time fuel (s.nodes.next node) in
    if node == list_tail s.man.task_list
    then done node
    else if earlier vrun_time (s.tasks.vrun_time node)
    then done node
    else through node rest

-- The insertion itself, behind the test whether the task is in the list.
pub insert_new : (ℕ → ℕ) → Scheduler → ℕ → ℕ → Run Scheduler
insert_new behind s task fuel =
    place_loop s (s.tasks.vrun_time task) fuel (s.nodes.next (list_head s.man.task_list))
    >>= λ node. list_in s.nodes task node >>= λ nodes. done (record s {
      nodes = nodes;
      tasks = record s.tasks { status = set_status s.tasks.status task ready };
      man = record s.man {
        running_tasks = add64 s.man.running_tasks 1;
        total_weight = add64 s.man.total_weight (weight behind (s.tasks.priority task));
      };
    })

pub task_list_insert : (ℕ → ℕ) → Scheduler → ℕ → ℕ → Run Scheduler
task_list_insert behind s task fuel = list_find s.nodes s.man.task_list task fuel >>= λ found.
    if found then done s else insert_new behind s task fuel

-- `pid_to_task` and `get_task_man` are the identity here.
abbrev pub task_unblock_sub : (ℕ → ℕ) → Scheduler → ℕ → ℕ → Run Scheduler
task_unblock_sub behind s task fuel = task_list_insert behind s task fuel

-- The end of `get_next_task`, with the task that was taken out of the list.
pub take_task : (ℕ → ℕ) → Scheduler → ℕ → ℕ × Scheduler
take_task behind s next = (
  next,
  record s {
    man = record s.man {
      running_tasks = sub64 s.man.running_tasks 1;
      total_weight = sub64 s.man.total_weight (weight behind (s.tasks.priority next));
    };
  },
)

pub get_next_task : (ℕ → ℕ) → Scheduler → ℕ → Run (ℕ × Scheduler)
get_next_task behind s fuel =
    if list_empty s.nodes s.man.task_list
    then task_unblock_sub behind s s.man.idle_task fuel >>= (λ s'.
      list_remove s'.nodes s.man.idle_task >>= λ nodes.
      done (take_task behind (record s' { nodes = nodes }) s.man.idle_task))
    else list_pop s.nodes s.man.task_list
      >>= (λ (node, nodes). done (take_task behind (record s { nodes = nodes }) node))
