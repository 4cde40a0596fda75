-- ===== src/Task/Slots.antt =====
-- src/arch/x86_64/task/task.c: which slot `task_alloc` takes, and its way back through `task_free`.
use clay_figure_kernel.Base.{
  ℕ, zero, suc, ◌+◌, ◌^◌, ◌≤◌, ◌<◌, ◌≡◌, ◌≢◌, refl, sym, arith, ne→ne, ◌⊎◌, false, Option, none,
  some, ◌==◌, ==_iff, Bool-cases, inl, inr, add64, done,
}
use clay_figure_kernel.Base.Update.{update_self, update_ne}
use clay_figure_kernel.Sync.{Spinlock, spinlock_lock_free, spinlock_unlock_taken}
use clay_figure_kernel.Ipc.{pid_no_task}
use clay_figure_kernel.Task.{tasks, Table, clear_slot, alloc_loop, task_alloc}

-- The first free slot from `i` on, or none.
abbrev Found : Table → ℕ → ℕ → Option ℕ × Table → Type 0
Found t i n r =
    ((k : ℕ) × (k < i + n)
      × (t.pid k ≡ pid_no_task)
      × ((j : ℕ) → i ≤ j → j < k → t.pid j ≢ pid_no_task)
      × (r ≡ (some k, clear_slot t k)))
    ⊎ (((j : ℕ) → i ≤ j → j < i + n → t.pid j ≢ pid_no_task) × (r ≡ (none, t)))

alloc_loop-Found : (t : Table) (i n : ℕ) → Found t i n (alloc_loop t i n)
unfolding alloc_loop
alloc_loop-Found t i zero = inr (λ j h1 h2. absurd (omega arith), refl)
alloc_loop-Found t i (suc n) = elim (Bool-cases (t.pid i == pid_no_task)) [
  | inl free ↦ inl (
    i,
    omega arith,
    (==_iff (t.pid i) pid_no_task).0 free,
    λ j h1 h2. absurd (omega arith),
    rw free refl,
  )
  | inr taken ↦ elim (alloc_loop-Found t (i + 1) n) [
    | inl (k, below, free, before, e) ↦ inl (
      k,
      omega arith,
      free,
      λ j h1 h2. elim (Bool-cases (i == j)) [
        | inl same ↦ rw⁻¹ ((==_iff i j).0 same) (λ f. first taken f)
        | inr other ↦ before j (ground (arith)) h2
      ],
      rw taken e,
    )
    | inr (none_free, e) ↦ inr (
      λ j h1 h2. elim (Bool-cases (i == j)) [
        | inl same ↦ rw⁻¹ ((==_iff i j).0 same) (λ f. first taken f)
        | inr other ↦ none_free j (ground (arith)) (omega arith)
      ],
      rw taken e,
    )
  ]
]
  where
    first : (t.pid i == pid_no_task) ≡ false → t.pid i ≢ pid_no_task
    first taken f = ground (arith)

-- The table `t'` is `t` but for the slot `k`, which holds its pid, and 0 in all else.
pub record IsNew (t t' : Table) (k : ℕ) : Type 0 where
  pub pid_of : t'.pid k ≡ k
  pub members : (t'.ppid k ≡ 0) × (t'.cpu_id k ≡ 0) × (t'.childs k ≡ 0) × (t'.return_status k ≡ 0)
  pub bytes : (offset : ℕ) → t'.other_bytes k offset ≡ 0
  pub others :
      (j : ℕ)
      → k ≢ j
      → (t'.pid j ≡ t.pid j)
        × (t'.ppid j ≡ t.ppid j)
        × (t'.cpu_id j ≡ t.cpu_id j)
        × (t'.childs j ≡ t.childs j)
        × (t'.return_status j ≡ t.return_status j)
        × ((offset : ℕ) → t'.other_bytes j offset ≡ t.other_bytes j offset)
  pub lock : t'.tasks_lock ≡ t.tasks_lock

clear_slot-IsNew : (t : Table) (k : ℕ) → IsNew t (clear_slot t k) k
clear_slot-IsNew t k = record {
  pid_of = update_self t.pid k k;
  members = (
    update_self t.ppid k 0,
    update_self t.cpu_id k 0,
    update_self t.childs k 0,
    update_self t.return_status k 0,
  );
  bytes = λ offset. rw ((==_iff k k).1 refl) refl;
  others = λ j ne. (
    update_ne t.pid k k j ne,
    update_ne t.ppid k 0 j ne,
    update_ne t.cpu_id k 0 j ne,
    update_ne t.childs k 0 j ne,
    update_ne t.return_status k 0 j ne,
    λ offset. rw (ne→ne j k (λ e. ne (sym e))) refl,
  );
  lock = refl;
}

-- `task_alloc` with the lock of the table free and a preemption count of 64 bits: it takes the first
-- free slot of the table, which holds its pid then and 0 in all other bytes, leaves the other slots as
-- they were, and releases the lock; or no slot is free, and it returns NULL and changes nothing.
pub task_alloc_lem :
    (t : Table)
    → t.tasks_lock.lock ≡ 1
    → t.tasks_lock.preempt_count < 2 ^ 64
    → ((k : ℕ) × (k < tasks)
        × (t.pid k ≡ pid_no_task)
        × ((j : ℕ) → j < k → t.pid j ≢ pid_no_task)
        × (t' : Table) × (task_alloc t ≡ done (some k, t'))
        × IsNew t t' k)
      ⊎ (((j : ℕ) → j < tasks → t.pid j ≢ pid_no_task) × (task_alloc t ≡ done (none, t)))
unfolding task_alloc
task_alloc_lem t free small =
    let held : Spinlock = record { lock = 0; preempt_count = add64 t.tasks_lock.preempt_count 1 } in
    let given_back = spinlock_unlock_taken t.tasks_lock free small in
    elim (alloc_loop-Found (record t { tasks_lock = held }) 0 tasks) [
      | inl (k, below, slot, before, e) ↦ inl (
        k,
        omega arith,
        slot,
        λ j h. before j (omega arith) h,
        clear_slot t k,
        rw (spinlock_lock_free t.tasks_lock free, e, given_back) refl,
        clear_slot-IsNew t k,
      )
      | inr (none_free, e) ↦ inr (
        λ j h. none_free j (omega arith) (omega arith),
        rw (spinlock_lock_free t.tasks_lock free, e, given_back) refl,
      )
    ]
