-- ===== src/Schedule/Insert.antt =====
-- src/arch/x86_64/task/schedule.c: a task that becomes ready, and the state of the ready list.
use clay_figure_kernel.Base.{
  ℕ, zero, suc, ◌+◌, ◌%◌, ◌^◌, ◌≤◌, ◌<◌, ◌≡◌, refl, ap, sym, ◌∙◌, arith, true, false, List, [], ◌∷◌,
  ◌++◌, ==_iff, ne→ne, add64, length, Run, done, Bool-cases, inl, inr,
}
use clay_figure_kernel.Klist.{Nodes, null, list_tail}
use clay_figure_kernel.Klist.Chain.{Apart, Chain, Apart-append}
use clay_figure_kernel.Klist.Edit.{IsList, Untouched, list_in-IsLinked, through_nonnull}
use clay_figure_kernel.Klist.Ops.{ends}
use clay_figure_kernel.Klist.Walk.{Walk, of_list, member, list_find-member}
use clay_figure_kernel.Schedule.{
  ready, Scheduler, weight, earlier, set_status, place_loop, insert_new, task_list_insert,
}
use clay_figure_kernel.Schedule.Order.{InWindow, AllInWindow, IsSorted, inserted, inserted-IsSorted}

-- The weights of the tasks of a list.
unfoldable pub weights : (ℕ → ℕ) → (ℕ → ℕ) → List ℕ → ℕ
weights behind priority [] = 0
weights behind priority (x ∷ xs) = weight behind (priority x) + weights behind priority xs

-- The ready list holds `xs`, the earliest first, and the counters are right. `base` is a time
-- before all of theirs.
pub record IsReady (base : ℕ) (behind : ℕ → ℕ) (s : Scheduler) (xs : List ℕ) : Type 0 where
  pub linked : IsList s.nodes s.man.task_list xs
  pub window : AllInWindow base s.tasks.vrun_time xs
  pub sorted : IsSorted base s.tasks.vrun_time xs
  pub count : s.man.running_tasks ≡ length xs % 2 ^ 64
  pub sum : s.man.total_weight ≡ weights behind s.tasks.priority xs % 2 ^ 64

-- Where the loop stops: `xs`, with the tail `t`, are cut before the node `q`, and the task comes there.
abbrev Cut : (ℕ → ℕ) → ℕ → ℕ → List ℕ → List ℕ → ℕ → List ℕ → Type 0
Cut time task t xs before q after =
    (xs ++ t ∷ [] ≡ before ++ q ∷ after)
    × (inserted time task xs ++ t ∷ [] ≡ before ++ task ∷ q ∷ after)

place_loop_lem :
    (s : Scheduler) (task a : ℕ) (xs : List ℕ) (fuel : ℕ)
    → Walk s.nodes (list_tail s.man.task_list) a xs
    → suc (length xs) ≤ fuel
    → (before : List ℕ) × (q : ℕ) × (after : List ℕ) × Cut s.tasks.vrun_time task
        (list_tail s.man.task_list)
        xs
        before
        q
        after
      × (place_loop s (s.tasks.vrun_time task) fuel (s.nodes.next a) ≡ done q)
unfolding place_loop Chain Apart inserted
place_loop_lem s task a [] zero w enough = absurd (omega arith)
place_loop_lem s task a (x ∷ xs) zero w enough = absurd (omega arith)
place_loop_lem s task a [] (suc fuel) (links, _, _) enough =
    let t = list_tail s.man.task_list in
    ([], t, [], (refl, refl), rw (links.0, (==_iff t t).1 refl) refl)
place_loop_lem s task a (x ∷ xs) (suc fuel) ((next, _, links), (null_x, null_xs), (t_x, t_xs))
      enough =
    let t = list_tail s.man.task_list in
    let time = s.tasks.vrun_time in
    elim (Bool-cases (earlier (time task) (time x))) [
      | inl e ↦
          ([], x, xs ++ t ∷ [], (refl, rw e refl), rw (next, ne→ne x t (λ e. t_x (sym e)), e) refl)
      | inr e ↦
          let (before, q, after, (cut, put), stop) =
            place_loop_lem s task x xs fuel (links, null_xs, t_xs) (omega arith) in
          (
            x ∷ before,
            q,
            after,
            (ap (λ l. x ∷ l) cut, rw e (ap (λ l. x ∷ l) put)),
            rw (next, ne→ne x t (λ e. t_x (sym e)), e) (through_nonnull x _ null_x ∙ stop),
          )
    ]

length-inserted :
    (time : ℕ → ℕ) (task : ℕ) (xs : List ℕ) → length (inserted time task xs) ≡ suc (length xs)
unfolding inserted
length-inserted time task [] = refl
length-inserted time task (x ∷ xs) = elim (Bool-cases (earlier (time task) (time x))) [
  | inl e ↦ rw e refl
  | inr e ↦ rw e (ap suc (length-inserted time task xs))
]

weights-inserted :
    (behind time priority : ℕ → ℕ) (task : ℕ) (xs : List ℕ)
    → weights behind priority (inserted time task xs)
      ≡ weight behind (priority task) + weights behind priority xs
unfolding inserted weights
weights-inserted behind time priority task [] = refl
weights-inserted behind time priority task (x ∷ xs) =
    elim (Bool-cases (earlier (time task) (time x))) [
      | inl e ↦ rw e refl
      | inr e ↦
          rw e (let rest = weights-inserted behind time priority task xs in omega (arith, rest))
    ]

AllInWindow-inserted :
    (base : ℕ) (time : ℕ → ℕ) (task : ℕ) (xs : List ℕ)
    → InWindow base (time task)
    → AllInWindow base time xs
    → AllInWindow base time (inserted time task xs)
unfolding inserted AllInWindow
AllInWindow-inserted base time task [] w _ = (w, tt)
AllInWindow-inserted base time task (x ∷ xs) w (wx, ws) =
    elim (Bool-cases (earlier (time task) (time x))) [
      | inl e ↦ rw e (w, (wx, ws))
      | inr e ↦ rw e (wx, AllInWindow-inserted base time task xs w ws)
    ]

member-Apart : (task : ℕ) (xs : List ℕ) → Apart task xs → member task xs ≡ false
unfolding member Apart
member-Apart task [] _ = refl
member-Apart task (x ∷ xs) (ne, apart) =
    rw (ne→ne x task (λ e. ne (sym e))) (member-Apart task xs apart)

-- What a call that makes the task ready leaves: the ready list with the task in its place, and the
-- other nodes, statuses, times and priorities as they were.
pub record Woken (base : ℕ) (behind : ℕ → ℕ) (s : Scheduler) (task : ℕ) (xs : List ℕ)
    (s' : Scheduler) : Type 0 where
  pub list : IsReady base behind s' (inserted s.tasks.vrun_time task xs)
  pub place : s'.man.task_list ≡ s.man.task_list
  pub tasks : s'.tasks ≡ record s.tasks { status = set_status s.tasks.status task ready }
  pub others : Untouched s.nodes s'.nodes (task ∷ ends s.man.task_list xs)

-- How a call that makes the task ready ends.
abbrev pub Wakes : ℕ → (ℕ → ℕ) → Scheduler → ℕ → List ℕ → Run Scheduler → Type 0
Wakes base behind s task xs r = (s' : Scheduler) × (r ≡ done s') × Woken base behind s task xs s'

-- The scheduler with the task put among the nodes, as `insert_new` leaves it.
abbrev placed : (ℕ → ℕ) → Scheduler → ℕ → Nodes → Scheduler
placed behind s task nodes = record s {
  nodes = nodes;
  tasks = record s.tasks { status = set_status s.tasks.status task ready };
  man = record s.man {
    running_tasks = add64 s.man.running_tasks 1;
    total_weight = add64 s.man.total_weight (weight behind (s.tasks.priority task));
  };
}

-- The counters that `insert_new` leaves.
counted : (n k : ℕ) → n ≡ k % 2 ^ 64 → add64 n 1 ≡ suc k % 2 ^ 64
unfolding add64
counted n k e = omega arith

summed : (n w k : ℕ) → n ≡ k % 2 ^ 64 → add64 n w ≡ (w + k) % 2 ^ 64
unfolding add64
summed n w k e = omega arith

module _ (base : ℕ) (behind : ℕ → ℕ) (s : Scheduler) (task : ℕ) (xs : List ℕ) (fuel : ℕ) where
  insert_new-Wakes :
      IsReady base behind s xs
      → Apart task (null ∷ ends s.man.task_list xs)
      → InWindow base (s.tasks.vrun_time task)
      → length xs < fuel
      → Wakes base behind s task xs (insert_new behind s task fuel)
  unfolding insert_new Apart
  insert_new-Wakes r (nonnull, (not_head, apart)) w enough =
      let time = s.tasks.vrun_time in
      let list = s.man.task_list in
      let (before, q, after, (cut, put), stop) =
        place_loop_lem s task list xs fuel (of_list s.nodes list xs r.linked) (omega arith) in
      let (h', e, linked, others) =
        list_in-IsLinked s.nodes task q list before after (rw cut at r.linked)
          (nonnull, (not_head, (rw cut at apart))) in
      (
        placed behind s task h',
        rw (stop, e) refl,
        record {
          list = record {
            linked = rw put linked;
            window = AllInWindow-inserted base time task xs w r.window;
            sorted = inserted-IsSorted base time task xs w r.window r.sorted;
            count =
                counted s.man.running_tasks (length xs) r.count
                ∙ ap (λ (n : ℕ). n % 2 ^ 64) (sym (length-inserted time task xs));
            sum =
                summed s.man.total_weight (weight behind (s.tasks.priority task))
                  (weights behind s.tasks.priority xs) r.sum
                ∙ ap (λ (n : ℕ). n % 2 ^ 64)
                    (sym (weights-inserted behind time s.tasks.priority task xs));
          };
          place = refl;
          tasks = refl;
          others = rw cut others;
        },
      )

  -- `task_list_insert` of a task that is neither in the ready list nor one of its ends, nor NULL, given
  -- the fuel, where its time and those of the list lie in one window of 2^63 from some base on: it
  -- returns, the task stands before the first task with a later time, the list is sorted as before, the
  -- two counters are right, the task is ready, and all else is as it was.
  pub task_list_insert-Wakes :
      IsReady base behind s xs
      → Apart task (null ∷ ends s.man.task_list xs)
      → InWindow base (s.tasks.vrun_time task)
      → length xs < fuel
      → Wakes base behind s task xs (task_list_insert behind s task fuel)
  unfolding task_list_insert Apart
  task_list_insert-Wakes r apart w enough =
      let absent = member-Apart task xs (Apart-append task xs _ apart.1.1).0 in
      rw (list_find-member s.nodes s.man.task_list task xs fuel r.linked enough, absent)
        (insert_new-Wakes r apart w enough)

  -- A task that is in the list stays where it is.
  pub task_list_insert_again :
      IsReady base behind s xs
      → member task xs ≡ true
      → length xs < fuel
      → task_list_insert behind s task fuel ≡ done s
  unfolding task_list_insert
  task_list_insert_again r present enough =
      rw (list_find-member s.nodes s.man.task_list task xs fuel r.linked enough, present) refl
