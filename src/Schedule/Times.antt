-- ===== src/Schedule/Times.antt =====
-- src/arch/x86_64/task/schedule.c: the virtual run times as `task_update` moves them on.
use clay_figure_kernel.Base.{
  ℕ, ◌/◌, ◌≤◌, ◌<◌, max, ◌≡◌, ◌≢◌, refl, ap, arith, List, [], ◌∷◌, ◌++◌, ltb, add64, mul64, le→ltb,
  Bool-cases, inl, inr, ltb→lt,
}
use clay_figure_kernel.Klist.{put}
use clay_figure_kernel.Klist.Chain.{Apart, put_self, put_ne}
use clay_figure_kernel.Schedule.{
  Scheduler, default_priority, weight, max_vruntime, update_min_vrun_time, update_vrun_time,
  task_update,
}
use clay_figure_kernel.Schedule.Order.{
  since, InWindow, AllInWindow, earlier-since, max_vruntime-since, inserted,
}

-- The time of the task by its weight, after one more tick.
abbrev pub scaled_time : (ℕ → ℕ) → Scheduler → ℕ → ℕ
scaled_time behind s task =
    mul64 (add64 (s.tasks.run_time task) 1) (weight behind default_priority)
    / weight behind (s.tasks.priority task)

-- None of the tasks has a time after `v`.
unfoldable pub NotAfter : ℕ → (ℕ → ℕ) → ℕ → List ℕ → Type 0
NotAfter base time v [] = Unit
NotAfter base time v (x ∷ xs) = (since base (time x) ≤ since base v) × NotAfter base time v xs

later_of :
    (base v w : ℕ)
    → InWindow base v
    → InWindow base w
    → (since base (max_vruntime v w) ≡ max (since base v) (since base w))
      × InWindow base (max_vruntime v w)
later_of base v w hv hw = elim (Bool-cases (ltb (since base w) (since base v))) [
  | inl e ↦
      let lt = ltb→lt (since base w) (since base v) e in
      rw (max_vruntime-since base v w hv hw, e) (omega arith, hv)
  | inr e ↦
      let le : since base v ≤ since base w = ground arith in
      rw (max_vruntime-since base v w hv hw, e) (omega arith, hw)
]

max_vruntime_later :
    (base v w : ℕ)
    → InWindow base v
    → InWindow base w
    → since base v ≤ since base w
    → max_vruntime v w ≡ w
max_vruntime_later base v w hv hw h =
    rw (max_vruntime-since base v w hv hw, le→ltb (since base w) (since base v) h) refl

NotAfter-inserted :
    (base : ℕ) (time : ℕ → ℕ) (task : ℕ) (xs : List ℕ)
    → AllInWindow base time xs
    → InWindow base (time task)
    → NotAfter base time (time task) xs
    → inserted time task xs ≡ xs ++ task ∷ []
unfolding NotAfter inserted AllInWindow
NotAfter-inserted base time task [] _ w _ = refl
NotAfter-inserted base time task (x ∷ xs) (wx, ws) w (h, hs) =
    rw
      (
        earlier-since base (time task) (time x) w wx,
        le→ltb (since base (time task)) (since base (time x)) h,
      )
      (ap (λ l. x ∷ l) (NotAfter-inserted base time task xs ws w hs))

NotAfter-append :
    (base : ℕ) (time : ℕ → ℕ) (task v : ℕ) (xs : List ℕ)
    → time task ≡ v
    → NotAfter base time v xs
    → NotAfter base time v (xs ++ task ∷ [])
unfolding NotAfter
NotAfter-append base time task v [] e _ = (rw e (omega arith), tt)
NotAfter-append base time task v (x ∷ xs) e (h, hs) = (h, NotAfter-append base time task v xs e hs)

-- A store of another task's later time.
NotAfter-put :
    (base : ℕ) (time : ℕ → ℕ) (task v w : ℕ) (xs : List ℕ)
    → Apart task xs
    → since base v ≤ since base w
    → NotAfter base time v xs
    → NotAfter base (put time task w) w xs
unfolding NotAfter Apart
NotAfter-put base time task v w [] _ le _ = tt
NotAfter-put base time task v w (x ∷ xs) (ne, apart) le (h, hs) = (
  rw (put_ne time task w x ne) (omega (arith, h)),
  NotAfter-put base time task v w xs apart le hs,
)

AllInWindow-put :
    (base : ℕ) (time : ℕ → ℕ) (task w : ℕ) (xs : List ℕ)
    → Apart task xs
    → AllInWindow base time xs
    → AllInWindow base (put time task w) xs
unfolding AllInWindow Apart
AllInWindow-put base time task w [] _ _ = tt
AllInWindow-put base time task w (x ∷ xs) (ne, apart) (h, hs) =
    (rw (put_ne time task w x ne) h, AllInWindow-put base time task w xs apart hs)

-- What a tick does to the times.
pub record Ticked (base : ℕ) (behind : ℕ → ℕ) (s : Scheduler) (task : ℕ) (xs : List ℕ)
    (s' : Scheduler) : Type 0 where
  pub later :
      since base s'.man.min_vrun_time
      ≡ max (since base (scaled_time behind s task)) (since base s.man.min_vrun_time)
  pub same : s'.tasks.vrun_time task ≡ s'.man.min_vrun_time
  pub others : (x : ℕ) → task ≢ x → s'.tasks.vrun_time x ≡ s.tasks.vrun_time x
  pub at_end : inserted s'.tasks.vrun_time task xs ≡ xs ++ task ∷ []
  pub none_after : NotAfter base s'.tasks.vrun_time s'.man.min_vrun_time (xs ++ task ∷ [])

-- `task_update` of a running task of a weight above 0 that is not in the list `xs`, where no task of `xs` has a time after
-- `min_vrun_time` and all times lie in the window. `min_vrun_time` becomes the later of the task's
-- scaled time and its old value, and the task's own time becomes the same; so the place of the task in
-- the list is the end, whatever its priority, and again no task has a time after `min_vrun_time`.
pub task_update-Ticked :
    (base : ℕ) (behind : ℕ → ℕ) (s : Scheduler) (task : ℕ) (xs : List ℕ)
    → 0 < weight behind (s.tasks.priority task)
    → InWindow base (scaled_time behind s task)
    → InWindow base s.man.min_vrun_time
    → Apart task xs
    → AllInWindow base s.tasks.vrun_time xs
    → NotAfter base s.tasks.vrun_time s.man.min_vrun_time xs
    → Ticked base behind s task xs (task_update behind s task)
unfolding task_update update_vrun_time update_min_vrun_time
task_update-Ticked base behind s task xs _ scaled old apart window before =
    let time = s.tasks.vrun_time in
    let run = put_self s.tasks.run_time task (add64 (s.tasks.run_time task) 1) in
    let v = max_vruntime (scaled_time behind s task) s.man.min_vrun_time in
    let (since_v, window_v) =
      later_of base (scaled_time behind s task) s.man.min_vrun_time scaled old in
    let min_v =
      max_vruntime_later base s.man.min_vrun_time v old window_v (omega (arith, since_v)) in
    let same = put_self time task v in
    let none_after =
      NotAfter-put base time task s.man.min_vrun_time v xs apart (omega (arith, since_v)) before in
    rw (run, min_v)
      (record {
        later = since_v;
        same = same;
        others = λ x ne. put_ne time task v x ne;
        at_end =
            NotAfter-inserted base (put time task v) task xs
              (AllInWindow-put base time task v xs apart window) (rw same window_v)
              (rw same none_after);
        none_after = NotAfter-append base (put time task v) task v xs same none_after;
      })
