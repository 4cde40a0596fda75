-- ===== src/Task/Children.antt =====
-- src/arch/x86_64/task/task.c: the new parents of the children of a task that ends.
use clay_figure_kernel.Base.{
  ℕ, zero, suc, ◌+◌, ◌≤◌, ◌<◌, ◌≡◌, ◌≢◌, refl, ap, ◌∙◌, arith, Bool, false, not, ◌&&◌, leb, ◌==◌,
  if◌then◌else◌, ==_iff, Bool-cases, inl, inr,
}
use clay_figure_kernel.Base.Update.{update, update_self, update_ne}
use clay_figure_kernel.Ipc.{max_pid, pid_no_task}
use clay_figure_kernel.Task.{tasks, Table, pid_to_task, adopt_loop}

-- Slot `j` holds a task whose parent is `ppid`.
abbrev pub is_child : Table → ℕ → ℕ → Bool
is_child t ppid j = leb j max_pid && not (t.pid j == pid_no_task) && t.ppid j == ppid

-- The reference: the parent of slot `j` afterwards.
abbrev pub new_parent : (ℕ → ℕ) → ℕ → Table → ℕ → ℕ
new_parent main_pid ppid t j = if is_child t ppid j then main_pid (t.cpu_id j) else t.ppid j

-- The table differs from `t` only in the parents.
abbrev pub OnlyParents : Table → Table → Type 0
OnlyParents t t' = t' ≡ record t { ppid = t'.ppid }

-- One round of the loop.
abbrev adopted : (ℕ → ℕ) → ℕ → Table → ℕ → Table
adopted main_pid ppid t i =
    if is_child t ppid i then record t { ppid = update t.ppid i (main_pid (t.cpu_id i)) } else t

adopt_loop_round :
    (main_pid : ℕ → ℕ) (ppid : ℕ) (t : Table) (i n : ℕ)
    → adopt_loop main_pid ppid t i (suc n)
      ≡ adopt_loop main_pid ppid (adopted main_pid ppid t i) (i + 1) n
unfolding adopt_loop pid_to_task
adopt_loop_round main_pid ppid t i n =
    elim (Bool-cases (leb i max_pid && not (t.pid i == pid_no_task))) [
      | inl in_use ↦ rw in_use refl
      | inr free ↦ rw free refl
    ]

module _ (main_pid : ℕ → ℕ) (ppid : ℕ) where
  round_at : (t : Table) (i : ℕ) → (adopted main_pid ppid t i).ppid i ≡ new_parent main_pid ppid t i
  round_at t i = elim (Bool-cases (is_child t ppid i)) [
    | inl child ↦ rw child (update_self t.ppid i (main_pid (t.cpu_id i)))
    | inr other ↦ rw other refl
  ]

  round_ne :
      (t : Table) (i j : ℕ)
      → i ≢ j
      → ((adopted main_pid ppid t i).ppid j ≡ t.ppid j)
        × (new_parent main_pid ppid (adopted main_pid ppid t i) j ≡ new_parent main_pid ppid t j)
  round_ne t i j ne = elim (Bool-cases (is_child t ppid i)) [
    | inl child ↦
        let same = update_ne t.ppid i (main_pid (t.cpu_id i)) j ne in rw (child, same) (refl, refl)
    | inr other ↦ rw other (refl, refl)
  ]

  round-OnlyParents : (t : Table) (i : ℕ) → OnlyParents t (adopted main_pid ppid t i)
  round-OnlyParents t i = elim (Bool-cases (is_child t ppid i)) [
    | inl child ↦ rw child refl
    | inr other ↦ rw other refl
  ]

  OnlyParents-trans : (t t' t'' : Table) → OnlyParents t t' → OnlyParents t' t'' → OnlyParents t t''
  OnlyParents-trans t t' t'' h h' = h' ∙ ap (λ (s : Table). the_parents s t'') h
    where
      the_parents : Table → Table → Table
      the_parents s r = record s { ppid = r.ppid }

  adopt_loop_below :
      (t : Table) (i n j : ℕ) → j < i → (adopt_loop main_pid ppid t i n).ppid j ≡ t.ppid j
  unfolding adopt_loop
  adopt_loop_below t i zero j h = refl
  adopt_loop_below t i (suc n) j h =
      ap (λ (s : Table). s.ppid j) (adopt_loop_round main_pid ppid t i n)
      ∙ adopt_loop_below (adopted main_pid ppid t i) (i + 1) n j (omega arith)
      ∙ (round_ne t i j (λ e. omega arith)).0

  adopt_loop_inside :
      (t : Table) (i n j : ℕ)
      → i ≤ j
      → j < i + n
      → (adopt_loop main_pid ppid t i n).ppid j ≡ new_parent main_pid ppid t j
  adopt_loop_inside t i zero j h1 h2 = absurd (omega arith)
  adopt_loop_inside t i (suc n) j h1 h2 =
      ap (λ (s : Table). s.ppid j) (adopt_loop_round main_pid ppid t i n)
      ∙ elim (Bool-cases (i == j)) [
        | inl same ↦
            rw⁻¹ ((==_iff i j).0 same) (
              adopt_loop_below (adopted main_pid ppid t i) (i + 1) n i (omega arith) ∙ round_at t i)
        | inr other ↦
            adopt_loop_inside (adopted main_pid ppid t i) (i + 1) n j (ground (arith)) (omega arith)
            ∙ (round_ne t i j (λ e. ground (arith))).1
      ]

  adopt_loop-OnlyParents : (t : Table) (i n : ℕ) → OnlyParents t (adopt_loop main_pid ppid t i n)
  unfolding adopt_loop
  adopt_loop-OnlyParents t i zero = refl
  adopt_loop-OnlyParents t i (suc n) = rw (adopt_loop_round main_pid ppid t i n) (
      OnlyParents-trans t (adopted main_pid ppid t i) _ (round-OnlyParents t i)
        (adopt_loop-OnlyParents (adopted main_pid ppid t i) (i + 1) n))

  -- Where no main task has the pid `ppid`, the loop of `main_task_adopt_child` over the whole table gives
  -- each task whose parent is `ppid` to the main task of its processor and changes nothing else, and no
  -- task is left with `ppid` as its parent.
  pub adopt_loop_lem :
      (t : Table)
      → ((cpu : ℕ) → main_pid cpu ≢ ppid)
      → OnlyParents t (adopt_loop main_pid ppid t 0 tasks)
        × ((j : ℕ)
            → j < tasks
            → ((adopt_loop main_pid ppid t 0 tasks).ppid j ≡ new_parent main_pid ppid t j)
              × (is_child (adopt_loop main_pid ppid t 0 tasks) ppid j ≡ false))
  adopt_loop_lem t other =
      let only = adopt_loop-OnlyParents t 0 tasks in
      (
        only,
        λ j h.
            let parent = adopt_loop_inside t 0 tasks j (omega arith) (omega arith) in
            (parent, ap (λ (s : Table). is_child s ppid j) only ∙ rw parent (no_child t j)),
      )
    where
      no_child :
          (t : Table) (j : ℕ)
          → (leb j max_pid && not (t.pid j == pid_no_task) && new_parent main_pid ppid t j == ppid)
            ≡ false
      no_child t j = elim (Bool-cases (is_child t ppid j)) [
        | inl child ↦ let differ = other (t.cpu_id j) in rw child (ground (arith))
        | inr foreign ↦ rw foreign foreign
      ]
