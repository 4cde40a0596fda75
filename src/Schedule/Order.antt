-- ===== src/Schedule/Order.antt =====
-- src/arch/x86_64/task/schedule.c: the order of run times, which may wrap.
use clay_figure_kernel.Base.{
  ℕ, ◌+◌, ◌-◌, ◌%◌, ◌^◌, ◌≤◌, ◌<◌, ◌≡◌, sym, ◌∙◌, arith, List, [], ◌∷◌, ltb, if◌then◌else◌, sub64,
  Bool-cases, inl, inr, ltb→lt,
}
use clay_figure_kernel.Schedule.{earlier, max_vruntime}

-- How far `v` lies behind `base`, round the circle of 2^64 times.
abbrev pub since : ℕ → ℕ → ℕ
since base v = (v + 2 ^ 64 - base) % 2 ^ 64

-- The times that are compared lie within half a circle from `base` on.
abbrev pub InWindow : ℕ → ℕ → Type 0
InWindow base v = (base < 2 ^ 64) × (v < 2 ^ 64) × (since base v < 2 ^ 63)

pub earlier-since :
    (base v w : ℕ)
    → InWindow base v
    → InWindow base w
    → earlier v w ≡ ltb (since base v) (since base w)
unfolding earlier sub64
earlier-since base v w hv hw = ground arith

pub max_vruntime-since :
    (base v w : ℕ)
    → InWindow base v
    → InWindow base w
    → max_vruntime v w ≡ (if ltb (since base w) (since base v) then v else w)
unfolding max_vruntime sub64
max_vruntime-since base v w hv hw = ground arith

-- The tasks of a list have times in the window.
unfoldable pub AllInWindow : ℕ → (ℕ → ℕ) → List ℕ → Type 0
AllInWindow base time [] = Unit
AllInWindow base time (x ∷ xs) = InWindow base (time x) × AllInWindow base time xs

-- None of the tasks has a time before `v`.
unfoldable pub NotBefore : ℕ → (ℕ → ℕ) → ℕ → List ℕ → Type 0
NotBefore base time v [] = Unit
NotBefore base time v (x ∷ xs) = (since base v ≤ since base (time x)) × NotBefore base time v xs

-- Each task comes before those with a later time.
unfoldable pub IsSorted : ℕ → (ℕ → ℕ) → List ℕ → Type 0
IsSorted base time [] = Unit
IsSorted base time (x ∷ xs) = NotBefore base time (time x) xs × IsSorted base time xs

-- The reference: the task is put before the first that has a later time.
unfoldable pub inserted : (ℕ → ℕ) → ℕ → List ℕ → List ℕ
inserted time task [] = task ∷ []
inserted time task (x ∷ xs) =
    if earlier (time task) (time x) then task ∷ x ∷ xs else x ∷ inserted time task xs

NotBefore-trans :
    (base : ℕ) (time : ℕ → ℕ) (v w : ℕ) (xs : List ℕ)
    → since base v ≤ since base w
    → NotBefore base time w xs
    → NotBefore base time v xs
unfolding NotBefore
NotBefore-trans base time v w [] le _ = tt
NotBefore-trans base time v w (x ∷ xs) le (h, hs) =
    (omega (arith, le, h), NotBefore-trans base time v w xs le hs)

NotBefore-inserted :
    (base : ℕ) (time : ℕ → ℕ) (v task : ℕ) (xs : List ℕ)
    → since base v ≤ since base (time task)
    → NotBefore base time v xs
    → NotBefore base time v (inserted time task xs)
unfolding NotBefore inserted
NotBefore-inserted base time v task [] le _ = (le, tt)
NotBefore-inserted base time v task (x ∷ xs) le (h, hs) =
    elim (Bool-cases (earlier (time task) (time x))) [
      | inl e ↦ rw e (le, (h, hs))
      | inr e ↦ rw e (h, NotBefore-inserted base time v task xs le hs)
    ]

-- The reference keeps a list sorted.
pub inserted-IsSorted :
    (base : ℕ) (time : ℕ → ℕ) (task : ℕ) (xs : List ℕ)
    → InWindow base (time task)
    → AllInWindow base time xs
    → IsSorted base time xs
    → IsSorted base time (inserted time task xs)
unfolding IsSorted NotBefore AllInWindow inserted
inserted-IsSorted base time task [] w _ _ = (tt, tt)
inserted-IsSorted base time task (x ∷ xs) w (wx, ws) (first, rest) =
    let order = earlier-since base (time task) (time x) w wx in
    elim (Bool-cases (earlier (time task) (time x))) [
      | inl e ↦
          let before = ltb→lt (since base (time task)) (since base (time x)) (sym order ∙ e) in
          rw e (
            (omega arith, NotBefore-trans base time (time task) (time x) xs (omega arith) first),
            (first, rest),
          )
      | inr e ↦
          let behind : since base (time x) ≤ since base (time task) =
            ground (arith, sym order ∙ e) in
          rw e (
            NotBefore-inserted base time (time x) task xs behind first,
            inserted-IsSorted base time task xs w ws rest,
          )
    ]
