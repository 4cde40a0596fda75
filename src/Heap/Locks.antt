-- ===== src/Heap/Locks.antt =====
-- src/mem/allocator.c: the lock of a group around `kmalloc`, by what the search for a block finds.
use clay_figure_kernel.Base.{
  ℕ, ◌+◌, ◌-◌, ◌/◌, ◌^◌, ◌<◌, ◌≤◌, ◌≡◌, refl, ap, sym, ◌∙◌, arith, true, false, ◌&&◌, Option, none,
  some, List, [], ◌∷◌, inl, inr, ◌⊎◌, leb, ltb, ◌==◌, length, get_or, set, get_or-set_self,
  get_or-set_ne, length-set, Bool-cases, ==_iff, panic, add64, sub64, u32, Status, success, Run,
  done, spin, ◌>>=◌,
}
use clay_figure_kernel.Base.Update.{update, update_self}
use clay_figure_kernel.Sync.{spinlock_lock_free, spinlock_lock_held, spinlock_unlock}
use clay_figure_kernel.Heap.{
  Group, Heap, group_at, put_group, no_group, block_of, block2cache, block_index, size_of,
  lock_group, unlock_group, wipe, hand_out,
}
use clay_figure_kernel.Heap.Search.{AllMarked}

-- The heap with the group's lock held.
abbrev pub locked : Heap → ℕ → Heap
locked h i = record h {
  mem_groups = set h.mem_groups i (record (group_at h i) { lock = 0 });
  pool = record h.pool {
    lock = record h.pool.lock { preempt_count = add64 h.pool.lock.preempt_count 1 };
  };
}

pub lock_group_free :
    (h : Heap) (i : ℕ) → (group_at h i).lock ≡ 1 → lock_group h i ≡ done (locked h i)
unfolding lock_group
lock_group_free h i free =
    rw
      (spinlock_lock_free
        (record { lock = (group_at h i).lock; preempt_count = h.pool.lock.preempt_count }) free)
      refl

pub lock_group_held : (h : Heap) (i : ℕ) → (group_at h i).lock ≡ 0 → lock_group h i ≡ spin
unfolding lock_group
lock_group_held h i held =
    rw
      (spinlock_lock_held
        (record { lock = (group_at h i).lock; preempt_count = h.pool.lock.preempt_count })
        (λ one. ground (arith)))
      refl

pub group_at-locked :
    (h : Heap) (i : ℕ)
    → i < length h.mem_groups
    → group_at (locked h i) i ≡ record (group_at h i) { lock = 0 }
group_at-locked h i inside =
    get_or-set_self h.mem_groups i (record (group_at h i) { lock = 0 }) no_group inside

-- The lock is no part of where a group's blocks lie.
block_size-locked :
    (h : Heap) (i j : ℕ)
    → i < length h.mem_groups
    → (group_at (locked h i) j).block_size ≡ (group_at h j).block_size
block_size-locked h i j inside = elim (Bool-cases (i == j)) [
  | inl same ↦ rw (sym ((==_iff i j).0 same), group_at-locked h i inside) refl
  | inr other ↦
      rw
        (get_or-set_ne h.mem_groups i j (record (group_at h i) { lock = 0 }) no_group
          (λ same. ground (arith)))
        refl
]

block_index-locked :
    (h : Heap) (i c b : ℕ)
    → i < length h.mem_groups
    → block_index (locked h i) c b ≡ block_index h c b
unfolding block_index size_of
block_index-locked h i c b inside = by_group (h.group c)
  where
    by_group :
        (g : Option ℕ)
        → ((elim g [ none ↦ panic | some j ↦ done (group_at (locked h i) j).block_size ])
            >>= λ size. done (sub64 b (add64 c size) / size))
          ≡ ((elim g [ none ↦ panic | some j ↦ done (group_at h j).block_size ]) >>= λ size.
              done (sub64 b (add64 c size) / size))
    by_group none = refl
    by_group (some j) = rw (block_size-locked h i j inside) refl

pub marks_locked :
    (h : Heap) (i : ℕ) (xs : List ℕ)
    → i < length h.mem_groups
    → AllMarked h i xs
    → AllMarked (locked h i) i xs
unfolding AllMarked
marks_locked h i [] inside marks = tt
marks_locked h i (x ∷ xs) inside (m, ms) = (
  record {
    index = m.index;
    group = m.group;
    indexed = block_index-locked h i (block2cache (block_of x)) (block_of x) inside ∙ m.indexed;
    magic = m.magic;
    behind = m.behind;
    member = m.member;
    placed = rw (block_size-locked h i i inside) m.placed;
    ends = rw (block_size-locked h i i inside) m.ends;
    clear_of = rw (group_at-locked h i inside) m.clear_of;
  },
  marks_locked h i xs inside ms,
)

-- What `kmalloc` hands out on the heap `h`, whose lock is held: the block, and it is counted as taken
-- in its cache and in the group, and the lock is released.
abbrev pub HandedOut : Heap → ℕ → ℕ → Run (Status × Option ℕ × Heap) → Type 0
HandedOut h i b r =
    (h' : Heap) × (r ≡ done (success, some b, h'))
    × ((group_at h' i).lock ≡ 1)
    × ((group_at h' i).total_free ≡ u32 ((group_at h i).total_free + (2 ^ 32 - 1)))
    × (h'.cnt (block2cache b) ≡ sub64 (h.cnt (block2cache b)) 1)
    × (h'.magic b ≡ 0)
    × ((x : ℕ)
        → (x < b) ⊎ (b + (group_at h i).block_size ≤ x)
        → (h'.nodes.prev x ≡ h.nodes.prev x) × (h'.nodes.next x ≡ h.nodes.next x))

-- The group with one block fewer that is free, and the heap that `hand_out` leaves.
abbrev taken_group : Heap → ℕ → Group
taken_group h i = record (group_at h i) {
  total_free = u32 ((group_at h i).total_free + (2 ^ 32 - 1));
}

abbrev handed_out : Heap → ℕ → ℕ → Heap
handed_out h i b =
    let h1 = wipe h b (group_at h i).block_size in
    let h2 = record h1 { cnt = update h1.cnt (block2cache b) (sub64 (h1.cnt (block2cache b)) 1) } in
    unlock_group (put_group h2 i (taken_group h i)) i

group_at-handed_out :
    (h : Heap) (i b : ℕ)
    → i < length h.mem_groups
    → group_at (handed_out h i b) i ≡ record (taken_group h i) { lock = 1 }
unfolding unlock_group spinlock_unlock wipe
group_at-handed_out h i b inside =
    let once = get_or-set_self h.mem_groups i (taken_group h i) no_group inside in
    rw
      (
        get_or-set_self (set h.mem_groups i (taken_group h i)) i
            (record (get_or (set h.mem_groups i (taken_group h i)) i no_group) { lock = 1 })
            no_group (rw (length-set h.mem_groups i (taken_group h i)) inside),
        once,
      )
      refl

hand_out_lem :
    (h : Heap) (i b : ℕ)
    → (wipe h b (group_at h i).block_size).group (block2cache b) ≡ some i
    → (wipe h b (group_at h i).block_size).mem_groups ≡ h.mem_groups
    → hand_out h i b ≡ done (success, some b, handed_out h i b)
unfolding hand_out
hand_out_lem h i b kept same = rw (kept, hand_out, same) refl

pub hand_out-HandedOut :
    (h : Heap) (i b : ℕ)
    → i < length h.mem_groups
    → h.group (block2cache b) ≡ some i
    → block2cache b < b
    → 0 < (group_at h i).block_size
    → HandedOut h i b (hand_out h i b)
unfolding hand_out wipe unlock_group
hand_out-HandedOut h i b inside g behind positive =
    let before : (leb b (block2cache b) && ltb (block2cache b) (b + (group_at h i).block_size))
        ≡ false =
      ground (arith) in
    let within : (leb b b && ltb b (b + (group_at h i).block_size)) ≡ true = ground (arith) in
    (
      handed_out h i b,
      hand_out_lem h i b (rw before g) refl,
      ap (λ (k : Group). k.lock) (group_at-handed_out h i b inside),
      ap (λ (k : Group). k.total_free) (group_at-handed_out h i b inside),
      rw before (update_self _ (block2cache b) (sub64 (h.cnt (block2cache b)) 1)),
      rw within refl,
      λ x out. kept x (outside x out),
    )
  where
    outside :
        (x : ℕ)
        → (x < b) ⊎ (b + (group_at h i).block_size ≤ x)
        → (leb b x && ltb x (b + (group_at h i).block_size)) ≡ false
    outside x (inl low) = ground (arith)
    outside x (inr high) = ground (arith)

    kept :
        (x : ℕ)
        → (leb b x && ltb x (b + (group_at h i).block_size)) ≡ false
        → ((handed_out h i b).nodes.prev x ≡ h.nodes.prev x)
          × ((handed_out h i b).nodes.next x ≡ h.nodes.next x)
    kept x e = rw e (refl, refl)
