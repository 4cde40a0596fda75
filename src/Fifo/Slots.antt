-- ===== src/Fifo/Slots.antt =====
-- src/lib/fifo.c: the slots of the ring, and the invariant of a queue.
use native.Mathlib.Decide.{dec_lt}
use native.Mathlib.Nat.{mod-eq_of_lt, mod-eq-sub-mod, mod-lt, mul-suc, mul-le-mul_left}
use clay_figure_kernel.Base.{
  ℕ, suc, ◌+◌, ◌-◌, ◌*◌, ◌%◌, ◌^◌, ◌≤◌, ◌<◌, ◌≡◌, ◌≢◌, ◌⊎◌, inl, inr, refl, sym, ◌∙◌, arith, ◌==◌,
  u32, lt→ltb, ne→ne, done,
}
use clay_figure_kernel.Sync.{Spinlock}
use clay_figure_kernel.Strings.{Bytes}
use clay_figure_kernel.Fifo.{
  Fifo, widened, int_product, int_remainder, init_fifo, fifo_empty, fifo_full,
}

-- How many items wait.
abbrev pub queued : Fifo → ℕ
queued f = f.size - f.free

-- The slot of the item that `k` reads precede, and the address of slot `i`.
abbrev pub place : Fifo → ℕ → ℕ
place f k = (f.next_read + k) % f.size

abbrev pub slot : Fifo → ℕ → ℕ
slot f i = f.data_start + f.item_size * i

-- Byte `j` of that item.
abbrev pub item_at : Bytes → Fifo → ℕ → ℕ → ℕ
item_at m f k j = m (slot f (place f k) + j)

pub record IsFifo (f : Fifo) : Type 0 where
  pub some_slot : 0 < f.size
  pub counted : f.free ≤ f.size
  pub reads : f.next_read < f.size
  pub writes : f.next_write ≡ place f (queued f)
  pub small : slot f f.size < 2 ^ 64
  pub int_item : f.item_size < 2 ^ 31
  pub int_size : f.size < 2 ^ 31
  pub int_ring : f.item_size * f.size < 2 ^ 31
  pub unlocked : f.lock.lock ≡ 1
  pub preempts : f.lock.preempt_count < 2 ^ 64

-- The item's bytes do not overlap the ring.
abbrev pub Outside : Fifo → ℕ → Type 0
Outside f item = (item + f.item_size ≤ f.data_start) ⊎ (slot f f.size ≤ item)

pub wraps : (n i : ℕ) → i < n + n → ((i < n) × (i % n ≡ i)) ⊎ ((n ≤ i) × (i % n ≡ i - n))
wraps n i h = elim (dec_lt i n) [
  | yes low ↦ inl (low, mod-eq_of_lt low)
  | no high ↦ inr (
    omega arith,
    mod-eq-sub-mod {n = i} {m = n} (omega arith) ∙ mod-eq_of_lt {n = i - n} {m = n} (omega arith),
  )
]

-- Slots do not overlap.
pub slot_below : (f : Fifo) (i n : ℕ) → i < n → slot f i + f.item_size ≤ slot f n
slot_below f i n h =
    omega
      (arith, mul-le-mul_left {m = suc i} {n = n} f.item_size (omega arith), mul-suc f.item_size i)

-- The places of two items that wait, or of one and the next to come, differ.
pub place_ne : (f : Fifo) (k l : ℕ) → IsFifo f → k < l → l < f.size → place f k ≢ place f l
place_ne f k l v h hl e = omega (
  arith,
  wraps f.size (f.next_read + k) (omega (arith, v.reads)),
  wraps f.size (f.next_read + l) (omega (arith, v.reads)),
  e,
)

-- Moving on by one slot.
pub next_place : (n r k : ℕ) → r < n → k < n → ((r + 1) % n + k) % n ≡ (r + (k + 1)) % n
next_place n r k hr hk = omega (
  arith,
  wraps n (r + 1) (omega arith),
  wraps n ((r + 1) % n + k) (omega (arith, mod-lt (r + 1) {m = n} (omega arith))),
  wraps n (r + (k + 1)) (omega arith),
)

-- `init_fifo` with at least one slot, in a ring that ends below 2^64 and whose sizes are an `int`, makes
-- a valid queue.
pub init_fifo-IsFifo :
    (lock : Spinlock) (data_start item_size size : ℕ)
    → 0 < size
    → data_start + item_size * size < 2 ^ 64
    → item_size < 2 ^ 31
    → size < 2 ^ 31
    → item_size * size < 2 ^ 31
    → lock.preempt_count < 2 ^ 64
    → IsFifo (init_fifo lock data_start item_size size)
unfolding init_fifo
init_fifo-IsFifo lock data_start item_size size pos small item int_size ring preempts =
    rw (the_item) (record {
      some_slot = pos;
      counted = omega arith;
      reads = pos;
      writes = let e : 0 + (size - size) ≡ 0 = omega arith in rw e (sym (mod-eq_of_lt pos));
      small = small;
      int_item = item;
      int_size = int_size;
      int_ring = ring;
      unlocked = refl;
      preempts = preempts;
    })
  where
    the_item : u32 item_size ≡ item_size
    the_item = mod-eq_of_lt (omega arith)

-- The offset of a slot is no other as an `int`, and so are the size of an item and the steps of the
-- indices.
pub offset_int :
    (f : Fifo) (i : ℕ)
    → IsFifo f
    → i < f.size
    → widened (int_product f.item_size i) ≡ f.item_size * i
unfolding int_product
offset_int f i v h =
    let small : f.item_size * i < 2 ^ 31 =
      omega (arith, v.int_ring, mul-le-mul_left {m = i} {n = f.size} f.item_size (omega arith)) in
    rw
      (
        mod-eq_of_lt {n = f.item_size * i} {m = 2 ^ 32} (omega (arith, small)),
        lt→ltb (f.item_size * i) (2 ^ 31) small,
      )
      refl

pub widened_small : (w : ℕ) → w < 2 ^ 31 → widened w ≡ w
widened_small w h = rw (lt→ltb w (2 ^ 31) h) refl

pub next_int :
    (f : Fifo) (i : ℕ)
    → IsFifo f
    → i < f.size
    → int_remainder (u32 (i + 1)) f.size ≡ done ((i + 1) % f.size)
unfolding int_remainder
next_int f i v h =
    rw
      (
        mod-eq_of_lt {n = i + 1} {m = 2 ^ 32} (omega (arith, v.int_size)),
        ne→ne f.size 0 (λ e. omega (arith, e)),
        lt→ltb (i + 1) (2 ^ 31) (omega (arith, v.int_size)),
        lt→ltb f.size (2 ^ 31) v.int_size,
      )
      refl

-- On a valid queue `fifo_empty` tells whether no item waits, and `fifo_full` whether as many wait as
-- there are slots.
pub fifo_empty-full :
    (f : Fifo) → IsFifo f → (fifo_empty f ≡ (queued f == 0)) × (fifo_full f ≡ (queued f == f.size))
unfolding fifo_empty fifo_full
fifo_empty-full f v = (ground (arith, v.counted), ground (arith, v.counted))
