-- ===== src/Fifo/Read.antt =====
-- src/lib/fifo.c: `fifo_read` takes the first item.
use native.Mathlib.Decide.{ℕ_discrete}
use native.Mathlib.Nat.{mod-eq_of_lt, mod-lt}
use clay_figure_kernel.Base.{
  ℕ, suc, ◌+◌, ◌*◌, ◌%◌, ◌^◌, ◌≤◌, ◌<◌, ◌≡◌, ◌≢◌, ◌⊎◌, inl, inr, refl, ap, sym, ◌∙◌, arith, u32,
  add64_exact, ==_iff, ne→ne, Status, success, out_of_resource, Run, done,
}
use clay_figure_kernel.Sync.{spinlock_lock_free, spinlock_unlock_taken}
use clay_figure_kernel.Strings.{Bytes, memcpy}
use clay_figure_kernel.Fifo.{Fifo, fifo_read}
use clay_figure_kernel.Fifo.Slots.{
  queued, place, slot, item_at, IsFifo, Outside, slot_below, next_place, offset_int, widened_small,
  next_int,
}
use clay_figure_kernel.Fifo.Write.{copied_in, copied_out}

-- The two ways in which the call ends.
abbrev pub TakenFirst : Bytes → Fifo → ℕ → Run (Status × Bytes × Fifo) → Type 0
TakenFirst m f item r =
    ((m' : Bytes) × (f' : Fifo) × (r ≡ done (success, m', f'))
      × IsFifo f'
      × (queued f ≡ suc (queued f'))
      × ((k j : ℕ) → k < queued f' → j < f.item_size → item_at m' f' k j ≡ item_at m f (k + 1) j)
      × ((j : ℕ) → j < f.item_size → m' (item + j) ≡ item_at m f 0 j))
    ⊎ ((r ≡ done (out_of_resource, m, f)) × (queued f ≡ 0))

empty_read :
    (m : Bytes) (f : Fifo) (item : ℕ)
    → item ≢ 0
    → f.free ≡ f.size
    → fifo_read m f item ≡ done (out_of_resource, m, f)
unfolding fifo_read
empty_read m f item nonnull empty = rw (ne→ne item 0 nonnull, (==_iff f.free f.size).1 empty) refl

module _ (m : Bytes) (f : Fifo) (item : ℕ) (v : IsFifo f) (out : Outside f item)
    (high : item + f.item_size < 2 ^ 64) (waits : f.free < f.size) where
  abbrev at_slot : ℕ
  at_slot = slot f f.next_read

  abbrev copied : Bytes
  copied = (memcpy m item at_slot f.item_size).1

  abbrev shortened : Fifo
  shortened = record f { free = f.free + 1; next_read = (f.next_read + 1) % f.size }

  inside : (i : ℕ) → i < f.size → slot f i + f.item_size ≤ slot f f.size
  inside i h = slot_below f i f.size h

  fits : at_slot + f.item_size < 2 ^ 64
  fits = omega (arith, inside f.next_read v.reads, v.small)

  clear : (item ≤ at_slot) ⊎ (at_slot + f.item_size ≤ item)
  clear = omega (arith, out, inside f.next_read v.reads)

  in_ring :
      (i j : ℕ)
      → i < f.size
      → j < f.item_size
      → (slot f i + j < item) ⊎ (item + f.item_size ≤ slot f i + j)
  in_ring i j h hj = omega (arith, out, inside i h)

  first_place : place f 0 ≡ f.next_read
  first_place = let e : f.next_read + 0 ≡ f.next_read = omega arith in rw e (mod-eq_of_lt v.reads)

  shift : (k : ℕ) → k < f.size → place shortened k ≡ place f (k + 1)
  shift k h = next_place f.size f.next_read k v.reads h

  shortened-IsFifo : IsFifo shortened
  shortened-IsFifo = record {
    some_slot = v.some_slot;
    counted = omega arith;
    reads = mod-lt (f.next_read + 1) {m = f.size} v.some_slot;
    writes =
        v.writes
        ∙ ap (place f) (omega arith)
        ∙ sym (shift (queued shortened) (omega (arith, waits)));
    small = v.small;
    int_item = v.int_item;
    int_size = v.int_size;
    int_ring = v.int_ring;
    unlocked = v.unlocked;
    preempts = v.preempts;
  }

  more : u32 (f.free + 1) ≡ f.free + 1
  more = omega (arith, v.counted, v.int_size)

  runs : item ≢ 0 → fifo_read m f item ≡ done (success, copied, shortened)
  unfolding fifo_read
  runs nonnull =
      rw
        (
          ne→ne item 0 nonnull,
          ne→ne f.free f.size (λ e. omega (arith, e)),
          spinlock_lock_free f.lock v.unlocked,
          spinlock_unlock_taken f.lock v.unlocked v.preempts,
          offset_int f f.next_read v v.reads,
          widened_small f.item_size v.int_item,
          next_int f f.next_read v v.reads,
          more,
          add64_exact f.data_start (f.item_size * f.next_read) (omega (arith, fits)),
        )
        refl

  takes : item ≢ 0 → TakenFirst m f item (fifo_read m f item)
  takes nonnull = inl (
    copied,
    shortened,
    runs nonnull,
    shortened-IsFifo,
    omega arith,
    (λ k j h hj.
        copied_out m item at_slot f.item_size (slot f (place shortened k) + j) high fits clear (
          in_ring (place shortened k) j (mod-lt (shortened.next_read + k) {m = f.size} v.some_slot)
            hj)
        ∙ ap (λ (w : ℕ). m (slot f w + j)) (shift k (omega arith))),
    (λ j hj.
        copied_in m item at_slot f.item_size j high fits clear hj
        ∙ ap (λ (w : ℕ). m (slot f w + j)) (sym first_place)),
  )

-- `fifo_read` from a valid queue, whose ring and whose number of slots are below 2^31, to a place that is
-- not NULL, ends below 2^64 and does not overlap the ring. Either it returns K_SUCCESS and leaves a
-- valid queue with one item less: the first item is at the place, and the others are as they were; or
-- nothing waits, and it returns K_OUT_OF_RESOURCE and changes nothing.
pub fifo_read-TakenFirst :
    (m : Bytes) (f : Fifo) (item : ℕ)
    → IsFifo f
    → Outside f item
    → item + f.item_size < 2 ^ 64
    → item ≢ 0
    → TakenFirst m f item (fifo_read m f item)
fifo_read-TakenFirst m f item v out high nonnull = elim (ℕ_discrete f.free f.size) [
  | no waiting ↦ takes m f item v out high (omega (arith, v.counted)) nonnull
  | yes empty ↦ inr (empty_read m f item nonnull empty, omega arith)
]
