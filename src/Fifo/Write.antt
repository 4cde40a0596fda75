-- ===== src/Fifo/Write.antt =====
-- src/lib/fifo.c: `fifo_write` appends an item.
use native.Mathlib.Decide.{ℕ_discrete, dec_lt}
use native.Mathlib.Nat.{mod-lt, mod-add-mod}
use clay_figure_kernel.Base.{
  ℕ, suc, ◌+◌, ◌-◌, ◌*◌, ◌%◌, ◌^◌, ◌≤◌, ◌<◌, ◌≡◌, ◌≢◌, ◌⊎◌, inl, inr, refl, ap, sym, ◌∙◌, arith,
  u32, add64_exact, ==_iff, ne→ne, lt→ltb, le→ltb, le→leb, lt→leb, Status, success, out_of_resource,
  Run, done,
}
use clay_figure_kernel.Sync.{spinlock_lock_free, spinlock_unlock_taken}
use clay_figure_kernel.Strings.{Bytes, memcpy}
use clay_figure_kernel.Strings.Blocks.{memcpy_lem}
use clay_figure_kernel.Fifo.{Fifo, fifo_write}
use clay_figure_kernel.Fifo.Slots.{
  queued, place, slot, item_at, IsFifo, Outside, slot_below, place_ne, offset_int, widened_small,
  next_int,
}

-- The two ways in which the call ends.
abbrev pub Written : Bytes → Fifo → ℕ → Run (Status × Bytes × Fifo) → Type 0
Written m f item r =
    ((m' : Bytes) × (f' : Fifo) × (r ≡ done (success, m', f'))
      × IsFifo f'
      × (queued f' ≡ suc (queued f))
      × ((k j : ℕ) → k < queued f → j < f.item_size → item_at m' f' k j ≡ item_at m f k j)
      × ((j : ℕ) → j < f.item_size → item_at m' f' (queued f) j ≡ m (item + j)))
    ⊎ ((r ≡ done (out_of_resource, m, f)) × (queued f ≡ f.size))

-- A block copied over: what stands in it, and what does not.
pub copied_in :
    (m : Bytes) (d s size j : ℕ)
    → d + size < 2 ^ 64
    → s + size < 2 ^ 64
    → (d ≤ s) ⊎ (s + size ≤ d)
    → j < size
    → (memcpy m d s size).1 (d + j) ≡ m (s + j)
copied_in m d s size j hd hs apart h =
    let e : s + (d + j - d) ≡ s + j = omega arith in
    memcpy_lem m d s size (d + j) hd hs apart
    ∙ rw (le→leb d (d + j) (omega arith), lt→ltb (d + j) (d + size) (omega arith), e) refl

pub copied_out :
    (m : Bytes) (d s size x : ℕ)
    → d + size < 2 ^ 64
    → s + size < 2 ^ 64
    → (d ≤ s) ⊎ (s + size ≤ d)
    → (x < d) ⊎ (d + size ≤ x)
    → (memcpy m d s size).1 x ≡ m x
copied_out m d s size x hd hs apart (inl low) =
    memcpy_lem m d s size x hd hs apart ∙ rw (lt→leb x d low) refl
copied_out m d s size x hd hs apart (inr high) =
    memcpy_lem m d s size x hd hs apart
    ∙ rw (le→leb d x (omega arith), le→ltb x (d + size) high) refl

full_write :
    (m : Bytes) (f : Fifo) (item : ℕ)
    → item ≢ 0
    → f.free ≡ 0
    → fifo_write m f item ≡ done (out_of_resource, m, f)
unfolding fifo_write
full_write m f item nonnull full = rw (ne→ne item 0 nonnull, (==_iff f.free 0).1 full) refl

module _ (m : Bytes) (f : Fifo) (item : ℕ) (v : IsFifo f) (out : Outside f item)
    (high : item + f.item_size < 2 ^ 64) (pos : 0 < f.free) where
  abbrev at_slot : ℕ
  at_slot = slot f f.next_write

  abbrev written : Bytes
  written = (memcpy m at_slot item f.item_size).1

  abbrev appended : Fifo
  appended = record f { free = f.free - 1; next_write = (f.next_write + 1) % f.size }

  write_below : f.next_write < f.size
  write_below = omega (arith, v.writes, mod-lt (f.next_read + queued f) {m = f.size} v.some_slot)

  fits : at_slot + f.item_size < 2 ^ 64
  fits = omega (arith, slot_below f f.next_write f.size write_below, v.small)

  clear : (at_slot ≤ item) ⊎ (item + f.item_size ≤ at_slot)
  clear = omega (arith, out, slot_below f f.next_write f.size write_below)

  other_slot :
      (k j : ℕ)
      → k < queued f
      → j < f.item_size
      → (slot f (place f k) + j < at_slot) ⊎ (at_slot + f.item_size ≤ slot f (place f k) + j)
  other_slot k j h hj = elim (dec_lt (place f k) f.next_write) [
    | yes before ↦ inl (omega (arith, slot_below f (place f k) f.next_write before))
    | no not_before ↦ elim (ℕ_discrete (place f k) f.next_write) [
      | yes same ↦ absurd (place_ne f k (queued f) v h (omega (arith, v.counted)) (same ∙ v.writes))
      | no differ ↦ inr (omega (arith, slot_below f f.next_write (place f k) (omega arith)))
    ]
  ]

  queued-appended : queued appended ≡ suc (queued f)
  queued-appended = omega (arith, v.counted)

  appended-IsFifo : IsFifo appended
  appended-IsFifo = record {
    some_slot = v.some_slot;
    counted = omega (arith, v.counted);
    reads = v.reads;
    writes =
        ap (λ (w : ℕ). (w + 1) % f.size) v.writes
        ∙ mod-add-mod (f.next_read + queued f) f.size 1
        ∙ ap (λ (w : ℕ). w % f.size) (omega (arith, queued-appended));
    small = v.small;
    int_item = v.int_item;
    int_size = v.int_size;
    int_ring = v.int_ring;
    unlocked = v.unlocked;
    preempts = v.preempts;
  }

  less : u32 (f.free + (2 ^ 32 - 1)) ≡ f.free - 1
  less = omega (arith, v.counted, v.int_size)

  runs : item ≢ 0 → fifo_write m f item ≡ done (success, written, appended)
  unfolding fifo_write
  runs nonnull =
      rw
        (
          ne→ne item 0 nonnull,
          ne→ne f.free 0 (λ e. omega (arith, e)),
          spinlock_lock_free f.lock v.unlocked,
          spinlock_unlock_taken f.lock v.unlocked v.preempts,
          offset_int f f.next_write v write_below,
          widened_small f.item_size v.int_item,
          next_int f f.next_write v write_below,
          less,
          add64_exact f.data_start (f.item_size * f.next_write) (omega (arith, fits)),
        )
        refl

  appends : item ≢ 0 → Written m f item (fifo_write m f item)
  appends nonnull = inl (
    written,
    appended,
    runs nonnull,
    appended-IsFifo,
    queued-appended,
    (λ k j h hj.
        copied_out m at_slot item f.item_size (slot f (place f k) + j) fits high clear
          (other_slot k j h hj)),
    (λ j hj.
        ap (λ (w : ℕ). written (slot f w + j)) (sym v.writes)
        ∙ copied_in m at_slot item f.item_size j fits high clear hj),
  )

-- `fifo_write` to a valid queue, whose ring and whose number of slots are below 2^31, of an item that is
-- not NULL, ends below 2^64 and does not overlap the ring. Either it returns K_SUCCESS and leaves a
-- valid queue with one item more: the item as the last, and those that waited as they were; or all
-- slots are in use, and it returns K_OUT_OF_RESOURCE and changes nothing.
pub fifo_write-Written :
    (m : Bytes) (f : Fifo) (item : ℕ)
    → IsFifo f
    → Outside f item
    → item + f.item_size < 2 ^ 64
    → item ≢ 0
    → Written m f item (fifo_write m f item)
fifo_write-Written m f item v out high nonnull = elim (ℕ_discrete f.free 0) [
  | no room ↦ appends m f item v out high (omega arith) nonnull
  | yes full ↦ inr (full_write m f item nonnull full, omega arith)
]
