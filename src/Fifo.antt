-- ===== src/Fifo.antt =====
-- src/lib/fifo.c and src/include/lib/fifo.h: queues of items of one size in a ring of bytes. The
-- fields of type `int` are words of 32 bits that are read with their sign: a sum, a difference or a
-- product of them wraps, and is widened with its sign where an address or a `size_t` is wanted. Memory
-- is that of src/lib/string.c, whose `memcpy` moves the items.
pub mod Slots
pub mod Write
pub mod Read
mod Tests
use clay_figure_kernel.Base.{
  ℕ, ◌+◌, ◌-◌, ◌*◌, ◌%◌, Bool, true, false, ◌==◌, if◌then◌else◌, ltb, u32, ◌^◌, panic, add64,
  Status, success, invalid_addr, out_of_resource, Run, done, ◌>>=◌,
}
use clay_figure_kernel.Sync.{Spinlock, init_spinlock, spinlock_lock, spinlock_unlock}
use clay_figure_kernel.Strings.{Bytes, memcpy}

-- An `int` as an address or a `size_t`.
abbrev pub widened : ℕ → ℕ
widened word = if ltb word (2 ^ 31) then word else word + (2 ^ 64 - 2 ^ 32)

-- `int` products and remainders. The sign of a remainder is that of `a`, and a remainder by 0 faults.
pub int_product : ℕ → ℕ → ℕ
int_product a b = u32 (a * b)

abbrev pub magnitude : ℕ → ℕ
magnitude word = if ltb word (2 ^ 31) then word else 2 ^ 32 - word

pub int_remainder : ℕ → ℕ → Run ℕ
int_remainder a b =
    let r = magnitude a % magnitude b in
    if b == 0 then panic else if ltb a (2 ^ 31) then done r else done (u32 (2 ^ 32 - r))

-- `fifo_t`; `lock` is beside the running task's `preempt_count`.
pub record Fifo : Type 0 where
  pub data_start : ℕ
  pub item_size : ℕ
  pub size : ℕ
  pub free : ℕ
  pub next_read : ℕ
  pub next_write : ℕ
  pub lock : Spinlock

-- `lock` is what stands in the memory of the lock before the call.
pub init_fifo : Spinlock → ℕ → ℕ → ℕ → Fifo
init_fifo lock data_start item_size size = record {
  data_start = data_start;
  item_size = u32 item_size;
  size = size;
  free = size;
  next_read = 0;
  next_write = 0;
  lock = init_spinlock lock;
}

pub fifo_write : Bytes → Fifo → ℕ → Run (Status × Bytes × Fifo)
fifo_write m fifo item =
    if item == 0
    then done (invalid_addr, m, fifo)
    else if fifo.free == 0
    then done (out_of_resource, m, fifo)
    else spinlock_lock fifo.lock >>= λ lock.
        let offset = widened (int_product fifo.item_size fifo.next_write) in
        let m' = (memcpy m (add64 fifo.data_start offset) item (widened fifo.item_size)).1 in
        int_remainder (u32 (fifo.next_write + 1)) fifo.size >>= λ next_write. done (
          success,
          m',
          record fifo {
            free = u32 (fifo.free + (2 ^ 32 - 1));
            next_write = next_write;
            lock = spinlock_unlock lock;
          },
        )

pub fifo_read : Bytes → Fifo → ℕ → Run (Status × Bytes × Fifo)
fifo_read m fifo item =
    if item == 0
    then done (invalid_addr, m, fifo)
    else if fifo.free == fifo.size
    then done (out_of_resource, m, fifo)
    else spinlock_lock fifo.lock >>= λ lock.
        let offset = widened (int_product fifo.item_size fifo.next_read) in
        let m' = (memcpy m item (add64 fifo.data_start offset) (widened fifo.item_size)).1 in
        int_remainder (u32 (fifo.next_read + 1)) fifo.size >>= λ next_read. done (
          success,
          m',
          record fifo {
            free = u32 (fifo.free + 1);
            next_read = next_read;
            lock = spinlock_unlock lock;
          },
        )

pub fifo_empty : Fifo → Bool
fifo_empty fifo = fifo.free == fifo.size

pub fifo_full : Fifo → Bool
fifo_full fifo = fifo.free == 0
