-- ===== src/Sync.antt =====
-- src/arch/x86_64/sync/spinlock.c, with the routine of src/arch/x86_64/sync/asm_sync.S that it calls.
use clay_figure_kernel.Base.{
  ◌≢◌, ℕ, ◌≡◌, ◌<◌, ◌^◌, arith, ◌==◌, add64, sub64, Run, done, spin, ◌>>=◌, if◌then◌else◌,
}

-- A `spinlock_t`, beside the `preempt_count` of the running task.
pub record Spinlock : Type 0 where
  pub lock : ℕ
  pub preempt_count : ℕ

abbrev pub init_spinlock : Spinlock → Spinlock
init_spinlock s = record s { lock = 1 }

-- `xchg` stores 0 and returns the old value: 1 ends the wait. With no other processor at work a
-- held lock is never released.
pub asm_spinlock_lock : ℕ → Run ℕ
asm_spinlock_lock lock = if lock == 1 then done 0 else spin

unfoldable pub spinlock_lock : Spinlock → Run Spinlock
unfolding asm_spinlock_lock
spinlock_lock s =
    let preempt_count = add64 s.preempt_count 1 in
    asm_spinlock_lock s.lock >>= λ lock.
    done (record { lock = lock; preempt_count = preempt_count })

unfoldable pub spinlock_unlock : Spinlock → Spinlock
spinlock_unlock s = record { lock = 1; preempt_count = sub64 s.preempt_count 1 }

-- A free lock that is taken and released, with a preemption count of 64 bits, is free again, and the
-- count is as before.
pub unlock-lock :
    (s : Spinlock)
    → s.lock ≡ 1
    → s.preempt_count < 2 ^ 64
    → (spinlock_lock s >>= λ t. done (spinlock_unlock t)) ≡ done s
unfolding spinlock_lock spinlock_unlock add64 sub64
unlock-lock s free small = ground arith

pub spinlock_lock_free :
    (s : Spinlock)
    → s.lock ≡ 1
    → spinlock_lock s ≡ done (record { lock = 0; preempt_count = add64 s.preempt_count 1 })
unfolding spinlock_lock
spinlock_lock_free s free = ground arith

pub spinlock_unlock_taken :
    (s : Spinlock)
    → s.lock ≡ 1
    → s.preempt_count < 2 ^ 64
    → spinlock_unlock (record { lock = 0; preempt_count = add64 s.preempt_count 1 }) ≡ s
unfolding spinlock_unlock add64 sub64
spinlock_unlock_taken s free small = ground arith

-- A lock that is held is never got.
pub spinlock_lock_held : (s : Spinlock) → s.lock ≢ 1 → spinlock_lock s ≡ spin
unfolding spinlock_lock
spinlock_lock_held s held = ground arith
