-- ===== src/Softirq.antt =====
-- src/softirq/softirq.c and src/include/softirq.h: the soft interrupts. An action is a pointer to a
-- function, so what a call of it does is a parameter; `none` is the null pointer. The rest of the
-- machine is a type `W`. What the interrupts do that come in while `do_softirq` has them enabled is a
-- parameter too, and the interrupt flag is a Bool.
pub mod Round
pub mod Served
mod Tests
use clay_figure_kernel.Base.{
  ℕ, zero, suc, ◌+◌, Bool, true, Option, none, some, ltb, ◌==◌, if◌then◌else◌, Run, done, ◌>>◌,
  assert,
}
use clay_figure_kernel.Base.Update.{update}
use clay_figure_kernel.Atomic.{Atomic, atomic_set, atomic_read, atomic_bts, atomic_btr}

abbrev pub max_softirq : ℕ
max_softirq = 64

-- The struct `softirq`, with the two members of each `softirq_t`.
pub record Softirq : Type 0 where
  pub status : Atomic
  pub action : ℕ → Option ℕ
  pub softirq_data : ℕ → ℕ

pub softirq_init : Softirq → Softirq
softirq_init s = record {
  status = (atomic_set s.status 0).1;
  action = λ _. none;
  softirq_data = λ _. 0;
}

pub register_softirq : Softirq → ℕ → Option ℕ → ℕ → Run Softirq
register_softirq s irq action argument =
    assert (ltb irq max_softirq)
    >> done (record s {
      action = update s.action irq action;
      softirq_data = update s.softirq_data irq argument;
    })

pub unregister_softirq : Softirq → ℕ → Run Softirq
unregister_softirq s irq =
    assert (ltb irq max_softirq)
    >> done
        (record s { action = update s.action irq none; softirq_data = update s.softirq_data irq 0 })

pub raise_softirq : Softirq → ℕ → Run Softirq
raise_softirq s irq =
    assert (ltb irq max_softirq) >> done (record s { status = (atomic_bts s.status irq).1 })

-- What is done to the soft interrupts and to the rest of the machine.
abbrev pub Effect : Type 0 → Type 0
Effect W = Softirq × W → Softirq × W

-- The loop from `i` on, `n` rounds before its end. Interrupts are enabled in it: `intr` is what those do
-- that come in before the status is read, and before the bit is tested.
pub softirq_loop : {W : Type 0} → Effect W → (ℕ → ℕ → Effect W) → ℕ → ℕ → Effect W
softirq_loop intr call i zero st = st
softirq_loop intr call i (suc n) st =
    let read = intr st in
    let before = intr read in
    let tested = atomic_btr before.0.status i in
    let cleared = record (before.0) { status = tested.1 } in
    if atomic_read read.0.status == 0
    then read
    else if tested.0 == 1
    then elim (cleared.action i) [
      | none ↦ (cleared, before.1)
      | some action ↦
          softirq_loop intr call (i + 1) n
            (call action (cleared.softirq_data i) (cleared, before.1))
    ]
    else softirq_loop intr call (i + 1) n (cleared, before.1)

-- `intr_enable` and `intr_set_status`: whether interrupts were enabled, and whether they are now.
abbrev pub intr_enable : Bool → Bool × Bool
intr_enable enabled = (enabled, true)

abbrev pub intr_set_status : Bool → Bool → Bool × Bool
intr_set_status status enabled = (enabled, status)

pub do_softirq :
    {W : Type 0} → Effect W → (ℕ → ℕ → Effect W) → Bool → Softirq × W → Bool × (Softirq × W)
do_softirq intr call enabled st =
    let (intr_status, inside) = intr_enable enabled in
    let st' = softirq_loop intr call 0 64 st in ((intr_set_status intr_status inside).1, st')
