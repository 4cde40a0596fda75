-- ===== src/Softirq/Served.antt =====
-- src/softirq/softirq.c: a soft interrupt that is pending when `do_softirq` begins.
use clay_figure_kernel.Base.{ℕ, ◌<◌, ◌≡◌}
use clay_figure_kernel.Base.Bits.{bit_of}
use clay_figure_kernel.Softirq.{Softirq, Effect}
use clay_figure_kernel.Softirq.Round.{AllRegistered}

module _ {W : Type 0} (Called : W → Type 0) (irq : ℕ) where
  -- An effect that may raise soft interrupts that have an action, clears none, leaves the action of `irq`
  -- as it is, and undoes no call.
  pub record IsRaising (f : Effect W) : Type 0 where
    pub bits :
        (st : Softirq × W) (k : ℕ)
        → k < 64
        → bit_of st.0.status k ≡ 1
        → bit_of (f st).0.status k ≡ 1
    pub registered : (st : Softirq × W) → AllRegistered st.0 → AllRegistered (f st).0
    pub called : (st : Softirq × W) → Called st.1 → Called (f st).1
    pub action : (st : Softirq × W) → (f st).0.action irq ≡ st.0.action irq
    pub argument : (st : Softirq × W) → (f st).0.softirq_data irq ≡ st.0.softirq_data irq
