-- ===== src/Softirq/Tests.antt =====
-- src/softirq/softirq.c: soft interrupts 0 and 1 with actions 10 and 20, both pending; a call of an
-- action puts it down with its data.
use clay_figure_kernel.Base.{
  false, if◌then◌else◌, ◌==◌, ◌<◌, ℕ, zero, suc, ◌≡◌, refl, arith, none, some, List, [], ◌∷◌, done,
}
use clay_figure_kernel.Base.Bits.{bit_of-zero}
use clay_figure_kernel.Base.Update.{update}
use clay_figure_kernel.Atomic.{atomic_bts, atomic_btr}
use clay_figure_kernel.Softirq.{Softirq, raise_softirq, do_softirq, softirq_loop}
use clay_figure_kernel.Softirq.Round.{AllRegistered, serve, call, quiet, do_softirq-serve}

abbrev two : Softirq
two = record {
  status = 3;
  action = update (update (λ _. none) 0 (some 10)) 1 (some 20);
  softirq_data = λ i. i;
}

abbrev note : ℕ → ℕ → List (ℕ × ℕ) → List (ℕ × ℕ)
note a d calls = (a, d) ∷ calls

two-AllRegistered : AllRegistered two
unfolding update
two-AllRegistered zero h e = (10, refl)
two-AllRegistered (suc zero) h e = (20, refl)
two-AllRegistered (suc (suc j)) h e = absurd (omega (arith, bit_of-zero j))

do_softirq_example :
    do_softirq (λ st. st) (call note) false (two, [])
    ≡ (false, (quiet two, serve note two.action two.softirq_data 3 0 64 []))
do_softirq_example = do_softirq-serve note two [] false (omega arith) two-AllRegistered

-- The calls of the reference.
served : serve note two.action two.softirq_data 3 0 64 [] ≡ (20, 1) ∷ (10, 0) ∷ []
unfolding serve update
served = refl

raised : raise_softirq two 5 ≡ done (record two { status = 35 })
unfolding raise_softirq atomic_bts
raised = refl

-- An action that is missing ends the round: soft interrupt 1 is still pending.
abbrev first_missing : Softirq
first_missing = record two { action = update (λ _. none) 1 (some 20) }

stopped :
    do_softirq (λ st. st) (call note) false (first_missing, [])
    ≡ (false, (record first_missing { status = 2 }, []))
unfolding do_softirq softirq_loop update atomic_btr
stopped = refl

-- The interrupts of a tick: soft interrupt 0 is raised where it has an action. Here it is always so, and
-- the number of calls of the action 20 is kept.
abbrev tick : Softirq × ℕ → Softirq × ℕ
tick (s, calls) = (
  elim (s.action 0) [ none ↦ s | some _ ↦ record s { status = (atomic_bts s.status 0).1 } ],
  calls,
)

abbrev count : ℕ → ℕ → Softirq × ℕ → Softirq × ℕ
count action argument (s, calls) = (s, if action == 20 then suc calls else calls)

abbrev CalledOnce : ℕ → Type 0
CalledOnce calls = 0 < calls
