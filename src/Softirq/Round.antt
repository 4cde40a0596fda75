-- ===== src/Softirq/Round.antt =====
-- src/softirq/softirq.c: what one round of `do_softirq` does with the status word and the actions.
use clay_figure_kernel.Base.{
  Bool, ℕ, zero, suc, ◌+◌, ◌-◌, ◌/◌, ◌^◌, ◌≤◌, ◌<◌, ◌≡◌, ◌≢◌, refl, ap, sym, ◌∙◌, arith, Option,
  none, some, ◌==◌, if◌then◌else◌, ==_iff, ne→ne, Bool-cases, inl, inr, bit_and,
}
use clay_figure_kernel.Base.Bits.{bit_of, bit_of-zero, bit_and_step}
use native.Mathlib.Nat.{pow-suc}
use clay_figure_kernel.Atomic.{atomic_btr}
use clay_figure_kernel.Atomic.Laws.{atomic_btr_lem}
use clay_figure_kernel.Softirq.{Softirq, softirq_loop, do_softirq}

bit_and-nil : (a b : ℕ) → a + b ≤ 0 → bit_and a b ≤ a
bit_and-nil a b h =
    let a0 : a ≡ 0 = omega arith in let b0 : b ≡ 0 = omega arith in rw (a0, b0) (omega arith)

bit_and-le_below : (n a b : ℕ) → a + b ≤ n → bit_and a b ≤ a
bit_and-le_below zero a b h = bit_and-nil a b h
bit_and-le_below (suc n) a b h = elim (Bool-cases (a + b == 0)) [
  | inl nil ↦ bit_and-nil a b (ground (arith))
  | inr more ↦ omega (arith, bit_and_step a b, bit_and-le_below n (a / 2) (b / 2) (ground (arith)))
]

-- Clearing a bit does not raise the word.
atomic_btr-le : (w i : ℕ) → (atomic_btr w i).1 ≤ w
unfolding atomic_btr
atomic_btr-le w i = bit_and-le_below (w + (2 ^ 64 - 1 - 2 ^ i)) w (2 ^ 64 - 1 - 2 ^ i) (omega arith)

-- A word without bits is 0.
no_bits : (n w : ℕ) → w < 2 ^ n → ((i : ℕ) → i < n → bit_of w i ≡ 0) → w ≡ 0
no_bits zero w small bits = omega arith
no_bits (suc n) w small bits = omega (
  arith,
  bits 0 (omega arith),
  pow-suc 2 n,
  no_bits n (w / 2) (omega (arith, pow-suc 2 n)) (λ i h. bits (suc i) (omega arith)),
)

module _ {W : Type 0} (run : ℕ → ℕ → W → W) where
  -- The reference: the calls of the actions of the bits that are set in `status`, from `i` on upwards.
  unfoldable pub serve : (ℕ → Option ℕ) → (ℕ → ℕ) → ℕ → ℕ → ℕ → W → W
  serve action softirq_data status i zero w = w
  serve action softirq_data status i (suc n) w = serve action softirq_data status (i + 1) n (
      if bit_of status i == 1
      then elim (action i) [ none ↦ w | some a ↦ run a (softirq_data i) w ]
      else w)

  serve_ext :
      (action : ℕ → Option ℕ) (softirq_data : ℕ → ℕ) (status status' i n : ℕ) (w : W)
      → ((j : ℕ) → i ≤ j → j < i + n → bit_of status j ≡ bit_of status' j)
      → serve action softirq_data status i n w ≡ serve action softirq_data status' i n w
  unfolding serve
  serve_ext action softirq_data status status' i zero w same = refl
  serve_ext action softirq_data status status' i (suc n) w same =
      rw (same i (omega arith) (omega arith)) (
        serve_ext action softirq_data status status' (i + 1) n
          (if bit_of status' i == 1
            then elim (action i) [ none ↦ w | some a ↦ run a (softirq_data i) w ]
            else w)
          (λ j h1 h2. same j (omega arith) (omega arith)))

  serve_nothing :
      (action : ℕ → Option ℕ) (softirq_data : ℕ → ℕ) (i n : ℕ) (w : W)
      → serve action softirq_data 0 i n w ≡ w
  unfolding serve
  serve_nothing action softirq_data i zero w = refl
  serve_nothing action softirq_data i (suc n) w =
      rw (bit_of-zero i) (serve_nothing action softirq_data (i + 1) n w)

-- Each pending soft interrupt has an action.
abbrev pub AllRegistered : Softirq → Type 0
AllRegistered s = (j : ℕ) → j < 64 → bit_of s.status j ≡ 1 → (a : ℕ) × (s.action j ≡ some a)

abbrev pub quiet : Softirq → Softirq
quiet s = record s { status = 0 }

abbrev pub cleared : Softirq → ℕ → Softirq
cleared s i = record s { status = (atomic_btr s.status i).1 }

-- The other bits are as before.
pub cleared_bit :
    (s : Softirq) (i j : ℕ)
    → i < 64
    → j < 64
    → i ≢ j
    → bit_of (cleared s i).status j ≡ bit_of s.status j
cleared_bit s i j hi hj other =
    (atomic_btr_lem s.status i j hi hj).1 ∙ rw (ne→ne j i (λ e. other (sym e))) refl

cleared_below :
    (s : Softirq) (i : ℕ)
    → i < 64
    → ((j : ℕ) → j < i → bit_of s.status j ≡ 0)
    → (j : ℕ) → j < i + 1
    → bit_of (cleared s i).status j ≡ 0
cleared_below s i hi below j h = elim (Bool-cases (j == i)) [
  | inl same ↦ (atomic_btr_lem s.status i j hi (omega arith)).1 ∙ rw same refl
  | inr other ↦ cleared_bit s i j hi (omega arith) (λ e. ground (arith)) ∙ below j (ground (arith))
]

pub cleared-AllRegistered :
    (s : Softirq) (i : ℕ) → i < 64 → AllRegistered s → AllRegistered (cleared s i)
cleared-AllRegistered s i hi registered j hj set_bit = elim (Bool-cases (j == i)) [
  | inl same ↦ absurd (
      let zero_bit : bit_of (cleared s i).status j ≡ 0 =
        (atomic_btr_lem s.status i j hi hj).1 ∙ rw same refl in
      omega arith)
  | inr other ↦ registered j hj (sym (cleared_bit s i j hi hj (λ e. ground (arith))) ∙ set_bit)
]

module _ {W : Type 0} (run : ℕ → ℕ → W → W) where
  -- A call that leaves the soft interrupts alone.
  abbrev pub call : ℕ → ℕ → Softirq × W → Softirq × W
  call a d (s, w) = (s, run a d w)

  nothing_pending :
      (s : Softirq) (w : W) (i n : ℕ)
      → s.status ≡ 0
      → ◌≡◌ {A = Softirq × W} (s, w) (quiet s, serve run s.action s.softirq_data s.status i n w)
  nothing_pending s w i n none_set =
      rw (none_set, serve_nothing run s.action s.softirq_data i n w) refl

  softirq_loop_lem :
      (s : Softirq) (w : W) (i n : ℕ)
      → i + n ≡ 64
      → s.status < 2 ^ 64
      → ((j : ℕ) → j < i → bit_of s.status j ≡ 0)
      → AllRegistered s
      → softirq_loop (λ st. st) call i n (s, w)
        ≡ (quiet s, serve run s.action s.softirq_data s.status i n w)
  unfolding softirq_loop serve
  softirq_loop_lem s w i zero total small below registered =
      nothing_pending s w i zero (no_bits 64 s.status small (λ j h. below j (omega arith)))
  softirq_loop_lem s w i (suc n) total small below registered =
      let hi : i < 64 = omega arith in
      let step : (w' : W)
          → softirq_loop (λ st. st) call (i + 1) n (cleared s i, w')
            ≡ (quiet s, serve run s.action s.softirq_data s.status (i + 1) n w') =
        λ w'.
          softirq_loop_lem (cleared s i) w' (i + 1) n (omega arith)
            (omega (arith, atomic_btr-le s.status i)) (cleared_below s i hi below)
            (cleared-AllRegistered s i hi registered)
          ∙ ap (λ (v : W). (quiet s, v))
              (serve_ext run s.action s.softirq_data (cleared s i).status s.status (i + 1) n w'
                (λ j h1 h2. cleared_bit s i j hi (omega arith) (λ e. omega arith))) in
      let bit = (atomic_btr_lem s.status i i hi hi).0 in
      elim (Bool-cases (s.status == 0)) [
        | inl none_set ↦
            rw none_set (nothing_pending s w i (suc n) ((==_iff s.status 0).0 none_set))
        | inr pending ↦ elim (Bool-cases (bit_of s.status i == 1)) [
          | inl set_bit ↦
              let (a, e) = registered i hi ((==_iff (bit_of s.status i) 1).0 set_bit) in
              rw (pending, bit, set_bit, e) (step (run a (s.softirq_data i) w))
          | inr clear_bit ↦ rw (pending, bit, clear_bit) (step w)
        ]
      ]

  -- `do_softirq`, where no interrupt comes in during the round, each pending soft interrupt has an action
  -- and the actions leave the soft interrupts alone, calls the actions of the pending ones, each once
  -- and by rising number; none is pending after it, and the interrupt flag is as before.
  pub do_softirq-serve :
      (s : Softirq) (w : W) (enabled : Bool)
      → s.status < 2 ^ 64
      → AllRegistered s
      → do_softirq (λ st. st) call enabled (s, w)
        ≡ (enabled, (quiet s, serve run s.action s.softirq_data s.status 0 64 w))
  unfolding do_softirq
  do_softirq-serve s w enabled small registered =
      ap (λ (st : Softirq × W). (enabled, st))
        (softirq_loop_lem s w 0 64 refl small (λ j h. absurd (omega arith)) registered)
