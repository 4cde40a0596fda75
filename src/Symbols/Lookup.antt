-- ===== src/Symbols/Lookup.antt =====
-- src/kernel/symbols.c: `addr_to_symbol` on a table whose addresses rise.
use clay_figure_kernel.Base.{
  ℕ, zero, suc, ◌+◌, ◌≤◌, ◌<◌, ◌≡◌, refl, arith, ◌⊎◌, true, false, ◌&&◌, Option, none, some, ltb,
  leb, Bool-cases, inl, inr, Status, success, error,
}
use clay_figure_kernel.Symbols.{index_loop, get_symbol_index_by_addr, addr_to_symbol}

-- `addr` lies between the address of symbol `i` and the next.
abbrev pub Inside : (ℕ → ℕ) → ℕ → ℕ → Type 0
Inside address addr i = (address i ≤ addr) × (addr < address (i + 1))

module _ (address symbols : ℕ → ℕ) (count : ℕ) where
  -- The first index from `i` on, or none.
  abbrev Located : ℕ → ℕ → ℕ → Status × Option ℕ → Type 0
  Located addr i n r =
      ((j : ℕ) × (j < i + n) × Inside address addr j × (r ≡ (success, some j)))
      ⊎ (((j : ℕ) → i ≤ j → j < i + n → ¬ Inside address addr j) × (r ≡ (error, none)))

  index_loop-Located : (addr i n : ℕ) → Located addr i n (index_loop address symbols count addr i n)
  unfolding index_loop
  index_loop-Located addr i zero = inr (λ j h1 h2. absurd (omega arith), refl)
  index_loop-Located addr i (suc n) =
      elim (Bool-cases (leb (address i) addr && ltb addr (address (i + 1)))) [
        | inl inside ↦ inl (i, omega arith, (ground (arith), ground (arith)), rw inside refl)
        | inr outside ↦ elim (index_loop-Located addr (i + 1) n) [
          | inl (j, below, inside, e) ↦ inl (j, omega arith, inside, rw outside e)
          | inr (no_other, e) ↦ inr (
            λ j h1 h2 inside. elim (Bool-cases (ltb i j)) [
              | inl later ↦ no_other j (ground (arith)) (omega arith) inside
              | inr here ↦ first i j outside (ground (arith)) inside
            ],
            rw outside e,
          )
        ]
      ]
    where
      first :
          (i j : ℕ)
          → (leb (address i) addr && ltb addr (address (i + 1))) ≡ false
          → i ≡ j
          → ¬ Inside address addr j
      first i j outside same (lo, hi) =
          let lo' : address i ≤ addr = rw same lo in
          let hi' : addr < address (i + 1) = rw same hi in ground (arith)

  -- `addr_to_symbol` of an address of the kernel, in a table whose addresses rise, with any number in the
  -- place behind the table, which is read for the last symbol: the address lies between some symbol's
  -- address and the next one's, and the result is the symbol of the only such index; or it lies between
  -- no two, and the result is "Invalid".
  pub addr_to_symbol_lem :
      (kernel_start kernel_end addr : ℕ)
      → ((i j : ℕ) → i ≤ j → j < count → address i ≤ address j)
      → kernel_start ≤ addr
      → addr ≤ kernel_end
      → ((j : ℕ) × (j < count)
          × Inside address addr j
          × ((k : ℕ) → k < count → Inside address addr k → k ≡ j)
          × (addr_to_symbol address symbols count kernel_start kernel_end addr ≡ some (symbols j)))
        ⊎ (((j : ℕ) → j < count → ¬ Inside address addr j)
            × (addr_to_symbol address symbols count kernel_start kernel_end addr ≡ none))
  unfolding addr_to_symbol get_symbol_index_by_addr
  addr_to_symbol_lem kernel_start kernel_end addr rising above below =
      elim (index_loop-Located addr 0 count) [
        | inl (j, inside_table, inside, e) ↦
            let in_table : j < count = omega (arith, inside_table) in
            inl (
              j,
              in_table,
              inside,
              λ k h in_k. only j k in_table h inside in_k,
              rw (available, e) refl,
            )
        | inr (nothing, e) ↦
            inr (λ j h inside. nothing j (omega arith) (omega arith) inside, rw (available, e) refl)
      ]
    where
      available : (leb kernel_start addr && leb addr kernel_end) ≡ true
      available = ground (arith)

      only :
          (j k : ℕ) → j < count → k < count → Inside address addr j → Inside address addr k → k ≡ j
      only j k hj hk (lo_j, hi_j) (lo_k, hi_k) = elim (Bool-cases (ltb j k)) [
        | inl less ↦ absurd (let h = rising (j + 1) k (ground (arith)) (omega arith) in omega arith)
        | inr not_less ↦ elim (Bool-cases (ltb k j)) [
          | inl less ↦
              absurd (let h = rising (k + 1) j (ground (arith)) (omega arith) in omega arith)
          | inr equal ↦ ground (arith)
        ]
      ]
