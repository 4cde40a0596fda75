-- ===== src/Symbols/Tests.antt =====
-- src/kernel/symbols.c: two symbols, at 100 and 120, and the end of the code at 140.
use clay_figure_kernel.Base.{ℕ, ◌+◌, ◌*◌, ◌≡◌, ◌<◌, ◌⊎◌, refl, arith, none, some}
use clay_figure_kernel.Symbols.{get_symbol_index_by_addr, index_loop, addr_to_symbol, index_to_addr}
use clay_figure_kernel.Symbols.Lookup.{Inside, addr_to_symbol_lem}

abbrev addresses : ℕ → ℕ
addresses i = 100 + i * 20

abbrev names : ℕ → ℕ
names i = 1000 + i

second_example :
    ((j : ℕ) × (j < 2)
      × Inside addresses 130 j
      × ((k : ℕ) → k < 2 → Inside addresses 130 k → k ≡ j)
      × (addr_to_symbol addresses names 2 100 140 130 ≡ some (names j)))
    ⊎ (((j : ℕ) → j < 2 → ¬ Inside addresses 130 j)
        × (addr_to_symbol addresses names 2 100 140 130 ≡ none))
second_example =
    addr_to_symbol_lem addresses names 2 100 140 130 (λ i j h1 h2. omega arith) (omega arith)
      (omega arith)

second : addr_to_symbol addresses names 2 100 140 130 ≡ some 1001
unfolding addr_to_symbol get_symbol_index_by_addr index_loop
second = refl

behind : index_to_addr addresses names 2 2 ≡ 0
unfolding index_to_addr
behind = refl
