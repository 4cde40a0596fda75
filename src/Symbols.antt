-- ===== src/Symbols.antt =====
-- src/kernel/symbols.c: the symbol of an address. The table of symbols is made by the build and is a
-- parameter: the addresses, the strings and their number. A string is its address, `none` is the
-- string "Invalid", and an index is not negative.
pub mod Lookup
mod Tests
use clay_figure_kernel.Base.{
  ℕ, zero, suc, ◌+◌, Bool, not, ◌&&◌, Option, none, some, ltb, leb, if◌then◌else◌, Status, success,
  error, is_error,
}

abbrev pub is_available_symbol_address : ℕ → ℕ → ℕ → Bool
is_available_symbol_address kernel_start kernel_end addr =
    leb kernel_start addr && leb addr kernel_end

module _ (kallsyms_address : ℕ → ℕ) (kallsyms_symbols : ℕ → ℕ) (kallsyms_count : ℕ) where
  -- The loop from `i` on; the option is what is stored through `index`.
  pub index_loop : ℕ → ℕ → ℕ → Status × Option ℕ
  index_loop addr i zero = (error, none)
  index_loop addr i (suc n) =
      let rest = index_loop addr (i + 1) n in
      if leb (kallsyms_address i) addr && ltb addr (kallsyms_address (i + 1))
      then (success, some i)
      else rest

  pub get_symbol_index_by_addr : ℕ → Status × Option ℕ
  get_symbol_index_by_addr addr = index_loop addr 0 kallsyms_count

  pub index_to_symbol : ℕ → Option ℕ
  index_to_symbol index = if ltb index kallsyms_count then some (kallsyms_symbols index) else none

  -- 0 is the null pointer.
  pub index_to_addr : ℕ → ℕ
  index_to_addr index = if ltb index kallsyms_count then kallsyms_address index else 0

  pub addr_to_symbol : ℕ → ℕ → ℕ → Option ℕ
  addr_to_symbol kernel_start kernel_end addr =
      let (status, i) = get_symbol_index_by_addr addr in
      if not (is_available_symbol_address kernel_start kernel_end addr)
      then none
      else if is_error status
      then none
      else elim i [ none ↦ none | some i ↦ some (kallsyms_symbols i) ]
