-- ===== src/Atomic.antt =====
-- src/arch/x86_64/sync/atomic.c, with the routines of src/arch/x86_64/sync/asm_sync.S that it calls,
-- each a single locked instruction. An `atomic_t` is its value, of 64 bits, and a bit number is below
-- 64. A routine that returns something gives it before the new value.
pub mod Laws
use clay_figure_kernel.Base.{ℕ, ◌-◌, ◌^◌, ◌==◌, if◌then◌else◌, bit_and, bit_or, add64, sub64}
use clay_figure_kernel.Base.Bits.{bit_of}

abbrev pub Atomic : Type 0
Atomic = ℕ

pub atomic_set : Atomic → ℕ → ℕ × Atomic
atomic_set atom value = (atom, value)

abbrev pub atomic_read : Atomic → ℕ
atomic_read atom = atom

pub atomic_add : Atomic → ℕ → Atomic
atomic_add atom value = add64 atom value

pub atomic_sub : Atomic → ℕ → Atomic
atomic_sub atom value = sub64 atom value

unfoldable pub atomic_inc : Atomic → Atomic
atomic_inc atom = add64 atom 1

unfoldable pub atomic_dec : Atomic → Atomic
atomic_dec atom = sub64 atom 1

pub atomic_mask : Atomic → ℕ → Atomic
atomic_mask atom mask = bit_and atom mask

unfoldable pub atomic_bts : Atomic → ℕ → ℕ × Atomic
atomic_bts atom bit = (bit_of atom bit, bit_or atom (2 ^ bit))

unfoldable pub atomic_btr : Atomic → ℕ → ℕ × Atomic
atomic_btr atom bit = (bit_of atom bit, bit_and atom (2 ^ 64 - 1 - 2 ^ bit))

pub atomic_btc : Atomic → ℕ → ℕ × Atomic
atomic_btc atom bit = if bit_of atom bit == 1 then atomic_btr atom bit else atomic_bts atom bit
