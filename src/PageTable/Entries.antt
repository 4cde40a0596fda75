-- ===== src/PageTable/Entries.antt =====
-- src/arch/x86_64/mem/page.c: where the entries of a table stand, and what their bits say.
use native.Mathlib.Decide.{ℕ_discrete, dec_lt}
use native.Mathlib.Nat.{pow-suc, le_refl}
use clay_figure_kernel.Base.{
  ℕ, zero, suc, ◌+◌, ◌*◌, ◌/◌, ◌%◌, ◌^◌, ◌≤◌, ◌<◌, ◌≡◌, ◌≢◌, ◌⊎◌, inl, inr, refl, ap, ◌∙◌, arith,
  true, bit_or, add64, sub64,
}
use clay_figure_kernel.Base.Bits.{bit_or_step}
use clay_figure_kernel.PageTable.{
  kernel_vma_base, Words, phys_to_virt, virt_to_phys, entry_at, entry_of, is_present, table_of,
  page_of, clear, pml4t_index, pdpt_index, pdt_index,
}

-- The address of a table: aligned, and in the half that `PHYS_TO_VIRT` maps.
abbrev pub IsTable : ℕ → Type 0
IsTable t = (t % 4096 ≡ 0) × (t < 2 ^ 47)

-- The virtual address of entry `i` of the table `t`.
abbrev pub slot : ℕ → ℕ → ℕ
slot t i = t + 8 * i + kernel_vma_base

pub entry_at-slot : (t i : ℕ) → IsTable t → i < 512 → entry_at t i ≡ slot t i
unfolding entry_at phys_to_virt add64
entry_at-slot t i h lt = omega arith

pub entry_of-slot : (t i : ℕ) → IsTable t → i < 512 → entry_of (phys_to_virt t) i ≡ slot t i
unfolding entry_of phys_to_virt add64
entry_of-slot t i h lt = omega arith

pub phys_to_virt-slot : (t : ℕ) → IsTable t → phys_to_virt t ≡ slot t 0
unfolding phys_to_virt add64
phys_to_virt-slot t h = omega arith

pub virt_to_phys-to_virt : (t : ℕ) → IsTable t → virt_to_phys (phys_to_virt t) ≡ t
unfolding virt_to_phys phys_to_virt add64 sub64
virt_to_phys-to_virt t h = omega arith

pub slot_apart :
    (t t' i i' : ℕ) → IsTable t → IsTable t' → i < 512 → i' < 512 → t ≢ t' → slot t i ≢ slot t' i'
slot_apart t t' i i' h h' lt lt' ne e = ne (omega arith)

-- Two tables do not overlap.
below_or_above : (t t' : ℕ) → IsTable t → IsTable t' → t ≢ t' → (t' + 4096 ≤ t) ⊎ (t + 4096 ≤ t')
below_or_above t t' h h' ne = elim (dec_lt t t') [
  | yes lt ↦ inr (omega arith)
  | no ge ↦ elim (ℕ_discrete t t') [ yes e ↦ absurd (ne e) | no _ ↦ inl (omega arith) ]
]

pub clear_outside :
    (w : Words) (t t' i : ℕ)
    → IsTable t
    → IsTable t'
    → i < 512
    → t ≢ t'
    → clear w (slot t 0) 4096 (slot t' i) ≡ w (slot t' i)
unfolding clear
clear_outside w t t' i h h' lt ne = elim (below_or_above t t' h h' ne) [
  | inl below ↦ ground arith
  | inr above ↦ ground arith
]

pub clear_inside : (w : Words) (t i : ℕ) → i < 512 → clear w (slot t 0) 4096 (slot t i) ≡ 0
unfolding clear
clear_inside w t i lt = ground arith

bit_or-nil_below : (n a : ℕ) → a ≤ n → bit_or a 0 ≡ a
bit_or-nil_below n zero h = refl
bit_or-nil_below zero (suc a) h = absurd (omega arith)
bit_or-nil_below (suc n) (suc a) h =
    omega (arith, bit_or_step (suc a) 0, bit_or-nil_below n (suc a / 2) (omega arith))

-- `table | flags`, where the low bits of `table` are 0.
pub bit_or-low : (k a f : ℕ) → f < 2 ^ k → bit_or (a * 2 ^ k) f ≡ a * 2 ^ k + f
bit_or-low zero a f lt =
    let none : f ≡ 0 = omega arith in
    let same : a * 2 ^ 0 ≡ a = omega arith in
    rw (none, same) (bit_or-nil_below a a (le_refl a) ∙ omega arith)
bit_or-low (suc k) a f lt =
    let twice = ap (λ (t : ℕ). a * t) (pow-suc 2 k) in
    let half : a * 2 ^ suc k / 2 ≡ a * 2 ^ k = omega (arith, twice) in
    let rest = ap (λ (t : ℕ). bit_or t (f / 2)) half in
    omega (
      arith,
      twice,
      bit_or_step (a * 2 ^ suc k) f,
      rest,
      bit_or-low k a (f / 2) (omega (arith, pow-suc 2 k)),
    )

pub bit_or-flags : (t f : ℕ) → t % 4096 ≡ 0 → f < 4096 → bit_or t f ≡ t + f
bit_or-flags t f h lt =
    let e : t ≡ t / 4096 * 2 ^ 12 = omega arith in
    ap (λ (x : ℕ). bit_or x f) e ∙ bit_or-low 12 (t / 4096) f lt ∙ omega arith

-- An entry made of a table and flags with `PG_P`.
pub entry_parts :
    (t f : ℕ)
    → t % 4096 ≡ 0
    → f < 4096
    → f % 2 ≡ 1
    → (is_present (t + f) ≡ true) × (table_of (t + f) ≡ t)
entry_parts t f h lt odd = (ground arith, omega arith)

-- Addresses of one page have the same indices.
pub same_page :
    (v v' : ℕ)
    → page_of v ≡ page_of v'
    → (pml4t_index v ≡ pml4t_index v')
      × (pdpt_index v ≡ pdpt_index v')
      × (pdt_index v ≡ pdt_index v')
same_page v v' e = omega arith

pub page_of-page_of : (v : ℕ) → page_of (page_of v) ≡ page_of v
page_of-page_of v = omega arith
