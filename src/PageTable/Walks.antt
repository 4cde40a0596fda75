-- ===== src/PageTable/Walks.antt =====
-- src/arch/x86_64/mem/page.c: a step of the walk of `page_map`, to a table that is there or is made.
use clay_figure_kernel.Base.{
  ℕ, suc, ◌+◌, ◌<◌, ◌≡◌, ◌≢◌, ◌⊎◌, inl, inr, refl, ap, sym, ◌∙◌, arith, true, false, bit_or, Option,
  some, Bool-cases, Status, success, Run, done,
}
use clay_figure_kernel.Base.Update.{update, update_self, update_ne}
use clay_figure_kernel.PageTable.{
  pt_size, table_flags, Words, phys_to_virt, virt_to_phys, is_present, table_of, clear,
  ensure_table,
}
use clay_figure_kernel.PageTable.Entries.{
  IsTable, slot, phys_to_virt-slot, virt_to_phys-to_virt, slot_apart, clear_outside, clear_inside,
  bit_or-flags, entry_parts,
}

-- What `page_map` relies on of `kmalloc`: from a heap that has room for another table it returns one, at
-- an address of a table that it had not handed out before, and forgets none that it had.
pub record Tables {H : Type 0} (kmalloc : ℕ → ℕ → ℕ → H → Run (Status × Option ℕ × H))
    : Type 1 where
  pub Owned : H → ℕ → Type 0
  pub Ready : ℕ → H → Type 0
  pub gives :
      (n : ℕ) (heap : H)
      → Ready (suc n) heap
      → (t : ℕ) × (heap' : H) × (kmalloc pt_size 0 pt_size heap
          ≡ done (success, some (phys_to_virt t), heap'))
        × IsTable t
        × ¬ (Owned heap t)
        × Owned heap' t
        × ((x : ℕ) → Owned heap x → Owned heap' x)
        × Ready n heap'
  pub fewer : (n : ℕ) (heap : H) → Ready (suc n) heap → Ready n heap

module _ {H : Type 0} (kmalloc : ℕ → ℕ → ℕ → H → Run (Status × Option ℕ × H))
    (tables : Tables kmalloc) where
  open tables use {Owned, Ready, gives, fewer}

  -- The entry at `v` leads to a table now, and the other entries of the tables in use are as they were.
  -- Either the entry is as it was, or the table is new and empty.
  pub record Ensured (n : ℕ) (w : Words) (heap : H) (v : ℕ) (w' : Words) (heap' : H) : Type 0 where
    pub present : is_present (w' v) ≡ true
    pub table : IsTable (table_of (w' v))
    pub owned : Owned heap' (table_of (w' v))
    pub kept : (x : ℕ) → Owned heap x → Owned heap' x
    pub others :
        (t i : ℕ) → IsTable t → Owned heap t → i < 512 → slot t i ≢ v → w' (slot t i) ≡ w (slot t i)
    pub origin :
        ((is_present (w v) ≡ true) × (w' v ≡ w v))
        ⊎ ((is_present (w v) ≡ false)
            × ¬ (Owned heap (table_of (w' v)))
            × ((i : ℕ) → i < 512 → w' (slot (table_of (w' v)) i) ≡ 0))
    pub ready : Ready n heap'

  -- The entry `i₀` of the table `t₀`; if it is present, it leads to a table in use.
  pub ensure_table-Ensured :
      (n : ℕ) (w : Words) (heap : H) (t₀ i₀ : ℕ)
      → IsTable t₀
      → Owned heap t₀
      → i₀ < 512
      → Ready (suc n) heap
      → (is_present (w (slot t₀ i₀)) ≡ true
          → IsTable (table_of (w (slot t₀ i₀))) × Owned heap (table_of (w (slot t₀ i₀))))
      → (w' : Words) × (heap' : H) × (ensure_table kmalloc w heap (slot t₀ i₀) ≡ done (w', heap'))
        × Ensured n w heap (slot t₀ i₀) w' heap'
  unfolding ensure_table
  ensure_table-Ensured n w heap t₀ i₀ is₀ own₀ lt₀ ready leads =
      let v = slot t₀ i₀ in
      elim (Bool-cases (is_present (w v))) [
        | inl e ↦ (
          w,
          heap,
          rw e refl,
          record {
            present = e;
            table = (leads e).0;
            owned = (leads e).1;
            kept = λ x o. o;
            others = λ t i _ _ _ _. refl;
            origin = inl (e, refl);
            ready = fewer n heap ready;
          },
        )
        | inr e ↦
            let (t, heap', returned, is, new, own, kept, ready') = gives n heap ready in
            let apart : (x : ℕ) → Owned heap x → t ≢ x = λ x o e'. new (rw e' o) in
            let w1 = clear w (phys_to_virt t) pt_size in
            let value : bit_or (virt_to_phys (phys_to_virt t)) table_flags ≡ t + 7 =
              ap (λ (a : ℕ). bit_or a table_flags) (virt_to_phys-to_virt t is)
              ∙ bit_or-flags t 7 is.0 (omega arith) in
            let w2 = update w1 v (bit_or (virt_to_phys (phys_to_virt t)) table_flags) in
            let own_entry : w2 v ≡ t + 7 = update_self w1 v _ ∙ value in
            let (is_on, table) = entry_parts t 7 is.0 (omega arith) refl in
            let table' : table_of (w2 v) ≡ t = ap table_of own_entry ∙ table in
            (
              w2,
              heap',
              rw (e, returned) refl,
              record {
                present = ap is_present own_entry ∙ is_on;
                table = rw table' is;
                owned = rw table' own;
                kept = kept;
                others = λ t' i is' own' lt ne.
                    update_ne w1 v _ (slot t' i) (λ e'. ne (sym e'))
                    ∙ ap (λ (a : ℕ). clear w a pt_size (slot t' i)) (phys_to_virt-slot t is)
                    ∙ clear_outside w t t' i is is' lt (apart t' own');
                origin = inr (
                  e,
                  rw table' new,
                  λ i lt.
                      ap (λ (a : ℕ). w2 (slot a i)) table'
                      ∙ update_ne w1 v _ (slot t i)
                          (λ e'. slot_apart t t₀ i i₀ is is₀ lt lt₀ (apart t₀ own₀) (sym e'))
                      ∙ ap (λ (a : ℕ). clear w a pt_size (slot t i)) (phys_to_virt-slot t is)
                      ∙ clear_inside w t i lt,
                );
                ready = ready';
              },
            )
      ]
