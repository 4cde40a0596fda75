-- ===== src/Atomic/Laws.antt =====
-- src/arch/x86_64/sync/atomic.c: what the operations do to the value and to its bits.
use native.Mathlib.Decide.{ℕ_discrete}
use clay_figure_kernel.Base.{
  ℕ, ◌-◌, ◌^◌, ◌<◌, ◌≡◌, refl, arith, ◌==◌, if◌then◌else◌, min, add64, sub64, ==_iff, ne→ne,
}
use clay_figure_kernel.Base.Bits.{
  bit_of, bit_of-le_one, bit_of-bit_or, bit_of-bit_and, bit_of-pow_self, bit_of-pow_ne,
  bit_of-complement, pow-lt-pow,
}
use clay_figure_kernel.Atomic.{
  atomic_add, atomic_sub, atomic_inc, atomic_dec, atomic_mask, atomic_bts, atomic_btr, atomic_btc,
  atomic_set,
}

-- `atomic_sub` takes back an `atomic_add` of the same 64-bit value, and `atomic_dec` an `atomic_inc`,
-- even where the sum wraps.
pub atomic_sub-add :
    (atom value : ℕ)
    → atom < 2 ^ 64
    → value < 2 ^ 64
    → (atomic_sub (atomic_add atom value) value ≡ atom) × (atomic_dec (atomic_inc atom) ≡ atom)
unfolding atomic_sub atomic_add atomic_inc atomic_dec add64 sub64
atomic_sub-add atom value h hv = (omega arith, omega arith)

-- `atomic_bts` returns the bit and sets it, and leaves every other bit as it was.
pub atomic_bts_lem :
    (atom bit i : ℕ)
    → ((atomic_bts atom bit).0 ≡ bit_of atom bit)
      × (bit_of ((atomic_bts atom bit).1) i ≡ (if i == bit then 1 else bit_of atom i))
unfolding atomic_bts
atomic_bts_lem atom bit i = (
  refl,
  elim (ℕ_discrete i bit) [
    | yes same ↦
        rw (same, (==_iff bit bit).1 refl)
          (omega
            (arith, bit_of-bit_or atom (2 ^ bit) bit, bit_of-pow_self bit, bit_of-le_one atom bit))
    | no other ↦
        rw (ne→ne i bit other)
          (omega (arith, bit_of-bit_or atom (2 ^ bit) i, bit_of-pow_ne bit i other))
  ],
)

-- `atomic_btr` of a bit below 64 returns it and clears it, and leaves every other bit below 64 as it
-- was.
pub atomic_btr_lem :
    (atom bit i : ℕ)
    → bit < 64
    → i < 64
    → ((atomic_btr atom bit).0 ≡ bit_of atom bit)
      × (bit_of ((atomic_btr atom bit).1) i ≡ (if i == bit then 0 else bit_of atom i))
unfolding atomic_btr
atomic_btr_lem atom bit i hb hi =
    let left = bit_of-bit_and atom (2 ^ 64 - 1 - 2 ^ bit) i in
    let mask = bit_of-complement 64 (2 ^ bit) i (pow-lt-pow bit 64 hb) hi in
    (
      refl,
      elim (ℕ_discrete i bit) [
        | yes same ↦
            rw (same, (==_iff bit bit).1 refl)
              (omega (arith, rw same at left, rw same at mask, bit_of-pow_self bit))
        | no other ↦
            rw (ne→ne i bit other)
              (omega (arith, left, mask, bit_of-pow_ne bit i other, bit_of-le_one atom i))
      ],
    )

-- `atomic_mask` leaves the bits that are set in the mask, and `atomic_set` returns the old value and
-- stores the new one.
pub atomic_mask_lem :
    (atom mask i : ℕ)
    → (bit_of (atomic_mask atom mask) i ≡ min (bit_of atom i) (bit_of mask i))
      × (atomic_set atom mask ≡ (atom, mask))
unfolding atomic_mask atomic_set
atomic_mask_lem atom mask i = (bit_of-bit_and atom mask i, refl)

-- `atomic_btc` of a bit below 64 returns it and changes it, and leaves every other bit below 64 as it
-- was.
pub atomic_btc_lem :
    (atom bit i : ℕ)
    → bit < 64
    → i < 64
    → ((atomic_btc atom bit).0 ≡ bit_of atom bit)
      × (bit_of ((atomic_btc atom bit).1) i
          ≡ (if i == bit then 1 - bit_of atom bit else bit_of atom i))
unfolding atomic_btc
atomic_btc_lem atom bit i hb hi = elim (ℕ_discrete (bit_of atom bit) 1) [
  | yes up ↦
      rw ((==_iff (bit_of atom bit) 1).1 up) (ground (arith, atomic_btr_lem atom bit i hb hi, up))
  | no down ↦
      rw (ne→ne (bit_of atom bit) 1 down)
        (ground (arith, atomic_bts_lem atom bit i, bit_of-le_one atom bit))
]
