-- ===== src/Bitmap/Bits.antt =====
-- src/lib/bitmap.c: what `bitmap_scan_test`, `bitmap_set` and `init_bitmap` do, bit by bit.
use clay_figure_kernel.Base.{
  ℕ, ◌-◌, ◌*◌, ◌/◌, ◌%◌, ◌^◌, ◌≤◌, ◌<◌, ◌≡◌, refl, ap, ◌∙◌, ◌≢◌, ◌⊎◌, inl, inr, none, some, arith,
  ltb, leb, ◌==◌, ◌&&◌, lt→ltb, le→ltb, le→leb, lt→leb, if◌then◌else◌, length, get_or, drop,
  replicate, length-replicate, length-set, get_or-set_self, get_or-set_ne, get_or-append_left,
  get_or-replicate, set-get_or_self,
}
use clay_figure_kernel.Base.Bits.{
  bit_of, bit_of-le_one, bit_of-bit_or, bit_of-bit_and, bit_of-pow_self, bit_of-pow_ne,
  bit_of-complement, bit_of-zero, bit_and-pow, pow_pos, pow-lt-pow,
}
use clay_figure_kernel.Base.{bit_and}
use native.Mathlib.Decide.{ℕ_discrete, dec_lt, dec_le}
use clay_figure_kernel.Bitmap.{Bitmap, init_bitmap, bitmap_scan_test, put_bit, bitmap_set}

-- The bytes lie in the array, and bit indices fit `uint32_t`.
pub record IsValid (b : Bitmap) : Type 0 where
  pub stored : b.btmp_bytes_len ≤ length b.map
  pub small : b.btmp_bytes_len * 8 ≤ 2 ^ 32

-- The abstract view: bit `i` of the map.
abbrev pub bit_at : Bitmap → ℕ → ℕ
bit_at b i = bit_of (get_or b.map (i / 8) 0) (i % 8)

one_or_zero : (n : ℕ) → n ≤ 1 → (n ≡ 0) ⊎ (n ≡ 1)
one_or_zero n h = omega arith

-- The test of a byte by a mask is its bit.
masked_test : (byte k : ℕ) → (if bit_and byte (2 ^ k) == 0 then 0 else 1) ≡ bit_of byte k
masked_test byte k = elim (one_or_zero (bit_of byte k) (bit_of-le_one byte k)) [
  | inl e ↦ ground (arith, bit_and-pow byte k, ap (λ (n : ℕ). n * 2 ^ k) e)
  | inr e ↦ ground (arith, bit_and-pow byte k, ap (λ (n : ℕ). n * 2 ^ k) e, pow_pos k)
]

-- Inside the map `bitmap_scan_test` returns the bit, and outside it -1.
pub bitmap_scan_test_lem :
    (b : Bitmap) (i : ℕ)
    → bitmap_scan_test b i ≡ (if ltb i (b.btmp_bytes_len * 8) then some (bit_at b i) else none)
unfolding bitmap_scan_test
bitmap_scan_test_lem b i = rw (masked_test (get_or b.map (i / 8) 0) (i % 8)) (ground arith)

clear_mask : (k i : ℕ) → k < 8 → i < 8 → bit_of (255 - 2 ^ k) i ≡ 1 - bit_of (2 ^ k) i
clear_mask k i hk hi = bit_of-complement 8 (2 ^ k) i (pow-lt-pow k 8 hk) hi

put_bit_self : (byte k v : ℕ) → k < 8 → v ≤ 1 → bit_of (put_bit byte k v) k ≡ v
unfolding put_bit
put_bit_self byte k v hk hv = ground (
  arith,
  bit_of-bit_and byte (255 - 2 ^ k) k,
  bit_of-bit_or byte (2 ^ k) k,
  clear_mask k k hk hk,
  bit_of-pow_self k,
  bit_of-le_one byte k,
)

put_bit_ne : (byte k v i : ℕ) → k < 8 → i < 8 → i ≢ k → bit_of (put_bit byte k v) i ≡ bit_of byte i
unfolding put_bit
put_bit_ne byte k v i hk hi ne = ground (
  arith,
  bit_of-bit_and byte (255 - 2 ^ k) i,
  bit_of-bit_or byte (2 ^ k) i,
  clear_mask k i hk hi,
  bit_of-pow_ne k i ne,
  bit_of-le_one byte i,
)

set_self :
    (b : Bitmap) (i v : ℕ)
    → IsValid b
    → i < b.btmp_bytes_len * 8
    → v ≤ 1
    → bit_at (bitmap_set b i v) i ≡ v
unfolding bitmap_set
set_self b i v valid hi hv = ground (
  arith,
  get_or-set_self b.map (i / 8) (put_bit (get_or b.map (i / 8) 0) (i % 8) v) 0,
  put_bit_self (get_or b.map (i / 8) 0) (i % 8) v,
)

same_byte_ne : (i j : ℕ) → j ≢ i → j / 8 ≡ i / 8 → j % 8 ≢ i % 8
same_byte_ne i j ne same = omega arith

pub set_ne : (b : Bitmap) (i j v : ℕ) → IsValid b → j ≢ i → bit_at (bitmap_set b i v) j ≡ bit_at b j
unfolding bitmap_set
set_ne b i j v valid ne = elim (ℕ_discrete (j / 8) (i / 8)) [
  | yes same ↦ ground (
    arith,
    ap (λ (k : ℕ). get_or (bitmap_set b i v).map k 0) same,
    ap (λ (k : ℕ). get_or b.map k 0) same,
    get_or-set_self b.map (i / 8) (put_bit (get_or b.map (i / 8) 0) (i % 8) v) 0,
    put_bit_ne (get_or b.map (i / 8) 0) (i % 8) v (j % 8),
    same_byte_ne i j ne same,
  )
  | no other ↦
      ground
        (arith, get_or-set_ne b.map (i / 8) (j / 8) (put_bit (get_or b.map (i / 8) 0) (i % 8) v) 0)
]

-- After `bitmap_set` with value 0 or 1 inside the map, that bit has the value and every other bit
-- is as before.
pub bitmap_set_lem :
    (b : Bitmap) (i j v : ℕ)
    → IsValid b
    → i < b.btmp_bytes_len * 8
    → v ≤ 1
    → bit_at (bitmap_set b i v) j ≡ (if j == i then v else bit_at b j)
bitmap_set_lem b i j v valid hi hv = elim (ℕ_discrete j i) [
  | yes same ↦
      ground (arith, ap (λ (k : ℕ). bit_at (bitmap_set b i v) k) same, set_self b i v valid hi hv)
  | no other ↦ ground (arith, set_ne b i j v valid other)
]

pub bitmap_set-IsValid : (b : Bitmap) (i v : ℕ) → IsValid b → IsValid (bitmap_set b i v)
unfolding bitmap_set
bitmap_set-IsValid b i v valid =
    ground (arith, length-set b.map (i / 8) (put_bit (get_or b.map (i / 8) 0) (i % 8) v))

pub len-bitmap_set : (b : Bitmap) (i v : ℕ) → (bitmap_set b i v).btmp_bytes_len ≡ b.btmp_bytes_len
unfolding bitmap_set
len-bitmap_set b i v = ground arith

-- Outside the map, or with a value that is no bit, `bitmap_set` changes nothing.
pub bitmap_set_ignored :
    (b : Bitmap) (i v : ℕ) → (b.btmp_bytes_len * 8 ≤ i) ⊎ (1 < v) → bitmap_set b i v ≡ b
unfolding bitmap_set put_bit
bitmap_set_ignored b i v (inl far) = ground arith
bitmap_set_ignored b i v (inr odd) = ground (arith, set-get_or_self b.map (i / 8) 0)

-- `bitmap_set` on a valid bitmap, any index and value: that bit gets the value if the index is inside the map and the
-- value is 0 or 1, and every other bit is as before.
pub bitmap_set_bits :
    (b : Bitmap) (i j v : ℕ)
    → IsValid b
    → bit_at (bitmap_set b i v) j
      ≡ (if ltb i (b.btmp_bytes_len * 8) && leb v 1 && j == i then v else bit_at b j)
bitmap_set_bits b i j v valid = elim (dec_lt i (b.btmp_bytes_len * 8)) [
  | no far ↦
      rw
        (
          bitmap_set_ignored b i v (inl (omega arith)),
          le→ltb i (b.btmp_bytes_len * 8) (omega arith),
        )
        refl
  | yes inside ↦ elim (dec_le v 1) [
    | no odd ↦
        rw
          (
            bitmap_set_ignored b i v (inr (omega arith)),
            lt→ltb i (b.btmp_bytes_len * 8) inside,
            lt→leb 1 v (omega arith),
          )
          refl
    | yes bit ↦
        rw (lt→ltb i (b.btmp_bytes_len * 8) inside, le→leb v 1 bit)
          (bitmap_set_lem b i j v valid inside bit)
  ]
]

-- After `init_bitmap` every bit below the length of the map is 0.
pub init_bitmap_lem : (b : Bitmap) (i : ℕ) → i < b.btmp_bytes_len * 8 → bit_at (init_bitmap b) i ≡ 0
unfolding init_bitmap
init_bitmap_lem b i h =
    ap (λ (byte : ℕ). bit_of byte (i % 8))
      (get_or-append_left (replicate b.btmp_bytes_len 0) (drop b.btmp_bytes_len b.map) (i / 8) 0
          (omega (arith, length-replicate {0} {A = ℕ} b.btmp_bytes_len 0))
        ∙ get_or-replicate b.btmp_bytes_len (i / 8) 0 0 (omega arith))
    ∙ bit_of-zero (i % 8)
