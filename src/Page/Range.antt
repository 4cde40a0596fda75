-- ===== src/Page/Range.antt =====
-- src/arch/x86_64/mem/page.c: the loops over `bitmap_set` of the page pool, and the count of free pages.
use native.Mathlib.Decide.{ℕ_discrete}
use clay_figure_kernel.Base.{
  ℕ, zero, suc, ◌+◌, ◌-◌, ◌*◌, ◌≤◌, ◌<◌, ◌≡◌, ◌≢◌, ◌⊎◌, refl, ap, ◌∙◌, arith,
}
use clay_figure_kernel.Bitmap.{Bitmap, bitmap_set}
use clay_figure_kernel.Bitmap.Bits.{
  IsValid, bit_at, set_ne, bitmap_set_lem, bitmap_set-IsValid, len-bitmap_set,
}
use clay_figure_kernel.Page.{set_range}

pub len-set_range :
    (b : Bitmap) (v start n : ℕ) → (set_range b v start n).btmp_bytes_len ≡ b.btmp_bytes_len
unfolding set_range
len-set_range b v start zero = refl
len-set_range b v start (suc n) =
    len-set_range (bitmap_set b start v) v (start + 1) n ∙ len-bitmap_set b start v

pub set_range-IsValid : (b : Bitmap) (v start n : ℕ) → IsValid b → IsValid (set_range b v start n)
unfolding set_range
set_range-IsValid b v start zero h = h
set_range-IsValid b v start (suc n) h =
    set_range-IsValid (bitmap_set b start v) v (start + 1) n (bitmap_set-IsValid b start v h)

pub set_range_outside :
    (b : Bitmap) (v start n j : ℕ)
    → IsValid b
    → (j < start) ⊎ (start + n ≤ j)
    → bit_at (set_range b v start n) j ≡ bit_at b j
unfolding set_range
set_range_outside b v start zero j h out = refl
set_range_outside b v start (suc n) j h out =
    set_range_outside (bitmap_set b start v) v (start + 1) n j (bitmap_set-IsValid b start v h)
      (omega arith)
    ∙ set_ne b start j v h (omega arith)

pub set_range_inside :
    (b : Bitmap) (v start n j : ℕ)
    → IsValid b
    → v ≤ 1
    → start ≤ j
    → j < start + n
    → j < b.btmp_bytes_len * 8
    → bit_at (set_range b v start n) j ≡ v
unfolding set_range
set_range_inside b v start zero j h hv lo hi room = absurd (omega arith)
set_range_inside b v start (suc n) j h hv lo hi room = elim (ℕ_discrete j start) [
  | no later ↦
      set_range_inside (bitmap_set b start v) v (start + 1) n j (bitmap_set-IsValid b start v h) hv
        (omega arith) (omega arith) (rw len-bitmap_set room)
  | yes at ↦
      set_range_outside (bitmap_set b start v) v (start + 1) n j (bitmap_set-IsValid b start v h)
        (omega arith)
      ∙ ground (arith, bitmap_set_lem b start j v h)
]

-- How many of the first `n` bits are 1.
unfoldable pub ones : Bitmap → ℕ → ℕ
ones b zero = 0
ones b (suc n) = ones b n + bit_at b n

ones_same :
    (b c : Bitmap) (n : ℕ) → ((j : ℕ) → j < n → bit_at c j ≡ bit_at b j) → ones c n ≡ ones b n
unfolding ones
ones_same b c zero same = refl
ones_same b c (suc n) same =
    omega (arith, ones_same b c n (λ j h. same j (omega arith)), same n (omega arith))

-- Where only bit `i` differs, the counts differ by what that bit does.
ones_one :
    (b c : Bitmap) (i n : ℕ)
    → i < n
    → ((j : ℕ) → j ≢ i → bit_at c j ≡ bit_at b j)
    → ones c n + bit_at b i ≡ ones b n + bit_at c i
unfolding ones
ones_one b c i zero h same = absurd (omega arith)
ones_one b c i (suc n) h same = elim (ℕ_discrete i n) [
  | yes last ↦ omega (
    arith,
    ones_same b c n (λ j lt. same j (omega arith)),
    ap (λ (k : ℕ). bit_at b k) last,
    ap (λ (k : ℕ). bit_at c k) last,
  )
  | no below ↦ omega (arith, ones_one b c i n (omega arith) same, same n (omega arith))
]

-- Setting a range whose bits all have the value `1 - v` moves the count by its length.
pub ones-set_range :
    (b : Bitmap) (v start n bits : ℕ)
    → IsValid b
    → v ≤ 1
    → bits ≡ b.btmp_bytes_len * 8
    → start + n ≤ bits
    → ((j : ℕ) → start ≤ j → j < start + n → bit_at b j ≡ 1 - v)
    → ones (set_range b v start n) bits + n * (1 - v) ≡ ones b bits + n * v
unfolding set_range
ones-set_range b v start zero bits h hv e room old = omega arith
ones-set_range b v start (suc n) bits h hv e room old = omega (
  arith,
  ones-set_range (bitmap_set b start v) v (start + 1) n bits (bitmap_set-IsValid b start v h) hv
      (omega (arith, len-bitmap_set b start v)) (omega arith)
      (λ j lo hi. set_ne b start j v h (omega arith) ∙ old j (omega arith) (omega arith)),
  ones_one b (bitmap_set b start v) start bits (omega arith) (λ j ne. set_ne b start j v h ne),
  here,
  old start (omega arith) (omega arith),
)
  where
    here : bit_at (bitmap_set b start v) start ≡ v
    here = ground (arith, bitmap_set_lem b start start v h)
