-- ===== src/Bitmap/Alloc.antt =====
-- src/lib/bitmap.c: `bitmap_alloc` is first fit.
use native.Mathlib.Decide.{ℕ_discrete, dec_lt}
use clay_figure_kernel.Base.{
  ℕ, zero, suc, ◌+◌, ◌*◌, ◌/◌, ◌%◌, ◌≤◌, ◌<◌, ◌≡◌, refl, ap, ◌∙◌, ◌≢◌, ◌⊎◌, inl, inr, Bool, true,
  false, Option, none, some, arith, leb, ◌==◌, if◌then◌else◌, get_or, Bool-cases, le→ltb, lt→ltb,
  lt→ne, lt→leb, le→leb, sym, ==_iff, add64, mul64, add64_exact, u32, Status, success, error,
  out_of_resource, invalid_param,
}
use clay_figure_kernel.Base.Bits.{bit_of, bit_of-complement, bit_of-zero}
use clay_figure_kernel.Bitmap.{Bitmap, skip_full, count_run, search, bitmap_alloc}
use clay_figure_kernel.Bitmap.Bits.{IsValid, bit_at}
use clay_figure_kernel.Bitmap.Scan.{IsRun, Counted, count_run-Counted}

-- `i` is the least index of a run of `cnt` bits inside the map.
pub record IsFirstFit (b : Bitmap) (value cnt i : ℕ) : Type 0 where
  pub room : i + cnt ≤ b.btmp_bytes_len * 8
  pub run : IsRun b value i cnt
  pub least : (k : ℕ) → k < i → ¬ IsRun b value k cnt

abbrev pub HasNoRun : Bitmap → ℕ → ℕ → Type 0
HasNoRun b value cnt = (k : ℕ) → k + cnt ≤ b.btmp_bytes_len * 8 → ¬ IsRun b value k cnt

-- The two ways in which the search ends.
abbrev pub Searched : Bitmap → ℕ → ℕ → Status × Option ℕ → Type 0
Searched b value cnt r =
    ((i : ℕ) × (r ≡ (success, some i)) × IsFirstFit b value cnt i)
    ⊎ (((r ≡ (error, none)) ⊎ (r ≡ (out_of_resource, none))) × HasNoRun b value cnt)

module _ (b : Bitmap) (value : ℕ) (valid : IsValid b) (bit : value ≤ 1) (cnt : ℕ)
    (pos : 0 < cnt) where
  abbrev HasNoneBelow : ℕ → Type 0
  HasNoneBelow at = (k : ℕ) → k < at → ¬ IsRun b value k cnt

  bits_exact : mul64 b.btmp_bytes_len 8 ≡ b.btmp_bytes_len * 8
  unfolding mul64
  bits_exact = omega (arith, valid.small)

  none_past : (at : ℕ) → b.btmp_bytes_len * 8 ≤ at → HasNoneBelow at → HasNoRun b value cnt
  none_past at far below k room = below k (omega arith)

  -- A mismatch at `at + f` rules out every run that starts up to there.
  skip_mismatch :
      (at f : ℕ) → f < cnt → bit_at b (at + f) ≢ value → HasNoneBelow at → HasNoneBelow (at + f + 1)
  skip_mismatch at f short ne below k lt run = elim (dec_lt k at) [
    | yes early ↦ below k early run
    | no late ↦ ne (run (at + f) (omega arith) (omega arith))
  ]

  search_past :
      (fuel at : ℕ)
      → b.btmp_bytes_len * 8 ≤ at
      → search b value cnt fuel at ≡ (out_of_resource, none)
  unfolding search
  search_past zero at far = refl
  search_past (suc fuel) at far = rw (bits_exact, le→ltb at (b.btmp_bytes_len * 8) far, search)

  search-suc :
      (fuel at : ℕ)
      → at < b.btmp_bytes_len * 8
      → search b value cnt (suc fuel) at ≡ elim (count_run b value at cnt 0) [
        | none ↦ (error, none)
        | some free_bits ↦ elim (free_bits == cnt) [
          | true ↦ (success, some (u32 at))
          | false ↦ search b value cnt fuel (add64 (add64 at free_bits) 1)
        ]
      ]
  unfolding search
  search-suc fuel at inside = rw (bits_exact, lt→ltb at (b.btmp_bytes_len * 8) inside, search)

  round :
      (fuel at : ℕ) (r : Option ℕ)
      → count_run b value at cnt 0 ≡ r
      → Counted b value valid bit at cnt r
      → at < b.btmp_bytes_len * 8
      → HasNoneBelow at
      → ((f : ℕ)
          → HasNoneBelow (at + f + 1)
          → Searched b value cnt (search b value cnt fuel (at + f + 1)))
      → Searched b value cnt (search b value cnt (suc fuel) at)
  round fuel at none e (f, short, past, run) inside below next =
      rw (search-suc fuel at inside, e) (inr (inl refl, none_left))
    where
      none_left : HasNoRun b value cnt
      none_left k room run' = elim (dec_lt k at) [
        | yes early ↦ below k early run'
        | no late ↦ absurd (omega arith)
      ]
  round fuel at (some f) e (run, inl (whole, room)) inside below next =
      rw (search-suc fuel at inside, e, (==_iff f cnt).1 whole)
        (inl (
          at,
          ap (λ (k : ℕ). (success, some k)) small,
          record { room = rw (← whole) room; run = rw (← whole) run; least = below },
        ))
    where
      small : u32 at ≡ at
      small = omega (arith, valid.small)
  round fuel at (some f) e (run, inr (short, within, ne)) inside below next =
      rw (search-suc fuel at inside, e, not_whole, steps)
        (next f (skip_mismatch at f short ne below))
    where
      not_whole : (f == cnt) ≡ false
      not_whole = lt→ne f cnt short

      steps : add64 (add64 at f) 1 ≡ at + f + 1
      steps =
          ap (λ (k : ℕ). add64 k 1) (add64_exact at f (omega (arith, valid.small)))
          ∙ add64_exact (at + f) 1 (omega (arith, valid.small))

  search-Searched :
      (fuel at : ℕ)
      → b.btmp_bytes_len * 8 ≤ at + fuel
      → HasNoneBelow at
      → Searched b value cnt (search b value cnt fuel at)
  search-Searched zero at enough below =
      rw (search_past zero at (omega arith)) (inr (inr refl, none_past at (omega arith) below))
  search-Searched (suc fuel) at enough below = elim (dec_lt at (b.btmp_bytes_len * 8)) [
    | no past ↦
        rw (search_past (suc fuel) at (omega arith))
          (inr (inr refl, none_past at (omega arith) below))
    | yes inside ↦
        round fuel at (count_run b value at cnt 0) refl
          (count_run-Counted b value valid bit cnt at 0 cnt (omega arith) (omega arith)
            (λ j lo hi. absurd (omega arith)))
          inside below (λ f. search-Searched fuel (at + f + 1) (omega arith))
  ]

  skip_full_lem :
      (full left i : ℕ)
      → i + left ≡ b.btmp_bytes_len
      → (skip_full b full left i ≤ b.btmp_bytes_len)
        × ((j : ℕ) → i ≤ j → j < skip_full b full left i → get_or b.map j 0 ≡ full)
  unfolding skip_full
  skip_full_lem full zero i e = (omega arith, λ j lo hi. absurd (omega arith))
  skip_full_lem full (suc left) i e = elim (Bool-cases (get_or b.map i 0 == full)) [
    | inr other ↦ rw other (omega arith, λ j lo hi. absurd (omega arith))
    | inl same ↦
        let rest = skip_full_lem full left (i + 1) (omega arith) in
        rw same (
          rest.0,
          λ j lo hi. elim (ℕ_discrete j i) [
            | yes at ↦ ap (λ (k : ℕ). get_or b.map k 0) at ∙ (==_iff (get_or b.map i 0) full).0 same
            | no later ↦ rest.1 j (omega arith) hi
          ],
        )
  ]

  -- A skipped byte has no bit of the wanted value.
  full_byte : (k : ℕ) → k < 8 → bit_of (if value == 0 then 0xff else 0) k ≢ value
  full_byte k h = ground (arith, bit_of-complement 8 0 k, bit_of-zero k)

  skipped_none : HasNoneBelow (skip_full b (if value == 0 then 0xff else 0) b.btmp_bytes_len 0 * 8)
  skipped_none k lt run = full_byte (k % 8) (omega arith) (
      ap (λ (byte : ℕ). bit_of byte (k % 8)) (sym (skipped.1 (k / 8) (omega arith) (omega arith)))
      ∙ run k (omega arith) (omega arith))
    where
      skipped :
          (skip_full b (if value == 0 then 0xff else 0) b.btmp_bytes_len 0 ≤ b.btmp_bytes_len)
          × ((j : ℕ)
              → 0 ≤ j
              → j < skip_full b (if value == 0 then 0xff else 0) b.btmp_bytes_len 0
              → get_or b.map j 0 ≡ (if value == 0 then 0xff else 0))
      skipped = skip_full_lem (if value == 0 then 0xff else 0) b.btmp_bytes_len 0 (omega arith)

  alloc_enters :
      bitmap_alloc b value cnt true
      ≡ let byte_index = skip_full b (if value == 0 then 0xff else 0) b.btmp_bytes_len 0 in
        if leb b.btmp_bytes_len byte_index
        then (out_of_resource, none)
        else search b value cnt (mul64 b.btmp_bytes_len 8) (mul64 byte_index 8)
  unfolding bitmap_alloc
  alloc_enters = ground arith

  alloc-Searched :
      (r : ℕ)
      → r ≡ skip_full b (if value == 0 then 0xff else 0) b.btmp_bytes_len 0
      → Searched b value cnt (
          if leb b.btmp_bytes_len r
          then (out_of_resource, none)
          else search b value cnt (mul64 b.btmp_bytes_len 8) (mul64 r 8))
  alloc-Searched r e = elim (dec_lt r b.btmp_bytes_len) [
    | no past ↦
        rw (le→leb b.btmp_bytes_len r (omega arith))
          (inr (inr refl, none_past (r * 8) (omega arith) (rw e skipped_none)))
    | yes inside ↦
        rw (lt→leb r b.btmp_bytes_len inside, bits_exact, start_exact inside)
          (search-Searched (b.btmp_bytes_len * 8) (r * 8) (omega arith) (rw e skipped_none))
  ]
    where
      start_exact : r < b.btmp_bytes_len → mul64 r 8 ≡ r * 8
      start_exact h = unfold mul64 in omega (arith, valid.small)

-- `bitmap_alloc` of a valid bitmap with a bit value, a count above 0 and an address for the index is first fit: it
-- stores the least index of a run of `cnt` such bits inside the map and returns K_SUCCESS, or no
-- such run is there, and it returns K_ERROR or K_OUT_OF_RESOURCE and stores nothing.
pub bitmap_alloc-Searched :
    (b : Bitmap) (value cnt : ℕ)
    → IsValid b
    → value ≤ 1
    → 0 < cnt
    → Searched b value cnt (bitmap_alloc b value cnt true)
bitmap_alloc-Searched b value cnt valid bit pos =
    rw (alloc_enters b value valid bit cnt pos) (alloc-Searched b value valid bit cnt pos _ refl)

-- Without an address for the index, or with a value that is no bit, `bitmap_alloc` returns
-- K_INVALID_PARAM and stores nothing.
pub bitmap_alloc_invalid :
    (b : Bitmap) (value cnt : ℕ) (has_index : Bool)
    → (has_index ≡ false) ⊎ (1 < value)
    → bitmap_alloc b value cnt has_index ≡ (invalid_param, none)
unfolding bitmap_alloc
bitmap_alloc_invalid b value cnt has_index h = ground arith
