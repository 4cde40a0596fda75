-- ===== src/Bitmap.antt =====
-- src/lib/bitmap.c and src/include/lib/bitmap.h: bitmaps as arrays of bytes. `map` is the array from the
-- pointer on; it may be longer than `btmp_bytes_len`. A read outside it gives 0, and a write
-- outside it is lost: `IsValid` of Bitmap/Bits.antt excludes both.
pub mod Bits
mod Scan
pub mod Alloc
mod Tests
use clay_figure_kernel.Base.{
  ℕ, zero, suc, ◌+◌, ◌-◌, ◌*◌, ◌/◌, ◌%◌, ◌^◌, bit_and, bit_or, Bool, true, false, not, ◌&&◌, ◌||◌,
  Option, none, some, List, ◌++◌, ltb, leb, ◌==◌, if◌then◌else◌, get_or, set, drop, replicate, u8,
  u32, add64, mul64, Status, success, error, invalid_param, out_of_resource,
}

pub record Bitmap : Type 0 where
  pub btmp_bytes_len : ℕ
  pub map : List ℕ

-- `memset(btmp->map, 0, btmp->btmp_bytes_len)`.
pub init_bitmap : Bitmap → Bitmap
init_bitmap b = record b { map = replicate b.btmp_bytes_len 0 ++ drop b.btmp_bytes_len b.map }

-- `none` is the result -1.
unfoldable pub bitmap_scan_test : Bitmap → ℕ → Option ℕ
bitmap_scan_test b bit_index =
    if leb b.btmp_bytes_len (bit_index / 8)
    then none
    else some (if bit_and (get_or b.map (bit_index / 8) 0) (2 ^ (bit_index % 8)) == 0 then 0 else 1)

-- The loop that skips the bytes without a bit of the wanted value, with `left` bytes to go.
unfoldable pub skip_full : Bitmap → ℕ → ℕ → ℕ → ℕ
skip_full b byte_full zero byte_index = byte_index
skip_full b byte_full (suc left) byte_index =
    let rest = skip_full b byte_full left (byte_index + 1) in
    if get_or b.map byte_index 0 == byte_full then rest else byte_index

-- The inner loop, with `left` bits to go: how many bits from `bit_index` on have the value;
-- `none` is the early `return K_ERROR` at the end of the map.
unfoldable pub count_run : Bitmap → ℕ → ℕ → ℕ → ℕ → Option ℕ
count_run b value bit_index zero free_bits = some free_bits
count_run b value bit_index (suc left) free_bits =
    elim (bitmap_scan_test b (add64 bit_index free_bits)) [
      | none ↦ none
      | some current_bit ↦
          let rest = count_run b value bit_index left (free_bits + 1) in
          if (not (current_bit == 0) && value == 0) || (current_bit == 0 && value == 1)
          then some free_bits
          else rest
    ]

-- The outer loop. Each round moves `bit_index` up, so as many rounds as there are bits are enough.
unfoldable pub search : Bitmap → ℕ → ℕ → ℕ → ℕ → Status × Option ℕ
search b value cnt zero bit_index = (out_of_resource, none)
search b value cnt (suc fuel) bit_index = elim (ltb bit_index (mul64 b.btmp_bytes_len 8)) [
  | false ↦ (out_of_resource, none)
  | true ↦ elim (count_run b value bit_index cnt 0) [
    | none ↦ (error, none)
    | some free_bits ↦ elim (free_bits == cnt) [
      | true ↦ (success, some (u32 bit_index))
      | false ↦ search b value cnt fuel (add64 (add64 bit_index free_bits) 1)
    ]
  ]
]

-- The option is what is stored through `index`; `has_index` is `index != NULL`.
unfoldable pub bitmap_alloc : Bitmap → ℕ → ℕ → Bool → Status × Option ℕ
bitmap_alloc b value cnt has_index =
    if not has_index || (not (value == 0) && not (value == 1))
    then (invalid_param, none)
    else let byte_full : ℕ = if value == 0 then 0xff else 0 in
      let byte_index = skip_full b byte_full b.btmp_bytes_len 0 in
      if leb b.btmp_bytes_len byte_index
      then (out_of_resource, none)
      else search b value cnt (mul64 b.btmp_bytes_len 8) (mul64 byte_index 8)

-- `map[byte_index] &= ~(1 << bit_odd)` and `map[byte_index] |= 1 << bit_odd`, on a byte.
unfoldable pub put_bit : ℕ → ℕ → ℕ → ℕ
put_bit byte bit_odd value =
    if value == 0
    then bit_and byte (0xff - 2 ^ bit_odd)
    else if value == 1
    then bit_or byte (2 ^ bit_odd)
    else byte

unfoldable pub bitmap_set : Bitmap → ℕ → ℕ → Bitmap
bitmap_set b bit_index value = if leb b.btmp_bytes_len (bit_index / 8) then b else record b {
  map = set b.map (bit_index / 8) (put_bit (get_or b.map (bit_index / 8) 0) (bit_index % 8) value);
}
