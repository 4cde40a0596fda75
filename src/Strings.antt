-- ===== src/Strings.antt =====
-- src/lib/string.c: the functions on bytes and on strings that end in 0. Memory is a function from
-- addresses of 64 bits to bytes; a pointer that is advanced wraps.
pub mod Blocks
pub mod Text
pub mod Copies
mod Tests
use clay_figure_kernel.Base.{
  ℕ, zero, suc, ◌+◌, ◌-◌, ◌*◌, ◌%◌, ◌^◌, Bool, true, false, not, ◌&&◌, ltb, leb, ◌==◌,
  if◌then◌else◌, u8, add64, sub64, Run, done, panic, spin, ◌>>=◌,
}

abbrev pub Bytes : Type 0
Bytes = ℕ → ℕ

-- `*p = byte`.
unfoldable pub store : Bytes → ℕ → ℕ → Bytes
store m p byte x = if x == p then byte else m x

-- `*a - *b` of two `uint8_t`, as an `int` of 32 bits.
abbrev pub byte_difference : ℕ → ℕ → ℕ
byte_difference a b = (a + 2 ^ 32 - b) % 2 ^ 32

-- A `char` is signed: the byte as an `int`.
abbrev pub char_value : ℕ → ℕ
char_value byte = if ltb byte 128 then byte else byte + (2 ^ 32 - 256)

-- `*a - *b` of two `char`.
abbrev pub char_difference : ℕ → ℕ → ℕ
char_difference a b = byte_difference (char_value a) (char_value b)

-- `while (size-- > 0) *p++ = byte_value`.
pub fill : Bytes → ℕ → ℕ → ℕ → Bytes
fill m p byte_value zero = m
fill m p byte_value (suc size) = fill (store m p byte_value) (add64 p 1) byte_value size

pub memset : Bytes → ℕ → ℕ → ℕ → ℕ × Bytes
memset m dst value size = (dst, fill m dst (u8 value) size)

-- `while (size-- > 0) *d++ = *s++`.
unfoldable pub copy : Bytes → ℕ → ℕ → ℕ → Bytes
copy m d s zero = m
copy m d s (suc size) = copy (store m d (m s)) (add64 d 1) (add64 s 1) size

unfoldable pub memcpy : Bytes → ℕ → ℕ → ℕ → ℕ × Bytes
memcpy m dst src size = (dst, copy m dst src size)

pub memcmp : Bytes → ℕ → ℕ → ℕ → ℕ
memcmp m s1 s2 zero = 0
memcmp m s1 s2 (suc size) =
    let rest = memcmp m (add64 s1 1) (add64 s2 1) size in
    if m s1 == m s2 then rest else byte_difference (m s1) (m s2)

-- The walks to the end of a string run on fuel, one unit for each byte up to the 0.
pub find_end : Bytes → ℕ → ℕ → Run ℕ
find_end m end zero = spin
find_end m end (suc fuel) =
    let rest = find_end m (add64 end 1) fuel in if m end == 0 then done (add64 end 1) else rest

pub strlen : Bytes → ℕ → ℕ → Run ℕ
strlen m str fuel = find_end m str fuel >>= λ end. done (sub64 (sub64 end str) 1)

pub strcmp : Bytes → ℕ → ℕ → ℕ → Run ℕ
strcmp m str1 str2 zero = spin
strcmp m str1 str2 (suc fuel) =
    let rest = strcmp m (add64 str1 1) (add64 str2 1) fuel in
    if not (m str1 == 0) && not (m str2 == 0)
    then if m str1 == m str2 then rest else done (char_difference (m str1) (m str2))
    else done (char_difference (m str1) (m str2))

-- The loop of `strncmp`, with what is behind it: after a test of `n--` that fails `n` is 2^64 - 1.
unfoldable pub strncmp : Bytes → ℕ → ℕ → ℕ → ℕ
strncmp m str1 str2 zero = char_difference (m str1) (m str2)
strncmp m str1 str2 (suc n) =
    let rest = strncmp m (add64 str1 1) (add64 str2 1) n in
    if not (m str1 == 0) && not (m str2 == 0)
    then if m str1 == m str2 then rest else char_difference (m str1) (m str2)
    else if ltb 0 n
    then char_difference (m str1) (m str2)
    else 0

-- `while ((*dst++ = *src++) != '\0')`.
pub copy_string : Bytes → ℕ → ℕ → ℕ → Run Bytes
copy_string m dst src zero = spin
copy_string m dst src (suc fuel) =
    let m' = store m dst (m src) in
    let rest = copy_string m' (add64 dst 1) (add64 src 1) fuel in
    if m src == 0 then done m' else rest

pub strcpy : Bytes → ℕ → ℕ → ℕ → Run (ℕ × Bytes)
strcpy m dst src fuel = copy_string m dst src fuel >>= λ m'. done (dst, m')

-- The two loops of `strncpy`. The test that ends the first one lowers `n` too, so from 0 it goes on
-- with 2^64 - 1.
pub copy_chars : Bytes → ℕ → ℕ → ℕ → Bytes
copy_chars m dst src zero = fill m dst 0 (2 ^ 64 - 1)
copy_chars m dst src (suc n) =
    let rest = copy_chars (store m dst (m src)) (add64 dst 1) (add64 src 1) n in
    if m src == 0 then fill m dst 0 n else rest

pub strncpy : Bytes → ℕ → ℕ → ℕ → ℕ × Bytes
strncpy m dst src n = (dst, copy_chars m dst src n)
