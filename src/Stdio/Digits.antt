-- ===== src/Stdio/Digits.antt =====
-- src/lib/stdio.c: the digits that `number_to_string` makes, and how `skip_atoi` reads them.
use native.Mathlib.Decide.{ℕ_discrete}
use native.Mathlib.Nat.{
  pow-zero, pow-suc, div-lt_iff_lt-mul, div-add-mod', mod-lt, pow-le-pow_left, mul-le-mul_left,
}
use mathlib.Core.List.{reverse, reverse-cons}
use clay_figure_kernel.Base.{
  ℕ, zero, suc, ◌+◌, ◌-◌, ◌*◌, ◌/◌, ◌%◌, ◌^◌, ◌≤◌, ◌<◌, ◌≡◌, ◌≢◌, refl, ap, sym, ◌∙◌, arith, Bool,
  true, false, List, [], ◌∷◌, ◌++◌, ltb, if◌then◌else◌, length, ne→ne, ==_iff,
}
use clay_figure_kernel.Stdio.{is_digit, atoi_from, skip_atoi, digit_char, digit_loop, to_digits}

-- The value of a digit, in either table.
pub digit_value : ℕ → ℕ
digit_value c = if ltb c b'A' then c - b'0' else if ltb c b'a' then c - b'A' + 10 else c - b'a' + 10

digit_value-digit_char : (small : Bool) (d : ℕ) → d < 36 → digit_value (digit_char small d) ≡ d
unfolding digit_value digit_char
digit_value-digit_char true d h = ground arith
digit_value-digit_char false d h = ground arith

-- The number that a text of digits stands for, read on from `acc`.
pub read_from : ℕ → ℕ → List ℕ → ℕ
read_from base acc [] = acc
read_from base acc (c ∷ s) = read_from base (acc * base + digit_value c) s

pub read_from-last :
    (base acc : ℕ) (s : List ℕ) (c : ℕ)
    → read_from base acc (s ++ c ∷ []) ≡ read_from base acc s * base + digit_value c
unfolding read_from
read_from-last base acc [] c = refl
read_from-last base acc (d ∷ s) c = read_from-last base (acc * base + digit_value d) s c

below-half : (base fuel num : ℕ) → 2 ≤ base → num < 2 ^ suc fuel → num / base < 2 ^ fuel
below-half base fuel num h small =
    (div-lt_iff_lt-mul {k = base} {x = num} {y = 2 ^ fuel} (omega arith)).1
      (omega (arith, pow-suc 2 fuel, mul-le-mul_left {m = 2} {n = base} (2 ^ fuel) h))

digit_loop-read :
    (small : Bool) (base fuel num : ℕ)
    → 2 ≤ base
    → base ≤ 36
    → num < 2 ^ fuel
    → read_from base 0 (reverse (digit_loop small base fuel num)) ≡ num
unfolding digit_loop read_from
digit_loop-read small base zero num h h' lt = omega arith
digit_loop-read small base (suc fuel) num h h' lt = elim (ℕ_discrete num 0) [
  | yes e ↦ rw ((==_iff num 0).1 e) (sym e)
  | no more ↦
      rw
        (
          ne→ne num 0 more,
          reverse-cons (digit_char small (num % base)) (digit_loop small base fuel (num / base)),
          read_from-last base 0 (reverse (digit_loop small base fuel (num / base)))
              (digit_char small (num % base)),
          digit_loop-read small base fuel (num / base) h h' (below-half base fuel num h lt),
          digit_value-digit_char small (num % base)
              (omega (arith, mod-lt num {m = base} (omega arith))),
        )
        (div-add-mod' num base)
]

-- The digits are those of the number.
pub to_digits-read :
    (small : Bool) (base num : ℕ)
    → 2 ≤ base
    → base ≤ 36
    → num < 2 ^ 64
    → read_from base 0 (reverse (to_digits small base num)) ≡ num
unfolding to_digits read_from digit_value
to_digits-read small base num h h' lt = elim (ℕ_discrete num 0) [
  | yes e ↦ rw ((==_iff num 0).1 e) (omega (arith, e))
  | no more ↦ rw (ne→ne num 0 more) (digit_loop-read small base 64 num h h' lt)
]

digit_loop_short :
    (small : Bool) (base fuel k num : ℕ)
    → 0 < base
    → num < base ^ k
    → length (digit_loop small base fuel num) ≤ k
unfolding digit_loop
digit_loop_short small base zero k num h lt = omega arith
digit_loop_short small base (suc fuel) zero num h lt =
    let e : num ≡ 0 = omega (arith, pow-zero base) in rw ((==_iff num 0).1 e) (omega arith)
digit_loop_short small base (suc fuel) (suc k) num h lt = elim (ℕ_discrete num 0) [
  | yes e ↦ rw ((==_iff num 0).1 e) (omega arith)
  | no more ↦ rw (ne→ne num 0 more) (
      omega (
        arith,
        digit_loop_short small base fuel k (num / base) h (
            (div-lt_iff_lt-mul {k = base} {x = num} {y = base ^ k} h).1
              (omega (arith, pow-suc base k))),
      ))
]

digit_loop_some :
    (small : Bool) (base fuel num : ℕ) → num ≢ 0 → 0 < length (digit_loop small base (suc fuel) num)
unfolding digit_loop
digit_loop_some small base fuel num more = rw (ne→ne num 0 more) (omega arith)

-- For a base of at least 3 and a number of 64 bits there are at most 41 digits, and the array `tmp`
-- of 50 bytes holds them.
pub to_digits_short :
    (small : Bool) (base num : ℕ)
    → 3 ≤ base
    → num < 2 ^ 64
    → (0 < length (to_digits small base num)) × (length (to_digits small base num) ≤ 41)
unfolding to_digits
to_digits_short small base num h lt = elim (ℕ_discrete num 0) [
  | yes e ↦ rw ((==_iff num 0).1 e) (omega arith)
  | no more ↦ rw (ne→ne num 0 more) (
    digit_loop_some small base 63 num more,
    digit_loop_short small base 64 41 num (omega arith)
        (omega (arith, pow-le-pow_left {n = 3} {m = base} h 41)),
  )
]

-- All bytes are decimal digits.
pub AllDecimal : List ℕ → Type 0
AllDecimal [] = Unit
AllDecimal (c ∷ s) = (is_digit c ≡ true) × AllDecimal s

AllDecimal-append : (s t : List ℕ) → AllDecimal s → AllDecimal t → AllDecimal (s ++ t)
unfolding AllDecimal
AllDecimal-append [] t _ h = h
AllDecimal-append (c ∷ s) t (d, r) h = (d, AllDecimal-append s t r h)

AllDecimal-reverse : (s : List ℕ) → AllDecimal s → AllDecimal (reverse s)
unfolding AllDecimal
AllDecimal-reverse [] _ = tt
AllDecimal-reverse (c ∷ s) (d, r) =
    rw (reverse-cons c s) (AllDecimal-append (reverse s) (c ∷ []) (AllDecimal-reverse s r) (d, tt))

is_digit-digit_char : (d : ℕ) → d < 10 → is_digit (digit_char false d) ≡ true
unfolding digit_char
is_digit-digit_char d h = ground arith

digit_value_decimal : (c : ℕ) → is_digit c ≡ true → digit_value c ≡ c - b'0'
unfolding digit_value
digit_value_decimal c d = ground arith

digit_loop-AllDecimal : (fuel num : ℕ) → AllDecimal (digit_loop false 10 fuel num)
unfolding digit_loop AllDecimal
digit_loop-AllDecimal zero num = tt
digit_loop-AllDecimal (suc fuel) num = elim (ℕ_discrete num 0) [
  | yes e ↦ rw ((==_iff num 0).1 e) tt
  | no more ↦
      rw (ne→ne num 0 more)
        (is_digit-digit_char (num % 10) (omega arith), digit_loop-AllDecimal fuel (num / 10))
]

atoi_from-append :
    (i : ℕ) (s rest : List ℕ)
    → AllDecimal s
    → atoi_from i (s ++ rest) ≡ atoi_from (read_from 10 i s) rest
unfolding atoi_from AllDecimal read_from
atoi_from-append i [] rest _ = refl
atoi_from-append i (c ∷ s) rest (d, r) =
    rw (d, ← digit_value_decimal c d) (atoi_from-append (i * 10 + digit_value c) s rest r)

to_digits-AllDecimal : (num : ℕ) → AllDecimal (to_digits false 10 num)
unfolding to_digits AllDecimal
to_digits-AllDecimal num = elim (ℕ_discrete num 0) [
  | yes e ↦ rw ((==_iff num 0).1 e) (refl, tt)
  | no more ↦ rw (ne→ne num 0 more) (digit_loop-AllDecimal 64 num)
]

-- The rest of the text does not begin with a digit.
unfoldable pub Stops : List ℕ → Type 0
Stops [] = Unit
Stops (c ∷ s) = is_digit c ≡ false

atoi_from-Stops : (i : ℕ) (rest : List ℕ) → Stops rest → atoi_from i rest ≡ (i, rest)
unfolding atoi_from Stops
atoi_from-Stops i [] _ = refl
atoi_from-Stops i (c ∷ s) stop = rw stop refl

-- `skip_atoi` reads back the decimal digits of a number of 64 bits, up to the first byte that is no
-- digit.
pub skip_atoi-to_digits :
    (num : ℕ) (rest : List ℕ)
    → num < 2 ^ 64
    → Stops rest
    → skip_atoi (reverse (to_digits false 10 num) ++ rest) ≡ (num, rest)
unfolding skip_atoi
skip_atoi-to_digits num rest lt stops =
    atoi_from-append 0 (reverse (to_digits false 10 num)) rest
      (AllDecimal-reverse (to_digits false 10 num) (to_digits-AllDecimal num))
    ∙ atoi_from-Stops (read_from 10 0 (reverse (to_digits false 10 num))) rest stops
    ∙ ap (λ (n : ℕ). (n, rest)) (to_digits-read false 10 num (omega arith) (omega arith) lt)
