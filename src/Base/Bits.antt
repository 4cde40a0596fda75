-- ===== src/Base/Bits.antt =====
-- Laws of `bit_and` and `bit_or` with one bit set, from the digits of the native operations.
use Prim.Native.Nat.{
  ℕ, zero, suc, ◌+◌, ◌-◌, ◌*◌, ◌/◌, ◌%◌, ◌^◌, ◌≤◌, ◌<◌, min, max, bit_and, bit_or, digits, bitwise,
  bit_and-bitwise, bit_or-bitwise,
}
use mathlib.Core.Path.{◌≡◌, refl, ap, sym, ◌∙◌}
use mathlib.Core.Logic.{◌≢◌}
use native.Mathlib.Nat.{le_refl, pow-suc, div-add-mod, mul-add-mod_self_left, mod-eq_of_lt, mod-lt}
use native.Mathlib.Omega.{arith}

-- `digits` on more fuel than its first number is the same: an operation on bits, `on_zero` where
-- the first number has run out.
module _ (on_zero : ℕ → ℕ) (on_bits : ℕ → ℕ → ℕ) where
  spare_fuel :
      (x extra y fuel : ℕ)
      → y ≤ fuel
      → digits on_zero on_bits (fuel + extra) y x ≡ digits on_zero on_bits fuel y x
  spare_fuel x zero zero zero h = refl
  spare_fuel x (suc extra) zero zero h =
      let e : zero + suc extra ≡ suc extra = omega arith in rw e refl
  spare_fuel x extra (suc y) zero h = absurd (omega arith)
  spare_fuel x extra zero (suc fuel) h =
      let e : suc fuel + extra ≡ suc (fuel + extra) = omega arith in rw e refl
  spare_fuel x extra (suc y) (suc fuel) h =
      let e : suc fuel + extra ≡ suc (fuel + extra) = omega arith in
      rw (e, spare_fuel (x / 2) extra (suc y / 2) fuel (omega arith)) refl

  lowest :
      (y x : ℕ)
      → on_bits (suc y % 2) (x % 2) + 2 * bitwise on_zero on_bits (suc y / 2) (x / 2)
        ≡ bitwise on_zero on_bits (suc y) x
  lowest y x =
      let half = suc y / 2 in
      let e : half + (y - half) ≡ y = omega arith in
      let same = spare_fuel (x / 2) (y - half) half half (le_refl half) in
      omega (arith, sym same ∙ ap (λ (n : ℕ). digits on_zero on_bits n half (x / 2)) e)

pub bit_and_step : (a b : ℕ) → bit_and a b ≡ bit_and (a / 2) (b / 2) * 2 + min (a % 2) (b % 2)
bit_and_step a b = simp bit_and-bitwise (by_cases a)
  where
    by_cases :
        (y : ℕ)
        → bitwise (λ _. 0) min y b ≡ bitwise (λ _. 0) min (y / 2) (b / 2) * 2 + min (y % 2) (b % 2)
    by_cases (suc y) = omega (arith, lowest (λ _. 0) min y b)
    by_cases zero = omega arith

pub bit_or_step : (a b : ℕ) → bit_or a b ≡ bit_or (a / 2) (b / 2) * 2 + max (a % 2) (b % 2)
bit_or_step a b = simp bit_or-bitwise (by_cases a)
  where
    by_cases :
        (y : ℕ)
        → bitwise (λ n. n) max y b ≡ bitwise (λ n. n) max (y / 2) (b / 2) * 2 + max (y % 2) (b % 2)
    by_cases (suc y) = omega (arith, lowest (λ n. n) max y b)
    by_cases zero = omega arith

-- Bit `i` of the number `w`, 0 or 1.
abbrev pub bit_of : ℕ → ℕ → ℕ
bit_of w zero = w % 2
bit_of w (suc i) = bit_of (w / 2) i

pub bit_of-le_one : (w i : ℕ) → bit_of w i ≤ 1
bit_of-le_one w zero = omega arith
bit_of-le_one w (suc i) = bit_of-le_one (w / 2) i

pub bit_of-bit_or : (a b i : ℕ) → bit_of (bit_or a b) i ≡ max (bit_of a i) (bit_of b i)
bit_of-bit_or a b zero = omega (arith, bit_or_step a b)
bit_of-bit_or a b (suc i) =
    ap (λ (k : ℕ). bit_of k i) (omega (arith, bit_or_step a b)) ∙ bit_of-bit_or (a / 2) (b / 2) i

pub bit_of-bit_and : (a b i : ℕ) → bit_of (bit_and a b) i ≡ min (bit_of a i) (bit_of b i)
bit_of-bit_and a b zero = omega (arith, bit_and_step a b)
bit_of-bit_and a b (suc i) =
    ap (λ (k : ℕ). bit_of k i) (omega (arith, bit_and_step a b)) ∙ bit_of-bit_and (a / 2) (b / 2) i

pub bit_of-zero : (i : ℕ) → bit_of 0 i ≡ 0
bit_of-zero zero = refl
bit_of-zero (suc i) = bit_of-zero i

pub bit_of-pow_self : (k : ℕ) → bit_of (2 ^ k) k ≡ 1
bit_of-pow_self zero = refl
bit_of-pow_self (suc k) =
    ap (λ (n : ℕ). bit_of n k) (omega (arith, pow-suc 2 k)) ∙ bit_of-pow_self k

pub bit_of-pow_ne : (k i : ℕ) → i ≢ k → bit_of (2 ^ k) i ≡ 0
bit_of-pow_ne zero zero h = absurd (h refl)
bit_of-pow_ne zero (suc i) h = bit_of-zero i
bit_of-pow_ne (suc k) zero h = omega (arith, pow-suc 2 k)
bit_of-pow_ne (suc k) (suc i) h =
    ap (λ (n : ℕ). bit_of n i) (omega (arith, pow-suc 2 k)) ∙ bit_of-pow_ne k i (λ e. h (ap suc e))

-- The complement within `w` bits.
pub bit_of-complement : (w x i : ℕ) → x < 2 ^ w → i < w → bit_of (2 ^ w - 1 - x) i ≡ 1 - bit_of x i
bit_of-complement zero x i hx hi = absurd (omega arith)
bit_of-complement (suc w) x zero hx hi = omega (arith, pow-suc 2 w)
bit_of-complement (suc w) x (suc i) hx hi =
    ap (λ (n : ℕ). bit_of n i) (omega (arith, pow-suc 2 w))
    ∙ bit_of-complement w (x / 2) i (omega (arith, pow-suc 2 w)) (omega arith)

bit_and-nil_below : (n a : ℕ) → a ≤ n → bit_and a 0 ≡ 0
bit_and-nil_below n zero h = refl
bit_and-nil_below zero (suc a) h = absurd (omega arith)
bit_and-nil_below (suc n) (suc a) h =
    omega (arith, bit_and_step (suc a) 0, bit_and-nil_below n (suc a / 2) (omega arith))

-- `w & (1 << k)`.
pub bit_and-pow : (w k : ℕ) → bit_and w (2 ^ k) ≡ bit_of w k * 2 ^ k
bit_and-pow w zero = omega (arith, bit_and_step w 1, bit_and-nil_below (w / 2) (w / 2) (le_refl _))
bit_and-pow w (suc k) = omega (
  arith,
  bit_and_step w (2 ^ suc k),
  pow-suc 2 k,
  ap (λ (n : ℕ). bit_and (w / 2) n) half_pow,
  bit_and-pow (w / 2) k,
  ap (λ (t : ℕ). bit_of (w / 2) k * t) (pow-suc 2 k),
)
  where
    half_pow : 2 ^ suc k / 2 ≡ 2 ^ k
    half_pow = omega (arith, pow-suc 2 k)

pub pow_pos : (k : ℕ) → 0 < 2 ^ k
pow_pos zero = omega arith
pow_pos (suc k) = omega (arith, pow-suc 2 k, pow_pos k)

pub pow-lt-pow : (k w : ℕ) → k < w → 2 ^ k < 2 ^ w
pow-lt-pow k zero h = absurd (omega arith)
pow-lt-pow zero (suc w) h = omega (arith, pow-suc 2 w, pow_pos w)
pow-lt-pow (suc k) (suc w) h = omega (arith, pow-suc 2 k, pow-suc 2 w, pow-lt-pow k w (omega arith))

-- `w & ((1 << k) - 1)`.
pub bit_and-mask : (w k : ℕ) → bit_and w (2 ^ k - 1) ≡ w % 2 ^ k
bit_and-mask w zero = omega (arith, bit_and-nil_below w w (le_refl _))
bit_and-mask w (suc k) = omega (
  arith,
  bit_and_step w (2 ^ suc k - 1),
  pow-suc 2 k,
  pow_pos k,
  ap (λ (n : ℕ). bit_and (w / 2) n) half_mask,
  bit_and-mask (w / 2) k,
  mod-pow,
)
  where
    half_mask : (2 ^ suc k - 1) / 2 ≡ 2 ^ k - 1
    half_mask = omega (arith, pow-suc 2 k, pow_pos k)

    split : w ≡ 2 ^ suc k * (w / 2 / 2 ^ k) + (w / 2 % 2 ^ k * 2 + w % 2)
    split =
        omega
          (arith, div-add-mod (w / 2) (2 ^ k), ap (λ (t : ℕ). t * (w / 2 / 2 ^ k)) (pow-suc 2 k))

    mod-pow : w % 2 ^ suc k ≡ w / 2 % 2 ^ k * 2 + w % 2
    mod-pow =
        ap (λ (x : ℕ). x % 2 ^ suc k) split
        ∙ mul-add-mod_self_left (2 ^ suc k) (w / 2 / 2 ^ k) (w / 2 % 2 ^ k * 2 + w % 2)
        ∙ mod-eq_of_lt (omega (arith, pow-suc 2 k, mod-lt (w / 2) (pow_pos k)))
