-- ===== src/Stdio/Layout.antt =====
-- src/lib/stdio.c: what `number_to_string` stores, and how much.
use mathlib.Core.List.{reverse, reverse-cons}
use clay_figure_kernel.Base.{
  ℕ, ◌+◌, ◌<◌, max, ◌≡◌, refl, arith, true, false, List, [], ◌∷◌, ◌++◌, if◌then◌else◌, length,
  length-append, replicate,
}
use clay_figure_kernel.Stdio.{Flag, sign_of, magnitude, prefix_of}
use clay_figure_kernel.Stdio.Digits.{read_from}

pub length-reverse : (s : List ℕ) → length (reverse s) ≡ length s
length-reverse [] = refl
length-reverse (c ∷ s) =
    rw (reverse-cons c s) (omega (arith, length-append (reverse s) (c ∷ []), length-reverse s))

-- The text: the sign, the prefix and the digits, with zeros before the digits up to the precision,
-- and padding up to the width in one of three places.
pub record Layout (num base width precision : ℕ) (flag : Flag) (s : List ℕ) : Type 0 where
  pub front : ℕ
  pub middle : ℕ
  pub zeros : ℕ
  pub back : ℕ
  pub digits : List ℕ
  pub whole :
      s
      ≡ replicate front b' '
        ++ sign_of flag num
        ++ prefix_of flag base
        ++ replicate middle (if flag.zero_pad then b'0' else b' ')
        ++ replicate zeros b'0'
        ++ digits
        ++ replicate back b' '
  pub reads : read_from base 0 digits ≡ magnitude flag num
  pub some_digit : 0 < length digits
  pub precise : zeros + length digits ≡ max precision (length digits)
  pub wide :
      length s
      ≡ max width (length (sign_of flag num) + length (prefix_of flag base) + zeros + length digits)
  pub left_end : flag.left ≡ true → front + middle ≡ 0
  pub right_end : flag.left ≡ false → back ≡ 0
  pub zero_end : flag.zero_pad ≡ true → front ≡ 0
