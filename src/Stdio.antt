-- ===== src/Stdio.antt =====
-- src/lib/stdio.c: `vsprintf` and what it calls. A format and a text are lists of bytes without the
-- 0 at their end, and what a function stores from `str` on is the list that it returns: the buffer
-- overlaps neither the format nor an argument.
-- A width or precision is a natural number: the code only asks how far the number is above 0, so a
-- negative one is 0 here. Where `vsprintf` asks whether there was one, it is an option.
pub mod Digits
pub mod Layout
pub mod Formats
pub mod Print
mod Tests
use clay_figure_kernel.Base.{
  ℕ, zero, suc, ◌+◌, ◌-◌, ◌*◌, ◌/◌, ◌%◌, ◌^◌, max, Bool, true, false, not, ◌&&◌, ◌||◌, Option, none,
  some, List, [], ◌∷◌, ◌++◌, ltb, leb, ◌==◌, if◌then◌else◌, length, replicate, Run, done, panic,
  spin, ◌>>=◌,
}
use mathlib.Core.List.{reverse}
use mathlib.Core.Option

-- The flags `FORMAT_*`.
pub record Flag : Type 0 where
  pub left : Bool
  pub space : Bool
  pub zero_pad : Bool
  pub sign : Bool
  pub plus : Bool
  pub special : Bool
  pub small : Bool

abbrev pub no_flag : Flag
no_flag = record {
  left = false;
  space = false;
  zero_pad = false;
  sign = false;
  plus = false;
  special = false;
  small = false;
}

abbrev pub is_digit : ℕ → Bool
is_digit c = leb b'0' c && leb c b'9'

-- The number and the rest of the text; `as_int` is what an `int` holds of it.
pub atoi_from : ℕ → List ℕ → ℕ × List ℕ
atoi_from i [] = (i, [])
atoi_from i (c ∷ s) =
    let rest = atoi_from (i * 10 + (c - b'0')) s in if is_digit c then rest else (i, c ∷ s)

pub skip_atoi : List ℕ → ℕ × List ℕ
unfolding atoi_from
skip_atoi s = atoi_from 0 s

-- A number that an `int` does not hold overflows, which has no result in C: the run ends.
pub as_int : ℕ → Run ℕ
as_int i = if ltb i (2 ^ 31) then done i else panic

-- `digits[d]`, in the table of small or of capital letters.
pub digit_char : Bool → ℕ → ℕ
digit_char small d =
    if ltb d 10 then b'0' + d else if small then b'a' + (d - 10) else b'A' + (d - 10)

-- `while (num != 0)`: what is put into `tmp`, the lowest digit first. The rounds left are fuel, and
-- 64 are enough for 64 bits.
pub digit_loop : Bool → ℕ → ℕ → ℕ → List ℕ
digit_loop small base zero num = []
digit_loop small base (suc fuel) num =
    let rest = digit_loop small base fuel (num / base) in
    if num == 0 then [] else digit_char small (num % base) ∷ rest

-- `tmp`.
pub to_digits : Bool → ℕ → ℕ → List ℕ
to_digits small base num = if num == 0 then b'0' ∷ [] else digit_loop small base 64 num

-- The sign, if there is one, and what is printed behind it.
abbrev pub is_negative : Flag → ℕ → Bool
is_negative flag num = flag.sign && leb (2 ^ 63) num

abbrev pub sign_of : Flag → ℕ → List ℕ
sign_of flag num =
    if is_negative flag num
    then b'-' ∷ []
    else if flag.plus
    then b'+' ∷ []
    else if flag.space
    then b' ' ∷ []
    else []

abbrev pub magnitude : Flag → ℕ → ℕ
magnitude flag num = if is_negative flag num then (2 ^ 64 - num) % 2 ^ 64 else num

abbrev pub prefix_of : Flag → ℕ → List ℕ
prefix_of flag base =
    if flag.special
    then (if base == 8
        then b'0' ∷ []
        else if base == 16
        then b'0' ∷ digit_char flag.small 33 ∷ []
        else [])
    else []

-- `none` is the null pointer for a base that is out of range.
pub number_to_string : ℕ → ℕ → ℕ → ℕ → Flag → Option (List ℕ)
number_to_string num base width precision flag =
    if ltb base 2 || ltb 36 base
    then none
    else (let pad = if flag.zero_pad then b'0' else b' ' in
        let sign = sign_of flag num in
        let prefix = prefix_of flag base in
        let tmp = to_digits flag.small base (magnitude flag num) in
        let i = length tmp in
        let precision = max i precision in
        let width = width - length sign - length prefix - precision in
        let front = if flag.zero_pad || flag.left then 0 else width in
        let width = width - front in
        let middle = if flag.left then 0 else width in
        some (
          replicate front b' '
          ++ sign
          ++ prefix
          ++ replicate middle pad
          ++ replicate (precision - i) b'0'
          ++ reverse tmp
          ++ replicate (width - middle) b' '))

-- `get_flag`, from the byte behind `%` or a flag on.
pub flags_from : Flag → List ℕ → Flag × List ℕ
flags_from flag [] = (flag, [])
flags_from flag (c ∷ fmt) =
    let on_left = flags_from (record flag { left = true }) fmt in
    let on_zero = flags_from (record flag { zero_pad = true }) fmt in
    let on_space = flags_from (record flag { space = true }) fmt in
    let on_special = flags_from (record flag { special = true }) fmt in
    if c == b'-'
    then on_left
    else if c == b'0'
    then on_zero
    else if c == b' '
    then on_space
    else if c == b'#'
    then on_special
    else (flag, c ∷ fmt)

pub get_flag : List ℕ → Flag × List ℕ
get_flag fmt =
    let (flag, rest) = flags_from no_flag fmt in
    ((if flag.left then record flag { zero_pad = false } else flag), rest)

-- A value in its slot of 64 bits, read as an `int` and widened to 64 bits.
abbrev pub sext32 : ℕ → ℕ
sext32 w = if ltb (w % 2 ^ 32) (2 ^ 31) then w % 2 ^ 32 else w % 2 ^ 32 + (2 ^ 64 - 2 ^ 32)

-- `strlen` of what was stored.
abbrev pub text_length : List ℕ → ℕ
text_length [] = 0
text_length (c ∷ s) = if c == 0 then 0 else suc (text_length s)

-- `while (*fmt == 'h' || ...) qualifier = *fmt++`.
pub qualifier_from : ℕ → List ℕ → ℕ × List ℕ
qualifier_from q [] = (q, [])
qualifier_from q (c ∷ fmt) =
    let rest = qualifier_from c fmt in
    if c == b'h' || c == b'l' || c == b'L' || c == b'Z' then rest else (q, c ∷ fmt)

-- `double` and its print are parameters.
module _ (Real : Type 0) (float_to_string : Real → Option ℕ → Option ℕ → Flag → List ℕ) where
  -- A variable argument: an integer or a pointer, the string that a pointer leads to, a `double`.
  pub data Arg : Type 0 where
    word : ℕ → Arg
    text : List ℕ → Arg
    real : Real → Arg

  -- `va_arg` of an integer type. An argument that is missing or of another kind is undefined
  -- behaviour, and `panic` here.
  abbrev pub take_word : List Arg → Run (ℕ × List Arg)
  take_word (word w ∷ args) = done (w, args)
  take_word _ = panic

  abbrev pub take_text : List Arg → Run (List ℕ × List Arg)
  take_text (text s ∷ args) = done (s, args)
  take_text _ = panic

  abbrev pub take_real : List Arg → Run (Real × List Arg)
  take_real (real r ∷ args) = done (r, args)
  take_real _ = panic

  -- The width of a conversion, with what is left of the format and the arguments.
  pub get_width : Flag → List ℕ → List Arg → Run (Flag × Option ℕ × List ℕ × List Arg)
  get_width flag [] args = done (flag, none, [], args)
  get_width flag (c ∷ fmt) args =
      if is_digit c
      then (let (i, rest) = skip_atoi (c ∷ fmt) in
          as_int i >>= λ width. done (flag, some width, rest, args))
      else if c == b'*'
      then take_word args >>= (λ (w, args').
        if ltb (w % 2 ^ 32) (2 ^ 31)
        then done (flag, some (w % 2 ^ 32), fmt, args')
        else as_int (2 ^ 32 - w % 2 ^ 32) >>= λ width.
            done (record flag { left = true }, some width, fmt, args'))
      else done (flag, none, c ∷ fmt, args)

  -- The number or `*` behind the `.`.
  pub get_precision_number : List ℕ → List Arg → Run (Option ℕ × List ℕ × List Arg)
  get_precision_number [] args = done (some 0, [], args)
  get_precision_number (c ∷ fmt) args =
      if is_digit c
      then (let (i, rest) = skip_atoi (c ∷ fmt) in
          as_int i >>= λ precision. done (some precision, rest, args))
      else if c == b'*'
      then take_word args >>= (λ (w, args').
        done (some (if ltb (w % 2 ^ 32) (2 ^ 31) then w % 2 ^ 32 else 0), fmt, args'))
      else done (some 0, c ∷ fmt, args)

  pub get_precision : List ℕ → List Arg → Run (Option ℕ × List ℕ × List Arg)
  get_precision [] args = done (none, [], args)
  get_precision (c ∷ fmt) args =
      if c == b'.' then get_precision_number fmt args else done (none, c ∷ fmt, args)

  abbrev pub from_option : Option (List ℕ) → Run (List ℕ)
  from_option (some s) = done s
  from_option none = panic

  -- A conversion of an integer: `wide` is the type of the argument without the qualifier `l`.
  pub convert_number :
      (ℕ → ℕ) → ℕ → Flag → Option ℕ → Option ℕ → ℕ → List Arg → Run (List ℕ × List Arg)
  convert_number wide base flag width precision qualifier args = take_word args >>= λ (w, args').
      from_option (
        number_to_string (if qualifier == b'l' then w else wide w) base (Option.get_or width 0)
          (Option.get_or precision 0) flag)
      >>= λ s. done (s, args')

  -- The `switch` on the letter of a conversion: what is stored, and the arguments left.
  pub convert : ℕ → Flag → Option ℕ → Option ℕ → ℕ → List Arg → Run (List ℕ × List Arg)
  convert c flag width precision qualifier args =
      if c == b'%'
      then done (b'%' ∷ [], args)
      else if c == b'c'
      then take_word args >>= (λ (w, args').
        let spaces = replicate (Option.get_or width 0 - 1) b' ' in
        done ((if flag.left then (w % 256) ∷ spaces else spaces ++ (w % 256) ∷ []), args'))
      else if c == b'd' || c == b'i'
      then convert_number sext32 10 (record flag { sign = true }) width precision qualifier args
      else if c == b'u'
      then convert_number sext32 10 flag width precision qualifier args
      else if c == b'o'
      then convert_number sext32 8 flag width precision qualifier args
      else if c == b'p'
      then elim width [
        | none ↦
            convert_number (λ w. w) 16 (record flag { zero_pad = true }) (some 16) precision
              qualifier args
        | some n ↦ convert_number (λ w. w) 16 flag (some n) precision qualifier args
      ]
      else if c == b's'
      then take_text args >>= (λ (s, args'). done (s, args'))
      else if c == b'x'
      then convert_number (λ w. w % 2 ^ 32) 16 (record flag { small = true }) width precision
          qualifier args
      else if c == b'X'
      then convert_number (λ w. w % 2 ^ 32) 16 flag width precision qualifier args
      else if c == b'f'
      then take_real args >>= (λ (r, args'). done (float_to_string r width precision flag, args'))
      else done (b'%' ∷ c ∷ [], args)

  -- From the byte behind a `%` on.
  pub conversion : List ℕ → List Arg → Run (List ℕ × List ℕ × List Arg)
  conversion fmt args =
      let (flag, fmt1) = get_flag fmt in
      get_width flag fmt1 args >>= λ (flag', width, fmt2, args2).
      get_precision fmt2 args2 >>= λ (precision, fmt3, args3).
      let (qualifier, fmt4) = qualifier_from 0 fmt3 in
      elim fmt4 [
        | [] ↦ done (b'%' ∷ [], [], args3)
        | c ∷ fmt5 ↦
            convert c flag' width precision qualifier args3 >>= λ (s, args4). done (s, fmt5, args4)
      ]

  -- The loop on the format, with one unit of fuel for each of its bytes and one for its end.
  pub print_loop : ℕ → List ℕ → List Arg → Run (List ℕ)
  print_loop zero fmt args = spin
  print_loop (suc fuel) [] args = done []
  print_loop (suc fuel) (c ∷ fmt) args = elim (c == b'%') [
    | false ↦ print_loop fuel fmt args >>= λ s. done (c ∷ s)
    | true ↦ conversion fmt args >>= λ (s, fmt', args').
        print_loop fuel fmt' args' >>= λ s'. done (s ++ s')
  ]

  -- The length that is returned, and what is stored before the 0 at its end.
  pub vsprintf : List ℕ → List Arg → Run (ℕ × List ℕ)
  vsprintf fmt args = print_loop (suc (length fmt)) fmt args >>= λ s. done (text_length s, s)
