-- ===== src/Stdio/Print.antt =====
-- src/lib/stdio.c: `vsprintf` on texts with conversions of integers.
use mathlib.Core.List.{reverse, append-nil}
use clay_figure_kernel.Base.{
  ℕ, suc, ◌+◌, ◌-◌, ◌^◌, ◌≤◌, ◌<◌, max, ◌≡◌, ◌⊎◌, inl, inr, refl, ap, sym, ◌∙◌, arith, Bool, true,
  false, ◌&&◌, Option, some, List, [], ◌∷◌, ◌++◌, leb, ◌==◌, length, length-append, replicate, Run,
  done, panic, spin, ◌>>=◌,
}
use clay_figure_kernel.Stdio.{
  Flag, no_flag, skip_atoi, flags_from, get_flag, qualifier_from, number_to_string, to_digits,
  sext32, text_length, Arg, word, get_width, get_precision, convert_number, convert, conversion,
  print_loop, vsprintf,
}
use clay_figure_kernel.Stdio.Digits.{skip_atoi-to_digits, Stops}

-- No byte of the text is `%`.
unfoldable pub NoPercent : List ℕ → Type 0
NoPercent [] = Unit
NoPercent (c ∷ s) = ((c == b'%') ≡ false) × NoPercent s

abbrev pub decimal : ℕ → List ℕ
decimal num = reverse (to_digits false 10 num)

no_padding :
    (w x y z : ℕ) (ds : List ℕ)
    → w ≡ 0
    → x ≡ 0
    → y ≡ 0
    → z ≡ 0
    → replicate w b' ' ++ [] ++ [] ++ replicate x b' ' ++ replicate y b'0' ++ ds ++ replicate z b' '
      ≡ ds
no_padding w x y z ds p q r s = rw (p, q, r, s) (append-nil ds)

-- Without a width, a precision or a flag for a sign, only the digits are stored.
number_plain :
    (num : ℕ) (signed : Bool)
    → (signed && leb (2 ^ 63) num) ≡ false
    → number_to_string num 10 0 0 (record no_flag { sign = signed }) ≡ some (decimal num)
unfolding number_to_string
number_plain num signed unsigned =
    let i = length (to_digits false 10 num) in
    rw unsigned (
      ap some (
        no_padding (0 - max i 0) (0 - max i 0 - (0 - max i 0)) (max i 0 - i)
          (0 - max i 0 - (0 - max i 0) - (0 - max i 0 - (0 - max i 0))) (decimal num) (omega arith)
          (omega arith) (omega arith) (omega arith)))

module _ (Real : Type 0) (float_to_string : Real → Option ℕ → Option ℕ → Flag → List ℕ) where
  abbrev Args : Type 0
  Args = List (Arg Real float_to_string)

  abbrev prepend : List ℕ → Run (List ℕ) → Run (List ℕ)
  prepend pre r = r >>= λ s. done (pre ++ s)

  prepend_nil : (r : Run (List ℕ)) → r ≡ prepend [] r
  prepend_nil (done s) = refl
  prepend_nil panic = refl
  prepend_nil spin = refl

  prepend_cons :
      (c : ℕ) (pre : List ℕ) (r : Run (List ℕ))
      → (prepend pre r >>= λ s. done (c ∷ s)) ≡ prepend (c ∷ pre) r
  prepend_cons c pre (done s) = refl
  prepend_cons c pre panic = refl
  prepend_cons c pre spin = refl

  print_byte :
      (c : ℕ) (fmt : List ℕ) (args : Args) (fuel : ℕ)
      → (c == b'%') ≡ false
      → print_loop Real float_to_string (suc fuel) (c ∷ fmt) args
        ≡ (print_loop Real float_to_string fuel fmt args >>= λ s. done (c ∷ s))
  unfolding print_loop
  print_byte c fmt args fuel e = λ i. elim (e i) [
    | false ↦ print_loop Real float_to_string fuel fmt args >>= λ s. done (c ∷ s)
    | true ↦ conversion Real float_to_string fmt args >>= λ (s, fmt', args').
        print_loop Real float_to_string fuel fmt' args' >>= λ s'. done (s ++ s')
  ]

  print_plain :
      (pre fmt : List ℕ) (args : Args) (fuel : ℕ)
      → NoPercent pre
      → print_loop Real float_to_string (length pre + fuel) (pre ++ fmt) args
        ≡ prepend pre (print_loop Real float_to_string fuel fmt args)
  unfolding NoPercent
  print_plain [] fmt args fuel _ =
      let e : 0 + fuel ≡ fuel = omega arith in
      rw e (prepend_nil (print_loop Real float_to_string fuel fmt args))
  print_plain (c ∷ pre) fmt args fuel (e, h) =
      let e' : suc (length pre) + fuel ≡ suc (length pre + fuel) = omega arith in
      rw e' (
        print_byte c (pre ++ fmt) args (length pre + fuel) e
        ∙ ap (λ (r : Run (List ℕ)). r >>= λ s. done (c ∷ s)) (print_plain pre fmt args fuel h)
        ∙ prepend_cons c pre (print_loop Real float_to_string fuel fmt args))

  -- `%d`, `%u`: one word of the arguments is printed, widened from 32 bits.
  print_word :
      (c : ℕ) (signed : Bool) (w : ℕ) (fmt : List ℕ) (args : Args) (fuel : ℕ)
      → ((c ≡ b'd') × (signed ≡ true)) ⊎ ((c ≡ b'u') × (signed ≡ false))
      → (signed && leb (2 ^ 63) (sext32 w)) ≡ false
      → print_loop Real float_to_string (suc fuel) (b'%' ∷ c ∷ fmt) (word w ∷ args)
        ≡ prepend (decimal (sext32 w)) (print_loop Real float_to_string fuel fmt args)
  unfolding print_loop conversion get_flag flags_from get_width get_precision qualifier_from convert
      convert_number
  print_word c signed w fmt args fuel (inl (c_d, s_d)) pos =
      rw (c_d, number_plain (sext32 w) true (rw s_d at pos)) refl
  print_word c signed w fmt args fuel (inr (c_u, s_u)) pos =
      rw (c_u, number_plain (sext32 w) false (rw s_u at pos)) refl

  plain_end :
      (post : List ℕ)
      → NoPercent post
      → print_loop Real float_to_string (suc (length post + 1)) post [] ≡ done post
  unfolding print_loop
  plain_end post plain =
      let fuel : suc (length post + 1) ≡ length post + 2 = omega arith in
      rw fuel (
        ap (λ fmt. print_loop Real float_to_string (length post + 2) fmt []) (sym (append-nil post))
        ∙ print_plain post [] [] 2 plain
        ∙ ap done (append-nil post))

  -- Text, one conversion of an integer, and text again.
  vsprintf_word :
      (pre post : List ℕ) (c : ℕ) (signed : Bool) (w : ℕ)
      → NoPercent pre
      → NoPercent post
      → Stops post
      → ((c ≡ b'd') × (signed ≡ true)) ⊎ ((c ≡ b'u') × (signed ≡ false))
      → (signed && leb (2 ^ 63) (sext32 w)) ≡ false
      → (s : List ℕ) × (vsprintf Real float_to_string (pre ++ b'%' ∷ c ∷ post) (word w ∷ [])
          ≡ done (text_length (pre ++ s), pre ++ s))
        × (skip_atoi s ≡ (sext32 w, post))
  unfolding vsprintf
  vsprintf_word pre post c signed w plain plain' stops which pos =
      let fuel : suc (length (pre ++ b'%' ∷ c ∷ post)) ≡ length pre + suc (suc (length post + 1)) =
        omega (arith, length-append pre (b'%' ∷ c ∷ post)) in
      (
        decimal (sext32 w) ++ post,
        ap (λ (r : Run (List ℕ)). r >>= λ s. done (text_length s, s))
            (ap
                (λ (n : ℕ).
                  print_loop Real float_to_string n (pre ++ b'%' ∷ c ∷ post) (word w ∷ []))
                fuel
              ∙ print_plain pre (b'%' ∷ c ∷ post) (word w ∷ []) (suc (suc (length post + 1))) plain
              ∙ ap (prepend pre) (
                  print_word c signed w post [] (suc (length post + 1)) which pos
                  ∙ ap (prepend (decimal (sext32 w))) (plain_end post plain'))),
        skip_atoi-to_digits (sext32 w) post (ground arith) stops,
      )

  -- `vsprintf` of a text without `%`, then `%d` (or `%u`), then such a text that does not begin with a
  -- digit, for a word below 2^31: it prints the first text and behind it a text from which `skip_atoi`
  -- reads the word back, up to the last text.
  pub vsprintf_decimal :
      (pre post : List ℕ) (c w : ℕ)
      → NoPercent pre
      → NoPercent post
      → Stops post
      → (c ≡ b'd') ⊎ (c ≡ b'u')
      → w < 2 ^ 31
      → (s : List ℕ) × (vsprintf Real float_to_string (pre ++ b'%' ∷ c ∷ post) (word w ∷ [])
          ≡ done (text_length (pre ++ s), pre ++ s))
        × (skip_atoi s ≡ (w, post))
  vsprintf_decimal pre post c w plain plain' stops (inl d) small =
      let same : sext32 w ≡ w = ground arith in
      rw same at (vsprintf_word pre post c true w plain plain' stops (inl (d, refl)) (ground arith))
  vsprintf_decimal pre post c w plain plain' stops (inr u) small =
      let same : sext32 w ≡ w = ground arith in
      rw same at (vsprintf_word pre post c false w plain plain' stops (inr (u, refl)) refl)

  -- `%u` reads its argument as an `int`: of a word from 2^31 to 2^32 - 1 it prints the word plus
  -- 2^64 - 2^32.
  pub vsprintf_unsigned :
      (pre post : List ℕ) (w : ℕ)
      → NoPercent pre
      → NoPercent post
      → Stops post
      → 2 ^ 31 ≤ w
      → w < 2 ^ 32
      → (s : List ℕ) × (vsprintf Real float_to_string (pre ++ b'%' ∷ b'u' ∷ post) (word w ∷ [])
          ≡ done (text_length (pre ++ s), pre ++ s))
        × (skip_atoi s ≡ (w + (2 ^ 64 - 2 ^ 32), post))
  vsprintf_unsigned pre post w plain plain' stops big small =
      let same : sext32 w ≡ w + (2 ^ 64 - 2 ^ 32) = ground arith in
      rw same at (vsprintf_word pre post b'u' false w plain plain' stops (inr (refl, refl)) refl)
