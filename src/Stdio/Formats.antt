-- ===== src/Stdio/Formats.antt =====
-- src/lib/stdio.c: `vsprintf` on whole formats.
use mathlib.Core.Option
use clay_figure_kernel.Base.{
  ℕ, zero, suc, ◌+◌, ◌-◌, ◌*◌, ◌%◌, ◌^◌, ◌≤◌, ◌<◌, ◌≢◌, inl, inr, arith, Bool, true, false, ◌||◌,
  Option, some, none, List, [], ◌∷◌, ◌++◌, ltb, ◌==◌, if◌then◌else◌, length, Bool-cases, Run, done,
  panic, spin, ◌>>=◌,
}
use clay_figure_kernel.Stdio.{
  Flag, no_flag, is_digit, as_int, atoi_from, skip_atoi, flags_from, get_flag, qualifier_from,
  number_to_string, sext32, text_length, Arg, take_word, take_text, take_real, from_option, word,
  text, real, get_width, get_precision_number, get_precision, convert_number, convert, conversion,
  print_loop, vsprintf,
}

atoi_from_shorter : (i : ℕ) (s : List ℕ) → length (atoi_from i s).1 ≤ length s
unfolding atoi_from
atoi_from_shorter i [] = omega arith
atoi_from_shorter i (c ∷ s) = ground (arith, atoi_from_shorter (i * 10 + (c - b'0')) s)

skip_atoi_shorter : (s : List ℕ) → length (skip_atoi s).1 ≤ length s
unfolding skip_atoi
skip_atoi_shorter s = atoi_from_shorter 0 s

flags_from_shorter : (flag : Flag) (fmt : List ℕ) → length (flags_from flag fmt).1 ≤ length fmt
unfolding flags_from
flags_from_shorter flag [] = omega arith
flags_from_shorter flag (c ∷ fmt) = ground (
  arith,
  flags_from_shorter (record flag { left = true }) fmt,
  flags_from_shorter (record flag { zero_pad = true }) fmt,
  flags_from_shorter (record flag { space = true }) fmt,
  flags_from_shorter (record flag { special = true }) fmt,
)

qualifier_from_shorter : (q : ℕ) (fmt : List ℕ) → length (qualifier_from q fmt).1 ≤ length fmt
unfolding qualifier_from
qualifier_from_shorter q [] = omega arith
qualifier_from_shorter q (c ∷ fmt) = ground (arith, qualifier_from_shorter c fmt)

-- A call that does not wait for ever, and whose result satisfies `P` if it returns.
abbrev Ends {ℓ} : {A : Type ℓ} → (A → Type 0) → Run A → Type 0
Ends P (done a) = P a
Ends P panic = Unit
Ends P spin = ⊥

Ends-bind :
    {A B : Type 0} (P : A → Type 0) (Q : B → Type 0) (r : Run A) (f : A → Run B)
    → Ends P r
    → ((a : A) → P a → Ends Q (f a))
    → Ends Q (r >>= f)
Ends-bind P Q (done a) f p h = h a p
Ends-bind P Q panic f p h = tt
Ends-bind P Q spin f p h = absurd p

Ends-if :
    {A : Type 0} (P : A → Type 0) (t : Bool) (r s : Run A)
    → Ends P r
    → Ends P s
    → Ends P (if t then r else s)
Ends-if P true r s p q = p
Ends-if P false r s p q = q

module _ (Real : Type 0) (float_to_string : Real → Option ℕ → Option ℕ → Flag → List ℕ) where
  abbrev Args : Type 0
  Args = List (Arg Real float_to_string)

  as_int-Ends : (i : ℕ) → Ends (λ r. Unit {0}) (as_int i)
  unfolding as_int
  as_int-Ends i = Ends-if (λ r. Unit {0}) (ltb i (2 ^ 31)) (done i) panic tt tt

  take_word-Ends : (args : Args) → Ends (λ r. Unit {0}) (take_word Real float_to_string args)
  take_word-Ends [] = tt
  take_word-Ends (word w ∷ args) = tt
  take_word-Ends (text t ∷ args) = tt
  take_word-Ends (real r ∷ args) = tt

  get_width_shorter :
      (flag : Flag) (fmt : List ℕ) (args : Args)
      → Ends (λ r. length r.2 ≤ length fmt) (get_width Real float_to_string flag fmt args)
  unfolding get_width
  get_width_shorter flag [] args = omega arith
  get_width_shorter flag (c ∷ fmt) args = elim (Bool-cases (is_digit c)) [
    | inl e ↦ rw e (
        Ends-bind (λ r. Unit {0}) (λ r. length r.2 ≤ suc (length fmt))
          (as_int (skip_atoi (c ∷ fmt)).0) _ (as_int-Ends (skip_atoi (c ∷ fmt)).0)
          (λ width _. skip_atoi_shorter (c ∷ fmt)))
    | inr e ↦ elim (Bool-cases (c == b'*')) [
      | inr e' ↦ rw (e, e') (omega arith)
      | inl e' ↦
          rw (e, e')
            (Ends-bind (λ r. Unit {0}) (λ r. length r.2 ≤ suc (length fmt))
              (take_word Real float_to_string args) _ (take_word-Ends args)
              (λ (w, args') _. elim (Bool-cases (ltb (w % 2 ^ 32) (2 ^ 31))) [
                | inl t ↦ rw t (omega arith)
                | inr t ↦ rw t (
                    Ends-bind (λ r. Unit {0}) (λ r. length r.2 ≤ suc (length fmt))
                      (as_int (2 ^ 32 - w % 2 ^ 32)) _ (as_int-Ends (2 ^ 32 - w % 2 ^ 32))
                      (λ width _. omega arith))
              ]))
    ]
  ]

  get_precision_number_shorter :
      (fmt : List ℕ) (args : Args)
      → Ends (λ r. length r.1 ≤ length fmt) (get_precision_number Real float_to_string fmt args)
  unfolding get_precision_number
  get_precision_number_shorter [] args = omega arith
  get_precision_number_shorter (c ∷ fmt) args = elim (Bool-cases (is_digit c)) [
    | inl e ↦ rw e (
        Ends-bind (λ r. Unit {0}) (λ r. length r.1 ≤ suc (length fmt))
          (as_int (skip_atoi (c ∷ fmt)).0) _ (as_int-Ends (skip_atoi (c ∷ fmt)).0)
          (λ precision _. skip_atoi_shorter (c ∷ fmt)))
    | inr e ↦ elim (Bool-cases (c == b'*')) [
      | inr e' ↦ rw (e, e') (omega arith)
      | inl e' ↦
          rw (e, e')
            (Ends-bind (λ r. Unit {0}) (λ r. length r.1 ≤ suc (length fmt))
              (take_word Real float_to_string args) _ (take_word-Ends args)
              (λ (w, args') _. omega arith))
    ]
  ]

  get_precision_shorter :
      (fmt : List ℕ) (args : Args)
      → Ends (λ r. length r.1 ≤ length fmt) (get_precision Real float_to_string fmt args)
  unfolding get_precision
  get_precision_shorter [] args = omega arith
  get_precision_shorter (c ∷ fmt) args = elim (Bool-cases (c == b'.')) [
    | inl e ↦ rw e (
        Ends-weaken (get_precision_number Real float_to_string fmt args)
          (get_precision_number_shorter fmt args))
    | inr e ↦ rw e (omega arith)
  ]
    where
      Ends-weaken :
          (r : Run (Option ℕ × List ℕ × Args))
          → Ends (λ r. length r.1 ≤ length fmt) r
          → Ends (λ r. length r.1 ≤ suc (length fmt)) r
      Ends-weaken (done a) h = omega arith
      Ends-weaken panic h = tt
      Ends-weaken spin h = absurd h

  convert_number-Ends :
      (wide : ℕ → ℕ) (base : ℕ) (flag : Flag) (width precision : Option ℕ) (qualifier : ℕ)
      (args : Args)
      → Ends
          (λ r. Unit {0})
          (convert_number Real float_to_string wide base flag width precision qualifier args)
  unfolding convert_number
  convert_number-Ends wide base flag width precision qualifier args =
      Ends-bind (λ r. Unit {0}) (λ r. Unit {0}) (take_word Real float_to_string args) _
        (take_word-Ends args)
        (λ (w, args') _.
          printed
            (number_to_string (if qualifier == b'l' then w else wide w) base (Option.get_or width 0)
              (Option.get_or precision 0) flag)
            args')
    where
      printed :
          (o : Option (List ℕ)) (args' : Args)
          → Ends {A = List ℕ × Args}
              (λ r. Unit {0})
              (from_option Real float_to_string o >>= λ s. done (s, args'))
      printed none args' = tt
      printed (some s) args' = tt

  convert-Ends :
      (c : ℕ) (flag : Flag) (width precision : Option ℕ) (qualifier : ℕ) (args : Args)
      → Ends (λ r. Unit {0}) (convert Real float_to_string c flag width precision qualifier args)
  unfolding convert
  convert-Ends c flag width precision qualifier args = Ends-if P (c == b'%') _ _ tt (
      Ends-if P (c == b'c') _ _
        (bound (take_word Real float_to_string args) _ (take_word-Ends args) (λ _. tt))
        (Ends-if P (c == b'd' || c == b'i') _ _
          (number sext32 10 (record flag { sign = true }) width)
          (Ends-if P (c == b'u') _ _ (number sext32 10 flag width) (
            Ends-if P (c == b'o') _ _ (number sext32 8 flag width) (
              Ends-if P (c == b'p') _ _ (pointer width) (
                Ends-if P (c == b's') _ _
                  (bound (take_text Real float_to_string args) _ (texts args) (λ _. tt))
                  (Ends-if P (c == b'x') _ _
                    (number (λ w. w % 2 ^ 32) 16 (record flag { small = true }) width)
                    (Ends-if P (c == b'X') _ _ (number (λ w. w % 2 ^ 32) 16 flag width) (
                      Ends-if P (c == b'f') _ _
                        (bound (take_real Real float_to_string args) _ (reals args) (λ _. tt))
                        tt)))))))))
    where
      P : List ℕ × Args → Type 0
      P r = Unit {0}

      bound :
          {A : Type 0} (r : Run A) (f : A → Run (List ℕ × Args))
          → Ends (λ a. Unit {0}) r
          → ((a : A) → Ends P (f a))
          → Ends P (r >>= f)
      bound r f p h = Ends-bind (λ a. Unit {0}) P r f p (λ a _. h a)

      number :
          (wide : ℕ → ℕ) (base : ℕ) (g : Flag) (n : Option ℕ)
          → Ends P (convert_number Real float_to_string wide base g n precision qualifier args)
      number wide base g n = convert_number-Ends wide base g n precision qualifier args

      pointer :
          (n : Option ℕ)
          → Ends P (elim n [
            | none ↦
                convert_number Real float_to_string
                  (λ w. w)
                  16
                  (record flag { zero_pad = true })
                  (some 16)
                  precision
                  qualifier
                  args
            | some n ↦
                convert_number Real float_to_string
                  (λ w. w)
                  16
                  flag
                  (some n)
                  precision
                  qualifier
                  args
          ])
      pointer none = number (λ w. w) 16 (record flag { zero_pad = true }) (some 16)
      pointer (some n) = number (λ w. w) 16 flag (some n)

      texts : (args : Args) → Ends (λ a. Unit {0}) (take_text Real float_to_string args)
      texts [] = tt
      texts (word w ∷ args) = tt
      texts (text t ∷ args) = tt
      texts (real r ∷ args) = tt

      reals : (args : Args) → Ends (λ a. Unit {0}) (take_real Real float_to_string args)
      reals [] = tt
      reals (word w ∷ args) = tt
      reals (text t ∷ args) = tt
      reals (real r ∷ args) = tt

  conversion_shorter :
      (fmt : List ℕ) (args : Args)
      → Ends (λ r. length r.1 ≤ length fmt) (conversion Real float_to_string fmt args)
  unfolding conversion get_flag
  conversion_shorter fmt args =
      Ends-bind (λ r. length r.2 ≤ length fmt) Q (get_width Real float_to_string flag fmt1 args) _
        (weaker (get_width Real float_to_string flag fmt1 args) (get_width_shorter flag fmt1 args))
        (λ (flag', width, fmt2, args2) h2.
          Ends-bind (λ r. length r.1 ≤ length fmt2) Q
            (get_precision Real float_to_string fmt2 args2) _ (get_precision_shorter fmt2 args2)
            (λ (precision, fmt3, args3) h3.
              letter flag' width precision (qualifier_from 0 fmt3).0 args3 (qualifier_from 0 fmt3).1
                (omega (arith, qualifier_from_shorter 0 fmt3))))
    where
      Q : List ℕ × List ℕ × Args → Type 0
      Q r = length r.1 ≤ length fmt

      flag : Flag
      flag = (get_flag fmt).0

      fmt1 : List ℕ
      fmt1 = (get_flag fmt).1

      weaker :
          (r : Run (Flag × Option ℕ × List ℕ × Args))
          → Ends (λ r. length r.2 ≤ length fmt1) r
          → Ends (λ r. length r.2 ≤ length fmt) r
      weaker (done a) h = omega (arith, flags_from_shorter no_flag fmt)
      weaker panic h = tt
      weaker spin h = absurd h

      letter :
          (g : Flag) (width precision : Option ℕ) (q : ℕ) (args3 : Args) (fmt4 : List ℕ)
          → length fmt4 ≤ length fmt
          → Ends Q (elim fmt4 [
            | [] ↦ done (b'%' ∷ [], [], args3)
            | c ∷ fmt5 ↦ convert Real float_to_string c g width precision q args3 >>= λ (s, args4).
                done (s, fmt5, args4)
          ])
      letter g width precision q args3 [] h = omega arith
      letter g width precision q args3 (c ∷ fmt5) h =
          Ends-bind (λ r. Unit {0}) Q (convert Real float_to_string c g width precision q args3) _
            (convert-Ends c g width precision q args3) (λ (s, args4) _. omega arith)

  print_loop-Ends :
      (fuel : ℕ) (fmt : List ℕ) (args : Args)
      → length fmt < fuel
      → Ends (λ s. Unit {0}) (print_loop Real float_to_string fuel fmt args)
  unfolding print_loop
  print_loop-Ends zero fmt args h = absurd (omega arith)
  print_loop-Ends (suc fuel) [] args h = tt
  print_loop-Ends (suc fuel) (c ∷ fmt) args h = by_byte (c == b'%') (print_loop-Ends fuel)
    where
      by_byte :
          (percent : Bool)
          → ((fmt' : List ℕ) (args' : Args)
              → length fmt' < fuel
              → Ends (λ s. Unit {0}) (print_loop Real float_to_string fuel fmt' args'))
          → Ends
              (λ s. Unit {0})
              (elim percent [
                | false ↦ print_loop Real float_to_string fuel fmt args >>= λ s. done (c ∷ s)
                | true ↦ conversion Real float_to_string fmt args >>= λ (s, fmt', args').
                    print_loop Real float_to_string fuel fmt' args' >>= λ s'. done (s ++ s')
              ])
      by_byte false rest =
          Ends-bind (λ s. Unit {0}) (λ s. Unit {0}) (print_loop Real float_to_string fuel fmt args)
            _ (rest fmt args (omega arith)) (λ s _. tt)
      by_byte true rest =
          Ends-bind (λ r. length r.1 ≤ length fmt) (λ s. Unit {0})
            (conversion Real float_to_string fmt args) _ (conversion_shorter fmt args)
            (λ (s, fmt', args') shorter.
              Ends-bind (λ s. Unit {0}) (λ s. Unit {0})
                (print_loop Real float_to_string fuel fmt' args') _ (rest fmt' args' (omega arith))
                (λ s' _. tt))

  -- `vsprintf` does not run for ever, on any format and arguments: its loop ends within as many
  -- rounds as the format has bytes, and one.
  pub vsprintf_ends : (fmt : List ℕ) (args : Args) → vsprintf Real float_to_string fmt args ≢ spin
  unfolding vsprintf
  vsprintf_ends fmt args =
      not_spin (print_loop Real float_to_string (suc (length fmt)) fmt args)
        (print_loop-Ends (suc (length fmt)) fmt args (omega arith))
    where
      not_spin :
          (r : Run (List ℕ))
          → Ends (λ s. Unit {0}) r
          → ◌>>=◌ {B = ℕ × List ℕ} r (λ s. done (text_length s, s)) ≢ spin
      not_spin (done s) _ e = cc
      not_spin panic _ e = cc
      not_spin spin h e = absurd h
