-- ===== src/Stdio/Tests.antt =====
-- src/lib/stdio.c: short formats, with a `double` that is never printed.
use clay_figure_kernel.Base.{
  ℕ, ◌+◌, ◌-◌, ◌^◌, ◌≤◌, ◌<◌, ◌≡◌, ◌≢◌, inl, refl, arith, Option, List, [], ◌∷◌, ◌++◌, true, false,
  length, done, panic, spin,
}
use clay_figure_kernel.Stdio.{
  Flag, no_flag, skip_atoi, number_to_string, to_digits, digit_loop, digit_char, text_length, word,
  text, vsprintf, print_loop, conversion, get_flag, flags_from, get_width, get_precision,
  get_precision_number, qualifier_from, convert, convert_number, atoi_from, as_int,
}
use clay_figure_kernel.Stdio.Digits.{to_digits_short, Stops}
use clay_figure_kernel.Stdio.Layout.{Layout}
use clay_figure_kernel.Stdio.Formats.{vsprintf_ends}
use clay_figure_kernel.Stdio.Print.{NoPercent, vsprintf_decimal, vsprintf_unsigned}

abbrev no_real : Unit {0} → Option ℕ → Option ℕ → Flag → List ℕ
no_real _ _ _ _ = []

abbrev hex : Flag
hex = record no_flag { special = true; small = true; zero_pad = true }

-- `%5d%%`, `%-3u.`, `%#06x` and `%s`.
vsprintf_runs :
    (vsprintf (Unit {0}) no_real (b'%' ∷ b'5' ∷ b'd' ∷ b'%' ∷ b'%' ∷ []) (word (2 ^ 32 - 7) ∷ [])
      ≡ done (6, b' ' ∷ b' ' ∷ b' ' ∷ b'-' ∷ b'7' ∷ b'%' ∷ []))
    × (vsprintf (Unit {0}) no_real (b'%' ∷ b'-' ∷ b'3' ∷ b'u' ∷ b'.' ∷ []) (word 7 ∷ [])
        ≡ done (4, b'7' ∷ b' ' ∷ b' ' ∷ b'.' ∷ []))
    × (vsprintf (Unit {0}) no_real (b'%' ∷ b'#' ∷ b'0' ∷ b'6' ∷ b'x' ∷ []) (word 171 ∷ [])
        ≡ done (6, b'0' ∷ b'x' ∷ b'0' ∷ b'0' ∷ b'a' ∷ b'b' ∷ []))
    × (vsprintf (Unit {0}) no_real (b'%' ∷ b's' ∷ []) (text (b'h' ∷ b'i' ∷ []) ∷ [])
        ≡ done (2, b'h' ∷ b'i' ∷ []))
    × (vsprintf (Unit {0}) no_real (b'%' ∷ b'd' ∷ []) [] ≡ panic)
unfolding vsprintf print_loop conversion get_flag flags_from get_width get_precision
    get_precision_number qualifier_from convert convert_number number_to_string to_digits digit_loop
    digit_char skip_atoi atoi_from as_int
vsprintf_runs = (refl, refl, refl, refl, refl)

no_text : NoPercent (b'n' ∷ b'=' ∷ [])
unfolding NoPercent
no_text = (refl, (refl, tt))

end_text : NoPercent (b';' ∷ [])
unfolding NoPercent
end_text = (refl, tt)

end-Stops : Stops (b';' ∷ [])
unfolding Stops
end-Stops = refl

to_digits_example : (0 < length (to_digits false 3 80)) × (length (to_digits false 3 80) ≤ 41)
to_digits_example = to_digits_short false 3 80 (omega arith) (omega arith)

vsprintf_ends_example : vsprintf (Unit {0}) no_real (b'%' ∷ b'l' ∷ []) [] ≢ spin
vsprintf_ends_example = vsprintf_ends (Unit {0}) no_real (b'%' ∷ b'l' ∷ []) []

vsprintf_decimal_example :
    (s : List ℕ) × (vsprintf
        (Unit {0})
        no_real
        ((b'n' ∷ b'=' ∷ []) ++ b'%' ∷ b'd' ∷ b';' ∷ [])
        (word 1234 ∷ [])
      ≡ done (text_length ((b'n' ∷ b'=' ∷ []) ++ s), (b'n' ∷ b'=' ∷ []) ++ s))
    × (skip_atoi s ≡ (1234, b';' ∷ []))
vsprintf_decimal_example =
    vsprintf_decimal (Unit {0}) no_real (b'n' ∷ b'=' ∷ []) (b';' ∷ []) b'd' 1234 no_text end_text
      end-Stops (inl refl) (omega arith)

vsprintf_unsigned_example :
    (s : List ℕ) × (vsprintf
        (Unit {0})
        no_real
        ((b'n' ∷ b'=' ∷ []) ++ b'%' ∷ b'u' ∷ b';' ∷ [])
        (word 3000000000 ∷ [])
      ≡ done (text_length ((b'n' ∷ b'=' ∷ []) ++ s), (b'n' ∷ b'=' ∷ []) ++ s))
    × (skip_atoi s ≡ (3000000000 + (2 ^ 64 - 2 ^ 32), b';' ∷ []))
vsprintf_unsigned_example =
    vsprintf_unsigned (Unit {0}) no_real (b'n' ∷ b'=' ∷ []) (b';' ∷ []) 3000000000 no_text end_text
      end-Stops (omega arith) (omega arith)
