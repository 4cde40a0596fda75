-- ===== src/Config/Tests.antt =====
-- src/kernel/config.c: the file "# a\nfont=[x]\n" at 0.
use clay_figure_kernel.Base.{◌≡◌, refl, arith, [], ◌∷◌, some, get_or, done}
use clay_figure_kernel.Strings.{Bytes}
use clay_figure_kernel.Config.{
  ConfItem, space_loop, line_loop, take_bytes, read_item, parse_loop, parse_config, read_config,
  text_of, same_name,
}
use clay_figure_kernel.Config.Items.{Parses, parse_config-Parses}

abbrev file : Bytes
file x = get_or (35 ∷ 32 ∷ 97 ∷ 10 ∷ 102 ∷ 111 ∷ 110 ∷ 116 ∷ 61 ∷ 91 ∷ 120 ∷ 93 ∷ 10 ∷ []) x 0

parse_example : Parses 0 13 (parse_config file 0 13 14)
parse_example = parse_config-Parses file 0 13 14 (omega arith)

abbrev font : ConfItem
font = record { name = 102 ∷ 111 ∷ 110 ∷ 116 ∷ []; val = 120 ∷ [] }

parsed : parse_config file 0 13 14 ≡ done (font ∷ [])
unfolding parse_config parse_loop read_item take_bytes space_loop line_loop
parsed = refl

found : read_config (font ∷ []) font.name 8 ≡ (some (120 ∷ []), 1)
unfolding read_config same_name text_of
found = refl
