-- ===== src/Config.antt =====
-- src/kernel/config.c: the reader of the configuration file. The file stands in the memory of Strings
-- and ends so far below 2^64 that no pointer wraps. A name and a value are the lists of their bytes
-- without the 0 at their end, whose lengths are `name_len` and `val_len`. A loop up to `end` runs as
-- many rounds as there are bytes before it.
pub mod Items
mod Tests
use clay_figure_kernel.Base.{
  ℕ, zero, suc, true, false, Option, none, some, length, ◌+◌, ◌-◌, Bool, not, ◌&&◌, ◌||◌, List, [],
  ◌∷◌, ◌++◌, ltb, leb, ◌==◌, if◌then◌else◌, Status, success, error, is_error, Run, done, spin,
  panic, ◌>>=◌,
}
use clay_figure_kernel.Strings.{Bytes}

-- `IS_SPACE` and `IS_KEY_NAME`.
abbrev pub is_space : ℕ → Bool
is_space x = x == 32 || x == 10 || x == 13 || x == 9

abbrev pub is_key_name : ℕ → Bool
is_key_name x = (leb 97 x && leb x 122) || (leb 65 x && leb x 90) || x == 95

pub record ConfItem : Type 0 where
  pub name : List ℕ
  pub val : List ℕ

pub space_loop : Bytes → ℕ → ℕ → ℕ
space_loop m src zero = src
space_loop m src (suc n) =
    let rest = space_loop m (src + 1) n in if is_space (m src) then rest else src

abbrev pub skip_space : Bytes → ℕ → ℕ → ℕ
skip_space m src end = space_loop m src (end - src)

pub line_loop : Bytes → ℕ → ℕ → ℕ
line_loop m src zero = src
line_loop m src (suc n) =
    let rest = line_loop m (src + 1) n in if not (m src == 10) then rest else src

abbrev pub skip_line : Bytes → ℕ → ℕ → ℕ
skip_line m src end = line_loop m src (end - src)

-- The two loops that copy at most `room` bytes of a class.
pub take_bytes : (ℕ → Bool) → Bytes → ℕ → ℕ → ℕ → List ℕ × ℕ
take_bytes wanted m src end zero = ([], src)
take_bytes wanted m src end (suc room) =
    let (bytes, src') = take_bytes wanted m (src + 1) end room in
    if wanted (m src) && ltb src end then (m src ∷ bytes, src') else ([], src)

-- The status, the item and the new place of `src`.
pub read_item : Bytes → ℕ → ℕ → Status × ConfItem × ℕ
read_item m src end =
    let (name, s1) = take_bytes is_key_name m (skip_space m src end) end 63 in
    let named : ConfItem = record { name = name; val = [] } in
    let s2 = skip_space m s1 end in
    let s3 = skip_space m (s2 + 1) end in
    let s4 = skip_space m (s3 + 1) end in
    let (val, s5) = take_bytes (λ x. not (x == 93)) m s4 end 63 in
    if not (m s2 == 61)
    then (error, named, s2 + 1)
    else if not (m s3 == 91)
    then (error, named, s3 + 1)
    else (success, record { name = name; val = val }, s5 + 1)

-- The places of `configures.items`.
abbrev pub max_items : ℕ
max_items = 64

-- The loop of `parse_config`, where `number_of_items` are stored already; it gives those back that it
-- stores. An item behind the last place overwrites `number_of_items` and what stands behind it, and is
-- a `panic` here.
pub parse_loop : Bytes → ℕ → ℕ → ℕ → ℕ → Run (List ConfItem)
parse_loop m src end number_of_items zero = spin
parse_loop m src end number_of_items (suc fuel) =
    let s1 = skip_space m src end in
    let (status, item, s2) = read_item m s1 end in
    let comment = parse_loop m (skip_line m s1 end + 1) end number_of_items fuel in
    let failed = parse_loop m (skip_line m s2 end + 1) end number_of_items fuel in
    let others = parse_loop m (s2 + 1) end (number_of_items + 1) fuel in
    if not (ltb src end)
    then done []
    else if not (ltb s1 end)
    then done []
    else if m s1 == 35
    then comment
    else if is_error status
    then failed
    else if not (ltb number_of_items max_items)
    then panic
    else (others >>= λ items. done (item ∷ items))

pub parse_config : Bytes → ℕ → ℕ → ℕ → Run (List ConfItem)
parse_config m file_data size fuel = parse_loop m file_data (file_data + size) 0 fuel

-- What `strcpy` copies of the bytes of a value.
pub text_of : List ℕ → List ℕ
text_of [] = []
text_of (x ∷ xs) = let rest = text_of xs in if x == 0 then [] else x ∷ rest

-- `strcmp(name, item->name) == 0`, of names without a byte 0.
pub same_name : List ℕ → List ℕ → Bool
same_name [] [] = true
same_name [] (y ∷ ys) = false
same_name (x ∷ xs) [] = false
same_name (x ∷ xs) (y ∷ ys) = x == y && same_name xs ys

-- What is stored through `value`, if anything, and through `value_len`.
pub read_config : List ConfItem → List ℕ → ℕ → Option (List ℕ) × ℕ
read_config [] name value_len = (none, 0)
read_config (item ∷ items) name value_len =
    let rest = read_config items name value_len in
    if same_name name item.name
    then if ltb value_len (length item.val)
      then (none, 0)
      else (some (text_of item.val), length item.val)
    else rest
