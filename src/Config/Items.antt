-- ===== src/Config/Items.antt =====
-- src/kernel/config.c: the reader returns, and what it stores fits into an item.
use clay_figure_kernel.Base.{
  ℕ, zero, suc, ◌+◌, ◌-◌, ◌≤◌, ◌<◌, ◌≡◌, refl, arith, ◌⊎◌, ◌*◌, false, panic, Bool, not, ◌&&◌, List,
  [], ◌∷◌, length, ltb, ◌==◌, Bool-cases, inl, inr, is_error, Run, done, ◌>>=◌,
}
use clay_figure_kernel.Strings.{Bytes}
use clay_figure_kernel.Config.{
  ConfItem, max_items, is_space, is_key_name, space_loop, skip_space, line_loop, skip_line,
  take_bytes, read_item, parse_loop, parse_config,
}

space_loop-ge : (m : Bytes) (src n : ℕ) → src ≤ space_loop m src n
unfolding space_loop
space_loop-ge m src zero = omega arith
space_loop-ge m src (suc n) = elim (Bool-cases (is_space (m src))) [
  | inl space ↦ rw space (omega (arith, space_loop-ge m (src + 1) n))
  | inr other ↦ rw other (omega arith)
]

line_loop-ge : (m : Bytes) (src n : ℕ) → src ≤ line_loop m src n
unfolding line_loop
line_loop-ge m src zero = omega arith
line_loop-ge m src (suc n) = elim (Bool-cases (not (m src == 10))) [
  | inl inside ↦ rw inside (omega (arith, line_loop-ge m (src + 1) n))
  | inr at_end ↦ rw at_end (omega arith)
]

-- At most `room` bytes are copied, and the pointer moves on by their number.
take_bytes_lem :
    (wanted : ℕ → Bool) (m : Bytes) (src end room : ℕ)
    → (length (take_bytes wanted m src end room).0 ≤ room)
      × ((take_bytes wanted m src end room).1 ≡ src + length (take_bytes wanted m src end room).0)
unfolding take_bytes
take_bytes_lem wanted m src end zero = (omega arith, omega arith)
take_bytes_lem wanted m src end (suc room) =
    let (short, moved) = take_bytes_lem wanted m (src + 1) end room in
    elim (Bool-cases (wanted (m src) && ltb src end)) [
      | inl more ↦ rw more (omega arith, omega (arith, moved))
      | inr over ↦ rw over (omega arith, omega arith)
    ]

-- Both texts of an item fit into its arrays of 64 bytes with the 0 behind them.
unfoldable pub AllFit : List ConfItem → Type 0
AllFit [] = Unit
AllFit (item ∷ items) = (length item.name ≤ 63) × (length item.val ≤ 63) × AllFit items

-- What is read of an item fits, and the pointer does not move back.
read_item_lem :
    (m : Bytes) (src end : ℕ)
    → (src ≤ (read_item m src end).2)
      × (length (read_item m src end).1.name ≤ 63)
      × (length (read_item m src end).1.val ≤ 63)
unfolding read_item
read_item_lem m src end =
    let s0 = skip_space m src end in
    let name = take_bytes is_key_name m s0 end 63 in
    let s2 = skip_space m name.1 end in
    let s3 = skip_space m (s2 + 1) end in
    let s4 = skip_space m (s3 + 1) end in
    let val = take_bytes (λ x. not (x == 93)) m s4 end 63 in
    let (name_short, name_moved) = take_bytes_lem is_key_name m s0 end 63 in
    let (val_short, val_moved) = take_bytes_lem (λ x. not (x == 93)) m s4 end 63 in
    let h0 : src ≤ s0 = space_loop-ge m src (end - src) in
    let h1 : name.1 ≤ s2 = space_loop-ge m name.1 (end - name.1) in
    let h2 : s2 + 1 ≤ s3 = space_loop-ge m (s2 + 1) (end - (s2 + 1)) in
    let h3 : s3 + 1 ≤ s4 = space_loop-ge m (s3 + 1) (end - (s3 + 1)) in
    elim (Bool-cases (not (m s2 == 61))) [
      | inl no_equals ↦ rw no_equals (omega (arith, name_moved, h0, h1), name_short, omega arith)
      | inr equals ↦ elim (Bool-cases (not (m s3 == 91))) [
        | inl no_bracket ↦
            rw (equals, no_bracket) (omega (arith, name_moved, h0, h1, h2), name_short, omega arith)
        | inr bracket ↦
            rw (equals, bracket)
              (omega (arith, name_moved, val_moved, h0, h1, h2, h3), name_short, val_short)
      ]
    ]

-- An item that is read moves the pointer on by its three marks at least.
read_item_moves :
    (m : Bytes) (src end : ℕ)
    → is_error (read_item m src end).0 ≡ false
    → src + 3 ≤ (read_item m src end).2
unfolding read_item
read_item_moves m src end =
    let s0 = skip_space m src end in
    let name = take_bytes is_key_name m s0 end 63 in
    let s2 = skip_space m name.1 end in
    let s3 = skip_space m (s2 + 1) end in
    let s4 = skip_space m (s3 + 1) end in
    let (_, name_moved) = take_bytes_lem is_key_name m s0 end 63 in
    let (_, val_moved) = take_bytes_lem (λ x. not (x == 93)) m s4 end 63 in
    let h0 : src ≤ s0 = space_loop-ge m src (end - src) in
    let h1 : name.1 ≤ s2 = space_loop-ge m name.1 (end - name.1) in
    let h2 : s2 + 1 ≤ s3 = space_loop-ge m (s2 + 1) (end - (s2 + 1)) in
    let h3 : s3 + 1 ≤ s4 = space_loop-ge m (s3 + 1) (end - (s3 + 1)) in
    elim (Bool-cases (not (m s2 == 61))) [
      | inl no_equals ↦ rw no_equals (λ fine. absurd (cc))
      | inr equals ↦ elim (Bool-cases (not (m s3 == 91))) [
        | inl no_bracket ↦ rw (equals, no_bracket) (λ fine. absurd (cc))
        | inr bracket ↦
            rw (equals, bracket) (λ fine. omega (arith, name_moved, val_moved, h0, h1, h2, h3))
      ]
    ]

-- The reader returns where `k` items are stored already, and all that it stored fits, in number as well;
-- or there are more items than places, and so more than four bytes for each place.
abbrev pub Parses : ℕ → ℕ → Run (List ConfItem) → Type 0
Parses k bytes r =
    ((items : List ConfItem) × (r ≡ done items) × AllFit items × (k + length items ≤ max_items))
    ⊎ ((r ≡ panic) × (4 * max_items < bytes + 4 * k))

from_here :
    (k src' end src : ℕ) (r : Run (List ConfItem))
    → src ≤ src'
    → Parses k (end - src') r
    → Parses k (end - src) r
from_here k src' end src r h (inl fine) = inl fine
from_here k src' end src r h (inr (e, many)) = inr (e, omega arith)

-- An item in front of the others.
one_more :
    (k src' end src : ℕ) (item : ConfItem) (r : Run (List ConfItem))
    → src + 4 ≤ src'
    → k < max_items
    → length item.name ≤ 63
    → length item.val ≤ 63
    → Parses (k + 1) (end - src') r
    → Parses k (end - src) (r >>= λ items. done (item ∷ items))
unfolding AllFit
one_more k src' end src item r h room name val (inl (items, e, fit, few)) =
    inl (item ∷ items, rw e refl, (name, val, fit), omega (arith, few))
one_more k src' end src item r h room name val (inr (e, many)) =
    inr (rw e refl, omega (arith, many))

parse_loop-Parses :
    (m : Bytes) (src end k fuel : ℕ)
    → end - src < fuel
    → k ≤ max_items
    → Parses k (end - src) (parse_loop m src end k fuel)
unfolding parse_loop AllFit
parse_loop-Parses m src end k zero enough few = absurd (omega arith)
parse_loop-Parses m src end k (suc fuel) enough few =
    let s1 = skip_space m src end in
    let h1 : src ≤ s1 = space_loop-ge m src (end - src) in
    let (h2, name_fits, val_fits) = read_item_lem m s1 end in
    let s2 = (read_item m s1 end).2 in
    elim (Bool-cases (not (ltb src end))) [
      | inl over ↦ rw over (inl ([], refl, tt, omega (arith, few)))
      | inr inside ↦ elim (Bool-cases (not (ltb s1 end))) [
        | inl over ↦ rw (inside, over) (inl ([], refl, tt, omega (arith, few)))
        | inr more ↦ elim (Bool-cases (m s1 == 35)) [
          | inl comment ↦
              let moved = line_loop-ge m s1 (end - s1) in
              rw (inside, more, comment)
                (from_here k (skip_line m s1 end + 1) end src _ (omega (arith, moved, h1)) (
                  parse_loop-Parses m (skip_line m s1 end + 1) end k fuel (ground (arith, moved))
                    few))
          | inr item ↦ elim (Bool-cases (is_error (read_item m s1 end).0)) [
            | inl failed ↦
                let moved = line_loop-ge m s2 (end - s2) in
                rw (inside, more, item, failed)
                  (from_here k (skip_line m s2 end + 1) end src _ (omega (arith, moved, h1, h2)) (
                    parse_loop-Parses m (skip_line m s2 end + 1) end k fuel (ground (arith, moved))
                      few))
            | inr read ↦
                let moved = read_item_moves m s1 end read in
                elim (Bool-cases (not (ltb k max_items))) [
                  | inl full ↦ rw (inside, more, item, read, full) (inr (refl, ground (arith)))
                  | inr room ↦
                      rw (inside, more, item, read, room)
                        (one_more k (s2 + 1) end src (read_item m s1 end).1 _
                          (omega (arith, moved, h1)) (ground (arith)) name_fits val_fits
                          (parse_loop-Parses m (s2 + 1) end (k + 1) fuel (ground (arith, moved))
                            (ground (arith))))
                ]
          ]
        ]
      ]
    ]

-- `parse_config` of a file, given one unit of fuel more than the file has bytes, does not run on. Either
-- it returns, and has stored at most 64 items, each with a name and a value of at most 63 bytes, so that
-- they fit into their arrays of 64 with the 0 behind them; or the file has more than 256 bytes, and the
-- reader stores an item behind the last of the 64 places.
pub parse_config-Parses :
    (m : Bytes) (file_data size fuel : ℕ)
    → size < fuel
    → Parses 0 size (parse_config m file_data size fuel)
unfolding parse_config
parse_config-Parses m file_data size fuel enough =
    let whole : file_data + size - file_data ≡ size = omega arith in
    rw whole at
      (parse_loop-Parses m file_data (file_data + size) 0 fuel (omega arith) (omega arith))
