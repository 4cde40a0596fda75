-- ===== src/Elf/Range.antt =====
-- src/elf/elf.c: the range of addresses that `elf_pt_load_addr` finds.
use clay_figure_kernel.Base.{
  ℕ, zero, suc, ◌+◌, ◌-◌, ◌^◌, ◌≤◌, ◌<◌, ◌≡◌, refl, sym, arith, ◌⊎◌, true, false, ltb, ◌==◌,
  if◌then◌else◌, Bool-cases, inl, inr, add64, add64_exact, mul64, ==_iff, ◌*◌, ◌%◌,
}
use clay_figure_kernel.Strings.{Bytes}
use clay_figure_kernel.Ramfs.{load_le}
use clay_figure_kernel.Elf.{
  e_phoff, e_phnum, phdr_at, is_load, p_vaddr, p_memsz, addr_loop, elf_pt_load_addr,
}

-- The header of number `i`, as it lies in memory: a type of 4 bytes at its start, the address of the
-- segment at 16 and its size in memory at 40, 56 bytes behind the header before.
abbrev pub type_of : Bytes → ℕ → ℕ → ℕ
type_of m phdr i = load_le m (phdr + i * 56) 4

abbrev pub start_of : Bytes → ℕ → ℕ → ℕ
start_of m phdr i = load_le m (phdr + i * 56 + 16) 8

abbrev pub end_of : Bytes → ℕ → ℕ → ℕ
end_of m phdr i = start_of m phdr i + load_le m (phdr + i * 56 + 40) 8

-- Number `j` is one of the `n` from `i` on, and its segment is to be loaded: it has the type 1.
pub record IsSegment (m : Bytes) (phdr i n j : ℕ) : Type 0 where
  pub from : i ≤ j
  pub below : j < i + n
  pub load : type_of m phdr j ≡ 1

-- The headers lie below 2^64, and so does the end of each segment.
pub record IsPlaced (m : Bytes) (phdr i n : ℕ) : Type 0 where
  pub headers : phdr + (i + n) * 56 < 2 ^ 64
  pub segments : (j : ℕ) → IsSegment m phdr i n j → end_of m phdr j < 2 ^ 64

-- The range `r` begins at the least of `lo` and the starts of the segments, and ends at the greatest of
-- `hi` and their ends.
pub record IsHull (m : Bytes) (phdr i n lo hi : ℕ) (r : ℕ × ℕ) : Type 0 where
  pub least : r.0 ≤ lo
  pub greatest : hi ≤ r.1
  pub covers :
      (j : ℕ) → IsSegment m phdr i n j → (r.0 ≤ start_of m phdr j) × (end_of m phdr j ≤ r.1)
  pub starts : (r.0 ≡ lo) ⊎ ((j : ℕ) × IsSegment m phdr i n j × (start_of m phdr j ≡ r.0))
  pub ends : (r.1 ≡ hi) ⊎ ((j : ℕ) × IsSegment m phdr i n j × (end_of m phdr j ≡ r.1))

-- What the code reads of a header is what lies there.
read_header :
    (m : Bytes) (phdr i n : ℕ)
    → IsPlaced m phdr i (suc n)
    → ((is_load m (phdr_at phdr i)) ≡ (type_of m phdr i == 1))
      × (p_vaddr m (phdr_at phdr i) ≡ start_of m phdr i)
      × (p_memsz m (phdr_at phdr i) ≡ load_le m (phdr + i * 56 + 40) 8)
unfolding add64 mul64
read_header m phdr i n p =
    let at_i : (phdr + i * 56 % 2 ^ 64) % 2 ^ 64 ≡ phdr + i * 56 = omega (arith, p.headers) in
    let at_16 : (phdr + i * 56 + 16) % 2 ^ 64 ≡ phdr + i * 56 + 16 = omega (arith, p.headers) in
    let at_40 : (phdr + i * 56 + 40) % 2 ^ 64 ≡ phdr + i * 56 + 40 = omega (arith, p.headers) in
    (rw at_i refl, rw (at_i, at_16) refl, rw (at_i, at_40) refl)

later : (m : Bytes) (phdr i n j : ℕ) → IsSegment m phdr (i + 1) n j → IsSegment m phdr i (suc n) j
later m phdr i n j s = record {
  from = omega (arith, s.from);
  below = omega (arith, s.below);
  load = s.load;
}

later-IsPlaced : (m : Bytes) (phdr i n : ℕ) → IsPlaced m phdr i (suc n) → IsPlaced m phdr (i + 1) n
later-IsPlaced m phdr i n p = record {
  headers = omega (arith, p.headers);
  segments = λ j s. p.segments j (later m phdr i n j s);
}

-- A segment is the first, or one of the others.
first_or_later :
    (m : Bytes) (phdr i n j : ℕ)
    → IsSegment m phdr i (suc n) j
    → (i ≡ j) ⊎ IsSegment m phdr (i + 1) n j
first_or_later m phdr i n j s = elim (Bool-cases (i == j)) [
  | inl same ↦ inl ((==_iff i j).0 same)
  | inr other ↦
      inr (record { from = ground (arith, s.from); below = omega (arith, s.below); load = s.load })
]

-- A header that is not to be loaded in front.
IsHull-skip :
    (m : Bytes) (phdr i n lo hi : ℕ) (r : ℕ × ℕ)
    → (type_of m phdr i == 1) ≡ false
    → IsHull m phdr (i + 1) n lo hi r
    → IsHull m phdr i (suc n) lo hi r
IsHull-skip m phdr i n lo hi r skip h = record {
  least = h.least;
  greatest = h.greatest;
  covers = λ j s. elim (first_or_later m phdr i n j s) [
    | inl same ↦ absurd (clash j same s.load)
    | inr s' ↦ h.covers j s'
  ];
  starts = elim h.starts [ inl e ↦ inl e | inr (j, s, e) ↦ inr (j, later m phdr i n j s, e) ];
  ends = elim h.ends [ inl e ↦ inl e | inr (j, s, e) ↦ inr (j, later m phdr i n j s, e) ];
}
  where
    clash : (j : ℕ) → i ≡ j → ¬ (type_of m phdr j ≡ 1)
    clash j same load = (let h = rw (same, load) at skip in cc)

-- A segment in front.
IsHull-load :
    (m : Bytes) (phdr i n lo hi : ℕ) (r : ℕ × ℕ)
    → (type_of m phdr i == 1) ≡ true
    → IsHull m phdr
        (i + 1)
        n
        (if ltb (start_of m phdr i) lo then start_of m phdr i else lo)
        (if ltb hi (end_of m phdr i) then end_of m phdr i else hi)
        r
    → IsHull m phdr i (suc n) lo hi r
IsHull-load m phdr i n lo hi r load h = record {
  least = ground (arith, h.least);
  greatest = ground (arith, h.greatest);
  covers = λ j s. elim (first_or_later m phdr i n j s) [
    | inl same ↦ rw (sym same) (ground (arith, h.least), ground (arith, h.greatest))
    | inr s' ↦ h.covers j s'
  ];
  starts = elim h.starts [
    | inl e ↦ elim (Bool-cases (ltb (start_of m phdr i) lo)) [
      | inl less ↦ inr (i, first, sym (rw less at e))
      | inr not_less ↦ inl (rw not_less at e)
    ]
    | inr (j, s, e) ↦ inr (j, later m phdr i n j s, e)
  ];
  ends = elim h.ends [
    | inl e ↦ elim (Bool-cases (ltb hi (end_of m phdr i))) [
      | inl less ↦ inr (i, first, sym (rw less at e))
      | inr not_less ↦ inl (rw not_less at e)
    ]
    | inr (j, s, e) ↦ inr (j, later m phdr i n j s, e)
  ];
}
  where
    first : IsSegment m phdr i (suc n) i
    first = record {
      from = omega arith;
      below = omega arith;
      load = (==_iff (type_of m phdr i) 1).0 load;
    }

addr_loop-IsHull :
    (m : Bytes) (phdr i lo hi n : ℕ)
    → IsPlaced m phdr i n
    → IsHull m phdr i n lo hi (addr_loop m phdr i lo hi n)
unfolding addr_loop
addr_loop-IsHull m phdr i lo hi zero placed = record {
  least = omega arith;
  greatest = omega arith;
  covers = λ j s. absurd (omega (arith, s.from, s.below));
  starts = inl refl;
  ends = inl refl;
}
addr_loop-IsHull m phdr i lo hi (suc n) placed =
    let (load_at, vaddr_at, memsz_at) = read_header m phdr i n placed in
    let rest = later-IsPlaced m phdr i n placed in
    elim (Bool-cases (type_of m phdr i == 1)) [
      | inl load ↦
          let first : IsSegment m phdr i (suc n) i = record {
            from = omega arith;
            below = omega arith;
            load = (==_iff (type_of m phdr i) 1).0 load;
          } in
          let no_wrap =
            add64_exact (start_of m phdr i) (load_le m (phdr + i * 56 + 40) 8)
              (placed.segments i first) in
          rw (load_at, vaddr_at, memsz_at, load, no_wrap)
            (IsHull-load m phdr i n lo hi _ load (addr_loop-IsHull m phdr (i + 1) _ _ n rest))
      | inr skip ↦
          rw (load_at, skip)
            (IsHull-skip m phdr i n lo hi _ skip (addr_loop-IsHull m phdr (i + 1) lo hi n rest))
    ]

-- `elf_pt_load_addr`, of a file whose program headers and whose segments to be loaded end below 2^64,
-- finds the least range with all these segments: it begins at the start of one and ends at the end of
-- one, and no other reaches out of it. Without such segments it is from 2^64 - 1 to 0.
pub elf_pt_load_addr-IsHull :
    (m : Bytes) (ehdr : ℕ)
    → IsPlaced m (add64 ehdr (e_phoff m ehdr)) 0 (e_phnum m ehdr)
    → IsHull m
        (add64 ehdr (e_phoff m ehdr))
        0
        (e_phnum m ehdr)
        (2 ^ 64 - 1)
        0
        (elf_pt_load_addr m ehdr)
unfolding elf_pt_load_addr
elf_pt_load_addr-IsHull m ehdr placed =
    addr_loop-IsHull m (add64 ehdr (e_phoff m ehdr)) 0 (2 ^ 64 - 1) 0 (e_phnum m ehdr) placed
