-- ===== src/Elf.antt =====
-- src/elf/elf.c: the loader of programs, in the memory of Strings. The places of the members of the
-- head of a file and of a program header, and the constants, are those of src/include/elf.h.
pub mod Range
mod Tests
use clay_figure_kernel.Base.{
  ℕ, zero, suc, ◌+◌, ◌^◌, ◌-◌, Bool, not, ◌||◌, ltb, ◌==◌, if◌then◌else◌, add64, sub64, mul64, ◌%◌,
  Run, done, spin,
}
use clay_figure_kernel.Strings.{Bytes, memset, memcpy}
use clay_figure_kernel.Ramfs.{load_le}

-- The members of the head at `ehdr`.
abbrev pub e_type : Bytes → ℕ → ℕ
e_type m ehdr = load_le m (add64 ehdr 16) 2

abbrev pub e_version : Bytes → ℕ → ℕ
e_version m ehdr = load_le m (add64 ehdr 20) 4

abbrev pub e_phoff : Bytes → ℕ → ℕ
e_phoff m ehdr = load_le m (add64 ehdr 32) 8

abbrev pub e_phnum : Bytes → ℕ → ℕ
e_phnum m ehdr = load_le m (add64 ehdr 56) 2

-- `&phdr[i]`, and the members there.
abbrev pub phdr_at : ℕ → ℕ → ℕ
phdr_at phdr i = add64 phdr (mul64 i 56)

abbrev pub is_load : Bytes → ℕ → Bool
is_load m p = load_le m p 4 == 1

abbrev pub p_offset : Bytes → ℕ → ℕ
p_offset m p = load_le m (add64 p 8) 8

abbrev pub p_vaddr : Bytes → ℕ → ℕ
p_vaddr m p = load_le m (add64 p 16) 8

abbrev pub p_filesz : Bytes → ℕ → ℕ
p_filesz m p = load_le m (add64 p 32) 8

abbrev pub p_memsz : Bytes → ℕ → ℕ
p_memsz m p = load_le m (add64 p 40) 8

-- `elf_magic` is where the literal `ELFMAG` stands; the result of `memcpy` is not null unless the head
-- is at 0.
pub check_elf : Bytes → ℕ → ℕ → ℕ × Bytes
check_elf m ehdr elf_magic =
    let (dst, m') = memcpy m ehdr elf_magic 4 in
    if dst == 0
    then (0, m')
    else if not (e_version m' ehdr == 1)
    then (0, m')
    else if not (e_type m' ehdr == 3)
    then (0, m')
    else (1, m')

-- The loop of `elf_pt_load_addr` from number `i` on.
pub addr_loop : Bytes → ℕ → ℕ → ℕ → ℕ → ℕ → ℕ × ℕ
addr_loop m phdr i p_lo p_hi zero = (p_lo, p_hi)
addr_loop m phdr i p_lo p_hi (suc n) =
    let p = phdr_at phdr i in
    let p_vaddr_start = p_vaddr m p in
    let p_vaddr_end = add64 p_vaddr_start (p_memsz m p) in
    let lo =
      if is_load m p then (if ltb p_vaddr_start p_lo then p_vaddr_start else p_lo) else p_lo in
    let hi = if is_load m p then (if ltb p_hi p_vaddr_end then p_vaddr_end else p_hi) else p_hi in
    addr_loop m phdr (i + 1) lo hi n

-- What is stored through `addr_lo` and `addr_hi`; `ehdr` is `fp->data`.
pub elf_pt_load_addr : Bytes → ℕ → ℕ × ℕ
elf_pt_load_addr m ehdr =
    addr_loop m (add64 ehdr (e_phoff m ehdr)) 0 (2 ^ 64 - 1) 0 (e_phnum m ehdr)

pub elf_load_size : Bytes → ℕ → ℕ → ℕ × Bytes
elf_load_size m ehdr elf_magic =
    let (_, m') = check_elf m ehdr elf_magic in
    let (addr_lo, addr_hi) = elf_pt_load_addr m' ehdr in (sub64 addr_hi addr_lo, m')

-- The loop of `elf_load_segment`. A header is read when its turn comes, and their number before each
-- round; the rounds left are fuel.
pub load_loop : Bytes → ℕ → ℕ → ℕ → ℕ → ℕ → ℕ → Run Bytes
load_loop m ehdr phdr addr addr_lo i zero = spin
load_loop m ehdr phdr addr addr_lo i (suc fuel) =
    let p = phdr_at phdr i in
    let offset = sub64 (p_vaddr m p) addr_lo in
    let relocate_addr = add64 addr offset in
    let source_addr = add64 ehdr (p_offset m p) in
    let cleared = (memset m relocate_addr 0 (p_memsz m p)).1 in
    let loaded = (memcpy cleared relocate_addr source_addr (p_filesz m p)).1 in
    let rest =
      load_loop (if is_load m p then loaded else m) ehdr phdr addr addr_lo ((i + 1) % 2 ^ 16)
        fuel in
    if ltb i (e_phnum m ehdr) then rest else done m

pub elf_load_segment : Bytes → ℕ → ℕ → ℕ → ℕ → Run Bytes
elf_load_segment m ehdr addr elf_magic fuel =
    let (_, m') = check_elf m ehdr elf_magic in
    let phdr = add64 ehdr (e_phoff m' ehdr) in
    let (addr_lo, _) = elf_pt_load_addr m' ehdr in load_loop m' ehdr phdr addr addr_lo 0 fuel
