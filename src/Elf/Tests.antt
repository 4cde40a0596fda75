-- ===== src/Elf/Tests.antt =====
-- src/elf/elf.c: a file at 8 with two segments, from 16 to 24 and from 64 to 96.
use clay_figure_kernel.Base.{ℕ, zero, suc, ◌<◌, arith, ◌-◌, ◌^◌, ◌≡◌, refl, add64, mul64}
use clay_figure_kernel.Base.Update.{update}
use clay_figure_kernel.Strings.{Bytes, memcpy, copy, store}
use clay_figure_kernel.Ramfs.{load_le}
use clay_figure_kernel.Elf.{e_phoff, e_phnum, addr_loop, check_elf, elf_pt_load_addr}
use clay_figure_kernel.Elf.Range.{IsPlaced, end_of, IsHull, elf_pt_load_addr-IsHull}

abbrev first_segment : Bytes → Bytes
first_segment m = update (update (update m 72 1) 88 16) 112 8

abbrev second_segment : Bytes → Bytes
second_segment m = update (update (update m 128 1) 144 64) 168 32

abbrev file : Bytes
file = first_segment (second_segment (update (update (λ _. 0) 40 64) 64 2))

abbrev headers : ℕ
headers = add64 8 (e_phoff file 8)

file-IsPlaced : IsPlaced file headers 0 (e_phnum file 8)
unfolding load_le update add64
file-IsPlaced = record { headers = omega arith; segments = λ j s. ends j s.below }
  where
    ends : (j : ℕ) → j < 2 → end_of file 72 j < 2 ^ 64
    ends zero h = omega arith
    ends (suc zero) h = omega arith
    ends (suc (suc j)) h = absurd (omega arith)

range_example : IsHull file headers 0 (e_phnum file 8) (2 ^ 64 - 1) 0 (elf_pt_load_addr file 8)
range_example = elf_pt_load_addr-IsHull file 8 file-IsPlaced

range : elf_pt_load_addr file 8 ≡ (16, 96)
unfolding elf_pt_load_addr addr_loop load_le update add64 mul64
range = refl

-- A file without the magic number is not refused: the number is written into it.
no_magic : (check_elf (update (update file 24 3) 28 1) 8 200).0 ≡ 1
unfolding check_elf load_le update add64 memcpy copy store
no_magic = refl
