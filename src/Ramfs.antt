-- ===== src/Ramfs.antt =====
-- src/ramfs/ramfs.c and src/include/ramfs.h: the file system image in memory. Numbers of 8 bytes are
-- stored with the low byte first. The printed list of files is left out, and the string walks run on
-- fuel, as in Strings.
pub mod Names
pub mod Open
mod Tests
use clay_figure_kernel.Base.{
  ℕ, zero, suc, ◌+◌, ◌*◌, ◌/◌, ◌%◌, Bool, not, ◌||◌, ltb, ◌==◌, if◌then◌else◌, add64, Status,
  success, error, not_found, Run, done, ◌>>=◌, List, [], ◌∷◌,
}
use clay_figure_kernel.Strings.{Bytes, store, memcpy, strlen, strcmp, strncmp}

abbrev pub max_name_len : ℕ
max_name_len = 63

abbrev pub ramfs_magic : ℕ
ramfs_magic = 0xffaaffaaffaaffaa

-- `n` bytes at `p` as a number.
unfoldable pub load_le : Bytes → ℕ → ℕ → ℕ
load_le m p zero = 0
load_le m p (suc n) = m p + 256 * load_le m (add64 p 1) n

pub store_le : Bytes → ℕ → ℕ → ℕ → Bytes
store_le m p value zero = m
store_le m p value (suc n) = store_le (store m p (value % 256)) (add64 p 1) (value / 256) n

-- The members of `ramfs_info_t` and of `ramfs_file_meta_data_t`, whose sizes are 16 and 72.
abbrev pub magic_of : Bytes → ℕ → ℕ
magic_of m info = load_le m info 8

abbrev pub files_of : Bytes → ℕ → ℕ
files_of m info = load_le m (add64 info 8) 8

abbrev pub file_size : Bytes → ℕ → ℕ
file_size m fdata = load_le m fdata 8

abbrev pub file_name : ℕ → ℕ
file_name fdata = add64 fdata 8

-- The loop of `ramfs_check`; it gives `data` back.
pub check_loop : Bytes → ℕ → ℕ → ℕ → ℕ → ℕ
check_loop m data_start fdata offset zero = data_start
check_loop m data_start fdata offset (suc files) =
    let start = add64 data_start offset in
    let offset = add64 72 (file_size m fdata) in
    check_loop m start (add64 start offset) offset files

-- `trailer` is where the literal "TRAILER!!!" stands.
pub ramfs_check : Bytes → ℕ → ℕ → Status
ramfs_check m ramfs_addr trailer =
    let first = add64 ramfs_addr 16 in
    let at_end = check_loop m first first 0 (files_of m ramfs_addr) in
    if not (magic_of m ramfs_addr == ramfs_magic)
    then error
    else if strncmp m at_end trailer 10 == 0
    then error
    else success

-- What is stored through `file`, where the null pointer is 0.
pub fill_file : Bytes → ℕ → ℕ → Bytes
fill_file m file fdata =
    let named = (memcpy m file (file_name fdata) max_name_len).1 in
    let sized = store_le named (add64 file 64) (file_size named fdata) 8 in
    if file == 0 then m else store_le sized (add64 file 72) (add64 fdata 72) 8

pub open_loop : Bytes → ℕ → ℕ → ℕ → ℕ → ℕ → Run (Status × Bytes)
open_loop m name file fuel fdata zero = done (not_found, m)
open_loop m name file fuel fdata (suc files) =
    let rest = open_loop m name file fuel (add64 fdata (add64 72 (file_size m fdata))) files in
    strcmp m (file_name fdata) name fuel >>= λ order.
    if order == 0 then done (success, fill_file m file fdata) else rest

pub ramfs_open : Bytes → ℕ → ℕ → ℕ → ℕ → Run (Status × Bytes)
ramfs_open m ramfs_addr name file fuel =
    let search = open_loop m name file fuel (add64 ramfs_addr 16) (files_of m ramfs_addr) in
    if name == 0
    then done (not_found, m)
    else (strlen m name fuel >>= λ length.
        if ltb max_name_len length
        then done (not_found, m)
        else if not (magic_of m ramfs_addr == ramfs_magic)
        then done (error, m)
        else search)
