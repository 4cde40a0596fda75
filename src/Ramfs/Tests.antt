-- ===== src/Ramfs/Tests.antt =====
-- src/ramfs/ramfs.c: an image at 4 with one file, named "a", and the same name at 1.
use clay_figure_kernel.Base.{◌%◌, ◌≡◌, refl, [], ◌∷◌, get_or, success, add64}
use clay_figure_kernel.Strings.{Bytes, store, memcpy, copy, strncmp}
use clay_figure_kernel.Ramfs.{ramfs_check, check_loop, load_le, store_le, fill_file}

abbrev image : Bytes
image x =
    get_or
      (0 ∷ 97 ∷ 0 ∷ 0 ∷ 0xaa ∷ 0xff ∷ 0xaa ∷ 0xff ∷ 0xaa ∷ 0xff ∷ 0xaa ∷ 0xff ∷ 1 ∷ 0 ∷ 0 ∷ 0 ∷ 0
        ∷ 0 ∷ 0 ∷ 0 ∷ 2 ∷ 0 ∷ 0 ∷ 0 ∷ 0 ∷ 0 ∷ 0 ∷ 0 ∷ 97 ∷ [])
      x 0
    % 256

-- The size and the address of the file's bytes, as they are stored.
stored_size : load_le (fill_file image 200 20) 264 8 ≡ 2
unfolding fill_file load_le store_le add64 store memcpy copy
stored_size = refl

stored_address : load_le (fill_file image 200 20) 272 8 ≡ 92
unfolding fill_file load_le store_le add64 store memcpy copy
stored_address = refl

-- The bytes that `ramfs_check` compares with its mark are the size of the last file and not its name.
checked : ramfs_check image 4 120 ≡ success
unfolding ramfs_check check_loop load_le add64 strncmp
checked = refl
