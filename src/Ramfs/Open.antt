-- ===== src/Ramfs/Open.antt =====
-- src/ramfs/ramfs.c: `ramfs_open` on an image, as a search among its entries.
use clay_figure_kernel.Base.{
  ℕ, ◌<◌, ◌≡◌, ◌⊎◌, Run, done, List, [], ◌∷◌, ◌++◌, add64, Status, success, not_found,
}
use clay_figure_kernel.Strings.{Bytes}
use clay_figure_kernel.Strings.Text.{IsString}
use clay_figure_kernel.Ramfs.{file_size, file_name, fill_file}
use clay_figure_kernel.Ramfs.Names.{SameText}

-- From `p` on stand the entries at the addresses `xs`, one behind the other, each with a name shorter
-- than the fuel.
unfoldable pub Entries : Bytes → ℕ → ℕ → List ℕ → Type 0
Entries m fuel p [] = Unit
Entries m fuel p (x ∷ xs) =
    (p ≡ x)
    × ((len : ℕ) × IsString m (file_name x) len × (len < fuel))
    × Entries m fuel (add64 x (add64 72 (file_size m x))) xs

-- No entry has the name.
unfoldable pub NoneNamed : Bytes → ℕ → ℕ → List ℕ → Type 0
NoneNamed m name n [] = Unit
NoneNamed m name n (x ∷ xs) = (¬ SameText m (file_name x) name n) × NoneNamed m name n xs

-- The first entry of that name is stored through `file`, or there is none.
abbrev pub Opens : Bytes → ℕ → ℕ → ℕ → List ℕ → Run (Status × Bytes) → Type 0
Opens m name n file xs r =
    ((before : List ℕ) × (x : ℕ) × (after : List ℕ) × (xs ≡ before ++ x ∷ after)
      × NoneNamed m name n before
      × SameText m (file_name x) name n
      × (r ≡ done (success, fill_file m file x)))
    ⊎ (NoneNamed m name n xs × (r ≡ done (not_found, m)))
