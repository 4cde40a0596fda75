-- ===== src/Ramfs/Names.antt =====
-- src/lib/string.c and src/ramfs/ramfs.c: when `strcmp` tells that a file has a name.
use clay_figure_kernel.Base.{
  ℕ, ◌+◌, ◌≤◌, ◌<◌, ◌≡◌, ◌≢◌, refl, ◌∙◌, arith, ◌⊎◌, false, ltb, ◌==◌, Bool-cases, inl, inr, Run,
  done,
}
use clay_figure_kernel.Strings.{Bytes, char_difference, strcmp}
use clay_figure_kernel.Strings.Text.{IsString, strcmp-Differs}

-- At `a` stands the same string of `n` bytes as at `b`.
abbrev pub SameText : Bytes → ℕ → ℕ → ℕ → Type 0
SameText m a b n = (i : ℕ) → i ≤ n → m (a + i) ≡ m (b + i)

abbrev pub AllBytes : Bytes → Type 0
AllBytes m = (x : ℕ) → m x < 256

char_difference-ne : (a b : ℕ) → a < 256 → b < 256 → a ≢ b → (char_difference a b == 0) ≡ false
char_difference-ne a b ha hb ne = ground (arith)

-- The end of the string at `b` is the index where `strcmp` stops, or lies behind it.
stop-le :
    (m : Bytes) (a b n k : ℕ)
    → IsString m b n
    → ((i : ℕ) → i < k → (m (a + i) ≡ m (b + i)) × (m (a + i) ≢ 0))
    → k ≤ n
stop-le m a b n k v before = elim (Bool-cases (ltb n k)) [
  | inl less ↦ let (same, more) = before n (ground (arith)) in absurd (more (same ∙ v.ends))
  | inr not_less ↦ ground (arith)
]

stop-ge : (m : Bytes) (b n k : ℕ) → IsString m b n → m (b + k) ≡ 0 → n ≤ k
stop-ge m b n k v nil = elim (Bool-cases (ltb k n)) [
  | inl less ↦ absurd (v.chars k (ground (arith)) nil)
  | inr not_less ↦ ground (arith)
]

-- How `strcmp` with the string at `b` ends.
abbrev pub Compared : Bytes → ℕ → ℕ → ℕ → Run ℕ → Type 0
Compared m a b n r =
    ((r ≡ done 0) × SameText m a b n)
    ⊎ ((v : ℕ) × (r ≡ done v) × ((v == 0) ≡ false) × (¬ SameText m a b n))

-- `strcmp` of two strings of bytes gives 0 if they are the same, and else another number.
pub strcmp-Compared :
    (m : Bytes) (a b na n fuel : ℕ)
    → AllBytes m
    → IsString m a na
    → IsString m b n
    → na < fuel
    → Compared m a b n (strcmp m a b fuel)
strcmp-Compared m a b na n fuel bytes va vb enough =
    let (k, (e, why, before)) = strcmp-Differs m a b na n fuel va vb enough in
    let less = stop-le m a b n k vb before in
    elim why [
      | inl differ ↦ inr (
        char_difference (m (a + k)) (m (b + k)),
        e,
        char_difference-ne (m (a + k)) (m (b + k)) (bytes (a + k)) (bytes (b + k)) differ,
        λ same. differ (same k less),
      )
      | inr (nil_a, nil_b) ↦
          let more = stop-ge m b n k vb nil_b in
          inl (
            e ∙ rw (nil_a, nil_b) refl,
            λ i h. elim (Bool-cases (ltb i k)) [
              | inl inside ↦ (before i (ground (arith))).0
              | inr at_end ↦ let here : i ≡ k = ground (arith) in rw (here, nil_a, nil_b) refl
            ],
          )
    ]
