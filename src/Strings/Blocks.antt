-- ===== src/Strings/Blocks.antt =====
-- src/lib/string.c: `memset`, `memcpy` and `memcmp`, byte by byte.
use native.Mathlib.Decide.{ℕ_discrete, dec_lt}
use clay_figure_kernel.Base.{
  ℕ, zero, suc, ◌+◌, ◌-◌, ◌^◌, ◌≤◌, ◌<◌, ◌≡◌, ◌≢◌, ◌⊎◌, inl, inr, refl, ap, ap₂, sym, ◌∙◌, arith,
  Bool, ◌&&◌, ltb, leb, if◌then◌else◌, u8, add64_exact, ==_iff, ne→ne, lt→ltb, le→ltb, le→leb,
  lt→leb,
}
use clay_figure_kernel.Strings.{Bytes, store, byte_difference, fill, memset, copy, memcpy, memcmp}

-- `x` is one of the `size` bytes from `p` on.
abbrev pub within : ℕ → ℕ → ℕ → Bool
within p size x = leb p x && ltb x (p + size)

pub fill_lem :
    (m : Bytes) (p byte size x : ℕ)
    → p + size < 2 ^ 64
    → fill m p byte size x ≡ (if within p size x then byte else m x)
unfolding fill store
fill_lem m p byte zero x h = ground arith
fill_lem m p byte (suc size) x h =
    rw (add64_exact p 1 (omega arith))
      (fill_lem (store m p byte) (p + 1) byte size x (omega arith) ∙ ground arith)

-- `memset` of a block that ends below 2^64 sets its bytes to the lowest byte of the value, and leaves
-- all others as they were.
pub memset_lem :
    (m : Bytes) (dst value size x : ℕ)
    → dst + size < 2 ^ 64
    → (memset m dst value size).1 x ≡ (if within dst size x then u8 value else m x)
unfolding memset
memset_lem m dst value size x h = fill_lem m dst (u8 value) size x h

-- One round: the byte at `d` is stored before the others are read.
pub copy_step :
    (m : Bytes) (d s size x : ℕ)
    → (d ≤ s) ⊎ (s + suc size ≤ d)
    → (if within (d + 1) size x then store m d (m s) (s + 1 + (x - (d + 1))) else store m d (m s) x)
      ≡ (if within d (suc size) x then m (s + (x - d)) else m x)
unfolding store
copy_step m d s size x apart = elim (ℕ_discrete x d) [
  | yes here ↦
      let e : s + (d - d) ≡ s = omega arith in
      rw
        (
          here,
          lt→leb d (d + 1) (omega arith),
          le→leb d d (omega arith),
          lt→ltb d (d + suc size) (omega arith),
          (==_iff d d).1 refl,
          e,
        )
        refl
  | no other ↦ elim (dec_lt x d) [
    | yes below ↦ rw (lt→leb x d below, lt→leb x (d + 1) (omega arith), ne→ne x d other) refl
    | no above ↦
        let e : s + 1 + (x - (d + 1)) ≡ s + (x - d) = omega arith in
        let same : ltb x (d + 1 + size) ≡ ltb x (d + suc size) = ap (ltb x) (omega arith) in
        rw (e, le→leb d x (omega arith), le→leb (d + 1) x (omega arith), same, ne→ne x d other)
          (elim (dec_lt x (d + suc size)) [
            | yes inside ↦
                rw
                  (
                    lt→ltb x (d + suc size) inside,
                    ne→ne (s + (x - d)) d (λ t. omega (arith, apart, t)),
                  )
                  refl
            | no beyond ↦ rw (le→ltb x (d + suc size) (omega arith)) refl
          ])
  ]
]

pub copy_lem :
    (m : Bytes) (d s size x : ℕ)
    → d + size < 2 ^ 64
    → s + size < 2 ^ 64
    → (d ≤ s) ⊎ (s + size ≤ d)
    → copy m d s size x ≡ (if within d size x then m (s + (x - d)) else m x)
unfolding copy
copy_lem m d s zero x hd hs apart = ground arith
copy_lem m d s (suc size) x hd hs apart =
    rw (add64_exact d 1 (omega arith), add64_exact s 1 (omega arith))
      (copy_lem (store m d (m s)) (d + 1) (s + 1) size x (omega arith) (omega arith) (omega arith)
        ∙ copy_step m d s size x apart)

-- `memcpy` between blocks that end below 2^64, where the destination begins at or below the source
-- or behind its end: its bytes are those that the source had, and all others are as they were.
pub memcpy_lem :
    (m : Bytes) (dst src size x : ℕ)
    → dst + size < 2 ^ 64
    → src + size < 2 ^ 64
    → (dst ≤ src) ⊎ (src + size ≤ dst)
    → (memcpy m dst src size).1 x ≡ (if within dst size x then m (src + (x - dst)) else m x)
unfolding memcpy
memcpy_lem m dst src size x hd hs apart = copy_lem m dst src size x hd hs apart

-- The bytes are all the same and the result is 0, or it is the difference of the first two bytes
-- that differ.
abbrev pub Compared : Bytes → ℕ → ℕ → ℕ → ℕ → Type 0
Compared m s1 s2 size r =
    ((r ≡ 0) × ((i : ℕ) → i < size → m (s1 + i) ≡ m (s2 + i)))
    ⊎ ((k : ℕ) × (k < size)
        × (r ≡ byte_difference (m (s1 + k)) (m (s2 + k)))
        × (m (s1 + k) ≢ m (s2 + k))
        × ((i : ℕ) → i < k → m (s1 + i) ≡ m (s2 + i)))

-- `memcmp` of two blocks that end below 2^64 returns 0 if they have the same bytes, and else the
-- difference of the first two bytes that differ.
pub memcmp-Compared :
    (m : Bytes) (s1 s2 size : ℕ)
    → s1 + size < 2 ^ 64
    → s2 + size < 2 ^ 64
    → Compared m s1 s2 size (memcmp m s1 s2 size)
unfolding memcmp
memcmp-Compared m s1 s2 zero h1 h2 = inl (refl, λ i h. absurd (omega arith))
memcmp-Compared m s1 s2 (suc size) h1 h2 =
    let rest = memcmp-Compared m (s1 + 1) (s2 + 1) size (omega arith) (omega arith) in
    rw (add64_exact s1 1 (omega arith), add64_exact s2 1 (omega arith))
      (elim (ℕ_discrete (m s1) (m s2)) [
        | no differ ↦ rw (ne→ne (m s1) (m s2) differ) (inr (here differ))
        | yes same ↦ rw ((==_iff (m s1) (m s2)).1 same) (later same rest)
      ])
  where
    from : (s i : ℕ) → m (s + 1 + i) ≡ m (s + suc i)
    from s i = ap m (omega arith)

    start : (s : ℕ) → m (s + 0) ≡ m s
    start s = ap m (omega arith)

    here :
        m s1 ≢ m s2
        → (k : ℕ) × (k < suc size)
          × (byte_difference (m s1) (m s2) ≡ byte_difference (m (s1 + k)) (m (s2 + k)))
          × (m (s1 + k) ≢ m (s2 + k))
          × ((i : ℕ) → i < k → m (s1 + i) ≡ m (s2 + i))
    here differ = (
      0,
      omega arith,
      sym (ap₂ byte_difference (start s1) (start s2)),
      (λ e. differ (sym (start s1) ∙ e ∙ start s2)),
      (λ i h. absurd (omega arith)),
    )

    first :
        (k : ℕ)
        → m s1 ≡ m s2
        → ((i : ℕ) → i < k → m (s1 + 1 + i) ≡ m (s2 + 1 + i))
        → (i : ℕ) → i < suc k
        → m (s1 + i) ≡ m (s2 + i)
    first k same others zero h = start s1 ∙ same ∙ sym (start s2)
    first k same others (suc i) h = sym (from s1 i) ∙ others i (omega arith) ∙ from s2 i

    later :
        {r : ℕ} → m s1 ≡ m s2 → Compared m (s1 + 1) (s2 + 1) size r → Compared m s1 s2 (suc size) r
    later same (inl (e, all)) = inl (e, first size same all)
    later same (inr (k, lt, e, differ, all)) = inr (
      suc k,
      omega arith,
      e ∙ ap₂ byte_difference (from s1 k) (from s2 k),
      (λ t. differ (from s1 k ∙ t ∙ sym (from s2 k))),
      first k same all,
    )
