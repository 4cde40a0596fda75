-- ===== src/Heap/Suits.antt =====
-- src/mem/allocator.c: the alignment and the boundary that a block of `kmalloc` is asked for.
use native.Mathlib.Decide.{dec_lt}
use native.Mathlib.Nat.{
  mul_assoc, mul_comm, mul-add, mod-lt, div-add-mod, div-eq_of_lt-le, mul-mod_right, pow-suc,
  mul-one,
}
use clay_figure_kernel.Base.{
  ℕ, zero, suc, ◌+◌, ◌-◌, ◌*◌, ◌/◌, ◌%◌, ◌^◌, ◌≤◌, ◌<◌, ◌≡◌, refl, ap, sym, ◌∙◌, arith, true, false,
  ◌&&◌, ◌||◌, List, [], ◌∷◌, ◌++◌, ◌⊎◌, inl, inr, leb, ◌==◌, ==_iff, Bool-cases, add64, sub64,
  add64_exact, sub64_exact, bit_and,
}
use clay_figure_kernel.Base.Bits.{bit_and-mask, pow_pos, pow-lt-pow}
use clay_figure_kernel.Heap.{Heap, group_at, block_of, block2cache, fits}
use clay_figure_kernel.Heap.Search.{
  IsMarked, AllMarked, FirstFit, NoneFits, asks, asks_any, asks_strict,
}

-- The block at `b` is at a multiple of 2^a, and its first `size` bytes lie within one stretch of
-- `boundary` bytes, if there is a boundary.
abbrev pub Suits : ℕ → ℕ → ℕ → ℕ → Type 0
Suits a size boundary b =
    ((q : ℕ) × (b ≡ 2 ^ a * q))
    × ((boundary ≡ 0) ⊎ ((k : ℕ) × (boundary * k ≤ b) × (b + size ≤ boundary * k + boundary)))

unfoldable pub NoneSuits : ℕ → ℕ → ℕ → List ℕ → Type 0
NoneSuits a size boundary [] = Unit
NoneSuits a size boundary (x ∷ xs) =
    (¬ Suits a size boundary (block_of x)) × NoneSuits a size boundary xs

multiple : (n q : ℕ) → 0 < n → (n * q) % n ≡ 0
multiple n q h = mul-mod_right n q

quotient : (n k b : ℕ) → n * k ≤ b → b < n * k + n → b / n ≡ k
quotient n k b low high =
    div-eq_of_lt-le {k = k} n {m = b} (omega (arith, mul_comm n k))
      (omega (arith, mul_comm n k, mul-add n k 1, mul_comm n (k + 1)))

module _ (a size boundary b : ℕ) (small : a < 64) (some_bytes : 0 < size)
    (below : b + size < 2 ^ 64) where
  mask : (bit_and b (sub64 (2 ^ a) 1) == 0) ≡ (b % 2 ^ a == 0)
  mask =
      let one = pow_pos a in
      let low = pow-lt-pow a 64 small in
      rw (sub64_exact (2 ^ a) 1 (omega (arith, one)) (omega (arith, low)), bit_and-mask b a) refl

  last_byte : sub64 (add64 b size) 1 ≡ b + size - 1
  last_byte = rw (add64_exact b size below) (sub64_exact (b + size) 1 (omega arith) below)

  fits_lem :
      fits size (2 ^ a) boundary b
      ≡ ((b % 2 ^ a == 0) && (boundary == 0 || (b / boundary == (b + size - 1) / boundary)))
  unfolding fits
  fits_lem = rw (mask, last_byte) refl

  fits-Suits : fits size (2 ^ a) boundary b ≡ true → Suits a size boundary b
  fits-Suits e =
      let e' = rw fits_lem at e in
      let whole : b % 2 ^ a ≡ 0 = ground (arith) in
      (
        (b / 2 ^ a, omega (arith, div-add-mod b (2 ^ a), whole)),
        elim (Bool-cases (boundary == 0)) [
          | inl free ↦ inl ((==_iff boundary 0).0 free)
          | inr bounded ↦
              let same : b / boundary ≡ (b + size - 1) / boundary = ground (arith) in
              let last : boundary * (b / boundary) ≡ boundary * ((b + size - 1) / boundary) =
                ap (λ (k : ℕ). boundary * k) same in
              inr (
                b / boundary,
                omega (arith, div-add-mod b boundary),
                omega (
                  arith,
                  last,
                  div-add-mod (b + size - 1) boundary,
                  mod-lt (b + size - 1) {m = boundary} (ground (arith)),
                ),
              )
        ],
      )

  unfit-Suits : fits size (2 ^ a) boundary b ≡ false → ¬ Suits a size boundary b
  unfit-Suits e ((q, at_q), within) =
      let e' = rw fits_lem at e in
      let whole : b % 2 ^ a ≡ 0 = rw at_q (multiple (2 ^ a) q (pow_pos a)) in
      elim within [
        | inl free ↦ ground (arith)
        | inr (k, low, high) ↦
            let one = quotient boundary k b low (omega (arith)) in
            let two = quotient boundary k (b + size - 1) (omega (arith)) (omega (arith)) in
            ground (arith)
      ]

pow_sum : (m n : ℕ) → 2 ^ (m + n) ≡ 2 ^ m * 2 ^ n
pow_sum m zero = let e : m + 0 ≡ m = omega arith in rw e (sym (mul-one (2 ^ m)))
pow_sum m (suc n) =
    let e : m + suc n ≡ suc (m + n) = omega arith in
    rw (e, pow-suc 2 (m + n), pow_sum m n, pow-suc 2 n) (mul_assoc (2 ^ m) (2 ^ n) 2)

-- A multiple of 2^e is one of 2^a.
smaller_power : (a e q : ℕ) → a ≤ e → 2 ^ e * q ≡ 2 ^ a * (2 ^ (e - a) * q)
smaller_power a e q h =
    let split : 2 ^ e ≡ 2 ^ a * 2 ^ (e - a) =
      ap (λ (k : ℕ). 2 ^ k) (omega arith) ∙ pow_sum a (e - a) in
    rw split (mul_assoc (2 ^ a) (2 ^ (e - a)) q)

below_power : (a e : ℕ) → 2 ^ a ≤ 2 ^ e → a ≤ e
below_power a e h = elim (dec_lt e a) [
  | yes more ↦ absurd (omega (arith, pow-lt-pow e a more))
  | no other ↦ omega arith
]

-- A block of a group whose blocks have 2^e bytes is at a multiple of that, and so of each 2^a up to it.
pub block_aligned :
    (h : Heap) (i e a node : ℕ)
    → (group_at h i).block_size ≡ 2 ^ e
    → e ≤ 21
    → a ≤ e
    → IsMarked h i node
    → (q : ℕ) × (block_of node ≡ 2 ^ a * q)
block_aligned h i e a node power page less m =
    let b = block_of node in
    let cache : block2cache b ≡ 2 ^ 21 * (b / 2 ^ 21) = omega (arith, div-add-mod b (2 ^ 21)) in
    let front = smaller_power a 21 (b / 2 ^ 21) (omega arith) in
    let blocks = smaller_power a e (m.index + 1) less in
    (
      2 ^ (21 - a) * (b / 2 ^ 21) + 2 ^ (e - a) * (m.index + 1),
      m.placed
          ∙ rw (power, cache, front, blocks)
              (sym (mul-add (2 ^ a) (2 ^ (21 - a) * (b / 2 ^ 21)) (2 ^ (e - a) * (m.index + 1)))),
    )

module _ (h : Heap) (i e a size boundary : ℕ) (power : (group_at h i).block_size ≡ 2 ^ e)
    (page : e ≤ 21) (small : a < 64) (some_bytes : 0 < size)
    (room : size ≤ (group_at h i).block_size) where
  asks-Suits :
      (node : ℕ)
      → IsMarked h i node
      → (asks size (2 ^ a) boundary (block_of node) ≡ true → Suits a size boundary (block_of node))
        × (asks size (2 ^ a) boundary (block_of node) ≡ false
            → ¬ Suits a size boundary (block_of node))
  asks-Suits node m = elim (Bool-cases (leb (2 ^ a) size && boundary == 0)) [
    | inl any ↦
        let less = below_power a e (ground (arith, power, room)) in
        rw (asks_any size (2 ^ a) boundary any) (
          λ _. (block_aligned h i e a node power page less m, inl (ground (arith))),
          λ none_asked. absurd (cc),
        )
    | inr strict ↦
        let below : block_of node + size < 2 ^ 64 = omega (arith, m.ends, room) in
        rw (asks_strict size (2 ^ a) boundary strict) (
          fits-Suits a size boundary (block_of node) small some_bytes below,
          unfit-Suits a size boundary (block_of node) small some_bytes below,
        )
  ]

  pub NoneFits-NoneSuits :
      (xs : List ℕ)
      → AllMarked h i xs
      → NoneFits (asks size (2 ^ a) boundary) xs
      → NoneSuits a size boundary xs
  unfolding AllMarked NoneFits NoneSuits
  NoneFits-NoneSuits [] _ _ = tt
  NoneFits-NoneSuits (x ∷ xs) (m, ms) (unfit, unfits) =
      ((asks-Suits x m).1 unfit, NoneFits-NoneSuits xs ms unfits)

  -- The marks of the nodes in front, and of the node.
  marks_before :
      (before : List ℕ) (node : ℕ) (after : List ℕ)
      → AllMarked h i (before ++ node ∷ after)
      → AllMarked h i before × IsMarked h i node
  unfolding AllMarked
  marks_before [] node after (m, _) = (tt, m)
  marks_before (y ∷ before) node after (m, ms) =
      let (front, here) = marks_before before node after ms in ((m, front), here)

  pub FirstFit-Suits :
      (xs before : List ℕ) (node : ℕ) (after : List ℕ)
      → AllMarked h i xs
      → FirstFit (asks size (2 ^ a) boundary) xs before node after
      → NoneSuits a size boundary before × Suits a size boundary (block_of node)
  FirstFit-Suits xs before node after marks (cut, fit, others) =
      let (front, here) = marks_before before node after (rw cut at marks) in
      (NoneFits-NoneSuits before front others, (asks-Suits node here).0 fit)
