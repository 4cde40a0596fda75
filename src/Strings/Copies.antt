-- ===== src/Strings/Copies.antt =====
-- src/lib/string.c: `strcpy` and `strncpy`.
use clay_figure_kernel.Base.{
  ℕ, zero, suc, ◌+◌, ◌-◌, ◌^◌, ◌≤◌, ◌<◌, ◌≡◌, ◌≢◌, ◌⊎◌, refl, ap, sym, ◌∙◌, arith, if◌then◌else◌,
  add64, add64_exact, ==_iff, ne→ne, done,
}
use clay_figure_kernel.Strings.{Bytes, store, fill, copy, copy_string, strcpy, copy_chars, strncpy}
use clay_figure_kernel.Strings.Blocks.{within, fill_lem, copy_lem}
use clay_figure_kernel.Strings.Text.{IsString, IsString-tail, IsString-head, IsString-empty}

store_ne : (m : Bytes) (p byte x : ℕ) → x ≢ p → store m p byte x ≡ m x
unfolding store
store_ne m p byte x ne = rw (ne→ne x p ne) refl

-- A store outside a string leaves it a string.
IsString-store :
    (m : Bytes) (s n p byte : ℕ)
    → (p < s) ⊎ (s + n < p)
    → IsString m s n
    → IsString (store m p byte) s n
IsString-store m s n p byte out v = record {
  chars = λ i h e. v.chars i h (sym (store_ne m p byte (s + i) (λ t. omega (arith, out, t))) ∙ e);
  ends = store_ne m p byte (s + n) (λ t. omega (arith, out, t)) ∙ v.ends;
  small = v.small;
}

copy_next :
    (m : Bytes) (d s size : ℕ)
    → d + 1 < 2 ^ 64
    → s + 1 < 2 ^ 64
    → copy (store m d (m s)) (d + 1) (s + 1) size ≡ copy m d s (suc size)
unfolding copy
copy_next m d s size hd hs = rw (add64_exact d 1 hd, add64_exact s 1 hs) refl

-- The loop of `strcpy` is a copy of the bytes of the string and its 0.
copy_string_lem :
    (m : Bytes) (d s n fuel : ℕ)
    → IsString m s n
    → d + n + 1 < 2 ^ 64
    → (d < s) ⊎ (s + n < d)
    → n < fuel
    → copy_string m d s fuel ≡ done (copy m d s (n + 1))
unfolding copy_string copy
copy_string_lem m d s n zero v hd out h = absurd (omega arith)
copy_string_lem m d s zero (suc fuel) v hd out h =
    rw ((==_iff (m s) 0).1 (IsString-empty m s v)) refl
copy_string_lem m d s (suc n) (suc fuel) v hd out h =
    let e : suc n + 1 ≡ suc (n + 1) = omega arith in
    rw
      (
        e,
        ne→ne (m s) 0 (IsString-head m s n v),
        add64_exact s 1 (omega (arith, v.small)),
        add64_exact d 1 (omega arith),
      )
      (copy_string_lem (store m d (m s)) (d + 1) (s + 1) n fuel
          (IsString-store m (s + 1) n d (m s) (omega arith) (IsString-tail m s n v)) (omega arith)
          (omega arith) (omega arith)
        ∙ ap done (copy_next m d s (n + 1) (omega arith) (omega (arith, v.small))))

-- `strcpy` of a string, given more fuel than it is long, to a place that begins below it or above its
-- 0 and ends below 2^64: it returns `dst`, the bytes of the string and its 0 are there, and all
-- others are as they were.
pub strcpy_lem :
    (m : Bytes) (dst src n fuel : ℕ)
    → IsString m src n
    → dst + n + 1 < 2 ^ 64
    → (dst < src) ⊎ (src + n < dst)
    → n < fuel
    → (m' : Bytes) × (strcpy m dst src fuel ≡ done (dst, m'))
      × ((x : ℕ) → m' x ≡ (if within dst (n + 1) x then m (src + (x - dst)) else m x))
unfolding strcpy
strcpy_lem m dst src n fuel v hd out h = (
  copy m dst src (n + 1),
  rw (copy_string_lem m dst src n fuel v hd out h) refl,
  λ x. copy_lem m dst src (n + 1) x (omega arith) (omega (arith, v.small)) (omega arith),
)

-- Where the string is shorter than `n`, with `extra` bytes and its 0 left.
copy_chars_short :
    (m : Bytes) (d s k extra : ℕ)
    → IsString m s k
    → d + k + extra < 2 ^ 64
    → (d < s) ⊎ (s + k < d)
    → copy_chars m d s (suc (k + extra)) ≡ fill (copy m d s k) (d + k) 0 extra
unfolding copy_chars copy
copy_chars_short m d s zero extra v hd out =
    let e : d + 0 ≡ d = omega arith in
    let e' : 0 + extra ≡ extra = omega arith in
    rw ((==_iff (m s) 0).1 (IsString-empty m s v), e, e') refl
copy_chars_short m d s (suc k) extra v hd out =
    let e : suc k + extra ≡ suc (k + extra) = omega arith in
    let e' : d + suc k ≡ d + 1 + k = omega arith in
    rw
      (
        e,
        e',
        ne→ne (m s) 0 (IsString-head m s k v),
        add64_exact s 1 (omega (arith, v.small)),
        add64_exact d 1 (omega arith),
      )
      (copy_chars_short (store m d (m s)) (d + 1) (s + 1) k extra
        (IsString-store m (s + 1) k d (m s) (omega arith) (IsString-tail m s k v)) (omega arith)
        (omega arith))

-- `strncpy` of a string of `k` bytes with `k` below `n`, to a place that begins below it or above its
-- 0 and ends below 2^64: the bytes of the string are there, the next `n - 1 - k` bytes are 0, and all
-- others are as they were, the last of the `n` among them.
pub strncpy_lem :
    (m : Bytes) (dst src k n x : ℕ)
    → IsString m src k
    → k < n
    → dst + n < 2 ^ 64
    → (dst < src) ⊎ (src + k < dst)
    → (strncpy m dst src n).1 x ≡ (
        if within (dst + k) (n - 1 - k) x
        then 0
        else if within dst k x
        then m (src + (x - dst))
        else m x)
unfolding strncpy
strncpy_lem m dst src k n x v h hd out =
    let e : suc (k + (n - 1 - k)) ≡ n = omega arith in
    let short = copy_chars_short m dst src k (n - 1 - k) v (omega arith) out in
    ap (λ (l : ℕ). copy_chars m dst src l x) (sym e)
    ∙ ap (λ (f : Bytes). f x) short
    ∙ fill_lem (copy m dst src k) (dst + k) 0 (n - 1 - k) x (omega arith)
    ∙ ap (λ (y : ℕ). if within (dst + k) (n - 1 - k) x then 0 else y)
        (copy_lem m dst src k x (omega arith) (omega (arith, v.small)) (omega arith))

copy_chars_long :
    (m : Bytes) (d s n : ℕ)
    → ((i : ℕ) → i < n → m (s + i) ≢ 0)
    → s + n < 2 ^ 64
    → d + n < 2 ^ 64
    → (d ≤ s) ⊎ (s + n ≤ d)
    → copy_chars m d s n ≡ fill (copy m d s n) (d + n) 0 (2 ^ 64 - 1)
unfolding copy_chars copy
copy_chars_long m d s zero chars hs hd out = let e : d + 0 ≡ d = omega arith in rw e refl
copy_chars_long m d s (suc n) chars hs hd out =
    let e : d + suc n ≡ d + 1 + n = omega arith in
    let start : s + 0 ≡ s = omega arith in
    rw
      (
        e,
        ne→ne (m s) 0 (rw start at (chars 0 (omega arith))),
        add64_exact s 1 (omega arith),
        add64_exact d 1 (omega arith),
      )
      (copy_chars_long (store m d (m s)) (d + 1) (s + 1) n
        (λ i h t. chars (suc i) (omega arith) (
          ap m (omega arith)
          ∙ sym (store_ne m d (m s) (s + 1 + i) (λ y. omega (arith, out, y)))
          ∙ t))
        (omega arith) (omega arith) (omega arith))

fill_keeps : (m : Bytes) (p size x : ℕ) → m x ≡ 0 → fill m p 0 size x ≡ 0
unfolding fill store
fill_keeps m p zero x e = e
fill_keeps m p (suc size) x e = fill_keeps (store m p 0) (add64 p 1) size x (ground (arith, e))

fill_clears : (m : Bytes) (p size j : ℕ) → j < size → p + j < 2 ^ 64 → fill m p 0 size (p + j) ≡ 0
unfolding fill store
fill_clears m p zero j h small = absurd (omega arith)
fill_clears m p (suc size) zero h small =
    fill_keeps (store m p 0) (add64 p 1) size (p + 0) (ground arith)
fill_clears m p (suc size) (suc j) h small =
    let e : p + suc j ≡ p + 1 + j = omega arith in
    rw (e, add64_exact p 1 (omega arith))
      (fill_clears (store m p 0) (p + 1) size j (omega arith) (omega arith))

-- `strncpy` from a place where none of the first `n` bytes is 0 runs on: every byte from `dst + n` to
-- the end of the address space is 0 afterwards. The destination is not at 0, and begins at or below
-- the source or behind its `n` bytes.
pub strncpy_overruns :
    (m : Bytes) (dst src n j : ℕ)
    → ((i : ℕ) → i < n → m (src + i) ≢ 0)
    → src + n < 2 ^ 64
    → 0 < dst
    → dst + n + j < 2 ^ 64
    → (dst ≤ src) ⊎ (src + n ≤ dst)
    → (strncpy m dst src n).1 (dst + n + j) ≡ 0
unfolding strncpy
strncpy_overruns m dst src n j chars hs pos small out =
    ap (λ (f : Bytes). f (dst + n + j)) (copy_chars_long m dst src n chars hs (omega arith) out)
    ∙ fill_clears (copy m dst src n) (dst + n) (2 ^ 64 - 1) j (omega arith) small
