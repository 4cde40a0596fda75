-- ===== src/Strings/Text.antt =====
-- src/lib/string.c: `strlen`, `strcmp` and the results of `strncmp`.
use native.Mathlib.Decide.{ℕ_discrete}
use clay_figure_kernel.Base.{
  ℕ, zero, suc, ◌+◌, ◌-◌, ◌^◌, ◌<◌, ◌≡◌, ◌≢◌, ◌⊎◌, inl, inr, refl, ap, sym, ◌∙◌, arith, add64_exact,
  sub64_exact, ==_iff, ne→ne, Run, done,
}
use clay_figure_kernel.Strings.{Bytes, char_difference, find_end, strlen, strcmp}

-- At `s` stand `n` bytes that are not 0, and then a 0, all below 2^64.
pub record IsString (m : Bytes) (s n : ℕ) : Type 0 where
  pub chars : (i : ℕ) → i < n → m (s + i) ≢ 0
  pub ends : m (s + n) ≡ 0
  pub small : s + n + 1 < 2 ^ 64

pub IsString-tail : (m : Bytes) (s n : ℕ) → IsString m s (suc n) → IsString m (s + 1) n
IsString-tail m s n v = record {
  chars = λ i h e. v.chars (suc i) (omega arith) (ap m (omega arith) ∙ e);
  ends = ap m (omega arith) ∙ v.ends;
  small = omega (arith, v.small);
}

pub IsString-head : (m : Bytes) (s n : ℕ) → IsString m s (suc n) → m s ≢ 0
IsString-head m s n v e = v.chars 0 (omega arith) (ap m (omega arith) ∙ e)

pub IsString-empty : (m : Bytes) (s : ℕ) → IsString m s 0 → m s ≡ 0
IsString-empty m s v = ap m (omega arith) ∙ v.ends

find_end_lem :
    (m : Bytes) (s n fuel : ℕ) → IsString m s n → n < fuel → find_end m s fuel ≡ done (s + n + 1)
unfolding find_end
find_end_lem m s n zero v h = absurd (omega arith)
find_end_lem m s zero (suc fuel) v h =
    rw ((==_iff (m s) 0).1 (IsString-empty m s v), add64_exact s 1 (omega (arith, v.small)))
      (ap done (omega arith))
find_end_lem m s (suc n) (suc fuel) v h =
    rw (ne→ne (m s) 0 (IsString-head m s n v), add64_exact s 1 (omega (arith, v.small)))
      (find_end_lem m (s + 1) n fuel (IsString-tail m s n v) (omega arith) ∙ ap done (omega arith))

-- `strlen` of a string returns the number of bytes before its 0, given more fuel than that.
pub strlen_lem : (m : Bytes) (s n fuel : ℕ) → IsString m s n → n < fuel → strlen m s fuel ≡ done n
unfolding strlen
strlen_lem m s n fuel v h =
    rw
      (
        find_end_lem m s n fuel v h,
        sub64_exact (s + n + 1) s (omega arith) v.small,
        sub64_exact (s + n + 1 - s) 1 (omega arith) (omega (arith, v.small)),
      )
      (ap done (omega arith))

-- `k` is the first index at which the bytes differ or both strings end, and the result is the
-- difference there.
abbrev pub Differs : Bytes → ℕ → ℕ → ℕ → Run ℕ → Type 0
Differs m s1 s2 k r =
    (r ≡ done (char_difference (m (s1 + k)) (m (s2 + k))))
    × ((m (s1 + k) ≢ m (s2 + k)) ⊎ ((m (s1 + k) ≡ 0) × (m (s2 + k) ≡ 0)))
    × ((i : ℕ) → i < k → (m (s1 + i) ≡ m (s2 + i)) × (m (s1 + i) ≢ 0))

stops :
    (m : Bytes) (s1 s2 : ℕ)
    → (m s1 ≢ m s2) ⊎ ((m s1 ≡ 0) × (m s2 ≡ 0))
    → (k : ℕ) × Differs m s1 s2 k (done (char_difference (m s1) (m s2)))
stops m s1 s2 why =
    let e1 : s1 + 0 ≡ s1 = omega arith in
    let e2 : s2 + 0 ≡ s2 = omega arith in
    (0, (rw (e1, e2) refl, rw (e1, e2) why, λ i h. absurd (omega arith)))

goes_on :
    (m : Bytes) (s1 s2 : ℕ) (r : Run ℕ)
    → m s1 ≡ m s2
    → m s1 ≢ 0
    → (k : ℕ) × Differs m (s1 + 1) (s2 + 1) k r
    → (k : ℕ) × Differs m s1 s2 k r
goes_on m s1 s2 r same more (k, (e, why, all)) =
    let e1 : s1 + 1 + k ≡ s1 + suc k = omega arith in
    let e2 : s2 + 1 + k ≡ s2 + suc k = omega arith in
    (suc k, (rw (e1, e2) at e, rw (e1, e2) at why, before))
  where
    before : (i : ℕ) → i < suc k → (m (s1 + i) ≡ m (s2 + i)) × (m (s1 + i) ≢ 0)
    before zero h =
        let e1 : s1 + 0 ≡ s1 = omega arith in
        let e2 : s2 + 0 ≡ s2 = omega arith in rw (e1, e2) (same, more)
    before (suc i) h =
        let e1 : s1 + 1 + i ≡ s1 + suc i = omega arith in
        let e2 : s2 + 1 + i ≡ s2 + suc i = omega arith in rw (e1, e2) at (all i (omega arith))

-- `strcmp` of two strings returns, given more fuel than the first is long: the difference of the
-- first two bytes that differ, or of the two 0 at which equal strings end.
pub strcmp-Differs :
    (m : Bytes) (s1 s2 n1 n2 fuel : ℕ)
    → IsString m s1 n1
    → IsString m s2 n2
    → n1 < fuel
    → (k : ℕ) × Differs m s1 s2 k (strcmp m s1 s2 fuel)
unfolding strcmp
strcmp-Differs m s1 s2 n1 n2 zero v1 v2 h = absurd (omega arith)
strcmp-Differs m s1 s2 zero zero (suc fuel) v1 v2 h =
    let e1 = IsString-empty m s1 v1 in
    let e2 = IsString-empty m s2 v2 in rw ((==_iff (m s1) 0).1 e1) (stops m s1 s2 (inr (e1, e2)))
strcmp-Differs m s1 s2 zero (suc n2) (suc fuel) v1 v2 h =
    let e1 = IsString-empty m s1 v1 in
    rw ((==_iff (m s1) 0).1 e1) (stops m s1 s2 (inl (λ e. IsString-head m s2 n2 v2 (sym e ∙ e1))))
strcmp-Differs m s1 s2 (suc n1) zero (suc fuel) v1 v2 h =
    let e2 = IsString-empty m s2 v2 in
    rw (ne→ne (m s1) 0 (IsString-head m s1 n1 v1), (==_iff (m s2) 0).1 e2)
      (stops m s1 s2 (inl (λ e. IsString-head m s1 n1 v1 (e ∙ e2))))
strcmp-Differs m s1 s2 (suc n1) (suc n2) (suc fuel) v1 v2 h =
    let rest =
      strcmp-Differs m (s1 + 1) (s2 + 1) n1 n2 fuel (IsString-tail m s1 n1 v1)
        (IsString-tail m s2 n2 v2) (omega arith) in
    rw
      (
        ne→ne (m s1) 0 (IsString-head m s1 n1 v1),
        ne→ne (m s2) 0 (IsString-head m s2 n2 v2),
        add64_exact s1 1 (omega (arith, v1.small)),
        add64_exact s2 1 (omega (arith, v2.small)),
      )
      (elim (ℕ_discrete (m s1) (m s2)) [
        | no differ ↦ rw (ne→ne (m s1) (m s2) differ) (stops m s1 s2 (inl differ))
        | yes same ↦
            rw ((==_iff (m s1) (m s2)).1 same)
              (goes_on m s1 s2 _ same (IsString-head m s1 n1 v1) rest)
      ])
