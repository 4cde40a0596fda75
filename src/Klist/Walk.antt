-- ===== src/Klist/Walk.antt =====
-- src/lib/list.c: the loops that walk a list, with one unit of fuel for each node and one for the
-- tail.
use clay_figure_kernel.Base.{
  ℕ, zero, suc, ◌+◌, ◌≤◌, ◌<◌, ◌≡◌, refl, ap, sym, ◌∙◌, arith, Bool, false, ◌||◌, List, [], ◌∷◌,
  ◌++◌, ◌==◌, if◌then◌else◌, ==_iff, ne→ne, done, length, Bool-cases, inl, inr,
}
use clay_figure_kernel.Klist.{
  Nodes, null, list_tail, find_loop, list_find, traversal_loop, list_traversal, len_loop, list_len,
}
use clay_figure_kernel.Klist.Chain.{Apart, Distinct, Chain, Distinct-other}
use clay_figure_kernel.Klist.Edit.{IsList, through_nonnull}

-- `node` is one of the sequence.
unfoldable pub member : ℕ → List ℕ → Bool
member node [] = false
member node (x ∷ xs) = (x == node) || member node xs

-- The first of the sequence that passes the test, or NULL.
pub first_of : (ℕ → Bool) → List ℕ → ℕ
first_of test [] = null
first_of test (x ∷ xs) = if test x then x else first_of test xs

-- What a step of a walk reads: `a` is followed by the rest, and is neither NULL nor the tail.
abbrev pub Walk : Nodes → ℕ → ℕ → List ℕ → Type 0
Walk h t a xs = Chain h a (xs ++ t ∷ []) × Apart null (xs ++ t ∷ []) × Apart t xs

pub of_list :
    (h : Nodes) (list : ℕ) (xs : List ℕ) → IsList h list xs → Walk h (list_tail list) list xs
unfolding Apart Distinct
of_list h list xs l = (
  l.links,
  l.nonnull.1,
  Distinct-other (list + 16) xs (list_tail list ∷ []) l.distinct.1 (λ x e. e.0),
)

len_loop_lem :
    (h : Nodes) (list a : ℕ) (xs : List ℕ) (fuel len : ℕ)
    → Walk h (list_tail list) a xs
    → suc (length xs) ≤ fuel
    → len_loop h list fuel len (h.next a) ≡ done (len + length xs)
unfolding len_loop Chain Apart
len_loop_lem h list a [] zero len w enough = absurd (omega arith)
len_loop_lem h list a (x ∷ xs) zero len w enough = absurd (omega arith)
len_loop_lem h list a [] (suc fuel) len (links, _, _) enough =
    rw (links.0, (==_iff (list + 16) (list + 16)).1 refl) (ap done (omega arith))
len_loop_lem h list a (x ∷ xs) (suc fuel) len ((next, _, links), (null_x, null_xs), (t_x, t_xs))
      enough =
    let e : len + suc (length xs) ≡ len + 1 + length xs = omega arith in
    rw (next, ne→ne x (list + 16) (λ e. t_x (sym e)), e)
      (through_nonnull x _ null_x
        ∙ len_loop_lem h list x xs fuel (len + 1) (links, null_xs, t_xs) (omega arith))

-- `list_len` of a list is the number of its nodes, given the fuel.
pub list_len-length :
    (h : Nodes) (list : ℕ) (xs : List ℕ) (fuel : ℕ)
    → IsList h list xs
    → length xs < fuel
    → list_len h list fuel ≡ done (length xs)
unfolding list_len
list_len-length h list xs fuel l enough =
    len_loop_lem h list list xs fuel 0 (of_list h list xs l) (omega arith) ∙ ap done (omega arith)

find_loop_lem :
    (h : Nodes) (list objnode a : ℕ) (xs : List ℕ) (fuel : ℕ)
    → Walk h (list_tail list) a xs
    → suc (length xs) ≤ fuel
    → find_loop h list objnode fuel (h.next a) ≡ done (member objnode xs)
unfolding find_loop Chain Apart member
find_loop_lem h list objnode a [] zero w enough = absurd (omega arith)
find_loop_lem h list objnode a (x ∷ xs) zero w enough = absurd (omega arith)
find_loop_lem h list objnode a [] (suc fuel) (links, _, _) enough =
    rw (links.0, (==_iff (list + 16) (list + 16)).1 refl) refl
find_loop_lem h list objnode a (x ∷ xs) (suc fuel)
      ((next, _, links), (null_x, null_xs), (t_x, t_xs)) enough =
    rw (next, ne→ne x (list + 16) (λ e. t_x (sym e)))
      (elim (Bool-cases (x == objnode)) [
        | inl same ↦ rw same refl
        | inr other ↦ rw other (
            through_nonnull x _ null_x
            ∙ find_loop_lem h list objnode x xs fuel (links, null_xs, t_xs) (omega arith))
      ])

-- `list_find` of a node returns whether it is one of the list, given the fuel.
pub list_find-member :
    (h : Nodes) (list objnode : ℕ) (xs : List ℕ) (fuel : ℕ)
    → IsList h list xs
    → length xs < fuel
    → list_find h list objnode fuel ≡ done (member objnode xs)
unfolding list_find
list_find-member h list objnode xs fuel l enough =
    find_loop_lem h list objnode list xs fuel (of_list h list xs l) (omega arith)

traversal_loop_lem :
    (h : Nodes) (list : ℕ) (func : ℕ → ℕ → Bool) (arg a : ℕ) (xs : List ℕ) (fuel : ℕ)
    → Walk h (list_tail list) a xs
    → suc (length xs) ≤ fuel
    → traversal_loop h list func arg fuel (h.next a) ≡ done (first_of (λ x. func x arg) xs)
unfolding traversal_loop Chain Apart first_of
traversal_loop_lem h list func arg a [] zero w enough = absurd (omega arith)
traversal_loop_lem h list func arg a (x ∷ xs) zero w enough = absurd (omega arith)
traversal_loop_lem h list func arg a [] (suc fuel) (links, _, _) enough =
    rw (links.0, (==_iff (list + 16) (list + 16)).1 refl) refl
traversal_loop_lem h list func arg a (x ∷ xs) (suc fuel)
      ((next, _, links), (null_x, null_xs), (t_x, t_xs)) enough =
    rw (next, ne→ne x (list + 16) (λ e. t_x (sym e)))
      (elim (Bool-cases (func x arg)) [
        | inl passes ↦ rw passes refl
        | inr fails ↦ rw fails (
            through_nonnull x _ null_x
            ∙ traversal_loop_lem h list func arg x xs fuel (links, null_xs, t_xs) (omega arith))
      ])

-- `list_traversal` returns the first node of the list for which the caller's function does not
-- return 0, or NULL where there is none, given the fuel.
pub list_traversal-first_of :
    (h : Nodes) (list : ℕ) (func : ℕ → ℕ → Bool) (arg : ℕ) (xs : List ℕ) (fuel : ℕ)
    → IsList h list xs
    → length xs < fuel
    → list_traversal h list func arg fuel ≡ done (first_of (λ x. func x arg) xs)
unfolding list_traversal
list_traversal-first_of h list func arg xs fuel l enough =
    traversal_loop_lem h list func arg list xs fuel (of_list h list xs l) (omega arith)
