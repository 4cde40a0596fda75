-- ===== src/Klist/Chain.antt =====
-- src/lib/list.c: what it means that the nodes of a list are linked, and how a store changes it.
use clay_figure_kernel.Base.{ℕ, ◌≡◌, ◌≢◌, refl, sym, ◌∙◌, List, [], ◌∷◌, ◌++◌, ==_iff, ne→ne}
use clay_figure_kernel.Klist.{Nodes, put, put_prev, put_next}

pub put_self : (f : ℕ → ℕ) (a value : ℕ) → put f a value a ≡ value
unfolding put
put_self f a value = rw ((==_iff a a).1 refl) refl

pub put_ne : (f : ℕ → ℕ) (a value x : ℕ) → a ≢ x → put f a value x ≡ f x
unfolding put
put_ne f a value x ne = rw (ne→ne x a (λ e. ne (sym e))) refl

-- `c` is none of the nodes.
unfoldable pub Apart : ℕ → List ℕ → Type 0
Apart c [] = Unit
Apart c (x ∷ xs) = (c ≢ x) × Apart c xs

unfoldable pub Distinct : List ℕ → Type 0
Distinct [] = Unit
Distinct (x ∷ xs) = Apart x xs × Distinct xs

-- The nodes follow `a`, each linked with the one before it.
unfoldable pub Chain : Nodes → ℕ → List ℕ → Type 0
Chain h a [] = Unit
Chain h a (x ∷ xs) = (h.next a ≡ x) × (h.prev x ≡ a) × Chain h x xs

unfoldable pub last : ℕ → List ℕ → ℕ
last a [] = a
last a (x ∷ xs) = last x xs

-- `c` is neither `a` nor a node but the last one.
unfoldable pub Before : ℕ → ℕ → List ℕ → Type 0
Before c a [] = Unit
Before c a (x ∷ xs) = (c ≢ a) × Before c x xs

pub Apart-append : (c : ℕ) (xs ys : List ℕ) → Apart c (xs ++ ys) → Apart c xs × Apart c ys
unfolding Apart
Apart-append c [] ys h = (tt, h)
Apart-append c (x ∷ xs) ys (ne, h) = let (l, r) = Apart-append c xs ys h in ((ne, l), r)

pub append-Apart : (c : ℕ) (xs ys : List ℕ) → Apart c xs → Apart c ys → Apart c (xs ++ ys)
unfolding Apart
append-Apart c [] ys _ h = h
append-Apart c (x ∷ xs) ys (ne, l) h = (ne, append-Apart c xs ys l h)

pub Apart-last : (c a : ℕ) (xs : List ℕ) → c ≢ a → Apart c xs → c ≢ last a xs
unfolding Apart last
Apart-last c a [] ne _ = ne
Apart-last c a (x ∷ xs) ne (ne', h) = Apart-last c x xs ne' h

pub Apart-Before : (c a : ℕ) (xs : List ℕ) → c ≢ a → Apart c xs → Before c a xs
unfolding Apart Before
Apart-Before c a [] ne _ = tt
Apart-Before c a (x ∷ xs) ne (ne', h) = (ne, Apart-Before c x xs ne' h)

-- What the distinctness of `a`, `xs` and `ys` says of the parts.
pub Distinct-parts :
    (a : ℕ) (xs ys : List ℕ)
    → Distinct (a ∷ xs ++ ys)
    → Distinct (a ∷ xs) × Distinct ys × Apart (last a xs) ys
unfolding Distinct Apart last
Distinct-parts a [] ys (apart, d) = ((tt, tt), d, apart)
Distinct-parts a (x ∷ xs) ys ((ne, apart), d) =
    let (dx, dy, ap_last) = Distinct-parts x xs ys d in
    (((ne, (Apart-append a xs ys apart).0), dx), dy, ap_last)

pub last-Before : (a : ℕ) (xs : List ℕ) → Distinct (a ∷ xs) → Before (last a xs) a xs
unfolding Distinct Apart Before last
last-Before a [] _ = tt
last-Before a (x ∷ xs) ((ne, apart), d) =
    ((λ e. Apart-last a x xs ne apart (sym e)), last-Before x xs d)

pub Chain-put_next :
    (h : Nodes) (c value a : ℕ) (xs : List ℕ)
    → Before c a xs
    → Chain h a xs
    → Chain (put_next h c value) a xs
unfolding Before Chain
Chain-put_next h c value a [] _ _ = tt
Chain-put_next h c value a (x ∷ xs) (ne, before) (next, prev, rest) =
    (put_ne h.next c value a ne ∙ next, prev, Chain-put_next h c value x xs before rest)

pub Chain-put_prev :
    (h : Nodes) (c value a : ℕ) (xs : List ℕ)
    → Apart c xs
    → Chain h a xs
    → Chain (put_prev h c value) a xs
unfolding Apart Chain
Chain-put_prev h c value a [] _ _ = tt
Chain-put_prev h c value a (x ∷ xs) (ne, apart) (next, prev, rest) =
    (next, put_ne h.prev c value x ne ∙ prev, Chain-put_prev h c value x xs apart rest)

pub Chain-split :
    (h : Nodes) (a : ℕ) (xs : List ℕ) (y : ℕ) (ys : List ℕ)
    → Chain h a (xs ++ y ∷ ys)
    → Chain h a xs × (h.next (last a xs) ≡ y) × (h.prev y ≡ last a xs) × Chain h y ys
unfolding Chain last
Chain-split h a [] y ys (next, prev, rest) = (tt, next, prev, rest)
Chain-split h a (x ∷ xs) y ys (next, prev, rest) =
    let (l, n, p, r) = Chain-split h x xs y ys rest in ((next, prev, l), n, p, r)

pub Chain-join :
    (h : Nodes) (a : ℕ) (xs : List ℕ) (y : ℕ) (ys : List ℕ)
    → Chain h a xs
    → h.next (last a xs) ≡ y
    → h.prev y ≡ last a xs
    → Chain h y ys
    → Chain h a (xs ++ y ∷ ys)
unfolding Chain last
Chain-join h a [] y ys _ n p r = (n, p, r)
Chain-join h a (x ∷ xs) y ys (next, prev, l) n p r = (next, prev, Chain-join h x xs y ys l n p r)

-- A node of `zs`, from which every node apart from `zs` differs, is apart from `xs`.
pub Distinct-other :
    (q : ℕ) (xs zs : List ℕ) → Distinct (xs ++ zs) → ((x : ℕ) → Apart x zs → x ≢ q) → Apart q xs
unfolding Distinct Apart
Distinct-other q [] zs _ _ = tt
Distinct-other q (x ∷ xs) zs (apart, d) in_zs =
    ((λ e. in_zs x (Apart-append x xs zs apart).1 (sym e)), Distinct-other q xs zs d in_zs)

pub Apart-omit : (c node : ℕ) (xs ys : List ℕ) → Apart c (xs ++ node ∷ ys) → Apart c (xs ++ ys)
unfolding Apart
Apart-omit c node xs ys h =
    let (l, (_, r)) = Apart-append c xs (node ∷ ys) h in append-Apart c xs ys l r

pub Distinct-omit : (node : ℕ) (xs ys : List ℕ) → Distinct (xs ++ node ∷ ys) → Distinct (xs ++ ys)
unfolding Distinct
Distinct-omit node [] ys (_, d) = d
Distinct-omit node (x ∷ xs) ys (apart, d) =
    (Apart-omit x node xs ys apart, Distinct-omit node xs ys d)

pub Distinct-insert :
    (node : ℕ) (xs ys : List ℕ)
    → Apart node (xs ++ ys)
    → Distinct (xs ++ ys)
    → Distinct (xs ++ node ∷ ys)
unfolding Distinct Apart
Distinct-insert node [] ys apart d = (apart, d)
Distinct-insert node (x ∷ xs) ys (ne, apart) (here, d) =
    let (l, r) = Apart-append x xs ys here in
    (append-Apart x xs (node ∷ ys) l ((λ e. ne (sym e)), r), Distinct-insert node xs ys apart d)
