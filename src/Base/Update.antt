-- ===== src/Base/Update.antt =====
-- A field of an object at each address or number, as a function, and the store of one of them.
use clay_figure_kernel.Base.{ℕ, ◌≡◌, refl, sym, ◌≢◌, ◌==◌, if◌then◌else◌, ==_iff, ne→ne}

module _ {ℓ} {A : Type ℓ} where
  unfoldable pub update : (ℕ → A) → ℕ → A → ℕ → A
  update f a v x = if x == a then v else f x

  pub update_self : (f : ℕ → A) (a : ℕ) (v : A) → update f a v a ≡ v
  unfolding update
  update_self f a v = rw ((==_iff a a).1 refl) refl

  pub update_ne : (f : ℕ → A) (a : ℕ) (v : A) (x : ℕ) → a ≢ x → update f a v x ≡ f x
  unfolding update
  update_ne f a v x ne = rw (ne→ne x a (λ e. ne (sym e))) refl
