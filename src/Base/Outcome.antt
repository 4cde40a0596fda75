-- ===== src/Base/Outcome.antt =====
-- The codes `K_*` of src/arch/x86_64/include/kernel/global.h, as far as the modelled functions return
-- them, and how a call ends.
use mathlib.Core.Bool.{Bool, true, false}
use mathlib.Core.Path.{◌≡◌, refl}

pub data Status : Type 0 where
  success : Status
  error : Status
  nomem : Status
  invalid_param : Status
  invalid_addr : Status
  out_of_resource : Status
  not_found : Status

-- The macro `ERROR(x)`.
abbrev pub is_error : Status → Bool
is_error success = false
is_error _ = true

-- A call returns, or stops for good: `panic` is a failed `ASSERT` or a use of the null pointer,
-- `spin` waits for a lock that nobody else is there to release.
pub data Run {ℓ} (A : Type ℓ) : Type ℓ where
  done : A → Run A
  panic : Run A
  spin : Run A

infixl 5 ◌>>=◌
abbrev pub ◌>>=◌ {ℓ κ} : {A : Type ℓ} {B : Type κ} → Run A → (A → Run B) → Run B
done a >>= f = f a
panic >>= f = panic
spin >>= f = spin

-- `ASSERT(condition)`.
infixl 5 ◌>>◌
abbrev pub ◌>>◌ {ℓ} : {B : Type ℓ} → Run (Unit {0}) → Run B → Run B
m >> k = m >>= λ _. k

abbrev pub assert : Bool → Run (Unit {0})
assert true = done tt
assert false = panic

-- A chain that returns: so does its first call, and the rest on that.
pub >>=-eq-done {ℓ κ} :
    {A : Type ℓ} {B : Type κ} (r : Run A) (f : A → Run B) {b : B}
    → (r >>= f) ≡ done b
    → (a : A) × (r ≡ done a) × (f a ≡ done b)
>>=-eq-done (done a) f h = (a, refl, h)
>>=-eq-done panic f h = cc
>>=-eq-done spin f h = cc
