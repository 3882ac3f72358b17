-- ===== src/Base/Exec.antt =====
-- The result of a kernel operation that may stop: by a panic, by an access through NULL, out of
-- bounds or at an index that is not initialised, or, in a loop on fuel, by running out of it.
use Prim.Native.Nat.{ℕ, ◌%◌, ◌^◌}
use mathlib.Core.Bool.{Bool, true, false}
use silkware.Base.Tests.{◌==◌}

pub data Exec {ℓ} (A : Type ℓ) : Type ℓ where
  done : A → Exec A
  panicked : Exec A
  fault : Exec A
  out_of_fuel : Exec A

infixl 5 ◌>>=◌ ◌>>◌
abbrev pub ◌>>=◌ {ℓ κ} : {A : Type ℓ} {B : Type κ} → Exec A → (A → Exec B) → Exec B
done a >>= f = f a
panicked >>= f = panicked
fault >>= f = fault
out_of_fuel >>= f = out_of_fuel

abbrev pub ◌>>◌ {ℓ} : {B : Type ℓ} → Exec (Unit {0}) → Exec B → Exec B
m >> k = m >>= λ _. k

-- `assert(b)`, which panics when the test fails.
abbrev pub assert : Bool → Exec (Unit {0})
assert true = done tt
assert false = panicked

-- `assert_eq(x, y)`, which compares 64 digits.
abbrev pub assert_eq : ℕ → ℕ → Exec (Unit {0})
assert_eq x y = assert (x % 2 ^ 64 == y % 2 ^ 64)
