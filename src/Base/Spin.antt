-- ===== src/Base/Spin.antt =====
-- A loop that waits: it tests until the test is false, and each test may change the state.
use Prim.Native.Nat.{ℕ, zero, suc, ◌<◌}
use mathlib.Core.Path.{◌≡◌, refl}
use mathlib.Core.Bool.{Bool, true, false}
use native.Mathlib.Omega.{arith}
use silkware.Base.Exec.{Exec, done, out_of_fuel, ◌>>=◌}
use silkware.Base.Tests.{if◌then◌else◌}

module _ {ℓ} {S : Type ℓ} (test : S → Exec (Bool × S)) where
  -- `while (test);`
  unfoldable pub spin : ℕ → S → Exec S
  spin zero s = out_of_fuel
  spin (suc fuel) s =
      test s >>= λ (r : Bool × S). let rest = spin fuel r.1 in if r.0 then rest else done r.1

  -- The loop ends, after a test that was false.
  pub record Ends (fuel : ℕ) (s : S) : Type ℓ where
    pub before : S
    pub after : S
    pub last : test before ≡ done (false, after)
    pub returns : spin fuel s ≡ done after

  -- A test gives a result, and a smaller rank when it is true.
  pub record Steps (rank : S → ℕ) (s : S) : Type ℓ where
    pub busy : Bool
    pub next : S
    pub tests : test s ≡ done (busy, next)
    pub lower : busy ≡ true → rank next < rank s

  spin-stop : (fuel : ℕ) (s next : S) → test s ≡ done (false, next) → Ends (suc fuel) s
  unfolding spin
  spin-stop fuel s next e = record { before = s; after = next; last = e; returns = rw e refl }

  spin-more :
      (fuel : ℕ) (s next : S) → test s ≡ done (true, next) → Ends fuel next → Ends (suc fuel) s
  unfolding spin
  spin-more fuel s next e ends = record {
    before = ends.before;
    after = ends.after;
    last = ends.last;
    returns = rw e ends.returns;
  }

  spin-tested :
      (fuel : ℕ) (s : S) (busy : Bool) (next : S)
      → test s ≡ done (busy, next)
      → (busy ≡ true → Ends fuel next)
      → Ends (suc fuel) s
  spin-tested fuel s true next e more = spin-more fuel s next e (more refl)
  spin-tested fuel s false next e more = spin-stop fuel s next e

  -- With a rank that falls at each test that is true, more fuel than the rank is enough.
  pub spin-Ends :
      (rank : S → ℕ) → ((s : S) → Steps rank s) → (fuel : ℕ) (s : S) → rank s < fuel → Ends fuel s
  spin-Ends rank steps zero s h = absurd (omega arith)
  spin-Ends rank steps (suc fuel) s h =
      let st = steps s in
      spin-tested fuel s st.busy st.next st.tests
        (λ b. let low = st.lower b in spin-Ends rank steps fuel st.next (omega arith))
