-- ===== src/Hpet/Sleep.antt =====
-- kernel/arch/x86_64/hpet.c: timer_sleep_us ends, and not too early.
use silkware.Base.{
  ℕ, ◌+◌, ◌-◌, ◌*◌, ◌/◌, ◌^◌, ◌<◌, ◌≤◌, ◌≡◌, refl, true, false, ltb, ◌==◌, u64, arith, Bool-cases,
  inl, inr, zero, suc,
}
use silkware.Base.Exec.{Exec, done}
use silkware.Base.Spin.{spin}
use silkware.Ports.{Bus}
use silkware.Hpet.{Hpet, main_ctr, read_hpet, before_end, timer_sleep_us}

-- The main counter of a timer that runs: `count` is how often it has gone up, of which a read gives
-- the low 64 digits, and from one read to the next it goes up by at least 1 and at most `gap`.
pub record IsRunning {ℓ} {S : Type ℓ} (io : Bus S) (t : Hpet) (gap : ℕ) (count : S → ℕ)
    : Type ℓ where
  pub ready : t.hpet_ready ≡ true
  pub ticks : (t.clk == 0) ≡ false
  pub shown :
      (s : S)
      → (io.input 8 (t.hpet + main_ctr) s).0 ≡ u64 (count (io.input 8 (t.hpet + main_ctr) s).1)
  pub bounded :
      (s : S)
      → (count s < count (io.input 8 (t.hpet + main_ctr) s).1)
        × (count (io.input 8 (t.hpet + main_ctr) s).1 ≤ count s + gap)

-- What a sleep of `ticks` ticks leaves.
pub record IsSlept {ℓ} {S : Type ℓ} (count : S → ℕ) (gap : ℕ) (s : S) (ticks : ℕ) (r : Exec S)
    : Type ℓ where
  pub state : S
  pub returns : r ≡ done state
  pub slept : count s + ticks < count state
  pub not_long : count state ≤ count s + ticks + gap + gap

module _ {ℓ} {S : Type ℓ} (io : Bus S) (t : Hpet) (gap : ℕ) (count : S → ℕ)
    (is : IsRunning io t gap count) where
  abbrev read : S → ℕ × S
  read s = io.input 8 (t.hpet + main_ctr) s

  read_hpet-ready : (s : S) → read_hpet io t s ≡ done (read s)
  unfolding read_hpet
  read_hpet-ready s = rw is.ready refl

  before_end-read :
      (end : ℕ) (s : S) → before_end io t end s ≡ done (ltb (read s).0 end, (read s).1)
  unfolding before_end
  before_end-read end s = rw (read_hpet-ready s) refl

  -- The loop from a state before the end: it stops at the first read that is not before it.
  record IsEnded (end : ℕ) (r : Exec S) : Type ℓ where
    state : S
    returns : r ≡ done state
    reached : end ≤ count state
    near : count state ≤ end + gap

  spin-IsEnded :
      (fuel end : ℕ) (s : S)
      → count s ≤ end
      → end + gap < 2 ^ 64
      → end - count s < fuel
      → IsEnded end (spin (before_end io t end) fuel s)
  unfolding spin
  spin-IsEnded zero end s low top h = absurd (omega arith)
  spin-IsEnded (suc fuel) end s low top h =
      let (up, close) = is.bounded s in
      let value : (read s).0 ≡ count (read s).1 = omega (arith, is.shown s) in
      elim (Bool-cases (ltb (read s).0 end)) [
        | inl more ↦
            let below : count (read s).1 ≤ end = ground arith in
            let rest = spin-IsEnded fuel end (read s).1 below top (ground arith) in
            record {
              state = rest.state;
              returns = rw (before_end-read end s, more) rest.returns;
              reached = rest.reached;
              near = rest.near;
            }
        | inr last ↦ record {
          state = (read s).1;
          returns = rw (before_end-read end s, last) refl;
          reached = ground arith;
          near = omega arith;
        }
      ]

  spin-IsSlept :
      (fuel end ticks : ℕ) (s : S)
      → end ≡ (read s).0 + ticks
      → (read s).0 ≡ count (read s).1
      → end + gap < 2 ^ 64
      → ticks < fuel
      → IsSlept count gap s ticks (spin (before_end io t end) fuel (read s).1)
  spin-IsSlept fuel end ticks s e first top h =
      let (up, close) = is.bounded s in
      let loop = spin-IsEnded fuel end (read s).1 (omega arith) top (omega arith) in
      record {
        state = loop.state;
        returns = loop.returns;
        slept = omega (arith, loop.reached);
        not_long = omega (arith, loop.near);
      }

  -- Let the timer run, with a clock period that is not 0, let its counter go up by at least 1 and at
  -- most `gap` from one read to the next, and let neither the product us * 10^9 nor the count that is
  -- `gap` behind the end reach 2 ^ 64. Then timer_sleep_us ends, on more fuel than the ticks to wait,
  -- and the counter has gone up by more than us * 10^9 / clk, the ticks of `clk` femtoseconds in `us`
  -- microseconds, and by no more than two gaps above that.
  pub timer_sleep_us-IsSlept :
      (fuel us : ℕ) (s : S)
      → us * 1000000000 < 2 ^ 64
      → count (read s).1 + us * 1000000000 / t.clk + gap < 2 ^ 64
      → us * 1000000000 / t.clk < fuel
      → IsSlept count gap s (us * 1000000000 / t.clk) (timer_sleep_us io fuel t us s)
  unfolding timer_sleep_us
  timer_sleep_us-IsSlept fuel us s product sum h =
      let ticks = us * 1000000000 / t.clk in
      let whole : u64 (us * 1000000000) ≡ us * 1000000000 = omega arith in
      let first : (read s).0 ≡ count (read s).1 = omega (arith, is.shown s) in
      let end : u64 ((read s).0 + ticks) ≡ (read s).0 + ticks = omega arith in
      rw (read_hpet-ready s, is.ticks, whole, end)
        (spin-IsSlept fuel ((read s).0 + ticks) ticks s refl first (omega arith) h)
