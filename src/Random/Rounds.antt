-- ===== src/Random/Rounds.antt =====
-- kernel/rand.c: a quarter round of ChaCha20 loses nothing.
use silkware.Base.{
  ℕ, ◌+◌, ◌-◌, ◌^◌, ◌<◌, ◌≡◌, ◌≢◌, fun_ext, sym, ap, ◌∙◌, bit_xor, u32, at_each, arith,
}
use silkware.Bits.Shifts.{bit_xor_cancel, bit_xor-lt}
use silkware.Sched.{assign}
use silkware.Random.Rotations.{
  IsRotation, rotl_7-IsRotation, rotl_8-IsRotation, rotl_12-IsRotation, rotl_16-IsRotation,
}
use silkware.Random.{Words, rotl, half_step, qround}

-- The words fit 32 digits.
abbrev pub IsFit : Words → Type 0
IsFit x = (i : ℕ) → x i < 2 ^ 32

-- The step back from `half_step x a b d k`: `r` is `32 - k`.
abbrev pub step_back : Words → ℕ → ℕ → ℕ → ℕ → Words
step_back x a b d k =
    let y = assign x d (bit_xor (rotl (x d) (32 - k)) (x a)) in
    assign y a (u32 (y a + 2 ^ 32 - y b))

-- The quarter round backwards.
abbrev pub qround_back : Words → ℕ → ℕ → ℕ → ℕ → Words
qround_back x a b c d =
    let x3 = step_back x c d b 7 in
    let x2 = step_back x3 a b d 8 in let x1 = step_back x2 c d b 12 in step_back x1 a b d 16

module _ (x : Words) (a b d k : ℕ) (turn : IsRotation k) (fit : IsFit x) (a_b : a ≢ b) (a_d : a ≢ d)
    (b_d : b ≢ d) where
  abbrev y : Words
  y = half_step x a b d k

  half_step-sum : y a ≡ u32 (x a + x b)
  unfolding half_step
  half_step-sum = ground arith

  half_step-turned : y d ≡ rotl (bit_xor (x d) (y a)) k
  unfolding half_step
  half_step-turned = ground arith

  half_step-other : (i : ℕ) → i ≢ a → i ≢ d → y i ≡ x i
  unfolding half_step
  half_step-other i p q = ground arith

  half_step-IsFit : IsFit y
  half_step-IsFit i =
      let sum : y a < 2 ^ 32 = omega (arith, half_step-sum) in
      let mixed = bit_xor-lt 32 (x d) (y a) (fit d) sum in
      let turned : y d < 2 ^ 32 = rw half_step-turned (turn.fits (bit_xor (x d) (y a)) mixed) in
      at_each (λ j. y j < 2 ^ 32) i a d sum turned (λ p q. rw (half_step-other i p q) (fit i))

  turned_back : bit_xor (rotl (y d) (32 - k)) (y a) ≡ x d
  turned_back =
      let sum : y a < 2 ^ 32 = omega (arith, half_step-sum) in
      let mixed = bit_xor-lt 32 (x d) (y a) (fit d) sum in
      rw (half_step-turned, turn.back (bit_xor (x d) (y a)) mixed)
        (bit_xor_cancel 32 (x d) (y a) (fit d) sum)

  step_back-half_step : step_back y a b d k ≡ x
  step_back-half_step =
      let e = half_step-other b (λ p. a_b (sym p)) b_d in
      let at_a : step_back y a b d k a ≡ x a =
        rw turned_back (ground (arith, e, half_step-sum, fit a, fit b)) in
      let at_d : step_back y a b d k d ≡ x d = rw turned_back (ground arith) in
      fun_ext (λ i.
        at_each (λ j. step_back y a b d k j ≡ x j) i a d at_a at_d
          (λ p q. rw turned_back (ground (arith, half_step-other i p q))))

-- Let a, b, c and d be four different indices of an array of 32-bit words. Then the words can be
-- computed back from those that qround leaves, by its steps in the other order: a quarter round of
-- ChaCha20 loses nothing.
pub qround_back-qround :
    (x : Words) (a b c d : ℕ)
    → IsFit x
    → a ≢ b
    → a ≢ d
    → b ≢ d
    → c ≢ d
    → c ≢ b
    → qround_back (qround x a b c d) a b c d ≡ x
unfolding qround
qround_back-qround x a b c d fit a_b a_d b_d c_d c_b =
    let d_b : d ≢ b = λ e. b_d (sym e) in
    let x1 = half_step x a b d 16 in
    let f1 = half_step-IsFit x a b d 16 rotl_16-IsRotation fit a_b a_d b_d in
    let x2 = half_step x1 c d b 12 in
    let f2 = half_step-IsFit x1 c d b 12 rotl_12-IsRotation f1 c_d c_b d_b in
    let x3 = half_step x2 a b d 8 in
    let f3 = half_step-IsFit x2 a b d 8 rotl_8-IsRotation f2 a_b a_d b_d in
    let to1 : Words → Words = λ w. step_back w a b d 16 in
    let to2 : Words → Words = λ w. to1 (step_back w c d b 12) in
    let to3 : Words → Words = λ w. to2 (step_back w a b d 8) in
    ap to3 (step_back-half_step x3 c d b 7 rotl_7-IsRotation f3 c_d c_b d_b)
    ∙ ap to2 (step_back-half_step x2 a b d 8 rotl_8-IsRotation f2 a_b a_d b_d)
    ∙ ap to1 (step_back-half_step x1 c d b 12 rotl_12-IsRotation f1 c_d c_b d_b)
    ∙ step_back-half_step x a b d 16 rotl_16-IsRotation fit a_b a_d b_d
