-- ===== src/Random.antt =====
-- kernel/rand.c: ChaCha20 and the generator on it. An array of 32-bit words is a function of the
-- index. srand_insecure is in Kalloc.
pub mod Rotations
pub mod Rounds
use silkware.Base.{
  ℕ, zero, suc, ◌+◌, ◌-◌, ◌*◌, ◌==◌, if◌then◌else◌, ltb, leb, ◌&&◌, bit_or, bit_xor, u32, u64, shr,
  shl,
}
use silkware.Base.{Bool, true}
use silkware.Base.Exec.{Exec, done}
use silkware.Ports.{Bus}
use silkware.Hpet.{Hpet, read_hpet}
use silkware.Sched.{assign}

abbrev pub Words : Type 0
Words = ℕ → ℕ

unfoldable pub rotl : ℕ → ℕ → ℕ
rotl a b = bit_or (u32 (shl a b)) (shr a (32 - b))

-- `*a += *b; *d ^= *a; *d = rotl(*d, k);`
unfoldable pub half_step : Words → ℕ → ℕ → ℕ → ℕ → Words
unfolding rotl
half_step x a b d k =
    let x1 = assign x a (u32 (x a + x b)) in
    let x2 = assign x1 d (bit_xor (x1 d) (x1 a)) in assign x2 d (rotl (x2 d) k)

unfoldable pub qround : Words → ℕ → ℕ → ℕ → ℕ → Words
unfolding half_step
qround x a b c d =
    let x1 = half_step x a b d 16 in
    let x2 = half_step x1 c d b 12 in let x3 = half_step x2 a b d 8 in half_step x3 c d b 7

-- The body of the loop of `chacha20`.
unfoldable pub double_round : Words → Words
unfolding qround
double_round x =
    let y1 = qround x 0 4 8 12 in
    let y2 = qround y1 1 5 9 13 in
    let y3 = qround y2 2 6 10 14 in
    let y4 = qround y3 3 7 11 15 in
    let z1 = qround y4 0 5 10 15 in
    let z2 = qround z1 1 6 11 12 in let z3 = qround z2 2 7 8 13 in qround z3 3 4 9 14

-- `for (i = 0; i < 10; ++i)`, with `left` rounds to go.
unfoldable pub rounds : ℕ → Words → Words
unfolding double_round
rounds zero x = x
rounds (suc left) x = rounds left (double_round x)

unfoldable pub chacha20 : Words → Words
unfolding rounds
chacha20 input = let x = rounds 10 input in λ i. u32 (x i + input i)

-- `state` before `init_csprng`.
abbrev pub initial : Words
initial i =
    if i == 0
    then 0x61707865
    else if i == 1
    then 0x3320646e
    else if i == 2
    then 0x79622d32
    else if i == 3
    then 0x6b206574
    else 0

-- The four stores of 64 bits, which fill the words 0 to 7, and the three of 32 bits; `random i` is
-- what call `i` of rand64 gives.
unfoldable pub init_csprng : (ℕ → ℕ) → Words → Words
init_csprng random state =
    let store : Words → ℕ → Words =
      λ w i. assign (assign w (2 * i) (u32 (random i))) (2 * i + 1) (shr (u64 (random i)) 32) in
    let w = store (store (store (store state 0) 1) 2) 3 in
    assign (assign (assign w 13 (u32 (random 4))) 14 (u32 (random 5))) 15 (u32 (random 6))

unfoldable pub csprng : Words → ℕ × Words
unfolding chacha20
csprng state =
    let out = chacha20 state in
    (bit_or (u64 (shl (out 0) 32)) (out 1), assign state 12 (u32 (state 12 + 1)))

-- `has_rdseed` after `rand_init` of kernel/arch/x86_64/rand.c, where `check` is what the processor
-- gives for check_rdseed.
unfoldable pub rand_init : ℕ → Bool → Bool
rand_init check has_rdseed = if check == 0 then has_rdseed else true

-- `rand64` of kernel/arch/x86_64/rand.c; `rdseed` is the processor's instruction.
unfoldable pub rand64 {ℓ} : {S : Type ℓ} → Bus S → Hpet → (S → ℕ × S) → Bool → S → Exec (ℕ × S)
unfolding read_hpet
rand64 io t rdseed has_rdseed s = if has_rdseed then done (rdseed s) else read_hpet io t s
