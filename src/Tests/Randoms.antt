-- ===== src/Tests/Randoms.antt =====
-- ChaCha20 at concrete values.
use silkware.Base.{◌≡◌, refl, ◌==◌, if◌then◌else◌, arith}
use silkware.Random.{Words, qround, initial, init_csprng}
use silkware.Random.Rounds.{IsFit, qround_back, qround_back-qround}

abbrev words : Words
words i =
    if i == 0
    then 0x11111111
    else if i == 1
    then 0x01020304
    else if i == 2
    then 0x9b8d6f43
    else if i == 3
    then 0x01234567
    else 0

words-IsFit : IsFit words
words-IsFit i = ground arith

-- The quarter round of RFC 7539, section 2.1.1.
qround_rfc :
    (qround words 0 1 2 3 0 ≡ 0xea2a92f4)
    × (qround words 0 1 2 3 1 ≡ 0xcb1cf8ce)
    × (qround words 0 1 2 3 2 ≡ 0x4581472e)
    × (qround words 0 1 2 3 3 ≡ 0x5881c4bb)
unfolding qround
qround_rfc = (refl, refl, refl, refl)

qround_back-qround_example : qround_back (qround words 0 1 2 3) 0 1 2 3 ≡ words
qround_back-qround_example =
    qround_back-qround words 0 1 2 3 words-IsFit (λ e. omega (arith, e)) (λ e. omega (arith, e))
      (λ e. omega (arith, e)) (λ e. omega (arith, e)) (λ e. omega (arith, e))

-- init_csprng overwrites the constants at the words 0 to 3, and leaves the key words 8 to 11 at 0.
csprng_seeded :
    (init_csprng (λ i. 0) initial 0 ≡ 0)
    × (init_csprng (λ i. 0xffffffffffffffff) initial 8 ≡ 0)
    × (init_csprng (λ i. 0xffffffffffffffff) initial 11 ≡ 0)
unfolding init_csprng
csprng_seeded = (refl, refl, refl)
