-- ===== src/Mem/Copy.antt =====
-- What memory holds after memmove, memcpy and memset.
use silkware.Base.{ℕ, zero, suc, ◌+◌, ◌-◌, ◌<◌, ◌≡◌, ◌∙◌, ◌&&◌, arith, ltb, leb, if◌then◌else◌, u8}
use silkware.Mem.{Memory, store, copy_down, copy_up, memmove, memcpy, memset}

-- The bytes of `src` in the place of the `n` at `dst`, all else as before.
abbrev pub moved : ℕ → ℕ → ℕ → Memory → Memory
moved dst src n m a = if leb dst a && ltb a (dst + n) then m (src + (a - dst)) else m a

-- Downwards, the source bytes that are still to be read lie below those written.
copy_down-moved :
    (dst src n : ℕ) (m : Memory) (a : ℕ) → src < dst → copy_down dst src n m a ≡ moved dst src n m a
unfolding copy_down store
copy_down-moved dst src zero m a h = ground arith
copy_down-moved dst src (suc n) m a h =
    copy_down-moved dst src n (store m (dst + n) (m (src + n))) a h ∙ ground arith

-- Upwards from index `i`.
copy_up-moved :
    (dst src i left : ℕ) (m : Memory) (a : ℕ)
    → dst < src
    → copy_up dst src i left m a ≡ moved (dst + i) (src + i) left m a
unfolding copy_up store
copy_up-moved dst src i zero m a h = ground arith
copy_up-moved dst src i (suc left) m a h =
    copy_up-moved dst src (i + 1) left (store m (dst + i) (m (src + i))) a h ∙ ground arith

-- memmove puts at `dst` the `n` bytes that stood at `src` before the call, however the two regions
-- overlap, and leaves every other byte as it was.
pub memmove-moved :
    (dst src n : ℕ) (m : Memory) (a : ℕ) → memmove dst src n m a ≡ moved dst src n m a
unfolding memmove
memmove-moved dst src n m a =
    ground (arith, copy_down-moved dst src n m a, copy_up-moved dst src 0 n m a)

pub memcpy-moved : (dst src n : ℕ) (m : Memory) (a : ℕ) → memcpy dst src n m a ≡ moved dst src n m a
unfolding memcpy
memcpy-moved dst src n m a = memmove-moved dst src n m a

-- memset writes the low byte of `c` to each of the `n` bytes at `dst`, and to no other byte.
pub memset_lem :
    (dst c n : ℕ) (m : Memory) (a : ℕ)
    → memset dst c n m a ≡ (if leb dst a && ltb a (dst + n) then u8 c else m a)
unfolding memset
memset_lem dst c zero m a = ground arith
memset_lem dst c (suc n) m a = memset_lem dst c n (store m (dst + n) (u8 c)) a ∙ ground arith
