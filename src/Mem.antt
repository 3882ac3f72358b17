-- ===== src/Mem.antt =====
-- kernel/mem.c: memmove, memcpy, memset and memcmp over a byte-addressed memory. Pointers are
-- addresses; an object does not wrap round the end of the address space.
pub mod Copy
pub mod Compare
use silkware.Base.{ℕ, zero, suc, ◌+◌, ◌-◌, Bool, ◌||◌, ltb, ◌==◌, if◌then◌else◌, u8}

abbrev pub Memory : Type 0
Memory = ℕ → ℕ

unfoldable pub store : Memory → ℕ → ℕ → Memory
store m p v a = if a == p then v else m a

-- `while (n--) dst8[n] = src8[n];`
copy_down : ℕ → ℕ → ℕ → Memory → Memory
copy_down dst src zero m = m
copy_down dst src (suc n) m = copy_down dst src n (store m (dst + n) (m (src + n)))

-- `for (i = 0; i < n; ++i) dst8[i] = src8[i];` from index `i`, with `left` rounds to go.
copy_up : ℕ → ℕ → ℕ → ℕ → Memory → Memory
copy_up dst src i zero m = m
copy_up dst src i (suc left) m = copy_up dst src (i + 1) left (store m (dst + i) (m (src + i)))

unfoldable pub memmove : ℕ → ℕ → ℕ → Memory → Memory
unfolding copy_down copy_up store
memmove dst src n m =
    if src == dst || n == 0
    then m
    else if ltb src dst
    then copy_down dst src n m
    else copy_up dst src 0 n m

unfoldable pub memcpy : ℕ → ℕ → ℕ → Memory → Memory
unfolding memmove
memcpy dst src n m = memmove dst src n m

unfoldable pub memset : ℕ → ℕ → ℕ → Memory → Memory
unfolding store
memset dst c zero m = m
memset dst c (suc n) m = memset dst c n (store m (dst + n) (u8 c))

-- The three results of `memcmp`.
pub data Sign : Type 0 where
  minus_one : Sign
  none_differ : Sign
  plus_one : Sign

-- `while (n--) if (s1[n] != s2[n]) return ...;`
unfoldable pub memcmp : ℕ → ℕ → ℕ → Memory → Sign
memcmp p1 p2 zero m = none_differ
memcmp p1 p2 (suc n) m =
    let rest = memcmp p1 p2 n m in
    if m (p1 + n) == m (p2 + n)
    then rest
    else if ltb (m (p1 + n)) (m (p2 + n))
    then minus_one
    else plus_one
