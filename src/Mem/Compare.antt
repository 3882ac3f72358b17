-- ===== src/Mem/Compare.antt =====
-- What memcmp reports.
use silkware.Base.{ℕ, zero, suc, ◌+◌, ◌<◌, ◌≡◌, ◌≢◌, refl, ◌↔◌, arith, ltb, if◌then◌else◌}
use silkware.Mem.{Memory, memcmp, none_differ, minus_one, plus_one}

equal_of-none_differ :
    (p1 p2 n i : ℕ) (m : Memory) → memcmp p1 p2 n m ≡ none_differ → i < n → m (p1 + i) ≡ m (p2 + i)
unfolding memcmp
equal_of-none_differ p1 p2 zero i m e h = absurd (omega arith)
equal_of-none_differ p1 p2 (suc n) i m e h = ground (arith, equal_of-none_differ p1 p2 n i m)

none_differ_of_equal :
    (p1 p2 n : ℕ) (m : Memory)
    → ((i : ℕ) → i < n → m (p1 + i) ≡ m (p2 + i))
    → memcmp p1 p2 n m ≡ none_differ
unfolding memcmp
none_differ_of_equal p1 p2 zero m h = refl
none_differ_of_equal p1 p2 (suc n) m h =
    let rest = none_differ_of_equal p1 p2 n m (λ i l. h i (omega arith)) in
    ground (arith, rest, h n)

-- memcmp returns 0 exactly when the two regions hold the same `n` bytes.
memcmp-none_differ_iff :
    (p1 p2 n : ℕ) (m : Memory)
    → (memcmp p1 p2 n m ≡ none_differ) ↔ ((i : ℕ) → i < n → m (p1 + i) ≡ m (p2 + i))
memcmp-none_differ_iff p1 p2 n m =
    (λ e i. equal_of-none_differ p1 p2 n i m e, none_differ_of_equal p1 p2 n m)

-- Where the regions differ, memcmp reports the order of the bytes at the last index at which they
-- differ, since its loop runs downwards.
memcmp_last :
    (p1 p2 n k : ℕ) (m : Memory)
    → k < n
    → m (p1 + k) ≢ m (p2 + k)
    → ((i : ℕ) → k < i → i < n → m (p1 + i) ≡ m (p2 + i))
    → memcmp p1 p2 n m ≡ (if ltb (m (p1 + k)) (m (p2 + k)) then minus_one else plus_one)
unfolding memcmp
memcmp_last p1 p2 zero k m h ne after = absurd (omega arith)
memcmp_last p1 p2 (suc n) k m h ne after = ground (arith, memcmp_last p1 p2 n k m, after n)
