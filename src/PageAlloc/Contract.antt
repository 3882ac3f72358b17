-- ===== src/PageAlloc/Contract.antt =====
-- What `page_alloc` promises over all pools: the first block that fits, in list order.
use native.Mathlib.Nat.{pow-suc, one-le-pow, pow-le-pow_right, le_refl}
use silkware.Base.{
  ℕ, zero, suc, ◌+◌, ◌-◌, ◌*◌, ◌^◌, ◌≤◌, ◌<◌, ◌≡◌, refl, ap, ◌∙◌, ◌⊎◌, inl, inr, none, some, List,
  [], ◌∷◌, ◌++◌, arith, length, ltb, leb, Bool-cases, page_size,
}
use silkware.Base.Exec.{Exec, done, panicked}
use silkware.Links.{Cells, Items}
use silkware.PageAlloc.{Pool, Pages, scan_pools, page_round, page_alloc}
use silkware.PageAlloc.Order.{
  Ordered, Ordered-le, Ordered-append, Ordered-split, Ordered-weaken, AllBuddies-append,
  AllBuddies-split, SameOutside,
}
use silkware.PageAlloc.Pow2.{next_pow2, next_pow2-IsCeiling}
use silkware.PageAlloc.Split.{halves, halves-Ordered, halves-AllBuddies, pow-zero_add, pow-suc_add}
use silkware.PageAlloc.Alloc.{AllBelow, IsPool, scan_pool-IsTaken, scan_pool-not_found}

-- For a request up to 2 ^ 63, the size that is looked for is a power of two, at least a page and at
-- least the request; above a page it is less than twice the request.
page_round_bounds :
    (sz : ℕ)
    → sz ≤ 2 ^ 63
    → (j : ℕ) × (page_round sz ≡ 2 ^ j)
      × (sz ≤ page_round sz)
      × (page_size ≤ page_round sz)
      × ((page_round sz ≡ page_size) ⊎ (page_round sz < 2 * sz))
unfolding page_round
page_round_bounds zero h = (12, refl, omega arith, omega arith, inl refl)
page_round_bounds (suc n) h =
    let (k, e, l, u) = next_pow2-IsCeiling (suc n) (omega arith) h in
    elim (Bool-cases (ltb (next_pow2 (suc n)) page_size)) [
      | inl low ↦ rw low (12, refl, ground arith, ground arith, inl refl)
      | inr high ↦ rw high (k, e, l, ground arith, inr u)
    ]

-- The sizes of a list together.
abbrev pub total : Items → ℕ
total [] = 0
total ((a, v) ∷ xs) = v + total xs

total-append : (xs ys : Items) → total (xs ++ ys) ≡ total xs + total ys
total-append [] ys = omega arith
total-append ((a, v) ∷ xs) ys = omega (arith, total-append xs ys)

exponent_le : (j k : ℕ) → 2 ^ j ≤ 2 ^ k → j ≤ k
exponent_le j k h = elim (Bool-cases (leb j k)) [
  | inl le ↦ ground arith
  | inr gt ↦
      let lt : suc k ≤ j = ground arith in
      absurd (
        omega (
          arith,
          pow-suc 2 k,
          one-le-pow k 2,
          pow-le-pow_right {n = 2} (omega arith) {i = suc k} {j = j} lt,
        ))
]

total-halves : (b j d : ℕ) → total (halves b j d) + 2 ^ j ≡ 2 ^ (d + j)
total-halves b j zero = omega (arith, pow-zero_add j)
total-halves b j (suc d) = omega (
  arith,
  total-append (halves b j d) ((b + 2 ^ (d + j), 2 ^ (d + j)) ∷ []),
  total-halves b j d,
  pow-suc_add d j,
)

-- Every pool of the list holds only blocks below `n`, fewer than `fuel` of them.
abbrev pub NoneFits : Cells → ℕ → ℕ → List Pool → Type 0
NoneFits h fuel n [] = Unit
NoneFits h fuel n (p ∷ ps) =
    ((xs : Items) × IsPool h p xs × AllBelow n xs × (length xs < fuel)) × NoneFits h fuel n ps

scan_pools_past :
    (fuel : ℕ) (h : Cells) (sz : ℕ) (before later : List Pool)
    → NoneFits h fuel sz before
    → (b : ℕ) (g : Cells) (later' : List Pool)
    → scan_pools fuel h later sz ≡ done (some (b, g, later'))
    → scan_pools fuel h (before ++ later) sz ≡ done (some (b, g, before ++ later'))
unfolding scan_pools
scan_pools_past fuel h sz [] later low b g later' e = e
scan_pools_past fuel h sz (p ∷ ps) later ((xs, is, below, few), low) b g later' e =
    rw
      (
        scan_pool-not_found p sz xs fuel h none p.base p.start few below is.chain is.ordered,
        scan_pools_past fuel h sz ps later low b g later' e,
      )
      refl

scan_pools-none :
    (fuel : ℕ) (h : Cells) (sz : ℕ) (pools : List Pool)
    → NoneFits h fuel sz pools
    → scan_pools fuel h pools sz ≡ done none
unfolding scan_pools
scan_pools-none fuel h sz [] low = refl
scan_pools-none fuel h sz (p ∷ ps) ((xs, is, below, few), low) =
    rw
      (
        scan_pool-not_found p sz xs fuel h none p.base p.start few below is.chain is.ordered,
        scan_pools-none fuel h sz ps low,
      )
      refl

-- The result of a successful allocation: the block `b` of size `v` in `pool` is cut to `n`.
pub record Allocated (h : Cells) (before after : List Pool) (pool : Pool) (pre post : Items)
    (b v n : ℕ) (r : Exec (ℕ × Pages)) : Type 0 where
  pub heap : Cells
  pub start : ℕ
  pub rest : Items
  pub returns :
      r
      ≡ done (
        b,
        record { heap = heap; pools = some (before ++ (record pool { start = start }) ∷ after) },
      )
  pub size : (heap b).value ≡ n
  pub exact : total rest + n ≡ v
  pub apart : Ordered (b + n) rest (b + v)
  pub left : IsPool heap (record pool { start = start }) (pre ++ (rest ++ post))
  pub same : SameOutside pool.base pool.end h heap

module _ (h : Cells) (before after : List Pool) (pool : Pool) (pre post : Items)
    (b sz fuel : ℕ) where
  abbrev state : Pages
  state = record { heap = h; pools = some (before ++ pool ∷ after) }

  Allocated-pow2 :
      (j d q : ℕ)
      → d < 65
      → b ≡ pool.base + q * 2 ^ (d + j)
      → page_round sz ≡ 2 ^ j
      → NoneFits h fuel (2 ^ j) before
      → IsPool h pool (pre ++ (b, 2 ^ (d + j)) ∷ post)
      → AllBelow (2 ^ j) pre
      → length pre < fuel
      → Allocated h before after pool pre post b (2 ^ (d + j)) (2 ^ j) (page_alloc fuel sz state)
  Allocated-pow2 j d q small at rounds none_before is lows few =
      let t =
        scan_pool-IsTaken pool b j d q small at post pre fuel h none [] pool.base pool.start few
          lows (refl, refl) (le_refl _) is.chain is.ordered in
      let found : scan_pools fuel h (pool ∷ after) (2 ^ j)
          ≡ done (some (b, t.heap, (record pool { start = t.start }) ∷ after)) =
        unfold scan_pools in rw t.returns refl in
      let run = scan_pools_past fuel h (2 ^ j) before (pool ∷ after) none_before _ _ _ found in
      let (mid, o1, o2) = Ordered-split pool.base pool.end pre _ is.ordered in
      let (u1, u2) = AllBuddies-split pool.base pre _ is.buddies in
      let rest = halves b j d in
      record {
        heap = t.heap;
        start = t.start;
        rest = rest;
        returns = unfold page_alloc in rw (rounds, run) refl;
        size = t.size;
        exact = total-halves b j d;
        apart = halves-Ordered b j d;
        left = record {
          chain = t.chain;
          ordered = Ordered-append pool.base mid pool.end pre (rest ++ post) o1 (
              Ordered-weaken mid (b + 2 ^ j) pool.end (rest ++ post) (omega (arith, o2.0)) (
                Ordered-append (b + 2 ^ j) (b + 2 ^ (d + j)) pool.end rest post
                  (halves-Ordered b j d) o2.2));
          buddies =
              AllBuddies-append pool.base pre (rest ++ post) u1 (
                AllBuddies-append pool.base rest post (halves-AllBuddies pool.base b j d q at)
                  u2.1);
        };
        same = t.same;
      }

  -- Let every pool before `pool` and every block before `b` in its free list be smaller than the
  -- rounded request, and let `b`, of size `v`, be large enough; the pools are well formed, the
  -- request is at most 2 ^ 63, `pool` ends within the address space and `fuel` exceeds each list.
  -- Then page_alloc returns `b`. The block's header has the rounded size, the rest of it goes back
  -- to the list in its place as aligned blocks that follow the allocation without overlap and add
  -- up to what is left, the pool is well formed again, and no header outside the pool changes.
  pub page_alloc-Allocated :
      (v : ℕ)
      → sz ≤ 2 ^ 63
      → pool.end ≤ 2 ^ 64
      → NoneFits h fuel (page_round sz) before
      → IsPool h pool (pre ++ (b, v) ∷ post)
      → AllBelow (page_round sz) pre
      → length pre < fuel
      → page_round sz ≤ v
      → Allocated h before after pool pre post b v (page_round sz) (page_alloc fuel sz state)
  page_alloc-Allocated v small top none_before is lows few fits =
      let (j, rounds, _, _, _) = page_round_bounds sz small in
      let (mid, o1, o2) = Ordered-split pool.base pool.end pre _ is.ordered in
      let ((k, q, ev, at), _) = (AllBuddies-split pool.base pre _ is.buddies).1 in
      let le_v : j ≤ k = exponent_le j k (omega arith) in
      let k_small : k ≤ 64 =
        exponent_le k 64 (omega (arith, Ordered-le (b + v) pool.end post o2.2)) in
      let sum : k ≡ (k - j) + j = omega arith in
      let ev' : v ≡ 2 ^ ((k - j) + j) = ev ∙ ap (λ (t : ℕ). 2 ^ t) sum in
      rw (rounds, ev')
        (Allocated-pow2 j (k - j) q (omega arith) (at ∙ ap (λ (t : ℕ). pool.base + q * 2 ^ t) sum)
          rounds (rw rounds at none_before) (rw ev' at is) (rw rounds at lows) few)

-- When every block of every pool is smaller than the rounded request, page_alloc panics; so it does
-- before page_alloc_init.
pub page_alloc_fails :
    (h : Cells) (pools : List Pool) (sz fuel : ℕ)
    → NoneFits h fuel (page_round sz) pools
    → (page_alloc fuel sz (record { heap = h; pools = some pools }) ≡ panicked)
      × (page_alloc fuel sz (record { heap = h; pools = none }) ≡ panicked)
unfolding page_alloc
page_alloc_fails h pools sz fuel low =
    (rw (scan_pools-none fuel h (page_round sz) pools low) refl, refl)
