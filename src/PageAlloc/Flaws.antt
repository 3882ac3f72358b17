-- ===== src/PageAlloc/Flaws.antt =====
-- Frees that `page_free` gets wrong: a whole pool, and a page at the address where the pool before
-- it ends. premap_anon lays the pools out one behind another, so both addresses occur.
use Prim.Native.Nat.{bit_xor-bitwise}
use mathlib.Core.List.{append-nil}
use mathlib.Core.Path.{subst}
use silkware.Base.{
  ◌||◌, ltb, ℕ, suc, ◌+◌, ◌-◌, ◌≤◌, ◌<◌, bit_xor, ◌≡◌, ◌≢◌, refl, sym, ap, ◌∙◌, inr, Option, none,
  some, List, [], ◌∷◌, false, arith, length, lt→ltb,
}
use silkware.Base.Exec.{done, fault}
use silkware.Links.{Cells, cell, set_next, Items, Seg, has, Seg-write}
use silkware.PageAlloc.{Pool, get_buddy, relink, merge, insert_page, free_loop, free_pools}
use silkware.PageAlloc.Order.{Ordered, Ordered-le, not-has-Ordered, Passed}
use silkware.PageAlloc.Alloc.{relink-Seg}
use silkware.PageAlloc.Walk.{free_loop-walk, free_loop-merge}
use silkware.PageAlloc.Free.{merged}

zero-bit_xor : (r : ℕ) → bit_xor 0 r ≡ r
zero-bit_xor r = bit_xor-bitwise 0 r

-- When a pool was handed out as one block, the buddy of that block is the pool's end. Freeing it
-- takes the header at the end, which is outside the pool, for a free block: the size found there is
-- added to the page's, and the page's `next` is the one found there.
free_loop_whole_pool :
    (h : Cells) (pool : Pool) (fuel : ℕ)
    → pool.start ≡ pool.end
    → pool.base + (h pool.base).value ≡ pool.end
    → 0 < (h pool.base).value
    → (g : Cells) × (free_loop (suc fuel) h pool pool.base none pool.start ≡ done (g, pool.base))
      × (g pool.base ≡ cell ((h pool.base).value + (h pool.end).value) (h pool.end).next)
free_loop_whole_pool h pool fuel empty e pos =
    let zero_off : pool.base - pool.base ≡ 0 = omega arith in
    let buddy : get_buddy h pool.base pool.base ≡ pool.end =
      unfold get_buddy in rw (zero_off, zero-bit_xor) e in
    let below : pool.base < pool.start = omega arith in
    let m : merge h pool.start pool.base none pool.start
        ≡ (merged h pool.base pool.start pool.start, pool.base) =
      unfold merge relink in rw (lt→ltb _ _ below) in
    (
      merged h pool.base pool.start pool.start,
      free_loop-merge h pool pool.base fuel none pool.start (empty ∙ sym buddy) ∙ ap done m,
      ground arith,
    )

-- A page at the address where the pool before it ends is not freed to its own pool: with that
-- pool's list empty, page_free writes through NULL.
free_pools_boundary_empty :
    (h : Cells) (pool : Pool) (rest : List Pool) (page fuel : ℕ)
    → pool.start ≡ pool.end
    → pool.base ≤ page
    → page ≡ pool.end
    → get_buddy h page pool.base ≢ pool.end
    → free_pools (suc fuel) h (pool ∷ rest) page ≡ fault
unfolding free_pools free_loop
free_pools_boundary_empty h pool rest page fuel empty le e apart = ground arith

-- The page is linked behind the last block, and then to itself.
boundary_end :
    (h : Cells) (pool : Pool) (page mid fuel : ℕ) (prev : Option ℕ) (xs : Items)
    → Passed h pool.start prev xs pool.end
    → xs ≢ []
    → Ordered pool.base xs mid
    → mid ≤ page
    → page ≡ pool.end
    → pool.end ≢ get_buddy h page pool.base
    → (g : Cells) × (free_loop (suc fuel) h pool page prev pool.end ≡ done (g, pool.start))
      × Seg g pool.start xs pool.end
      × ((g page).next ≡ page)
boundary_end h pool page mid fuel none xs pd some_block o le e ne = absurd (some_block pd.0)
boundary_end h pool page mid fuel (some p) xs pd some_block o le e ne =
    let (linked, _) =
      relink-Seg h pool.start pool.end page page pool.base mid page (some p) xs [] pd o le refl in
    let g1 = (relink h pool.start (some p) page).0 in
    let linked' : Seg g1 pool.start xs page = unfold relink in rw append-nil at linked in
    let out = not-has-Ordered pool.base mid xs page o (inr le) in
    let kept : Seg (set_next g1 page pool.end) pool.start xs page =
      Seg-write xs g1 pool.start page page _ out linked' in
    (
      set_next g1 page pool.end,
      unfold free_loop insert_page relink in ground arith,
      subst (λ x. Seg (set_next g1 page pool.end) pool.start xs x) e kept,
      ground arith,
    )

-- With free blocks `xs` in that pool, the page's `next` comes to point at the page itself, and the
-- lists of all pools stay as they were: the page is lost.
free_pools_boundary :
    (h : Cells) (pool : Pool) (rest : List Pool) (page mid fuel : ℕ) (xs : Items)
    → Seg h pool.start xs pool.end
    → xs ≢ []
    → Ordered pool.base xs mid
    → mid ≤ page
    → page ≡ pool.end
    → has (get_buddy h page pool.base) xs ≡ false
    → pool.end ≢ get_buddy h page pool.base
    → (g : Cells) × (free_pools (length xs + suc fuel) h (pool ∷ rest) page ≡ done (g, pool ∷ rest))
      × Seg g pool.start xs pool.end
      × ((g page).next ≡ page)
free_pools_boundary h pool rest page mid fuel xs s some_block o le e apart ne =
    let w =
      free_loop-walk h pool page xs [] (suc fuel) pool.base mid none pool.start pool.end
        (refl, refl) s o le (omega arith) apart in
    let (g, run, chain, loop) =
      boundary_end h pool page mid fuel w.prev xs w.passed some_block o le e ne in
    let base_le = Ordered-le pool.base mid xs o in
    let walked : free_loop (length xs + suc fuel) h pool page none pool.start
        ≡ done (g, pool.start) =
      w.same ∙ run in
    let tried : (ltb page pool.base || ltb pool.end page) ≡ false = ground arith in
    (g, unfold free_pools in rw (tried, walked) refl, chain, loop)
