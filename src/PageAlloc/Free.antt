-- ===== src/PageAlloc/Free.antt =====
-- `page_free`: where a page goes in its pool's free list, and the cases in which the list that
-- results is wrong.
use silkware.Base.{
  ℕ, suc, ◌+◌, ◌≤◌, ◌<◌, ◌≡◌, ◌≢◌, refl, sym, ap, ap₂, ◌∙◌, ◌⊎◌, inl, inr, Bool, ◌||◌, false,
  Option, none, some, [], ◌∷◌, ◌++◌, arith, length, fun_ext, lt→ltb, le→ltb,
}
use silkware.Base.Exec.{Exec, done}
use silkware.Links.{Cells, cell, set_next, set_value, Items, Seg, has, has-append, Seg-split}
use silkware.PageAlloc.{Pool, get_buddy, relink, merge, insert_page, free_loop}
use silkware.PageAlloc.Order.{
  Ordered, Ordered-le, Ordered-append, Ordered-split, Ordered-weaken, not-has-Ordered, SameOutside,
  Seg-SameOutside, Passed,
}
use silkware.PageAlloc.Alloc.{relink-Seg, Passed-SameOutside}
use silkware.PageAlloc.Walk.{free_loop-walk, free_loop-insert, free_loop-merge}

-- Linking the page in is the same as setting its `next` and then linking it behind `prev`.
insert_page-relink :
    (h : Cells) (start page cur : ℕ) (prev : Option ℕ) (xs : Items)
    → Passed h start prev xs cur
    → prev ≢ some page
    → insert_page h start page prev cur ≡ relink (set_next h page cur) start prev page
unfolding insert_page relink
insert_page-relink h start page cur none xs (e, f) ne = rw f
insert_page-relink h start page cur (some p) xs pd ne =
    let apart : p ≢ page = λ e. ne (ap some e) in
    ap₂ (λ (a : Cells) (b : ℕ). (a, b)) (fun_ext λ a. ground arith) refl

Passed-ne :
    (h : Cells) (start lo mid cur page : ℕ) (prev : Option ℕ) (xs : Items)
    → Passed h start prev xs cur
    → Ordered lo xs mid
    → mid ≤ page
    → prev ≢ some page
Passed-ne h start lo mid cur page none xs pd o le = λ e. cc
Passed-ne h start lo mid cur page (some p) xs (ys, v, e, s) o le =
    let (m, _, here) = Ordered-split lo mid ys ((p, v) ∷ []) (rw e at o) in
    let lt : p < page = omega arith in λ same. ground arith

-- The list that a walk's end leads to: the headers, the start and what they hold.
pub record IsFreed (h : Cells) (pool : Pool) (xs : Items) (r : Exec (Cells × ℕ)) : Type 0 where
  pub heap : Cells
  pub start : ℕ
  pub returns : r ≡ done (heap, start)
  pub chain : Seg heap start xs pool.end
  pub ordered : Ordered pool.base xs pool.end
  pub same : SameOutside pool.base pool.end h heap

-- The block at which a list starts lies behind the page, and is not the buddy.
first_block :
    (h : Cells) (cur lo end b : ℕ) (post : Items)
    → Seg h cur post end
    → Ordered lo post end
    → has b post ≡ false
    → b ≢ end
    → (cur ≢ b) × (lo ≤ cur)
first_block h cur lo end b [] s o out ne = (λ e. ne (sym e ∙ s), omega arith)
first_block h cur lo end b ((c, v) ∷ post) s o out ne = (ground arith, omega arith)

or_left : (a b : Bool) → (a || b) ≡ false → a ≡ false
or_left a b h = ground arith

or_right : (a b : Bool) → (a || b) ≡ false → b ≡ false
or_right a b h = ground arith

module _ (h : Cells) (pool : Pool) (page n : ℕ) (pre post : Items) (mid fuel : ℕ)
    (chain : Seg h pool.start (pre ++ post) pool.end) (before : Ordered pool.base pre mid)
    (le : mid ≤ page) (size : (h page).value ≡ n) (pos : 0 < n) where
  -- Where the buddy's address is not the end of the pool and no free block stands there, the walk puts
  -- the page between the blocks below it and those above it.
  pub free_loop-IsFreed_insert :
      Ordered (page + n) post pool.end
      → has (get_buddy h page pool.base) (pre ++ post) ≡ false
      → get_buddy h page pool.base ≢ pool.end
      → IsFreed h pool
          (pre ++ (page, n) ∷ post)
          (free_loop (length pre + suc fuel) h pool page none pool.start)
  free_loop-IsFreed_insert after apart inner =
      let (cur, front, back) = Seg-split pre post h pool.start pool.end chain in
      let b = get_buddy h page pool.base in
      let split : (has b pre || has b post) ≡ false = sym (has-append b pre post) ∙ apart in
      let inside : page < pool.end = omega (arith, Ordered-le (page + n) pool.end post after) in
      let w =
        free_loop-walk h pool page pre [] (suc fuel) pool.base mid none pool.start cur (refl, refl)
          front before le (omega arith) (or_left (has b pre) (has b post) split) in
      let first : (cur ≢ b) × (page + n ≤ cur) =
        first_block h cur (page + n) pool.end b post back after
          (or_right (has b pre) (has b post) split) inner in
      let ends = free_loop-insert h pool page fuel w.prev cur first.0 (omega arith) in
      let h1 = set_next h page cur in
      let only : SameOutside page (page + 1) h h1 = λ a out. ground arith in
      let past =
        Passed-SameOutside h h1 pool.start cur page mid (page + 1) pool.base w.prev pre only before
          le w.passed in
      let tail : Seg h1 cur post pool.end =
        Seg-SameOutside post h h1 cur pool.end (page + n) pool.end page (page + 1) only after
          (inr (omega arith)) back in
      let own : h1 page ≡ cell n cur = ground arith in
      let linked : Seg h1 page ((page, n) ∷ post) pool.end =
        (refl, ap (λ c. c.value) own, rw own tail) in
      let shape =
        insert_page-relink h pool.start page cur w.prev pre w.passed
          (Passed-ne h pool.start pool.base mid cur page w.prev pre w.passed before le) in
      let zs_ordered : Ordered mid ((page, n) ∷ post) pool.end = (le, pos, after) in
      let (all, kept) =
        relink-Seg h1 pool.start cur page pool.end pool.base mid pool.end w.prev pre
          ((page, n) ∷ post) past before zs_ordered linked in
      record {
        heap = (relink h1 pool.start w.prev page).0;
        start = (relink h1 pool.start w.prev page).1;
        returns = w.same ∙ ends ∙ ap done shape;
        chain = all;
        ordered = Ordered-append pool.base mid pool.end pre ((page, n) ∷ post) before zs_ordered;
        same = λ a out.
            kept a (ground (arith, Ordered-le pool.base mid pre before))
            ∙ only a (ground (arith, Ordered-le pool.base mid pre before));
      }

-- The header that `merge` leaves at the lower address.
abbrev pub merged : Cells → ℕ → ℕ → ℕ → Cells
merged h low high b =
    let grown = set_value h low ((h low).value + (h high).value) in
    set_next grown low (grown b).next

-- The walk ends at the buddy `b`, and the two become one block at `low`.
module _ (h : Cells) (pool : Pool) (page low high b n v : ℕ) (pre post : Items) (mid top fuel : ℕ)
    (chain : Seg h pool.start (pre ++ (b, v) ∷ post) pool.end) (before : Ordered pool.base pre mid)
    (le : mid ≤ low) (le_b : mid ≤ b) (le_page : mid ≤ page) (inside : page < pool.end)
    (pos : 0 < n) (sizes : (h low).value + (h high).value ≡ n) (low_b : (low ≡ b) ⊎ (low + 1 ≤ b))
    (after : Ordered top post pool.end) (room : low + n ≤ top)
    (is_buddy : b ≡ get_buddy h page pool.base)
    (shape : (prev : Option ℕ)
      → merge h pool.start page prev b ≡ relink (merged h low high b) pool.start prev low) where
  merge-IsFreed :
      IsFreed h pool
        (pre ++ (low, n) ∷ post)
        (free_loop (length pre + suc fuel) h pool page none pool.start)
  merge-IsFreed =
      let (cur, front, back) = Seg-split pre ((b, v) ∷ post) h pool.start pool.end chain in
      let w =
        free_loop-walk h pool page pre [] (suc fuel) pool.base mid none pool.start cur (refl, refl)
          front before le_page (omega arith)
          (not-has-Ordered pool.base mid pre (get_buddy h page pool.base) before
            (inr (rw (← is_buddy) le_b))) in
      let ends = free_loop-merge h pool page fuel w.prev cur (back.0 ∙ is_buddy) in
      let h1 = merged h low high b in
      let only : SameOutside low (low + 1) h h1 = λ a out. ground arith in
      let past =
        Passed-SameOutside h h1 pool.start cur low mid (low + 1) pool.base w.prev pre only before le
          w.passed in
      let tail : Seg h1 (h b).next post pool.end =
        Seg-SameOutside post h h1 (h b).next pool.end top pool.end low (low + 1) only after
          (inr (omega arith)) back.2 in
      let own : h1 low ≡ cell n (h b).next = ground arith in
      let linked : Seg h1 low ((low, n) ∷ post) pool.end =
        (refl, ap (λ c. c.value) own, rw own tail) in
      let zs_ordered : Ordered mid ((low, n) ∷ post) pool.end =
        (le, pos, Ordered-weaken (low + n) top pool.end post room after) in
      let (all, kept) =
        relink-Seg h1 pool.start cur low pool.end pool.base mid pool.end w.prev pre
          ((low, n) ∷ post) past before zs_ordered linked in
      let base_le = Ordered-le pool.base mid pre before in
      let end_le = Ordered-le top pool.end post after in
      record {
        heap = (relink h1 pool.start w.prev low).0;
        start = (relink h1 pool.start w.prev low).1;
        returns =
            w.same
            ∙ ends
            ∙ ap done (ap (λ x. merge h pool.start page w.prev x) back.0 ∙ shape w.prev);
        chain = all;
        ordered = Ordered-append pool.base mid pool.end pre ((low, n) ∷ post) before zs_ordered;
        same = λ a out. kept a (ground arith) ∙ only a (ground arith);
      }

module _ (h : Cells) (pool : Pool) (page n b v : ℕ) (pre post : Items) (mid fuel : ℕ)
    (chain : Seg h pool.start (pre ++ (b, v) ∷ post) pool.end) (before : Ordered pool.base pre mid)
    (size : (h page).value ≡ n) (pos : 0 < n) (is_buddy : b ≡ get_buddy h page pool.base) where
  block_size : (h b).value ≡ v
  block_size = (Seg-split pre ((b, v) ∷ post) h pool.start pool.end chain).2.1

  -- A page whose buddy is free above it: the two become one block at the page's address, as long as
  -- both together.
  pub free_loop-IsFreed_lower :
      mid ≤ page
      → page + n ≡ b
      → Ordered (b + v) post pool.end
      → IsFreed h pool
          (pre ++ (page, n + v) ∷ post)
          (free_loop (length pre + suc fuel) h pool page none pool.start)
  free_loop-IsFreed_lower le next after =
      let low : page < b = omega arith in
      let end_le = Ordered-le (b + v) pool.end post after in
      merge-IsFreed h pool page page b b (n + v) v pre post mid (b + v) fuel chain before le
        (omega arith) le (omega arith) (omega arith) (omega (arith, block_size)) (inr (omega arith))
        after (omega arith) is_buddy (λ prev. unfold merge in rw (lt→ltb _ _ low))

  -- A page whose buddy's address holds a free block below it: the result starts at that block.
  pub free_loop-IsFreed_upper :
      mid ≤ b
      → b + v ≤ page
      → 0 < v
      → Ordered (page + n) post pool.end
      → IsFreed h pool
          (pre ++ (b, v + n) ∷ post)
          (free_loop (length pre + suc fuel) h pool page none pool.start)
  free_loop-IsFreed_upper le next vpos after =
      let high : b ≤ page = omega arith in
      let end_le = Ordered-le (page + n) pool.end post after in
      merge-IsFreed h pool page b page b (v + n) v pre post mid (page + n) fuel chain before le le
        (omega arith) (omega arith) (omega arith) (omega (arith, block_size)) (inl refl) after
        (omega arith) is_buddy (λ prev. unfold merge in rw (le→ltb _ _ high))
