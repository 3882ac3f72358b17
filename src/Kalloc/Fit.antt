-- ===== src/Kalloc/Fit.antt =====
-- The search of `kalloc` for a block, and the cut of the first one that fits.
use native.Mathlib.Nat.{le_refl}
use mathlib.Core.List.{append-nil, append_assoc}
use mathlib.Core.Path.{subst}
use silkware.Base.{
  ℕ, suc, ◌+◌, ◌-◌, ◌<◌, ◌≤◌, ◌≡◌, ◌≢◌, refl, sym, ap, ◌∙◌, ◌||◌, false, Option, none, some, [],
  ◌∷◌, ◌++◌, arith, length,
}
use silkware.Base.Exec.{Exec, done}
use silkware.Links.{
  Cells, cell, write, set_next, Items, Seg, has, Distinct, has-append, Seg-write, Seg-append,
  Seg-split,
}
use silkware.Links.Last.{
  last, has-last, Seg-link_last, prev_of, prev_of-append, Distinct-drop, last_apart,
}
use silkware.Kalloc.{Heap, canary, hdrsize, align_up, carve, fit_loop, kalloc}

-- The free list `xs`.
pub record IsFree (h : Cells) (start : ℕ) (xs : Items) : Type 0 where
  pub chain : Seg h start xs 0
  pub some_block : has 0 xs ≡ false
  pub distinct : Distinct xs

-- No block of the list is as large as `n`.
abbrev pub AllSmaller : ℕ → Items → Type 0
AllSmaller n [] = Unit
AllSmaller n ((_, v) ∷ xs) = (v < n) × AllSmaller n xs

Distinct-swap :
    (xs ys : Items) (a v b w : ℕ)
    → Distinct (xs ++ (a, v) ∷ ys)
    → has b (xs ++ (a, v) ∷ ys) ≡ false
    → Distinct (xs ++ (b, w) ∷ ys) × (has b ys ≡ false)
Distinct-swap [] ys a v b w d out = ((ground arith, d.1), ground arith)
Distinct-swap ((c, u) ∷ xs) ys a v b w d out =
    let (rest, behind) = Distinct-swap xs ys a v b w d.1 (ground arith) in
    ((ground (arith, has-append c xs ((a, v) ∷ ys), has-append c xs ((b, w) ∷ ys)), rest), behind)

module _ (h : Cells) (start c v size : ℕ) (fits : size + hdrsize ≤ v) where
  abbrev new : ℕ
  new = c + hdrsize + size

  abbrev left : ℕ
  left = v - size - hdrsize

  -- What is left of the block takes its place in the list.
  carve-IsFree :
      (pre post : Items)
      → IsFree h start (pre ++ (c, v) ∷ post)
      → has new (pre ++ (c, v) ∷ post) ≡ false
      → new ≢ 0
      → IsFree
          (carve h start (prev_of pre) c size).0
          (carve h start (prev_of pre) c size).1
          (pre ++ (new, left) ∷ post)
  unfolding carve
  carve-IsFree [] post is out pos =
      let (swapped, behind) = Distinct-swap [] post c v new left is.distinct out in
      let cell_new = cell ((h c).value - size - hdrsize) (h c).next in
      let kept = Seg-write post h (h c).next 0 new cell_new behind is.chain.2 in
      let own : write (write h new cell_new) c (cell size (canary c)) new ≡ cell left (h c).next =
        ground (arith, is.chain.1) in
      record {
        chain = (
          refl,
          ap (λ t. t.value) own,
          rw own (Seg-write post _ (h c).next 0 c _ is.distinct.0 kept),
        );
        some_block = ground (arith, is.some_block);
        distinct = swapped;
      }
  carve-IsFree (x ∷ xs) post is out pos =
      let (swapped, behind) = Distinct-swap (x ∷ xs) post c v new left is.distinct out in
      let (all, front_distinct, c_front, c_post) = Distinct-drop (x ∷ xs) post c v is.distinct in
      let (mid, front, back) = Seg-split (x ∷ xs) ((c, v) ∷ post) h start 0 is.chain in
      let cell_new = cell ((h c).value - size - hdrsize) (h c).next in
      let p = last (x ∷ xs) in
      let rest = write h new cell_new in
      let whole = has-append new (x ∷ xs) ((c, v) ∷ post) in
      let new_front : has new (x ∷ xs) ≡ false = ground arith in
      let front' =
        Seg-link_last x xs rest start mid new
          (Seg-write (x ∷ xs) h start mid new cell_new new_front front) front_distinct in
      let front'' =
        Seg-write (x ∷ xs) (set_next rest p new) start new c (cell size (canary c)) c_front
          front' in
      let kept = Seg-write post h (h c).next 0 new cell_new behind back.2 in
      let kept' =
        Seg-write post rest (h c).next 0 p (cell (rest p).value new) (last_apart x xs post all)
          kept in
      let kept'' =
        Seg-write post (set_next rest p new) (h c).next 0 c (cell size (canary c)) c_post kept' in
      let g = write (set_next rest p new) c (cell size (canary c)) in
      let own : g new ≡ cell left (h c).next = ground (arith, back.1, has-last x xs) in
      record {
        chain =
            Seg-append (x ∷ xs) ((new, left) ∷ post) g start new 0 front''
              (refl, ap (λ t. t.value) own, rw own kept'');
        some_block = ground (
          arith,
          is.some_block,
          has-append 0 (x ∷ xs) ((c, v) ∷ post),
          has-append 0 (x ∷ xs) ((new, left) ∷ post),
        );
        distinct = swapped;
      }

  fit_loop_pass :
      (fuel n : ℕ) (prev : Option ℕ)
      → n ≢ 0
      → (h n).value < size + hdrsize
      → fit_loop (suc fuel) h start prev n size ≡ fit_loop fuel h start (some n) (h n).next size
  unfolding fit_loop
  fit_loop_pass fuel n prev pos small = ground arith

  fit_loop_found :
      (fuel : ℕ) (prev : Option ℕ)
      → c ≢ 0
      → (h c).value ≡ v
      → fit_loop (suc fuel) h start prev c size
        ≡ done (some (c + hdrsize, (carve h start prev c size).0, (carve h start prev c size).1))
  unfolding fit_loop
  fit_loop_found fuel prev pos here = ground arith

-- The walk passes blocks that are too small.
fit_loop-walk :
    (h : Cells) (start size : ℕ) (pre past : Items) (fuel n stop : ℕ)
    → Seg h n pre stop
    → has 0 pre ≡ false
    → AllSmaller (size + hdrsize) pre
    → fit_loop (length pre + fuel) h start (prev_of past) n size
      ≡ fit_loop fuel h start (prev_of (past ++ pre)) stop size
fit_loop-walk h start size [] past fuel n stop s out small =
    let e : 0 + fuel ≡ fuel = omega arith in rw (e, append-nil, s) refl
fit_loop-walk h start size ((c, w) ∷ pre) past fuel n stop s out small =
    let e : suc (length pre) + fuel ≡ suc (length pre + fuel) = omega arith in
    let low : (h c).value < size + hdrsize = omega (arith, s.1, small.0) in
    let first =
      fit_loop_pass h start c (size + hdrsize) size (le_refl _) (length pre + fuel) c (prev_of past)
        (ground arith) low in
    let rest =
      fit_loop-walk h start size pre (past ++ (c, w) ∷ []) fuel (h c).next stop s.2 (ground arith)
        small.1 in
    rw (e, s.0)
      (first
        ∙ ap (λ t. fit_loop (length pre + fuel) h start t (h c).next size)
            (sym (prev_of-append past c w))
        ∙ rest
        ∙ ap (λ t. fit_loop fuel h start (prev_of t) stop size)
            (append_assoc past ((c, w) ∷ []) pre))

carve_block :
    (h : Cells) (start size c : ℕ) (prev : Option ℕ)
    → (carve h start prev c size).0 c ≡ cell size (canary c)
unfolding carve
carve_block h start size c none = ground arith
carve_block h start size c (some p) = ground arith

-- The result of a `kalloc` that cuts the block `c`, of size `v`, to `n`.
pub record IsCut (s : Heap) (c v n : ℕ) (pre post : Items) (r : Exec (ℕ × Heap)) : Type 0 where
  pub state : Heap
  pub returns : r ≡ done (c + hdrsize, state)
  pub block : state.pages.heap c ≡ cell n (canary c)
  pub free : IsFree state.pages.heap state.start (pre ++ (c + hdrsize + n, v - n - hdrsize) ∷ post)
  pub pools : state.pages.pools ≡ s.pages.pools

-- Let the free list hold a block `c` of size `v` that has room for the aligned request and a
-- header, and before it only blocks that have not, and let no free block start where the rest of
-- `c` will. Then kalloc returns the data of `c`: its header has the aligned size and the canary, the
-- rest of the block takes its place in the list, and the pools of pages stay as they are.
pub kalloc-IsCut :
    (s : Heap) (c v size fuel : ℕ) (pre post : Items)
    → IsFree s.pages.heap s.start (pre ++ (c, v) ∷ post)
    → AllSmaller (align_up size + hdrsize) pre
    → align_up size + hdrsize ≤ v
    → has (c + hdrsize + align_up size) (pre ++ (c, v) ∷ post) ≡ false
    → IsCut s c v (align_up size) pre post (kalloc (length pre + suc fuel) s size)
unfolding kalloc
kalloc-IsCut s c v size fuel pre post is small fits out =
    let n = align_up size in
    let h = s.pages.heap in
    let (mid, front, back) = Seg-split pre ((c, v) ∷ post) h s.start 0 is.chain in
    let nonzero : (has 0 pre || has 0 ((c, v) ∷ post)) ≡ false =
      sym (has-append 0 pre ((c, v) ∷ post)) ∙ is.some_block in
    let walk =
      fit_loop-walk h s.start n pre [] (suc fuel) s.start c
        (subst (λ t. Seg h s.start pre t) back.0 front) (ground arith) small in
    let found = fit_loop_found h s.start c v n fits fuel (prev_of pre) (ground arith) back.1 in
    let (g, start) = carve h s.start (prev_of pre) c n in
    record {
      state = record { pages = record s.pages { heap = g }; start = start };
      returns = rw (walk ∙ found) refl;
      block = carve_block h s.start n c (prev_of pre);
      free = carve-IsFree h s.start c v n fits pre post is out (omega arith);
      pools = refl;
    }
