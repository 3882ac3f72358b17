-- ===== src/PageAlloc/Alloc.antt =====
-- `page_alloc`: the first block that fits, and the free list that stays.
use mathlib.Core.List.{append_assoc}
use mathlib.Core.Path.{subst}
use native.Mathlib.Nat.{pow-le-pow_right, le_refl}
use silkware.Base.{
  ℕ, zero, suc, ◌+◌, ◌*◌, ◌^◌, ◌≤◌, ◌<◌, ◌≡◌, refl, ap, ◌∙◌, inl, inr, Option, none, some, [], ◌∷◌,
  ◌++◌, arith, length, false, lt→ltb, le→leb, lt→leb,
}
use silkware.Base.Exec.{Exec, done}
use silkware.Links.{Cells, set_next, Items, Seg, has, Seg-append, Seg-write, Seg-split}
use silkware.PageAlloc.{Pool, Scan, taken, not_found, relink, scan_pool, split}
use silkware.PageAlloc.Order.{
  Ordered, Ordered-le, Ordered-weaken, Ordered-append, Ordered-split, not-has-Ordered, SameOutside,
  Seg-SameOutside, Passed, Passed-next, AllBuddies,
}
use silkware.PageAlloc.Split.{halves, halves-Ordered, split-IsSplit}

relink_some :
    (h : Cells) (start cur q stop lo mid hi p v : ℕ) (ys zs : Items)
    → Seg h start (ys ++ (p, v) ∷ []) cur
    → Ordered lo (ys ++ (p, v) ∷ []) mid
    → Ordered mid zs hi
    → Seg h q zs stop
    → Seg (set_next h p q) start ((ys ++ (p, v) ∷ []) ++ zs) stop
      × SameOutside lo mid h (set_next h p q)
relink_some h start cur q stop lo mid hi p v ys zs t o r s =
    let (m, before, here) = Ordered-split lo mid ys _ o in
    let (m', front, last) = Seg-split ys _ h start cur t in
    let g = set_next h p q in
    let not_front = not-has-Ordered lo m ys p before (inr here.0) in
    let not_back : has p zs ≡ false = not-has-Ordered mid hi zs p r (inl (omega arith)) in
    let front' : Seg g start ys m' = Seg-write ys h start m' p _ not_front front in
    let back' : Seg g q zs stop = Seg-write zs h q stop p _ not_back s in
    let last' : Seg g m' ((p, v) ∷ []) q = ground arith in
    (
      Seg-append (ys ++ (p, v) ∷ []) zs g start q stop
          (Seg-append ys ((p, v) ∷ []) g start m' q front' last') back',
      λ a out. ground (arith, Ordered-le lo m ys before),
    )

-- Linking `q` behind the passed blocks makes one list of them and of the list at `q`.
pub relink-Seg :
    (h : Cells) (start cur q stop lo mid hi : ℕ) (prev : Option ℕ) (xs zs : Items)
    → Passed h start prev xs cur
    → Ordered lo xs mid
    → Ordered mid zs hi
    → Seg h q zs stop
    → Seg (relink h start prev q).0 (relink h start prev q).1 (xs ++ zs) stop
      × SameOutside lo mid h (relink h start prev q).0
unfolding relink
relink-Seg h start cur q stop lo mid hi none xs zs (e, f) o p s = (rw e s, λ a out. refl)
relink-Seg h start cur q stop lo mid hi (some p) xs zs (ys, v, e, t) o r s =
    rw e (relink_some h start cur q stop lo mid hi p v ys zs (rw e at t) (rw e at o) r s)

-- Passed blocks stay passed under a change beyond them.
pub Passed-SameOutside :
    (h g : Cells) (start cur lo mid hi base : ℕ) (prev : Option ℕ) (xs : Items)
    → SameOutside lo hi h g
    → Ordered base xs mid
    → mid ≤ lo
    → Passed h start prev xs cur
    → Passed g start prev xs cur
Passed-SameOutside h g start cur lo mid hi base none xs same o le past = past
Passed-SameOutside h g start cur lo mid hi base (some p) xs same o le (ys, v, e, t) =
    (ys, v, e, Seg-SameOutside xs h g start cur base mid lo hi same o (inl le) t)

abbrev pub AllBelow : ℕ → Items → Type 0
AllBelow n [] = Unit
AllBelow n ((a, v) ∷ xs) = (v < n) × AllBelow n xs

-- The pool's free list `xs`: linked from `start` to the pool's end, in address order, of aligned
-- blocks.
pub record IsPool (h : Cells) (pool : Pool) (xs : Items) : Type 0 where
  pub chain : Seg h pool.start xs pool.end
  pub ordered : Ordered pool.base xs pool.end
  pub buddies : AllBuddies pool.base xs

-- A successful scan that took `b`: the new headers and start, with the free list that they hold.
pub record IsTaken (h : Cells) (pool : Pool) (b sz : ℕ) (rest : Items) (r : Exec Scan)
    : Type 0 where
  pub heap : Cells
  pub start : ℕ
  pub returns : r ≡ done (taken b heap start)
  pub size : (heap b).value ≡ sz
  pub chain : Seg heap start rest pool.end
  pub same : SameOutside pool.base pool.end h heap

-- A block that is too small is passed.
scan_pool-skip :
    (pool : Pool) (fuel : ℕ) (h : Cells) (prev : Option ℕ) (c sz : ℕ)
    → c < pool.end
    → (h c).value < sz
    → scan_pool (suc fuel) h pool prev c sz ≡ scan_pool fuel h pool (some c) (h c).next sz
unfolding scan_pool
scan_pool-skip pool fuel h prev c sz inside low = rw (lt→ltb _ _ inside, lt→leb _ _ low)

module _ (pool : Pool) (b j d q : ℕ) (small : d < 65) (at : b ≡ pool.base + q * 2 ^ (d + j))
    (post : Items) where
  -- The walk stands at the block that is taken.
  take_here :
      (fuel : ℕ) (h : Cells) (prev : Option ℕ) (past : Items) (mid cur : ℕ)
      → Passed h pool.start prev past cur
      → Ordered pool.base past mid
      → Seg h cur ((b, 2 ^ (d + j)) ∷ post) pool.end
      → Ordered mid ((b, 2 ^ (d + j)) ∷ post) pool.end
      → IsTaken h pool b
          (2 ^ j)
          (past ++ (halves b j d ++ post))
          (scan_pool (suc fuel) h pool prev cur (2 ^ j))
  unfolding scan_pool
  take_here fuel h prev past mid cur pd o s r =
      let le = Ordered-le (b + 2 ^ (d + j)) pool.end post r.2 in
      let fits : 2 ^ j ≤ (h cur).value = rw s.0 (
        omega
          (arith, s.1, pow-le-pow_right {n = 2} (omega arith) {i = j} {j = d + j} (omega arith))) in
      let inside : cur < pool.end = omega (arith, r.1, le, s.0) in
      let (g, run, sp) = split-IsSplit h b pool.base j d q small s.1 at in
      let run' : split h cur (2 ^ j) pool.base ≡ done g = rw s.0 run in
      let zs = halves b j d ++ post in
      let tail : Seg g (h b).next post pool.end =
        Seg-SameOutside post h g (h b).next pool.end (b + 2 ^ (d + j)) pool.end b (b + 2 ^ (d + j))
          sp.same r.2 (inr (le_refl _)) s.2 in
      let pieces : Seg g (g b).next zs pool.end =
        Seg-append (halves b j d) post g (g b).next (h b).next pool.end sp.pieces tail in
      let sorted : Ordered mid zs pool.end =
        Ordered-weaken mid (b + 2 ^ j) pool.end zs (omega (arith, r.0)) (
          Ordered-append (b + 2 ^ j) (b + 2 ^ (d + j)) pool.end (halves b j d) post
            (halves-Ordered b j d) r.2) in
      let pd' : Passed g pool.start prev past cur =
        Passed-SameOutside h g pool.start cur b mid (b + 2 ^ (d + j)) pool.base prev past sp.same o
          r.0 pd in
      let (linked, kept) =
        relink-Seg g pool.start cur (g b).next pool.end pool.base mid pool.end prev past zs pd' o
          sorted pieces in
      let g' = (relink g pool.start prev (g b).next).0 in
      let same_b : g' b ≡ g b = kept b (inr r.0) in
      record {
        heap = g';
        start = (relink g pool.start prev (g b).next).1;
        returns =
            rw (lt→ltb _ _ inside, le→leb _ _ fits, run')
              (ap
                (λ c. done (
                  taken c (relink g pool.start prev (g c).next).0
                    (relink g pool.start prev (g c).next).1))
                s.0);
        size = rw same_b sp.size;
        chain = linked;
        same = λ a out.
            let base_le = Ordered-le pool.base mid past o in
            kept a (ground arith) ∙ sp.same a (ground arith);
      }

  -- The walk passes the blocks of `pre`, which are too small, and takes `b`.
  pub scan_pool-IsTaken :
      (pre : Items) (fuel : ℕ) (h : Cells) (prev : Option ℕ) (past : Items) (mid cur : ℕ)
      → length pre < fuel
      → AllBelow (2 ^ j) pre
      → Passed h pool.start prev past cur
      → Ordered pool.base past mid
      → Seg h cur (pre ++ (b, 2 ^ (d + j)) ∷ post) pool.end
      → Ordered mid (pre ++ (b, 2 ^ (d + j)) ∷ post) pool.end
      → IsTaken h pool b
          (2 ^ j)
          (past ++ (pre ++ (halves b j d ++ post)))
          (scan_pool fuel h pool prev cur (2 ^ j))
  scan_pool-IsTaken pre zero h prev past mid cur f lows pd o s r = absurd (omega arith)
  scan_pool-IsTaken [] (suc fuel) h prev past mid cur f lows pd o s r =
      take_here fuel h prev past mid cur pd o s r
  scan_pool-IsTaken ((c, v) ∷ pre) (suc fuel) h prev past mid cur f lows pd o s r =
      let zs = halves b j d ++ post in
      let pd' =
        Passed-next h pool.start c v prev past (subst (λ x. Passed h pool.start prev past x) s.0 pd)
          s.1 in
      let o' : Ordered pool.base (past ++ (c, v) ∷ []) (c + v) =
        Ordered-append pool.base mid (c + v) past _ o (r.0, r.1, le_refl _) in
      let rest =
        scan_pool-IsTaken pre fuel h (some c) (past ++ (c, v) ∷ []) (c + v) (h c).next (omega arith)
          lows.1 pd' o' s.2 r.2 in
      let inside : c < pool.end = omega (arith, r.1, Ordered-le (c + v) pool.end _ r.2) in
      let skip = scan_pool-skip pool fuel h prev c (2 ^ j) inside (omega (arith, s.1, lows.0)) in
      subst (λ l. IsTaken h pool b (2 ^ j) l (scan_pool (suc fuel) h pool prev cur (2 ^ j)))
        (append_assoc past ((c, v) ∷ []) (pre ++ zs)) (rw (s.0, skip) rest)

-- A scan over blocks that are all too small finds nothing.
pub scan_pool-not_found :
    (pool : Pool) (sz : ℕ) (xs : Items) (fuel : ℕ) (h : Cells) (prev : Option ℕ) (lo cur : ℕ)
    → length xs < fuel
    → AllBelow sz xs
    → Seg h cur xs pool.end
    → Ordered lo xs pool.end
    → scan_pool fuel h pool prev cur sz ≡ done not_found
scan_pool-not_found pool sz xs zero h prev lo cur f lows s o = absurd (omega arith)
scan_pool-not_found pool sz [] (suc fuel) h prev lo cur f lows s o =
    unfold scan_pool in rw s (ground arith)
scan_pool-not_found pool sz ((c, v) ∷ xs) (suc fuel) h prev lo cur f lows s o =
    let inside : c < pool.end = omega (arith, o.1, Ordered-le (c + v) pool.end xs o.2) in
    rw (s.0, scan_pool-skip pool fuel h prev c sz inside (omega (arith, s.1, lows.0)))
      (scan_pool-not_found pool sz xs fuel h (some c) (c + v) (h c).next (omega arith) lows.1 s.2
        o.2)
