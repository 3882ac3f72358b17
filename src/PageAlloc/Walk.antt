-- ===== src/PageAlloc/Walk.antt =====
-- The walk of `page_free` over the blocks below the page, and its two ends.
use mathlib.Core.List.{append_assoc, append-nil}
use mathlib.Core.Path.{subst}
use silkware.Base.{
  ℕ, suc, ◌+◌, ◌≤◌, ◌<◌, ◌≡◌, ◌≢◌, ◌∙◌, false, Option, some, [], ◌∷◌, ◌++◌, arith, length,
}
use silkware.Base.Exec.{Exec, done}
use silkware.Links.{Cells, Items, Seg, has}
use silkware.PageAlloc.{Pool, get_buddy, merge, insert_page, free_loop}
use silkware.PageAlloc.Order.{Ordered, Ordered-le, Passed, Passed-next}

module _ (h : Cells) (pool : Pool) (page : ℕ) where
  abbrev pub buddy : ℕ
  buddy = get_buddy h page pool.base

  -- A block that is not the buddy and lies at or below the page is passed.
  free_loop-skip :
      (fuel : ℕ) (prev : Option ℕ) (c : ℕ)
      → c ≢ buddy
      → c ≤ page
      → c ≢ pool.end
      → free_loop (suc fuel) h pool page prev c ≡ free_loop fuel h pool page (some c) (h c).next
  unfolding free_loop
  free_loop-skip fuel prev c ne le before = ground arith

  -- What the walk over `pre` leads to.
  pub record IsWalked (fuel cur : ℕ) (past : Items) (r : Exec (Cells × ℕ)) : Type 0 where
    pub prev : Option ℕ
    pub passed : Passed h pool.start prev past cur
    pub same : r ≡ free_loop fuel h pool page prev cur

  pub free_loop-walk :
      (pre past : Items) (fuel mid mid' : ℕ) (prev : Option ℕ) (cur cur' : ℕ)
      → Passed h pool.start prev past cur
      → Seg h cur pre cur'
      → Ordered mid pre mid'
      → mid' ≤ page
      → page ≤ pool.end
      → has buddy pre ≡ false
      → IsWalked fuel cur' (past ++ pre) (free_loop (length pre + fuel) h pool page prev cur)
  free_loop-walk [] past fuel mid mid' prev cur cur' pd s o le below apart =
      let e : 0 + fuel ≡ fuel = omega arith in
      record {
        prev = prev;
        passed = rw append-nil (subst (λ x. Passed h pool.start prev past x) s pd);
        same = rw (e, s);
      }
  free_loop-walk ((c, v) ∷ pre) past fuel mid mid' prev cur cur' pd s o le below apart =
      let top = Ordered-le (c + v) mid' pre o.2 in
      let pd' =
        Passed-next h pool.start c v prev past (subst (λ x. Passed h pool.start prev past x) s.0 pd)
          s.1 in
      let rest =
        free_loop-walk pre (past ++ (c, v) ∷ []) fuel (c + v) mid' (some c) (h c).next cur' pd' s.2
          o.2 le below (ground arith) in
      let skip =
        free_loop-skip (length pre + fuel) prev c (ground arith) (omega arith) (omega arith) in
      let e : suc (length pre) + fuel ≡ suc (length pre + fuel) = omega arith in
      record {
        prev = rest.prev;
        passed =
            subst (λ l. Passed h pool.start rest.prev l cur') (append_assoc past ((c, v) ∷ []) pre)
              rest.passed;
        same = rw (e, s.0) (skip ∙ rest.same);
      }

  -- The loop's two ways to end in a well-formed list.
  pub free_loop-insert :
      (fuel : ℕ) (prev : Option ℕ) (cur : ℕ)
      → cur ≢ buddy
      → page < cur
      → free_loop (suc fuel) h pool page prev cur ≡ done (insert_page h pool.start page prev cur)
  unfolding free_loop
  free_loop-insert fuel prev cur ne lt = ground arith

  pub free_loop-merge :
      (fuel : ℕ) (prev : Option ℕ) (cur : ℕ)
      → cur ≡ buddy
      → free_loop (suc fuel) h pool page prev cur ≡ done (merge h pool.start page prev cur)
  unfolding free_loop
  free_loop-merge fuel prev cur e = ground arith
