-- ===== src/Kalloc/Insert.antt =====
-- `insert_block` on a list whose blocks behind the first lie above the new one.
use silkware.Base.{
  ℕ, suc, ◌+◌, ◌<◌, ◌≡◌, ◌≢◌, refl, ap, ◌∙◌, true, false, [], ◌∷◌, ◌++◌, arith, length, ◌==◌, ltb,
}
use silkware.Base.Exec.{Exec, done}
use silkware.Links.{Cells, cell, set_next, Items, Seg, has, has-append, Seg-write, Seg-append}
use silkware.Links.Last.{last, has-last, Seg-link_last, Distinct-append}
use silkware.Kalloc.{hdrsize, insert_loop, insert_between, insert_block}
use silkware.Kalloc.Fit.{IsFree}

-- Every block lies above `n`.
abbrev pub AllAbove : ℕ → Items → Type 0
AllAbove n [] = Unit
AllAbove n ((a, _) ∷ xs) = (n < a) × AllAbove n xs

insert_loop-walk :
    (xs : Items) (h : Cells) (new p w cur fuel : ℕ)
    → Seg h cur xs 0
    → AllAbove new xs
    → insert_loop (length xs + suc fuel) h new p cur ≡ done (last ((p, w) ∷ xs), 0)
unfolding insert_loop
insert_loop-walk [] h new p w cur fuel s above =
    let e : 0 + suc fuel ≡ suc fuel = omega arith in rw e (ground arith)
insert_loop-walk ((a, v) ∷ xs) h new p w cur fuel s above =
    let e : suc (length xs) + suc fuel ≡ suc (length xs + suc fuel) = omega arith in
    let lower : ltb new a ≡ true = ground arith in
    let rest = insert_loop-walk xs h new a v (h a).next fuel s.2 above.1 in rw (e, s.0, lower) rest

-- The result of `insert_block`: the free list `xs`.
pub record IsInserted (xs : Items) (r : Exec (Cells × ℕ)) : Type 0 where
  pub heap : Cells
  pub start : ℕ
  pub returns : r ≡ done (heap, start)
  pub free : IsFree heap start xs

insert_between_end :
    (h : Cells) (start p new : ℕ)
    → new ≢ 0
    → p ≢ new
    → p + hdrsize + (h p).value ≢ new
    → insert_between h start p new 0 ≡ done (set_next (set_next h p new) new 0, start)
unfolding insert_between
insert_between_end h start p new pos ne gap = ground arith

-- Let `new`, with size `n`, lie below every block behind the first of the free list, and let it not
-- be in the list nor follow the list's last block in memory. Then insert_block puts it at the end
-- of the list, since its loop goes on while `new` is below the block that it stands at: when the
-- list was in address order and has a second block, it is no longer.
pub insert_block-IsInserted_end :
    (h : Cells) (start new n a v fuel : ℕ) (xs : Items)
    → IsFree h start ((a, v) ∷ xs)
    → (h new).value ≡ n
    → new ≢ 0
    → has new ((a, v) ∷ xs) ≡ false
    → AllAbove new xs
    → last ((a, v) ∷ xs) + hdrsize + (h (last ((a, v) ∷ xs))).value ≢ new
    → IsInserted (((a, v) ∷ xs) ++ (new, n) ∷ []) (insert_block (length xs + suc fuel) h start new)
unfolding insert_block
insert_block-IsInserted_end h start new n a v fuel xs is size pos out above gap =
    let p = last ((a, v) ∷ xs) in
    let some_start : (start == 0) ≡ false = ground (arith, is.some_block, is.chain) in
    let tail : Seg h (h start).next xs 0 = rw (is.chain.0) is.chain.2 in
    let walk = insert_loop-walk xs h new start v (h start).next fuel tail above in
    let walked : insert_loop (length xs + suc fuel) h new start (h start).next ≡ done (p, 0) =
      walk ∙ ap (λ (t : ℕ). done (last ((t, v) ∷ xs), 0)) is.chain.0 in
    let ne : p ≢ new = ground (arith, has-last (a, v) xs) in
    let linked = Seg-link_last (a, v) xs h start 0 new is.chain is.distinct in
    let g = set_next h p new in
    let kept = Seg-write ((a, v) ∷ xs) g start new new (cell (g new).value 0) out linked in
    let own : set_next g new 0 new ≡ cell n 0 = ground arith in
    record {
      heap = set_next g new 0;
      start = start;
      returns = rw (some_start, walked) (insert_between_end h start p new pos ne gap);
      free = record {
        chain =
            Seg-append ((a, v) ∷ xs) ((new, n) ∷ []) (set_next g new 0) start new 0 kept
              (refl, ap (λ t. t.value) own, ap (λ t. t.next) own);
        some_block = ground (arith, is.some_block, has-append 0 ((a, v) ∷ xs) ((new, n) ∷ []));
        distinct = Distinct-append ((a, v) ∷ xs) new n is.distinct out;
      };
    }
