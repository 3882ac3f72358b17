-- ===== src/Sched/Remove.antt =====
-- `queue_tryremove` on one list.
use mathlib.Core.List.{append-nil, append_assoc}
use mathlib.Core.Path.{subst}
use silkware.Base.{
  ℕ, suc, ◌+◌, ◌≡◌, ◌≢◌, refl, sym, ap, ◌∙◌, true, false, ◌||◌, Option, none, some, [], ◌∷◌, ◌++◌,
  arith, ◌==◌, if◌then◌else◌, length,
}
use silkware.Base.Exec.{Exec, done}
use silkware.Links.{Cells, set_next, Items, Seg, has, has-append, Seg-write, Seg-append, Seg-split}
use silkware.Sched.{unlink, remove_loop}
use silkware.Links.Last.{
  last, has-last, Seg-link_last, prev_of, last-append_cons, prev_of-append, Distinct-drop,
  last_apart,
}
use silkware.Sched.Fifo.{IsFifo, final_after}

final_without :
    (xs ys : Items) (p a v end : ℕ)
    → end ≡ last (xs ++ (a, v) ∷ ys)
    → has a ys ≡ false
    → last xs ≡ p
    → (if end == a then p else end) ≡ last (xs ++ ys)
final_without xs [] p a v end e out l =
    let at : end ≡ a = e ∙ last-append_cons xs (a, v) [] in
    let same : (end == a) ≡ true = ground arith in rw (same, append-nil) (sym l)
final_without xs (y ∷ ys) p a v end e out l =
    let at : end ≡ last (y ∷ ys) = e ∙ last-append_cons xs (a, v) (y ∷ ys) in
    let other : (end == a) ≡ false = ground (arith, has-last y ys) in
    rw other (at ∙ sym (last-append_cons xs y ys))

-- No node of the list has the pid.
abbrev pub AllOther : ℕ → Items → Type 0
AllOther pid [] = Unit
AllOther pid ((_, v) ∷ xs) = (v ≢ pid) × AllOther pid xs

module _ (h : Cells) (start end a v : ℕ) where
  unlink-IsFifo :
      (pre post : Items)
      → IsFifo h start end (pre ++ (a, v) ∷ post)
      → IsFifo
          (unlink h start end (prev_of pre) a).0
          (unlink h start end (prev_of pre) a).1
          (unlink h start end (prev_of pre) a).2
          (pre ++ post)
  unfolding unlink
  unlink-IsFifo [] post is = record {
    chain = is.chain.2;
    final = final_after post a v end is.final is.distinct.0;
    some_node = ground (arith, is.some_node);
    distinct = is.distinct.1;
  }
  unlink-IsFifo (x ∷ xs) post is =
      let (all, front_distinct, _, out) = Distinct-drop (x ∷ xs) post a v is.distinct in
      let (mid, front, back) = Seg-split (x ∷ xs) ((a, v) ∷ post) h start 0 is.chain in
      let p = last (x ∷ xs) in
      let linked = Seg-link_last x xs h start mid (h a).next front front_distinct in
      let kept = Seg-write post h (h a).next 0 p _ (last_apart x xs post all) back.2 in
      record {
        chain = Seg-append (x ∷ xs) post (set_next h p (h a).next) start (h a).next 0 linked kept;
        final = final_without (x ∷ xs) post p a v end is.final out refl;
        some_node = ground (
          arith,
          is.some_node,
          has-append 0 (x ∷ xs) ((a, v) ∷ post),
          has-append 0 (x ∷ xs) post,
        );
        distinct = all;
      }

  unlink-same :
      (pre post : Items) (b : ℕ)
      → has b (pre ++ (a, v) ∷ post) ≡ false
      → (unlink h start end (prev_of pre) a).0 b ≡ h b
  unfolding unlink
  unlink-same [] post b out = refl
  unlink-same (x ∷ xs) post b out =
      ground (arith, has-append b (x ∷ xs) ((a, v) ∷ post), has-last x xs)

  remove_loop_pass :
      (fuel n : ℕ) (prev : Option ℕ)
      → n ≢ 0
      → (h n).value ≢ v
      → remove_loop (suc fuel) h start end prev n v
        ≡ remove_loop fuel h start end (some n) (h n).next v
  unfolding remove_loop
  remove_loop_pass fuel n prev pos other = ground arith

  remove_loop_found :
      (fuel : ℕ) (prev : Option ℕ)
      → a ≢ 0
      → (h a).value ≡ v
      → remove_loop (suc fuel) h start end prev a v ≡ done (some (unlink h start end prev a))
  unfolding remove_loop
  remove_loop_found fuel prev pos here = ground arith

  -- The walk passes nodes of other pids.
  remove_loop-walk :
      (pre past : Items) (fuel n stop : ℕ)
      → Seg h n pre stop
      → has 0 pre ≡ false
      → AllOther v pre
      → remove_loop (length pre + fuel) h start end (prev_of past) n v
        ≡ remove_loop fuel h start end (prev_of (past ++ pre)) stop v
  remove_loop-walk [] past fuel n stop s out others =
      let e : 0 + fuel ≡ fuel = omega arith in rw (e, append-nil, s) refl
  remove_loop-walk ((c, w) ∷ pre) past fuel n stop s out others =
      let e : suc (length pre) + fuel ≡ suc (length pre + fuel) = omega arith in
      let other : (h c).value ≢ v = ground (arith, s.1) in
      let first = remove_loop_pass (length pre + fuel) c (prev_of past) (ground arith) other in
      let rest =
        remove_loop-walk pre (past ++ (c, w) ∷ []) fuel (h c).next stop s.2 (ground arith)
          others.1 in
      rw (e, s.0)
        (first
          ∙ ap (λ t. remove_loop (length pre + fuel) h start end t (h c).next v)
              (sym (prev_of-append past c w))
          ∙ rest
          ∙ ap (λ t. remove_loop fuel h start end (prev_of t) stop v)
              (append_assoc past ((c, w) ∷ []) pre))

-- The list `xs`, after `remove_loop` on the list `whole`; the other nodes are as they were.
pub record IsRemoved (h : Cells) (whole xs : Items) (r : Exec (Option (Cells × ℕ × ℕ)))
    : Type 0 where
  pub heap : Cells
  pub start : ℕ
  pub end : ℕ
  pub returns : r ≡ done (some (heap, start, end))
  pub fifo : IsFifo heap start end xs
  pub same : (b : ℕ) → has b whole ≡ false → heap b ≡ h b

-- Where a queue holds a node of the pid, and none before it, queue_tryremove's loop over that queue
-- ends with that node unlinked, and the other nodes in their order.
pub remove_loop-IsRemoved :
    (h : Cells) (start end a pid fuel : ℕ) (pre post : Items)
    → IsFifo h start end (pre ++ (a, pid) ∷ post)
    → AllOther pid pre
    → IsRemoved h
        (pre ++ (a, pid) ∷ post)
        (pre ++ post)
        (remove_loop (length pre + suc fuel) h start end none start pid)
remove_loop-IsRemoved h start end a pid fuel pre post is others =
    let (mid, front, back) = Seg-split pre ((a, pid) ∷ post) h start 0 is.chain in
    let out : (has 0 pre || has 0 ((a, pid) ∷ post)) ≡ false =
      sym (has-append 0 pre ((a, pid) ∷ post)) ∙ is.some_node in
    let at : mid ≡ a = back.0 in
    let walk =
      remove_loop-walk h start end a pid pre [] (suc fuel) start a
        (subst (λ t. Seg h start pre t) at front) (ground arith) others in
    let found = remove_loop_found h start end a pid fuel (prev_of pre) (ground arith) back.1 in
    record {
      heap = (unlink h start end (prev_of pre) a).0;
      start = (unlink h start end (prev_of pre) a).1;
      end = (unlink h start end (prev_of pre) a).2;
      returns = walk ∙ found;
      fifo = unlink-IsFifo h start end a pid pre post is;
      same = unlink-same h start end a pid pre post;
    }

-- Where a queue holds no node of the pid, the loop finds none, and changes nothing.
pub remove_loop-none :
    (h : Cells) (start end pid fuel : ℕ) (xs : Items)
    → IsFifo h start end xs
    → AllOther pid xs
    → remove_loop (length xs + suc fuel) h start end none start pid ≡ done none
unfolding remove_loop
remove_loop-none h start end pid fuel xs is others =
    remove_loop-walk h start end 0 pid xs [] (suc fuel) start 0 is.chain is.some_node others ∙ refl
