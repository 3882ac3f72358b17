-- ===== src/Sched/Fifo.antt =====
-- One list of a run queue as a first-in-first-out queue.
use silkware.Base.{
  ℕ, ◌≡◌, ◌≢◌, refl, sym, ap, true, false, [], ◌∷◌, ◌++◌, arith, ◌==◌, if◌then◌else◌,
}
use silkware.Links.{
  Cells, cell, set_next, Items, Seg, has, Distinct, Seg-write, Seg-append, has-append,
}
use silkware.Links.Last.{last, last-append, has-last, Seg-link_last, Distinct-append}
use silkware.Sched.{link_last}

-- The list from `start` to `end` holds the nodes `xs`, which are distinct and not NULL.
pub record IsFifo (h : Cells) (start end : ℕ) (xs : Items) : Type 0 where
  pub chain : Seg h start xs 0
  pub final : end ≡ last xs
  pub some_node : has 0 xs ≡ false
  pub distinct : Distinct xs

-- What `link_last` leaves: the queue with the node behind it, and all other nodes as they were.
pub record IsLinked (h : Cells) (xs : Items) (new v : ℕ) (r : Cells × ℕ × ℕ) : Type 0 where
  pub fifo : IsFifo r.0 r.1 r.2 (xs ++ (new, v) ∷ [])
  pub same : (a : ℕ) → has a xs ≡ false → r.0 a ≡ h a

-- Linking a fresh node behind a queue appends it.
pub link_last-IsLinked :
    (h : Cells) (start end : ℕ) (xs : Items) (new v : ℕ)
    → IsFifo h start end xs
    → new ≢ 0
    → has new xs ≡ false
    → h new ≡ cell v 0
    → IsLinked h xs new v (link_last h start end new)
unfolding link_last
link_last-IsLinked h start end [] new v is ne out own =
    let s : start ≡ 0 = is.chain in
    let e : end ≡ 0 = is.final in
    rw (s, e)
      (record {
        fifo = record {
          chain = (refl, ap (λ c. c.value) own, ap (λ c. c.next) own);
          final = refl;
          some_node = ground arith;
          distinct = (refl, tt);
        };
        same = λ a out. refl;
      })
link_last-IsLinked h start end (x ∷ xs) new v is ne out own =
    let tail = last (x ∷ xs) in
    let at_end = has-last x xs in
    let pos : (tail == 0) ≡ false = ground (arith, is.some_node) in
    let first : (start == 0) ≡ false = ground (arith, is.some_node, is.chain) in
    let linked = Seg-link_last x xs h start 0 new is.chain is.distinct in
    let own' : set_next h tail new new ≡ cell v 0 = ground arith in
    let node : Seg (set_next h tail new) new ((new, v) ∷ []) 0 =
      (refl, ap (λ c. c.value) own', ap (λ c. c.next) own') in
    rw (is.final, first, pos)
      (record {
        fifo = record {
          chain = Seg-append (x ∷ xs) ((new, v) ∷ []) _ start new 0 linked node;
          final = sym (last-append (x ∷ xs) new v);
          some_node = ground (arith, has-append 0 (x ∷ xs) ((new, v) ∷ []), is.some_node);
          distinct = Distinct-append (x ∷ xs) new v is.distinct out;
        };
        same = λ a apart. ground arith;
      })

Seg-same :
    (xs : Items) (h g : Cells) (p stop : ℕ)
    → ((a : ℕ) → has a xs ≡ true → g a ≡ h a)
    → Seg h p xs stop
    → Seg g p xs stop
Seg-same [] h g p stop same s = s
Seg-same ((a, v) ∷ xs) h g p stop same s =
    let e : g a ≡ h a = same a (ground arith) in
    let rest = Seg-same xs h g (h a).next stop (λ b in_xs. same b (ground arith)) s.2 in
    (s.0, rw e s.1, rw e rest)

-- A queue does not see changes of other nodes.
pub IsFifo-same :
    (xs : Items) (h g : Cells) (start end : ℕ)
    → ((a : ℕ) → has a xs ≡ true → g a ≡ h a)
    → IsFifo h start end xs
    → IsFifo g start end xs
IsFifo-same xs h g start end same is = record {
  chain = Seg-same xs h g start 0 same is.chain;
  final = is.final;
  some_node = is.some_node;
  distinct = is.distinct;
}

pub final_after :
    (xs : Items) (a v end : ℕ)
    → end ≡ last ((a, v) ∷ xs)
    → has a xs ≡ false
    → (if end == a then 0 else end) ≡ last xs
final_after [] a v end e out = ground arith
final_after (x ∷ xs) a v end e out = ground (arith, has-last x xs)

-- Unlinking the first node, and clearing its `next`.
pub IsFifo-rest :
    (xs : Items) (h : Cells) (start end a v : ℕ)
    → IsFifo h start end ((a, v) ∷ xs)
    → IsFifo (set_next h a 0) (h a).next (if end == a then 0 else end) xs
IsFifo-rest xs h start end a v is = record {
  chain = Seg-write xs h (h a).next 0 a _ is.distinct.0 is.chain.2;
  final = final_after xs a v end is.final is.distinct.0;
  some_node = ground (arith, is.some_node);
  distinct = is.distinct.1;
}
