-- ===== src/Sched/Queues.antt =====
-- The run queues of a CPU as lists of nodes, by priority, and `push_unlocked`.
use silkware.Base.{
  ℕ, ◌<◌, ◌≡◌, ◌≢◌, inl, inr, true, false, ◌||◌, ◌&&◌, [], ◌∷◌, ◌++◌, arith, ◌==◌, Bool-cases,
}
use silkware.Links.{cell, Items, has, has-append}
use silkware.Sched.{assign, Queue, Run, link_last, push_unlocked}
use silkware.Sched.Fifo.{IsFifo, IsLinked, link_last-IsLinked, IsFifo-same}

-- The active lists hold `xs` and the inactive ones `ys`, by priority, and no node is in two lists.
pub record IsRun (s : Run) (xs ys : ℕ → Items) : Type 0 where
  pub active : (p : ℕ) → p < 5 → IsFifo s.nodes (s.cpu.active.start p) (s.cpu.active.end p) (xs p)
  pub inactive :
      (p : ℕ) → p < 5 → IsFifo s.nodes (s.cpu.inactive.start p) (s.cpu.inactive.end p) (ys p)
  pub apart_active :
      (p r a : ℕ) → p < 5 → r < 5 → p ≢ r → has a (xs p) ≡ true → has a (xs r) ≡ false
  pub apart_inactive :
      (p r a : ℕ) → p < 5 → r < 5 → p ≢ r → has a (ys p) ≡ true → has a (ys r) ≡ false
  pub apart : (p r a : ℕ) → p < 5 → r < 5 → has a (xs p) ≡ true → has a (ys r) ≡ false

-- No list holds the node.
abbrev pub Fresh : ℕ → (ℕ → Items) → (ℕ → Items) → Type 0
Fresh a xs ys = (r : ℕ) → r < 5 → (has a (xs r) ≡ false) × (has a (ys r) ≡ false)

-- The lists `ys` with the node behind those of priority `p`.
abbrev pub behind : (ℕ → Items) → ℕ → ℕ → ℕ → ℕ → Items
behind ys p a v = assign ys p (ys p ++ (a, v) ∷ [])

has-behind :
    (ys : ℕ → Items) (p a v r b : ℕ)
    → has b (behind ys p a v r) ≡ (has b (ys r) || (r == p && b == a))
has-behind ys p a v r b = elim (Bool-cases (r == p)) [
  | inl same ↦
      let e : r ≡ p = ground arith in rw e (ground (arith, has-append b (ys p) ((a, v) ∷ [])))
  | inr other ↦ rw other (ground arith)
]

module _ {s : Run} {xs ys : ℕ → Items} (is : IsRun s xs ys) (p new v : ℕ) (low : p < 5)
    (ne : new ≢ 0) (fresh : Fresh new xs ys) (own : s.nodes new ≡ cell v 0) where
  abbrev q : Queue
  q = s.cpu.inactive

  linked : IsLinked s.nodes (ys p) new v (link_last s.nodes (q.start p) (q.end p) new)
  linked =
      link_last-IsLinked s.nodes (q.start p) (q.end p) (ys p) new v (is.inactive p low) ne
        (fresh p low).1 own

  push_inactive :
      (r : ℕ)
      → r < 5
      → IsFifo
          (push_unlocked s new p).nodes
          ((push_unlocked s new p).cpu.inactive.start r)
          ((push_unlocked s new p).cpu.inactive.end r)
          (behind ys p new v r)
  unfolding push_unlocked
  push_inactive r h = elim (Bool-cases (r == p)) [
    | inl same ↦ rw same linked.fifo
    | inr other ↦ rw other (
        IsFifo-same (ys r) s.nodes _ (q.start r) (q.end r)
          (λ a in_r. linked.same a (is.apart_inactive r p a h low (ground arith) in_r))
          (is.inactive r h))
  ]

  -- Pushing a fresh node of pid `v` at priority `p` below 5 puts it behind the nodes of that
  -- priority in the inactive queue, and changes no other list.
  pub push_unlocked-IsRun : IsRun (push_unlocked s new p) xs (behind ys p new v)
  unfolding push_unlocked
  push_unlocked-IsRun = record {
    active = λ r h.
        IsFifo-same (xs r) s.nodes _ (s.cpu.active.start r) (s.cpu.active.end r)
          (λ a in_r. linked.same a (is.apart r p a h low in_r)) (is.active r h);
    inactive = push_inactive;
    apart_active = is.apart_active;
    apart_inactive = λ r t a h k other in_r. ground (
      arith,
      has-behind ys p new v r a,
      has-behind ys p new v t a,
      is.apart_inactive r t a h k other,
      fresh r h,
      fresh t k,
    );
    apart =
        λ r t a h k in_r. ground (arith, has-behind ys p new v t a, is.apart r t a h k, fresh r h);
  }
