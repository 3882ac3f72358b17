-- ===== src/Sched/Pop.antt =====
-- `pop_unlocked` on the run queues of a CPU.
use mathlib.Core.Path.{subst}
use silkware.Base.{
  ℕ, zero, suc, ◌+◌, ◌<◌, ◌≤◌, ◌≡◌, ◌≢◌, refl, sym, ap, ◌∙◌, inl, inr, true, false, ◌||◌, [], ◌∷◌,
  arith, ◌==◌, if◌then◌else◌, Bool-cases, ==_refl,
}
use silkware.Links.{Cells, cell, Items, has}
use silkware.Sched.{assign, Run, unlink_first, pop_at, pop_from, pop_unlocked}
use silkware.Map.Lookup.{true-ne-false}
use silkware.Sched.Fifo.{IsFifo, IsFifo-same, IsFifo-rest}
use silkware.Sched.Queues.{IsRun, Fresh, behind, push_unlocked-IsRun}

-- The first node of the active list of priority `p`, with pid `v`, in front of `rest`.
module _ {s : Run} {xs ys : ℕ → Items} (is : IsRun s xs ys) (p v : ℕ) (rest : Items) (low : p < 5)
    (front : xs p ≡ (s.cpu.active.start p, v) ∷ rest) where
  abbrev node : ℕ
  node = s.cpu.active.start p

  whole : IsFifo s.nodes node (s.cpu.active.end p) ((node, v) ∷ rest)
  whole = subst (λ l. IsFifo s.nodes node (s.cpu.active.end p) l) front (is.active p low)

  in_front : (b : ℕ) → has b (xs p) ≡ (b == node || has b rest)
  in_front b = rw front refl

  has-tail : (r b : ℕ) → has b (assign xs p rest r) ≡ true → has b (xs r) ≡ true
  has-tail r b h = elim (Bool-cases (r == p)) [
    | inl same ↦ let e : r ≡ p = ground arith in rw e (ground (arith, in_front b))
    | inr other ↦ ground arith
  ]

  not-has-tail : (r b : ℕ) → has b (xs r) ≡ false → has b (assign xs p rest r) ≡ false
  not-has-tail r b h = elim (Bool-cases (has b (assign xs p rest r))) [
    | inl found ↦ absurd (true-ne-false _ (has-tail r b found) h)
    | inr missing ↦ missing
  ]

  in_p : has node (xs p) ≡ true
  in_p = ground (arith, in_front node)

  end_at :
      (if s.cpu.active.end p == node then assign s.cpu.active.end p 0 else s.cpu.active.end) p
      ≡ (if s.cpu.active.end p == node then 0 else s.cpu.active.end p)
  end_at = ground arith

  end_other :
      (r : ℕ)
      → (r == p) ≡ false
      → (if s.cpu.active.end p == node then assign s.cpu.active.end p 0 else s.cpu.active.end) r
        ≡ s.cpu.active.end r
  end_other r other = ground arith

  unlink_active :
      (r : ℕ)
      → r < 5
      → IsFifo
          (unlink_first s p).nodes
          ((unlink_first s p).cpu.active.start r)
          ((unlink_first s p).cpu.active.end r)
          (assign xs p rest r)
  unfolding unlink_first
  unlink_active r h = elim (Bool-cases (r == p)) [
    | inl same ↦
        let e : r ≡ p = ground arith in
        rw (e, end_at, ==_refl p) (IsFifo-rest rest s.nodes node (s.cpu.active.end p) node v whole)
    | inr other ↦
        rw (end_other r other, other)
          (IsFifo-same (xs r) s.nodes _ (s.cpu.active.start r) (s.cpu.active.end r)
            (λ b in_r. ground (arith, is.apart_active p r node low h (ground arith) in_p))
            (is.active r h))
  ]

  Fresh-after : Fresh node (assign xs p rest) ys
  Fresh-after r h = (
    elim (Bool-cases (r == p)) [
      | inl same ↦ rw same whole.distinct.0
      | inr other ↦ rw other (is.apart_active p r node low h (ground arith) in_p)
    ],
    is.apart p r node low h in_p,
  )

  unlink_first-IsRun : IsRun (unlink_first s p) (assign xs p rest) ys
  unfolding unlink_first
  unlink_first-IsRun = record {
    active = unlink_active;
    inactive = λ r h.
        IsFifo-same (ys r) s.nodes _ (s.cpu.inactive.start r) (s.cpu.inactive.end r)
          (λ b in_r. ground (arith, is.apart p r node low h in_p)) (is.inactive r h);
    apart_active = λ r t b h k other in_r.
        not-has-tail t b (is.apart_active r t b h k other (has-tail r b in_r));
    apart_inactive = is.apart_inactive;
    apart = λ r t b h k in_r. is.apart r t b h k (has-tail r b in_r);
  }

  pop_node-IsRun :
      ((pop_at s p).0 ≡ v) × IsRun (pop_at s p).1 (assign xs p rest) (behind ys p node v)
  unfolding pop_at
  pop_node-IsRun =
      let own : (unlink_first s p).nodes node ≡ cell v 0 =
        unfold unlink_first in ground (arith, whole.chain) in
      let pos : node ≢ 0 = ground (arith, whole.some_node) in
      (whole.chain.1, push_unlocked-IsRun unlink_first-IsRun p node v low pos Fresh-after own)

-- The loop of `pop_unlocked` passes the lists without a first node.
pop_from-at :
    (left : ℕ) (s : Run) (i p : ℕ)
    → i ≤ p
    → p < i + left
    → ((r : ℕ) → r < p → s.cpu.active.start r ≡ 0)
    → s.cpu.active.start p ≢ 0
    → pop_from left s i ≡ pop_at s p
unfolding pop_from
pop_from-at zero s i p le lt above here = absurd (omega arith)
pop_from-at (suc left) s i p le lt above here = elim (Bool-cases (i == p)) [
  | inl same ↦
      let e : i ≡ p = ground arith in
      let some_start : (s.cpu.active.start p == 0) ≡ false = ground arith in rw (e, some_start) refl
  | inr other ↦
      let no_start : (s.cpu.active.start i == 0) ≡ true = ground (arith, above i) in
      rw no_start (pop_from-at left s (i + 1) p (ground arith) (omega arith) above here)
]

pop_from_none :
    (left : ℕ) (s : Run) (i : ℕ)
    → ((r : ℕ) → r < i + left → s.cpu.active.start r ≡ 0)
    → pop_from left s i ≡ (0, s)
unfolding pop_from
pop_from_none zero s i none_left = refl
pop_from_none (suc left) s i none_left =
    let no_start : (s.cpu.active.start i == 0) ≡ true = ground (arith, none_left i (omega arith)) in
    rw no_start (pop_from_none left s (i + 1) (λ r h. none_left r (omega arith)))

start_of_empty :
    (h : Cells) (start end : ℕ) (xs : Items) → IsFifo h start end xs → xs ≡ [] → start ≡ 0
start_of_empty h start end [] is e = is.chain
start_of_empty h start end (x ∷ xs) is e = absurd cc

-- Let `p` be the highest priority with a node in the active queue. pop_unlocked returns the pid of
-- that list's first node, and moves the node behind the inactive list of the same priority; no
-- other list changes.
pub pop_unlocked-IsRun :
    {s : Run} {xs ys : ℕ → Items} (is : IsRun s xs ys) (p a v : ℕ) (rest : Items)
    → p < 5
    → ((r : ℕ) → r < p → xs r ≡ [])
    → xs p ≡ (a, v) ∷ rest
    → ((pop_unlocked s).0 ≡ v) × IsRun (pop_unlocked s).1 (assign xs p rest) (behind ys p a v)
unfolding pop_unlocked
pop_unlocked-IsRun {s} {xs} {ys} is p a v rest low above front =
    let one =
      subst (λ l. IsFifo s.nodes (s.cpu.active.start p) (s.cpu.active.end p) l) front
        (is.active p low) in
    let at : s.cpu.active.start p ≡ a = one.chain.0 in
    let pos : s.cpu.active.start p ≢ 0 = ground (arith, one.some_node) in
    let starts : (r : ℕ) → r < p → s.cpu.active.start r ≡ 0 =
      λ r h. start_of_empty _ _ _ (xs r) (is.active r (omega arith)) (above r h) in
    let run = pop_from-at 5 s 0 p (omega arith) (omega arith) starts pos in
    let front' : xs p ≡ (s.cpu.active.start p, v) ∷ rest =
      front ∙ ap (λ t. (t, v) ∷ rest) (sym at) in
    let ends = pop_node-IsRun is p v rest low front' in
    subst (λ t. (t.0 ≡ v) × IsRun t.1 (assign xs p rest) (behind ys p a v)) (sym run)
      (subst (λ t. ((pop_at s p).0 ≡ v) × IsRun (pop_at s p).1 (assign xs p rest) (behind ys p t v))
        at ends)

-- When every active list is empty, pop_unlocked returns 0 and changes nothing.
pub pop_unlocked-empty :
    {s : Run} {xs ys : ℕ → Items} (is : IsRun s xs ys)
    → ((r : ℕ) → r < 5 → xs r ≡ [])
    → pop_unlocked s ≡ (0, s)
unfolding pop_unlocked
pop_unlocked-empty {s} {xs} {ys} is none_left =
    pop_from_none 5 s 0
      (λ r h. start_of_empty _ _ _ (xs r) (is.active r (omega arith)) (none_left r (omega arith)))
