-- ===== src/Sched/Rounds.antt =====
-- `proc_next` serves the processes of a CPU in turn.
use silkware.Base.{
  ℕ, zero, suc, ◌+◌, ◌<◌, ◌≤◌, ◌≡◌, ◌≢◌, ◌⊎◌, refl, sym, ap, ◌∙◌, inl, inr, true, false, List, [],
  ◌∷◌, ◌++◌, arith, ◌==◌, if◌then◌else◌, Bool-cases, length, leb, ==_refl,
}
use mathlib.Core.Path.{subst}
use silkware.Base.Exec.{Exec, done}
use silkware.Links.{Items}
use silkware.Map.{Bytes, Map}
use silkware.Sched.{assign, Run, pop_unlocked, swap_queues, proc_next}
use silkware.Sched.Queues.{IsRun}
use silkware.Sched.Pop.{pop_unlocked-IsRun, pop_unlocked-empty}
use silkware.Sched.Next.{swap_queues-IsRun}
use silkware.Sched.Sweep.{
  next_times, Runs, stop, step, Runs-append, next_times-Runs, Known, procs, in_order, Reach,
  IsRun-lists, empty_list,
}

-- The lists `ys`, with those of `xs` behind them from priority `i` on.
abbrev joined : ℕ → (ℕ → Items) → (ℕ → Items) → ℕ → Items
joined i ys xs r = if leb i r then ys r ++ xs r else ys r

procs-append :
    (proc : ℕ → Bytes) (xs ys : Items) → procs proc (xs ++ ys) ≡ procs proc xs ++ procs proc ys
procs-append proc [] ys = refl
procs-append proc ((a, v) ∷ xs) ys = ap (λ t. proc v ∷ t) (procs-append proc xs ys)

-- A list in front does not count.
in_order_past :
    (left i p : ℕ) (l : Items) (xs : ℕ → Items)
    → p < i
    → in_order left i (assign xs p l) ≡ in_order left i xs
in_order_past zero i p l xs h = refl
in_order_past (suc left) i p l xs h =
    let other : (i == p) ≡ false = ground arith in
    rw (other, in_order_past left (i + 1) p l xs (omega arith)) refl

in_order_empty :
    (left i : ℕ) (xs : ℕ → Items) → ((r : ℕ) → r < i + left → xs r ≡ []) → in_order left i xs ≡ []
in_order_empty zero i xs none_left = refl
in_order_empty (suc left) i xs none_left =
    rw
      (none_left i (omega arith), in_order_empty left (i + 1) xs (λ r h. none_left r (omega arith)))
      refl

joined_step :
    (i r : ℕ) (xs ys : ℕ → Items)
    → joined i ys xs r ≡ joined (i + 1) (assign ys i (ys i ++ xs i)) (assign xs i []) r
joined_step i r xs ys = elim (Bool-cases (r == i)) [
  | inl same ↦
      let at : r ≡ i = ground arith in
      let low : leb i i ≡ true = ground arith in
      let high : leb (i + 1) i ≡ false = ground arith in rw (at, low, high, ==_refl i) refl
  | inr other ↦ let e : leb i r ≡ leb (i + 1) r = ground arith in rw (other, e) refl
]

-- The processes of all lists of a queue, by priority.
abbrev pub all_procs : (ℕ → Bytes) → (ℕ → Items) → List Bytes
all_procs proc xs = procs proc (in_order 5 0 xs)

-- The same processes, `k` times.
abbrev pub repeated : ℕ → List Bytes → List Bytes
repeated zero bs = []
repeated (suc k) bs = bs ++ repeated k bs

-- The lists are empty, or `p` is the first with a node, whose pid is not 0.
abbrev First : (ℕ → Items) → Type 0
First xs =
    ((r : ℕ) → r < 5 → xs r ≡ [])
    ⊎ (p : ℕ) × (a : ℕ) × (v : ℕ) × (rest : Items) × (p < 5)
      × (xs p ≡ (a, v) ∷ rest)
      × (v ≢ 0)
      × ((r : ℕ) → r < p → xs r ≡ [])

module _ (procmap : Map) (proc : ℕ → Bytes) where
  sweep_from :
      (left i : ℕ) {s : Run} {xs ys : ℕ → Items}
      → i + left ≡ 5
      → IsRun s xs ys
      → ((r : ℕ) → r < i → xs r ≡ [])
      → ((r : ℕ) → i ≤ r → r < 5 → Known procmap proc (xs r))
      → Reach procmap s (procs proc (in_order left i xs)) (λ p. []) (joined i ys xs)
  sweep_from zero i {s} {xs} {ys} five is above known = record {
    state = s;
    runs = stop;
    queues =
        IsRun-lists _ _ (λ p h. sym (above p (omega arith)))
          (λ p h. let high : leb i p ≡ false = ground arith in rw high refl) is;
  }
  sweep_from (suc left) i {s} {xs} {ys} five is above known =
      let first =
        empty_list procmap proc (xs i) i is (omega arith) above refl
          (known i (omega arith) (omega arith)) in
      let rest = sweep_from left (i + 1) (omega arith) first.queues empty_above known_past in
      let bs = procs-append proc (xs i) (in_order left (i + 1) xs) in
      record {
        state = rest.state;
        runs = rw bs (
            Runs-append first.runs
              (rw (sym (in_order_past left (i + 1) i [] xs (omega arith))) rest.runs));
        queues = IsRun-lists _ _ (λ p h. refl) (λ p h. joined_step i p xs ys) rest.queues;
      }
    where
      empty_above : (r : ℕ) → r < i + 1 → assign xs i [] r ≡ []
      empty_above r h = elim (Bool-cases (r == i)) [
        | inl same ↦ rw same refl
        | inr other ↦ rw other (above r (ground arith))
      ]

      known_past : (r : ℕ) → i + 1 ≤ r → r < 5 → Known procmap proc (assign xs i [] r)
      known_past r h k =
          let other : (r == i) ≡ false = ground arith in rw other (known r (omega arith) k)

  sweep :
      {s : Run} {xs ys : ℕ → Items}
      → IsRun s xs ys
      → ((r : ℕ) → r < 5 → Known procmap proc (xs r))
      → Reach procmap s (all_procs proc xs) (λ p. []) (λ p. ys p ++ xs p)
  sweep is known =
      let r = sweep_from 5 0 refl is (λ r h. absurd (omega arith)) (λ r l h. known r h) in
      record {
        state = r.state;
        runs = r.runs;
        queues =
            IsRun-lists _ _ (λ p h. refl)
              (λ p h. let low : leb 0 p ≡ true = ground arith in rw low refl) r.queues;
      }

  -- With the active lists empty, proc_next does what it does after the exchange of the queues.
  transfer :
      {s t u : Run} {bs : List Bytes} {xs ys : ℕ → Items}
      → proc_next procmap s ≡ proc_next procmap t
      → IsRun s xs ys
      → Runs procmap t bs u
      → IsRun u xs ys
      → Reach procmap s bs xs ys
  transfer {s} e is stop after = record { state = s; runs = stop; queues = is }
  transfer {u} e is (step f rest) after = record {
    state = u;
    runs = step (e ∙ f) rest;
    queues = after;
  }

  proc_next-swap_queues :
      (s : Run)
      → pop_unlocked s ≡ (0, s)
      → (pop_unlocked (swap_queues s)).0 ≢ 0
      → proc_next procmap s ≡ proc_next procmap (swap_queues s)
  unfolding proc_next
  proc_next-swap_queues s empty pos =
      let other : ((pop_unlocked (swap_queues s)).0 == 0) ≡ false = ground arith in
      rw (empty, other) refl

  Known-First :
      (left i : ℕ) (xs : ℕ → Items)
      → i + left ≡ 5
      → ((r : ℕ) → r < i → xs r ≡ [])
      → ((r : ℕ) → r < 5 → Known procmap proc (xs r))
      → First xs
  Known-First zero i xs five above known = inl (λ r h. above r (omega arith))
  Known-First (suc left) i xs five above known = at_list (xs i) refl (λ e.
      Known-First left (i + 1) xs (omega arith)
        (λ r h. elim (Bool-cases (r == i)) [
          | inl same ↦ let at : r ≡ i = ground arith in rw at e
          | inr other ↦ above r (ground arith)
        ])
        known)
    where
      at_list : (l : Items) → xs i ≡ l → (xs i ≡ [] → First xs) → First xs
      at_list [] e more = more e
      at_list ((a, v) ∷ rest) e more =
          let of : Known procmap proc ((a, v) ∷ rest) =
            subst (λ t. Known procmap proc t) e (known i (omega arith)) in
          inr (i, a, v, rest, omega arith, e, of.0, above)

  round :
      {s : Run} {ys : ℕ → Items}
      → IsRun s (λ p. []) ys
      → ((r : ℕ) → r < 5 → Known procmap proc (ys r))
      → Reach procmap s (all_procs proc ys) (λ p. []) ys
  round {s} {ys} is known = elim (Known-First 5 0 ys refl (λ r h. absurd (omega arith)) known) [
    | inl none_left ↦
        rw (in_order_empty 5 0 ys (λ r h. none_left r (omega arith)))
          (record { state = s; runs = stop; queues = is })
    | inr (p, a, v, rest, low, front, pos, above) ↦
        let swapped = swap_queues-IsRun is in
        let whole = sweep swapped known in
        let pid = (pop_unlocked-IsRun swapped p a v rest low above front).0 in
        transfer (proc_next-swap_queues s (pop_unlocked-empty is (λ r h. refl)) (rw pid pos)) is
          whole.runs whole.queues
  ]

  rounds :
      (k : ℕ) {s : Run} {ys : ℕ → Items}
      → IsRun s (λ p. []) ys
      → ((r : ℕ) → r < 5 → Known procmap proc (ys r))
      → Reach procmap s (repeated k (all_procs proc ys)) (λ p. []) ys
  rounds zero {s} is known = record { state = s; runs = stop; queues = is }
  rounds (suc k) is known =
      let first = round is known in
      let rest = rounds k first.queues known in
      record { state = rest.state; runs = Runs-append first.runs rest.runs; queues = rest.queues }

-- What calls of `proc_next` leave: they made the processes `bs` current, and the queues hold `xs`
-- and `ys`.
pub record IsServed (bs : List Bytes) (xs ys : ℕ → Items) (r : Exec (List Bytes × Run))
    : Type 0 where
  pub state : Run
  pub returns : r ≡ done (bs, state)
  pub queues : IsRun state xs ys

reached :
    {procmap : Map} {s : Run} {bs : List Bytes} {xs ys : ℕ → Items}
    → Reach procmap s bs xs ys
    → IsServed bs xs ys (next_times (length bs) procmap s)
reached r = record { state = r.state; returns = next_times-Runs r.runs; queues = r.queues }

-- When the pids in the active lists are not 0 and name processes of procmap, as many calls of
-- proc_next as there are nodes make each of these processes current once, by priority and in the
-- order of the lists, and leave the active lists empty and each inactive list followed by the
-- active one of its priority.
pub next_times-IsServed_sweep :
    (procmap : Map) (proc : ℕ → Bytes) {s : Run} {xs ys : ℕ → Items}
    → IsRun s xs ys
    → ((r : ℕ) → r < 5 → Known procmap proc (xs r))
    → IsServed
        (all_procs proc xs)
        (λ p. [])
        (λ p. ys p ++ xs p)
        (next_times (length (all_procs proc xs)) procmap s)
next_times-IsServed_sweep procmap proc is known = reached (sweep procmap proc is known)

-- From empty active lists, when the pids in the inactive lists are not 0 and name processes of
-- procmap, each round of as many calls of proc_next as there are nodes makes each of these
-- processes current once, by priority and in the order of the lists, and leaves the same lists:
-- so `k` rounds repeat the same processes `k` times.
pub next_times-IsServed_rounds :
    (procmap : Map) (proc : ℕ → Bytes) (k : ℕ) {s : Run} {ys : ℕ → Items}
    → IsRun s (λ p. []) ys
    → ((r : ℕ) → r < 5 → Known procmap proc (ys r))
    → IsServed
        (repeated k (all_procs proc ys))
        (λ p. [])
        ys
        (next_times (length (repeated k (all_procs proc ys))) procmap s)
next_times-IsServed_rounds procmap proc k is known = reached (rounds procmap proc k is known)
