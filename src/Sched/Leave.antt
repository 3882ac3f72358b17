-- ===== src/Sched/Leave.antt =====
-- `unschedule` on the run queues of a CPU.
use silkware.Base.{
  ℕ, ◌+◌, ◌≡◌, refl, inl, inr, true, false, Option, none, some, [], ◌∷◌, arith, ◌==◌, Bool-cases,
  u32,
}
use silkware.Base.Exec.{Exec, done}
use silkware.Links.{Cells, Items, has}
use silkware.Map.Lookup.{true-ne-false}
use silkware.Sched.{assign, Queue, Run, swap_queues, queue_tryremove, unschedule}
use silkware.Sched.Fifo.{IsFifo-same}
use silkware.Sched.Queues.{IsRun}
use silkware.Sched.Next.{swap_queues-IsRun}
use silkware.Sched.Unschedule.{
  without_pid, priority_of, Enough, IsTaken, Taken, tryremove_from-Taken,
}

-- The lists without the node that is found at a priority.
abbrev pub lists_after : Option ℕ → ℕ → (ℕ → Items) → ℕ → Items
lists_after none v xs = xs
lists_after (some p) v xs = assign xs p (without_pid v (xs p))

-- The second place to look at, when the first has none.
abbrev pub second : Option ℕ → Option ℕ → Option ℕ
second none r = r
second (some p) r = none

has-without_pid : (v b : ℕ) (xs : Items) → has b (without_pid v xs) ≡ true → has b xs ≡ true
has-without_pid v b [] h = h
has-without_pid v b ((a, w) ∷ xs) h = elim (Bool-cases (w == v)) [
  | inl same ↦ ground arith
  | inr other ↦ ground (arith, has-without_pid v b xs)
]

has-lists_after :
    (o : Option ℕ) (v b r : ℕ) (xs : ℕ → Items)
    → has b (lists_after o v xs r) ≡ true
    → has b (xs r) ≡ true
has-lists_after none v b r xs h = h
has-lists_after (some p) v b r xs h = elim (Bool-cases (r == p)) [
  | inl same ↦ let e : r ≡ p = ground arith in rw e (has-without_pid v b (xs p) (ground arith))
  | inr other ↦ ground arith
]

-- A queue without a node, next to another one.
module _ {s : Run} {xs ys : ℕ → Items} (is : IsRun s xs ys) (v p : ℕ)
    {r : Exec (Option (Cells × Queue))} (t : IsTaken s.nodes s.cpu.active xs v p r) (n : ℕ) where
  abbrev after : Run
  after = record {
    nodes = t.heap;
    cpu = record {
      active = record {
        start = assign s.cpu.active.start p t.start;
        end = assign s.cpu.active.end p t.end;
      };
      inactive = s.cpu.inactive;
      n = n;
    };
  }

  missing_after : (a k : ℕ) → has a (xs k) ≡ false → has a (lists_after (some p) v xs k) ≡ false
  missing_after a k out = elim (Bool-cases (has a (lists_after (some p) v xs k))) [
    | inl found ↦ absurd (true-ne-false _ (has-lists_after (some p) v a k xs found) out)
    | inr missing ↦ missing
  ]

  taken-IsRun : IsRun after (lists_after (some p) v xs) ys
  taken-IsRun = record {
    active = λ k h. elim (Bool-cases (k == p)) [
      | inl same ↦ rw same t.fifo
      | inr other ↦ rw other (
          IsFifo-same (xs k) s.nodes _ (s.cpu.active.start k) (s.cpu.active.end k)
            (λ b in_k. t.same b (is.apart_active k p b h t.low (ground arith) in_k))
            (is.active k h))
    ];
    inactive = λ k h.
        IsFifo-same (ys k) s.nodes _ (s.cpu.inactive.start k) (s.cpu.inactive.end k)
          (λ b in_k. t.same b (elim (Bool-cases (has b (xs p))) [
            | inl found ↦ absurd (true-ne-false _ in_k (is.apart p k b t.low h found))
            | inr missing ↦ missing
          ]))
          (is.inactive k h);
    apart_active = λ k l a h m ne in_k.
        missing_after a l (is.apart_active k l a h m ne (has-lists_after (some p) v a k xs in_k));
    apart_inactive = is.apart_inactive;
    apart = λ k l a h m in_k. is.apart k l a h m (has-lists_after (some p) v a k xs in_k);
  }

-- What `unschedule` leaves: queues that hold `xs` and `ys`, and the count lowered.
pub record IsUnscheduled (s : Run) (xs ys : ℕ → Items) (r : Exec Run) : Type 0 where
  pub state : Run
  pub returns : r ≡ done state
  pub queues : IsRun state xs ys
  pub count : state.cpu.n ≡ u32 (s.cpu.n + 0xffffffff)

module _ (fuel : ℕ) {s : Run} {xs ys : ℕ → Items} (is : IsRun s xs ys) (v : ℕ) where
  counted-IsRun : IsRun (record s { cpu = record s.cpu { n = u32 (s.cpu.n + 0xffffffff) } }) xs ys
  counted-IsRun = record {
    active = is.active;
    inactive = is.inactive;
    apart_active = is.apart_active;
    apart_inactive = is.apart_inactive;
    apart = is.apart;
  }

  unschedule_by :
      (o r : Option ℕ)
      → Taken s.nodes s.cpu.active xs v o (queue_tryremove fuel s.nodes s.cpu.active v)
      → Taken s.nodes s.cpu.inactive ys v r (queue_tryremove fuel s.nodes s.cpu.inactive v)
      → IsUnscheduled s (lists_after o v xs) (lists_after (second o r) v ys) (unschedule fuel s v)
  unfolding unschedule swap_queues
  unschedule_by (some p) r t u = record {
    state = after is v p t (u32 (s.cpu.n + 0xffffffff));
    returns = rw t.returns refl;
    queues = taken-IsRun is v p t (u32 (s.cpu.n + 0xffffffff));
    count = refl;
  }
  unschedule_by none none t u = record {
    state = record s { cpu = record s.cpu { n = u32 (s.cpu.n + 0xffffffff) } };
    returns = rw (t, u) refl;
    queues = counted-IsRun;
    count = refl;
  }
  unschedule_by none (some p) t u = record {
    state = record {
      nodes = u.heap;
      cpu = record {
        active = s.cpu.active;
        inactive = record {
          start = assign s.cpu.inactive.start p u.start;
          end = assign s.cpu.inactive.end p u.end;
        };
        n = u32 (s.cpu.n + 0xffffffff);
      };
    };
    returns = rw (t, u.returns) refl;
    queues =
        swap_queues-IsRun (taken-IsRun (swap_queues-IsRun is) v p u (u32 (s.cpu.n + 0xffffffff)));
    count = refl;
  }

  -- With fuel above the length of every list, unschedule removes the first node of the pid in the
  -- active lists, from priority 0 on, or the first one in the inactive lists where the active ones
  -- have none; the other nodes keep their lists and their order. The count goes down by 1 modulo
  -- 2 ^ 32, also where no list has the pid.
  pub unschedule-IsUnscheduled :
      Enough fuel xs
      → Enough fuel ys
      → IsUnscheduled s
          (lists_after (priority_of 5 0 v xs) v xs)
          (lists_after (second (priority_of 5 0 v xs) (priority_of 5 0 v ys)) v ys)
          (unschedule fuel s v)
  unschedule-IsUnscheduled active inactive =
      unschedule_by (priority_of 5 0 v xs) (priority_of 5 0 v ys)
        (unfold queue_tryremove in
          tryremove_from-Taken fuel 5 s.nodes s.cpu.active 0 v xs refl is.active active)
        (unfold queue_tryremove in
          tryremove_from-Taken fuel 5 s.nodes s.cpu.inactive 0 v ys refl is.inactive inactive)
