-- ===== src/Sched/Schedule.antt =====
-- `schedule`: the CPU that a process is put on.
use native.Mathlib.Nat.{le_refl, mod-eq_of_lt}
use silkware.Base.{
  ℕ, zero, suc, ◌+◌, ◌<◌, ◌≤◌, ◌≡◌, ◌≢◌, refl, ap, ◌∙◌, false, Option, none, some, arith, ◌==◌, ltb,
  Bool-cases, ==_refl, inl, inr, u32,
}
use silkware.Base.Exec.{Exec, done}
use silkware.Links.{cell, write, Items}
use silkware.Sched.{
  CpuQueue, Run, push_unlocked, Sched, run_of, least_loaded, enqueue, enqueue_at, schedule,
}
use silkware.Sched.Fifo.{IsFifo-same}
use silkware.Sched.Queues.{IsRun, Fresh, behind, push_unlocked-IsRun}

-- `c` is the first of `n` CPUs whose count is least.
pub record IsLeast (cpus : ℕ → CpuQueue) (n c : ℕ) : Type 0 where
  pub inside : c < n
  pub least : (i : ℕ) → i < n → (cpus c).n ≤ (cpus i).n
  pub first : (i : ℕ) → i < c → (cpus c).n < (cpus i).n

-- What the loop has found among the CPUs below `cpu`.
abbrev Found : (ℕ → CpuQueue) → ℕ → Option ℕ → ℕ → Type 0
Found cpus cpu none n_min = (n_min ≡ 0xffffffff) × ((i : ℕ) → i < cpu → n_min ≤ (cpus i).n)
Found cpus cpu (some c) n_min = IsLeast cpus cpu c × ((cpus c).n ≡ n_min)

-- A bound on the counts below `cpu`, and on its own.
below_suc :
    (cpus : ℕ → CpuQueue) (cpu m : ℕ)
    → ((i : ℕ) → i < cpu → m ≤ (cpus i).n)
    → m ≤ (cpus cpu).n
    → (i : ℕ) → i < cpu + 1
    → m ≤ (cpus i).n
below_suc cpus cpu m before here i h = elim (Bool-cases (i == cpu)) [
  | inl same ↦ let e : i ≡ cpu = ground arith in rw e here
  | inr other ↦ before i (ground arith)
]

Found-lower :
    (cpus : ℕ → CpuQueue) (cpu : ℕ) (found : Option ℕ) (n_min : ℕ)
    → Found cpus cpu found n_min
    → (cpus cpu).n < n_min
    → Found cpus (cpu + 1) (some cpu) (cpus cpu).n
Found-lower cpus cpu none n_min f lt = (
  record {
    inside = omega arith;
    least = below_suc cpus cpu (cpus cpu).n (λ i h. omega (arith, f.1 i h)) (le_refl _);
    first = λ i h. omega (arith, f.1 i h);
  },
  refl,
)
Found-lower cpus cpu (some c) n_min (is, e) lt = (
  record {
    inside = omega arith;
    least = below_suc cpus cpu (cpus cpu).n (λ i h. omega (arith, is.least i h)) (le_refl _);
    first = λ i h. omega (arith, is.least i h);
  },
  refl,
)

Found-kept :
    (cpus : ℕ → CpuQueue) (cpu : ℕ) (found : Option ℕ) (n_min : ℕ)
    → Found cpus cpu found n_min
    → n_min ≤ (cpus cpu).n
    → Found cpus (cpu + 1) found n_min
Found-kept cpus cpu none n_min f le = (f.0, below_suc cpus cpu n_min f.1 le)
Found-kept cpus cpu (some c) n_min (is, e) le = (
  record {
    inside = omega (arith, is.inside);
    least = below_suc cpus cpu (cpus c).n is.least (omega arith);
    first = is.first;
  },
  e,
)

least_loaded-Found :
    (left : ℕ) (cpus : ℕ → CpuQueue) (cpu : ℕ) (found : Option ℕ) (n_min : ℕ)
    → Found cpus cpu found n_min
    → (m : ℕ) × Found cpus (cpu + left) (least_loaded left cpus cpu found n_min) m
unfolding least_loaded
least_loaded-Found zero cpus cpu found n_min f =
    let e : cpu + 0 ≡ cpu = omega arith in (n_min, rw e f)
least_loaded-Found (suc left) cpus cpu found n_min f =
    let e : cpu + suc left ≡ cpu + 1 + left = omega arith in
    elim (Bool-cases (ltb (cpus cpu).n n_min)) [
      | inl lower ↦
          let (m, end) =
            least_loaded-Found left cpus (cpu + 1) (some cpu) (cpus cpu).n
              (Found-lower cpus cpu found n_min f (ground arith)) in
          (m, rw (lower, e) end)
      | inr kept ↦
          let (m, end) =
            least_loaded-Found left cpus (cpu + 1) found n_min
              (Found-kept cpus cpu found n_min f (ground arith)) in
          (m, rw (kept, e) end)
    ]

Found-some :
    (n i : ℕ) (cpus : ℕ → CpuQueue) (r : Option ℕ) (m : ℕ)
    → i < n
    → (cpus i).n < 0xffffffff
    → Found cpus (0 + n) r m
    → (c : ℕ) × (r ≡ some c) × IsLeast cpus n c
Found-some n i cpus none m h lt f = absurd (omega (arith, f.1 i (omega arith)))
Found-some n i cpus (some c) m h lt (is, e) =
    let all : 0 + n ≡ n = omega arith in (c, refl, rw all at is)

-- What `schedule` leaves: the node behind the lists of CPU `c`, whose count went up.
pub record IsScheduled (s : Sched) (new pid priority : ℕ) (xs ys : ℕ → ℕ → Items) (r : Exec Sched)
    : Type 0 where
  pub c : ℕ
  pub state : Sched
  pub least : IsLeast s.cpus s.ncpus c
  pub returns : r ≡ done state
  pub queues : IsRun (run_of state c) (xs c) (behind (ys c) priority new pid)
  pub count : (state.cpus c).n ≡ (s.cpus c).n + 1
  pub others : (d : ℕ) → d ≢ c → state.cpus d ≡ s.cpus d

-- Filling a fresh node does not touch the queues.
filled-IsRun :
    {s : Run} {xs ys : ℕ → Items} (new : ℕ) (x : _)
    → IsRun s xs ys
    → Fresh new xs ys
    → IsRun (record s { nodes = write s.nodes new x }) xs ys
filled-IsRun {s} {xs} {ys} new x is fresh = record {
  active = λ p h.
      IsFifo-same (xs p) s.nodes _ (s.cpu.active.start p) (s.cpu.active.end p)
        (λ a in_p. ground (arith, fresh p h)) (is.active p h);
  inactive = λ p h.
      IsFifo-same (ys p) s.nodes _ (s.cpu.inactive.start p) (s.cpu.inactive.end p)
        (λ a in_p. ground (arith, fresh p h)) (is.inactive p h);
  apart_active = is.apart_active;
  apart_inactive = is.apart_inactive;
  apart = is.apart;
}

-- A run counted up.
counted-IsRun :
    {s : Run} {xs ys : ℕ → Items} (n : ℕ)
    → IsRun s xs ys
    → IsRun (record s { cpu = record s.cpu { n = n } }) xs ys
counted-IsRun n is = record {
  active = is.active;
  inactive = is.inactive;
  apart_active = is.apart_active;
  apart_inactive = is.apart_inactive;
  apart = is.apart;
}

-- The run of CPU `c` after `enqueue`, and the other CPUs.
run_of-enqueue :
    (s : Sched) (new priority c : ℕ)
    → run_of (enqueue s new priority c) c
      ≡ push_unlocked
          (record { nodes = s.nodes; cpu = record (s.cpus c) { n = u32 ((s.cpus c).n + 1) } })
          new
          priority
unfolding enqueue
run_of-enqueue s new priority c = rw (==_refl c) refl

enqueue-others :
    (s : Sched) (new priority c d : ℕ) → d ≢ c → (enqueue s new priority c).cpus d ≡ s.cpus d
unfolding enqueue
enqueue-others s new priority c d ne = let other : (d == c) ≡ false = ground arith in rw other refl

n-push_unlocked : (s : Run) (new priority : ℕ) → (push_unlocked s new priority).cpu.n ≡ s.cpu.n
unfolding push_unlocked
n-push_unlocked s new priority = refl

module _ (s : Sched) (new pid priority c : ℕ) (xs ys : ℕ → ℕ → Items)
    (is : IsRun (run_of s c) (xs c) (ys c)) (fresh : Fresh new (xs c) (ys c)) (ne : new ≢ 0)
    (low : priority < 5) (least : IsLeast s.cpus s.ncpus c) (small : (s.cpus c).n < 0xffffffff)
    (found : least_loaded s.ncpus s.cpus 0 none 0xffffffff ≡ some c) where
  abbrev filled : Sched
  filled = record s { nodes = write s.nodes new (cell pid 0) }

  queues_after :
      IsRun (run_of (enqueue filled new priority c) c) (xs c) (behind (ys c) priority new pid)
  queues_after =
      let ready = counted-IsRun (u32 ((s.cpus c).n + 1)) (filled-IsRun new (cell pid 0) is fresh) in
      let own : write s.nodes new (cell pid 0) new ≡ cell pid 0 = ground arith in
      rw (run_of-enqueue filled new priority c)
        (push_unlocked-IsRun ready priority new pid low ne fresh own)

  count_after : ((enqueue filled new priority c).cpus c).n ≡ (s.cpus c).n + 1
  count_after =
      ap (λ (t : Run). t.cpu.n) (run_of-enqueue filled new priority c)
      ∙ n-push_unlocked _ new priority
      ∙ mod-eq_of_lt (omega arith)

  schedule_on : IsScheduled s new pid priority xs ys (schedule s new pid priority)
  unfolding schedule enqueue_at
  schedule_on = record {
    c = c;
    state = enqueue filled new priority c;
    least = least;
    returns = ap (λ (t : Option ℕ). enqueue_at filled new priority t) found;
    queues = queues_after;
    count = count_after;
    others = λ d other. enqueue-others filled new priority c d other;
  }

-- With the queues of every CPU well formed, a fresh block that is not NULL for the node, a priority
-- below 5 and some CPU whose count is below 2 ^ 32 - 1, schedule puts the process behind the
-- inactive list of its priority on the first CPU whose count is least and raises that count by 1. The
-- count of every other CPU and its pointers to the starts and ends of its lists stay as they were.
pub schedule-IsScheduled :
    (s : Sched) (new pid priority i : ℕ) (xs ys : ℕ → ℕ → Items)
    → ((c : ℕ) → c < s.ncpus → IsRun (run_of s c) (xs c) (ys c))
    → ((c : ℕ) → c < s.ncpus → Fresh new (xs c) (ys c))
    → new ≢ 0
    → priority < 5
    → i < s.ncpus
    → (s.cpus i).n < 0xffffffff
    → IsScheduled s new pid priority xs ys (schedule s new pid priority)
schedule-IsScheduled s new pid priority i xs ys is fresh ne low h lt =
    let (m, end) =
      least_loaded-Found s.ncpus s.cpus 0 none 0xffffffff (refl, λ j k. absurd (omega arith)) in
    let (c, found, least) = Found-some s.ncpus i s.cpus _ m h lt end in
    schedule_on s new pid priority c xs ys (is c least.inside) (fresh c least.inside) ne low least
      (omega (arith, least.least i h)) found
