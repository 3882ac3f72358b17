-- ===== src/Tests/Queues.antt =====
-- kernel/sched.c with one or two processes.
use silkware.Base.{
  ℕ, ◌<◌, ◌≡◌, ◌≢◌, refl, true, false, some, [], ◌∷◌, ◌++◌, arith, ◌==◌, if◌then◌else◌, Bool-cases,
  inl, inr,
}
use silkware.Base.Exec.{done}
use silkware.Links.{Cells, cell, Items, has}
use silkware.Map.{hash, Map, Bytes, empty_item, flex_of, map_get, le_bytes, find_slot, is_match}
use silkware.Map.Search.{search}
use silkware.Sched.{assign, Queue, Run, proc_next, Sched, run_of, schedule, unschedule}
use silkware.Sched.Fifo.{IsFifo}
use silkware.Sched.Queues.{IsRun, behind}
use silkware.Sched.Next.{IsNext, proc_next-IsNext}
use silkware.Sched.Schedule.{IsScheduled, schedule-IsScheduled}
use silkware.Sched.Unschedule.{Enough}
use silkware.Sched.Leave.{IsUnscheduled, unschedule-IsUnscheduled}
use silkware.Sched.Sweep.{next_times, Known}
use silkware.Sched.Rounds.{IsServed, next_times-IsServed_sweep, next_times-IsServed_rounds}

-- Every node has pid 7 and no successor.
abbrev nodes : Cells
nodes a = cell 7 0

abbrev empty_queue : Queue
empty_queue = record { start = λ p. 0; end = λ p. 0 }

-- The node 100 at priority 2.
abbrev one_node : Queue
one_node = record { start = λ p. if p == 2 then 100 else 0; end = λ p. if p == 2 then 100 else 0 }

abbrev pub no_lists : ℕ → Items
no_lists p = []

abbrev pub one_list : ℕ → Items
one_list p = if p == 2 then (100, 7) ∷ [] else []

abbrev pub waiting : Run
waiting = record {
  nodes = nodes;
  cpu = record { active = one_node; inactive = empty_queue; n = 1 };
}

abbrev swapped : Run
swapped = record {
  nodes = nodes;
  cpu = record { active = empty_queue; inactive = one_node; n = 1 };
}

abbrev idle : Run
idle = record {
  nodes = nodes;
  cpu = record { active = empty_queue; inactive = empty_queue; n = 0 };
}

empty-IsFifo : IsFifo nodes 0 0 []
empty-IsFifo = record { chain = refl; final = refl; some_node = refl; distinct = tt }

single-IsFifo : IsFifo nodes 100 100 ((100, 7) ∷ [])
single-IsFifo = record {
  chain = (refl, refl, refl);
  final = refl;
  some_node = refl;
  distinct = (refl, tt);
}

one_node-IsFifo : (p : ℕ) → IsFifo nodes (one_node.start p) (one_node.end p) (one_list p)
one_node-IsFifo p = elim (Bool-cases (p == 2)) [
  | inl at_two ↦ rw at_two single-IsFifo
  | inr other ↦ rw other empty-IsFifo
]

one_list_apart : (p r a : ℕ) → p ≢ r → has a (one_list p) ≡ true → has a (one_list r) ≡ false
one_list_apart p r a ne h = elim (Bool-cases (p == 2)) [
  | inl at_two ↦ let other : (r == 2) ≡ false = ground arith in rw other refl
  | inr other ↦ absurd (ground arith)
]

pub waiting-IsRun : IsRun waiting one_list no_lists
waiting-IsRun = record {
  active = λ p h. one_node-IsFifo p;
  inactive = λ p h. empty-IsFifo;
  apart_active = λ p r a h k. one_list_apart p r a;
  apart_inactive = λ p r a h k ne in_p. refl;
  apart = λ p r a h k in_p. refl;
}

swapped-IsRun : IsRun swapped no_lists one_list
swapped-IsRun = record {
  active = λ p h. empty-IsFifo;
  inactive = λ p h. one_node-IsFifo p;
  apart_active = λ p r a h k ne in_p. refl;
  apart_inactive = λ p r a h k. one_list_apart p r a;
  apart = λ p r a h k in_p. absurd (ground arith);
}

idle-IsRun : IsRun idle no_lists no_lists
idle-IsRun = record {
  active = λ p h. empty-IsFifo;
  inactive = λ p h. empty-IsFifo;
  apart_active = λ p r a h k ne in_p. refl;
  apart_inactive = λ p r a h k ne in_p. refl;
  apart = λ p r a h k in_p. refl;
}

-- The process table, with pid 7.
abbrev procmap : Map
procmap = record {
  max = 1;
  cap = 8;
  cell =
      empty_item
      ∷ (record {
        h = hash (le_bytes 8 7);
        k = some (flex_of (le_bytes 8 7));
        v = flex_of (1 ∷ []);
      })
      ∷ [];
}

known : map_get procmap (le_bytes 8 7) ≡ done (some (1 ∷ []))
unfolding map_get le_bytes find_slot search is_match hash
known = refl

pub above_two : (r : ℕ) → r < 2 → one_list r ≡ []
above_two r h = ground arith

proc_next-IsNext_example :
    IsNext (1 ∷ []) (assign one_list 2 []) (behind no_lists 2 100 7) (proc_next procmap waiting)
proc_next-IsNext_example =
    proc_next-IsNext waiting-IsRun procmap 2 100 7 [] (1 ∷ []) (omega arith) above_two refl
      (omega arith) known

-- Two CPUs, the first of which has a process.
abbrev two_cpus : Sched
two_cpus = record { nodes = nodes; cpus = λ c. if c == 0 then waiting.cpu else idle.cpu; ncpus = 2 }

abbrev cpu_lists : ℕ → ℕ → Items
cpu_lists c = if c == 0 then one_list else no_lists

two_cpus-IsRun : (c : ℕ) → IsRun (run_of two_cpus c) (cpu_lists c) (no_lists)
two_cpus-IsRun c = elim (Bool-cases (c == 0)) [
  | inl first ↦ rw first waiting-IsRun
  | inr other ↦ rw other idle-IsRun
]

schedule-IsScheduled_example :
    IsScheduled two_cpus 200 9 3 cpu_lists (λ c. no_lists) (schedule two_cpus 200 9 3)
schedule-IsScheduled_example =
    schedule-IsScheduled two_cpus 200 9 3 0 cpu_lists (λ c. no_lists) (λ c h. two_cpus-IsRun c)
      (λ c h r k. (ground arith, refl)) (omega arith) (omega arith) (omega arith) (omega arith)

pub one_list_short : Enough 2 one_list
one_list_short p h = elim (Bool-cases (p == 2)) [
  | inl at_two ↦ rw at_two (omega arith)
  | inr other ↦ rw other (omega arith)
]

unschedule-IsUnscheduled_example :
    IsUnscheduled swapped no_lists (assign one_list 2 []) (unschedule 2 swapped 7)
unschedule-IsUnscheduled_example =
    unschedule-IsUnscheduled 2 swapped-IsRun 7 (λ p h. omega arith) one_list_short

-- The process of pid 7.
abbrev proc_of : ℕ → Bytes
proc_of v = 1 ∷ []

one_list-Known : (r : ℕ) → r < 5 → Known procmap proc_of (one_list r)
one_list-Known r h = elim (Bool-cases (r == 2)) [
  | inl at_two ↦ rw at_two ((λ e. omega (arith, e)), known, tt)
  | inr other ↦ rw other tt
]

next_times-IsServed_sweep_example :
    IsServed ((1 ∷ []) ∷ []) (λ p. []) (λ p. [] ++ one_list p) (next_times 1 procmap waiting)
next_times-IsServed_sweep_example =
    next_times-IsServed_sweep procmap proc_of waiting-IsRun one_list-Known

next_times-IsServed_rounds_example :
    IsServed ((1 ∷ []) ∷ (1 ∷ []) ∷ []) (λ p. []) one_list (next_times 2 procmap swapped)
next_times-IsServed_rounds_example =
    next_times-IsServed_rounds procmap proc_of 2 swapped-IsRun one_list-Known
