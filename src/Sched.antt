-- ===== src/Sched.antt =====
-- kernel/sched.c: the run queues of the CPUs. Nodes are cells whose `value` is the pid; 0 is NULL. The
-- two queues of a CPU are separate allocations, so a queue is its arrays. A call runs under the lock
-- of its CPU's queues.
pub mod Fifo
pub mod Queues
pub mod Pop
pub mod Next
pub mod Schedule
pub mod Remove
pub mod Unschedule
pub mod Leave
pub mod Sweep
pub mod Rounds
pub mod Start
use silkware.Base.{ℕ, zero, suc, ◌+◌, Bool, Option, none, some, ltb, u32, ◌==◌, if◌then◌else◌}
use silkware.Base.Exec.{Exec, done, panicked, fault, out_of_fuel, ◌>>=◌}
use silkware.Links.{Cell, cell, Cells, write, set_next}
use silkware.Map.{Bytes, Map, map_get, le_bytes}

-- Writing one entry of an array.
abbrev pub assign {ℓ} : {A : Type ℓ} → (ℕ → A) → ℕ → A → ℕ → A
assign f i x j = if j == i then x else f j

-- `struct queue`
pub record Queue : Type 0 where
  pub start : ℕ → ℕ
  pub end : ℕ → ℕ

-- `struct sched_cpu_queue`
pub record CpuQueue : Type 0 where
  pub active : Queue
  pub inactive : Queue
  pub n : ℕ

-- The nodes, and the queues of a CPU.
pub record Run : Type 0 where
  pub nodes : Cells
  pub cpu : CpuQueue

-- What `push_unlocked` does to the nodes and to the two ends of the list at the priority.
unfoldable pub link_last : Cells → ℕ → ℕ → ℕ → Cells × ℕ × ℕ
link_last h start end new =
    let linked = if end == 0 then h else set_next h end new in
    (linked, (if start == 0 then new else start), new)

unfoldable pub push_unlocked : Run → ℕ → ℕ → Run
unfolding link_last
push_unlocked s new priority =
    let q = s.cpu.inactive in
    let (linked, start, end) = link_last s.nodes (q.start priority) (q.end priority) new in
    record {
      nodes = linked;
      cpu = record s.cpu {
        inactive = record {
          start = assign q.start priority start;
          end = assign q.end priority end;
        };
      };
    }

-- Unlinking the first node of the active list at a priority: `end`, `start` and the node's `next`.
unfoldable pub unlink_first : Run → ℕ → Run
unlink_first s i =
    let q = s.cpu.active in
    let node = q.start i in
    record {
      nodes = set_next s.nodes node 0;
      cpu = record s.cpu {
        active = record {
          start = assign q.start i (s.nodes node).next;
          end = if q.end i == node then assign q.end i 0 else q.end;
        };
      };
    }

-- The body of the loop of `pop_unlocked` at a list that has a first node: its pid, and the state.
unfoldable pub pop_at : Run → ℕ → ℕ × Run
unfolding push_unlocked unlink_first
pop_at s i =
    let node = s.cpu.active.start i in
    ((s.nodes node).value, push_unlocked (unlink_first s i) node i)

-- The loop of `pop_unlocked` from priority `i`, with `left` priorities to go. The pid 0 is none.
unfoldable pub pop_from : ℕ → Run → ℕ → ℕ × Run
pop_from zero s i = (0, s)
pop_from (suc left) s i =
    let rest = pop_from left s (i + 1) in if s.cpu.active.start i == 0 then rest else pop_at s i

unfoldable pub pop_unlocked : Run → ℕ × Run
unfolding pop_from
pop_unlocked s = pop_from 5 s 0

unfoldable pub swap_queues : Run → Run
swap_queues s = record s { cpu = record s.cpu { active = s.cpu.inactive; inactive = s.cpu.active } }

-- The process that becomes current, as its bytes in `procmap`. A `pid_t` has 8 bytes.
unfoldable pub proc_activate : Map → ℕ → Exec Bytes
proc_activate procmap pid =
    map_get procmap (le_bytes 8 pid) >>= λ found. elim found [ none ↦ panicked | some p ↦ done p ]

-- The process that becomes current, and the queues.
unfoldable pub proc_next : Map → Run → Exec (Bytes × Run)
proc_next procmap s =
    let first = pop_unlocked s in
    let second = pop_unlocked (swap_queues first.1) in
    if first.0 == 0
    then (if second.0 == 0
        then panicked
        else proc_activate procmap second.0 >>= λ p. done (p, second.1))
    else proc_activate procmap first.0 >>= λ p. done (p, first.1)

-- All run queues, over the nodes that they share.
pub record Sched : Type 0 where
  pub nodes : Cells
  pub cpus : ℕ → CpuQueue
  pub ncpus : ℕ

abbrev pub run_of : Sched → ℕ → Run
run_of s c = record { nodes = s.nodes; cpu = s.cpus c }

-- The loop of `schedule` from CPU `cpu`, with `left` CPUs to go; `cpu_min` is `none` while the
-- variable is not initialised.
unfoldable pub least_loaded : ℕ → (ℕ → CpuQueue) → ℕ → Option ℕ → ℕ → Option ℕ
least_loaded zero cpus cpu cpu_min n_min = cpu_min
least_loaded (suc left) cpus cpu cpu_min n_min =
    let lower = least_loaded left cpus (cpu + 1) (some cpu) (cpus cpu).n in
    let kept = least_loaded left cpus (cpu + 1) cpu_min n_min in
    if ltb (cpus cpu).n n_min then lower else kept

-- Counting the node in, and `push_unlocked`.
unfoldable pub enqueue : Sched → ℕ → ℕ → ℕ → Sched
unfolding push_unlocked
enqueue s new priority c =
    let q = s.cpus c in
    let counted : Run = record { nodes = s.nodes; cpu = record q { n = u32 (q.n + 1) } } in
    let pushed = push_unlocked counted new priority in
    record s { nodes = pushed.nodes; cpus = assign s.cpus c pushed.cpu }

-- Enqueueing at `cpu_min`, which may be uninitialised.
unfoldable pub enqueue_at : Sched → ℕ → ℕ → Option ℕ → Exec Sched
enqueue_at s new priority none = fault
enqueue_at s new priority (some c) = done (enqueue s new priority c)

-- `new` is the block that kalloc returned.
unfoldable pub schedule : Sched → ℕ → ℕ → ℕ → Exec Sched
schedule s new pid priority =
    enqueue_at (record s { nodes = write s.nodes new (cell pid 0) }) new priority
      (least_loaded s.ncpus s.cpus 0 none 0xffffffff)

-- The body of the `if` in `queue_tryremove`: the nodes, `start` and `end` without the node `n`.
unfoldable pub unlink : Cells → ℕ → ℕ → Option ℕ → ℕ → Cells × ℕ × ℕ
unlink h start end none n = (h, (h n).next, (if end == n then 0 else end))
unlink h start end (some p) n = (set_next h p (h n).next, start, (if end == n then p else end))

-- `for (n = q->start[i]; n != NULL; n = n->next)`: what is left of the list when the pid is found.
unfoldable pub remove_loop : ℕ → Cells → ℕ → ℕ → Option ℕ → ℕ → ℕ → Exec (Option (Cells × ℕ × ℕ))
remove_loop zero h start end prev n pid = out_of_fuel
remove_loop (suc fuel) h start end prev n pid =
    let next = remove_loop fuel h start end (some n) (h n).next pid in
    if n == 0
    then done none
    else if (h n).value == pid
    then done (some (unlink h start end prev n))
    else next

-- The loop of `queue_tryremove` from priority `i`, with `left` to go; `fuel` bounds a list. The
-- node goes back to kalloc.
unfoldable pub tryremove_from : ℕ → ℕ → Cells → Queue → ℕ → ℕ → Exec (Option (Cells × Queue))
tryremove_from fuel zero h q i pid = done none
tryremove_from fuel (suc left) h q i pid =
    let rest = tryremove_from fuel left h q (i + 1) pid in
    remove_loop fuel h (q.start i) (q.end i) none (q.start i) pid >>= λ found. elim found [
      | none ↦ rest
      | some (g, start, end) ↦
          done (some (g, record { start = assign q.start i start; end = assign q.end i end }))
    ]

unfoldable pub queue_tryremove : ℕ → Cells → Queue → ℕ → Exec (Option (Cells × Queue))
unfolding tryremove_from
queue_tryremove fuel h q pid = tryremove_from fuel 5 h q 0 pid

-- `--n` wraps at 32 bits. `sched_update_duration` sets a timer and no queue.
unfoldable pub unschedule : ℕ → Run → ℕ → Exec Run
unschedule fuel s pid =
    let counted : CpuQueue = record s.cpu { n = u32 (s.cpu.n + 0xffffffff) } in
    queue_tryremove fuel s.nodes counted.active pid >>= λ found. elim found [
      | some (g, q) ↦ done (record { nodes = g; cpu = record counted { active = q } })
      | none ↦ queue_tryremove fuel s.nodes counted.inactive pid >>= λ later. elim later [
        | some (g, q) ↦ done (record { nodes = g; cpu = record counted { inactive = q } })
        | none ↦ done (record s { cpu = counted })
      ]
    ]

-- A queue whose memory kzalloc gives.
abbrev pub empty_queue : Queue
empty_queue = record { start = λ p. 0; end = λ p. 0 }

-- The loop of `sched_init` from CPU `i`, with `left` CPUs to go. The count `n` is not set.
unfoldable pub init_loop : ℕ → (ℕ → CpuQueue) → ℕ → ℕ → CpuQueue
init_loop zero cpus i = cpus
init_loop (suc left) cpus i =
    let fresh : CpuQueue = record (cpus i) { active = empty_queue; inactive = empty_queue } in
    init_loop left (assign cpus i fresh) (i + 1)

-- The queues of `s` are what the memory that kalloc gives holds before.
unfoldable pub sched_init : ℕ → Sched → Sched
unfolding init_loop
sched_init ncpus s = record s { cpus = init_loop ncpus s.cpus 0; ncpus = ncpus }
