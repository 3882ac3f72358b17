-- ===== src/Process/Exit.antt =====
-- kernel/syscall.c: what `syscall_exit` takes away, before it switches to another process.
use silkware.Base.{
  ℕ, ◌^◌, ◌<◌, ◌≡◌, ◌≢◌, inl, inr, refl, true, false, Option, none, some, [], ◌∷◌, arith, ◌==◌,
  Bool-cases,
}
use silkware.Base.Exec.{Exec, done}
use silkware.Kalloc.{Heap}
use silkware.Links.{Items}
use silkware.Map.{Bytes, Map}
use silkware.Map.Lookup.{IsMap, Binds, true-ne-false}
use silkware.Map.Update.{Without, map_del-Without}
use silkware.Sched.Queues.{IsRun}
use silkware.Sched.Unschedule.{has_pid, without_pid, priority_of, Enough}
use silkware.Sched.Leave.{lists_after, second, unschedule-IsUnscheduled}
use silkware.Process.{Proc, no_proc, System, proc_key, resumed}
use silkware.Context.{ArchProcState}
use silkware.Process.Release.{MapBlocks, give_back, leave}
use silkware.Process.Values.{proc_key_injective}

-- Every pid in the lists has 64 digits and names a process in the map.
abbrev pub Covers : Map → (ℕ → Items) → Type 0
Covers m xs =
    (r v : ℕ)
    → r < 5
    → has_pid v (xs r) ≡ true
    → (v < 2 ^ 64) × (b : Bytes) × Binds m (proc_key v) b

-- No list has the pid.
abbrev pub Lacks : ℕ → (ℕ → Items) → Type 0
Lacks pid xs = (r : ℕ) → r < 5 → has_pid pid (xs r) ≡ false

has_pid-without_pid :
    (v w : ℕ) (xs : Items) → has_pid v (without_pid w xs) ≡ true → has_pid v xs ≡ true
has_pid-without_pid v w [] h = h
has_pid-without_pid v w ((a, u) ∷ xs) h = elim (Bool-cases (u == w)) [
  | inl same ↦ ground arith
  | inr other ↦ ground (arith, has_pid-without_pid v w xs)
]

has_pid-lists_after :
    (o : Option ℕ) (v w r : ℕ) (xs : ℕ → Items)
    → has_pid v (lists_after o w xs r) ≡ true
    → has_pid v (xs r) ≡ true
has_pid-lists_after none v w r xs h = h
has_pid-lists_after (some p) v w r xs h = elim (Bool-cases (r == p)) [
  | inl same ↦ let e : r ≡ p = ground arith in rw e (has_pid-without_pid v w (xs p) (ground arith))
  | inr other ↦ ground arith
]

-- Lists without the pid are still covered when it leaves the map.
Covers-Without :
    (m n : Map) (o : Option ℕ) (pid : ℕ) (xs : ℕ → Items)
    → pid < 2 ^ 64
    → Without m (proc_key pid) n
    → Lacks pid (lists_after o pid xs)
    → Covers m xs
    → Covers n (lists_after o pid xs)
Covers-Without m n o pid xs small without lacks covers r v h in_r =
    let (low, b, bound) = covers r v h (has_pid-lists_after o v pid r xs in_r) in
    let other : proc_key v ≢ proc_key pid = λ e.
      let same : v ≡ pid = proc_key_injective v pid low small e in
      true-ne-false _ in_r (rw same (lacks r h)) in
    (low, b, (without (proc_key v) b).1 (other, bound))

-- What `leave` leaves of the system.
pub record IsLeft (s : System) (pid : ℕ) (heap : Heap) (xs ys : ℕ → Items) (r : Exec System)
    : Type 0 where
  pub after : System
  pub returns : r ≡ done after
  pub valid : IsMap after.procmap
  pub top : after.procmap.max ≡ s.procmap.max
  pub gone : Without s.procmap (proc_key pid) after.procmap
  pub queues : IsRun after.run xs ys
  pub covers_active : Covers after.procmap xs
  pub covers_inactive : Covers after.procmap ys
  pub lacks_active : Lacks pid xs
  pub lacks_inactive : Lacks pid ys
  pub current : after.current ≡ no_proc
  pub memory : after.heap ≡ heap
  pub tables : after.kernel ≡ s.kernel
  pub spaces : after.spaces ≡ s.spaces
  pub resumes : (v : ℕ) (p : ArchProcState) → resumed after v p ≡ resumed s v p

-- The lists once the first node of the pid left.
abbrev pub active_after : ℕ → (ℕ → Items) → ℕ → Items
active_after pid xs = lists_after (priority_of 5 0 pid xs) pid xs

abbrev pub inactive_after : ℕ → (ℕ → Items) → (ℕ → Items) → ℕ → Items
inactive_after pid xs ys =
    lists_after (second (priority_of 5 0 pid xs) (priority_of 5 0 pid ys)) pid ys

module _ (fuel : ℕ) (blocks : ℕ → MapBlocks) (table : MapBlocks) (p : Proc) (s : System)
    {xs ys : ℕ → Items} where
  -- Let the fuel be above the length of every list, procmap be well formed with `max` above 0 and
  -- hold a process for every pid in the queues, and let the queues have one node at most with the pid
  -- of the leaving process, which is below 2 ^ 64. When the memory can be given back, its node, its key
  -- and its value among it, what syscall_exit does before its switch ends. Then the pid is in no queue and not in procmap, nothing
  -- else left procmap, procmap still holds a process for every pid in the queues, the other nodes
  -- keep their order, and no process is current.
  pub leave-IsLeft :
      (heap : Heap)
      → IsMap s.procmap
      → s.procmap.max ≢ 0
      → IsRun s.run xs ys
      → Enough fuel xs
      → Enough fuel ys
      → Covers s.procmap xs
      → Covers s.procmap ys
      → p.pid < 2 ^ 64
      → Lacks p.pid (active_after p.pid xs)
      → Lacks p.pid (inactive_after p.pid xs ys)
      → give_back fuel blocks table p s ≡ done heap
      → IsLeft s p.pid heap
          (active_after p.pid xs)
          (inactive_after p.pid xs ys)
          (leave fuel blocks table p s)
  unfolding leave
  leave-IsLeft heap is pos run few few' covers covers' small lacks lacks' freed =
      let un = unschedule-IsUnscheduled fuel run p.pid few few' in
      let (m, del, valid, without, top, _) = map_del-Without is (proc_key p.pid) pos in
      record {
        after = record s { run = un.state; heap = heap; procmap = m; current = no_proc };
        returns = rw (un.returns, freed, del) refl;
        valid = valid;
        top = top;
        gone = without;
        queues = un.queues;
        covers_active = Covers-Without s.procmap m _ p.pid xs small without lacks covers;
        covers_inactive = Covers-Without s.procmap m _ p.pid ys small without lacks' covers';
        lacks_active = lacks;
        lacks_inactive = lacks';
        current = refl;
        memory = refl;
        tables = refl;
        spaces = refl;
        resumes = λ v q. refl;
      }
