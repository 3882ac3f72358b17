-- ===== src/Process/Leaving.antt =====
-- kernel/syscall.c: syscall_exit as a whole, up to the process that runs next.
use mathlib.Core.Path.{subst}
use silkware.Base.{ℕ, ◌^◌, ◌<◌, ◌≡◌, ◌≢◌, refl, ap, false, none, some, [], ◌∷◌, arith, ◌==◌}
use silkware.Base.Exec.{Exec, done}
use silkware.Context.{ArchProcState}
use silkware.Kalloc.{Heap}
use silkware.Links.{Items}
use silkware.Map.{Bytes, Map, map_get}
use silkware.Map.Lookup.{IsMap, Binds}
use silkware.Map.Set.{map_get-Binds_iff}
use silkware.Map.Update.{Without}
use silkware.Paging.{Layout}
use silkware.Paging.Calls.{Kernel, flush_pages}
use silkware.Sched.{assign}
use silkware.Sched.Queues.{IsRun, behind}
use silkware.Sched.Next.{proc_next-IsNext}
use silkware.Sched.Unschedule.{Enough}
use silkware.Process.{
  Proc, ProcBytes, user_proc, System, proc_key, next_pid, save_state, ctx_switch, resumed,
  return_user_,
}
use silkware.Process.Release.{MapBlocks, give_back, leave, syscall_exit}
use silkware.Process.Switch.{next_pid-front}
use silkware.Process.Exit.{Covers, Lacks, active_after, inactive_after, leave-IsLeft}

-- A switch without a frame: the process `v` goes on, with the registers `state`.
pub record IsResumed (m : Map) (v : ℕ) (xs ys : ℕ → Items) (state : ArchProcState)
    (r : Exec (ArchProcState × System)) : Type 0 where
  pub after : System
  pub returns : r ≡ done (state, after)
  pub processes : after.procmap ≡ m
  pub queues : IsRun after.run xs ys
  pub current : after.current ≡ user_proc v

module _ (c : ProcBytes) (fuel : ℕ) (l : Layout) (home : ℕ → ℕ) where
  -- The tables of the process can be loaded.
  abbrev pub Loads : System → Proc → Kernel → Type 0
  Loads s p k =
      flush_pages fuel l home (some (s.spaces p.space).addr)
        (record s.kernel { current = some (s.spaces p.space).addr })
      ≡ done k

  ctx_switch-IsResumed :
      (s : System) {xs ys : ℕ → Items} (p a v : ℕ) (rest : Items) (bv : Bytes) (k : Kernel)
      → IsMap s.procmap
      → s.procmap.max ≢ 0
      → IsRun s.run xs ys
      → p < 5
      → ((r : ℕ) → r < p → xs r ≡ [])
      → xs p ≡ (a, v) ∷ rest
      → v ≢ 0
      → Binds s.procmap (proc_key v) bv
      → (c.read bv).space ≢ 0
      → (c.read bv).arch_state.rip ≢ 0
      → Loads s (c.read bv) k
      → IsResumed s.procmap v
          (assign xs p rest)
          (behind ys p a v)
          (resumed s v (c.read bv).arch_state)
          (ctx_switch c fuel l home none s)
  unfolding ctx_switch save_state return_user_
  ctx_switch-IsResumed s p a v rest bv k is pos run low above front some_pid bound space rip flush =
      let known = (map_get-Binds_iff is (proc_key v) bv pos).1 bound in
      let next = proc_next-IsNext run s.procmap p a v rest bv low above front some_pid known in
      let front_pid = next_pid-front run p a v rest low above front some_pid in
      let some_space : ((c.read bv).space == 0) ≡ false = ground arith in
      let some_rip : ((c.read bv).arch_state.rip == 0) ≡ false = ground arith in
      record {
        after = record s { run = next.state; kernel = k; current = user_proc (next_pid s.run) };
        returns =
            rw (next.returns, some_space, flush, some_rip)
              (ap
                (λ (t : ℕ). done (
                  resumed s t (c.read bv).arch_state,
                  record s { run = next.state; kernel = k; current = user_proc (next_pid s.run) },
                ))
                front_pid);
        processes = refl;
        queues = next.queues;
        current = ap user_proc front_pid;
      }

  exit_run :
      (blocks : ℕ → MapBlocks) (table : MapBlocks) (s t : System) (pid : ℕ) (b : Bytes)
      → s.current ≡ user_proc pid
      → map_get s.procmap (proc_key pid) ≡ done (some b)
      → leave fuel blocks table (c.read b) s ≡ done t
      → syscall_exit c fuel l home blocks table s ≡ ctx_switch c fuel l home none t
  unfolding syscall_exit
  exit_run blocks table s t pid b at known left = rw (at, known, left) refl

  -- Let the fuel be above the length of every list, procmap be well formed with `max` above 0, hold
  -- the current process `pid` and a process for every pid in the queues, and let the queues have one
  -- node at most with the pid that the process has in its own `pid`, which is below 2 ^ 64. Let the
  -- memory be one that can be given back, and let the node behind the removed one that comes first by
  -- priority in the active queue be of a pid `v` that is not 0 and that procmap holds without the
  -- leaving process, with a space, an instruction that is not 0 and tables that flush_pages can load.
  -- Then syscall_exit goes on with the rip, rsp and flags of `v` and fifteen registers from the words
  -- of the CPU's `cpu_data` and behind it. Nothing but the leaving process left procmap,
  -- its pid is in no queue, and the node of `v` moved behind the inactive list of its priority.
  pub syscall_exit-IsResumed :
      (blocks : ℕ → MapBlocks) (table : MapBlocks) (s : System) {xs ys : ℕ → Items} (pid : ℕ)
      (b : Bytes) (heap : Heap)
      → s.current ≡ user_proc pid
      → IsMap s.procmap
      → s.procmap.max ≢ 0
      → Binds s.procmap (proc_key pid) b
      → IsRun s.run xs ys
      → Enough fuel xs
      → Enough fuel ys
      → Covers s.procmap xs
      → Covers s.procmap ys
      → (c.read b).pid < 2 ^ 64
      → Lacks (c.read b).pid (active_after (c.read b).pid xs)
      → Lacks (c.read b).pid (inactive_after (c.read b).pid xs ys)
      → give_back fuel blocks table (c.read b) s ≡ done heap
      → (p a v : ℕ) (rest : Items) (bv : Bytes) (k : Kernel) → p < 5
      → ((r : ℕ) → r < p → active_after (c.read b).pid xs r ≡ [])
      → active_after (c.read b).pid xs p ≡ (a, v) ∷ rest
      → v ≢ 0
      → proc_key v ≢ proc_key (c.read b).pid
      → Binds s.procmap (proc_key v) bv
      → (c.read bv).space ≢ 0
      → (c.read bv).arch_state.rip ≢ 0
      → Loads s (c.read bv) k
      → (m : Map) × Without s.procmap (proc_key (c.read b).pid) m
        × IsResumed m v
            (assign (active_after (c.read b).pid xs) p rest)
            (behind (inactive_after (c.read b).pid xs ys) p a v)
            (resumed s v (c.read bv).arch_state)
            (syscall_exit c fuel l home blocks table s)
  syscall_exit-IsResumed blocks table s {xs} {ys} pid b heap at is pos own run few few' covers
        covers' small lacks lacks' freed p a v rest bv k low above front some_pid other bound space
        rip flush =
      let left =
        leave-IsLeft fuel blocks table (c.read b) s heap is pos run few few' covers covers' small
          lacks lacks' freed in
      let known = (map_get-Binds_iff is (proc_key pid) b pos).1 own in
      let whole = exit_run blocks table s left.after pid b at known left.returns in
      let still = (left.gone (proc_key v) bv).1 (other, bound) in
      let loads : Loads left.after (c.read bv) k = rw (left.tables, left.spaces) flush in
      let next =
        ctx_switch-IsResumed left.after p a v rest bv k left.valid (rw left.top pos) left.queues low
          above front some_pid still space rip loads in
      let same = left.resumes v (c.read bv).arch_state in
      let states = λ (t : ArchProcState).
        IsResumed left.after.procmap v (assign (active_after (c.read b).pid xs) p rest)
          (behind (inactive_after (c.read b).pid xs ys) p a v) t
          (syscall_exit c fuel l home blocks table s) in
      (left.after.procmap, left.gone, subst states same (rw whole next))
