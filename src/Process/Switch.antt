-- ===== src/Process/Switch.antt =====
-- kernel/arch/x86_64/ctx.c: what `ctx_switch` saves, and what it goes on with.
use silkware.Base.{ℕ, ◌<◌, ◌≡◌, ◌≢◌, refl, false, [], ◌∷◌, arith, ◌==◌}
use silkware.Base.Exec.{Exec, done}
use silkware.Context.{ArchProcState, IrqFrame, irq2state}
use silkware.Links.{Items}
use silkware.Map.{Bytes, Map}
use silkware.Map.Lookup.{IsMap, Binds}
use silkware.Map.Set.{Assigns}
use silkware.Paging.{Layout}
use silkware.Sched.{Run}
use silkware.Sched.Queues.{IsRun}
use silkware.Sched.Pop.{pop_unlocked-IsRun}
use silkware.Process.{ProcBytes, user_proc, System, proc_key, next_pid, with_state, store_value}
use silkware.Process.Values.{IsStoredIn, store_value-IsStoredIn}

-- What `ctx_switch` leads to: the registers `state` that it loads, and the system.
pub record IsSwitched (c : ProcBytes) (s : System) (pid v : ℕ) (saved : Bytes) (xs ys : ℕ → Items)
    (state : ArchProcState) (r : Exec (ArchProcState × System)) : Type 0 where
  pub after : System
  pub returns : r ≡ done (state, after)
  pub valid : IsMap after.procmap
  pub top : after.procmap.max ≡ s.procmap.max
  pub procs : Assigns s.procmap (proc_key pid) saved after.procmap
  pub queues : IsRun after.run xs ys
  pub current : after.current ≡ user_proc v

pub next_pid-front :
    {s : Run} {xs ys : ℕ → Items} (is : IsRun s xs ys) (p a v : ℕ) (rest : Items)
    → p < 5
    → ((r : ℕ) → r < p → xs r ≡ [])
    → xs p ≡ (a, v) ∷ rest
    → v ≢ 0
    → next_pid s ≡ v
unfolding next_pid
next_pid-front is p a v rest low above front pos =
    let e = (pop_unlocked-IsRun is p a v rest low above front).0 in
    let some_pid : (v == 0) ≡ false = ground arith in rw (e, some_pid) refl

module _ (c : ProcBytes) (fuel : ℕ) (l : Layout) (home : ℕ → ℕ) (frame : IrqFrame) (s : System)
    (pid : ℕ) (b : Bytes) where
  abbrev saved : Bytes
  saved = with_state c (irq2state frame) b

  module _ {xs ys : ℕ → Items} (at : s.current ≡ user_proc pid) (is : IsMap s.procmap)
      (pos : s.procmap.max ≢ 0) (own : Binds s.procmap (proc_key pid) b) (run : IsRun s.run xs ys)
      (p a v : ℕ) (rest : Items) (low : p < 5) (above : (r : ℕ) → r < p → xs r ≡ [])
      (front : xs p ≡ (a, v) ∷ rest) (some_pid : v ≢ 0) where
    abbrev stored :
        IsStoredIn s.procmap pid saved (store_value s.procmap pid (with_state c (irq2state frame)))
    stored = store_value-IsStoredIn is pid b (with_state c (irq2state frame)) pos own
