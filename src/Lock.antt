-- ===== src/Lock.antt =====
-- kernel/include/lock.h: a spin lock, and the start of proc_new of kernel/proc.c, which takes a pid, as
-- several CPUs run it at the same time. Calls of proc_new have numbers; a step is one access of a call
-- to shared memory.
pub mod Exclusion
use silkware.Base.{ℕ, ◌+◌, ◌^◌, ◌<◌, ◌≡◌, Bool, true, false, ◌==◌, if◌then◌else◌}
use silkware.Sched.{assign}

-- `atomic_flag_test_and_set`: what the flag was, and what it is.
unfoldable pub test_and_set : Bool → Bool × Bool
test_and_set flag = (flag, true)

-- `LOCK_CLEAR` and `RELEASE`
unfoldable pub lock_clear : Bool → Bool
lock_clear flag = false

-- Where a call stands: before `ACQUIRE`, behind it, with `pid_cur` read, with the new value written
-- back, behind `RELEASE`, and with `pid_cur` read again for `p.pid`.
pub data Stage : Type 0 where
  waiting : Stage
  inside : Stage
  loaded : ℕ → Stage
  counted : ℕ → Stage
  released : ℕ → Stage
  named : ℕ → ℕ → Stage

-- `pid_cur_lock` and `pid_cur`, and the calls.
pub record Shared : Type 0 where
  pub held : Bool
  pub pid_cur : ℕ
  pub at : ℕ → Stage

-- A round of the loop of `ACQUIRE`.
unfoldable pub acquire_once : ℕ → Shared → Shared
unfolding test_and_set
acquire_once t s =
    let r = test_and_set s.held in
    record s { held = r.1; at = if r.0 then s.at else assign s.at t inside }

unfoldable pub load_pid : ℕ → Shared → Shared
load_pid t s = record s { at = assign s.at t (loaded s.pid_cur) }

unfoldable pub store_pid : ℕ → ℕ → Shared → Shared
store_pid t x s = record s { pid_cur = x + 1; at = assign s.at t (counted (x + 1)) }

unfoldable pub release_lock : ℕ → ℕ → Shared → Shared
unfolding lock_clear
release_lock t pid s = record s { held = lock_clear s.held; at = assign s.at t (released pid) }

unfoldable pub name_proc : ℕ → ℕ → Shared → Shared
name_proc t pid s = record s { at = assign s.at t (named pid s.pid_cur) }

-- A step of one call. The runs are those in which `pid_cur` does not wrap round.
pub data Step : Shared → Shared → Type 0 where
  acquire : {s : Shared} (t : ℕ) → s.at t ≡ waiting → Step s (acquire_once t s)
  load : {s : Shared} (t : ℕ) → s.at t ≡ inside → Step s (load_pid t s)
  store : {s : Shared} (t x : ℕ) → s.at t ≡ loaded x → x + 1 < 2 ^ 64 → Step s (store_pid t x s)
  release : {s : Shared} (t pid : ℕ) → s.at t ≡ counted pid → Step s (release_lock t pid s)
  name_it : {s : Shared} (t pid : ℕ) → s.at t ≡ released pid → Step s (name_proc t pid s)

-- Any number of steps, of any calls in any order.
pub data Steps : Shared → Shared → Type 0 where
  none_more : {s : Shared} → Steps s s
  one_more : {s t u : Shared} → Step s t → Steps t u → Steps s u

-- No process was made, and no call started.
abbrev pub start_state : Shared
start_state = record { held = false; pid_cur = 0; at = λ t. waiting }
