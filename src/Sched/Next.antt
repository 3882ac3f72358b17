-- ===== src/Sched/Next.antt =====
-- `proc_next`: the process that runs next.
use silkware.Base.{ℕ, ◌<◌, ◌≡◌, ◌≢◌, refl, false, some, [], ◌∷◌, arith, ◌==◌, Bool-cases, inl, inr}
use silkware.Base.Exec.{Exec, done, panicked}
use silkware.Links.{Items, has}
use silkware.Map.{Bytes, Map, map_get, le_bytes}
use silkware.Map.Lookup.{true-ne-false}
use silkware.Sched.{assign, Run, pop_unlocked, swap_queues, proc_activate, proc_next}
use silkware.Sched.Queues.{IsRun, behind}
use silkware.Sched.Pop.{pop_unlocked-IsRun, pop_unlocked-empty}

pub swap_queues-IsRun : {s : Run} {xs ys : ℕ → Items} → IsRun s xs ys → IsRun (swap_queues s) ys xs
unfolding swap_queues
swap_queues-IsRun {s} {xs} {ys} is = record {
  active = is.inactive;
  inactive = is.active;
  apart_active = is.apart_inactive;
  apart_inactive = is.apart_active;
  apart = λ p r a h k in_p. elim (Bool-cases (has a (xs r))) [
    | inl found ↦ absurd (true-ne-false _ in_p (is.apart r p a k h found))
    | inr missing ↦ missing
  ];
}

-- What `proc_next` leads to: the process `b`, and queues that hold `xs` and `ys`.
pub record IsNext (b : Bytes) (xs ys : ℕ → Items) (r : Exec (Bytes × Run)) : Type 0 where
  pub state : Run
  pub returns : r ≡ done (b, state)
  pub queues : IsRun state xs ys

activates :
    (procmap : Map) (v : ℕ) (b : Bytes)
    → map_get procmap (le_bytes 8 v) ≡ done (some b)
    → proc_activate procmap v ≡ done b
unfolding proc_activate
activates procmap v b known = rw known refl

module _ {s : Run} {xs ys : ℕ → Items} (is : IsRun s xs ys) (procmap : Map) where
  -- With a node in the active queue, of highest priority `p` and a pid that is not 0 and is in
  -- procmap, proc_next makes that process current and moves its node behind the inactive list of
  -- the same priority.
  pub proc_next-IsNext :
      (p a v : ℕ) (rest : Items) (b : Bytes)
      → p < 5
      → ((r : ℕ) → r < p → xs r ≡ [])
      → xs p ≡ (a, v) ∷ rest
      → v ≢ 0
      → map_get procmap (le_bytes 8 v) ≡ done (some b)
      → IsNext b (assign xs p rest) (behind ys p a v) (proc_next procmap s)
  unfolding proc_next
  proc_next-IsNext p a v rest b low above front pos known =
      let (pid, run) = pop_unlocked-IsRun is p a v rest low above front in
      let some_pid : (v == 0) ≡ false = ground arith in
      record {
        state = (pop_unlocked s).1;
        returns = rw (pid, some_pid, activates procmap v b known) refl;
        queues = run;
      }

  -- With no node in the active queue, proc_next exchanges the two queues and does the same there:
  -- the node of highest priority `p` of the inactive queue comes to run, and moves to what was the
  -- active queue.
  pub proc_next-IsNext_swapped :
      (p a v : ℕ) (rest : Items) (b : Bytes)
      → p < 5
      → ((r : ℕ) → r < 5 → xs r ≡ [])
      → ((r : ℕ) → r < p → ys r ≡ [])
      → ys p ≡ (a, v) ∷ rest
      → v ≢ 0
      → map_get procmap (le_bytes 8 v) ≡ done (some b)
      → IsNext b (assign ys p rest) (behind xs p a v) (proc_next procmap s)
  unfolding proc_next
  proc_next-IsNext_swapped p a v rest b low none_left above front pos known =
      let swapped = swap_queues-IsRun is in
      let empty = pop_unlocked-empty is none_left in
      let (pid, run) = pop_unlocked-IsRun swapped p a v rest low above front in
      let some_pid : (v == 0) ≡ false = ground arith in
      record {
        state = (pop_unlocked (swap_queues s)).1;
        returns = rw (empty, pid, some_pid, activates procmap v b known) refl;
        queues = run;
      }

  -- With no node in either queue, proc_next panics.
  proc_next_panics :
      ((r : ℕ) → r < 5 → xs r ≡ []) → ((r : ℕ) → r < 5 → ys r ≡ []) → proc_next procmap s ≡ panicked
  unfolding proc_next
  proc_next_panics none_left none_at_all =
      let empty = pop_unlocked-empty is none_left in
      rw (empty, pop_unlocked-empty (swap_queues-IsRun is) none_at_all) refl
