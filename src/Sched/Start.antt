-- ===== src/Sched/Start.antt =====
-- kernel/sched.c: the queues that sched_init leaves.
use silkware.Base.{
  ℕ, zero, suc, ◌+◌, ◌<◌, ◌≤◌, ◌≡◌, refl, ap, ◌∙◌, ◌==◌, false, Bool-cases, inl, inr, [], arith,
}
use silkware.Links.{Cells}
use silkware.Sched.{CpuQueue, Sched, run_of, assign, empty_queue, init_loop, sched_init}
use silkware.Sched.Fifo.{IsFifo}
use silkware.Sched.Queues.{IsRun}

-- Both queues are empty.
record IsCleared (q : CpuQueue) : Type 0 where
  active : q.active ≡ empty_queue
  inactive : q.inactive ≡ empty_queue

init_loop-before : (left i c : ℕ) (cpus : ℕ → CpuQueue) → c < i → init_loop left cpus i c ≡ cpus c
unfolding init_loop
init_loop-before zero i c cpus h = refl
init_loop-before (suc left) i c cpus h =
    let other : (c == i) ≡ false = ground arith in
    init_loop-before left (i + 1) c _ (omega arith) ∙ rw other refl

init_loop-IsCleared :
    (left i c : ℕ) (cpus : ℕ → CpuQueue)
    → i ≤ c
    → c < i + left
    → IsCleared (init_loop left cpus i c)
unfolding init_loop
init_loop-IsCleared zero i c cpus h l = absurd (omega arith)
init_loop-IsCleared (suc left) i c cpus h l =
    let fresh : CpuQueue = record (cpus i) { active = empty_queue; inactive = empty_queue } in
    elim (Bool-cases (c == i)) [
      | inl t ↦
          let own : assign cpus i fresh c ≡ fresh = rw t refl in
          let e = init_loop-before left (i + 1) c (assign cpus i fresh) (ground arith) ∙ own in
          record {
            active = ap (λ (q : CpuQueue). q.active) e;
            inactive = ap (λ (q : CpuQueue). q.inactive) e;
          }
      | inr f ↦
          init_loop-IsCleared left (i + 1) c (assign cpus i fresh) (ground arith) (omega arith)
    ]

IsFifo-nil : (h : Cells) → IsFifo h 0 0 []
IsFifo-nil h = record { chain = refl; final = refl; some_node = refl; distinct = tt }

-- After sched_init every CPU below ncpus has two queues whose lists are empty at each priority,
-- whatever the memory of the queues held.
pub sched_init-IsRun :
    (ncpus c : ℕ) (s : Sched)
    → c < ncpus
    → IsRun (run_of (sched_init ncpus s) c) (λ p. []) (λ p. [])
unfolding sched_init
sched_init-IsRun ncpus c s h =
    let is = init_loop-IsCleared ncpus 0 c s.cpus (omega arith) (omega arith) in
    record {
      active = λ p l. rw is.active (IsFifo-nil s.nodes);
      inactive = λ p l. rw is.inactive (IsFifo-nil s.nodes);
      apart_active = λ p r a h' l ne m. refl;
      apart_inactive = λ p r a h' l ne m. refl;
      apart = λ p r a h' l m. refl;
    }
