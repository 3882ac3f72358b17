-- ===== src/Process.antt =====
-- kernel/proc.c, kernel/syscall.c, kernel/arch/x86_64/ctx.c and proc_pages_init of
-- kernel/arch/x86_64/paging.c: the life of a process on one CPU. A `struct proc` is a value in
-- `procmap`, as bytes; what it points to is in a store by address.
pub mod Create
pub mod Release
pub mod Values
pub mod Switch
pub mod Exit
pub mod Leaving
use silkware.Base.{
  ℕ, zero, suc, ◌+◌, ◌*◌, ◌≡◌, ◌==◌, if◌then◌else◌, false, not, List, [], ◌∷◌, ◌<◌, ◌^◌, length,
  Option, none, some, set, u64, page_size,
}
use silkware.Base.Exec.{Exec, done, fault, ◌>>=◌, ◌>>◌, assert}
use silkware.Context.{ArchProcState, IrqFrame, irq2state, procp_init}
use silkware.Kalloc.{Heap, kalloc, kfree}
use silkware.Map.{
  Bytes, Map, MapItem, item_at, le_bytes, map_new, map_get, map_insert, map_del, find_slot, is_free,
}
use silkware.PageAlloc.{Pages, page_alloc, page_free}
use silkware.Paging.{Layout, set_word}
use silkware.Paging.Calls.{Kernel, flush_pages}
use silkware.Paging.Spaces.{Space, Maker, map_pages, addrspace_free}
use silkware.Sched.{Run, pop_unlocked, swap_queues, proc_next, unschedule}

-- `struct segment`
pub record Segment : Type 0 where
  pub perms : ℕ
  pub kvirt : ℕ
  pub base : ℕ
  pub len : ℕ

-- `Flex(struct segment)`
pub record Segments : Type 0 where
  pub n : ℕ
  pub item : ℕ → Segment

-- `struct proc`; the last three members are addresses.
pub record Proc : Type 0 where
  pub arch_state : ArchProcState
  pub pid : ℕ
  pub fsfd : ℕ
  pub segs : ℕ
  pub space : ℕ

-- How the compiler lays a `struct proc` out in memory.
pub record ProcBytes : Type 0 where
  pub read : Bytes → Proc
  pub write : Proc → Bytes

-- Every number of a list has 64 digits.
abbrev pub AllSmall : List ℕ → Type 0
AllSmall [] = Unit
AllSmall (x ∷ xs) = (x < 2 ^ 64) × AllSmall xs

-- Every member fits its type.
pub record IsInRange (p : Proc) : Type 0 where
  pub regs : AllSmall p.arch_state.regs
  pub count : length p.arch_state.regs ≡ 15
  pub rsp : p.arch_state.rsp < 2 ^ 64
  pub rip : p.arch_state.rip < 2 ^ 64
  pub flags : p.arch_state.flags < 2 ^ 64
  pub pid : p.pid < 2 ^ 64
  pub fsfd : p.fsfd < 2 ^ 64
  pub segs : p.segs < 2 ^ 64
  pub space : p.space < 2 ^ 64

-- What is written is read again.
pub record IsLaidOut (c : ProcBytes) : Type 0 where
  pub read-write : (p : Proc) → IsInRange p → c.read (c.write p) ≡ p

-- `proc_current` of the CPU: NULL, `kproc`, or the value in procmap under a pid.
pub data Current : Type 0 where
  no_proc : Current
  kernel_proc : Current
  user_proc : ℕ → Current

-- The kernel as the CPU sees it: its queues, the processes, the memory and the tables. `kernel_rsp` is
-- the stack pointer that return_user_ stores in `kstack`, `pointer_of` the address of a process, and
-- `beyond` the thirteen words of memory behind the first two of the CPU's `cpu_data`.
pub record System : Type 0 where
  pub run : Run
  pub procmap : Map
  pub pid_cur : ℕ
  pub current : Current
  pub kproc : ArchProcState
  pub heap : Heap
  pub kernel : Kernel
  pub spaces : ℕ → Space
  pub segments : ℕ → Segments
  pub kernel_rsp : ℕ
  pub pointer_of : Current → ℕ
  pub beyond : List ℕ

abbrev pub proc_key : ℕ → Bytes
proc_key pid = le_bytes 8 pid

-- A write through a pointer to the value under a pid, which is dangling where there is none.
unfoldable pub store_value : Map → ℕ → (Bytes → Bytes) → Exec Map
store_value m pid change = find_slot m (proc_key pid) >>= λ slot. elim slot [
  | none ↦ fault
  | some i ↦
      let old = item_at m i in
      let item : MapItem = record old { v = record old.v { item = change old.v.item } } in
      done (record m { cell = set m.cell i item })
]

-- The pid of the process that `proc_next` makes current.
unfoldable pub next_pid : Run → ℕ
next_pid s =
    let first = pop_unlocked s in
    if first.0 == 0 then (pop_unlocked (swap_queues first.1)).0 else first.0

-- The registers that return_user_ goes on with: rip, rsp and flags are those of the process, and the
-- others are loaded from `cpu_data` on, since rax holds its address again by then. Its first words
-- are `kstack`, just stored, and `proc_current`. The stores of segment registers are left out.
unfoldable pub return_user_ : System → ArchProcState → ArchProcState
return_user_ s p = record p { regs = s.kernel_rsp ∷ s.pointer_of s.current ∷ s.beyond }

-- What a process with the pid `v` and the registers `p` goes on with.
abbrev pub resumed : System → ℕ → ArchProcState → ArchProcState
resumed s v p = record {
  regs = s.kernel_rsp ∷ s.pointer_of (user_proc v) ∷ s.beyond;
  rsp = p.rsp;
  rip = p.rip;
  flags = p.flags;
}

module _ (c : ProcBytes) where
  -- `p->arch_state = state`
  abbrev pub with_state : ArchProcState → Bytes → Bytes
  with_state state b = c.write (record (c.read b) { arch_state = state })

  -- `if (cpu->proc_current && frame) cpu->proc_current->arch_state = irq2state(frame);`
  unfoldable pub save_state : Option IrqFrame → Current → System → Exec System
  unfolding irq2state store_value
  save_state none current s = done s
  save_state (some frame) no_proc s = done s
  save_state (some frame) kernel_proc s = done (record s { kproc = irq2state frame })
  save_state (some frame) (user_proc pid) s =
      store_value s.procmap pid (with_state (irq2state frame)) >>= λ (m : Map).
      done (record s { procmap = m })

  -- The registers that the processor goes on with, and the system. The printing is left out; it reads the
  -- space, which must not be NULL.
  unfoldable pub ctx_switch :
      ℕ → Layout → (ℕ → ℕ) → Option IrqFrame → System → Exec (ArchProcState × System)
  unfolding save_state proc_next next_pid flush_pages return_user_
  ctx_switch fuel l home frame s = save_state frame s.current s >>= λ (s1 : System).
      proc_next s1.procmap s1.run >>= λ (r : Bytes × Run).
      let p = c.read r.0 in
      let top = (s1.spaces p.space).addr in
      let switched = flush_pages fuel l home (some top) (record s1.kernel { current = some top }) in
      if p.space == 0
      then fault
      else (switched >>= λ (k : Kernel).
          assert (not (p.arch_state.rip == 0))
          >> (let s2 : System = record s1 {
            run = r.1;
            kernel = k;
            current = user_proc (next_pid s1.run);
          } in
              done (return_user_ s2 p.arch_state, s2)))
