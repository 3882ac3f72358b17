-- ===== src/Context.antt =====
-- kernel/arch/x86_64/ctx.c and proc.c: the registers of a process. Those of `struct regs` are a list
-- in their order.
use silkware.Base.{ℕ, List}

-- `struct arch_proc_state`
pub record ArchProcState : Type 0 where
  pub regs : List ℕ
  pub rsp : ℕ
  pub rip : ℕ
  pub flags : ℕ

-- `struct irq_frame`
pub record IrqFrame : Type 0 where
  pub regs : List ℕ
  pub num : ℕ
  pub error_code : ℕ
  pub ip : ℕ
  pub cs : ℕ
  pub flags : ℕ
  pub sp : ℕ
  pub ss : ℕ

unfoldable pub irq2state : IrqFrame → ArchProcState
irq2state frame = record { rsp = frame.sp; rip = frame.ip; flags = frame.flags; regs = frame.regs }

-- The state of the new process; STACK_TOP and PROC_ENTRY are the stack and the start.
unfoldable pub procp_init : ArchProcState → ArchProcState
procp_init p = record p { rsp = 0x100000000; rip = 0x100000; flags = 0x202 }
