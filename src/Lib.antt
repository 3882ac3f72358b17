-- ===== src/Lib.antt =====
-- Silkware, a kernel for x86-64 written in C: its memory operations, its page allocator, its
-- heap, its hash map, its scheduler, its page tables, its screen and the devices that it drives.
--
-- The allocator hands out pages of the memory that paging has mapped; every part of the kernel
-- uses it, kalloc among them, from which the hash map has its cells, and the map is the table of
-- processes and of page tables. A C function is here a function of the same name from the state
-- before the call to the state after it.
--
-- * Base has the numbers, tests, lists and words that all files share. Base/Exec has the results
--   of a call: `done`, `panicked` (a panic, a failed assertion or an `unreachable`), `fault` (an
--   access through NULL, out of bounds or at an index that is not initialised, or a division by
--   0) and `out_of_fuel`. Base/Spin is the loop that waits for a device.
-- * Bits has lemmas on binary digits.
-- * Mem is kernel/mem.c over a memory that maps addresses to bytes.
-- * Links has the linked lists in memory that the allocators' free lists are: a cell at each
--   address, with `next` and one word beside it.
-- * PageAlloc is kernel/page_alloc.c: `Pages` is the block headers with the array `pools`;
--   prev_pow2 and next_pow2 are in PageAlloc/Pow2, page_alloc_init is in PageAlloc/Init over an
--   interface for its calls of premap_anon and miniheap_alloc, which paging_premapper in
--   Paging/Calls fills, with round_up_page of kernel/paging.c. PageAlloc/Resize has page_realloc
--   and page_zalloc.
-- * Kalloc is kernel/kalloc.c: the heap of one CPU, in the same memory of headers as the pages,
--   with srand_insecure of kernel/rand.c for its canaries. Kalloc/Fit is the search for a block
--   and its cut, Kalloc/Insert insert_block, and Kalloc/Resize krealloc, kzalloc and
--   kalloc_init.
-- * Map is kernel/map.c with kernel/include/map.h and kernel/include/flex.h: `Map` has the
--   fields of the struct, and a cell owns its key and value. Map/Search is the loop that
--   map_get, map_del and map_insert share.
-- * Sched is kernel/sched.c with kernel/include/sched.h: `Run` is the nodes and the two queues
--   of one CPU, `Sched` those of all CPUs. Sched/Fifo is one list of a queue, Sched/Queues
--   push_unlocked, Sched/Pop pop_unlocked, Sched/Next proc_next, Sched/Schedule schedule,
--   Sched/Remove and Sched/Unschedule the loops of queue_tryremove, Sched/Leave unschedule,
--   Sched/Sweep and Sched/Rounds calls of proc_next one after the other, and Sched/Start
--   sched_init. The block that kalloc returns is an argument of schedule.
-- * Paging is kernel/arch/x86_64/paging.c with miniheap_alloc of kernel/miniheap.c: `Tables` is
--   the words of the page tables and `brk`, `Layout` the addresses that the linker and the boot
--   loader give. Paging/Calls has the calls on the kernel's own tables with `end_pos`, cr3 and
--   the addresses that are flushed, Paging/Spaces those on the spaces of processes, whose tables
--   come from page_alloc and are found by a hash map. Paging/Window and Paging/Translate are
--   about kvirt2phys, Paging/Refresh about refresh_pages.
-- * Descriptors is kernel/arch/x86_64/gdt.c and kernel/arch/x86_64/idt.c; Descriptors/Segments
--   is about make_gdt, Descriptors/Gates about idt_init. The addresses of the handlers, which
--   are assembly, are a parameter.
-- * Process is kernel/proc.c, kernel/syscall.c, ctx_switch of kernel/arch/x86_64/ctx.c,
--   proc_pages_init of kernel/arch/x86_64/paging.c and map_free of kernel/map.c: `System` has
--   the queues, the table of processes, the heap and the page tables of Sched, Map, Kalloc and
--   Paging. Process/Create is proc_new, Process/Release syscall_exit. Process/Values is about
--   writes through proc_current, Process/Switch about ctx_switch, Process/Exit about what
--   syscall_exit takes away, Process/Leaving about syscall_exit as a whole. The layout of a
--   `struct proc` in bytes is the compiler's, and so a parameter with one law: what is written
--   and fits its type is read again. `return_user_` of kernel/arch/x86_64/return_user_.asm loads
--   the fifteen registers from the CPU's `cpu_data` on, whose words are part of `System`.
-- * Ports is kernel/arch/x86_64/ports.c. What is behind the ports is a parameter: a `Bus` on a
--   state of its own, whose reads and writes may change it. The same record stands for the
--   registers of a device that are mapped to memory.
-- * Pci is kernel/acpi/pci.c, Laihost the functions of kernel/acpi/laihost.c on ports, the
--   configuration space and the timer, with those on memory in Laihost/Memory, Serial
--   kernel/arch/x86_64/serial.c, Hpet kernel/arch/x86_64/hpet.c, and Apic
--   kernel/arch/x86_64/apic.c with kernel/arch/x86_64/sched.c. The devices stand on a `Bus`.
--   Laws of a device that a theorem uses are a record: IsConfigSpace, IsRunning.
-- * Screen is kernel/screen.c, kernel/arch/x86_64/screen.c and kernel/arch/x86_64/putc.c, over
--   the memory of Mem; the font is a parameter.
-- * Random is kernel/rand.c and kernel/arch/x86_64/rand.c: ChaCha20 over arrays of words, its
--   seeding and csprng.
-- * Processor is cpuid, rdmsr and wrmsr of kernel/arch/x86_64/x86.c, get_cpuid and get_ncpus of
--   kernel/arch/x86_64/mp.c and init_syscalls of kernel/arch/x86_64/syscall.c, over a parameter
--   for the instructions.
-- * Memmap is kernel/arch/x86_64/memmap.c, and Context irq2state of kernel/arch/x86_64/ctx.c
--   with procp_init of kernel/arch/x86_64/proc.c.
-- * Acpi is acpi_find of kernel/acpi/acpi.c, over an interface for its calls of paging, which
--   paging_mapper in Laihost/Memory fills.
-- * Lock is kernel/include/lock.h, with the steps by which proc_new takes a pid under its lock.
-- * Startup is kernel/arch/x86_64/mp.c: Startup/Own is what a CPU sets up for itself, and
--   Startup/Others mp_init, over the interface of Acpi for its calls of paging.
-- * Tests runs the code at concrete inputs.
--
-- Fuel: the loops over a free list of page_alloc, page_free, kalloc and kfree, and over a run
-- queue of queue_tryremove, take the fuel that the caller gives, and the theorems ask for more
-- than the list has blocks or nodes. The loop of `split` has 65 rounds, since a size of 64
-- digits is halved at most 63 times, the loops of page_alloc_init 64, since each takes the top
-- digit off a length, and a search of the hash map has one round for each cell. The loops of
-- premap_pages, map_pages and refresh_pages take the fuel that the caller gives; for the one
-- page of map_page_tmp two rounds are enough. A loop that waits for a device takes fuel too:
-- timer_sleep_us needs more than the ticks to wait, since the counter goes up at each read and
-- not by more than its `gap`, serial_write more than the reads that show the line busy, and the
-- walk over the records of the interrupt controllers more than there are records.
--
-- Not modelled: locking outside of Lock (a call runs under its lock, so calls are steps from
-- state to state), failure of kalloc inside the hash map (kalloc panics), objects that wrap
-- round the end of the address space, kernel/vec.c, whose growth is computed in floating point,
-- sched_begin, the order of the calls in kmain and mp_start, what is printed, and code of other
-- projects (kernel/nanoprintf.h, kernel/include/limine.h, kernel/external).
pub mod Acpi
pub mod Apic
pub mod Base
pub mod Bits
pub mod Context
pub mod Descriptors
pub mod Hpet
pub mod Kalloc
pub mod Laihost
pub mod Links
pub mod Lock
pub mod Map
pub mod Mem
pub mod Memmap
pub mod PageAlloc
pub mod Paging
pub mod Pci
pub mod Ports
pub mod Process
pub mod Processor
pub mod Random
pub mod Sched
pub mod Screen
pub mod Serial
pub mod Startup
pub mod Tests
