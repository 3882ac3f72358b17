-- ===== src/Process/Create.antt =====
-- kernel/proc.c, and proc_pages_init of kernel/arch/x86_64/paging.c: a new process.
use silkware.Base.{ℕ, ◌+◌, ◌*◌, ◌==◌, if◌then◌else◌, false, [], u64, page_size}
use silkware.Base.Exec.{Exec, done, ◌>>=◌}
use silkware.Context.{ArchProcState, procp_init}
use silkware.Kalloc.{Heap, kalloc}
use silkware.Map.{Map, map_new, map_insert}
use silkware.PageAlloc.{Pages, page_alloc}
use silkware.Paging.{Layout, set_word}
use silkware.Paging.Spaces.{Space, Maker, map_pages}
use silkware.Process.{Segment, Segments, Proc, ProcBytes, System, proc_key}

-- The page allocator, the tables and the heap, as `map_pages` takes them, for the space at `at`.
abbrev maker_of : System → ℕ → Maker
maker_of s at = record { kernel = s.kernel; pages = s.heap.pages; space = s.spaces at }

abbrev with_maker : System → ℕ → Maker → System
with_maker s at m = record s {
  kernel = m.kernel;
  heap = record s.heap { pages = m.pages };
  spaces = λ a. if a == at then m.space else s.spaces a;
}

-- `map_pages` on the space at `at`, which is not `kspace`.
unfoldable pub map_in : ℕ → Layout → (ℕ → ℕ) → ℕ → ℕ → ℕ → ℕ → ℕ → System → Exec System
unfolding map_pages
map_in fuel l home at dst src len flags s =
    map_pages fuel fuel l home false dst src len flags (maker_of s at) >>= λ (m : Maker).
    done (with_maker s at m)

-- The two segments; `n` stays as kzalloc leaves it.
unfoldable pub two_segments : Segment → Segment → Segments
two_segments code stack = record {
  n = 0;
  item = λ i.
      if i == 0
      then code
      else if i == 1
      then stack
      else record { perms = 0; kvirt = 0; base = 0; len = 0 };
}

-- `space`, `physmap`, `addr` and the entry 511, less what `map_new` takes from the heap: the address of the space, and the system.
unfoldable pub space_new : ℕ → Layout → System → Exec (ℕ × System)
unfolding kalloc map_new page_alloc set_word
space_new fuel l s = kalloc fuel s.heap 16 >>= λ (r : ℕ × Heap).
    page_alloc fuel page_size r.1.pages >>= λ (top : ℕ × Pages).
    let w = s.kernel.tables.word in
    let tables = record s.kernel.tables {
      word = set_word w (top.0 + 8 * 511) (w (l.kpml4 + 8 * 511));
    } in
    let space : Space = record { addr = top.0; physmap = map_new 0x10 } in
    done (
      r.0,
      record s {
        heap = record r.1 { pages = top.1 };
        kernel = record s.kernel { tables = tables };
        spaces = λ a. if a == r.0 then space else s.spaces a;
      },
    )

-- The address of the space, that of the segments, and the system. The segments are 8 + 2 * 32
-- bytes; PROC_ENTRY is 0x100000, STACK_TOP 0x100000000, and the stack has 64 pages.
unfoldable pub proc_pages_init : ℕ → Layout → (ℕ → ℕ) → ℕ → ℕ → System → Exec (ℕ × ℕ × System)
unfolding space_new map_in two_segments
proc_pages_init fuel l home start len s = space_new fuel l s >>= λ (made : ℕ × System).
    kalloc fuel made.1.heap (8 + 2 * 32) >>= λ (g : ℕ × Heap).
    let s1 = record made.1 { heap = g.1 } in
    map_in fuel l home made.0 0x100000 start len 5 s1 >>= λ (s2 : System).
    page_alloc fuel (64 * page_size) s2.heap.pages >>= λ (stack : ℕ × Pages).
    let code : Segment = record { perms = 0; kvirt = start; base = 0x100000; len = len } in
    let below : Segment = record {
      perms = 0;
      kvirt = stack.0;
      base = 0x100000000;
      len = 64 * page_size;
    } in
    let s3 = record s2 {
      heap = record s2.heap { pages = stack.1 };
      segments = λ a. if a == g.0 then two_segments code below else s2.segments a;
    } in
    map_in fuel l home made.0 0x100000000 stack.0 (64 * page_size) 15 s3 >>= λ (s4 : System).
    done (made.0, g.0, s4)

-- `procmap` once `proc_init` ran.
unfoldable pub proc_init : Map
unfolding map_new
proc_init = map_new 1204

module _ (c : ProcBytes) where
  -- `seen` is what the second read of `pid_cur`, behind the lock, finds. The members that the source
  -- leaves alone are 0.
  unfoldable pub proc_new : ℕ → Layout → (ℕ → ℕ) → ℕ → ℕ → ℕ → System → Exec (ℕ × System)
  unfolding procp_init proc_pages_init map_insert
  proc_new fuel l home seen start len s =
      let pid = u64 (s.pid_cur + 1) in
      let regs : ArchProcState = record { regs = []; rsp = 0; rip = 0; flags = 0 } in
      proc_pages_init fuel l home start len (record s { pid_cur = pid }) >>= λ (r : ℕ × ℕ × System).
      let p : Proc = record {
        arch_state = procp_init regs;
        pid = seen;
        fsfd = 0;
        segs = r.1;
        space = r.0;
      } in
      map_insert r.2.procmap (proc_key pid) (c.write p) >>= λ (m : Map).
      done (seen, record r.2 { procmap = m })
