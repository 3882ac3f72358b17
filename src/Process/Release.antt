-- ===== src/Process/Release.antt =====
-- kernel/syscall.c, and map_free of kernel/map.c: the end of a process.
use silkware.Base.{ℕ, zero, suc, ◌+◌, if◌then◌else◌, none, some, Option, ◌==◌}
use silkware.Base.Exec.{Exec, done, fault, out_of_fuel, ◌>>=◌}
use silkware.Context.{ArchProcState}
use silkware.Kalloc.{Heap, kfree}
use silkware.Map.{Bytes, Map, item_at, map_get, map_del, is_free, find_slot}
use silkware.PageAlloc.{Pages, page_free}
use silkware.Paging.{Layout}
use silkware.Paging.Spaces.{addrspace_free}
use silkware.Links.{Cells}
use silkware.Sched.{Queue, Run, unschedule}
use silkware.Process.{
  Segments, Proc, ProcBytes, user_proc, kernel_proc, no_proc, System, proc_key, ctx_switch,
}

-- The addresses of a map in the heap: its own, and those of the key and the value of each cell.
pub record MapBlocks : Type 0 where
  pub map_at : ℕ
  pub key_at : ℕ → ℕ
  pub value_at : ℕ → ℕ

-- The loop of `map_free` from cell `i`, with `left` cells to go.
unfoldable pub free_cells : ℕ → MapBlocks → Map → ℕ → ℕ → Heap → Exec Heap
unfolding kfree is_free
free_cells fuel at m zero i heap = done heap
free_cells fuel at m (suc left) i heap =
    let rest = free_cells fuel at m left (i + 1) in
    if is_free (item_at m i)
    then rest heap
    else (kfree fuel heap (at.key_at i) >>= λ (h1 : Heap).
        kfree fuel h1 (at.value_at i) >>= λ (h2 : Heap). rest h2)

unfoldable pub map_free : ℕ → MapBlocks → Map → Heap → Exec Heap
unfolding free_cells kfree
map_free fuel at m heap =
    free_cells fuel at m (m.max + 1) 0 heap >>= λ (h : Heap). kfree fuel h at.map_at

-- The loop of `syscall_exit` from segment `i`, with `left` to go.
unfoldable pub free_segments : ℕ → Segments → ℕ → ℕ → Pages → Exec Pages
unfolding page_free
free_segments fuel segs zero i pages = done pages
free_segments fuel segs (suc left) i pages =
    page_free fuel (segs.item i).kvirt (segs.item i).len pages >>= λ (p : Pages).
    free_segments fuel segs left (i + 1) p

-- The memory that `syscall_exit` gives back.
unfoldable pub release : ℕ → (ℕ → MapBlocks) → Proc → System → Exec Heap
unfolding free_segments addrspace_free map_free kfree
release fuel blocks p s =
    let space = s.spaces p.space in
    let segs = s.segments p.segs in
    free_segments fuel segs segs.n 0 s.heap.pages >>= λ (p1 : Pages).
    addrspace_free fuel space.addr p1 >>= λ (p2 : Pages).
    map_free fuel (blocks p.space) space.physmap (record s.heap { pages = p2 }) >>= λ (h : Heap).
    kfree fuel h p.space

-- `kfree(n)` in queue_tryremove, for the node that the search from priority `i` on finds.
unfoldable pub find_node : ℕ → Cells → ℕ → ℕ → Exec (Option ℕ)
find_node zero h n pid = out_of_fuel
find_node (suc fuel) h n pid =
    let next = find_node fuel h (h n).next pid in
    if n == 0 then done none else if (h n).value == pid then done (some n) else next

unfoldable pub find_node_from : ℕ → ℕ → Cells → Queue → ℕ → ℕ → Exec (Option ℕ)
unfolding find_node
find_node_from fuel zero h q i pid = done none
find_node_from fuel (suc left) h q i pid =
    let rest = find_node_from fuel left h q (i + 1) pid in
    find_node fuel h (q.start i) pid >>= λ found. elim found [
      | none ↦ rest
      | some n ↦ done (some n)
    ]

-- The node that `unschedule` takes from the active queue, or else from the inactive one.
unfoldable pub free_node : ℕ → Run → ℕ → Heap → Exec Heap
unfolding find_node_from kfree
free_node fuel run pid heap = find_node_from fuel 5 run.nodes run.cpu.active 0 pid >>= λ found.
    elim found [
      | some n ↦ kfree fuel heap n
      | none ↦ find_node_from fuel 5 run.nodes run.cpu.inactive 0 pid >>= λ later. elim later [
        | some n ↦ kfree fuel heap n
        | none ↦ done heap
      ]
    ]

-- `kfree(m->cell[i].k); kfree(m->cell[i].v);` in map_del.
unfoldable pub free_item : ℕ → MapBlocks → Map → Bytes → Heap → Exec Heap
unfolding find_slot kfree
free_item fuel at m key heap =
    let freed = find_slot m key >>= λ slot. elim slot [
      | none ↦ done heap
      | some i ↦ kfree fuel heap (at.key_at i) >>= λ (h : Heap). kfree fuel h (at.value_at i)
    ] in
    if m.max == 0 then done heap else freed

-- All memory that `syscall_exit` gives back, in order: the node of the process, what it maps, and its
-- key and its value in procmap, whose addresses are in `table`.
unfoldable pub give_back : ℕ → (ℕ → MapBlocks) → MapBlocks → Proc → System → Exec Heap
unfolding free_node release free_item
give_back fuel blocks table p s = free_node fuel s.run p.pid s.heap >>= λ (h1 : Heap).
    release fuel blocks p (record s { heap = h1 }) >>= λ (h2 : Heap).
    free_item fuel table s.procmap (proc_key p.pid) h2

-- What `syscall_exit` does with the process `p` under a pid, before it calls `ctx_switch`. `blocks`
-- are the addresses of the `physmap` of a space, `table` those of procmap. The frees touch the heap
-- alone, and stand together.
unfoldable pub leave : ℕ → (ℕ → MapBlocks) → MapBlocks → Proc → System → Exec System
unfolding unschedule give_back map_del
leave fuel blocks table p s = unschedule fuel s.run p.pid >>= λ (run : Run).
    give_back fuel blocks table p s >>= λ (heap : Heap).
    map_del s.procmap (proc_key p.pid) >>= λ (m : Map).
    done (record s { run = run; heap = heap; procmap = m; current = no_proc })

module _ (c : ProcBytes) where
  unfoldable pub syscall_exit :
      ℕ → Layout → (ℕ → ℕ) → (ℕ → MapBlocks) → MapBlocks → System → Exec (ArchProcState × System)
  unfolding leave ctx_switch
  syscall_exit fuel l home blocks table s = elim s.current [
    | no_proc ↦ fault
    | kernel_proc ↦ fault
    | user_proc pid ↦ map_get s.procmap (proc_key pid) >>= λ found. elim found [
      | none ↦ fault
      | some b ↦
          leave fuel blocks table (c.read b) s >>= λ (s1 : System). ctx_switch c fuel l home none s1
    ]
  ]
