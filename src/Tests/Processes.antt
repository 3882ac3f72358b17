-- ===== src/Tests/Processes.antt =====
-- kernel/arch/x86_64/ctx.c and kernel/syscall.c with two processes.
use silkware.Base.{
  ℕ, zero, suc, ◌≡◌, ◌≢◌, ◌⊎◌, refl, ap, some, [], ◌∷◌, arith, ◌==◌, Bool-cases, inl, inr,
  replicate, get_or-replicate,
}
use silkware.Base.Exec.{Exec, done, panicked, fault, out_of_fuel}
use silkware.Context.{IrqFrame}
use silkware.Kalloc.{Heap, canary, insert_between}
use silkware.Links.{cell}
use silkware.Map.Update.{Without}
use silkware.Map.{
  find_slot, Bytes, hash, MapItem, Map, empty_item, item_at, flex_of, le_bytes, map_new,
}
use silkware.Map.Lookup.{key_of, IsStored, IsMap}
use silkware.PageAlloc.{Pages, get_buddy, free_pools, free_loop, page_round, insert_page}
use silkware.PageAlloc.Init.{page_base}
use silkware.Paging.{next_table, premap_loop, premap_page, set_word}
use silkware.Paging.Calls.{Kernel, flush_pages, kvirt2phys, descend}
use silkware.Sched.{assign}
use silkware.Sched.Queues.{behind}
use silkware.Process.{Proc, ProcBytes, System, user_proc, proc_key}
use silkware.Process.Release.{
  MapBlocks, give_back, free_node, free_item, find_node, find_node_from, release, leave,
  syscall_exit,
}
use silkware.Process.Leaving.{IsResumed, syscall_exit-IsResumed}
use silkware.Process.Exit.{Covers, Lacks, active_after, inactive_after, IsLeft, leave-IsLeft}
use silkware.Tests.Queues.{one_list, no_lists, waiting, waiting-IsRun, above_two, one_list_short}
use silkware.Tests.Mappings.{layout, mapped}

-- One number for each member.
abbrev plain : ProcBytes
plain = record { read = read; write = write }
  where
    read : Bytes → Proc
    read (pid ∷ fsfd ∷ segs ∷ space ∷ rsp ∷ rip ∷ flags ∷ regs) = record {
      arch_state = record { regs = regs; rsp = rsp; rip = rip; flags = flags };
      pid = pid;
      fsfd = fsfd;
      segs = segs;
      space = space;
    }
    read bs = record {
      arch_state = record { regs = []; rsp = 0; rip = 0; flags = 0 };
      pid = 0;
      fsfd = 0;
      segs = 0;
      space = 0;
    }

    write : Proc → Bytes
    write p =
        p.pid ∷ p.fsfd ∷ p.segs ∷ p.space ∷ p.arch_state.rsp ∷ p.arch_state.rip ∷ p.arch_state.flags
        ∷ p.arch_state.regs

-- A process that stands at 0x100000.
abbrev value_of : ℕ → Bytes
value_of pid = pid ∷ 0 ∷ 0x7000 ∷ 0x8000 ∷ 0x100000000 ∷ 0x100000 ∷ 0x202 ∷ []

abbrev stored : ℕ → MapItem
stored pid = record {
  h = hash (proc_key pid);
  k = some (flex_of (proc_key pid));
  v = flex_of (value_of pid);
}

-- The process table, with the pids 7 and 9.
abbrev procmap : Map
procmap = record {
  max = 2;
  cap = 8;
  cell = empty_item ∷ stored 7 ∷ stored 9 ∷ replicate 5 empty_item;
}

item_at-other : (i : ℕ) → i ≢ 1 → i ≢ 2 → item_at procmap i ≡ empty_item
item_at-other zero ne ne' = refl
item_at-other (suc zero) ne ne' = absurd (ne refl)
item_at-other (suc (suc zero)) ne ne' = absurd (ne' refl)
item_at-other (suc (suc (suc i))) ne ne' = get_or-replicate 5 i empty_item

keys_differ : proc_key 7 ≢ proc_key 9
unfolding le_bytes
keys_differ e = absurd (ground arith)

held :
    (i : ℕ) (key : Bytes)
    → key_of (item_at procmap i) ≡ some key
    → ((i ≡ 1) × (key ≡ proc_key 7)) ⊎ ((i ≡ 2) × (key ≡ proc_key 9))
held i key e = elim (Bool-cases (i == 1)) [
  | inl same ↦ let at : i ≡ 1 = ground arith in inl (at, ground arith)
  | inr other ↦ elim (Bool-cases (i == 2)) [
    | inl same ↦ let at : i ≡ 2 = ground arith in inr (at, ground arith)
    | inr beyond ↦ absurd (ground (arith, item_at-other i))
  ]
]

procmap-IsStored : (i : ℕ) → IsStored (item_at procmap i)
procmap-IsStored i f e = elim (Bool-cases (i == 1)) [
  | inl same ↦ let at : i ≡ 1 = ground arith in ground arith
  | inr other ↦ elim (Bool-cases (i == 2)) [
    | inl same ↦ let at : i ≡ 2 = ground arith in ground arith
    | inr beyond ↦ absurd (ground (arith, item_at-other i))
  ]
]

procmap_unique :
    (i j : ℕ) (key : Bytes)
    → key_of (item_at procmap i) ≡ some key
    → key_of (item_at procmap j) ≡ some key
    → i ≡ j
procmap_unique i j key p q = ground (arith, held i key, held j key, keys_differ)

procmap-IsMap : IsMap procmap
procmap-IsMap = record {
  cells = refl;
  top = omega arith;
  above = λ i h. ap key_of (item_at-other i (omega arith) (omega arith));
  stored = procmap-IsStored;
  unique = procmap_unique;
}

-- The two processes on one CPU, of which `pid` runs. Their space has its top table at 0x1000.
abbrev running : ℕ → System
running pid = record {
  run = waiting;
  procmap = procmap;
  pid_cur = 9;
  current = user_proc pid;
  kproc = record { regs = []; rsp = 0; rip = 0; flags = 0 };
  heap = record { pages = pages; start = 0 };
  kernel = mapped;
  spaces = λ a. record { addr = 0x1000; physmap = map_new 8 };
  segments = λ a. record { n = 0; item = λ i. record { perms = 0; kvirt = 0; base = 0; len = 0 } };
  kernel_rsp = 0x2ff0;
  pointer_of = λ p. 0x3000;
  beyond = replicate 13 0;
}
  where
    pages : Pages
    pages = record {
      heap = λ a. cell 16 (canary a);
      pools = some ((record { start = 0xf000; base = 0; end = 0x10000 }) ∷ []);
    }

abbrev frame : IrqFrame
frame = record {
  regs = 5 ∷ 5 ∷ 5 ∷ 5 ∷ 5 ∷ 5 ∷ 5 ∷ 5 ∷ 5 ∷ 5 ∷ 5 ∷ 5 ∷ 5 ∷ 5 ∷ 5 ∷ [];
  num = 32;
  error_code = 0;
  ip = 0x100040;
  cs = 0;
  flags = 0x202;
  sp = 0xfffffff0;
  ss = 0;
}

-- What a run returns, or else `x`.
result_or {ℓ} : {A : Type ℓ} → A → Exec A → A
result_or x (done y) = y
result_or x panicked = x
result_or x fault = x
result_or x out_of_fuel = x

flushed : Kernel
unfolding flush_pages result_or
flushed =
    result_or mapped
      (flush_pages 2 layout (λ p. p) (some 0x1000) (record mapped { current = some 0x1000 }))

flushes :
    flush_pages 2 layout (λ p. p) (some 0x1000) (record mapped { current = some 0x1000 })
    ≡ done flushed
unfolding flush_pages flushed result_or premap_loop page_base premap_page next_table set_word
    kvirt2phys descend
flushes = refl

abbrev blocks : ℕ → MapBlocks
blocks a = record { map_at = 0x7010; key_at = λ i. 0; value_at = λ i. 0 }

abbrev at_table : MapBlocks
at_table = record { map_at = 0x7110; key_at = λ i. 0x7200; value_at = λ i. 0x7300 }

released : Heap
unfolding give_back result_or
released =
    result_or (running 7).heap (give_back 2 blocks at_table (plain.read (value_of 7)) (running 7))

releases : give_back 2 blocks at_table (plain.read (value_of 7)) (running 7) ≡ done released
unfolding give_back free_node free_item find_node find_node_from find_slot release released
    result_or free_pools free_loop get_buddy page_round map_new insert_page insert_between
    silkware.Map.Search.search silkware.Map.is_match hash le_bytes
releases = refl

one_list-Covers : Covers procmap one_list
one_list-Covers r v h in_r = elim (Bool-cases (r == 2)) [
  | inl same ↦ let at : v ≡ 7 = ground arith in (omega arith, value_of 7, rw at (1, refl, refl))
  | inr other ↦ absurd (ground arith)
]

no_lists-Covers : Covers procmap no_lists
no_lists-Covers r v h in_r = absurd (ground arith)

one_list-Lacks : Lacks 7 (active_after 7 one_list)
one_list-Lacks r h = elim (Bool-cases (r == 2)) [
  | inl same ↦ rw same refl
  | inr other ↦ rw other refl
]

leave-IsLeft_example :
    IsLeft
      (running 7)
      7
      released
      (active_after 7 one_list)
      (inactive_after 7 one_list no_lists)
      (leave 2 blocks at_table (plain.read (value_of 7)) (running 7))
leave-IsLeft_example =
    leave-IsLeft 2 blocks at_table (plain.read (value_of 7)) (running 7) released procmap-IsMap
      (omega arith) waiting-IsRun one_list_short (λ r h. omega arith) one_list-Covers
      no_lists-Covers (omega arith) one_list-Lacks (λ r h. refl) releases

released_9 : Heap
unfolding give_back result_or
released_9 =
    result_or (running 9).heap (give_back 2 blocks at_table (plain.read (value_of 9)) (running 9))

releases_9 : give_back 2 blocks at_table (plain.read (value_of 9)) (running 9) ≡ done released_9
unfolding give_back free_node free_item find_node find_node_from find_slot release released_9
    result_or free_pools free_loop get_buddy page_round map_new insert_page insert_between
    silkware.Map.Search.search silkware.Map.is_match hash le_bytes
releases_9 = refl

one_list-Lacks_9 : Lacks 9 (active_after 9 one_list)
one_list-Lacks_9 r h = elim (Bool-cases (r == 2)) [
  | inl same ↦ rw same refl
  | inr other ↦ rw other refl
]

syscall_exit-IsResumed_example :
    (m : Map) × Without procmap (proc_key 9) m
    × IsResumed m 7
        (assign (active_after 9 one_list) 2 [])
        (behind (inactive_after 9 one_list no_lists) 2 100 7)
        (record {
          regs = 0x2ff0 ∷ 0x3000 ∷ replicate 13 0;
          rsp = 0x100000000;
          rip = 0x100000;
          flags = 0x202;
        })
        (syscall_exit plain 2 layout (λ p. p) blocks at_table (running 9))
syscall_exit-IsResumed_example =
    syscall_exit-IsResumed plain 2 layout (λ p. p) blocks at_table (running 9) 9 (value_of 9)
      released_9 refl procmap-IsMap (omega arith) (2, refl, refl) waiting-IsRun one_list_short
      (λ r h. omega arith) one_list-Covers no_lists-Covers (omega arith) one_list-Lacks_9
      (λ r h. refl) releases_9 2 100 7 [] (value_of 7) flushed (omega arith) above_two refl
      (omega arith) keys_differ (1, refl, refl) (omega arith) (omega arith) flushes
