-- ===== src/Kalloc.antt =====
-- kernel/kalloc.c: the heap of a CPU. A block's header lies at its address, 16 bytes before its data:
-- `value` is its size and `next` is the union of `next` and `canary`. Free blocks are a list from
-- `start`; the memory is the one in which page_alloc.c has its headers.
pub mod Fit
pub mod Align
pub mod Insert
pub mod Resize
use silkware.Base.{
  ℕ, zero, suc, ◌+◌, ◌-◌, ◌*◌, ◌^◌, bit_and, bit_xor, Bool, true, false, Option, none, some, ltb,
  leb, ◌==◌, if◌then◌else◌, u64, shr, shl,
}
use silkware.Base.Exec.{Exec, done, panicked, fault, out_of_fuel, ◌>>=◌}
use silkware.Links.{Cells, cell, write, set_next, set_value}
use silkware.PageAlloc.{Pages, page_alloc}
use silkware.PageAlloc.Pow2.{next_pow2}

-- `srand_insecure` of kernel/rand.c, a step of xorshift*.
unfoldable pub srand_insecure : ℕ → ℕ
srand_insecure x =
    let y = bit_xor x (shr x 12) in
    let z = bit_xor y (u64 (shl y 25)) in
    let w = bit_xor z (shr z 27) in u64 (w * 0x2545F4914F6CDD1D)

unfoldable pub canary : ℕ → ℕ
unfolding srand_insecure
canary x = srand_insecure x

abbrev pub hdrsize : ℕ
hdrsize = 16

-- `(size + (ALLOC_ALIGN - 1)) & ~(ALLOC_ALIGN - 1)`
unfoldable pub align_up : ℕ → ℕ
align_up size = bit_and (u64 (size + 15)) ((2 ^ 60 - 1) * 2 ^ 4)

-- The pages, and the free list of the CPU; 0 is NULL.
pub record Heap : Type 0 where
  pub pages : Pages
  pub start : ℕ

-- Cutting the fitting block `cur`: the memory and the start. What is left of it becomes a free block
-- in its place.
unfoldable pub carve : Cells → ℕ → Option ℕ → ℕ → ℕ → Cells × ℕ
unfolding canary
carve h start none cur size =
    let new = cur + hdrsize + size in
    let rest = write h new (cell ((h cur).value - size - hdrsize) (h cur).next) in
    (write rest cur (cell size (canary cur)), new)
carve h start (some p) cur size =
    let new = cur + hdrsize + size in
    let rest = write h new (cell ((h cur).value - size - hdrsize) (h cur).next) in
    (write (set_next rest p new) cur (cell size (canary cur)), start)

-- `for (cur = state->start; cur != NULL; prev = cur, cur = cur->next)`: the data's address, the
-- memory and the start.
unfoldable pub fit_loop : ℕ → Cells → ℕ → Option ℕ → ℕ → ℕ → Exec (Option (ℕ × Cells × ℕ))
unfolding carve
fit_loop zero h start prev cur size = out_of_fuel
fit_loop (suc fuel) h start prev cur size =
    let next = fit_loop fuel h start (some cur) (h cur).next size in
    if cur == 0
    then done none
    else if leb (size + hdrsize) (h cur).value
    then (let (g, start') = carve h start prev cur size in done (some (cur + hdrsize, g, start')))
    else next

-- `while (new < cur) { prev = cur; cur = cur->next; }`
unfoldable pub insert_loop : ℕ → Cells → ℕ → ℕ → ℕ → Exec (ℕ × ℕ)
insert_loop zero h new prev cur = out_of_fuel
insert_loop (suc fuel) h new prev cur =
    let rest = insert_loop fuel h new cur (h cur).next in
    if ltb new cur then rest else done (prev, cur)

-- `if (prev->data + prev->size == (void *) new)`: the memory, and what `new` is then.
unfoldable pub join_prev : Cells → ℕ → ℕ → Cells × ℕ
join_prev h prev new =
    if prev + hdrsize + (h prev).value == new
    then (
      set_value (set_next h prev (h new).next) prev ((h prev).value + (h new).value + hdrsize),
      prev,
    )
    else (h, new)

-- `if (new->data + new->size == (void *) cur)`
unfoldable pub join_next : Cells → ℕ → ℕ → Cells
join_next h new cur =
    if new + hdrsize + (h new).value == cur
    then set_value (set_next h new (h cur).next) new ((h new).value + (h cur).value + hdrsize)
    else h

-- The part of `insert_block` behind its loop.
unfoldable pub insert_between : Cells → ℕ → ℕ → ℕ → ℕ → Exec (Cells × ℕ)
unfolding join_prev join_next
insert_between h start prev new cur =
    let linked = set_next (set_next h prev new) new cur in
    let (joined, front) = join_prev linked prev new in
    if new == cur then panicked else done (join_next joined front cur, start)

unfoldable pub insert_block : ℕ → Cells → ℕ → ℕ → Exec (Cells × ℕ)
unfolding insert_loop
insert_block fuel h start new =
    if start == 0
    then done (set_next h new 0, new)
    else (insert_loop fuel h new start (h start).next >>= λ (r : ℕ × ℕ).
        insert_between h start r.0 new r.1)

-- The path on which no block fits: a block of whole pages, whose rest becomes a free block.
unfoldable pub kalloc_pages : ℕ → Heap → ℕ → Exec (ℕ × Heap)
unfolding canary
kalloc_pages fuel s size = page_alloc fuel (size + hdrsize * 2) s.pages >>= λ (r : ℕ × Pages).
    let res = r.0 in
    let new = res + hdrsize + size in
    let page_blk_size = next_pow2 (size + hdrsize * 2) in
    let filled = write r.1.heap res (cell size (canary res)) in
    let rest = set_value filled new (page_blk_size - size - hdrsize * 2) in
    insert_block fuel rest s.start new >>= λ (t : Cells × ℕ).
    done (res + hdrsize, record { pages = record r.1 { heap = t.0 }; start = t.1 })

-- The `assert_eq`s compare an address with itself.
unfoldable pub kalloc : ℕ → Heap → ℕ → Exec (ℕ × Heap)
unfolding fit_loop
kalloc fuel s size =
    let aligned = align_up size in
    fit_loop fuel s.pages.heap s.start none s.start aligned >>= λ found. elim found [
      | some (addr, h, start) ↦
          done (addr, record { pages = record s.pages { heap = h }; start = start })
      | none ↦ kalloc_pages fuel s aligned
    ]

unfoldable pub kfree : ℕ → Heap → ℕ → Exec Heap
unfolding canary insert_block
kfree fuel s addr =
    let b = addr - hdrsize in
    if (s.pages.heap b).next == canary b
    then (insert_block fuel s.pages.heap s.start b >>= λ (t : Cells × ℕ).
        done (record { pages = record s.pages { heap = t.0 }; start = t.1 }))
    else panicked
