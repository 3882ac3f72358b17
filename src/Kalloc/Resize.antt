-- ===== src/Kalloc/Resize.antt =====
-- kernel/kalloc.c: krealloc, kzalloc and kalloc_init, over the bytes of memory. The headers are the
-- cells of `Heap`.
use silkware.Base.{ℕ, ◌*◌, ◌-◌, ◌==◌, if◌then◌else◌, u64}
use silkware.Base.Exec.{Exec, done, ◌>>=◌}
use silkware.Kalloc.{Heap, hdrsize, kalloc, kfree}
use silkware.Mem.{Memory, memcpy, memset}
use silkware.PageAlloc.{Pages}
use silkware.PageAlloc.Resize.{page_zalloc}

-- `states`, which is zeros: no CPU has a free list. A `struct kalloc_state` has 8 bytes.
unfoldable pub kalloc_init : ℕ → ℕ → Pages → Memory → Exec (ℕ × Pages × Memory)
unfolding page_zalloc
kalloc_init fuel ncpus s m = page_zalloc fuel (u64 (8 * ncpus)) s m

-- It copies as many bytes as the old block has.
unfoldable pub krealloc : ℕ → ℕ → ℕ → Heap → Memory → Exec (ℕ × Heap × Memory)
unfolding kalloc kfree memcpy
krealloc fuel old newsize s m = kalloc fuel s newsize >>= λ (r : ℕ × Heap).
    if old == 0
    then done (r.0, r.1, m)
    else (kfree fuel r.1 old >>= λ (h : Heap).
        done (r.0, h, memcpy r.0 old (r.1.pages.heap (old - hdrsize)).value m))

unfoldable pub kzalloc : ℕ → ℕ → Heap → Memory → Exec (ℕ × Heap × Memory)
unfolding kalloc memset
kzalloc fuel sz s m = kalloc fuel s sz >>= λ (r : ℕ × Heap).
    done (r.0, r.1, (if r.0 == 0 then m else memset r.0 0 sz m))
