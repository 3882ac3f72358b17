-- ===== src/PageAlloc/Resize.antt =====
-- kernel/page_alloc.c: page_realloc and page_zalloc, over the bytes of memory. The headers are the
-- cells of `Pages`.
use silkware.Base.{ℕ, ◌==◌, if◌then◌else◌}
use silkware.Base.Exec.{Exec, done, ◌>>=◌}
use silkware.Mem.{Memory, memcpy, memset}
use silkware.PageAlloc.{Pages, page_alloc, page_free}

unfoldable pub page_realloc : ℕ → ℕ → ℕ → ℕ → Pages → Memory → Exec (ℕ × Pages × Memory)
unfolding page_alloc page_free memcpy
page_realloc fuel page oldsize newsize s m = page_alloc fuel newsize s >>= λ (r : ℕ × Pages).
    if page == 0
    then done (r.0, r.1, m)
    else (page_free fuel page oldsize r.1 >>= λ (p : Pages).
        done (r.0, p, memcpy r.0 page oldsize m))

unfoldable pub page_zalloc : ℕ → ℕ → Pages → Memory → Exec (ℕ × Pages × Memory)
unfolding page_alloc memset
page_zalloc fuel size s m = page_alloc fuel size s >>= λ (r : ℕ × Pages).
    done (r.0, r.1, (if r.0 == 0 then m else memset r.0 0 size m))
