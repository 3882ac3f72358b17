-- ===== src/Paging/Calls.antt =====
-- kernel/arch/x86_64/paging.c: the calls on the kernel's own tables, on top of premap_pages. The
-- words of a table are those of Paging; `home` is the address at which the words of a physical frame
-- stand there, so that a read through the window `page_tmp` is a read at the home of the frame to
-- which the processor's walk through the tables leads for `page_tmp`.
use silkware.Base.{
  ℕ, zero, suc, ◌+◌, ◌-◌, ◌*◌, ◌/◌, Bool, not, ltb, ◌==◌, if◌then◌else◌, List, ◌∷◌, Option, none,
  some, bit_and, bit_or, u32, u64, sub64, page_size,
}
use silkware.Base.Exec.{Exec, done, out_of_fuel, ◌>>=◌, ◌>>◌, assert}
use silkware.PageAlloc.Init.{Premapper, page_base, round_up_page}
use silkware.Screen.{Framebuffer}
use silkware.Paging.{
  miniheap_alloc, Layout, Tables, vk_to_physk, addr_masked, entry_at, premap_pages,
}
use silkware.Paging.Walk.{walk1, frame_of}

-- The tables, `end_pos`, the addresses given to `invlpg` (the last one first), the register cr3, and
-- the top table of the current process's space, or none when that is NULL.
pub record Kernel : Type 0 where
  pub tables : Tables
  pub end_pos : ℕ
  pub flushed : List ℕ
  pub cr3 : ℕ
  pub current : Option ℕ

-- The addresses that the linker gives.
pub record Image : Type 0 where
  pub text_start : ℕ
  pub text_end : ℕ
  pub rodata_start : ℕ
  pub rodata_end : ℕ
  pub data_start : ℕ
  pub data_end : ℕ
  pub kern_end : ℕ

-- A call of `premap_pages` on the tables of the kernel.
unfoldable pub premapped : ℕ → Layout → ℕ → ℕ → ℕ → ℕ → Kernel → Exec Kernel
unfolding premap_pages
premapped fuel l dst src length flags k =
    premap_pages fuel l k.tables dst src length flags >>= λ (t : Tables).
    done (record k { tables = t })

unfoldable pub map_page_tmp : ℕ → Layout → ℕ → Kernel → Exec Kernel
unfolding premapped
map_page_tmp fuel l phys k = premapped fuel l l.page_tmp phys page_size 3 k >>= λ (k' : Kernel).
    done (record k' { flushed = l.page_tmp ∷ k'.flushed })

-- `assert(table[idx] & X86_PAGE_PRESENT); next = map_page_tmp(table[idx] & ADDR_MASK);`, with the
-- address of the next table: the home of the frame that the window's entry now has.
unfoldable pub descend : ℕ → Layout → (ℕ → ℕ) → ℕ → Kernel → Exec (ℕ × Kernel)
unfolding map_page_tmp addr_masked
descend fuel l home entry k =
    assert (not (bit_and (k.tables.word entry) 1 == 0))
    >> map_page_tmp fuel l (addr_masked (k.tables.word entry)) k
    >>= λ (k' : Kernel).
        done (home (frame_of (k'.tables.word (walk1 l k'.tables.word l.page_tmp))), k')

-- `cur_space ? cur_space->addr : kpml4`, with none for NULL.
unfoldable pub top_table : Layout → Option ℕ → ℕ
top_table l none = l.kpml4
top_table l (some addr) = addr

unfoldable pub kvirt2phys : ℕ → Layout → (ℕ → ℕ) → Option ℕ → ℕ → Kernel → Exec (ℕ × Kernel)
unfolding descend addr_masked entry_at top_table
kvirt2phys fuel l home top virt k =
    assert (not (virt == 0))
    >> descend fuel l home (entry_at (top_table l top) virt 39) k
    >>= λ (r3 : ℕ × Kernel).
        descend fuel l home (entry_at r3.0 virt 30) r3.1 >>= λ (r2 : ℕ × Kernel).
        descend fuel l home (entry_at r2.0 virt 21) r2.1 >>= λ (r1 : ℕ × Kernel).
        done (
          bit_or (addr_masked (r1.1.tables.word (entry_at r1.0 virt 12))) (bit_and virt 0xfff),
          r1.1,
        )

-- `space` is the top table of a space, or none for NULL.
unfoldable pub flush_pages : ℕ → Layout → (ℕ → ℕ) → Option ℕ → Kernel → Exec Kernel
unfolding kvirt2phys vk_to_physk
flush_pages fuel l home none k = done (record k { cr3 = vk_to_physk l l.kpml4 })
flush_pages fuel l home (some space) k =
    kvirt2phys fuel l home k.current space k >>= λ (r : ℕ × Kernel).
    done (record r.1 { cr3 = r.0; current = some space })

-- `response` tells whether the boot loader gave the kernel's addresses, which are in the layout.
unfoldable pub map_kern_pages : ℕ → Layout → Image → Bool → Kernel → Exec Kernel
unfolding premapped vk_to_physk round_up_page
map_kern_pages fuel l i response k =
    assert response
    >> premapped fuel l i.text_start (vk_to_physk l i.text_start) (sub64 i.text_end i.text_start) 1
        k
    >>= λ (k1 : Kernel).
        premapped fuel l i.rodata_start (vk_to_physk l i.rodata_start)
          (sub64 i.rodata_end i.rodata_start) 9 k1
        >>= λ (k2 : Kernel).
            premapped fuel l i.data_start (vk_to_physk l i.data_start)
              (sub64 i.data_end i.data_start) 11 k2
            >>= λ (k3 : Kernel). done (record k3 { end_pos = round_up_page i.kern_end })

-- The screen after the call, and the kernel; the length is a product of 32 bits.
unfoldable pub map_screen : ℕ → Layout → Framebuffer → Kernel → Exec (Framebuffer × Kernel)
unfolding premapped round_up_page
map_screen fuel l screen k =
    let len = u32 (screen.pitch * (screen.bpp / 8) * screen.height) in
    premapped fuel l k.end_pos screen.paddr len 11 k >>= λ (k' : Kernel). done (
      record screen { vaddr = k.end_pos },
      record k' { end_pos = round_up_page (u64 (k.end_pos + len)) },
    )

-- The loop of `refresh_pages` from `p`.
unfoldable pub refresh_from : ℕ → ℕ → ℕ → Kernel → Exec Kernel
refresh_from zero p end k = out_of_fuel
refresh_from (suc fuel) p end k =
    let rest = refresh_from fuel (u64 (p + page_size)) end (record k { flushed = p ∷ k.flushed }) in
    if ltb p end then rest else done k

unfoldable pub refresh_pages : ℕ → ℕ → ℕ → Kernel → Exec Kernel
unfolding refresh_from page_base
refresh_pages fuel start end k = refresh_from fuel (page_base start) end k

unfoldable pub premap_anon : ℕ → Layout → ℕ → ℕ → ℕ → Kernel → Exec (ℕ × Kernel)
unfolding premapped refresh_pages round_up_page page_base
premap_anon fuel l phys len flags k =
    let res = u64 (k.end_pos + (phys - page_base phys)) in
    let end = round_up_page (u64 (k.end_pos + len)) in
    premapped fuel l k.end_pos (page_base phys) len flags k >>= λ (k1 : Kernel).
    refresh_pages fuel res end (record k1 { end_pos = end }) >>= λ (k2 : Kernel). done (res, k2)

unfoldable pub unmap_pages : ℕ → Layout → ℕ → ℕ → Kernel → Exec Kernel
unfolding premapped refresh_pages round_up_page
unmap_pages fuel l virt len k = premapped fuel l virt 0 len 0 k >>= λ (k1 : Kernel).
    refresh_pages fuel virt (round_up_page (u64 (virt + len))) k1

-- The calls of page_alloc_init, on the kernel's own tables.
unfoldable pub paging_premapper : ℕ → Layout → Premapper Kernel
unfolding premap_anon miniheap_alloc
paging_premapper fuel l = record {
  premap_anon = λ phys len k. premap_anon fuel l phys len 11 k;
  miniheap_alloc = λ size k.
      miniheap_alloc l k.tables size >>= λ (r : ℕ × Tables). done (r.0, record k { tables = r.1 });
}
