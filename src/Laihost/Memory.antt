-- ===== src/Laihost/Memory.antt =====
-- kernel/acpi/laihost.c: the functions that LAI calls for memory.
use silkware.Base.{◌+◌, ◌%◌, ℕ, Bool, List}
use silkware.Base.Exec.{Exec, done, ◌>>=◌}
use silkware.Acpi.{Mapper, TableSpec, Root, Acpi, acpi_find}
use silkware.Kalloc.{Heap, kalloc, kfree}
use silkware.Kalloc.Resize.{krealloc}
use silkware.Mem.{Memory}
use silkware.Paging.{Layout}
use silkware.Paging.Walk.{walk1, frame_of}
use silkware.Paging.Calls.{Kernel, unmap_pages}
use silkware.Paging.Spaces.{Maker, map_anon}

unfoldable pub laihost_malloc : ℕ → Heap → ℕ → Exec (ℕ × Heap)
unfolding kalloc
laihost_malloc fuel s size = kalloc fuel s size

unfoldable pub laihost_free : ℕ → Heap → ℕ → ℕ → Exec Heap
unfolding kfree
laihost_free fuel s ptr size = kfree fuel s ptr

-- The flags are PAGE_PRESENT, PAGE_WRITABLE and PAGE_NX.
unfoldable pub laihost_map : ℕ → ℕ → Layout → (ℕ → ℕ) → Bool → ℕ → ℕ → Maker → Exec (ℕ × Maker)
unfolding map_anon
laihost_map rounds fuel l home is_kspace address count s =
    map_anon rounds fuel l home is_kspace address count 11 s

unfoldable pub laihost_unmap : ℕ → Layout → ℕ → ℕ → Kernel → Exec Kernel
unfolding unmap_pages
laihost_unmap fuel l address count k = unmap_pages fuel l address count k

-- The calls of paging that acpi_find makes, on the tables of the current process's space. A load goes
-- through the kernel's tables to the physical memory `mem`.
unfoldable pub paging_mapper : ℕ → ℕ → Layout → (ℕ → ℕ) → Bool → Memory → Mapper Maker
unfolding map_anon unmap_pages
paging_mapper rounds fuel l home is_kspace mem = record {
  map_anon = λ phys len s. map_anon rounds fuel l home is_kspace phys len 11 s;
  unmap_pages = λ virt len s.
      unmap_pages fuel l virt len s.kernel >>= λ (k : Kernel). done (record s { kernel = k });
  load = λ at s. let w = s.kernel.tables.word in mem (frame_of (w (walk1 l w at)) + at % 4096);
}

unfoldable pub laihost_scan {ℓ} :
    {S : Type ℓ} → Mapper S → TableSpec → Root → List ℕ → ℕ → Acpi S → Exec (ℕ × Acpi S)
unfolding acpi_find
laihost_scan io spec root sig index a = acpi_find io spec root sig index a

unfoldable pub laihost_realloc : ℕ → ℕ → ℕ → ℕ → Heap → Memory → Exec (ℕ × Heap × Memory)
unfolding krealloc
laihost_realloc fuel ptr newsize oldsize s m = krealloc fuel ptr newsize s m
