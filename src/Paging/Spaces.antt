-- ===== src/Paging/Spaces.antt =====
-- kernel/arch/x86_64/paging.c: the address spaces of processes. Their tables come from page_alloc,
-- and `physmap` maps the physical address of each to its virtual one.
use silkware.Base.{
  ℕ, zero, suc, ◌+◌, ◌-◌, Bool, ◌&&◌, ltb, ◌==◌, if◌then◌else◌, Option, none, some, bit_and, bit_or,
  u64, page_size,
}
use silkware.Base.Exec.{Exec, done, panicked, out_of_fuel, ◌>>=◌}
use silkware.PageAlloc.{Pages, page_alloc, page_free}
use silkware.PageAlloc.Init.{page_base, round_up_page}
use silkware.Map.{Bytes, Map, map_get, map_insert, le_bytes, of_le}
use silkware.Paging.{Layout, addr_masked, physk_to_vk, set_word, entry_at, x86_flags}
use silkware.Paging.Calls.{Kernel, kvirt2phys, refresh_pages}

-- A space, `struct addrspace`.
pub record Space : Type 0 where
  pub addr : ℕ
  pub physmap : Map

-- The kernel with the page allocator, and the space whose tables are written.
pub record Maker : Type 0 where
  pub kernel : Kernel
  pub pages : Pages
  pub space : Space

-- `table[idx] = x`
unfoldable pub put_entry : ℕ → ℕ → Maker → Maker
unfolding set_word
put_entry entry x s =
    let k = s.kernel in
    record s {
      kernel = record k { tables = record k.tables { word = set_word k.tables.word entry x } };
    }

unfoldable pub tab_new : ℕ → Layout → (ℕ → ℕ) → Maker → Exec (ℕ × Maker)
unfolding page_alloc kvirt2phys map_insert le_bytes
tab_new fuel l home s = page_alloc fuel page_size s.pages >>= λ (p : ℕ × Pages).
    kvirt2phys fuel l home s.kernel.current p.0 s.kernel >>= λ (r : ℕ × Kernel).
    map_insert s.space.physmap (le_bytes 8 r.0) (le_bytes 8 p.0) >>= λ (m : Map).
    done (r.0, record { kernel = r.1; pages = p.1; space = record s.space { physmap = m } })

-- What `tab_get` does with the answer of `map_get`; `is_kspace` is `space == &kspace`.
unfoldable pub found_table : Layout → Bool → ℕ → Option Bytes → Exec ℕ
unfolding of_le physk_to_vk
found_table l is_kspace phys none = if is_kspace then done (physk_to_vk l phys) else panicked
found_table l is_kspace phys (some virt) = done (of_le virt)

unfoldable pub tab_get : Layout → Bool → Space → ℕ → Exec ℕ
unfolding map_get le_bytes found_table
tab_get l is_kspace space phys =
    map_get space.physmap (le_bytes 8 phys) >>= λ res. found_table l is_kspace phys res

-- `if (!(table[idx] & X86_PAGE_PRESENT)) table[idx] = tab_new(space) | top_flags;`
unfoldable pub make_table : ℕ → Layout → (ℕ → ℕ) → ℕ → Maker → Exec Maker
unfolding tab_new put_entry
make_table fuel l home entry s =
    let make =
      tab_new fuel l home s >>= λ (r : ℕ × Maker). done (put_entry entry (bit_or r.0 7) r.1) in
    if bit_and (s.kernel.tables.word entry) 1 == 0 then make else done s

-- A step down, from the entry to the address of the table that it leads to.
unfoldable pub enter_table : ℕ → Layout → (ℕ → ℕ) → Bool → ℕ → Maker → Exec (ℕ × Maker)
unfolding make_table tab_get addr_masked
enter_table fuel l home is_kspace entry s = make_table fuel l home entry s >>= λ (s' : Maker).
    tab_get l is_kspace s'.space (addr_masked (s'.kernel.tables.word entry)) >>= λ table.
    done (table, s')

-- The body of the loop of `map_pages`.
unfoldable pub map_page : ℕ → Layout → (ℕ → ℕ) → Bool → ℕ → ℕ → ℕ → Maker → Exec Maker
unfolding enter_table entry_at put_entry addr_masked
map_page fuel l home is_kspace dst src flags s =
    enter_table fuel l home is_kspace (entry_at s.space.addr dst 39) s >>= λ (r3 : ℕ × Maker).
    enter_table fuel l home is_kspace (entry_at r3.0 dst 30) r3.1 >>= λ (r2 : ℕ × Maker).
    enter_table fuel l home is_kspace (entry_at r2.0 dst 21) r2.1 >>= λ (r1 : ℕ × Maker).
    done (put_entry (entry_at r1.0 dst 12) (bit_or (addr_masked src) flags) r1.1)

-- `while (dst < dst_end && src < src_end)`, with fuel for the rounds and for each call.
unfoldable pub map_loop : ℕ → ℕ → Layout → (ℕ → ℕ) → Bool → ℕ → ℕ → ℕ → ℕ → ℕ → Maker → Exec Maker
unfolding map_page
map_loop zero fuel l home is_kspace dst dst_end src src_end flags s = out_of_fuel
map_loop (suc rounds) fuel l home is_kspace dst dst_end src src_end flags s =
    let rest = map_page fuel l home is_kspace dst src flags s >>= λ (s' : Maker).
    map_loop rounds fuel l home is_kspace (dst + page_size) dst_end (src + page_size) src_end flags
      s' in
    if ltb dst dst_end && ltb src src_end then rest else done s

unfoldable pub map_pages : ℕ → ℕ → Layout → (ℕ → ℕ) → Bool → ℕ → ℕ → ℕ → ℕ → Maker → Exec Maker
unfolding map_loop x86_flags page_base
map_pages rounds fuel l home is_kspace dst src length flags s =
    map_loop rounds fuel l home is_kspace dst (page_base (u64 (dst + length + 0xfff))) src
      (page_base (u64 (src + length + 0xfff))) (x86_flags flags) s

-- In the space of the current process, or in the kernel's.
unfoldable pub map_anon : ℕ → ℕ → Layout → (ℕ → ℕ) → Bool → ℕ → ℕ → ℕ → Maker → Exec (ℕ × Maker)
unfolding map_pages refresh_pages page_base round_up_page
map_anon rounds fuel l home is_kspace phys len flags s =
    let start = s.kernel.end_pos in
    let res = u64 (start + (phys - page_base phys)) in
    let end = round_up_page (u64 (start + len)) in
    map_pages rounds fuel l home is_kspace start (page_base phys) len flags s >>= λ (s1 : Maker).
    refresh_pages rounds res end (record s1.kernel { end_pos = end }) >>= λ (k2 : Kernel).
    done (res, record s1 { kernel = k2 })

unfoldable pub addrspace_free : ℕ → ℕ → Pages → Exec Pages
unfolding page_free
addrspace_free fuel addr pages = page_free fuel addr page_size pages
