-- ===== src/Paging.antt =====
-- kernel/arch/x86_64/paging.c: premap_pages over the kernel's page tables, with miniheap_alloc of
-- kernel/miniheap.c. An entry is a word at its virtual address.
pub mod Walk
pub mod Flags
pub mod Calls
pub mod Refresh
pub mod Spaces
pub mod Window
pub mod Translate
use silkware.Base.{
  ℕ, zero, suc, ◌+◌, ◌-◌, ◌*◌, ◌/◌, ◌%◌, ◌^◌, bit_and, bit_or, Bool, ◌&&◌, ltb, ◌==◌, if◌then◌else◌,
  u32, u64, sub64, shr, page_size,
}
use silkware.Base.Exec.{Exec, done, panicked, out_of_fuel, ◌>>=◌}
use silkware.PageAlloc.Init.{page_base, round_up_page}

-- What the boot loader and the linker give: the addresses of the kernel, of its top table and of the
-- end of the mini heap, and the page through which kvirt2phys reads tables.
pub record Layout : Type 0 where
  pub virtual_base : ℕ
  pub physical_base : ℕ
  pub kpml4 : ℕ
  pub miniheap_end : ℕ
  pub page_tmp : ℕ

-- The words of the tables, and the mini heap's `brk`.
pub record Tables : Type 0 where
  pub word : ℕ → ℕ
  pub brk : ℕ

-- `VK2PHYSK` and `PHYSK2VK`
unfoldable pub vk_to_physk : Layout → ℕ → ℕ
vk_to_physk l x = u64 (sub64 x l.virtual_base + l.physical_base)

unfoldable pub physk_to_vk : Layout → ℕ → ℕ
physk_to_vk l x = u64 (sub64 x l.physical_base + l.virtual_base)

-- `x & ADDR_MASK`, which clears the low 12 digits and digit 63.
unfoldable pub addr_masked : ℕ → ℕ
addr_masked x = bit_and x ((2 ^ 51 - 1) * 2 ^ 12)

unfoldable pub set_word : (ℕ → ℕ) → ℕ → ℕ → ℕ → ℕ
set_word w a x b = if b == a then x else w b

unfoldable pub miniheap_alloc : Layout → Tables → ℕ → Exec (ℕ × Tables)
unfolding round_up_page
miniheap_alloc l s size =
    let brk' = s.brk + round_up_page size in
    if ltb l.miniheap_end brk' then panicked else done (s.brk, record s { brk = brk' })

-- `if (!(entry & X86_PAGE_PRESENT)) entry = VK2PHYSK(miniheap_alloc(PAGE_SIZE)) | top_flags;`
unfoldable pub table_at : Layout → Tables → ℕ → Exec Tables
unfolding miniheap_alloc
table_at l s entry =
    let make = miniheap_alloc l s page_size >>= λ (r : ℕ × Tables).
    done (record r.1 { word = set_word r.1.word entry (bit_or (vk_to_physk l r.0) 7) }) in
    if bit_and (s.word entry) 1 == 0 then make else done s

-- The address of the entry for `virt` in a table, whose index starts at digit `k`.
unfoldable pub entry_at : ℕ → ℕ → ℕ → ℕ
entry_at table virt k = table + 8 * bit_and (shr virt k) 0x1ff

-- The table that an entry points to.
unfoldable pub next_table : Layout → (ℕ → ℕ) → ℕ → ℕ
unfolding addr_masked physk_to_vk
next_table l w entry = physk_to_vk l (addr_masked (w entry))

-- The body of the loop of `premap_pages`.
unfoldable pub premap_page : Layout → Tables → ℕ → ℕ → ℕ → Exec Tables
unfolding table_at
premap_page l s dst src x86_flags =
    let pml4e = entry_at l.kpml4 dst 39 in
    table_at l s pml4e >>= λ s4.
    let pdpte = entry_at (next_table l s4.word pml4e) dst 30 in
    table_at l s4 pdpte >>= λ s3.
    let pde = entry_at (next_table l s3.word pdpte) dst 21 in
    table_at l s3 pde >>= λ s2.
    let pte = entry_at (next_table l s2.word pde) dst 12 in
    done (record s2 { word = set_word s2.word pte (bit_or (addr_masked src) x86_flags) })

-- `!!(flags & bit) * x`
unfoldable pub flag : ℕ → ℕ → ℕ → ℕ
flag flags bit x = if bit_and flags bit == 0 then 0 else x

-- `x86_flags`, which is an `int` and so has the low 32 digits: X86_PAGE_NX, digit 63, is lost.
unfoldable pub x86_flags : ℕ → ℕ
unfolding flag
x86_flags flags = u32 (
    bit_or
      (bit_or (bit_or (bit_or (flag flags 1 1) (flag flags 4 4)) (flag flags 2 2))
        (flag flags 8 (2 ^ 63)))
      (flag flags 16 16))

-- `while (dst < dst_end && src < src_end)`
unfoldable pub premap_loop : ℕ → Layout → Tables → ℕ → ℕ → ℕ → ℕ → ℕ → Exec Tables
premap_loop zero l s dst dst_end src src_end flags = out_of_fuel
premap_loop (suc fuel) l s dst dst_end src src_end flags =
    let rest = premap_page l s dst src flags >>= λ s'.
    premap_loop fuel l s' (dst + page_size) dst_end (src + page_size) src_end flags in
    if ltb dst dst_end && ltb src src_end then rest else done s

unfoldable pub premap_pages : ℕ → Layout → Tables → ℕ → ℕ → ℕ → ℕ → Exec Tables
unfolding x86_flags
premap_pages fuel l s dst src length flags =
    premap_loop fuel l s dst (page_base (u64 (dst + length + 0xfff))) src
      (page_base (u64 (src + length + 0xfff))) (x86_flags flags)
