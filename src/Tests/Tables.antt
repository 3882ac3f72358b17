-- ===== src/Tests/Tables.antt =====
-- kernel/arch/x86_64/gdt.c and idt.c on small tables.
use silkware.Base.{
  ℕ, ◌+◌, ◌*◌, ◌≡◌, refl, false, some, [], ◌∷◌, arith, page_size, ◌==◌, if◌then◌else◌,
}
use silkware.Base.Exec.{done}
use silkware.Links.{cell}
use silkware.PageAlloc.{
  Pages, page_alloc, page_round, scan_pool, split, split_loop, relink, scan_pools,
}
use silkware.PageAlloc.Pow2.{next_pow2}
use silkware.Descriptors.{Interrupts, idt_init, no_desc, tss_desc, CpuTables, make_gdt}
use silkware.Descriptors.Gates.{IsHandled, idt_init-IsHandled}
use silkware.Descriptors.Segments.{IsTabled, make_gdt-IsTabled}

abbrev interrupts : Interrupts
interrupts = record {
  idt = λ i. record {
    isr_low = 0;
    kernel_cs = 0;
    ist = 0;
    flags = 0;
    isr_mid = 0;
    isr_high = 0;
    reserved = 0;
  };
  idt_at = 0x5000;
  limit = 0;
  base = 0;
  loaded = (0, 0);
  enabled = false;
}

-- The handlers stand 16 bytes apart.
idt_init-IsHandled_example :
    IsHandled (λ v. 0x100000 + 16 * v) interrupts (idt_init (λ v. 0x100000 + 16 * v) interrupts)
idt_init-IsHandled_example =
    idt_init-IsHandled (λ v. 0x100000 + 16 * v) interrupts (λ v h. omega arith)

-- Two free pages.
abbrev two_pages : Pages
two_pages = record {
  heap = λ a. if a == 0x8000 then cell 4096 0x9000 else cell 4096 0xa000;
  pools = some ((record { start = 0x8000; base = 0x8000; end = 0xa000 }) ∷ []);
}

abbrev tables : CpuTables
tables = record {
  cpu_tss = λ d. record {
    reserved1 = 0;
    rsp0 = 0;
    rsp1 = 0;
    rsp2 = 0;
    reserved2 = 0;
    ist1 = 0;
    ist2 = 0;
    ist3 = 0;
    ist4 = 0;
    ist5 = 0;
    ist6 = 0;
    ist7 = 0;
    reserved3 = 0;
    reserved4 = 0;
    iopb = 0;
  };
  cpu_gdt = λ d. record { entries = λ i. no_desc; tss = tss_desc 0 };
  cpu_gdtr = λ d. record { limit = 0; base = 0 };
  tss_at = 0x20000;
  gdt_at = 0x21000;
  gdtr_at = 0x22000;
  pages = two_pages;
}

-- The pages once both are taken.
pages_after : ℕ → Pages
pages_after start = record two_pages {
  pools = some ((record { start = start; base = 0x8000; end = 0xa000 }) ∷ []);
}

first : page_alloc 2 page_size two_pages ≡ done (0x8000, pages_after 0x9000)
unfolding page_alloc page_round next_pow2 scan_pools scan_pool split split_loop relink pages_after
first = refl

later : page_alloc 2 page_size (pages_after 0x9000) ≡ done (0x9000, pages_after 0xa000)
unfolding page_alloc page_round next_pow2 scan_pools scan_pool split split_loop relink pages_after
later = refl

make_gdt-IsTabled_example :
    IsTabled tables 1 0x8000 0x9000 (pages_after 0xa000) (make_gdt 2 1 tables)
make_gdt-IsTabled_example =
    make_gdt-IsTabled 2 1 0x8000 0x9000 tables (pages_after 0x9000) (pages_after 0xa000) first later
      (omega arith) (omega arith) (omega arith)
