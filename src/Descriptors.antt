-- ===== src/Descriptors.antt =====
-- kernel/arch/x86_64/gdt.c and idt.c: the tables of segments, of task states and of interrupts. An
-- array is a function of the index, next to its address.
pub mod Addresses
pub mod Segments
pub mod Gates
use silkware.Base.{
  Bool, true, false, ℕ, zero, suc, ◌+◌, ◌-◌, ◌*◌, ◌^◌, bit_and, bit_or, ◌==◌, if◌then◌else◌, ltb,
  u8, u16, u32, u64, shr, page_size,
}
use silkware.Base.Exec.{Exec, done, ◌>>=◌}
use silkware.PageAlloc.{Pages, page_alloc}
use silkware.Kalloc.{Heap, kalloc}

-- `struct gdt_desc`
pub record GdtDesc : Type 0 where
  pub limit_low : ℕ
  pub base_low : ℕ
  pub base_mid : ℕ
  pub access : ℕ
  pub granularity : ℕ
  pub base_high : ℕ

-- `struct gdtr`
pub record Gdtr : Type 0 where
  pub limit : ℕ
  pub base : ℕ

-- `struct tss`; `rsp` and `ist` are its three and seven numbered stacks.
pub record Tss : Type 0 where
  pub reserved1 : ℕ
  pub rsp0 : ℕ
  pub rsp1 : ℕ
  pub rsp2 : ℕ
  pub reserved2 : ℕ
  pub ist1 : ℕ
  pub ist2 : ℕ
  pub ist3 : ℕ
  pub ist4 : ℕ
  pub ist5 : ℕ
  pub ist6 : ℕ
  pub ist7 : ℕ
  pub reserved3 : ℕ
  pub reserved4 : ℕ
  pub iopb : ℕ

-- `struct tss_desc`
pub record TssDesc : Type 0 where
  pub limit_low : ℕ
  pub base_low : ℕ
  pub base_middle : ℕ
  pub access : ℕ
  pub granularity : ℕ
  pub base_high : ℕ
  pub base_upper : ℕ
  pub reserved : ℕ

-- The descriptor of the task state that `make_gdt` writes; `struct tss` has 104 bytes.
unfoldable pub tss_desc : ℕ → TssDesc
tss_desc base = record {
  limit_low = 104;
  base_low = u16 (bit_and base 0xffff);
  base_middle = u8 (bit_and (shr base 16) 0xff);
  access = 0x89;
  granularity = 0;
  base_high = u8 (bit_and (shr base 24) 0xff);
  base_upper = u32 (shr base 32);
  reserved = 0;
}

-- `struct gdt`: five descriptors, and that of the task state.
pub record Gdt : Type 0 where
  pub entries : ℕ → GdtDesc
  pub tss : TssDesc

-- The descriptors whose members the source writes out: they differ in two bytes.
unfoldable pub flat : ℕ → ℕ → GdtDesc
flat access granularity = record {
  limit_low = 0xffff;
  base_low = 0;
  base_mid = 0;
  access = access;
  granularity = granularity;
  base_high = 0;
}

abbrev pub no_desc : GdtDesc
no_desc = record {
  limit_low = 0;
  base_low = 0;
  base_mid = 0;
  access = 0;
  granularity = 0;
  base_high = 0;
}

-- `.entries` of `gdt_base`, from the bits of `access` and `granularity`.
unfoldable pub base_entries : ℕ → GdtDesc
unfolding flat
base_entries i =
    if i == 1
    then flat (2 ^ 7 + 2 ^ 4 + 2 ^ 3 + 2 ^ 1) (2 ^ 7 + 2 ^ 5 + 0xf)
    else if i == 2
    then flat (2 ^ 7 + 2 ^ 4 + 2 ^ 1) (2 ^ 7 + 2 ^ 6 + 0xf)
    else if i == 3
    then flat (2 ^ 7 + 2 ^ 4 + 2 ^ 1 + 3 * 2 ^ 5) (2 ^ 7 + 2 ^ 6 + 0xf)
    else if i == 4
    then flat (2 ^ 7 + 2 ^ 4 + 2 ^ 3 + 2 ^ 1 + 3 * 2 ^ 5) (2 ^ 7 + 2 ^ 5 + 0xf)
    else no_desc

-- `cpu_tss`, `cpu_gdt` and `cpu_gdtr`, each with its address, and the pages.
pub record CpuTables : Type 0 where
  pub cpu_tss : ℕ → Tss
  pub cpu_gdt : ℕ → Gdt
  pub cpu_gdtr : ℕ → Gdtr
  pub tss_at : ℕ
  pub gdt_at : ℕ
  pub gdtr_at : ℕ
  pub pages : Pages

-- `array[i] = x`
abbrev pub put_at {ℓ} : {A : Type ℓ} → (ℕ → A) → ℕ → A → ℕ → A
put_at f i x j = if j == i then x else f j

-- `id` is the number of the CPU; a `struct tss` has 104 bytes, a `struct gdt` 56 and a `struct gdtr`
-- 10. It returns the address of the CPU's `struct gdtr`.
unfoldable pub make_gdt : ℕ → ℕ → CpuTables → Exec (ℕ × CpuTables)
unfolding tss_desc base_entries page_alloc
make_gdt fuel id t = page_alloc fuel page_size t.pages >>= λ (r : ℕ × Pages).
    page_alloc fuel page_size r.1 >>= λ (q : ℕ × Pages).
    let task : Tss = record (t.cpu_tss id) {
      iopb = 0xffff;
      rsp0 = u64 (r.0 + page_size);
      ist1 = u64 (q.0 + page_size);
    } in
    let table : Gdt = record { entries = base_entries; tss = tss_desc (t.tss_at + 104 * id) } in
    let pointer : Gdtr = record { limit = 56 - 1; base = t.gdt_at + 56 * id } in
    done (
      t.gdtr_at + 10 * id,
      record t {
        cpu_tss = put_at t.cpu_tss id task;
        cpu_gdt = put_at t.cpu_gdt id table;
        cpu_gdtr = put_at t.cpu_gdtr id pointer;
        pages = q.1;
      },
    )

-- The addresses of the three arrays, and the heap.
unfoldable pub gdt_meta_init : ℕ → ℕ → Heap → Exec ((ℕ × ℕ × ℕ) × Heap)
unfolding kalloc
gdt_meta_init fuel ncpus s = kalloc fuel s (u64 (10 * ncpus)) >>= λ (r : ℕ × Heap).
    kalloc fuel r.1 (u64 (56 * ncpus)) >>= λ (g : ℕ × Heap).
    kalloc fuel g.1 (u64 (104 * ncpus)) >>= λ (t : ℕ × Heap). done ((r.0, g.0, t.0), t.1)

-- `struct idt_entry_t`
pub record IdtEntry : Type 0 where
  pub isr_low : ℕ
  pub kernel_cs : ℕ
  pub ist : ℕ
  pub flags : ℕ
  pub isr_mid : ℕ
  pub isr_high : ℕ
  pub reserved : ℕ

-- The table after `idt_set`.
unfoldable pub idt_set : (ℕ → IdtEntry) → ℕ → ℕ → ℕ → ℕ → IdtEntry
idt_set idt i isr flags j =
    let entry : IdtEntry = record {
      isr_low = u16 (bit_and isr 0xffff);
      kernel_cs = 8;
      ist = 1;
      flags = u8 flags;
      isr_mid = u16 (bit_and (shr isr 16) 0xffff);
      isr_high = u32 (shr isr 32);
      reserved = 0;
    } in
    if j == i then entry else idt j

-- `idt` with its address, `idtr`, the operand of the last `lidt`, and whether interrupts are on.
pub record Interrupts : Type 0 where
  pub idt : ℕ → IdtEntry
  pub idt_at : ℕ
  pub limit : ℕ
  pub base : ℕ
  pub loaded : ℕ × ℕ
  pub enabled : Bool

unfoldable pub idt_load : Interrupts → Interrupts
idt_load s = record s { loaded = (s.limit, s.base); enabled = true }

-- The calls of `idt_set` for `left` vectors from `x`; `isr x` is the address of `isr##x`.
unfoldable pub set_isrs : ℕ → (ℕ → ℕ) → ℕ → (ℕ → IdtEntry) → ℕ → IdtEntry
unfolding idt_set
set_isrs zero isr x idt = idt
set_isrs (suc left) isr x idt = set_isrs left isr (x + 1) (idt_set idt x (isr x) (bit_or 0x8e 0x60))

-- An entry has 16 bytes.
unfoldable pub idt_init : (ℕ → ℕ) → Interrupts → Interrupts
unfolding idt_load set_isrs
idt_init isr s =
    idt_load (record s { base = s.idt_at; limit = 16 * 256 - 1; idt = set_isrs 256 isr 0 s.idt })

-- What `isr_handle` does: return at once, call `ctx_switch`, or print a line and stop for good. The
-- line is one of `irq_msg`, or that of a reserved vector; the registers that are printed behind it
-- are left out.
pub data Handled : Type 0 where
  returned : Handled
  switched : Handled
  stopped_irq_msg : ℕ → Handled
  stopped_reserved : ℕ → Handled

unfoldable pub isr_handle : Bool → ℕ → Handled
isr_handle sched_ready num =
    if num == 32
    then (if sched_ready then switched else returned)
    else if ltb 18 num
    then stopped_reserved num
    else stopped_irq_msg num
