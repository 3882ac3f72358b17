-- ===== src/Descriptors/Segments.antt =====
-- kernel/arch/x86_64/gdt.c: what `make_gdt` leaves for the processor.
use silkware.Base.{ℕ, ◌+◌, ◌*◌, ◌^◌, ◌<◌, ◌≡◌, ◌≢◌, refl, arith, ◌==◌, ==_refl, false, page_size}
use silkware.Base.Exec.{Exec, done}
use silkware.PageAlloc.{Pages, page_alloc}
use silkware.Descriptors.{CpuTables, tss_desc, put_at, base_entries, make_gdt}
use silkware.Descriptors.Addresses.{tss_base, tss_base-tss_desc}

-- The tables of CPU `id` once `make_gdt` returned: `low` and `high` are the pages of the two stacks.
pub record IsTabled (t : CpuTables) (id low high : ℕ) (pages : Pages) (r : Exec (ℕ × CpuTables))
    : Type 0 where
  pub after : CpuTables
  pub returns : r ≡ done (t.gdtr_at + 10 * id, after)
  pub pointer : (after.cpu_gdtr id).base ≡ t.gdt_at + 56 * id
  pub covers : (after.cpu_gdtr id).limit + 1 ≡ 8 * 5 + 16
  pub task : tss_base (after.cpu_gdt id).tss ≡ t.tss_at + 104 * id
  pub segments : (after.cpu_gdt id).entries ≡ base_entries
  pub kernel_stack : (after.cpu_tss id).rsp0 ≡ low + page_size
  pub interrupt_stack : (after.cpu_tss id).ist1 ≡ high + page_size
  pub no_ports : (after.cpu_gdt id).tss.limit_low < (after.cpu_tss id).iopb
  pub other_tasks : (d : ℕ) → d ≢ id → after.cpu_tss d ≡ t.cpu_tss d
  pub other_tables : (d : ℕ) → d ≢ id → after.cpu_gdt d ≡ t.cpu_gdt d
  pub other_pointers : (d : ℕ) → d ≢ id → after.cpu_gdtr d ≡ t.cpu_gdtr d
  pub left : after.pages ≡ pages

put_at-other {ℓ} : {A : Type ℓ} (f : ℕ → A) (i : ℕ) (x : A) (j : ℕ) → j ≢ i → put_at f i x j ≡ f j
put_at-other f i x j ne = let other : (j == i) ≡ false = ground arith in rw other refl

-- When page_alloc gives the pages `low` and `high`, which end below 2 ^ 64, and the CPU's task state
-- lies below 2 ^ 64, make_gdt returns the address of the CPU's `struct gdtr`. That points to the
-- CPU's table and covers it; the table holds the segments of gdt_base, and a descriptor from which
-- the processor puts together the address of the CPU's task state. The two stacks there start at
-- the ends of the two pages, and there are no permitted ports. The tables of other CPUs are as
-- before.
pub make_gdt-IsTabled :
    (fuel id low high : ℕ) (t : CpuTables) (p q : Pages)
    → page_alloc fuel page_size t.pages ≡ done (low, p)
    → page_alloc fuel page_size p ≡ done (high, q)
    → low + page_size < 2 ^ 64
    → high + page_size < 2 ^ 64
    → t.tss_at + 104 * id < 2 ^ 64
    → IsTabled t id low high q (make_gdt fuel id t)
unfolding make_gdt
make_gdt-IsTabled fuel id low high t p q first second l h small =
    rw (first, second)
      (record {
        after = _;
        returns = refl;
        pointer = rw (==_refl id) refl;
        covers = rw (==_refl id) refl;
        task = rw (==_refl id) (tss_base-tss_desc (t.tss_at + 104 * id) small);
        segments = rw (==_refl id) refl;
        kernel_stack = rw (==_refl id) (omega arith);
        interrupt_stack = rw (==_refl id) (omega arith);
        no_ports = rw (==_refl id) (unfold tss_desc in omega arith);
        other_tasks = put_at-other _ id _;
        other_tables = put_at-other _ id _;
        other_pointers = put_at-other _ id _;
        left = refl;
      })
