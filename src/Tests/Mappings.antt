-- ===== src/Tests/Mappings.antt =====
-- premap_pages on small tables.
use silkware.Base.{refl, arith, ◌==◌, if◌then◌else◌}
use silkware.Paging.{Layout, Tables, premap_page, entry_at, next_table}
use silkware.Paging.Walk.{IsReachable, IsMapped, premap_page-IsMapped}
use silkware.Base.{[], none}
use silkware.Paging.Calls.{Kernel, top_table, kvirt2phys}
use silkware.Paging.Window.{IsWindow}
use silkware.Paging.Translate.{IsTranslatable, IsTranslated, kvirt2phys-IsTranslated}

abbrev pub layout : Layout
layout = record {
  virtual_base = 0;
  physical_base = 0;
  kpml4 = 0x1000;
  miniheap_end = 0x100000;
  page_tmp = 0xf000;
}

-- The tables at 0x1000, 0x2000, 0x3000 and 0x4000, one behind the other.
abbrev tables : Tables
tables = record {
  word = λ a.
      if a == 0x1000
      then 0x2007
      else if a == 0x2000
      then 0x3007
      else if a == 0x3000
      then 0x4007
      else 0;
  brk = 0x8000;
}

reachable : IsReachable layout tables.word 0x5000
unfolding entry_at next_table
reachable = record {
  top = refl;
  upper = refl;
  lower = refl;
  apart_top = omega arith;
  apart_upper = omega arith;
  apart_lower = omega arith;
}

premap_page-IsMapped_example :
    IsMapped layout tables 0x5000 0x9000 3 (premap_page layout tables 0x5000 0x9000 3)
premap_page-IsMapped_example =
    premap_page-IsMapped layout tables 0x5000 0x9000 3 reachable (omega arith) (omega arith)

-- With a page of the tables at 0x9000.
abbrev pub mapped : Kernel
mapped = record {
  tables = record tables { word = λ a. if a == 0x4028 then 0x9003 else tables.word a };
  end_pos = 0;
  flushed = [];
  cr3 = 0;
  current = none;
}

window : IsWindow layout mapped.tables.word
unfolding entry_at next_table
window = record {
  page = 15;
  at_page = refl;
  low = omega arith;
  reachable = record {
    top = refl;
    upper = refl;
    lower = refl;
    apart_top = omega arith;
    apart_upper = omega arith;
    apart_lower = omega arith;
  };
}

translatable : IsTranslatable layout (λ p. p) none 0x5123 mapped.tables.word
unfolding entry_at next_table top_table
translatable = record {
  virtual = refl;
  present4 = refl;
  present3 = refl;
  present2 = refl;
  apart3 = omega arith;
  apart2 = omega arith;
  apart1 = omega arith;
}

kvirt2phys-IsTranslated_example :
    IsTranslated layout
      (λ p. p)
      none
      0x5123
      mapped.tables.word
      (kvirt2phys 2 layout (λ p. p) none 0x5123 mapped)
kvirt2phys-IsTranslated_example =
    kvirt2phys-IsTranslated 0 layout (λ p. p) none 0x5123 mapped window translatable
