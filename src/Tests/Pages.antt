-- ===== src/Tests/Pages.antt =====
-- kernel/page_alloc.c: allocations at concrete addresses.
use silkware.Base.{◌≡◌, refl, none, some, [], ◌∷◌, arith}
use silkware.Base.Exec.{panicked}
use silkware.Links.{Cells, cell}
use silkware.PageAlloc.{Pool, page_round, page_alloc}
use silkware.PageAlloc.Pow2.{next_pow2}
use silkware.PageAlloc.Alloc.{IsPool}
use silkware.PageAlloc.Contract.{Allocated, page_alloc-Allocated, page_alloc_fails}

-- One free block of 64 KiB, and nothing else, in a pool of its size.
abbrev one_block : Pool
one_block = record { start = 65536; base = 65536; end = 131072 }

abbrev headers : Cells
headers a = cell 65536 131072

rounded : page_round 5000 ≡ 8192
unfolding page_round next_pow2
rounded = refl

one_block-IsPool : IsPool headers one_block ((65536, 65536) ∷ [])
one_block-IsPool = record {
  chain = (refl, refl, refl);
  ordered = (omega arith, omega arith, omega arith);
  buddies = ((16, 0, omega arith, omega arith), tt);
}

page_alloc-Allocated_example :
    Allocated headers [] [] one_block [] [] 65536 65536
      (page_round 5000)
      (page_alloc 8 5000 (record { heap = headers; pools = some (one_block ∷ []) }))
page_alloc-Allocated_example =
    page_alloc-Allocated headers [] [] one_block [] [] 65536 5000 8 65536 (omega arith)
      (omega arith) tt one_block-IsPool tt (omega arith) (omega (arith, rounded))

-- A request for more than the one block.
too_large : page_round 100000 ≡ 131072
unfolding page_round next_pow2
too_large = refl

page_alloc-fails_example :
    (page_alloc 8 100000 (record { heap = headers; pools = some (one_block ∷ []) }) ≡ panicked)
    × (page_alloc 8 100000 (record { heap = headers; pools = none }) ≡ panicked)
page_alloc-fails_example =
    page_alloc_fails headers (one_block ∷ []) 100000 8
      ((((65536, 65536) ∷ []), one_block-IsPool, (omega (arith, too_large), tt), omega arith), tt)
