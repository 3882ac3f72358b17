-- ===== src/Tests/Blocks.antt =====
-- kernel/kalloc.c with two free blocks.
use silkware.Base.{◌≡◌, refl, none, [], ◌∷◌, arith, ◌==◌, if◌then◌else◌}
use silkware.Links.{Cells, cell}
use silkware.Kalloc.{Heap, align_up, kalloc}
use silkware.Kalloc.Fit.{IsFree, IsCut, kalloc-IsCut}

-- Free blocks of 16 bytes at 1000 and of 512 bytes at 2000.
abbrev memory : Cells
memory a = if a == 1000 then cell 16 2000 else cell 512 0

abbrev two_blocks : Heap
two_blocks = record { pages = record { heap = memory; pools = none }; start = 1000 }

two_blocks-IsFree : IsFree memory 1000 ((1000, 16) ∷ (2000, 512) ∷ [])
two_blocks-IsFree = record {
  chain = (refl, refl, (refl, refl, refl));
  some_block = refl;
  distinct = (refl, (refl, tt));
}

aligned : align_up 100 ≡ 112
unfolding align_up
aligned = refl

kalloc-IsCut_example :
    IsCut two_blocks 2000 512 (align_up 100) ((1000, 16) ∷ []) [] (kalloc 2 two_blocks 100)
kalloc-IsCut_example =
    kalloc-IsCut two_blocks 2000 512 100 0 ((1000, 16) ∷ []) [] two_blocks-IsFree
      (omega (arith, aligned), tt) (omega (arith, aligned)) (rw aligned refl)
