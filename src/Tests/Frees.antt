-- ===== src/Tests/Frees.antt =====
-- kernel/page_alloc.c: frees at concrete addresses.
use silkware.Base.{ℕ, ◌≡◌, refl, none, [], ◌∷◌, arith}
use silkware.Links.{Cells, cell}
use silkware.PageAlloc.{Pool, get_buddy, free_loop}
use silkware.PageAlloc.Free.{
  IsFreed, free_loop-IsFreed_insert, free_loop-IsFreed_lower, free_loop-IsFreed_upper,
}

abbrev pages_8 : ℕ → Pool
pages_8 start = record { start = start; base = 65536; end = 98304 }

-- The pages at 65536 and at 69632 are buddies; one of them is free.
abbrev headers : Cells
headers a = cell 4096 98304

no_buddy : get_buddy headers 73728 65536 ≡ 77824
unfolding get_buddy
no_buddy = refl

lower_buddy : get_buddy headers 65536 65536 ≡ 69632
unfolding get_buddy
lower_buddy = refl

upper_buddy : get_buddy headers 69632 65536 ≡ 65536
unfolding get_buddy
upper_buddy = refl

-- The page at 73728 has the page at 77824 for its buddy, which is not free.
free_loop-insert_example :
    IsFreed headers
      (pages_8 65536)
      ((65536, 4096) ∷ (73728, 4096) ∷ [])
      (free_loop 2 headers (pages_8 65536) 73728 none 65536)
free_loop-insert_example =
    free_loop-IsFreed_insert headers (pages_8 65536) 73728 4096 ((65536, 4096) ∷ []) [] 69632 0
      (refl, refl, refl) (omega arith, omega arith, omega arith) (omega arith) refl (omega arith)
      (omega arith) (rw no_buddy refl) (omega (arith, no_buddy))

free_loop-lower_example :
    IsFreed headers
      (pages_8 69632)
      ((65536, 8192) ∷ [])
      (free_loop 1 headers (pages_8 69632) 65536 none 69632)
free_loop-lower_example =
    free_loop-IsFreed_lower headers (pages_8 69632) 65536 4096 69632 4096 [] [] 65536 0
      (refl, refl, refl) (omega arith) refl (omega arith) (omega (arith, lower_buddy)) (omega arith)
      (omega arith) (omega arith)

free_loop-upper_example :
    IsFreed headers
      (pages_8 65536)
      ((65536, 8192) ∷ [])
      (free_loop 1 headers (pages_8 65536) 69632 none 65536)
free_loop-upper_example =
    free_loop-IsFreed_upper headers (pages_8 65536) 69632 4096 65536 4096 [] [] 65536 0
      (refl, refl, refl) (omega arith) refl (omega arith) (omega (arith, upper_buddy)) (omega arith)
      (omega arith) (omega arith) (omega arith)

-- The pool was handed out whole.
abbrev whole : Cells
whole a = cell 32768 7

-- The page at 98304 is the first of the next pool.
next_buddy : get_buddy headers 98304 65536 ≡ 102400
unfolding get_buddy
next_buddy = refl
