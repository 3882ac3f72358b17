-- ===== src/PageAlloc/Init.antt =====
-- `page_alloc_init`: the pools that an entry of the memory map is cut into. `premap_anon` of
-- kernel/arch/x86_64/paging.c maps each of them.
use silkware.Base.{
  ℕ, zero, suc, ◌+◌, ◌-◌, ◌*◌, ◌^◌, bit_and, not, List, [], ◌∷◌, ◌++◌, some, length, ltb, leb, ◌==◌,
  if◌then◌else◌, page_size, u64,
}
use silkware.Base.Exec.{Exec, done, fault, out_of_fuel, ◌>>=◌, ◌>>◌, assert}
use silkware.Links.{Cells, cell, write}
use silkware.PageAlloc.{Pool, Pages}
use silkware.PageAlloc.Pow2.{prev_pow2}

-- `x & ~0xFFF`
unfoldable pub page_base : ℕ → ℕ
page_base x = bit_and x ((2 ^ 52 - 1) * 2 ^ 12)

unfoldable pub round_up_page : ℕ → ℕ
unfolding page_base
round_up_page x = page_base (u64 (x + (page_size - 1)))

-- The `do` loop that counts the pools of an entry.
unfoldable pub count_loop : ℕ → ℕ → Exec ℕ
count_loop zero len = out_of_fuel
count_loop (suc fuel) len =
    let less = len - prev_pow2 len in
    let rest = count_loop fuel less in
    if leb page_size (less - prev_pow2 less) then (rest >>= λ n. done (suc n)) else done 1

-- The calls of kernel/arch/x86_64/paging.c and kernel/miniheap.c: premap_anon with the flags
-- PAGE_PRESENT | PAGE_WRITABLE | PAGE_NX, and miniheap_alloc, either of which can panic.
pub record Premapper {ℓ} (S : Type ℓ) : Type ℓ where
  pub premap_anon : ℕ → ℕ → S → Exec (ℕ × S)
  pub miniheap_alloc : ℕ → S → Exec (ℕ × S)

-- What has been laid: the block headers, and the state that the calls of paging change.
pub record Laid {ℓ} (S : Type ℓ) : Type ℓ where
  pub heap : Cells
  pub maps : S

module _ {ℓ} {S : Type ℓ} (io : Premapper S) where
  -- The body of the `do` loop that lays the pools of an entry.
  unfoldable pub lay_pool : Laid S → ℕ → ℕ → Exec (Pool × Laid S)
  lay_pool s phys szp2 = io.premap_anon phys szp2 s.maps >>= λ (t : ℕ × S).
      let end = u64 (t.0 + szp2) in
      done (
        record { start = t.0; base = t.0; end = end },
        record { heap = write s.heap t.0 (cell szp2 end); maps = t.1 },
      )

  -- The loop itself: `phys` and `sz` of the source.
  unfoldable pub lay_loop : ℕ → Laid S → ℕ → ℕ → Exec (List Pool × Laid S)
  unfolding lay_pool
  lay_loop zero s phys sz = out_of_fuel
  lay_loop (suc fuel) s phys sz =
      let szp2 = prev_pow2 sz in
      let less = sz - szp2 in
      lay_pool s phys szp2 >>= λ (laid : Pool × Laid S).
      let rest = lay_loop fuel laid.1 (u64 (phys + szp2)) less in
      if leb page_size (less - prev_pow2 less)
      then (rest >>= λ (r : List Pool × Laid S). done (laid.0 ∷ r.0, r.1))
      else done (laid.0 ∷ [], laid.1)

-- The two `for` loops over the memory map, a list of the base and length of its entries.
unfoldable pub count_pools : List (ℕ × ℕ) → Exec ℕ
count_pools [] = done 0
count_pools ((base, len) ∷ rest) =
    let later = count_pools rest in
    let here = count_loop 64 len >>= λ n. later >>= λ m. done (n + m) in
    if ltb len page_size then later else here

module _ {ℓ} {S : Type ℓ} (io : Premapper S) where
  unfoldable pub lay_pools : Laid S → List (ℕ × ℕ) → Exec (List Pool × Laid S)
  lay_pools s [] = done ([], s)
  lay_pools s ((base, len) ∷ rest) =
      let skipped = lay_pools s rest in
      let here = lay_loop io 64 s base len >>= λ (r : List Pool × Laid S).
      lay_pools r.1 rest >>= λ (t : List Pool × Laid S). done (r.0 ++ t.0, t.1) in
      if ltb len page_size then skipped else here

  -- A `pool` has 24 bytes. The array has room for the pools that were counted: a pool beyond it would
  -- be written out of bounds.
  unfoldable pub page_alloc_init : Laid S → List (ℕ × ℕ) → Exec (Pages × S)
  unfolding lay_pools
  page_alloc_init s memmap = count_pools memmap >>= λ n_pools.
      assert (not (n_pools == 0))
      >> io.miniheap_alloc (u64 (n_pools * 24)) s.maps
      >>= λ (array : ℕ × S).
          assert (not (array.0 == 0))
          >> lay_pools (record s { maps = array.1 }) memmap
          >>= λ (r : List Pool × Laid S).
              if leb (length r.0) n_pools
              then done (record { heap = r.1.heap; pools = some r.0 }, r.1.maps)
              else fault
