-- ===== src/PageAlloc.antt =====
-- kernel/page_alloc.c: the buddy allocator of pages. A block's header lies at its address, so the
-- headers are a memory of cells, `value` for `size`. Allocator calls run under one lock, so each is
-- a function from state to state.
mod Order
pub mod Pow2
pub mod Split
pub mod Alloc
pub mod Contract
mod Walk
pub mod Free
pub mod Flaws
pub mod Init
pub mod Resize
use silkware.Base.{
  ℕ, zero, suc, ◌+◌, ◌-◌, ◌/◌, bit_xor, Bool, true, false, ◌||◌, Option, none, some, List, [], ◌∷◌,
  ltb, leb, ◌==◌, if◌then◌else◌, page_size, u64,
}
use silkware.Base.Exec.{Exec, done, panicked, fault, out_of_fuel, ◌>>=◌, ◌>>◌, assert}
use silkware.Links.{Cell, cell, Cells, write, set_next, set_value}
use silkware.PageAlloc.Pow2.{next_pow2}

-- `struct pool`, ordered by address.
pub record Pool : Type 0 where
  pub start : ℕ
  pub base : ℕ
  pub end : ℕ

-- `pools` is `none` before `page_alloc_init`.
pub record Pages : Type 0 where
  pub heap : Cells
  pub pools : Option (List Pool)

unfoldable pub get_buddy : Cells → ℕ → ℕ → ℕ
get_buddy h addr base = base + bit_xor (addr - base) (h addr).value

-- One round of the loop of `split`: halve `b`, and put its upper half behind it.
unfoldable pub split_once : Cells → ℕ → ℕ → Cells
unfolding get_buddy
split_once h b base =
    let halved = set_value h b ((h b).value / 2) in
    let bb = get_buddy halved b base in set_next (write halved bb (halved b)) b bb

-- `while (b->size != sz) ...`
unfoldable pub split_loop : ℕ → Cells → ℕ → ℕ → ℕ → Exec Cells
split_loop zero h b sz base = out_of_fuel
split_loop (suc fuel) h b sz base = elim ((h b).value == sz) [
  | true ↦ done h
  | false ↦ split_loop fuel (split_once h b base) b sz base
]

-- A size has 64 digits, so 65 rounds are enough.
unfoldable pub split : Cells → ℕ → ℕ → ℕ → Exec Cells
split h b sz base = assert (leb sz (h b).value) >> split_loop 65 h b sz base

-- What the scan of one pool finds: a block taken, with the changed headers and start, or nothing.
pub data Scan : Type 0 where
  taken : ℕ → Cells → ℕ → Scan
  not_found : Scan

-- `if (prev) prev->next = q; else pools[i].start = q;`: the headers and the start.
unfoldable pub relink : Cells → ℕ → Option ℕ → ℕ → Cells × ℕ
relink h start none q = (h, q)
relink h start (some p) q = (set_next h p q, start)

-- `for (b = pools[i].start; b < pools[i].end; b = b->next)`
unfoldable pub scan_pool : ℕ → Cells → Pool → Option ℕ → ℕ → ℕ → Exec Scan
scan_pool zero h pool prev b sz = out_of_fuel
scan_pool (suc fuel) h pool prev b sz =
    let next = scan_pool fuel h pool (some b) (h b).next sz in
    if ltb b pool.end
    then (if leb sz (h b).value
        then (split h b sz pool.base >>= λ g.
            let (g', start) = relink g pool.start prev (g b).next in done (taken b g' start))
        else next)
    else done not_found

-- `for (i = 0; i < n_pools; ++i)`: the address, the headers and the pools after the first success.
unfoldable pub scan_pools : ℕ → Cells → List Pool → ℕ → Exec (Option (ℕ × Cells × List Pool))
scan_pools fuel h [] sz = done none
scan_pools fuel h (pool ∷ rest) sz = scan_pool fuel h pool none pool.start sz >>= λ found.
    elim found [
      | taken b g start ↦ done (some (b, g, record pool { start = start } ∷ rest))
      | not_found ↦ scan_pools fuel h rest sz >>= λ later. elim later [
        | none ↦ done none
        | some (b, g, rest') ↦ done (some (b, g, pool ∷ rest'))
      ]
    ]

-- The size that a request is rounded to.
unfoldable pub page_round : ℕ → ℕ
unfolding next_pow2
page_round sz = if ltb (next_pow2 sz) page_size then page_size else next_pow2 sz

-- `fuel` bounds the blocks of one free list. Out of memory is a panic.
unfoldable pub page_alloc : ℕ → ℕ → Pages → Exec (ℕ × Pages)
page_alloc fuel sz s = elim s.pools [
  | none ↦ panicked
  | some pools ↦ scan_pools fuel s.heap pools (page_round sz) >>= λ found. elim found [
    | none ↦ panicked
    | some (b, g, pools') ↦ done (b, record { heap = g; pools = some pools' })
  ]
]

-- `page` and the block `b` become one block at the lower of the two addresses.
unfoldable pub merge : Cells → ℕ → ℕ → Option ℕ → ℕ → Cells × ℕ
unfolding relink
merge h start page prev b =
    let low = if ltb page b then page else b in
    let high = if ltb page b then b else page in
    let grown = set_value h low ((h low).value + (h high).value) in
    relink (set_next grown low (grown b).next) start prev low

-- `page` goes between `prev` and `b`.
unfoldable pub insert_page : Cells → ℕ → ℕ → Option ℕ → ℕ → Cells × ℕ
insert_page h start page none b = (set_next h page start, page)
insert_page h start page (some p) b = (set_next (set_next h p page) page b, start)

-- `for (b = pools[i].start; ; b = b->next)`
unfoldable pub free_loop : ℕ → Cells → Pool → ℕ → Option ℕ → ℕ → Exec (Cells × ℕ)
free_loop zero h pool page prev b = out_of_fuel
free_loop (suc fuel) h pool page prev b =
    let next = free_loop fuel h pool page (some b) (h b).next in
    if b == get_buddy h page pool.base
    then done (merge h pool.start page prev b)
    else if ltb page b
    then done (insert_page h pool.start page prev b)
    else if b == pool.end
    then elim prev [
      | none ↦ fault
      | some p ↦ done (insert_page h pool.start page (some p) pool.end)
    ]
    else next

-- `for (i = 0; i < n_pools; ++i)`, with the `continue` and the panic behind the loop.
unfoldable pub free_pools : ℕ → Cells → List Pool → ℕ → Exec (Cells × List Pool)
free_pools fuel h [] page = panicked
free_pools fuel h (pool ∷ rest) page =
    let later = free_pools fuel h rest page >>= λ (r : Cells × List Pool). done (r.0, pool ∷ r.1) in
    let here = free_loop fuel h pool page none pool.start >>= λ (r : Cells × ℕ).
    done (r.0, record pool { start = r.1 } ∷ rest) in
    if ltb page pool.base || ltb pool.end page then later else here

unfoldable pub page_free : ℕ → ℕ → ℕ → Pages → Exec Pages
page_free fuel page sz s =
    free_pools fuel (set_value s.heap page (page_round sz))
      (elim s.pools [ none ↦ [] | some l ↦ l ]) page
    >>= λ (r : Cells × List Pool).
        done (record s { heap = r.0; pools = elim s.pools [ none ↦ none | some _ ↦ some r.1 ] })
