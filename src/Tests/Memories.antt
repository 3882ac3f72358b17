-- ===== src/Tests/Memories.antt =====
-- A memory map at concrete values.
use silkware.Base.{◌+◌, ℕ, ◌≡◌, Bool, true, false, List, [], ◌∷◌}
use silkware.Memmap.{Entry, copy_map}
use silkware.Memmap.Usable.{zeros, copy_map-usable}
use silkware.PageAlloc.Init.{Premapper, Laid, count_pools, lay_pools}
use silkware.Links.{cell}
use silkware.Base.Exec.{done}

abbrev entry : Bool → ℕ → ℕ → Entry
entry is_usable base size = record { is_usable = is_usable; base = base; size = size }

abbrev entries : List Entry
entries = entry false 0 0x1000 ∷ entry true 0x1000 0x9000 ∷ entry true 0xa000 0 ∷ []

abbrev in_order : Premapper ℕ
in_order = record {
  premap_anon = λ phys len end. done (end, end + len);
  miniheap_alloc = λ size end. done (end, end + size);
}

abbrev start : Laid ℕ
start = record { heap = λ a. cell 0 0; maps = 0x100000 }

copy_map-usable_example :
    (count_pools (copy_map zeros 0 entries) ≡ count_pools ((0x1000, 0x9000) ∷ []))
    × (lay_pools in_order start (copy_map zeros 0 entries)
        ≡ lay_pools in_order start ((0x1000, 0x9000) ∷ []))
copy_map-usable_example = copy_map-usable in_order entries 0 start
