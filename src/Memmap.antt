-- ===== src/Memmap.antt =====
-- kernel/arch/x86_64/memmap.c with kernel/memmap.c: the kernel's copy of the memory map.
pub mod Usable
use silkware.Base.{
  ℕ, ◌+◌, ◌*◌, Bool, not, ◌&&◌, ◌==◌, if◌then◌else◌, List, [], ◌∷◌, length, Option, none, some, u64,
}
use silkware.Base.Exec.{Exec, done, panicked, ◌>>=◌}
use silkware.Paging.{Layout, Tables, miniheap_alloc}

-- An entry of the boot loader's map; `is_usable` tells whether its type is LIMINE_MEMMAP_USABLE.
pub record Entry : Type 0 where
  pub is_usable : Bool
  pub base : ℕ
  pub size : ℕ

-- What `memmap` holds for an entry, its base and its length; `old` is the length that stood in the
-- memory before, which is not written for an entry that is not taken.
unfoldable pub copied : ℕ → Entry → ℕ × ℕ
copied old e = if e.is_usable && not (e.size == 0) then (e.base, e.size) else (0, old)

-- The loop of `memmap_init` from index `i`.
unfoldable pub copy_map : (ℕ → ℕ) → ℕ → List Entry → List (ℕ × ℕ)
unfolding copied
copy_map old i [] = []
copy_map old i (e ∷ es) = copied (old i) e ∷ copy_map old (i + 1) es

-- The address of `memmap`, its entries, and the mini heap; the map is none without a response.
unfoldable pub memmap_init :
    Layout → Tables → (ℕ → ℕ) → Option (List Entry) → Exec ((ℕ × List (ℕ × ℕ)) × Tables)
unfolding copy_map miniheap_alloc
memmap_init l s old none = panicked
memmap_init l s old (some []) = panicked
memmap_init l s old (some (e ∷ es)) =
    miniheap_alloc l s (u64 (16 * length (e ∷ es))) >>= λ (r : ℕ × Tables).
    done ((r.0, copy_map old 0 (e ∷ es)), r.1)
