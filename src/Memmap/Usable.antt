-- ===== src/Memmap/Usable.antt =====
-- kernel/arch/x86_64/memmap.c and kernel/page_alloc.c: only usable memory becomes pools.
use silkware.Base.{
  ℕ, ◌+◌, ◌≡◌, refl, ap, fun_ext, ◌∙◌, ◌++◌, not, ◌&&◌, ◌==◌, if◌then◌else◌, List, [], ◌∷◌,
  Bool-cases, inl, inr, ltb, page_size,
}
use silkware.Base.Exec.{Exec, done, ◌>>=◌}
use silkware.PageAlloc.{Pool}
use silkware.PageAlloc.Init.{Premapper, Laid, count_loop, count_pools, lay_loop, lay_pools}
use silkware.Memmap.{Entry, copy_map}

-- The entries that are usable and not empty, with their base and length.
abbrev pub usable : List Entry → List (ℕ × ℕ)
usable [] = []
usable (e ∷ es) =
    let rest = usable es in
    if e.is_usable && not (e.size == 0) then (e.base, e.size) ∷ rest else rest

abbrev pub zeros : ℕ → ℕ
zeros i = 0

count_pools-cons :
    (x : ℕ × ℕ) (r t : List (ℕ × ℕ))
    → count_pools r ≡ count_pools t
    → count_pools (x ∷ r) ≡ count_pools (x ∷ t)
unfolding count_pools
count_pools-cons (base, len) r t e =
    ap
      (λ (later : Exec ℕ).
        if ltb len page_size
        then later
        else (count_loop 64 len >>= λ n. later >>= λ m. done (n + m)))
      e

module _ {ℓ} {S : Type ℓ} (io : Premapper S) where
  abbrev Lay : Type ℓ
  Lay = Laid S → Exec (List Pool × Laid S)

  lay_pools-cons :
      (x : ℕ × ℕ) (r t : List (ℕ × ℕ)) (s : Laid S)
      → ((s' : Laid S) → lay_pools io s' r ≡ lay_pools io s' t)
      → lay_pools io s (x ∷ r) ≡ lay_pools io s (x ∷ t)
  unfolding lay_pools
  lay_pools-cons (base, len) r t s e =
      let all : ◌≡◌ {A = Lay} (λ s'. lay_pools io s' r) (λ s'. lay_pools io s' t) = fun_ext e in
      ap
        (λ (later : Lay).
          if ltb len page_size
          then later s
          else (lay_loop io 64 s base len >>= λ (a : List Pool × Laid S).
              later a.1 >>= λ (b : List Pool × Laid S). done (a.0 ++ b.0, b.1)))
        all

  lay_pools-zero : (r : List (ℕ × ℕ)) (s : Laid S) → lay_pools io s ((0, 0) ∷ r) ≡ lay_pools io s r
  unfolding lay_pools
  lay_pools-zero r s = refl

-- An entry of length 0 is passed over.
count_pools-zero : (r : List (ℕ × ℕ)) → count_pools ((0, 0) ∷ r) ≡ count_pools r
unfolding count_pools
count_pools-zero r = refl

-- Where the memory of the mini heap holds zeros, the pools that page_alloc_init counts and lays out
-- of the kernel's copy of the memory map are those of the entries that are usable and not empty,
-- whatever the other entries say.
pub copy_map-usable {ℓ} :
    {S : Type ℓ} (io : Premapper S) (es : List Entry) (i : ℕ) (s : Laid S)
    → (count_pools (copy_map zeros i es) ≡ count_pools (usable es))
      × (lay_pools io s (copy_map zeros i es) ≡ lay_pools io s (usable es))
unfolding copy_map
copy_map-usable io [] i s = (refl, refl)
copy_map-usable io (e ∷ es) i s =
    let rest = copy_map-usable io es (i + 1) in
    elim (Bool-cases (e.is_usable && not (e.size == 0))) [
      | inl t ↦ rw t (
        count_pools-cons (e.base, e.size) _ (usable es) (rest s).0,
        lay_pools-cons io (e.base, e.size) _ (usable es) s (λ s'. (rest s').1),
      )
      | inr f ↦ rw f (count_pools-zero _ ∙ (rest s).0, lay_pools-zero io _ s ∙ (rest s).1)
    ]
