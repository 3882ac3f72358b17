-- ===== src/Paging/Window.antt =====
-- kernel/arch/x86_64/paging.c: what map_page_tmp leaves of the tables, and a step through its window.
use silkware.Base.{
  ℕ, suc, ◌+◌, ◌-◌, ◌*◌, ◌/◌, ◌^◌, ◌<◌, ◌≡◌, ◌≢◌, refl, sym, ap, ◌∙◌, Bool, true, false, ltb, ◌==◌,
  bit_and, ◌∷◌, u64, page_size, arith,
}
use silkware.Base.Exec.{Exec, done}
use silkware.Bits.Digits.{lt_of_bits, bit-and, bit_of_lt}
use silkware.Bits.Shifts.{bit_and_high}
use silkware.PageAlloc.Init.{page_base}
use silkware.Paging.{
  Layout, Tables, addr_masked, entry_at, next_table, physk_to_vk, premap_page, premap_loop,
  premap_pages, x86_flags,
}
use silkware.Paging.Flags.{x86_flags-lt}
use silkware.Paging.Walk.{
  IsReachable, pml4e, pdpte, pde, pte, premap_page-IsMapped, walk1, frame_of, pte-walk1,
  addr_masked-frame_of,
}
use silkware.Paging.Calls.{Kernel, premapped, map_page_tmp, descend}

addr_masked-lt : (x : ℕ) → addr_masked x < 2 ^ 63
unfolding addr_masked
addr_masked-lt x = lt_of_bits 63 _ (λ i h. omega (
  arith,
  bit-and i x ((2 ^ 51 - 1) * 2 ^ 12),
  bit_of_lt 63 i ((2 ^ 51 - 1) * 2 ^ 12) (omega arith) h,
))

-- A frame is a whole page.
frame_of-aligned :
    (x : ℕ) → addr_masked x ≡ frame_of x → addr_masked x / 2 ^ 12 * 2 ^ 12 ≡ addr_masked x
frame_of-aligned x e = omega (arith, e)

-- The end of one page at a page's address.
page_base_next :
    (x : ℕ)
    → x + 0x1fff < 2 ^ 64
    → page_base (u64 (x + 0x1000 + 0xfff)) ≡ (x + 0x1fff) / 2 ^ 12 * 2 ^ 12
unfolding page_base
page_base_next x h =
    let small : u64 (x + 0x1000 + 0xfff) ≡ x + 0x1fff = omega arith in
    rw small (bit_and_high 52 12 (x + 0x1fff) (omega arith))

-- The loop of one page: its second round stops.
one_round :
    (fuel : ℕ) (l : Layout) (s t : Tables) (dst src src_end flags : ℕ)
    → src < src_end
    → premap_page l s dst src flags ≡ done t
    → premap_loop (suc (suc fuel)) l s dst (dst + 0x1000) src src_end flags ≡ done t
unfolding premap_loop
one_round fuel l s t dst src src_end flags h e =
    let first : ltb dst (dst + 0x1000) ≡ true = ground arith in
    let more : ltb src src_end ≡ true = ground arith in
    let stop : ltb (dst + page_size) (dst + 0x1000) ≡ false = ground arith in
    rw (first, more, e, stop) refl

premap_pages-page :
    (fuel : ℕ) (l : Layout) (s t : Tables) (dst q src flags : ℕ)
    → dst ≡ q * 0x1000
    → dst + 0x1fff < 2 ^ 64
    → src < 2 ^ 63
    → premap_page l s dst src (x86_flags flags) ≡ done t
    → premap_pages (suc (suc fuel)) l s dst src 0x1000 flags ≡ done t
unfolding premap_pages
premap_pages-page fuel l s t dst q src flags page h p e =
    let dst_end : page_base (u64 (dst + 0x1000 + 0xfff)) ≡ dst + 0x1000 =
      page_base_next dst h ∙ omega (arith, page) in
    rw (dst_end, page_base_next src (omega arith))
      (one_round fuel l s t dst src _ (x86_flags flags) (omega arith) e)

-- The tables that lead to the window `page_tmp` are there, and the window is a page.
pub record IsWindow (l : Layout) (w : ℕ → ℕ) : Type 0 where
  pub page : ℕ
  pub at_page : l.page_tmp ≡ page * 0x1000
  pub low : l.page_tmp + 0x1fff < 2 ^ 64
  pub reachable : IsReachable l w l.page_tmp

-- The words after a mapping of the window: only the window's own entry has changed.
pub record IsKept (l : Layout) (w w' : ℕ → ℕ) : Type 0 where
  pub same : (a : ℕ) → a ≢ pte l w l.page_tmp → w' a ≡ w a
  pub window : IsWindow l w'
  pub still : pte l w' l.page_tmp ≡ pte l w l.page_tmp

module _ (l : Layout) (w w' : ℕ → ℕ) (is : IsReachable l w l.page_tmp)
    (same : (a : ℕ) → a ≢ pte l w l.page_tmp → w' a ≡ w a) where
  abbrev v : ℕ
  v = l.page_tmp

  next_same : (e : ℕ) → e ≢ pte l w v → next_table l w' e ≡ next_table l w e
  unfolding next_table
  next_same e ne = ap (λ (x : ℕ). physk_to_vk l (addr_masked x)) (same e ne)

  pdpte_same : pdpte l w' v ≡ pdpte l w v
  pdpte_same = ap (λ (t : ℕ). entry_at t v 30) (next_same (pml4e l v) is.apart_top)

  pde_same : pde l w' v ≡ pde l w v
  pde_same =
      ap (λ (t : ℕ). entry_at (next_table l w' t) v 21) pdpte_same
      ∙ ap (λ (t : ℕ). entry_at t v 21) (next_same (pdpte l w v) is.apart_upper)

  pte_same : pte l w' v ≡ pte l w v
  pte_same =
      ap (λ (t : ℕ). entry_at (next_table l w' t) v 12) pde_same
      ∙ ap (λ (t : ℕ). entry_at t v 12) (next_same (pde l w v) is.apart_lower)

  abbrev is_absent : ℕ → Bool
  is_absent x = bit_and x 1 == 0

  IsReachable-same : IsReachable l w' v
  IsReachable-same = record {
    top = ap is_absent (same (pml4e l v) is.apart_top) ∙ is.top;
    upper = ap is_absent (ap w' pdpte_same ∙ same (pdpte l w v) is.apart_upper) ∙ is.upper;
    lower = ap is_absent (ap w' pde_same ∙ same (pde l w v) is.apart_lower) ∙ is.lower;
    apart_top = λ e. is.apart_top (e ∙ pte_same);
    apart_upper = λ e. is.apart_upper (sym pdpte_same ∙ e ∙ pte_same);
    apart_lower = λ e. is.apart_lower (sym pde_same ∙ e ∙ pte_same);
  }

  IsKept-same : IsWindow l w → IsKept l w w'
  IsKept-same window = record {
    same = same;
    window = record {
      page = window.page;
      at_page = window.at_page;
      low = window.low;
      reachable = IsReachable-same;
    };
    still = pte_same;
  }

pub record IsMappedTmp (l : Layout) (phys : ℕ) (k : Kernel) (r : Exec Kernel) : Type 0 where
  pub after : Kernel
  pub returns : r ≡ done after
  pub kept : IsKept l k.tables.word after.tables.word
  pub shows :
      frame_of (after.tables.word (walk1 l after.tables.word l.page_tmp)) ≡ phys / 2 ^ 12 * 2 ^ 12

map_page_tmp-IsMappedTmp :
    (fuel : ℕ) (l : Layout) (phys : ℕ) (k : Kernel)
    → IsWindow l k.tables.word
    → phys < 2 ^ 63
    → IsMappedTmp l phys k (map_page_tmp (suc (suc fuel)) l phys k)
unfolding map_page_tmp premapped
map_page_tmp-IsMappedTmp fuel l phys k is h =
    let mapped =
      premap_page-IsMapped l k.tables l.page_tmp phys (x86_flags 3) is.reachable h
        (x86_flags-lt 3) in
    record {
      after = record k { tables = mapped.state; flushed = l.page_tmp ∷ k.flushed };
      returns =
          rw
            (premap_pages-page fuel l k.tables mapped.state l.page_tmp is.page phys 3 is.at_page
              is.low h mapped.returns)
            refl;
      kept =
          IsKept-same l k.tables.word mapped.state.word is.reachable
            (λ a ne. mapped.others a (λ e. ne (e ∙ sym (pte-walk1 l k.tables.word l.page_tmp)))) is;
      shows = mapped.frame;
    }

-- A step down through the window: the address of the next table, and what has been kept.
pub record IsDescended (l : Layout) (home : ℕ → ℕ) (entry : ℕ) (k : Kernel) (r : Exec (ℕ × Kernel))
    : Type 0 where
  pub after : Kernel
  pub returns : r ≡ done (home (addr_masked (k.tables.word entry)), after)
  pub kept : IsKept l k.tables.word after.tables.word

pub descend-IsDescended :
    (fuel : ℕ) (l : Layout) (home : ℕ → ℕ) (entry : ℕ) (k : Kernel)
    → IsWindow l k.tables.word
    → (bit_and (k.tables.word entry) 1 == 0) ≡ false
    → IsDescended l home entry k (descend (suc (suc fuel)) l home entry k)
unfolding descend
descend-IsDescended fuel l home entry k is present =
    let phys = addr_masked (k.tables.word entry) in
    let mapped = map_page_tmp-IsMappedTmp fuel l phys k is (addr_masked-lt (k.tables.word entry)) in
    let aligned : phys / 2 ^ 12 * 2 ^ 12 ≡ phys =
      frame_of-aligned (k.tables.word entry) (addr_masked-frame_of (k.tables.word entry)) in
    record {
      after = mapped.after;
      returns =
          rw (present, mapped.returns)
            (ap (λ (t : ℕ). done (home t, mapped.after)) (mapped.shows ∙ aligned));
      kept = mapped.kept;
    }
