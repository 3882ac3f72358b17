-- ===== src/Paging/Walk.antt =====
-- What the processor finds for a page that `premap_pages` has mapped.
use silkware.Base.{
  ℕ, ◌+◌, ◌*◌, ◌/◌, ◌^◌, ◌<◌, ◌≡◌, ◌≢◌, refl, ap, ◌∙◌, false, bit_and, bit_or, arith, ◌==◌, sym,
  ◌%◌, u64, sub64,
}
use silkware.Base.Exec.{Exec, done}
use silkware.Bits.Shifts.{bit_or_fields, bit_and_high, bit_and_mask, bit_and_middle}
use silkware.Paging.{
  Layout, Tables, addr_masked, set_word, table_at, entry_at, next_table, premap_page, physk_to_vk,
}

-- The addresses of the four entries for `virt`, in the tables that `w` holds.
abbrev pub pml4e : Layout → ℕ → ℕ
pml4e l virt = entry_at l.kpml4 virt 39

abbrev pub pdpte : Layout → (ℕ → ℕ) → ℕ → ℕ
pdpte l w virt = entry_at (next_table l w (pml4e l virt)) virt 30

abbrev pub pde : Layout → (ℕ → ℕ) → ℕ → ℕ
pde l w virt = entry_at (next_table l w (pdpte l w virt)) virt 21

abbrev pub pte : Layout → (ℕ → ℕ) → ℕ → ℕ
pte l w virt = entry_at (next_table l w (pde l w virt)) virt 12

-- The three upper entries for `virt` are present.
pub record IsReachable (l : Layout) (w : ℕ → ℕ) (virt : ℕ) : Type 0 where
  pub top : (bit_and (w (pml4e l virt)) 1 == 0) ≡ false
  pub upper : (bit_and (w (pdpte l w virt)) 1 == 0) ≡ false
  pub lower : (bit_and (w (pde l w virt)) 1 == 0) ≡ false
  pub apart_top : pml4e l virt ≢ pte l w virt
  pub apart_upper : pdpte l w virt ≢ pte l w virt
  pub apart_lower : pde l w virt ≢ pte l w virt

table_at-present :
    (l : Layout) (s : Tables) (entry : ℕ)
    → (bit_and (s.word entry) 1 == 0) ≡ false
    → table_at l s entry ≡ done s
unfolding table_at
table_at-present l s entry h = rw h refl

addr_masked-high : (src : ℕ) → src < 2 ^ 63 → addr_masked src ≡ src / 2 ^ 12 * 2 ^ 12
unfolding addr_masked
addr_masked-high src small = bit_and_high 51 12 src small

-- The flags below a page's address do not touch it.
addr_masked-flags :
    (src flags : ℕ)
    → src < 2 ^ 63
    → flags < 2 ^ 12
    → addr_masked (bit_or (addr_masked src) flags) ≡ src / 2 ^ 12 * 2 ^ 12
unfolding addr_masked
addr_masked-flags src flags small low =
    let e = bit_and_high 51 12 src small in
    let sum = bit_or_fields 12 (src / 2 ^ 12) flags low in
    let again = bit_and_high 51 12 (src / 2 ^ 12 * 2 ^ 12 + flags) (omega arith) in
    rw (e, sum, again) (omega arith)

module _ (l : Layout) (w : ℕ → ℕ) (virt x : ℕ) (is : IsReachable l w virt) where
  abbrev written : ℕ → ℕ
  written = set_word w (pte l w virt) x

  next_table-written : (e : ℕ) → e ≢ pte l w virt → next_table l written e ≡ next_table l w e
  unfolding next_table set_word
  next_table-written e ne = let other : (e == pte l w virt) ≡ false = ground arith in rw other refl

  pdpte-written : pdpte l written virt ≡ pdpte l w virt
  pdpte-written =
      ap (λ (t : ℕ). entry_at t virt 30) (next_table-written (pml4e l virt) is.apart_top)

  pde-written : pde l written virt ≡ pde l w virt
  pde-written =
      ap (λ (t : ℕ). entry_at (next_table l written t) virt 21) pdpte-written
      ∙ ap (λ (t : ℕ). entry_at t virt 21) (next_table-written (pdpte l w virt) is.apart_upper)

  pte-written : pte l written virt ≡ pte l w virt
  pte-written =
      ap (λ (t : ℕ). entry_at (next_table l written t) virt 12) pde-written
      ∙ ap (λ (t : ℕ). entry_at t virt 12) (next_table-written (pde l w virt) is.apart_lower)

  word-written : written (pte l written virt) ≡ x
  unfolding set_word
  word-written = ap written pte-written ∙ ground arith

-- The walk of the processor: nine digits of the address give the word in a table of 512 words, and
-- digits 12 to 62 of the word the frame of the next table, which stands at its address in the kernel.
abbrev pub slot : ℕ → ℕ → ℕ → ℕ
slot table virt k = table + 8 * (virt / 2 ^ k % 512)

abbrev pub frame_of : ℕ → ℕ
frame_of x = x / 2 ^ 12 % 2 ^ 51 * 2 ^ 12

abbrev pub table_of : Layout → ℕ → ℕ
table_of l x = u64 (sub64 (frame_of x) l.physical_base + l.virtual_base)

abbrev pub walk4 : Layout → ℕ → ℕ
walk4 l virt = slot l.kpml4 virt 39

abbrev pub walk3 : Layout → (ℕ → ℕ) → ℕ → ℕ
walk3 l w virt = slot (table_of l (w (walk4 l virt))) virt 30

abbrev pub walk2 : Layout → (ℕ → ℕ) → ℕ → ℕ
walk2 l w virt = slot (table_of l (w (walk3 l w virt))) virt 21

abbrev pub walk1 : Layout → (ℕ → ℕ) → ℕ → ℕ
walk1 l w virt = slot (table_of l (w (walk2 l w virt))) virt 12

pub entry_at-slot : (table virt k : ℕ) → entry_at table virt k ≡ slot table virt k
unfolding entry_at
entry_at-slot table virt k = ap (λ (t : ℕ). table + 8 * t) (bit_and_mask 9 (virt / 2 ^ k))

pub addr_masked-frame_of : (x : ℕ) → addr_masked x ≡ frame_of x
unfolding addr_masked
addr_masked-frame_of x = bit_and_middle 51 12 x

next_table-table_of : (l : Layout) (w : ℕ → ℕ) (e : ℕ) → next_table l w e ≡ table_of l (w e)
unfolding next_table physk_to_vk
next_table-table_of l w e =
    ap (λ (t : ℕ). u64 (sub64 t l.physical_base + l.virtual_base)) (addr_masked-frame_of (w e))

-- An entry one table further down.
step-slot :
    (l : Layout) (w : ℕ → ℕ) (virt e f k : ℕ)
    → e ≡ f
    → entry_at (next_table l w e) virt k ≡ slot (table_of l (w f)) virt k
step-slot l w virt e f k same =
    entry_at-slot (next_table l w e) virt k
    ∙ ap (λ (t : ℕ). slot t virt k) (next_table-table_of l w e)
    ∙ ap (λ (t : ℕ). slot (table_of l (w t)) virt k) same

module _ (l : Layout) (w : ℕ → ℕ) (virt : ℕ) where
  pml4e-walk4 : pml4e l virt ≡ walk4 l virt
  pml4e-walk4 = entry_at-slot l.kpml4 virt 39

  pdpte-walk3 : pdpte l w virt ≡ walk3 l w virt
  pdpte-walk3 = step-slot l w virt _ _ 30 pml4e-walk4

  pde-walk2 : pde l w virt ≡ walk2 l w virt
  pde-walk2 = step-slot l w virt _ _ 21 pdpte-walk3

  pub pte-walk1 : pte l w virt ≡ walk1 l w virt
  pte-walk1 = step-slot l w virt _ _ 12 pde-walk2

-- What a page of `premap_pages` leads to.
pub record IsMapped (l : Layout) (s : Tables) (virt src flags : ℕ) (r : Exec Tables) : Type 0 where
  pub state : Tables
  pub returns : r ≡ done state
  pub entry : state.word (walk1 l state.word virt) ≡ src / 2 ^ 12 * 2 ^ 12 + flags
  pub frame : frame_of (state.word (walk1 l state.word virt)) ≡ src / 2 ^ 12 * 2 ^ 12
  pub others : (a : ℕ) → a ≢ walk1 l s.word virt → state.word a ≡ s.word a

-- Let the three upper entries for `dst` be present and lie apart from its page entry, the source lie
-- below 2 ^ 63 and the flags fit 12 digits. Then the loop's body of premap_pages ends; a walk
-- through the tables that it leaves comes to an entry with the flags and the source's page, and no
-- other word changes.
pub premap_page-IsMapped :
    (l : Layout) (s : Tables) (dst src flags : ℕ)
    → IsReachable l s.word dst
    → src < 2 ^ 63
    → flags < 2 ^ 12
    → IsMapped l s dst src flags (premap_page l s dst src flags)
unfolding premap_page
premap_page-IsMapped l s dst src flags is small low =
    let x = bit_or (addr_masked src) flags in
    let w' = set_word s.word (pte l s.word dst) x in
    let at_end = pte-walk1 l w' dst in
    let sum : x ≡ src / 2 ^ 12 * 2 ^ 12 + flags =
      ap (λ (t : ℕ). bit_or t flags) (addr_masked-high src small)
      ∙ bit_or_fields 12 (src / 2 ^ 12) flags low in
    let found = ap w' (sym at_end) ∙ word-written l s.word dst x is ∙ sum in
    record {
      state = record s { word = set_word s.word (pte l s.word dst) x };
      returns =
          rw
            (
              table_at-present l s (pml4e l dst) is.top,
              table_at-present l s (pdpte l s.word dst) is.upper,
              table_at-present l s (pde l s.word dst) is.lower,
            )
            refl;
      entry = found;
      frame = ap frame_of found ∙ omega arith;
      others = λ a ne.
          let apart : a ≢ pte l s.word dst = λ e. ne (e ∙ pte-walk1 l s.word dst) in
          unfold set_word in ground arith;
    }
